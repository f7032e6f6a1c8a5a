-- ===== src/TaskManager/Steps/Stays.antt =====
-- From one table to a later one: a row goes on along the life of a task, and stays as it is once it has
-- ended.
pub mod Add
use ds_service.Base.{
  ℕ, ◌≤◌, ◌<◌, ◌≡◌, ◌≢◌, refl, String, true, false, List, length, get_or, set, push_back, arith,
  inl, inr, Bool-cases, eqb, eqb→eq, get_or-set, get_or-push_back,
}
use ds_service.TaskManager.Propagate.Cells.{live_in_range}
use ds_service.TaskManager.State.{TaskTable, state_at}
use ds_service.TaskState.{
  TaskState, waiting, ready, running, finished, failed, canceled, undefined, is_live,
}

-- How far a task is along its life.
unfoldable pub stage : TaskState → ℕ
stage undefined = 0
stage waiting = 1
stage ready = 2
stage running = 3
stage finished = 4
stage failed = 4
stage canceled = 4

-- From the table `t` to the table `u` no row goes away, and no row goes back to an earlier stage. A row
-- that runs in both has the same worker, and a row that has ended keeps its state and its output.
pub record Stays (t u : TaskTable) : Type 0 where
  pub rows : length t.task_id ≤ length u.task_id
  pub order : (i : ℕ) → i < length t.task_id → stage (state_at t i) ≤ stage (state_at u i)
  pub worker :
      (i : ℕ)
      → i < length t.task_id
      → state_at t i ≡ running
      → state_at u i ≡ running
      → get_or u.worker_id i "" ≡ get_or t.worker_id i ""
  pub state :
      (i : ℕ) → i < length t.task_id → is_live (state_at t i) ≡ false → state_at u i ≡ state_at t i
  pub output :
      (i : ℕ)
      → i < length t.task_id
      → is_live (state_at t i) ≡ false
      → get_or u.output i "" ≡ get_or t.output i ""

-- No column of the four changes.
pub same-Stays :
    (t u : TaskTable)
    → u.task_id ≡ t.task_id
    → u.state ≡ t.state
    → u.worker_id ≡ t.worker_id
    → u.output ≡ t.output
    → Stays t u
same-Stays t u ids states workers outputs = record {
  rows = ground arith;
  order = λ i h. ground arith;
  worker = λ i h e r. ground arith;
  state = λ i h e. ground arith;
  output = λ i h e. ground arith;
}

pub Stays-refl : (t : TaskTable) → Stays t t
Stays-refl t = same-Stays t t refl refl refl refl

stage_between : (s : TaskState) → 3 ≤ stage s → stage s ≤ 3 → s ≡ running
unfolding stage
stage_between s a b = ground arith

pub Stays-trans : (t u v : TaskTable) → Stays t u → Stays u v → Stays t v
unfolding stage
Stays-trans t u v a b = record {
  rows = omega (arith, a.rows, b.rows);
  order = λ i h. omega (arith, a.rows, a.order i h, b.order i (omega (arith, a.rows)));
  worker = λ i h e r.
      let h' : i < length u.task_id = omega (arith, a.rows) in
      let m : state_at u i ≡ running =
        stage_between (state_at u i) (ground (arith, a.order i h, e))
          (ground (arith, b.order i h', r)) in
      ground (arith, a.worker i h e m, b.worker i h' m r);
  state = λ i h e. ground (arith, a.rows, a.state i h e, b.state i);
  output = λ i h e. ground (arith, a.rows, a.state i h e, a.output i h e, b.output i);
}

pub stage-live : (s : TaskState) → is_live s ≡ true → stage s < 4
unfolding stage is_live
stage-live s live = ground arith

pub get_or-set_other :
    (xs : List String) (index : ℕ) (text : String) (i : ℕ)
    → eqb index i ≡ false
    → get_or (set xs index text) i "" ≡ get_or xs i ""
get_or-set_other xs index text i other = ground (arith, get_or-set xs index text i "", other)

-- One row that can run goes on to a later state, and no other row changes.
pub moved-Stays :
    (t u : TaskTable) (index : ℕ) (s : TaskState)
    → is_live (state_at t index) ≡ true
    → stage (state_at t index) < stage s
    → u.task_id ≡ t.task_id
    → u.state ≡ set t.state index s
    → ((i : ℕ) → eqb index i ≡ false → get_or u.worker_id i "" ≡ get_or t.worker_id i "")
    → ((i : ℕ) → eqb index i ≡ false → get_or u.output i "" ≡ get_or t.output i "")
    → Stays t u
unfolding stage
moved-Stays t u index s live on ids states workers outputs = record {
  rows = ground arith;
  order = λ i h. ground (arith, get_or-set t.state index s i undefined, eqb→eq index i);
  worker = λ i h e r. ground (
    arith,
    get_or-set t.state index s i undefined,
    eqb→eq index i,
    workers i,
    live_in_range t.state index live,
  );
  state = λ i h e. ground (arith, get_or-set t.state index s i undefined, eqb→eq index i);
  output = λ i h e. ground (arith, eqb→eq index i, outputs i);
}

pub get_or-grow :
    {A : Type 0} (xs : List A) (v : A) (i : ℕ) (d : A)
    → i < length xs
    → get_or (push_back xs v) i d ≡ get_or xs i d
get_or-grow xs v i d h = ground (arith, get_or-push_back xs v i d)
