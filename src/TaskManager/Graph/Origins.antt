-- ===== src/TaskManager/Graph/Origins.antt =====
-- The origins of the rows that ended without success: terminal_origin and what terminal_output makes of it.
pub mod Add
use ds_service.Base.{
  ℕ, ◌≡◌, ◌≢◌, ◌⊎◌, ◌∙◌, refl, sym, inl, inr, String, List, [], ◌∷◌, true, false, get_or, eqb,
  eqb→eq, set, get_or-set, arith, Bool-cases,
}
use ds_service.TaskManager.Graph.{is_doomed}
use ds_service.TaskManager.Graph.Passed.{Passed}
use ds_service.TaskManager.Propagate.{terminal_output}
use ds_service.TaskManager.State.{TaskTable, state_at, origin_at}
use ds_service.TaskState.{TaskState, failed, canceled, undefined, is_live, same}
use ds_service.ThirdParty.{ThirdParty}

module _ (P : ThirdParty) where
  -- The origin of the row `i` ended in the state of the row, by itself; and if it is another row, then
  -- the output of a failed row names the id of the origin, and that of a canceled row says so.
  pub record IsRooted (t : TaskTable) (i : ℕ) : Type 0 where
    pub state : state_at t (origin_at t i) ≡ state_at t i
    pub origin : origin_at t (origin_at t i) ≡ origin_at t i
    pub failed_output :
        origin_at t i ≢ i
        → state_at t i ≡ failed
        → get_or t.output i ""
          ≡ P.format "Dependency failed (task_id={})" (get_or t.task_id (origin_at t i) "" ∷ [])
    pub canceled_output :
        origin_at t i ≢ i → state_at t i ≡ canceled → get_or t.output i "" ≡ "Task canceled"

  abbrev pub AllRooted : TaskTable → Type 0
  AllRooted t = (i : ℕ) → is_doomed (state_at t i) ≡ true → IsRooted t i

  -- What a row that ended without success keeps.
  pub record IsFixed (t u : TaskTable) (i : ℕ) : Type 0 where
    pub state : state_at u i ≡ state_at t i
    pub origin : origin_at u i ≡ origin_at t i
    pub output : get_or u.output i "" ≡ get_or t.output i ""
    pub task_id : get_or u.task_id i "" ≡ get_or t.task_id i ""

  -- The rows that had ended without success are fixed, and those that end so now are rooted.
  pub record Roots (t u : TaskTable) : Type 0 where
    pub fixed : (i : ℕ) → is_doomed (state_at t i) ≡ true → IsFixed t u i
    pub fresh :
        (i : ℕ) → is_doomed (state_at t i) ≡ false → is_doomed (state_at u i) ≡ true → IsRooted u i

  fixed-IsRooted :
      (t u : TaskTable) (i : ℕ)
      → IsFixed t u i
      → IsFixed t u (origin_at t i)
      → IsRooted t i
      → IsRooted u i
  fixed-IsRooted t u i f o r = record {
    state = ground (arith, f.origin, f.state, o.state, r.state);
    origin = ground (arith, f.origin, o.origin, r.origin);
    failed_output = λ other e. ground (
      arith,
      f.origin,
      f.output,
      o.task_id,
      r.failed_output (λ same. other (f.origin ∙ same)) (sym f.state ∙ e),
    );
    canceled_output =
        λ other e. f.output ∙ r.canceled_output (λ same. other (f.origin ∙ same)) (sym f.state ∙ e);
  }

  pub Roots-AllRooted : (t u : TaskTable) → Roots t u → AllRooted t → AllRooted u
  Roots-AllRooted t u k r i doomed = elim (Bool-cases (is_doomed (state_at t i))) [
    | inr not_yet ↦ k.fresh i not_yet doomed
    | inl before ↦
        fixed-IsRooted t u i (k.fixed i before)
          (k.fixed (origin_at t i) (rw ((r i before).state) before)) (r i before)
  ]

  -- No row ends without success, and the rows that have done so before keep their cells.
  pub quiet-Roots :
      (t u : TaskTable)
      → ((i : ℕ) → is_doomed (state_at u i) ≡ is_doomed (state_at t i))
      → ((i : ℕ) → is_doomed (state_at t i) ≡ true → IsFixed t u i)
      → Roots t u
  quiet-Roots t u doomed fixed = record {
    fixed = fixed;
    fresh = λ i before now. ground (arith, doomed i, before, now);
  }

  -- The row `index` ends without success, and its ending is passed on to the rows below it.
  pub ended-Roots :
      (t u : TaskTable) (index : ℕ) (s : TaskState)
      → is_live (state_at t index) ≡ true
      → u.task_id ≡ t.task_id
      → state_at u index ≡ s
      → origin_at u index ≡ index
      → ((i : ℕ) → i ≢ index → Passed s (terminal_output P t s index) index t u i)
      → Roots t u
  unfolding is_doomed is_live terminal_output same
  ended-Roots t u index s live ids state origin others = record {
    fixed = λ i before. elim (Bool-cases (eqb i index)) [
      | inl same ↦ absurd (ground (arith, live, before, eqb→eq i index same))
      | inr other ↦ elim (others i (λ e. ground (arith, e, other))) [
        | inl (below, x) ↦ absurd (ground (arith, x.live, before))
        | inr (why, k) ↦ record {
          state = k.state;
          origin = k.origin;
          output = k.output;
          task_id = rw ids refl;
        }
      ]
    ];
    fresh = λ i before now. elim (Bool-cases (eqb i index)) [
      | inl same ↦ record {
        state = ground (arith, origin, eqb→eq i index same);
        origin = ground (arith, origin, eqb→eq i index same);
        failed_output = λ other _. absurd (ground (arith, other, origin, eqb→eq i index same));
        canceled_output = λ other _. absurd (ground (arith, other, origin, eqb→eq i index same));
      }
      | inr other ↦ elim (others i (λ e. ground (arith, e, other))) [
        | inr (why, k) ↦ absurd (ground (arith, k.state, before, now))
        | inl (below, x) ↦ record {
          state = ground (arith, x.origin, x.state, state);
          origin = ground (arith, x.origin, origin);
          failed_output =
              λ _ at_failed. ground (arith, at_failed, x.origin, x.state, x.output, ids);
          canceled_output =
              λ _ at_canceled. ground (arith, at_canceled, x.origin, x.state, x.output, ids);
        }
      ]
    ];
  }

  -- No column that the origins concern changes.
  pub same-AllRooted :
      (t u : TaskTable)
      → u.task_id ≡ t.task_id
      → u.state ≡ t.state
      → u.output ≡ t.output
      → u.terminal_origin ≡ t.terminal_origin
      → AllRooted t
      → AllRooted u
  same-AllRooted t u ids states outputs origins = Roots-AllRooted t u (
      quiet-Roots t u (λ i. rw states refl)
        (λ i before. record {
          state = rw states refl;
          origin = rw origins refl;
          output = rw outputs refl;
          task_id = rw ids refl;
        }))

  -- One row goes on, and neither had nor has ended without success.
  pub moved-AllRooted :
      (t u : TaskTable) (index : ℕ) (s : TaskState)
      → is_doomed (state_at t index) ≡ false
      → is_doomed s ≡ false
      → u.task_id ≡ t.task_id
      → u.state ≡ set t.state index s
      → u.terminal_origin ≡ t.terminal_origin
      → ((i : ℕ) → eqb index i ≡ false → get_or u.output i "" ≡ get_or t.output i "")
      → AllRooted t
      → AllRooted u
  moved-AllRooted t u index s before now ids states origins outputs = Roots-AllRooted t u (
      quiet-Roots t u
        (λ i.
          rw states
            (ground (arith, get_or-set t.state index s i undefined, before, now, eqb→eq index i)))
        (λ i doomed.
          let other : eqb index i ≡ false = ground (arith, before, doomed, eqb→eq index i) in
          record {
            state = rw states (ground (arith, get_or-set t.state index s i undefined, other));
            origin = rw origins refl;
            output = outputs i other;
            task_id = rw ids refl;
          }))
