-- ===== src/TaskManager/Propagate/Cells.antt =====
-- What the walk over the children does to the cells of a row, and what it leaves alone.
use ds_service.Base.{
  ℕ, zero, suc, ◌<◌, ◌≡◌, ◌⊎◌, inl, inr, String, true, false, List, [], ◌∷◌, length, get_or, arith,
  Bool-cases, length-set, get_or-set,
}
use ds_service.TaskManager.Propagate.{end_row, push_all, walk}
use ds_service.TaskManager.State.{TaskTable, IsAligned, state_at, children_at, origin_at}
use ds_service.TaskState.{TaskState, undefined, is_live}

pub live_in_range :
    (states : List TaskState) (i : ℕ)
    → is_live (get_or states i undefined) ≡ true
    → i < length states
unfolding get_or is_live
live_in_range [] i h = ground arith
live_in_range (s ∷ states) zero h = omega arith
live_in_range (s ∷ states) (suc i) h = omega (arith, live_in_range states i h)

-- The columns that no ending touches, and the number of rows.
pub record SameGraph (t u : TaskTable) : Type 0 where
  pub task_id : u.task_id ≡ t.task_id
  pub function : u.function ≡ t.function
  pub input : u.input ≡ t.input
  pub priority : u.priority ≡ t.priority
  pub queues : u.queues ≡ t.queues
  pub seq : u.seq ≡ t.seq
  pub pending_parents : u.pending_parents ≡ t.pending_parents
  pub children : u.children ≡ t.children
  pub output : length u.output ≡ length t.output
  pub state : length u.state ≡ length t.state
  pub worker_id : length u.worker_id ≡ length t.worker_id
  pub terminal_origin : length u.terminal_origin ≡ length t.terminal_origin

pub SameGraph-refl : (t : TaskTable) → SameGraph t t
SameGraph-refl t = ground arith

-- The row is as it was.
pub record IsKept (t u : TaskTable) (j : ℕ) : Type 0 where
  pub state : state_at u j ≡ state_at t j
  pub output : get_or u.output j "" ≡ get_or t.output j ""
  pub worker_id : get_or u.worker_id j "" ≡ get_or t.worker_id j ""
  pub origin : origin_at u j ≡ origin_at t j

-- The row could still run, and now has the ending.
pub record IsEnded (s : TaskState) (text : String) (from : ℕ) (t u : TaskTable) (j : ℕ)
    : Type 0 where
  pub live : is_live (state_at t j) ≡ true
  pub state : state_at u j ≡ s
  pub output : get_or u.output j "" ≡ text
  pub worker_id : get_or u.worker_id j "" ≡ ""
  pub origin : origin_at u j ≡ from

module _ (s : TaskState) (output : String) (origin : ℕ) where
  SameGraph-end_row :
      (t u : TaskTable) (i : ℕ) → SameGraph (end_row t s output origin i) u → SameGraph t u
  unfolding end_row
  SameGraph-end_row t u i g = ground (
    arith,
    length-set t.output i output,
    length-set t.state i s,
    length-set t.worker_id i "",
    length-set t.terminal_origin i origin,
  )

  pub walk-SameGraph :
      (fuel : ℕ) (t : TaskTable) (pending : List ℕ)
      → SameGraph t (walk fuel s output origin t pending).0
  unfolding walk
  walk-SameGraph zero t pending = SameGraph-refl t
  walk-SameGraph (suc fuel) t [] = SameGraph-refl t
  walk-SameGraph (suc fuel) t (i ∷ pending) = elim (Bool-cases (is_live (state_at t i))) [
    | inl e ↦ rw e (
        SameGraph-end_row t _ i
          (walk-SameGraph fuel (end_row t s output origin i) (push_all pending (children_at t i))))
    | inr e ↦ rw e (walk-SameGraph fuel t pending)
  ]

  abbrev pub Outcome : TaskTable → TaskTable → ℕ → Type 0
  Outcome t u j = IsKept t u j ⊎ IsEnded s output origin t u j

  pub end_row-IsAligned :
      (t : TaskTable) (i : ℕ) → IsAligned t → IsAligned (end_row t s output origin i)
  unfolding end_row
  end_row-IsAligned t i a = ground (
    arith,
    length-set t.output i output,
    length-set t.state i s,
    length-set t.worker_id i "",
    length-set t.terminal_origin i origin,
  )

  Outcome-end_row :
      (t u : TaskTable) (i j : ℕ)
      → is_live s ≡ false
      → IsAligned t
      → is_live (state_at t i) ≡ true
      → Outcome (end_row t s output origin i) u j
      → Outcome t u j
  unfolding end_row
  Outcome-end_row t u i j dead a live o = ground (
    arith,
    live_in_range t.state i live,
    get_or-set t.state i s j undefined,
    get_or-set t.output i output j "",
    get_or-set t.worker_id i "" j "",
    get_or-set t.terminal_origin i origin j 0,
  )

  pub walk-Outcome :
      (fuel : ℕ) (t : TaskTable) (pending : List ℕ) (j : ℕ)
      → is_live s ≡ false
      → IsAligned t
      → Outcome t (walk fuel s output origin t pending).0 j
  unfolding walk
  walk-Outcome zero t pending j dead a = inl (ground arith)
  walk-Outcome (suc fuel) t [] j dead a = inl (ground arith)
  walk-Outcome (suc fuel) t (i ∷ pending) j dead a = elim (Bool-cases (is_live (state_at t i))) [
    | inl e ↦ rw e (
        Outcome-end_row t _ i j dead a e (
          walk-Outcome fuel (end_row t s output origin i) (push_all pending (children_at t i)) j
            dead (end_row-IsAligned t i a)))
    | inr e ↦ rw e (walk-Outcome fuel t pending j dead a)
  ]
