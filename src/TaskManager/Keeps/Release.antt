-- ===== src/TaskManager/Keeps/Release.antt =====
-- The loop of TaskManager::done over the children of a finished row: the counts of pending parents stay
-- right, and a child becomes Ready exactly when its last parent has finished.
use ds_service.Base.{
  ℕ, suc, ◌+◌, ◌<◌, ◌≡◌, ◌≢◌, refl, ◌∙◌, inl, inr, true, false, ◌&&◌, List, [], ◌∷◌, length, get_or,
  set, eqb, if◌then◌else◌, Bool-cases, arith, length-set, get_or-set,
}
use ds_service.TaskManager.Done.{decrement, release_child, release_children}
use ds_service.TaskManager.Graph.{IsGraph, is_doomed, is_released}
use ds_service.TaskManager.Graph.Owed.{occ, owed, owed-cong}
use ds_service.TaskManager.State.{
  TaskTable, TaskManager, IsAligned, state_at, children_at, pending_at, enqueue,
}
use ds_service.TaskState.{ready, waiting, undefined, same, is_live}
use ds_service.ThirdParty.{ThirdParty}

-- The graph while the rows of `rest` have yet to be told that a parent finished.
pub record Releasing (t : TaskTable) (rest : List ℕ) : Type 0 where
  pub aligned : IsAligned t
  pub forward : (p c : ℕ) → 0 < occ c (children_at t p) → (p < c) × (c < length t.task_id)
  pub counted :
      (c : ℕ) → c < length t.task_id → pending_at t c ≡ owed t.state t.children c + occ c rest
  pub defined : (c : ℕ) → c < length t.task_id → state_at t c ≢ undefined
  pub held : (c : ℕ) → c < length t.task_id → state_at t c ≡ waiting → 0 < pending_at t c
  pub released :
      (c : ℕ) → c < length t.task_id → is_released (state_at t c) ≡ true → pending_at t c ≡ 0
  pub ended :
      (p c : ℕ)
      → 0 < occ c (children_at t p)
      → is_doomed (state_at t p) ≡ true
      → is_live (state_at t c) ≡ false
  pub in_range : (c : ℕ) → 0 < occ c rest → c < length t.task_id

pub Releasing-IsGraph : (t : TaskTable) → Releasing t [] → IsGraph t
unfolding occ
Releasing-IsGraph t r = record {
  forward = r.forward;
  counted = λ c h. omega (arith, r.counted c h);
  defined = r.defined;
  held = r.held;
  released = r.released;
  ended = r.ended;
}

-- What one round does to the columns of the graph.
module _ (t : TaskTable) (child : ℕ) (rest : List ℕ) (r : Releasing t (child ∷ rest)) where
  child_in_range : child < length t.task_id
  unfolding occ
  child_in_range = r.in_range child (ground arith)

  pending-pos : 0 < pending_at t child
  unfolding occ
  pending-pos = ground (arith, r.counted child child_in_range)

  count : ℕ
  count = decrement (pending_at t child)

  count-lt : suc count ≡ pending_at t child
  unfolding count decrement
  count-lt = ground (arith, pending-pos)

  -- The child only takes the lower count.
  counted_only : TaskTable
  counted_only = record t { pending_parents = set t.pending_parents child count }

  pending_at-counted :
      (c : ℕ)
      → get_or (set t.pending_parents child count) c 0
        ≡ (if eqb child c then count else pending_at t c)
  pending_at-counted c =
      ground (arith, get_or-set t.pending_parents child count c 0, r.aligned, child_in_range)

  counted_only-Releasing :
      (eqb count 0 && same (state_at t child) waiting) ≡ false → Releasing counted_only rest
  unfolding counted_only occ is_released same
  counted_only-Releasing h = record {
    aligned = ground (arith, r.aligned, length-set t.pending_parents child count);
    forward = r.forward;
    counted = λ c lt. ground (arith, pending_at-counted c, r.counted c lt, count-lt);
    defined = r.defined;
    held = λ c lt w. ground (arith, pending_at-counted c, r.held c lt w, count-lt);
    released = λ c lt w. ground (arith, pending_at-counted c, r.released c lt w, count-lt);
    ended = r.ended;
    in_range = λ c lt. r.in_range c (ground arith);
  }

  -- The child becomes Ready.
  readied : TaskTable
  unfolding counted_only
  readied = record counted_only { state = set t.state child ready }

  state_at-readied :
      (c : ℕ)
      → get_or (set t.state child ready) c undefined ≡ (if eqb child c then ready else state_at t c)
  state_at-readied c =
      ground (arith, get_or-set t.state child ready c undefined, r.aligned, child_in_range)

  owed-readied :
      (c : ℕ)
      → same (state_at t child) waiting ≡ true
      → owed (set t.state child ready) t.children c ≡ owed t.state t.children c
  unfolding same
  owed-readied c h =
      owed-cong c t.state (set t.state child ready) t.children (length-set t.state child ready)
        (λ j. ground (arith, state_at-readied j))

  readied-Releasing :
      (eqb count 0 && same (state_at t child) waiting) ≡ true → Releasing readied rest
  unfolding readied occ is_released is_doomed is_live
  readied-Releasing h = record {
    aligned = ground (
      arith,
      r.aligned,
      length-set t.pending_parents child count,
      length-set t.state child ready,
    );
    forward = r.forward;
    counted =
        λ c lt. ground (arith, pending_at-counted c, owed-readied c, r.counted c lt, count-lt);
    defined = λ c lt. ground (arith, state_at-readied c, r.defined c lt);
    held =
        λ c lt w. ground (arith, pending_at-counted c, state_at-readied c, r.held c lt, count-lt);
    released = λ c lt w.
        ground (arith, pending_at-counted c, state_at-readied c, r.released c lt, count-lt);
    ended = λ p c k d. ground (arith, state_at-readied c, state_at-readied p, r.ended p c k);
    in_range = λ c lt. r.in_range c (ground arith);
  }

module _ (P : ThirdParty) where
  enqueue-Releasing :
      (m : TaskManager P) (i : ℕ) (rest : List ℕ)
      → Releasing m.tasks rest
      → Releasing (enqueue P m i).tasks rest
  unfolding enqueue
  enqueue-Releasing m i rest r = record {
    aligned = ground (arith, r.aligned, length-set m.tasks.seq i (enqueue P m i).next_seq);
    forward = r.forward;
    counted = r.counted;
    defined = r.defined;
    held = r.held;
    released = r.released;
    ended = r.ended;
    in_range = r.in_range;
  }

  pub release_child-Releasing :
      (m : TaskManager P) (child : ℕ) (rest : List ℕ)
      → Releasing m.tasks (child ∷ rest)
      → Releasing (release_child P m child).tasks rest
  unfolding release_child counted_only readied count
  release_child-Releasing m child rest r =
      elim (Bool-cases
        (eqb (decrement (pending_at m.tasks child)) 0 && same (state_at m.tasks child) waiting)) [
          | inl e ↦
              rw (e, release_child)
                (enqueue-Releasing (record m { tasks = readied m.tasks child rest r }) child rest
                  (readied-Releasing m.tasks child rest r e))
          | inr e ↦ rw (e, release_child) (counted_only-Releasing m.tasks child rest r e)
        ]

  pub release_children-Releasing :
      (m : TaskManager P) (children : List ℕ)
      → Releasing m.tasks children
      → Releasing (release_children P m children).tasks []
  unfolding release_children
  release_children-Releasing m [] r = r
  release_children-Releasing m (child ∷ children) r =
      release_children-Releasing (release_child P m child) children
        (release_child-Releasing m child children r)

  -- The loop leaves the ids and the index alone.
  pub release_child-index :
      (m : TaskManager P) (child : ℕ)
      → ((release_child P m child).task_index ≡ m.task_index)
        × ((release_child P m child).tasks.task_id ≡ m.tasks.task_id)
  unfolding release_child enqueue
  release_child-index m child = ground arith

  pub release_children-index :
      (m : TaskManager P) (children : List ℕ)
      → ((release_children P m children).task_index ≡ m.task_index)
        × ((release_children P m children).tasks.task_id ≡ m.tasks.task_id)
  unfolding release_children
  release_children-index m [] = (refl, refl)
  release_children-index m (child ∷ children) = (
    (release_children-index (release_child P m child) children).0 ∙ (release_child-index m child).0,
    (release_children-index (release_child P m child) children).1 ∙ (release_child-index m child).1,
  )
