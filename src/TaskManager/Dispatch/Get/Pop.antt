-- ===== src/TaskManager/Dispatch/Get/Pop.antt =====
-- The loop of TaskManager::get over one queue.
use ds_service.Base.{
  ℕ, ◌≡◌, ◌⊎◌, sym, true, false, none, some, [], ◌∷◌, arith, inl, inr, Bool-cases, subst,
}
use ds_service.TaskManager.Dispatch.{entry_of}
use ds_service.TaskManager.Get.{is_dead, pop_usable}
use ds_service.TaskManager.Queue.{TaskQueue, TaskQueueEntry}
use ds_service.TaskManager.Queue.Entries.{In, All, IsSorted}
use ds_service.TaskManager.Queue.Order.{Before}
use ds_service.TaskManager.State.{TaskTable, state_at, seq_at}
use ds_service.TaskState.{ready, same}

pub alive_entry : (t : TaskTable) (i : ℕ) → state_at t i ≡ ready → is_dead t (entry_of t i) ≡ false
unfolding is_dead same
alive_entry t i h = ground arith

pub alive-seq :
    (t : TaskTable) (e : TaskQueueEntry) → is_dead t e ≡ false → e.seq ≡ seq_at t e.index
unfolding is_dead
alive-seq t e h = ground arith

module _ (t : TaskTable) where
  -- Where nothing usable is found, every entry was dead.
  pub pop_none :
      (q : TaskQueue) (x : TaskQueueEntry) → (pop_usable t q).0 ≡ none → In x q → is_dead t x ≡ true
  unfolding pop_usable
  pop_none [] x n h = absurd h
  pop_none (y ∷ q) x n h = elim (Bool-cases (is_dead t y)) [
    | inl d ↦ elim h [
      | inl e ↦ subst (λ z. is_dead t z ≡ true) (sym e) d
      | inr k ↦ pop_none q x (ground arith) k
    ]
    | inr d ↦ absurd (ground arith)
  ]

  -- What is usable is the entry found or is left in the queue.
  pub pop_some :
      (q : TaskQueue) (e x : TaskQueueEntry)
      → (pop_usable t q).0 ≡ some e
      → In x q
      → is_dead t x ≡ false
      → (x ≡ e) ⊎ In x (pop_usable t q).1
  unfolding pop_usable
  pop_some [] e x s h alive = absurd h
  pop_some (y ∷ q) e x s h alive = elim (Bool-cases (is_dead t y)) [
    | inl d ↦ elim h [
      | inl p ↦ absurd (ground (arith, p, d, alive))
      | inr k ↦ rw d (pop_some q e x (rw d at s) k alive)
    ]
    | inr d ↦ elim h [ inl p ↦ inl (ground (arith, p, d, s)) | inr k ↦ inr (rw d k) ]
  ]

  pub pop-In : (q : TaskQueue) (e : TaskQueueEntry) → (pop_usable t q).0 ≡ some e → In e q
  unfolding pop_usable
  pop-In [] e s = cc
  pop-In (y ∷ q) e s = elim (Bool-cases (is_dead t y)) [
    | inl d ↦ inr (pop-In q e (rw d at s))
    | inr d ↦ inl (ground (arith, d, s))
  ]

  pub pop-All : (Q : TaskQueueEntry → Type 0) (q : TaskQueue) → All Q q → All Q (pop_usable t q).1
  unfolding pop_usable
  pop-All Q [] a = tt
  pop-All Q (y ∷ q) a = elim (Bool-cases (is_dead t y)) [
    | inl d ↦ rw d (pop-All Q q a.1)
    | inr d ↦ rw d a.1
  ]

  pub pop-IsSorted : (q : TaskQueue) → IsSorted q → IsSorted (pop_usable t q).1
  unfolding pop_usable
  pop-IsSorted [] s = tt
  pop-IsSorted (y ∷ q) s = elim (Bool-cases (is_dead t y)) [
    | inl d ↦ rw d (pop-IsSorted q s.1)
    | inr d ↦ rw d s.1
  ]

  -- The entry found leaves before all that is left.
  pub pop-Before :
      (q : TaskQueue) (e : TaskQueueEntry)
      → IsSorted q
      → (pop_usable t q).0 ≡ some e
      → All (Before e) (pop_usable t q).1
  unfolding pop_usable
  pop-Before [] e s h = tt
  pop-Before (y ∷ q) e s h = elim (Bool-cases (is_dead t y)) [
    | inl d ↦ rw d (pop-Before q e s.1 (rw d at h))
    | inr d ↦ rw d (subst (λ z. All (Before z) q) (ground (arith, d, h)) s.0)
  ]
