-- ===== src/TaskManager/Queue/Entries.antt =====
-- The entries of a queue: membership, and what a push does.
use ds_service.Base.{◌≡◌, refl, sym, subst, ◌⊎◌, inl, inr, Bool-cases, [], ◌∷◌}
use ds_service.TaskManager.Queue.{TaskQueue, TaskQueueEntry, order, push}
use ds_service.TaskManager.Queue.Order.{IsNumber, Before, Before-order, Before-trans}

abbrev pub In : TaskQueueEntry → TaskQueue → Type 0
In e [] = ⊥
In e (x ∷ q) = (e ≡ x) ⊎ In e q

abbrev pub All : (TaskQueueEntry → Type 0) → TaskQueue → Type 0
All Q [] = Unit {0}
All Q (x ∷ q) = Q x × All Q q

abbrev pub IsSorted : TaskQueue → Type 0
IsSorted [] = Unit {0}
IsSorted (x ∷ q) = All (Before x) q × IsSorted q

pub All-In :
    (Q : TaskQueueEntry → Type 0) (q : TaskQueue) (e : TaskQueueEntry) → All Q q → In e q → Q e
All-In Q [] e a i = absurd i
All-In Q (x ∷ q) e a (inl h) = subst Q (sym h) a.0
All-In Q (x ∷ q) e a (inr h) = All-In Q q e a.1 h

pub All-map :
    (Q R : TaskQueueEntry → Type 0) (q : TaskQueue)
    → ((e : TaskQueueEntry) → Q e → R e)
    → All Q q
    → All R q
All-map Q R [] f a = tt
All-map Q R (x ∷ q) f a = (f x a.0, All-map Q R q f a.1)

module _ (e : TaskQueueEntry) where
  pub In-push_self : (q : TaskQueue) → In e (push q e)
  unfolding push
  In-push_self [] = inl refl
  In-push_self (x ∷ q) = elim (Bool-cases (order x e)) [
    | inl b ↦ rw b (inl refl)
    | inr b ↦ rw b (inr (In-push_self q))
  ]

  pub In-push : (q : TaskQueue) (y : TaskQueueEntry) → In y q → In y (push q e)
  unfolding push
  In-push [] y h = absurd h
  In-push (x ∷ q) y h = elim (Bool-cases (order x e)) [
    | inl b ↦ rw b (inr h)
    | inr b ↦ rw b (elim h [ inl p ↦ inl p | inr p ↦ inr (In-push q y p) ])
  ]

  pub All-push : (Q : TaskQueueEntry → Type 0) (q : TaskQueue) → Q e → All Q q → All Q (push q e)
  unfolding push
  All-push Q [] h a = (h, tt)
  All-push Q (x ∷ q) h a = elim (Bool-cases (order x e)) [
    | inl b ↦ rw b (h, a)
    | inr b ↦ rw b (a.0, All-push Q q h a.1)
  ]

  Before-rest :
      (x : TaskQueueEntry) (q : TaskQueue)
      → IsNumber e
      → IsNumber x
      → All IsNumber q
      → Before e x
      → All (Before x) q
      → All (Before e) q
  Before-rest x [] ne nx nq b a = tt
  Before-rest x (y ∷ q) ne nx nq b a =
      (Before-trans e x y ne nx nq.0 b a.0, Before-rest x q ne nx nq.1 b a.1)

  -- A push keeps the queue sorted, if no priority is a NaN.
  pub IsSorted-push :
      (q : TaskQueue) → IsNumber e → All IsNumber q → IsSorted q → IsSorted (push q e)
  unfolding push
  IsSorted-push [] ne nq s = (tt, tt)
  IsSorted-push (x ∷ q) ne nq s = elim (Bool-cases (order x e)) [
    | inl b ↦
        let first = Before-order x e x nq.0 ne nq.0 b in
        rw b ((first, Before-rest x q ne nq.0 nq.1 first s.0), s)
    | inr b ↦ rw b (All-push (Before x) q b s.0, IsSorted-push q ne nq.1 s.1)
  ]
