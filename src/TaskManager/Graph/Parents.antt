-- ===== src/TaskManager/Graph/Parents.antt =====
-- TaskManager::add over the parents of the new row: what the scan counts and finds, and what it enters
-- into the children of the parents.
use ds_service.Base.{
  ℕ, suc, ◌+◌, ◌<◌, ◌≡◌, refl, ◌∙◌, ◌⊎◌, inl, inr, true, false, not, none, some, Option, List, [],
  ◌∷◌, length, get_or, set, push_back, eqb, if◌then◌else◌, Bool-cases, arith, length-set,
  get_or-set, eqb→eq,
}
use ds_service.TaskManager.Add.{ParentScan, first_in, scan_parent, scan_parents, register}
use ds_service.TaskManager.Graph.Owed.{occ, owed, share, occ-push_back, owed-set-children}
use ds_service.TaskManager.State.{TaskTable, state_at}
use ds_service.TaskState.{TaskState, undefined, finished, failed, canceled, same}

-- The parents that have not finished, each as often as it is named.
unfoldable pub unfinished : TaskTable → List ℕ → ℕ
unfinished t [] = 0
unfinished t (p ∷ ps) =
    if not (same (state_at t p) finished) then suc (unfinished t ps) else unfinished t ps

pub scan-pending :
    (t : TaskTable) (parents : List ℕ) (scan : ParentScan)
    → (scan_parents t parents scan).pending_parents ≡ scan.pending_parents + unfinished t parents
unfolding scan_parents unfinished
scan-pending t [] scan = omega arith
scan-pending t (p ∷ ps) scan = ground (arith, scan-pending t ps (scan_parent t p scan))

-- A parent in the state `s` is found, unless another was.
first_in-found :
    (s : TaskState) (t : TaskTable) (p : ℕ) (o : Option ℕ)
    → same (state_at t p) s ≡ true
    → (q : ℕ) × (first_in s t p o ≡ some q)
unfolding first_in
first_in-found s t p none h = (p, rw h)
first_in-found s t p (some q) h = (q, refl)

-- What is found is kept.
module _ (t : TaskTable) where
  scan-keeps-failed :
      (parents : List ℕ) (scan : ParentScan)
      → ((q : ℕ) × (scan.failed_parent ≡ some q))
      → (q : ℕ) × ((scan_parents t parents scan).failed_parent ≡ some q)
  unfolding scan_parents
  scan-keeps-failed [] scan h = h
  scan-keeps-failed (p ∷ ps) scan (q, h) = scan-keeps-failed ps (scan_parent t p scan) (q, rw h)

  scan-keeps-canceled :
      (parents : List ℕ) (scan : ParentScan)
      → ((q : ℕ) × (scan.canceled_parent ≡ some q))
      → (q : ℕ) × ((scan_parents t parents scan).canceled_parent ≡ some q)
  unfolding scan_parents
  scan-keeps-canceled [] scan h = h
  scan-keeps-canceled (p ∷ ps) scan (q, h) = scan-keeps-canceled ps (scan_parent t p scan) (q, rw h)

  -- The scan finds a failed parent if there is one, and a canceled parent too.
  pub scan-failed :
      (parents : List ℕ) (scan : ParentScan) (p : ℕ)
      → 0 < occ p parents
      → same (state_at t p) failed ≡ true
      → (q : ℕ) × ((scan_parents t parents scan).failed_parent ≡ some q)
  unfolding scan_parents occ
  scan-failed [] scan p h f = absurd (omega arith)
  scan-failed (x ∷ ps) scan p h f = elim (Bool-cases (eqb x p)) [
    | inl hit ↦
        scan-keeps-failed ps (scan_parent t x scan)
          (first_in-found failed t x scan.failed_parent (rw (eqb→eq x p hit) f))
    | inr miss ↦ scan-failed ps (scan_parent t x scan) p (ground arith) f
  ]

  pub scan-canceled :
      (parents : List ℕ) (scan : ParentScan) (p : ℕ)
      → 0 < occ p parents
      → same (state_at t p) canceled ≡ true
      → (q : ℕ) × ((scan_parents t parents scan).canceled_parent ≡ some q)
  unfolding scan_parents occ
  scan-canceled [] scan p h f = absurd (omega arith)
  scan-canceled (x ∷ ps) scan p h f = elim (Bool-cases (eqb x p)) [
    | inl hit ↦
        scan-keeps-canceled ps (scan_parent t x scan)
          (first_in-found canceled t x scan.canceled_parent (rw (eqb→eq x p hit) f))
    | inr miss ↦ scan-canceled ps (scan_parent t x scan) p (ground arith) f
  ]

  -- The columns of the children after `register`.
  module _ (n : ℕ) where
    pub length-register :
        (children : List (List ℕ)) (parents : List ℕ)
        → length (register t children parents n) ≡ length children
    unfolding register
    length-register children [] = refl
    length-register children (p ∷ ps) = elim (Bool-cases (same (state_at t p) finished)) [
      | inl f ↦ rw f (length-register children ps)
      | inr f ↦ rw f (
          length-register (set children p (push_back (get_or children p []) n)) ps
          ∙ length-set children p (push_back (get_or children p []) n))
    ]

    -- An edge is an old one, or it leads from a parent not finished to the new row.
    pub register-edge :
        (children : List (List ℕ)) (parents : List ℕ) (p c : ℕ)
        → 0 < occ c (get_or (register t children parents n) p [])
        → (0 < occ c (get_or children p []))
          ⊎ ((c ≡ n) × (0 < occ p parents) × (same (state_at t p) finished ≡ false))
    unfolding register occ
    register-edge children [] p c h = inl h
    register-edge children (x ∷ ps) p c h = elim (Bool-cases (same (state_at t x) finished)) [
      | inl f ↦ ground (arith, register-edge children ps p c)
      | inr f ↦
          let row = push_back (get_or children x []) n in
          ground (
            arith,
            register-edge (set children x row) ps p c,
            get_or-set children x row p [],
            occ-push_back c (get_or children x []) n,
          )
    ]

    pub owed-register :
        (states : List TaskState) (children : List (List ℕ)) (parents : List ℕ) (c : ℕ)
        → length children ≡ length states
        → ((p : ℕ)
            → 0 < occ p parents
            → (p < length states) × (get_or states p undefined ≡ state_at t p))
        → owed states (register t children parents n) c
          ≡ owed states children c + (if eqb n c then unfinished t parents else 0)
    unfolding register occ unfinished share
    owed-register states children [] c e h = ground arith
    owed-register states children (x ∷ ps) c e h =
        elim (Bool-cases (same (state_at t x) finished)) [
          | inl f ↦ ground (arith, owed-register states children ps c e (λ p k. h p (ground arith)))
          | inr f ↦
              let row = push_back (get_or children x []) n in
              let there = h x (ground arith) in
              ground (
                arith,
                there.1,
                owed-register states (set children x row) ps c
                    (omega (arith, length-set children x row)) (λ p k. h p (ground arith)),
                owed-set-children c states children x row there.0 e,
                occ-push_back c (get_or children x []) n,
              )
        ]

pub unfinished-cong :
    (t u : TaskTable) (parents : List ℕ)
    → ((p : ℕ) → 0 < occ p parents → state_at u p ≡ state_at t p)
    → unfinished u parents ≡ unfinished t parents
unfolding unfinished occ
unfinished-cong t u [] h = refl
unfinished-cong t u (x ∷ ps) h =
    ground (arith, h x (ground arith), unfinished-cong t u ps (λ p k. h p (ground arith)))
