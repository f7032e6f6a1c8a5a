-- ===== src/Mutexes/Ownership.antt =====
-- Who holds a mutex.
use ds_service.Base.{
  ◌≡◌, ◌≢◌, ◌&&◌, refl, String, Bool, true, false, not, none, some, Option, Option-cases,
  Bool-cases, inl, inr, ◌⊎◌, List, [], ◌∷◌, arith, ◌==◌, eq_iff, if◌then◌else◌,
}
use ds_service.Error.{Error, ok, unexpected, failed_precondition}
use ds_service.Messages.{MutexTryAcquireRequest, MutexReleaseRequest}
use ds_service.Mutexes.{MutexState, Mutexes, free_mutex, try_acquire, release}
use ds_service.ThirdParty.{ThirdParty, subscript, subscript-value, find-subscript}

module _ (P : ThirdParty) where
  -- The worker that holds a mutex, if one does. A mutex that was never named is held by nobody.
  abbrev pub holder : Mutexes P → String → Option String
  holder m key = elim (P.find m.entries key) [
    | none ↦ none
    | some s ↦ if s.held then some s.worker_id else none
  ]

  -- mutex_try_acquire: whether the mutex is acquired, and who holds which mutex then.
  abbrev pub Acquires : Mutexes P → MutexTryAcquireRequest → Type 0
  Acquires m request =
      ((try_acquire P m request).0
        ≡ ok (record { acquired = elim (holder m request.key) [ none ↦ true | some w ↦ false ] }))
      × ((key : String)
          → holder (try_acquire P m request).1 key ≡ (
              if request.key == key
              then elim (holder m key) [ none ↦ some request.worker_id | some w ↦ some w ]
              else holder m key))

  -- mutex_try_acquire acquires the mutex exactly if nobody holds it, and the caller holds it then. A held
  -- mutex stays with its holder, be that the caller, and no other mutex changes hands.
  pub try_acquire-Acquires : (m : Mutexes P) (request : MutexTryAcquireRequest) → Acquires m request
  unfolding try_acquire
  try_acquire-Acquires m request =
      let entered = (subscript P.maps free_mutex m.entries request.key).1 in
      let taken : MutexState = record { held = true; worker_id = request.worker_id } in
      (
        ground (arith, subscript-value P.maps free_mutex m.entries request.key),
        λ key. ground (
          arith,
          subscript-value P.maps free_mutex m.entries request.key,
          find-subscript P.maps free_mutex m.entries request.key key,
          P.find-assign entered request.key taken key,
          eq_iff request.key key,
        ),
      )

  abbrev pub Releases : Mutexes P → MutexReleaseRequest → Type 0
  Releases m request =
      ((holder m request.key ≡ some request.worker_id)
        × ((release P m request).0 ≡ ok tt)
        × ((key : String)
            → holder (release P m request).1 key
              ≡ (if request.key == key then none else holder m key)))
      ⊎ ((holder m request.key ≢ some request.worker_id)
          × ((e : Error) × ((release P m request).0 ≡ unexpected e)
              × (e.code ≡ failed_precondition))
          × ((release P m request).1 ≡ m))

  -- mutex_release succeeds exactly if the caller holds the mutex, which nobody holds then; it takes no
  -- other mutex from its holder. Every other call is refused with FailedPrecondition and changes nothing.
  pub release-Releases : (m : Mutexes P) (request : MutexReleaseRequest) → Releases m request
  unfolding release
  release-Releases m request = elim (Option-cases (P.find m.entries request.key)) [
    | inl e ↦ rw (e, release) (inr ((λ h. cc), (_, refl, refl), refl))
    | inr (s, e) ↦ elim (Bool-cases s.held) [
      | inr free ↦ rw (e, release, free) (inr ((λ h. cc), (_, refl, refl), refl))
      | inl held ↦ elim (Bool-cases (s.worker_id == request.worker_id)) [
        | inr other ↦
            rw (e, release, held, other)
              (inr (
                (λ h. ground (arith, eq_iff s.worker_id request.worker_id)),
                (_, refl, refl),
                refl,
              ))
        | inl own ↦
            rw (e, release, held, own)
              (inl (
                ground (arith, eq_iff s.worker_id request.worker_id),
                refl,
                λ key. ground (arith, P.find-assign m.entries request.key free_mutex key),
              ))
      ]
    ]
  ]

-- The calls that change a mutex.
pub data Call : Type 0 where
  acquires : MutexTryAcquireRequest → Call
  releases : MutexReleaseRequest → Call

-- Whether a call is the release of a mutex by a worker.
abbrev pub is_release : String → String → Call → Bool
is_release key worker_id (acquires request) = false
is_release key worker_id (releases request) = request.key == key && request.worker_id == worker_id

abbrev pub none_releases : String → String → List Call → Bool
none_releases key worker_id [] = true
none_releases key worker_id (call ∷ calls) =
    not (is_release key worker_id call) && none_releases key worker_id calls

module _ (P : ThirdParty) where
  pub after : Mutexes P → Call → Mutexes P
  after m (acquires request) = (try_acquire P m request).1
  after m (releases request) = (release P m request).1

  pub run : Mutexes P → List Call → Mutexes P
  run m [] = m
  run m (call ∷ calls) = run (after m call) calls

  after-holder :
      (m : Mutexes P) (call : Call) (key w : String)
      → holder P m key ≡ some w
      → is_release key w call ≡ false
      → holder P (after m call) key ≡ some w
  unfolding after
  after-holder m (acquires request) key w h no_release =
      ground (arith, (try_acquire-Acquires P m request).1 key, eq_iff request.key key)
  after-holder m (releases request) key w h no_release = elim (release-Releases P m request) [
    | inl (held, accepted, rest) ↦
        ground (arith, held, rest key, eq_iff request.key key, eq_iff request.worker_id w)
    | inr (other, refused, kept) ↦ rw kept h
  ]

  -- Mutual exclusion: whatever calls any workers make, a mutex stays with its holder until the holder
  -- releases it.
  pub holder-run :
      (m : Mutexes P) (calls : List Call) (key w : String)
      → holder P m key ≡ some w
      → none_releases key w calls ≡ true
      → holder P (run m calls) key ≡ some w
  unfolding run
  holder-run m [] key w h no_release = h
  holder-run m (call ∷ calls) key w h no_release =
      holder-run (after m call) calls key w (after-holder m call key w h (ground arith))
        (ground arith)
