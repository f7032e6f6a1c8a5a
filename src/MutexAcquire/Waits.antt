-- ===== src/MutexAcquire/Waits.antt =====
-- How mutex_acquire ends.
use ds_service.Base.{
  ℕ, ◌-◌, min, ◌≡◌, ◌⊎◌, refl, sym, ap, ◌∙◌, inl, inr, String, Bool, true, false, ◌||◌, Option,
  some, List, [], ◌∷◌, eq_iff, leb, Bool-cases, Option-cases, arith,
}
use ds_service.Client.{ClientTransport, field_of, mutex_try_acquire}
use ds_service.Client.Wire.{over_grpc, call-perform}
use ds_service.Error.{Error, ok, unexpected, Result-cases, deadline_exceeded}
use ds_service.Messages.{MutexTryAcquireRequest, MutexTryAcquireResponse}
use ds_service.MutexAcquire.{Round, sleep, Ending, returned, threw, waits, longer, acquire_loop}
use ds_service.Mutexes.{Mutexes, try_acquire}
use ds_service.Mutexes.Ownership.{holder, try_acquire-Acquires}
use ds_service.SystemState
use ds_service.SystemState.{SystemState, perform}
use ds_service.Grpc.Client.Transparent.{across}
use ds_service.ThirdParty.{ThirdParty}
use ds_service.TimeSeries.{Chrono}

-- Whether a round sees the deadline pass.
abbrev pub passes : {S : Type 0} → ℕ → List (Round S) → Bool
passes d [] = false
passes d (round ∷ rounds) = leb d round.now || passes d rounds

-- An attempt fails in the transport, or is mutex_try_acquire on the mutexes behind it.
abbrev pub Tries :
    (P : ThirdParty) {S : Type 0}
    → ClientTransport S
    → (S → Mutexes P)
    → MutexTryAcquireRequest
    → S
    → Type 0
Tries P transport mutexes request s =
    let (acquired, tried) = mutex_try_acquire transport request.key request.worker_id s in
    let (response, after) = try_acquire P (mutexes s) request in
    ((e : Error) × (acquired ≡ unexpected e))
    ⊎ ((acquired ≡ field_of (λ (r : MutexTryAcquireResponse). r.acquired) response)
        × (mutexes tried ≡ after))

-- Behind the transport are the mutexes of a server.
pub record Serves (P : ThirdParty) {S : Type 0} (transport : ClientTransport S) : Type 0 where
  pub mutexes : S → Mutexes P
  pub tries : (request : MutexTryAcquireRequest) (s : S) → Tries P transport mutexes request s

module _ (P : ThirdParty) {S : Type 0} (transport : ClientTransport S) (served : Serves P transport)
    (key worker_id : String) (deadline : Option ℕ) where
  abbrev pub holder_at : S → Option String
  holder_at s = holder P (served.mutexes s) key

  -- The end of the loop. It has returned, and the worker holds the mutex; or it threw the error that the
  -- transport threw on the last attempt; or it threw DeadlineExceeded, and some worker holds the mutex.
  abbrev pub Stops : Ending × S → Type 0
  Stops (returned sleeps, s) = holder_at s ≡ some worker_id
  Stops (threw e sleeps, s) =
      ((before : S) × (mutex_try_acquire transport key worker_id before ≡ (unexpected e, s)))
      ⊎ ((e.code ≡ deadline_exceeded) × ((w : String) × (holder_at s ≡ some w)))
  Stops (waits sleeps, s) = ⊥

  abbrev Ends : Ending × S → Type 0
  Ends (waits sleeps, s) = Unit {0}
  Ends (returned sleeps, s) = Stops (returned sleeps, s)
  Ends (threw e sleeps, s) = Stops (threw e sleeps, s)

  longer-Ends : (d : ℕ) (e : Ending) (s : S) → Ends (e, s) → Ends (longer d e, s)
  longer-Ends d (returned sleeps) s h = h
  longer-Ends d (threw x sleeps) s h = h
  longer-Ends d (waits sleeps) s h = h

  sleep-over :
      (round : Round S) (e : Error)
      → sleep key deadline round ≡ unexpected e
      → e.code ≡ deadline_exceeded
  unfolding sleep
  sleep-over round e h = ground arith

  -- What an attempt says of the holder, where the transport does not fail.
  attempt_won :
      (s : S)
      → (mutex_try_acquire transport key worker_id s).0 ≡ ok true
      → holder_at (mutex_try_acquire transport key worker_id s).1 ≡ some worker_id
  attempt_won s won = elim (served.tries (record { key = key; worker_id = worker_id }) s) [
    | inl (e, failed) ↦ cc (won, failed)
    | inr (answered, after) ↦
        let (answer, holders) =
          try_acquire-Acquires P (served.mutexes s) (record { key = key; worker_id = worker_id }) in
        ap (λ m. holder P m key) after
        ∙ ground (arith, won, answered, answer, holders key, eq_iff key key)
  ]

  attempt_lost :
      (s : S)
      → (mutex_try_acquire transport key worker_id s).0 ≡ ok false
      → (w : String) × (holder_at (mutex_try_acquire transport key worker_id s).1 ≡ some w)
  attempt_lost s lost = elim (served.tries (record { key = key; worker_id = worker_id }) s) [
    | inl (e, failed) ↦ cc (lost, failed)
    | inr (answered, after) ↦
        let (answer, holders) =
          try_acquire-Acquires P (served.mutexes s) (record { key = key; worker_id = worker_id }) in
        elim (Option-cases (holder_at s)) [
          | inl free ↦ absurd (ground (arith, lost, answered, answer, free))
          | inr (w, held) ↦ (
            w,
            ap (λ m. holder P m key) after ∙ ground (arith, held, holders key, eq_iff key key),
          )
        ]
  ]

  loop-Ends :
      (s : S) (rounds : List (Round S))
      → Ends (acquire_loop transport key worker_id deadline s rounds)
  unfolding acquire_loop sleep
  loop-Ends s [] = tt
  loop-Ends s (round ∷ rounds) =
      let tried = mutex_try_acquire transport key worker_id s in
      elim (Result-cases tried.0) [
        | inr (e, failed) ↦ rw (failed, acquire_loop) (inl (s, ap (λ r. (r, tried.1)) failed))
        | inl (is_acquired, answered) ↦ elim (Bool-cases is_acquired) [
          | inl won ↦ rw (answered, acquire_loop, won) (attempt_won s (answered ∙ ap ok won))
          | inr lost ↦ elim (Result-cases (sleep key deadline round)) [
            | inl (d, goes_on) ↦
                rw (answered, acquire_loop, lost, goes_on)
                  (longer-Ends d _ _ (loop-Ends (round.others tried.1) rounds))
            | inr (e, over) ↦
                rw (answered, acquire_loop, lost, over)
                  (inr (sleep-over round e over, attempt_lost s (answered ∙ ap ok lost)))
          ]
        ]
      ]

  abbrev is_waiting : Ending → Bool
  is_waiting (returned sleeps) = false
  is_waiting (threw e sleeps) = false
  is_waiting (waits sleeps) = true

  is_waiting-longer : (d : ℕ) (e : Ending) → is_waiting (longer d e) ≡ is_waiting e
  is_waiting-longer d (returned sleeps) = refl
  is_waiting-longer d (threw x sleeps) = refl
  is_waiting-longer d (waits sleeps) = refl

  loop_stops :
      (s : S) (rounds : List (Round S)) (d : ℕ)
      → deadline ≡ some d
      → passes d rounds ≡ true
      → is_waiting (acquire_loop transport key worker_id deadline s rounds).0 ≡ false
  unfolding acquire_loop sleep
  loop_stops s [] d due h = cc
  loop_stops s (round ∷ rounds) d due h =
      let tried = (mutex_try_acquire transport key worker_id s).1 in
      ground (
        arith,
        due,
        h,
        loop_stops (round.others tried) rounds d due,
        is_waiting-longer (min round.delay (d - round.now))
            (acquire_loop transport key worker_id deadline (round.others tried) rounds).0,
      )

  stopped : (r : Ending × S) → Ends r → is_waiting r.0 ≡ false → Stops r
  stopped (returned sleeps, s) h k = h
  stopped (threw e sleeps, s) h k = h
  stopped (waits sleeps, s) h k = cc k

  -- mutex_acquire with a deadline comes to an end, once a round sees the deadline pass, whatever happens
  -- behind the transport between its attempts. It returns, and its worker then holds the mutex; or it
  -- throws what the transport threw on its last attempt; or it throws DeadlineExceeded, and some worker
  -- then holds the mutex. This is for any transport to a server of the mutexes, however it fails.
  pub acquire_loop-Stops :
      (s : S) (rounds : List (Round S)) (d : ℕ)
      → deadline ≡ some d
      → passes d rounds ≡ true
      → Stops (acquire_loop transport key worker_id deadline s rounds)
  acquire_loop-Stops s rounds d due h = stopped _ (loop-Ends s rounds) (loop_stops s rounds d due h)

-- The gRPC transport is such a one: it fails where the client is closed.
over_grpc-Tries :
    (P : ThirdParty) (C : Chrono) (request : MutexTryAcquireRequest) (t : Bool × SystemState P C)
    → Tries P (over_grpc P C) (λ u. u.1.mutexes) request t
unfolding perform
over_grpc-Tries P C request (true, s) = inl (_, refl)
over_grpc-Tries P C request (false, s) =
    let field = λ (r : MutexTryAcquireResponse). r.acquired in
    let reached = call-perform P C s (SystemState.mutex_try_acquire request) in
    let answer = (try_acquire-Acquires P s.mutexes request).0 in
    inr (
      ap (λ r. field_of field r.0) reached
          ∙ ap (λ r. field_of field (across r)) answer
          ∙ sym (ap (field_of field) answer),
      ap (λ r. r.1.1.mutexes) reached,
    )

pub over_grpc-Serves : (P : ThirdParty) (C : Chrono) → Serves P (over_grpc P C)
over_grpc-Serves P C = record {
  mutexes = λ t. t.1.mutexes;
  tries = λ request t. over_grpc-Tries P C request t;
}
