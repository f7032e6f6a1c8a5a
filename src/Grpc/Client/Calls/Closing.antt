-- ===== src/Grpc/Client/Calls/Closing.antt =====
-- What `close` and an exception of should_cancel mean for the calls.
use ds_service.Base.{
  ℕ, Bool, true, false, ◌⊎◌, inl, inr, Bool-cases, if◌then◌else◌, ◌≡◌, refl, ◌∙◌, subst, Option,
  none, some, arith,
}
use ds_service.Error.{make_error, closed}
use ds_service.Grpc.Server.{Status}
use ds_service.Grpc.Client.Calls.Expected.{answer_of, receive-answer_of}
use ds_service.Grpc.Client.Calls.Raised.{Raised, saved, Steps-Raised, Steps-keeps, Raised-saved}
use ds_service.Grpc.Client.Calls.{
  result, rethrown, Phase, starting, waiting, asking, stopping, ending, returned, Frame,
  GrpcClientTransport, Event, enters, starts, completes, times_out, answers, raises, wakes, leaves,
  closes, happen, enter, begin_call, start_call, complete, time_out, answer, raise, wake, leave,
  end_call, close, change,
}
use ds_service.Grpc.Client.Calls.Steps.{
  Steps, here, next, initial, in_flight, AllSafe, change-Changed, change-keeps, start_call-IsSafe,
  complete-IsSafe, time_out-IsSafe, answer-IsSafe, raise-IsSafe, wake-IsSafe, happen-AllSafe,
  reachable-AllSafe,
}
use ds_service.Grpc.Client.Calls.After.{
  After, EndsBy, EndsClosed, Kept, After-refl, start_call-After, complete-After, time_out-After,
  answer-After, raise-After, wake-After, close-After, enter-After, leave-After,
}

abbrev pub AllAfter : {E A : Type 0} → GrpcClientTransport E A → GrpcClientTransport E A → Type 0
AllAfter t u = (u.closed ≡ true) × ((p : ℕ) → After (t.frames p) (u.frames p))

change-AllAfter :
    {E A : Type 0} (g : Frame E A → Option (Frame E A)) (t u v : GrpcClientTransport E A) (p : ℕ)
    → change p g u ≡ some v
    → ((f f' : Frame E A)
        → g f ≡ some f'
        → Kept u.closed (u.calls p) (t.frames p) (some f)
        → Kept u.closed (u.calls p) (t.frames p) (some f'))
    → AllSafe u
    → AllAfter t u
    → AllAfter t v
change-AllAfter g t u v p e keeps s a = (
  rw (change-Changed g u v p e).at_new a.0,
  λ q.
      (change-keeps (λ r. Kept u.closed (u.calls r) (t.frames r)) g u v p e keeps
        (λ r. (a.1 r, s r)) q).0,
)

enter-closed :
    {E A : Type 0} (t u : GrpcClientTransport E A) (p : ℕ) (bare : A)
    → enter p bare t ≡ some u
    → u.closed ≡ t.closed
unfolding enter begin_call
enter-closed t u p bare e = ground arith

leave-closed :
    {E A : Type 0} (t u : GrpcClientTransport E A) (p : ℕ)
    → leave p t ≡ some u
    → u.closed ≡ t.closed
unfolding leave end_call
leave-closed t u p e = ground arith

happen-AllAfter :
    {E A : Type 0} (asks : Bool) (event : Event E A) (t u v : GrpcClientTransport E A)
    → happen asks event u ≡ some v
    → AllSafe u
    → AllAfter t u
    → AllAfter t v
unfolding happen close
happen-AllAfter asks (enters p bare) t u v e s a =
    (enter-closed u v p bare e ∙ a.0, λ q. enter-After u v p q bare (t.frames q) e a.0 (a.1 q))
happen-AllAfter asks (starts p) t u v e s a =
    change-AllAfter start_call t u v p e
      (λ f f' m k. (
        start_call-After u.closed (u.calls p) (t.frames p) f f' m k,
        start_call-IsSafe u.closed (u.calls p) f f' m k.1,
      ))
      s a
happen-AllAfter asks (completes p status response) t u v e s a =
    change-AllAfter (complete status response) t u v p e
      (λ f f' m k. (
        complete-After status response u.closed (u.calls p) (t.frames p) f f' m k,
        complete-IsSafe u.closed (u.calls p) f f' status response m k.1,
      ))
      s a
happen-AllAfter asks (times_out p) t u v e s a =
    change-AllAfter (time_out asks) t u v p e
      (λ f f' m k. (
        time_out-After asks u.closed (u.calls p) (t.frames p) f f' m k,
        time_out-IsSafe u.closed (u.calls p) asks f f' m k.1,
      ))
      s a
happen-AllAfter asks (answers p cancel) t u v e s a =
    change-AllAfter (answer cancel) t u v p e
      (λ f f' m k. (
        answer-After cancel u.closed (u.calls p) (t.frames p) f f' m k,
        answer-IsSafe u.closed (u.calls p) cancel f f' m k.1,
      ))
      s a
happen-AllAfter asks (raises p failure) t u v e s a =
    change-AllAfter (raise failure) t u v p e
      (λ f f' m k. (
        raise-After failure u.closed (u.calls p) (t.frames p) f f' m k,
        raise-IsSafe u.closed (u.calls p) failure f f' m k.1,
      ))
      s a
happen-AllAfter asks (wakes p) t u v e s a =
    change-AllAfter wake t u v p e
      (λ f f' m k. (
        wake-After u.closed (u.calls p) (t.frames p) f f' m k,
        wake-IsSafe u.closed (u.calls p) f f' m k.1,
      ))
      s a
happen-AllAfter asks (leaves p) t u v e s a =
    (leave-closed u v p e ∙ a.0, λ q. leave-After u v p q (t.frames q) e a.0 (a.1 q))
happen-AllAfter asks closes t u v e s a =
    subst (λ o. elim o [ none ↦ Unit {0} | some w ↦ AllAfter t w ]) e
      (refl, λ q. close-After u.closed (u.calls q) (t.frames q) (u.frames q) (a.1 q, s q))

Steps-AllSafe :
    {E A : Type 0} (asks : Bool) (t u : GrpcClientTransport E A)
    → AllSafe t
    → Steps asks t u
    → AllSafe u
Steps-AllSafe asks t u s here = s
Steps-AllSafe asks t u s (next {u = v} event steps e) =
    happen-AllSafe asks event v u e (Steps-AllSafe asks t v s steps)

Steps-AllAfter :
    {E A : Type 0} (asks : Bool) (t u : GrpcClientTransport E A)
    → AllSafe t
    → t.closed ≡ true
    → Steps asks t u
    → AllAfter t u
Steps-AllAfter asks t u s c here = (c, λ p. After-refl (t.frames p))
Steps-AllAfter asks t u s c (next {u = v} event steps e) =
    happen-AllAfter asks event t v u e (Steps-AllSafe asks t v s steps)
      (Steps-AllAfter asks t v s c steps)

-- The end of a call that was in flight when the client was closed: with the exception that `Threw` tells
-- of, or, if it tells of none, with the answer of its status and response in a closed client.
abbrev pub Ends : {E A : Type 0} → (E → Type 0) → Phase E A → Status → A → Type 0
Ends Threw (returned (result r)) status response =
    (r ≡ answer_of true status response) × ((failure : _) → ¬ (Threw failure))
Ends Threw (returned (rethrown failure)) status response = Threw failure
Ends Threw starting status response = Unit {0}
Ends Threw (waiting is_cancelled) status response = Unit {0}
Ends Threw asking status response = Unit {0}
Ends Threw (stopping failure) status response = Unit {0}
Ends Threw (ending failure) status response = Unit {0}

-- What becomes of a call of a closed client.
abbrev pub Becomes :
    {E A : Type 0} → (E → Type 0) → Option (Frame E A) → Option (Frame E A) → Type 0
Becomes Threw none none = Unit {0}
Becomes Threw none (some g) =
    (g.started ≡ false) × (g.phase ≡ returned (result (make_error closed "The client is closed.")))
Becomes Threw (some f) none = ⊥
Becomes Threw (some f) (some g) =
    if in_flight f.phase then Ends Threw g.phase g.call.status g.response else (g ≡ f)

phase-Ends :
    {E A : Type 0} (Threw : E → Type 0) (phase : Phase E A) (status : Status) (response : A)
    → EndsBy phase status response
    → ((failure : E) → saved phase ≡ some failure → Threw failure)
    → ((failure : E) → Threw failure → saved phase ≡ some failure)
    → Ends Threw phase status response
phase-Ends Threw (returned (result r)) status response e thrown keeps =
    (e ∙ receive-answer_of true status response, λ failure threw. cc (keeps failure threw))
phase-Ends Threw (returned (rethrown failure)) status response e thrown keeps = thrown failure refl
phase-Ends Threw starting status response e thrown keeps = tt
phase-Ends Threw (waiting is_cancelled) status response e thrown keeps = tt
phase-Ends Threw asking status response e thrown keeps = tt
phase-Ends Threw (stopping failure) status response e thrown keeps = tt
phase-Ends Threw (ending failure) status response e thrown keeps = tt

After-Becomes :
    {E A : Type 0} (Threw : E → Type 0) (o now : Option (Frame E A))
    → After o now
    → ((failure : E)
        → elim now [ none ↦ none | some g ↦ saved g.phase ] ≡ some failure
        → Threw failure)
    → ((failure : E)
        → Threw failure
        → elim now [ none ↦ none | some g ↦ saved g.phase ] ≡ some failure)
    → Becomes Threw o now
After-Becomes Threw none none a thrown keeps = tt
After-Becomes Threw none (some g) a thrown keeps = a
After-Becomes Threw (some f) none a thrown keeps = a
After-Becomes Threw (some f) (some g) a thrown keeps = elim (Bool-cases (in_flight f.phase)) [
  | inl live ↦ rw live (
      phase-Ends Threw g.phase g.call.status g.response
        (subst (λ (b : Bool). if b then EndsClosed g else (g ≡ f)) live a) thrown keeps)
  | inr over ↦ rw over (subst (λ (b : Bool). if b then EndsClosed g else (g ≡ f)) over a)
]

-- Whatever happens after `close`, the client stays closed. A call that begins later is refused with
-- Closed and is never started. A call that was in flight ends, if it does, with the exception that
-- should_cancel threw in it; or, if should_cancel threw none, with its response, or with the error of
-- its status, which is Closed if the status is CANCELLED. A call that had returned stays as it was.
pub close-AllAfter :
    {E A : Type 0} (asks : Bool) (t u : GrpcClientTransport E A) (reached : Steps asks initial t)
    (c : t.closed ≡ true) (steps : Steps asks t u)
    → (u.closed ≡ true)
      × ((p : ℕ)
          → Becomes
              (λ failure. Raised reached p failure ⊎ Raised steps p failure)
              (t.frames p)
              (u.frames p))
close-AllAfter asks t u reached c steps =
    let after = Steps-AllAfter asks t u (reachable-AllSafe asks t reached) c steps in
    (
      after.0,
      λ p.
          After-Becomes (λ failure. Raised reached p failure ⊎ Raised steps p failure) (t.frames p)
            (u.frames p) (after.1 p)
            (λ failure s. elim (Steps-Raised asks t u steps p failure s) [
              | inr raised ↦ inr raised
              | inl before ↦ elim (Steps-Raised asks initial t reached p failure before) [
                | inl never ↦ absurd (ground (arith, never))
                | inr raised ↦ inl raised
              ]
            ])
            (λ failure threw. elim threw [
              | inl raised ↦
                  Steps-keeps asks t u steps p failure
                    (Raised-saved asks initial t reached p failure raised)
              | inr raised ↦ Raised-saved asks t u steps p failure raised
            ]),
    )
