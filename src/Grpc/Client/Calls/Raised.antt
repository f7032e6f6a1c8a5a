-- ===== src/Grpc/Client/Calls/Raised.antt =====
-- Where an exception that leaves `invoke` comes from.
use ds_service.Base.{
  ℕ, Bool, ◌≡◌, ◌⊎◌, inl, inr, subst, Option, none, some, eqb, eqb→eq, arith, Bool-cases,
}
use ds_service.Grpc.Client.Calls.{
  result, rethrown, Phase, starting, waiting, asking, stopping, ending, returned,
  GrpcClientTransport, Event, enters, starts, completes, times_out, answers, raises, wakes, leaves,
  closes, happen, enter, begin_call, start_call, complete, time_out, answer, raise, wake, leave,
  end_call, close, try_cancel,
}
use ds_service.Grpc.Client.Calls.Steps.{Steps, here, next}

-- In these steps should_cancel threw `failure` in the call at `p`.
abbrev pub Raised :
    {E A : Type 0} {asks : Bool} {t u : GrpcClientTransport E A} → Steps asks t u → ℕ → E → Type 0
Raised here p failure = ⊥
Raised (next event steps e) p failure = (event ≡ raises p failure) ⊎ Raised steps p failure

-- The exception that a call keeps, or has left with.
abbrev pub saved : {E A : Type 0} → Phase E A → Option E
saved starting = none
saved (waiting is_cancelled) = none
saved asking = none
saved (stopping failure) = some failure
saved (ending failure) = failure
saved (returned (result r)) = none
saved (returned (rethrown failure)) = some failure

abbrev pub saved_at : {E A : Type 0} → GrpcClientTransport E A → ℕ → Option E
saved_at t p = elim (t.frames p) [ none ↦ none | some f ↦ saved f.phase ]

-- An event saves an exception only if it is the one that throws it.
happen-saved :
    {E A : Type 0} (asks : Bool) (event : Event E A) (t u : GrpcClientTransport E A) (p : ℕ)
    (failure : E)
    → happen asks event t ≡ some u
    → saved_at u p ≡ some failure
    → (event ≡ raises p failure) ⊎ (saved_at t p ≡ some failure)
unfolding happen enter begin_call start_call complete time_out answer raise wake leave end_call
    close try_cancel
happen-saved asks (enters q bare) t u p failure e s = inr (ground (arith, eqb→eq q p))
happen-saved asks (starts q) t u p failure e s = inr (ground (arith, eqb→eq q p))
happen-saved asks (completes q status response) t u p failure e s = inr (ground (arith, eqb→eq q p))
happen-saved asks (times_out q) t u p failure e s = inr (ground (arith, eqb→eq q p))
happen-saved asks (answers q cancel) t u p failure e s = inr (ground (arith, eqb→eq q p))
happen-saved asks (raises q thrown) t u p failure e s = elim (Bool-cases (eqb q p)) [
  | inl same ↦ inl (ground (arith, eqb→eq q p same))
  | inr other ↦ inr (ground arith)
]
happen-saved asks (wakes q) t u p failure e s = inr (ground (arith, eqb→eq q p))
happen-saved asks (leaves q) t u p failure e s = inr (ground (arith, eqb→eq q p))
happen-saved asks closes t u p failure e s = inr (ground arith)

-- Over any steps, an exception was saved before or is thrown in them.
pub Steps-Raised :
    {E A : Type 0} (asks : Bool) (t u : GrpcClientTransport E A) (steps : Steps asks t u) (p : ℕ)
    (failure : E)
    → saved_at u p ≡ some failure
    → (saved_at t p ≡ some failure) ⊎ Raised steps p failure
Steps-Raised asks t u here p failure s = inl s
Steps-Raised asks t u (next {u = v} event steps e) p failure s =
    elim (happen-saved asks event v u p failure e s) [
      | inl thrown ↦ inr (inl thrown)
      | inr before ↦ elim (Steps-Raised asks t v steps p failure before) [
        | inl first ↦ inl first
        | inr raised ↦ inr (inr raised)
      ]
    ]

-- An exception that is saved stays.
happen-keeps :
    {E A : Type 0} (asks : Bool) (event : Event E A) (t u : GrpcClientTransport E A) (p : ℕ)
    (failure : E)
    → happen asks event t ≡ some u
    → saved_at t p ≡ some failure
    → saved_at u p ≡ some failure
unfolding happen enter begin_call start_call complete time_out answer raise wake leave end_call
    close try_cancel
happen-keeps asks (enters q bare) t u p failure e s = ground (arith, eqb→eq q p)
happen-keeps asks (starts q) t u p failure e s = ground (arith, eqb→eq q p)
happen-keeps asks (completes q status response) t u p failure e s = ground (arith, eqb→eq q p)
happen-keeps asks (times_out q) t u p failure e s = ground (arith, eqb→eq q p)
happen-keeps asks (answers q cancel) t u p failure e s = ground (arith, eqb→eq q p)
happen-keeps asks (raises q thrown) t u p failure e s = ground (arith, eqb→eq q p)
happen-keeps asks (wakes q) t u p failure e s = ground (arith, eqb→eq q p)
happen-keeps asks (leaves q) t u p failure e s = ground (arith, eqb→eq q p)
happen-keeps asks closes t u p failure e s = ground arith

raises-saves :
    {E A : Type 0} (asks : Bool) (t u : GrpcClientTransport E A) (p : ℕ) (failure : E)
    → happen asks (raises p failure) t ≡ some u
    → saved_at u p ≡ some failure
unfolding happen raise try_cancel
raises-saves asks t u p failure e = ground arith

pub Steps-keeps :
    {E A : Type 0} (asks : Bool) (t u : GrpcClientTransport E A) (steps : Steps asks t u) (p : ℕ)
    (failure : E)
    → saved_at t p ≡ some failure
    → saved_at u p ≡ some failure
Steps-keeps asks t u here p failure s = s
Steps-keeps asks t u (next {u = v} event steps e) p failure s =
    happen-keeps asks event v u p failure e (Steps-keeps asks t v steps p failure s)

-- What should_cancel throws is saved from then on.
pub Raised-saved :
    {E A : Type 0} (asks : Bool) (t u : GrpcClientTransport E A) (steps : Steps asks t u) (p : ℕ)
    (failure : E)
    → Raised steps p failure
    → saved_at u p ≡ some failure
Raised-saved asks t u here p failure r = absurd r
Raised-saved asks t u (next {u = v} event steps e) p failure (inl thrown) =
    raises-saves asks v u p failure (subst (λ x. happen asks x v ≡ some u) thrown e)
Raised-saved asks t u (next {u = v} event steps e) p failure (inr before) =
    happen-keeps asks event v u p failure e (Raised-saved asks t v steps p failure before)
