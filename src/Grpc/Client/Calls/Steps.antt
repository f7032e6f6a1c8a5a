-- ===== src/Grpc/Client/Calls/Steps.antt =====
-- Any order of the events of a client's threads, of gRPC and of `close`.
use ds_service.Base.{
  not, ℕ, Bool, true, false, ◌≡◌, refl, subst, inl, inr, ◌&&◌, eqb, if◌then◌else◌, Option, none,
  some, arith, Option-cases, Bool-cases, eqb→eq,
}
use ds_service.Grpc.Client.Calls.{
  Phase, starting, waiting, asking, stopping, ending, returned, Frame, GrpcClientTransport, Event,
  enters, starts, completes, times_out, answers, raises, wakes, leaves, closes, happen, enter,
  begin_call, start_call, complete, time_out, answer, raise, wake, leave, end_call, close,
  try_cancel, put, change,
}

-- What any number of threads, gRPC and the owner of the client can do.
pub data Steps {E A : Type 0} (asks : Bool) (t : GrpcClientTransport E A)
    : GrpcClientTransport E A → Type 0 where
  here : Steps asks t t
  next :
      {u v : GrpcClientTransport E A} (event : Event E A)
      → Steps asks t u
      → happen asks event u ≡ some v
      → Steps asks t v

abbrev pub initial : {E A : Type 0} → GrpcClientTransport E A
initial = record { closed = false; calls = λ p. false; frames = λ p. none }

-- Whether a thread is inside `invoke`, past `begin_call` and before the return of `end_call`.
abbrev pub in_flight : {E A : Type 0} → Phase E A → Bool
in_flight (returned outcome) = false
in_flight starting = true
in_flight (waiting is_cancelled) = true
in_flight asking = true
in_flight (stopping failure) = true
in_flight (ending failure) = true

-- Whether the thread is past its wait.
abbrev pub is_past : {E A : Type 0} → Phase E A → Bool
is_past (returned outcome) = true
is_past starting = false
is_past (waiting is_cancelled) = false
is_past asking = false
is_past (stopping failure) = false
is_past (ending failure) = true

abbrev pub is_starting : {E A : Type 0} → Phase E A → Bool
is_starting starting = true
is_starting (returned outcome) = false
is_starting (waiting is_cancelled) = false
is_starting asking = false
is_starting (stopping failure) = false
is_starting (ending failure) = false

-- The address of a call is in calls_ exactly while the call is in flight; in a closed client a call in
-- flight has been asked to cancel; a call that was started and whose thread is past its wait is done; a
-- call in flight was started, but for one whose thread is just before that; and only a call that was
-- started is done.
pub record FrameIsSafe {E A : Type 0} (is_closed registered : Bool) (f : Frame E A) : Type 0 where
  pub listed : registered ≡ in_flight f.phase
  pub cancelled : is_closed && in_flight f.phase ≡ true → f.call.cancel_requested ≡ true
  pub over : is_past f.phase && f.started ≡ true → f.call.done ≡ true
  pub begun : in_flight f.phase ≡ true → f.started ≡ not (is_starting f.phase)
  pub fresh : f.started ≡ false → f.call.done ≡ false

abbrev pub IsSafe : {E A : Type 0} → Bool → Bool → Option (Frame E A) → Type 0
IsSafe is_closed registered none = registered ≡ false
IsSafe is_closed registered (some f) = FrameIsSafe is_closed registered f

abbrev pub AllSafe : {E A : Type 0} → GrpcClientTransport E A → Type 0
AllSafe t = (p : ℕ) → IsSafe t.closed (t.calls p) (t.frames p)

close-IsSafe :
    {E A : Type 0} (is_closed registered : Bool) (o : Option (Frame E A))
    → IsSafe is_closed registered o
    → IsSafe true registered
        (elim o [ none ↦ none | some f ↦ some (if registered then try_cancel f else f) ])
unfolding try_cancel
close-IsSafe is_closed registered none s = s
close-IsSafe is_closed registered (some f) s = ground arith

pub start_call-IsSafe :
    {E A : Type 0} (is_closed registered : Bool) (f g : Frame E A)
    → start_call f ≡ some g
    → FrameIsSafe is_closed registered f
    → FrameIsSafe is_closed registered g
unfolding start_call
start_call-IsSafe is_closed registered f g e s = ground arith

pub complete-IsSafe :
    {E A : Type 0} (is_closed registered : Bool) (f g : Frame E A) (status : _) (response : A)
    → complete status response f ≡ some g
    → FrameIsSafe is_closed registered f
    → FrameIsSafe is_closed registered g
unfolding complete
complete-IsSafe is_closed registered f g status response e s = ground arith

pub time_out-IsSafe :
    {E A : Type 0} (is_closed registered asks : Bool) (f g : Frame E A)
    → time_out asks f ≡ some g
    → FrameIsSafe is_closed registered f
    → FrameIsSafe is_closed registered g
unfolding time_out
time_out-IsSafe is_closed registered asks f g e s = ground arith

pub wake-IsSafe :
    {E A : Type 0} (is_closed registered : Bool) (f g : Frame E A)
    → wake f ≡ some g
    → FrameIsSafe is_closed registered f
    → FrameIsSafe is_closed registered g
unfolding wake
wake-IsSafe is_closed registered f g e s = ground arith

pub answer-IsSafe :
    {E A : Type 0} (is_closed registered cancel : Bool) (f g : Frame E A)
    → answer cancel f ≡ some g
    → FrameIsSafe is_closed registered f
    → FrameIsSafe is_closed registered g
unfolding answer try_cancel
answer-IsSafe is_closed registered cancel f g e s = ground arith

pub raise-IsSafe :
    {E A : Type 0} (is_closed registered : Bool) (failure : E) (f g : Frame E A)
    → raise failure f ≡ some g
    → FrameIsSafe is_closed registered f
    → FrameIsSafe is_closed registered g
unfolding raise try_cancel
raise-IsSafe is_closed registered failure f g e s = ground arith

-- What a change of one frame does.
pub record Changed {E A : Type 0} (p : ℕ) (g : Frame E A → Option (Frame E A))
    (t u : GrpcClientTransport E A) : Type 0 where
  pub old : Frame E A
  pub new : Frame E A
  pub at_old : t.frames p ≡ some old
  pub gives : g old ≡ some new
  pub at_new : u ≡ put p new t

pub change-Changed :
    {E A : Type 0} (g : Frame E A → Option (Frame E A)) (t u : GrpcClientTransport E A) (p : ℕ)
    → change p g t ≡ some u
    → Changed p g t u
change-Changed g t u p e = elim (Option-cases (t.frames p)) [
  | inl empty ↦ ground (arith, e, empty)
  | inr (f, at_p) ↦ elim (Option-cases (g f)) [
    | inl stuck ↦ ground (arith, e, at_p, stuck)
    | inr (f', moved) ↦ record {
      old = f;
      new = f';
      at_old = at_p;
      gives = moved;
      at_new = ground (arith, e, at_p, moved);
    }
  ]
]

-- A property of each frame that a change of one frame keeps.
pub change-keeps :
    {E A : Type 0} (K : ℕ → Option (Frame E A) → Type 0) (g : Frame E A → Option (Frame E A))
    (t u : GrpcClientTransport E A) (p : ℕ)
    → change p g t ≡ some u
    → ((f f' : Frame E A) → g f ≡ some f' → K p (some f) → K p (some f'))
    → ((q : ℕ) → K q (t.frames q))
    → (q : ℕ) → K q (u.frames q)
change-keeps K g t u p e keeps s =
    let c = change-Changed g t u p e in
    let new_kept : K p (some c.new) = keeps c.old c.new c.gives (subst (K p) c.at_old (s p)) in
    λ q. rw c.at_new (elim (Bool-cases (eqb p q)) [
      | inl same ↦ rw same (subst (λ r. K r (some c.new)) (eqb→eq p q same) new_kept)
      | inr other ↦ rw other (s q)
    ])

change-AllSafe :
    {E A : Type 0} (g : Frame E A → Option (Frame E A)) (t u : GrpcClientTransport E A) (p : ℕ)
    → change p g t ≡ some u
    → ((f f' : Frame E A)
        → g f ≡ some f'
        → FrameIsSafe t.closed (t.calls p) f
        → FrameIsSafe t.closed (t.calls p) f')
    → AllSafe t
    → AllSafe u
change-AllSafe g t u p e keeps s =
    let kept = change-keeps (λ q. IsSafe t.closed (t.calls q)) g t u p e keeps s in
    λ q. rw (change-Changed g t u p e).at_new (
      subst (λ w. IsSafe t.closed (t.calls q) (w.frames q)) (change-Changed g t u p e).at_new
        (kept q))

begin-AllSafe :
    {E A : Type 0} (t u : GrpcClientTransport E A) (p : ℕ) (bare : A)
    → enter p bare t ≡ some u
    → AllSafe t
    → AllSafe u
unfolding enter begin_call
begin-AllSafe t u p bare e s q = ground (arith, s q, s p, eqb→eq p q)

leave-AllSafe :
    {E A : Type 0} (t u : GrpcClientTransport E A) (p : ℕ)
    → leave p t ≡ some u
    → AllSafe t
    → AllSafe u
unfolding leave end_call
leave-AllSafe t u p e s q = ground (arith, s q, s p, eqb→eq p q)

pub happen-AllSafe :
    {E A : Type 0} (asks : Bool) (event : Event E A) (t u : GrpcClientTransport E A)
    → happen asks event t ≡ some u
    → AllSafe t
    → AllSafe u
unfolding happen close
happen-AllSafe asks (enters p bare) t u e s = begin-AllSafe t u p bare e s
happen-AllSafe asks (starts p) t u e s =
    change-AllSafe start_call t u p e (λ f f' k. start_call-IsSafe t.closed (t.calls p) f f' k) s
happen-AllSafe asks (completes p status response) t u e s =
    change-AllSafe (complete status response) t u p e
      (λ f f' k. complete-IsSafe t.closed (t.calls p) f f' status response k) s
happen-AllSafe asks (times_out p) t u e s =
    change-AllSafe (time_out asks) t u p e
      (λ f f' k. time_out-IsSafe t.closed (t.calls p) asks f f' k) s
happen-AllSafe asks (answers p cancel) t u e s =
    change-AllSafe (answer cancel) t u p e
      (λ f f' k. answer-IsSafe t.closed (t.calls p) cancel f f' k) s
happen-AllSafe asks (raises p failure) t u e s =
    change-AllSafe (raise failure) t u p e
      (λ f f' k. raise-IsSafe t.closed (t.calls p) failure f f' k) s
happen-AllSafe asks (wakes p) t u e s =
    change-AllSafe wake t u p e (λ f f' k. wake-IsSafe t.closed (t.calls p) f f' k) s
happen-AllSafe asks (leaves p) t u e s = leave-AllSafe t u p e s
happen-AllSafe asks closes t u e s =
    subst (λ o. elim o [ none ↦ Unit {0} | some v ↦ AllSafe v ]) e
      (λ q. close-IsSafe t.closed (t.calls q) (t.frames q) (s q))

-- Whatever the threads of a client, gRPC and `close` do in whatever order, the address of a call is in
-- calls_ exactly while its call is in flight, so `close` meets every call in flight and never one that
-- has ended; once the client is closed every call in flight has been asked to cancel; and `invoke`
-- leaves its wait only when the call that it started is done, so the callback finds the frame alive.
pub reachable-AllSafe :
    {E A : Type 0} (asks : Bool) (t : GrpcClientTransport E A) → Steps asks initial t → AllSafe t
reachable-AllSafe asks t here = λ p. refl
reachable-AllSafe asks t (next {u} event steps e) =
    happen-AllSafe asks event u t e (reachable-AllSafe asks u steps)
