-- ===== src/Grpc/Client/Calls/After.antt =====
-- What becomes of the frames of a closed client, one event at a time.
use ds_service.Base.{ℕ, Bool, true, false, ◌≡◌, if◌then◌else◌, Option, none, some, arith, eqb→eq}
use ds_service.Error.{unexpected}
use ds_service.Grpc.Client.{receive}
use ds_service.Grpc.Server.{Status}
use ds_service.Grpc.Client.Calls.{
  result, rethrown, returned, Phase, Frame, GrpcClientTransport, enter, begin_call, start_call,
  complete, time_out, answer, raise, wake, leave, end_call, try_cancel, client_closed,
}
use ds_service.Grpc.Client.Calls.Steps.{in_flight, IsSafe}

-- The end of a call that was in flight when the client was closed.
abbrev pub EndsBy : {E A : Type 0} → Phase E A → Status → A → Type 0
EndsBy phase status response = elim phase [
  | returned outcome ↦ elim outcome [
    | result r ↦ r ≡ receive true status response
    | rethrown failure ↦ Unit {0}
  ]
  | other ↦ Unit {0}
]

abbrev pub EndsClosed : {E A : Type 0} → Frame E A → Type 0
EndsClosed f = EndsBy f.phase f.call.status f.response

-- What becomes of a frame of a closed client.
abbrev pub After : {E A : Type 0} → Option (Frame E A) → Option (Frame E A) → Type 0
After none none = Unit {0}
After none (some g) = (g.started ≡ false) × (g.phase ≡ returned (result (unexpected client_closed)))
After (some f) none = ⊥
After (some f) (some g) = if in_flight f.phase then EndsClosed g else (g ≡ f)

-- ... with what `reachable-AllSafe` knows of it
abbrev pub Kept : {E A : Type 0} → Bool → Bool → Option (Frame E A) → Option (Frame E A) → Type 0
Kept is_closed registered o now = After o now × IsSafe is_closed registered now

pub After-refl : {E A : Type 0} (o : Option (Frame E A)) → After o o
After-refl none = tt
After-refl (some f) = ground arith

pub start_call-After :
    {E A : Type 0} (is_closed registered : Bool) (o : Option (Frame E A)) (f g : Frame E A)
    → start_call f ≡ some g
    → Kept is_closed registered o (some f)
    → After o (some g)
unfolding start_call
start_call-After is_closed registered none f g e k = ground arith
start_call-After is_closed registered (some f0) f g e k = ground arith

pub complete-After :
    {E A : Type 0} (status : Status) (response : A) (is_closed registered : Bool)
    (o : Option (Frame E A)) (f g : Frame E A)
    → complete status response f ≡ some g
    → Kept is_closed registered o (some f)
    → After o (some g)
unfolding complete
complete-After status response is_closed registered none f g e k = ground arith
complete-After status response is_closed registered (some f0) f g e k = ground arith

pub time_out-After :
    {E A : Type 0} (asks is_closed registered : Bool) (o : Option (Frame E A)) (f g : Frame E A)
    → time_out asks f ≡ some g
    → Kept is_closed registered o (some f)
    → After o (some g)
unfolding time_out
time_out-After asks is_closed registered none f g e k = ground arith
time_out-After asks is_closed registered (some f0) f g e k = ground arith

pub answer-After :
    {E A : Type 0} (cancel is_closed registered : Bool) (o : Option (Frame E A)) (f g : Frame E A)
    → answer cancel f ≡ some g
    → Kept is_closed registered o (some f)
    → After o (some g)
unfolding answer try_cancel
answer-After cancel is_closed registered none f g e k = ground arith
answer-After cancel is_closed registered (some f0) f g e k = ground arith

pub raise-After :
    {E A : Type 0} (failure : E) (is_closed registered : Bool) (o : Option (Frame E A))
    (f g : Frame E A)
    → raise failure f ≡ some g
    → Kept is_closed registered o (some f)
    → After o (some g)
unfolding raise try_cancel
raise-After failure is_closed registered none f g e k = ground arith
raise-After failure is_closed registered (some f0) f g e k = ground arith

pub wake-After :
    {E A : Type 0} (is_closed registered : Bool) (o : Option (Frame E A)) (f g : Frame E A)
    → wake f ≡ some g
    → Kept is_closed registered o (some f)
    → After o (some g)
unfolding wake
wake-After is_closed registered none f g e k = ground arith
wake-After is_closed registered (some f0) f g e k = ground arith

pub close-After :
    {E A : Type 0} (is_closed registered : Bool) (o now : Option (Frame E A))
    → Kept is_closed registered o now
    → After o (elim now [ none ↦ none | some f ↦ some (if registered then try_cancel f else f) ])
unfolding try_cancel
close-After is_closed registered none none k = ground arith
close-After is_closed registered none (some g) k = ground arith
close-After is_closed registered (some f0) none k = ground arith
close-After is_closed registered (some f0) (some g) k = ground arith

pub enter-After :
    {E A : Type 0} (t u : GrpcClientTransport E A) (p q : ℕ) (bare : A) (o : Option (Frame E A))
    → enter p bare t ≡ some u
    → t.closed ≡ true
    → After o (t.frames q)
    → After o (u.frames q)
unfolding enter begin_call
enter-After t u p q bare none e c k = ground (arith, eqb→eq p q)
enter-After t u p q bare (some f) e c k = ground (arith, eqb→eq p q)

pub leave-After :
    {E A : Type 0} (t u : GrpcClientTransport E A) (p q : ℕ) (o : Option (Frame E A))
    → leave p t ≡ some u
    → t.closed ≡ true
    → After o (t.frames q)
    → After o (u.frames q)
unfolding leave end_call
leave-After t u p q none e c k = ground (arith, eqb→eq p q)
leave-After t u p q (some f) e c k = ground (arith, eqb→eq p q)
