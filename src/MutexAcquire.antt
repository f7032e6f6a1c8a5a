-- ===== src/MutexAcquire.antt =====
-- Client::mutex_acquire of cpp/client/client.cpp: the loop that polls mutex_try_acquire, on the transport
-- of the client. Times are ticks of the steady clock.
pub mod Waits
use Prim.Native.String.{◌++◌}
use ds_service.Base.{
  ℕ, ◌+◌, ◌-◌, min, String, Option, none, some, List, [], ◌∷◌, leb, if◌then◌else◌,
}
use ds_service.Base.Int.{ℤ, pos, negsuc}
use ds_service.Client.{ClientTransport, mutex_try_acquire}
use ds_service.Error.{Error, Result, ok, unexpected, make_error, deadline_exceeded}

-- What one round of the loop meets: the sleep with its jitter, the clock after the attempt, and what
-- becomes of the state behind the transport until the next attempt.
pub record Round (S : Type 0) : Type 0 where
  pub delay : ℕ
  pub now : ℕ
  pub others : S → S

-- `now() + timeout`. A deadline before the first tick of the clock has passed as one at that tick has.
unfoldable pub deadline_of : ℕ → Option ℤ → Option ℕ
deadline_of start none = none
deadline_of start (some (pos t)) = some (start + t)
deadline_of start (some (negsuc t)) = some (start - (t + 1))

-- How long a round sleeps, or the error once the deadline has passed.
unfoldable pub sleep : {S : Type 0} → String → Option ℕ → Round S → Result ℕ
sleep key none round = ok round.delay
sleep key (some deadline) round =
    if leb deadline round.now
    then make_error deadline_exceeded ("Timed out acquiring mutex '" ++ key ++ "'.")
    else ok (min round.delay (deadline - round.now))

-- The loop returns, throws, or still waits after the rounds given. The list has the sleeps.
pub data Ending : Type 0 where
  returned : List ℕ → Ending
  threw : Error → List ℕ → Ending
  waits : List ℕ → Ending

abbrev pub longer : ℕ → Ending → Ending
longer d (returned sleeps) = returned (d ∷ sleeps)
longer d (threw e sleeps) = threw e (d ∷ sleeps)
longer d (waits sleeps) = waits (d ∷ sleeps)

module _ {S : Type 0} (transport : ClientTransport S) (key worker_id : String)
    (deadline : Option ℕ) where
  -- `while (true)`, for as many rounds as the list has. What the transport throws ends the loop.
  unfoldable pub acquire_loop : S → List (Round S) → Ending × S
  unfolding sleep
  acquire_loop s [] = (waits [], s)
  acquire_loop s (round ∷ rounds) =
      let (acquired, tried) = mutex_try_acquire transport key worker_id s in
      let (rest, last) = acquire_loop (round.others tried) rounds in
      elim acquired [
        | unexpected e ↦ (threw e [], tried)
        | ok is_acquired ↦
            if is_acquired then (returned [], tried) else elim (sleep key deadline round) [
              | unexpected e ↦ (threw e [], tried)
              | ok d ↦ (longer d rest, last)
            ]
      ]
