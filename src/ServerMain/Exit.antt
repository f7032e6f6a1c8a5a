-- ===== src/ServerMain/Exit.antt =====
-- The way from a signal to the exit of the server.
use ds_service.Base.{
  ℕ, zero, suc, ◌+◌, ◌-◌, ◌≡◌, refl, ap, ◌∙◌, subst, Bool, true, false, some, ◌∷◌, length, arith,
}
use ds_service.ServerMain.{
  ShutdownThread, awaits_signal, shuts_down, ended, MainThread, waits, returned, Server, serving,
  Event, signal_arrives, sigwait_returns, sigwait_fails, shuts_next, wait_returns, joins,
  starts_shutdown, shut_next, wait_next, join, happen,
}
use ds_service.ServerMain.Shutdown.{
  Steps, length-copies, ThreadDid, MainDid, InOrder, happen-InOrder, Steps-InOrder,
}

-- What the two threads do once a signal has arrived: sigwait returns, each transport is shut down and
-- its wait returns, and main joins the thread. No further signal and no failure of sigwait is among it.
abbrev pub is_own : Event → Bool
is_own signal_arrives = false
is_own (sigwait_returns now) = true
is_own (sigwait_fails now) = false
is_own shuts_next = true
is_own wait_returns = true
is_own joins = true

pub data OwnSteps (s : Server) : Server → Type 0 where
  done : OwnSteps s s
  then :
      {u v : Server} (event : Event)
      → OwnSteps s u
      → is_own event ≡ true
      → happen event u ≡ some v
      → OwnSteps s v

OwnSteps-trans : {s t u : Server} → OwnSteps s t → OwnSteps t u → OwnSteps s u
OwnSteps-trans st done = st
OwnSteps-trans st (then event tu own e) = then event (OwnSteps-trans st tu) own e

-- The two threads can go on from here until main returns 0.
abbrev pub CanReturn : Server → Type 0
CanReturn s = (t : Server) × OwnSteps s t × (t.main_thread ≡ returned 0)

first_step :
    {s : Server} (t : Server) (event : Event)
    → is_own event ≡ true
    → happen event s ≡ some t
    → CanReturn t
    → CanReturn s
first_step t event own e (u, steps, at) = (u, OwnSteps-trans (then event done own e) steps, at)

-- main waits for the transports that are left, and joins.
wait_rest :
    (left count : ℕ) (s : Server)
    → s.shutdown_thread ≡ ended
    → s.main_thread ≡ waits count
    → count + left ≡ s.transports
    → length s.shut_by ≡ s.transports
    → CanReturn s
unfolding happen wait_next join
wait_rest zero count s thread main all shut =
    first_step (record s { main_thread = returned 0 }) joins refl (ground arith) (_, done, refl)
wait_rest (suc left) count s thread main all shut =
    let t = record s { main_thread = waits (suc count) } in
    first_step t wait_returns refl (ground arith)
      (wait_rest left (suc count) t thread refl (omega arith) shut)

ended_returns :
    (s : Server) (main : MainThread)
    → s.main_thread ≡ main
    → s.shutdown_thread ≡ ended
    → InOrder s
    → CanReturn s
ended_returns s (returned code) main thread o =
    let did : MainDid (returned code) s = subst (λ m. MainDid m s) main o.1 in
    (s, done, main ∙ ap returned did.0)
ended_returns s (waits count) main thread o =
    let m : MainDid (waits count) s = subst (λ m. MainDid m s) main o.1 in
    let did : ThreadDid ended s = subst (λ th. ThreadDid th s) thread o.0 in
    wait_rest (s.transports - count) count s thread main (omega (arith, m.0))
      (ap length did.1.1 ∙ length-copies s.transports did.1.0)

-- The shutdown thread shuts down the transports that are left, and ends.
shut_rest :
    (left count deadline : ℕ) (s : Server)
    → s.shutdown_thread ≡ shuts_down deadline count
    → count + left ≡ s.transports
    → InOrder s
    → CanReturn s
unfolding happen shut_next
shut_rest zero count deadline s thread all o =
    let t = record s { shutdown_thread = ended } in
    let e : happen shuts_next s ≡ some t = ground arith in
    first_step t shuts_next refl e
      (ended_returns t t.main_thread refl refl (happen-InOrder shuts_next s t e o))
shut_rest (suc left) count deadline s thread all o =
    let t = record s {
      shut_by = deadline ∷ s.shut_by;
      shutdown_thread = shuts_down deadline (suc count);
    } in
    let e : happen shuts_next s ≡ some t = ground arith in
    first_step t shuts_next refl e
      (shut_rest left (suc count) deadline t refl (omega arith) (happen-InOrder shuts_next s t e o))

thread_returns :
    (s : Server) (thread : ShutdownThread)
    → s.shutdown_thread ≡ thread
    → s.signaled ≡ true
    → InOrder s
    → CanReturn s
unfolding happen
thread_returns s ended thread signaled o = ended_returns s s.main_thread refl thread o
thread_returns s (shuts_down deadline count) thread signaled o =
    let did : ThreadDid (shuts_down deadline count) s = subst (λ th. ThreadDid th s) thread o.0 in
    shut_rest (s.transports - count) count deadline s thread (omega (arith, did.2)) o
thread_returns s awaits_signal thread signaled o =
    let t = starts_shutdown 0 s in
    let e : happen (sigwait_returns 0) s ≡ some t = ground arith in
    first_step t (sigwait_returns 0) refl e
      (shut_rest s.transports 0 5 t refl (omega arith) (happen-InOrder (sigwait_returns 0) s t e o))

-- Once a signal has arrived, the two threads cannot block each other, nor do they need anything else:
-- from every state that the server can then be in, steps of their own end with main returning 0. These
-- are the return of sigwait, the shutdowns, the waits and the join; no other signal and no failure of
-- sigwait is among them.
pub signaled-CanReturn :
    (transports : ℕ) (s : Server) → Steps (serving transports) s → s.signaled ≡ true → CanReturn s
signaled-CanReturn transports s steps signaled =
    thread_returns s s.shutdown_thread refl signaled (Steps-InOrder transports s steps)
