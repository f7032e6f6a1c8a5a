-- ===== src/ServerMain/Shutdown.antt =====
-- The threads of the server in any order, from its start to its exit.
use ds_service.Base.{
  ℕ, zero, suc, ◌≤◌, ◌≡◌, inl, inr, refl, ap, ◌∙◌, subst, true, some, List, [], ◌∷◌, length, ltb,
  Bool-cases, arith,
}
use ds_service.ServerMain.{
  ShutdownThread, awaits_signal, shuts_down, ended, MainThread, waits, returned, Server, serving,
  Event, signal_arrives, sigwait_returns, sigwait_fails, shuts_next, wait_returns, joins, shut_next,
  wait_next, join, happen,
}

pub data Steps (s : Server) : Server → Type 0 where
  here : Steps s s
  next : {t u : Server} (event : Event) → Steps s t → happen event t ≡ some u → Steps s u

abbrev pub copies : ℕ → ℕ → List ℕ
copies zero deadline = []
copies (suc n) deadline = deadline ∷ copies n deadline

pub length-copies : (n deadline : ℕ) → length (copies n deadline) ≡ n
length-copies zero deadline = refl
length-copies (suc n) deadline = ap suc (length-copies n deadline)

-- What the shutdown thread has done, by where it is.
abbrev pub ThreadDid : ShutdownThread → Server → Type 0
ThreadDid awaits_signal s = s.shut_by ≡ []
ThreadDid (shuts_down deadline count) s =
    (s.shutdown ≡ true) × (s.shut_by ≡ copies count deadline) × (count ≤ s.transports)
ThreadDid ended s =
    (s.shutdown ≡ true) × ((deadline : ℕ) × (s.shut_by ≡ copies s.transports deadline))

-- What main has waited for.
abbrev pub MainDid : MainThread → Server → Type 0
MainDid (waits count) s = (count ≤ s.transports) × (count ≤ length s.shut_by)
MainDid (returned code) s = (code ≡ 0) × (s.shutdown_thread ≡ ended)

abbrev pub InOrder : Server → Type 0
InOrder s = ThreadDid s.shutdown_thread s × MainDid s.main_thread s

MainDid-ended :
    (main : MainThread) (s : Server)
    → MainDid main s
    → MainDid main (record s { shutdown_thread = ended })
MainDid-ended (waits count) s did = did
MainDid-ended (returned code) s did = (did.0, refl)

shut-InOrder :
    (s t : Server) (thread : ShutdownThread)
    → s.shutdown_thread ≡ thread
    → shut_next s ≡ some t
    → InOrder s
    → InOrder t
unfolding shut_next
shut-InOrder s t awaits_signal at e o = ground arith
shut-InOrder s t ended at e o = ground arith
shut-InOrder s t (shuts_down deadline count) at e o = elim (Bool-cases (ltb count s.transports)) [
  | inl more ↦ ground (arith, e, at, more, o)
  | inr over ↦
      let did : ThreadDid (shuts_down deadline count) s = subst (λ th. ThreadDid th s) at o.0 in
      let last : count ≡ s.transports = ground (arith, over, did.2) in
      let t_is : t ≡ record s { shutdown_thread = ended } = ground (arith, e, at, over) in
      rw t_is (
        (did.0, (deadline, did.1 ∙ ap (λ n. copies n deadline) last)),
        MainDid-ended s.main_thread s o.1,
      )
]

pub happen-InOrder :
    (event : Event) (s t : Server) → happen event s ≡ some t → InOrder s → InOrder t
unfolding happen shut_next wait_next join
happen-InOrder signal_arrives s t e o = ground arith
happen-InOrder (sigwait_returns now) s t e o = ground arith
happen-InOrder (sigwait_fails now) s t e o = ground arith
happen-InOrder shuts_next s t e o = shut-InOrder s t s.shutdown_thread refl e o
happen-InOrder wait_returns s t e o = ground arith
happen-InOrder joins s t e o = ground arith

pub Steps-InOrder : (transports : ℕ) (s : Server) → Steps (serving transports) s → InOrder s
Steps-InOrder transports s here = (refl, (omega arith, omega arith))
Steps-InOrder transports s (next {t} event steps e) =
    happen-InOrder event t s e (Steps-InOrder transports t steps)

happen-transports :
    (event : Event) (s t : Server) → happen event s ≡ some t → t.transports ≡ s.transports
unfolding happen shut_next wait_next join
happen-transports signal_arrives s t e = ground arith
happen-transports (sigwait_returns now) s t e = ground arith
happen-transports (sigwait_fails now) s t e = ground arith
happen-transports shuts_next s t e = ground arith
happen-transports wait_returns s t e = ground arith
happen-transports joins s t e = ground arith

Steps-transports : (s t : Server) → Steps s t → t.transports ≡ s.transports
Steps-transports s t here = refl
Steps-transports s t (next {t = u} event steps e) =
    happen-transports event u t e ∙ Steps-transports s u steps

-- However the signals, the shutdown thread and main interleave, when main returns it returns 0, the
-- shutdown flag is set, and every transport has been shut down once, all by one deadline.
pub returned-Graceful :
    (transports : ℕ) (s : Server) (code : ℕ)
    → Steps (serving transports) s
    → s.main_thread ≡ returned code
    → (code ≡ 0) × (s.shutdown ≡ true) × ((deadline : ℕ) × (s.shut_by ≡ copies transports deadline))
returned-Graceful transports s code steps at =
    let o = Steps-InOrder transports s steps in
    let main : MainDid (returned code) s = subst (λ m. MainDid m s) at o.1 in
    let thread : ThreadDid ended s = subst (λ th. ThreadDid th s) main.1 o.0 in
    (
      main.0,
      thread.0,
      (
        thread.1.0,
        thread.1.1 ∙ ap (λ n. copies n thread.1.0) (Steps-transports (serving transports) s steps),
      ),
    )
