-- ===== src/Bindings/Pending.antt =====
-- What a caller in Python meets when a signal arrives during a call.
use ds_service.Base.{
  Bool, true, false, ◌≡◌, refl, ap, ◌∙◌, Option, none, some, List, [], ◌∷◌, ◌++◌, Option-cases, inl,
  inr, arith, if◌then◌else◌,
}
use ds_service.Bindings.{
  Interpreter, Seen, gives, exception, client_error, raise_pending_error, released, translate,
  called, run_handlers, python_signal_pending,
}
use ds_service.Error.{Result, ok, unexpected}

-- What the caller meets where no error is pending.
abbrev pub outcome_seen : {E A : Type 0} → Result A → Seen E A
outcome_seen (ok response) = gives response
outcome_seen (unexpected error) = client_error error

-- The error of the first handler that raises
abbrev pub first_raised : {E : Type 0} → List (Option E) → Option E
first_raised [] = none
first_raised (none ∷ signals) = first_raised signals
first_raised (some error ∷ signals) = some error

abbrev pub seen_after : {E A : Type 0} → Option E → Result A → Seen E A
seen_after none result = outcome_seen result
seen_after (some error) result = exception error

-- A call that polls should_cancel once for each list of signals that arrive, until it is told to
-- cancel, and then ends with a result.
unfoldable pub polls : {E S : Type 0} → List (List (Option E)) → Interpreter E S → Interpreter E S
unfolding python_signal_pending
polls [] w = w
polls (arrived ∷ later) w =
    let r = python_signal_pending (record w { signals = w.signals ++ arrived }) in
    let rest = polls later r.1 in if r.0 then r.1 else rest

abbrev pub polling :
    {E S A : Type 0}
    → List (List (Option E))
    → Result A
    → Interpreter E S
    → Result A × Interpreter E S
polling arrivals result w = (result, polls arrivals w)

abbrev pub all_of : {E : Type 0} → List (List (Option E)) → List (Option E)
all_of [] = []
all_of (arrived ∷ later) = arrived ++ all_of later

first_raised-append :
    {E : Type 0} (xs ys : List (Option E))
    → first_raised (xs ++ ys)
      ≡ elim (first_raised xs) [ none ↦ first_raised ys | some error ↦ some error ]
first_raised-append [] ys = refl
first_raised-append (none ∷ xs) ys = first_raised-append xs ys
first_raised-append (some error ∷ xs) ys = refl

module _ {E S : Type 0} where
  called_lem :
      {A : Type 0} (body : Interpreter E S → Result A × Interpreter E S) (w : Interpreter E S)
      → ((called body w).0
          ≡ seen_after
              (body (record w { gil_held = false })).1.pending
              (body (record w { gil_held = false })).0)
        × ((called body w).1.gil_held ≡ true)
        × ((called body w).1.pending ≡ none)
  unfolding called released translate raise_pending_error
  called_lem body w = ground arith

  handlers_raise :
      (signals : List (Option E)) (w : Interpreter E S)
      → w.pending ≡ none
      → ((run_handlers signals w).1.pending ≡ first_raised signals)
        × ((run_handlers signals w).0
            ≡ elim (first_raised signals) [ none ↦ false | some error ↦ true ])
        × (first_raised signals ≡ none → (run_handlers signals w).1.signals ≡ [])
        × ((run_handlers signals w).1.on_main_thread ≡ w.on_main_thread)
  unfolding run_handlers
  handlers_raise [] w clear = ground arith
  handlers_raise (none ∷ signals) w clear = handlers_raise signals w clear
  handlers_raise (some error ∷ signals) w clear = ground arith

  -- What one poll on the main thread does, by the signals that it finds.
  record Polled (signals : List (Option E)) (w : Interpreter E S) (r : Bool × Interpreter E S)
      : Type 0 where
    cancels : r.0 ≡ elim (first_raised signals) [ none ↦ false | some error ↦ true ]
    pending : r.1.pending ≡ first_raised signals
    drained : first_raised signals ≡ none → r.1.signals ≡ []
    same_thread : r.1.on_main_thread ≡ true
    same_gil : r.1.gil_held ≡ w.gil_held

  polled :
      (w : Interpreter E S) (signals : List (Option E))
      → w.pending ≡ none
      → w.signals ≡ []
      → w.on_main_thread ≡ true
      → Polled signals w (python_signal_pending (record w { signals = w.signals ++ signals }))
  unfolding python_signal_pending
  polled w signals clear empty main =
      let h =
        handlers_raise signals
          (record w { signals = signals; gil_held = true; on_main_thread = true }) clear in
      rw (empty, main)
        (record { cancels = h.1; pending = h.0; drained = h.2; same_thread = h.3; same_gil = refl })

  polls_lem :
      (arrivals : List (List (Option E))) (w : Interpreter E S)
      → w.pending ≡ none
      → w.signals ≡ []
      → w.on_main_thread ≡ true
      → (polls arrivals w).pending ≡ first_raised (all_of arrivals)
  unfolding polls
  polls_lem [] w clear empty main = clear
  polls_lem (arrived ∷ later) w clear empty main =
      let p = polled w arrived clear empty main in
      let next = (python_signal_pending (record w { signals = w.signals ++ arrived })).1 in
      elim (Option-cases (first_raised arrived)) [
        | inl quiet ↦
            let ih = polls_lem later next (p.pending ∙ quiet) (p.drained quiet) p.same_thread in
            ground (arith, p.cancels, quiet, ih, first_raised-append arrived (all_of later))
        | inr (error, raised) ↦
            ground (arith, p.cancels, p.pending, raised, first_raised-append arrived (all_of later))
      ]

  -- A call of a method from the main thread, with no error pending, which polls should_cancel while
  -- signals arrive, and ends with whatever result. If one of the handlers raises, then the caller meets
  -- what the first of them to raise has raised, be the call cancelled or not; otherwise it meets the
  -- result, as a value or as the ClientError. No error is pending afterwards, and the GIL is held.
  pub called-polling :
      {A : Type 0} (arrivals : List (List (Option E))) (result : Result A) (w : Interpreter E S)
      → w.pending ≡ none
      → w.signals ≡ []
      → w.on_main_thread ≡ true
      → ((called (polling arrivals result) w).0
          ≡ seen_after (first_raised (all_of arrivals)) result)
        × ((called (polling arrivals result) w).1.pending ≡ none)
        × ((called (polling arrivals result) w).1.gil_held ≡ true)
  called-polling arrivals result w clear empty main =
      let c = called_lem (polling arrivals result) w in
      let left = polls_lem arrivals (record w { gil_held = false }) clear empty main in
      (c.0 ∙ ap (λ o. seen_after o result) left, c.2, c.1)
