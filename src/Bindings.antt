-- ===== src/Bindings.antt =====
-- cpp/python/bindings.cpp: the Python class Client and its exceptions. A call of a method releases the
-- GIL, and what should_cancel leaves pending in the interpreter is raised when the call is over. The
-- conversions to and from bytes keep the payload, which is a text here. The transport is an argument.
pub mod Pending
pub mod Equal
use ds_service.Base.{
  ℕ, String, Bool, true, false, Option, none, some, List, [], ◌∷◌, ◌++◌, if◌then◌else◌,
}
use ds_service.Base.Int.{ℤ}
use ds_service.Client.{ClientTransport}
use ds_service.Client
use ds_service.Double.{Double}
use ds_service.Error.{Error, Result, ok, unexpected}
use ds_service.Messages.{TaskGetCountByStateResponse, TaskGetResponse, TimeSeriesDataPoint}
use ds_service.TaskState.{TaskState}

-- The interpreter, as far as the bindings use it: who holds the GIL, the error that is pending, whether
-- the thread is the main one, the signals that have arrived, each with what its handler raises; and the
-- state of the client.
pub record Interpreter (E S : Type 0) : Type 0 where
  pub gil_held : Bool
  pub pending : Option E
  pub on_main_thread : Bool
  pub signals : List (Option E)
  pub client : S

-- What the C++ code of a method ends with.
pub data Ended (E A : Type 0) : Type 0 where
  returns : A → Ended E A
  throws_python_error : E → Ended E A
  throws_client_error : Error → Ended E A

-- What the caller in Python meets: a value, an exception of Python, or a ClientError.
pub data Seen (E A : Type 0) : Type 0 where
  gives : A → Seen E A
  exception : E → Seen E A
  client_error : Error → Seen E A

module _ {E S A : Type 0} where
  -- nb::python_error takes the pending error.
  unfoldable pub raise_pending_error : A → Interpreter E S → Ended E A × Interpreter E S
  raise_pending_error response w = elim w.pending [
    | some error ↦ (throws_python_error error, record w { pending = none })
    | none ↦ (returns response, w)
  ]

  -- The GIL is taken again where the body returns and where it throws.
  unfoldable pub released :
      (Interpreter E S → Result A × Interpreter E S) → Interpreter E S → Ended E A × Interpreter E S
  unfolding raise_pending_error
  released body w =
      let (result, after) = body (record w { gil_held = false }) in
      let held = record after { gil_held = true } in
      elim result [
        | ok response ↦ raise_pending_error response held
        | unexpected error ↦ (throws_client_error error, held)
      ]

  -- The translator of a ClientError leaves a pending error to be raised. Python then takes that error.
  unfoldable pub translate : Ended E A × Interpreter E S → Seen E A × Interpreter E S
  translate (returns response, w) = (gives response, w)
  translate (throws_python_error error, w) = (exception error, w)
  translate (throws_client_error error, w) = elim w.pending [
    | some raised ↦ (exception raised, record w { pending = none })
    | none ↦ (client_error error, w)
  ]

  unfoldable pub called :
      (Interpreter E S → Result A × Interpreter E S) → Interpreter E S → Seen E A × Interpreter E S
  unfolding released translate
  called body w = translate (released body w)

-- PyErr_CheckSignals: on the main thread, the handlers of the signals that have arrived, up to one that
-- raises.
unfoldable pub run_handlers :
    {E S : Type 0} → List (Option E) → Interpreter E S → Bool × Interpreter E S
run_handlers [] w = (false, record w { signals = [] })
run_handlers (none ∷ signals) w = run_handlers signals w
run_handlers (some error ∷ signals) w = (true, record w { pending = some error; signals = signals })

unfoldable pub python_signal_pending : {E S : Type 0} → Interpreter E S → Bool × Interpreter E S
unfolding run_handlers
python_signal_pending w =
    if w.on_main_thread
    then (let r = run_handlers w.signals (record w { gil_held = true }) in
        (r.0, record r.1 { gil_held = w.gil_held }))
    else (false, w)

module _ {E S : Type 0} (transport : ClientTransport (Interpreter E S)) where
  abbrev pub map_set : String → String → Interpreter E S → Seen E (Unit {0}) × Interpreter E S
  map_set key value w = called (Client.map_set transport key value) w

  abbrev pub map_get : String → Interpreter E S → Seen E String × Interpreter E S
  map_get key w = called (Client.map_get transport key) w

  abbrev pub map_search_key : String → Interpreter E S → Seen E (List String) × Interpreter E S
  map_search_key pattern w = called (Client.map_search_key transport pattern) w

  abbrev pub task_add :
      String
      → List String
      → List String
      → Double
      → String
      → String
      → Interpreter E S
      → Seen E (Unit {0}) × Interpreter E S
  task_add task_id parent_task_ids queue priority function input w =
      called (Client.task_add transport task_id parent_task_ids queue priority function input) w

  abbrev pub task_get_status :
      List String → Interpreter E S → Seen E (List TaskState) × Interpreter E S
  task_get_status task_id w = called (Client.task_get_status transport task_id) w

  abbrev pub task_get_output : String → Interpreter E S → Seen E String × Interpreter E S
  task_get_output task_id w = called (Client.task_get_output transport task_id) w

  abbrev pub task_get_count_by_state :
      Interpreter E S → Seen E TaskGetCountByStateResponse × Interpreter E S
  task_get_count_by_state w = called (Client.task_get_count_by_state transport) w

  abbrev pub task_cancel : String → Interpreter E S → Seen E Bool × Interpreter E S
  task_cancel task_id w = called (Client.task_cancel transport task_id) w

  abbrev pub task_get_priority : String → Interpreter E S → Seen E Double × Interpreter E S
  task_get_priority task_id w = called (Client.task_get_priority transport task_id) w

  abbrev pub task_set_priority :
      String → Double → Interpreter E S → Seen E (Unit {0}) × Interpreter E S
  task_set_priority task_id priority w =
      called (Client.task_set_priority transport task_id priority) w

  abbrev pub task_get_worker_id : String → Interpreter E S → Seen E String × Interpreter E S
  task_get_worker_id task_id w = called (Client.task_get_worker_id transport task_id) w

  abbrev pub task_search_id : String → Interpreter E S → Seen E (List String) × Interpreter E S
  task_search_id pattern w = called (Client.task_search_id transport pattern) w

  abbrev pub task_get :
      String → List String → Interpreter E S → Seen E TaskGetResponse × Interpreter E S
  task_get worker_id queue w = called (Client.task_get transport worker_id queue) w

  abbrev pub task_done :
      String → String → String → Bool → Interpreter E S → Seen E (Unit {0}) × Interpreter E S
  task_done task_id worker_id output failed w =
      called (Client.task_done transport task_id worker_id output failed) w

  abbrev pub journal_size : String → Interpreter E S → Seen E ℕ × Interpreter E S
  journal_size key w = called (Client.journal_size transport key) w

  abbrev pub journal_read :
      String → ℕ → ℕ → Interpreter E S → Seen E (List String) × Interpreter E S
  journal_read key start end w = called (Client.journal_read transport key start end) w

  abbrev pub journal_append :
      String → String → Interpreter E S → Seen E (Unit {0}) × Interpreter E S
  journal_append key value w = called (Client.journal_append transport key value) w

  abbrev pub journal_search_key : String → Interpreter E S → Seen E (List String) × Interpreter E S
  journal_search_key pattern w = called (Client.journal_search_key transport pattern) w

  abbrev pub time_series_append :
      String → Double → String → ℤ → Interpreter E S → Seen E (Unit {0}) × Interpreter E S
  time_series_append key value datetime step w =
      called (Client.time_series_append transport key value datetime step) w

  abbrev pub time_series_get :
      String
      → Option String
      → Option String
      → Option ℤ
      → Option ℤ
      → Interpreter E S
      → Seen E (List TimeSeriesDataPoint) × Interpreter E S
  time_series_get key start_time end_time start_step end_step w =
      called (Client.time_series_get transport key start_time end_time start_step end_step) w

  abbrev pub time_series_search_key :
      String → Interpreter E S → Seen E (List String) × Interpreter E S
  time_series_search_key pattern w = called (Client.time_series_search_key transport pattern) w

  abbrev pub mutex_try_acquire : String → String → Interpreter E S → Seen E Bool × Interpreter E S
  mutex_try_acquire key worker_id w = called (Client.mutex_try_acquire transport key worker_id) w

  abbrev pub mutex_release : String → String → Interpreter E S → Seen E (Unit {0}) × Interpreter E S
  mutex_release key worker_id w = called (Client.mutex_release transport key worker_id) w

  abbrev pub mutex_get_worker_id : String → Interpreter E S → Seen E String × Interpreter E S
  mutex_get_worker_id key w = called (Client.mutex_get_worker_id transport key) w

  abbrev pub mutex_search_key : String → Interpreter E S → Seen E (List String) × Interpreter E S
  mutex_search_key pattern w = called (Client.mutex_search_key transport pattern) w

  abbrev pub counter_get_next_value : String → Interpreter E S → Seen E ℕ × Interpreter E S
  counter_get_next_value key w = called (Client.counter_get_next_value transport key) w

  abbrev pub counter_get_current_value : String → Interpreter E S → Seen E ℕ × Interpreter E S
  counter_get_current_value key w = called (Client.counter_get_current_value transport key) w

  abbrev pub counter_search_key : String → Interpreter E S → Seen E (List String) × Interpreter E S
  counter_search_key pattern w = called (Client.counter_search_key transport pattern) w

  -- `close` keeps the GIL.
  abbrev pub close : Interpreter E S → Interpreter E S
  close w = Client.close transport w
