-- ===== src/Client.antt =====
-- cpp/client/client.cpp: the methods of Client, each on the transport that the client owns, and
-- cpp/client/include/ds-service/client-transport.hpp, what a transport offers. A call may change what
-- is behind the transport, here a state S. The loop of mutex_acquire is in MutexAcquire.antt.
pub mod Wire
use ds_service.Base.{ℕ, String, Bool, Option, List}
use ds_service.Base.Int.{ℤ}
use ds_service.Double.{Double}
use ds_service.Error.{Result, ok, unexpected}
use ds_service.Messages.{TaskGetCountByStateResponse, TaskGetResponse, TimeSeriesDataPoint}
use ds_service.SystemState.{Call, Answer}
use ds_service.SystemState
use ds_service.TaskState.{TaskState}

-- ClientTransport: the operations and `close`.
pub record ClientTransport (S : Type 0) : Type 0 where
  pub call : (c : Call) → S → Result (Answer c) × S
  pub close : S → S

abbrev pub field_of : {A B : Type 0} → (A → B) → Result A → Result B
field_of f (ok response) = ok (f response)
field_of f (unexpected error) = unexpected error

-- A method returns a field of the response, or throws what the transport throws.
abbrev pub project : {S A B : Type 0} → (A → B) → Result A × S → Result B × S
project f r = (field_of f r.0, r.1)

module _ {S : Type 0} (transport : ClientTransport S) where
  abbrev pub map_set : String → String → S → Result (Unit {0}) × S
  map_set key value s = transport.call (SystemState.map_set (record { key = key; value = value })) s

  abbrev pub map_get : String → S → Result String × S
  map_get key s =
      project (λ r. r.value) (transport.call (SystemState.map_get (record { key = key })) s)

  abbrev pub map_search_key : String → S → Result (List String) × S
  map_search_key pattern s =
      project (λ r. r.key)
        (transport.call (SystemState.map_search_key (record { pattern = pattern })) s)

  abbrev pub task_add :
      String → List String → List String → Double → String → String → S → Result (Unit {0}) × S
  task_add task_id parent_task_ids queue priority function input s =
      transport.call
        (SystemState.task_add (record {
          task_id = task_id;
          parent_task_ids = parent_task_ids;
          queue = queue;
          priority = priority;
          function = function;
          input = input;
        }))
        s

  abbrev pub task_get_status : List String → S → Result (List TaskState) × S
  task_get_status task_id s =
      project (λ r. r.state)
        (transport.call (SystemState.task_get_status (record { task_id = task_id })) s)

  abbrev pub task_get_output : String → S → Result String × S
  task_get_output task_id s =
      project (λ r. r.output)
        (transport.call (SystemState.task_get_output (record { task_id = task_id })) s)

  abbrev pub task_get_count_by_state : S → Result TaskGetCountByStateResponse × S
  task_get_count_by_state s = transport.call SystemState.task_get_count_by_state s

  abbrev pub task_cancel : String → S → Result Bool × S
  task_cancel task_id s =
      project (λ r. r.success)
        (transport.call (SystemState.task_cancel (record { task_id = task_id })) s)

  abbrev pub task_get_priority : String → S → Result Double × S
  task_get_priority task_id s =
      project (λ r. r.priority)
        (transport.call (SystemState.task_get_priority (record { task_id = task_id })) s)

  abbrev pub task_set_priority : String → Double → S → Result (Unit {0}) × S
  task_set_priority task_id priority s =
      transport.call
        (SystemState.task_set_priority (record { task_id = task_id; priority = priority })) s

  abbrev pub task_get_worker_id : String → S → Result String × S
  task_get_worker_id task_id s =
      project (λ r. r.worker_id)
        (transport.call (SystemState.task_get_worker_id (record { task_id = task_id })) s)

  abbrev pub task_search_id : String → S → Result (List String) × S
  task_search_id pattern s =
      project (λ r. r.key)
        (transport.call (SystemState.task_search_id (record { pattern = pattern })) s)

  abbrev pub task_get : String → List String → S → Result TaskGetResponse × S
  task_get worker_id queue s =
      transport.call (SystemState.task_get (record { worker_id = worker_id; queue = queue })) s

  abbrev pub task_done : String → String → String → Bool → S → Result (Unit {0}) × S
  task_done task_id worker_id output failed s =
      transport.call
        (SystemState.task_done
          (record { task_id = task_id; worker_id = worker_id; output = output; failed = failed }))
        s

  abbrev pub journal_size : String → S → Result ℕ × S
  journal_size key s =
      project (λ r. r.size) (transport.call (SystemState.journal_size (record { key = key })) s)

  abbrev pub journal_read : String → ℕ → ℕ → S → Result (List String) × S
  journal_read key start end s =
      project (λ r. r.entry)
        (transport.call (SystemState.journal_read (record { key = key; start = start; end = end }))
          s)

  abbrev pub journal_append : String → String → S → Result (Unit {0}) × S
  journal_append key value s =
      transport.call (SystemState.journal_append (record { key = key; value = value })) s

  abbrev pub journal_search_key : String → S → Result (List String) × S
  journal_search_key pattern s =
      project (λ r. r.key)
        (transport.call (SystemState.journal_search_key (record { pattern = pattern })) s)

  abbrev pub time_series_append : String → Double → String → ℤ → S → Result (Unit {0}) × S
  time_series_append key value datetime step s =
      transport.call
        (SystemState.time_series_append
          (record { key = key; value = value; datetime = datetime; step = step }))
        s

  abbrev pub time_series_get :
      String
      → Option String
      → Option String
      → Option ℤ
      → Option ℤ
      → S
      → Result (List TimeSeriesDataPoint) × S
  time_series_get key start_time end_time start_step end_step s =
      project (λ r. r.point)
        (transport.call
          (SystemState.time_series_get (record {
            key = key;
            start_time = start_time;
            end_time = end_time;
            start_step = start_step;
            end_step = end_step;
          }))
          s)

  abbrev pub time_series_search_key : String → S → Result (List String) × S
  time_series_search_key pattern s =
      project (λ r. r.key)
        (transport.call (SystemState.time_series_search_key (record { pattern = pattern })) s)

  abbrev pub mutex_try_acquire : String → String → S → Result Bool × S
  mutex_try_acquire key worker_id s =
      project (λ r. r.acquired)
        (transport.call
          (SystemState.mutex_try_acquire (record { key = key; worker_id = worker_id })) s)

  abbrev pub mutex_release : String → String → S → Result (Unit {0}) × S
  mutex_release key worker_id s =
      transport.call (SystemState.mutex_release (record { key = key; worker_id = worker_id })) s

  abbrev pub mutex_get_worker_id : String → S → Result String × S
  mutex_get_worker_id key s =
      project (λ r. r.worker_id)
        (transport.call (SystemState.mutex_get_worker_id (record { key = key })) s)

  abbrev pub mutex_search_key : String → S → Result (List String) × S
  mutex_search_key pattern s =
      project (λ r. r.key)
        (transport.call (SystemState.mutex_search_key (record { pattern = pattern })) s)

  abbrev pub counter_get_next_value : String → S → Result ℕ × S
  counter_get_next_value key s =
      project (λ r. r.value)
        (transport.call (SystemState.counter_get_next_value (record { key = key })) s)

  abbrev pub counter_get_current_value : String → S → Result ℕ × S
  counter_get_current_value key s =
      project (λ r. r.value)
        (transport.call (SystemState.counter_get_current_value (record { key = key })) s)

  abbrev pub counter_search_key : String → S → Result (List String) × S
  counter_search_key pattern s =
      project (λ r. r.key)
        (transport.call (SystemState.counter_search_key (record { pattern = pattern })) s)

  abbrev pub close : S → S
  close s = transport.close s
