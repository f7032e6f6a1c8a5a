-- ===== src/TaskManager/Reads.antt =====
-- The operations that change nothing: TaskManager::get_status, get_output, get_count_by_state,
-- get_priority, get_worker_id and search_id.
pub mod Counts
pub mod Ids
use ds_service.Base.{
  ℕ, ◌+◌, ◌%◌, ◌^◌, String, not, none, some, List, [], ◌∷◌, get_or, if◌then◌else◌,
}
use ds_service.Error.{Result, ok, make_error, not_found, failed_precondition}
use ds_service.Messages.{
  TaskGetStatusRequest, TaskGetStatusResponse, TaskGetOutputRequest, TaskGetOutputResponse,
  TaskGetCountByStateResponse, TaskGetPriorityRequest, TaskGetPriorityResponse,
  TaskGetWorkerIdRequest, TaskGetWorkerIdResponse, SearchKeyRequest, SearchKeyResponse,
}
use ds_service.SearchKey
use ds_service.TaskManager.State.{TaskManager, state_at, priority_at}
use ds_service.TaskState.{
  TaskState, waiting, ready, running, finished, failed, canceled, undefined, same,
}
use ds_service.ThirdParty.{ThirdParty}

-- `counter++` on a uint64_t
unfoldable pub increment : ℕ → ℕ
increment n = (n + 1) % 2 ^ 64

-- the switch in the loop over the states
unfoldable pub count_state : TaskGetCountByStateResponse → TaskState → TaskGetCountByStateResponse
unfolding increment
count_state c waiting = record c { waiting = increment c.waiting }
count_state c ready = record c { ready = increment c.ready }
count_state c running = record c { running = increment c.running }
count_state c finished = record c { finished = increment c.finished }
count_state c failed = record c { failed = increment c.failed }
count_state c canceled = record c { canceled = increment c.canceled }
count_state c undefined = c

unfoldable pub count_states :
    TaskGetCountByStateResponse → List TaskState → TaskGetCountByStateResponse
count_states c [] = c
count_states c (s ∷ states) = count_states (count_state c s) states

abbrev pub no_counts : TaskGetCountByStateResponse
no_counts = record { waiting = 0; ready = 0; running = 0; finished = 0; failed = 0; canceled = 0 }

module _ (P : ThirdParty) where
  unfoldable pub not_found_error {ℓ} : {A : Type ℓ} → String → Result A
  not_found_error id = make_error not_found (P.format "Task with ID = {} not found." (id ∷ []))

  unfoldable pub not_running_error {ℓ} : {A : Type ℓ} → String → Result A
  not_running_error id =
      make_error failed_precondition (P.format "Task with ID = {} is not Running." (id ∷ []))

  unfoldable pub statuses : TaskManager P → List String → List TaskState
  statuses m [] = []
  statuses m (id ∷ ids) =
      elim (P.find m.task_index id) [ none ↦ undefined | some i ↦ state_at m.tasks i ]
      ∷ statuses m ids

  unfoldable pub get_status : TaskManager P → TaskGetStatusRequest → Result TaskGetStatusResponse
  unfolding statuses
  get_status m request = ok (record { state = statuses m request.task_id })

  unfoldable pub get_output : TaskManager P → TaskGetOutputRequest → Result TaskGetOutputResponse
  unfolding not_found_error
  get_output m request = elim (P.find m.task_index request.task_id) [
    | none ↦ not_found_error request.task_id
    | some i ↦ ok (record { output = get_or m.tasks.output i "" })
  ]

  unfoldable pub get_count_by_state : TaskManager P → Result TaskGetCountByStateResponse
  unfolding count_states
  get_count_by_state m = ok (count_states no_counts m.tasks.state)

  unfoldable pub get_priority :
      TaskManager P → TaskGetPriorityRequest → Result TaskGetPriorityResponse
  unfolding not_found_error
  get_priority m request = elim (P.find m.task_index request.task_id) [
    | none ↦ not_found_error request.task_id
    | some i ↦ ok (record { priority = priority_at m.tasks i })
  ]

  unfoldable pub get_worker_id :
      TaskManager P → TaskGetWorkerIdRequest → Result TaskGetWorkerIdResponse
  unfolding not_found_error not_running_error
  get_worker_id m request = elim (P.find m.task_index request.task_id) [
    | none ↦ not_found_error request.task_id
    | some i ↦
        if not (same (state_at m.tasks i) running)
        then not_running_error request.task_id
        else ok (record { worker_id = get_or m.tasks.worker_id i "" })
  ]

  unfoldable pub search_id : TaskManager P → SearchKeyRequest → Result SearchKeyResponse
  search_id m request = SearchKey.search P m.tasks.task_id request
