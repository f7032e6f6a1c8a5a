-- ===== src/Messages.antt =====
-- cpp/common/include/ds-service/messages.hpp: the requests and responses of the operations.
-- Payloads and keys are texts, a uint64_t is a number below 2 ^ 64, an int64_t an integer.
use ds_service.Base.{ℕ, String, Bool, Option, List}
use ds_service.Base.Int.{ℤ}
use ds_service.Double.{Double}
use ds_service.TaskState.{TaskState}

pub record MapSetRequest : Type 0 where
  pub key : String
  pub value : String

pub record MapGetRequest : Type 0 where
  pub key : String

pub record MapGetResponse : Type 0 where
  pub value : String

pub record SearchKeyRequest : Type 0 where
  pub pattern : String

pub record SearchKeyResponse : Type 0 where
  pub key : List String

pub record TaskAddRequest : Type 0 where
  pub task_id : String
  pub parent_task_ids : List String
  pub queue : List String
  pub priority : Double
  pub function : String
  pub input : String

pub record TaskGetStatusRequest : Type 0 where
  pub task_id : List String

pub record TaskGetStatusResponse : Type 0 where
  pub state : List TaskState

pub record TaskGetOutputRequest : Type 0 where
  pub task_id : String

pub record TaskGetOutputResponse : Type 0 where
  pub output : String

pub record TaskGetCountByStateResponse : Type 0 where
  pub waiting : ℕ
  pub ready : ℕ
  pub running : ℕ
  pub finished : ℕ
  pub failed : ℕ
  pub canceled : ℕ

pub record TaskCancelRequest : Type 0 where
  pub task_id : String

pub record TaskCancelResponse : Type 0 where
  pub success : Bool

pub record TaskGetPriorityRequest : Type 0 where
  pub task_id : String

pub record TaskGetPriorityResponse : Type 0 where
  pub priority : Double

pub record TaskSetPriorityRequest : Type 0 where
  pub task_id : String
  pub priority : Double

pub record TaskGetWorkerIdRequest : Type 0 where
  pub task_id : String

pub record TaskGetWorkerIdResponse : Type 0 where
  pub worker_id : String

pub record TaskGetRequest : Type 0 where
  pub worker_id : String
  pub queue : List String

pub record TaskGetResponse : Type 0 where
  pub task_id : String
  pub function : String
  pub input : String

pub record TaskDoneRequest : Type 0 where
  pub task_id : String
  pub output : String
  pub worker_id : String
  pub failed : Bool

pub record JournalSizeRequest : Type 0 where
  pub key : String

pub record JournalSizeResponse : Type 0 where
  pub size : ℕ

pub record JournalReadRequest : Type 0 where
  pub key : String
  pub start : ℕ
  pub end : ℕ

pub record JournalReadResponse : Type 0 where
  pub entry : List String

pub record JournalAppendRequest : Type 0 where
  pub key : String
  pub value : String

pub record TimeSeriesAppendRequest : Type 0 where
  pub key : String
  pub value : Double
  pub datetime : String
  pub step : ℤ

pub record TimeSeriesDataPoint : Type 0 where
  pub value : Double
  pub datetime : String
  pub step : ℤ

pub record TimeSeriesGetRequest : Type 0 where
  pub key : String
  pub start_time : Option String
  pub end_time : Option String
  pub start_step : Option ℤ
  pub end_step : Option ℤ

pub record TimeSeriesGetResponse : Type 0 where
  pub point : List TimeSeriesDataPoint

pub record MutexTryAcquireRequest : Type 0 where
  pub key : String
  pub worker_id : String

pub record MutexTryAcquireResponse : Type 0 where
  pub acquired : Bool

pub record MutexReleaseRequest : Type 0 where
  pub key : String
  pub worker_id : String

pub record MutexGetWorkerIdRequest : Type 0 where
  pub key : String

pub record MutexGetWorkerIdResponse : Type 0 where
  pub worker_id : String

pub record CounterGetNextValueRequest : Type 0 where
  pub key : String

pub record CounterGetNextValueResponse : Type 0 where
  pub value : ℕ

pub record CounterGetCurrentValueRequest : Type 0 where
  pub key : String

pub record CounterGetCurrentValueResponse : Type 0 where
  pub value : ℕ
