-- ===== src/Grpc/Proto.antt =====
-- The messages of cpp/grpc/ds-service.proto as the generated classes hold them: under edition 2023 a
-- singular field can be unset, a repeated field is a list, and an enum is an integer on the wire.
use ds_service.Base.{ℕ, String, Bool, Option, List}
use ds_service.Base.Int.{ℤ}
use ds_service.Double.{Double}

pub record Empty : Type 0 where

pub record MapSetRequest : Type 0 where
  pub key : Option String
  pub value : Option String

pub record MapGetRequest : Type 0 where
  pub key : Option String

pub record MapGetResponse : Type 0 where
  pub value : Option String

pub record SearchKeyRequest : Type 0 where
  pub pattern : Option String

pub record SearchKeyResponse : Type 0 where
  pub key : List String

pub record TaskAddRequest : Type 0 where
  pub task_id : Option String
  pub parent_task_ids : List String
  pub queue : List String
  pub priority : Option Double
  pub function : Option String
  pub input : Option String

pub record TaskGetStatusRequest : Type 0 where
  pub task_id : List String

pub record TaskGetStatusResponse : Type 0 where
  pub state : List ℤ

pub record TaskGetOutputRequest : Type 0 where
  pub task_id : Option String

pub record TaskGetOutputResponse : Type 0 where
  pub output : Option String

pub record TaskGetCountByStateResponse : Type 0 where
  pub waiting : Option ℕ
  pub ready : Option ℕ
  pub running : Option ℕ
  pub finished : Option ℕ
  pub failed : Option ℕ
  pub canceled : Option ℕ

pub record TaskCancelRequest : Type 0 where
  pub task_id : Option String

pub record TaskCancelResponse : Type 0 where
  pub success : Option Bool

pub record TaskGetPriorityRequest : Type 0 where
  pub task_id : Option String

pub record TaskGetPriorityResponse : Type 0 where
  pub priority : Option Double

pub record TaskSetPriorityRequest : Type 0 where
  pub task_id : Option String
  pub priority : Option Double

pub record TaskGetWorkerIdRequest : Type 0 where
  pub task_id : Option String

pub record TaskGetWorkerIdResponse : Type 0 where
  pub worker_id : Option String

pub record TaskGetRequest : Type 0 where
  pub worker_id : Option String
  pub queue : List String

pub record TaskGetResponse : Type 0 where
  pub task_id : Option String
  pub function : Option String
  pub input : Option String

pub record TaskDoneRequest : Type 0 where
  pub task_id : Option String
  pub output : Option String
  pub worker_id : Option String
  pub failed : Option Bool

pub record JournalSizeRequest : Type 0 where
  pub key : Option String

pub record JournalSizeResponse : Type 0 where
  pub size : Option ℕ

pub record JournalReadRequest : Type 0 where
  pub key : Option String
  pub start : Option ℕ
  pub end : Option ℕ

pub record JournalReadResponse : Type 0 where
  pub entry : List String

pub record JournalAppendRequest : Type 0 where
  pub key : Option String
  pub value : Option String

pub record TimeSeriesAppendRequest : Type 0 where
  pub key : Option String
  pub value : Option Double
  pub datetime : Option String
  pub step : Option ℤ

pub record TimeSeriesDataPoint : Type 0 where
  pub value : Option Double
  pub datetime : Option String
  pub step : Option ℤ

pub record TimeSeriesGetRequest : Type 0 where
  pub key : Option String
  pub start_time : Option String
  pub end_time : Option String
  pub start_step : Option ℤ
  pub end_step : Option ℤ

pub record TimeSeriesGetResponse : Type 0 where
  pub point : List TimeSeriesDataPoint

pub record MutexTryAcquireRequest : Type 0 where
  pub key : Option String
  pub worker_id : Option String

pub record MutexTryAcquireResponse : Type 0 where
  pub acquired : Option Bool

pub record MutexReleaseRequest : Type 0 where
  pub key : Option String
  pub worker_id : Option String

pub record MutexGetWorkerIdRequest : Type 0 where
  pub key : Option String

pub record MutexGetWorkerIdResponse : Type 0 where
  pub worker_id : Option String

pub record CounterGetNextValueRequest : Type 0 where
  pub key : Option String

pub record CounterGetNextValueResponse : Type 0 where
  pub value : Option ℕ

pub record CounterGetCurrentValueRequest : Type 0 where
  pub key : Option String

pub record CounterGetCurrentValueResponse : Type 0 where
  pub value : Option ℕ
