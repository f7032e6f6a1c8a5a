-- ===== src/Grpc/Codec/TaskResponses.antt =====
-- The conversions of the responses of the task manager.
use ds_service.Base.{false, none, some, []}
use ds_service.Double.{zero_double}
use ds_service.Grpc.Codec.{Codec, value_or, add_states, copy_states}
use ds_service.Grpc.Proto
use ds_service.Messages

abbrev pub encode_task_get_status_response :
    Messages.TaskGetStatusResponse → Proto.TaskGetStatusResponse → Proto.TaskGetStatusResponse
encode_task_get_status_response m out = record out { state = add_states m.state out.state }

abbrev pub decode_task_get_status_response :
    Proto.TaskGetStatusResponse → Messages.TaskGetStatusResponse
decode_task_get_status_response m = record { state = copy_states m.state }

abbrev pub task_get_status_response :
    Codec Messages.TaskGetStatusResponse Proto.TaskGetStatusResponse
task_get_status_response = record {
  bare = record { state = [] };
  encode = encode_task_get_status_response;
  decode = decode_task_get_status_response;
}

abbrev pub encode_task_get_output_response :
    Messages.TaskGetOutputResponse → Proto.TaskGetOutputResponse → Proto.TaskGetOutputResponse
encode_task_get_output_response m out = record out { output = some m.output }

abbrev pub decode_task_get_output_response :
    Proto.TaskGetOutputResponse → Messages.TaskGetOutputResponse
decode_task_get_output_response m = record { output = value_or "" m.output }

abbrev pub task_get_output_response :
    Codec Messages.TaskGetOutputResponse Proto.TaskGetOutputResponse
task_get_output_response = record {
  bare = record { output = none };
  encode = encode_task_get_output_response;
  decode = decode_task_get_output_response;
}

abbrev pub encode_task_get_count_by_state_response :
    Messages.TaskGetCountByStateResponse
    → Proto.TaskGetCountByStateResponse
    → Proto.TaskGetCountByStateResponse
encode_task_get_count_by_state_response m out = record out {
  waiting = some m.waiting;
  ready = some m.ready;
  running = some m.running;
  finished = some m.finished;
  failed = some m.failed;
  canceled = some m.canceled;
}

abbrev pub decode_task_get_count_by_state_response :
    Proto.TaskGetCountByStateResponse → Messages.TaskGetCountByStateResponse
decode_task_get_count_by_state_response m = record {
  waiting = value_or 0 m.waiting;
  ready = value_or 0 m.ready;
  running = value_or 0 m.running;
  finished = value_or 0 m.finished;
  failed = value_or 0 m.failed;
  canceled = value_or 0 m.canceled;
}

abbrev pub task_get_count_by_state_response :
    Codec Messages.TaskGetCountByStateResponse Proto.TaskGetCountByStateResponse
task_get_count_by_state_response = record {
  bare = record {
    waiting = none;
    ready = none;
    running = none;
    finished = none;
    failed = none;
    canceled = none;
  };
  encode = encode_task_get_count_by_state_response;
  decode = decode_task_get_count_by_state_response;
}

abbrev pub encode_task_cancel_response :
    Messages.TaskCancelResponse → Proto.TaskCancelResponse → Proto.TaskCancelResponse
encode_task_cancel_response m out = record out { success = some m.success }

abbrev pub decode_task_cancel_response : Proto.TaskCancelResponse → Messages.TaskCancelResponse
decode_task_cancel_response m = record { success = value_or false m.success }

abbrev pub task_cancel_response : Codec Messages.TaskCancelResponse Proto.TaskCancelResponse
task_cancel_response = record {
  bare = record { success = none };
  encode = encode_task_cancel_response;
  decode = decode_task_cancel_response;
}

abbrev pub encode_task_get_priority_response :
    Messages.TaskGetPriorityResponse → Proto.TaskGetPriorityResponse → Proto.TaskGetPriorityResponse
encode_task_get_priority_response m out = record out { priority = some m.priority }

abbrev pub decode_task_get_priority_response :
    Proto.TaskGetPriorityResponse → Messages.TaskGetPriorityResponse
decode_task_get_priority_response m = record { priority = value_or zero_double m.priority }

abbrev pub task_get_priority_response :
    Codec Messages.TaskGetPriorityResponse Proto.TaskGetPriorityResponse
task_get_priority_response = record {
  bare = record { priority = none };
  encode = encode_task_get_priority_response;
  decode = decode_task_get_priority_response;
}

abbrev pub encode_task_get_worker_id_response :
    Messages.TaskGetWorkerIdResponse → Proto.TaskGetWorkerIdResponse → Proto.TaskGetWorkerIdResponse
encode_task_get_worker_id_response m out = record out { worker_id = some m.worker_id }

abbrev pub decode_task_get_worker_id_response :
    Proto.TaskGetWorkerIdResponse → Messages.TaskGetWorkerIdResponse
decode_task_get_worker_id_response m = record { worker_id = value_or "" m.worker_id }

abbrev pub task_get_worker_id_response :
    Codec Messages.TaskGetWorkerIdResponse Proto.TaskGetWorkerIdResponse
task_get_worker_id_response = record {
  bare = record { worker_id = none };
  encode = encode_task_get_worker_id_response;
  decode = decode_task_get_worker_id_response;
}

abbrev pub encode_task_get_response :
    Messages.TaskGetResponse → Proto.TaskGetResponse → Proto.TaskGetResponse
encode_task_get_response m out = record out {
  task_id = some m.task_id;
  function = some m.function;
  input = some m.input;
}

abbrev pub decode_task_get_response : Proto.TaskGetResponse → Messages.TaskGetResponse
decode_task_get_response m = record {
  task_id = value_or "" m.task_id;
  function = value_or "" m.function;
  input = value_or "" m.input;
}

abbrev pub task_get_response : Codec Messages.TaskGetResponse Proto.TaskGetResponse
task_get_response = record {
  bare = record { task_id = none; function = none; input = none };
  encode = encode_task_get_response;
  decode = decode_task_get_response;
}
