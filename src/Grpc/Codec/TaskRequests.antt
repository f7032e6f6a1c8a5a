-- ===== src/Grpc/Codec/TaskRequests.antt =====
-- The conversions of the requests to the task manager.
use ds_service.Base.{false, none, some, []}
use ds_service.Double.{zero_double}
use ds_service.Grpc.Codec.{Codec, value_or, add_strings, copy_strings}
use ds_service.Grpc.Proto
use ds_service.Messages

abbrev pub encode_task_add_request :
    Messages.TaskAddRequest → Proto.TaskAddRequest → Proto.TaskAddRequest
encode_task_add_request m out = record out {
  task_id = some m.task_id;
  parent_task_ids = add_strings m.parent_task_ids out.parent_task_ids;
  queue = add_strings m.queue out.queue;
  priority = some m.priority;
  function = some m.function;
  input = some m.input;
}

abbrev pub decode_task_add_request : Proto.TaskAddRequest → Messages.TaskAddRequest
decode_task_add_request m = record {
  task_id = value_or "" m.task_id;
  parent_task_ids = copy_strings m.parent_task_ids;
  queue = copy_strings m.queue;
  priority = value_or zero_double m.priority;
  function = value_or "" m.function;
  input = value_or "" m.input;
}

abbrev pub task_add_request : Codec Messages.TaskAddRequest Proto.TaskAddRequest
task_add_request = record {
  bare = record {
    task_id = none;
    parent_task_ids = [];
    queue = [];
    priority = none;
    function = none;
    input = none;
  };
  encode = encode_task_add_request;
  decode = decode_task_add_request;
}

abbrev pub encode_task_get_status_request :
    Messages.TaskGetStatusRequest → Proto.TaskGetStatusRequest → Proto.TaskGetStatusRequest
encode_task_get_status_request m out = record out { task_id = add_strings m.task_id out.task_id }

abbrev pub decode_task_get_status_request :
    Proto.TaskGetStatusRequest → Messages.TaskGetStatusRequest
decode_task_get_status_request m = record { task_id = copy_strings m.task_id }

abbrev pub task_get_status_request : Codec Messages.TaskGetStatusRequest Proto.TaskGetStatusRequest
task_get_status_request = record {
  bare = record { task_id = [] };
  encode = encode_task_get_status_request;
  decode = decode_task_get_status_request;
}

abbrev pub encode_task_get_output_request :
    Messages.TaskGetOutputRequest → Proto.TaskGetOutputRequest → Proto.TaskGetOutputRequest
encode_task_get_output_request m out = record out { task_id = some m.task_id }

abbrev pub decode_task_get_output_request :
    Proto.TaskGetOutputRequest → Messages.TaskGetOutputRequest
decode_task_get_output_request m = record { task_id = value_or "" m.task_id }

abbrev pub task_get_output_request : Codec Messages.TaskGetOutputRequest Proto.TaskGetOutputRequest
task_get_output_request = record {
  bare = record { task_id = none };
  encode = encode_task_get_output_request;
  decode = decode_task_get_output_request;
}

abbrev pub encode_task_cancel_request :
    Messages.TaskCancelRequest → Proto.TaskCancelRequest → Proto.TaskCancelRequest
encode_task_cancel_request m out = record out { task_id = some m.task_id }

abbrev pub decode_task_cancel_request : Proto.TaskCancelRequest → Messages.TaskCancelRequest
decode_task_cancel_request m = record { task_id = value_or "" m.task_id }

abbrev pub task_cancel_request : Codec Messages.TaskCancelRequest Proto.TaskCancelRequest
task_cancel_request = record {
  bare = record { task_id = none };
  encode = encode_task_cancel_request;
  decode = decode_task_cancel_request;
}

abbrev pub encode_task_get_priority_request :
    Messages.TaskGetPriorityRequest → Proto.TaskGetPriorityRequest → Proto.TaskGetPriorityRequest
encode_task_get_priority_request m out = record out { task_id = some m.task_id }

abbrev pub decode_task_get_priority_request :
    Proto.TaskGetPriorityRequest → Messages.TaskGetPriorityRequest
decode_task_get_priority_request m = record { task_id = value_or "" m.task_id }

abbrev pub task_get_priority_request :
    Codec Messages.TaskGetPriorityRequest Proto.TaskGetPriorityRequest
task_get_priority_request = record {
  bare = record { task_id = none };
  encode = encode_task_get_priority_request;
  decode = decode_task_get_priority_request;
}

abbrev pub encode_task_set_priority_request :
    Messages.TaskSetPriorityRequest → Proto.TaskSetPriorityRequest → Proto.TaskSetPriorityRequest
encode_task_set_priority_request m out = record out {
  task_id = some m.task_id;
  priority = some m.priority;
}

abbrev pub decode_task_set_priority_request :
    Proto.TaskSetPriorityRequest → Messages.TaskSetPriorityRequest
decode_task_set_priority_request m = record {
  task_id = value_or "" m.task_id;
  priority = value_or zero_double m.priority;
}

abbrev pub task_set_priority_request :
    Codec Messages.TaskSetPriorityRequest Proto.TaskSetPriorityRequest
task_set_priority_request = record {
  bare = record { task_id = none; priority = none };
  encode = encode_task_set_priority_request;
  decode = decode_task_set_priority_request;
}

abbrev pub encode_task_get_worker_id_request :
    Messages.TaskGetWorkerIdRequest → Proto.TaskGetWorkerIdRequest → Proto.TaskGetWorkerIdRequest
encode_task_get_worker_id_request m out = record out { task_id = some m.task_id }

abbrev pub decode_task_get_worker_id_request :
    Proto.TaskGetWorkerIdRequest → Messages.TaskGetWorkerIdRequest
decode_task_get_worker_id_request m = record { task_id = value_or "" m.task_id }

abbrev pub task_get_worker_id_request :
    Codec Messages.TaskGetWorkerIdRequest Proto.TaskGetWorkerIdRequest
task_get_worker_id_request = record {
  bare = record { task_id = none };
  encode = encode_task_get_worker_id_request;
  decode = decode_task_get_worker_id_request;
}

abbrev pub encode_task_get_request :
    Messages.TaskGetRequest → Proto.TaskGetRequest → Proto.TaskGetRequest
encode_task_get_request m out = record out {
  worker_id = some m.worker_id;
  queue = add_strings m.queue out.queue;
}

abbrev pub decode_task_get_request : Proto.TaskGetRequest → Messages.TaskGetRequest
decode_task_get_request m = record {
  worker_id = value_or "" m.worker_id;
  queue = copy_strings m.queue;
}

abbrev pub task_get_request : Codec Messages.TaskGetRequest Proto.TaskGetRequest
task_get_request = record {
  bare = record { worker_id = none; queue = [] };
  encode = encode_task_get_request;
  decode = decode_task_get_request;
}

abbrev pub encode_task_done_request :
    Messages.TaskDoneRequest → Proto.TaskDoneRequest → Proto.TaskDoneRequest
encode_task_done_request m out = record out {
  task_id = some m.task_id;
  output = some m.output;
  worker_id = some m.worker_id;
  failed = some m.failed;
}

abbrev pub decode_task_done_request : Proto.TaskDoneRequest → Messages.TaskDoneRequest
decode_task_done_request m = record {
  task_id = value_or "" m.task_id;
  output = value_or "" m.output;
  worker_id = value_or "" m.worker_id;
  failed = value_or false m.failed;
}

abbrev pub task_done_request : Codec Messages.TaskDoneRequest Proto.TaskDoneRequest
task_done_request = record {
  bare = record { task_id = none; output = none; worker_id = none; failed = none };
  encode = encode_task_done_request;
  decode = decode_task_done_request;
}
