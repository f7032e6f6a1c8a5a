-- ===== src/TaskManager/Get.antt =====
-- TaskManager::get.
use ds_service.Base.{
  String, Bool, not, ◌||◌, Option, none, some, List, [], ◌∷◌, eqb, get_or, set, if◌then◌else◌,
}
use ds_service.Error.{Result, ok, make_error, not_found}
use ds_service.Messages.{TaskGetRequest, TaskGetResponse}
use ds_service.TaskManager.Queue.{TaskQueue, TaskQueueEntry}
use ds_service.TaskManager.State.{TaskTable, TaskManager, state_at, seq_at}
use ds_service.TaskState.{ready, running, same}
use ds_service.ThirdParty.{ThirdParty}

unfoldable pub is_dead : TaskTable → TaskQueueEntry → Bool
is_dead t entry =
    not (same (state_at t entry.index) ready) || not (eqb entry.seq (seq_at t entry.index))

-- The loop over one queue: the first usable entry, and what is left in the queue.
unfoldable pub pop_usable : TaskTable → TaskQueue → Option TaskQueueEntry × TaskQueue
pop_usable t [] = (none, [])
pop_usable t (entry ∷ task_queue) =
    if is_dead t entry then pop_usable t task_queue else (some entry, task_queue)

module _ (P : ThirdParty) where
  unfoldable pub claim :
      TaskManager P → TaskQueueEntry → String → Result TaskGetResponse × TaskManager P
  claim m entry worker_id = (
    ok (record {
      task_id = get_or m.tasks.task_id entry.index "";
      function = get_or m.tasks.function entry.index "";
      input = get_or m.tasks.input entry.index "";
    }),
    record m {
      tasks = record m.tasks {
        state = set m.tasks.state entry.index running;
        worker_id = set m.tasks.worker_id entry.index worker_id;
      };
    },
  )

  unfoldable pub get_from :
      TaskManager P → String → List String → Result TaskGetResponse × TaskManager P
  unfolding claim
  get_from m worker_id [] = (make_error not_found "No tasks available.", m)
  get_from m worker_id (qname ∷ names) = elim (P.find m.queue qname) [
    | none ↦ get_from m worker_id names
    | some task_queue ↦
        let (usable, rest) = pop_usable m.tasks task_queue in
        let popped : TaskManager P = record m { queue = P.assign m.queue qname rest } in
        elim usable [
          | none ↦ get_from popped worker_id names
          | some entry ↦ claim popped entry worker_id
        ]
  ]

  unfoldable pub get : TaskManager P → TaskGetRequest → Result TaskGetResponse × TaskManager P
  unfolding get_from
  get m request = get_from m request.worker_id request.queue
