-- ===== src/Tests/Tasks.antt =====
-- The task manager on two tasks: `b` depends on `a`, which a worker claims.
use ds_service.Base.{
  ℕ, ◌+◌, ◌<◌, ◌^◌, ◌≡◌, ◌≢◌, refl, true, false, ◌⊎◌, [], ◌∷◌, length, get_or, arith, eqb, ◌&&◌,
  if◌then◌else◌,
}
use ds_service.Double.{zero_double, is_nan}
use ds_service.Messages.{TaskAddRequest, TaskGetRequest, TaskDoneRequest}
use ds_service.Tests.Library.{library}
use ds_service.TaskManager.Done.{done}
use ds_service.TaskManager.Queue.{TaskQueueEntry, order}
use ds_service.TaskManager.Dispatch.{IsQueued}
use ds_service.TaskManager.Dispatch.Get.{Answers}
use ds_service.TaskManager.Get.{get}
use ds_service.TaskManager.Graph.{WellFormed, is_released}
use ds_service.TaskManager.Graph.Owed.{occ}
use ds_service.TaskManager.Progress.{Above, IsActive, waiting_progress, parents_finished}
use ds_service.TaskManager.Propagate.{edges, walk, push_all, propagate_to_children, terminal_output}
use ds_service.TaskManager.Propagate.Cells.{IsEnded, IsKept}
use ds_service.TaskManager.Propagate.Fuel.{propagate_ends}
use ds_service.TaskManager.Propagate.Outcomes.{propagate_exact}
use ds_service.TaskManager.Propagate.Reach.{Below}
use ds_service.TaskManager.State.{TaskTable, TaskManager, state_at, children_at}
use ds_service.TaskManager.Steps.{
  adds, gets, dones, Steps, here, next, initial, after, reachable-WellFormed,
}
use ds_service.TaskManager.Steps.Queues.{
  Orderly, start, step, reachable-IsQueued, reachable-Answers,
}
use ds_service.TaskState.{waiting, ready, running, finished, failed, same, is_live}

abbrev pub add_a : TaskAddRequest
add_a = record {
  task_id = "a";
  parent_task_ids = [];
  queue = "q" ∷ [];
  priority = zero_double;
  function = "f";
  input = "x";
}

abbrev pub add_b : TaskAddRequest
add_b = record add_a { task_id = "b"; parent_task_ids = "a" ∷ [] }

abbrev pub get_q : TaskGetRequest
get_q = record { worker_id = "w"; queue = "q" ∷ [] }

abbrev pub one : TaskManager library
one = after library (initial library) (adds add_a)

abbrev pub two : TaskManager library
two = after library one (adds add_b)

abbrev pub three : TaskManager library
three = after library two (gets get_q)

pub to_one : Steps library (initial library) one
to_one = next here (adds add_a)

pub to_two : Steps library (initial library) two
to_two = next to_one (adds add_b)

pub to_three : Steps library (initial library) three
to_three = next to_two (gets get_q)

reachable-WellFormed_example : WellFormed library three
reachable-WellFormed_example = reachable-WellFormed library three to_three

room_at_first : (initial library).next_seq + 1 < 2 ^ 64
room_at_first = omega arith

room_then : one.next_seq + 1 < 2 ^ 64
unfolding after ds_service.TaskManager.Add.add same ds_service.TaskManager.State.enqueue
room_then = omega arith

two_in_order : Orderly library (initial library) two
unfolding is_nan
two_in_order = step (step start (adds add_a) (refl, room_at_first)) (adds add_b) (refl, room_then)

reachable-IsQueued_example : IsQueued library two
reachable-IsQueued_example = reachable-IsQueued library two two_in_order

reachable-Answers_example : Answers library two.tasks "w" ("q" ∷ []) (get library two get_q)
reachable-Answers_example = reachable-Answers library two get_q two_in_order

b_waits : state_at three.tasks 1 ≡ waiting
unfolding after get_or get ds_service.TaskManager.Add.add ds_service.TaskState.same
    ds_service.TaskManager.State.enqueue ds_service.TaskManager.State.push_each
    ds_service.TaskManager.Get.pop_usable ds_service.TaskManager.Queue.push
    ds_service.TaskManager.Get.is_dead ds_service.Base.set
b_waits = refl

rows_of_three : length three.tasks.task_id ≡ 2
unfolding after get ds_service.TaskManager.Add.add ds_service.TaskState.same
    ds_service.TaskManager.State.enqueue get_or ds_service.TaskManager.State.push_each
    ds_service.TaskManager.Get.pop_usable ds_service.TaskManager.Queue.push
    ds_service.TaskManager.Get.is_dead ds_service.Base.set
rows_of_three = refl

pub two_rows : 1 < length three.tasks.task_id
two_rows = omega (arith, rows_of_three)

waiting_progress_example : (a : ℕ) × Above three.tasks a 1 × IsActive (state_at three.tasks a)
waiting_progress_example = waiting_progress library three to_three 1 two_rows b_waits

abbrev pub a_done : TaskDoneRequest
a_done = record { task_id = "a"; worker_id = "w"; failed = false; output = "y" }

abbrev pub four : TaskManager library
four = after library three (dones a_done)

a_leads_to_b : children_at four.tasks 0 ≡ 1 ∷ []
unfolding after get_or ds_service.TaskManager.Done.done get ds_service.TaskManager.Add.add
    ds_service.TaskState.same ds_service.TaskManager.State.enqueue
    ds_service.TaskManager.State.push_each ds_service.TaskManager.Get.pop_usable
    ds_service.TaskManager.Queue.push ds_service.TaskManager.Get.is_dead ds_service.Base.set
a_leads_to_b = refl

b_once : occ 1 (1 ∷ []) ≡ 1
unfolding occ
b_once = refl

b_below_a : 0 < occ 1 (children_at four.tasks 0)
b_below_a = rw (a_leads_to_b, b_once) (omega arith)

b_released : is_released (state_at four.tasks 1) ≡ true
unfolding after is_released get_or ds_service.TaskManager.Done.done get
    ds_service.TaskManager.Add.add ds_service.TaskManager.State.enqueue
    ds_service.TaskManager.State.push_each ds_service.TaskManager.Get.pop_usable
    ds_service.TaskManager.Queue.push ds_service.TaskManager.Get.is_dead ds_service.Base.set
b_released = refl

parents_finished_example : state_at four.tasks 0 ≡ finished
parents_finished_example =
    parents_finished library four (next to_three (dones a_done)) 0 1 b_below_a b_released

failed_ends : is_live failed ≡ false
unfolding is_live
failed_ends = refl

abbrev when_a_fails : TaskTable
when_a_fails = propagate_to_children library three.tasks 0 failed 0

propagate_exact_example :
    (Below three.tasks 0 1
      × (is_live (state_at three.tasks 1) ≡ true)
      × IsEnded failed (terminal_output library three.tasks failed 0) 0 three.tasks when_a_fails 1)
    ⊎ (((is_live (state_at three.tasks 1) ≡ false) ⊎ (¬ (Below three.tasks 0 1)))
        × IsKept three.tasks when_a_fails 1)
propagate_exact_example =
    propagate_exact library three.tasks 0 failed 0 failed_ends 1
      (reachable-WellFormed library three to_three).aligned

propagate_ends_example :
    (walk
      (length (children_at three.tasks 0) + edges three.tasks.children)
      failed
      "gone"
      0
      three.tasks
      (push_all [] (children_at three.tasks 0))).1
    ≡ []
propagate_ends_example = propagate_ends failed "gone" 0 failed_ends three.tasks 0
