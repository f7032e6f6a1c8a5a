-- ===== src/Tests/Answers.antt =====
-- What the operations of the task manager answer, on the two tasks.
use ds_service.Base.{
  none, ◌==◌, ℕ, ◌+◌, ◌<◌, ◌^◌, ◌≡◌, ◌≢◌, refl, true, false, ◌⊎◌, [], ◌∷◌, length, some, get_or,
  arith, eqb, ◌&&◌, if◌then◌else◌,
}
use ds_service.Double.{zero_double, is_nan}
use ds_service.Tests.Library.{library}
use ds_service.Error.{ok}
use ds_service.TaskManager.Done.{done}
use ds_service.TaskManager.Done.Releases.{done-finished}
use ds_service.TaskManager.Add.Verdict.{Adds, add-Adds}
use ds_service.TaskManager.Queue.{TaskQueueEntry, order}
use ds_service.TaskManager.Queue.Order.{order_nan}
use ds_service.Messages.{TaskSetPriorityRequest}
use ds_service.TaskManager.Priority.{set_priority}
use ds_service.TaskManager.Priority.Reported.{get_priority-set_priority}
use ds_service.TaskManager.Reads.{search_id, get_priority}
use ds_service.TaskManager.Reads.Ids.{search_id-Lists}
use ds_service.SearchKey.Listing.{Lists}
use ds_service.TaskManager.Steps.Stays.{Stays}
use ds_service.TaskManager.Steps.Endings.{endings_final}
use ds_service.TaskManager.Steps.Refusals.{is_refused, IsUnchanged, refusals-IsUnchanged}
use ds_service.TaskManager.Get.{get}
use ds_service.TaskManager.Graph.Owed.{owed}
use ds_service.TaskManager.State.{TaskTable, TaskManager, state_at, children_at}
use ds_service.TaskManager.Steps.{adds, dones, here, next, after, reachable-WellFormed}
use ds_service.TaskState.{waiting, ready, running, finished, failed, same, is_live}
use ds_service.Tests.Tasks.{add_b, two, three, four, a_done, to_two, to_three, two_rows}

add-Adds_example : Adds library two add_b
add-Adds_example = add-Adds library two add_b (reachable-WellFormed library two to_two)

endings_final_example : Stays three.tasks four.tasks
endings_final_example = endings_final library three four to_three (next here (dones a_done))

b_refused : is_refused library two (adds add_b) ≡ true
unfolding after ds_service.TaskManager.Add.add ds_service.TaskState.same
    ds_service.TaskManager.State.enqueue get_or
b_refused = refl

refusals-IsUnchanged_example : IsUnchanged library two (after library two (adds add_b))
refusals-IsUnchanged_example = refusals-IsUnchanged library two (adds add_b) b_refused

-- Three entries, of which the first has a NaN as its priority.
abbrev nan_entry : TaskQueueEntry
nan_entry = record {
  priority = record { negative = false; magnitude = 0x7ff8000000000000 };
  seq = 1;
  index = 0;
}

abbrev low_entry : TaskQueueEntry
low_entry = record { priority = zero_double; seq = 2; index = 1 }

abbrev high_entry : TaskQueueEntry
high_entry = record {
  priority = record { negative = false; magnitude = 0x3ff0000000000000 };
  seq = 3;
  index = 2;
}

nan_is_nan : is_nan nan_entry.priority ≡ true
unfolding is_nan
nan_is_nan = refl

low_is_less : order low_entry high_entry ≡ true
unfolding order ds_service.Double.eq ds_service.Double.lt
low_is_less = refl

order_nan_example :
    (order nan_entry low_entry ≡ false)
    × (order low_entry nan_entry ≡ false)
    × (order nan_entry high_entry ≡ false)
    × (order high_entry nan_entry ≡ false)
    × (order low_entry high_entry ≢ order high_entry low_entry)
order_nan_example = order_nan nan_entry low_entry high_entry nan_is_nan low_is_less

pub a_is_row_zero : library.find three.task_index "a" ≡ some 0
unfolding after get ds_service.TaskManager.Add.add same ds_service.TaskManager.State.enqueue get_or
    ds_service.TaskManager.State.push_each ds_service.TaskManager.Get.pop_usable
    ds_service.TaskManager.Queue.push ds_service.TaskManager.Get.is_dead ds_service.Base.set
a_is_row_zero = refl

pub a_runs : state_at three.tasks 0 ≡ running
unfolding after get_or get ds_service.TaskManager.Add.add same ds_service.TaskManager.State.enqueue
    ds_service.TaskManager.State.push_each ds_service.TaskManager.Get.pop_usable
    ds_service.TaskManager.Queue.push ds_service.TaskManager.Get.is_dead ds_service.Base.set
a_runs = refl

pub w_has_a : get_or three.tasks.worker_id 0 "" ≡ "w"
unfolding after get_or get ds_service.TaskManager.Add.add same ds_service.TaskManager.State.enqueue
    ds_service.TaskManager.State.push_each ds_service.TaskManager.Get.pop_usable
    ds_service.TaskManager.Queue.push ds_service.TaskManager.Get.is_dead ds_service.Base.set
w_has_a = refl

b_is_not_a : ◌≢◌ {A = ℕ} 1 0
b_is_not_a e = omega arith

done-finished_example :
    ((done library three a_done).0 ≡ ok tt)
    × (state_at (done library three a_done).1.tasks 0 ≡ finished)
    × (state_at (done library three a_done).1.tasks 1 ≡ (
        if same (state_at three.tasks 1) waiting
          && eqb
              (owed
                (done library three a_done).1.tasks.state
                (done library three a_done).1.tasks.children
                1)
              0
        then ready
        else state_at three.tasks 1))
done-finished_example =
    done-finished library three a_done 0 1 (reachable-WellFormed library three to_three)
      a_is_row_zero a_runs w_has_a refl two_rows b_is_not_a

abbrev raise_b : TaskSetPriorityRequest
raise_b = record {
  task_id = "b";
  priority = record { negative = false; magnitude = 0x3ff0000000000000 };
}

get_priority-set_priority_example :
    get_priority library (set_priority library two raise_b).1 (record { task_id = "a" })
    ≡ elim (library.find two.task_index "b") [
      | none ↦ get_priority library two (record { task_id = "a" })
      | some index ↦
          if "b" == "a"
          then ok (record { priority = raise_b.priority })
          else get_priority library two (record { task_id = "a" })
    ]
get_priority-set_priority_example =
    get_priority-set_priority library two raise_b (record { task_id = "a" })
      (reachable-WellFormed library two to_two)

search_id-Lists_example :
    Lists library three.task_index
      (record { pattern = "a" })
      (search_id library three (record { pattern = "a" }))
search_id-Lists_example = search_id-Lists library three (record { pattern = "a" }) to_three
