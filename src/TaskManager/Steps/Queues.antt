-- ===== src/TaskManager/Steps/Queues.antt =====
-- The queues over the steps of the task manager.
use ds_service.Base.{
  ℕ, ◌+◌, ◌<◌, ◌^◌, ◌≡◌, refl, sym, subst, String, [], false, length, get_or, arith,
}
use ds_service.Double.{is_nan}
use ds_service.TaskManager.Dispatch.{IsEntry, entries_at, IsQueued}
use ds_service.TaskManager.Dispatch.Add.{add-IsQueued}
use ds_service.Messages.{TaskGetRequest}
use ds_service.TaskManager.Dispatch.Get.{Answers}
use ds_service.TaskManager.Dispatch.Get.Claims.{get-IsQueued, get-Answers}
use ds_service.TaskManager.Get.{get}
use ds_service.TaskManager.Dispatch.Endings.{cancel-IsQueued}
use ds_service.TaskManager.Dispatch.Requests.{set_priority-IsQueued, done-IsQueued}
use ds_service.TaskManager.Graph.{WellFormed}
use ds_service.TaskManager.Queue.{TaskQueue}
use ds_service.TaskManager.State.{TaskManager, children_at}
use ds_service.TaskManager.Queue.Entries.{All, IsSorted}
use ds_service.TaskManager.Steps.{
  Operation, adds, cancels, sets_priority, gets, dones, empty_table, initial, after, Steps, here,
  next, reachable-WellFormed,
}
use ds_service.ThirdParty.{ThirdParty}

module _ (P : ThirdParty) where
  -- An operation whose priority is a number, and which enqueues no more rows than the uint64_t of the
  -- places has numbers left.
  abbrev pub IsOrderly : TaskManager P → Operation → Type 0
  IsOrderly m (adds request) = (is_nan request.priority ≡ false) × (m.next_seq + 1 < 2 ^ 64)
  IsOrderly m (cancels request) = Unit {0}
  IsOrderly m (sets_priority request) =
      (is_nan request.priority ≡ false) × (m.next_seq + 1 < 2 ^ 64)
  IsOrderly m (gets request) = Unit {0}
  IsOrderly m (dones request) = (i : ℕ) → m.next_seq + length (children_at m.tasks i) < 2 ^ 64

  bare : (q : String) → entries_at P (initial P).queue q ≡ []
  bare q = ground (arith, P.find-empty {V = TaskQueue} q)

  pub initial-IsQueued : IsQueued P (initial P)
  unfolding get_or is_nan
  initial-IsQueued = record {
    numbers = λ i. refl;
    sorted = λ q. subst IsSorted (sym (bare q)) tt;
    entries = λ q. subst (All (IsEntry empty_table 0 0 q)) (sym (bare q)) tt;
    present = λ i q k s h. absurd (ground arith);
  }

  pub after-IsQueued :
      (m : TaskManager P) (op : Operation)
      → WellFormed P m
      → IsOrderly m op
      → IsQueued P m
      → IsQueued P (after P m op)
  unfolding after
  after-IsQueued m (adds request) w (number, room) v = add-IsQueued P m request w number room v
  after-IsQueued m (cancels request) w orderly v = cancel-IsQueued P m request w v
  after-IsQueued m (sets_priority request) w (number, room) v =
      set_priority-IsQueued P m request w number room v
  after-IsQueued m (gets request) w orderly v = get-IsQueued P m request w v
  after-IsQueued m (dones request) w room v = done-IsQueued P m request w room v

  -- `Orderly m n`: a sequence of orderly operations leads from `m` to `n`.
  pub data Orderly (m : TaskManager P) : TaskManager P → Type 0 where
    start : Orderly m m
    step :
        {n : TaskManager P}
        → Orderly m n
        → (op : Operation) → IsOrderly n op
        → Orderly m (after P n op)

  Orderly-Steps : (m n : TaskManager P) → Orderly m n → Steps P m n
  Orderly-Steps m n start = here
  Orderly-Steps m n (step {n = k} before op orderly) = next (Orderly-Steps m k before) op

  orderly-WellFormed : (m : TaskManager P) → Orderly (initial P) m → WellFormed P m
  orderly-WellFormed m reached = reachable-WellFormed P m (Orderly-Steps (initial P) m reached)

  -- The queues stay in order. In every state that orderly operations lead to, each Ready task stands, with
  -- its priority and its latest place, in each of its queues; each queue is sorted by priority and then by
  -- place; and no other entry can be taken for a Ready task. An operation is orderly if it gives no NaN as
  -- a priority, and if the numbers of a uint64_t suffice for the places that it hands out.
  pub reachable-IsQueued : (m : TaskManager P) → Orderly (initial P) m → IsQueued P m
  reachable-IsQueued m start = initial-IsQueued
  reachable-IsQueued m (step {n = k} before op orderly) =
      after-IsQueued k op (orderly-WellFormed k before) orderly (reachable-IsQueued k before)

  -- task_get in any state that orderly operations lead to. It tries the queues in the order of the request
  -- and claims for its worker the best task of the first queue on which a Ready task waits: no Ready task
  -- that waits there has a higher priority, nor the same priority and an earlier place. Where no Ready task
  -- waits on any of the queues it refuses with NotFound and changes no task. An operation is orderly if it
  -- gives no NaN as a priority, and if the numbers of a uint64_t suffice for the places that it hands out.
  pub reachable-Answers :
      (m : TaskManager P) (request : TaskGetRequest)
      → Orderly (initial P) m
      → Answers P m.tasks request.worker_id request.queue (get P m request)
  reachable-Answers m request reached =
      get-Answers P m request (orderly-WellFormed m reached) (reachable-IsQueued m reached)
