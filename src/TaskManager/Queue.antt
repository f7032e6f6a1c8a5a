-- ===== src/TaskManager/Queue.antt =====
-- TaskQueueEntry, TaskQueueEntryOrder and TaskQueue of cpp/server/core/data-structures.hpp. A
-- std::priority_queue is a list here, greatest entry first: `push` puts an entry behind those that are
-- not less than it, `top` and `pop` are the head and the tail.
pub mod Order
pub mod Entries
use ds_service.Base.{ℕ, Bool, not, List, [], ◌∷◌, ltb, if◌then◌else◌}
use ds_service.Double
use ds_service.Double.{Double}

pub record TaskQueueEntry : Type 0 where
  pub priority : Double
  pub seq : ℕ
  pub index : ℕ

-- TaskQueueEntryOrder: `a` leaves the queue after `b`.
unfoldable pub order : TaskQueueEntry → TaskQueueEntry → Bool
order a b =
    if not (Double.eq a.priority b.priority)
    then Double.lt a.priority b.priority
    else ltb b.seq a.seq

abbrev pub TaskQueue : Type 0
TaskQueue = List TaskQueueEntry

unfoldable pub push : TaskQueue → TaskQueueEntry → TaskQueue
push [] entry = entry ∷ []
push (x ∷ q) entry = if order x entry then entry ∷ x ∷ q else x ∷ push q entry
