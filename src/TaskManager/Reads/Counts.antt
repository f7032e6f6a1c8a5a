-- ===== src/TaskManager/Reads/Counts.antt =====
-- What task_get_count_by_state reports.
use ds_service.Base.{ℕ, ◌+◌, ◌%◌, ◌^◌, ◌≡◌, ◌<◌, ap, ◌∙◌, List, [], ◌∷◌, if◌then◌else◌, arith}
use ds_service.Error.{ok}
use ds_service.Messages.{TaskGetCountByStateResponse}
use ds_service.TaskManager.Reads.{
  increment, count_state, count_states, no_counts, get_count_by_state,
}
use ds_service.TaskManager.State.{TaskManager}
use ds_service.TaskState.{TaskState, waiting, ready, running, finished, failed, canceled, same}
use ds_service.ThirdParty.{ThirdParty}

-- How often a state stands in a list of states.
unfoldable pub tally : TaskState → List TaskState → ℕ
tally s [] = 0
tally s (x ∷ states) = (if same x s then 1 else 0) + tally s states

-- the counts `c` with the tallies of further states
abbrev pub grown : TaskGetCountByStateResponse → List TaskState → TaskGetCountByStateResponse
grown c states = record {
  waiting = (c.waiting + tally waiting states) % 2 ^ 64;
  ready = (c.ready + tally ready states) % 2 ^ 64;
  running = (c.running + tally running states) % 2 ^ 64;
  finished = (c.finished + tally finished states) % 2 ^ 64;
  failed = (c.failed + tally failed states) % 2 ^ 64;
  canceled = (c.canceled + tally canceled states) % 2 ^ 64;
}

-- Each count is a uint64_t.
record IsSmall (c : TaskGetCountByStateResponse) : Type 0 where
  waiting : c.waiting < 2 ^ 64
  ready : c.ready < 2 ^ 64
  running : c.running < 2 ^ 64
  finished : c.finished < 2 ^ 64
  failed : c.failed < 2 ^ 64
  canceled : c.canceled < 2 ^ 64

count_state-IsSmall :
    (c : TaskGetCountByStateResponse) (s : TaskState) → IsSmall c → IsSmall (count_state c s)
unfolding count_state increment
count_state-IsSmall c s h = ground (arith, h)

count_state-grown :
    (c : TaskGetCountByStateResponse) (s : TaskState) (states : List TaskState)
    → IsSmall c
    → grown (count_state c s) states ≡ grown c (s ∷ states)
unfolding count_state increment tally same
count_state-grown c s states h = ground (arith, h)

count_states-grown :
    (c : TaskGetCountByStateResponse) (states : List TaskState)
    → IsSmall c
    → count_states c states ≡ grown c states
unfolding count_states tally
count_states-grown c [] h = ground (arith, h)
count_states-grown c (s ∷ states) h =
    count_states-grown (count_state c s) states (count_state-IsSmall c s h)
    ∙ count_state-grown c s states h

module _ (P : ThirdParty) where
  -- task_get_count_by_state reports, for each of the six states, how many rows of the table are in it, as
  -- a uint64_t.
  pub get_count_by_state-tally :
      (m : TaskManager P) → get_count_by_state P m ≡ ok (grown no_counts m.tasks.state)
  unfolding get_count_by_state tally
  get_count_by_state-tally m = ap ok (count_states-grown no_counts m.tasks.state (ground arith))
