-- ===== src/Tests/Structures.antt =====
-- The map, the counters, the journals and the mutexes on a few calls.
use ds_service.Base.{
  ◌+◌, ◌%◌, ◌<◌, ◌^◌, ◌≡◌, refl, some, List, [], ◌∷◌, ◌++◌, length, arith, ◌==◌, if◌then◌else◌,
}
use ds_service.Counters
use ds_service.Counters.{Counters}
use ds_service.Counters.Sequence
use ds_service.Error.{ok}
use ds_service.JournalMap.{JournalMap, read, size}
use ds_service.JournalMap.Order
use ds_service.Messages.{
  JournalAppendRequest, JournalReadRequest, MutexTryAcquireRequest, MutexReleaseRequest,
}
use ds_service.Mutexes.{Mutexes, try_acquire}
use ds_service.Mutexes.Ownership
use ds_service.Tests.Library.{library}
use ds_service.ThirdParty.{count}

abbrev no_counters : Counters library
no_counters = record { entries = [] }

abbrev no_journals : JournalMap library
no_journals = record { entries = [] }

abbrev no_mutexes : Mutexes library
no_mutexes = record { entries = [] }

next_value_lem_example :
    (Sequence.next library no_counters "k"
      ≡ (Sequence.current library no_counters "k" + 1) % 2 ^ 64)
    × (Sequence.current library (Sequence.stepped library no_counters "k") "j" ≡ (
        if "k" == "j"
        then Sequence.next library no_counters "k"
        else Sequence.current library no_counters "j"))
next_value_lem_example = Sequence.next_value_lem library no_counters "k" "j"

below_bound : Sequence.current library no_counters "k" < 2 ^ 64
unfolding Counters.get_current_value
below_bound = omega arith

current-run_example :
    Sequence.current library (Sequence.run library no_counters ("k" ∷ "j" ∷ "k" ∷ [])) "k"
    ≡ (Sequence.current library no_counters "k" + count "k" ("k" ∷ "j" ∷ "k" ∷ [])) % 2 ^ 64
current-run_example =
    Sequence.current-run library no_counters ("k" ∷ "j" ∷ "k" ∷ []) "k" below_bound

abbrev two_appends : List JournalAppendRequest
two_appends = record { key = "k"; value = "a" } ∷ record { key = "k"; value = "b" } ∷ []

abbrev read_tail : JournalReadRequest
read_tail = record { key = "k"; start = 1; end = 5 }

read-run_example :
    (read library (Order.run library no_journals two_appends) read_tail
      ≡ ok (record {
        entry =
            Order.slice
              (Order.journal library no_journals "k" ++ Order.appended library two_appends "k")
              1
              5;
      }))
    × (size library (Order.run library no_journals two_appends) (record { key = "k" })
        ≡ ok (record {
          size =
              length (Order.journal library no_journals "k")
              + length (Order.appended library two_appends "k");
        }))
read-run_example = Order.read-run library no_journals two_appends read_tail

abbrev acquire_k : MutexTryAcquireRequest
acquire_k = record { key = "k"; worker_id = "w" }

abbrev release_k : MutexReleaseRequest
release_k = record { key = "k"; worker_id = "v" }

abbrev w_holds : Mutexes library
w_holds = (try_acquire library no_mutexes acquire_k).1

try_acquire-Acquires_example : Ownership.Acquires library no_mutexes acquire_k
try_acquire-Acquires_example = Ownership.try_acquire-Acquires library no_mutexes acquire_k

release-Releases_example : Ownership.Releases library w_holds release_k
release-Releases_example = Ownership.release-Releases library w_holds release_k

abbrev two_calls : List Ownership.Call
two_calls =
    Ownership.acquires (record { key = "k"; worker_id = "v" }) ∷ Ownership.releases release_k ∷ []

w_is_holder : Ownership.holder library w_holds "k" ≡ some "w"
w_is_holder = (Ownership.try_acquire-Acquires library no_mutexes acquire_k).1 "k"

holder-run_example :
    Ownership.holder library (Ownership.run library w_holds two_calls) "k" ≡ some "w"
holder-run_example = Ownership.holder-run library w_holds two_calls "k" "w" w_is_holder refl
