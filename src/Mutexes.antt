-- ===== src/Mutexes.antt =====
-- cpp/server/core/mutexes.cpp: the named mutexes.
pub mod Ownership
use ds_service.Base.{String, Bool, true, false, not, none, some, [], ◌∷◌, ◌==◌, if◌then◌else◌}
use ds_service.Error.{Result, ok, make_error, not_found, failed_precondition}
use ds_service.Messages.{
  MutexTryAcquireRequest, MutexTryAcquireResponse, MutexReleaseRequest, MutexGetWorkerIdRequest,
  MutexGetWorkerIdResponse, SearchKeyRequest, SearchKeyResponse,
}
use ds_service.SearchKey
use ds_service.ThirdParty.{ThirdParty, subscript}

pub record MutexState : Type 0 where
  pub held : Bool
  pub worker_id : String

-- MutexState{}
abbrev pub free_mutex : MutexState
free_mutex = record { held = false; worker_id = "" }

module _ (P : ThirdParty) where
  pub record Mutexes : Type 0 where
    pub entries : P.HashMap MutexState

  pub try_acquire : Mutexes → MutexTryAcquireRequest → Result MutexTryAcquireResponse × Mutexes
  unfolding subscript
  try_acquire m request =
      let (mutex, entries) = subscript P.maps free_mutex m.entries request.key in
      if mutex.held then (ok (record { acquired = false }), record { entries = entries }) else (
        ok (record { acquired = true }),
        record {
          entries =
              P.assign entries request.key (record { held = true; worker_id = request.worker_id });
        },
      )

  not_held : {A : Type 0} → String → Result A
  not_held key = make_error failed_precondition (P.format "Mutex {} is not held." (key ∷ []))

  pub release : Mutexes → MutexReleaseRequest → Result (Unit {0}) × Mutexes
  unfolding not_held
  release m request = elim (P.find m.entries request.key) [
    | none ↦ (not_held request.key, m)
    | some mutex ↦
        if not mutex.held
        then (not_held request.key, m)
        else if not (mutex.worker_id == request.worker_id)
        then (
          make_error failed_precondition (
              P.format "Mutex {} is held by worker {}, not {}."
                (request.key ∷ mutex.worker_id ∷ request.worker_id ∷ [])),
          m,
        )
        else (ok tt, record { entries = P.assign m.entries request.key free_mutex })
  ]

  pub get_worker_id : Mutexes → MutexGetWorkerIdRequest → Result MutexGetWorkerIdResponse
  unfolding not_held
  get_worker_id m request = elim (P.find m.entries request.key) [
    | none ↦ make_error not_found (P.format "Mutex {} not found." (request.key ∷ []))
    | some mutex ↦
        if not mutex.held then not_held request.key else ok (record { worker_id = mutex.worker_id })
  ]

  unfoldable pub search_key : Mutexes → SearchKeyRequest → Result SearchKeyResponse
  search_key m request = SearchKey.search P (P.keys m.entries) request
