-- ===== src/TaskManager/Keeps/Get.antt =====
-- TaskManager::get keeps the invariant.
use ds_service.Base.{
  ℕ, ◌≡◌, refl, sym, ◌∙◌, inl, inr, String, true, false, some, List, [], ◌∷◌, set, Bool-cases,
  Option-cases, arith, length-set, get_or-set,
}
use ds_service.Messages.{TaskGetRequest}
use ds_service.TaskManager.Get.{is_dead, pop_usable, claim, get_from, get}
use ds_service.TaskManager.Graph.{IsGraph, WellFormed, is_doomed, is_released}
use ds_service.TaskManager.Graph.Owed.{owed-cong}
use ds_service.TaskManager.Keeps.Same.{IsGraph-same, IsIndexed-same}
use ds_service.TaskManager.Queue.{TaskQueue, TaskQueueEntry}
use ds_service.TaskManager.State.{TaskTable, TaskManager, state_at}
use ds_service.TaskState.{TaskState, ready, running, undefined, same, is_live}
use ds_service.ThirdParty.{ThirdParty}

pub same-ready : (s : TaskState) → same s ready ≡ true → s ≡ ready
unfolding same
same-ready s h = ground arith

-- The entry that the loop over a queue stops at is one whose row is Ready.
pub pop_usable-ready :
    (t : TaskTable) (q : TaskQueue) (entry : TaskQueueEntry)
    → (pop_usable t q).0 ≡ some entry
    → is_dead t entry ≡ false
unfolding pop_usable
pop_usable-ready t [] entry h = cc
pop_usable-ready t (x ∷ q) entry h = elim (Bool-cases (is_dead t x)) [
  | inl d ↦ pop_usable-ready t q entry (ground arith)
  | inr d ↦ ground arith
]

pub alive-ready :
    (t : TaskTable) (entry : TaskQueueEntry)
    → is_dead t entry ≡ false
    → state_at t entry.index ≡ ready
unfolding is_dead
alive-ready t entry h = ground (arith, same-ready (state_at t entry.index))

-- A row goes from Ready to Running.
start-IsGraph :
    (t : TaskTable) (i : ℕ)
    → state_at t i ≡ ready
    → IsGraph t
    → IsGraph (record t { state = set t.state i running })
unfolding is_doomed is_released is_live
start-IsGraph t i r g = record {
  forward = g.forward;
  counted = λ c h.
      g.counted c h
      ∙ sym (
          owed-cong c t.state (set t.state i running) t.children (length-set t.state i running)
            (λ j. ground (arith, get_or-set t.state i running j undefined)));
  defined = λ c h. ground (arith, get_or-set t.state i running c undefined, g.defined c h);
  held = λ c h w. ground (arith, get_or-set t.state i running c undefined, g.held c h);
  released = λ c h w. ground (arith, get_or-set t.state i running c undefined, g.released c h);
  ended = λ p c h d. ground (
    arith,
    get_or-set t.state i running c undefined,
    get_or-set t.state i running p undefined,
    g.ended p c h,
  );
}

module _ (P : ThirdParty) where
  claim-WellFormed :
      (m : TaskManager P) (entry : TaskQueueEntry) (worker_id : String)
      → is_dead m.tasks entry ≡ false
      → WellFormed P m
      → WellFormed P (claim P m entry worker_id).1
  unfolding claim
  claim-WellFormed m entry worker_id d w = record {
    aligned = ground (
      arith,
      w.aligned,
      length-set m.tasks.state entry.index running,
      length-set m.tasks.worker_id entry.index worker_id,
    );
    graph =
        IsGraph-same _ _ refl refl refl refl
          (start-IsGraph m.tasks entry.index (alive-ready m.tasks entry d) w.graph);
    indexed = IsIndexed-same P m _ refl refl w.indexed;
  }

  get_from-WellFormed :
      (m : TaskManager P) (worker_id : String) (names : List String)
      → WellFormed P m
      → WellFormed P (get_from P m worker_id names).1
  unfolding get_from
  get_from-WellFormed m worker_id [] w = w
  get_from-WellFormed m worker_id (qname ∷ names) w = elim (Option-cases (P.find m.queue qname)) [
    | inl e ↦ rw (e, get_from) (get_from-WellFormed m worker_id names w)
    | inr (q, e) ↦
        let popped : TaskManager P = record m {
          queue = P.assign m.queue qname (pop_usable m.tasks q).1;
        } in
        let kept : WellFormed P popped = record {
          aligned = w.aligned;
          graph = w.graph;
          indexed = IsIndexed-same P m _ refl refl w.indexed;
        } in
        elim (Option-cases (pop_usable m.tasks q).0) [
          | inl n ↦ rw (e, get_from, n) (get_from-WellFormed popped worker_id names kept)
          | inr (entry, s) ↦
              rw (e, get_from, s)
                (claim-WellFormed popped entry worker_id (pop_usable-ready m.tasks q entry s) kept)
        ]
  ]

  pub get-WellFormed :
      (m : TaskManager P) (request : TaskGetRequest)
      → WellFormed P m
      → WellFormed P (get P m request).1
  unfolding get
  get-WellFormed m request w = get_from-WellFormed m request.worker_id request.queue w
