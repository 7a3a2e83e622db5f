-- ===== src/Controller/Start.antt =====
-- pkg/controller/controller.go: `Run`, which starts the workers, and the events that `NewController`
-- has put on the work queue for the notifications of the informer.
pub mod Early
pub mod Tests
use k8s_worker_pod_autoscale.Base.{
  ℕ, zero, suc, Bool, true, false, List, [], ◌∷◌, ◌++◌, ℤ, pos_part,
}
use k8s_worker_pod_autoscale.Controller.Inputs.{Event}
use k8s_worker_pod_autoscale.Controller.WorkQueue.{
  MetaKey, enqueue_add, enqueue_update, enqueue_delete,
}

-- The caches of the informers, by their HasSynced functions.
pub data Cache : Type 0 where
  deployments_cache replica_sets_cache autoscalers_cache : Cache

-- What `Run` does.
pub data Doing : Type 0 where
  waits_for : List Cache → Doing
  starts_worker waits_for_stop shuts_down_queue : Doing

-- What it did, and whether it returned an error.
pub record Ran : Type 0 where
  pub doings : List Doing
  pub failed : Bool

-- for i := 0; i < threadiness; i++
unfoldable pub start_workers : ℕ → List Doing
start_workers zero = []
start_workers (suc n) = starts_worker ∷ start_workers n

-- What `Run` waits for.
unfoldable pub awaited : List Cache
awaited = deployments_cache ∷ autoscalers_cache ∷ []

-- `Run`, where `wait_for_cache_sync` is cache.WaitForCacheSync.
unfoldable pub run : (wait_for_cache_sync : List Cache → Bool) → (threadiness : ℤ) → Ran
run wait_for_cache_sync threadiness = elim (wait_for_cache_sync awaited) [
  | false ↦ record { doings = waits_for awaited ∷ shuts_down_queue ∷ []; failed = true }
  | true ↦ record {
    doings =
        waits_for awaited
        ∷ (start_workers (pos_part threadiness) ++ (waits_for_stop ∷ shuts_down_queue ∷ []));
    failed = false;
  }
]

-- What the informer of the autoscalers tells its handlers.
pub data Notification (Object : Type 0) : Type 0 where
  added : Object → Notification Object
  updated : (old new : Object) → Notification Object
  deleted : Object → Notification Object

-- The event that is put on the work queue for it.
unfoldable pub event_of : {Object : Type 0} → MetaKey Object → Notification Object → Event
event_of meta_key (added obj) = enqueue_add meta_key obj
event_of meta_key (updated old new) = enqueue_update meta_key new
event_of meta_key (deleted obj) = enqueue_delete meta_key obj
