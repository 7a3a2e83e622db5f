-- ===== src/Controller/Start/Tests.antt =====
-- Two workers start while the cache of the ReplicaSets is empty.
use k8s_worker_pod_autoscale.Base.{
  ◌≡◌, refl, Bool, true, false, some, List, [], ◌∷◌, codes, pos, All, text_eq, lookup, Bool-cases,
  inl, inr, if◌then◌else◌,
}
use k8s_worker_pod_autoscale.Api.{WorkerPodAutoScaler}
use k8s_worker_pod_autoscale.Queue.Uri.{get_key}
use k8s_worker_pod_autoscale.Controller.Cluster.{State, get_autoscaler}
use k8s_worker_pod_autoscale.Controller.Inputs.{workload_of}
use k8s_worker_pod_autoscale.Controller.WorkQueue.{
  MetaKey, add_rate_limited, done, Item, process_next_work_item,
}
use k8s_worker_pod_autoscale.Controller.Start.{Cache, replica_sets_cache, run, added, event_of}
use k8s_worker_pod_autoscale.Controller.Start.Early.{Waits, workers_in, replica_sets_not_awaited}
use k8s_worker_pod_autoscale.System.Small.{worker, env, settings, meanwhile}

abbrev is_synced : Cache → Bool
is_synced replica_sets_cache = false
is_synced c = true

unfoldable all_synced : List Cache → Bool
all_synced [] = true
all_synced (c ∷ caches) = let rest = all_synced caches in if is_synced c then rest else false

all_synced-All :
    (caches : List Cache) → all_synced caches ≡ true → All (λ c. is_synced c ≡ true) caches
unfolding all_synced
all_synced-All [] e = tt
all_synced-All (c ∷ caches) e = elim (Bool-cases (is_synced c)) [
  | inl b ↦ (b, all_synced-All caches (rw b at e))
  | inr b ↦ absurd (let e' = (rw b at e) in cc)
]

All-all_synced :
    (caches : List Cache) → All (λ c. is_synced c ≡ true) caches → all_synced caches ≡ true
unfolding all_synced
All-all_synced [] h = refl
All-all_synced (c ∷ caches) (b, h) = rw b (All-all_synced caches h)

waits : Waits all_synced is_synced
waits caches = (all_synced-All caches, All-all_synced caches)

-- The autoscaler, of a ReplicaSet.
abbrev of_replica_set : WorkerPodAutoScaler
of_replica_set = record worker {
  spec = record worker.spec { deployment_name = []; replica_set_name = codes "jobs" };
}

abbrev start : State (Unit {0})
start = record {
  world = tt;
  autoscalers = (codes "prod/worker", of_replica_set) ∷ [];
  deployments = [];
  replica_sets = [];
  items = [];
  sent = [];
}

abbrev meta_key : MetaKey (Unit {0})
meta_key obj = some (codes "prod/worker")

replica_sets_not_awaited_example :
    ((run all_synced (pos 2)).failed ≡ false)
    × (workers_in (run all_synced (pos 2)).doings ≡ 2)
    × ((process_next_work_item env settings meanwhile
          (some (Item.event (event_of meta_key (added tt))))
          start).work_calls
        ≡ add_rate_limited ∷ done ∷ [])
unfolding get_autoscaler lookup text_eq get_key workload_of
replica_sets_not_awaited_example =
    replica_sets_not_awaited all_synced is_synced (pos 2) env settings meanwhile start meta_key
      (added tt) (codes "prod") (codes "worker") of_replica_set (codes "jobs") waits refl refl refl
      refl refl refl refl
