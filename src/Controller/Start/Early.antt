-- ===== src/Controller/Start/Early.antt =====
-- The workers start before the cache of the ReplicaSets is filled.
use k8s_worker_pod_autoscale.Base.{
  ◌≡◌, ◌↔◌, refl, ap, inl, ℕ, zero, suc, Bool, true, false, none, some, List, [], ◌∷◌, ◌++◌, All,
  Text, ℤ, pos_part, lookup,
}
use k8s_worker_pod_autoscale.Api.{WorkerPodAutoScaler}
use k8s_worker_pod_autoscale.Queue.Uri.{get_key}
use k8s_worker_pod_autoscale.Controller.Cluster.{
  State, Env, replica_set, found, missing, get_autoscaler, get_workload,
}
use k8s_worker_pod_autoscale.Controller.Inputs.{Settings, Meanwhile, workload_of}
use k8s_worker_pod_autoscale.Controller.Handler.{Handled, synced, errored, ends_process}
use k8s_worker_pod_autoscale.Controller.Handler.Endings.{no_error_synced, no_error_ended}
use k8s_worker_pod_autoscale.Controller.Handler.Requeue.{no_workload, errored_iff}
use k8s_worker_pod_autoscale.Controller.WorkQueue.{
  MetaKey, add_rate_limited, done, event, process_next_work_item, after_handler,
}
use k8s_worker_pod_autoscale.Controller.Start.{
  Cache, deployments_cache, autoscalers_cache, Doing, starts_worker, waits_for_stop,
  shuts_down_queue, start_workers, run, awaited, Notification, event_of,
}

-- The documented behaviour of cache.WaitForCacheSync, where `is_synced` tells which caches are filled
-- by the time that it returns: it says whether all that it is given are.
abbrev pub Waits : (List Cache → Bool) → (Cache → Bool) → Type 0
Waits wait is_synced =
    (caches : List Cache) → (wait caches ≡ true) ↔ All (λ c. is_synced c ≡ true) caches

-- How many workers are started.
unfoldable pub workers_in : List Doing → ℕ
workers_in [] = zero
workers_in (starts_worker ∷ doings) = suc (workers_in doings)
workers_in (d ∷ doings) = workers_in doings

pub workers_in-start :
    (n : ℕ) → workers_in (start_workers n ++ (waits_for_stop ∷ shuts_down_queue ∷ [])) ≡ n
unfolding workers_in start_workers
workers_in-start zero = refl
workers_in-start (suc n) = ap suc (workers_in-start n)

after_errored :
    {W : Type 0} (env : Env W) (settings : Settings) (m : Meanwhile) (r : Handled × State W)
    → r.0 ≡ errored
    → (after_handler env settings m r).work_calls ≡ add_rate_limited ∷ done ∷ []
after_errored env settings m (synced, s) h = absurd (no_error_synced h)
after_errored env settings m (errored, s) h = refl
after_errored env settings m (ends_process, s) h = absurd (no_error_ended h)

-- `Run` starts the workers once the caches of the Deployments and of the autoscalers are filled,
-- whatever is in that of the ReplicaSets. A worker that is then notified of a new or updated
-- autoscaler whose ReplicaSet is not in the cache yet, or of its deletion, gives the event back to be
-- tried again, though nothing is wrong with the autoscaler.
pub replica_sets_not_awaited :
    {Object W : Type 0} (wait : List Cache → Bool) (is_synced : Cache → Bool) (threadiness : ℤ)
    (env : Env W) (settings : Settings) (m : Meanwhile) (s : State W) (meta_key : MetaKey Object)
    (notified : Notification Object) (namespace name : Text) (w : WorkerPodAutoScaler)
    (workload : Text)
    → Waits wait is_synced
    → is_synced deployments_cache ≡ true
    → is_synced autoscalers_cache ≡ true
    → env.split_key (event_of meta_key notified).key ≡ some (namespace, name)
    → get_autoscaler env namespace name s ≡ found w
    → workload_of w.spec ≡ some (replica_set, workload)
    → env.workload_fails replica_set w.namespace workload ≡ false
    → lookup (get_key w.namespace workload) s.replica_sets ≡ none
    → ((run wait threadiness).failed ≡ false)
      × (workers_in (run wait threadiness).doings ≡ pos_part threadiness)
      × ((process_next_work_item env settings m
            (some (event (event_of meta_key notified)))
            s).work_calls
          ≡ add_rate_limited ∷ done ∷ [])
unfolding run awaited process_next_work_item get_workload workers_in
replica_sets_not_awaited wait is_synced threadiness env settings m s meta_key notified namespace
      name w workload waits deployments autoscalers split listed named works unfilled =
    let e = event_of meta_key notified in
    let started : wait awaited ≡ true = (waits awaited).1 (deployments, (autoscalers, tt)) in
    let is_missing : get_workload env replica_set w.namespace workload s ≡ missing =
      rw (works, unfilled) refl in
    let errs =
      (errored_iff env settings e m s).1
        (no_workload namespace name w replica_set workload split listed named (inl is_missing)) in
    (
      rw (started, run) refl,
      rw (started, run) (workers_in-start (pos_part threadiness)),
      after_errored env settings m _ errs,
    )
