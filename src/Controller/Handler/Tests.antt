-- ===== src/Controller/Handler/Tests.antt =====
-- `syncHandler` and the work queue on a small cluster, and instances of the theorems.
use k8s_worker_pod_autoscale.Base.{
  ◌≡◌, ◌↔◌, refl, inl, inr, ℕ, true, false, none, some, [], ◌∷◌, codes, text_eq, ℤ, pos, minus_one,
  lookup, insert, split, last_or, wrap32, ◌-ℤ◌, ◌+ℤ◌,
}
use k8s_worker_pod_autoscale.Base.Float.{flt, div, abs, of_int, ceil_int32, of_ratio, feq, mul}
use k8s_worker_pod_autoscale.Api.{WorkerPodAutoScaler, get_max_disruption}
use k8s_worker_pod_autoscale.Queue.Poller.{Threads, poll_round}
use k8s_worker_pod_autoscale.Queue.Uri.{
  get_key, parse_queue_uri, get_queue_service_name, is_sqs_host, after_match, skip_lower,
  get_queue_name,
}
use k8s_worker_pod_autoscale.Queue.Sync.{
  add, queue_spec, list_queue_by_namespace, list_queue, sync_round, add_all, get_queue_info,
}
use k8s_worker_pod_autoscale.Controller.Desired.{
  get_desired_workers, get_max_disruptable_workers, get_min_workers, workers_for_backlog,
  choose_workers, is_change_too_small, convert_desired_replicas_with_rules,
  workers_based_on_messages_sent,
}
use k8s_worker_pod_autoscale.Controller.Scale.{get_scale_operation, can_scale_down}
use k8s_worker_pod_autoscale.Queue.Sync.Keys.{messages_are}
use k8s_worker_pod_autoscale.Controller.Cluster.{
  deployment, scaled, status_updated, accepted, conflict, State, found, get_autoscaler,
  get_workload, update_deployment, update_workload, attempt,
}
use k8s_worker_pod_autoscale.Controller.Retry.{Grown}
use k8s_worker_pod_autoscale.Controller.Inputs.{Meanwhile, serve, workload_of, seconds_of}
use k8s_worker_pod_autoscale.Controller.Handler.{
  Handled, synced, errored, sync_handler, handle_autoscaler, handle_workload, handle_info, scale,
  report, update_status, is_up_to_date,
}
use k8s_worker_pod_autoscale.Controller.Handler.Sends.{handler_sends}
use k8s_worker_pod_autoscale.Controller.Handler.Reasons.{Reasoned}
use k8s_worker_pod_autoscale.Controller.Handler.Stamps.{IsConverged, scaling_is_told}
use k8s_worker_pod_autoscale.Controller.Handler.Unpolled.{IsUnpolled}
use k8s_worker_pod_autoscale.Controller.Handler.Waits.{handler_waits}
use k8s_worker_pod_autoscale.Controller.Handler.Unsupported.{unsupported_keeps_queue}
use k8s_worker_pod_autoscale.Controller.Handler.Gone.{gone_queue_deleted}
use k8s_worker_pod_autoscale.Controller.Handler.Requeue.{IsRetried, errored_iff}
use k8s_worker_pod_autoscale.Controller.WorkQueue.{
  MetaKey, event, add_rate_limited, forget, done, enqueue_delete, process_next_work_item,
}
use k8s_worker_pod_autoscale.Controller.WorkQueue.Settled.{event_settled}
use k8s_worker_pod_autoscale.Controller.WorkQueue.Tombstone.{tombstone_keeps_queue}
use k8s_worker_pod_autoscale.Controller.Handler.Small.{
  runs, worker_key, env, env-Retries, worker, cluster, settings, update, quiet,
}

run : State ℕ → Handled × State ℕ
unfolding sync_handler handle_autoscaler handle_workload handle_info scale report update_status
    is_up_to_date get_autoscaler get_workload lookup insert text_eq get_key serve workload_of
    seconds_of add parse_queue_uri get_queue_service_name is_sqs_host after_match skip_lower
    queue_spec list_queue_by_namespace list_queue get_queue_name split last_or sync_round add_all
    get_queue_info get_max_disruption get_desired_workers get_max_disruptable_workers
    get_min_workers workers_for_backlog choose_workers is_change_too_small
    convert_desired_replicas_with_rules flt div abs of_int wrap32 ◌-ℤ◌ ◌+ℤ◌ ceil_int32 of_ratio feq
    mul workers_based_on_messages_sent get_scale_operation can_scale_down update_deployment
    update_workload attempt
run s = sync_handler env settings update quiet s

-- A backlog of ten, two for each worker: from three workers to five, at the second attempt.
scales_up :
    ((run (cluster 1 (pos 10))).0 ≡ synced)
    × ((run (cluster 1 (pos 10))).1.sent
        ≡ status_updated
            (codes "prod")
            (codes "worker")
            (record {
              current_messages = pos 10;
              current_replicas = pos 3;
              available_replicas = pos 3;
              desired_replicas = pos 5;
              last_scale_time = some (pos 101);
            })
            accepted
          ∷ scaled deployment (codes "prod") (codes "jobs") (pos 5) accepted
          ∷ scaled deployment (codes "prod") (codes "jobs") (pos 5) conflict
          ∷ [])
unfolding run
scales_up = (refl, refl)

worker_listed :
    (n : ℕ) (messages : ℤ)
    → get_autoscaler env (codes "prod") (codes "worker") (cluster n messages) ≡ found worker
unfolding get_autoscaler lookup text_eq get_key
worker_listed n messages = refl

handler_sends_example :
    Grown
      (Reasoned env settings update quiet (cluster 1 (pos 10)))
      []
      (sync_handler env settings update quiet (cluster 1 (pos 10))).1.sent
handler_sends_example = handler_sends env settings update quiet env-Retries (cluster 1 (pos 10))

scaling_is_told_example :
    IsConverged worker
      (pos 101)
      []
      (sync_handler env settings update quiet (cluster 1 (pos 10))).1.sent
unfolding run
scaling_is_told_example =
    scaling_is_told env settings update quiet env-Retries (cluster 1 (pos 10)) (codes "prod")
      (codes "worker") worker refl (worker_listed 1 (pos 10)) (scales_up.0)

-- Meanwhile a poller of another queue brings a count.
abbrev busy : Meanwhile
busy = record quiet { before_info = messages_are (codes "prod/other") (pos 9) ∷ [] }

handler_waits_example :
    ((sync_handler env settings update busy (cluster 0 minus_one)).1.sent ≡ [])
    × IsUnpolled (
        lookup
          (get_key (codes "prod") (codes "worker"))
          (sync_handler env settings update busy (cluster 0 minus_one)).1.items)
unfolding lookup text_eq get_key
handler_waits_example =
    handler_waits env settings update busy (codes "prod") (codes "worker") (cluster 0 minus_one) tt
      (refl, tt) (inr refl) refl

-- The URI was taken out of the specification after the queue had been listed with ten messages.
abbrev without_uri : WorkerPodAutoScaler
without_uri = record worker { spec = record worker.spec { queue_uri = [] } }

abbrev unlisted : State ℕ
unlisted = record (cluster 0 (pos 10)) { autoscalers = (worker_key, without_uri) ∷ [] }

unsupported_keeps_queue_example :
    let items = serve busy.before_info (serve busy.before_request unlisted.items) in
    let before = get_queue_info (codes "prod") (codes "worker") unlisted.items in
    (sync_handler env settings update busy unlisted
      ≡ handle_info env settings update busy without_uri
          (deployment, codes "jobs")
          (pos 3)
          (pos 3)
          before
          (record unlisted { items = items }))
    × (get_queue_info (codes "prod") (codes "worker") items ≡ before)
    × ((threads : Threads)
        → poll_round (get_key (codes "prod") (codes "worker")) threads items
          ≡ poll_round (get_key (codes "prod") (codes "worker")) threads unlisted.items)
unfolding get_autoscaler get_workload workload_of lookup text_eq get_key
unsupported_keeps_queue_example =
    unsupported_keeps_queue env settings update busy unlisted (codes "prod") (codes "worker")
      without_uri deployment (codes "jobs") runs (pos 3) refl refl refl refl refl (λ e. cc)
      (inl refl) tt (refl, tt)

abbrev emptied : State ℕ
emptied = record (cluster 0 (pos 10)) { autoscalers = [] }

gone_queue_deleted_example :
    let r = sync_handler env settings update busy emptied in
    (r.0 ≡ synced)
    × (r.1.sent ≡ [])
    × (lookup (get_key (codes "prod") (codes "worker")) r.1.items ≡ none)
unfolding get_autoscaler lookup
gone_queue_deleted_example =
    gone_queue_deleted env settings update busy emptied (codes "prod") (codes "worker") refl refl
      (refl, tt)

-- Without the Deployment the event is tried again.
abbrev undeployed : State ℕ
undeployed = record (cluster 0 (pos 10)) { deployments = [] }

errored_iff_example :
    ((sync_handler env settings update quiet undeployed).0 ≡ errored)
    ↔ IsRetried env update undeployed
errored_iff_example = errored_iff env settings update quiet undeployed

is_errored : (sync_handler env settings update quiet undeployed).0 ≡ errored
unfolding run
is_errored = refl

not_ended :
    (process_next_work_item env settings quiet (some (event update)) undeployed).ended ≡ false
unfolding process_next_work_item run
not_ended = refl

event_settled_example :
    let p = process_next_work_item env settings quiet (some (event update)) undeployed in
    (p.goes_on ≡ true)
    × (p.work_calls ≡ add_rate_limited ∷ done ∷ [] ↔ IsRetried env update undeployed)
    × (p.work_calls ≡ forget ∷ done ∷ [] ↔ (¬ IsRetried env update undeployed))
event_settled_example = event_settled env settings quiet update undeployed not_ended

abbrev no_meta : MetaKey (Unit {0})
no_meta obj = none

tombstone_keeps_queue_example :
    let m : Meanwhile = record {
      before_request = [];
      before_info = [];
      decided_at = pos 100;
      scaled_at = pos 101;
    } in
    let r = sync_handler env settings (enqueue_delete no_meta tt) m emptied in
    (r.0 ≡ synced) × (lookup worker_key r.1.items ≡ lookup worker_key emptied.items)
unfolding get_autoscaler lookup get_key
tombstone_keeps_queue_example =
    tombstone_keeps_queue no_meta tt env settings (pos 100) (pos 101) emptied worker_key refl refl
      refl (λ e. cc)
