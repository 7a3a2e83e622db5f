-- ===== src/System/Workers/Tests.antt =====
-- A worker that takes one event, of the autoscaler with two idle workers, and sees the shutdown.
use k8s_worker_pod_autoscale.Base.{
  ◌≡◌, refl, Option, none, some, [], ◌∷◌, List, codes, pos, text_eq, lookup, insert, split, last_or,
  wrap32, ◌-ℤ◌, ◌+ℤ◌, has_key,
}
use k8s_worker_pod_autoscale.Base.Float.{flt, div, abs, of_int, ceil_int32, of_ratio, feq, mul}
use k8s_worker_pod_autoscale.Api.{get_max_disruption}
use k8s_worker_pod_autoscale.Queue.Uri.{
  get_key, parse_queue_uri, get_queue_service_name, is_sqs_host, after_match, skip_lower,
  get_queue_name,
}
use k8s_worker_pod_autoscale.Queue.Sync.{
  add, queue_spec, list_queue_by_namespace, list_queue, sync_round, add_all, get_queue_info,
}
use k8s_worker_pod_autoscale.Controller.Desired.{
  get_desired_workers, get_max_disruptable_workers, get_min_workers, workers_for_backlog,
  choose_workers, is_change_too_small, convert_desired_replicas_with_rules,
  workers_based_on_messages_sent,
}
use k8s_worker_pod_autoscale.Controller.Scale.{get_scale_operation, can_scale_down}
use k8s_worker_pod_autoscale.Queue.Sync.Keys.{request_of}
use k8s_worker_pod_autoscale.Controller.Inputs.{serve, workload_of, seconds_of}
use k8s_worker_pod_autoscale.Controller.Handler.{
  sync_handler, handle_autoscaler, handle_workload, handle_info, scale, report, update_status,
  is_up_to_date,
}
use k8s_worker_pod_autoscale.Controller.Cluster.{
  State, scaled, status_updated, deployment, accepted, get_autoscaler, get_workload,
  update_deployment, update_workload, attempt,
}
use k8s_worker_pod_autoscale.Controller.Retry.{Grown}
use k8s_worker_pod_autoscale.Controller.WorkQueue.Worker.{Turn, take_turn, run_worker}
use k8s_worker_pod_autoscale.Controller.WorkQueue.{Item, process_next_work_item}
use k8s_worker_pod_autoscale.System.{Reached, by_delete}
use k8s_worker_pod_autoscale.System.Handling.{RetriesWithin, stops}
use k8s_worker_pod_autoscale.System.Workers.{IsTurn, HasReason, run_worker-HasReason}
use k8s_worker_pod_autoscale.System.Small.{
  outside, worker, env, settings, event, meanwhile, holding,
}
use k8s_worker_pod_autoscale.System.Tests.{counted-Reached}

abbrev start : State (Unit {0})
start = record {
  world = tt;
  autoscalers = (codes "prod/worker", worker) ∷ [];
  deployments =
      (codes "prod/jobs", record { replicas = some (pos 2); available_replicas = pos 2 }) ∷ [];
  replica_sets = [];
  items = holding (pos 0) (pos 2);
  sent = [];
}

-- Nothing changes before the round.
abbrev turn : Option Item → Turn (Unit {0})
turn i = record { before = λ s. s; item = i; meanwhile = meanwhile }

abbrev turns : List (Turn (Unit {0}))
turns = turn (some (Item.event event)) ∷ turn none ∷ []

within : RetriesWithin outside env
within f s = stops

turn-IsTurn : (i : Option Item) → IsTurn outside env settings within refl (turn i)
unfolding serve
turn-IsTurn i = record {
  keeps_sent = λ s. refl;
  served = [];
  served_made = tt;
  keeps_items = λ s. refl;
  before_request_made = (by_delete (codes "prod") (codes "other"), tt);
  before_info_made = tt;
}

run_worker-HasReason_example :
    Reached outside (run_worker env settings turns start).items
    × Grown
        (HasReason outside env settings within refl turns start)
        []
        (run_worker env settings turns start).sent
run_worker-HasReason_example =
    run_worker-HasReason outside env settings within refl turns (turn-IsTurn _, (turn-IsTurn _, tt))
      start counted-Reached

-- The worker scales, then tells the status.
sends_both :
    (run_worker env settings turns start).sent
    ≡ status_updated
        (codes "prod")
        (codes "worker")
        (record {
          current_messages = pos 0;
          current_replicas = pos 2;
          available_replicas = pos 2;
          desired_replicas = pos 0;
          last_scale_time = some (pos 101);
        })
        accepted
      ∷ scaled deployment (codes "prod") (codes "jobs") (pos 0) accepted
      ∷ []
unfolding run_worker take_turn process_next_work_item sync_handler handle_autoscaler handle_workload
    handle_info scale report update_status is_up_to_date get_autoscaler get_workload lookup insert
    text_eq get_key serve workload_of seconds_of add parse_queue_uri get_queue_service_name
    is_sqs_host after_match skip_lower queue_spec list_queue_by_namespace list_queue get_queue_name
    split last_or sync_round add_all get_queue_info get_max_disruption get_desired_workers
    get_max_disruptable_workers get_min_workers workers_for_backlog choose_workers
    is_change_too_small convert_desired_replicas_with_rules flt div abs of_int wrap32 ◌-ℤ◌ ◌+ℤ◌
    ceil_int32 of_ratio feq mul workers_based_on_messages_sent get_scale_operation can_scale_down
    update_deployment update_workload attempt request_of has_key
sends_both = refl
