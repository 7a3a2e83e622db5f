-- ===== src/System/Tests.antt =====
-- A small program: one autoscaler with two idle workers, whose SQS queue was polled and is empty.
use k8s_worker_pod_autoscale.Base.{
  ◌≡◌, refl, inl, inr, Bool, has_key, some, [], ◌∷◌, Text, codes, text_eq, pos, minus_one, ◌≤ℤ◌,
  ◌+ℤ◌, ◌-ℤ◌, lookup, insert, parse_int32, wrap32, base, split, last_or, arith,
}
use k8s_worker_pod_autoscale.Base.Float.{
  zero_float, feq, flt, div, abs, of_int, of_ratio, mul, ceil_int32,
}
use k8s_worker_pod_autoscale.Api.{get_max_disruption}
use k8s_worker_pod_autoscale.Queue.Spec.{unsynced_messages_sent_per_minute}
use k8s_worker_pod_autoscale.Queue.Uri.{
  get_key, get_region, parse_queue_uri, get_queue_service_name, is_sqs_host, after_match,
  skip_lower, get_queue_name,
}
use k8s_worker_pod_autoscale.Queue.Sync.{
  add, add_all, queue_spec, list_queue, list_queue_by_namespace, get_queue_info, sync_round, change,
  change_all, update_message, update_idle_workers,
}
use k8s_worker_pod_autoscale.Queue.Sync.Keys.{
  Call, adds, messages_are, idle_workers_are, request_of,
}
use k8s_worker_pod_autoscale.Queue.Service.{calls, sleeps}
use k8s_worker_pod_autoscale.Queue.Poller.{poll_round, polls, is_thread_required}
use k8s_worker_pod_autoscale.Queue.Sqs.{
  has_client, get_cw_client, long_poll_receive_message, get_approx_messages,
  get_approx_messages_not_visible, get_number_of_messages_received, sum_from,
}
use k8s_worker_pod_autoscale.Queue.Sqs.Cache.{cached_number, store}
use k8s_worker_pod_autoscale.Queue.Sqs.Poll.{
  long_polls, poll_long, poll_received, poll_counted, poll_messages, poll_short, poll,
}
use k8s_worker_pod_autoscale.Controller.Desired.{
  get_desired_workers, get_max_disruptable_workers, get_min_workers, workers_for_backlog,
  choose_workers, is_change_too_small, convert_desired_replicas_with_rules,
  workers_based_on_messages_sent,
}
use k8s_worker_pod_autoscale.Controller.Inputs.{serve, seconds_of}
use k8s_worker_pod_autoscale.Controller.Handler.Reasons.{IsDue}
use k8s_worker_pod_autoscale.System.{Does, Reached, begins, serves, by_add, by_delete, by_sqs}
use k8s_worker_pod_autoscale.System.WellFormed.{IsWellFormed, Reached-IsWellFormed}
use k8s_worker_pod_autoscale.System.Quiet.{FoundQuiet}
use k8s_worker_pod_autoscale.System.Serving.{read-Reached}
use k8s_worker_pod_autoscale.System.ScaleDown.{sudden_only_if_quiet}
use k8s_worker_pod_autoscale.System.Small.{
  uri, parse, sqs, outside, empty_aws, clock, caches, key, queue, holding, worker, env, settings,
  event, meanwhile, state,
}

added-Reached : Reached outside (holding minus_one minus_one)
unfolding add parse_queue_uri get_queue_service_name is_sqs_host after_match skip_lower queue_spec
    list_queue_by_namespace list_queue get_queue_name split last_or request_of sync_round add_all
    lookup insert text_eq get_key unsynced_messages_sent_per_minute
added-Reached =
    serves {c = adds key (queue minus_one minus_one)} {item = []}
      (by_add {listed = []} (codes "prod") (codes "worker") uri (pos 2) zero_float begins refl)
      begins

-- What the poll does.
polled :
    (poll empty_aws sqs clock key (queue minus_one minus_one) caches).actions
    ≡ calls (messages_are key (pos 0)) ∷ calls (idle_workers_are key (pos 2)) ∷ sleeps (pos 1) ∷ []
unfolding poll poll_long poll_short poll_messages poll_counted poll_received long_polls
    cached_number store long_poll_receive_message get_approx_messages
    get_approx_messages_not_visible get_number_of_messages_received get_cw_client get_region split
    has_client text_eq lookup insert parse_int32 wrap32 base sum_from feq ◌+ℤ◌ ◌-ℤ◌
polled = refl

listed :
    poll_round key ((key, Bool.true) ∷ []) (holding minus_one minus_one)
    ≡ polls (queue minus_one minus_one)
unfolding poll_round is_thread_required list_queue lookup text_eq
listed = refl

pub counted-Reached : Reached outside (holding (pos 0) (pos 2))
unfolding request_of update_message update_idle_workers sync_round change_all change lookup insert
    text_eq
counted-Reached =
    let polled_once : (c : Call)
        → Does (calls c) (poll empty_aws sqs clock key (queue minus_one minus_one) caches).actions
        → _ =
      λ c d.
        by_sqs ((key, Bool.true) ∷ []) key (queue minus_one minus_one) empty_aws clock caches
          {c = c} added-Reached listed d in
    serves {c = idle_workers_are key (pos 2)} {item = holding (pos 0) minus_one}
      (polled_once _ (rw polled (inr (inl refl))))
      (serves {c = messages_are key (pos 0)} {item = holding minus_one minus_one}
        (polled_once _ (rw polled (inl refl))) added-Reached)

-- Both workers are to go, while one may be disrupted.
due : IsDue env settings event meanwhile state worker (pos 2) (pos 0)
unfolding serve add parse_queue_uri get_queue_service_name is_sqs_host after_match skip_lower
    queue_spec list_queue_by_namespace list_queue get_queue_name split last_or request_of sync_round
    add_all lookup insert has_key text_eq get_key get_queue_info seconds_of get_max_disruption
    get_desired_workers get_max_disruptable_workers get_min_workers workers_for_backlog
    choose_workers is_change_too_small convert_desired_replicas_with_rules flt div abs of_int wrap32
    ◌-ℤ◌ ◌+ℤ◌ ceil_int32 of_ratio feq mul workers_based_on_messages_sent
due = record {
  target = pos 2;
  min = pos 0;
  max = pos 20;
  limited = refl;
  queue_name = codes "jobs";
  messages = pos 0;
  messages_sent = of_int minus_one;
  idle = pos 2;
  read = (codes "prod", codes "worker", refl, refl);
  known = refl;
  polled = λ e. cc;
  computed = refl;
  capped = omega arith;
  floored = inl (omega arith);
  moves = inr (omega arith, omega arith);
}

sudden_only_if_quiet_example :
    (pos 0 ≤ℤ pos 0)
    × ((namespace name : Text) × (env.split_key key ≡ some (namespace, name))
        × FoundQuiet outside (get_key namespace name) (pos 2) _ (
            read-Reached outside env settings event meanwhile refl
              (by_delete (codes "prod") (codes "other"), tt)
              tt
              namespace
              name
              worker
              (pos 2)
              counted-Reached))
unfolding get_max_disruptable_workers get_max_disruption get_min_workers workers_for_backlog div
    of_int ceil_int32 feq wrap32 seconds_of ◌-ℤ◌ due
sudden_only_if_quiet_example =
    sudden_only_if_quiet outside env settings event meanwhile state refl counted-Reached
      (by_delete (codes "prod") (codes "other"), tt) tt {k = pos 1} due refl (omega arith) (λ e. cc)
      (omega arith, omega arith) (omega arith, omega arith) (omega arith, omega arith)
      (omega arith, omega arith)

Reached-IsWellFormed_example : IsWellFormed parse key (queue (pos 0) (pos 2))
unfolding lookup text_eq
Reached-IsWellFormed_example = Reached-IsWellFormed outside key counted-Reached refl
