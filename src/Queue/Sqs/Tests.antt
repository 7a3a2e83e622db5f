-- ===== src/Queue/Sqs/Tests.antt =====
-- Polls of SQS against answers that are written out, and instances of the theorems.
use k8s_worker_pod_autoscale.Base.{
  ◌≡◌, refl, false, none, List, [], ◌∷◌, All, Text, codes, text_eq, pos, minus_one, ◌+ℤ◌, ◌-ℤ◌,
  lookup, insert, parse_int32, wrap32, base, split,
}
use k8s_worker_pod_autoscale.Base.Float.{zero_float, feq}
use k8s_worker_pod_autoscale.Queue.Spec.{QueueSpec, zero_spec, unsynced_messages_sent_per_minute}
use k8s_worker_pod_autoscale.Queue.Uri.{get_region, get_queue_name}
use k8s_worker_pod_autoscale.Queue.Sync.{queue_spec}
use k8s_worker_pod_autoscale.Queue.Sync.Keys.{messages_are, idle_workers_are, key_step}
use k8s_worker_pod_autoscale.Queue.Service.{Action, calls, sleeps}
use k8s_worker_pod_autoscale.Queue.Sqs.{
  ok, Aws, Sqs, has_client, get_cw_client, long_poll_receive_message, get_approx_messages,
  get_approx_messages_not_visible, get_number_of_messages_received, sum_from,
}
use k8s_worker_pod_autoscale.Queue.Sqs.Cache.{Cache, cached_number, store}
use k8s_worker_pod_autoscale.Queue.Sqs.Poll.{
  Caches, Clock, long_polls, poll_long, poll_received, poll_counted, poll_messages, poll_short,
  poll,
}
use k8s_worker_pod_autoscale.Queue.Sqs.Idle.{IdleReason, sqs_idle_only_if_quiet}
use k8s_worker_pod_autoscale.Queue.Sqs.LongPoll.{absent, added, Untimed-never_long_polls}

abbrev uri : Text
uri = codes "https://sqs.ap-south-1.amazonaws.com/123/jobs"

-- Every queue has the attribute value `count`, and CloudWatch knows one result of no values.
abbrev quiet_aws : Text → Aws
quiet_aws count = record {
  receive_message = λ region queue_uri wait. ok 1;
  get_queue_attributes = λ region queue_uri attribute. ok ((attribute, count) ∷ []);
  get_metric_data = λ region metric queue start end. ok ([] ∷ []);
}

abbrev sqs : Sqs
sqs = record {
  regions = codes "ap-south-1" ∷ [];
  short_poll_interval = pos 20_000_000_000;
  long_poll_interval = pos 20;
}

abbrev clock : Clock
clock = record {
  sent_before = pos 0;
  sent_now = pos 0;
  sent_query = pos 0;
  received_before = pos 0;
  received_now = pos 0;
  received_query = pos 0;
}

abbrev no_cache : Cache
no_cache = record { values = []; last_timestamps = [] }

abbrev caches : Caches
caches = record { sent = no_cache; received = no_cache }

abbrev spec : QueueSpec
spec = record zero_spec { name = codes "jobs"; uri = uri; workers = pos 3; messages = pos 1 }

abbrev key : Text
key = codes "prod/worker"

-- With what the poll computes with.
run : Text → QueueSpec → List Action
unfolding poll poll_long poll_short poll_messages poll_counted poll_received long_polls
    cached_number store long_poll_receive_message get_approx_messages
    get_approx_messages_not_visible get_number_of_messages_received get_cw_client get_region split
    has_client text_eq lookup insert parse_int32 wrap32 base sum_from feq ◌+ℤ◌ ◌-ℤ◌
run count q = (poll (quiet_aws count) sqs clock key q caches).actions

-- Nothing in the queue and nothing received: all three workers are idle.
quiet_poll :
    run (codes "0") spec
    ≡ calls (messages_are key (pos 0))
      ∷ calls (idle_workers_are key (pos 3))
      ∷ sleeps (pos 20_000_000_000)
      ∷ []
unfolding run
quiet_poll = refl

busy_poll :
    run (codes "4") spec
    ≡ calls (messages_are key (pos 8))
      ∷ calls (idle_workers_are key minus_one)
      ∷ sleeps (pos 20_000_000_000)
      ∷ []
unfolding run
busy_poll = refl

-- No workers, no messages and no rate: one message is received by the long poll.
long_poll :
    run (codes "0") (record spec { workers = pos 0; messages = pos 0 })
    ≡ calls (idle_workers_are key minus_one) ∷ calls (messages_are key (pos 1)) ∷ []
unfolding run
long_poll = refl

sqs_idle_only_if_quiet_example :
    All
      (IdleReason (quiet_aws (codes "0")) sqs clock spec caches)
      (poll (quiet_aws (codes "0")) sqs clock key spec caches).actions
sqs_idle_only_if_quiet_example =
    sqs_idle_only_if_quiet (quiet_aws (codes "0")) sqs clock key spec caches

-- A queue without workers that was just added.
abbrev fresh : QueueSpec
fresh = record zero_spec {
  name = get_queue_name uri;
  namespace = codes "prod";
  uri = uri;
  host = codes "sqs.ap-south-1.amazonaws.com";
  protocol = codes "https";
  queue_service_name = codes "sqs";
  messages = minus_one;
  messages_sent_per_minute = unsynced_messages_sent_per_minute;
  idle_workers = minus_one;
}

Untimed-never_long_polls_example : long_polls fresh ≡ false
unfolding key_step text_eq queue_spec feq
Untimed-never_long_polls_example = Untimed-never_long_polls {key = key} {spec = fresh} (
    added {before = none} {listed = none} absent absent (codes "prod") uri (codes "https")
      (codes "sqs.ap-south-1.amazonaws.com") (codes "sqs") (pos 0) zero_float refl)
