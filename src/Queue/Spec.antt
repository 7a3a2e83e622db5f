-- ===== src/Queue/Spec.antt =====
-- pkg/queue/queue.go: the specification of a queue, and the values of one that was not polled yet.
use k8s_worker_pod_autoscale.Base.{[], Text, ℤ, pos, minus_one, Dict}
use k8s_worker_pod_autoscale.Base.Float.{Float64, zero_float, of_int}

pub record QueueSpec : Type 0 where
  pub name : Text
  pub namespace : Text
  pub uri : Text
  pub host : Text
  pub protocol : Text
  pub queue_service_name : Text
  pub messages : ℤ  -- int32
  pub messages_sent_per_minute : Float64
  pub idle_workers : ℤ  -- int32
  pub workers : ℤ  -- int32
  pub seconds_to_process_one_job : Float64

-- q.item, and the maps that are copies of it
abbrev pub Items : Type 0
Items = Dict QueueSpec

-- QueueSpec{}
abbrev pub zero_spec : QueueSpec
zero_spec = record {
  name = [];
  namespace = [];
  uri = [];
  host = [];
  protocol = [];
  queue_service_name = [];
  messages = pos 0;
  messages_sent_per_minute = zero_float;
  idle_workers = pos 0;
  workers = pos 0;
  seconds_to_process_one_job = zero_float;
}

abbrev pub unsynced_queue_message_count : ℤ
unsynced_queue_message_count = minus_one

unfoldable pub unsynced_messages_sent_per_minute : Float64
unfolding of_int
unsynced_messages_sent_per_minute = of_int minus_one

abbrev pub unsynced_idle_workers : ℤ
unsynced_idle_workers = minus_one
