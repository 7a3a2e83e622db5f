-- ===== src/System/Small.antt =====
-- A small program: one autoscaler with two idle workers, whose SQS queue was polled and is empty.
use k8s_worker_pod_autoscale.Base.{false, none, some, [], ◌∷◌, Text, codes, ℤ, pos, minus_one}
use k8s_worker_pod_autoscale.Base.Float.{zero_float, of_int}
use k8s_worker_pod_autoscale.Api.{WorkerPodAutoScaler}
use k8s_worker_pod_autoscale.Queue.Spec.{QueueSpec, Items}
use k8s_worker_pod_autoscale.Queue.Uri.{UrlParser, get_key}
use k8s_worker_pod_autoscale.Queue.Sync.Keys.{deletes}
use k8s_worker_pod_autoscale.Queue.Sqs.{ok, Aws, Sqs}
use k8s_worker_pod_autoscale.Queue.Sqs.Cache.{Cache}
use k8s_worker_pod_autoscale.Queue.Sqs.Poll.{Caches, Clock}
use k8s_worker_pod_autoscale.Queue.Beanstalk.{Net, crashes}
use k8s_worker_pod_autoscale.Controller.Cluster.{accepted, State, Env}
use k8s_worker_pod_autoscale.Controller.Inputs.{Event, update_event, Settings, Meanwhile}
use k8s_worker_pod_autoscale.System.{Outside}

abbrev pub uri : Text
uri = codes "https://sqs.ap-south-1.amazonaws.com/123/jobs"

abbrev pub parse : UrlParser
parse u = some (record {
  scheme = codes "https";
  host = codes "sqs.ap-south-1.amazonaws.com";
  hostname = codes "sqs.ap-south-1.amazonaws.com";
  port = [];
})

abbrev pub sqs : Sqs
sqs = record {
  regions = codes "ap-south-1" ∷ [];
  short_poll_interval = pos 1;
  long_poll_interval = pos 1;
}

-- beanstalkd is not used.
abbrev pub net : Net (Unit {0})
net = record {
  parse = λ u. none;
  dial = λ host port w. (crashes, w);
  tube_stats = λ tube w. (crashes, w);
  put = λ tube job w. (crashes, w);
  tube_set_nil = false;
  reserve = λ tube timeout w. (crashes, w);
  stats_job = λ id w. (crashes, w);
  release = λ id pri w. w;
}

abbrev pub outside : Outside (Unit {0})
outside = record {
  parse = parse;
  sqs = sqs;
  net = net;
  beanstalk = record { short_poll_interval = pos 1; long_poll_interval = pos 1 };
}

-- No message anywhere, and one result without values from CloudWatch.
abbrev pub empty_aws : Aws
empty_aws = record {
  receive_message = λ region queue_uri wait. ok 0;
  get_queue_attributes = λ region queue_uri attribute. ok ((attribute, codes "0") ∷ []);
  get_metric_data = λ region metric queue start end. ok ([] ∷ []);
}

abbrev pub clock : Clock
clock = record {
  sent_before = pos 0;
  sent_now = pos 0;
  sent_query = pos 0;
  received_before = pos 0;
  received_now = pos 0;
  received_query = pos 0;
}

abbrev pub no_cache : Cache
no_cache = record { values = []; last_timestamps = [] }

abbrev pub caches : Caches
caches = record { sent = no_cache; received = no_cache }

abbrev pub key : Text
key = codes "prod/worker"

-- The queue, with so many messages and idle workers.
abbrev pub queue : (messages idle : ℤ) → QueueSpec
queue messages idle = record {
  name = codes "jobs";
  namespace = codes "prod";
  uri = uri;
  host = codes "sqs.ap-south-1.amazonaws.com";
  protocol = codes "https";
  queue_service_name = codes "sqs";
  messages = messages;
  messages_sent_per_minute = of_int minus_one;
  idle_workers = idle;
  workers = pos 2;
  seconds_to_process_one_job = zero_float;
}

abbrev pub holding : (messages idle : ℤ) → Items
holding messages idle = (key, queue messages idle) ∷ []

abbrev pub worker : WorkerPodAutoScaler
worker = record {
  namespace = codes "prod";
  name = codes "worker";
  spec = record {
    min_replicas = some (pos 0);
    max_replicas = some (pos 20);
    max_disruption = some (codes "1");
    queue_uri = uri;
    deployment_name = codes "jobs";
    replica_set_name = [];
    target_messages_per_worker = some (pos 2);
    seconds_to_process_one_job = none;
  };
  status = record {
    current_messages = pos 0;
    current_replicas = pos 2;
    available_replicas = pos 2;
    desired_replicas = pos 2;
    last_scale_time = some (pos 50);
  };
}

abbrev pub env : Env (Unit {0})
env = record {
  split_key = λ k. some (codes "prod", codes "worker");
  autoscaler_fails = λ namespace name. false;
  workload_fails = λ kind namespace name. false;
  update = λ kind namespace name w u. (accepted, u);
  update_status = λ w u. (accepted, u);
  retry_on_conflict = λ f s. f s;
  parse = parse;
  int_or_percent = λ s n. some (pos 1);
  conversion = λ x. pos 0;
}

abbrev pub settings : Settings
settings = record { default_max_disruption = codes "100%"; scale_down_delay = pos 10 }

abbrev pub event : Event
event = record { key = key; name = update_event }

-- Meanwhile a deletion of another queue is served.
abbrev pub meanwhile : Meanwhile
meanwhile = record {
  before_request = deletes (get_key (codes "prod") (codes "other")) ∷ [];
  before_info = [];
  decided_at = pos 100;
  scaled_at = pos 101;
}

abbrev pub state : State (Unit {0})
state = record {
  world = tt;
  autoscalers = [];
  deployments = [];
  replica_sets = [];
  items = holding (pos 0) (pos 2);
  sent = [];
}
