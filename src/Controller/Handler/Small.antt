-- ===== src/Controller/Handler/Small.antt =====
-- A small cluster for `syncHandler`, and a RetryOnConflict.
use k8s_worker_pod_autoscale.Base.{
  ◌≡◌, refl, ℕ, zero, suc, false, Option, none, some, [], ◌∷◌, Text, codes, ℤ, pos, minus_one,
}
use k8s_worker_pod_autoscale.Api.{WorkerPodAutoScaler, WorkerPodAutoScalerStatus}
use k8s_worker_pod_autoscale.Queue.Spec.{QueueSpec, zero_spec}
use k8s_worker_pod_autoscale.Controller.Cluster.{
  Workload, Answer, accepted, conflict, State, Env, Attempt, succeeds, conflicts, fails, exits,
}
use k8s_worker_pod_autoscale.Controller.Retry.{Retried, stops, again, Retries}
use k8s_worker_pod_autoscale.Controller.Inputs.{Event, update_event, Settings, Meanwhile}

-- The server answers so many conflicts before it accepts.
abbrev pub update_after : ℕ → Answer × ℕ
update_after zero = (accepted, 0)
update_after (suc n) = (conflict, n)

abbrev pub unless_conflict : Attempt × State ℕ → Attempt × State ℕ → Attempt × State ℕ
unless_conflict (conflicts, s) rest = rest
unless_conflict r rest = r

-- Tries again at most so many times.
abbrev pub retry : ℕ → (State ℕ → Attempt × State ℕ) → State ℕ → Attempt × State ℕ
retry zero f s = f s
retry (suc n) f s = unless_conflict (f s) (retry n f (f s).1)

abbrev pub worker_key : Text
worker_key = codes "prod/worker"

abbrev pub split_key : Text → Option (Text × Text)
split_key [] = some ([], [])
split_key (c ∷ s) = some (codes "prod", codes "worker")

abbrev pub env : Env ℕ
env = record {
  split_key = split_key;
  autoscaler_fails = λ namespace name. false;
  workload_fails = λ kind namespace name. false;
  update = λ kind namespace name w. update_after;
  update_status = λ w n. (accepted, n);
  retry_on_conflict = retry 4;
  parse = λ u. some (record {
    scheme = codes "beanstalk";
    host = codes "localhost";
    hostname = codes "localhost";
    port = [];
  });
  int_or_percent = λ s n. some n;
  conversion = λ x. pos 0;
}

pub unless-Retried :
    (f : State ℕ → Attempt × State ℕ) (s : State ℕ) (r rest : Attempt × State ℕ)
    → f s ≡ r
    → Retried f r.1 rest
    → Retried f s (unless_conflict r rest)
unless-Retried f s (conflicts, s') rest e h = again {s' = s'} (rw e refl) (rw e refl) h
unless-Retried f s (succeeds, s') rest e h = let last : Retried f s (f s) = stops in rw e at last
unless-Retried f s (fails, s') rest e h = let last : Retried f s (f s) = stops in rw e at last
unless-Retried f s (exits, s') rest e h = let last : Retried f s (f s) = stops in rw e at last

pub retry-Retried :
    (n : ℕ) (f : State ℕ → Attempt × State ℕ) (s : State ℕ) → Retried f s (retry n f s)
retry-Retried zero f s = stops
retry-Retried (suc n) f s =
    unless-Retried f s (f s) (retry n f (f s).1) refl (retry-Retried n f (f s).1)

pub env-Retries : Retries env
env-Retries = retry-Retried 4

abbrev pub status : WorkerPodAutoScalerStatus
status = record {
  current_messages = pos 0;
  current_replicas = pos 0;
  available_replicas = pos 0;
  desired_replicas = pos 0;
  last_scale_time = some (pos 50);
}

abbrev pub worker : WorkerPodAutoScaler
worker = record {
  namespace = codes "prod";
  name = codes "worker";
  spec = record {
    min_replicas = some (pos 0);
    max_replicas = some (pos 20);
    max_disruption = none;
    queue_uri = codes "beanstalk://localhost/jobs";
    deployment_name = codes "jobs";
    replica_set_name = [];
    target_messages_per_worker = some (pos 2);
    seconds_to_process_one_job = none;
  };
  status = status;
}

abbrev pub runs : Workload
runs = record { replicas = some (pos 3); available_replicas = pos 3 }

-- A queue with so many messages.
abbrev pub queue : ℤ → QueueSpec
queue n = record zero_spec { name = codes "jobs"; messages = n; idle_workers = minus_one }

abbrev pub cluster : ℕ → ℤ → State ℕ
cluster conflicts_left messages = record {
  world = conflicts_left;
  autoscalers = (worker_key, worker) ∷ [];
  deployments = (codes "prod/jobs", runs) ∷ [];
  replica_sets = [];
  items = (worker_key, queue messages) ∷ [];
  sent = [];
}

abbrev pub settings : Settings
settings = record { default_max_disruption = codes "100%"; scale_down_delay = pos 10 }

abbrev pub update : Event
update = record { key = worker_key; name = update_event }

abbrev pub quiet : Meanwhile
quiet = record { before_request = []; before_info = []; decided_at = pos 100; scaled_at = pos 101 }
