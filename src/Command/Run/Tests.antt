-- ===== src/Command/Run/Tests.antt =====
-- `run` with the flags at their defaults, and with a burst of 0.
use k8s_worker_pod_autoscale.Base.{
  ◌≡◌, ◌↔◌, refl, inl, Bool, true, none, some, List, [], ◌∷◌, Text, codes, pos, text_eq, split,
  trim_space, space_before, space_behind, wrap64, returns, fatal, arith,
}
use k8s_worker_pod_autoscale.Base.Float.{of_int}
use k8s_worker_pod_autoscale.Generated.Clientset.{
  RestConfig, rate_limited, new_for_config, group_client_for,
}
use k8s_worker_pod_autoscale.Generated.Informers.{autoscaler_type}
use k8s_worker_pod_autoscale.Controller.Start.{awaited, start_workers}
use k8s_worker_pod_autoscale.Controller.Start
use k8s_worker_pod_autoscale.Command.{
  queuing_services, make_services, provider, new_beanstalk, seconds_duration, beanstalk_service,
}
use k8s_worker_pod_autoscale.Command.Run.{
  Flags, Platform, Running, create_rest_config, limited, run, run_clients, wire,
}
use k8s_worker_pod_autoscale.Command.Run.Ends.{CannotRun, no_custom_client, run_fatal_iff}
use k8s_worker_pod_autoscale.Generated.Refused.{no_burst}
use k8s_worker_pod_autoscale.Command.Run.Started.{IsRunning, run-IsRunning}

abbrev flags : Flags
flags = record {
  services = record {
    aws_regions = [];
    queue_services = codes "beanstalkd";
    sqs_short_poll_interval = pos 20;
    sqs_long_poll_interval = pos 20;
    beanstalk_short_poll_interval = pos 20;
    beanstalk_long_poll_interval = pos 20;
  };
  kube_config = [];
  k8s_api_qps = of_int (pos 5);
  k8s_api_burst = pos 10;
  namespace = codes "prod";
  resync_period = pos 20;
  wpa_threads = pos 10;
}

abbrev in_cluster : RestConfig
in_cluster = record {
  has_rate_limiter = Bool.false;
  has_qps = Bool.false;
  burst = pos 0;
  group_version = none;
  api_path = [];
  user_agent = [];
}

-- Nothing fails.
abbrev platform : Platform
platform = record {
  in_cluster_config = some in_cluster;
  config_from_flags = λ path. none;
  kube_client_for = λ config. true;
  library = record {
    rest_client_for = λ config. true;
    discovery_client_for = λ config. true;
    default_user_agent = codes "workerpodautoscaler";
  };
  is_above_zero = λ x. true;
  new_session = λ region. true;
  wait_for_cache_sync = λ caches. true;
}

abbrev order : List Text
order = autoscaler_type ∷ []

abbrev config : RestConfig
config = limited platform flags in_cluster

abbrev running : Running (Unit {0})
running = record {
  queuing =
      beanstalk_service
        (record { short_poll_interval = pos 20_000_000_000; long_poll_interval = pos 20 })
      ∷ [];
  wiring = wire config (pos 20_000_000_000) (codes "prod") order;
  ran = Start.run platform.wait_for_cache_sync (pos 10);
}

is_running : run platform flags order ≡ returns running
unfolding run run_clients create_rest_config new_for_config rate_limited group_client_for
    queuing_services make_services provider new_beanstalk split trim_space space_before space_behind
    text_eq seconds_duration wrap64 Start.run
is_running = refl

run-IsRunning_example : IsRunning platform flags running
run-IsRunning_example = run-IsRunning platform flags order (inl refl) running is_running

abbrev no_limit : Flags
no_limit = record flags { k8s_api_burst = pos 0 }

run_fatal_iff_example :
    (run {P = Unit {0}} platform no_limit order ≡ fatal) ↔ CannotRun platform no_limit
run_fatal_iff_example = run_fatal_iff platform no_limit order

-- A burst of 0 is refused.
no_limit-fatal : run {P = Unit {0}} platform no_limit order ≡ fatal
unfolding create_rest_config
no_limit-fatal =
    (run_fatal_iff platform no_limit order).1
      (no_custom_client in_cluster refl (no_burst refl refl (omega arith)))
