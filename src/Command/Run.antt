-- ===== src/Command/Run.antt =====
-- cmd/workerpodautoscaler/run.go: `run`, from the flags to the controller's workers. The goroutines
-- that it starts on the way are what it started once it reaches them.
pub mod Ends
pub mod Wired
pub mod Started
pub mod Tests
use k8s_worker_pod_autoscale.Base.{
  ℕ, Bool, true, false, Option, none, some, List, [], ◌∷◌, Text, is_empty, if◌then◌else◌, ℤ,
  Outcome, returns, fatal, ◌>>=◌,
}
use k8s_worker_pod_autoscale.Base.Float.{Float64}
use k8s_worker_pod_autoscale.Generated.Clientset.{RestConfig, RestLibrary, new_for_config}
use k8s_worker_pod_autoscale.Generated.Factory.{
  start, with_namespace, new_shared_informer_factory_with_options,
}
use k8s_worker_pod_autoscale.Generated.Informers.{Informers, worker_pod_auto_scalers, informer}
use k8s_worker_pod_autoscale.Controller.Start.{Cache, Ran}
use k8s_worker_pod_autoscale.Controller.Start
use k8s_worker_pod_autoscale.Command.{Config, QueuingService, queuing_services, seconds_duration}

-- What the flags say, with those of the queueing services.
pub record Flags : Type 0 where
  pub services : Config
  pub kube_config : Text
  pub k8s_api_qps : Float64
  pub k8s_api_burst : ℤ
  pub namespace : Text
  pub resync_period : ℤ
  pub wpa_threads : ℤ

-- What is not in the repository: rest.InClusterConfig, clientcmd.BuildConfigFromFlags,
-- kubernetes.NewForConfig, the REST libraries, whether a float64 as a float32 is above 0,
-- session.NewSession and cache.WaitForCacheSync.
pub record Platform : Type 0 where
  pub in_cluster_config : Option RestConfig
  pub config_from_flags : Text → Option RestConfig
  pub kube_client_for : RestConfig → Bool
  pub library : RestLibrary
  pub is_above_zero : Float64 → Bool
  pub new_session : Text → Bool
  pub wait_for_cache_sync : List Cache → Bool

unfoldable pub create_rest_config : Platform → (kube_config_path : Text) → Option RestConfig
create_rest_config platform kube_config_path =
    if is_empty kube_config_path
    then platform.in_cluster_config
    else platform.config_from_flags kube_config_path

-- The informers of the autoscalers that `NewController` asks for, and the factory after its Start.
pub record Wiring (P : Type 0) : Type 0 where
  pub for_lister : ℕ
  pub for_synced : ℕ
  pub for_handlers : ℕ
  pub factory : Informers RestConfig P

-- The factory of the autoscalers' informers, `NewController` and Start.
unfoldable pub wire :
    {P : Type 0}
    → RestConfig
    → (resync_period : ℤ) (namespace : Text) (order : List Text) → Wiring P
wire config resync_period namespace order =
    let f0 =
      new_shared_informer_factory_with_options config resync_period
        (with_namespace namespace ∷ []) in
    let w = worker_pod_auto_scalers f0 in
    let (for_lister, f1) = informer w f0 in
    let (for_synced, f2) = informer w f1 in
    let (for_handlers, f3) = informer w f2 in
    record {
      for_lister = for_lister;
      for_synced = for_synced;
      for_handlers = for_handlers;
      factory = start order f3;
    }

-- What `run` has started when it waits for the end.
pub record Running (P : Type 0) : Type 0 where
  pub queuing : List QueuingService
  pub wiring : Wiring P
  pub ran : Ran

-- klog.Fatalf on an error.
abbrev pub or_fatal : {A : Type 0} → Option A → Outcome A
or_fatal none = fatal
or_fatal (some a) = returns a

abbrev pub unless_fatal : Bool → Outcome (Unit {0})
unless_fatal true = returns tt
unless_fatal false = fatal

abbrev pub fatal_if : {A : Type 0} → Bool → A → Outcome A
fatal_if true a = fatal
fatal_if false a = returns a

abbrev pub run_or_fatal : Ran → Outcome Ran
run_or_fatal ran = fatal_if ran.failed ran

-- The configuration with the limits of the flags.
abbrev pub limited : Platform → Flags → RestConfig → RestConfig
limited platform flags config = record config {
  has_qps = platform.is_above_zero flags.k8s_api_qps;
  burst = flags.k8s_api_burst;
}

module _ {P : Type 0} (platform : Platform) (flags : Flags) (order : List Text) where
  -- Once there are the two clientsets.
  unfoldable pub run_clients : RestConfig → Outcome (Running P)
  run_clients config = do
    queuing ← queuing_services platform.new_session flags.services
    ran ← run_or_fatal (Start.run platform.wait_for_cache_sync flags.wpa_threads)
    returns (record {
      queuing = queuing;
      wiring = wire config (seconds_duration flags.resync_period) flags.namespace order;
      ran = ran;
    })

  unfoldable pub run : Outcome (Running P)
  unfolding run_clients
  run = do
    config ← or_fatal (create_rest_config platform flags.kube_config)
    kube ← unless_fatal (platform.kube_client_for (limited platform flags config))
    custom ← unless_fatal (new_for_config platform.library (limited platform flags config))
    run_clients (limited platform flags config)
