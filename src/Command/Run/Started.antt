-- ===== src/Command/Run/Started.antt =====
-- What `run` has started when it waits for the end.
use k8s_worker_pod_autoscale.Base.{
  ◌≡◌, refl, inl, inr, Bool, true, false, some, List, Any, Text, Bool-cases, Option-cases, ℤ,
  pos_part, Outcome, returns, fatal, ◌>>=◌, Outcome-returns_inj,
}
use k8s_worker_pod_autoscale.Generated.Clientset.{RestConfig, new_for_config}
use k8s_worker_pod_autoscale.Generated.Informers.{autoscaler_type}
use k8s_worker_pod_autoscale.Controller.Start.{Cache, awaited, Ran}
use k8s_worker_pod_autoscale.Controller.Start.Early.{workers_in, workers_in-start}
use k8s_worker_pod_autoscale.Controller.Start
use k8s_worker_pod_autoscale.Command.{queuing_services, seconds_duration}
use k8s_worker_pod_autoscale.Command.Run.{
  Flags, Platform, Running, create_rest_config, limited, unless_fatal, run_or_fatal, fatal_if,
  run_clients, run,
}
use k8s_worker_pod_autoscale.Command.Run.Wired.{IsWired, wire-IsWired}

bind-returns :
    {A B : Type 0} (o : Outcome A) (f : A → Outcome B) {b : B}
    → (o >>= f) ≡ returns b
    → (a : A) × (o ≡ returns a) × (f a ≡ returns b)
bind-returns fatal f h = absurd cc
bind-returns (returns a) f h = (a, refl, h)

-- What is known of the program once it waits.
pub record IsRunning {P : Type 0} (platform : Platform) (flags : Flags) (r : Running P)
    : Type 0 where
  pub config : RestConfig
  pub configured : create_rest_config platform flags.kube_config ≡ some config
  pub wired :
      IsWired
        (limited platform flags config)
        (seconds_duration flags.resync_period)
        flags.namespace
        r.wiring
  pub services : queuing_services platform.new_session flags.services ≡ returns r.queuing
  pub workers : workers_in r.ran.doings ≡ pos_part flags.wpa_threads

ran-workers :
    (wait : List Cache → Bool) (threadiness : ℤ)
    → (Start.run wait threadiness).failed ≡ false
    → workers_in (Start.run wait threadiness).doings ≡ pos_part threadiness
unfolding Start.run workers_in
ran-workers wait threadiness f = elim (Bool-cases (wait awaited)) [
  | inl b ↦ rw (b, Start.run) (workers_in-start (pos_part threadiness))
  | inr b ↦ absurd (let f' = (rw (b, Start.run) at f) in cc)
]

fatal_if-returns :
    {A : Type 0} (b : Bool) (a : A) {r : A} → fatal_if b a ≡ returns r → (b ≡ false) × (a ≡ r)
fatal_if-returns true a h = absurd cc
fatal_if-returns false a h = (refl, Outcome-returns_inj h)

module _ {P : Type 0} (platform : Platform) (flags : Flags) (order : List Text)
    (has_type : Any (λ t. t ≡ autoscaler_type) order) where
  run_clients-IsRunning :
      (config : RestConfig)
      → create_rest_config platform flags.kube_config ≡ some config
      → (r : Running P)
      → run_clients platform flags order (limited platform flags config) ≡ returns r
      → IsRunning platform flags r
  unfolding run_clients
  run_clients-IsRunning config e r h =
      let (queuing, q, h1) =
        bind-returns (queuing_services platform.new_session flags.services) _ h in
      let (ran, started, h2) =
        bind-returns (run_or_fatal (Start.run platform.wait_for_cache_sync flags.wpa_threads)) _
          h1 in
      let (works, same) = fatal_if-returns _ _ started in
      let is : _ ≡ r = Outcome-returns_inj h2 in
      rw⁻¹ is (record {
        config = config;
        configured = e;
        wired = wire-IsWired P (limited platform flags config) _ flags.namespace order has_type;
        services = q;
        workers = rw⁻¹ same (ran-workers platform.wait_for_cache_sync flags.wpa_threads works);
      })

  -- Where `run` comes to wait for the end of the process, it has a configuration for the API server,
  -- with the limits of the flags; the factory made one informer of the autoscalers, with the period of
  -- the flag and for its namespace alone, that the lister, the wait for the caches and the handlers
  -- share, and whose Run was called in exactly one goroutine; the queueing services of the flag are
  -- there; and so many workers were started as the flag says. (Go goes through the types of the factory
  -- in any order, which has that of the autoscalers.)
  pub run-IsRunning :
      (r : Running P) → run platform flags order ≡ returns r → IsRunning platform flags r
  unfolding run
  run-IsRunning r h = elim (Option-cases (create_rest_config platform flags.kube_config)) [
    | inl e ↦ absurd (let h' = (rw (e, run) at h) in cc)
    | inr (config, e) ↦
        let (u, k, h1) =
          bind-returns (unless_fatal (platform.kube_client_for (limited platform flags config))) _
            (rw (e, run) at h) in
        let (v, c, h2) =
          bind-returns
            (unless_fatal (new_for_config platform.library (limited platform flags config))) _ h1 in
        run_clients-IsRunning config e r h2
  ]
