-- ===== src/Command/Run/Ends.antt =====
-- When `run` ends the process before the controller runs, and what it has started if it does not.
use k8s_worker_pod_autoscale.Base.{
  ◌≡◌, ◌↔◌, refl, ◌⊎◌, inl, inr, Bool, true, false, none, some, List, Any, Text, Bool-cases,
  Option-cases, split, ℤ, Outcome, returns, fatal, ◌>>=◌,
}
use k8s_worker_pod_autoscale.Generated.Clientset.{RestConfig, new_for_config}
use k8s_worker_pod_autoscale.Controller.Start.{Cache, awaited, Ran}
use k8s_worker_pod_autoscale.Controller.Start
use k8s_worker_pod_autoscale.Command.{comma, queuing_services}
use k8s_worker_pod_autoscale.Command.Services.{IsUnavailable, services_fatal_iff}
use k8s_worker_pod_autoscale.Command.Run.{
  Flags, Platform, create_rest_config, limited, unless_fatal, run_or_fatal, run_clients, run,
}
use k8s_worker_pod_autoscale.Generated.Refused.{IsRefused, new_for_config-false}

-- Why `run` cannot start.
pub data CannotRun (platform : Platform) (flags : Flags) : Type 0 where
  no_config : create_rest_config platform flags.kube_config ≡ none → CannotRun platform flags
  no_kube_client :
      (config : RestConfig)
      → create_rest_config platform flags.kube_config ≡ some config
      → platform.kube_client_for (limited platform flags config) ≡ false
      → CannotRun platform flags
  no_custom_client :
      (config : RestConfig)
      → create_rest_config platform flags.kube_config ≡ some config
      → IsRefused platform.library (limited platform flags config)
      → CannotRun platform flags
  no_service :
      Any
        (IsUnavailable platform.new_session flags.services)
        (split comma flags.services.queue_services)
      → CannotRun platform flags
  no_caches : platform.wait_for_cache_sync awaited ≡ false → CannotRun platform flags

both-fatal :
    {A B C : Type 0} (o : Outcome A) (p : Outcome B) (g : A → B → C)
    → ((o >>= λ a. p >>= λ b. returns (g a b)) ≡ fatal) ↔ ((o ≡ fatal) ⊎ (p ≡ fatal))
both-fatal fatal p g = (λ h. inl refl, λ h. refl)
both-fatal (returns a) fatal g = (λ h. inr refl, λ h. refl)
both-fatal (returns a) (returns b) g =
    (λ h. absurd cc, λ h. elim h [ inl e ↦ absurd cc | inr e ↦ absurd cc ])

gate-fatal :
    {A : Type 0} (b : Bool) (o : Outcome A)
    → ((unless_fatal b >>= λ (u : Unit {0}). o) ≡ fatal) ↔ ((b ≡ false) ⊎ (o ≡ fatal))
gate-fatal true o = (λ h. inr h, λ h. elim h [ inl e ↦ absurd cc | inr e ↦ e ])
gate-fatal false o = (λ h. inl refl, λ h. refl)

run_or_fatal-failed : (r : Ran) → (run_or_fatal r ≡ fatal) ↔ (r.failed ≡ true)
run_or_fatal-failed r = elim (Bool-cases r.failed) [
  | inl e ↦ (λ h. e, λ h. rw e refl)
  | inr e ↦ (λ h. absurd (let h' = (rw e at h) in cc), λ h. absurd cc)
]

run-failed :
    (wait : List Cache → Bool) (threadiness : ℤ)
    → ((Start.run wait threadiness).failed ≡ true) ↔ (wait awaited ≡ false)
unfolding Start.run
run-failed wait threadiness = elim (Bool-cases (wait awaited)) [
  | inl e ↦ (λ h. absurd (let h' = (rw (e, Start.run) at h) in cc), λ h. absurd cc)
  | inr e ↦ (λ h. e, λ h. rw (e, Start.run) refl)
]

module _ {P : Type 0} (platform : Platform) (flags : Flags) (order : List Text) where
  -- Behind the clientsets: the services or the caches.
  run_clients-fatal :
      (config : RestConfig)
      → (run_clients {P = P} platform flags order config ≡ fatal) ↔ (
          (queuing_services platform.new_session flags.services ≡ fatal)
          ⊎ (platform.wait_for_cache_sync awaited ≡ false))
  unfolding run_clients
  run_clients-fatal config =
      let ran = Start.run platform.wait_for_cache_sync flags.wpa_threads in
      let failed = run-failed platform.wait_for_cache_sync flags.wpa_threads in
      let both =
        both-fatal (queuing_services platform.new_session flags.services) (run_or_fatal ran) _ in
      (
        λ h. elim (both.0 h) [
          | inl e ↦ inl e
          | inr e ↦ inr (failed.0 ((run_or_fatal-failed ran).0 e))
        ],
        λ h. elim h [
          | inl e ↦ both.1 (inl e)
          | inr e ↦ both.1 (inr ((run_or_fatal-failed ran).1 (failed.1 e)))
        ],
      )

  -- Once there is a configuration.
  run-fatal :
      (config : RestConfig)
      → create_rest_config platform flags.kube_config ≡ some config
      → (run {P = P} platform flags order ≡ fatal) ↔ (
          (platform.kube_client_for (limited platform flags config) ≡ false)
          ⊎ (new_for_config platform.library (limited platform flags config) ≡ false)
          ⊎ (queuing_services platform.new_session flags.services ≡ fatal)
          ⊎ (platform.wait_for_cache_sync awaited ≡ false))
  unfolding run
  run-fatal config e =
      let kube = gate-fatal (platform.kube_client_for (limited platform flags config)) (
        unless_fatal (new_for_config platform.library (limited platform flags config))
        >>= λ (u : Unit {0}).
            run_clients {P = P} platform flags order (limited platform flags config)) in
      let custom =
        gate-fatal (new_for_config platform.library (limited platform flags config))
          (run_clients {P = P} platform flags order (limited platform flags config)) in
      let clients = run_clients-fatal (limited platform flags config) in
      rw (e, run)
        (
          λ h. elim (kube.0 h) [
            | inl k ↦ inl k
            | inr k ↦ elim (custom.0 k) [ inl c ↦ inr (inl c) | inr c ↦ inr (inr (clients.0 c)) ]
          ],
          λ h. elim h [
            | inl k ↦ kube.1 (inl k)
            | inr h' ↦ elim h' [
              | inl c ↦ kube.1 (inr (custom.1 (inl c)))
              | inr c ↦ kube.1 (inr (custom.1 (inr (clients.1 c))))
            ]
          ],
        )

  no_config-fatal :
      create_rest_config platform flags.kube_config ≡ none
      → run {P = P} platform flags order ≡ fatal
  unfolding run
  no_config-fatal e = rw (e, run) refl

  -- What a reason comes to for the configuration that there is.
  CannotRun-some :
      (config : RestConfig)
      → create_rest_config platform flags.kube_config ≡ some config
      → CannotRun platform flags
      → run {P = P} platform flags order ≡ fatal
  CannotRun-some config e (no_config n) = absurd cc
  CannotRun-some config e (no_kube_client other o h) =
      let same : other ≡ config = cc in (run-fatal config e).1 (inl (rw same at h))
  CannotRun-some config e (no_custom_client other o h) =
      let same : other ≡ config = cc in
      (run-fatal config e).1
        (inr (inl ((new_for_config-false platform.library _).1 (rw same at h))))
  CannotRun-some config e (no_service h) =
      (run-fatal config e).1
        (inr (inr (inl ((services_fatal_iff platform.new_session flags.services).1 h))))
  CannotRun-some config e (no_caches h) = (run-fatal config e).1 (inr (inr (inr h)))

  -- `run` ends the process before it waits for the end exactly if there is no configuration for the
  -- API server (the one of the cluster, where the flag gives no path); or one of the two clientsets
  -- is refused: for that of the autoscalers, if the flags limit the requests without a burst above 0
  -- and the configuration brings no rate limiter, or if a library refuses it; or a name of a queueing
  -- service is not supported, or sqs has a region without a session; or the caches of the Deployments
  -- and of the autoscalers are not filled. In every other case it goes on to wait.
  pub run_fatal_iff : (run {P = P} platform flags order ≡ fatal) ↔ CannotRun platform flags
  run_fatal_iff = elim (Option-cases (create_rest_config platform flags.kube_config)) [
    | inl e ↦ (λ h. no_config e, λ h. no_config-fatal e)
    | inr (config, e) ↦ (
      λ h. elim ((run-fatal config e).0 h) [
        | inl k ↦ no_kube_client config e k
        | inr h' ↦ elim h' [
          | inl c ↦ no_custom_client config e ((new_for_config-false platform.library _).0 c)
          | inr h'' ↦ elim h'' [
            | inl q ↦ no_service ((services_fatal_iff platform.new_session flags.services).0 q)
            | inr c ↦ no_caches c
          ]
        ]
      ],
      CannotRun-some config e,
    )
  ]
