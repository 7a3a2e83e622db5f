-- ===== src/Command/Run/Wired.antt =====
-- What `run` has started once it runs: the informer of the autoscalers and the workers.
use k8s_worker_pod_autoscale.Base.{
  ◌≡◌, refl, ap, ◌∙◌, inl, inr, ℕ, true, none, some, List, [], ◌∷◌, Any, Text, text_eq, text_eq_iff,
  Bool-cases, Option-cases, ℤ, lookup, insert,
}
use k8s_worker_pod_autoscale.Generated.{ListOptions}
use k8s_worker_pod_autoscale.Generated.Typed.{list_autoscalers, watch_autoscalers}
use k8s_worker_pod_autoscale.Generated.Clientset.{RestConfig}
use k8s_worker_pod_autoscale.Generated.Factory.{
  SharedInformerFactory, start, start_one, is_started, informer_for, with_namespace,
  new_shared_informer_factory_with_options, apply_options, apply_option, resync_period_of,
}
use k8s_worker_pod_autoscale.Generated.Sound.{count, FactoryCall, informer_fors, run_calls, call}
use k8s_worker_pod_autoscale.Generated.Started.{started_runs_once, Covers}
use k8s_worker_pod_autoscale.Generated.Informers.{
  WorkerPodAutoScalerInformer, Informers, autoscaler_type, informer, worker_pod_auto_scalers,
  list_func, watch_func,
}
use k8s_worker_pod_autoscale.Command.Run.{Wiring, wire}

-- The calls of the factory that `NewController` makes.
abbrev asks :
    {P : Type 0}
    → WorkerPodAutoScalerInformer P
    → List (FactoryCall (WorkerPodAutoScalerInformer P))
asks w =
    informer_fors autoscaler_type w
    ∷ informer_fors autoscaler_type w
    ∷ informer_fors autoscaler_type w
    ∷ []

-- What holds of the wiring: one informer, which runs once, and asks the API server for the namespace
-- alone, each time with the options that it was given.
pub record IsWired {P : Type 0} (config : RestConfig) (resync_period : ℤ) (namespace : Text)
    (w : Wiring P) : Type 0 where
  pub maker : WorkerPodAutoScalerInformer P
  pub made :
      w.factory.made
      ≡ record { new_func = maker; client = config; resync_period = resync_period } ∷ []
  pub synced_same : w.for_synced ≡ w.for_lister
  pub handlers_same : w.for_handlers ≡ w.for_lister
  pub runs_once : count w.for_lister w.factory.runs ≡ 1
  pub lists : (opts : ListOptions P) → list_func maker opts ≡ list_autoscalers namespace opts
  pub watches : (opts : ListOptions P) → watch_func maker opts ≡ watch_autoscalers namespace opts

-- A Start makes no informer.
start_one-same :
    {C N P : Type 0} (t : Text) (f : SharedInformerFactory C N P)
    → ((start_one t f).made ≡ f.made) × ((start_one t f).informers ≡ f.informers)
unfolding start_one
start_one-same t f = elim (Option-cases (lookup t f.informers)) [
  | inl e ↦ rw (e, start_one) (refl, refl)
  | inr (i, e) ↦ elim (Bool-cases (is_started t f)) [
    | inl b ↦ rw (e, start_one) (rw b (refl, refl))
    | inr b ↦ rw (e, start_one) (rw b (refl, refl))
  ]
]

start-same :
    {C N P : Type 0} (order : List Text) (f : SharedInformerFactory C N P)
    → ((start order f).made ≡ f.made) × ((start order f).informers ≡ f.informers)
unfolding start
start-same [] f = (refl, refl)
start-same (t ∷ order) f =
    let (made, informers) = start-same order (start_one t f) in
    let (made', informers') = start_one-same t f in (made ∙ made', informers ∙ informers')

covers_one :
    (order : List Text) (k t : Text) (i : ℕ)
    → Any (λ u. u ≡ k) order
    → lookup t ((k, 0) ∷ []) ≡ some i
    → Any (λ u. u ≡ t) order
unfolding lookup
covers_one order k t i h e = elim (Bool-cases (text_eq k t)) [
  | inl q ↦ rw⁻¹ ((text_eq_iff k t).0 q) h
  | inr q ↦ absurd (let clash : none ≡ some i = (rw q at e) in cc)
]

module _ (P : Type 0) (config : RestConfig) (resync_period : ℤ) (namespace : Text)
    (order : List Text) where
  abbrev begun : Informers RestConfig P
  begun =
      new_shared_informer_factory_with_options config resync_period (with_namespace namespace ∷ [])

  abbrev asked : Informers RestConfig P
  asked = run_calls (asks (worker_pod_auto_scalers begun)) begun

  wired-asks : (wire {P = P} config resync_period namespace order).factory ≡ start order asked
  unfolding wire run_calls call informer worker_pod_auto_scalers
  wired-asks = refl

  asked-informers : asked.informers ≡ (autoscaler_type, 0) ∷ []
  unfolding run_calls call informer_for new_shared_informer_factory_with_options apply_options
      apply_option lookup insert text_eq
  asked-informers = refl

  asked-Covers :
      (f : Informers RestConfig P)
      → f.informers ≡ (autoscaler_type, 0) ∷ []
      → Any (λ u. u ≡ autoscaler_type) order
      → Covers order f
  asked-Covers f e h t i there = covers_one order autoscaler_type t i h (rw e at there)

  pub wire-IsWired :
      Any (λ u. u ≡ autoscaler_type) order
      → IsWired config resync_period namespace (wire {P = P} config resync_period namespace order)
  unfolding wire informer lookup text_eq insert informer_for
      new_shared_informer_factory_with_options apply_options apply_option list_func watch_func
      worker_pod_auto_scalers resync_period_of run_calls call
  wire-IsWired h =
      let once =
        started_runs_once {P = P} config resync_period (with_namespace namespace ∷ [])
          (asks (worker_pod_auto_scalers begun)) [] order autoscaler_type
          (worker_pod_auto_scalers begun) 0 (λ i. true) order
          (ap (lookup autoscaler_type) asked-informers) (asked-Covers asked asked-informers h)
          (asked-Covers (start order asked) ((start-same order asked).1 ∙ asked-informers) h) in
      record {
        maker = worker_pod_auto_scalers begun;
        made = (start-same order asked).0;
        synced_same = refl;
        handlers_same = refl;
        runs_once = once.1;
        lists = λ opts. refl;
        watches = λ opts. refl;
      }
