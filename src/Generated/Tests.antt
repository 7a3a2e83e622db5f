-- ===== src/Generated/Tests.antt =====
-- The generated code on a small program: a factory for one namespace, and the clients.
use k8s_worker_pod_autoscale.Base.{
  ◌≡◌, refl, inl, inr, ℕ, true, false, none, some, List, [], ◌∷◌, Text, codes, pos, text_eq, lookup,
  insert, Any, Bool-cases, text_eq_iff,
}
use k8s_worker_pod_autoscale.Generated.{ListOptions}
use k8s_worker_pod_autoscale.Generated.Agreement.{
  Method, described_action, described_request, fake_action, typed_request, fake_described,
}
use k8s_worker_pod_autoscale.Generated.Factory.{
  SharedInformerFactory, SharedInformerOption, with_namespace, informer_for, start, start_one,
  is_started, wait_for_cache_sync, new_shared_informer_factory_with_options, apply_options,
  apply_option,
}
use k8s_worker_pod_autoscale.Generated.Sound.{
  FactoryCall, informer_fors, starts, count, run_calls, call,
}
use k8s_worker_pod_autoscale.Generated.Started.{Covers, started_runs_once}
use k8s_worker_pod_autoscale.Generated.Informers.{autoscaler_type}
use k8s_worker_pod_autoscale.System.Small.{worker}

-- Options that are not read.
abbrev Opts : Type 0
Opts = Unit {0}

abbrev opts : ListOptions Opts
opts = record { timeout_seconds = some (pos 30); watches = false; others = tt }

fake_described_example :
    described_action (fake_action (codes "prod") (Method.update_status worker tt))
    ≡ described_request (typed_request {P = Opts} (codes "prod") (Method.update_status worker tt))
fake_described_example = fake_described (codes "prod") (Method.update_status worker tt)

abbrev options : List (SharedInformerOption Opts)
options = with_namespace (codes "prod") ∷ []

-- The informer is asked for, and asked for and started again after the Start.
abbrev before : List (FactoryCall (Unit {0}))
before = informer_fors autoscaler_type tt ∷ []

abbrev after : List (FactoryCall (Unit {0}))
after = informer_fors autoscaler_type tt ∷ starts (autoscaler_type ∷ []) ∷ []

abbrev asked_for : SharedInformerFactory (Unit {0}) (Unit {0}) Opts
asked_for = run_calls before (new_shared_informer_factory_with_options tt (pos 20) options)

abbrev all_done : SharedInformerFactory (Unit {0}) (Unit {0}) Opts
all_done = run_calls after (start (autoscaler_type ∷ []) asked_for)

covers_one : (k t : Text) (i : ℕ) → lookup t ((k, 0) ∷ []) ≡ some i → Any (λ u. u ≡ t) (k ∷ [])
unfolding lookup
covers_one k t i h = elim (Bool-cases (text_eq k t)) [
  | inl e ↦ inl ((text_eq_iff k t).0 e)
  | inr e ↦ absurd (let clash : none ≡ some i = (rw e at h) in cc)
]

asked_informers : asked_for.informers ≡ (autoscaler_type, 0) ∷ []
unfolding run_calls call informer_for new_shared_informer_factory_with_options apply_options
    apply_option lookup insert
asked_informers = refl

done_informers : all_done.informers ≡ (autoscaler_type, 0) ∷ []
unfolding run_calls call informer_for new_shared_informer_factory_with_options apply_options
    apply_option lookup insert start start_one is_started text_eq
done_informers = refl

asked_covered : Covers (autoscaler_type ∷ []) asked_for
asked_covered t i h = covers_one autoscaler_type t i (rw asked_informers at h)

done_covered : Covers (autoscaler_type ∷ []) all_done
done_covered t i h = covers_one autoscaler_type t i (rw done_informers at h)

started_runs_once_example :
    ((informer_for autoscaler_type tt all_done).0 ≡ 0)
    × (count 0 all_done.runs ≡ 1)
    × (lookup autoscaler_type (wait_for_cache_sync (λ i. true) (autoscaler_type ∷ []) all_done)
        ≡ some true)
unfolding lookup text_eq
started_runs_once_example =
    started_runs_once tt (pos 20) options before after (autoscaler_type ∷ []) autoscaler_type tt 0
      (λ i. true) (autoscaler_type ∷ []) (rw asked_informers refl) asked_covered done_covered
