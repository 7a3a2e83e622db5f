-- ===== src/Generated/Confined.antt =====
-- What the options of the factory mean for the requests of its informers.
use k8s_worker_pod_autoscale.Base.{◌≡◌, refl, ap, none, List, [], ◌∷◌, Text, ℤ}
use k8s_worker_pod_autoscale.Generated.{ListOptions}
use k8s_worker_pod_autoscale.Generated.Typed.{list_autoscalers, watch_autoscalers}
use k8s_worker_pod_autoscale.Generated.Factory.{
  Tweak, SharedInformerOption, with_custom_resync_config, with_tweak_list_options, with_namespace,
  apply_option, apply_options, new_shared_informer_factory_with_options,
}
use k8s_worker_pod_autoscale.Generated.Informers.{
  Informers, worker_pod_auto_scalers, list_func, watch_func, tweaked,
}

-- The namespace of the last WithNamespace, or `before`.
unfoldable pub last_namespace : {P : Type 0} → Text → List (SharedInformerOption P) → Text
last_namespace before [] = before
last_namespace before (with_namespace ns ∷ options) = last_namespace ns options
last_namespace before (with_tweak_list_options tweak ∷ options) = last_namespace before options
last_namespace before (with_custom_resync_config config ∷ options) = last_namespace before options

-- The function of the last WithTweakListOptions, or `before`.
unfoldable pub last_tweak : {P : Type 0} → Tweak P → List (SharedInformerOption P) → Tweak P
last_tweak before [] = before
last_tweak before (with_tweak_list_options tweak ∷ options) = last_tweak tweak options
last_tweak before (with_namespace ns ∷ options) = last_tweak before options
last_tweak before (with_custom_resync_config config ∷ options) = last_tweak before options

options-informer :
    {C P : Type 0} (options : List (SharedInformerOption P)) (f : Informers C P)
    → worker_pod_auto_scalers (apply_options options f) ≡ record {
      namespace = last_namespace f.namespace options;
      tweak_list_options = last_tweak f.tweak_list_options options;
    }
unfolding worker_pod_auto_scalers apply_options apply_option last_namespace last_tweak
options-informer [] f = refl
options-informer (with_namespace ns ∷ options) f = options-informer options _
options-informer (with_tweak_list_options tweak ∷ options) f = options-informer options _
options-informer (with_custom_resync_config config ∷ options) f = options-informer options _

-- The informer of the autoscalers keeps to the namespace of its factory: for a factory made with any
-- options, to fill its cache and to watch it sends the list and the watch of the typed client for the
-- namespace of the last WithNamespace, or all namespaces if there is none, both with the same options,
-- which are the informer's own as the last WithTweakListOptions changes them, if there is one.
informer_confined :
    {C P : Type 0} (client : C) (default_resync : ℤ) (options : List (SharedInformerOption P))
    (opts : ListOptions P)
    → let f : Informers C P =
        new_shared_informer_factory_with_options client default_resync options in
      let ns = last_namespace [] options in
      let changed = tweaked (last_tweak none options) opts in
      (list_func (worker_pod_auto_scalers f) opts ≡ list_autoscalers ns changed)
      × (watch_func (worker_pod_auto_scalers f) opts ≡ watch_autoscalers ns changed)
unfolding new_shared_informer_factory_with_options list_func watch_func
informer_confined client default_resync options opts =
    let e = options-informer options _ in
    (
      ap (λ w. list_autoscalers w.namespace (tweaked w.tweak_list_options opts)) e,
      ap (λ w. watch_autoscalers w.namespace (tweaked w.tweak_list_options opts)) e,
    )
