-- ===== src/Generated/Informers.antt =====
-- pkg/generated/informers/externalversions: the informer of the autoscalers that the factory makes
-- (workerpodautoscaler/interface.go, workerpodautoscaler/v1) and `ForResource` (generic.go).
use k8s_worker_pod_autoscale.Base.{
  ℕ, Bool, ◌&&◌, Option, none, some, Text, codes, text_eq, if◌then◌else◌,
}
use k8s_worker_pod_autoscale.Generated.{ListOptions, Request}
use k8s_worker_pod_autoscale.Generated.Typed.{list_autoscalers, watch_autoscalers}
use k8s_worker_pod_autoscale.Generated.Fake.{GroupVersionResource, autoscalers_resource}
use k8s_worker_pod_autoscale.Generated.Factory.{Tweak, SharedInformerFactory, informer_for}

-- `workerPodAutoScalerInformer`, less the factory, which is passed on; its method `defaultInformer`
-- is what makes an informer of client-go.
pub record WorkerPodAutoScalerInformer (P : Type 0) : Type 0 where
  pub namespace : Text
  pub tweak_list_options : Tweak P

-- The factory, whose informers are all made by `defaultInformer` of such a value.
abbrev pub Informers : (C P : Type 0) → Type 0
Informers C P = SharedInformerFactory C (WorkerPodAutoScalerInformer P) P

abbrev pub autoscaler_type : Text
autoscaler_type = codes "*v1.WorkerPodAutoScaler"

-- The case of the switch in `ForResource`.
unfoldable pub is_autoscalers : GroupVersionResource → Bool
is_autoscalers r =
    text_eq r.group autoscalers_resource.group
    && (text_eq r.version autoscalers_resource.version
        && text_eq r.resource autoscalers_resource.resource)

module _ {C P : Type 0} where
  -- f.K8s().V1().WorkerPodAutoScalers()
  unfoldable pub worker_pod_auto_scalers : Informers C P → WorkerPodAutoScalerInformer P
  worker_pod_auto_scalers f = record {
    namespace = f.namespace;
    tweak_list_options = f.tweak_list_options;
  }

  -- `Informer`, for the informer of this factory.
  unfoldable pub informer : WorkerPodAutoScalerInformer P → Informers C P → ℕ × Informers C P
  informer w f = informer_for autoscaler_type w f

  -- `ForResource`: none is an error.
  unfoldable pub for_resource :
      GroupVersionResource → Informers C P → Option (GroupVersionResource × ℕ) × Informers C P
  unfolding worker_pod_auto_scalers informer is_autoscalers
  for_resource r f =
      let (i, f') = informer (worker_pod_auto_scalers f) f in
      if is_autoscalers r then (some (r, i), f') else (none, f)

module _ {P : Type 0} where
  abbrev pub tweaked : Tweak P → ListOptions P → ListOptions P
  tweaked none options = options
  tweaked (some tweak) options = tweak options

  -- `ListFunc` and `WatchFunc` of the informer that `defaultInformer` makes: the request that the
  -- client makes for them.
  unfoldable pub list_func : WorkerPodAutoScalerInformer P → ListOptions P → Request P
  list_func w options = list_autoscalers w.namespace (tweaked w.tweak_list_options options)

  unfoldable pub watch_func : WorkerPodAutoScalerInformer P → ListOptions P → Request P
  watch_func w options = watch_autoscalers w.namespace (tweaked w.tweak_list_options options)
