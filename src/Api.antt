-- ===== src/Api.antt =====
-- pkg/apis/workerpodautoscaler/v1: types.go and get_default.go. A pointer that may be nil is an
-- option; a time is an integer of nanoseconds. Where sharing matters, Copies has the pointers.
pub mod Copies
use k8s_worker_pod_autoscale.Base.{Bool, true, false, Option, none, some, Text, ℤ, eqb_ℤ}
use k8s_worker_pod_autoscale.Base.Float.{Float64}

pub record WorkerPodAutoScalerSpec : Type 0 where
  pub min_replicas : Option ℤ
  pub max_replicas : Option ℤ
  pub max_disruption : Option Text
  pub queue_uri : Text
  pub deployment_name : Text
  pub replica_set_name : Text
  pub target_messages_per_worker : Option ℤ
  pub seconds_to_process_one_job : Option Float64

pub record WorkerPodAutoScalerStatus : Type 0 where
  pub current_messages : ℤ
  pub current_replicas : ℤ
  pub available_replicas : ℤ
  pub desired_replicas : ℤ
  pub last_scale_time : Option ℤ

-- Of the metadata: the namespace and the name.
pub record WorkerPodAutoScaler : Type 0 where
  pub namespace : Text
  pub name : Text
  pub spec : WorkerPodAutoScalerSpec
  pub status : WorkerPodAutoScalerStatus

unfoldable pub get_max_disruption : WorkerPodAutoScaler → (default_disruption : Text) → Option Text
get_max_disruption w default_disruption = elim w.spec.max_disruption [
  | none ↦ some default_disruption
  | some s ↦ some s
]

-- metav1.Time.Equal on pointers.
abbrev pub equal_time : Option ℤ → Option ℤ → Bool
equal_time none none = true
equal_time (some t) (some u) = eqb_ℤ t u
equal_time t u = false
