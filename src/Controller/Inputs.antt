-- ===== src/Controller/Inputs.antt =====
-- pkg/controller/controller.go: what `syncHandler` works on, which is the event, the settings of the
-- controller, what happens beside it, and what it takes from the specification.
use k8s_worker_pod_autoscale.Base.{
  Option, none, some, List, [], ◌∷◌, Text, if◌then◌else◌, is_empty, not, ℤ,
}
use k8s_worker_pod_autoscale.Base.Float.{Float64, zero_float}
use k8s_worker_pod_autoscale.Api.{WorkerPodAutoScalerSpec}
use k8s_worker_pod_autoscale.Queue.Spec.{Items}
use k8s_worker_pod_autoscale.Queue.Sync.{sync_round}
use k8s_worker_pod_autoscale.Queue.Sync.Keys.{Call, request_of}
use k8s_worker_pod_autoscale.Controller.Cluster.{Kind, deployment, replica_set}

pub data EventName : Type 0 where
  add_event update_event delete_event : EventName

pub record Event : Type 0 where
  pub key : Text
  pub name : EventName

-- The controller's own settings.
pub record Settings : Type 0 where
  pub default_max_disruption : Text
  pub scale_down_delay : ℤ

-- What happens beside the handler: the requests of other goroutines that are served between the
-- listing in `Add` and its request, and between that and `GetQueueInfo`, and the times at which
-- `GetScaleOperation` and the handler itself read the clock.
pub record Meanwhile : Type 0 where
  pub before_request : List Call
  pub before_info : List Call
  pub decided_at : ℤ
  pub scaled_at : ℤ

-- The rounds of `Queues.Sync` for requests.
unfoldable pub serve : List Call → Items → Items
serve [] item = item
serve (c ∷ cs) item = serve cs (sync_round item (request_of c))

-- The workload that the specification names, the Deployment first.
unfoldable pub workload_of : WorkerPodAutoScalerSpec → Option (Kind × Text)
workload_of spec =
    if not (is_empty spec.deployment_name)
    then some (deployment, spec.deployment_name)
    else if not (is_empty spec.replica_set_name)
    then some (replica_set, spec.replica_set_name)
    else none

unfoldable pub seconds_of : Option Float64 → Float64
seconds_of none = zero_float
seconds_of (some x) = x

-- The three pointers that the call of `GetDesiredWorkers` dereferences.
abbrev pub limits : WorkerPodAutoScalerSpec → Option (ℤ × ℤ × ℤ)
limits spec = elim spec.target_messages_per_worker [
  | none ↦ none
  | some target ↦ elim spec.min_replicas [
    | none ↦ none
    | some min ↦ elim spec.max_replicas [ none ↦ none | some max ↦ some (target, min, max) ]
  ]
]
