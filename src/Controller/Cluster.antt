-- ===== src/Controller/Cluster.antt =====
-- pkg/controller/controller.go: what the controller reads and writes outside, and the updates of a
-- Deployment or ReplicaSet (`updateDeployment`, `updateReplicaSet`).
use k8s_worker_pod_autoscale.Base.{
  Bool, true, false, Option, none, some, List, ◌∷◌, Text, ℤ, Dict, lookup, insert,
}
use k8s_worker_pod_autoscale.Api.{WorkerPodAutoScaler, WorkerPodAutoScalerStatus}
use k8s_worker_pod_autoscale.Queue.Spec.{Items}
use k8s_worker_pod_autoscale.Queue.Uri.{UrlParser, get_key}
use k8s_worker_pod_autoscale.Controller.Desired.{IntOrPercent, Conversion}

-- What the workers run in.
pub data Kind : Type 0 where
  deployment replica_set : Kind

-- Of a Deployment or ReplicaSet: Spec.Replicas and Status.AvailableReplicas.
pub record Workload : Type 0 where
  pub replicas : Option ℤ
  pub available_replicas : ℤ

-- What the API server answers to an update.
pub data Answer : Type 0 where
  accepted conflict refused : Answer

-- An update that the controller has sent, with the answer.
pub data Sent : Type 0 where
  scaled : Kind → (namespace name : Text) → (replicas : ℤ) → Answer → Sent
  status_updated : (namespace name : Text) → WorkerPodAutoScalerStatus → Answer → Sent

-- The API server, the caches of the listers (by namespace/name), the map of queues, and what was
-- sent to the server, the latest first.
pub record State (W : Type 0) : Type 0 where
  pub world : W
  pub autoscalers : Dict WorkerPodAutoScaler
  pub deployments : Dict Workload
  pub replica_sets : Dict Workload
  pub items : Items
  pub sent : List Sent

-- How an attempt to update ends: `exits` stands for klog.Fatalf.
pub data Attempt : Type 0 where
  succeeds conflicts fails exits : Attempt

-- What is not in the repository: cache.SplitMetaNamespaceKey, the errors of a lister other than that
-- an object is missing, the answers of the API server, retry.RetryOnConflict(retry.DefaultRetry, _),
-- and the libraries that the computation of the workers uses.
pub record Env (W : Type 0) : Type 0 where
  pub split_key : Text → Option (Text × Text)
  pub autoscaler_fails : (namespace name : Text) → Bool
  pub workload_fails : Kind → (namespace name : Text) → Bool
  pub update : Kind → (namespace name : Text) → Workload → W → Answer × W
  pub update_status : WorkerPodAutoScaler → W → Answer × W
  pub retry_on_conflict : (State W → Attempt × State W) → State W → Attempt × State W
  pub parse : UrlParser
  pub int_or_percent : IntOrPercent
  pub conversion : Conversion

-- What a lister returns.
pub data Listed (A : Type 0) : Type 0 where
  found : A → Listed A
  missing list_failed : Listed A

abbrev pub listed : {A : Type 0} → Bool → Option A → Listed A
listed true o = list_failed
listed false none = missing
listed false (some a) = found a

module _ {W : Type 0} (env : Env W) where
  unfoldable pub get_autoscaler : (namespace name : Text) → State W → Listed WorkerPodAutoScaler
  get_autoscaler namespace name s =
      listed (env.autoscaler_fails namespace name) (lookup (get_key namespace name) s.autoscalers)

  abbrev pub workloads : Kind → State W → Dict Workload
  workloads deployment s = s.deployments
  workloads replica_set s = s.replica_sets

  unfoldable pub get_workload : Kind → (namespace name : Text) → State W → Listed Workload
  get_workload kind namespace name s =
      listed (env.workload_fails kind namespace name)
        (lookup (get_key namespace name) (workloads kind s))

  -- The object that a lister returns is the one of its cache: setting a field changes the cache.
  abbrev pub put_workload : Kind → (key : Text) → Workload → State W → State W
  put_workload deployment key w s = record s { deployments = insert key w s.deployments }
  put_workload replica_set key w s = record s { replica_sets = insert key w s.replica_sets }

  abbrev pub attempt_of : Answer → Attempt
  attempt_of accepted = succeeds
  attempt_of conflict = conflicts
  attempt_of refused = fails

  -- The function that is retried, behind the call of the lister.
  abbrev pub attempt_on :
      Kind
      → (namespace name : Text) → (replicas : ℤ) → Listed Workload
      → State W
      → Attempt × State W
  attempt_on kind namespace name replicas missing s = (fails, s)
  attempt_on kind namespace name replicas list_failed s = (exits, s)
  attempt_on kind namespace name replicas (found old) s =
      let new = record old { replicas = some replicas } in
      let s' = put_workload kind (get_key namespace name) new s in
      let (answer, world) = env.update kind namespace name new s'.world in
      (
        attempt_of answer,
        record s' { world = world; sent = scaled kind namespace name replicas answer ∷ s'.sent },
      )

  unfoldable pub attempt :
      Kind → (namespace name : Text) → (replicas : ℤ) → State W → Attempt × State W
  attempt kind namespace name replicas s =
      attempt_on kind namespace name replicas (get_workload kind namespace name s) s

  abbrev pub succeeded : Attempt → Bool
  succeeded succeeds = true
  succeeded a = false

  -- Whether the update succeeds; if not, klog.Fatalf ends the process.
  unfoldable pub update_workload :
      Kind → (namespace name : Text) → (replicas : ℤ) → State W → Bool × State W
  update_workload kind namespace name replicas s =
      let (result, s') = env.retry_on_conflict (attempt kind namespace name replicas) s in
      (succeeded result, s')

  unfoldable pub update_deployment :
      (namespace name : Text) → (replicas : ℤ) → State W → Bool × State W
  unfolding update_workload
  update_deployment = update_workload deployment

  unfoldable pub update_replica_set :
      (namespace name : Text) → (replicas : ℤ) → State W → Bool × State W
  unfolding update_workload
  update_replica_set = update_workload replica_set
