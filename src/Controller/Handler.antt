-- ===== src/Controller/Handler.antt =====
-- pkg/controller/controller.go: `syncHandler`, which does the work for one event, and
-- `updateWorkerPodAutoScalerStatus`. Log lines and metrics are left out.
pub mod Cases
pub mod Reasons
pub mod Sends
pub mod Endings
pub mod Requeue
pub mod Unpolled
pub mod Waits
pub mod Accepted
pub mod Stamps
pub mod Gone
pub mod Unsupported
pub mod Small
pub mod Tests
use k8s_worker_pod_autoscale.Base.{
  Bool, true, false, Option, none, some, List, [], ◌∷◌, Text, if◌then◌else◌, is_empty, ◌&&◌, not, ℤ,
  pos, eqb_ℤ, Outcome, returns, fatal,
}
use k8s_worker_pod_autoscale.Base.Float.{Float64, zero_float}
use k8s_worker_pod_autoscale.Api.{
  WorkerPodAutoScaler, WorkerPodAutoScalerSpec, WorkerPodAutoScalerStatus, get_max_disruption,
  equal_time,
}
use k8s_worker_pod_autoscale.Queue.Spec.{Items, unsynced_queue_message_count}
use k8s_worker_pod_autoscale.Queue.Sync.{
  Request, Added, failed, ignored, sends, add, delete_queue, sync_round, get_queue_info,
}
use k8s_worker_pod_autoscale.Queue.Sync.Keys.{Call, request_of}
use k8s_worker_pod_autoscale.Controller.Desired.{get_desired_workers}
use k8s_worker_pod_autoscale.Controller.Scale.{
  ScaleOperation, scale_up, scale_down, scale_noop, get_scale_operation,
}
use k8s_worker_pod_autoscale.Controller.Inputs.{
  EventName, delete_event, Event, Settings, Meanwhile, serve, workload_of, seconds_of, limits,
}
use k8s_worker_pod_autoscale.Controller.Cluster.{
  Kind, deployment, replica_set, Workload, Sent, status_updated, State, Env, Listed, found, missing,
  list_failed, get_autoscaler, get_workload, update_deployment, update_replica_set,
}

-- How `syncHandler` ends: with nil, with an error, or with the end of the process (klog.Fatalf, or
-- a nil pointer).
pub data Handled : Type 0 where
  synced errored ends_process : Handled

-- Whether the status says this already.
unfoldable pub is_up_to_date : (old new : WorkerPodAutoScalerStatus) → Bool
is_up_to_date old new =
    eqb_ℤ old.current_replicas new.current_replicas
    && (eqb_ℤ old.available_replicas new.available_replicas
        && (eqb_ℤ old.desired_replicas new.desired_replicas
            && (eqb_ℤ old.current_messages new.current_messages
                && equal_time old.last_scale_time new.last_scale_time)))

module _ {W : Type 0} (env : Env W) (settings : Settings) (event : Event) (m : Meanwhile) where
  -- `updateWorkerPodAutoScalerStatus`: an error of the update is only logged, so whatever the server
  -- answers, the status is not sent again.
  unfoldable pub update_status : WorkerPodAutoScaler → WorkerPodAutoScalerStatus → State W → State W
  update_status w status s =
      let (answer, world) = env.update_status (record w { status = status }) s.world in
      if is_up_to_date w.status status then s else record s {
        world = world;
        sent = status_updated w.namespace w.name status answer ∷ s.sent;
      }

  -- Behind the call of `GetDesiredWorkers`.
  unfoldable pub report :
      WorkerPodAutoScaler
      → (messages current available desired : ℤ) → Option ℤ
      → State W
      → Handled × State W
  report w messages current available desired last_scale_time s = (
    synced,
    update_status w
        (record {
          current_messages = messages;
          current_replicas = current;
          available_replicas = available;
          desired_replicas = desired;
          last_scale_time = last_scale_time;
        })
        s,
  )

  abbrev pub update_kind :
      Kind → (namespace name : Text) → (replicas : ℤ) → State W → Bool × State W
  update_kind deployment = update_deployment env
  update_kind replica_set = update_replica_set env

  abbrev pub after_update :
      WorkerPodAutoScaler
      → (messages current available desired : ℤ) → Bool × State W
      → Handled × State W
  after_update w messages current available desired (true, s) =
      report w messages current available desired (some m.scaled_at) s
  after_update w messages current available desired (false, s) = (ends_process, s)

  unfoldable pub scale :
      WorkerPodAutoScaler
      → Kind × Text
      → (messages current available desired : ℤ) → ScaleOperation
      → State W
      → Handled × State W
  scale w target messages current available desired scale_noop s =
      report w messages current available desired w.status.last_scale_time s
  scale w (kind, name) messages current available desired op s =
      after_update w messages current available desired
        (update_kind kind w.namespace name desired s)

  abbrev pub after_desired :
      WorkerPodAutoScaler
      → Kind × Text
      → (messages current available : ℤ) → Outcome ℤ
      → State W
      → Handled × State W
  after_desired w target messages current available fatal s = (ends_process, s)
  after_desired w target messages current available (returns desired) s =
      scale w target messages current available desired
        (get_scale_operation desired current w.status.last_scale_time settings.scale_down_delay
          m.decided_at)
        s

  -- From `GetQueueInfo` on.
  unfoldable pub handle_info :
      WorkerPodAutoScaler
      → Kind × Text
      → (current available : ℤ) → Text × ℤ × Float64 × ℤ
      → State W
      → Handled × State W
  handle_info w target current available (queue_name, messages, sent, idle) s =
      if is_empty queue_name
      then (synced, s)
      else if eqb_ℤ messages unsynced_queue_message_count
      then (synced, s)
      else elim (limits w.spec) [
        | none ↦ (ends_process, s)
        | some (messages_per_worker, min, max) ↦
            after_desired w target messages current available
              (get_desired_workers env.int_or_percent env.conversion messages sent
                (seconds_of w.spec.seconds_to_process_one_job) messages_per_worker current idle min
                max (get_max_disruption w settings.default_max_disruption))
              s
      ]

  -- The request that the event makes, once the autoscaler and its workers are known.
  abbrev pub queue_request :
      (namespace name : Text) → WorkerPodAutoScaler → (current : ℤ) → EventName → Items → Added
  queue_request namespace name w current delete_event item = sends (delete_queue namespace name)
  queue_request namespace name w current e item =
      add env.parse item namespace name w.spec.queue_uri current
        (seconds_of w.spec.seconds_to_process_one_job)

  -- The map of queues when `GetQueueInfo` reads it.
  abbrev pub items_after : Added → Items → Items
  items_after (sends r) item = serve m.before_info (sync_round (serve m.before_request item) r)
  items_after a item = serve m.before_info (serve m.before_request item)

  abbrev pub after_added :
      (namespace name : Text)
      → WorkerPodAutoScaler
      → Kind × Text
      → (current available : ℤ) → Added
      → State W
      → Handled × State W
  after_added namespace name w target current available failed s = (errored, s)
  after_added namespace name w target current available a s =
      let items = items_after a s.items in
      handle_info w target current available (get_queue_info namespace name items)
        (record s { items = items })

  -- *deployment.Spec.Replicas or *replicaSet.Spec.Replicas, and what follows.
  abbrev pub after_replicas :
      (namespace name : Text)
      → WorkerPodAutoScaler
      → Kind × Text
      → Option ℤ
      → (available : ℤ) → State W
      → Handled × State W
  after_replicas namespace name w target none available s = (ends_process, s)
  after_replicas namespace name w target (some current) available s =
      after_added namespace name w target current available
        (queue_request namespace name w current event.name s.items) s

  unfoldable pub handle_workload :
      (namespace name : Text)
      → WorkerPodAutoScaler
      → Kind × Text
      → Listed Workload
      → State W
      → Handled × State W
  handle_workload namespace name w target missing s = (errored, s)
  handle_workload namespace name w target list_failed s = (errored, s)
  handle_workload namespace name w target (found workload) s =
      after_replicas namespace name w target workload.replicas workload.available_replicas s

  unfoldable pub handle_autoscaler :
      (namespace name : Text) → Listed WorkerPodAutoScaler → State W → Handled × State W
  handle_autoscaler namespace name missing s =
      (synced, record s { items = items_after (sends (delete_queue namespace name)) s.items })
  handle_autoscaler namespace name list_failed s = (errored, s)
  handle_autoscaler namespace name (found w) s = elim (workload_of w.spec) [
    | none ↦ (synced, s)
    | some (kind, workload) ↦
        handle_workload namespace name w (kind, workload)
          (get_workload env kind w.namespace workload s) s
  ]

  unfoldable pub sync_handler : State W → Handled × State W
  sync_handler s = elim (env.split_key event.key) [
    | none ↦ (synced, s)
    | some (namespace, name) ↦
        handle_autoscaler namespace name (get_autoscaler env namespace name s) s
  ]
