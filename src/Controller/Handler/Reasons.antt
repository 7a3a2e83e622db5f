-- ===== src/Controller/Handler/Reasons.antt =====
-- The reasons that `syncHandler` has for what it sends, and its scalings.
use k8s_worker_pod_autoscale.Base.{
  is_empty, ◌≡◌, refl, ◌⊎◌, inl, inr, Bool, true, false, Option, some, Text, Bool-cases, ℤ, ◌≤ℤ◌,
  ◌<ℤ◌, returns,
}
use k8s_worker_pod_autoscale.Base.Float.{Float64}
use k8s_worker_pod_autoscale.Api.{WorkerPodAutoScaler, get_max_disruption}
use k8s_worker_pod_autoscale.Queue.Spec.{unsynced_queue_message_count}
use k8s_worker_pod_autoscale.Queue.Sync.{get_queue_info}
use k8s_worker_pod_autoscale.Controller.Desired.{get_desired_workers}
use k8s_worker_pod_autoscale.Controller.Scale.{
  ScaleOperation, scale_up, scale_down, scale_noop, HasCooled,
}
use k8s_worker_pod_autoscale.Controller.Cluster.{
  Kind, deployment, replica_set, Workload, Sent, scaled, status_updated, Answer, State, Env, found,
  get_autoscaler, get_workload, update_deployment, update_replica_set,
}
use k8s_worker_pod_autoscale.Controller.Retry.{Retries, Grown, more, update_workload-Grown}
use k8s_worker_pod_autoscale.Controller.Inputs.{
  Event, Settings, Meanwhile, seconds_of, workload_of, limits,
}
use k8s_worker_pod_autoscale.Controller.Handler.{
  items_after, queue_request, update_status, report, update_kind, after_update, scale,
  is_up_to_date,
}

-- The autoscaler and the workers of an event, as the listers have them.
pub record IsSubject {W : Type 0} (env : Env W) (event : Event) (s : State W)
    (w : WorkerPodAutoScaler) (kind : Kind) (workload : Text) (current : ℤ) : Type 0 where
  pub key_namespace : Text
  pub key_name : Text
  pub split : env.split_key event.key ≡ some (key_namespace, key_name)
  pub listed : get_autoscaler env key_namespace key_name s ≡ found w
  pub named : workload_of w.spec ≡ some (kind, workload)
  pub runs : Workload
  pub running : get_workload env kind w.namespace workload s ≡ found runs
  pub counted : runs.replicas ≡ some current

-- What `GetQueueInfo` reads of the autoscaler's queue: the map that it reads is the one of `s`, with
-- the event's own request and those of other goroutines served.
abbrev pub IsRead :
    {W : Type 0}
    → Env W
    → Settings
    → Event
    → Meanwhile
    → State W
    → WorkerPodAutoScaler
    → ℤ
    → Text × ℤ × Float64 × ℤ
    → Type 0
IsRead env settings event m s w current info =
    (namespace name : Text) × (env.split_key event.key ≡ some (namespace, name))
    × (info
        ≡ get_queue_info namespace name (
            items_after env settings event m
              (queue_request env settings event m namespace name w current event.name s.items)
              s.items))

-- A number of workers that `GetDesiredWorkers` computes from what was read of the queue, that `w`
-- allows, and a change to it that is not too early.
pub record IsDue {W : Type 0} (env : Env W) (settings : Settings) (event : Event) (m : Meanwhile)
    (s : State W) (w : WorkerPodAutoScaler) (current replicas : ℤ) : Type 0 where
  pub target : ℤ
  pub min : ℤ
  pub max : ℤ
  pub limited : limits w.spec ≡ some (target, min, max)
  pub queue_name : Text
  pub messages : ℤ
  pub messages_sent : Float64
  pub idle : ℤ
  pub read : IsRead env settings event m s w current (queue_name, messages, messages_sent, idle)
  pub known : is_empty queue_name ≡ false
  pub polled : ¬ (messages ≡ unsynced_queue_message_count)
  pub computed :
      get_desired_workers env.int_or_percent env.conversion messages messages_sent
        (seconds_of w.spec.seconds_to_process_one_job)
        target
        current
        idle
        min
        max
        (get_max_disruption w settings.default_max_disruption)
      ≡ returns replicas
  pub capped : replicas ≤ℤ max
  pub floored : (min ≤ℤ replicas) ⊎ (replicas ≡ max)
  pub moves :
      (current <ℤ replicas)
      ⊎ ((replicas <ℤ current)
          × HasCooled w.status.last_scale_time settings.scale_down_delay m.decided_at)

module _ {W : Type 0} (env : Env W) (settings : Settings) (event : Event) (m : Meanwhile)
    (start : State W) where
  -- The reason of an update. One of a status keeps the time of the last scaling or sets it to now.
  abbrev pub Reasoned : Sent → Type 0
  Reasoned (scaled kind namespace name replicas a) =
      (w : WorkerPodAutoScaler) × (current : ℤ) × IsSubject env event start w kind name current
      × (namespace ≡ w.namespace)
      × IsDue env settings event m start w current replicas
  Reasoned (status_updated namespace name status a) =
      (w : WorkerPodAutoScaler) × (kind : Kind) × (workload : Text) × (current : ℤ) × IsSubject env
        event start w kind workload current
      × (namespace ≡ w.namespace)
      × (name ≡ w.name)
      × (status.current_replicas ≡ current)
      × ((status.last_scale_time ≡ w.status.last_scale_time)
          ⊎ (status.last_scale_time ≡ some m.scaled_at))

  abbrev pub Grows : State W → Type 0
  Grows s = Grown Reasoned start.sent s.sent

  module _ (retries : Retries env) (w : WorkerPodAutoScaler) (kind : Kind) (workload : Text)
      (current : ℤ) (subject : IsSubject env event start w kind workload current) where
    report-Grows :
        (messages available desired : ℤ) {last : Option ℤ} (s : State W)
        → (last ≡ w.status.last_scale_time) ⊎ (last ≡ some m.scaled_at)
        → Grows s
        → Grows (report env settings event m w messages current available desired last s).1
    unfolding report update_status
    report-Grows messages available desired {last} s h g =
        elim (Bool-cases (
          is_up_to_date w.status (record {
            current_messages = messages;
            current_replicas = current;
            available_replicas = available;
            desired_replicas = desired;
            last_scale_time = last;
          }))) [
            | inl e ↦ rw e g
            | inr e ↦ rw e (more (w, kind, workload, current, subject, refl, refl, refl, h) g)
          ]

    update_kind-Grows :
        (k : Kind) (desired : ℤ) (s : State W)
        → ((a : Answer) → Reasoned (scaled k w.namespace workload desired a))
        → Grows s
        → Grows (update_kind env settings event m k w.namespace workload desired s).1
    unfolding update_deployment update_replica_set
    update_kind-Grows deployment desired s due g =
        update_workload-Grown env deployment w.namespace workload desired due retries s g
    update_kind-Grows replica_set desired s due g =
        update_workload-Grown env replica_set w.namespace workload desired due retries s g

    after_update-Grows :
        (messages available desired : ℤ) (r : Bool × State W)
        → Grows r.1
        → Grows (after_update env settings event m w messages current available desired r).1
    after_update-Grows messages available desired (true, s) g =
        report-Grows messages available desired s (inr refl) g
    after_update-Grows messages available desired (false, s) g = g

    pub scale-Grows :
        (messages available desired : ℤ) (op : ScaleOperation) (s : State W)
        → (op ≡ scale_up → IsDue env settings event m start w current desired)
        → (op ≡ scale_down → IsDue env settings event m start w current desired)
        → Grows s
        → Grows
            (scale env settings event m w
              (kind, workload)
              messages
              current
              available
              desired
              op
              s).1
    unfolding scale
    scale-Grows messages available desired scale_noop s up down g =
        report-Grows messages available desired s (inl refl) g
    scale-Grows messages available desired scale_up s up down g =
        after_update-Grows messages available desired _
          (update_kind-Grows kind desired s (λ a. (w, current, subject, refl, up refl)) g)
    scale-Grows messages available desired scale_down s up down g =
        after_update-Grows messages available desired _
          (update_kind-Grows kind desired s (λ a. (w, current, subject, refl, down refl)) g)
