-- ===== src/Controller/Handler/Cases.antt =====
-- The ways through `syncHandler`, with what is known on each: the results that it can have.
use k8s_worker_pod_autoscale.Base.{
  ◌≡◌, refl, inl, inr, false, Option, none, some, Text, is_empty, Bool-cases, ℤ, eqb_ℤ,
  Option-cases, Outcome, returns, fatal,
}
use k8s_worker_pod_autoscale.Base.Float.{Float64}
use k8s_worker_pod_autoscale.Api.{WorkerPodAutoScaler, get_max_disruption}
use k8s_worker_pod_autoscale.Queue.Spec.{unsynced_queue_message_count}
use k8s_worker_pod_autoscale.Queue.Sync.{
  Added, failed, ignored, sends, get_queue_info, delete_queue,
}
use k8s_worker_pod_autoscale.Controller.Desired.{get_desired_workers}
use k8s_worker_pod_autoscale.Controller.Scale.{get_scale_operation}
use k8s_worker_pod_autoscale.Controller.Cluster.{
  Kind, Workload, State, Env, Listed, found, missing, list_failed, get_autoscaler, get_workload,
}
use k8s_worker_pod_autoscale.Controller.Inputs.{
  Event, Settings, Meanwhile, workload_of, limits, seconds_of,
}
use k8s_worker_pod_autoscale.Controller.Handler.{
  Handled, synced, errored, ends_process, scale, after_desired, handle_info, queue_request,
  items_after, after_added, after_replicas, handle_workload, handle_autoscaler, sync_handler,
}

module _ {W : Type 0} (env : Env W) (settings : Settings) (event : Event) (m : Meanwhile) where
  -- From `GetQueueInfo` on: nothing is done for a queue that is not known or was not polled; the
  -- process ends without the limits, or in GetDesiredWorkers; or the desired workers are known.
  pub data InfoCases (w : WorkerPodAutoScaler) (target : Kind × Text) (current available : ℤ)
      (info : Text × ℤ × Float64 × ℤ) (s : State W) : Handled × State W → Type 0 where
    unread : InfoCases w target current available info s (synced, s)
    crashed : InfoCases w target current available info s (ends_process, s)
    decided :
        (per_worker min max desired : ℤ)
        → is_empty info.0 ≡ false
        → eqb_ℤ info.1 unsynced_queue_message_count ≡ false
        → limits w.spec ≡ some (per_worker, min, max)
        → get_desired_workers env.int_or_percent env.conversion info.1 info.2
            (seconds_of w.spec.seconds_to_process_one_job)
            per_worker
            current
            info.3
            min
            max
            (get_max_disruption w settings.default_max_disruption)
          ≡ returns desired
        → InfoCases w target current available info s (
            scale env settings event m w target info.1 current available desired
              (get_scale_operation desired current w.status.last_scale_time
                settings.scale_down_delay m.decided_at)
              s)

  module _ (w : WorkerPodAutoScaler) (target : Kind × Text) (current available : ℤ)
      (s : State W) where
    after_desired-InfoCases :
        (info : Text × ℤ × Float64 × ℤ) (per_worker min max : ℤ) (r : Outcome ℤ)
        → is_empty info.0 ≡ false
        → eqb_ℤ info.1 unsynced_queue_message_count ≡ false
        → limits w.spec ≡ some (per_worker, min, max)
        → get_desired_workers env.int_or_percent env.conversion info.1 info.2
            (seconds_of w.spec.seconds_to_process_one_job)
            per_worker
            current
            info.3
            min
            max
            (get_max_disruption w settings.default_max_disruption)
          ≡ r
        → InfoCases w target current available info s
            (after_desired env settings event m w target info.1 current available r s)
    after_desired-InfoCases info per_worker min max fatal known polled limited e = crashed
    after_desired-InfoCases info per_worker min max (returns d) known polled limited e =
        decided per_worker min max d known polled limited e

    pub handle_info-InfoCases :
        (info : Text × ℤ × Float64 × ℤ)
        → InfoCases w target current available info s
            (handle_info env settings event m w target current available info s)
    unfolding handle_info
    handle_info-InfoCases (queue_name, messages, sent, idle) =
        elim (Bool-cases (is_empty queue_name)) [
          | inl e ↦ rw e unread
          | inr e ↦ rw e (elim (Bool-cases (eqb_ℤ messages unsynced_queue_message_count)) [
            | inl u ↦ rw u unread
            | inr u ↦ rw u (elim (Option-cases (limits w.spec)) [
              | inl l ↦ rw l crashed
              | inr ((per_worker, min, max), l) ↦ rw l (
                  after_desired-InfoCases (queue_name, messages, sent, idle) per_worker min max _ e
                    u l refl)
            ])
          ])
        ]

  -- The state in which `GetQueueInfo` reads the map of queues.
  abbrev pub informed : Added → State W → State W
  informed a s = record s { items = items_after env settings event m a s.items }

  -- All of `syncHandler`: it succeeds with nothing to do; it deletes the queue of an autoscaler that
  -- is gone; it reports an error or ends the process before it made a request; or it goes on to
  -- `GetQueueInfo`, with the autoscaler and its workers as the listers have them.
  pub data HandlerCases (s : State W) : Handled × State W → Type 0 where
    idles : HandlerCases s (synced, s)
    fails : HandlerCases s (errored, s)
    ends : HandlerCases s (ends_process, s)
    forgets :
        (namespace name : Text)
        → env.split_key event.key ≡ some (namespace, name)
        → get_autoscaler env namespace name s ≡ missing
        → HandlerCases s (synced, informed (sends (delete_queue namespace name)) s)
    goes_on :
        (namespace name : Text) (w : WorkerPodAutoScaler) (kind : Kind) (workload : Text)
        (runs : Workload) (current : ℤ) (a : Added)
        → env.split_key event.key ≡ some (namespace, name)
        → get_autoscaler env namespace name s ≡ found w
        → workload_of w.spec ≡ some (kind, workload)
        → get_workload env kind w.namespace workload s ≡ found runs
        → runs.replicas ≡ some current
        → queue_request env settings event m namespace name w current event.name s.items ≡ a
        → HandlerCases s (
            handle_info env settings event m w
              (kind, workload)
              current
              runs.available_replicas
              (get_queue_info namespace name (informed a s).items)
              (informed a s))

  module _ (s : State W) (namespace name : Text)
      (split : env.split_key event.key ≡ some (namespace, name)) where
    module _ (w : WorkerPodAutoScaler) (kind : Kind) (workload : Text)
        (e : get_autoscaler env namespace name s ≡ found w)
        (n : workload_of w.spec ≡ some (kind, workload)) where
      after_added-HandlerCases :
          (runs : Workload) (current : ℤ) (a : Added)
          → get_workload env kind w.namespace workload s ≡ found runs
          → runs.replicas ≡ some current
          → queue_request env settings event m namespace name w current event.name s.items ≡ a
          → HandlerCases s (
              after_added env settings event m namespace name w
                (kind, workload)
                current
                runs.available_replicas
                a
                s)
      after_added-HandlerCases runs current failed l c q = fails
      after_added-HandlerCases runs current ignored l c q =
          goes_on namespace name w kind workload runs current ignored split e n l c q
      after_added-HandlerCases runs current (sends r) l c q =
          goes_on namespace name w kind workload runs current (sends r) split e n l c q

      after_replicas-HandlerCases :
          (runs : Workload) (r : Option ℤ)
          → get_workload env kind w.namespace workload s ≡ found runs
          → runs.replicas ≡ r
          → HandlerCases s (
              after_replicas env settings event m namespace name w
                (kind, workload)
                r
                runs.available_replicas
                s)
      after_replicas-HandlerCases runs none l c = ends
      after_replicas-HandlerCases runs (some current) l c =
          after_added-HandlerCases runs current _ l c refl

      handle_workload-HandlerCases :
          (l : Listed Workload)
          → get_workload env kind w.namespace workload s ≡ l
          → HandlerCases s
              (handle_workload env settings event m namespace name w (kind, workload) l s)
      unfolding handle_workload
      handle_workload-HandlerCases missing l = fails
      handle_workload-HandlerCases list_failed l = fails
      handle_workload-HandlerCases (found runs) l =
          after_replicas-HandlerCases runs runs.replicas l refl

    handle_autoscaler-HandlerCases :
        (l : Listed WorkerPodAutoScaler)
        → get_autoscaler env namespace name s ≡ l
        → HandlerCases s (handle_autoscaler env settings event m namespace name l s)
    unfolding handle_autoscaler
    handle_autoscaler-HandlerCases missing e = forgets namespace name split e
    handle_autoscaler-HandlerCases list_failed e = fails
    handle_autoscaler-HandlerCases (found w) e = elim (Option-cases (workload_of w.spec)) [
      | inl n ↦ rw (n, handle_autoscaler) idles
      | inr ((kind, workload), n) ↦
          rw (n, handle_autoscaler) (handle_workload-HandlerCases w kind workload e n _ refl)
    ]

  pub sync_handler-HandlerCases :
      (s : State W) → HandlerCases s (sync_handler env settings event m s)
  unfolding sync_handler
  sync_handler-HandlerCases s = elim (Option-cases (env.split_key event.key)) [
    | inl e ↦ rw (e, sync_handler) idles
    | inr ((namespace, name), e) ↦
        rw (e, sync_handler) (handle_autoscaler-HandlerCases s namespace name e _ refl)
  ]
