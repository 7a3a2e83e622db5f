-- ===== src/Controller/Handler/Sends.antt =====
-- What `syncHandler` sends to the API server: each update has its reason in the state that the
-- handler started in.
use k8s_worker_pod_autoscale.Base.{◌≡◌, refl, inl, inr, Text, ℤ, eqb_ℤ, false, arith}
use k8s_worker_pod_autoscale.Base.Float.{Float64}
use k8s_worker_pod_autoscale.Api.{WorkerPodAutoScaler}
use k8s_worker_pod_autoscale.Queue.Spec.{unsynced_queue_message_count}
use k8s_worker_pod_autoscale.Controller.Desired.Bounds.{desired_workers_bounds}
use k8s_worker_pod_autoscale.Controller.Scale.{scale_operation_iff}
use k8s_worker_pod_autoscale.Controller.Cluster.{Kind, State, Env}
use k8s_worker_pod_autoscale.Controller.Retry.{Retries, Grown, same}
use k8s_worker_pod_autoscale.Controller.Inputs.{Event, Settings, Meanwhile}
use k8s_worker_pod_autoscale.Controller.Handler.{Handled, sync_handler}
use k8s_worker_pod_autoscale.Controller.Handler.Cases.{
  InfoCases, unread, crashed, decided, HandlerCases, idles, fails, ends, forgets, goes_on, informed,
  handle_info-InfoCases, sync_handler-HandlerCases,
}
use k8s_worker_pod_autoscale.Controller.Handler.Reasons.{
  IsSubject, IsRead, IsDue, Reasoned, Grows, scale-Grows,
}

is-polled :
    (messages : ℤ)
    → eqb_ℤ messages unsynced_queue_message_count ≡ false
    → ¬ (messages ≡ unsynced_queue_message_count)
is-polled messages e h = ground (arith, e, h)

module _ {W : Type 0} (env : Env W) (settings : Settings) (event : Event) (m : Meanwhile)
    (start : State W) where
  module _ (retries : Retries env) (w : WorkerPodAutoScaler) (kind : Kind) (workload : Text)
      (current : ℤ) (subject : IsSubject env event start w kind workload current) where
    InfoCases-Grows :
        {available : ℤ} {info : Text × ℤ × Float64 × ℤ} {s : State W} {r : Handled × State W}
        → InfoCases env settings event m w (kind, workload) current available info s r
        → IsRead env settings event m start w current info
        → Grows env settings event m start s
        → Grows env settings event m start r.1
    InfoCases-Grows unread read g = g
    InfoCases-Grows crashed read g = g
    InfoCases-Grows {info = (queue_name, messages, sent, idle)} {s}
          (decided per_worker min max desired known polled limited computed) read g =
        let (_, within, floored) =
          desired_workers_bounds env.int_or_percent env.conversion messages sent _ per_worker
            current idle min max _ computed in
        let due : _ → IsDue env settings event m start w current desired = λ moves. record {
          target = per_worker;
          min = min;
          max = max;
          limited = limited;
          queue_name = queue_name;
          messages = messages;
          messages_sent = sent;
          idle = idle;
          read = read;
          known = known;
          polled = is-polled messages polled;
          computed = computed;
          capped = within.capped;
          floored = floored;
          moves = moves;
        } in
        let (up, down, _) =
          scale_operation_iff desired current w.status.last_scale_time settings.scale_down_delay
            m.decided_at in
        scale-Grows env settings event m start retries w kind workload current subject messages _
          desired _ s (λ h. due (inl (up.0 h))) (λ h. due (inr (down.0 h))) g

  HandlerCases-Grows :
      Retries env
      → {r : Handled × State W} → HandlerCases env settings event m start r
      → Grows env settings event m start r.1
  HandlerCases-Grows retries idles = same
  HandlerCases-Grows retries fails = same
  HandlerCases-Grows retries ends = same
  HandlerCases-Grows retries (forgets namespace name split gone) = same
  HandlerCases-Grows retries
        (goes_on namespace name w kind workload runs current a split e n l c asked) =
      InfoCases-Grows retries w kind workload current
        (record {
          key_namespace = namespace;
          key_name = name;
          split = split;
          listed = e;
          named = n;
          runs = runs;
          running = l;
          counted = c;
        })
        (handle_info-InfoCases env settings event m w (kind, workload) current
          runs.available_replicas (informed env settings event m a start) _)
        (rw⁻¹ asked (namespace, name, split, refl)) same

-- Whatever syncHandler sends to the API server has its reason in what the listers said when it
-- began. It scales only the Deployment or ReplicaSet that the event's autoscaler names, to the number
-- that GetDesiredWorkers computes from the specification, the current replicas, and the counts that
-- GetQueueInfo reads off the map of queues, which are not those of a queue that was never polled. The
-- number is at most MaxReplicas, and at least MinReplicas unless it is MaxReplicas, and it moves only
-- up, or down if the last scaling that the status tells lies more than the delay back. The handler
-- updates only the status of this autoscaler, with the current replicas as they were and the time of
-- the last scaling kept or set to now. The condition is the documented behaviour of RetryOnConflict.
pub handler_sends :
    {W : Type 0} (env : Env W) (settings : Settings) (event : Event) (m : Meanwhile)
    → Retries env
    → (s : State W)
    → Grown (Reasoned env settings event m s) s.sent (sync_handler env settings event m s).1.sent
handler_sends env settings event m retries s =
    HandlerCases-Grows env settings event m s retries
      (sync_handler-HandlerCases env settings event m s)
