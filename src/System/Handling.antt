-- ===== src/System/Handling.antt =====
-- `syncHandler` as a part of the system: the map of queues after it is one that the system reaches.
use k8s_worker_pod_autoscale.Base.{
  ◌≡◌, inl, inr, Bool, true, false, Option, List, All, Text, Bool-cases, ℤ,
}
use k8s_worker_pod_autoscale.Base.Float.{Float64}
use k8s_worker_pod_autoscale.Api.{WorkerPodAutoScaler}
use k8s_worker_pod_autoscale.Queue.Sync.Keys.{Call}
use k8s_worker_pod_autoscale.Controller.Scale.{ScaleOperation, scale_up, scale_down, scale_noop}
use k8s_worker_pod_autoscale.Controller.Cluster.{
  Kind, deployment, replica_set, Workload, State, Env, Attempt, conflicts, Listed, found, missing,
  list_failed, attempt, attempt_on, put_workload, update_workload, update_deployment,
  update_replica_set,
}
use k8s_worker_pod_autoscale.Controller.Retry.{Retried, Retries}
use k8s_worker_pod_autoscale.Controller.Inputs.{Event, Settings, Meanwhile, serve}
use k8s_worker_pod_autoscale.Controller.Handler.{
  Handled, sync_handler, update_status, report, update_kind, after_update, scale, is_up_to_date,
}
use k8s_worker_pod_autoscale.Controller.Handler.Cases.{
  InfoCases, unread, crashed, decided, HandlerCases, idles, fails, ends, forgets, goes_on, informed,
  handle_info-InfoCases, sync_handler-HandlerCases,
}
use k8s_worker_pod_autoscale.Queue.Sync.{sends, delete_queue}
use k8s_worker_pod_autoscale.System.{Outside, Reached, Made}
use k8s_worker_pod_autoscale.System.Serving.{
  serve-Reached, delete-IsMade, queue_request-IsMade, items_after-Reached,
}

-- Attempts one after the other, as `Retried` has them, within the system: while it waits, the map of
-- queues changes by requests that the program makes.
pub data RetriedWithin {W V : Type 0} (outside : Outside W) (f : State V → Attempt × State V)
    : State V → Attempt × State V → Type 0 where
  stops : {s : State V} → RetriedWithin outside f s (f s)
  again :
      {s s' : State V} {r : Attempt × State V} (served : List Call)
      → (f s).0 ≡ conflicts
      → s'.sent ≡ (f s).1.sent
      → All (Made outside) served
      → s'.items ≡ serve served (f s).1.items
      → RetriedWithin outside f s' r
      → RetriedWithin outside f s r

abbrev pub RetriesWithin : {W V : Type 0} → Outside W → Env V → Type 0
RetriesWithin {V = V} outside env =
    (f : State V → Attempt × State V) (s : State V)
    → RetriedWithin outside f s (env.retry_on_conflict f s)

RetriedWithin-Retried :
    {W V : Type 0} {outside : Outside W} {f : State V → Attempt × State V} {s : State V}
    {r : Attempt × State V}
    → RetriedWithin outside f s r
    → Retried f s r
RetriedWithin-Retried stops = Retried.stops
RetriedWithin-Retried (again served c e made q more_attempts) =
    Retried.again c e (RetriedWithin-Retried more_attempts)

pub RetriesWithin-Retries :
    {W V : Type 0} (outside : Outside W) (env : Env V) → RetriesWithin outside env → Retries env
RetriesWithin-Retries outside env within f s = RetriedWithin-Retried (within f s)

-- The map of queues of a result.
abbrev pub Reaches : {W V A : Type 0} → Outside W → A × State V → Type 0
Reaches outside r = Reached outside r.1.items

module _ {W V : Type 0} (outside : Outside W) (env : Env V)
    (within : RetriesWithin outside env) where
  put_workload-Reached :
      (k : Kind) (key : Text) (w : Workload) (s : State V)
      → Reached outside s.items
      → Reached outside (put_workload env k key w s).items
  put_workload-Reached deployment key w s r = r
  put_workload-Reached replica_set key w s r = r

  attempt_on-Reaches :
      (kind : Kind) (namespace name : Text) (replicas : ℤ) (l : Listed Workload) (s : State V)
      → Reached outside s.items
      → Reaches outside (attempt_on env kind namespace name replicas l s)
  attempt_on-Reaches kind namespace name replicas missing s r = r
  attempt_on-Reaches kind namespace name replicas list_failed s r = r
  attempt_on-Reaches kind namespace name replicas (found w) s r = put_workload-Reached kind _ _ s r

  RetriedWithin-Reaches :
      (kind : Kind) (namespace name : Text) (replicas : ℤ) {s : State V} {r : Attempt × State V}
      → RetriedWithin outside (attempt env kind namespace name replicas) s r
      → Reached outside s.items
      → Reaches outside r
  unfolding attempt
  RetriedWithin-Reaches kind namespace name replicas {s} stops h =
      attempt_on-Reaches kind namespace name replicas _ s h
  RetriedWithin-Reaches kind namespace name replicas {s}
        (again {s' = s'} served c e made q more_attempts) h =
      RetriedWithin-Reaches kind namespace name replicas more_attempts (
        rw q (
          serve-Reached outside served made
            (attempt_on-Reaches kind namespace name replicas _ s h)))

  update_workload-Reaches :
      (kind : Kind) (namespace name : Text) (replicas : ℤ) (s : State V)
      → Reached outside s.items
      → Reaches outside (update_workload env kind namespace name replicas s)
  unfolding update_workload
  update_workload-Reaches kind namespace name replicas s h =
      RetriedWithin-Reaches kind namespace name replicas
        (within (attempt env kind namespace name replicas) s) h

  module _ (settings : Settings) (event : Event) (m : Meanwhile) (w : WorkerPodAutoScaler) where
    report-Reaches :
        (messages current available desired : ℤ) (last : Option ℤ) (s : State V)
        → Reached outside s.items
        → Reaches outside (report env settings event m w messages current available desired last s)
    unfolding report update_status
    report-Reaches messages current available desired last s h =
        elim (Bool-cases (
          is_up_to_date w.status (record {
            current_messages = messages;
            current_replicas = current;
            available_replicas = available;
            desired_replicas = desired;
            last_scale_time = last;
          }))) [ inl u ↦ rw u h | inr u ↦ rw u h ]

    update_kind-Reaches :
        (k : Kind) (name : Text) (desired : ℤ) (s : State V)
        → Reached outside s.items
        → Reaches outside (update_kind env settings event m k w.namespace name desired s)
    unfolding update_deployment update_replica_set
    update_kind-Reaches deployment name desired s h =
        update_workload-Reaches deployment w.namespace name desired s h
    update_kind-Reaches replica_set name desired s h =
        update_workload-Reaches replica_set w.namespace name desired s h

    after_update-Reaches :
        (messages current available desired : ℤ) (r : Bool × State V)
        → Reaches outside r
        → Reaches outside (after_update env settings event m w messages current available desired r)
    after_update-Reaches messages current available desired (true, s) h =
        report-Reaches messages current available desired _ s h
    after_update-Reaches messages current available desired (false, s) h = h

    scale-Reaches :
        (target : Kind × Text) (messages current available desired : ℤ) (op : ScaleOperation)
        (s : State V)
        → Reached outside s.items
        → Reaches outside
            (scale env settings event m w target messages current available desired op s)
    unfolding scale
    scale-Reaches target messages current available desired scale_noop s h =
        report-Reaches messages current available desired _ s h
    scale-Reaches (kind, name) messages current available desired scale_up s h =
        after_update-Reaches messages current available desired _
          (update_kind-Reaches kind name desired s h)
    scale-Reaches (kind, name) messages current available desired scale_down s h =
        after_update-Reaches messages current available desired _
          (update_kind-Reaches kind name desired s h)

    InfoCases-Reaches :
        {target : Kind × Text} {current available : ℤ} {info : Text × ℤ × Float64 × ℤ} {s : State V}
        {r : Handled × State V}
        → InfoCases env settings event m w target current available info s r
        → Reached outside s.items
        → Reaches outside r
    InfoCases-Reaches unread h = h
    InfoCases-Reaches crashed h = h
    InfoCases-Reaches (decided per_worker min max desired known polled limited computed) h =
        scale-Reaches _ _ _ _ desired _ _ h

  module _ (settings : Settings) (event : Event) (m : Meanwhile)
      (same_parse : env.parse ≡ outside.parse)
      (before_request : All (Made outside) m.before_request)
      (before_info : All (Made outside) m.before_info) where
    HandlerCases-Reaches :
        {s : State V} {r : Handled × State V}
        → HandlerCases env settings event m s r
        → Reached outside s.items
        → Reaches outside r
    HandlerCases-Reaches idles h = h
    HandlerCases-Reaches fails h = h
    HandlerCases-Reaches ends h = h
    HandlerCases-Reaches (forgets namespace name split gone) h =
        items_after-Reached outside env settings event m same_parse before_request before_info
          (sends (delete_queue namespace name))
          (delete-IsMade outside env settings event m same_parse before_request before_info
            namespace name)
          h
    HandlerCases-Reaches {s}
          (goes_on namespace name w kind workload runs current a split e n l c asked) h =
        let made =
          queue_request-IsMade outside env settings event m same_parse before_request before_info
            namespace name w current event.name h in
        InfoCases-Reaches settings event m w
          (handle_info-InfoCases env settings event m w (kind, workload) current
            runs.available_replicas (informed env settings event m a s) _)
          (items_after-Reached outside env settings event m same_parse before_request before_info a
            (rw asked at made) h)

    -- Whatever `syncHandler` does of the map is what the program does of it.
    pub sync_handler-Reaches :
        (s : State V)
        → Reached outside s.items
        → Reaches outside (sync_handler env settings event m s)
    sync_handler-Reaches s h =
        HandlerCases-Reaches (sync_handler-HandlerCases env settings event m s) h
