-- ===== src/Controller/Handler/Requeue.antt =====
-- Which events `syncHandler` gives back to the work queue.
use k8s_worker_pod_autoscale.Base.{
  ◌≡◌, refl, ◌≢◌, ◌↔◌, ◌⊎◌, inl, inr, Bool, true, false, Option, none, some, [], ◌∷◌, Text, ℤ,
  Option-cases,
}
use k8s_worker_pod_autoscale.Base.Float.{Float64}
use k8s_worker_pod_autoscale.Api.{WorkerPodAutoScaler}
use k8s_worker_pod_autoscale.Queue.Spec.{Items}
use k8s_worker_pod_autoscale.Queue.Uri.{parse_queue_uri, UrlParser, get_queue_service_name}
use k8s_worker_pod_autoscale.Queue.Sync.{Added, failed, ignored, sends, add, send_if}
use k8s_worker_pod_autoscale.Controller.Cluster.{
  Kind, Workload, State, Env, Listed, found, missing, list_failed, get_autoscaler, get_workload,
}
use k8s_worker_pod_autoscale.Controller.Inputs.{
  EventName, add_event, update_event, delete_event, Event, Settings, Meanwhile, workload_of,
}
use k8s_worker_pod_autoscale.Controller.Handler.{
  errored, after_added, after_replicas, handle_workload, handle_autoscaler, sync_handler,
  queue_request,
}
use k8s_worker_pod_autoscale.Controller.Handler.Endings.{
  no_error_synced, no_error_ended, handle_info-ends,
}

-- Why an event is tried again.
pub data IsRetried {W : Type 0} (env : Env W) (event : Event) (s : State W) : Type 0 where
  no_list :
      (namespace name : Text)
      → env.split_key event.key ≡ some (namespace, name)
      → get_autoscaler env namespace name s ≡ list_failed
      → IsRetried env event s
  no_workload :
      (namespace name : Text) (w : WorkerPodAutoScaler) (kind : Kind) (workload : Text)
      → env.split_key event.key ≡ some (namespace, name)
      → get_autoscaler env namespace name s ≡ found w
      → workload_of w.spec ≡ some (kind, workload)
      → (get_workload env kind w.namespace workload s ≡ missing)
        ⊎ (get_workload env kind w.namespace workload s ≡ list_failed)
      → IsRetried env event s
  no_uri :
      (namespace name : Text) (w : WorkerPodAutoScaler) (kind : Kind) (workload : Text)
      (runs : Workload) (current : ℤ)
      → env.split_key event.key ≡ some (namespace, name)
      → get_autoscaler env namespace name s ≡ found w
      → workload_of w.spec ≡ some (kind, workload)
      → get_workload env kind w.namespace workload s ≡ found runs
      → runs.replicas ≡ some current
      → (event.name ≡ add_event) ⊎ (event.name ≡ update_event)
      → w.spec.queue_uri ≢ []
      → parse_queue_uri env.parse w.spec.queue_uri ≡ none
      → IsRetried env event s

send_if-failed :
    (r : Bool × Text) (namespace name uri protocol host : Text) (workers : ℤ) (seconds : Float64)
    (listed : Items)
    → send_if r namespace name uri protocol host workers seconds listed ≢ failed
send_if-failed (true, service) namespace name uri protocol host workers seconds listed h = cc
send_if-failed (false, service) namespace name uri protocol host workers seconds listed h = cc

add-failed :
    (parse : UrlParser) (listed : Items) (namespace name uri : Text) (workers : ℤ)
    (seconds : Float64)
    → (add parse listed namespace name uri workers seconds ≡ failed)
      ↔ ((uri ≢ []) × (parse_queue_uri parse uri ≡ none))
unfolding add
add-failed parse listed namespace name [] workers seconds = (λ h. cc, λ (h, e). absurd (h refl))
add-failed parse listed namespace name (c ∷ u) workers seconds =
    elim (Option-cases (parse_queue_uri parse (c ∷ u))) [
      | inl e ↦ (λ h. (λ p. cc, e), λ h. rw (e, add) refl)
      | inr ((protocol, host), e) ↦ (
        λ h. absurd (
            send_if-failed (get_queue_service_name host protocol) _ _ _ _ _ _ _ _
              (rw (e, add) at h)),
        λ (p, q). cc,
      )
    ]

module _ {W : Type 0} (env : Env W) (settings : Settings) (event : Event) (m : Meanwhile)
    (s : State W) where
  after_added-errored :
      (namespace name : Text) (w : WorkerPodAutoScaler) (target : Kind × Text)
      (current available : ℤ) (a : Added)
      → ((after_added env settings event m namespace name w target current available a s).0
          ≡ errored)
        ↔ (a ≡ failed)
  after_added-errored namespace name w target current available failed = (λ h. refl, λ h. refl)
  after_added-errored namespace name w target current available ignored = (
    λ h. absurd (handle_info-ends env settings event m w target current available _ _ h),
    λ h. cc,
  )
  after_added-errored namespace name w target current available (sends r) = (
    λ h. absurd (handle_info-ends env settings event m w target current available _ _ h),
    λ h. cc,
  )

  queue_request-failed :
      (namespace name : Text) (w : WorkerPodAutoScaler) (current : ℤ) (e : EventName) (item : Items)
      → (queue_request env settings event m namespace name w current e item ≡ failed) ↔ (
          ((e ≡ add_event) ⊎ (e ≡ update_event))
          × (w.spec.queue_uri ≢ [])
          × (parse_queue_uri env.parse w.spec.queue_uri ≡ none))
  queue_request-failed namespace name w current delete_event item =
      (λ h. cc, λ (h, _, _). elim h [ inl e ↦ cc | inr e ↦ cc ])
  queue_request-failed namespace name w current add_event item =
      let (to, from) = add-failed env.parse item namespace name w.spec.queue_uri current _ in
      (λ h. (inl refl, (to h).0, (to h).1), λ (_, p, q). from (p, q))
  queue_request-failed namespace name w current update_event item =
      let (to, from) = add-failed env.parse item namespace name w.spec.queue_uri current _ in
      (λ h. (inr refl, (to h).0, (to h).1), λ (_, p, q). from (p, q))

  module _ (namespace name : Text) (split : env.split_key event.key ≡ some (namespace, name)) where
    after_replicas-IsRetried :
        (w : WorkerPodAutoScaler) (kind : Kind) (workload : Text) (runs : Workload) (r : Option ℤ)
        → get_autoscaler env namespace name s ≡ found w
        → workload_of w.spec ≡ some (kind, workload)
        → get_workload env kind w.namespace workload s ≡ found runs
        → runs.replicas ≡ r
        → (after_replicas env settings event m namespace name w
            (kind, workload)
            r
            runs.available_replicas
            s).0
          ≡ errored
        → IsRetried env event s
    after_replicas-IsRetried w kind workload runs none e n l c h = absurd (no_error_ended h)
    after_replicas-IsRetried w kind workload runs (some current) e n l c h =
        let (when, uri, parsed) =
          (queue_request-failed namespace name w current event.name s.items).0 (
            (after_added-errored namespace name w (kind, workload) current runs.available_replicas
                _).0
              h) in
        no_uri namespace name w kind workload runs current split e n l c when uri parsed

    handle_workload-IsRetried :
        (w : WorkerPodAutoScaler) (kind : Kind) (workload : Text) (l : Listed Workload)
        → get_autoscaler env namespace name s ≡ found w
        → workload_of w.spec ≡ some (kind, workload)
        → get_workload env kind w.namespace workload s ≡ l
        → (handle_workload env settings event m namespace name w (kind, workload) l s).0 ≡ errored
        → IsRetried env event s
    unfolding handle_workload
    handle_workload-IsRetried w kind workload missing e n l h =
        no_workload namespace name w kind workload split e n (inl l)
    handle_workload-IsRetried w kind workload list_failed e n l h =
        no_workload namespace name w kind workload split e n (inr l)
    handle_workload-IsRetried w kind workload (found runs) e n l h =
        after_replicas-IsRetried w kind workload runs runs.replicas e n l refl h

    handle_autoscaler-IsRetried :
        (l : Listed WorkerPodAutoScaler)
        → get_autoscaler env namespace name s ≡ l
        → (handle_autoscaler env settings event m namespace name l s).0 ≡ errored
        → IsRetried env event s
    unfolding handle_autoscaler
    handle_autoscaler-IsRetried missing e h = absurd (no_error_synced h)
    handle_autoscaler-IsRetried list_failed e h = no_list namespace name split e
    handle_autoscaler-IsRetried (found w) e h = elim (Option-cases (workload_of w.spec)) [
      | inl n ↦ absurd (no_error_synced (rw (n, handle_autoscaler) at h))
      | inr ((kind, workload), n) ↦
          handle_workload-IsRetried w kind workload _ e n refl (rw (n, handle_autoscaler) at h)
    ]

    handle_autoscaler-workload :
        {w : WorkerPodAutoScaler} {kind : Kind} {workload : Text}
        → get_autoscaler env namespace name s ≡ found w
        → workload_of w.spec ≡ some (kind, workload)
        → sync_handler env settings event m s
          ≡ handle_workload env settings event m namespace name w
              (kind, workload)
              (get_workload env kind w.namespace workload s)
              s
    unfolding sync_handler handle_autoscaler
    handle_autoscaler-workload e n =
        rw (split, sync_handler) (rw e (rw (n, handle_autoscaler) refl))

  IsRetried-errored : IsRetried env event s → (sync_handler env settings event m s).0 ≡ errored
  unfolding sync_handler handle_workload handle_autoscaler
  IsRetried-errored (no_list namespace name split e) =
      rw (split, sync_handler) (rw (e, handle_autoscaler) refl)
  IsRetried-errored (no_workload namespace name w kind workload split e n (inl l)) =
      rw (handle_autoscaler-workload namespace name split e n, l) refl
  IsRetried-errored (no_workload namespace name w kind workload split e n (inr l)) =
      rw (handle_autoscaler-workload namespace name split e n, l) refl
  IsRetried-errored
        (no_uri namespace name w kind workload runs current split e n l c when uri parsed) =
      rw (handle_autoscaler-workload namespace name split e n, l, c)
        ((after_added-errored namespace name w (kind, workload) current runs.available_replicas _).1
          ((queue_request-failed namespace name w current event.name s.items).1
            (when, uri, parsed)))

-- syncHandler returns an error, so that its event is tried again, exactly in these cases: the lister
-- of the autoscalers fails, but not because the autoscaler is gone; the Deployment or ReplicaSet that
-- the autoscaler names is missing or its lister fails; or its URI, which is not empty, cannot be
-- parsed, and the event is no deletion, the replicas of the workload being known. Nothing that
-- happens later, such as an update of the status that fails, makes it return an error.
pub errored_iff :
    {W : Type 0} (env : Env W) (settings : Settings) (event : Event) (m : Meanwhile) (s : State W)
    → ((sync_handler env settings event m s).0 ≡ errored) ↔ IsRetried env event s
unfolding sync_handler
errored_iff env settings event m s = (
  λ h. elim (Option-cases (env.split_key event.key)) [
    | inl e ↦ absurd (no_error_synced (rw (e, sync_handler) at h))
    | inr ((namespace, name), e) ↦
        handle_autoscaler-IsRetried env settings event m s namespace name e _ refl
          (rw (e, sync_handler) at h)
  ],
  IsRetried-errored env settings event m s,
)
