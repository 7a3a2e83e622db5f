-- ===== src/Controller/Handler/Waits.antt =====
-- `syncHandler` does nothing for an autoscaler until a poller has counted the messages of its queue.
use k8s_worker_pod_autoscale.Base.{
  ◌≡◌, refl, ◌⊎◌, inl, inr, true, Option, none, some, Text, is_empty, Bool-cases, ℤ, eqb_ℤ,
  Option-cases, All, lookup, eqb_ℤ_iff,
}
use k8s_worker_pod_autoscale.Base.Float.{Float64}
use k8s_worker_pod_autoscale.Api.{WorkerPodAutoScaler}
use k8s_worker_pod_autoscale.Queue.Spec.{unsynced_queue_message_count}
use k8s_worker_pod_autoscale.Queue.Uri.{get_key}
use k8s_worker_pod_autoscale.Queue.Sync.{
  Added, failed, ignored, sends, get_queue_info, delete_queue,
}
use k8s_worker_pod_autoscale.Queue.Sync.Keys.{deletes, request_of, lookup-sync_round}
use k8s_worker_pod_autoscale.Controller.Cluster.{
  Kind, Workload, State, Env, Listed, found, missing, list_failed, get_autoscaler,
}
use k8s_worker_pod_autoscale.Controller.Inputs.{
  EventName, add_event, update_event, delete_event, Event, Settings, Meanwhile, workload_of, serve,
}
use k8s_worker_pod_autoscale.Controller.Handler.{
  Handled, handle_info, after_added, after_replicas, handle_workload, handle_autoscaler,
  sync_handler, items_after, queue_request,
}
use k8s_worker_pod_autoscale.Controller.Handler.Unpolled.{
  IsUnpolled, IsCountless, IsQuiet, key_step-IsUnpolled, serve-IsUnpolled, add-IsQuiet,
  info-IsUnpolled,
}

module _ {W : Type 0} (env : Env W) (settings : Settings) (event : Event) (m : Meanwhile)
    (namespace name : Text) (s : State W)
    (before_request : All (IsCountless (get_key namespace name)) m.before_request)
    (before_info : All (IsCountless (get_key namespace name)) m.before_info)
    (unpolled : IsUnpolled (lookup (get_key namespace name) s.items)) where
  -- Nothing is sent, and the queue stays unpolled.
  abbrev Waits : Handled × State W → Type 0
  Waits r = (r.1.sent ≡ s.sent) × IsUnpolled (lookup (get_key namespace name) r.1.items)

  items_after-IsUnpolled :
      (a : Added)
      → IsQuiet (get_key namespace name) a
      → IsUnpolled (lookup (get_key namespace name) (items_after env settings event m a s.items))
  items_after-IsUnpolled failed q =
      serve-IsUnpolled _ m.before_info _ before_info
        (serve-IsUnpolled _ m.before_request _ before_request unpolled)
  items_after-IsUnpolled ignored q =
      serve-IsUnpolled _ m.before_info _ before_info
        (serve-IsUnpolled _ m.before_request _ before_request unpolled)
  items_after-IsUnpolled (sends r) (c, e, q) =
      let served = serve-IsUnpolled _ m.before_request _ before_request unpolled in
      serve-IsUnpolled _ m.before_info _ before_info (
        rw e (
          rw (lookup-sync_round (get_key namespace name) (serve m.before_request s.items) c)
            (key_step-IsUnpolled _ _ c q served)))

  handle_info-Waits :
      (w : WorkerPodAutoScaler) (target : Kind × Text) (current available : ℤ)
      (info : Text × ℤ × Float64 × ℤ) (s' : State W)
      → (is_empty info.0 ≡ true) ⊎ (info.1 ≡ unsynced_queue_message_count)
      → handle_info env settings event m w target current available info s' ≡ (Handled.synced, s')
  unfolding handle_info
  handle_info-Waits w target current available (queue_name, messages, sent, idle) s' (inl n) =
      rw n refl
  handle_info-Waits w target current available (queue_name, messages, sent, idle) s' (inr c) =
      let e : eqb_ℤ messages unsynced_queue_message_count ≡ true =
        (eqb_ℤ_iff messages unsynced_queue_message_count).1 c in
      elim (Bool-cases (is_empty queue_name)) [ inl n ↦ rw n refl | inr n ↦ rw n (rw e refl) ]

  after_info-Waits :
      (w : WorkerPodAutoScaler) (target : Kind × Text) (current available : ℤ) (a : Added)
      → IsQuiet (get_key namespace name) a
      → let items = items_after env settings event m a s.items in
        Waits (
          handle_info env settings event m w target current available
            (get_queue_info namespace name items)
            (record s { items = items }))
  after_info-Waits w target current available a q =
      let still = items_after-IsUnpolled a q in
      rw
        (handle_info-Waits w target current available
          (get_queue_info namespace name (items_after env settings event m a s.items))
          (record s { items = items_after env settings event m a s.items })
          (info-IsUnpolled namespace name _ still))
        (refl, still)

  after_added-Waits :
      (w : WorkerPodAutoScaler) (target : Kind × Text) (current available : ℤ) (a : Added)
      → IsQuiet (get_key namespace name) a
      → Waits (after_added env settings event m namespace name w target current available a s)
  after_added-Waits w target current available failed q = (refl, unpolled)
  after_added-Waits w target current available ignored q =
      after_info-Waits w target current available ignored q
  after_added-Waits w target current available (sends r) q =
      after_info-Waits w target current available (sends r) q

  delete-IsQuiet : IsQuiet (get_key namespace name) (sends (delete_queue namespace name))
  unfolding delete_queue request_of
  delete-IsQuiet = (deletes (get_key namespace name), refl, tt)

  queue_request-IsQuiet :
      (w : WorkerPodAutoScaler) (current : ℤ) (e : EventName)
      → IsQuiet
          (get_key namespace name)
          (queue_request env settings event m namespace name w current e s.items)
  queue_request-IsQuiet w current delete_event = delete-IsQuiet
  queue_request-IsQuiet w current add_event =
      add-IsQuiet env.parse s.items namespace name _ current _ unpolled
  queue_request-IsQuiet w current update_event =
      add-IsQuiet env.parse s.items namespace name _ current _ unpolled

  after_replicas-Waits :
      (w : WorkerPodAutoScaler) (target : Kind × Text) (r : Option ℤ) (available : ℤ)
      → Waits (after_replicas env settings event m namespace name w target r available s)
  after_replicas-Waits w target none available = (refl, unpolled)
  after_replicas-Waits w target (some current) available =
      after_added-Waits w target current available _ (queue_request-IsQuiet w current event.name)

  handle_workload-Waits :
      (w : WorkerPodAutoScaler) (target : Kind × Text) (l : Listed Workload)
      → Waits (handle_workload env settings event m namespace name w target l s)
  unfolding handle_workload
  handle_workload-Waits w target missing = (refl, unpolled)
  handle_workload-Waits w target list_failed = (refl, unpolled)
  handle_workload-Waits w target (found runs) =
      after_replicas-Waits w target runs.replicas runs.available_replicas

  handle_autoscaler-Waits :
      (l : Listed WorkerPodAutoScaler)
      → Waits (handle_autoscaler env settings event m namespace name l s)
  unfolding handle_autoscaler
  handle_autoscaler-Waits missing =
      (refl, items_after-IsUnpolled (sends (delete_queue namespace name)) delete-IsQuiet)
  handle_autoscaler-Waits list_failed = (refl, unpolled)
  handle_autoscaler-Waits (found w) = elim (Option-cases (workload_of w.spec)) [
    | inl n ↦ rw (n, handle_autoscaler) (refl, unpolled)
    | inr ((kind, workload), n) ↦
        rw (n, handle_autoscaler) (handle_workload-Waits w (kind, workload) _)
  ]

  -- Where a queue was never polled (it is not in the map, or has no name, or still has the count of
  -- -1), and no other goroutine brings a count of its messages meanwhile, syncHandler sends nothing
  -- to the API server, neither a scaling nor a status, for any event of the queue's autoscaler; and
  -- the queue is one that was never polled afterwards, so this goes on until a poller reports.
  pub handler_waits :
      env.split_key event.key ≡ some (namespace, name)
      → ((sync_handler env settings event m s).1.sent ≡ s.sent)
        × IsUnpolled (lookup (get_key namespace name) (sync_handler env settings event m s).1.items)
  unfolding sync_handler
  handler_waits e =
      rw (e, sync_handler) (handle_autoscaler-Waits (get_autoscaler env namespace name s))
