-- ===== src/Controller/Handler/Unsupported.antt =====
-- A queue whose URI is changed to one that is not supported: `Add` ignores it, and the old queue is
-- used on.
use k8s_worker_pod_autoscale.Base.{
  ◌≡◌, refl, ◌∙◌, ap, false, Option, some, List, [], ◌∷◌, All, Text, text_eq, ℤ, lookup,
}
use k8s_worker_pod_autoscale.Api.{WorkerPodAutoScaler}
use k8s_worker_pod_autoscale.Queue.Spec.{QueueSpec, Items}
use k8s_worker_pod_autoscale.Queue.Uri.{get_key}
use k8s_worker_pod_autoscale.Queue.Sync.{
  ignored, get_queue_info, list_queue, list_queue_by_namespace,
}
use k8s_worker_pod_autoscale.Queue.Sync.Adding.{IsUnsupported, add-IsUnsupported}
use k8s_worker_pod_autoscale.Queue.Sync.Keys.{
  Call, adds, messages_are, messages_sent_are, idle_workers_are, deletes, lists, key_step, key_run,
}
use k8s_worker_pod_autoscale.Queue.Poller.{Threads, poll_round}
use k8s_worker_pod_autoscale.Controller.Cluster.{
  Kind, Workload, State, Env, found, get_autoscaler, get_workload,
}
use k8s_worker_pod_autoscale.Controller.Inputs.{
  EventName, add_event, update_event, delete_event, Event, Settings, Meanwhile, serve, workload_of,
}
use k8s_worker_pod_autoscale.Controller.Handler.{
  handle_info, handle_workload, handle_autoscaler, sync_handler, queue_request,
}
use k8s_worker_pod_autoscale.Controller.Handler.Gone.{lookup-serve}

-- A request that is about another key than `k`, or none.
abbrev pub IsElsewhere : Text → Call → Type 0
IsElsewhere k (adds key spec) = text_eq key k ≡ false
IsElsewhere k (messages_are key n) = text_eq key k ≡ false
IsElsewhere k (messages_sent_are key x) = text_eq key k ≡ false
IsElsewhere k (idle_workers_are key n) = text_eq key k ≡ false
IsElsewhere k (deletes key) = text_eq key k ≡ false
IsElsewhere k lists = Unit

key_step-IsElsewhere :
    (k : Text) (o : Option QueueSpec) (c : Call) → IsElsewhere k c → key_step k o c ≡ o
unfolding key_step
key_step-IsElsewhere k o (adds key spec) h = rw h refl
key_step-IsElsewhere k o (messages_are key n) h = rw h refl
key_step-IsElsewhere k o (messages_sent_are key x) h = rw h refl
key_step-IsElsewhere k o (idle_workers_are key n) h = rw h refl
key_step-IsElsewhere k o (deletes key) h = rw h refl
key_step-IsElsewhere k o lists h = refl

key_run-IsElsewhere :
    (k : Text) (o : Option QueueSpec) (cs : List Call) → All (IsElsewhere k) cs → key_run k o cs ≡ o
unfolding key_run
key_run-IsElsewhere k o [] h = refl
key_run-IsElsewhere k o (c ∷ cs) (h, hs) =
    ap (λ p. key_run k p cs) (key_step-IsElsewhere k o c h) ∙ key_run-IsElsewhere k o cs hs

serve-IsElsewhere :
    (k : Text) (cs : List Call) (item : Items)
    → All (IsElsewhere k) cs
    → lookup k (serve cs item) ≡ lookup k item
serve-IsElsewhere k cs item h = lookup-serve k cs item ∙ key_run-IsElsewhere k _ cs h

info-lookup :
    (namespace name : Text) (a b : Items)
    → lookup (get_key namespace name) a ≡ lookup (get_key namespace name) b
    → get_queue_info namespace name a ≡ get_queue_info namespace name b
unfolding get_queue_info list_queue_by_namespace list_queue
info-lookup namespace name a b e = rw (e, list_queue) refl

poll_round-lookup :
    (key : Text) (threads : Threads) (a b : Items)
    → lookup key a ≡ lookup key b
    → poll_round key threads a ≡ poll_round key threads b
unfolding poll_round list_queue
poll_round-lookup key threads a b e = rw (e, list_queue) refl

module _ {W : Type 0} (env : Env W) (settings : Settings) (event : Event) (m : Meanwhile) where
  request-ignored :
      (namespace name : Text) (w : WorkerPodAutoScaler) (current : ℤ) (e : EventName) (item : Items)
      → IsUnsupported env.parse w.spec.queue_uri
      → ¬ (e ≡ delete_event)
      → queue_request env settings event m namespace name w current e item ≡ ignored
  request-ignored namespace name w current add_event item u h =
      add-IsUnsupported env.parse item namespace name w.spec.queue_uri current _ u
  request-ignored namespace name w current update_event item u h =
      add-IsUnsupported env.parse item namespace name w.spec.queue_uri current _ u
  request-ignored namespace name w current delete_event item u h = absurd (h refl)

  -- An autoscaler whose URI is empty or of no supported service is handled by what the map already has
  -- for its key. For an event that is no deletion, of an autoscaler that is listed and whose workload is,
  -- with a number of replicas, syncHandler goes on with what GetQueueInfo says for the key. This is what
  -- it said of the map when the handler began, and a poller of the key finds the same as then, as long as
  -- the requests that other goroutines make meanwhile are about other keys.
  pub unsupported_keeps_queue :
      (s : State W) (namespace name : Text) (w : WorkerPodAutoScaler) (kind : Kind)
      (workload : Text) (runs : Workload) (current : ℤ)
      → env.split_key event.key ≡ some (namespace, name)
      → get_autoscaler env namespace name s ≡ found w
      → workload_of w.spec ≡ some (kind, workload)
      → get_workload env kind w.namespace workload s ≡ found runs
      → runs.replicas ≡ some current
      → ¬ (event.name ≡ delete_event)
      → IsUnsupported env.parse w.spec.queue_uri
      → All (IsElsewhere (get_key namespace name)) m.before_request
      → All (IsElsewhere (get_key namespace name)) m.before_info
      → let items = serve m.before_info (serve m.before_request s.items) in
        (sync_handler env settings event m s
          ≡ handle_info env settings event m w
              (kind, workload)
              current
              runs.available_replicas
              (get_queue_info namespace name s.items)
              (record s { items = items }))
        × (get_queue_info namespace name items ≡ get_queue_info namespace name s.items)
        × ((threads : Threads)
            → poll_round (get_key namespace name) threads items
              ≡ poll_round (get_key namespace name) threads s.items)
  unfolding sync_handler handle_autoscaler handle_workload
  unsupported_keeps_queue s namespace name w kind workload runs current split listed named running
        counted kept u before_request before_info =
      let key = get_key namespace name in
      let same =
        serve-IsElsewhere key m.before_info (serve m.before_request s.items) before_info
        ∙ serve-IsElsewhere key m.before_request s.items before_request in
      let told = info-lookup namespace name _ s.items same in
      (
        rw (split, sync_handler)
            (rw (listed, handle_autoscaler)
              (rw (named, handle_autoscaler)
                (rw (running, handle_workload)
                  (rw counted (
                    rw (request-ignored namespace name w current event.name s.items u kept)
                      (rw told refl)))))),
        told,
        λ threads. poll_round-lookup key threads _ s.items same,
      )
