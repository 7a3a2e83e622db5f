-- ===== src/System/Serving.antt =====
-- `syncHandler` as a part of the system: its own requests are among those that the program makes.
use k8s_worker_pod_autoscale.Base.{
  ◌≡◌, refl, Option-cases, inl, inr, Bool, true, false, List, [], ◌∷◌, All, Text, ℤ,
}
use k8s_worker_pod_autoscale.Base.Float.{Float64}
use k8s_worker_pod_autoscale.Api.{WorkerPodAutoScaler}
use k8s_worker_pod_autoscale.Queue.Spec.{QueueSpec, Items}
use k8s_worker_pod_autoscale.Queue.Uri.{get_key, parse_queue_uri}
use k8s_worker_pod_autoscale.Queue.Sync.{
  Request, Added, failed, ignored, sends, add, send_if, queue_spec, list_queue_by_namespace,
  delete_queue,
}
use k8s_worker_pod_autoscale.Queue.Sync.Keys.{Call, adds, deletes, request_of}
use k8s_worker_pod_autoscale.Controller.Cluster.{Env}
use k8s_worker_pod_autoscale.Controller.Inputs.{
  EventName, add_event, update_event, delete_event, Event, Settings, Meanwhile, serve,
}
use k8s_worker_pod_autoscale.Controller.Handler.{items_after, queue_request}
use k8s_worker_pod_autoscale.System.{Outside, Reached, serves, Made, by_delete, by_add}

module _ {W : Type 0} (outside : Outside W) where
  pub serve-Reached :
      (cs : List Call) {item : Items}
      → All (Made outside) cs
      → Reached outside item
      → Reached outside (serve cs item)
  unfolding serve
  serve-Reached [] h r = r
  serve-Reached (c ∷ cs) (made, h) r = serve-Reached cs h (serves made r)

  -- What the handler sends is a request that the program makes.
  abbrev pub IsMade : Added → Type 0
  IsMade (sends r) = (c : Call) × (r ≡ request_of c) × Made outside c
  IsMade a = Unit

  module _ {item : Items} (namespace name : Text) (workers : ℤ) (seconds : Float64)
      (reached : Reached outside item) where
    send_if-adds :
        (uri protocol host : Text) (r : Bool × Text) {a : Request}
        → send_if r namespace name uri protocol host workers seconds item ≡ sends a
        → (key : Text) × (spec : QueueSpec) × (a ≡ request_of (adds key spec))
    unfolding request_of
    send_if-adds uri protocol host (false, service) h = absurd cc
    send_if-adds uri protocol host (true, service) h = (
      get_key namespace name,
      queue_spec namespace uri protocol host service workers seconds
          (list_queue_by_namespace namespace name item),
      cc,
    )

    add-adds :
        (uri : Text) {a : Request}
        → add outside.parse item namespace name uri workers seconds ≡ sends a
        → (key : Text) × (spec : QueueSpec) × (a ≡ request_of (adds key spec))
    unfolding add
    add-adds [] h = absurd cc
    add-adds (c ∷ s) h = elim (Option-cases (parse_queue_uri outside.parse (c ∷ s))) [
      | inl e ↦ absurd (let h' = (rw (e, add) at h) in cc)
      | inr ((protocol, host), e) ↦ send_if-adds (c ∷ s) protocol host _ (rw (e, add) at h)
    ]

    IsMade-of :
        (uri : Text) (a : Added)
        → add outside.parse item namespace name uri workers seconds ≡ a
        → IsMade a
    IsMade-of uri failed e = tt
    IsMade-of uri ignored e = tt
    IsMade-of uri (sends r) e =
        let (key, spec, h) = add-adds uri e in
        (adds key spec, h, by_add namespace name uri workers seconds reached (rw h at e))

module _ {W V : Type 0} (outside : Outside W) (env : Env V) (settings : Settings) (event : Event)
    (m : Meanwhile) (same_parse : env.parse ≡ outside.parse)
    (before_request : All (Made outside) m.before_request)
    (before_info : All (Made outside) m.before_info) where
  pub delete-IsMade : (namespace name : Text) → IsMade outside (sends (delete_queue namespace name))
  unfolding delete_queue request_of
  delete-IsMade namespace name = (deletes _, refl, by_delete namespace name)

  pub queue_request-IsMade :
      (namespace name : Text) (w : WorkerPodAutoScaler) (current : ℤ) (e : EventName) {item : Items}
      → Reached outside item
      → IsMade outside (queue_request env settings event m namespace name w current e item)
  queue_request-IsMade namespace name w current delete_event r = delete-IsMade namespace name
  queue_request-IsMade namespace name w current add_event r =
      rw same_parse (IsMade-of outside namespace name current _ r _ _ refl)
  queue_request-IsMade namespace name w current update_event r =
      rw same_parse (IsMade-of outside namespace name current _ r _ _ refl)

  pub items_after-Reached :
      (a : Added) {item : Items}
      → IsMade outside a
      → Reached outside item
      → Reached outside (items_after env settings event m a item)
  items_after-Reached failed made r =
      serve-Reached outside m.before_info before_info
        (serve-Reached outside m.before_request before_request r)
  items_after-Reached ignored made r =
      serve-Reached outside m.before_info before_info
        (serve-Reached outside m.before_request before_request r)
  items_after-Reached (sends q) (c, e, made) r =
      serve-Reached outside m.before_info before_info
        (rw e (serves made (serve-Reached outside m.before_request before_request r)))

  -- The map that `GetQueueInfo` reads for an event is one that the system reaches.
  pub read-Reached :
      (namespace name : Text) (w : WorkerPodAutoScaler) (current : ℤ) {item : Items}
      → Reached outside item
      → Reached outside (
          items_after env settings event m
            (queue_request env settings event m namespace name w current event.name item)
            item)
  read-Reached namespace name w current r =
      items_after-Reached _ (queue_request-IsMade namespace name w current event.name r) r
