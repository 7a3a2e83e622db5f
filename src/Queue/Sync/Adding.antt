-- ===== src/Queue/Sync/Adding.antt =====
-- What `Queues.Add` makes of a queue, alone and with other requests between its two steps.
use k8s_worker_pod_autoscale.Base.{
  ◌≡◌, ◌≢◌, refl, ◌∙◌, true, false, Option, some, List, [], ◌∷◌, ◌++◌, Text, is_empty, text_eq_refl,
  if◌then◌else◌, ℤ, lookup, Bool-cases, ◌⊎◌, inl, inr,
}
use k8s_worker_pod_autoscale.Base.Float.{Float64, zero_float}
use k8s_worker_pod_autoscale.Queue.Spec.{
  QueueSpec, Items, unsynced_queue_message_count, unsynced_messages_sent_per_minute,
  unsynced_idle_workers,
}
use k8s_worker_pod_autoscale.Queue.Uri.{
  UrlParser, parse_queue_uri, get_queue_service_name, get_queue_name, get_key,
}
use k8s_worker_pod_autoscale.Queue.Sync.{
  Request, sends, ignored, add, queue_spec, list_queue_by_namespace, list_queue, get_queue_info,
  sync_round,
}
use k8s_worker_pod_autoscale.Queue.Sync.Keys.{
  Call, adds, request_of, key_run, key_step, lookup-sync_round,
}

-- The URI is not empty, can be parsed, and belongs to a service that is supported.
pub record IsSupported (parse : UrlParser) (uri protocol host service : Text) : Type 0 where
  pub present : uri ≢ []
  pub parsed : parse_queue_uri parse uri ≡ some (protocol, host)
  pub served : get_queue_service_name host protocol ≡ (true, service)

pub add-supported :
    (parse : UrlParser) (listed : Items) (namespace name uri : Text) (workers : ℤ)
    (seconds : Float64) {protocol host service : Text}
    → IsSupported parse uri protocol host service
    → add parse listed namespace name uri workers seconds
      ≡ sends (
          request_of (
            adds (get_key namespace name) (
              queue_spec namespace uri protocol host service workers seconds
                (list_queue_by_namespace namespace name listed))))
unfolding add request_of
add-supported parse listed namespace name [] workers seconds s = absurd (s.present refl)
add-supported parse listed namespace name (c ∷ u) workers seconds s =
    rw (s.parsed, add) (rw (s.served))

key_run-append :
    (k : Text) (o : Option QueueSpec) (cs : List Call) (c : Call)
    → key_run k o (cs ++ c ∷ []) ≡ key_step k (key_run k o cs) c
unfolding key_run
key_run-append k o [] c = refl
key_run-append k o (d ∷ cs) c = key_run-append k (key_step k o d) cs c

key_step-adds :
    (k : Text) (o : Option QueueSpec) (spec : QueueSpec) → key_step k o (adds k spec) ≡ some spec
unfolding key_step
key_step-adds k o spec = rw (text_eq_refl k)

info-lookup :
    (namespace name : Text) (item : Items) {spec : QueueSpec}
    → lookup (get_key namespace name) item ≡ some spec
    → is_empty spec.name ≡ false
    → get_queue_info namespace name item
      ≡ (spec.name, spec.messages, spec.messages_sent_per_minute, spec.idle_workers)
unfolding get_queue_info list_queue
info-lookup namespace name item e n = rw (e, list_queue) (rw n)

-- What `GetQueueInfo` says of a queue that was added over `old`.
unfoldable pub added_info : (uri : Text) (old : Text × ℤ × Float64 × ℤ) → Text × ℤ × Float64 × ℤ
added_info uri (n, messages, sent, idle) =
    if is_empty n
    then (
      get_queue_name uri,
      unsynced_queue_message_count,
      unsynced_messages_sent_per_minute,
      unsynced_idle_workers,
    )
    else (get_queue_name uri, messages, sent, idle)

info_of_added :
    (uri : Text) (old : QueueSpec)
    → ◌≡◌ {A = Text × ℤ × Float64 × ℤ}
        (
          get_queue_name uri,
          (if is_empty old.name then unsynced_queue_message_count else old.messages),
          (if is_empty old.name
              then unsynced_messages_sent_per_minute
              else old.messages_sent_per_minute),
          (if is_empty old.name then unsynced_idle_workers else old.idle_workers),
        )
        (added_info uri (
          if is_empty old.name
          then ([], ℤ.pos 0, zero_float, ℤ.pos 0)
          else (old.name, old.messages, old.messages_sent_per_minute, old.idle_workers)))
unfolding added_info
info_of_added uri old = elim (Bool-cases (is_empty old.name)) [ inl e ↦ rw e | inr e ↦ rw e (rw e) ]

queue_spec-info :
    (namespace name uri protocol host service : Text) (workers : ℤ) (seconds : Float64)
    (listed : Items)
    → let spec =
        queue_spec namespace uri protocol host service workers seconds
          (list_queue_by_namespace namespace name listed) in
      ◌≡◌ {A = Text × ℤ × Float64 × ℤ}
        (spec.name, spec.messages, spec.messages_sent_per_minute, spec.idle_workers)
        (added_info uri (get_queue_info namespace name listed))
unfolding queue_spec get_queue_info added_info
queue_spec-info namespace name uri protocol host service workers seconds listed =
    info_of_added uri (list_queue_by_namespace namespace name listed)

-- `Add` of a URI that is supported and has a name makes a request, and once that is served
-- GetQueueInfo reports the new name with the counts that it reported for the map that `Add` had
-- listed, or with the counts of a queue that was never polled if it reported no name then. This
-- holds for whatever map the request meets: what other goroutines changed between the listing and
-- the serving, such as a count that a poller updated, is overwritten.
pub add_then_info :
    (parse : UrlParser) (listed item : Items) (namespace name uri : Text) (workers : ℤ)
    (seconds : Float64) {protocol host service : Text}
    → IsSupported parse uri protocol host service
    → is_empty (get_queue_name uri) ≡ false
    → (r : Request) × (add parse listed namespace name uri workers seconds ≡ sends r)
      × (get_queue_info namespace name (sync_round item r)
          ≡ added_info uri (get_queue_info namespace name listed))
unfolding queue_spec
add_then_info parse listed item namespace name uri workers seconds {protocol} {host} {service} s n =
    let spec =
      queue_spec namespace uri protocol host service workers seconds
        (list_queue_by_namespace namespace name listed) in
    let key = get_key namespace name in
    (
      request_of (adds key spec),
      add-supported parse listed namespace name uri workers seconds s,
      info-lookup namespace name (sync_round item (request_of (adds key spec)))
            (lookup-sync_round key item (adds key spec) ∙ key_step-adds key _ spec) n
          ∙ queue_spec-info namespace name uri protocol host service workers seconds listed,
    )

-- The URI is empty, or it can be parsed and no service is found for it.
abbrev pub IsUnsupported : UrlParser → Text → Type 0
IsUnsupported parse uri =
    (uri ≡ [])
    ⊎ ((protocol host service : Text) × (parse_queue_uri parse uri ≡ some (protocol, host))
        × (get_queue_service_name host protocol ≡ (false, service)))

pub add-IsUnsupported :
    (parse : UrlParser) (listed : Items) (namespace name uri : Text) (workers : ℤ)
    (seconds : Float64)
    → IsUnsupported parse uri
    → add parse listed namespace name uri workers seconds ≡ ignored
unfolding add
add-IsUnsupported parse listed namespace name [] workers seconds h = refl
add-IsUnsupported parse listed namespace name (c ∷ u) workers seconds (inl e) = cc
add-IsUnsupported parse listed namespace name (c ∷ u) workers seconds
      (inr (protocol, host, service, p, q)) =
    rw (p, add) (rw q)
