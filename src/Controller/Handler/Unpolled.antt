-- ===== src/Controller/Handler/Unpolled.antt =====
-- An autoscaler whose queue was not polled yet is left alone.
use k8s_worker_pod_autoscale.Base.{
  ◌≡◌, refl, ◌⊎◌, inl, inr, Bool, true, false, Option, none, some, List, [], ◌∷◌, Text, text_eq,
  is_empty, Bool-cases, ℤ, Option-cases, All, lookup, arith,
}
use k8s_worker_pod_autoscale.Base.Float.{Float64}
use k8s_worker_pod_autoscale.Queue.Spec.{QueueSpec, Items, unsynced_queue_message_count}
use k8s_worker_pod_autoscale.Queue.Uri.{get_key, UrlParser, parse_queue_uri, get_queue_service_name}
use k8s_worker_pod_autoscale.Queue.Sync.{
  Added, sends, add, send_if, sync_round, get_queue_info, list_queue, list_queue_by_namespace,
  queue_spec,
}
use k8s_worker_pod_autoscale.Queue.Sync.Keys.{
  Call, adds, messages_are, messages_sent_are, idle_workers_are, deletes, lists, request_of,
  key_step, lookup-sync_round,
}
use k8s_worker_pod_autoscale.Controller.Inputs.{serve}

-- The queue is not there, has no name, or has the count of one that was not polled.
abbrev pub IsUnpolled : Option QueueSpec → Type 0
IsUnpolled none = Unit
IsUnpolled (some spec) =
    (is_empty spec.name ≡ true) ⊎ (spec.messages ≡ unsynced_queue_message_count)

-- A request that brings no count of the queue's messages.
abbrev pub IsCountless : Text → Call → Type 0
IsCountless k (messages_are key n) = text_eq key k ≡ false
IsCountless k (adds key spec) = (text_eq key k ≡ false) ⊎ IsUnpolled (some spec)
IsCountless k c = Unit

pub key_step-IsUnpolled :
    (k : Text) (o : Option QueueSpec) (c : Call)
    → IsCountless k c
    → IsUnpolled o
    → IsUnpolled (key_step k o c)
unfolding key_step
key_step-IsUnpolled k o (adds key spec) (inl h) u = rw h u
key_step-IsUnpolled k o (adds key spec) (inr h) u = elim (Bool-cases (text_eq key k)) [
  | inl e ↦ rw e h
  | inr e ↦ rw e u
]
key_step-IsUnpolled k o (messages_are key n) h u = rw h u
key_step-IsUnpolled k none (messages_sent_are key x) h u = ground arith
key_step-IsUnpolled k (some spec) (messages_sent_are key x) h u =
    elim (Bool-cases (text_eq key k)) [ inl e ↦ rw e u | inr e ↦ rw e u ]
key_step-IsUnpolled k none (idle_workers_are key n) h u = ground arith
key_step-IsUnpolled k (some spec) (idle_workers_are key n) h u = elim (Bool-cases (text_eq key k)) [
  | inl e ↦ rw e u
  | inr e ↦ rw e u
]
key_step-IsUnpolled k o (deletes key) h u = elim (Bool-cases (text_eq key k)) [
  | inl e ↦ rw e tt
  | inr e ↦ rw e u
]
key_step-IsUnpolled k o lists h u = u

pub serve-IsUnpolled :
    (k : Text) (cs : List Call) (item : Items)
    → All (IsCountless k) cs
    → IsUnpolled (lookup k item)
    → IsUnpolled (lookup k (serve cs item))
unfolding serve
serve-IsUnpolled k [] item h u = u
serve-IsUnpolled k (c ∷ cs) item (h, hs) u =
    serve-IsUnpolled k cs (sync_round item (request_of c)) hs
      (rw (lookup-sync_round k item c) (key_step-IsUnpolled k (lookup k item) c h u))

-- What the handler itself requests.
abbrev pub IsQuiet : Text → Added → Type 0
IsQuiet k (sends r) = (c : Call) × (r ≡ request_of c) × IsCountless k c
IsQuiet k a = Unit

queue_spec-IsUnpolled :
    (namespace name uri protocol host service : Text) (workers : ℤ) (seconds : Float64)
    (item : Items)
    → IsUnpolled (lookup (get_key namespace name) item)
    → IsUnpolled (
        some (
          queue_spec namespace uri protocol host service workers seconds
            (list_queue_by_namespace namespace name item)))
unfolding queue_spec list_queue list_queue_by_namespace
queue_spec-IsUnpolled namespace name uri protocol host service workers seconds item u =
    elim (Option-cases (lookup (get_key namespace name) item)) [
      | inl e ↦ rw (e, list_queue) (inr refl)
      | inr (spec, e) ↦ elim (rw e at u) [
        | inl n ↦ rw (e, list_queue) (rw n (inr refl))
        | inr n ↦ elim (Bool-cases (is_empty spec.name)) [
          | inl b ↦ rw (e, list_queue) (rw b (inr refl))
          | inr b ↦ rw (e, list_queue) (rw b (inr n))
        ]
      ]
    ]

send_if-IsQuiet :
    (r : Bool × Text) (namespace name uri protocol host : Text) (workers : ℤ) (seconds : Float64)
    (item : Items)
    → IsUnpolled (lookup (get_key namespace name) item)
    → IsQuiet
        (get_key namespace name)
        (send_if r namespace name uri protocol host workers seconds item)
unfolding request_of
send_if-IsQuiet (false, service) namespace name uri protocol host workers seconds item u = tt
send_if-IsQuiet (true, service) namespace name uri protocol host workers seconds item u = (
  adds _ _,
  refl,
  inr (queue_spec-IsUnpolled namespace name uri protocol host service workers seconds item u),
)

pub add-IsQuiet :
    (parse : UrlParser) (item : Items) (namespace name uri : Text) (workers : ℤ) (seconds : Float64)
    → IsUnpolled (lookup (get_key namespace name) item)
    → IsQuiet (get_key namespace name) (add parse item namespace name uri workers seconds)
unfolding add
add-IsQuiet parse item namespace name [] workers seconds u = tt
add-IsQuiet parse item namespace name (c ∷ s) workers seconds u =
    elim (Option-cases (parse_queue_uri parse (c ∷ s))) [
      | inl e ↦ rw (e, add) tt
      | inr ((protocol, host), e) ↦
          rw (e, add)
            (send_if-IsQuiet (get_queue_service_name host protocol) namespace name (c ∷ s) protocol
              host workers seconds item u)
    ]

-- GetQueueInfo reports no name or no count.
pub info-IsUnpolled :
    (namespace name : Text) (item : Items)
    → IsUnpolled (lookup (get_key namespace name) item)
    → let info = get_queue_info namespace name item in
      (is_empty info.0 ≡ true) ⊎ (info.1 ≡ unsynced_queue_message_count)
unfolding get_queue_info list_queue list_queue_by_namespace
info-IsUnpolled namespace name item u = elim (Option-cases (lookup (get_key namespace name) item)) [
  | inl e ↦ rw (e, list_queue) (inl refl)
  | inr (spec, e) ↦ elim (Bool-cases (is_empty spec.name)) [
    | inl n ↦ rw (e, list_queue) (rw n (inl refl))
    | inr n ↦ elim (rw e at u) [
      | inl n' ↦ ground (arith, n, n')
      | inr c ↦ rw (e, list_queue) (rw n (inr c))
    ]
  ]
]
