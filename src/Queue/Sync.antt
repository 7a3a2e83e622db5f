-- ===== src/Queue/Sync.antt =====
-- pkg/queue/queue.go: the goroutine that owns the map of queues (`Sync`), and its clients. The
-- requests that arrive on the channels are served one by one, so the state is a fold over them.
pub mod Keys
pub mod Adding
pub mod Tests
use k8s_worker_pod_autoscale.Base.{
  ◌≡◌, Bool, true, false, Option, none, some, List, [], ◌∷◌, Text, codes, text_eq, is_empty,
  if◌then◌else◌, ℤ, Dict, lookup, insert, delete, has_key,
}
use k8s_worker_pod_autoscale.Base.Float.{Float64, zero_float}
use k8s_worker_pod_autoscale.Queue.Spec.{
  QueueSpec, Items, zero_spec, unsynced_queue_message_count, unsynced_messages_sent_per_minute,
  unsynced_idle_workers,
}
use k8s_worker_pod_autoscale.Queue.Uri.{
  UrlParser, parse_queue_uri, get_queue_name, get_key, get_queue_service_name,
}

-- What is received from the channels of `Queues`, one constructor each.
pub data Request : Type 0 where
  add_ch : Items → Request
  update_message_ch : Dict ℤ → Request
  update_message_sent_ch : Dict Float64 → Request
  idle_worker_ch : Dict ℤ → Request
  delete_ch : Text → Request
  list_ch : Request
  stop_ch : Request

-- for key, value := range queueSpecMap { q.item[key] = value }
unfoldable pub add_all : Items → Items → Items
add_all [] item = item
add_all ((key, value) ∷ m) item = add_all m (insert key value item)

-- One round of the loops over updates: a key that is not there is skipped.
unfoldable pub change : Text → (QueueSpec → QueueSpec) → Items → Items
change key f item = elim (lookup key item) [ none ↦ item | some spec ↦ insert key (f spec) item ]

unfoldable pub change_all {ℓ} : {V : Type ℓ} → (V → QueueSpec → QueueSpec) → Dict V → Items → Items
unfolding change
change_all f [] item = item
change_all f ((key, value) ∷ m) item = change_all f m (change key (f value) item)

abbrev pub set_messages : ℤ → QueueSpec → QueueSpec
set_messages value spec = record spec { messages = value }

abbrev pub set_messages_sent : Float64 → QueueSpec → QueueSpec
set_messages_sent value spec = record spec { messages_sent_per_minute = value }

abbrev pub set_idle_workers : ℤ → QueueSpec → QueueSpec
set_idle_workers value spec = record spec { idle_workers = value }

-- One round of `Sync`: the map after it. (What a list request is answered is the map itself,
-- `DeepCopyItem` copies it.) The request on `stopCh` ends the loop.
unfoldable pub sync_round : Items → Request → Items
unfolding add_all change_all
sync_round item (add_ch m) = add_all m item
sync_round item (update_message_ch m) = change_all set_messages m item
sync_round item (update_message_sent_ch m) = change_all set_messages_sent m item
sync_round item (idle_worker_ch m) = change_all set_idle_workers m item
sync_round item (delete_ch key) = if has_key key item then delete key item else item
sync_round item list_ch = item
sync_round item stop_ch = item

abbrev pub is_stop : Request → Bool
is_stop stop_ch = true
is_stop r = false

-- The map when all requests are served, or the loop is stopped.
unfoldable pub sync : Items → List Request → Items
unfolding sync_round
sync item [] = item
sync item (r ∷ rs) = let rest = sync (sync_round item r) rs in if is_stop r then item else rest

unfoldable pub update_message : Text → ℤ → Request
update_message key count = update_message_ch ((key, count) ∷ [])

unfoldable pub update_message_sent : Text → Float64 → Request
update_message_sent key count = update_message_sent_ch ((key, count) ∷ [])

unfoldable pub update_idle_workers : Text → ℤ → Request
update_idle_workers key idle_workers = idle_worker_ch ((key, idle_workers) ∷ [])

-- What `Add` does with the map: an error, nothing, or a request.
pub data Added : Type 0 where
  failed ignored : Added
  sends : Request → Added

-- ListQueue, on the listed map
unfoldable pub list_queue : Text → Items → QueueSpec
list_queue key item = elim (lookup key item) [ none ↦ zero_spec | some spec ↦ spec ]

unfoldable pub list_queue_by_namespace : (namespace name : Text) → Items → QueueSpec
unfolding list_queue
list_queue_by_namespace namespace name item = list_queue (get_key namespace name) item

-- The specification that `Add` sends: counts of a queue that is known are kept.
unfoldable pub queue_spec :
    (namespace uri protocol host service : Text)
    → (workers : ℤ) → (seconds : Float64) → (old : QueueSpec) → QueueSpec
queue_spec namespace uri protocol host service workers seconds old = record {
  name = get_queue_name uri;
  namespace = namespace;
  uri = uri;
  host = host;
  protocol = protocol;
  queue_service_name = service;
  messages = if is_empty old.name then unsynced_queue_message_count else old.messages;
  messages_sent_per_minute =
      if is_empty old.name then unsynced_messages_sent_per_minute else old.messages_sent_per_minute;
  idle_workers = if is_empty old.name then unsynced_idle_workers else old.idle_workers;
  workers = workers;
  seconds_to_process_one_job = seconds;
}

-- Behind the test of the service.
abbrev pub send_if :
    Bool × Text → (namespace name uri protocol host : Text) → ℤ → Float64 → Items → Added
send_if (false, service) namespace name uri protocol host workers seconds listed = ignored
send_if (true, service) namespace name uri protocol host workers seconds listed = sends (
    add_ch (
      (
        get_key namespace name,
        queue_spec namespace uri protocol host service workers seconds
            (list_queue_by_namespace namespace name listed),
      )
      ∷ []))

-- `Add`; `listed` is the map at the time when it asks for the list, which is before the time when
-- its request is served.
unfoldable pub add :
    UrlParser
    → (listed : Items) → (namespace name uri : Text) → (workers : ℤ) → (seconds : Float64) → Added
unfolding parse_queue_uri queue_spec list_queue_by_namespace
add parse listed namespace name [] workers seconds = ignored
add parse listed namespace name (c ∷ s) workers seconds = elim (parse_queue_uri parse (c ∷ s)) [
  | none ↦ failed
  | some (protocol, host) ↦
      send_if (get_queue_service_name host protocol) namespace name (c ∷ s) protocol host workers
        seconds listed
]

-- `Delete`
unfoldable pub delete_queue : (namespace name : Text) → Request
delete_queue namespace name = delete_ch (get_key namespace name)

-- `List`: the queues of one service.
unfoldable pub list : Text → Items → Items
list service [] = []
list service ((key, spec) ∷ m) =
    let rest = list service m in
    if text_eq spec.queue_service_name service then (key, spec) ∷ rest else rest

-- The name, the messages, the messages sent per minute and the idle workers.
unfoldable pub get_queue_info : (namespace name : Text) → Items → Text × ℤ × Float64 × ℤ
unfolding list_queue_by_namespace
get_queue_info namespace name item =
    let spec = list_queue_by_namespace namespace name item in
    if is_empty spec.name
    then ([], ℤ.pos 0, zero_float, ℤ.pos 0)
    else (spec.name, spec.messages, spec.messages_sent_per_minute, spec.idle_workers)
