-- ===== src/Queue/Sync/Keys.antt =====
-- Each queue of the map is a state machine of its own: what the requests of the code's methods do
-- to one key depends on that key alone.
use k8s_worker_pod_autoscale.Base.{
  ◌≡◌, refl, ◌∙◌, ap, Bool, false, Option, none, some, List, [], ◌∷◌, map, Text, text_eq,
  text_eq_iff, text_eq_refl, if◌then◌else◌, ℤ, lookup, delete, lookup-insert, lookup-delete,
  has_key-lookup, has_key, Option-cases, arith, inl, inr,
}
use k8s_worker_pod_autoscale.Base.Float.{Float64}
use k8s_worker_pod_autoscale.Queue.Spec.{QueueSpec, Items}
use k8s_worker_pod_autoscale.Queue.Sync.{
  Request, add_ch, delete_ch, list_ch, change, set_messages, set_messages_sent, set_idle_workers,
  sync_round, sync, update_message, update_message_sent, update_idle_workers,
}

-- The requests that the methods of `Queues` make.
pub data Call : Type 0 where
  adds : Text → QueueSpec → Call
  messages_are : Text → ℤ → Call
  messages_sent_are : Text → Float64 → Call
  idle_workers_are : Text → ℤ → Call
  deletes : Text → Call
  lists : Call

unfoldable pub request_of : Call → Request
unfolding update_message update_message_sent update_idle_workers
request_of (adds key spec) = add_ch ((key, spec) ∷ [])
request_of (messages_are key n) = update_message key n
request_of (messages_sent_are key x) = update_message_sent key x
request_of (idle_workers_are key n) = update_idle_workers key n
request_of (deletes key) = delete_ch key
request_of lists = list_ch

abbrev pub update_some : (QueueSpec → QueueSpec) → Option QueueSpec → Option QueueSpec
update_some f none = none
update_some f (some spec) = some (f spec)

-- The machine of the key `k`.
unfoldable pub key_step : Text → Option QueueSpec → Call → Option QueueSpec
key_step k o (adds key spec) = if text_eq key k then some spec else o
key_step k o (messages_are key n) = if text_eq key k then update_some (set_messages n) o else o
key_step k o (messages_sent_are key x) =
    if text_eq key k then update_some (set_messages_sent x) o else o
key_step k o (idle_workers_are key n) =
    if text_eq key k then update_some (set_idle_workers n) o else o
key_step k o (deletes key) = if text_eq key k then none else o
key_step k o lists = o

unfoldable pub key_run : Text → Option QueueSpec → List Call → Option QueueSpec
key_run k o [] = o
key_run k o (c ∷ cs) = key_run k (key_step k o c) cs

pub lookup-change :
    (k key : Text) (f : QueueSpec → QueueSpec) (item : Items)
    → lookup k (change key f item)
      ≡ (if text_eq key k then update_some f (lookup k item) else lookup k item)
unfolding change
lookup-change k key f item = elim (Option-cases (lookup key item)) [
  | inl e ↦ ground (arith, e, text_eq_iff key k)
  | inr (spec, e) ↦ ground (arith, e, text_eq_iff key k, lookup-insert key k (f spec) item)
]

lookup-delete_if :
    (k key : Text) (item : Items)
    → lookup k (if has_key key item then delete key item else item)
      ≡ (if text_eq key k then none else lookup k item)
lookup-delete_if k key item =
    ground (arith, text_eq_iff key k, lookup-delete key k item, has_key-lookup key item)

pub lookup-sync_round :
    (k : Text) (item : Items) (c : Call)
    → lookup k (sync_round item (request_of c)) ≡ key_step k (lookup k item) c
unfolding sync_round request_of key_step
lookup-sync_round k item (adds key spec) = lookup-insert key k spec item
lookup-sync_round k item (messages_are key n) = lookup-change k key (set_messages n) item
lookup-sync_round k item (messages_sent_are key x) = lookup-change k key (set_messages_sent x) item
lookup-sync_round k item (idle_workers_are key n) = lookup-change k key (set_idle_workers n) item
lookup-sync_round k item (deletes key) = lookup-delete_if k key item
lookup-sync_round k item lists = refl

sync-call :
    (item : Items) (c : Call) (rs : List Request)
    → sync item (request_of c ∷ rs) ≡ sync (sync_round item (request_of c)) rs
unfolding sync request_of
sync-call item (adds key spec) rs = refl
sync-call item c rs = refl

-- `Sync` keeps the map of queues as if each key were alone: after any requests of the methods of
-- Queues, in any order and from any number of goroutines, what stands at a key is what the machine
-- of that key makes of them. An addition sets it, a deletion clears it, an update changes one field
-- of a queue that is there, and what names another key changes nothing.
pub sync_keys :
    (k : Text) (cs : List Call) (item : Items)
    → lookup k (sync item (map request_of cs)) ≡ key_run k (lookup k item) cs
unfolding sync key_run
sync_keys k [] item = refl
sync_keys k (c ∷ cs) item =
    ap (lookup k) (sync-call item c (map request_of cs))
    ∙ sync_keys k cs (sync_round item (request_of c))
    ∙ ap (λ o. key_run k o cs) (lookup-sync_round k item c)

-- Whether a call adds the key.
abbrev pub adds_key : Text → Call → Bool
adds_key k (adds key spec) = text_eq key k
adds_key k c = false

abbrev pub Never : (Call → Bool) → List Call → Type 0
Never p [] = Unit
Never p (c ∷ cs) = (p c ≡ false) × Never p cs

key_step-none : (k : Text) (c : Call) → adds_key k c ≡ false → key_step k none c ≡ none
unfolding key_step
key_step-none k (adds key spec) h = ground arith
key_step-none k c h = ground arith

pub key_run-none : (k : Text) (cs : List Call) → Never (adds_key k) cs → key_run k none cs ≡ none
unfolding key_run
key_run-none k [] h = refl
key_run-none k (c ∷ cs) (h, hs) = rw (key_step-none k c h) (key_run-none k cs hs)

-- A queue that is deleted stays deleted: whatever requests follow, such as the updates of a poller
-- that still runs, the key is absent as long as none of them adds it.
pub deleted_stays_deleted :
    (k : Text) (cs : List Call) (item : Items)
    → Never (adds_key k) cs
    → lookup k (sync item (map request_of (deletes k ∷ cs))) ≡ none
unfolding key_run key_step
deleted_stays_deleted k cs item h =
    sync_keys k (deletes k ∷ cs) item
    ∙ ap (λ b. key_run k (if b then none else lookup k item) cs) (text_eq_refl k)
    ∙ key_run-none k cs h
