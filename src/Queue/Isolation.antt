-- ===== src/Queue/Isolation.antt =====
-- What the requests of a poll do to the map of queues.
use k8s_worker_pod_autoscale.Base.{
  ◌≡◌, ◌≢◌, refl, ◌∙◌, ap, Option, none, some, List, [], ◌∷◌, map, All, Text, text_eq, text_eq_iff,
  Bool-cases, inl, inr, lookup, is_some, arith,
}
use k8s_worker_pod_autoscale.Queue.Spec.{QueueSpec, Items}
use k8s_worker_pod_autoscale.Queue.Sync.{sync}
use k8s_worker_pod_autoscale.Queue.Sync.Keys.{
  Call, adds, messages_are, messages_sent_are, idle_workers_are, deletes, lists, request_of,
  key_step, key_run, sync_keys, update_some,
}
use k8s_worker_pod_autoscale.Queue.Service.{Action, calls, sleeps, calls_of, Updates}

-- An action of a poll for a queue updates that queue and no other.
abbrev pub ActsOn : Text → Action → Type 0
ActsOn key (calls c) = Updates key c
ActsOn key (sleeps t) = Unit

-- The map after the requests of the actions.
abbrev pub served : List Action → Items → Items
served actions item = sync item (map request_of (calls_of actions))

key_step-other :
    (key k : Text) (o : Option QueueSpec) (c : Call) → Updates key c → k ≢ key → key_step k o c ≡ o
unfolding key_step
key_step-other key k o (adds j spec) h other = elim h [ ]
key_step-other key k o (deletes j) h other = elim h [ ]
key_step-other key k o lists h other = elim h [ ]
key_step-other key k o (messages_are j n) h other = ground (arith, text_eq_iff j k)
key_step-other key k o (messages_sent_are j n) h other = ground (arith, text_eq_iff j k)
key_step-other key k o (idle_workers_are j n) h other = ground (arith, text_eq_iff j k)

update_some-is_some :
    (f : QueueSpec → QueueSpec) (o : Option QueueSpec) → is_some (update_some f o) ≡ is_some o
update_some-is_some f none = refl
update_some-is_some f (some spec) = refl

key_step-is_some :
    (key k : Text) (o : Option QueueSpec) (c : Call)
    → Updates key c
    → is_some (key_step k o c) ≡ is_some o
unfolding key_step
key_step-is_some key k o (adds j spec) h = elim h [ ]
key_step-is_some key k o (deletes j) h = elim h [ ]
key_step-is_some key k o lists h = elim h [ ]
key_step-is_some key k o (messages_are j n) h = elim (Bool-cases (text_eq j k)) [
  | inl e ↦ rw e (update_some-is_some _ o)
  | inr e ↦ rw e refl
]
key_step-is_some key k o (messages_sent_are j n) h = elim (Bool-cases (text_eq j k)) [
  | inl e ↦ rw e (update_some-is_some _ o)
  | inr e ↦ rw e refl
]
key_step-is_some key k o (idle_workers_are j n) h = elim (Bool-cases (text_eq j k)) [
  | inl e ↦ rw e (update_some-is_some _ o)
  | inr e ↦ rw e refl
]

key_run-other :
    (key k : Text) (o : Option QueueSpec) (actions : List Action)
    → All (ActsOn key) actions
    → k ≢ key
    → key_run k o (calls_of actions) ≡ o
unfolding key_run
key_run-other key k o [] h other = refl
key_run-other key k o (calls c ∷ actions) (h, hs) other =
    key_run-other key k (key_step k o c) actions hs other ∙ key_step-other key k o c h other
key_run-other key k o (sleeps t ∷ actions) (h, hs) other = key_run-other key k o actions hs other

key_run-is_some :
    (key k : Text) (o : Option QueueSpec) (actions : List Action)
    → All (ActsOn key) actions
    → is_some (key_run k o (calls_of actions)) ≡ is_some o
unfolding key_run
key_run-is_some key k o [] h = refl
key_run-is_some key k o (calls c ∷ actions) (h, hs) =
    key_run-is_some key k (key_step k o c) actions hs ∙ key_step-is_some key k o c h
key_run-is_some key k o (sleeps t ∷ actions) (h, hs) = key_run-is_some key k o actions hs

-- The effect of actions that update one key.
pub ActsOn-served :
    (key k : Text) (actions : List Action) (item : Items)
    → All (ActsOn key) actions
    → (k ≢ key → lookup k (served actions item) ≡ lookup k item)
      × (is_some (lookup k (served actions item)) ≡ is_some (lookup k item))
ActsOn-served key k actions item h = (
  λ other.
      sync_keys k (calls_of actions) item ∙ key_run-other key k (lookup k item) actions h other,
  ap is_some (sync_keys k (calls_of actions) item)
      ∙ key_run-is_some key k (lookup k item) actions h,
)
