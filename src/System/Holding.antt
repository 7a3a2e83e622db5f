-- ===== src/System/Holding.antt =====
-- A property of every queue of a map, kept by the requests that keep it for the queue they name.
use k8s_worker_pod_autoscale.Base.{
  Option, none, some, Text, text_eq, text_eq_iff, Bool-cases, inl, inr, lookup,
}
use k8s_worker_pod_autoscale.Queue.Spec.{QueueSpec, Items}
use k8s_worker_pod_autoscale.Queue.Sync.{
  set_messages, set_messages_sent, set_idle_workers, sync_round,
}
use k8s_worker_pod_autoscale.Queue.Sync.Keys.{
  Call, adds, messages_are, messages_sent_are, idle_workers_are, deletes, lists, request_of,
  key_step, update_some, lookup-sync_round,
}

module _ (Q : Text → QueueSpec → Type 0) where
  abbrev pub HoldsAt : Text → Option QueueSpec → Type 0
  HoldsAt key none = Unit
  HoldsAt key (some spec) = Q key spec

  -- The request keeps the property at its own key.
  abbrev pub Keeps : Call → Type 0
  Keeps (adds key spec) = Q key spec
  Keeps (messages_are key n) = (spec : QueueSpec) → Q key spec → Q key (set_messages n spec)
  Keeps (messages_sent_are key x) =
      (spec : QueueSpec) → Q key spec → Q key (set_messages_sent x spec)
  Keeps (idle_workers_are key n) = (spec : QueueSpec) → Q key spec → Q key (set_idle_workers n spec)
  Keeps c = Unit

  update_some-HoldsAt :
      (key : Text) (f : QueueSpec → QueueSpec) (o : Option QueueSpec)
      → ((spec : QueueSpec) → Q key spec → Q key (f spec))
      → HoldsAt key o
      → HoldsAt key (update_some f o)
  update_some-HoldsAt key f none keeps h = tt
  update_some-HoldsAt key f (some spec) keeps h = keeps spec h

  key_step-HoldsAt :
      (k : Text) (o : Option QueueSpec) (c : Call)
      → Keeps c
      → HoldsAt k o
      → HoldsAt k (key_step k o c)
  unfolding key_step
  key_step-HoldsAt k o (adds key spec) keeps h = elim (Bool-cases (text_eq key k)) [
    | inl e ↦ rw e (rw ((text_eq_iff key k).0 e) at keeps)
    | inr e ↦ rw e h
  ]
  key_step-HoldsAt k o (messages_are key n) keeps h = elim (Bool-cases (text_eq key k)) [
    | inl e ↦ rw e (update_some-HoldsAt k _ o (rw ((text_eq_iff key k).0 e) at keeps) h)
    | inr e ↦ rw e h
  ]
  key_step-HoldsAt k o (messages_sent_are key x) keeps h = elim (Bool-cases (text_eq key k)) [
    | inl e ↦ rw e (update_some-HoldsAt k _ o (rw ((text_eq_iff key k).0 e) at keeps) h)
    | inr e ↦ rw e h
  ]
  key_step-HoldsAt k o (idle_workers_are key n) keeps h = elim (Bool-cases (text_eq key k)) [
    | inl e ↦ rw e (update_some-HoldsAt k _ o (rw ((text_eq_iff key k).0 e) at keeps) h)
    | inr e ↦ rw e h
  ]
  key_step-HoldsAt k o (deletes key) keeps h = elim (Bool-cases (text_eq key k)) [
    | inl e ↦ rw e tt
    | inr e ↦ rw e h
  ]
  key_step-HoldsAt k o lists keeps h = h

  -- Every queue of the map has the property.
  abbrev pub HoldsIn : Items → Type 0
  HoldsIn item = (key : Text) → HoldsAt key (lookup key item)

  pub sync_round-HoldsIn :
      (item : Items) (c : Call) → Keeps c → HoldsIn item → HoldsIn (sync_round item (request_of c))
  sync_round-HoldsIn item c keeps h k =
      rw (lookup-sync_round k item c) (key_step-HoldsAt k (lookup k item) c keeps (h k))
