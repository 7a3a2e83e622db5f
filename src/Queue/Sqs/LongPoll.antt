-- ===== src/Queue/Sqs/LongPoll.antt =====
-- When a poll of SQS is a long one, over the life of a queue in the map.
use mathlib.Core.List.{Memᴰ}
use k8s_worker_pod_autoscale.Base.{
  ◌≡◌, refl, ap, subst, Bool-cases, text_eq_iff, inl, inr, true, false, Option, none, some, List,
  [], ◌∷◌, All, Text, text_eq, if-elim, ℤ, arith,
}
use k8s_worker_pod_autoscale.Base.Float.{Float64, zero_float, feq}
use k8s_worker_pod_autoscale.Queue.Spec.{QueueSpec, zero_spec, unsynced_messages_sent_per_minute}
use k8s_worker_pod_autoscale.Queue.Sync.{queue_spec, set_messages, set_idle_workers}
use k8s_worker_pod_autoscale.Queue.Sync.Keys.{
  Call, adds, messages_are, messages_sent_are, idle_workers_are, deletes, lists, key_step,
}
use k8s_worker_pod_autoscale.Queue.Service.{Action, calls}
use k8s_worker_pod_autoscale.Queue.Sqs.{Aws, Sqs}
use k8s_worker_pod_autoscale.Queue.Sqs.Poll.{Clock, Caches, long_polls, poll}
use k8s_worker_pod_autoscale.Queue.Sqs.Idle.{SendsNoRate, sqs-SendsNoRate}

-- What `ListQueue` returns for an entry.
abbrev pub or_zero_spec : Option QueueSpec → QueueSpec
or_zero_spec none = zero_spec
or_zero_spec (some spec) = spec

-- The entries that a key can have, if every `Add` of it comes with no time for a job
-- (secondsToProcessOneJob is 0, or absent in the resource). The requests of `Add` and of the pollers
-- are served at any time and in any order, for what they read of the entry at some time before.
pub data Untimed (key : Text) : Option QueueSpec → Type 0 where
  absent : Untimed key none
  added :
      {before listed : Option QueueSpec}
      → Untimed key before
      → Untimed key listed
      → (namespace uri protocol host service : Text) → (workers : ℤ) → (seconds : Float64)
      → feq seconds zero_float ≡ true
      → Untimed key (
          key_step key before (
            adds key (
              queue_spec namespace uri protocol host service workers seconds
                (or_zero_spec listed))))
  deleted :
      {before : Option QueueSpec} (k : Text)
      → Untimed key before
      → Untimed key (key_step key before (deletes k))
  counted :
      {before : Option QueueSpec} (k : Text) (n : ℤ)
      → Untimed key before
      → Untimed key (key_step key before (messages_are k n))
  idled :
      {before : Option QueueSpec} (k : Text) (n : ℤ)
      → Untimed key before
      → Untimed key (key_step key before (idle_workers_are k n))
  rated :
      {before : Option QueueSpec} {spec : QueueSpec}
      → Untimed key before
      → Untimed key (some spec)
      → (aws : Aws) (s : Sqs) (clock : Clock) (caches : Caches) (k : Text) (x : Float64)
      → Memᴰ (calls (messages_sent_are k x)) (poll aws s clock key spec caches).actions
      → Untimed key (key_step key before (messages_sent_are k x))

-- A queue without a time for a job, whose rate was never set.
abbrev pub IsUnrated : Option QueueSpec → Type 0
IsUnrated none = Unit
IsUnrated (some spec) =
    (feq spec.seconds_to_process_one_job zero_float ≡ true)
    × (spec.messages_sent_per_minute ≡ unsynced_messages_sent_per_minute)

All-Memᴰ : (P : Action → Type 0) {a : Action} {l : List Action} → All P l → Memᴰ a l → P a
All-Memᴰ P {l = []} h m = elim m [ ]
All-Memᴰ P {l = b ∷ l} (p, ps) (Memᴰ.head e) = rw e p
All-Memᴰ P {l = b ∷ l} (p, ps) (Memᴰ.tail m) = All-Memᴰ P ps m

IsUnrated-added :
    (namespace uri protocol host service : Text) (workers : ℤ) (seconds : Float64)
    (listed : Option QueueSpec)
    → feq seconds zero_float ≡ true
    → IsUnrated listed
    → IsUnrated (
        some (queue_spec namespace uri protocol host service workers seconds (or_zero_spec listed)))
unfolding queue_spec
IsUnrated-added namespace uri protocol host service workers seconds none h u = (h, refl)
IsUnrated-added namespace uri protocol host service workers seconds (some old) h u =
    (h, ground arith)

-- A request other than of a rate keeps a queue unrated.
key_step-IsUnrated :
    (key : Text) (o : Option QueueSpec) (c : Call)
    → IsUnrated o
    → SendsNoRate (calls c)
    → ((spec : QueueSpec) → c ≡ adds key spec → IsUnrated (some spec))
    → IsUnrated (key_step key o c)
unfolding key_step
key_step-IsUnrated key o (adds k spec) u s new = elim (Bool-cases (text_eq k key)) [
  | inl e ↦ rw e (new spec (ap (λ j. adds j spec) ((text_eq_iff k key).0 e)))
  | inr e ↦ rw e u
]
key_step-IsUnrated key none (messages_are k n) u s new =
    if-elim IsUnrated (text_eq k key) (λ _. tt) (λ _. tt)
key_step-IsUnrated key (some spec) (messages_are k n) u s new =
    if-elim IsUnrated (text_eq k key) {x = some (set_messages n spec)} {y = some spec} (λ _. u)
      (λ _. u)
key_step-IsUnrated key o (messages_sent_are k x) u s new = absurd s
key_step-IsUnrated key none (idle_workers_are k n) u s new =
    if-elim IsUnrated (text_eq k key) (λ _. tt) (λ _. tt)
key_step-IsUnrated key (some spec) (idle_workers_are k n) u s new =
    if-elim IsUnrated (text_eq k key) {x = some (set_idle_workers n spec)} {y = some spec} (λ _. u)
      (λ _. u)
key_step-IsUnrated key o (deletes k) u s new =
    if-elim IsUnrated (text_eq k key) {x = none} {y = o} (λ _. tt) (λ _. u)
key_step-IsUnrated key o lists u s new = u

adds-injective : {j k : Text} {a b : QueueSpec} → adds j a ≡ adds k b → a ≡ b
adds-injective h = cc

Untimed-IsUnrated : {key : Text} {o : Option QueueSpec} → Untimed key o → IsUnrated o
Untimed-IsUnrated absent = tt
Untimed-IsUnrated {key}
      (added {before} {listed} b l namespace uri protocol host service workers seconds h) =
    key_step-IsUnrated key before _ (Untimed-IsUnrated b) tt λ spec e.
      subst (λ r. IsUnrated (some r)) (adds-injective e)
        (IsUnrated-added namespace uri protocol host service workers seconds listed h
          (Untimed-IsUnrated l))
Untimed-IsUnrated {key} (deleted {before} k b) =
    key_step-IsUnrated key before (deletes k) (Untimed-IsUnrated b) tt (λ spec e. cc)
Untimed-IsUnrated {key} (counted {before} k n b) =
    key_step-IsUnrated key before (messages_are k n) (Untimed-IsUnrated b) tt (λ spec e. cc)
Untimed-IsUnrated {key} (idled {before} k n b) =
    key_step-IsUnrated key before (idle_workers_are k n) (Untimed-IsUnrated b) tt (λ spec e. cc)
Untimed-IsUnrated {key} (rated {before} {spec} b p aws s clock caches k x m) =
    absurd
      (All-Memᴰ SendsNoRate (sqs-SendsNoRate aws s clock key spec caches (Untimed-IsUnrated p).0) m)

unsynced-ne-zero : feq unsynced_messages_sent_per_minute zero_float ≡ false
unfolding feq unsynced_messages_sent_per_minute
unsynced-ne-zero = refl

-- A queue whose autoscaler gives no time for a job is never polled by the long poll of SQS, even if
-- it has no workers and no messages: its rate of messages stays at the -1 of a queue that was not
-- polled yet, since only a queue with such a time is asked for its rate, and the long poll wants 0.
pub Untimed-never_long_polls :
    {key : Text} {spec : QueueSpec} → Untimed key (some spec) → long_polls spec ≡ false
unfolding long_polls
Untimed-never_long_polls {spec} u =
    let rate : feq spec.messages_sent_per_minute zero_float ≡ false =
      rw ((Untimed-IsUnrated u).1) unsynced-ne-zero in
    ground arith
