-- ===== src/Queue/Sqs/Idle.antt =====
-- What a poll of SQS says of the workers, and of which queue.
use k8s_worker_pod_autoscale.Base.{
  ◌≡◌, ◌≢◌, lookup, is_some, refl, ◌⊎◌, inl, inr, true, Bool-cases, [], All, Text, ℤ, pos,
  minus_one, ◌≤ℤ◌,
}
use k8s_worker_pod_autoscale.Base.Float.{Float64, zero_float, feq}
use k8s_worker_pod_autoscale.Queue.Spec.{QueueSpec, Items}
use k8s_worker_pod_autoscale.Queue.Sync.Keys.{messages_sent_are, idle_workers_are}
use k8s_worker_pod_autoscale.Queue.Service.{Action, calls}
use k8s_worker_pod_autoscale.Queue.Isolation.{ActsOn, served, ActsOn-served}
use k8s_worker_pod_autoscale.Queue.Sqs.{
  ok, Aws, Sqs, get_approx_messages, get_approx_messages_not_visible,
}
use k8s_worker_pod_autoscale.Queue.Sqs.Poll.{Caches, Clock, poll}
use k8s_worker_pod_autoscale.Queue.Sqs.Allowed.{All-poll, received_number}

-- What an action says of idle workers.
abbrev pub IdleReason : Aws → Sqs → Clock → QueueSpec → Caches → Action → Type 0
IdleReason aws s clock spec caches (calls (idle_workers_are k n)) =
    (n ≡ minus_one)
    ⊎ (n ≡ pos 0)
    ⊎ ((n ≡ spec.workers)
        × (get_approx_messages aws s spec.uri ≡ ok (pos 0))
        × ((not_visible : ℤ) × (get_approx_messages_not_visible aws s spec.uri ≡ ok not_visible)
            × (not_visible ≤ℤ pos 0))
        × ((received : Float64) × (received_number aws s clock [] spec caches ≡ ok received)
            × (feq received zero_float ≡ true)))
IdleReason aws s clock spec caches a = Unit

-- Whatever AWS answers, a poll of SQS reports idle workers other than none (0) and unknown (-1) only
-- if no message was visible, none was in flight, and none was received as far as CloudWatch or its
-- cache tell; then it reports all workers of the queue as idle.
pub sqs_idle_only_if_quiet :
    (aws : Aws) (s : Sqs) (clock : Clock) (key : Text) (spec : QueueSpec) (caches : Caches)
    → All (IdleReason aws s clock spec caches) (poll aws s clock key spec caches).actions
sqs_idle_only_if_quiet aws s clock key spec caches =
    All-poll aws s clock key spec caches _ (record {
      idle_unknown = inl refl;
      messages = λ n fits. tt;
      messages_sent = λ x h. tt;
      sleeping = λ t. tt;
      idle = λ flying received e f g r. elim (Bool-cases (feq received zero_float)) [
        | inl z ↦ inr (inr (rw z refl, e, (flying, f, g), (received, r, z)))
        | inr z ↦ inr (inl (rw z refl))
      ];
    })

pub sqs-ActsOn :
    (aws : Aws) (s : Sqs) (clock : Clock) (key : Text) (spec : QueueSpec) (caches : Caches)
    → All (ActsOn key) (poll aws s clock key spec caches).actions
sqs-ActsOn aws s clock key spec caches = All-poll aws s clock key spec caches _ (record {
  idle_unknown = refl;
  messages = λ n fits. refl;
  messages_sent = λ x h. refl;
  sleeping = λ t. tt;
  idle = λ flying received e f g r. refl;
})

-- A poll of SQS, whatever AWS answers, leaves every other queue of the map as it was, and neither
-- adds nor removes its own: once its requests are served, each key has a queue exactly if it had one.
sqs_poll_isolated :
    (aws : Aws) (s : Sqs) (clock : Clock) (key : Text) (spec : QueueSpec) (caches : Caches)
    (k : Text) (item : Items)
    → let after = served (poll aws s clock key spec caches).actions item in
      (k ≢ key → lookup k after ≡ lookup k item)
      × (is_some (lookup k after) ≡ is_some (lookup k item))
sqs_poll_isolated aws s clock key spec caches k item =
    ActsOn-served key k _ item (sqs-ActsOn aws s clock key spec caches)

abbrev pub SendsNoRate : Action → Type 0
SendsNoRate (calls (messages_sent_are k x)) = ⊥
SendsNoRate a = Unit

pub sqs-SendsNoRate :
    (aws : Aws) (s : Sqs) (clock : Clock) (key : Text) (spec : QueueSpec) (caches : Caches)
    → feq spec.seconds_to_process_one_job zero_float ≡ true
    → All SendsNoRate (poll aws s clock key spec caches).actions
sqs-SendsNoRate aws s clock key spec caches untimed =
    All-poll aws s clock key spec caches _ (record {
      idle_unknown = tt;
      messages = λ n fits. tt;
      messages_sent = λ x h. cc;
      sleeping = λ t. tt;
      idle = λ flying received e f g r. tt;
    })
