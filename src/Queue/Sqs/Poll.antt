-- ===== src/Queue/Sqs/Poll.antt =====
-- pkg/queue/sqs.go: `poll`.
use k8s_worker_pod_autoscale.Base.{
  Bool, true, false, none, some, List, [], ◌∷◌, ◌++◌, Text, codes, text_eq, if◌then◌else◌, ◌&&◌,
  not, ℤ, pos, minus_one, ◌+ℤ◌, ltb_ℤ, eqb_ℤ, wrap32,
}
use k8s_worker_pod_autoscale.Base.Float.{Float64, zero_float, feq}
use k8s_worker_pod_autoscale.Queue.Spec.{QueueSpec}
use k8s_worker_pod_autoscale.Queue.Sync.Keys.{messages_are, messages_sent_are, idle_workers_are}
use k8s_worker_pod_autoscale.Queue.Service.{Action, calls, sleeps}
use k8s_worker_pod_autoscale.Queue.Sqs.{
  AwsError, ok, err, panics, Aws, Sqs, long_poll_receive_message, get_approx_messages,
  get_approx_messages_not_visible, get_number_of_messages_received,
  get_average_number_of_messages_sent,
}
use k8s_worker_pod_autoscale.Queue.Sqs.Cache.{Cache, cached_number}

-- The caches of the sent and of the received messages.
pub record Caches : Type 0 where
  pub sent : Cache
  pub received : Cache

-- The times that a poll reads, in the order in which it may read them.
pub record Clock : Type 0 where
  pub sent_before : ℤ
  pub sent_now : ℤ
  pub sent_query : ℤ
  pub received_before : ℤ
  pub received_now : ℤ
  pub received_query : ℤ

-- What a poll did, the caches it left, and whether it ended in a panic.
pub record Polled : Type 0 where
  pub actions : List Action
  pub caches : Caches
  pub panicked : Bool

abbrev pub done : List Action → Caches → Polled
done actions caches = record { actions = actions; caches = caches; panicked = false }

abbrev pub crashed : List Action → Caches → Polled
crashed actions caches = record { actions = actions; caches = caches; panicked = true }

-- sqs.ErrCodeQueueDoesNotExist
abbrev pub queue_does_not_exist : Text
queue_does_not_exist = codes "AWS.SimpleQueueService.NonExistentQueue"

abbrev pub has_code : AwsError → Text → Bool
has_code e c = elim e.code [ none ↦ false | some d ↦ text_eq d c ]

-- No workers, no messages, none sent: the poll is a long one.
unfoldable pub long_polls : QueueSpec → Bool
long_polls spec =
    eqb_ℤ spec.workers (pos 0)
    && (eqb_ℤ spec.messages (pos 0) && feq spec.messages_sent_per_minute zero_float)

-- Behind `if numberOfMessagesReceived == 0.0`.
abbrev pub idle_workers_of : QueueSpec → Float64 → ℤ
idle_workers_of spec received = if feq received zero_float then spec.workers else pos 0

module _ (aws : Aws) (s : Sqs) (clock : Clock) (key : Text) (spec : QueueSpec) where
  -- The body of the first `if`.
  unfoldable pub poll_long : Caches → Polled
  poll_long caches =
      let start = calls (idle_workers_are key minus_one) in
      elim (long_poll_receive_message aws s spec.uri) [
        | ok received ↦ done (start ∷ calls (messages_are key received) ∷ []) caches
        | err e ↦ done (start ∷ []) caches
        | panics ↦ crashed (start ∷ []) caches
      ]

  -- From the call of `cachedNumberOfReceiveMessages` on, behind the actions `before`.
  unfoldable pub poll_received : List Action → Caches → Polled
  poll_received before caches =
      let (reply, cache) =
        cached_number caches.received spec.uri clock.received_before clock.received_now
          (get_number_of_messages_received aws s clock.received_query spec.uri) in
      let caches' = record caches { received = cache } in
      elim reply [
        | ok received ↦
            done
              (before
                ++ (calls (idle_workers_are key (idle_workers_of spec received))
                    ∷ sleeps s.short_poll_interval
                    ∷ []))
              caches'
        | err e ↦ done (before ++ (sleeps (pos 100_000_000) ∷ [])) caches'
        | panics ↦ crashed before caches'
      ]

  -- Once both counts are known.
  unfoldable pub poll_counted : List Action → Caches → (visible not_visible : ℤ) → Polled
  poll_counted before caches visible not_visible =
      let counted = before ++ (calls (messages_are key (wrap32 (visible +ℤ not_visible))) ∷ []) in
      if not (eqb_ℤ visible (pos 0))
      then done
          (counted ++ (calls (idle_workers_are key minus_one) ∷ sleeps s.short_poll_interval ∷ []))
          caches
      else if ltb_ℤ (pos 0) not_visible
      then done (counted ++ (sleeps s.short_poll_interval ∷ [])) caches
      else poll_received counted caches

  -- From the call of `getApproxMessages` on.
  unfoldable pub poll_messages : List Action → Caches → Polled
  poll_messages before caches = elim (get_approx_messages aws s spec.uri) [
    | ok visible ↦ elim (get_approx_messages_not_visible aws s spec.uri) [
      | ok not_visible ↦ poll_counted before caches visible not_visible
      | err e ↦ done before caches
      | panics ↦ crashed before caches
    ]
    | err e ↦
        if has_code e queue_does_not_exist
        then done (before ++ (sleeps (pos 20_000_000_000) ∷ [])) caches
        else done before caches
    | panics ↦ crashed before caches
  ]

  -- From `if queueSpec.secondsToProcessOneJob != 0.0` on.
  unfoldable pub poll_short : Caches → Polled
  poll_short caches =
      let (reply, cache) =
        cached_number caches.sent spec.uri clock.sent_before clock.sent_now
          (get_average_number_of_messages_sent aws s clock.sent_query spec.uri) in
      let caches' = record caches { sent = cache } in
      if feq spec.seconds_to_process_one_job zero_float
      then poll_messages [] caches
      else elim reply [
        | ok sent ↦ poll_messages (calls (messages_sent_are key sent) ∷ []) caches'
        | err e ↦ done [] caches'
        | panics ↦ crashed [] caches'
      ]

  unfoldable pub poll : Caches → Polled
  poll caches = if long_polls spec then poll_long caches else poll_short caches
