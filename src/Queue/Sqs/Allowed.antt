-- ===== src/Queue/Sqs/Allowed.antt =====
-- The places of a poll of SQS where it acts, and what is known there.
use k8s_worker_pod_autoscale.Base.{
  ◌≡◌, refl, ◌⊎◌, inl, inr, false, List, [], ◌∷◌, ◌++◌, All, All-append, Text, if-elim, not, ℤ, pos,
  minus_one, ◌+ℤ◌, ◌≤ℤ◌, ltb_ℤ, eqb_ℤ, eq_of_parts, wrap32, wrap32-IsInt32, IsInt32, arith,
}
use k8s_worker_pod_autoscale.Base.Float.{Float64, zero_float, feq}
use k8s_worker_pod_autoscale.Queue.Spec.{QueueSpec}
use k8s_worker_pod_autoscale.Queue.Sync.Keys.{messages_are, messages_sent_are, idle_workers_are}
use k8s_worker_pod_autoscale.Queue.Service.{Action, calls, sleeps}
use k8s_worker_pod_autoscale.Queue.Sqs.{
  AwsError, Reply, ok, err, panics, Aws, Sqs, long_poll_receive_message, get_approx_messages,
  get_approx_messages_not_visible, get_number_of_messages_received,
  get_average_number_of_messages_sent, get_sqs_client,
}
use k8s_worker_pod_autoscale.Queue.Sqs.Cache.{cached_number}
use k8s_worker_pod_autoscale.Queue.Sqs.Poll.{
  Caches, Clock, Polled, has_code, queue_does_not_exist, long_polls, idle_workers_of, poll_long,
  poll_received, poll_counted, poll_messages, poll_short, poll,
}

Reply-cases {ℓ} :
    {A : Type ℓ} (r : Reply A)
    → ((a : A) × (r ≡ ok a)) ⊎ ((e : AwsError) × (r ≡ err e)) ⊎ (r ≡ panics)
Reply-cases (ok a) = inl (a, refl)
Reply-cases (err e) = inr (inl (e, refl))
Reply-cases panics = inr (inr refl)

-- The number of messages that a long poll received is an int32.
received-IsInt32 :
    (aws : Aws) (s : Sqs) (uri : Text) (n : ℤ)
    → long_poll_receive_message aws s uri ≡ ok n
    → IsInt32 n
unfolding long_poll_receive_message
received-IsInt32 aws s uri n h = elim (Reply-cases (get_sqs_client s uri)) [
  | inr (inl (x, e)) ↦ absurd (let h' = (rw (e, long_poll_receive_message) at h) in cc)
  | inr (inr e) ↦ absurd (let h' = (rw (e, long_poll_receive_message) at h) in cc)
  | inl (region, e) ↦ elim (Reply-cases (aws.receive_message region uri s.long_poll_interval)) [
    | inr (inl (x, f)) ↦ absurd (let h' = (rw f at (rw (e, long_poll_receive_message) at h)) in cc)
    | inr (inr f) ↦ absurd (let h' = (rw f at (rw (e, long_poll_receive_message) at h)) in cc)
    | inl (k, f) ↦
        let h' : ok (wrap32 (pos k)) ≡ ok n = (rw f at (rw (e, long_poll_receive_message) at h)) in
        let same : wrap32 (pos k) ≡ n = cc in rw⁻¹ same (wrap32-IsInt32 (pos k))
  ]
]

module _ (aws : Aws) (s : Sqs) (clock : Clock) (key : Text) (spec : QueueSpec)
    (caches₀ : Caches) where
  -- The number that `cachedNumberOfReceiveMessages` returns.
  abbrev pub received_number : Reply Float64
  received_number =
      (cached_number caches₀.received spec.uri clock.received_before clock.received_now
        (get_number_of_messages_received aws s clock.received_query spec.uri)).0

  -- Why a poll may do something.
  pub record Allows {ℓ} (P : Action → Type ℓ) : Type ℓ where
    pub idle_unknown : P (calls (idle_workers_are key minus_one))
    pub messages : (n : ℤ) → IsInt32 n → P (calls (messages_are key n))
    pub messages_sent :
        (x : Float64)
        → feq spec.seconds_to_process_one_job zero_float ≡ false
        → P (calls (messages_sent_are key x))
    pub sleeping : (t : ℤ) → P (sleeps t)
    pub idle :
        (not_visible : ℤ) (received : Float64)
        → get_approx_messages aws s spec.uri ≡ ok (pos 0)
        → get_approx_messages_not_visible aws s spec.uri ≡ ok not_visible
        → not_visible ≤ℤ pos 0
        → received_number ≡ ok received
        → P (calls (idle_workers_are key (idle_workers_of spec received)))

  module _ {ℓ} (P : Action → Type ℓ) (allows : Allows P) where
    All-poll_long : (c : Caches) → All P (poll_long aws s clock key spec c).actions
    unfolding poll_long
    All-poll_long c = elim (Reply-cases (long_poll_receive_message aws s spec.uri)) [
      | inl (n, e) ↦
          rw (e, poll_long)
            (allows.idle_unknown, (allows.messages n (received-IsInt32 aws s spec.uri n e), tt))
      | inr (inl (x, e)) ↦ rw (e, poll_long) (allows.idle_unknown, tt)
      | inr (inr e) ↦ rw (e, poll_long) (allows.idle_unknown, tt)
    ]

    All-poll_received :
        (before : List Action) (c : Caches) (not_visible : ℤ)
        → All P before
        → c.received ≡ caches₀.received
        → get_approx_messages aws s spec.uri ≡ ok (pos 0)
        → get_approx_messages_not_visible aws s spec.uri ≡ ok not_visible
        → not_visible ≤ℤ pos 0
        → All P (poll_received aws s clock key spec before c).actions
    unfolding poll_received
    All-poll_received before c not_visible h same none_visible counted none_flying =
        elim (Reply-cases received_number) [
          | inl (n, e) ↦ rw same (
              rw (e, poll_received)
                (All-append P before _ h (
                  allows.idle not_visible n none_visible counted none_flying e,
                  (allows.sleeping s.short_poll_interval, tt),
                )))
          | inr (inl (x, e)) ↦ rw same (
              rw (e, poll_received)
                (All-append P before _ h (allows.sleeping (pos 100_000_000), tt)))
          | inr (inr e) ↦ rw same (rw (e, poll_received) h)
        ]

    All-poll_counted :
        (before : List Action) (c : Caches) (visible not_visible : ℤ)
        → All P before
        → c.received ≡ caches₀.received
        → get_approx_messages aws s spec.uri ≡ ok visible
        → get_approx_messages_not_visible aws s spec.uri ≡ ok not_visible
        → All P (poll_counted aws s clock key spec before c visible not_visible).actions
    unfolding poll_counted
    All-poll_counted before c visible not_visible h same some_visible counted =
        let h' : All P
            (before ++ (calls (messages_are key (wrap32 (visible +ℤ not_visible))) ∷ [])) =
          All-append P before _ h
            (allows.messages _ (wrap32-IsInt32 (visible +ℤ not_visible)), tt) in
        if-elim (λ p. All P (Polled.actions p)) (not (eqb_ℤ visible (pos 0)))
          (λ _.
            All-append P (before ++ _) _ h'
              (allows.idle_unknown, (allows.sleeping s.short_poll_interval, tt)))
          (λ no_visible.
            if-elim (λ p. All P (Polled.actions p)) (ltb_ℤ (pos 0) not_visible)
              (λ _. All-append P (before ++ _) _ h' (allows.sleeping s.short_poll_interval, tt))
              (λ no_flying.
                let zero_visible : visible ≡ pos 0 = eq_of_parts visible (pos 0) (ground arith) in
                All-poll_received _ c not_visible h' same (rw zero_visible at some_visible) counted
                  (ground arith)))

    All-poll_messages :
        (before : List Action) (c : Caches)
        → All P before
        → c.received ≡ caches₀.received
        → All P (poll_messages aws s clock key spec before c).actions
    unfolding poll_messages
    All-poll_messages before c h same = elim (Reply-cases (get_approx_messages aws s spec.uri)) [
      | inl (visible, e) ↦ elim (Reply-cases (get_approx_messages_not_visible aws s spec.uri)) [
        | inl (flying, f) ↦
            rw (e, poll_messages)
              (rw (f, poll_messages) (All-poll_counted before c visible flying h same e f))
        | inr (inl (x, f)) ↦ rw (e, poll_messages) (rw (f, poll_messages) h)
        | inr (inr f) ↦ rw (e, poll_messages) (rw (f, poll_messages) h)
      ]
      | inr (inl (x, e)) ↦
          rw (e, poll_messages)
            (if-elim (λ p. All P (Polled.actions p)) (has_code x queue_does_not_exist)
              (λ _. All-append P before _ h (allows.sleeping (pos 20_000_000_000), tt)) (λ _. h))
      | inr (inr e) ↦ rw (e, poll_messages) h
    ]

    sent_reply : Reply Float64
    sent_reply =
        (cached_number caches₀.sent spec.uri clock.sent_before clock.sent_now
          (get_average_number_of_messages_sent aws s clock.sent_query spec.uri)).0

    All-poll_short : All P (poll_short aws s clock key spec caches₀).actions
    unfolding poll_short sent_reply
    All-poll_short =
        if-elim (λ p. All P (Polled.actions p)) (feq spec.seconds_to_process_one_job zero_float)
          (λ _. All-poll_messages [] caches₀ tt refl)
          (λ timed. elim (Reply-cases sent_reply) [
            | inl (x, e) ↦
                rw (e, poll_short) (All-poll_messages _ _ (allows.messages_sent x timed, tt) refl)
            | inr (inl (x, e)) ↦ rw (e, poll_short) tt
            | inr (inr e) ↦ rw (e, poll_short) tt
          ])

    -- Whatever is allowed in each place where a poll acts holds of all that it does.
    pub All-poll : All P (poll aws s clock key spec caches₀).actions
    unfolding poll
    All-poll =
        if-elim (λ p. All P (Polled.actions p)) (long_polls spec) (λ _. All-poll_long caches₀)
          (λ _. All-poll_short)
