-- ===== src/Command/Services.antt =====
-- When `run` ends the process over the flag for the queueing services.
use k8s_worker_pod_autoscale.Base.{
  ◌≡◌, ◌≢◌, ◌↔◌, refl, ◌⊎◌, inl, inr, Bool, false, Bool-cases, List, [], ◌∷◌, Any, Text, text_eq,
  text_eq_iff, split, trim_space, Outcome, returns, fatal, ◌>>=◌,
}
use k8s_worker_pod_autoscale.Queue.Uri.{sqs_queue_service, beanstalk_queue_service}
use k8s_worker_pod_autoscale.Command.{
  Config, comma, parse_regions, has_sessions, new_sqs, sqs_or_fatal, provider, make_services,
  queuing_services, QueuingService,
}

module _ (new_session : Text → Bool) where
  abbrev pub HasNoSession : Text → Type 0
  HasNoSession region = new_session region ≡ false

  has_sessions-false :
      (regions : List Text) → (has_sessions new_session regions ≡ false) ↔ Any HasNoSession regions
  unfolding has_sessions
  has_sessions-false [] = (λ h. absurd cc, λ h. elim h [ ])
  has_sessions-false (r ∷ rs) = elim (Bool-cases (new_session r)) [
    | inl e ↦ (
      λ h. inr ((has_sessions-false rs).0 (rw e at h)),
      λ h. elim h [ inl n ↦ absurd cc | inr a ↦ rw e ((has_sessions-false rs).1 a) ],
    )
    | inr e ↦ (λ h. inl e, λ h. rw e refl)
  ]

  module _ (config : Config) where
    -- A name of a service that `run` cannot make.
    abbrev pub IsUnavailable : Text → Type 0
    IsUnavailable q =
        ((trim_space q ≡ sqs_queue_service) × Any HasNoSession (parse_regions config.aws_regions))
        ⊎ ((trim_space q ≢ sqs_queue_service) × (trim_space q ≢ beanstalk_queue_service))

    sqs_fatal :
        (regions : List Text)
        → (sqs_or_fatal (
              new_sqs new_session regions config.sqs_short_poll_interval
                config.sqs_long_poll_interval)
            ≡ fatal)
          ↔ Any HasNoSession regions
    unfolding new_sqs
    sqs_fatal regions = elim (Bool-cases (has_sessions new_session regions)) [
      | inl e ↦ (
        λ h. absurd (let h' = (rw e at h) in cc),
        λ h. absurd (let f = (has_sessions-false regions).1 h in cc),
      )
      | inr e ↦ (λ h. (has_sessions-false regions).0 e, λ h. rw e refl)
    ]

    provider_fatal :
        (q : Text) → (provider new_session config (trim_space q) ≡ fatal) ↔ IsUnavailable q
    unfolding provider
    provider_fatal q = elim (Bool-cases (text_eq (trim_space q) sqs_queue_service)) [
      | inl e ↦
          let named = (text_eq_iff (trim_space q) sqs_queue_service).0 e in
          let sqs = sqs_fatal (parse_regions config.aws_regions) in
          (
            λ h. inl (named, sqs.0 (rw e at h)),
            λ h. elim h [ inl a ↦ rw e (sqs.1 a.1) | inr a ↦ absurd (a.0 named) ],
          )
      | inr e ↦
          let other : trim_space q ≢ sqs_queue_service =
            λ n. absurd (let t = (text_eq_iff (trim_space q) sqs_queue_service).1 n in cc) in
          elim (Bool-cases (text_eq (trim_space q) beanstalk_queue_service)) [
            | inl b ↦
                let named = (text_eq_iff (trim_space q) beanstalk_queue_service).0 b in
                (
                  λ h. absurd (let h' = (rw b at (rw e at h)) in cc),
                  λ h. elim h [ inl a ↦ absurd (other a.0) | inr a ↦ absurd (a.1 named) ],
                )
            | inr b ↦ (
              λ h. inr (
                other,
                λ n.
                    absurd (let t = (text_eq_iff (trim_space q) beanstalk_queue_service).1 n in cc),
              ),
              λ h. rw e (rw b refl),
            )
          ]
    ]

    both_fatal :
        (o : Outcome QueuingService) (p : Outcome (List QueuingService))
        → ((o >>= λ service. p >>= λ services. returns (service ∷ services)) ≡ fatal)
          ↔ ((o ≡ fatal) ⊎ (p ≡ fatal))
    both_fatal fatal p = (λ h. inl refl, λ h. refl)
    both_fatal (returns s) fatal = (λ h. inr refl, λ h. refl)
    both_fatal (returns s) (returns l) =
        (λ h. absurd cc, λ h. elim h [ inl e ↦ absurd cc | inr e ↦ absurd cc ])

    make_services_fatal :
        (qs : List Text) → (make_services new_session config qs ≡ fatal) ↔ Any IsUnavailable qs
    unfolding make_services
    make_services_fatal [] = (λ h. absurd cc, λ h. elim h [ ])
    make_services_fatal (q ∷ qs) =
        let both =
          both_fatal (provider new_session config (trim_space q))
            (make_services new_session config qs) in
        let first = provider_fatal q in
        let more = make_services_fatal qs in
        (
          λ h. elim (both.0 h) [ inl e ↦ inl (first.0 e) | inr e ↦ inr (more.0 e) ],
          λ h. elim h [ inl a ↦ both.1 (inl (first.1 a)) | inr a ↦ both.1 (inr (more.1 a)) ],
        )

    -- `run` ends the process over its queueing services exactly if one of the names in the flag, the
    -- white space around it left out, is neither sqs nor beanstalkd, or is sqs while AWS gives no
    -- session for one of the regions in their flag. This is so at any place of the list.
    pub services_fatal_iff :
        (queuing_services new_session config ≡ fatal)
        ↔ Any IsUnavailable (split comma config.queue_services)
    unfolding queuing_services
    services_fatal_iff = make_services_fatal (split comma config.queue_services)
