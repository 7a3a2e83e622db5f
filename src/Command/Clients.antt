-- ===== src/Command/Clients.antt =====
-- For which regions a started SQS service has clients.
use k8s_worker_pod_autoscale.Base.{
  ◌≡◌, refl, ap, ◌∙◌, inl, inr, Bool, true, false, Bool-cases, some, List, [], ◌∷◌, map, Any, All,
  Text, text_eq, text_eq_iff, trim_space, join, Outcome, returns, fatal, ◌>>=◌,
}
use k8s_worker_pod_autoscale.Base.Float.{feq, zero_float}
use k8s_worker_pod_autoscale.Queue.Spec.{QueueSpec}
use k8s_worker_pod_autoscale.Queue.Uri.{get_region, sqs_queue_service, beanstalk_queue_service}
use k8s_worker_pod_autoscale.Queue.Sqs.{Aws, Sqs, panics, has_client, get_sqs_client}
use k8s_worker_pod_autoscale.Queue.Sqs.Poll.{Clock, Caches, poll}
use k8s_worker_pod_autoscale.Queue.Sqs.Clientless.{poll-panics}
use k8s_worker_pod_autoscale.Command.{
  Config, comma, parse_regions, has_sessions, new_sqs, provider, make_services, queuing_services,
  QueuingService, sqs_service, beanstalk_service,
}
use k8s_worker_pod_autoscale.Command.Regions.{Written, written, names, IsRegion, regions_read}

has_client-false :
    (region : Text) (regions : List Text)
    → ¬ Any (λ r. r ≡ region) regions
    → has_client region regions ≡ false
unfolding has_client
has_client-false region [] absent = refl
has_client-false region (r ∷ rs) absent = elim (Bool-cases (text_eq r region)) [
  | inl e ↦ absurd (absent (inl ((text_eq_iff r region).0 e)))
  | inr e ↦ rw e (has_client-false region rs (λ a. absent (inr a)))
]

module _ (new_session : Text → Bool) (config : Config) where
  -- An SQS service has the clients of the flag's regions.
  abbrev HasRegions : QueuingService → Type 0
  HasRegions (sqs_service s) = s.regions ≡ parse_regions config.aws_regions
  HasRegions (beanstalk_service b) = Unit

  provider-HasRegions :
      (q : Text) (service : QueuingService)
      → provider new_session config q ≡ returns service
      → HasRegions service
  unfolding provider new_sqs
  provider-HasRegions q (beanstalk_service b) e = tt
  provider-HasRegions q (sqs_service s) e = elim (Bool-cases (text_eq q sqs_queue_service)) [
    | inl n ↦
        let e' = (rw n at e) in
        elim (Bool-cases (has_sessions new_session (parse_regions config.aws_regions))) [
          | inl h ↦ let e'' = (rw h at e') in cc
          | inr h ↦ absurd (let e'' = (rw h at e') in cc)
        ]
    | inr n ↦ elim (Bool-cases (text_eq q beanstalk_queue_service)) [
      | inl b ↦ absurd (let e' = (rw b at (rw n at e)) in cc)
      | inr b ↦ absurd (let e' = (rw b at (rw n at e)) in cc)
    ]
  ]

  both_returns :
      (o : Outcome QueuingService) (p : Outcome (List QueuingService)) {l : List QueuingService}
      → (o >>= λ service. p >>= λ services. returns (service ∷ services)) ≡ returns l
      → (service : QueuingService) × (services : List QueuingService) × (o ≡ returns service)
        × (p ≡ returns services)
        × (l ≡ service ∷ services)
  both_returns (returns s) (returns more) h = (s, more, refl, refl, cc)
  both_returns (returns s) fatal h = absurd cc
  both_returns fatal p h = absurd cc

  make_services-HasRegions :
      (qs : List Text) {services : List QueuingService}
      → make_services new_session config qs ≡ returns services
      → All HasRegions services
  unfolding make_services
  make_services-HasRegions [] {services} h = let e : services ≡ [] = cc in rw e tt
  make_services-HasRegions (q ∷ qs) {services} h =
      let (service, more, e, f, same) =
        both_returns (provider new_session config (trim_space q))
          (make_services new_session config qs) h in
      rw same (provider-HasRegions (trim_space q) service e, make_services-HasRegions qs f)

  Any-HasRegions :
      (services : List QueuingService) (s : Sqs)
      → All HasRegions services
      → Any (λ service. service ≡ sqs_service s) services
      → s.regions ≡ parse_regions config.aws_regions
  Any-HasRegions [] s h a = elim a [ ]
  Any-HasRegions (service ∷ more) s (h, hs) (inl e) = (rw e at h)
  Any-HasRegions (service ∷ more) s (h, hs) (inr a) = Any-HasRegions more s hs a

get_sqs_client-panics :
    (s : Sqs) (uri : Text) {region : Text}
    → get_region uri ≡ some region
    → has_client region s.regions ≡ false
    → get_sqs_client s uri ≡ panics
unfolding get_sqs_client
get_sqs_client-panics s uri e h = rw (e, get_sqs_client) (rw h refl)

-- A queue in a region that the flag does not name ends the whole program: once `run` has started an
-- SQS service from flags whose regions are written as names joined by commas, with blanks around them
-- or not, every poll by that service of a queue whose URI is in another region, and whose autoscaler
-- gives no time for a job, panics, whatever AWS would answer. The names have no comma and no white
-- space around them.
pub unlisted_region_crashes :
    (new_session : Text → Bool) (config : Config) (r : Written) (rs : List Written)
    → All IsRegion (r ∷ rs)
    → config.aws_regions ≡ join comma (written r) (map written rs)
    → {services : List QueuingService} (s : Sqs)
    → queuing_services new_session config ≡ returns services
    → Any (λ service. service ≡ sqs_service s) services
    → (aws : Aws) (clock : Clock) (key : Text) (spec : QueueSpec) (caches : Caches)
    → {region : Text} → get_region spec.uri ≡ some region
    → ¬ Any (λ n. n ≡ region) (names (r ∷ rs))
    → feq spec.seconds_to_process_one_job zero_float ≡ true
    → (poll aws s clock key spec caches).panicked ≡ true
unfolding queuing_services
unlisted_region_crashes new_session config r rs h flag {services} s started among aws clock key spec
      caches {region} e absent untimed =
    let pool : s.regions ≡ names (r ∷ rs) =
      Any-HasRegions new_session config services s
        (make_services-HasRegions new_session config _ started) among
      ∙ ap parse_regions flag
      ∙ regions_read r rs h in
    poll-panics aws s clock key spec caches
      (get_sqs_client-panics s spec.uri e
        (rw pool (has_client-false region (names (r ∷ rs)) absent)))
      untimed
