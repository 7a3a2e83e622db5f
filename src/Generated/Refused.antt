-- ===== src/Generated/Refused.antt =====
-- When NewForConfig of the clientset fails.
use k8s_worker_pod_autoscale.Base.{
  ◌≡◌, ◌↔◌, refl, ◌⊎◌, inl, inr, Bool, true, false, ◌&&◌, not, none, some, if◌then◌else◌,
  Option-cases, ℤ, pos, ◌≤ℤ◌, leb_ℤ, arith,
}
use k8s_worker_pod_autoscale.Generated.Clientset.{
  RestConfig, RestLibrary, rate_limited, group_client_for, new_for_config,
}

-- Why there is no clientset of the autoscalers for the configuration: a limit of requests without a
-- burst, where the configuration brings no rate limiter, or a library that refuses it.
pub data IsRefused (library : RestLibrary) (c : RestConfig) : Type 0 where
  no_burst : c.has_rate_limiter ≡ false → c.has_qps ≡ true → c.burst ≤ℤ pos 0 → IsRefused library c
  no_client :
      (c' : RestConfig)
      → rate_limited c ≡ some c'
      → (group_client_for library c' ≡ false) ⊎ (library.discovery_client_for c' ≡ false)
      → IsRefused library c

&&-false : (a b : Bool) → ((a && b) ≡ false) ↔ ((a ≡ false) ⊎ (b ≡ false))
&&-false true b = (λ h. inr h, λ h. elim h [ inl e ↦ absurd cc | inr e ↦ e ])
&&-false false b = (λ h. inl refl, λ h. refl)

limit-none :
    (limiter qps few : Bool) (c c' : RestConfig)
    → ((if not limiter && qps then if few then none else some c' else some c) ≡ none)
      ↔ ((limiter ≡ false) × (qps ≡ true) × (few ≡ true))
limit-none true qps few c c' = (λ h. absurd cc, λ h. absurd (let l = h.0 in cc))
limit-none false false few c c' = (λ h. absurd cc, λ h. absurd (let q = h.1 in cc))
limit-none false true true c c' = (λ h. (refl, refl, refl), λ h. refl)
limit-none false true false c c' = (λ h. absurd cc, λ h. absurd (let q = h.2 in cc))

few_iff : (n : ℤ) → (leb_ℤ n (pos 0) ≡ true) ↔ (n ≤ℤ pos 0)
few_iff n = (λ h. ground (arith, h), λ h. ground (arith, h))

rate_limited-none :
    (c : RestConfig)
    → (rate_limited c ≡ none)
      ↔ ((c.has_rate_limiter ≡ false) × (c.has_qps ≡ true) × (c.burst ≤ℤ pos 0))
unfolding rate_limited
rate_limited-none c =
    let none_iff = limit-none c.has_rate_limiter c.has_qps (leb_ℤ c.burst (pos 0)) c _ in
    let few = few_iff c.burst in
    (λ h. let (l, q, f) = none_iff.0 h in (l, q, few.0 f), λ h. none_iff.1 (h.0, h.1, few.1 h.2))

IsRefused-limited :
    (library : RestLibrary) (c c' : RestConfig)
    → rate_limited c ≡ some c'
    → IsRefused library c
    → (group_client_for library c' ≡ false) ⊎ (library.discovery_client_for c' ≡ false)
IsRefused-limited library c c' e (no_burst off some_qps few) =
    let clash = (rate_limited-none c).1 (off, some_qps, few) in absurd cc
IsRefused-limited library c c' e (no_client d f h) = let same : d ≡ c' = cc in (rw same at h)

pub new_for_config-false :
    (library : RestLibrary) (c : RestConfig)
    → (new_for_config library c ≡ false) ↔ IsRefused library c
unfolding new_for_config
new_for_config-false library c = elim (Option-cases (rate_limited c)) [
  | inl e ↦
      let (off, some_qps, few) = (rate_limited-none c).0 e in
      (λ h. no_burst off some_qps few, λ h. rw (e, new_for_config) refl)
  | inr (c', e) ↦
      let both = &&-false (group_client_for library c') (library.discovery_client_for c') in
      (
        λ h. no_client c' e (both.0 (rw (e, new_for_config) at h)),
        λ h. rw (e, new_for_config) (both.1 (IsRefused-limited library c c' e h)),
      )
]
