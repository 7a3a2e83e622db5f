-- ===== src/Controller/Desired/Reference.antt =====
-- The rules as plain arithmetic: a reference without wrapping and without the order of the tests.
use k8s_worker_pod_autoscale.Base.{
  ◌≡◌, refl, ap, ◌∙◌, if◌then◌else◌, Option, Text, ℤ, ◌-ℤ◌, ltb_ℤ, IsCount, wrap32-sub, -ℤ_parts,
  returns, arith, ◌↔◌, ◌⊎◌, inl, inr, none, some, Outcome, fatal, ◌>>=◌,
}
use k8s_worker_pod_autoscale.Base.Float.{Float64}
use k8s_worker_pod_autoscale.Controller.Desired.{
  IntOrPercent, Conversion, int32_of, get_max_disruptable_workers, get_min_workers,
  convert_desired_replicas_with_rules, workers_for_backlog, get_desired_workers,
}
use k8s_worker_pod_autoscale.Controller.Desired.Rules.{
  wanted_workers, disruption_limit, get_desired_workers-at,
}
use k8s_worker_pod_autoscale.Controller.Desired.Disruption.{wanted-IsCount}

abbrev pub at_least : ℤ → ℤ → ℤ
at_least low x = if ltb_ℤ x low then low else x

abbrev pub at_most : ℤ → ℤ → ℤ
at_most high x = if ltb_ℤ high x then high else x

-- The wish, kept from taking more than `k` workers away, raised to the minimum, and capped.
abbrev pub limited : (current wanted min max k : ℤ) → ℤ
limited current wanted min max k = at_most max (at_least min (at_least (current -ℤ k) wanted))

convert-limited :
    (current wanted min max k : ℤ)
    → IsCount current
    → IsCount wanted
    → IsCount k
    → convert_desired_replicas_with_rules current wanted min max k
      ≡ limited current wanted min max k
unfolding convert_desired_replicas_with_rules
convert-limited current wanted min max k hc hw hk =
    rw (wrap32-sub current wanted hc hw, wrap32-sub current k hc hk)
      (ground (arith, -ℤ_parts current wanted, -ℤ_parts current k))

limit-IsCount :
    (messages : ℤ) (sent seconds : Float64) (current idle k : ℤ)
    → IsCount current
    → IsCount k
    → IsCount (disruption_limit messages sent seconds current idle k)
unfolding disruption_limit
limit-IsCount messages sent seconds current idle k hc hk = ground arith

-- GetDesiredWorkers, for counts that an int32 holds and `k` workers that may be disrupted, returns
-- exactly this: the workers that the queue asks for, less at most `k` than the current ones, raised to
-- the minimum (what `getMinWorkers` makes of MinReplicas and of the throughput), and capped by
-- MaxReplicas. The wish is the backlog's if no worker runs; with messages it is the backlog's too, or
-- the current number if the change is too small; with no message it is none if all workers are idle
-- and no throughput is known, and else the minimum, also if all are idle. A throughput is known if
-- the messages sent per minute and the seconds for a job are both positive. All workers may go at once,
-- instead of `k`, exactly if the wish is none for that reason.
pub desired_workers_reference :
    (scaled : IntOrPercent) (other : Conversion) (messages : ℤ) (sent seconds : Float64)
    (target current idle min max : ℤ) (disruption : Option Text) {k : ℤ}
    → get_max_disruptable_workers scaled disruption current ≡ returns k
    → IsCount current
    → IsCount k
    → IsCount (get_min_workers other sent min seconds)
    → IsCount (workers_for_backlog other messages target)
    → let m = get_min_workers other sent min seconds in
      get_desired_workers scaled other messages sent seconds target current idle min max disruption
      ≡ returns (
          limited current
            (wanted_workers
              (workers_for_backlog other messages target)
              messages
              sent
              seconds
              current
              idle
              m)
            m
            max
            (disruption_limit messages sent seconds current idle k))
desired_workers_reference scaled other messages sent seconds target current idle min max disruption
      {k} e hc hk hm hb =
    get_desired_workers-at scaled other messages sent seconds target current idle min max disruption
      e
    ∙ ap returns (
        convert-limited current _ _ max _ hc
          (wanted-IsCount _ messages sent seconds current idle _ hb hc hm)
          (limit-IsCount messages sent seconds current idle k hc hk))

failed-int32_of : (o : Option ℤ) → (int32_of o ≡ fatal) ↔ (o ≡ none)
failed-int32_of none = (λ h. refl, λ h. refl)
failed-int32_of (some n) = (λ h. cc, λ h. cc)

failed-bind : (o : Outcome ℤ) (f : ℤ → ℤ) → ((o >>= λ k. returns (f k)) ≡ fatal) ↔ (o ≡ fatal)
failed-bind (returns k) f = (λ h. cc, λ h. cc)
failed-bind fatal f = (λ h. refl, λ h. refl)

-- GetDesiredWorkers ends the process exactly if no maxDisruption reaches it or the one that does
-- cannot be read; in every other case it returns.
desired_workers_fatal_iff :
    (scaled : IntOrPercent) (other : Conversion) (messages : ℤ) (sent seconds : Float64)
    (target current idle min max : ℤ) (disruption : Option Text)
    → (get_desired_workers scaled other messages sent seconds target current idle min max disruption
        ≡ fatal)
      ↔ ((disruption ≡ none) ⊎ ((s : Text) × (disruption ≡ some s) × (scaled s current ≡ none)))
unfolding get_desired_workers get_max_disruptable_workers
desired_workers_fatal_iff scaled other messages sent seconds target current idle min max none =
    (λ h. inl refl, λ h. refl)
desired_workers_fatal_iff scaled other messages sent seconds target current idle min max (some s) =
    (
      λ h. inr (s, refl, (failed-int32_of (scaled s current)).0 ((failed-bind _ _).0 h)),
      elim [
        | inl e ↦ cc
        | inr (x, e, z) ↦ (failed-bind _ _).1 ((failed-int32_of _).1 (let p : s ≡ x = cc in rw p z))
      ],
    )
