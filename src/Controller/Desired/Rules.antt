-- ===== src/Controller/Desired/Rules.antt =====
-- How the result of `GetDesiredWorkers` comes about: every branch hands a wish and a limit on the
-- disruption to `convertDesiredReplicasWithRules`.
use k8s_worker_pod_autoscale.Base.{
  ◌≡◌, refl, ap, Bool, ◌&&◌, not, if◌then◌else◌, Option, Text, ℤ, pos, ltb_ℤ, eqb_ℤ, Outcome,
  returns, fatal, ◌>>=◌, arith,
}
use k8s_worker_pod_autoscale.Base.Float.{Float64, zero_float, flt}
use k8s_worker_pod_autoscale.Controller.Desired.{
  IntOrPercent, Conversion, get_max_disruptable_workers, get_min_workers, is_change_too_small,
  tolerance, convert_desired_replicas_with_rules, choose_workers, workers_for_backlog,
  get_desired_workers,
}

-- Messages come in at a rate that is known, for jobs whose time is known.
abbrev pub has_throughput : Float64 → Float64 → Bool
has_throughput sent seconds = flt zero_float sent && flt zero_float seconds

-- No message, no throughput, and every worker is idle.
abbrev pub all_idle : ℤ → Float64 → Float64 → ℤ → ℤ → Bool
all_idle messages sent seconds current idle =
    not (eqb_ℤ current (pos 0))
    && (not (ltb_ℤ (pos 0) messages) && (not (has_throughput sent seconds) && eqb_ℤ current idle))

-- The number of workers that the state of the queue asks for.
unfoldable pub wanted_workers : ℤ → ℤ → Float64 → Float64 → ℤ → ℤ → ℤ → ℤ
wanted_workers backlog messages sent seconds current idle min =
    if eqb_ℤ current (pos 0)
    then backlog
    else if ltb_ℤ (pos 0) messages
    then (if is_change_too_small backlog current tolerance then current else backlog)
    else if all_idle messages sent seconds current idle
    then pos 0
    else min

-- The workers that may go at once: all of them if all are idle.
unfoldable pub disruption_limit : ℤ → Float64 → Float64 → ℤ → ℤ → ℤ → ℤ
disruption_limit messages sent seconds current idle disruptable =
    if all_idle messages sent seconds current idle then current else disruptable

pub choose_workers-rules :
    (backlog messages : ℤ) (sent seconds : Float64) (current idle min max disruptable : ℤ)
    → choose_workers backlog messages sent seconds current idle min max disruptable
      ≡ convert_desired_replicas_with_rules current
          (wanted_workers backlog messages sent seconds current idle min)
          min
          max
          (disruption_limit messages sent seconds current idle disruptable)
unfolding choose_workers wanted_workers disruption_limit
choose_workers-rules backlog messages sent seconds current idle min max disruptable = ground arith

bind-eq-returns :
    (o : Outcome ℤ) (f : ℤ → ℤ) {d : ℤ}
    → (o >>= λ k. returns (f k)) ≡ returns d
    → (k : ℤ) × (o ≡ returns k) × (d ≡ f k)
bind-eq-returns (returns k) f h = (k, refl, cc)
bind-eq-returns fatal f h = cc

module _ (scaled : IntOrPercent) (other : Conversion) (messages : ℤ) (sent seconds : Float64)
    (target current idle min max : ℤ) (disruption : Option Text) where
  -- The result is that of the rules, at the workers that may be disrupted.
  pub get_desired_workers-rules :
      {d : ℤ}
      → get_desired_workers scaled other messages sent seconds target current idle min max
          disruption
        ≡ returns d
      → let m = get_min_workers other sent min seconds in
        (k : ℤ) × (get_max_disruptable_workers scaled disruption current ≡ returns k)
        × (d
            ≡ convert_desired_replicas_with_rules current
                (wanted_workers
                  (workers_for_backlog other messages target)
                  messages
                  sent
                  seconds
                  current
                  idle
                  m)
                m
                max
                (disruption_limit messages sent seconds current idle k))
  unfolding get_desired_workers
  get_desired_workers-rules h =
      let (k, e, r) = bind-eq-returns _ _ h in
      (k, e, rw (← choose_workers-rules _ _ _ _ _ _ _ _ _) r)

  pub get_desired_workers-at :
      {k : ℤ}
      → get_max_disruptable_workers scaled disruption current ≡ returns k
      → get_desired_workers scaled other messages sent seconds target current idle min max
          disruption
        ≡ returns (
            convert_desired_replicas_with_rules current
              (wanted_workers
                (workers_for_backlog other messages target)
                messages
                sent
                seconds
                current
                idle
                (get_min_workers other sent min seconds))
              (get_min_workers other sent min seconds)
              max
              (disruption_limit messages sent seconds current idle k))
  unfolding get_desired_workers
  get_desired_workers-at e = rw e (ap returns (choose_workers-rules _ _ _ _ _ _ _ _ _))
