-- ===== src/Controller/Desired/Disruption.antt =====
-- `maxDisruption` limits what one scaling takes away.
use k8s_worker_pod_autoscale.Base.{
  ◌≡◌, ◌⊎◌, false, Option, Text, ℤ, ◌-ℤ◌, ◌≤ℤ◌, IsCount, wrap32-sub, -ℤ_parts, returns, arith,
  Outcome-returns_inj, sym, ◌∙◌,
}
use k8s_worker_pod_autoscale.Base.Float.{Float64}
use k8s_worker_pod_autoscale.Controller.Desired.{
  IntOrPercent, Conversion, get_max_disruptable_workers, get_min_workers,
  convert_desired_replicas_with_rules, workers_for_backlog, get_desired_workers,
}
use k8s_worker_pod_autoscale.Controller.Desired.Rules.{
  all_idle, wanted_workers, disruption_limit, get_desired_workers-at,
}

-- At least what is left when `k` of `current` workers go, unless the limit `max` is lower.
abbrev pub IsGentle : ℤ → ℤ → ℤ → ℤ → Type 0
IsGentle current k max d = (d ≡ max) ⊎ (current -ℤ k ≤ℤ d)

convert-IsGentle :
    (current wanted min max k : ℤ)
    → IsCount current
    → IsCount wanted
    → IsCount k
    → IsGentle current k max (convert_desired_replicas_with_rules current wanted min max k)
unfolding convert_desired_replicas_with_rules
convert-IsGentle current wanted min max k hc hw hk =
    rw (wrap32-sub current wanted hc hw, wrap32-sub current k hc hk)
      (ground (arith, -ℤ_parts current wanted, -ℤ_parts current k))

pub wanted-IsCount :
    (backlog messages : ℤ) (sent seconds : Float64) (current idle min : ℤ)
    → IsCount backlog
    → IsCount current
    → IsCount min
    → IsCount (wanted_workers backlog messages sent seconds current idle min)
unfolding wanted_workers
wanted-IsCount backlog messages sent seconds current idle min hb hc hm = ground arith

module _ (scaled : IntOrPercent) (other : Conversion) (messages : ℤ) (sent seconds : Float64)
    (target current idle min max : ℤ) (disruption : Option Text) where
  -- If not all workers are idle without work, GetDesiredWorkers takes at most the `k` workers away
  -- that getMaxDisruptableWorkers allows, unless MaxReplicas forces it to: for counts that an int32
  -- holds, the result is MaxReplicas or at least the current workers less `k`.
  pub desired_workers_disruption :
      {d k : ℤ}
      → get_desired_workers scaled other messages sent seconds target current idle min max
          disruption
        ≡ returns d
      → get_max_disruptable_workers scaled disruption current ≡ returns k
      → all_idle messages sent seconds current idle ≡ false
      → IsCount current
      → IsCount k
      → IsCount (get_min_workers other sent min seconds)
      → IsCount (workers_for_backlog other messages target)
      → (d ≡ max) ⊎ (current -ℤ k ≤ℤ d)
  unfolding disruption_limit
  desired_workers_disruption {d} {k} h hk busy hc hk' hm hb =
      let e =
        get_desired_workers-at scaled other messages sent seconds target current idle min max
          disruption hk in
      let gentle =
        convert-IsGentle current
          (wanted_workers (workers_for_backlog other messages target) messages sent seconds current
            idle (get_min_workers other sent min seconds))
          (get_min_workers other sent min seconds) max k hc
          (wanted-IsCount _ messages sent seconds current idle _ hb hc hm) hk' in
      rw (Outcome-returns_inj (sym h ∙ e), busy) gentle
