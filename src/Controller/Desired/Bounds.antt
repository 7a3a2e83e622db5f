-- ===== src/Controller/Desired/Bounds.antt =====
-- `GetDesiredWorkers` stays within the limits of the specification.
use k8s_worker_pod_autoscale.Base.{◌≡◌, ◌⊎◌, Option, Text, ℤ, ◌≤ℤ◌, ◌<ℤ◌, returns, arith}
use k8s_worker_pod_autoscale.Base.Float.{Float64}
use k8s_worker_pod_autoscale.Controller.Desired.{
  IntOrPercent, Conversion, get_min_workers, convert_desired_replicas_with_rules,
  get_desired_workers,
}
use k8s_worker_pod_autoscale.Controller.Desired.Rules.{get_desired_workers-rules}

-- A count of workers that keeps to the limits: `max` where they cross.
pub record IsWithin (min max d : ℤ) : Type 0 where
  pub capped : d ≤ℤ max
  pub crossed : max ≤ℤ min → d ≡ max
  pub floored : min <ℤ max → min ≤ℤ d

convert-IsWithin :
    (current desired min max disruptable : ℤ)
    → IsWithin min max (convert_desired_replicas_with_rules current desired min max disruptable)
unfolding convert_desired_replicas_with_rules
convert-IsWithin current desired min max disruptable = ground arith

pub le-get_min_workers :
    (other : Conversion) (sent : Float64) (min : ℤ) (seconds : Float64)
    → min ≤ℤ get_min_workers other sent min seconds
unfolding get_min_workers
le-get_min_workers other sent min seconds = ground arith

IsWithin-floor : (min m max d : ℤ) → min ≤ℤ m → IsWithin m max d → (min ≤ℤ d) ⊎ (d ≡ max)
IsWithin-floor min m max d low w = ground arith

-- Whatever the queue reports, a result of GetDesiredWorkers is at most MaxReplicas, and it is at
-- least MinReplicas unless it is MaxReplicas. With `m` for the workers that getMinWorkers asks for,
-- which is at least MinReplicas: the result is MaxReplicas if `m` is not below MaxReplicas, and lies
-- between `m` and MaxReplicas otherwise.
pub desired_workers_bounds :
    (scaled : IntOrPercent) (other : Conversion) (messages : ℤ) (sent seconds : Float64)
    (target current idle min max : ℤ) (disruption : Option Text) {d : ℤ}
    → get_desired_workers scaled other messages sent seconds target current idle min max disruption
      ≡ returns d
    → let m = get_min_workers other sent min seconds in
      (min ≤ℤ m) × IsWithin m max d × ((min ≤ℤ d) ⊎ (d ≡ max))
desired_workers_bounds scaled other messages sent seconds target current idle min max disruption {d}
      h =
    let (k, _, e) =
      get_desired_workers-rules scaled other messages sent seconds target current idle min max
        disruption h in
    let low = le-get_min_workers other sent min seconds in
    let within : IsWithin (get_min_workers other sent min seconds) max d =
      rw e (convert-IsWithin current _ _ max _) in
    (low, within, IsWithin-floor min _ max _ low within)
