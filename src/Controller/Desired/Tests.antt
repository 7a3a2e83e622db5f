-- ===== src/Controller/Desired/Tests.antt =====
-- `GetDesiredWorkers` at the inputs of pkg/controller/controller_test.go, with instances of the
-- theorems.
use k8s_worker_pod_autoscale.Base.{
  [], ◌∷◌, ◌+ℤ◌, ℕ, ◌+◌, ◌*◌, ◌/◌, ◌≡◌, refl, ◌⊎◌, Option, none, some, [], ◌∷◌, Text, codes,
  decimal, ◌==◌, ℤ, pos, negsuc, true, false, ◌++◌, ◌-ℤ◌, wrap32, ◌≤ℤ◌, Outcome, returns, arith,
}
use k8s_worker_pod_autoscale.Base.Float.{
  Float64, zero_float, of_int, of_ratio, flt, div, abs, ceil_int32, feq, mul,
}
use k8s_worker_pod_autoscale.Controller.Desired.Draining.{Reaches, drained_to_min_replicas}
use k8s_worker_pod_autoscale.Controller.Desired.Rules.{wanted_workers, disruption_limit}
use k8s_worker_pod_autoscale.Controller.Desired.{
  get_max_disruptable_workers, workers_based_on_messages_sent, workers_for_backlog, choose_workers,
  is_change_too_small, convert_desired_replicas_with_rules, IntOrPercent, Conversion,
  get_desired_workers, get_min_workers,
}
use k8s_worker_pod_autoscale.Controller.Desired.Bounds.{IsWithin, desired_workers_bounds}
use k8s_worker_pod_autoscale.Controller.Desired.Disruption.{desired_workers_disruption}
use k8s_worker_pod_autoscale.Controller.Desired.Whole.{desired_workers_whole}
use k8s_worker_pod_autoscale.Controller.Desired.Reference.{desired_workers_reference}

-- "12%" of a total, rounded up, or the number itself.
percents : ℕ → Text → Text → Option ℤ
percents total seen [] = elim (decimal seen) [ none ↦ none | some n ↦ some (pos n) ]
percents total seen (c ∷ s) = elim (c == b'%') [
  | true ↦ elim (decimal seen) [ none ↦ none | some n ↦ some (pos ((n * total + 99) / 100)) ]
  | false ↦ percents total (seen ++ c ∷ []) s
]

scaled : IntOrPercent
unfolding percents decimal
scaled s (pos total) = percents total [] s
scaled s (negsuc n) = none

abbrev other : Conversion
other x = pos 0

-- `desiredWorkerTester.getDesired`, with all that it computes with.
desired : ℤ → Float64 → Float64 → ℤ → ℤ → ℤ → ℤ → ℤ → Text → Outcome ℤ
unfolding get_desired_workers get_max_disruptable_workers get_min_workers
    workers_based_on_messages_sent workers_for_backlog choose_workers is_change_too_small
    convert_desired_replicas_with_rules scaled flt div abs of_int wrap32 ◌-ℤ◌ ceil_int32 of_ratio
    feq mul
desired messages sent seconds target current idle min max disruption =
    get_desired_workers scaled other messages sent seconds target current idle min max
      (some disruption)

-- TestScaleDownWhenQueueMessagesLessThanTarget
few_messages :
    desired
      (pos 10)
      (of_int (pos 10))
      (of_ratio 3 10)
      (pos 200)
      (pos 20)
      (pos 0)
      (pos 0)
      (pos 20)
      (codes "10%")
    ≡ returns (pos 18)
unfolding desired
few_messages = refl

-- TestScaleUpWhenCalculatedMinIsGreaterThanMax
computed_minimum :
    desired
      (pos 1)
      (of_int (pos 2136))
      (of_int (pos 10))
      (pos 2500)
      (pos 10)
      (pos 0)
      (pos 2)
      (pos 20)
      (codes "0%")
    ≡ returns (pos 20)
unfolding desired
computed_minimum = refl

-- TestScaleForLongRunningWorkersTakingMinutesToProcess
long_running : ℤ → ℤ → Text → Outcome ℤ
unfolding desired
long_running messages current disruption =
    desired messages zero_float zero_float (pos 10) current (pos 0) (pos 0) (pos 500) disruption

long_running_test :
    (long_running (pos 100) (pos 0) (codes "0%") ≡ returns (pos 10))
    × (long_running (pos 100) (pos 10) (codes "0%") ≡ returns (pos 10))
    × (long_running (pos 50) (pos 10) (codes "0%") ≡ returns (pos 10))
    × (long_running (pos 50) (pos 10) (codes "100%") ≡ returns (pos 5))
unfolding long_running
long_running_test = (refl, refl, refl, refl)

-- TestTargetScalingForLongRunningWorkers
target_scaling :
    desired
      (pos 20)
      zero_float
      (of_int (pos 300))
      (pos 10)
      (pos 0)
      (pos 0)
      (pos 0)
      (pos 100)
      (codes "100%")
    ≡ returns (pos 2)
unfolding desired
target_scaling = refl

-- TestRPMScalingForFastRunningWorkers
rate_scaling :
    desired
      (pos 0)
      (of_int (pos 120))
      (of_int (pos 1))
      (pos 60)
      (pos 1)
      (pos 0)
      (pos 0)
      (pos 100)
      (codes "100%")
    ≡ returns (pos 2)
unfolding desired
rate_scaling = refl

desired_workers_bounds_example :
    let m = get_min_workers other (of_int (pos 10)) (pos 0) (of_ratio 3 10) in
    (pos 0 ≤ℤ m) × IsWithin m (pos 20) (pos 18) × ((pos 0 ≤ℤ pos 18) ⊎ (pos 18 ≡ pos 20))
unfolding desired
desired_workers_bounds_example =
    desired_workers_bounds scaled other (pos 10) (of_int (pos 10)) (of_ratio 3 10) (pos 200)
      (pos 20) (pos 0) (pos 0) (pos 20) (some (codes "10%")) few_messages

desired_workers_disruption_example : (pos 18 ≡ pos 20) ⊎ (pos 20 -ℤ pos 2 ≤ℤ pos 18)
unfolding desired
desired_workers_disruption_example =
    desired_workers_disruption scaled other (pos 10) (of_int (pos 10)) (of_ratio 3 10) (pos 200)
      (pos 20) (pos 0) (pos 0) (pos 20) (some (codes "10%")) few_messages refl refl (omega arith)
      (omega arith) (omega arith) (omega arith)

desired_workers_reference_example :
    get_desired_workers scaled other
      (pos 50)
      zero_float
      zero_float
      (pos 10)
      (pos 10)
      (pos 0)
      (pos 0)
      (pos 500)
      (some (codes "100%"))
    ≡ returns (pos 5)
unfolding long_running wanted_workers disruption_limit ◌-ℤ◌
desired_workers_reference_example =
    desired_workers_reference scaled other (pos 50) zero_float zero_float (pos 10) (pos 10) (pos 0)
      (pos 0) (pos 500) (some (codes "100%")) {k = pos 10} refl (omega arith) (omega arith)
      (omega arith) (omega arith)

-- From four workers to two, one at a time, with a delay of ten.
drained_to_min_replicas_example :
    Reaches
      (λ s c. some (pos 1))
      other
      zero_float
      (pos 10)
      (pos 2)
      (pos 20)
      (codes "1")
      (λ c. pos 0)
      (λ c. pos 1)
      (pos 10)
      (pos 4)
      (some (pos 0))
      (pos 11 ∷ pos 22 ∷ [])
      (pos 2)
unfolding ◌+ℤ◌
drained_to_min_replicas_example =
    drained_to_min_replicas (λ s c. some (pos 1)) other zero_float (pos 10) (pos 2) (pos 20)
      (codes "1") (λ c. pos 0) (λ c. pos 1) (pos 10) (λ c. refl)
      (λ c h. (omega arith, (omega arith, omega arith))) (pos 11 ∷ pos 22 ∷ []) (some (pos 0))
      (pos 4) (omega arith, (omega arith, tt)) (omega arith, omega arith) (omega arith, omega arith)
      (omega arith) (omega arith) (omega arith)

-- Ten messages, three for each worker: four workers wanted of two.
desired_workers_whole_example :
    get_desired_workers
      (λ s c. some (pos 1))
      other
      (pos 10)
      (of_int (pos 8))
      zero_float
      (pos 3)
      (pos 2)
      (pos 0)
      (pos 1)
      (pos 20)
      (some (codes "1"))
    ≡ returns (pos 4)
unfolding get_max_disruptable_workers wrap32 ◌-ℤ◌
desired_workers_whole_example =
    desired_workers_whole (λ s c. some (pos 1)) other 10 3 2 (of_int (pos 8)) (pos 0) 1 (pos 20)
      (some (codes "1")) {k = 1} refl (omega arith) (omega arith) (omega arith) (omega arith)
      (omega arith) (omega arith)
