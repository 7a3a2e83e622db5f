-- ===== src/Controller/Desired.antt =====
-- pkg/controller/controller.go: how many workers a queue should have (`GetDesiredWorkers` and the
-- functions that it calls). An int32 is an integer whose sums wrap around; log lines are left out,
-- and with them the parameter `queueName`, which is only logged.
pub mod Rules
pub mod Bounds
pub mod Disruption
pub mod Reference
pub mod Draining
pub mod Whole
pub mod Tests
use k8s_worker_pod_autoscale.Base.{
  ℕ, Bool, ◌&&◌, Option, none, some, Text, if◌then◌else◌, ℤ, pos, negsuc, ◌-ℤ◌, ltb_ℤ, leb_ℤ, eqb_ℤ,
  wrap32, Outcome, returns, fatal, ◌>>=◌,
}
use k8s_worker_pod_autoscale.Base.Float.{
  Float64, zero_float, of_int, of_ratio, mul, div, abs, feq, flt, fle, ceil_int32,
}

-- `intstr.Parse(s)` followed by `intstr.GetValueFromIntOrPercent(_, total, true)` of
-- k8s.io/apimachinery: none is an error.
abbrev pub IntOrPercent : Type 0
IntOrPercent = Text → ℤ → Option ℤ

-- int32 of a float64 that is no int32: left to the implementation by the language.
abbrev pub Conversion : Type 0
Conversion = Float64 → ℤ

abbrev int32_of : Option ℤ → Outcome ℤ
int32_of none = fatal
int32_of (some n) = returns (wrap32 n)

unfoldable pub get_max_disruptable_workers : IntOrPercent → Option Text → ℤ → Outcome ℤ
get_max_disruptable_workers scaled none current = fatal
get_max_disruptable_workers scaled (some s) current = int32_of (scaled s current)

-- The workers that the incoming rate keeps busy.
unfoldable pub workers_based_on_messages_sent : Conversion → Float64 → Float64 → ℤ
workers_based_on_messages_sent other sent_per_minute seconds_per_job =
    ceil_int32 other (div (mul seconds_per_job sent_per_minute) (of_int (pos 60)))

unfoldable pub get_min_workers : Conversion → Float64 → ℤ → Float64 → ℤ
get_min_workers other sent_per_minute min_workers seconds_per_job =
    let sent = workers_based_on_messages_sent other sent_per_minute seconds_per_job in
    if feq seconds_per_job zero_float
    then min_workers
    else if ltb_ℤ min_workers sent
    then sent
    else min_workers

unfoldable pub is_change_too_small : ℤ → ℤ → Float64 → Bool
is_change_too_small desired current tolerance =
    fle (div (abs (of_int (wrap32 (desired -ℤ current)))) (of_int current)) tolerance

unfoldable pub convert_desired_replicas_with_rules : ℤ → ℤ → ℤ → ℤ → ℤ → ℤ
convert_desired_replicas_with_rules current desired min max max_disruptable =
    let desired' =
      if ltb_ℤ max_disruptable (wrap32 (current -ℤ desired))
      then wrap32 (current -ℤ max_disruptable)
      else desired in
    if leb_ℤ max min
    then max
    else if ltb_ℤ max desired'
    then max
    else if ltb_ℤ desired' min
    then min
    else desired'

-- int32(math.Ceil(float64(queueMessages) / float64(targetMessagesPerWorker)))
unfoldable pub workers_for_backlog : Conversion → ℤ → ℤ → ℤ
workers_for_backlog other messages target = ceil_int32 other (div (of_int messages) (of_int target))

abbrev pub tolerance : Float64
tolerance = of_ratio 1 10

-- What is left of `GetDesiredWorkers` once `minWorkers` is overwritten and `maxDisruptableWorkers`
-- is known.
unfoldable pub choose_workers : ℤ → ℤ → Float64 → Float64 → ℤ → ℤ → ℤ → ℤ → ℤ → ℤ
choose_workers desired messages sent_per_minute seconds_per_job current idle min max disruptable =
    if eqb_ℤ current (pos 0)
    then convert_desired_replicas_with_rules current desired min max disruptable
    else if ltb_ℤ (pos 0) messages
    then (if is_change_too_small desired current tolerance
        then convert_desired_replicas_with_rules current current min max disruptable
        else convert_desired_replicas_with_rules current desired min max disruptable)
    else if flt zero_float sent_per_minute && flt zero_float seconds_per_job
    then convert_desired_replicas_with_rules current min min max disruptable
    else if eqb_ℤ current idle
    then convert_desired_replicas_with_rules current (pos 0) min max current
    else convert_desired_replicas_with_rules current min min max disruptable

unfoldable pub get_desired_workers :
    IntOrPercent
    → Conversion
    → (messages : ℤ) → (sent_per_minute seconds_per_job : Float64)
    → (target current idle min max : ℤ) → Option Text
    → Outcome ℤ
get_desired_workers scaled other messages sent_per_minute seconds_per_job target current idle min
      max max_disruption =
    do
      disruptable ← get_max_disruptable_workers scaled max_disruption current
      returns (
          choose_workers (workers_for_backlog other messages target) messages sent_per_minute
            seconds_per_job current idle (get_min_workers other sent_per_minute min seconds_per_job)
            max disruptable)
