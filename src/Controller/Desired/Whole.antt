-- ===== src/Controller/Desired/Whole.antt =====
-- `GetDesiredWorkers` in whole numbers, for an autoscaler that gives no time for a job: none of the
-- roundings of its float64 shows in the result.
use k8s_worker_pod_autoscale.Base.{
  ◌≡◌, refl, ap, ◌∙◌, ℕ, ◌+◌, ◌-◌, ◌*◌, ◌/◌, ◌^◌, ◌<◌, ltb, leb, ◌==◌, if◌then◌else◌, Bool,
  Bool-cases, inl, inr, ◌&&◌, not, Option, Text, ℤ, pos, pos_part, neg_part, ◌-ℤ◌, -ℤ_parts,
  parts_exclusive, eqb_ℤ, wrap32-sub, returns, arith,
}
use k8s_worker_pod_autoscale.Base.Float.{Float64, zero_float, feq, flt}
use k8s_worker_pod_autoscale.Base.Float.Quotient.{ceil_int32-div, up-le}
use k8s_worker_pod_autoscale.Base.Float.Tenth.{fle-abs-tenth}
use k8s_worker_pod_autoscale.Controller.Desired.{
  IntOrPercent, Conversion, get_max_disruptable_workers, get_min_workers, is_change_too_small,
  tolerance, workers_for_backlog, get_desired_workers,
}
use k8s_worker_pod_autoscale.Controller.Desired.Rules.{wanted_workers, disruption_limit}
use k8s_worker_pod_autoscale.Controller.Desired.Reference.{limited, desired_workers_reference}

-- The messages by the target, rounded up.
abbrev pub backlog_workers : (messages target : ℕ) → ℕ
backlog_workers messages target = (messages + (target - 1)) / target

-- The change from `current` is at most a tenth of it.
abbrev pub is_within_tenth : (desired current : ℕ) → Bool
is_within_tenth desired current = leb (10 * ((desired - current) + (current - desired))) current

abbrev pub wanted_whole : (messages target current : ℕ) → (idle : ℤ) → (min : ℕ) → ℕ
wanted_whole messages target current idle min =
    let backlog = backlog_workers messages target in
    if current == 0
    then backlog
    else if ltb 0 messages
    then (if is_within_tenth backlog current then current else backlog)
    else if eqb_ℤ (pos current) idle
    then 0
    else min

abbrev pub limit_whole : (messages current : ℕ) → (idle : ℤ) → (k : ℕ) → ℕ
limit_whole messages current idle k =
    if not (current == 0) && (not (ltb 0 messages) && eqb_ℤ (pos current) idle) then current else k

is_change_too_small-whole :
    (desired current : ℕ)
    → desired < 2 ^ 31
    → current < 2 ^ 31
    → 0 < current
    → is_change_too_small (pos desired) (pos current) tolerance ≡ is_within_tenth desired current
unfolding is_change_too_small
is_change_too_small-whole desired current d_fits c_fits some_run =
    let parts = -ℤ_parts (pos desired) (pos current) in
    let one_part = parts_exclusive (pos desired -ℤ pos current) in
    let apart : pos_part (pos desired -ℤ pos current) + neg_part (pos desired -ℤ pos current)
        ≡ (desired - current) + (current - desired) =
      omega arith in
    rw
      (wrap32-sub (pos desired) (pos current) (omega arith, omega arith) (omega arith, omega arith))
      (fle-abs-tenth (pos desired -ℤ pos current) current (omega arith) c_fits some_run
        ∙ ap (λ x. leb (10 * x) current) apart)

backlog-lt :
    (messages target : ℕ)
    → messages < 2 ^ 31
    → 0 < target
    → backlog_workers messages target < 2 ^ 31
backlog-lt messages target fits some_target = omega (arith, up-le messages target some_target)

module _ (other : Conversion) (messages target current : ℕ) (sent : Float64) (idle : ℤ) (min : ℕ)
    (messages_fit : messages < 2 ^ 31) (target_fits : target < 2 ^ 31) (some_target : 0 < target)
    (current_fits : current < 2 ^ 31) where
  backlog-whole :
      workers_for_backlog other (pos messages) (pos target) ≡ pos (backlog_workers messages target)
  unfolding workers_for_backlog
  backlog-whole = ceil_int32-div other messages target messages_fit target_fits some_target

  wanted_workers-whole :
      wanted_workers
        (pos (backlog_workers messages target))
        (pos messages)
        sent
        zero_float
        (pos current)
        idle
        (pos min)
      ≡ pos (wanted_whole messages target current idle min)
  unfolding wanted_workers flt
  wanted_workers-whole = elim (Bool-cases (current == 0)) [
    | inl e ↦ ground (arith, e)
    | inr e ↦
        let test =
          is_change_too_small-whole (backlog_workers messages target) current
            (backlog-lt messages target messages_fit some_target) current_fits (ground arith) in
        ground (arith, e, test)
  ]

  limit-whole :
      (k : ℕ)
      → disruption_limit (pos messages) sent zero_float (pos current) idle (pos k)
        ≡ pos (limit_whole messages current idle k)
  unfolding disruption_limit flt
  limit-whole k = ground arith

min_workers-untimed :
    (other : Conversion) (sent : Float64) (min : ℤ)
    → get_min_workers other sent min zero_float ≡ min
unfolding get_min_workers feq
min_workers-untimed other sent min = refl

-- GetDesiredWorkers in whole numbers, where the autoscaler gives no time for a job: for counts that an
-- int32 holds, a positive target, and `k` workers that may be disrupted, the result is the workers
-- that the queue asks for, less at most `k` than the current ones, raised to MinReplicas and capped by
-- MaxReplicas. Asked for are the messages by the target, rounded up, if no worker runs; with messages
-- the same, unless it is within a tenth of the current workers, which are kept then; with no message
-- none, if all are idle (then all may go), and else MinReplicas. No rounding of a float64 and no
-- conversion that the language leaves open shows in the result.
pub desired_workers_whole :
    (scaled : IntOrPercent) (other : Conversion) (messages target current : ℕ) (sent : Float64)
    (idle : ℤ) (min : ℕ) (max : ℤ) (disruption : Option Text) {k : ℕ}
    → get_max_disruptable_workers scaled disruption (pos current) ≡ returns (pos k)
    → messages < 2 ^ 31
    → target < 2 ^ 31
    → 0 < target
    → current < 2 ^ 31
    → min < 2 ^ 31
    → k < 2 ^ 31
    → get_desired_workers scaled other
        (pos messages)
        sent
        zero_float
        (pos target)
        (pos current)
        idle
        (pos min)
        max
        disruption
      ≡ returns (
          limited
            (pos current)
            (pos (wanted_whole messages target current idle min))
            (pos min)
            max
            (pos (limit_whole messages current idle k)))
desired_workers_whole scaled other messages target current sent idle min max disruption {k} e
      messages_fit target_fits some_target current_fits min_fits k_fits =
    let backlog =
      backlog-whole other messages target current sent idle min messages_fit target_fits some_target
        current_fits in
    let count = backlog-lt messages target messages_fit some_target in
    let lowest = min_workers-untimed other sent (pos min) in
    let wanted =
      wanted_workers-whole other messages target current sent idle min messages_fit target_fits
        some_target current_fits in
    let limit =
      limit-whole other messages target current sent idle min messages_fit target_fits some_target
        current_fits k in
    let reference =
      desired_workers_reference scaled other (pos messages) sent zero_float (pos target)
        (pos current) idle (pos min) max disruption {k = pos k} e (omega arith, omega arith)
        (omega arith, omega arith) (rw lowest (omega arith, omega arith))
        (rw backlog (omega arith, count)) in
    rw (lowest, backlog, wanted, limit) at reference
