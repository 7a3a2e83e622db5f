-- ===== src/Controller/Desired/Draining.antt =====
-- A queue without work is scaled down to the minimum, step by step.
use k8s_worker_pod_autoscale.Base.{
  ◌+◌, ◌≤◌, ◌≡◌, inl, inr, refl, false, Bool-cases, Option, some, List, [], ◌∷◌, length, Text,
  Outcome, ℤ, pos, pos_part, ◌≤ℤ◌, ◌<ℤ◌, eqb_ℤ, ltb_ℤ, IsCount, wrap32-sub, wrap32_id,
  parts_exclusive, -ℤ_parts, returns, arith, eq_of_parts,
}
use k8s_worker_pod_autoscale.Base.Float.{Float64, zero_float, feq, flt}
use k8s_worker_pod_autoscale.Controller.Desired.{
  IntOrPercent, Conversion, get_max_disruptable_workers, get_min_workers, choose_workers,
  workers_for_backlog, convert_desired_replicas_with_rules, get_desired_workers,
}
use k8s_worker_pod_autoscale.Controller.Scale.{
  HasCooled, get_scale_operation, scale_down, scale_operation_iff,
}

-- One step of the rules downwards, with `k` workers at most.
convert-shrinks :
    (current wanted min max k : ℤ)
    → IsCount current
    → IsCount min
    → IsCount k
    → IsCount wanted
    → wanted ≤ℤ min
    → min <ℤ current
    → current ≤ℤ max
    → pos 1 ≤ℤ k
    → let d = convert_desired_replicas_with_rules current wanted min max k in
      (min ≤ℤ d) × (d <ℤ current)
unfolding convert_desired_replicas_with_rules
convert-shrinks current wanted min max k hc hm hk hw low more cap one =
    rw (wrap32-sub current wanted hc hw, wrap32-sub current k hc hk)
      (ground (arith, -ℤ_parts current wanted, -ℤ_parts current k))

-- No messages, and no time for a job.
choose-shrinks :
    (backlog : ℤ) (sent : Float64) (current idle min max k : ℤ)
    → IsCount current
    → IsCount min
    → IsCount k
    → min <ℤ current
    → current ≤ℤ max
    → pos 1 ≤ℤ k
    → let d = choose_workers backlog (pos 0) sent zero_float current idle min max k in
      (min ≤ℤ d) × (d <ℤ current)
unfolding choose_workers flt
choose-shrinks backlog sent current idle min max k hc hm hk more cap one =
    let partial = convert-shrinks current min min max k hc hm hk hm (omega arith) more cap one in
    let massive =
      convert-shrinks current (pos 0) min max current hc hm hc (omega arith) (omega arith) more cap
        (omega arith) in
    let some_run : eqb_ℤ current (pos 0) ≡ false = ground arith in
    rw some_run (elim (Bool-cases (flt zero_float sent)) [
      | inl e ↦
          rw e
            (elim (Bool-cases (eqb_ℤ current idle)) [ inl i ↦ rw i massive | inr i ↦ rw i partial ])
      | inr e ↦
          rw e
            (elim (Bool-cases (eqb_ℤ current idle)) [ inl i ↦ rw i massive | inr i ↦ rw i partial ])
    ])

-- Each time is one at which the delay is over, counted from the time before it.
abbrev pub Spaced : (delay : ℤ) → Option ℤ → List ℤ → Type 0
Spaced delay last [] = Unit
Spaced delay last (now ∷ times) = HasCooled last delay now × Spaced delay (some now) times

module _ (scaled : IntOrPercent) (other : Conversion) (sent : Float64) (target min max : ℤ)
    (disruption : Text) (idle disruptable : ℤ → ℤ) (delay : ℤ) where
  -- The number of workers that an empty queue wants.
  abbrev pub wants : ℤ → Outcome ℤ
  wants c =
      get_desired_workers scaled other (pos 0) sent zero_float target c (idle c) min max
        (some disruption)

  -- From so many workers, last scaled at that time, the numbers of GetDesiredWorkers and the operations
  -- of GetScaleOperation at the times of the list lead to the other number: each is a scale-down, and
  -- the current number and the time of the next one.
  pub data Reaches : ℤ → Option ℤ → List ℤ → ℤ → Type 0 where
    stays : {c : ℤ} {last : Option ℤ} {times : List ℤ} → Reaches c last times c
    steps :
        {c d e now : ℤ} {last : Option ℤ} {times : List ℤ}
        → wants c ≡ returns d
        → get_scale_operation d c last delay now ≡ scale_down
        → d <ℤ c
        → Reaches d (some now) times e
        → Reaches c last (now ∷ times) e

  module _ (reads : (c : ℤ) → scaled disruption c ≡ some (disruptable c))
      (some_go : (c : ℤ) → pos 1 ≤ℤ c → (pos 1 ≤ℤ disruptable c) × IsCount (disruptable c)) where
    step_down :
        (c : ℤ)
        → pos 1 ≤ℤ c
        → wants c
          ≡ returns (
              choose_workers
                (workers_for_backlog other (pos 0) target)
                (pos 0)
                sent
                zero_float
                c
                (idle c)
                min
                max
                (disruptable c))
    unfolding get_desired_workers get_max_disruptable_workers get_min_workers feq
    step_down c h =
        let (_, count) = some_go c h in
        rw (reads c, get_max_disruptable_workers)
          (rw (wrap32_id (disruptable c) (omega arith, omega arith)) refl)

    drains_within :
        (times : List ℤ) (last : Option ℤ) (current : ℤ)
        → Spaced delay last times
        → IsCount current
        → IsCount min
        → min ≤ℤ current
        → current ≤ℤ max
        → pos_part current ≤ pos_part min + length times
        → Reaches current last times min
    drains_within [] last current spaced hc hm low cap near =
        let same : current ≡ min = eq_of_parts current min (omega arith) in rw same stays
    drains_within (now ∷ times) last current (cooled, spaced) hc hm low cap near =
        elim (Bool-cases (ltb_ℤ min current)) [
          | inl more ↦
              let some_run : pos 1 ≤ℤ current = ground arith in
              let (go, count) = some_go current some_run in
              let (above, below) =
                choose-shrinks (workers_for_backlog other (pos 0) target) sent current
                  (idle current) min max (disruptable current) hc hm count (ground arith) cap go in
              let one_part = parts_exclusive (
                choose_workers (workers_for_backlog other (pos 0) target) (pos 0) sent zero_float
                  current (idle current) min max (disruptable current)) in
              let (_, down, _) = scale_operation_iff _ current last delay now in
              steps (step_down current some_run) (down.1 (below, cooled)) below (
                drains_within times (some now) _ spaced (ground arith, ground arith) hm above
                  (ground arith) (ground arith))
          | inr done ↦
              let same : current ≡ min = eq_of_parts current min (ground arith) in rw same stays
        ]

    -- A queue with no messages whose autoscaler gives no time for a job comes down to MinReplicas by
    -- the numbers of GetDesiredWorkers and the operations of GetScaleOperation, at given times: for a
    -- number of workers between MinReplicas and MaxReplicas, whatever number is idle at each time, if
    -- maxDisruption lets at least one of at least one worker go, if each time lies more than the delay
    -- after the one before it (the first after the last scaling), and if there are at least as many
    -- times as workers above MinReplicas. Until MinReplicas is reached each time gives a scale-down,
    -- of a worker at least. (That the API server accepts each scaling, and the status that keeps its
    -- time, is not part of this.)
    pub drained_to_min_replicas :
        (times : List ℤ) (last : Option ℤ) (current : ℤ)
        → Spaced delay last times
        → IsCount current
        → IsCount min
        → min ≤ℤ current
        → current ≤ℤ max
        → pos_part current ≤ pos_part min + length times
        → Reaches current last times min
    drained_to_min_replicas = drains_within
