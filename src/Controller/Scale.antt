-- ===== src/Controller/Scale.antt =====
-- pkg/controller/scale_operation.go: whether to scale. A time is an integer of nanoseconds, and
-- `now` is what `metav1.Now()` returns; log lines are left out, and the queue's name with them.
use k8s_worker_pod_autoscale.Base.{
  ◌≡◌, ◌↔◌, ◌⊎◌, Bool, true, Option, none, some, Text, codes, if◌then◌else◌, ℤ, ◌+ℤ◌, ◌<ℤ◌, ltb_ℤ,
  eqb_ℤ, arith, eq_of_parts,
}
mod Tests

pub data ScaleOperation : Type 0 where
  scale_up scale_down scale_noop : ScaleOperation

-- nextScaleDownTime.Before(&now). A time of Go has its seconds in 64 bits, which a delay (292 years at
-- most) on the time of a status does not leave, so nothing wraps.
unfoldable pub can_scale_down : Option ℤ → ℤ → ℤ → Bool
can_scale_down none delay now = true
can_scale_down (some last_scale_time) delay now = ltb_ℤ (last_scale_time +ℤ delay) now

unfoldable pub get_scale_operation :
    (desired current : ℤ) → Option ℤ → (delay now : ℤ) → ScaleOperation
unfolding can_scale_down
get_scale_operation desired current last_scale_time delay now =
    if ltb_ℤ current desired
    then scale_up
    else if eqb_ℤ desired current
    then scale_noop
    else if can_scale_down last_scale_time delay now
    then scale_down
    else scale_noop

unfoldable pub scale_op_string : ScaleOperation → Text
scale_op_string scale_up = codes "scale-up"
scale_op_string scale_down = codes "scale-down"
scale_op_string scale_noop = codes "no scaling operation"

-- The last scaling lies more than the delay in the past, or there was none.
abbrev pub HasCooled : Option ℤ → (delay now : ℤ) → Type 0
HasCooled none delay now = Unit
HasCooled (some t) delay now = t +ℤ delay <ℤ now

-- GetScaleOperation scales up exactly if more workers are wanted than run, scales down exactly if
-- fewer are wanted and the last scaling lies more than the delay back (or never was), and does
-- nothing exactly if the numbers agree or fewer are wanted before the delay is over.
pub scale_operation_iff :
    (desired current : ℤ) (last : Option ℤ) (delay now : ℤ)
    → let op = get_scale_operation desired current last delay now in
      ((op ≡ scale_up) ↔ (current <ℤ desired))
      × ((op ≡ scale_down) ↔ ((desired <ℤ current) × HasCooled last delay now))
      × ((op ≡ scale_noop)
          ↔ ((desired ≡ current) ⊎ ((desired <ℤ current) × (¬ HasCooled last delay now))))
unfolding get_scale_operation
scale_operation_iff desired current none delay now = (
  (λ h. ground arith, λ h. ground arith),
  (λ h. ground arith, λ h. ground arith),
  (λ h. ground (arith, eq_of_parts desired current), λ h. ground arith),
)
scale_operation_iff desired current (some t) delay now = (
  (λ h. ground arith, λ h. ground arith),
  (λ h. ground arith, λ h. ground arith),
  (λ h. ground (arith, eq_of_parts desired current), λ h. ground arith),
)
