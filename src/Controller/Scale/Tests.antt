-- ===== src/Controller/Scale/Tests.antt =====
-- The cases of pkg/controller/scale_operation_test.go, with seconds before a `now` of 100 seconds.
use k8s_worker_pod_autoscale.Base.{refl, ◌≡◌, ◌↔◌, ◌⊎◌, ℤ, pos, Option, none, some, ◌<ℤ◌, ◌+ℤ◌}
use k8s_worker_pod_autoscale.Controller.Scale.{
  ScaleOperation, scale_up, scale_down, scale_noop, can_scale_down, get_scale_operation, HasCooled,
  scale_operation_iff,
}

run : ℤ → ℤ → Option ℤ → ScaleOperation
unfolding get_scale_operation can_scale_down ◌+ℤ◌
run desired current last =
    get_scale_operation desired current last (pos (5_000_000_000)) (pos (100_000_000_000))

cooled : run (pos 5) (pos 10) (some (pos (90_000_000_000))) ≡ scale_down
unfolding run
cooled = refl

too_early : run (pos 5) (pos 10) (some (pos (99_000_000_000))) ≡ scale_noop
unfolding run
too_early = refl

never_scaled : run (pos 5) (pos 10) none ≡ scale_down
unfolding run
never_scaled = refl

up_at_once : run (pos 15) (pos 10) (some (pos (99_000_000_000))) ≡ scale_up
unfolding run
up_at_once = refl

nothing_to_do : run (pos 10) (pos 10) (some (pos (99_000_000_000))) ≡ scale_noop
unfolding run
nothing_to_do = refl

scale_operation_iff_example :
    let op = get_scale_operation (pos 5) (pos 10) (some (pos 99)) (pos 5) (pos 100) in
    ((op ≡ scale_up) ↔ (pos 10 <ℤ pos 5))
    × ((op ≡ scale_down) ↔ ((pos 5 <ℤ pos 10) × HasCooled (some (pos 99)) (pos 5) (pos 100)))
    × ((op ≡ scale_noop) ↔ (
        (pos 5 ≡ pos 10) ⊎ ((pos 5 <ℤ pos 10) × (¬ HasCooled (some (pos 99)) (pos 5) (pos 100)))))
scale_operation_iff_example = scale_operation_iff (pos 5) (pos 10) (some (pos 99)) (pos 5) (pos 100)
