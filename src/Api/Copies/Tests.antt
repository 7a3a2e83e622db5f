-- ===== src/Api/Copies/Tests.antt =====
-- A copy of a small autoscaler, whose metadata is its name.
use k8s_worker_pod_autoscale.Base.{◌≡◌, refl, none, some, [], ◌∷◌, Text, codes, pos, arith}
use k8s_worker_pod_autoscale.Api.Copies.{
  int32_cell, string_cell, time_cell, Heap, AutoScalerObject, copy_pointer, store, deep_copy,
  deep_copy_pointer, deep_copy_items,
}
use k8s_worker_pod_autoscale.Api.Copies.Separation.{
  AllPointers, IsFresh, spec_values, copy_separate,
}

abbrev copy_name : Text → Heap → Text × Heap
copy_name name h = (name, h)

abbrev heap : Heap
heap =
    int32_cell (pos 0)
    ∷ int32_cell (pos 20)
    ∷ string_cell (codes "50%")
    ∷ int32_cell (pos 2)
    ∷ time_cell (pos 7)
    ∷ []

abbrev object : AutoScalerObject Text
object = record {
  meta = codes "worker";
  spec = record {
    min_replicas = some 0;
    max_replicas = some 1;
    max_disruption = some 2;
    queue_uri = codes "beanstalk://localhost/jobs";
    deployment_name = codes "jobs";
    replica_set_name = [];
    target_messages_per_worker = some 3;
    seconds_to_process_one_job = none;
  };
  status = record {
    current_messages = pos 0;
    current_replicas = pos 0;
    available_replicas = pos 0;
    desired_replicas = pos 0;
    last_scale_time = some 4;
  };
}

-- Four cells are allocated; the time is shared.
copied :
    (((deep_copy copy_name object heap).0.spec.target_messages_per_worker) ≡ some 8)
    × ((deep_copy copy_name object heap).0.status.last_scale_time ≡ some 4)
unfolding deep_copy copy_pointer
copied = (refl, refl)

nil_copied : deep_copy_pointer copy_name none heap ≡ (none, heap)
unfolding deep_copy_pointer
nil_copied = refl

-- The first item's metadata and the second's, in order.
items_copied :
    (deep_copy_items copy_name (object ∷ object ∷ []) heap).0
    ≡ (deep_copy copy_name object heap).0
      ∷ (deep_copy copy_name object (deep_copy copy_name object heap).1).0
      ∷ []
unfolding deep_copy_items
items_copied = refl

copy_separate_example :
    let r = deep_copy copy_name object heap in
    (r.0.meta ≡ (copy_name object.meta heap).0)
    × (spec_values r.0.spec r.1 ≡ spec_values object.spec heap)
    × AllPointers (IsFresh heap) r.0.spec
    × (spec_values object.spec (store 5 (int32_cell (pos 9)) r.1) ≡ spec_values object.spec heap)
    × (r.0.status ≡ object.status)
copy_separate_example =
    copy_separate copy_name object heap (record { more = []; appended = refl })
      (omega arith, omega arith, omega arith, omega arith, tt) 5 (int32_cell (pos 9)) (omega arith)
