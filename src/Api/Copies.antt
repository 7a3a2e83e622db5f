-- ===== src/Api/Copies.antt =====
-- pkg/apis/workerpodautoscaler/v1/zz_generated.deepcopy.go: the copies of an autoscaler, with its
-- pointers. The heap is the list of what was allocated, an address is a place in it. The copy of the
-- metadata is that of k8s.io/apimachinery.
pub mod Separation
pub mod Tests
use k8s_worker_pod_autoscale.Base.{
  ℕ, zero, suc, Option, none, some, List, [], ◌∷◌, ◌++◌, length, Text, ℤ,
}
use k8s_worker_pod_autoscale.Base.Float.{Float64}

-- What a pointer of these types points to.
pub data Cell : Type 0 where
  int32_cell : ℤ → Cell
  string_cell : Text → Cell
  float64_cell : Float64 → Cell
  time_cell : ℤ → Cell

abbrev pub Heap : Type 0
Heap = List Cell

-- Nil, or an address.
abbrev pub Pointer : Type 0
Pointer = Option ℕ

abbrev pub cell_at : ℕ → Heap → Option Cell
cell_at a [] = none
cell_at zero (c ∷ h) = some c
cell_at (suc a) (c ∷ h) = cell_at a h

-- *p
abbrev pub deref : Pointer → Heap → Option Cell
deref none h = none
deref (some a) h = cell_at a h

-- *p = c
unfoldable pub store : ℕ → Cell → Heap → Heap
store a c [] = []
store zero c (d ∷ h) = c ∷ h
store (suc a) c (d ∷ h) = d ∷ store a c h

pub record SpecObject : Type 0 where
  pub min_replicas : Pointer
  pub max_replicas : Pointer
  pub max_disruption : Pointer
  pub queue_uri : Text
  pub deployment_name : Text
  pub replica_set_name : Text
  pub target_messages_per_worker : Pointer
  pub seconds_to_process_one_job : Pointer

pub record StatusObject : Type 0 where
  pub current_messages : ℤ
  pub current_replicas : ℤ
  pub available_replicas : ℤ
  pub desired_replicas : ℤ
  pub last_scale_time : Pointer

pub record AutoScalerObject (Meta : Type 0) : Type 0 where
  pub meta : Meta
  pub spec : SpecObject
  pub status : StatusObject

-- *out = new(T); **out = **in, behind the test for nil. (No pointer of a Go program dangles.)
abbrev pub copy_cell : Option Cell → Heap → Pointer × Heap
copy_cell none h = (none, h)
copy_cell (some c) h = (some (length h), h ++ c ∷ [])

unfoldable pub copy_pointer : Pointer → Heap → Pointer × Heap
copy_pointer p h = copy_cell (deref p h) h

unfoldable pub deep_copy_spec : SpecObject → Heap → SpecObject × Heap
deep_copy_spec spec h =
    let (min, h₁) = copy_pointer spec.min_replicas h in
    let (max, h₂) = copy_pointer spec.max_replicas h₁ in
    let (disruption, h₃) = copy_pointer spec.max_disruption h₂ in
    let (target, h₄) = copy_pointer spec.target_messages_per_worker h₃ in
    let (seconds, h₅) = copy_pointer spec.seconds_to_process_one_job h₄ in
    (
      record spec {
        min_replicas = min;
        max_replicas = max;
        max_disruption = disruption;
        target_messages_per_worker = target;
        seconds_to_process_one_job = seconds;
      },
      h₅,
    )

-- *out = *in
unfoldable pub deep_copy_status : StatusObject → StatusObject
deep_copy_status status = status

-- `DeepCopyInto` of an autoscaler: the metadata, the spec and the status, in this order.
unfoldable pub deep_copy :
    {Meta : Type 0}
    → (copy_meta : Meta → Heap → Meta × Heap) → AutoScalerObject Meta
    → Heap
    → AutoScalerObject Meta × Heap
unfolding deep_copy_spec deep_copy_status
deep_copy copy_meta o h =
    let (meta, h₁) = copy_meta o.meta h in
    let (spec, h₂) = deep_copy_spec o.spec h₁ in
    (record { meta = meta; spec = spec; status = deep_copy_status o.status }, h₂)

-- `DeepCopy` of a pointer that may be nil.
unfoldable pub deep_copy_pointer :
    {Meta : Type 0}
    → (copy_meta : Meta → Heap → Meta × Heap) → Option (AutoScalerObject Meta)
    → Heap
    → Option (AutoScalerObject Meta) × Heap
unfolding deep_copy
deep_copy_pointer copy_meta none h = (none, h)
deep_copy_pointer copy_meta (some o) h = let (o', h') = deep_copy copy_meta o h in (some o', h')

-- The items of a list, one after the other.
unfoldable pub deep_copy_items :
    {Meta : Type 0}
    → (copy_meta : Meta → Heap → Meta × Heap) → List (AutoScalerObject Meta)
    → Heap
    → List (AutoScalerObject Meta) × Heap
unfolding deep_copy
deep_copy_items copy_meta [] h = ([], h)
deep_copy_items copy_meta (o ∷ os) h =
    let (o', h₁) = deep_copy copy_meta o h in
    let (os', h₂) = deep_copy_items copy_meta os h₁ in (o' ∷ os', h₂)
