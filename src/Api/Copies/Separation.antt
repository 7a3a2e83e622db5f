-- ===== src/Api/Copies/Separation.antt =====
-- A copy of an autoscaler is equal to it and shares none of its pointers, but for one.
use mathlib.Core.List.{append_assoc, append-nil}
use k8s_worker_pod_autoscale.Base.{
  ℕ, zero, suc, ◌+◌, ◌≤◌, ◌<◌, ◌≡◌, refl, sym, ap, ◌∙◌, Option, none, some, [], ◌∷◌, ◌++◌, length,
  Text, arith,
}
use k8s_worker_pod_autoscale.Api.Copies.{
  Cell, Heap, Pointer, cell_at, deref, store, SpecObject, AutoScalerObject, copy_cell, copy_pointer,
  deep_copy_spec, deep_copy, deep_copy_status,
}

-- The heap grew; nothing that was there has changed.
pub record Extends (h h' : Heap) : Type 0 where
  pub more : Heap
  pub appended : h' ≡ h ++ more

abbrev pub IsIn : Heap → Pointer → Type 0
IsIn h none = Unit
IsIn h (some a) = a < length h

-- Nil, or allocated since the heap was `h`.
abbrev pub IsFresh : Heap → Pointer → Type 0
IsFresh h none = Unit
IsFresh h (some a) = length h ≤ a

Extends-trans : {h h' h'' : Heap} → Extends h h' → Extends h' h'' → Extends h h''
Extends-trans {h} e f = record {
  more = e.more ++ f.more;
  appended = f.appended ∙ ap (λ x. x ++ f.more) e.appended ∙ append_assoc h e.more f.more;
}

Extends-refl : (h : Heap) → Extends h h
Extends-refl h = record { more = []; appended = sym (append-nil h) }

length-append : (h m : Heap) → length (h ++ m) ≡ length h + length m
length-append [] m = omega arith
length-append (c ∷ h) m = omega (arith, length-append h m)

Extends-length : {h h' : Heap} → Extends h h' → length h ≤ length h'
Extends-length {h} e = omega (arith, ap length e.appended, length-append h e.more)

cell_at-append : (a : ℕ) (h m : Heap) → a < length h → cell_at a (h ++ m) ≡ cell_at a h
cell_at-append a [] m held = absurd (omega (arith, held))
cell_at-append zero (c ∷ h) m held = refl
cell_at-append (suc a) (c ∷ h) m held = cell_at-append a h m (omega (arith, held))

deref-Extends : (p : Pointer) {h h' : Heap} → Extends h h' → IsIn h p → deref p h' ≡ deref p h
deref-Extends none e i = refl
deref-Extends (some a) {h} e i = ap (cell_at a) e.appended ∙ cell_at-append a h e.more i

IsIn-Extends : (p : Pointer) {h h' : Heap} → Extends h h' → IsIn h p → IsIn h' p
IsIn-Extends none e i = tt
IsIn-Extends (some a) e i = omega (arith, Extends-length e, i)

IsFresh-Extends : (p : Pointer) {h h' : Heap} → Extends h h' → IsFresh h' p → IsFresh h p
IsFresh-Extends none e i = tt
IsFresh-Extends (some a) e i = omega (arith, Extends-length e, i)

cell_at-last : (h : Heap) (c : Cell) → cell_at (length h) (h ++ c ∷ []) ≡ some c
cell_at-last [] c = refl
cell_at-last (d ∷ h) c = cell_at-last h c

-- A copied pointer: what holds of it in the heap after it.
record IsCopied (p p' : Pointer) (h h' : Heap) : Type 0 where
  grown : Extends h h'
  fresh : IsFresh h p'
  inside : IsIn h' p'
  equal : deref p' h' ≡ deref p h

copy_cell-IsCopied :
    (p : Pointer) (o : Option Cell) (h : Heap)
    → deref p h ≡ o
    → IsCopied p (copy_cell o h).0 h (copy_cell o h).1
copy_cell-IsCopied p none h e = record {
  grown = Extends-refl h;
  fresh = tt;
  inside = tt;
  equal = sym e;
}
copy_cell-IsCopied p (some c) h e = record {
  grown = record { more = c ∷ []; appended = refl };
  fresh = omega arith;
  inside = omega (arith, length-append h (c ∷ []));
  equal = cell_at-last h c ∙ sym e;
}

copy-IsCopied : (p : Pointer) (h : Heap) → IsCopied p (copy_pointer p h).0 h (copy_pointer p h).1
unfolding copy_pointer
copy-IsCopied p h = copy_cell-IsCopied p (deref p h) h refl

-- The same seen from a heap before it and one behind it.
IsCopied-between :
    {p p' : Pointer} {h₀ h h' h₉ : Heap}
    → Extends h₀ h
    → IsIn h₀ p
    → IsCopied p p' h h'
    → Extends h' h₉
    → IsFresh h₀ p' × (deref p' h₉ ≡ deref p h₀)
IsCopied-between {p} {p'} before held c behind = (
  IsFresh-Extends p' before c.fresh,
  deref-Extends p' behind c.inside ∙ c.equal ∙ deref-Extends p before held,
)

-- Every pointer of the specification has the property.
abbrev pub AllPointers : (Pointer → Type 0) → SpecObject → Type 0
AllPointers P spec =
    P spec.min_replicas
    × P spec.max_replicas
    × P spec.max_disruption
    × P spec.target_messages_per_worker
    × P spec.seconds_to_process_one_job

-- The values that a specification has.
abbrev pub spec_values :
    SpecObject
    → Heap
    → Text × Text × Text × Option Cell × Option Cell × Option Cell × Option Cell × Option Cell
spec_values spec h = (
  spec.queue_uri,
  spec.deployment_name,
  spec.replica_set_name,
  deref spec.min_replicas h,
  deref spec.max_replicas h,
  deref spec.max_disruption h,
  deref spec.target_messages_per_worker h,
  deref spec.seconds_to_process_one_job h,
)

-- A copy of a specification in a heap that has grown since.
pub record IsSeparate (spec spec' : SpecObject) (h h' : Heap) : Type 0 where
  pub grown : Extends h h'
  pub fresh : AllPointers (IsFresh h) spec'
  pub equal : spec_values spec' h' ≡ spec_values spec h

spec-IsSeparate :
    (spec : SpecObject) {h₀ : Heap} (h : Heap)
    → Extends h₀ h
    → AllPointers (IsIn h₀) spec
    → IsSeparate spec (deep_copy_spec spec h).0 h₀ (deep_copy_spec spec h).1
unfolding deep_copy_spec
spec-IsSeparate spec {h₀} h e (i₁, i₂, i₃, i₄, i₅) =
    let c₁ = copy-IsCopied spec.min_replicas h in
    let h₁ = (copy_pointer spec.min_replicas h).1 in
    let c₂ = copy-IsCopied spec.max_replicas h₁ in
    let h₂ = (copy_pointer spec.max_replicas h₁).1 in
    let c₃ = copy-IsCopied spec.max_disruption h₂ in
    let h₃ = (copy_pointer spec.max_disruption h₂).1 in
    let c₄ = copy-IsCopied spec.target_messages_per_worker h₃ in
    let h₄ = (copy_pointer spec.target_messages_per_worker h₃).1 in
    let c₅ = copy-IsCopied spec.seconds_to_process_one_job h₄ in
    let e₁ : Extends h₀ h₁ = Extends-trans e c₁.grown in
    let e₂ : Extends h₀ h₂ = Extends-trans e₁ c₂.grown in
    let e₃ : Extends h₀ h₃ = Extends-trans e₂ c₃.grown in
    let e₄ : Extends h₀ h₄ = Extends-trans e₃ c₄.grown in
    let h₅ = (copy_pointer spec.seconds_to_process_one_job h₄).1 in
    let b₄ : Extends h₄ h₅ = c₅.grown in
    let b₃ : Extends h₃ h₅ = Extends-trans c₄.grown b₄ in
    let b₂ : Extends h₂ h₅ = Extends-trans c₃.grown b₃ in
    let b₁ : Extends h₁ h₅ = Extends-trans c₂.grown b₂ in
    let r₁ = IsCopied-between e i₁ c₁ b₁ in
    let r₂ = IsCopied-between e₁ i₂ c₂ b₂ in
    let r₃ = IsCopied-between e₂ i₃ c₃ b₃ in
    let r₄ = IsCopied-between e₃ i₄ c₄ b₄ in
    let r₅ = IsCopied-between e₄ i₅ c₅ (Extends-refl h₅) in
    record {
      grown = Extends-trans e₄ c₅.grown;
      fresh = (r₁.0, r₂.0, r₃.0, r₄.0, r₅.0);
      equal = rw (r₁.1, r₂.1, r₃.1, r₄.1, r₅.1) refl;
    }

cell_at-store : (a b : ℕ) (c : Cell) (h : Heap) → b < a → cell_at b (store a c h) ≡ cell_at b h
unfolding store
cell_at-store a b c [] less = refl
cell_at-store zero b c (d ∷ h) less = absurd (omega (arith, less))
cell_at-store (suc a) zero c (d ∷ h) less = refl
cell_at-store (suc a) (suc b) c (d ∷ h) less = cell_at-store a b c h (omega (arith, less))

-- A write through a fresh pointer is not seen through an older one.
deref-store :
    (p : Pointer) {h h' : Heap} (a : ℕ) (c : Cell)
    → Extends h h'
    → IsFresh h (some a)
    → IsIn h p
    → deref p (store a c h') ≡ deref p h
deref-store none a c e f i = refl
deref-store (some b) {h} {h'} a c e f i =
    cell_at-store a b c h' (omega (arith, f, i)) ∙ deref-Extends (some b) e i

module _ {Meta : Type 0} (copy_meta : Meta → Heap → Meta × Heap) (o : AutoScalerObject Meta)
    (h : Heap) where
  -- DeepCopy of an autoscaler, where the copy of the metadata does not change what was allocated
  -- before: the metadata is that copy, the URI and the names of the specification are the same, and
  -- its pointers point to the same values; each of them is nil or an address that was not there
  -- before, and a write of anything at such an address leaves all values of the original's
  -- specification as they were. The status is the original's in every field, so the time of the last
  -- scaling is not copied: its pointer is the original's.
  pub copy_separate :
      Extends h (copy_meta o.meta h).1
      → AllPointers (IsIn h) o.spec
      → (a : ℕ) (c : Cell) → IsFresh h (some a)
      → let r = deep_copy copy_meta o h in
        (r.0.meta ≡ (copy_meta o.meta h).0)
        × (spec_values r.0.spec r.1 ≡ spec_values o.spec h)
        × AllPointers (IsFresh h) r.0.spec
        × (spec_values o.spec (store a c r.1) ≡ spec_values o.spec h)
        × (r.0.status ≡ o.status)
  unfolding deep_copy deep_copy_status
  copy_separate e (i₁, i₂, i₃, i₄, i₅) a c f =
      let s = spec-IsSeparate o.spec (copy_meta o.meta h).1 e (i₁, i₂, i₃, i₄, i₅) in
      (
        refl,
        s.equal,
        s.fresh,
        rw
            (
              deref-store o.spec.min_replicas a c s.grown f i₁,
              deref-store o.spec.max_replicas a c s.grown f i₂,
              deref-store o.spec.max_disruption a c s.grown f i₃,
              deref-store o.spec.target_messages_per_worker a c s.grown f i₄,
              deref-store o.spec.seconds_to_process_one_job a c s.grown f i₅,
            )
            refl,
        refl,
      )
