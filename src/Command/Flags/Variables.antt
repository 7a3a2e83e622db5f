-- ===== src/Command/Flags/Variables.antt =====
-- No two flags share a variable of the environment.
use k8s_worker_pod_autoscale.Base.{
  ◌≡◌, refl, sym, ◌∙◌, ap, ◌⊎◌, inl, inr, ℕ, ◌≤◌, Bool, ◌&&◌, List, [], ◌∷◌, map, All, Any, Text,
  Bool-cases, Outcome, returns, fatal, arith, Outcome-returns_inj,
}
use k8s_worker_pod_autoscale.Command.Flags.{
  Default, to_upper, underscored, variable_of, is_declared, bind_flags,
}

-- A small letter, a digit or a dash.
abbrev pub IsFlagByte : ℕ → Type 0
IsFlagByte c = ((b'a' ≤ c) × (c ≤ b'z')) ⊎ ((b'0' ≤ c) × (c ≤ b'9')) ⊎ (c ≡ b'-')

byte_inj :
    (c d : ℕ)
    → IsFlagByte c
    → IsFlagByte d
    → underscored (to_upper c) ≡ underscored (to_upper d)
    → c ≡ d
unfolding underscored to_upper
byte_inj c d hc hd e = ground (arith, e, hc, hd)

tail_of : Text → Text
tail_of [] = []
tail_of (c ∷ s) = s

same_head : {c d : ℕ} {s t : Text} → c ∷ s ≡ d ∷ t → c ≡ d
same_head e = cc

name_inj :
    (m n : Text)
    → All IsFlagByte m
    → All IsFlagByte n
    → map underscored (map to_upper m) ≡ map underscored (map to_upper n)
    → m ≡ n
unfolding tail_of
name_inj [] [] hm hn e = refl
name_inj [] (d ∷ n) hm hn e = absurd cc
name_inj (c ∷ m) [] hm hn e = absurd cc
name_inj (c ∷ m) (d ∷ n) (hc, hm) (hd, hn) e =
    let head : c ≡ d = byte_inj c d hc hd (same_head e) in
    let tail : m ≡ n = name_inj m n hm hn (ap tail_of e) in rw (head, tail) refl

-- The same root in front makes no difference.
variable_inj :
    (root m n : Text)
    → All IsFlagByte m
    → All IsFlagByte n
    → variable_of root m ≡ variable_of root n
    → m ≡ n
unfolding variable_of tail_of
variable_inj [] m n hm hn e = name_inj m n hm hn (ap tail_of e)
variable_inj (c ∷ root) m n hm hn e = variable_inj root m n hm hn (ap tail_of e)

-- A flag with its variable.
abbrev pub with_variable : (root name : Text) → Text × Text
with_variable root name = (name, variable_of root name)

bound_more :
    (root name : Text) (names : List Text) (rest : Outcome (List (Text × Text)))
    {bound : List (Text × Text)}
    → ((more : List (Text × Text)) → rest ≡ returns more → more ≡ map (with_variable root) names)
    → elim rest [ fatal ↦ fatal | returns more ↦ returns (with_variable root name ∷ more) ]
      ≡ returns bound
    → bound ≡ map (with_variable root) (name ∷ names)
bound_more root name names fatal h e = absurd cc
bound_more root name names (returns more) h e =
    sym (Outcome-returns_inj e) ∙ ap (λ l. with_variable root name ∷ l) (h more refl)

bound_all :
    (binds : (name variable : Text) → Bool) (declared : List (Text × Default)) (root : Text)
    (names : List Text) {bound : List (Text × Text)}
    → bind_flags binds declared root names ≡ returns bound
    → bound ≡ map (with_variable root) names
unfolding bind_flags
bound_all binds declared root [] e = sym (Outcome-returns_inj e)
bound_all binds declared root (name ∷ names) e =
    elim (Bool-cases (is_declared name declared && binds name (variable_of root name))) [
      | inr b ↦ absurd (let e' = (rw b at e) in cc)
      | inl b ↦
          bound_more root name names _ (λ more. bound_all binds declared root names) (rw b at e)
    ]

-- The flag that has a variable among those of the names.
found_name :
    (root : Text) (names : List Text) (m v : Text)
    → All (All IsFlagByte) names
    → Any (λ b. b ≡ (m, v)) (map (with_variable root) names)
    → All IsFlagByte m × (v ≡ variable_of root m)
found_name root [] m v h a = absurd a
found_name root (n ∷ names) m v (hn, h) (inl e) =
    let same : n ≡ m = ap (λ b. b.0) e in (rw same at hn, (rw same at (sym (ap (λ b. b.1) e))))
found_name root (n ∷ names) m v (hn, h) (inr a) = found_name root names m v h a

-- No two flags share a variable of the environment: once the names are bound, which are of small
-- letters, digits and dashes, each of them is bound to its own variable, in their order, and two that
-- have the same variable are the same flag. The root may be any text.
pub flags_bound_apart :
    (binds : (name variable : Text) → Bool) (declared : List (Text × Default)) (root : Text)
    (names : List Text) {bound : List (Text × Text)}
    → All (All IsFlagByte) names
    → bind_flags binds declared root names ≡ returns bound
    → (m n variable : Text) → Any (λ b. b ≡ (m, variable)) bound
    → Any (λ b. b ≡ (n, variable)) bound
    → (bound ≡ map (with_variable root) names) × (m ≡ n)
flags_bound_apart binds declared root names h e m n variable at_m at_n =
    let all = bound_all binds declared root names e in
    let (hm, em) = found_name root names m variable h (rw all at at_m) in
    let (hn, en) = found_name root names n variable h (rw all at at_n) in
    (all, variable_inj root m n hm hn (sym em ∙ en))
