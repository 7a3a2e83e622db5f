-- ===== src/Command/Flags/Tests.antt =====
-- The flags of the program.
use k8s_worker_pod_autoscale.Base.{
  ◌≡◌, refl, inl, inr, ℕ, leb, ◌==◌, Bool, true, false, ◌&&◌, ◌||◌, List, [], ◌∷◌, map, All, Text,
  codes, text_eq, returns, Bool-cases, arith, if◌then◌else◌,
}
use k8s_worker_pod_autoscale.Command.Flags.{
  declared_flags, flag_names, variable_of, bind_flags, is_declared, to_upper, underscored,
}
use k8s_worker_pod_autoscale.Command.Flags.Variables.{IsFlagByte, with_variable, flags_bound_apart}

unfoldable is_flag_byte : ℕ → Bool
is_flag_byte c = (leb b'a' c && leb c b'z') || ((leb b'0' c && leb c b'9') || (c == b'-'))

is_flag_byte-IsFlagByte : (c : ℕ) → is_flag_byte c ≡ true → IsFlagByte c
unfolding is_flag_byte
is_flag_byte-IsFlagByte c e = ground (arith, e)

unfoldable all_flag_bytes : Text → Bool
all_flag_bytes [] = true
all_flag_bytes (c ∷ s) = let rest = all_flag_bytes s in if is_flag_byte c then rest else false

all_flag_bytes-All : (s : Text) → all_flag_bytes s ≡ true → All IsFlagByte s
unfolding all_flag_bytes
all_flag_bytes-All [] e = tt
all_flag_bytes-All (c ∷ s) e = elim (Bool-cases (is_flag_byte c)) [
  | inl b ↦ (is_flag_byte-IsFlagByte c b, all_flag_bytes-All s (rw b at e))
  | inr b ↦ absurd (let e' = (rw b at e) in cc)
]

unfoldable all_flag_names : List Text → Bool
all_flag_names [] = true
all_flag_names (s ∷ names) =
    let rest = all_flag_names names in if all_flag_bytes s then rest else false

all_flag_names-All : (names : List Text) → all_flag_names names ≡ true → All (All IsFlagByte) names
unfolding all_flag_names
all_flag_names-All [] e = tt
all_flag_names-All (s ∷ names) e = elim (Bool-cases (all_flag_bytes s)) [
  | inl b ↦ (all_flag_bytes-All s b, all_flag_names-All names (rw b at e))
  | inr b ↦ absurd (let e' = (rw b at e) in cc)
]

abbrev root : Text
root = codes "workerpodautoscaler"

-- Each name of `flagNames` is declared.
all_bound :
    bind_flags (λ name variable. true) declared_flags root flag_names
    ≡ returns (map (with_variable root) flag_names)
unfolding bind_flags declared_flags flag_names is_declared text_eq
all_bound = refl

namespace_variable : variable_of root (codes "namespace") ≡ codes "WORKERPODAUTOSCALER_NAMESPACE"
unfolding variable_of to_upper underscored
namespace_variable = refl

flags_bound_apart_example :
    (map (with_variable root) flag_names ≡ map (with_variable root) flag_names)
    × (codes "resync-period" ≡ codes "resync-period")
unfolding flag_names all_flag_names all_flag_bytes is_flag_byte
flags_bound_apart_example =
    flags_bound_apart (λ name variable. true) declared_flags root flag_names
      (all_flag_names-All flag_names refl) all_bound (codes "resync-period") (codes "resync-period")
      (variable_of root (codes "resync-period")) (inr (inl refl)) (inr (inl refl))
