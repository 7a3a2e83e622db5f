-- ===== src/Base/Texts.antt =====
-- A Go string is its bytes. Tests and the functions of `strings` and `path` that the code calls.
use Prim.Native.Nat.{ℕ, ◌+◌, ◌-◌, ◌*◌, ◌^◌}
use Prim.Native.Char.{code}
use Prim.Native.String.{String}
use mathlib.Core.Path.{◌≡◌, refl}
use mathlib.Core.Logic.{◌≢◌, ◌↔◌}
use mathlib.Core.Bool.{Bool, true, false, ◌&&◌}
use mathlib.Core.List.{List, [], ◌∷◌, ◌++◌}
use mathlib.Core.Option.{Option, none, some}
use native.Mathlib.Omega.{arith}
use k8s_worker_pod_autoscale.Base.Ints.{ℤ, pos, negsuc, sub_ℕ, IsInt32}
use k8s_worker_pod_autoscale.Base.Tests.{if◌then◌else◌, ltb, leb, ◌==◌, if◌then◌else◌}
use k8s_worker_pod_autoscale.Base.Lists.{All}

abbrev pub Text : Type 0
Text = List ℕ

-- The bytes of an ASCII literal.
abbrev pub codes : String → Text
codes String.[] = []
codes (String.◌∷◌ c s) = code c ∷ codes s

-- s == t
unfoldable pub text_eq : Text → Text → Bool
text_eq [] [] = true
text_eq [] (d ∷ t) = false
text_eq (c ∷ s) [] = false
text_eq (c ∷ s) (d ∷ t) = c == d && text_eq s t

pub text_eq_iff : (s t : Text) → (text_eq s t ≡ true) ↔ (s ≡ t)
unfolding text_eq
text_eq_iff [] [] = (λ h. refl, λ h. refl)
text_eq_iff [] (d ∷ t) = (λ h. cc, λ h. cc)
text_eq_iff (c ∷ s) [] = (λ h. cc, λ h. cc)
text_eq_iff (c ∷ s) (d ∷ t) =
    (λ h. ground (arith, text_eq_iff s t), λ h. ground (arith, text_eq_iff s t))

pub text_eq_refl : (s : Text) → text_eq s s ≡ true
text_eq_refl s = (text_eq_iff s s).1 refl

-- s == ""
abbrev pub is_empty : Text → Bool
is_empty [] = true
is_empty (c ∷ s) = false

abbrev pub slash : ℕ
slash = b'/'

-- No byte of the text is `b`.
abbrev pub Lacks : ℕ → Text → Type 0
Lacks b = All (λ c. c ≢ b)

-- strings.Split(s, sep) for a separator of one byte; `cur` is the part under way.
unfoldable pub split_from : ℕ → Text → Text → List Text
split_from sep cur [] = cur ∷ []
split_from sep cur (c ∷ s) = elim (c == sep) [
  | true ↦ cur ∷ split_from sep [] s
  | false ↦ split_from sep (cur ++ c ∷ []) s
]

unfoldable pub split : ℕ → Text → List Text
unfolding split_from
split sep s = split_from sep [] s

-- parts[len(parts)-1]; `d` stands for the parts before it, and is the result on an empty slice.
unfoldable pub last_or : Text → List Text → Text
last_or d [] = d
last_or d (p ∷ ps) = last_or p ps

-- parts[i], none where Go panics.
abbrev pub part_at : ℕ → List Text → Option Text
part_at i [] = none
part_at ℕ.zero (p ∷ ps) = some p
part_at (ℕ.suc i) (p ∷ ps) = part_at i ps

-- A sequence of decimal digits behind the number `n`; none on any other byte.
unfoldable pub digits_value : ℕ → Text → Option ℕ
digits_value n [] = some n
digits_value n (c ∷ s) =
    let rest = digits_value (n * 10 + (c - b'0')) s in
    if leb b'0' c && leb c b'9' then rest else none

unfoldable pub decimal : Text → Option ℕ
unfolding digits_value
decimal [] = none
decimal (c ∷ s) = digits_value 0 (c ∷ s)

negative_int32 : Option ℕ → Option ℤ
negative_int32 none = none
negative_int32 (some n) = if leb n (2 ^ 31) then some (sub_ℕ 0 n) else none

positive_int32 : Option ℕ → Option ℤ
positive_int32 none = none
positive_int32 (some n) = if ltb n (2 ^ 31) then some (pos n) else none

-- strconv.ParseInt(s, 10, 32); none is an error.
unfoldable pub parse_int32 : Text → Option ℤ
unfolding decimal negative_int32 positive_int32
parse_int32 [] = none
parse_int32 (c ∷ s) =
    if c == b'-'
    then negative_int32 (decimal s)
    else if c == b'+'
    then positive_int32 (decimal s)
    else positive_int32 (decimal (c ∷ s))

pub parse_int32-IsInt32 : (s : Text) {n : ℤ} → parse_int32 s ≡ some n → IsInt32 n
unfolding parse_int32
parse_int32-IsInt32 [] h = cc
parse_int32-IsInt32 (c ∷ s) h = ground arith

parse_int32_tests :
    (parse_int32 (codes "-12") ≡ some (negsuc 11))
    × (parse_int32 (codes "2147483648") ≡ none)
    × (parse_int32 (codes "+7") ≡ some (pos 7))
    × (parse_int32 (codes "-") ≡ none)
unfolding parse_int32
parse_int32_tests = (refl, refl, refl, refl)

-- The last part that is not empty, or `d`.
last_nonempty : Text → List Text → Text
last_nonempty d [] = d
last_nonempty d (p ∷ ps) = last_nonempty (if is_empty p then d else p) ps

-- path.Base: the last element of a path, `.` if it is empty, `/` if it is slashes alone.
unfoldable pub base : Text → Text
unfolding last_nonempty
base [] = codes "."
base (c ∷ s) = last_nonempty (codes "/") (split slash (c ∷ s))

base_tests :
    (base (codes "a/b/c") ≡ codes "c")
    × (base (codes "a/b//") ≡ codes "b")
    × (base (codes "//") ≡ codes "/")
unfolding base split
base_tests = (refl, refl, refl)
