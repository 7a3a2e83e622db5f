-- ===== src/Base/Float.antt =====
-- Go's float64 by IEEE 754: round to nearest even, gradual underflow, infinities and NaN, with the
-- operations that the code uses. `fin s m e` is the number (-1)^s * m * 2^(e - 1074), so every
-- finite double has a natural exponent `e`. The number m is below 2^53.
pub mod Rounding
pub mod Quotient
pub mod Tenth
use k8s_worker_pod_autoscale.Base.{
  ℕ, zero, suc, ◌+◌, ◌-◌, ◌*◌, ◌/◌, ◌%◌, ◌^◌, Bool, true, false, ◌≡◌, refl, ◌&&◌, ◌||◌, not, ltb,
  leb, ◌==◌, if◌then◌else◌, ℤ, pos, negsuc, sub_ℕ, IsInt32, arith,
}

pub data Float64 : Type 0 where
  nan : Float64
  inf : (sign : Bool) → Float64
  fin : (sign : Bool) (m e : ℕ) → Float64

-- How many bits of `q` are beyond the 53 of a mantissa; the fuel bounds the answer.
pub excess : ℕ → ℕ → ℕ
excess zero q = 0
excess (suc f) q = let rest = excess f (q / 2) in if ltb q (2 ^ 53) then 0 else suc rest

-- n / d to the nearest integer, ties to even.
pub half_even : ℕ → ℕ → ℕ
half_even n d =
    let q = n / d in let r = 2 * (n % d) in if ltb r d || (r == d && q % 2 == 0) then q else q + 1

-- A mantissa that was rounded up to 2^53 goes to the next exponent; a large exponent overflows.
pub pack : Bool → ℕ → ℕ → Float64
pack s m e =
    let m' = if m == 2 ^ 53 then 2 ^ 52 else m in
    let e' = if m == 2 ^ 53 then e + 1 else e in if ltb 2045 e' then inf s else fin s m' e'

-- Exponents stay below 3 * 2046, so this fuel exceeds the bits of every quotient that is rounded.
abbrev pub max_bits : ℕ
max_bits = 6200

-- The double nearest to n / d units of 2^-1074.
unfoldable pub round : Bool → ℕ → ℕ → Float64
unfolding excess half_even pack
round s n d = let e = excess max_bits (n / d) in pack s (half_even n (d * 2 ^ e)) e

abbrev pub one_unit : ℕ
one_unit = 2 ^ 1074

-- float64(n)
unfoldable pub of_int : ℤ → Float64
unfolding round
of_int (pos n) = round false (n * one_unit) 1
of_int (negsuc n) = round true (suc n * one_unit) 1

-- The constant n / d of the source.
unfoldable pub of_ratio : ℕ → ℕ → Float64
unfolding round
of_ratio n d = round false (n * one_unit) d

abbrev pub zero_float : Float64
zero_float = fin false 0 0

abbrev pub xor : Bool → Bool → Bool
xor true b = not b
xor false b = b

-- x * y
unfoldable pub mul : Float64 → Float64 → Float64
unfolding round
mul nan y = nan
mul (inf s) nan = nan
mul (inf s) (inf t) = inf (xor s t)
mul (inf s) (fin t m e) = if m == 0 then nan else inf (xor s t)
mul (fin s m e) nan = nan
mul (fin s m e) (inf t) = if m == 0 then nan else inf (xor s t)
mul (fin s m e) (fin t m' e') = round (xor s t) (m * m' * 2 ^ (e + e')) one_unit

-- x / y
unfoldable pub div : Float64 → Float64 → Float64
unfolding round
div nan y = nan
div (inf s) nan = nan
div (inf s) (inf t) = nan
div (inf s) (fin t m e) = inf (xor s t)
div (fin s m e) nan = nan
div (fin s m e) (inf t) = fin (xor s t) 0 0
div (fin s m e) (fin t m' e') =
    if m' == 0
    then (if m == 0 then nan else inf (xor s t))
    else round (xor s t) (m * 2 ^ e * one_unit) (m' * 2 ^ e')

-- A sum in units, by its positive and its negative part; a zero sum of unlike signs is +0.
signed_round : ℕ → ℕ → Float64
unfolding round
signed_round p n = if ltb p n then round true (n - p) 1 else round false (p - n) 1

same_sign : Bool → Bool → Bool
same_sign s t = not (xor s t)

-- x + y
unfoldable pub add : Float64 → Float64 → Float64
unfolding round signed_round same_sign
add nan y = nan
add (inf s) nan = nan
add (inf s) (inf t) = if same_sign s t then inf s else nan
add (inf s) (fin t m e) = inf s
add (fin s m e) nan = nan
add (fin s m e) (inf t) = inf t
add (fin true m e) (fin true m' e') = round true (m * 2 ^ e + m' * 2 ^ e') 1
add (fin true m e) (fin false m' e') = signed_round (m' * 2 ^ e') (m * 2 ^ e)
add (fin false m e) (fin true m' e') = signed_round (m * 2 ^ e) (m' * 2 ^ e')
add (fin false m e) (fin false m' e') = round false (m * 2 ^ e + m' * 2 ^ e') 1

-- math.Abs
unfoldable pub abs : Float64 → Float64
abs nan = nan
abs (inf s) = inf false
abs (fin s m e) = fin false m e

-- The two parts of a finite number, in units; an infinity has none.
plus_units : Float64 → ℕ
plus_units (fin false m e) = m * 2 ^ e
plus_units x = 0

minus_units : Float64 → ℕ
minus_units (fin true m e) = m * 2 ^ e
minus_units x = 0

-- x < y, x <= y, x == y: false with a NaN, and 0 equals -0.
unfoldable pub flt : Float64 → Float64 → Bool
unfolding plus_units minus_units
flt nan y = false
flt x nan = false
flt (inf s) (inf t) = s && not t
flt (inf s) y = s
flt x (inf t) = not t
flt x y = ltb (plus_units x + minus_units y) (plus_units y + minus_units x)

unfoldable pub feq : Float64 → Float64 → Bool
unfolding plus_units minus_units
feq nan y = false
feq x nan = false
feq (inf s) (inf t) = not (xor s t)
feq (inf s) y = false
feq x (inf t) = false
feq x y = (plus_units x + minus_units y) == (plus_units y + minus_units x)

abbrev pub fle : Float64 → Float64 → Bool
fle x y = flt x y || feq x y

-- int32(math.Ceil(x)). The language leaves the result to the implementation where the rounded
-- number is no int32, and for NaN and the infinities: `other` is that result.
unfoldable pub ceil_int32 : (Float64 → ℤ) → Float64 → ℤ
ceil_int32 other nan = other nan
ceil_int32 other (inf s) = other (inf s)
ceil_int32 other (fin false m e) =
    let n = (m * 2 ^ e + (one_unit - 1)) / one_unit in
    if ltb n (2 ^ 31) then pos n else other (fin false m e)
ceil_int32 other (fin true m e) =
    let n = m * 2 ^ e / one_unit in if leb n (2 ^ 31) then sub_ℕ 0 n else other (fin true m e)

-- What the implementation returns for numbers out of range is an int32 too.
pub ceil_int32-IsInt32 :
    (other : Float64 → ℤ) (x : Float64) → IsInt32 (other x) → IsInt32 (ceil_int32 other x)
unfolding ceil_int32
ceil_int32-IsInt32 other nan h = h
ceil_int32-IsInt32 other (inf s) h = h
ceil_int32-IsInt32 other (fin false m e) h = ground arith
ceil_int32-IsInt32 other (fin true m e) h = ground arith

three_tenths : of_ratio 3 10 ≡ fin false 5404319552844595 1020
unfolding of_ratio
three_tenths = refl

ten_thirds : ceil_int32 (λ _. pos 0) (div (of_int (pos 10)) (of_int (pos 3))) ≡ pos 4
unfolding ceil_int32 div of_int
ten_thirds = refl

division_by_zero : div (of_int (pos 10)) (of_int (pos 0)) ≡ inf false
unfolding div of_int
division_by_zero = refl

one_tenth_twice : add (of_ratio 1 10) (of_ratio 2 10) ≡ fin false 5404319552844596 1020
unfolding add of_ratio
one_tenth_twice = refl
