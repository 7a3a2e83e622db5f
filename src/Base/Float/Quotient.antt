-- ===== src/Base/Float/Quotient.antt =====
-- The quotient of two int32 as float64, rounded up: it is the quotient of the integers, rounded up.
use native.Mathlib.Nat.{
  one-le-pow, one-mul, div-one, mul-div_cancel, div-eq_of_lt-le, mul-le-mul, lt_of_mul-lt-mul_right,
}
use k8s_worker_pod_autoscale.Base.{
  ℕ, ◌+◌, ◌-◌, ◌*◌, ◌/◌, ◌^◌, ◌≤◌, ◌<◌, Bool, true, false, ◌≡◌, refl, ap, ◌∙◌, if◌then◌else◌, ltb,
  ◌==◌, ℤ, pos, Bool-cases, inl, inr, arith,
}
use k8s_worker_pod_autoscale.Base.Float.{
  Float64, nan, inf, fin, excess, half_even, round, max_bits, one_unit, of_int, div, ceil_int32,
}
use k8s_worker_pod_autoscale.Base.Float.Rounding.{
  half_even_exact, round-value, pow-multiple, exponent, exponent-small, exponent-lt, rounded,
  rounded-le, lt-rounded,
}

module _ (u k : ℕ) (unit : u ≡ 2 ^ k) (wide : 60 ≤ k) (narrow : k ≤ 2000) where
  -- A number that 31 bits hold is rounded to itself.
  module _ (n : ℕ) (n_fits : n < 2 ^ 31) where
    same_exponent :
        excess max_bits (n * u / 1)
        ≡ exponent u k unit wide narrow n 1 n_fits (omega arith) (omega arith)
    unfolding exponent
    same_exponent =
        let some_unit : 0 < u =
          omega
            (arith, exponent-small u k unit wide narrow n 1 n_fits (omega arith) (omega arith)) in
        let whole : n * u * u / (1 * u) ≡ n * u =
          rw (one-mul u) (mul-div_cancel (n * u) some_unit) in
        rw (div-one (n * u), whole) refl

    small_exponent : excess max_bits (n * u / 1) < k
    small_exponent = omega (
      arith,
      same_exponent,
      exponent-lt u k unit wide narrow n 1 n_fits (omega arith) (omega arith),
    )

    pub whole-value : (s : Bool) → (m e : ℕ) × (round s (n * u) 1 ≡ fin s m e) × (m * 2 ^ e ≡ n * u)
    whole-value s =
        let e : ℕ = excess max_bits (n * u / 1) in
        let (t, q) = pow-multiple e k (omega (arith, small_exponent)) in
        let (m, e', is_fin, value) = round-value s (n * u) 1 (omega (arith, small_exponent)) in
        let multiple : u ≡ t * 2 ^ e = omega (arith, unit, q) in
        let divided : n * u ≡ n * t * (1 * 2 ^ e) = omega (arith, ap (λ x. n * x) multiple) in
        let exact : half_even (n * u) (1 * 2 ^ e) ≡ n * t =
          half_even_exact (n * u) (1 * 2 ^ e) (n * t) (omega (arith, one-le-pow e 2 (omega arith)))
            divided in
        (m, e', is_fin, omega (arith, value, ap (λ x. x * 2 ^ e) exact))

  -- A quotient in units, over the quotient rounded up.
  module _ (a b : ℕ) (a_fits : a < 2 ^ 31) (b_fits : b < 2 ^ 31) (some_b : 0 < b) (c : ℕ)
      (above : a ≤ c * b) (below : c * b < a + b) where
    quotient-value :
        (m e : ℕ) × (round false (a * u * u) (b * u) ≡ fin false m e)
        × (m * 2 ^ e ≤ c * u)
        × (c * u < m * 2 ^ e + u)
    unfolding exponent rounded
    quotient-value =
        let fits : exponent u k unit wide narrow a b a_fits b_fits some_b < k =
          exponent-lt u k unit wide narrow a b a_fits b_fits some_b in
        let (m, e, is_fin, value) = round-value false (a * u * u) (b * u) (omega arith) in
        let low : rounded u k unit wide narrow a b a_fits b_fits some_b ≤ c * u =
          rounded-le u k unit wide narrow a b a_fits b_fits some_b c above below in
        let high : c * u < rounded u k unit wide narrow a b a_fits b_fits some_b + u =
          lt-rounded u k unit wide narrow a b a_fits b_fits some_b c above below in
        (m, e, is_fin, rw value low, rw value high)

-- A number of units, rounded up to a whole number.
ceiled : (u r c : ℕ) → r ≤ c * u → c * u < r + u → 0 < u → (r + (u - 1)) / u ≡ c
ceiled u r c low high some = div-eq_of_lt-le _ (omega arith) (omega arith)

-- The number of a positive count is not zero, whatever the unit.
some_mantissa : (u m e b : ℕ) → 0 < u → 0 < b → m * 2 ^ e ≡ b * u → (m == 0) ≡ false
some_mantissa u m e b some_unit some_b v = elim (Bool-cases (m == 0)) [
  | inl z ↦
      let zero_m : m ≡ 0 = ground arith in
      let product : 1 * 1 ≤ b * u = mul-le-mul some_b some_unit in
      absurd (omega (arith, v, ap (λ x. x * 2 ^ e) zero_m))
  | inr n ↦ n
]

pub some_unit : 0 < one_unit
some_unit = one-le-pow 1074 2 (omega arith)

pub div-fin :
    (ma ea mb eb a b : ℕ)
    → ma * 2 ^ ea ≡ a * one_unit
    → mb * 2 ^ eb ≡ b * one_unit
    → 0 < b
    → div (fin false ma ea) (fin false mb eb) ≡ round false (a * one_unit * one_unit) (b * one_unit)
unfolding div
div-fin ma ea mb eb a b va vb some_b =
    ap
      (λ z.
        if z
        then (if ma == 0 then nan else inf false)
        else round false (ma * 2 ^ ea * one_unit) (mb * 2 ^ eb))
      (some_mantissa one_unit mb eb b some_unit some_b vb)
    ∙ ap (λ x. round false (x * one_unit) (mb * 2 ^ eb)) va
    ∙ ap (λ y. round false (a * one_unit * one_unit) y) vb

ceil_int32-fin :
    (other : Float64 → ℤ) (m e c : ℕ)
    → m * 2 ^ e ≤ c * one_unit
    → c * one_unit < m * 2 ^ e + one_unit
    → c < 2 ^ 31
    → ceil_int32 other (fin false m e) ≡ pos c
unfolding ceil_int32
ceil_int32-fin other m e c low high fits =
    let small : ltb c (2 ^ 31) ≡ true = ground arith in
    ap (λ n. if ltb n (2 ^ 31) then pos n else other (fin false m e))
      (ceiled one_unit (m * 2 ^ e) c low high some_unit)
    ∙ ap (λ z. if z then pos c else other (fin false m e)) small

pub up-le : (a b : ℕ) → 0 < b → (a + (b - 1)) / b ≤ a
up-le a b some_b =
    let more : a * 1 ≤ a * b = mul-le-mul (omega arith) (omega arith) in
    let strict : (a + (b - 1)) / b < a + 1 = lt_of_mul-lt-mul_right b (omega arith) in omega arith

-- `int32(math.Ceil(float64(a) / float64(b)))` is the quotient rounded up, for a count and a positive
-- count: the two roundings on the way lose nothing.
pub ceil_int32-div :
    (other : Float64 → ℤ) (a b : ℕ)
    → a < 2 ^ 31
    → b < 2 ^ 31
    → 0 < b
    → ceil_int32 other (div (of_int (pos a)) (of_int (pos b))) ≡ pos ((a + (b - 1)) / b)
unfolding of_int
ceil_int32-div other a b a_fits b_fits some_b =
    let c : ℕ = (a + (b - 1)) / b in
    let (ma, ea, fa, va) =
      whole-value one_unit 1074 refl (omega arith) (omega arith) a a_fits false in
    let (mb, eb, fb, vb) =
      whole-value one_unit 1074 refl (omega arith) (omega arith) b b_fits false in
    let (m, e, f, low, high) =
      quotient-value one_unit 1074 refl (omega arith) (omega arith) a b a_fits b_fits some_b c
        (omega arith) (omega arith) in
    ap (λ x. ceil_int32 other (div x (of_int (pos b)))) fa
    ∙ ap (λ y. ceil_int32 other (div (fin false ma ea) y)) fb
    ∙ ap (ceil_int32 other) (div-fin ma ea mb eb a b va vb some_b ∙ f)
    ∙ ceil_int32-fin other m e c low high (omega (arith, up-le a b some_b))
