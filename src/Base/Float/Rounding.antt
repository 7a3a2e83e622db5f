-- ===== src/Base/Float/Rounding.antt =====
-- How far `round` goes from the number that it rounds.
use native.Mathlib.Nat.{
  pow-suc, pow-le-pow_right, one-le-pow, mul-le-mul, le_of_mul-le-mul_right, lt_of_mul-lt-mul_right,
  div-le_of_le-mul, div-mul-le_self,
}
use k8s_worker_pod_autoscale.Base.{
  ℕ, zero, suc, ◌+◌, ◌*◌, ◌/◌, ◌%◌, ◌^◌, ◌≤◌, ◌<◌, Bool, ◌≡◌, refl, ap, ◌⊎◌, inl, inr, ltb, ◌==◌,
  Bool-cases, arith,
}
use k8s_worker_pod_autoscale.Base.Float.{fin, excess, half_even, pack, round, max_bits}

-- A number with bits beyond the mantissa is large.
excess-le : (f q e : ℕ) → excess f q ≡ suc e → 2 ^ 53 * 2 ^ e ≤ q
unfolding excess
excess-le zero q e h = ground arith
excess-le (suc f) q zero h = ground arith
excess-le (suc f) q (suc e) h =
    let rest : excess f (q / 2) ≡ suc e = ground arith in
    let half = excess-le f (q / 2) e rest in omega (arith, pow-suc 2 e)

half_even-cases :
    (n d : ℕ) → 0 < d → (half_even n d ≡ n / d) ⊎ ((half_even n d ≡ n / d + 1) × (0 < n % d))
unfolding half_even
half_even-cases n d h = ground arith

-- The rounded quotient is not below the quotient by one, and not above a bound of it.
pub half_even-lt : (n d : ℕ) → 0 < d → n < (half_even n d + 1) * d
half_even-lt n d h = elim (half_even-cases n d h) [
  | inl e ↦ rw e (omega arith)
  | inr (e, r) ↦ rw e (omega arith)
]

quotient-le : (n d k : ℕ) → 0 < d → n ≤ k * d → n / d ≤ k
quotient-le n d k h le = div-le_of_le-mul d (omega arith)

pub half_even-le : (n d k : ℕ) → 0 < d → n ≤ k * d → half_even n d ≤ k
half_even-le n d k h le = elim (half_even-cases n d h) [
  | inl e ↦ rw e (quotient-le n d k h le)
  | inr (e, r) ↦
      rw e (let strict : n / d < k = lt_of_mul-lt-mul_right d (omega arith) in omega arith)
]

pub half_even-lt_add : (n d : ℕ) → 0 < d → half_even n d * d < n + d
half_even-lt_add n d h = elim (half_even-cases n d h) [
  | inl e ↦ rw e (omega arith)
  | inr (e, r) ↦ rw e (omega arith)
]

pub half_even_exact : (n d k : ℕ) → 0 < d → n ≡ k * d → half_even n d ≡ k
half_even_exact n d k h e =
    let low = half_even-le n d k h (omega arith) in
    let high : k < half_even n d + 1 =
      lt_of_mul-lt-mul_right d (omega (arith, half_even-lt n d h)) in
    omega arith

-- Packing keeps the value, as long as the exponent is not at its limit.
pub pack-value :
    (s : Bool) (m e : ℕ)
    → e ≤ 2044
    → (m' e' : ℕ) × (pack s m e ≡ fin s m' e') × (m' * 2 ^ e' ≡ m * 2 ^ e)
unfolding pack
pack-value s m e h = elim (Bool-cases (m == 2 ^ 53)) [
  | inl q ↦ (2 ^ 52, e + 1, ground (arith, q), ground (arith, q, pow-suc 2 e))
  | inr q ↦ (m, e, ground (arith, q), refl)
]

pub pow-multiple : (e k : ℕ) → e ≤ k → (t : ℕ) × (2 ^ k ≡ t * 2 ^ e)
pow-multiple e zero h = (1, ground arith)
pow-multiple e (suc k) h = elim (Bool-cases (ltb k e)) [
  | inl last ↦ (1, let same : e ≡ suc k = ground arith in rw same (omega arith))
  | inr more ↦
      let (t, q) = pow-multiple e k (ground arith) in (2 * t, omega (arith, pow-suc 2 k, q))
]

pub round-value :
    (s : Bool) (n d : ℕ)
    → let e = excess max_bits (n / d) in
      e ≤ 2044
      → (m' e' : ℕ) × (round s n d ≡ fin s m' e') × (m' * 2 ^ e' ≡ half_even n (d * 2 ^ e) * 2 ^ e)
unfolding round
round-value s n d h =
    pack-value s (half_even n (d * 2 ^ excess max_bits (n / d))) (excess max_bits (n / d)) h

module _ (u k : ℕ) (unit : u ≡ 2 ^ k) (wide : 60 ≤ k) (narrow : k ≤ 2000) where
  unit-large : 2 ^ 60 ≤ u
  unit-large = rw unit (pow-le-pow_right (omega arith) wide)

  module _ (a b : ℕ) (a_fits : a < 2 ^ 31) (b_fits : b < 2 ^ 31) (some_b : 0 < b) where
    -- The exponent of a quotient of a units by b.
    unfoldable pub exponent : ℕ
    exponent = excess max_bits (a * u * u / (b * u))

    below_unit : (e : ℕ) → exponent ≡ e → 2 ^ 20 * (2 ^ e * b) < u
    unfolding exponent
    below_unit zero h = omega (arith, unit-large)
    below_unit (suc e) h =
        let bits : 2 ^ 53 * 2 ^ e ≤ a * u * u / (b * u) = excess-le max_bits _ e h in
        let scaled : 2 ^ 53 * 2 ^ e * (b * u) ≤ a * u * u / (b * u) * (b * u) =
          mul-le-mul bits (omega arith) in
        let whole : (2 ^ 53 * 2 ^ e * b) * u ≤ (a * u) * u =
          omega (arith, div-mul-le_self (a * u * u) (b * u)) in
        let once : 2 ^ 53 * 2 ^ e * b ≤ a * u =
          le_of_mul-le-mul_right whole (omega (arith, unit-large)) in
        let few : a * u ≤ 2 ^ 31 * u = mul-le-mul (omega arith) (omega arith) in
        let double : 2 ^ suc e * b ≡ 2 * (2 ^ e * b) = rw (pow-suc 2 e) (omega arith) in
        omega (arith, unit-large)

    pub exponent-small : 2 ^ 20 * (2 ^ exponent * b) < u
    exponent-small = below_unit exponent refl

    pub exponent-lt : exponent < k
    exponent-lt = elim (Bool-cases (ltb exponent k)) [
      | inl h ↦ ground arith
      | inr h ↦
          let large : 2 ^ k ≤ 2 ^ exponent = pow-le-pow_right (omega arith) (ground arith) in
          let kept : 2 ^ exponent * 1 ≤ 2 ^ exponent * b = mul-le-mul (omega arith) (omega arith) in
          absurd (omega (arith, unit, exponent-small))
    ]

    -- The rounded quotient, in units.
    unfoldable pub rounded : ℕ
    rounded = half_even (a * u * u) (b * u * 2 ^ exponent) * 2 ^ exponent

    some_divisor : 0 < b * u * 2 ^ exponent
    some_divisor =
        let some_unit : 1 ≤ u = omega (arith, unit-large) in
        let product : 1 * 1 * 1 ≤ b * u * 2 ^ exponent =
          mul-le-mul (mul-le-mul some_b some_unit) (one-le-pow exponent 2 (omega arith)) in
        omega arith

    -- The error is below a unit's share, on both sides.
    pub rounded-near :
        (a * u < rounded * b + 2 ^ exponent * b) × (rounded * b < a * u + 2 ^ exponent * b)
    unfolding rounded
    rounded-near =
        let over = half_even-lt (a * u * u) (b * u * 2 ^ exponent) some_divisor in
        let under = half_even-lt_add (a * u * u) (b * u * 2 ^ exponent) some_divisor in
        (lt_of_mul-lt-mul_right u (omega arith), lt_of_mul-lt-mul_right u (omega arith))

    module _ (c : ℕ) (above : a ≤ c * b) (below : c * b < a + b) where
      pub rounded-le : rounded ≤ c * u
      unfolding rounded
      rounded-le =
          let (t, q) = pow-multiple exponent k (omega (arith, exponent-lt)) in
          let multiple : u ≡ t * 2 ^ exponent = omega (arith, unit) in
          let whole : a * u * u ≤ c * b * u * u =
            mul-le-mul (mul-le-mul above (omega arith)) (omega arith) in
          let bound : a * u * u ≤ (c * t) * (b * u * 2 ^ exponent) =
            omega (arith, ap (λ x. c * b * u * x) multiple) in
          let m_le = half_even-le (a * u * u) (b * u * 2 ^ exponent) (c * t) some_divisor bound in
          let scaled : half_even (a * u * u) (b * u * 2 ^ exponent) * 2 ^ exponent
              ≤ c * t * 2 ^ exponent =
            mul-le-mul m_le (omega arith) in
          omega (arith, ap (λ x. c * x) multiple)

      pub lt-rounded : c * u < rounded + u
      unfolding rounded
      lt-rounded =
          let (once, _) = rounded-near in
          let low : c * b * u + u ≤ (a + b) * u =
            (let times : (c * b + 1) * u ≤ (a + b) * u = mul-le-mul (omega arith) (omega arith) in
              omega arith) in
          lt_of_mul-lt-mul_right b (omega (arith, exponent-small))
