-- ===== src/Base/Float/Tenth.antt =====
-- The quotient of two int32 as float64 against the constant 0.1: the comparison is exact.
use native.Mathlib.Nat.{one-le-pow, mul-div-mul_right, mul-le-mul, lt_of_mul-lt-mul_right}
use native.Mathlib.Omega.{div_any}
use k8s_worker_pod_autoscale.Base.{
  ℕ, suc, ◌+◌, ◌*◌, ◌/◌, ◌%◌, ◌^◌, ◌≤◌, ◌<◌, Bool, true, false, ◌≡◌, refl, sym, subst, ap, ◌∙◌, ltb,
  leb, ◌==◌, ℤ, pos, negsuc, pos_part, neg_part, Bool-cases, inl, inr, arith,
}
use k8s_worker_pod_autoscale.Base.Float.{
  Float64, fin, excess, half_even, pack, round, max_bits, one_unit, of_int, of_ratio, div, abs, flt,
  feq, fle, plus_units, minus_units,
}
use k8s_worker_pod_autoscale.Base.Float.Rounding.{
  round-value, exponent, exponent-small, exponent-lt, rounded, rounded-near,
}
use k8s_worker_pod_autoscale.Base.Float.Quotient.{whole-value, some_unit, div-fin}

ltb-mul : (a b k : ℕ) → 0 < k → ltb (a * k) (b * k) ≡ ltb a b
ltb-mul a b k h = elim (Bool-cases (ltb a b)) [
  | inl e ↦
      let less : a * k + k ≤ b * k =
        (let more : (a + 1) * k ≤ b * k = mul-le-mul (ground arith) (omega arith) in omega arith) in
      rw e (ground arith)
  | inr e ↦
      let more : b * k ≤ a * k = mul-le-mul (ground arith) (omega arith) in rw e (ground arith)
]

==-mul : (a b k : ℕ) → 0 < k → (a * k == b * k) ≡ (a == b)
==-mul a b k h = ground (arith, ltb-mul a b k h, ltb-mul b a k h)

half_even-scale : (n d k : ℕ) → 0 < d → 0 < k → half_even (n * k) (d * k) ≡ half_even n d
unfolding half_even
half_even-scale n d k some_d some_k =
    let quotient : n * k / (d * k) ≡ n / d = mul-div-mul_right n d some_k in
    let whole : (d * (n / d) + n % d) * k ≡ n * k = ap (λ x. x * k) (div_any n d) in
    let part : 2 * (n * k % (d * k)) ≡ 2 * (n % d) * k =
      omega (arith, whole, div_any (n * k) (d * k), ap (λ x. d * k * x) quotient) in
    rw (part, quotient, ltb-mul (2 * (n % d)) d k some_k, ==-mul (2 * (n % d)) d k some_k) refl

some_product : (d e : ℕ) → 0 < d → 0 < d * 2 ^ e
some_product d e h =
    let product : 1 * 1 ≤ d * 2 ^ e = mul-le-mul h (one-le-pow e 2 (omega arith)) in omega arith

round-scale : (s : Bool) (n d k : ℕ) → 0 < d → 0 < k → round s (n * k) (d * k) ≡ round s n d
unfolding round
round-scale s n d k some_d some_k =
    let e : ℕ = excess max_bits (n / d) in
    let factors : d * k * 2 ^ e ≡ d * 2 ^ e * k = omega arith in
    let scaled : half_even (n * k) (d * 2 ^ e * k) ≡ half_even n (d * 2 ^ e) =
      half_even-scale n (d * 2 ^ e) k (some_product d e some_d) some_k in
    let whole : half_even (n * k) (d * k * 2 ^ e) ≡ half_even n (d * 2 ^ e) = rw factors scaled in
    ap (λ x. pack s (half_even (n * k) (d * k * 2 ^ excess max_bits x)) (excess max_bits x))
      (mul-div-mul_right n d some_k)
    ∙ ap (λ x. pack s x e) whole

-- 0.1 as a float64
abbrev tenth : Float64
tenth = fin false 7205759403792794 1018

tenth-value : of_ratio 1 10 ≡ tenth
unfolding of_ratio
tenth-value = refl

abbrev tenth_units : ℕ
tenth_units = 7205759403792794 * 2 ^ 1018

-- It is above a tenth, but by less than 2^-52 of it.
tenth_bounds :
    (one_unit ≤ 10 * tenth_units) × (2 ^ 52 * (10 * tenth_units) < (2 ^ 52 + 1) * one_unit)
tenth_bounds = (omega arith, omega arith)

fle-fin : (m e : ℕ) → fle (fin false m e) tenth ≡ leb (m * 2 ^ e) tenth_units
unfolding flt feq plus_units minus_units
fle-fin m e = ground arith

module _ (u t r p c x : ℕ) (small : 2 ^ 20 * x < u) (c_fits : c < 2 ^ 31) where
  below_tenth : u ≤ 10 * t → r * c < p * u + x → 10 * p < c → r < t
  below_tenth low near less =
      let counted : (10 * p + 1) * u ≤ c * u = mul-le-mul (omega arith) (omega arith) in
      let unit : c * u ≤ c * (10 * t) = mul-le-mul (omega arith) (omega arith) in
      lt_of_mul-lt-mul_right (10 * c) (omega arith)

  above_tenth : 2 ^ 52 * (10 * t) < (2 ^ 52 + 1) * u → p * u < r * c + x → c < 10 * p → t < r
  above_tenth high near less =
      let counted : (c + 1) * u ≤ (10 * p) * u = mul-le-mul (omega arith) (omega arith) in
      let unit : c * (2 ^ 52 * (10 * t)) ≤ c * ((2 ^ 52 + 1) * u) =
        mul-le-mul (omega arith) (omega arith) in
      let few : c * u ≤ 2 ^ 31 * u = mul-le-mul (omega arith) (omega arith) in
      lt_of_mul-lt-mul_right (10 * c) (omega arith)

le_of_lt : {a b : ℕ} → a < b → a ≤ b
le_of_lt h = omega arith

leb-true : (a b : ℕ) → a ≤ b → leb a b ≡ true
leb-true a b h = ground arith

leb-false : (a b : ℕ) → b < a → leb a b ≡ false
leb-false a b h = ground arith

-- The quotient of a tenth in any unit.
round-tenth_of :
    (u p c : ℕ)
    → 0 < u
    → 0 < c
    → c ≡ 10 * p
    → round false (p * u * u) (c * u) ≡ round false (1 * u) 10
round-tenth_of u p c some_u some_c h =
    let some_p : 1 ≤ p = omega arith in
    let factor : 1 * 1 ≤ p * u = mul-le-mul some_p some_u in
    let numerator : p * u * u ≡ 1 * u * (p * u) = omega arith in
    let denominator : c * u ≡ 10 * (p * u) = rw h (omega arith) in
    rw (numerator, denominator) (round-scale false (1 * u) 10 (p * u) (omega arith) (omega arith))

round-tenth :
    (p c : ℕ) → 0 < c → c ≡ 10 * p → round false (p * one_unit * one_unit) (c * one_unit) ≡ tenth
unfolding of_ratio
round-tenth p c some_c h = round-tenth_of one_unit p c some_unit some_c h ∙ tenth-value

fle-tenth_self : fle tenth tenth ≡ true
unfolding flt feq plus_units minus_units
fle-tenth_self = refl

module _ (p c : ℕ) (p_fits : p < 2 ^ 31) (c_fits : c < 2 ^ 31) (some_c : 0 < c) where
  -- The rounded quotient and 0.1 compare as the fractions do, if these differ.
  quotient-sides :
      (m e : ℕ) × (round false (p * one_unit * one_unit) (c * one_unit) ≡ fin false m e)
      × (10 * p < c → m * 2 ^ e < tenth_units)
      × (c < 10 * p → tenth_units < m * 2 ^ e)
  unfolding exponent rounded
  quotient-sides =
      let fits : exponent one_unit 1074 refl (omega arith) (omega arith) p c p_fits c_fits some_c
          < 1074 =
        exponent-lt one_unit 1074 refl (omega arith) (omega arith) p c p_fits c_fits some_c in
      let (m, e, is_fin, value) =
        round-value false (p * one_unit * one_unit) (c * one_unit) (omega arith) in
      let small =
        exponent-small one_unit 1074 refl (omega arith) (omega arith) p c p_fits c_fits some_c in
      let (over, under) =
        rounded-near one_unit 1074 refl (omega arith) (omega arith) p c p_fits c_fits some_c in
      (
        m,
        e,
        is_fin,
        λ less.
            subst (λ x. x < tenth_units) (sym value)
              (below_tenth one_unit tenth_units _ p c _ small c_fits tenth_bounds.0 under less),
        λ more.
            subst (λ x. tenth_units < x) (sym value)
              (above_tenth one_unit tenth_units _ p c _ small c_fits tenth_bounds.1 over more),
      )

  fle-quotient : fle (round false (p * one_unit * one_unit) (c * one_unit)) tenth ≡ leb (10 * p) c
  fle-quotient =
      let (m, e, is_fin, below, above) = quotient-sides in
      let finite : fle (round false (p * one_unit * one_unit) (c * one_unit)) tenth
          ≡ leb (m * 2 ^ e) tenth_units =
        ap (λ x. fle x tenth) is_fin ∙ fle-fin m e in
      elim (Bool-cases (ltb (10 * p) c)) [
        | inl less ↦
            finite
            ∙ leb-true _ _ (le_of_lt (below (ground arith)))
            ∙ sym (leb-true (10 * p) c (ground arith))
        | inr not_less ↦ elim (Bool-cases (ltb c (10 * p))) [
          | inl more ↦
              finite
              ∙ leb-false _ _ (above (ground arith))
              ∙ sym (leb-false (10 * p) c (ground arith))
          | inr not_more ↦
              let same : c ≡ 10 * p = ground arith in
              ap (λ x. fle x tenth) (round-tenth p c some_c same)
              ∙ fle-tenth_self
              ∙ sym (leb-true (10 * p) c (omega arith))
        ]
      ]

-- `float64(p) / float64(c) <= 0.1` for a count and a positive count, with a numerator that is
-- already a float64.
pub fle-tenth :
    (p c m e : ℕ)
    → p < 2 ^ 31
    → c < 2 ^ 31
    → 0 < c
    → m * 2 ^ e ≡ p * one_unit
    → fle (div (fin false m e) (of_int (pos c))) (of_ratio 1 10) ≡ leb (10 * p) c
unfolding of_int
fle-tenth p c m e p_fits c_fits some_c value =
    let (mc, ec, fc, vc) =
      whole-value one_unit 1074 refl (omega arith) (omega arith) c c_fits false in
    ap (λ x. fle (div (fin false m e) x) (of_ratio 1 10)) fc
    ∙ ap (λ x. fle x (of_ratio 1 10)) (div-fin m e mc ec p c value vc some_c)
    ∙ ap (fle (round false (p * one_unit * one_unit) (c * one_unit))) tenth-value
    ∙ fle-quotient p c p_fits c_fits some_c

-- The magnitude of an int32 as a float64.
magnitude_of :
    (s : Bool) (n : ℕ)
    → n < 2 ^ 31
    → (m e : ℕ) × (abs (round s (n * one_unit) 1) ≡ fin false m e) × (m * 2 ^ e ≡ n * one_unit)
unfolding abs
magnitude_of s n n_fits =
    let (m, e, f, v) = whole-value one_unit 1074 refl (omega arith) (omega arith) n n_fits s in
    (m, e, ap abs f, v)

-- `math.Abs(float64(d)) / float64(c) <= 0.1` for an integer and a positive count.
pub fle-abs-tenth :
    (d : ℤ) (c : ℕ)
    → pos_part d + neg_part d < 2 ^ 31
    → c < 2 ^ 31
    → 0 < c
    → fle (div (abs (of_int d)) (of_int (pos c))) (of_ratio 1 10)
      ≡ leb (10 * (pos_part d + neg_part d)) c
unfolding of_int
fle-abs-tenth (pos n) c d_fits c_fits some_c =
    let (m, e, f, v) = magnitude_of false n (omega arith) in
    ap (λ x. fle (div x (of_int (pos c))) (of_ratio 1 10)) f
    ∙ fle-tenth n c m e (omega arith) c_fits some_c v
    ∙ ap (λ x. leb (10 * x) c) (omega arith)
fle-abs-tenth (negsuc n) c d_fits c_fits some_c =
    let (m, e, f, v) = magnitude_of true (suc n) (omega arith) in
    ap (λ x. fle (div x (of_int (pos c))) (of_ratio 1 10)) f
    ∙ fle-tenth (suc n) c m e (omega arith) c_fits some_c v
    ∙ ap (λ x. leb (10 * x) c) (omega arith)
