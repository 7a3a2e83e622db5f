-- ===== src/Base/Spaces.antt =====
-- strings.TrimSpace: white space is what unicode.IsSpace says, in UTF-8. On a text that is not valid
-- UTF-8 the function stops as Go's does, since a broken sequence is no white space.
use Prim.Native.Nat.{ℕ, zero, suc, ◌-◌, ◌≤◌, ◌<◌}
use mathlib.Core.Path.{◌≡◌, refl, ap, ◌∙◌}
use mathlib.Core.Logic.{inl, inr}
use mathlib.Core.Bool.{Bool, ◌&&◌, ◌||◌}
use mathlib.Core.List.{
  [], ◌∷◌, ◌++◌, reverse, reverse-append, reverse-reverse, reverse-cons, append-nil,
}
use native.Mathlib.Omega.{arith}
use k8s_worker_pod_autoscale.Base.Tests.{if◌then◌else◌, leb, ◌==◌, Bool-cases}
use k8s_worker_pod_autoscale.Base.Lists.{length}
use k8s_worker_pod_autoscale.Base.Texts.{Text}

-- '\t', '\n', '\v', '\f', '\r' and ' '
abbrev is_space1 : ℕ → Bool
is_space1 c = (leb 9 c && leb c 13) || c == 32

-- U+0085 and U+00A0
abbrev is_space2 : ℕ → ℕ → Bool
is_space2 c d = c == 0xc2 && (d == 0x85 || d == 0xa0)

-- U+1680, U+2000 to U+200A, U+2028, U+2029, U+202F, U+205F and U+3000
abbrev is_space3 : ℕ → ℕ → ℕ → Bool
is_space3 c d e =
    (c == 0xe1 && (d == 0x9a && e == 0x80))
    || ((c == 0xe2
          && (d == 0x80 && ((leb 0x80 e && leb e 0x8a) || (e == 0xa8 || (e == 0xa9 || e == 0xaf)))))
        || ((c == 0xe2 && (d == 0x81 && e == 0x9f)) || (c == 0xe3 && (d == 0x80 && e == 0x80))))

-- The bytes of the white space that a text begins with, 0 if it begins with none.
unfoldable pub space_before : Text → ℕ
space_before [] = 0
space_before (c ∷ []) = if is_space1 c then 1 else 0
space_before (c ∷ d ∷ []) = if is_space1 c then 1 else if is_space2 c d then 2 else 0
space_before (c ∷ d ∷ e ∷ s) =
    if is_space1 c then 1 else if is_space2 c d then 2 else if is_space3 c d e then 3 else 0

-- The same at its end; the text is given backwards.
unfoldable pub space_behind : Text → ℕ
space_behind [] = 0
space_behind (c ∷ []) = if is_space1 c then 1 else 0
space_behind (c ∷ d ∷ []) = if is_space1 c then 1 else if is_space2 d c then 2 else 0
space_behind (c ∷ d ∷ e ∷ s) =
    if is_space1 c then 1 else if is_space2 d c then 2 else if is_space3 e d c then 3 else 0

abbrev drop : ℕ → Text → Text
drop zero s = s
drop (suc n) [] = []
drop (suc n) (c ∷ s) = drop n s

-- Drops white space as long as there is some; the fuel is to be the length of the text.
unfoldable trim_with : (Text → ℕ) → ℕ → Text → Text
trim_with f zero s = s
trim_with f (suc n) s = let rest = trim_with f n (drop (f s) s) in if f s == 0 then s else rest

unfoldable pub trim_space : Text → Text
unfolding trim_with
trim_space s =
    let t = reverse (trim_with space_before (length s) s) in
    reverse (trim_with space_behind (length t) t)

-- So many blanks.
abbrev pub blanks : ℕ → Text
blanks zero = []
blanks (suc k) = 32 ∷ blanks k

module _ (f : Text → ℕ) where
  trim_with_clean : (n : ℕ) (s : Text) → f s ≡ 0 → trim_with f n s ≡ s
  unfolding trim_with
  trim_with_clean zero s h = refl
  trim_with_clean (suc n) s h = rw h refl

  drop-length : (k : ℕ) (s : Text) → length (drop k s) ≡ length s - k
  drop-length zero s = omega arith
  drop-length (suc k) [] = omega arith
  drop-length (suc k) (c ∷ s) = omega (arith, drop-length k s)

  -- Enough fuel is given: nothing that it measures is left.
  trim_with_done : f [] ≡ 0 → (n : ℕ) (s : Text) → length s ≤ n → f (trim_with f n s) ≡ 0
  unfolding trim_with
  trim_with_done h zero [] e = h
  trim_with_done h zero (c ∷ s) e = absurd (omega (arith, e))
  trim_with_done h (suc n) s e = elim (Bool-cases (f s == 0)) [
    | inl z ↦ rw z (ground (arith, z))
    | inr z ↦
        let some_space : 0 < f s = ground (arith, z) in
        let fits : length (drop (f s) s) ≤ n = omega (arith, drop-length (f s) s, e, some_space) in
        rw z (trim_with_done h n (drop (f s) s) fits)
  ]

  -- Blanks are dropped one by one.
  trim_with-blanks :
      ((t : Text) → f (32 ∷ t) ≡ 1)
      → (n k : ℕ) (s : Text) → k ≤ n
      → f s ≡ 0
      → trim_with f n (blanks k ++ s) ≡ s
  unfolding trim_with
  trim_with-blanks one n zero s e h = trim_with_clean n s h
  trim_with-blanks one zero (suc k) s e h = absurd (omega (arith, e))
  trim_with-blanks one (suc n) (suc k) s e h =
      rw (one (blanks k ++ s)) (trim_with-blanks one n k s (omega (arith, e)) h)

-- Neither begins nor ends with white space, and is not empty.
pub record IsTrimmed (s : Text) : Type 0 where
  pub first : ℕ
  pub more : Text
  pub nonempty : s ≡ first ∷ more
  pub begins : space_before s ≡ 0
  pub ends : space_behind (reverse s) ≡ 0

space_before-blank : (t : Text) → space_before (32 ∷ t) ≡ 1
unfolding space_before
space_before-blank [] = refl
space_before-blank (d ∷ []) = refl
space_before-blank (d ∷ e ∷ t) = refl

space_behind-blank : (t : Text) → space_behind (32 ∷ t) ≡ 1
unfolding space_behind
space_behind-blank [] = refl
space_behind-blank (d ∷ []) = refl
space_behind-blank (d ∷ e ∷ t) = refl

space_before-blanks :
    (c : ℕ) (s : Text) (k : ℕ) → space_before (c ∷ s) ≡ 0 → space_before ((c ∷ s) ++ blanks k) ≡ 0
unfolding space_before
space_before-blanks c [] zero h = h
space_before-blanks c [] (suc zero) h = ground (arith, h)
space_before-blanks c [] (suc (suc k)) h = ground (arith, h)
space_before-blanks c (d ∷ []) zero h = h
space_before-blanks c (d ∷ []) (suc k) h = ground (arith, h)
space_before-blanks c (d ∷ e ∷ s) k h = h

length-blanks : (k : ℕ) (s : Text) → k ≤ length (blanks k ++ s)
length-blanks zero s = omega arith
length-blanks (suc k) s = omega (arith, length-blanks k s)

blanks-snoc : (k : ℕ) (s : Text) → blanks k ++ (32 ∷ s) ≡ 32 ∷ (blanks k ++ s)
blanks-snoc zero s = refl
blanks-snoc (suc k) s = ap (λ t. 32 ∷ t) (blanks-snoc k s)

reverse-blanks : (k : ℕ) → reverse (blanks k) ≡ blanks k
reverse-blanks zero = refl
reverse-blanks (suc k) =
    reverse-cons 32 (blanks k)
    ∙ ap (λ t. t ++ (32 ∷ [])) (reverse-blanks k)
    ∙ blanks-snoc k []
    ∙ ap (λ t. 32 ∷ t) (append-nil (blanks k))

-- Blanks around a text are trimmed, and nothing else of it is.
pub trim_space-blanks :
    (m n : ℕ) (s : Text) → IsTrimmed s → trim_space (blanks m ++ (s ++ blanks n)) ≡ s
unfolding trim_space
trim_space-blanks m n s t =
    let clean : space_before (s ++ blanks n) ≡ 0 =
      rw t.nonempty (space_before-blanks t.first t.more n (rw t.nonempty at t.begins)) in
    let left : trim_with space_before (length (blanks m ++ (s ++ blanks n)))
          (blanks m ++ (s ++ blanks n))
        ≡ s ++ blanks n =
      trim_with-blanks space_before space_before-blank _ m (s ++ blanks n) (length-blanks m _)
        clean in
    let backwards : reverse (s ++ blanks n) ≡ blanks n ++ reverse s =
      reverse-append s (blanks n) ∙ ap (λ t. t ++ reverse s) (reverse-blanks n) in
    let right : trim_with space_behind (length (blanks n ++ reverse s)) (blanks n ++ reverse s)
        ≡ reverse s =
      trim_with-blanks space_behind space_behind-blank _ n (reverse s) (length-blanks n _) t.ends in
    rw (left, backwards, right) (reverse-reverse s)

-- The fuel is enough: no white space is left at the end, nor at the beginning before that.
trim_space-ends :
    (s : Text)
    → (space_behind (reverse (trim_space s)) ≡ 0)
      × (space_before (trim_with space_before (length s) s) ≡ 0)
unfolding trim_space space_before space_behind
trim_space-ends s =
    let t = reverse (trim_with space_before (length s) s) in
    (
      ap space_behind (reverse-reverse (trim_with space_behind (length t) t))
          ∙ trim_with_done space_behind refl (length t) t (omega arith),
      trim_with_done space_before refl (length s) s (omega arith),
    )
