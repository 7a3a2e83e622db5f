-- ===== src/Generated/Sound.antt =====
-- What holds of a factory between calls: the informers of two types are two, and each has been
-- started as often as the factory says, once or never.
use k8s_worker_pod_autoscale.Base.{
  ◌≡◌, refl, sym, ◌∙◌, ap, inl, inr, ℕ, zero, suc, ◌<◌, ◌≤◌, ◌==◌, Bool, true, false, Option, none,
  some, List, [], ◌∷◌, Text, text_eq, text_eq_iff, if◌then◌else◌, lookup, insert, lookup-insert,
  Bool-cases, Option-cases, arith,
}
use k8s_worker_pod_autoscale.Generated.Factory.{
  SharedInformerFactory, is_started, informer_for, start_one, start, is_on,
}

-- How often it occurs.
unfoldable pub count : ℕ → List ℕ → ℕ
count i [] = zero
count i (j ∷ l) = if i == j then suc (count i l) else count i l

-- The calls of a factory that change it.
pub data FactoryCall (N : Type 0) : Type 0 where
  informer_fors : Text → N → FactoryCall N
  starts : (order : List Text) → FactoryCall N

pub some-inj : {A : Type 0} {a b : A} → some a ≡ some b → a ≡ b
some-inj e = cc

pub text_eq-false : {t u : Text} → text_eq t u ≡ false → ¬ (t ≡ u)
text_eq-false {t} {u} e same = let e' = (text_eq_iff t u).1 same in cc

is_on-if :
    (b : Bool) (o : Option Bool)
    → is_on (if b then some true else o) ≡ (if b then true else is_on o)
is_on-if true o = refl
is_on-if false o = refl

count-other : (i j : ℕ) (l : List ℕ) → ¬ (i ≡ j) → count i (j ∷ l) ≡ count i l
unfolding count
count-other i j l n = ground (arith, n)

count-same : (i : ℕ) (l : List ℕ) → count i (i ∷ l) ≡ suc (count i l)
unfolding count
count-same i l = ground arith

module _ {C N P : Type 0} where
  unfoldable pub call : FactoryCall N → SharedInformerFactory C N P → SharedInformerFactory C N P
  call (informer_fors t new_func) f = (informer_for t new_func f).1
  call (starts order) f = start order f

  unfoldable pub run_calls :
      List (FactoryCall N) → SharedInformerFactory C N P → SharedInformerFactory C N P
  run_calls [] f = f
  run_calls (c ∷ calls) f = run_calls calls (call c f)

  pub record IsSound (f : SharedInformerFactory C N P) : Type 0 where
    pub below : (t : Text) (i : ℕ) → lookup t f.informers ≡ some i → i < f.next
    pub apart :
        (t u : Text) (i : ℕ) → lookup t f.informers ≡ some i → lookup u f.informers ≡ some i → t ≡ u
    pub counted :
        (t : Text) (i : ℕ)
        → lookup t f.informers ≡ some i
        → count i f.runs ≡ (if is_started t f then 1 else 0)
    pub unmade : (i : ℕ) → f.next ≤ i → count i f.runs ≡ 0
    pub unasked : (t : Text) → lookup t f.informers ≡ none → is_started t f ≡ false

  pub is_started-start :
      (t u : Text) (i : ℕ) (f : SharedInformerFactory C N P)
      → is_started u
          (record f { started_informers = insert t true f.started_informers; runs = i ∷ f.runs })
        ≡ (if text_eq t u then true else is_started u f)
  unfolding is_started
  is_started-start t u i f =
      ap is_on (lookup-insert t u true f.started_informers) ∙ is_on-if (text_eq t u) _

  -- The informer of `t` is started.
  starts-IsSound :
      (t : Text) (i : ℕ) (f : SharedInformerFactory C N P)
      → lookup t f.informers ≡ some i
      → is_started t f ≡ false
      → IsSound f
      → IsSound
          (record f { started_informers = insert t true f.started_informers; runs = i ∷ f.runs })
  starts-IsSound t i f e b sound = record {
    below = sound.below;
    apart = sound.apart;
    counted = λ u j h. elim (Bool-cases (text_eq t u)) [
      | inl q ↦
          let same_type : t ≡ u = (text_eq_iff t u).0 q in
          let same_informer : j ≡ i = some-inj (sym h ∙ (rw⁻¹ same_type e)) in
          rw (is_started-start t u i f, q, same_informer)
            (count-same i f.runs ∙ ap suc (sound.counted t i e ∙ (rw b refl)))
      | inr q ↦
          rw (is_started-start t u i f, q)
            (count-other j i f.runs (λ same. text_eq-false q (sound.apart t u i e (rw⁻¹ same h)))
              ∙ sound.counted u j h)
    ];
    unmade = λ j h.
        let under = sound.below t i e in
        count-other j i f.runs (λ same. omega (arith, same, h, under)) ∙ sound.unmade j h;
    unasked = λ u h. elim (Bool-cases (text_eq t u)) [
      | inl q ↦
          let same_type : t ≡ u = (text_eq_iff t u).0 q in
          let none_there : lookup t f.informers ≡ none = (rw same_type h) in absurd cc
      | inr q ↦ rw (is_started-start t u i f, q) (sound.unasked u h)
    ];
  }

  pub start_one-IsSound :
      (t : Text) (f : SharedInformerFactory C N P) → IsSound f → IsSound (start_one t f)
  unfolding start_one
  start_one-IsSound t f sound = elim (Option-cases (lookup t f.informers)) [
    | inl e ↦ rw (e, start_one) sound
    | inr (i, e) ↦ elim (Bool-cases (is_started t f)) [
      | inl b ↦ rw (e, start_one) (rw b sound)
      | inr b ↦ rw (e, start_one) (rw b (starts-IsSound t i f e b sound))
    ]
  ]

  pub start-IsSound :
      (order : List Text) (f : SharedInformerFactory C N P) → IsSound f → IsSound (start order f)
  unfolding start
  start-IsSound [] f sound = sound
  start-IsSound (t ∷ order) f sound = start-IsSound order _ (start_one-IsSound t f sound)
