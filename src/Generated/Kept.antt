-- ===== src/Generated/Kept.antt =====
-- What calls of a factory keep: an informer that was made, and that it was started.
use k8s_worker_pod_autoscale.Base.{
  ◌≡◌, refl, ◌∙◌, inl, inr, ℕ, Bool, true, false, none, some, List, [], ◌∷◌, Text, text_eq,
  text_eq_iff, if◌then◌else◌, lookup, lookup-insert, Bool-cases, Option-cases,
}
use k8s_worker_pod_autoscale.Generated.Factory.{
  SharedInformerFactory, is_started, informer_for, start_one, start,
}
use k8s_worker_pod_autoscale.Generated.Sound.{
  FactoryCall, informer_fors, starts, call, run_calls, is_started-start,
}

on-insert : (b : Bool) {c : Bool} → c ≡ true → (if b then true else c) ≡ true
on-insert true e = refl
on-insert false e = e

module _ {C N P : Type 0} where
  -- What an informer was asked for, or started for, stays so.
  pub record Kept (f g : SharedInformerFactory C N P) : Type 0 where
    pub asked : (t : Text) (i : ℕ) → lookup t f.informers ≡ some i → lookup t g.informers ≡ some i
    pub on : (t : Text) → is_started t f ≡ true → is_started t g ≡ true

  pub start_one-Kept : (t : Text) (f : SharedInformerFactory C N P) → Kept f (start_one t f)
  unfolding start_one
  start_one-Kept t f = elim (Option-cases (lookup t f.informers)) [
    | inl e ↦ rw (e, start_one) (record { asked = λ u i h. h; on = λ u h. h })
    | inr (i, e) ↦ elim (Bool-cases (is_started t f)) [
      | inl b ↦ rw (e, start_one) (rw b (record { asked = λ u i h. h; on = λ u h. h }))
      | inr b ↦
          rw (e, start_one)
            (rw b (record {
              asked = λ u j h. h;
              on = λ u h. is_started-start t u i f ∙ on-insert (text_eq t u) h;
            }))
    ]
  ]

  Kept-trans : {f g h : SharedInformerFactory C N P} → Kept f g → Kept g h → Kept f h
  Kept-trans first second = record {
    asked = λ t i e. second.asked t i (first.asked t i e);
    on = λ t e. second.on t (first.on t e);
  }

  pub start-Kept : (order : List Text) (f : SharedInformerFactory C N P) → Kept f (start order f)
  unfolding start
  start-Kept [] f = record { asked = λ u i h. h; on = λ u h. h }
  start-Kept (t ∷ order) f = Kept-trans (start_one-Kept t f) (start-Kept order _)

  informer_for-Kept :
      (t : Text) (n : N) (f : SharedInformerFactory C N P) → Kept f (informer_for t n f).1
  unfolding informer_for is_started
  informer_for-Kept t n f = elim (Option-cases (lookup t f.informers)) [
    | inr (i, e) ↦ rw (e, informer_for) (record { asked = λ u j h. h; on = λ u h. h })
    | inl e ↦
        rw (e, informer_for)
          (record {
            asked = λ u i h.
                lookup-insert t u f.next f.informers ∙ elim (Bool-cases (text_eq t u)) [
                  | inl q ↦
                      let there : lookup u f.informers ≡ none = (rw ((text_eq_iff t u).0 q) at e) in
                      absurd cc
                  | inr q ↦ rw q h
                ];
            on = λ u h. h;
          })
  ]

  call-Kept : (c : FactoryCall N) (f : SharedInformerFactory C N P) → Kept f (call c f)
  unfolding call
  call-Kept (starts order) f = start-Kept order f
  call-Kept (informer_fors t n) f = informer_for-Kept t n f

  pub run_calls-Kept :
      (calls : List (FactoryCall N)) (f : SharedInformerFactory C N P) → Kept f (run_calls calls f)
  unfolding run_calls
  run_calls-Kept [] f = record { asked = λ u i h. h; on = λ u h. h }
  run_calls-Kept (c ∷ calls) f = Kept-trans (call-Kept c f) (run_calls-Kept calls _)
