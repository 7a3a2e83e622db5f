-- ===== src/Generated/Started.antt =====
-- The informers of a factory: one for each type, and one goroutine for each that is started.
use k8s_worker_pod_autoscale.Base.{
  ◌≡◌, refl, ◌∙◌, inl, inr, ℕ, Bool, true, some, List, [], ◌∷◌, Any, Text, text_eq, text_eq_iff,
  text_eq_refl, ℤ, lookup, lookup-insert, Bool-cases, Option-cases,
}
use k8s_worker_pod_autoscale.Generated.Factory.{
  SharedInformerFactory, SharedInformerOption, is_started, informer_for, start_one, start,
  wait_for_cache_sync, new_shared_informer_factory_with_options,
}
use k8s_worker_pod_autoscale.Generated.Sound.{
  count, FactoryCall, run_calls, text_eq-false, is_started-start, start-IsSound,
}
use k8s_worker_pod_autoscale.Generated.Begun.{run_calls-IsSound, new-IsSound}
use k8s_worker_pod_autoscale.Generated.Kept.{run_calls-Kept, start-Kept, start_one-Kept}

-- The order has all types that the factory has an informer for.
abbrev pub Covers : {C N P : Type 0} → List Text → SharedInformerFactory C N P → Type 0
Covers order f = (t : Text) (i : ℕ) → lookup t f.informers ≡ some i → Any (λ u. u ≡ t) order

module _ {C N P : Type 0} where
  start_one-on :
      (t : Text) (i : ℕ) (f : SharedInformerFactory C N P)
      → lookup t f.informers ≡ some i
      → is_started t (start_one t f) ≡ true
  unfolding start_one
  start_one-on t i f e = elim (Bool-cases (is_started t f)) [
    | inl b ↦ rw (e, start_one) (rw b b)
    | inr b ↦ rw (e, start_one) (rw b (is_started-start t t i f ∙ rw (text_eq_refl t) refl))
  ]

  -- A type that the order has is started.
  start-on :
      (order : List Text) (t : Text) (i : ℕ) (f : SharedInformerFactory C N P)
      → lookup t f.informers ≡ some i
      → Any (λ u. u ≡ t) order
      → is_started t (start order f) ≡ true
  unfolding start
  start-on [] t i f e h = absurd h
  start-on (u ∷ order) t i f e (inl same) =
      (start-Kept order _).on t (rw same (start_one-on t i f e))
  start-on (u ∷ order) t i f e (inr h) = start-on order t i _ ((start_one-Kept u f).asked t i e) h

  module _ (synced : ℕ → Bool) (t : Text) (i : ℕ) (f : SharedInformerFactory C N P)
      (there : lookup t f.informers ≡ some i) where
    -- What the types of the order that are other than `t`, or not started, add to the answers.
    waits-cons :
        (u : Text) (order : List Text)
        → ¬ (u ≡ t)
        → lookup t (wait_for_cache_sync synced (u ∷ order) f)
          ≡ lookup t (wait_for_cache_sync synced order f)
    unfolding wait_for_cache_sync
    waits-cons u order n = elim (Option-cases (lookup u f.informers)) [
      | inl e ↦ rw (e, wait_for_cache_sync) refl
      | inr (j, e) ↦ elim (Bool-cases (is_started u f)) [
        | inr b ↦ rw (e, wait_for_cache_sync) (rw b refl)
        | inl b ↦
            rw (e, wait_for_cache_sync)
              (rw b (
                lookup-insert u t (synced j) (wait_for_cache_sync synced order f)
                ∙ elim (Bool-cases (text_eq u t)) [
                  | inl q ↦ absurd (n ((text_eq_iff u t).0 q))
                  | inr q ↦ rw q refl
                ]))
      ]
    ]

    waits_here :
        (order : List Text)
        → is_started t f ≡ true
        → lookup t (wait_for_cache_sync synced (t ∷ order) f) ≡ some (synced i)
    unfolding wait_for_cache_sync
    waits_here order b =
        rw (there, wait_for_cache_sync)
          (rw b (
            lookup-insert t t (synced i) (wait_for_cache_sync synced order f)
            ∙ rw (text_eq_refl t) refl))

    waits :
        (order : List Text)
        → is_started t f ≡ true
        → Any (λ u. u ≡ t) order
        → lookup t (wait_for_cache_sync synced order f) ≡ some (synced i)
    waits [] b h = absurd h
    waits (u ∷ order) b h = elim (Bool-cases (text_eq u t)) [
      | inl q ↦ let same : u ≡ t = (text_eq_iff u t).0 q in rw same (waits_here order b)
      | inr q ↦
          let n = text_eq-false q in
          waits-cons u order n ∙ waits order b (elim h [ inl e ↦ absurd (n e) | inr e ↦ e ])
    ]

-- Each informer that was asked for before a Start runs once, whatever was called before and is called
-- after it: for a factory made with any options, any calls of InformerFor and Start, then a Start that
-- goes through the types of the factory in any order, and any calls again, the informer of a type that
-- had one is the one that InformerFor still returns for it, its Run has been called in exactly one
-- goroutine, and WaitForCacheSync waits for it.
pub started_runs_once :
    {C N P : Type 0} (client : C) (default_resync : ℤ) (options : List (SharedInformerOption P))
    (before after : List (FactoryCall N)) (order : List Text) (t : Text) (new_func : N) (i : ℕ)
    (synced : ℕ → Bool) (wait_order : List Text)
    → let f : SharedInformerFactory C N P =
        run_calls before (new_shared_informer_factory_with_options client default_resync options) in
      let g = run_calls after (start order f) in
      lookup t f.informers ≡ some i
      → Covers order f
      → Covers wait_order g
      → ((informer_for t new_func g).0 ≡ i)
        × (count i g.runs ≡ 1)
        × (lookup t (wait_for_cache_sync synced wait_order g) ≡ some (synced i))
unfolding informer_for
started_runs_once client default_resync options before after order t new_func i synced wait_order
      asked covers wait_covers =
    let f =
      run_calls before (new_shared_informer_factory_with_options client default_resync options) in
    let g = run_calls after (start order f) in
    let later = run_calls-Kept after (start order f) in
    let there = later.asked t i ((start-Kept order f).asked t i asked) in
    let on = later.on t (start-on order t i f asked (covers t i asked)) in
    let sound = run_calls-IsSound after _ (
      start-IsSound order f
        (run_calls-IsSound before _ (new-IsSound client default_resync options))) in
    (
      rw (there, informer_for) refl,
      sound.counted t i there ∙ rw on refl,
      waits synced t i g there wait_order on (wait_covers t i there),
    )
