-- ===== src/Generated/Begun.antt =====
-- A factory that begins with any options, and any calls of it, keep to what `IsSound` says.
use k8s_worker_pod_autoscale.Base.{
  ◌≡◌, refl, sym, ◌∙◌, inl, inr, ◌⊎◌, ℕ, false, none, some, List, [], ◌∷◌, Text, text_eq,
  text_eq_iff, ℤ, lookup, insert, lookup-insert, Bool-cases, Option-cases, arith,
}
use k8s_worker_pod_autoscale.Generated.Factory.{
  SharedInformerFactory, SharedInformerOption, apply_option, apply_options, is_started,
  informer_for, new_shared_informer_factory_with_options, with_custom_resync_config,
  with_tweak_list_options, with_namespace,
}
use k8s_worker_pod_autoscale.Generated.Sound.{
  count, FactoryCall, informer_fors, starts, call, run_calls, some-inj, text_eq-false, IsSound,
  start-IsSound,
}

module _ {C N P : Type 0} where
  -- The types of an informer in the map with a new one.
  inserted :
      (t u : Text) (f : SharedInformerFactory C N P) (i : ℕ)
      → lookup u (insert t f.next f.informers) ≡ some i
      → ((t ≡ u) × (i ≡ f.next)) ⊎ ((¬ (t ≡ u)) × (lookup u f.informers ≡ some i))
  inserted t u f i h = elim (Bool-cases (text_eq t u)) [
    | inl q ↦ inl (
      (text_eq_iff t u).0 q,
      sym (some-inj ((rw q refl) ∙ sym (lookup-insert t u f.next f.informers) ∙ h)),
    )
    | inr q ↦ inr (text_eq-false q, (rw q refl) ∙ sym (lookup-insert t u f.next f.informers) ∙ h)
  ]

  -- An informer is made for `t`.
  makes-IsSound :
      (t : Text) (n : N) (f : SharedInformerFactory C N P)
      → lookup t f.informers ≡ none
      → IsSound f
      → IsSound (informer_for t n f).1
  unfolding informer_for is_started
  makes-IsSound t n f e sound =
      rw (e, informer_for)
        (record {
          below = λ u i h. elim (inserted t u f i h) [
            | inl (_, new) ↦ omega (arith, new)
            | inr (_, old) ↦ let under = sound.below u i old in omega (arith, under)
          ];
          apart = λ u v i h k. elim (inserted t u f i h) [
            | inl (at_u, new) ↦ elim (inserted t v f i k) [
              | inl (at_v, _) ↦ sym at_u ∙ at_v
              | inr (_, old) ↦ let under = sound.below v i old in absurd (omega (arith, new, under))
            ]
            | inr (_, old) ↦ elim (inserted t v f i k) [
              | inl (_, new) ↦ let under = sound.below u i old in absurd (omega (arith, new, under))
              | inr (_, old') ↦ sound.apart u v i old old'
            ]
          ];
          counted = λ u i h. elim (inserted t u f i h) [
            | inl (at_u, new) ↦
                let off : is_started u f ≡ false = (rw at_u at (sound.unasked t e)) in
                let none_run = sound.unmade i (omega (arith, new)) in none_run ∙ (rw off refl)
            | inr (_, old) ↦ sound.counted u i old
          ];
          unmade = λ i h. sound.unmade i (omega (arith, h));
          unasked = λ u h. elim (Bool-cases (text_eq t u)) [
            | inl q ↦ absurd (
                let h' = sym (lookup-insert t u f.next f.informers) ∙ h in
                let clash : some f.next ≡ none = (rw q at h') in cc)
            | inr q ↦ sound.unasked u (rw q at (sym (lookup-insert t u f.next f.informers) ∙ h))
          ];
        })

  informer_for-IsSound :
      (t : Text) (n : N) (f : SharedInformerFactory C N P)
      → IsSound f
      → IsSound (informer_for t n f).1
  unfolding informer_for
  informer_for-IsSound t n f sound = elim (Option-cases (lookup t f.informers)) [
    | inl e ↦ makes-IsSound t n f e sound
    | inr (i, e) ↦ rw (e, informer_for) sound
  ]

  call-IsSound :
      (c : FactoryCall N) (f : SharedInformerFactory C N P) → IsSound f → IsSound (call c f)
  unfolding call
  call-IsSound (informer_fors t n) f sound = informer_for-IsSound t n f sound
  call-IsSound (starts order) f sound = start-IsSound order f sound

  pub run_calls-IsSound :
      (calls : List (FactoryCall N)) (f : SharedInformerFactory C N P)
      → IsSound f
      → IsSound (run_calls calls f)
  unfolding run_calls
  run_calls-IsSound [] f sound = sound
  run_calls-IsSound (c ∷ calls) f sound = run_calls-IsSound calls _ (call-IsSound c f sound)

  apply_options-IsSound :
      (options : List (SharedInformerOption P)) (f : SharedInformerFactory C N P)
      → IsSound f
      → IsSound (apply_options options f)
  unfolding apply_options apply_option is_started
  apply_options-IsSound [] f sound = sound
  apply_options-IsSound (with_custom_resync_config config ∷ options) f sound =
      apply_options-IsSound options _ (record {
        below = sound.below;
        apart = sound.apart;
        counted = sound.counted;
        unmade = sound.unmade;
        unasked = sound.unasked;
      })
  apply_options-IsSound (with_tweak_list_options tweak ∷ options) f sound =
      apply_options-IsSound options _ (record {
        below = sound.below;
        apart = sound.apart;
        counted = sound.counted;
        unmade = sound.unmade;
        unasked = sound.unasked;
      })
  apply_options-IsSound (with_namespace ns ∷ options) f sound =
      apply_options-IsSound options _ (record {
        below = sound.below;
        apart = sound.apart;
        counted = sound.counted;
        unmade = sound.unmade;
        unasked = sound.unasked;
      })

  pub new-IsSound :
      (client : C) (default_resync : ℤ) (options : List (SharedInformerOption P))
      → IsSound {N = N} (new_shared_informer_factory_with_options client default_resync options)
  unfolding new_shared_informer_factory_with_options lookup count is_started
  new-IsSound client default_resync options = apply_options-IsSound options _ (record {
    below = λ t i h. absurd cc;
    apart = λ t u i h k. absurd cc;
    counted = λ t i h. absurd cc;
    unmade = λ i h. refl;
    unasked = λ t h. refl;
  })
