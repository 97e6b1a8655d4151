-- ===== src/Revision/Rules/Apply.antt =====
-- The cases of `if_applicable_release_or_deprecate`.
use hetida_designer.Prelude.{
  ℕ, ◌≡◌, ◌≢◌, ◌⊎◌, inl, inr, sym, ap, ◌∙◌, true, ◌&&◌, some, ◌==◌, nat_eq, ==→≡, ≡→==, Bool-cases,
  ok, ◌>>=◌, >>=-eq-ok, ok-injective,
}
use hetida_designer.Operator.{trafo_type_eq, draft, released, disabled, state_eq}
use hetida_designer.Revision.{Content, IoInterface, TransformationRevision, validate_content}
use hetida_designer.Revision.Lifecycle.{
  Library, with_state, with_content, model_validate, assign_content, release, deprecate,
}
use hetida_designer.Revision.Rules.{if_applicable_release_or_deprecate}
use hetida_designer.Revision.Rules.Steps.{
  &&-true, Refitted, assign_content-eq, release-Refitted, deprecate-Refitted,
}

module _ (library : Library) where
  -- The revision was deprecated: it is the stored one, validated again.
  abbrev pub Deprecated : ℕ → TransformationRevision → TransformationRevision → Type 0
  Deprecated now existing it =
      (copy changed : TransformationRevision) × (valid : Content) × (io : IoInterface)
      × (model_validate library existing ≡ ok copy)
      × Refitted (with_state copy (some now) copy.released_timestamp disabled copy.release_wiring)
          changed
      × (validate_content changed.type changed.state existing.content ≡ ok valid)
      × (it ≡ with_content changed valid io)

  -- The given revision was released: but for these fields, content and io interface it is the same.
  abbrev pub Released : ℕ → TransformationRevision → TransformationRevision → Type 0
  Released now given it =
      (io : IoInterface) × (valid : Content) × (io' : IoInterface) × (it
        ≡ with_content
            (with_content
              (with_state given given.disabled_timestamp (some now) released
                (some given.test_wiring))
              given.content io)
            valid io')

  pub if_applicable-cases :
      (now : ℕ) (existing given : TransformationRevision) {it : TransformationRevision}
      → if_applicable_release_or_deprecate library now existing given ≡ ok it
      → ((existing.state ≡ draft) × (given.state ≡ released) × Released now given it)
        ⊎ (((existing.state ≡ released) × (given.state ≡ disabled) × Deprecated now existing it)
            ⊎ (((existing.state ≡ released → given.state ≢ disabled)) × (it ≡ given)))
  unfolding if_applicable_release_or_deprecate
  if_applicable-cases now existing given {it} run =
      elim (Bool-cases (existing.state == draft && given.state == released)) [
        | inl first ↦ inl (released_case first (rw first at run))
        | inr not_first ↦
            elim (Bool-cases (existing.state == released && given.state == disabled)) [
              | inl second ↦ inr (inl (disabled_case second (rw (not_first, second) at run)))
              | inr not_second ↦ inr (
                  inr (
                    λ e d. cc (
                        rw (≡→== existing.state released e, ≡→== given.state disabled d) at
                          not_second),
                    sym (ok-injective (rw (not_first, not_second) at run)),
                  ))
            ]
      ]
    where
      released_case :
          existing.state == draft && given.state == released ≡ true
          → (release library now given >>= assign_content library existing.content) ≡ ok it
          → (existing.state ≡ draft) × (given.state ≡ released) × Released now given it
      released_case test r =
          let (a, b) = &&-true (existing.state == draft) (given.state == released) test in
          let (r', e1, e2) = >>=-eq-ok (release library now given) _ r in
          let (io, same) = release-Refitted library now given e1 in
          let (valid, io', checked, final) = assign_content-eq library existing.content r' e2 in
          (
            ==→≡ existing.state draft a,
            ==→≡ given.state released b,
            (io, valid, io', final ∙ ap (λ x. with_content x valid io') same),
          )

      disabled_case :
          existing.state == released && given.state == disabled ≡ true
          → (model_validate library existing >>= λ copy.
              deprecate library now copy >>= assign_content library existing.content)
            ≡ ok it
          → (existing.state ≡ released) × (given.state ≡ disabled) × Deprecated now existing it
      disabled_case test r =
          let (a, b) = &&-true (existing.state == released) (given.state == disabled) test in
          let (copy, e0, r0) = >>=-eq-ok (model_validate library existing) _ r in
          let (r', e1, e2) = >>=-eq-ok (deprecate library now copy) _ r0 in
          let (valid, io', checked, final) = assign_content-eq library existing.content r' e2 in
          (
            ==→≡ existing.state released a,
            ==→≡ given.state disabled b,
            (copy, r', valid, io', e0, deprecate-Refitted library now copy e1, checked, final),
          )
