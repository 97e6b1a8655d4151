-- ===== src/Revision/Rules/Steps.antt =====
-- On the steps of an update: what each of them leaves as it was.
use hetida_designer.Prelude.{
  ℕ, ◌≡◌, ◌≢◌, ◌⊎◌, inl, inr, refl, sym, ap, ◌∙◌, Bool, true, false, not, ◌&&◌, Option, some, ◌==◌,
  nat_eq, ==→≡, ==_self, ≡→==, Bool-cases, if◌then◌else◌, ok, >>=-eq-ok, >>-require, is_some,
  ok-injective,
}
use hetida_designer.Operator.{
  trafo_type_eq, State, draft, released, disabled, state_eq, State-discrete,
}
use hetida_designer.Revision.{
  Content, IoInterface, TransformationRevision, revision_eq, validate_content,
  timestamps_set_corresponding_to_state,
}
use hetida_designer.Revision.Fit.{io_interface_fits_to_content}
use hetida_designer.Revision.Lifecycle.{
  Library, with_state, with_content, model_validate, assign_content, assign_state, refit, release,
  deprecate,
}
use hetida_designer.Revision.Rules.{with_docu, tr_same_except_for_wiring_and_docu, is_modifiable}

pub &&-true : (a b : Bool) → a && b ≡ true → (a ≡ true) × (b ≡ true)
&&-true true b h = (refl, h)
&&-true false b h = cc

pub released_disabled : (released == disabled) ≡ false
unfolding State-discrete
released_disabled = refl

-- From `r` only the io interface was changed.
abbrev pub Refitted : TransformationRevision → TransformationRevision → Type 0
Refitted r it = (io : IoInterface) × (it ≡ with_content r r.content io)

module _ (library : Library) where
  refit-Refitted :
      (r : TransformationRevision) {it : TransformationRevision}
      → refit library r ≡ ok it
      → Refitted r it
  unfolding refit
  refit-Refitted r run =
      let (io, fitted, same) =
        >>=-eq-ok (io_interface_fits_to_content library.python r.content r.io_interface) _ run in
      (io, sym (ok-injective same))

  pub assign_content-eq :
      (content : Content) (r : TransformationRevision) {it : TransformationRevision}
      → assign_content library content r ≡ ok it
      → (valid : Content) × (io : IoInterface) × (validate_content r.type r.state content
          ≡ ok valid)
        × (it ≡ with_content r valid io)
  unfolding assign_content
  assign_content-eq content r run =
      let (valid, checked, r1) = >>=-eq-ok (validate_content r.type r.state content) _ run in
      let (io, fitted, same) =
        >>=-eq-ok (io_interface_fits_to_content library.python valid r.io_interface) _ r1 in
      (valid, io, checked, sym (ok-injective same))

  pub timestamps-eq :
      (d r : Option ℕ) (state : State) {valid : State}
      → timestamps_set_corresponding_to_state d r state ≡ ok valid
      → state ≡ valid
  unfolding timestamps_set_corresponding_to_state
  timestamps-eq d r state run =
      let (h1, r1) = >>-require (not (state == draft && is_some r)) _ _ run in
      let (h2, r2) = >>-require (not (state == released && not (is_some r))) _ _ r1 in
      let (h3, r3) = >>-require (not (state == released && is_some d)) _ _ r2 in
      let (h4, r4) = >>-require (not (state == disabled && not (is_some d))) _ _ r3 in
      ok-injective r4

  -- Only the state and the io interface were changed.
  assign_state-eq :
      (state : State) (r : TransformationRevision) {it : TransformationRevision}
      → assign_state library state r ≡ ok it
      → Refitted (with_state r r.disabled_timestamp r.released_timestamp state r.release_wiring) it
  unfolding assign_state
  assign_state-eq state r run =
      let (valid, checked, r1) =
        >>=-eq-ok
          (timestamps_set_corresponding_to_state r.disabled_timestamp r.released_timestamp state) _
          run in
      let same = timestamps-eq r.disabled_timestamp r.released_timestamp state checked in
      refit-Refitted (with_state r r.disabled_timestamp r.released_timestamp state r.release_wiring)
        (rw (← same) at r1)

  pub deprecate-Refitted :
      (now : ℕ) (r : TransformationRevision) {it : TransformationRevision}
      → deprecate library now r ≡ ok it
      → Refitted (with_state r (some now) r.released_timestamp disabled r.release_wiring) it
  unfolding deprecate
  deprecate-Refitted now r run =
      let (dated, first, r1) =
        >>=-eq-ok
          (refit library (with_state r (some now) r.released_timestamp r.state r.release_wiring)) _
          run in
      let (final, second, r2) = >>=-eq-ok (assign_state library disabled dated) _ r1 in
      let (copy, valid, same) = >>=-eq-ok (model_validate library final) _ r2 in
      let (io1, e1) = refit-Refitted _ first in
      let (io2, e2) = assign_state-eq disabled dated second in
      (
        io2,
        sym (ok-injective same)
            ∙ e2
            ∙ ap
                (λ d.
                  with_content
                    (with_state d d.disabled_timestamp d.released_timestamp disabled
                      d.release_wiring)
                    d.content io2)
                e1,
      )

  pub release-Refitted :
      (now : ℕ) (r : TransformationRevision) {it : TransformationRevision}
      → release library now r ≡ ok it
      → Refitted (with_state r r.disabled_timestamp (some now) released (some r.test_wiring)) it
  unfolding release
  release-Refitted now r run =
      let (dated, first, r1) =
        >>=-eq-ok
          (refit library (with_state r r.disabled_timestamp (some now) r.state r.release_wiring)) _
          run in
      let (wired, second, r2) =
        >>=-eq-ok
          (refit library (
            with_state dated dated.disabled_timestamp dated.released_timestamp dated.state
              (some dated.test_wiring)))
          _ r1 in
      let (final, third, r3) = >>=-eq-ok (assign_state library released wired) _ r2 in
      let (copy, valid, same) = >>=-eq-ok (model_validate library final) _ r3 in
      let (io1, e1) = refit-Refitted _ first in
      let (io2, e2) = refit-Refitted _ second in
      let (io3, e3) = assign_state-eq released wired third in
      (
        io3,
        sym (ok-injective same)
            ∙ e3
            ∙ ap
                (λ d.
                  with_content
                    (with_state d d.disabled_timestamp d.released_timestamp released
                      d.release_wiring)
                    d.content io3)
                e2
            ∙ ap
                (λ d.
                  with_content
                    (with_state d d.disabled_timestamp d.released_timestamp released
                      (some d.test_wiring))
                    d.content io3)
                e1,
      )

  -- The given revision differs from the stored one in wiring, documentation and io interface at most.
  abbrev pub Same : TransformationRevision → TransformationRevision → Type 0
  Same existing given =
      (io : IoInterface) × (given
        ≡ with_content (with_docu existing given.test_wiring given.documentation) existing.content
            io)

  wiring-Same :
      (existing given : TransformationRevision)
      → tr_same_except_for_wiring_and_docu library existing given ≡ ok true
      → Same existing given
  unfolding tr_same_except_for_wiring_and_docu
  wiring-Same existing given run =
      let (wired, first, r1) =
        >>=-eq-ok (refit library (with_docu existing given.test_wiring existing.documentation)) _
          run in
      let (compare, second, r2) =
        >>=-eq-ok (refit library (with_docu wired wired.test_wiring given.documentation)) _ r1 in
      let (io1, e1) = refit-Refitted _ first in
      let (io2, e2) = refit-Refitted _ second in
      (
        io2,
        sym (==→≡ compare given (ok-injective r2))
            ∙ e2
            ∙ ap (λ w. with_content (with_docu w w.test_wiring given.documentation) w.content io2)
                e1,
      )

  -- What may be written over a stored revision without leave to overwrite released ones.
  pub is_modifiable-cases :
      (existing given : TransformationRevision)
      → is_modifiable library existing given false ≡ ok true
      → (existing.type ≡ given.type)
        × (Same existing given
            ⊎ ((existing.state ≢ disabled) × (existing.state ≡ released → given.state ≡ disabled)))
  unfolding is_modifiable
  is_modifiable-cases existing given run = elim (Bool-cases (existing.type == given.type)) [
    | inr other ↦ cc (rw other at run)
    | inl typed ↦
        let (same, first, r1) =
          >>=-eq-ok (tr_same_except_for_wiring_and_docu library existing given) _
            (rw typed at run) in
        (==→≡ existing.type given.type typed, go same first (ok-injective r1))
  ]
    where
      go :
          (same : Bool)
          → tr_same_except_for_wiring_and_docu library existing given ≡ ok same
          → (if same
              then true
              else if existing.state == disabled && not false
              then false
              else not (existing.state == released && (not (given.state == disabled) && not false)))
            ≡ true
          → Same existing given
            ⊎ ((existing.state ≢ disabled) × (existing.state ≡ released → given.state ≡ disabled))
      go true first h = inl (wiring-Same existing given first)
      go false first h = inr (
        λ e. cc (rw (≡→== existing.state disabled e) at h),
        λ e. elim (Bool-cases (given.state == disabled)) [
          | inl d ↦ ==→≡ given.state disabled d
          | inr n ↦ rests e n
        ],
      )
        where
          rests :
              existing.state ≡ released → (given.state == disabled) ≡ false → given.state ≡ disabled
          rests e n = cc (rw (e, n, released_disabled, ==_self released) at h)
