-- ===== src/Revision/Rules/States.antt =====
-- On the states of revisions: which follow on which, and how the timestamps go with them.
use hetida_designer.Prelude.{
  ℕ, ◌≡◌, inl, inr, refl, sym, ap, subst, ◌∙◌, Bool, true, false, Option, none, some, Text, ◌==◌,
  Bool-cases, if◌then◌else◌, Result, ok, ◌>>=◌, >>=-eq-ok, >>-require, is_some, ok-injective,
}
use hetida_designer.Operator.{
  component, workflow, trafo_type_eq, State, draft, released, disabled, state_eq, State-discrete,
}
use hetida_designer.Revision.{
  Content, code, workflow_content, TransformationRevision, timestamps_set_corresponding_to_state,
  disabled_timestamp_requires_released_timestamp, version_tag_not_latest, with_operators,
}
use hetida_designer.Revision.Lifecycle.{Library, with_content, model_validate, assign_content}
use hetida_designer.Revision.Rules.{
  ComponentCode, the_workflow, update_operators, is_modifiable, if_applicable_release_or_deprecate,
  update_component_content, update_content, prepare_update,
}
use hetida_designer.Revision.Rules.Steps.{assign_content-eq, is_modifiable-cases}
use hetida_designer.Revision.Rules.Validated.{model_validate-eq}
use hetida_designer.Revision.Rules.Locked.{State-cases}
use hetida_designer.Revision.Rules.Apply.{if_applicable-cases}

-- How the state of a revision may change while nothing is overwritten.
pub data Moves : State → State → Type 0 where
  keeps : {s : State} → Moves s s
  leaves_draft : {s : State} → Moves draft s
  deprecates : Moves released disabled

-- Which timestamps go with a state: the disabled one, then the released one.
abbrev pub IsConsistent : State → Option ℕ → Option ℕ → Type 0
IsConsistent draft d r = (d ≡ none) × (r ≡ none)
IsConsistent released d r = (d ≡ none) × (is_some r ≡ true)
IsConsistent disabled d r = (is_some d ≡ true) × (is_some r ≡ true)

timestamps-IsConsistent :
    (d r : Option ℕ) (state : State) {valid : State}
    → timestamps_set_corresponding_to_state d
        (disabled_timestamp_requires_released_timestamp d r)
        state
      ≡ ok valid
    → IsConsistent state d (disabled_timestamp_requires_released_timestamp d r)
unfolding timestamps_set_corresponding_to_state disabled_timestamp_requires_released_timestamp
    State-discrete
timestamps-IsConsistent none none draft run = (refl, refl)
timestamps-IsConsistent none (some r) draft run = cc
timestamps-IsConsistent (some d) none draft run = cc
timestamps-IsConsistent (some d) (some r) draft run = cc
timestamps-IsConsistent none none released run = cc
timestamps-IsConsistent none (some r) released run = (refl, refl)
timestamps-IsConsistent (some d) none released run = cc
timestamps-IsConsistent (some d) (some r) released run = cc
timestamps-IsConsistent none none disabled run = cc
timestamps-IsConsistent none (some r) disabled run = cc
timestamps-IsConsistent (some d) none disabled run = (refl, refl)
timestamps-IsConsistent (some d) (some r) disabled run = (refl, refl)

abbrev pub HasConsistentTimes : TransformationRevision → Type 0
HasConsistentTimes r = IsConsistent r.state r.disabled_timestamp r.released_timestamp

-- The lifecycle fields are the same.
record SameTimes (r it : TransformationRevision) : Type 0 where
  state : r.state ≡ it.state
  times : HasConsistentTimes it → HasConsistentTimes r

module _ (library : Library) where
  pub model_validate-HasConsistentTimes :
      (r : TransformationRevision) {it : TransformationRevision}
      → model_validate library r ≡ ok it
      → HasConsistentTimes it
  unfolding model_validate
  model_validate-HasConsistentTimes r {it} run =
      let (io, same) = model_validate-eq library r run in
      let (tag, e1, r1) = >>=-eq-ok (version_tag_not_latest library.lower r.version_tag) _ run in
      let (state, e2, r2) =
        >>=-eq-ok
          (timestamps_set_corresponding_to_state r.disabled_timestamp
            (disabled_timestamp_requires_released_timestamp r.disabled_timestamp
              r.released_timestamp)
            r.state)
          _ r1 in
      subst (λ x. HasConsistentTimes x) (sym same)
        (timestamps-IsConsistent r.disabled_timestamp r.released_timestamp r.state e2)

  with_content-SameTimes :
      (it r : TransformationRevision) (content : Content)
      → ((io : _) × (r ≡ with_content it content io))
      → SameTimes r it
  with_content-SameTimes it r content (io, same) = record {
    state = ap (λ x. x.state) same;
    times = λ h. subst (λ x. HasConsistentTimes x) (sym same) h;
  }

  assign_content-SameTimes :
      (content : Content) (r : TransformationRevision) {it : TransformationRevision}
      → assign_content library content r ≡ ok it
      → SameTimes it r
  assign_content-SameTimes content r {it} run =
      let (valid, io, checked, same) = assign_content-eq library content r run in
      with_content-SameTimes r it valid (io, same)

  SameTimes-refl : (r : TransformationRevision) → SameTimes r r
  SameTimes-refl r = record { state = refl; times = λ h. h }

  SameTimes-trans : {a b c : TransformationRevision} → SameTimes a b → SameTimes b c → SameTimes a c
  SameTimes-trans f g = record { state = f.state ∙ g.state; times = λ h. f.times (g.times h) }

  module _ (component_code : ComponentCode) (reads : ℕ → Result TransformationRevision) where
    update_component_content-SameTimes :
        (it : TransformationRevision) (expand : Bool) {r : TransformationRevision}
        → update_component_content library component_code it expand ≡ ok r
        → SameTimes r it
    unfolding update_component_content
    update_component_content-SameTimes it expand {r} run =
        let (new, e1, r1) = >>=-eq-ok (component_code.update_code it) _ run in
        let (mid, e2, r2) = >>=-eq-ok (assign_content library (code new) it) _ r1 in
        go expand mid new e2 r2
      where
        go :
            (expand : Bool) (mid : TransformationRevision) (new : Text)
            → assign_content library (code new) it ≡ ok mid
            → (if expand
                then (component_code.expand_code mid >>= λ expanded.
                    assign_content library (code expanded) mid)
                else ok mid)
              ≡ ok r
            → SameTimes r it
        go true mid new e h =
            let (expanded, e3, e4) = >>=-eq-ok (component_code.expand_code mid) _ h in
            SameTimes-trans (assign_content-SameTimes (code expanded) mid e4)
              (assign_content-SameTimes (code new) it e)
        go false mid new e h = rw (← ok-injective h) (assign_content-SameTimes (code new) it e)

    update_content-SameTimes :
        (it existing : TransformationRevision) (expand : Bool) {r : TransformationRevision}
        → update_content library component_code reads it existing expand ≡ ok r
        → SameTimes r it
    unfolding update_content
    update_content-SameTimes it existing expand {r} run = elim (Bool-cases (it.type == component)) [
      | inl c ↦ update_component_content-SameTimes it expand (rw c at run)
      | inr w ↦
          let (old, e1, r1) = >>=-eq-ok (the_workflow existing.content) _ (rw w at run) in
          let (c, e2, r2) = >>=-eq-ok (the_workflow it.content) _ r1 in
          let (ops, e3, r3) = >>=-eq-ok (update_operators reads old.operators c.operators) _ r2 in
          with_content-SameTimes it r (workflow_content (with_operators c ops))
            (it.io_interface, sym (ok-injective r3))
    ]

    final-SameTimes :
        (it existing : TransformationRevision) (update_code expand : Bool)
        {r : TransformationRevision}
        → (if it.type == workflow
            then update_content library component_code reads it existing expand
            else if update_code
            then update_content library component_code reads it existing expand
            else ok it)
          ≡ ok r
        → SameTimes r it
    final-SameTimes it existing update_code expand {r} run =
        elim (Bool-cases (it.type == workflow)) [
          | inl w ↦ update_content-SameTimes it existing expand (rw w at run)
          | inr c ↦ elim (Bool-cases update_code) [
            | inl u ↦ update_content-SameTimes it existing expand (rw (c, u) at run)
            | inr n ↦ rw (← ok-injective (rw (c, n) at run)) (SameTimes-refl it)
          ]
        ]

    -- The states of what is written over a stored revision, while overwriting is not allowed: a draft
    -- may take any state, a released revision stays so or is disabled, and a disabled one stays so.
    pub prepare_update-Moves :
        (now : ℕ) (update_code expand : Bool) (existing given : TransformationRevision)
        {r : TransformationRevision}
        → prepare_update library component_code now reads false update_code expand existing given
          ≡ ok r
        → Moves existing.state r.state
    unfolding prepare_update
    prepare_update-Moves now update_code expand existing given {r} run =
        let (modifiable, e1, r1) = >>=-eq-ok (is_modifiable library existing given false) _ run in
        let (allowed, r2) = >>-require modifiable _ _ r1 in
        let (it, e2, r3) =
          >>=-eq-ok (if_applicable_release_or_deprecate library now existing given) _ r2 in
        rw (SameTimes.state (final-SameTimes it existing update_code expand r3))
          (go it (rw allowed at e1) e2)
      where
        go :
            (it : TransformationRevision)
            → is_modifiable library existing given false ≡ ok true
            → if_applicable_release_or_deprecate library now existing given ≡ ok it
            → Moves existing.state it.state
        go it modifiable applied =
            let (typed, kind) = is_modifiable-cases library existing given modifiable in
            elim (if_applicable-cases library now existing given applied) [
              | inl (was, is, becomes) ↦ rw was Moves.leaves_draft
              | inr later ↦ elim later [
                | inl (was, is, (copy, changed, valid, io, again, (io', step), checked, last)) ↦
                    rw (was, ap (λ x. x.state) last ∙ ap (λ x. x.state) step) Moves.deprecates
                | inr (apart, same) ↦ elim kind [
                  | inl (io, equal) ↦
                      rw (ap (λ x. x.state) same ∙ ap (λ x. x.state) equal) Moves.keeps
                  | inr (not_disabled, goes) ↦ elim (State-cases existing.state) [
                    | inl is_draft ↦ rw is_draft Moves.leaves_draft
                    | inr others ↦ elim others [
                      | inl is_released ↦ absurd (apart is_released (goes is_released))
                      | inr is_disabled ↦ absurd (not_disabled is_disabled)
                    ]
                  ]
                ]
              ]
            ]

    -- Whatever may be overwritten, what is written over a stored revision has the timestamps that its
    -- state asks for, if the stored and the given one were validated: none of them in a draft, only the
    -- released one in a released revision, both in a disabled one.
    pub prepare_update-HasConsistentTimes :
        (now : ℕ) (overwrite update_code expand : Bool)
        (x y existing given : TransformationRevision) {r : TransformationRevision}
        → model_validate library x ≡ ok existing
        → model_validate library y ≡ ok given
        → prepare_update library component_code now reads overwrite update_code expand existing
            given
          ≡ ok r
        → HasConsistentTimes r
    unfolding prepare_update
    prepare_update-HasConsistentTimes now overwrite update_code expand x y existing given {r} stored
          valid run =
        let (modifiable, e1, r1) =
          >>=-eq-ok (is_modifiable library existing given overwrite) _ run in
        let (allowed, r2) = >>-require modifiable _ _ r1 in
        let (it, e2, r3) =
          >>=-eq-ok (if_applicable_release_or_deprecate library now existing given) _ r2 in
        SameTimes.times (final-SameTimes it existing update_code expand r3) (go it e2)
      where
        given_times : HasConsistentTimes given
        given_times = model_validate-HasConsistentTimes y valid

        go :
            (it : TransformationRevision)
            → if_applicable_release_or_deprecate library now existing given ≡ ok it
            → HasConsistentTimes it
        go it applied = elim (if_applicable-cases library now existing given applied) [
          | inl (was, is, (io, valid', io', same)) ↦
              subst (λ v. HasConsistentTimes v) (sym same) ((rw is at given_times).0, refl)
          | inr later ↦ elim later [
            | inl (was, is, (copy, changed, valid, io, again, (io', step), checked, last)) ↦
                subst (λ v. HasConsistentTimes v)
                  (sym (last ∙ ap (λ v. with_content v valid io) step))
                  (
                    refl,
                    released_time copy (model_validate-HasConsistentTimes existing again)
                        (copied was again),
                  )
            | inr (apart, same) ↦ subst (λ v. HasConsistentTimes v) (sym same) given_times
          ]
        ]
          where
            copied :
                {copy : TransformationRevision}
                → existing.state ≡ released
                → model_validate library existing ≡ ok copy
                → copy.state ≡ released
            copied was again =
                ap (λ v. v.state) ((model_validate-eq library existing again).1) ∙ was

            released_time :
                (copy : TransformationRevision)
                → HasConsistentTimes copy
                → copy.state ≡ released
                → is_some copy.released_timestamp ≡ true
            released_time copy h e = (rw e at h).1
