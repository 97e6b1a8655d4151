-- ===== src/Revision/Rules/Locked.antt =====
-- On updates of a revision that is released or deprecated: what stays as it is stored.
use hetida_designer.Prelude.{
  ℕ, ◌≡◌, ◌≢◌, ◌⊎◌, inl, inr, refl, sym, ap, subst, ◌∙◌, Bool, true, false, List, [], ◌∷◌, Memᴰ,
  Memᴰ-any, ◌==◌, nat_eq, ==→≡, ==_self, ≡→==, Bool-cases, if◌then◌else◌, Result, ok, >>=-eq-ok,
  >>-require, ok-injective,
}
use hetida_designer.Operator.{
  Operator, TrafoType, component, workflow, trafo_type_eq, TrafoType-discrete, State, draft,
  released, disabled, state_eq,
}
use hetida_designer.Revision.{
  Content, code, workflow_content, WorkflowContent, TransformationRevision,
  filter_unnamed_operator_inputs_and_outputs, disabled_timestamp_requires_released_timestamp,
  with_operators,
}
use hetida_designer.Revision.Lifecycle.{Library, with_content, model_validate}
use hetida_designer.Revision.Rules.{
  ComponentCode, the_workflow, update_operator, update_operators, is_modifiable,
  if_applicable_release_or_deprecate, update_content, prepare_update,
}
use hetida_designer.Revision.Rules.Steps.{Same, is_modifiable-cases}
use hetida_designer.Revision.Rules.Validated.{
  kept_content, validate_content-eq, filled, model_validate-eq,
}
use hetida_designer.Revision.Rules.Rewrite.{
  Locked, Keeps, IsRewritten, rewrites, update_component_content-Locked,
}
use hetida_designer.Revision.Rules.Apply.{Deprecated, if_applicable-cases}

module _ (library : Library) where
  Locked-Same :
      (existing given : TransformationRevision) → Same library existing given → Keeps existing given
  Locked-Same existing given (io, e) = (
    record {
      id = ap (λ r. r.id) e;
      revision_group_id = ap (λ r. r.revision_group_id) e;
      name = ap (λ r. r.name) e;
      description = ap (λ r. r.description) e;
      category = ap (λ r. r.category) e;
      version_tag = ap (λ r. r.version_tag) e;
      released_timestamp = ap (λ r. r.released_timestamp) e;
      type = ap (λ r. r.type) e;
      release_wiring = ap (λ r. r.release_wiring) e;
    },
    ap (λ r. r.content) e,
  )

  Locked-Deprecated :
      (now : ℕ) (x existing it : TransformationRevision)
      → model_validate library x ≡ ok existing
      → Deprecated library now existing it
      → Keeps existing it
  Locked-Deprecated now x existing it valid
        (copy, changed, content, io, again, (io', step), checked, last) =
      let (i, c) = model_validate-eq library existing again in
      let (j, v) = model_validate-eq library x valid in
      let all = last ∙ ap (λ r. with_content r content io) step in
      (
        record {
          id = ap (λ r. r.id) all ∙ ap (λ r. r.id) c;
          revision_group_id = ap (λ r. r.revision_group_id) all ∙ ap (λ r. r.revision_group_id) c;
          name = ap (λ r. r.name) all ∙ ap (λ r. r.name) c;
          description = ap (λ r. r.description) all ∙ ap (λ r. r.description) c;
          category = ap (λ r. r.category) all ∙ ap (λ r. r.category) c;
          version_tag = ap (λ r. r.version_tag) all ∙ ap (λ r. r.version_tag) c;
          released_timestamp =
              ap (λ r. r.released_timestamp) all
              ∙ ap (λ r. r.released_timestamp) c
              ∙ subst
                  (λ r.
                    disabled_timestamp_requires_released_timestamp r.disabled_timestamp
                      r.released_timestamp
                    ≡ r.released_timestamp)
                  (sym v) (filled x.disabled_timestamp x.released_timestamp);
          type = ap (λ r. r.type) all ∙ ap (λ r. r.type) c;
          release_wiring = ap (λ r. r.release_wiring) all ∙ ap (λ r. r.release_wiring) c;
        },
        ap (λ r. r.content) all
            ∙ validate_content-eq _ _ existing.content checked
            ∙ subst (λ r. filter_unnamed_operator_inputs_and_outputs r.content ≡ r.content) (sym v)
                (kept_content x.content),
      )

the_workflow-eq :
    (content : Content) {c : WorkflowContent}
    → the_workflow content ≡ ok c
    → content ≡ workflow_content c
unfolding the_workflow
the_workflow-eq (code text) h = cc
the_workflow-eq (workflow_content c) h = ap workflow_content (ok-injective h)

workflow_component : (workflow == component) ≡ false
unfolding TrafoType-discrete
workflow_component = refl

not_component : (type : TrafoType) → type ≡ workflow → (type == component) ≡ false
not_component type typed = rw typed workflow_component

pub State-cases : (s : State) → (s ≡ draft) ⊎ ((s ≡ released) ⊎ (s ≡ disabled))
State-cases draft = inl refl
State-cases released = inr (inl refl)
State-cases disabled = inr (inr refl)

module _ (reads : ℕ → Result TransformationRevision) where
  -- An operator that the stored workflow has is left as it is.
  update_operator-known :
      (existing : List Operator) (op : Operator)
      → Memᴰ op existing
      → update_operator reads existing op ≡ ok op
  unfolding update_operator
  update_operator-known existing op m = elim (Bool-cases (op.type == workflow)) [
    | inl w ↦ rw (w, Memᴰ-any (λ o. o.id == op.id) m (==_self op.id)) refl
    | inr c ↦ rw c refl
  ]

  update_operators-known :
      (existing ops : List Operator)
      → ((op : Operator) → Memᴰ op ops → Memᴰ op existing)
      → update_operators reads existing ops ≡ ok ops
  unfolding update_operators
  update_operators-known existing [] all = refl
  update_operators-known existing (op ∷ ops) all =
      rw
        (
          update_operator-known existing op (all op (Memᴰ.head refl)),
          update_operators-known existing ops (λ o m. all o (Memᴰ.tail m)),
        )
        refl

  module _ (library : Library) (component_code : ComponentCode) where
    -- A workflow with the stored content is left as it is.
    update_content-same :
        (it existing : TransformationRevision) (expand : Bool) {r : TransformationRevision}
        → it.type ≡ workflow
        → it.content ≡ existing.content
        → update_content library component_code reads it existing expand ≡ ok r
        → r ≡ it
    unfolding update_content with_operators
    update_content-same it existing expand typed same run =
        let (old, e1, r1) =
          >>=-eq-ok (the_workflow existing.content) _ (rw (not_component it.type typed) at run) in
        let (c, e2, r2) = >>=-eq-ok (the_workflow it.content) _ r1 in
        let (ops, e3, r3) = >>=-eq-ok (update_operators reads old.operators c.operators) _ r2 in
        let one =
          content_injective (
            sym (the_workflow-eq existing.content e1) ∙ sym same ∙ the_workflow-eq it.content e2) in
        let kept = update_operators-known old.operators c.operators (λ o m. rw one m) in
        sym (ok-injective r3)
        ∙ ap (λ ops. with_content it (workflow_content (with_operators c ops)) it.io_interface)
            (ok-injective (sym e3 ∙ kept))
        ∙ ap (λ x. with_content it x it.io_interface) (sym (the_workflow-eq it.content e2))
      where
        content_injective :
            {a b : WorkflowContent} → workflow_content a ≡ workflow_content b → a ≡ b
        content_injective e = cc

    -- Unless overwriting is allowed, what is written over a stored revision that is released or
    -- deprecated, and validated as it is read, keeps its id, group, name, description, category, version tag, released timestamp,
    -- type and release wiring. It keeps its content, too, unless it is a component whose code is to be
    -- updated: then the content is what `update_code`, followed by `expand_code` where asked for, makes
    -- of the stored content.
    pub prepare_update-Locked :
        (now : ℕ) (update_code expand : Bool) (x existing given : TransformationRevision)
        {r : TransformationRevision}
        → model_validate library x ≡ ok existing
        → existing.state ≢ draft
        → prepare_update library component_code now reads false update_code expand existing given
          ≡ ok r
        → Locked existing r
          × ((r.content ≡ existing.content)
              ⊎ ((existing.type ≢ workflow)
                  × (update_code ≡ true)
                  × IsRewritten component_code expand existing r.content))
    unfolding prepare_update
    prepare_update-Locked now update_code expand x existing given {r} valid not_draft run =
        let (modifiable, e1, r1) = >>=-eq-ok (is_modifiable library existing given false) _ run in
        let (yes_, r2) = >>-require modifiable _ _ r1 in
        let (it, e2, r3) =
          >>=-eq-ok (if_applicable_release_or_deprecate library now existing given) _ r2 in
        final it (it_locked it (rw yes_ at e1) e2) r3
      where
        it_locked :
            (it : TransformationRevision)
            → is_modifiable library existing given false ≡ ok true
            → if_applicable_release_or_deprecate library now existing given ≡ ok it
            → Keeps existing it
        it_locked it modifiable applied =
            let (typed, kind) = is_modifiable-cases library existing given modifiable in
            elim (if_applicable-cases library now existing given applied) [
              | inl (was, is, becomes) ↦ absurd (not_draft was)
              | inr later ↦ elim later [
                | inl (was, now_disabled, step) ↦
                    Locked-Deprecated library now x existing it valid step
                | inr (apart, same) ↦ elim kind [
                  | inl equal ↦ rw same (Locked-Same library existing given equal)
                  | inr (not_disabled, deprecates) ↦ elim (State-cases existing.state) [
                    | inl is_draft ↦ absurd (not_draft is_draft)
                    | inr others ↦ elim others [
                      | inl is_released ↦ absurd (apart is_released (deprecates is_released))
                      | inr is_disabled ↦ absurd (not_disabled is_disabled)
                    ]
                  ]
                ]
              ]
            ]

        final :
            (it : TransformationRevision)
            → Keeps existing it
            → (if it.type == workflow
                then update_content library component_code reads it existing expand
                else if update_code
                then update_content library component_code reads it existing expand
                else ok it)
              ≡ ok r
            → Locked existing r
              × ((r.content ≡ existing.content)
                  ⊎ ((existing.type ≢ workflow)
                      × (update_code ≡ true)
                      × IsRewritten component_code expand existing r.content))
        final it (locked, same) end = elim (Bool-cases (it.type == workflow)) [
          | inl typed ↦
              let e =
                update_content-same it existing expand (==→≡ it.type workflow typed) same
                  (rw typed at end) in
              (rw e locked, inl (rw e same))
          | inr other ↦ elim (Bool-cases update_code) [
            | inl on ↦
                let (last, new) =
                  update_component_content-Locked library reads component_code existing it expand
                    (locked, same)
                    (rewrites library reads component_code it existing expand other
                      (rw (other, on) at end)) in
                (last, inr (λ w. cc (other, ≡→== it.type workflow (locked.type ∙ w)), on, new))
            | inr off ↦
                let e = ok-injective (rw (other, off) at end) in
                (rw (← e) locked, inl (rw (← e) same))
          ]
        ]
