-- ===== src/Revision/Rules/Validated.antt =====
-- What the validators make of a revision, and that they make nothing else of the result.
use hetida_designer.Prelude.{
  ℕ, ◌≡◌, inl, inr, refl, sym, ap, ◌∙◌, Bool, not, ◌&&◌, Option, none, some, List, [], ◌∷◌, map,
  any, filter_by, ◌==◌, nat_eq, Bool-cases, ok, >>=-eq-ok, >>-require, ok-injective,
}
use hetida_designer.Io.{is_nameless}
use hetida_designer.Operator.{
  Operator, TrafoType, component, workflow, trafo_type_eq, State, draft, state_eq,
}
use hetida_designer.Revision.{
  Content, code, workflow_content, IoInterface, TransformationRevision, filter_operator_ios,
  filter_unnamed_operator_inputs_and_outputs, validate_content,
  timestamps_set_corresponding_to_state, disabled_timestamp_requires_released_timestamp,
  with_operators, version_tag_not_latest, io_interface_no_names_empty, content_type_correct,
  content_operators_only_drafts_allowed_in_draft_workflows,
}
use hetida_designer.Revision.Fit.{io_interface_fits_to_content}
use hetida_designer.Revision.Lifecycle.{Library, with_state, with_content, model_validate}
use hetida_designer.Revision.Rules.Steps.{timestamps-eq}

kept_named :
    {A : Type 0} (p : A → Bool) (xs : List A) → filter_by p (filter_by p xs) ≡ filter_by p xs
kept_named p [] = refl
kept_named p (x ∷ xs) = elim (Bool-cases (p x)) [
  | inl e ↦ rw (e, e, kept_named p xs) refl
  | inr e ↦ rw (e, kept_named p xs) refl
]

kept_operators :
    (ops : List Operator)
    → map filter_operator_ios (map filter_operator_ios ops) ≡ map filter_operator_ios ops
unfolding filter_operator_ios
kept_operators [] = refl
kept_operators (op ∷ ops) =
    rw
      (
        kept_named (λ i. not (is_nameless i.name)) op.inputs,
        kept_named (λ o. not (is_nameless o.name)) op.outputs,
        kept_operators ops,
      )
      refl

pub kept_content :
    (content : Content)
    → filter_unnamed_operator_inputs_and_outputs
        (filter_unnamed_operator_inputs_and_outputs content)
      ≡ filter_unnamed_operator_inputs_and_outputs content
unfolding filter_unnamed_operator_inputs_and_outputs with_operators
kept_content (code text) = refl
kept_content (workflow_content c) = rw (kept_operators c.operators) refl

pub validate_content-eq :
    (type : TrafoType) (state : State) (content : Content) {valid : Content}
    → validate_content type state content ≡ ok valid
    → valid ≡ filter_unnamed_operator_inputs_and_outputs content
unfolding validate_content content_operators_only_drafts_allowed_in_draft_workflows
    content_type_correct
validate_content-eq type state content run =
    let (typed, first, r1) = >>=-eq-ok (content_type_correct type content) _ run in
    let (allowed, second, r2) =
      >>=-eq-ok (content_operators_only_drafts_allowed_in_draft_workflows state typed) _ r1 in
    sym (ok-injective r2)
    ∙ ap filter_unnamed_operator_inputs_and_outputs (only typed second ∙ right type content first)
  where
    only :
        (typed : Content) {allowed : Content}
        → content_operators_only_drafts_allowed_in_draft_workflows state typed ≡ ok allowed
        → allowed ≡ typed
    only (code text) h = sym (ok-injective h)
    only (workflow_content c) h =
        let (fine, same) =
          >>-require
            (not (any (λ operator. operator.state == draft && not (state == draft)) c.operators)) _
            _ h in
        sym (ok-injective same)

    right :
        (type : TrafoType) (content : Content) {typed : Content}
        → content_type_correct type content ≡ ok typed
        → typed ≡ content
    right component (code text) h = sym (ok-injective h)
    right component (workflow_content c) h = cc
    right workflow (code text) h = cc
    right workflow (workflow_content c) h = sym (ok-injective h)

pub filled :
    (d r : Option ℕ)
    → disabled_timestamp_requires_released_timestamp d
        (disabled_timestamp_requires_released_timestamp d r)
      ≡ disabled_timestamp_requires_released_timestamp d r
unfolding disabled_timestamp_requires_released_timestamp
filled none none = refl
filled (some d) none = refl
filled d (some r) = refl

-- What the validators make of a revision.
module _ (library : Library) where
  pub model_validate-eq :
      (r : TransformationRevision) {it : TransformationRevision}
      → model_validate library r ≡ ok it
      → (io : IoInterface) × (it
          ≡ with_content
              (with_state r r.disabled_timestamp
                (disabled_timestamp_requires_released_timestamp r.disabled_timestamp
                  r.released_timestamp)
                r.state
                r.release_wiring)
              (filter_unnamed_operator_inputs_and_outputs r.content)
              io)
  unfolding model_validate
  model_validate-eq r run =
      let filled_in =
        disabled_timestamp_requires_released_timestamp r.disabled_timestamp r.released_timestamp in
      let (tag, e1, r1) = >>=-eq-ok (version_tag_not_latest library.lower r.version_tag) _ run in
      let (state, e2, r2) =
        >>=-eq-ok (timestamps_set_corresponding_to_state r.disabled_timestamp filled_in r.state) _
          r1 in
      let (io, e3, r3) = >>=-eq-ok (io_interface_no_names_empty state r.io_interface) _ r2 in
      let (content, e4, r4) = >>=-eq-ok (validate_content r.type state r.content) _ r3 in
      let (fitted, e5, r5) =
        >>=-eq-ok (io_interface_fits_to_content library.python content io) _ r4 in
      (
        fitted,
        sym (ok-injective r5)
            ∙ ap
                (λ s.
                  with_content (with_state r r.disabled_timestamp filled_in s r.release_wiring)
                    content fitted)
                (sym (timestamps-eq library _ _ _ e2))
            ∙ ap
                (λ c.
                  with_content
                    (with_state r r.disabled_timestamp filled_in r.state r.release_wiring) c fitted)
                (validate_content-eq _ _ _ e4),
      )
