-- ===== src/Revision/Rules/Rewrite.antt =====
-- On updates that write the code of a component anew: what the revision keeps, and what its content is.
use hetida_designer.Prelude.{
  ℕ, ◌≡◌, ◌⊎◌, inl, inr, refl, ap, ◌∙◌, Bool, true, false, Text, ◌==◌, nat_eq, if◌then◌else◌,
  Result, ok, ◌>>=◌, >>=-eq-ok, ok-injective,
}
use hetida_designer.Operator.{
  TrafoType, component, workflow, trafo_type_eq, TrafoType-discrete, state_eq,
}
use hetida_designer.Revision.{
  Content, code, IoInterface, TransformationRevision, filter_unnamed_operator_inputs_and_outputs,
}
use hetida_designer.Revision.Lifecycle.{Library, with_content, assign_content}
use hetida_designer.Revision.Rules.{ComponentCode, update_component_content, update_content}
use hetida_designer.Revision.Rules.Steps.{assign_content-eq}
use hetida_designer.Revision.Rules.Validated.{validate_content-eq}

-- All that a released revision keeps besides its content: only wiring, documentation, the io interface's
-- adjustment, and the fields of a deprecation may differ.
pub record Locked (existing r : TransformationRevision) : Type 0 where
  pub id : r.id ≡ existing.id
  pub revision_group_id : r.revision_group_id ≡ existing.revision_group_id
  pub name : r.name ≡ existing.name
  pub description : r.description ≡ existing.description
  pub category : r.category ≡ existing.category
  pub version_tag : r.version_tag ≡ existing.version_tag
  pub released_timestamp : r.released_timestamp ≡ existing.released_timestamp
  pub type : r.type ≡ existing.type
  pub release_wiring : r.release_wiring ≡ existing.release_wiring

abbrev pub Keeps : TransformationRevision → TransformationRevision → Type 0
Keeps existing r = Locked existing r × (r.content ≡ existing.content)

-- The content is what `update_code`, and `expand_code` where that is asked for, make of a revision that
-- has the stored content.
abbrev pub IsRewritten : ComponentCode → Bool → TransformationRevision → Content → Type 0
IsRewritten component_code expand existing content =
    (x : TransformationRevision) × (updated : Text) × (x.content ≡ existing.content)
    × (component_code.update_code x ≡ ok updated)
    × (((expand ≡ false) × (content ≡ code updated))
        ⊎ ((expand ≡ true)
            × (y : TransformationRevision) × (expanded : Text) × (y.content ≡ code updated)
            × (component_code.expand_code y ≡ ok expanded)
            × (content ≡ code expanded)))

module _ (library : Library) (reads : ℕ → Result TransformationRevision)
    (component_code : ComponentCode) where
  type_component : (type : TrafoType) → (type == workflow) ≡ false → (type == component) ≡ true
  unfolding TrafoType-discrete
  type_component component h = refl
  type_component workflow h = cc

  -- For a component the code is updated.
  pub rewrites :
      (it existing : TransformationRevision) (expand : Bool) {r : TransformationRevision}
      → (it.type == workflow) ≡ false
      → update_content library component_code reads it existing expand ≡ ok r
      → update_component_content library component_code it expand ≡ ok r
  unfolding update_content
  rewrites it existing expand other run = rw (type_component it.type other) at run

  -- What remains of a revision whose content alone was written anew.
  Locked-with_content :
      (existing it r : TransformationRevision) (content : Content) (io : IoInterface)
      → r ≡ with_content it content io
      → Locked existing it
      → Locked existing r
  Locked-with_content existing it r content io e l = record {
    id = ap (λ r. r.id) e ∙ l.id;
    revision_group_id = ap (λ r. r.revision_group_id) e ∙ l.revision_group_id;
    name = ap (λ r. r.name) e ∙ l.name;
    description = ap (λ r. r.description) e ∙ l.description;
    category = ap (λ r. r.category) e ∙ l.category;
    version_tag = ap (λ r. r.version_tag) e ∙ l.version_tag;
    released_timestamp = ap (λ r. r.released_timestamp) e ∙ l.released_timestamp;
    type = ap (λ r. r.type) e ∙ l.type;
    release_wiring = ap (λ r. r.release_wiring) e ∙ l.release_wiring;
  }

  assigned_code :
      (existing it : TransformationRevision) (text : Text) {r : TransformationRevision}
      → assign_content library (code text) it ≡ ok r
      → Locked existing it
      → Locked existing r × (r.content ≡ code text)
  unfolding filter_unnamed_operator_inputs_and_outputs
  assigned_code existing it text {r} run l =
      let (valid, io, checked, e) = assign_content-eq library (code text) it run in
      (
        Locked-with_content existing it r valid io e l,
        ap (λ r. r.content) e ∙ validate_content-eq it.type it.state (code text) checked,
      )

  pub update_component_content-Locked :
      (existing it : TransformationRevision) (expand : Bool) {r : TransformationRevision}
      → Keeps existing it
      → update_component_content library component_code it expand ≡ ok r
      → Locked existing r × IsRewritten component_code expand existing r.content
  unfolding update_component_content
  update_component_content-Locked existing it expand {r} (l, same) run =
      let (new, e1, r1) = >>=-eq-ok (component_code.update_code it) _ run in
      let (mid, e2, r2) = >>=-eq-ok (assign_content library (code new) it) _ r1 in
      let (locked, is_new) = assigned_code existing it new e2 l in
      go new e1 mid locked is_new expand r2
    where
      go :
          (new : Text)
          → component_code.update_code it ≡ ok new
          → (mid : TransformationRevision) → Locked existing mid
          → mid.content ≡ code new
          → (expand : Bool)
          → (if expand
              then (component_code.expand_code mid >>= λ expanded.
                  assign_content library (code expanded) mid)
              else ok mid)
            ≡ ok r
          → Locked existing r × IsRewritten component_code expand existing r.content
      go new e1 mid locked is_new false h =
          let e = ok-injective h in
          (rw (← e) locked, (it, new, same, e1, inl (refl, rw (← e) is_new)))
      go new e1 mid locked is_new true h =
          let (expanded, e3, e4) = >>=-eq-ok (component_code.expand_code mid) _ h in
          let (last, is_last) = assigned_code existing mid expanded e4 locked in
          (last, (it, new, same, e1, inr (refl, mid, expanded, is_new, e3, is_last)))
