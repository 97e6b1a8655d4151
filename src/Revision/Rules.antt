-- ===== src/Revision/Rules.antt =====
-- runtime/hetdesrun/persistence/dbservice/revision.py: the functions that decide what an update of a
-- stored revision may change, and what it makes of the given revision. `update_code` and
-- `expand_code` of runtime/hetdesrun/component/code.py are parameters.
pub mod Steps
pub mod Validated
pub mod Apply
pub mod Rewrite
pub mod Locked
pub mod States
use hetida_designer.Prelude.{
  ℕ, Bool, true, false, not, ◌&&◌, List, [], ◌∷◌, map, any, Text, ◌==◌, nat_eq, if◌then◌else◌,
  Result, ok, err, ◌>>=◌, ◌>>◌, require, not_a_workflow, modify_forbidden,
}
use hetida_designer.Operator.{
  Operator, TrafoType, component, workflow, trafo_type_eq, State, draft, released, disabled,
  state_eq,
}
use hetida_designer.Revision.{
  Content, code, workflow_content, WorkflowContent, WorkflowWiring, TransformationRevision,
  revision_eq, with_operators,
}
use hetida_designer.Revision.Lifecycle.{
  Library, with_wirings, with_content, model_validate, assign_content, refit, release, deprecate,
}

pub record ComponentCode : Type 0 where
  pub update_code : TransformationRevision → Result Text
  pub expand_code : TransformationRevision → Result Text

-- the revision with another test wiring and documentation
abbrev pub with_docu : TransformationRevision → WorkflowWiring → Text → TransformationRevision
with_docu r test_wiring documentation = record {
  id = r.id;
  revision_group_id = r.revision_group_id;
  name = r.name;
  description = r.description;
  category = r.category;
  version_tag = r.version_tag;
  disabled_timestamp = r.disabled_timestamp;
  released_timestamp = r.released_timestamp;
  state = r.state;
  type = r.type;
  io_interface = r.io_interface;
  documentation = documentation;
  content = r.content;
  test_wiring = test_wiring;
  release_wiring = r.release_wiring;
}

abbrev pub with_operator_state : State → Operator → Operator
with_operator_state state operator = record {
  id = operator.id;
  revision_group_id = operator.revision_group_id;
  name = operator.name;
  type = operator.type;
  state = state;
  version_tag = operator.version_tag;
  transformation_id = operator.transformation_id;
  inputs = operator.inputs;
  outputs = operator.outputs;
  position = operator.position;
}

-- `assert isinstance(content, WorkflowContent)`
unfoldable pub the_workflow : Content → Result WorkflowContent
the_workflow (code text) = err not_a_workflow
the_workflow (workflow_content c) = ok c

-- `contains_deprecated`, on the revision that it reads
unfoldable pub contains_deprecated : TransformationRevision → Result Bool
unfolding the_workflow
contains_deprecated r = do
  c ← if r.type == workflow then the_workflow r.content else err not_a_workflow
  ok (any (λ operator. operator.state == disabled) c.operators)

-- A workflow among the operators that is new is disabled if it contains deprecated operators;
-- `reads` is the state of the database.
unfoldable pub update_operator :
    (ℕ → Result TransformationRevision) → List Operator → Operator → Result Operator
unfolding contains_deprecated
update_operator reads existing operator =
    if operator.type == workflow && not (any (λ o. o.id == operator.id) existing)
    then (do
      nested ← reads operator.transformation_id
      deprecated ← contains_deprecated nested
      ok (with_operator_state (if deprecated then disabled else operator.state) operator))
    else ok operator

unfoldable pub update_operators :
    (ℕ → Result TransformationRevision) → List Operator → List Operator → Result (List Operator)
unfolding update_operator
update_operators reads existing [] = ok []
update_operators reads existing (operator ∷ operators) = do
  first ← update_operator reads existing operator
  rest ← update_operators reads existing operators
  ok (first ∷ rest)

module _ (library : Library) where
  unfoldable pub tr_same_except_for_wiring_and_docu :
      TransformationRevision → TransformationRevision → Result Bool
  unfolding refit
  tr_same_except_for_wiring_and_docu a b = do
    wired ← refit library (with_docu a b.test_wiring a.documentation)
    compare ← refit library (with_docu wired wired.test_wiring b.documentation)
    ok (compare == b)

  -- Without the messages.
  unfoldable pub is_modifiable :
      TransformationRevision → TransformationRevision → Bool → Result Bool
  unfolding tr_same_except_for_wiring_and_docu
  is_modifiable existing updated allow_overwrite_released =
      if not (existing.type == updated.type) then ok false else (do
        same ← tr_same_except_for_wiring_and_docu existing updated
        ok (
            if same
            then true
            else if existing.state == disabled && not allow_overwrite_released
            then false
            else not (
                existing.state == released
                && (not (updated.state == disabled) && not allow_overwrite_released))))

  unfoldable pub if_applicable_release_or_deprecate :
      ℕ → TransformationRevision → TransformationRevision → Result TransformationRevision
  unfolding release deprecate model_validate assign_content
  if_applicable_release_or_deprecate now existing updated =
      if existing.state == draft && updated.state == released
      then (do it ← release library now updated; assign_content library existing.content it)
      else if existing.state == released && updated.state == disabled
      then (do
        copy ← model_validate library existing
        it ← deprecate library now copy
        assign_content library existing.content it)
      else ok updated

  module _ (component_code : ComponentCode) where
    unfoldable pub update_component_content :
        TransformationRevision → Bool → Result TransformationRevision
    unfolding assign_content
    update_component_content updated do_expand_code = do
      new ← component_code.update_code updated
      it ← assign_content library (code new) updated
      if do_expand_code
          then (do
            expanded ← component_code.expand_code it
            assign_content library (code expanded) it)
          else ok it

    -- `update_content` with an existing revision
    unfoldable pub update_content :
        (ℕ → Result TransformationRevision)
        → TransformationRevision
        → TransformationRevision
        → Bool
        → Result TransformationRevision
    unfolding update_component_content update_operators the_workflow with_operators
    update_content reads updated existing do_expand_code =
        if updated.type == component then update_component_content updated do_expand_code else (do
          old ← the_workflow existing.content
          c ← the_workflow updated.content
          operators ← update_operators reads old.operators c.operators
          ok (
              with_content updated (workflow_content (with_operators c operators))
                updated.io_interface))

    -- What `update_or_create_single_transformation_revision` writes over an existing revision.
    unfoldable pub prepare_update :
        ℕ
        → (ℕ → Result TransformationRevision)
        → Bool
        → Bool
        → Bool
        → TransformationRevision
        → TransformationRevision
        → Result TransformationRevision
    unfolding is_modifiable if_applicable_release_or_deprecate update_content
    prepare_update now reads allow_overwrite_released update_component_code expand_component_code
          existing given =
        do
          modifiable ← is_modifiable existing given allow_overwrite_released
          require modifiable modify_forbidden
          it ← if_applicable_release_or_deprecate now existing given
          if it.type == workflow
              then update_content reads it existing expand_component_code
              else if update_component_code
              then update_content reads it existing expand_component_code
              else ok it
