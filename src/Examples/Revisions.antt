-- ===== src/Examples/Revisions.antt =====
-- A released workflow that is deprecated.
use hetida_designer.Prelude.{
  ◌⊎◌, ℕ, ◌≡◌, ◌≢◌, refl, true, false, none, some, [], ◌∷◌, nat_eq, ok, err, ℕ_discrete,
  Text-discrete, Result, not_a_component,
}
use hetida_designer.Operator.{
  workflow, draft, released, disabled, State-discrete, TrafoType-discrete,
}
use hetida_designer.Revision.{
  workflow_content, WorkflowContent, TransformationRevision, TransformationRevision-discrete,
}
use hetida_designer.Revision.Lifecycle.{Library, no_wiring, with_state, model_validate}
use hetida_designer.Revision.Rules.{ComponentCode, prepare_update}
use hetida_designer.Revision.Rules.Rewrite.{Locked, IsRewritten}
use hetida_designer.Revision.Rules.Locked.{prepare_update-Locked}
use hetida_designer.Revision.Rules.States.{
  Moves, HasConsistentTimes, prepare_update-Moves, prepare_update-HasConsistentTimes,
}
use hetida_designer.Examples.Data.{operator}

abbrev pub library : Library
library = record {
  python = record { isidentifier = λ name. true; iskeyword = λ name. false };
  lower = λ text. text;
}

abbrev pub component_code : ComponentCode
component_code = record {
  update_code = λ r. err not_a_component;
  expand_code = λ r. err not_a_component;
}

abbrev reads : ℕ → Result TransformationRevision
reads id = err not_a_component

abbrev pub pump_content : WorkflowContent
pump_content = record {
  operators = operator 1 [] [] ∷ [];
  links = [];
  inputs = [];
  outputs = [];
  constants = [];
}

abbrev pub pump : TransformationRevision
pump = record {
  id = 5;
  revision_group_id = 6;
  name = 112 ∷ [];
  description = [];
  category = 99 ∷ [];
  version_tag = 49 ∷ [];
  disabled_timestamp = none;
  released_timestamp = some 3;
  state = released;
  type = workflow;
  io_interface = record { inputs = []; outputs = [] };
  documentation = [];
  content = workflow_content pump_content;
  test_wiring = no_wiring;
  release_wiring = none;
}

-- what a user sends to deprecate it, with another name
abbrev request : TransformationRevision
request = with_state (record pump { name = 113 ∷ [] }) (some 4) (some 3) disabled none

abbrev deprecated : TransformationRevision
deprecated = with_state pump (some 8) (some 3) disabled none

stored : model_validate library pump ≡ ok pump
unfolding model_validate Text-discrete ℕ_discrete State-discrete
stored = refl

valid_request : model_validate library request ≡ ok request
unfolding model_validate Text-discrete ℕ_discrete State-discrete
valid_request = refl

prepares :
    prepare_update library component_code 8 reads false true false pump request ≡ ok deprecated
unfolding prepare_update TrafoType-discrete TransformationRevision-discrete ℕ_discrete Text-discrete
    State-discrete
prepares = refl

not_draft : released ≢ draft
not_draft same = cc

prepare_update-Locked_example :
    Locked pump deprecated
    × ((deprecated.content ≡ pump.content)
        ⊎ ((pump.type ≢ workflow)
            × (true ≡ true)
            × IsRewritten component_code false pump deprecated.content))
prepare_update-Locked_example =
    prepare_update-Locked reads library component_code 8 true false pump pump request stored
      not_draft prepares

prepare_update-Moves_example : Moves released disabled
prepare_update-Moves_example =
    prepare_update-Moves library component_code reads 8 true false pump request prepares

prepare_update-HasConsistentTimes_example : HasConsistentTimes deprecated
prepare_update-HasConsistentTimes_example =
    prepare_update-HasConsistentTimes library component_code reads 8 false true false pump request
      pump request stored valid_request prepares
