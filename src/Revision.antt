-- ===== src/Revision.antt =====
-- runtime/hetdesrun/persistence/models/transformation.py: transformation revisions, the validators of
-- their fields, and their changes of state. A time is the number of microseconds since an epoch, in
-- UTC, and what `datetime.now` returns is an argument. The calls of `str.lower` and of Python's names
-- are parameters.
pub mod Fit
pub mod Lifecycle
pub mod Strip
pub mod Stored
pub mod Rules
pub mod Service
use hetida_designer.Prelude.{
  ℕ, Bool, true, false, not, ◌&&◌, ◌||◌, Option, none, some, List, [], ◌∷◌, ◌++◌, any, map,
  filter_by, is_some, Text, codes, Eq, ◌==◌, text_eq, if◌then◌else◌, ℕ_discrete, Text-discrete,
  Result, ok, err, ◌>>=◌, ◌>>◌, require, version_tag_latest, released_timestamp_of_draft,
  missing_released_timestamp, disabled_timestamp_of_released, missing_disabled_timestamp,
  empty_io_name, draft_operator, not_a_component, not_a_workflow,
}
use hetida_designer.Io.{
  Connector, OperatorInput, OperatorOutput, TransformationInput, TransformationOutput,
  WorkflowContentDynamicInput, WorkflowContentOutput, WorkflowContentConstantInput, is_nameless,
}
use hetida_designer.Link.{Link}
use hetida_designer.Operator.{
  Operator, TrafoType, component, workflow, State, draft, released, disabled, state_eq,
}

-- `WorkflowContent`, as far as the revision reads it
pub record WorkflowContent : Type 0 where
  pub operators : List Operator
  pub links : List Link
  pub inputs : List WorkflowContentDynamicInput
  pub outputs : List WorkflowContentOutput
  pub constants : List WorkflowContentConstantInput

-- `str | WorkflowContent`
pub data Content : Type 0 where
  code : Text → Content
  workflow_content : WorkflowContent → Content

-- The id of an adapter, `int | str`.
pub data AdapterId : Type 0 where
  id_int : ℕ → AdapterId
  id_str : Text → AdapterId

unfoldable pub AdapterId-discrete : Discrete AdapterId
AdapterId-discrete = hlevel (ℕ_discrete, Text-discrete)

instance abbrev pub adapter_id_eq : Eq AdapterId
adapter_id_eq = record { discrete = AdapterId-discrete }

-- An input or output wiring; the fields that no code here reads are the text of their JSON form.
pub record Wiring : Type 0 where
  pub name : Text
  pub adapter_id : AdapterId
  pub rest : Text

pub record WorkflowWiring : Type 0 where
  pub input_wirings : List Wiring
  pub output_wirings : List Wiring
  pub dashboard_positionings : Text

pub record IoInterface : Type 0 where
  pub inputs : List TransformationInput
  pub outputs : List TransformationOutput

pub record TransformationRevision : Type 0 where
  pub id : ℕ
  pub revision_group_id : ℕ
  pub name : Text
  pub description : Text
  pub category : Text
  pub version_tag : Text
  pub disabled_timestamp : Option ℕ
  pub released_timestamp : Option ℕ
  pub state : State
  pub type : TrafoType
  pub io_interface : IoInterface
  pub documentation : Text
  pub content : Content
  pub test_wiring : WorkflowWiring
  pub release_wiring : Option WorkflowWiring

unfoldable pub TransformationRevision-discrete : Discrete TransformationRevision
TransformationRevision-discrete = hlevel (ℕ_discrete, Text-discrete)

-- `==` on revisions: all fields are equal
instance abbrev pub revision_eq : Eq TransformationRevision
revision_eq = record { discrete = TransformationRevision-discrete }

unfoldable pub version_tag_not_latest : (Text → Text) → Text → Result Text
version_tag_not_latest lower v = do
  require (not (lower v == codes "latest")) version_tag_latest
  ok v

-- first the disabled, then the released timestamp
unfoldable pub disabled_timestamp_requires_released_timestamp : Option ℕ → Option ℕ → Option ℕ
disabled_timestamp_requires_released_timestamp disabled_timestamp (some v) = some v
disabled_timestamp_requires_released_timestamp disabled_timestamp none = disabled_timestamp

-- first the disabled, then the released timestamp
unfoldable pub timestamps_set_corresponding_to_state : Option ℕ → Option ℕ → State → Result State
timestamps_set_corresponding_to_state disabled_timestamp released_timestamp v = do
  require (not (v == draft && is_some released_timestamp)) released_timestamp_of_draft
  require (not (v == released && not (is_some released_timestamp))) missing_released_timestamp
  require (not (v == released && is_some disabled_timestamp)) disabled_timestamp_of_released
  require (not (v == disabled && not (is_some disabled_timestamp))) missing_disabled_timestamp
  ok v

unfoldable pub io_interface_no_names_empty : State → IoInterface → Result IoInterface
io_interface_no_names_empty state io_interface = if state == draft then ok io_interface else (do
  require
      (not (
        any is_nameless
          (map (λ i. i.name) io_interface.inputs ++ map (λ o. o.name) io_interface.outputs)))
      empty_io_name
  ok io_interface)

unfoldable pub content_type_correct : TrafoType → Content → Result Content
content_type_correct component (code text) = ok (code text)
content_type_correct component (workflow_content c) = err not_a_component
content_type_correct workflow (code text) = err not_a_workflow
content_type_correct workflow (workflow_content c) = ok (workflow_content c)

-- Only called once the type of the content is right.
unfoldable pub content_operators_only_drafts_allowed_in_draft_workflows :
    State → Content → Result Content
content_operators_only_drafts_allowed_in_draft_workflows state (code text) = ok (code text)
content_operators_only_drafts_allowed_in_draft_workflows state (workflow_content c) = do
  require (not (any (λ operator. operator.state == draft && not (state == draft)) c.operators))
      draft_operator
  ok (workflow_content c)

unfoldable pub filter_operator_ios : Operator → Operator
filter_operator_ios operator = record {
  id = operator.id;
  revision_group_id = operator.revision_group_id;
  name = operator.name;
  type = operator.type;
  state = operator.state;
  version_tag = operator.version_tag;
  transformation_id = operator.transformation_id;
  inputs = filter_by (λ i. not (is_nameless i.name)) operator.inputs;
  outputs = filter_by (λ o. not (is_nameless o.name)) operator.outputs;
  position = operator.position;
}

unfoldable pub with_operators : WorkflowContent → List Operator → WorkflowContent
with_operators c operators = record {
  operators = operators;
  links = c.links;
  inputs = c.inputs;
  outputs = c.outputs;
  constants = c.constants;
}

unfoldable pub filter_unnamed_operator_inputs_and_outputs : Content → Content
unfolding filter_operator_ios with_operators
filter_unnamed_operator_inputs_and_outputs (code text) = code text
filter_unnamed_operator_inputs_and_outputs (workflow_content c) =
    workflow_content (with_operators c (map filter_operator_ios c.operators))

-- the validators of `content`
unfoldable pub validate_content : TrafoType → State → Content → Result Content
unfolding content_type_correct content_operators_only_drafts_allowed_in_draft_workflows
    filter_unnamed_operator_inputs_and_outputs
validate_content type state content = do
  typed ← content_type_correct type content
  allowed ← content_operators_only_drafts_allowed_in_draft_workflows state typed
  ok (filter_unnamed_operator_inputs_and_outputs allowed)
