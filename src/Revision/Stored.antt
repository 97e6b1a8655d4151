-- ===== src/Revision/Stored.antt =====
-- runtime/hetdesrun/persistence/dbmodels.py and the conversions of transformation.py: the row of a
-- transformation revision. A part that is stored as JSON is the part itself.
use hetida_designer.Prelude.{ℕ, Option, none, some, Text, Result, ok, err, ◌>>=◌, db_integrity}
use hetida_designer.Operator.{State, TrafoType, component, workflow}
use hetida_designer.Revision.{
  Content, code, workflow_content, WorkflowContent, IoInterface, WorkflowWiring,
  TransformationRevision,
}
use hetida_designer.Revision.Lifecycle.{Library, model_validate}

pub record TransformationRevisionDbModel : Type 0 where
  pub id : ℕ
  pub revision_group_id : ℕ
  pub name : Text
  pub description : Text
  pub category : Text
  pub version_tag : Text
  pub state : State
  pub type : TrafoType
  pub documentation : Text
  pub workflow_content : Option WorkflowContent
  pub component_code : Option Text
  pub io_interface : IoInterface
  pub test_wiring : WorkflowWiring
  pub release_wiring : Option WorkflowWiring
  pub released_timestamp : Option ℕ
  pub disabled_timestamp : Option ℕ

-- The two columns of the content; its type agrees with the revision's, once that is validated.
abbrev pub stored_workflow : TrafoType → Content → Option WorkflowContent
stored_workflow workflow (workflow_content c) = some c
stored_workflow _ _ = none

abbrev pub stored_code : TrafoType → Content → Option Text
stored_code component (code text) = some text
stored_code _ _ = none

unfoldable pub to_orm_model : TransformationRevision → TransformationRevisionDbModel
to_orm_model r = record {
  id = r.id;
  revision_group_id = r.revision_group_id;
  name = r.name;
  description = r.description;
  category = r.category;
  version_tag = r.version_tag;
  state = r.state;
  type = r.type;
  documentation = r.documentation;
  workflow_content = stored_workflow r.type r.content;
  component_code = stored_code r.type r.content;
  io_interface = r.io_interface;
  test_wiring = r.test_wiring;
  release_wiring = r.release_wiring;
  released_timestamp = r.released_timestamp;
  disabled_timestamp = r.disabled_timestamp;
}

-- A column that is null has no content.
abbrev pub loaded_content : TrafoType → Option WorkflowContent → Option Text → Result Content
loaded_content workflow (some c) text = ok (workflow_content c)
loaded_content workflow none text = err db_integrity
loaded_content component c (some text) = ok (code text)
loaded_content component c none = err db_integrity

-- `except ValidationError as error: raise DBIntegrityError(msg) from error`
abbrev pub or_invalid_entry {ℓ} : {A : Type ℓ} → Result A → Result A
or_invalid_entry (ok a) = ok a
or_invalid_entry (err e) = err db_integrity

-- the fields of the row, with the content from its column
abbrev pub row_values : TransformationRevisionDbModel → Content → TransformationRevision
row_values m content = record {
  id = m.id;
  revision_group_id = m.revision_group_id;
  name = m.name;
  description = m.description;
  category = m.category;
  version_tag = m.version_tag;
  disabled_timestamp = m.disabled_timestamp;
  released_timestamp = m.released_timestamp;
  state = m.state;
  type = m.type;
  io_interface = m.io_interface;
  documentation = m.documentation;
  content = content;
  test_wiring = m.test_wiring;
  release_wiring = m.release_wiring;
}

-- A stored workflow content is the one that was written: parsing it runs its own validators again.
unfoldable pub from_orm_model :
    Library → TransformationRevisionDbModel → Result TransformationRevision
unfolding model_validate
from_orm_model library m = or_invalid_entry (do
  content ← loaded_content m.type m.workflow_content m.component_code
  model_validate library (row_values m content))
