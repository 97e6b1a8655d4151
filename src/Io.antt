-- ===== src/Io.antt =====
-- runtime/hetdesrun/persistence/models/io.py: inputs and outputs of transformation revisions,
-- operators and workflow contents. A UUID is a number, a coordinate an integer of half units, and a
-- value of any type the text of its JSON form. A subclass holds its base class's record.
pub mod Names
pub mod Convert
use hetida_designer.Prelude.{
  ℕ, ◌≡◌, ◌≢◌, Bool, true, false, not, ◌&&◌, ◌||◌, Option, none, some, List, [], ◌∷◌, Text, Eq,
  ◌==◌, nat_eq, name_eq, ℕ_discrete, Text-discrete, if◌then◌else◌, any, filter_by, length, Result,
  ok, err, ◌>>=◌, ◌>>◌, require, invalid_identifier, nameless_entity, duplicate_names,
  value_of_required_input, named_constant,
}

pub data ℤ : Type 0 where
  pos : ℕ → ℤ
  negsuc : ℕ → ℤ

-- `DataType` of runtime/hdutils.py
pub data DataType : Type 0 where
  integer float string dataframe series multitsframe boolean any_type plotlyjson : DataType

unfoldable pub DataType-discrete : Discrete DataType
DataType-discrete = hlevel

instance abbrev pub data_type_eq : Eq DataType
data_type_eq = record { discrete = DataType-discrete }

pub data InputType : Type 0 where
  required optional : InputType

-- `str.isidentifier` and `keyword.iskeyword` of Python's library
pub record Python : Type 0 where
  pub isidentifier : Text → Bool
  pub iskeyword : Text → Bool

unfoldable pub valid_python_identifier : Python → Text → Result Text
valid_python_identifier py name =
    if py.isidentifier name && not (py.iskeyword name) then ok name else err invalid_identifier

-- `IO.name_valid_python_identifier`
unfoldable pub name_valid_python_identifier : Python → Option Text → Result (Option Text)
unfolding valid_python_identifier
name_valid_python_identifier py none = ok none
name_valid_python_identifier py (some []) = ok (some [])
name_valid_python_identifier py (some (c ∷ cs)) = do
  name ← valid_python_identifier py (c ∷ cs)
  ok (some name)

-- `name is None or name == ""`
abbrev pub is_nameless : Option Text → Bool
is_nameless none = true
is_nameless (some []) = true
is_nameless (some (c ∷ cs)) = false

-- `len({io.name for io in ios})`: a name is counted where it occurs last
unfoldable pub distinct : List (Option Text) → List (Option Text)
distinct [] = []
distinct (n ∷ ns) = if any (λ m. m == n) ns then distinct ns else n ∷ distinct ns

-- `names_unique` of models/util.py, on the names
unfoldable pub names_unique : List (Option Text) → Result (Unit {0})
unfolding distinct
names_unique names =
    if any (λ n. n == none) names
    then err nameless_entity
    else if length (distinct names) == length names
    then ok tt
    else err duplicate_names

-- `InputTypeMixIn.value_set_only_for_optional_input`
unfoldable pub value_set_only_for_optional_input : InputType → Option Text → Result (Option Text)
value_set_only_for_optional_input required (some value) = err value_of_required_input
value_set_only_for_optional_input _ value = ok value

pub record TransformationOutput : Type 0 where
  pub id : ℕ
  pub name : Option Text
  pub data_type : DataType

pub record TransformationInput : Type 0 where
  pub id : ℕ
  pub name : Option Text
  pub data_type : DataType
  pub type : InputType
  pub value : Option Text

pub record Position : Type 0 where
  pub x : ℤ
  pub y : ℤ

abbrev pub origin : Position
origin = record { x = pos 0; y = pos 0 }

pub record Connector : Type 0 where
  pub id : ℕ
  pub name : Option Text
  pub data_type : DataType
  pub position : Position

unfoldable pub Position-discrete : Discrete Position
Position-discrete = hlevel ℕ_discrete

instance abbrev pub position_eq : Eq Position
position_eq = record { discrete = Position-discrete }

unfoldable pub ℤ-discrete : Discrete ℤ
ℤ-discrete = hlevel ℕ_discrete

instance abbrev pub integer_eq : Eq ℤ
integer_eq = record { discrete = ℤ-discrete }

unfoldable pub matches_connector : Connector → Connector → Bool
matches_connector a b =
    a.id == b.id
    && (a.name == b.name
        && (a.data_type == b.data_type
            && (a.position.x == b.position.x && a.position.y == b.position.y)))

unfoldable pub matches_io : Connector → Connector → Bool
matches_io a b = a.id == b.id && (a.name == b.name && a.data_type == b.data_type)

-- `OperatorOutput` adds no field to `Connector`.
abbrev pub OperatorOutput : Type 0
OperatorOutput = Connector

pub record OperatorInput : Type 0 where
  pub connector : Connector
  pub open connector use *
  pub type : InputType
  pub value : Option Text
  pub exposed : Bool

-- `OperatorInput.required_inputs_exposed`
unfoldable pub required_inputs_exposed : InputType → Bool → Bool
required_inputs_exposed required exposed = true
required_inputs_exposed optional exposed = exposed

pub record WorkflowContentIo : Type 0 where
  pub connector : Connector
  pub open connector use *
  pub operator_id : ℕ
  pub connector_id : ℕ
  pub operator_name : Text
  pub connector_name : Option Text

unfoldable pub matches_operator_io : WorkflowContentIo → Connector → Bool
matches_operator_io io other =
    io.connector_id == other.id
    && (io.data_type == any_type
        || (other.data_type == any_type || io.data_type == other.data_type))

-- `WorkflowContentOutput` adds no field to `WorkflowContentIO`.
abbrev pub WorkflowContentOutput : Type 0
WorkflowContentOutput = WorkflowContentIo

pub record WorkflowContentDynamicInput : Type 0 where
  pub io : WorkflowContentIo
  pub open io use *
  pub type : InputType
  pub value : Option Text

pub record WorkflowContentConstantInput : Type 0 where
  pub io : WorkflowContentIo
  pub open io use *
  pub value : Text

unfoldable pub WorkflowContentIo-discrete : Discrete WorkflowContentIo
WorkflowContentIo-discrete = hlevel (ℕ_discrete, Text-discrete)

-- `==` on workflow outputs, which `list.remove` uses
instance abbrev pub workflow_io_eq : Eq WorkflowContentIo
workflow_io_eq = record { discrete = WorkflowContentIo-discrete }

unfoldable pub DynamicInput-discrete : Discrete WorkflowContentDynamicInput
DynamicInput-discrete = hlevel (ℕ_discrete, Text-discrete)

instance abbrev pub dynamic_input_eq : Eq WorkflowContentDynamicInput
dynamic_input_eq = record { discrete = DynamicInput-discrete }

-- `WorkflowContentConstantInput.name_none`
unfoldable pub name_none : WorkflowContentConstantInput → Result WorkflowContentConstantInput
name_none c = if is_nameless c.name then ok c else err named_constant

-- the names that are neither None nor empty
unfoldable pub nonempty_names : List (Option Text) → List (Option Text)
nonempty_names = filter_by (λ n. not (is_nameless n))

-- `IOInterface.io_names_unique` and `WorkflowContent.workflow_content_io_names_empty_or_unique`
unfoldable pub io_names_unique : List (Option Text) → Result (Unit {0})
unfolding nonempty_names
io_names_unique names = names_unique (nonempty_names names)
