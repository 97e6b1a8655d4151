-- ===== src/Link.antt =====
-- runtime/hetdesrun/persistence/models/link.py: links between connectors, and their validators.
pub mod Valid
use hetida_designer.Prelude.{
  ℕ, Bool, true, false, not, ◌&&◌, ◌||◌, Option, none, some, List, Text, Eq, ◌==◌, nat_eq,
  ℕ_discrete, Text-discrete, Result, ok, err, ◌>>=◌, ◌>>◌, require, wrong_start_class,
  wrong_end_class, data_types_differ, same_operator, no_operator,
}
use hetida_designer.Io.{Connector, Position, DataType, data_type_eq, any_type}

-- The class of the object in the field `connector` of a `Vertex`.
pub data ConnectorClass : Type 0 where
  plain_connector operator_input operator_output : ConnectorClass
  workflow_output constant_input dynamic_input : ConnectorClass

pub record Vertex : Type 0 where
  pub operator : Option ℕ
  pub connector : Connector
  pub class : ConnectorClass

pub record Link : Type 0 where
  pub id : ℕ
  pub start : Vertex
  pub end : Vertex
  pub path : List Position

unfoldable pub Link-discrete : Discrete Link
Link-discrete = hlevel (ℕ_discrete, Text-discrete)

-- `Link.__eq__`, which `list.remove` uses: all fields are equal
instance abbrev pub link_eq : Eq Link
link_eq = record { discrete = Link-discrete }

unfoldable pub Operator-discrete : Discrete (Option ℕ)
Operator-discrete = hlevel ℕ_discrete

instance abbrev pub operator_eq : Eq (Option ℕ)
operator_eq = record { discrete = Operator-discrete }

-- the classes whose connectors are only the end of a link
abbrev pub is_end_class : ConnectorClass → Bool
is_end_class operator_input = true
is_end_class workflow_output = true
is_end_class _ = false

-- the classes whose connectors are only the start of a link
abbrev pub is_start_class : ConnectorClass → Bool
is_start_class operator_output = true
is_start_class constant_input = true
is_start_class dynamic_input = true
is_start_class _ = false

unfoldable pub check_start_connector_has_right_class : Vertex → Result Vertex
check_start_connector_has_right_class start = do
  require (not (is_end_class start.class)) wrong_start_class
  ok start

unfoldable pub check_end_connector_has_right_class : Vertex → Result Vertex
check_end_connector_has_right_class end = do
  require (not (is_start_class end.class)) wrong_end_class
  ok end

unfoldable pub types_match : Link → Result Link
types_match link = do
  require
      (link.start.connector.data_type == link.end.connector.data_type
        || (link.start.connector.data_type == any_type || link.end.connector.data_type == any_type))
      data_types_differ
  ok link

unfoldable pub no_self_reference : Link → Result Link
no_self_reference link = do
  require (not (link.start.operator == link.end.operator)) same_operator
  ok link

unfoldable pub no_link_without_operator : Link → Result Link
no_link_without_operator link = do
  require (not (link.start.operator == none && link.end.operator == none)) no_operator
  ok link

-- The validators of `Link` in the order of their declaration.
unfoldable pub validate : Link → Result Link
unfolding check_start_connector_has_right_class check_end_connector_has_right_class types_match
    no_self_reference no_link_without_operator
validate link = do
  start ← check_start_connector_has_right_class link.start
  end ← check_end_connector_has_right_class link.end
  link ← types_match (record link { start = start; end = end })
  link ← no_self_reference link
  no_link_without_operator link
