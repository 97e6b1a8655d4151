-- ===== src/Operator.antt =====
-- runtime/hetdesrun/persistence/models/operator.py: an operator is an instance of a transformation
-- revision within a workflow. `Type` and `State` are the enumerations of runtime/hetdesrun/utils.py.
use hetida_designer.Prelude.{ℕ, Text, List, Eq}
use hetida_designer.Io.{OperatorInput, OperatorOutput, Position}

pub data TrafoType : Type 0 where
  component workflow : TrafoType

pub data State : Type 0 where
  draft released disabled : State

pub record Operator : Type 0 where
  pub id : ℕ
  pub revision_group_id : ℕ
  pub name : Text
  pub type : TrafoType
  pub state : State
  pub version_tag : Text
  pub transformation_id : ℕ
  pub inputs : List OperatorInput
  pub outputs : List OperatorOutput
  pub position : Position

unfoldable pub TrafoType-discrete : Discrete TrafoType
TrafoType-discrete = hlevel

instance abbrev pub trafo_type_eq : Eq TrafoType
trafo_type_eq = record { discrete = TrafoType-discrete }

unfoldable pub State-discrete : Discrete State
State-discrete = hlevel

instance abbrev pub state_eq : Eq State
state_eq = record { discrete = State-discrete }
