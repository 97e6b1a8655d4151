-- ===== src/Io/Convert.antt =====
-- runtime/hetdesrun/persistence/models/io.py: conversions between the inputs and outputs of
-- transformation revisions, of operators and of workflow contents. Each builds a new object, so the
-- validators of its class run. `id` stands for what `uuid4` returns, where the code calls it.
pub mod Roundtrip
use hetida_designer.Prelude.{
  ℕ, Bool, true, false, ◌&&◌, Text, ◌==◌, nat_eq, name_eq, Result, ok, err, ◌>>=◌,
}
use hetida_designer.Io.{
  Python, ℤ, DataType, data_type_eq, InputType, required, optional, Connector, OperatorInput,
  OperatorOutput, TransformationInput, TransformationOutput, WorkflowContentDynamicInput,
  WorkflowContentOutput, Position, origin, name_valid_python_identifier,
  value_set_only_for_optional_input, required_inputs_exposed,
}

-- `==` on input types
abbrev pub same_type : InputType → InputType → Bool
same_type required required = true
same_type optional optional = true
same_type _ _ = false

unfoldable pub matches_trafo_output : WorkflowContentOutput → TransformationOutput → Bool
matches_trafo_output x other =
    x.id == other.id && (x.name == other.name && x.data_type == other.data_type)

unfoldable pub matches_trafo_input : WorkflowContentDynamicInput → TransformationInput → Bool
matches_trafo_input x other =
    x.id == other.id
    && (x.name == other.name
        && (x.data_type == other.data_type
            && (same_type x.type other.type && x.value == other.value)))

module _ (py : Python) where
  unfoldable pub from_transformation_output :
      ℕ → TransformationOutput → ℤ → ℤ → Result OperatorOutput
  from_transformation_output id output pos_x pos_y = do
    name ← name_valid_python_identifier py output.name
    ok (record {
      id = id;
      name = name;
      data_type = output.data_type;
      position = record { x = pos_x; y = pos_y };
    })

  unfoldable pub from_transformation_input : ℕ → TransformationInput → ℤ → ℤ → Result OperatorInput
  from_transformation_input id input pos_x pos_y = do
    name ← name_valid_python_identifier py input.name
    value ← value_set_only_for_optional_input input.type input.value
    ok (record {
      connector = record {
        id = id;
        name = name;
        data_type = input.data_type;
        position = record { x = pos_x; y = pos_y };
      };
      type = input.type;
      value = value;
      exposed = required_inputs_exposed input.type true;
    })

  unfoldable pub to_transformation_output : WorkflowContentOutput → Result TransformationOutput
  to_transformation_output x = do
    name ← name_valid_python_identifier py x.name
    ok (record { id = x.id; name = name; data_type = x.data_type })

  unfoldable pub to_transformation_input : WorkflowContentDynamicInput → Result TransformationInput
  to_transformation_input x = do
    name ← name_valid_python_identifier py x.name
    value ← value_set_only_for_optional_input x.type x.value
    ok (record { id = x.id; name = name; data_type = x.data_type; type = x.type; value = value })

  unfoldable pub from_operator_output : ℕ → OperatorOutput → ℕ → Text → Result WorkflowContentOutput
  from_operator_output id output operator_id operator_name = do
    name ← name_valid_python_identifier py output.name
    ok (record {
      connector = record { id = id; name = name; data_type = output.data_type; position = origin };
      operator_id = operator_id;
      connector_id = output.id;
      operator_name = operator_name;
      connector_name = output.name;
    })

  unfoldable pub from_operator_input :
      ℕ → OperatorInput → ℕ → Text → Result WorkflowContentDynamicInput
  from_operator_input id input operator_id operator_name = do
    name ← name_valid_python_identifier py input.name
    value ← value_set_only_for_optional_input input.type input.value
    ok (record {
      io = record {
        connector = record { id = id; name = name; data_type = input.data_type; position = origin };
        operator_id = operator_id;
        connector_id = input.id;
        operator_name = operator_name;
        connector_name = input.name;
      };
      type = input.type;
      value = value;
    })
