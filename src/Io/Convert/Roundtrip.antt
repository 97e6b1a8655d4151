-- ===== src/Io/Convert/Roundtrip.antt =====
-- What wrapping a component into a workflow makes of its inputs and outputs.
use hetida_designer.Prelude.{ℕ, ◌≡◌, refl, Text, ok, true, ==_self, nat_eq, name_eq, ◌>>=◌}
use hetida_designer.Io.{
  data_type_eq, InputType, required, optional, Python, ℤ, TransformationInput, TransformationOutput,
  WorkflowContentDynamicInput, name_valid_python_identifier, value_set_only_for_optional_input,
}
use hetida_designer.Io.Convert.{
  same_type, matches_trafo_input, from_transformation_output, from_transformation_input,
  to_transformation_output, to_transformation_input, from_operator_output, from_operator_input,
}

-- From a transformation's input to an operator's, a workflow's, and a transformation's again nothing
-- is lost but the id, if the name and the value are valid.
pub to_transformation_input-from_operator_input :
    (py : Python) (a b op : ℕ) (operator_name : Text) (x y : ℤ) (input : TransformationInput)
    → name_valid_python_identifier py input.name ≡ ok input.name
    → value_set_only_for_optional_input input.type input.value ≡ ok input.value
    → (from_transformation_input py a input x y >>= λ operator_input.
        from_operator_input py b operator_input op operator_name >>= to_transformation_input py)
      ≡ ok (record input { id = b })
unfolding from_transformation_input from_operator_input to_transformation_input
to_transformation_input-from_operator_input py a b op operator_name x y input valid set =
    rw (valid, set, valid, set, valid, set) refl

-- From a transformation's output to an operator's, a workflow's, and a transformation's again nothing
-- is lost but the id, if the name is valid.
pub to_transformation_output-from_operator_output :
    (py : Python) (a b op : ℕ) (operator_name : Text) (x y : ℤ) (output : TransformationOutput)
    → name_valid_python_identifier py output.name ≡ ok output.name
    → (from_transformation_output py a output x y >>= λ operator_output.
        from_operator_output py b operator_output op operator_name >>= to_transformation_output py)
      ≡ ok (record output { id = b })
unfolding from_transformation_output from_operator_output to_transformation_output
to_transformation_output-from_operator_output py a b op operator_name x y output valid =
    rw (valid, valid, valid) refl

pub same_type_self : (t : InputType) → same_type t t ≡ true
same_type_self required = refl
same_type_self optional = refl

-- A workflow input whose name and value are valid becomes a transformation's input, which it matches.
pub matches_trafo_input-to_transformation_input :
    (py : Python) (x : WorkflowContentDynamicInput)
    → name_valid_python_identifier py x.name ≡ ok x.name
    → value_set_only_for_optional_input x.type x.value ≡ ok x.value
    → (input : TransformationInput) × (to_transformation_input py x ≡ ok input)
      × (matches_trafo_input x input ≡ true)
unfolding to_transformation_input matches_trafo_input
matches_trafo_input-to_transformation_input py x valid set = (
  record { id = x.id; name = x.name; data_type = x.data_type; type = x.type; value = x.value },
  rw (valid, set) refl,
  rw (==_self x.id, ==_self x.name, ==_self x.data_type, same_type_self x.type, ==_self x.value)
      refl,
)
