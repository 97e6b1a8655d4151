-- ===== src/Link/Valid.antt =====
-- Which links the validators of link.py accept.
use hetida_designer.Prelude.{◌≡◌, ◌≢◌, ◌↔◌, ◌⊎◌, arith, ok, err, nat_eq, no_operator}
use hetida_designer.Io.{any_type, data_type_eq}
use hetida_designer.Link.{
  Link, operator_input, operator_output, workflow_output, constant_input, dynamic_input, validate,
  operator_eq,
}

-- What a link has to fulfil, in the words of its docstring and of the validators' messages.
pub record IsValid (link : Link) : Type 0 where
  pub start_not_input : link.start.class ≢ operator_input
  pub start_not_output : link.start.class ≢ workflow_output
  pub end_not_output : link.end.class ≢ operator_output
  pub end_not_constant : link.end.class ≢ constant_input
  pub end_not_dynamic : link.end.class ≢ dynamic_input
  pub types :
      (link.start.connector.data_type ≡ link.end.connector.data_type)
      ⊎ ((link.start.connector.data_type ≡ any_type) ⊎ (link.end.connector.data_type ≡ any_type))
  pub operators : link.start.operator ≢ link.end.operator

module _ (link : Link) where
  IsValid-of_validate : validate link ≡ ok link → IsValid link
  unfolding validate
  IsValid-of_validate h = record {
    start_not_input = λ e. ground arith;
    start_not_output = λ e. ground arith;
    end_not_output = λ e. ground arith;
    end_not_constant = λ e. ground arith;
    end_not_dynamic = λ e. ground arith;
    types = ground arith;
    operators = λ e. ground arith;
  }

  validate_of_IsValid : IsValid link → validate link ≡ ok link
  unfolding validate
  validate_of_IsValid v = ground (arith, v.operators)

  -- A link is accepted, and then unchanged, exactly if the class of each of its connectors may stand
  -- at that end, the data types are equal or one is ANY, and its two ends name different operators.
  pub validate_iff : (validate link ≡ ok link) ↔ IsValid link
  validate_iff = (IsValid-of_validate, validate_of_IsValid)

-- A link without an operator at both ends never meets the validator that was written for it: some
-- validator before it raises.
pub validate-ne-no_operator : (link : Link) → validate link ≢ err no_operator
unfolding validate
validate-ne-no_operator link h = ground arith
