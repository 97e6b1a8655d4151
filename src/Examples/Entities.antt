-- ===== src/Examples/Entities.antt =====
-- Examples for names, links and nestings.
use hetida_designer.Prelude.{
  put, true, false, ◌>>=◌, ℕ, ◌<◌, some, Memᴰ, nat_eq, get, ℕ_discrete, ◌≡◌, ◌≢◌, ◌↔◌, refl, none,
  [], ◌∷◌, All, ok, err, no_operator, out_of_fuel, nesting_cycle,
}
use hetida_designer.Io.{names_unique, io_names_unique}
use hetida_designer.Io.{
  Python, TransformationInput, TransformationOutput, float, required, optional, pos,
  name_valid_python_identifier, value_set_only_for_optional_input,
}
use hetida_designer.Io.Convert.{
  from_transformation_output, from_transformation_input, to_transformation_output,
  to_transformation_input, from_operator_output, from_operator_input, matches_trafo_input,
}
use hetida_designer.Io.Convert.Roundtrip.{
  to_transformation_input-from_operator_input, to_transformation_output-from_operator_output,
  matches_trafo_input-to_transformation_input,
}
use hetida_designer.Io.Names.{
  IsDistinct, IsDistinctWhereNamed, names_unique_iff, io_names_unique_iff,
}
use hetida_designer.Link.{Link, validate}
use hetida_designer.Link.Valid.{IsValid, validate_iff, validate-ne-no_operator}
use hetida_designer.Operator.{TrafoType-discrete, workflow}
use hetida_designer.Nestings.{
  nesting_level, operators_of, Transformations, structure_ids_by_nesting_level, ids_at,
}
use hetida_designer.Nestings.Groups.{structure_ids_by_nesting_level_lem}
use hetida_designer.Nestings.Order.{nesting_level-operators}
use hetida_designer.Nestings.Depth.{HasDepth}
use hetida_designer.Nestings.Fuel.{nesting_level-ends}
use hetida_designer.Nestings.Level.{nesting_level_iff}
use hetida_designer.Examples.Data.{
  input_a, scale, link, vertex_at, connector, link_between, name_a, name_b, transformations,
}
use hetida_designer.Link.{dynamic_input, workflow_output}

abbrev link_outside : Link
link_outside =
    link 56 (vertex_at none (connector 31 name_a) dynamic_input)
      (vertex_at none (connector 41 name_b) workflow_output)

level_of_nested : nesting_level 2 transformations ≡ ok 2
unfolding nesting_level get ℕ_discrete TrafoType-discrete
level_of_nested = refl

found_nested :
    get 2 transformations ≡ some (record { type = workflow; content = operators_of (scale ∷ []) })
unfolding get ℕ_discrete
found_nested = refl

refuses_cycle : nesting_level 5 transformations ≡ err nesting_cycle
unfolding nesting_level get ℕ_discrete TrafoType-discrete
refuses_cycle = refl

names_unique_iff_example :
    (names_unique (name_a ∷ name_b ∷ []) ≡ ok tt)
    ↔ (All (λ n. n ≢ none) (name_a ∷ name_b ∷ []) × IsDistinct (name_a ∷ name_b ∷ []))
names_unique_iff_example = names_unique_iff (name_a ∷ name_b ∷ [])

io_names_unique_iff_example :
    (io_names_unique (name_a ∷ none ∷ name_a ∷ []) ≡ ok tt)
    ↔ IsDistinctWhereNamed (name_a ∷ none ∷ name_a ∷ [])
io_names_unique_iff_example = io_names_unique_iff (name_a ∷ none ∷ name_a ∷ [])

validate_iff_example : (validate link_between ≡ ok link_between) ↔ IsValid link_between
validate_iff_example = validate_iff link_between

validate-ne-no_operator_example : validate link_outside ≢ err no_operator
validate-ne-no_operator_example = validate-ne-no_operator link_outside

nesting_level-ends_example : nesting_level 5 transformations ≢ err out_of_fuel
nesting_level-ends_example = nesting_level-ends 5 transformations

nesting_level_iff_example : (nesting_level 2 transformations ≡ ok 2) ↔ HasDepth transformations 2 2
nesting_level_iff_example = nesting_level_iff 2 2 transformations

nesting_level-operators_example : (m : ℕ) × (nesting_level 3 transformations ≡ ok m) × (m < 2)
nesting_level-operators_example =
    nesting_level-operators 2 2 scale transformations
      (record { type = workflow; content = operators_of (scale ∷ []) }) (scale ∷ []) level_of_nested
      found_nested refl refl (Memᴰ.head refl) refl

-- every text is an identifier
abbrev py : Python
py = record { isidentifier = λ n. true; iskeyword = λ n. false }

abbrev trafo_input : TransformationInput
trafo_input = record {
  id = 61;
  name = name_a;
  data_type = float;
  type = optional;
  value = some (49 ∷ []);
}

abbrev trafo_output : TransformationOutput
trafo_output = record { id = 62; name = name_b; data_type = float }

valid_a : name_valid_python_identifier py name_a ≡ ok name_a
unfolding name_valid_python_identifier
valid_a = refl

valid_b : name_valid_python_identifier py name_b ≡ ok name_b
unfolding name_valid_python_identifier
valid_b = refl

may_be_set : value_set_only_for_optional_input optional (some (49 ∷ [])) ≡ ok (some (49 ∷ []))
unfolding value_set_only_for_optional_input
may_be_set = refl

unset : value_set_only_for_optional_input required none ≡ ok none
unfolding value_set_only_for_optional_input
unset = refl

to_transformation_input-from_operator_input_example :
    (from_transformation_input py 71 trafo_input (pos 0) (pos 1) >>= λ operator_input.
    from_operator_input py 72 operator_input 1 (111 ∷ []) >>= to_transformation_input py)
    ≡ ok (record trafo_input { id = 72 })
to_transformation_input-from_operator_input_example =
    to_transformation_input-from_operator_input py 71 72 1 (111 ∷ []) (pos 0) (pos 1) trafo_input
      valid_a may_be_set

to_transformation_output-from_operator_output_example :
    (from_transformation_output py 71 trafo_output (pos 0) (pos 1) >>= λ operator_output.
    from_operator_output py 72 operator_output 1 (111 ∷ []) >>= to_transformation_output py)
    ≡ ok (record trafo_output { id = 72 })
to_transformation_output-from_operator_output_example =
    to_transformation_output-from_operator_output py 71 72 1 (111 ∷ []) (pos 0) (pos 1) trafo_output
      valid_b

matches_trafo_input-to_transformation_input_example :
    (input : TransformationInput) × (to_transformation_input py input_a ≡ ok input)
    × (matches_trafo_input input_a input ≡ true)
matches_trafo_input-to_transformation_input_example =
    matches_trafo_input-to_transformation_input py input_a valid_a unset

-- without the workflow that contains itself
abbrev sound_transformations : Transformations
sound_transformations =
    (2, record { type = workflow; content = operators_of (scale ∷ []) })
    ∷ (3, record { type = workflow; content = operators_of [] })
    ∷ []

groups_of_sound :
    structure_ids_by_nesting_level sound_transformations ≡ ok ((2, 2 ∷ []) ∷ (1, 3 ∷ []) ∷ [])
unfolding structure_ids_by_nesting_level put get ℕ_discrete TrafoType-discrete
groups_of_sound = refl

structure_ids_by_nesting_level_lem_example :
    (n : ℕ) × (nesting_level 2 sound_transformations ≡ ok n)
    × Memᴰ 2 (ids_at (get n ((2, 2 ∷ []) ∷ (1, 3 ∷ []) ∷ [])))
structure_ids_by_nesting_level_lem_example =
    structure_ids_by_nesting_level_lem sound_transformations groups_of_sound (Memᴰ.head refl)
