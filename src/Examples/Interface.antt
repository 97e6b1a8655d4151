-- ===== src/Examples/Interface.antt =====
-- An io interface with a surplus input, one that does not match, and a missing output, and its fitting.
use hetida_designer.Prelude.{
  ℕ, ◌≡◌, refl, none, [], ◌∷◌, map, from_pairs, ok, IsNodup, arith, nat_eq, ℕ_discrete,
  Name-discrete,
}
use hetida_designer.Io.{
  name_valid_python_identifier, value_set_only_for_optional_input, float, required,
  TransformationInput,
}
use hetida_designer.Io.Convert.{matches_trafo_input, matches_trafo_output}
use hetida_designer.Revision.{WorkflowContent, workflow_content, IoInterface}
use hetida_designer.Revision.Fit.{io_interface_fits_to_content, TransformationInput-discrete}
use hetida_designer.Revision.Fit.Matches.{IsFitted}
use hetida_designer.Revision.Fit.Interface.{io_interface_fits_to_content-IsFitted}
use hetida_designer.Examples.Data.{operators, input_a, output_b, name_a, name_b}
use hetida_designer.Examples.Revisions.{library}

abbrev content : WorkflowContent
content = record {
  operators = operators;
  links = [];
  inputs = input_a ∷ [];
  outputs = output_b ∷ [];
  constants = [];
}

abbrev surplus : TransformationInput
surplus = record { id = 99; name = none; data_type = float; type = required; value = none }

abbrev unnamed : TransformationInput
unnamed = record { id = 31; name = none; data_type = float; type = required; value = none }

abbrev given : IoInterface
given = record { inputs = surplus ∷ unnamed ∷ []; outputs = [] }

abbrev fitted : IoInterface
fitted = record {
  inputs =
      (record { id = 31; name = name_a; data_type = float; type = required; value = none }) ∷ [];
  outputs = (record { id = 41; name = name_b; data_type = float }) ∷ [];
}

fits : io_interface_fits_to_content library.python (workflow_content content) given ≡ ok fitted
unfolding io_interface_fits_to_content ℕ_discrete Name-discrete name_valid_python_identifier
    value_set_only_for_optional_input TransformationInput-discrete
fits = refl

ids-IsNodup : IsNodup {A = ℕ} (99 ∷ 31 ∷ [])
ids-IsNodup = (((λ same. omega arith), tt), (tt, tt))

io_interface_fits_to_content-IsFitted_example :
    IsFitted
      (λ i. i.id)
      matches_trafo_input
      (from_pairs (map (λ w. (w.id, w)) (input_a ∷ [])))
      fitted.inputs
    × IsFitted
        (λ o. o.id)
        matches_trafo_output
        (from_pairs (map (λ w. (w.id, w)) (output_b ∷ [])))
        fitted.outputs
io_interface_fits_to_content-IsFitted_example =
    io_interface_fits_to_content-IsFitted library.python content given fitted ids-IsNodup tt fits
