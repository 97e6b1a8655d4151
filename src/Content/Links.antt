-- ===== src/Content/Links.antt =====
-- `WorkflowContent.link_connectors_match_operator_ios`: links to operator inputs and outputs that
-- are missing, differ or are not exposed are removed.
pub mod Match
use hetida_designer.Prelude.{
  ℕ, Bool, true, false, not, Option, none, some, List, [], ◌∷◌, Dict, get, remove_all, Result, ok,
  err, ◌>>=◌, no_operator, not_in_list, if◌then◌else◌,
}
use hetida_designer.Io.{OperatorInput, OperatorOutput, matches_connector}
use hetida_designer.Link.{Link, link_eq}
use hetida_designer.Operator.{Operator}
use hetida_designer.Content.Dicts.{
  pair_eq, initialize_operator_output_by_id_tuple_dict, initialize_operator_input_by_id_tuple_dict,
}

abbrev pub output_differs : Link → Option OperatorOutput → Bool
output_differs link none = true
output_differs link (some output) = not (matches_connector link.start.connector output)

-- The operator of the link's start is given apart, since a clause cannot match on a field.
unfoldable pub link_invalid_due_to_operator_output :
    Option ℕ → Link → Dict (ℕ × ℕ) OperatorOutput → Result Bool
link_invalid_due_to_operator_output none link outputs = err no_operator
link_invalid_due_to_operator_output (some op) link outputs =
    ok (output_differs link (get (op, link.start.connector.id) outputs))

abbrev pub input_differs : Link → Option OperatorInput → Bool
input_differs link none = true
input_differs link (some input) =
    if not (matches_connector link.end.connector input.connector)
    then true
    else if not input.exposed
    then true
    else false

unfoldable pub link_invalid_due_to_operator_input :
    Option ℕ → Link → Dict (ℕ × ℕ) OperatorInput → Result Bool
link_invalid_due_to_operator_input none link inputs = err no_operator
link_invalid_due_to_operator_input (some op) link inputs =
    ok (input_differs link (get (op, link.end.connector.id) inputs))

-- `link.start.operator is not None and ...`
abbrev pub unless_none : Option ℕ → Result Bool → Result Bool
unless_none none r = ok false
unless_none (some op) r = r

-- the body of the loop: whether the link goes to `remove_links`
unfoldable pub link_is_removed :
    Dict (ℕ × ℕ) OperatorOutput → Dict (ℕ × ℕ) OperatorInput → Link → Result Bool
unfolding link_invalid_due_to_operator_output link_invalid_due_to_operator_input
link_is_removed outputs inputs link = do
  at_start ←
      unless_none link.start.operator
        (link_invalid_due_to_operator_output link.start.operator link outputs)
  if at_start
      then ok true
      else unless_none link.end.operator
          (link_invalid_due_to_operator_input link.end.operator link inputs)

-- The loops `for x in xs: if test(x): remove_xs.append(x)`, with the list to remove as the result.
unfoldable pub collect {ℓ} : {A : Type ℓ} → (A → Result Bool) → List A → Result (List A)
collect test [] = ok []
collect test (x ∷ xs) = do
  found ← test x
  rest ← collect test xs
  ok (if found then x ∷ rest else rest)

abbrev pub or_not_in_list {ℓ} : {A : Type ℓ} → Option A → Result A
or_not_in_list none = err not_in_list
or_not_in_list (some a) = ok a

unfoldable pub link_connectors_match_operator_ios : List Operator → List Link → Result (List Link)
unfolding link_is_removed collect initialize_operator_output_by_id_tuple_dict
    initialize_operator_input_by_id_tuple_dict
link_connectors_match_operator_ios operators links = do
  remove_links ←
      collect
        (link_is_removed (initialize_operator_output_by_id_tuple_dict operators)
          (initialize_operator_input_by_id_tuple_dict operators))
        links
  or_not_in_list (remove_all remove_links links)
