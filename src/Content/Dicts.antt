-- ===== src/Content/Dicts.antt =====
-- The four dictionaries of `WorkflowContent` that serve its validation. A value of the two
-- dictionaries of links is a reference to a link of the list `links`, whose keys no validator
-- changes; the model builds them from the links as they are when they are read.
pub mod Keys
use hetida_designer.Prelude.{
  ℕ, Option, none, some, List, [], ◌∷◌, ◌++◌, map, flat_map, Eq, ℕ_discrete, key_eq, Dict, get, put,
  from_pairs,
}
use hetida_designer.Io.{OperatorInput, OperatorOutput}
use hetida_designer.Link.{Link}
use hetida_designer.Operator.{Operator}

unfoldable pub Pair-discrete : Discrete (ℕ × ℕ)
Pair-discrete = hlevel ℕ_discrete

instance abbrev pub pair_eq : Eq (ℕ × ℕ)
pair_eq = record { discrete = Pair-discrete }

abbrev pub outputs_of : Operator → List ((ℕ × ℕ) × OperatorOutput)
outputs_of op = map (λ o. ((op.id, o.id), o)) op.outputs

abbrev pub inputs_of : Operator → List ((ℕ × ℕ) × OperatorInput)
inputs_of op = map (λ i. ((op.id, i.id), i)) op.inputs

unfoldable pub initialize_operator_output_by_id_tuple_dict :
    List Operator → Dict (ℕ × ℕ) OperatorOutput
initialize_operator_output_by_id_tuple_dict operators = from_pairs (flat_map outputs_of operators)

unfoldable pub initialize_operator_input_by_id_tuple_dict :
    List Operator → Dict (ℕ × ℕ) OperatorInput
initialize_operator_input_by_id_tuple_dict operators = from_pairs (flat_map inputs_of operators)

abbrev pub start_key : Link → Option ℕ × ℕ
start_key link = (link.start.operator, link.start.connector.id)

abbrev pub end_key : Link → Option ℕ × ℕ
end_key link = (link.end.operator, link.end.connector.id)

abbrev pub listed : Option (List Link) → List Link
listed none = []
listed (some links) = links

-- `if key not in d: d[key] = []`, then `d[key].append(link)`
abbrev pub append_to :
    Option ℕ × ℕ → Link → Dict (Option ℕ × ℕ) (List Link) → Dict (Option ℕ × ℕ) (List Link)
append_to key link d = put key (listed (get key d) ++ link ∷ []) d

unfoldable pub group_links :
    Dict (Option ℕ × ℕ) (List Link) → List Link → Dict (Option ℕ × ℕ) (List Link)
group_links d [] = d
group_links d (link ∷ links) = group_links (append_to (start_key link) link d) links

unfoldable pub initialize_links_by_start_id_tuple_dict : List Link → Dict (Option ℕ × ℕ) (List Link)
unfolding group_links
initialize_links_by_start_id_tuple_dict links = group_links [] links

unfoldable pub initialize_link_by_end_id_tuple_dict : List Link → Dict (Option ℕ × ℕ) Link
initialize_link_by_end_id_tuple_dict links = from_pairs (map (λ link. (end_key link, link)) links)
