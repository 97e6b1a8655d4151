-- ===== src/Content/Inputs.antt =====
-- The validators of the field `inputs` of `WorkflowContent`: unnecessary dynamic inputs go, and
-- operator inputs that are not linked get one.
pub mod Decide
pub mod Keep
pub mod Returns
pub mod Cover
use hetida_designer.Prelude.{
  ℕ, ◌+◌, Bool, true, false, not, ◌&&◌, ◌||◌, Option, none, some, List, [], ◌∷◌, ◌++◌, map,
  flat_map, Dict, get, from_pairs, update, remove_all, ◌==◌, nat_eq, key_eq, if◌then◌else◌, Result,
  ok, err, ◌>>=◌, key_missing, several_links,
}
use hetida_designer.Io.{
  OperatorInput, WorkflowContentIo, WorkflowContentDynamicInput, WorkflowContentConstantInput,
  dynamic_input_eq, Position, position_eq, origin, matches_io, matches_operator_io, is_nameless,
  required,
}
use hetida_designer.Link.{Link, operator_eq}
use hetida_designer.Operator.{Operator}
use hetida_designer.Content.Dicts.{
  pair_eq, initialize_operator_input_by_id_tuple_dict, initialize_links_by_start_id_tuple_dict,
  initialize_link_by_end_id_tuple_dict,
}
use hetida_designer.Content.Links.{or_not_in_list}
use hetida_designer.Content.Moved.{move_start}
use hetida_designer.Content.Adjust.{collect_adjusting}

-- `wf_input.id != link.start.connector.id` for the link, if any, that ends at the operator input
abbrev pub starts_elsewhere : ℕ → Option Link → Bool
starts_elsewhere id none = false
starts_elsewhere id (some link) = not (id == link.start.connector.id)

abbrev pub operator_input_unfit :
    WorkflowContentDynamicInput → Option OperatorInput → Option Link → Bool
operator_input_unfit wf_input none link = true
operator_input_unfit wf_input (some input) link =
    if not (matches_operator_io wf_input.io input.connector)
    then true
    else if not input.exposed
    then true
    else starts_elsewhere wf_input.id link

unfoldable pub wf_input_unnecessary :
    WorkflowContentDynamicInput → Dict (ℕ × ℕ) OperatorInput → Dict (Option ℕ × ℕ) Link → Bool
wf_input_unnecessary wf_input inputs link_by_end =
    operator_input_unfit wf_input (get (wf_input.operator_id, wf_input.connector_id) inputs)
      (get (some wf_input.operator_id, wf_input.connector_id) link_by_end)

-- `named_wf_input_unnecessary`, on the entry of the dictionary for the workflow input. The result
-- has the links with the position that is adjusted. No entry is empty; `[0]` of such would raise.
unfoldable pub named_wf_input_unnecessary :
    WorkflowContentDynamicInput → Option (List Link) → List Link → Result (Bool × List Link)
named_wf_input_unnecessary wf_input none links = ok (true, links)
named_wf_input_unnecessary wf_input (some []) links = err key_missing
named_wf_input_unnecessary wf_input (some (link ∷ [])) links =
    if not (matches_io wf_input.connector link.start.connector)
    then ok (true, links)
    else (let links' =
          if not (wf_input.position == link.start.connector.position)
          then move_start (none, wf_input.id) wf_input.position links
          else links in
        ok (
          not (link.end.operator == some wf_input.operator_id)
              || not (link.end.connector.id == wf_input.connector_id),
          links',
        ))
named_wf_input_unnecessary wf_input (some (link ∷ other ∷ more)) links = err several_links

-- the body of the loop: whether the input goes to `remove_wf_inputs`, and the links after it
unfoldable pub input_is_removed :
    Dict (ℕ × ℕ) OperatorInput → WorkflowContentDynamicInput → List Link → Result (Bool × List Link)
unfolding wf_input_unnecessary
input_is_removed inputs wf_input links =
    if wf_input_unnecessary wf_input inputs (initialize_link_by_end_id_tuple_dict links)
    then ok (true, links)
    else if is_nameless wf_input.name
    then ok (false, links)
    else named_wf_input_unnecessary wf_input
        (get (none, wf_input.id) (initialize_links_by_start_id_tuple_dict links)) links

unfoldable pub clean_up_workflow_content_inputs :
    List Operator
    → List Link
    → List WorkflowContentDynamicInput
    → Result (List WorkflowContentDynamicInput × List Link)
unfolding input_is_removed collect_adjusting
clean_up_workflow_content_inputs operators links inputs = do
  removed ←
      collect_adjusting (input_is_removed (initialize_operator_input_by_id_tuple_dict operators))
        inputs links
  kept ← or_not_in_list (remove_all removed.0 inputs)
  ok (kept, removed.1)

-- the operator inputs that the two loops visit, each with its operator
abbrev pub input_slots : List Operator → List (Operator × OperatorInput)
input_slots operators = flat_map (λ op. map (λ i. (op, i)) op.inputs) operators

-- the keys of `wf_input_by_operator_and_connector_id_dict`
unfoldable pub known_inputs :
    List WorkflowContentDynamicInput
    → List WorkflowContentConstantInput
    → Dict (ℕ × ℕ) WorkflowContentIo
known_inputs inputs constants =
    update (from_pairs (map (λ i. ((i.operator_id, i.connector_id), i.io)) inputs))
      (map (λ c. ((c.operator_id, c.connector_id), c.io)) constants)

-- an input without a name, its other fields at their defaults
abbrev pub unnamed_input : ℕ → Operator → OperatorInput → WorkflowContentDynamicInput
unnamed_input id operator input = record {
  io = record {
    connector = record { id = id; name = none; data_type = input.data_type; position = origin };
    operator_id = operator.id;
    connector_id = input.id;
    operator_name = operator.name;
    connector_name = input.name;
  };
  type = required;
  value = none;
}

-- no link ends at the operator input, or one from a workflow input
abbrev pub is_unlinked : Option Link → Bool
is_unlinked none = true
is_unlinked (some link) = link.start.operator == none

abbrev pub input_is_missing :
    Dict (ℕ × ℕ) WorkflowContentIo → Dict (Option ℕ × ℕ) Link → Operator × OperatorInput → Bool
input_is_missing known link_by_end (operator, input) =
    if not input.exposed then false else elim (get (operator.id, input.id) known) [
      | none ↦ is_unlinked (get (some operator.id, input.id) link_by_end)
      | some io ↦ false
    ]

-- `uuid4 n` is the id that the call number `n` of the library's `uuid4` returns.
module _ (uuid4 : ℕ → ℕ) where
  unfoldable pub add_inputs :
      Dict (ℕ × ℕ) WorkflowContentIo
      → Dict (Option ℕ × ℕ) Link
      → ℕ
      → List (Operator × OperatorInput)
      → List WorkflowContentDynamicInput
  add_inputs known link_by_end n [] = []
  add_inputs known link_by_end n (slot ∷ slots) =
      let missing = input_is_missing known link_by_end slot in
      let rest = add_inputs known link_by_end (if missing then n + 1 else n) slots in
      if missing then unnamed_input (uuid4 n) slot.0 slot.1 ∷ rest else rest

  unfoldable pub add_workflow_content_inputs_for_unlinked_operator_inputs :
      List Operator
      → List WorkflowContentConstantInput
      → List Link
      → ℕ
      → List WorkflowContentDynamicInput
      → List WorkflowContentDynamicInput
  unfolding add_inputs known_inputs
  add_workflow_content_inputs_for_unlinked_operator_inputs operators constants links n inputs =
      inputs
      ++ add_inputs (known_inputs inputs constants) (initialize_link_by_end_id_tuple_dict links) n
          (input_slots operators)
