-- ===== src/Content/Outputs.antt =====
-- The validators of the field `outputs` of `WorkflowContent`: unnecessary outputs go, and operator
-- outputs that lead to no output of the workflow get one.
pub mod Cover
use hetida_designer.Prelude.{
  ℕ, ◌+◌, Bool, true, false, not, ◌||◌, Option, none, some, List, [], ◌∷◌, ◌++◌, map, flat_map, any,
  Dict, get, from_pairs, remove_all, ◌==◌, nat_eq, key_eq, if◌then◌else◌, Result, ok, ◌>>=◌,
}
use hetida_designer.Io.{
  OperatorOutput, WorkflowContentIo, WorkflowContentOutput, workflow_io_eq, position_eq, origin,
  matches_io, matches_operator_io, is_nameless,
}
use hetida_designer.Link.{Link, link_eq, operator_eq}
use hetida_designer.Operator.{Operator}
use hetida_designer.Content.Dicts.{
  pair_eq, initialize_operator_output_by_id_tuple_dict, initialize_links_by_start_id_tuple_dict,
  initialize_link_by_end_id_tuple_dict,
}
use hetida_designer.Content.Links.{or_not_in_list}
use hetida_designer.Content.Moved.{move_end}
use hetida_designer.Content.Adjust.{collect_adjusting}

-- `any(wf_output.id != link.end.connector.id for link in links)`, where links start there
abbrev pub ends_elsewhere : ℕ → Option (List Link) → Bool
ends_elsewhere id none = false
ends_elsewhere id (some links) = any (λ link. not (id == link.end.connector.id)) links

abbrev pub operator_output_unfit :
    WorkflowContentOutput → Option OperatorOutput → Option (List Link) → Bool
operator_output_unfit wf_output none links = true
operator_output_unfit wf_output (some output) links =
    if not (matches_operator_io wf_output output) then true else ends_elsewhere wf_output.id links

unfoldable pub wf_output_unnecessary :
    WorkflowContentOutput → Dict (ℕ × ℕ) OperatorOutput → Dict (Option ℕ × ℕ) (List Link) → Bool
wf_output_unnecessary wf_output outputs links_by_start =
    operator_output_unfit wf_output (get (wf_output.operator_id, wf_output.connector_id) outputs)
      (get (some wf_output.operator_id, wf_output.connector_id) links_by_start)

-- `named_wf_output_unnecessary`, on the entry of the dictionary for the workflow output. The result
-- has the links with the position that is adjusted.
unfoldable pub named_wf_output_unnecessary :
    WorkflowContentOutput → Option Link → List Link → Bool × List Link
named_wf_output_unnecessary wf_output none links = (true, links)
named_wf_output_unnecessary wf_output (some link) links =
    if not (matches_io wf_output.connector link.end.connector)
    then (true, links)
    else (let links' =
          if not (wf_output.position == link.end.connector.position)
          then move_end (none, wf_output.id) wf_output.position links
          else links in
        (
          not (link.start.operator == some wf_output.operator_id)
              || not (link.start.connector.id == wf_output.connector_id),
          links',
        ))

-- the body of the loop: whether the output goes to `remove_wf_outputs`, and the links after it
unfoldable pub output_is_removed :
    Dict (ℕ × ℕ) OperatorOutput → WorkflowContentOutput → List Link → Result (Bool × List Link)
unfolding wf_output_unnecessary named_wf_output_unnecessary
output_is_removed outputs wf_output links =
    if wf_output_unnecessary wf_output outputs (initialize_links_by_start_id_tuple_dict links)
    then ok (true, links)
    else if is_nameless wf_output.name
    then ok (false, links)
    else ok (
        named_wf_output_unnecessary wf_output
          (get (none, wf_output.id) (initialize_link_by_end_id_tuple_dict links)) links)

unfoldable pub clean_up_workflow_content_outputs :
    List Operator
    → List Link
    → List WorkflowContentOutput
    → Result (List WorkflowContentOutput × List Link)
unfolding output_is_removed collect_adjusting
clean_up_workflow_content_outputs operators links outputs = do
  removed ←
      collect_adjusting (output_is_removed (initialize_operator_output_by_id_tuple_dict operators))
        outputs links
  kept ← or_not_in_list (remove_all removed.0 outputs)
  ok (kept, removed.1)

abbrev pub output_slots : List Operator → List (Operator × OperatorOutput)
output_slots operators = flat_map (λ op. map (λ o. (op, o)) op.outputs) operators

unfoldable pub known_outputs : List WorkflowContentOutput → Dict (ℕ × ℕ) WorkflowContentIo
known_outputs outputs = from_pairs (map (λ o. ((o.operator_id, o.connector_id), o)) outputs)

-- an output without a name, its other fields at their defaults
abbrev pub unnamed_output : ℕ → Operator → OperatorOutput → WorkflowContentOutput
unnamed_output id operator output = record {
  connector = record { id = id; name = none; data_type = output.data_type; position = origin };
  operator_id = operator.id;
  connector_id = output.id;
  operator_name = operator.name;
  connector_name = output.name;
}

-- no link starts at the operator output, or one of them leads to a workflow output
abbrev pub leads_out : Option (List Link) → Bool
leads_out none = true
leads_out (some links) = any (λ link. link.end.operator == none) links

abbrev pub output_is_missing :
    Dict (ℕ × ℕ) WorkflowContentIo
    → Dict (Option ℕ × ℕ) (List Link)
    → Operator × OperatorOutput
    → Bool
output_is_missing known links_by_start (operator, output) =
    elim (get (operator.id, output.id) known) [
      | none ↦ leads_out (get (some operator.id, output.id) links_by_start)
      | some io ↦ false
    ]

module _ (uuid4 : ℕ → ℕ) where
  unfoldable pub add_outputs :
      Dict (ℕ × ℕ) WorkflowContentIo
      → Dict (Option ℕ × ℕ) (List Link)
      → ℕ
      → List (Operator × OperatorOutput)
      → List WorkflowContentOutput
  add_outputs known links_by_start n [] = []
  add_outputs known links_by_start n (slot ∷ slots) =
      let missing = output_is_missing known links_by_start slot in
      let rest = add_outputs known links_by_start (if missing then n + 1 else n) slots in
      if missing then unnamed_output (uuid4 n) slot.0 slot.1 ∷ rest else rest

  unfoldable pub add_workflow_content_outputs_for_unlinked_operator_outputs :
      List Operator → List Link → ℕ → List WorkflowContentOutput → List WorkflowContentOutput
  unfolding add_outputs known_outputs
  add_workflow_content_outputs_for_unlinked_operator_outputs operators links n outputs =
      outputs
      ++ add_outputs (known_outputs outputs) (initialize_links_by_start_id_tuple_dict links) n
          (output_slots operators)
