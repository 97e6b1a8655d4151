-- ===== src/Content/Outer.antt =====
-- `WorkflowContent.clean_up_outer_links`: links from an input or constant of the workflow and links
-- to an output of the workflow go if that is missing or has no name.
pub mod Named
use hetida_designer.Prelude.{
  ℕ, Bool, true, false, ◌||◌, Option, none, some, List, map, Dict, get, from_pairs, update,
  remove_all, filter_by, nat_eq, if◌then◌else◌, Result, ok,
}
use hetida_designer.Io.{
  WorkflowContentIo, WorkflowContentOutput, WorkflowContentDynamicInput,
  WorkflowContentConstantInput, is_nameless,
}
use hetida_designer.Link.{Link, link_eq}
use hetida_designer.Content.Links.{or_not_in_list}

-- A value of the dictionary of inputs: its class and its name matter.
pub data WorkflowInput : Type 0 where
  dynamic : WorkflowContentDynamicInput → WorkflowInput
  constant : WorkflowContentConstantInput → WorkflowInput

unfoldable pub workflow_content_input_by_id :
    List WorkflowContentDynamicInput → List WorkflowContentConstantInput → Dict ℕ WorkflowInput
workflow_content_input_by_id inputs constants =
    update (from_pairs (map (λ i. (i.id, dynamic i)) inputs))
      (map (λ c. (c.id, constant c)) constants)

unfoldable pub workflow_content_output_by_id :
    List WorkflowContentOutput → Dict ℕ WorkflowContentOutput
workflow_content_output_by_id outputs = from_pairs (map (λ o. (o.id, o)) outputs)

abbrev pub input_unfit : Option WorkflowInput → Bool
input_unfit none = true
input_unfit (some (dynamic i)) = is_nameless i.name
input_unfit (some (constant c)) = false

unfoldable pub outer_link_invalid_due_to_workflow_input : Link → Dict ℕ WorkflowInput → Bool
outer_link_invalid_due_to_workflow_input link inputs =
    input_unfit (get link.start.connector.id inputs)

abbrev pub output_unfit : Option WorkflowContentOutput → Bool
output_unfit none = true
output_unfit (some o) = is_nameless o.name

unfoldable pub outer_link_invalid_due_to_workflow_output :
    Link → Dict ℕ WorkflowContentOutput → Bool
outer_link_invalid_due_to_workflow_output link outputs =
    output_unfit (get link.end.connector.id outputs)

abbrev pub only_outer : Option ℕ → Bool → Bool
only_outer none b = b
only_outer (some op) b = false

-- the body of the loop: whether the link goes to `remove_links`
unfoldable pub outer_link_is_removed :
    Dict ℕ WorkflowInput → Dict ℕ WorkflowContentOutput → Link → Bool
unfolding outer_link_invalid_due_to_workflow_input outer_link_invalid_due_to_workflow_output
outer_link_is_removed inputs outputs link =
    if only_outer link.start.operator (outer_link_invalid_due_to_workflow_input link inputs)
    then true
    else only_outer link.end.operator (outer_link_invalid_due_to_workflow_output link outputs)

unfoldable pub clean_up_outer_links :
    List WorkflowContentDynamicInput
    → List WorkflowContentConstantInput
    → List WorkflowContentOutput
    → List Link
    → Result (List Link)
unfolding outer_link_is_removed workflow_content_input_by_id workflow_content_output_by_id
clean_up_outer_links inputs constants outputs links = or_not_in_list (
    remove_all
      (filter_by
        (outer_link_is_removed (workflow_content_input_by_id inputs constants)
          (workflow_content_output_by_id outputs))
        links)
      links)
