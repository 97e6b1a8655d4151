-- ===== src/Examples/Content.antt =====
-- Examples for the validators of `WorkflowContent`.
use mathlib.Core.List.{flat_map}
use hetida_designer.Prelude.{
  ℕ, ◌+◌, ◌≡◌, ◌≤◌, ◌↔◌, ◌⊎◌, refl, none, some, List, [], ◌∷◌, map, Memᴰ, get, length, ok, err,
  loop_in_links, key_eq, arith, put, delete, from_pairs, ℕ_discrete, Key-discrete, Name-discrete,
  Text-discrete,
}
use hetida_designer.Io.{
  WorkflowContentDynamicInput, DataType-discrete, DynamicInput-discrete, Position-discrete,
  ℤ-discrete, matches_connector, matches_io, matches_operator_io,
}
use hetida_designer.Link.{Link, Link-discrete, Operator-discrete}
use hetida_designer.Content.Dicts.{
  pair_eq, Pair-discrete, initialize_operator_output_by_id_tuple_dict,
  initialize_operator_input_by_id_tuple_dict, initialize_links_by_start_id_tuple_dict,
  initialize_link_by_end_id_tuple_dict,
}
use hetida_designer.Content.Dicts.Keys.{
  nonempty, starting_at, last_ending_at, get-links_by_start, get-link_by_end,
}
use hetida_designer.Content.Links.{link_connectors_match_operator_ios}
use hetida_designer.Content.Links.Match.{StartMatches, EndMatches, link_connectors-keeps_matching}
use hetida_designer.Content.Acyclic.{edge_of, links_acyclic_directed_graph}
use hetida_designer.Content.Acyclic.Walk.{Walk, IsAcyclic}
use hetida_designer.Content.Acyclic.Decision.{links_acyclic_directed_graph_lem}
use hetida_designer.Content.Moved.{AreMoved}
use hetida_designer.Content.Inputs.{
  named_wf_input_unnecessary, clean_up_workflow_content_inputs,
  add_workflow_content_inputs_for_unlinked_operator_inputs,
}
use hetida_designer.Content.Inputs.Keep.{IsNecessary, clean_up_inputs-IsNecessary}
use hetida_designer.Content.Inputs.Returns.{clean_up_inputs-returns}
use hetida_designer.Content.Inputs.Cover.{Feeds, add_inputs-Feeds}
use hetida_designer.Content.Outputs.{add_workflow_content_outputs_for_unlinked_operator_outputs}
use hetida_designer.Content.Outputs.Cover.{Leads, add_outputs-Leads}
use hetida_designer.Content.Outer.{clean_up_outer_links}
use hetida_designer.Content.Outer.Named.{HasSource, HasTarget, clean_up_outer_links-named}
use hetida_designer.Examples.Data.{
  scale, connector, operators, add, operator_input_at, links, link_between, link_back,
  link_dangling, input_a, input_stale, input_moved, output_b,
}

accepts_path : links_acyclic_directed_graph links ≡ ok links
unfolding links_acyclic_directed_graph put get delete ℕ_discrete Pair-discrete
accepts_path = refl

refuses_loop : links_acyclic_directed_graph (link_between ∷ link_back ∷ []) ≡ err loop_in_links
unfolding links_acyclic_directed_graph put get delete ℕ_discrete Pair-discrete
refuses_loop = refl

removes_dangling : link_connectors_match_operator_ios operators (link_dangling ∷ links) ≡ ok links
unfolding link_connectors_match_operator_ios put get from_pairs flat_map ℕ_discrete Pair-discrete
    Name-discrete DataType-discrete Link-discrete matches_connector ℤ-discrete
removes_dangling = refl

links_acyclic_directed_graph_lem_example :
    ((links_acyclic_directed_graph (link_between ∷ link_back ∷ [])
        ≡ ok (link_between ∷ link_back ∷ []))
      × IsAcyclic (map edge_of (link_between ∷ link_back ∷ [])))
    ⊎ ((links_acyclic_directed_graph (link_between ∷ link_back ∷ []) ≡ err loop_in_links)
        × ((v : ℕ) × Walk (map edge_of (link_between ∷ link_back ∷ [])) v v))
links_acyclic_directed_graph_lem_example =
    links_acyclic_directed_graph_lem (link_between ∷ link_back ∷ [])

link_connectors-keeps_matching_example :
    (kept : List Link) × (link_connectors_match_operator_ios operators (link_dangling ∷ links)
      ≡ ok kept)
    × ((link : Link)
        → Memᴰ link kept ↔ (
            Memᴰ link (link_dangling ∷ links)
            × StartMatches
                (initialize_operator_output_by_id_tuple_dict operators)
                link.start.operator
                link
            × EndMatches
                (initialize_operator_input_by_id_tuple_dict operators)
                link.end.operator
                link))
link_connectors-keeps_matching_example =
    link_connectors-keeps_matching operators (link_dangling ∷ links)

get-links_by_start_example :
    get (some 1, 12) (initialize_links_by_start_id_tuple_dict links)
    ≡ nonempty (starting_at (some 1, 12) links)
get-links_by_start_example = get-links_by_start (some 1, 12) links

get-link_by_end_example :
    get (some 1, 11) (initialize_link_by_end_id_tuple_dict links)
    ≡ last_ending_at (some 1, 11) none links
get-link_by_end_example = get-link_by_end (some 1, 11) links

keeps_named :
    clean_up_workflow_content_inputs operators links (input_a ∷ input_stale ∷ [])
    ≡ ok (input_a ∷ [], links)
unfolding clean_up_workflow_content_inputs put get from_pairs flat_map ℕ_discrete Pair-discrete
    Key-discrete Name-discrete DataType-discrete Operator-discrete DynamicInput-discrete
    Position-discrete initialize_operator_input_by_id_tuple_dict matches_operator_io
    initialize_link_by_end_id_tuple_dict named_wf_input_unnecessary
    initialize_links_by_start_id_tuple_dict matches_io Text-discrete
keeps_named = refl

clean_up_inputs-IsNecessary_example :
    ((x : WorkflowContentDynamicInput)
      → Memᴰ x (input_a ∷ []) ↔ (
          Memᴰ x (input_a ∷ input_stale ∷ [])
          × IsNecessary (initialize_operator_input_by_id_tuple_dict operators) links x))
    × AreMoved links links
clean_up_inputs-IsNecessary_example =
    clean_up_inputs-IsNecessary operators links (input_a ∷ input_stale ∷ []) keeps_named

single :
    (x : WorkflowContentDynamicInput)
    → Memᴰ x (input_moved ∷ [])
    → length (starting_at (none, x.id) links) ≤ 1
unfolding Key-discrete ℕ_discrete
single x (Memᴰ.head e) = rw e (omega arith)
single x (Memᴰ.tail m) = elim m [ ]

clean_up_inputs-returns_example :
    (kept : List WorkflowContentDynamicInput) × (links' : List Link)
    × (clean_up_workflow_content_inputs operators links (input_moved ∷ []) ≡ ok (kept, links'))
    × AreMoved links links'
clean_up_inputs-returns_example = clean_up_inputs-returns operators links (input_moved ∷ []) single

add_inputs-Feeds_example :
    Feeds 1 11
      (add_workflow_content_inputs_for_unlinked_operator_inputs
        (λ n. n + 100)
        operators
        []
        (link_between ∷ [])
        0
        [])
      []
      (link_between ∷ [])
add_inputs-Feeds_example =
    add_inputs-Feeds (λ n. n + 100) operators [] (link_between ∷ []) 0 [] {op = add}
      {i = operator_input_at 11} (Memᴰ.head refl) (Memᴰ.head refl) refl

clean_up_outer_links-named_example :
    (kept : List Link) × (clean_up_outer_links [] [] (output_b ∷ []) links ≡ ok kept)
    × ((l : Link)
        → Memᴰ l kept
        → Memᴰ l links
          × HasSource [] [] l.start.operator l.start.connector.id
          × HasTarget (output_b ∷ []) l.end.operator l.end.connector.id)
    × ((l : Link) (a b : ℕ)
        → Memᴰ l links
        → l.start.operator ≡ some a
        → l.end.operator ≡ some b
        → Memᴰ l kept)
clean_up_outer_links-named_example = clean_up_outer_links-named [] [] (output_b ∷ []) links

add_outputs-Leads_example :
    Leads 2 22
      (add_workflow_content_outputs_for_unlinked_operator_outputs
        (λ n. n + 100)
        operators
        (link_between ∷ [])
        0
        [])
      (link_between ∷ [])
add_outputs-Leads_example =
    add_outputs-Leads (λ n. n + 100) operators (link_between ∷ []) 0 [] {op = scale}
      {o = connector 22 none} (Memᴰ.tail (Memᴰ.head refl)) (Memᴰ.head refl)
