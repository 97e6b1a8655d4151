-- ===== src/Structure/Complete.antt =====
-- `CompleteStructure` and its validators, in the order in which they run: the field's first, then
-- those of the model in the order of the class.
use hetida_designer.Prelude.{
  ℕ, zero, suc, Bool, true, false, not, Option, none, some, List, [], ◌∷◌, map, any, length,
  filter_by, Text, Text-discrete, Dict, get, from_pairs, Eq, ◌==◌, text_eq, name_eq, Result, ok,
  err, ◌>>=◌, ◌>>◌, require, check_all, check_unseen, no_element_types, unknown_parent,
  duplicate_key_id, duplicate_parent_id, inconsistent_stakeholder, circular_reference,
  unknown_thing_node, none_not_iterable, out_of_fuel,
}
use hetida_designer.Structure.Entities.{
  StructureServiceElementType, StructureServiceThingNode, StructureServiceSource,
  StructureServiceSink,
}

unfoldable pub Pair-discrete : Discrete (Text × Text)
Pair-discrete = hlevel Text-discrete

instance abbrev pub pair_eq : Eq (Text × Text)
pair_eq = record { discrete = Pair-discrete }

pub record CompleteStructure : Type 0 where
  pub element_types : List StructureServiceElementType
  pub thing_nodes : List StructureServiceThingNode
  pub sources : List StructureServiceSource
  pub sinks : List StructureServiceSink

abbrev pub member : Text → List Text → Bool
member id ids = any (λ y. y == id) ids

abbrev pub external_ids : List StructureServiceThingNode → List Text
external_ids nodes = map (λ node. node.external_id) nodes

unfoldable pub check_element_types_not_empty :
    List StructureServiceElementType → Result (List StructureServiceElementType)
check_element_types_not_empty [] = err no_element_types
check_element_types_not_empty (v ∷ vs) = ok (v ∷ vs)

abbrev pub check_parent : List Text → Option Text → Result (Unit {0})
check_parent ids none = ok tt
check_parent ids (some id) = require (member id ids) unknown_parent

unfoldable pub validate_root_nodes_parent_ids_are_none : CompleteStructure → Result (Unit {0})
validate_root_nodes_parent_ids_are_none s =
    check_all (λ node. check_parent (external_ids s.thing_nodes) node.parent_external_node_id)
      s.thing_nodes

abbrev pub key_id_pair : Text → Text → Text × Text
key_id_pair key id = (key, id)

unfoldable pub check_for_duplicate_key_and_id_pairs : CompleteStructure → Result (Unit {0})
check_for_duplicate_key_and_id_pairs s = do
  check_unseen duplicate_key_id []
      (map (λ e. key_id_pair e.stakeholder_key e.external_id) s.element_types)
  check_unseen duplicate_key_id []
      (map (λ e. key_id_pair e.stakeholder_key e.external_id) s.thing_nodes)
  check_unseen duplicate_key_id []
      (map (λ e. key_id_pair e.stakeholder_key e.external_id) s.sources)
  check_unseen duplicate_key_id [] (map (λ e. key_id_pair e.stakeholder_key e.external_id) s.sinks)

abbrev pub check_parent_ids : Option (List Text) → Result (Unit {0})
check_parent_ids none = err none_not_iterable
check_parent_ids (some ids) = check_unseen duplicate_parent_id [] ids

unfoldable pub check_for_duplicate_ids_in_thing_node_external_ids :
    CompleteStructure → Result (Unit {0})
check_for_duplicate_ids_in_thing_node_external_ids s = do
  check_all (λ source. check_parent_ids source.thing_node_external_ids) s.sources
  check_all (λ sink. check_parent_ids sink.thing_node_external_ids) s.sinks

abbrev pub children_of : List StructureServiceThingNode → Text → List StructureServiceThingNode
children_of nodes id = filter_by (λ node. node.parent_external_node_id == some id) nodes

-- `stack.extend(nodes)`, with the end of the stack first
abbrev pub extend :
    List StructureServiceThingNode → List StructureServiceThingNode → List StructureServiceThingNode
extend stack [] = stack
extend stack (node ∷ nodes) = extend (node ∷ stack) nodes

-- `while stack:` with the stack's end first. Each node is pushed at most once as a child, and the
-- root once, so that two rounds more than there are nodes reach the empty stack.
unfoldable pub check_hierarchy :
    ℕ
    → List StructureServiceThingNode
    → Text
    → List StructureServiceThingNode
    → List Text
    → Result (Unit {0})
check_hierarchy zero nodes expected stack visited = err out_of_fuel
check_hierarchy (suc fuel) nodes expected [] visited = ok tt
check_hierarchy (suc fuel) nodes expected (node ∷ stack) visited =
    elim (member node.external_id visited) [
      | true ↦ check_hierarchy fuel nodes expected stack visited
      | false ↦
          require (node.stakeholder_key == expected) inconsistent_stakeholder
          >> check_hierarchy fuel nodes expected (extend stack (children_of nodes node.external_id))
              (node.external_id ∷ visited)
    ]

unfoldable pub check_stakeholder_key_consistency : CompleteStructure → Result (Unit {0})
unfolding check_hierarchy
check_stakeholder_key_consistency s =
    check_all
      (λ root.
        check_hierarchy (suc (suc (length s.thing_nodes))) s.thing_nodes root.stakeholder_key
          (root ∷ []) [])
      (filter_by (λ node. node.parent_external_node_id == none) s.thing_nodes)

abbrev pub nodes_by_external_id :
    List StructureServiceThingNode → Dict Text StructureServiceThingNode
nodes_by_external_id nodes = from_pairs (map (λ node. (node.external_id, node)) nodes)

-- The node that `visit` goes on with; the empty text is no id.
unfoldable pub parent_in :
    Dict Text StructureServiceThingNode → Option Text → Option StructureServiceThingNode
unfolding get
parent_in dict none = none
parent_in dict (some []) = none
parent_in dict (some (c ∷ cs)) = get (c ∷ cs) dict

abbrev pub visit_parent :
    (StructureServiceThingNode → Result (Unit {0}))
    → Option StructureServiceThingNode
    → Result (Unit {0})
visit_parent visit_next none = ok tt
visit_parent visit_next (some parent) = visit_next parent

-- A visit removes from the set what it added, so that the set is an argument. Each call adds the id
-- of a node, so that one call more than there are nodes is enough.
unfoldable pub visit :
    ℕ
    → Dict Text StructureServiceThingNode
    → List Text
    → StructureServiceThingNode
    → Result (Unit {0})
unfolding parent_in
visit zero dict visited node = err out_of_fuel
visit (suc fuel) dict visited node = do
  require (not (member node.external_id visited)) circular_reference
  visit_parent (visit fuel dict (node.external_id ∷ visited))
      (parent_in dict node.parent_external_node_id)

unfoldable pub check_for_circular_reference : CompleteStructure → Result (Unit {0})
unfolding visit
check_for_circular_reference s =
    check_all (visit (suc (length s.thing_nodes)) (nodes_by_external_id s.thing_nodes) [])
      s.thing_nodes

abbrev pub check_references : List Text → Option (List Text) → Result (Unit {0})
check_references thing_node_ids none = err none_not_iterable
check_references thing_node_ids (some ids) =
    check_all (λ id. require (member id thing_node_ids) unknown_thing_node) ids

unfoldable pub validate_source_sink_references : CompleteStructure → Result (Unit {0})
validate_source_sink_references s = do
  check_all (λ source. check_references (external_ids s.thing_nodes) source.thing_node_external_ids)
      s.sources
  check_all (λ sink. check_references (external_ids s.thing_nodes) sink.thing_node_external_ids)
      s.sinks

-- All validators of the class, on parts that are built.
unfoldable pub validate_complete_structure : CompleteStructure → Result CompleteStructure
unfolding check_element_types_not_empty validate_root_nodes_parent_ids_are_none
    check_for_duplicate_key_and_id_pairs check_for_duplicate_ids_in_thing_node_external_ids
    check_stakeholder_key_consistency check_for_circular_reference validate_source_sink_references
validate_complete_structure s = do
  types ← check_element_types_not_empty s.element_types
  validate_root_nodes_parent_ids_are_none s
  check_for_duplicate_key_and_id_pairs s
  check_for_duplicate_ids_in_thing_node_external_ids s
  check_stakeholder_key_consistency s
  check_for_circular_reference s
  validate_source_sink_references s
  ok s
