-- ===== src/Structure/Valid.antt =====
-- Which complete structures the validators accept, all of them together.
use hetida_designer.Prelude.{
  ◌≡◌, ◌≢◌, ◌↔◌, refl, Option, none, some, List, [], ◌∷◌, Memᴰ, map, Text, text_eq, any-==_iff,
  IsNodup, check_unseen_iff, check_all, check_all_iff, require_iff, >>-ok_iff, Result, ok, ◌>>=◌,
  duplicate_key_id, duplicate_parent_id,
}
use hetida_designer.Structure.Entities.{
  StructureServiceElementType, StructureServiceThingNode, StructureServiceSource,
  StructureServiceSink,
}
use hetida_designer.Structure.Complete.{
  CompleteStructure, external_ids, key_id_pair, pair_eq, check_element_types_not_empty,
  check_parent, validate_root_nodes_parent_ids_are_none, check_for_duplicate_key_and_id_pairs,
  check_parent_ids, check_for_duplicate_ids_in_thing_node_external_ids, check_references,
  validate_source_sink_references, validate_complete_structure,
}
use hetida_designer.Structure.Hierarchy.{Descends, HasUniqueIds}
use hetida_designer.Structure.Hierarchy.Keys.{check_stakeholder_key_consistency_iff}
use hetida_designer.Structure.Hierarchy.Circular.{Ends, HasIds, check_for_circular_reference_iff}

-- The list is there, repeats no id, and has ids of thing nodes only.
abbrev pub Refers : List Text → Option (List Text) → Type 0
Refers node_ids given =
    (ids : List Text) × (given ≡ some ids)
    × IsNodup ids
    × ((id : Text) → Memᴰ id ids → Memᴰ id node_ids)

pub record IsValidStructure (s : CompleteStructure) : Type 0 where
  pub has_types : s.element_types ≢ []
  pub parents :
      (n : StructureServiceThingNode)
      → Memᴰ n s.thing_nodes
      → (id : Text) → n.parent_external_node_id ≡ some id
      → Memᴰ id (external_ids s.thing_nodes)
  pub type_keys : IsNodup (map (λ e. key_id_pair e.stakeholder_key e.external_id) s.element_types)
  pub node_keys : IsNodup (map (λ e. key_id_pair e.stakeholder_key e.external_id) s.thing_nodes)
  pub source_keys : IsNodup (map (λ e. key_id_pair e.stakeholder_key e.external_id) s.sources)
  pub sink_keys : IsNodup (map (λ e. key_id_pair e.stakeholder_key e.external_id) s.sinks)
  pub sources_refer :
      (source : StructureServiceSource)
      → Memᴰ source s.sources
      → Refers (external_ids s.thing_nodes) source.thing_node_external_ids
  pub sinks_refer :
      (sink : StructureServiceSink)
      → Memᴰ sink s.sinks
      → Refers (external_ids s.thing_nodes) sink.thing_node_external_ids
  pub stakeholders :
      (root n : StructureServiceThingNode)
      → Memᴰ root s.thing_nodes
      → root.parent_external_node_id ≡ none
      → Descends s.thing_nodes root n
      → n.stakeholder_key ≡ root.stakeholder_key
  pub acyclic : (n : StructureServiceThingNode) → Memᴰ n s.thing_nodes → Ends s.thing_nodes n

check_parent_iff :
    (ids : List Text) (parent : Option Text)
    → (check_parent ids parent ≡ ok tt) ↔ ((id : Text) → parent ≡ some id → Memᴰ id ids)
check_parent_iff ids none = (λ h id e. cc, λ h. refl)
check_parent_iff ids (some p) = (
  λ h id e. rw (← found p id e) ((any-==_iff p ids).0 ((require_iff _ _).0 h)),
  λ h. (require_iff _ _).1 ((any-==_iff p ids).1 (h p refl)),
)
  where
    found : (p id : Text) → some p ≡ some id → p ≡ id
    found p id e = cc

references_iff :
    (node_ids : List Text) (given : Option (List Text))
    → ((check_parent_ids given ≡ ok tt) × (check_references node_ids given ≡ ok tt))
      ↔ Refers node_ids given
references_iff node_ids none = (λ h. cc (h.0), λ h. (let (ids, same, nodup, rest) = h in cc same))
references_iff node_ids (some ids) = (
  λ h. (
    ids,
    refl,
    (check_unseen_iff duplicate_parent_id ids).0 (h.0),
    λ id m. (any-==_iff id node_ids).0 ((require_iff _ _).0 ((check_all_iff _ _).0 (h.1) id m)),
  ),
  λ h. (let (given, same, nodup, known) = h in go given same nodup known),
)
  where
    injected : (given : List Text) → some ids ≡ some given → ids ≡ given
    injected given e = cc

    go :
        (given : List Text)
        → some ids ≡ some given
        → IsNodup given
        → ((id : Text) → Memᴰ id given → Memᴰ id node_ids)
        → (check_parent_ids (some ids) ≡ ok tt) × (check_references node_ids (some ids) ≡ ok tt)
    go given same nodup known = rw (injected given same) (
      (check_unseen_iff duplicate_parent_id given).1 nodup,
      (check_all_iff _ _).1 (λ id m. (require_iff _ _).1 ((any-==_iff id node_ids).1 (known id m))),
    )

types_iff :
    (s : CompleteStructure) (next : Result CompleteStructure)
    → ((check_element_types_not_empty s.element_types >>= λ v. next) ≡ ok s)
      ↔ ((s.element_types ≢ []) × (next ≡ ok s))
unfolding check_element_types_not_empty
types_iff s next = go s.element_types
  where
    go :
        (types : List StructureServiceElementType)
        → ((check_element_types_not_empty types >>= λ v. next) ≡ ok s)
          ↔ ((types ≢ []) × (next ≡ ok s))
    go [] = (λ h. cc, λ h. absurd ((h.0) refl))
    go (t ∷ ts) = (λ h. ((λ e. cc), h), λ h. h.1)

parents_iff :
    (s : CompleteStructure)
    → (validate_root_nodes_parent_ids_are_none s ≡ ok tt) ↔ (
        (n : StructureServiceThingNode)
        → Memᴰ n s.thing_nodes
        → (id : Text) → n.parent_external_node_id ≡ some id
        → Memᴰ id (external_ids s.thing_nodes))
unfolding validate_root_nodes_parent_ids_are_none
parents_iff s = (
  λ h n m. (check_parent_iff ids n.parent_external_node_id).0 ((check_all_iff _ _).0 h n m),
  λ h. (check_all_iff _ _).1 λ n m. (check_parent_iff ids n.parent_external_node_id).1 (h n m),
)
  where
    ids : List Text
    ids = external_ids s.thing_nodes

pairs_iff :
    (s : CompleteStructure)
    → (check_for_duplicate_key_and_id_pairs s ≡ ok tt) ↔ (
        IsNodup (map (λ e. key_id_pair e.stakeholder_key e.external_id) s.element_types)
        × IsNodup (map (λ e. key_id_pair e.stakeholder_key e.external_id) s.thing_nodes)
        × IsNodup (map (λ e. key_id_pair e.stakeholder_key e.external_id) s.sources)
        × IsNodup (map (λ e. key_id_pair e.stakeholder_key e.external_id) s.sinks))
unfolding check_for_duplicate_key_and_id_pairs
pairs_iff s = (
  λ h.
      let (types, h1) = (>>-ok_iff _ _).0 h in
      let (nodes, h2) = (>>-ok_iff _ _).0 h1 in
      let (sources, sinks) = (>>-ok_iff _ _).0 h2 in
      (
        (check_unseen_iff duplicate_key_id _).0 types,
        (check_unseen_iff duplicate_key_id _).0 nodes,
        (check_unseen_iff duplicate_key_id _).0 sources,
        (check_unseen_iff duplicate_key_id _).0 sinks,
      ),
  λ h.
      let (types, nodes, sources, sinks) = h in
      (>>-ok_iff _ _).1 (
        (check_unseen_iff duplicate_key_id _).1 types,
        (>>-ok_iff _ _).1 (
          (check_unseen_iff duplicate_key_id _).1 nodes,
          (>>-ok_iff _ _).1 (
            (check_unseen_iff duplicate_key_id _).1 sources,
            (check_unseen_iff duplicate_key_id _).1 sinks,
          ),
        ),
      ),
)

-- Two loops over one list, and the reading of both.
loops_iff {ℓ} :
    {A : Type ℓ} (node_ids : List Text) (given : A → Option (List Text)) (xs : List A)
    → ((check_all (λ x. check_parent_ids (given x)) xs ≡ ok tt)
        × (check_all (λ x. check_references node_ids (given x)) xs ≡ ok tt))
      ↔ ((x : A) → Memᴰ x xs → Refers node_ids (given x))
loops_iff node_ids given xs = (
  λ h x m. (references_iff node_ids (given x)).0 (
    (check_all_iff (λ x. check_parent_ids (given x)) xs).0 (h.0) x m,
    (check_all_iff (λ x. check_references node_ids (given x)) xs).0 (h.1) x m,
  ),
  λ h. (
    (check_all_iff (λ x. check_parent_ids (given x)) xs).1
        (λ x m. ((references_iff node_ids (given x)).1 (h x m)).0),
    (check_all_iff (λ x. check_references node_ids (given x)) xs).1
        (λ x m. ((references_iff node_ids (given x)).1 (h x m)).1),
  ),
)

sources_iff :
    (s : CompleteStructure)
    → ((check_all (λ x. check_parent_ids x.thing_node_external_ids) s.sources ≡ ok tt)
        × (check_all
              (λ x. check_references (external_ids s.thing_nodes) x.thing_node_external_ids)
              s.sources
            ≡ ok tt))
      ↔ ((x : StructureServiceSource)
          → Memᴰ x s.sources
          → Refers (external_ids s.thing_nodes) x.thing_node_external_ids)
sources_iff s = loops_iff (external_ids s.thing_nodes) (λ x. x.thing_node_external_ids) s.sources

sinks_iff :
    (s : CompleteStructure)
    → ((check_all (λ x. check_parent_ids x.thing_node_external_ids) s.sinks ≡ ok tt)
        × (check_all
              (λ x. check_references (external_ids s.thing_nodes) x.thing_node_external_ids)
              s.sinks
            ≡ ok tt))
      ↔ ((x : StructureServiceSink)
          → Memᴰ x s.sinks
          → Refers (external_ids s.thing_nodes) x.thing_node_external_ids)
sinks_iff s = loops_iff (external_ids s.thing_nodes) (λ x. x.thing_node_external_ids) s.sinks

-- Both checks on the lists of sources and sinks.
Refers-iff :
    (s : CompleteStructure)
    → ((check_for_duplicate_ids_in_thing_node_external_ids s ≡ ok tt)
        × (validate_source_sink_references s ≡ ok tt))
      ↔ (((x : StructureServiceSource)
            → Memᴰ x s.sources
            → Refers (external_ids s.thing_nodes) x.thing_node_external_ids)
          × ((x : StructureServiceSink)
              → Memᴰ x s.sinks
              → Refers (external_ids s.thing_nodes) x.thing_node_external_ids))
unfolding check_for_duplicate_ids_in_thing_node_external_ids validate_source_sink_references
Refers-iff s = (
  λ h.
      let (l1, l2) = (>>-ok_iff _ _).0 (h.0) in
      let (f1, f2) = (>>-ok_iff _ _).0 (h.1) in
      ((sources_iff s).0 (l1, f1), (sinks_iff s).0 (l2, f2)),
  λ h.
      let (l1, f1) = (sources_iff s).1 (h.0) in
      let (l2, f2) = (sinks_iff s).1 (h.1) in
      ((>>-ok_iff _ _).1 (l1, l2), (>>-ok_iff _ _).1 (f1, f2)),
)

-- Where the thing nodes have external ids, none of them shared, the validators accept the structure
-- exactly if it has an element type, every parent is one of its nodes, no key and id pair repeats in a
-- list, sources and sinks have lists of distinct existing nodes, descendants have the stakeholder key
-- of their root, and every chain of parents ends.
pub validate_complete_structure_iff :
    (s : CompleteStructure)
    → HasUniqueIds s.thing_nodes
    → HasIds s.thing_nodes
    → (validate_complete_structure s ≡ ok s) ↔ IsValidStructure s
unfolding validate_complete_structure
validate_complete_structure_iff s unique ids = (
  λ run.
      let (types, r1) = (types_iff s _).0 run in
      let (roots, r2) = (>>-ok_iff _ _).0 r1 in
      let (pairs, r3) = (>>-ok_iff _ _).0 r2 in
      let (lists, r4) = (>>-ok_iff _ _).0 r3 in
      let (keys, r5) = (>>-ok_iff _ _).0 r4 in
      let (cycles, r6) = (>>-ok_iff _ _).0 r5 in
      let (refs, r7) = (>>-ok_iff _ _).0 r6 in
      let (k1, k2, k3, k4) = (pairs_iff s).0 pairs in
      let (sources, sinks) = (Refers-iff s).0 (lists, refs) in
      record {
        has_types = types;
        parents = (parents_iff s).0 roots;
        type_keys = k1;
        node_keys = k2;
        source_keys = k3;
        sink_keys = k4;
        sources_refer = sources;
        sinks_refer = sinks;
        stakeholders = (check_stakeholder_key_consistency_iff s unique).0 keys;
        acyclic = (check_for_circular_reference_iff s unique ids).0 cycles;
      },
  λ v.
      let (lists, refs) = (Refers-iff s).1 (v.sources_refer, v.sinks_refer) in
      (types_iff s _).1 (
        v.has_types,
        (>>-ok_iff _ _).1 (
          (parents_iff s).1 v.parents,
          (>>-ok_iff _ _).1 (
            (pairs_iff s).1 (v.type_keys, v.node_keys, v.source_keys, v.sink_keys),
            (>>-ok_iff _ _).1 (
              lists,
              (>>-ok_iff _ _).1 (
                (check_stakeholder_key_consistency_iff s unique).1 v.stakeholders,
                (>>-ok_iff _ _).1 (
                  (check_for_circular_reference_iff s unique ids).1 v.acyclic,
                  (>>-ok_iff _ _).1 (refs, refl),
                ),
              ),
            ),
          ),
        ),
      ),
)
