-- ===== src/Structure/Hierarchy/Circular.antt =====
-- On `check_for_circular_reference`: a visit returns where the chain of parents ends.
use mathlib.Core.List.Memᴰ
use hetida_designer.Prelude.{
  ℕ, zero, suc, ◌<◌, ◌≡◌, ◌≢◌, ◌↔◌, ◌⊎◌, inl, inr, refl, sym, ap, ◌∙◌, Bool, false, not, Option,
  none, some, List, [], ◌∷◌, Memᴰ, map, length, filter_by, filter_by_le, length-filter_by_lt,
  Bool-cases, Option-cases, any-==_iff, Text, text_eq, ==_self, arith, ok, require, >>-ok_iff,
  check_all_iff, circular_reference, get, get-from_pairs, get-from_pairs_of_Memᴰ,
}
use hetida_designer.Structure.Entities.{StructureServiceThingNode}
use hetida_designer.Structure.Complete.{
  CompleteStructure, member, nodes_by_external_id, parent_in, visit_parent, visit,
  check_for_circular_reference,
}
use hetida_designer.Structure.Hierarchy.{HasUniqueIds, HasUniqueIds-same}

abbrev pub IsParent :
    List StructureServiceThingNode → StructureServiceThingNode → StructureServiceThingNode → Type 0
IsParent nodes n m = Memᴰ m nodes × (n.parent_external_node_id ≡ some m.external_id)

-- From the node, every chain of parents ends.
pub data Ends (nodes : List StructureServiceThingNode) : StructureServiceThingNode → Type 0 where
  ends :
      {n : StructureServiceThingNode}
      → ((m : StructureServiceThingNode) → IsParent nodes n m → Ends nodes m)
      → Ends nodes n

-- A chain of one parent or more leads from `y` to the node.
data Above (nodes : List StructureServiceThingNode) (y : StructureServiceThingNode)
    : StructureServiceThingNode → Type 0 where
  parent_of : {m : StructureServiceThingNode} → IsParent nodes y m → Above nodes y m
  further :
      {m n : StructureServiceThingNode} → Above nodes y m → IsParent nodes m n → Above nodes y n

abbrev pub HasIds : List StructureServiceThingNode → Type 0
HasIds nodes = (n : StructureServiceThingNode) → Memᴰ n nodes → n.external_id ≢ []

Above-cases :
    {nodes : List StructureServiceThingNode} {y n : StructureServiceThingNode}
    → Above nodes y n
    → (m : StructureServiceThingNode) × IsParent nodes y m × ((m ≡ n) ⊎ Above nodes m n)
Above-cases (Above.parent_of {m} p) = (m, p, inl refl)
Above-cases {nodes} (Above.further {n} a p) =
    let (m, q, last) = Above-cases a in
    elim last [
      | inl same ↦ (m, q, inr (Above.parent_of (rw (← same) at p)))
      | inr b ↦ (m, q, inr (Above.further b p))
    ]

Ends-Above :
    {nodes : List StructureServiceThingNode} {n : StructureServiceThingNode}
    → Ends nodes n
    → ¬ Above nodes n n
Ends-Above (Ends.ends h) a =
    let (m, p, last) = Above-cases a in
    elim last [
      | inl same ↦ Ends-Above (h m p) (Above.parent_of (rw (← same) at p))
      | inr b ↦ Ends-Above (h m p) (Above.further b p)
    ]

module _ (nodes : List StructureServiceThingNode) (unique : HasUniqueIds nodes)
    (ids : HasIds nodes) where
  parent_in-Memᴰ :
      (p : Option Text) {m : StructureServiceThingNode}
      → parent_in (nodes_by_external_id nodes) p ≡ some m
      → Memᴰ m nodes × (p ≡ some m.external_id)
  unfolding parent_in
  parent_in-Memᴰ none h = cc
  parent_in-Memᴰ (some []) h = cc
  parent_in-Memᴰ (some (c ∷ cs)) {m} h =
      let (node, i, same) =
        Memᴰ.of_map (λ (n : StructureServiceThingNode). (n.external_id, n)) nodes
          (get-from_pairs (map (λ n. (n.external_id, n)) nodes) (c ∷ cs) h) in
      go node i (ap (λ pair. pair.0) same) (ap (λ pair. pair.1) same)
    where
      go :
          (node : StructureServiceThingNode)
          → Memᴰ node nodes
          → node.external_id ≡ c ∷ cs
          → node ≡ m
          → Memᴰ m nodes × (some (c ∷ cs) ≡ some m.external_id)
      go node i id same = (rw same at i, ap some (sym id ∙ ap (λ n. n.external_id) same))

  found_parent :
      (id : Text) {m : StructureServiceThingNode}
      → Memᴰ m nodes
      → id ≡ m.external_id
      → parent_in (nodes_by_external_id nodes) (some id) ≡ some m
  unfolding parent_in
  found_parent [] {m} i same = absurd (ids m i (sym same))
  found_parent (c ∷ cs) {m} i same =
      let (u, found) =
        get-from_pairs_of_Memᴰ {k = c ∷ cs} {v = m}
          (rw same (Memᴰ.map (λ (n : StructureServiceThingNode). (n.external_id, n)) i)) in
      go u found (parent_in-Memᴰ (some (c ∷ cs)) found)
    where
      go :
          (u : StructureServiceThingNode)
          → get (c ∷ cs) (nodes_by_external_id nodes) ≡ some u
          → Memᴰ u nodes × (some (c ∷ cs) ≡ some u.external_id)
          → get (c ∷ cs) (nodes_by_external_id nodes) ≡ some m
      go u found (j, key) = found ∙ ap some (HasUniqueIds-same nodes unique j i cc)

  parent_in_iff :
      (n m : StructureServiceThingNode)
      → (parent_in (nodes_by_external_id nodes) n.parent_external_node_id ≡ some m)
        ↔ IsParent nodes n m
  parent_in_iff n m = (
    parent_in-Memᴰ n.parent_external_node_id,
    λ p. rw (p.1) (found_parent m.external_id p.0 refl),
  )

  -- The ids in the set belong to nodes that lead to this one.
  abbrev IsTrail : StructureServiceThingNode → List Text → Type 0
  IsTrail n visited =
      (id : Text)
      → Memᴰ id visited
      → (y : StructureServiceThingNode) × Memᴰ y nodes × (y.external_id ≡ id) × Above nodes y n

  IsTrail-fresh :
      {n : StructureServiceThingNode} (visited : List Text)
      → Memᴰ n nodes
      → Ends nodes n
      → IsTrail n visited
      → member n.external_id visited ≡ false
  IsTrail-fresh {n} visited i e trail = elim (Bool-cases (member n.external_id visited)) [
    | inl old ↦
        let (y, j, same, above) = trail n.external_id ((any-==_iff n.external_id visited).0 old) in
        absurd (Ends-Above e (rw (HasUniqueIds-same nodes unique j i same) at above))
    | inr new ↦ new
  ]

  IsTrail-next :
      {n m : StructureServiceThingNode} (visited : List Text)
      → Memᴰ n nodes
      → IsParent nodes n m
      → IsTrail n visited
      → IsTrail m (n.external_id ∷ visited)
  IsTrail-next {n} visited i p trail id h = elim (Memᴰ.cases_cons h) [
    | inl same ↦ (n, i, sym same, Above.parent_of p)
    | inr old ↦ let (y, j, same, above) = trail id old in (y, j, same, Above.further above p)
  ]

  abbrev is_new : List Text → StructureServiceThingNode → Bool
  is_new visited node = not (member node.external_id visited)

  is_new_lt :
      {n : StructureServiceThingNode} (visited : List Text)
      → Memᴰ n nodes
      → member n.external_id visited ≡ false
      → length (filter_by (is_new (n.external_id ∷ visited)) nodes)
        < length (filter_by (is_new visited) nodes)
  is_new_lt {n} visited i new =
      length-filter_by_lt (is_new visited) (is_new (n.external_id ∷ visited)) i
        (λ x h. ground arith) (rw new refl) (rw (==_self n.external_id) refl)

  Ends-visit :
      (fuel : ℕ) {n : StructureServiceThingNode} (visited : List Text)
      → Memᴰ n nodes
      → Ends nodes n
      → IsTrail n visited
      → length (filter_by (is_new visited) nodes) < fuel
      → visit fuel (nodes_by_external_id nodes) visited n ≡ ok tt
  unfolding visit
  Ends-visit zero visited i e trail enough = absurd (omega arith)
  Ends-visit (suc fuel) {n} visited i (Ends.ends h) trail enough =
      let new = IsTrail-fresh visited i (Ends.ends h) trail in
      elim (Option-cases (parent_in (nodes_by_external_id nodes) n.parent_external_node_id)) [
        | inl root ↦ rw (visit, new, root) refl
        | inr (m, found) ↦
            let p = (parent_in_iff n m).0 found in
            rw (visit, new, found)
              (Ends-visit fuel (n.external_id ∷ visited) (p.0) (h m p)
                (IsTrail-next visited i p trail) (omega (arith, is_new_lt visited i new)))
      ]

  visit-Ends :
      (fuel : ℕ) (n : StructureServiceThingNode) (visited : List Text)
      → visit fuel (nodes_by_external_id nodes) visited n ≡ ok tt
      → Ends nodes n
  unfolding visit
  visit-Ends zero n visited run = cc
  visit-Ends (suc fuel) n visited run = Ends.ends λ m p.
      visit-Ends fuel m (n.external_id ∷ visited) (
        rw ((parent_in_iff n m).1 p) at
          ((>>-ok_iff (require (not (member n.external_id visited)) circular_reference) (
              visit_parent (visit fuel (nodes_by_external_id nodes) (n.external_id ∷ visited))
                (parent_in (nodes_by_external_id nodes) n.parent_external_node_id))).0
            run).1)

-- Where the nodes have external ids, none of them shared, the check passes exactly if from every node
-- the chain of parents ends.
pub check_for_circular_reference_iff :
    (s : CompleteStructure)
    → HasUniqueIds s.thing_nodes
    → HasIds s.thing_nodes
    → (check_for_circular_reference s ≡ ok tt)
      ↔ ((n : StructureServiceThingNode) → Memᴰ n s.thing_nodes → Ends s.thing_nodes n)
unfolding check_for_circular_reference
check_for_circular_reference_iff s unique ids = (
  λ run n i.
      visit-Ends s.thing_nodes unique ids (suc (length s.thing_nodes)) n []
        ((check_all_iff _ _).0 run n i),
  λ all. (check_all_iff _ _).1 λ n i.
      Ends-visit s.thing_nodes unique ids (suc (length s.thing_nodes)) [] i (all n i)
        (λ id m. elim m [ ])
        (omega (arith, filter_by_le (is_new s.thing_nodes unique ids []) s.thing_nodes)),
)
