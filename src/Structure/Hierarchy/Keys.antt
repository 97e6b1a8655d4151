-- ===== src/Structure/Hierarchy/Keys.antt =====
-- On `check_stakeholder_key_consistency`: the search on the stack reaches the descendants of a root.
use mathlib.Core.List.Memᴰ
use hetida_designer.Prelude.{
  ℕ, zero, suc, ◌+◌, ◌≤◌, ◌<◌, ◌≡◌, ◌↔◌, ◌⊎◌, inl, inr, refl, sym, Bool, true, false, not, Option,
  none, some, List, [], ◌∷◌, Memᴰ, length, filter_by, filter_by_le, Bool-cases, any-==_iff, Text,
  text_eq, name_eq, ==→≡, ≡→==, ==_self, Memᴰ-filter_by, filter_by-Memᴰ, ◌==◌, arith, ok, >>-ok_iff,
  require_iff, check_all_iff,
}
use hetida_designer.Structure.Entities.{StructureServiceThingNode}
use hetida_designer.Structure.Complete.{
  CompleteStructure, member, children_of, extend, check_hierarchy,
  check_stakeholder_key_consistency,
}
use hetida_designer.Structure.Hierarchy.{
  Descends, Memᴰ-children_of, HasUniqueIds, HasUniqueIds-same, Descends-Memᴰ,
}

extend_iff :
    {n : StructureServiceThingNode} (stack nodes : List StructureServiceThingNode)
    → Memᴰ n (extend stack nodes) ↔ (Memᴰ n stack ⊎ Memᴰ n nodes)
extend_iff stack [] = (λ m. inl m, λ h. elim h [ inl m ↦ m | inr m ↦ elim m [ ] ])
extend_iff {n} stack (c ∷ nodes) = (
  λ m. elim ((extend_iff (c ∷ stack) nodes).0 m) [
    | inl first ↦ elim (Memᴰ.cases_cons first) [
      | inl same ↦ inr (Memᴰ.head same)
      | inr old ↦ inl old
    ]
    | inr later ↦ inr (Memᴰ.tail later)
  ],
  λ h. (extend_iff (c ∷ stack) nodes).1 (elim h [
    | inl old ↦ inl (Memᴰ.tail old)
    | inr new ↦ elim (Memᴰ.cases_cons new) [
      | inl same ↦ inl (Memᴰ.head same)
      | inr later ↦ inr later
    ]
  ]),
)

length-extend :
    (stack nodes : List StructureServiceThingNode)
    → length (extend stack nodes) ≡ length stack + length nodes
length-extend stack [] = omega arith
length-extend stack (c ∷ nodes) = omega (arith, length-extend (c ∷ stack) nodes)

abbrev unvisited : List Text → Option Text → Bool
unvisited visited none = false
unvisited visited (some id) = not (member id visited)

-- how many nodes may still be pushed
abbrev left : List Text → List StructureServiceThingNode → ℕ
left visited nodes =
    length (filter_by (λ node. unvisited visited node.parent_external_node_id) nodes)

slot_of_child :
    (id : Text) (visited : List Text) (parent : Option Text)
    → member id visited ≡ false
    → (parent == some id) ≡ true
    → (unvisited (id ∷ visited) parent ≡ false) × (unvisited visited parent ≡ true)
slot_of_child id visited parent new h = rw (==→≡ parent (some id) h, ==_self id, new) (refl, refl)

slot_kept :
    (id : Text) (visited : List Text) (parent : Option Text)
    → unvisited (id ∷ visited) parent ≡ true
    → unvisited visited parent ≡ true
slot_kept id visited none h = h
slot_kept id visited (some p) h = ground arith

pushed_le :
    (id : Text) (visited : List Text) (nodes : List StructureServiceThingNode)
    → member id visited ≡ false
    → length (children_of nodes id) + left (id ∷ visited) nodes ≤ left visited nodes
pushed_le id visited [] new = omega arith
pushed_le id visited (node ∷ nodes) new =
    elim (Bool-cases (node.parent_external_node_id == some id)) [
      | inl child ↦
          let (closed, free) = slot_of_child id visited node.parent_external_node_id new child in
          rw (child, closed, free) (omega (arith, pushed_le id visited nodes new))
      | inr other ↦ elim (Bool-cases (unvisited (id ∷ visited) node.parent_external_node_id)) [
        | inl free ↦
            rw (other, free, slot_kept id visited node.parent_external_node_id free)
              (omega (arith, pushed_le id visited nodes new))
        | inr closed ↦ elim (Bool-cases (unvisited visited node.parent_external_node_id)) [
          | inl was ↦ rw (other, closed, was) (omega (arith, pushed_le id visited nodes new))
          | inr was ↦ rw (other, closed, was) (pushed_le id visited nodes new)
        ]
      ]
    ]

-- A node with that id has the expected key, and the ids of its children are in the set.
abbrev Done : List StructureServiceThingNode → Text → List Text → Text → Type 0
Done nodes expected ids id =
    ((m : StructureServiceThingNode) × Memᴰ m nodes
      × (m.external_id ≡ id)
      × (m.stakeholder_key ≡ expected))
    × ((c : StructureServiceThingNode)
        → Memᴰ c nodes
        → c.parent_external_node_id ≡ some id
        → Memᴰ c.external_id ids)

-- What a search that ends well has seen.
record Searched (nodes : List StructureServiceThingNode) (expected : Text)
    (stack : List StructureServiceThingNode) (visited : List Text) : Type 0 where
  ids : List Text
  kept : (id : Text) → Memᴰ id visited → Memᴰ id ids
  reached : (n : StructureServiceThingNode) → Memᴰ n stack → Memᴰ n.external_id ids
  done : (id : Text) → Memᴰ id ids → Memᴰ id visited ⊎ Done nodes expected ids id

module _ (nodes : List StructureServiceThingNode) (expected : Text) where
  abbrev Within : List StructureServiceThingNode → Type 0
  Within stack = (n : StructureServiceThingNode) → Memᴰ n stack → Memᴰ n nodes

  Within-extend :
      (n : StructureServiceThingNode) (stack : List StructureServiceThingNode)
      → Within (n ∷ stack)
      → Within (extend stack (children_of nodes n.external_id))
  Within-extend n stack within c m =
      elim ((extend_iff stack (children_of nodes n.external_id)).0 m) [
        | inl old ↦ within c (Memᴰ.tail old)
        | inr child ↦ ((Memᴰ-children_of nodes n.external_id).0 child).0
      ]

  Searched-skip :
      (n : StructureServiceThingNode) (stack : List StructureServiceThingNode) (visited : List Text)
      → Memᴰ n.external_id visited
      → Searched nodes expected stack visited
      → Searched nodes expected (n ∷ stack) visited
  Searched-skip n stack visited old s = record {
    ids = s.ids;
    kept = s.kept;
    reached = λ m i. elim (Memᴰ.cases_cons i) [
      | inl same ↦ rw same (s.kept n.external_id old)
      | inr later ↦ s.reached m later
    ];
    done = s.done;
  }

  Searched-visit :
      (n : StructureServiceThingNode) (stack : List StructureServiceThingNode) (visited : List Text)
      → Memᴰ n nodes
      → n.stakeholder_key ≡ expected
      → Searched nodes expected
          (extend stack (children_of nodes n.external_id))
          (n.external_id ∷ visited)
      → Searched nodes expected (n ∷ stack) visited
  Searched-visit n stack visited member key s = record {
    ids = s.ids;
    kept = λ id m. s.kept id (Memᴰ.tail m);
    reached = λ m i. elim (Memᴰ.cases_cons i) [
      | inl same ↦ rw same (s.kept n.external_id (Memᴰ.head refl))
      | inr later ↦ s.reached m ((extend_iff stack (children_of nodes n.external_id)).1 (inl later))
    ];
    done = λ id m. elim (s.done id m) [
      | inl seen ↦ elim (Memᴰ.cases_cons seen) [
        | inl same ↦ inr (
          (n, member, sym same, key),
          λ c i p. s.reached c (
              (extend_iff stack (children_of nodes n.external_id)).1
                (inr ((Memᴰ-children_of nodes n.external_id).1 (i, rw (← same) p)))),
        )
        | inr old ↦ inl old
      ]
      | inr d ↦ inr d
    ];
  }

  check_hierarchy-Searched :
      (fuel : ℕ) (stack : List StructureServiceThingNode) (visited : List Text)
      → Within stack
      → check_hierarchy fuel nodes expected stack visited ≡ ok tt
      → Searched nodes expected stack visited
  unfolding check_hierarchy
  check_hierarchy-Searched zero stack visited within run = cc
  check_hierarchy-Searched (suc fuel) [] visited within run = record {
    ids = visited;
    kept = λ id m. m;
    reached = λ n m. elim m [ ];
    done = λ id m. inl m;
  }
  check_hierarchy-Searched (suc fuel) (n ∷ stack) visited within run =
      elim (Bool-cases (member n.external_id visited)) [
        | inl old ↦ Searched-skip n stack visited ((any-==_iff n.external_id visited).0 old) (
            check_hierarchy-Searched fuel stack visited (λ m i. within m (Memᴰ.tail i))
              (rw (check_hierarchy, old) at run))
        | inr new ↦
            let (same, rest) = (>>-ok_iff _ _).0 (rw (check_hierarchy, new) at run) in
            Searched-visit n stack visited (within n (Memᴰ.head refl))
              (==→≡ n.stakeholder_key expected ((require_iff _ _).0 same))
              (check_hierarchy-Searched fuel (extend stack (children_of nodes n.external_id))
                (n.external_id ∷ visited) (Within-extend n stack within) rest)
      ]

  check_hierarchy-returns :
      (root : StructureServiceThingNode)
      → ((n : StructureServiceThingNode) → Descends nodes root n → n.stakeholder_key ≡ expected)
      → (fuel : ℕ) (stack : List StructureServiceThingNode) (visited : List Text)
      → ((n : StructureServiceThingNode) → Memᴰ n stack → Descends nodes root n)
      → length stack + left visited nodes < fuel
      → check_hierarchy fuel nodes expected stack visited ≡ ok tt
  unfolding check_hierarchy
  check_hierarchy-returns root keys zero stack visited below enough = absurd (omega arith)
  check_hierarchy-returns root keys (suc fuel) [] visited below enough = refl
  check_hierarchy-returns root keys (suc fuel) (n ∷ stack) visited below enough =
      elim (Bool-cases (member n.external_id visited)) [
        | inl old ↦
            rw (check_hierarchy, old)
              (check_hierarchy-returns root keys fuel stack visited (λ m i. below m (Memᴰ.tail i))
                (omega arith))
        | inr new ↦
            rw (check_hierarchy, new)
              ((>>-ok_iff _ _).1 (
                (require_iff _ _).1
                    (≡→== n.stakeholder_key expected (keys n (below n (Memᴰ.head refl)))),
                check_hierarchy-returns root keys fuel
                    (extend stack (children_of nodes n.external_id)) (n.external_id ∷ visited)
                    (λ c m. elim ((extend_iff stack (children_of nodes n.external_id)).0 m) [
                      | inl i ↦ below c (Memᴰ.tail i)
                      | inr i ↦
                          let (i', parent) = (Memᴰ-children_of nodes n.external_id).0 i in
                          Descends.child_of (below n (Memᴰ.head refl)) i' parent
                    ])
                    (omega (
                      arith,
                      pushed_le n.external_id visited nodes new,
                      length-extend stack (children_of nodes n.external_id),
                    )),
              ))
      ]

Searched-below :
    (nodes : List StructureServiceThingNode) (root : StructureServiceThingNode)
    → (s : Searched nodes root.stakeholder_key (root ∷ []) []) → {n : StructureServiceThingNode}
    → Descends nodes root n
    → Memᴰ n.external_id s.ids
Searched-below nodes root s Descends.itself = s.reached root (Memᴰ.head refl)
Searched-below nodes root s (Descends.child_of {m} {n} d i parent) =
    elim (s.done m.external_id (Searched-below nodes root s d)) [
      | inl old ↦ elim old [ ]
      | inr found ↦ found.1 n i parent
    ]

-- Where no two thing nodes share an external id, the check passes exactly if every node that descends
-- from a root has the root's stakeholder key.
pub check_stakeholder_key_consistency_iff :
    (s : CompleteStructure)
    → HasUniqueIds s.thing_nodes
    → (check_stakeholder_key_consistency s ≡ ok tt) ↔ (
        (root n : StructureServiceThingNode)
        → Memᴰ root s.thing_nodes
        → root.parent_external_node_id ≡ none
        → Descends s.thing_nodes root n
        → n.stakeholder_key ≡ root.stakeholder_key)
unfolding check_stakeholder_key_consistency
check_stakeholder_key_consistency_iff s unique = (
  λ run root n m is_root d. below root n m d (
      check_hierarchy-Searched s.thing_nodes root.stakeholder_key (suc (suc (length s.thing_nodes)))
        (root ∷ []) [] (λ r i. elim (Memᴰ.cases_cons i) [ inl e ↦ rw e m | inr j ↦ elim j [ ] ])
        ((check_all_iff _ _).0 run root
          (filter_by-Memᴰ is_parentless m (≡→== root.parent_external_node_id none is_root)))),
  λ keys. (check_all_iff _ _).1 λ root m.
      let (i, h) = Memᴰ-filter_by is_parentless s.thing_nodes m in
      check_hierarchy-returns s.thing_nodes root.stakeholder_key root
        (λ n d. keys root n i (==→≡ root.parent_external_node_id none h) d)
        (suc (suc (length s.thing_nodes))) (root ∷ []) []
        (λ n j. elim (Memᴰ.cases_cons j) [ inl e ↦ rw e Descends.itself | inr k ↦ elim k [ ] ])
        (omega (arith, filter_by_le (λ n. unvisited [] n.parent_external_node_id) s.thing_nodes)),
)
  where
    is_parentless : StructureServiceThingNode → Bool
    is_parentless node = node.parent_external_node_id == none

    below :
        (root n : StructureServiceThingNode)
        → Memᴰ root s.thing_nodes
        → Descends s.thing_nodes root n
        → Searched s.thing_nodes root.stakeholder_key (root ∷ []) []
        → n.stakeholder_key ≡ root.stakeholder_key
    below root n m d found =
        elim (found.done n.external_id (Searched-below s.thing_nodes root found d)) [
          | inl old ↦ elim old [ ]
          | inr (((k, i, same, key), rest)) ↦
              rw (← HasUniqueIds-same s.thing_nodes unique i (Descends-Memᴰ m d) same) key
        ]
