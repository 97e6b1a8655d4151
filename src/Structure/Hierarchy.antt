-- ===== src/Structure/Hierarchy.antt =====
-- The hierarchy of thing nodes, as the relations that the validators of `CompleteStructure` decide.
pub mod Keys
pub mod Circular
use mathlib.Core.List.Memᴰ
use hetida_designer.Prelude.{
  ℕ, ◌≡◌, ◌≢◌, ◌↔◌, inl, inr, Bool, true, false, not, Option, none, some, List, [], ◌∷◌, Memᴰ,
  Bool-cases, any-==_iff, Text, text_eq, name_eq, filter_by, ==→≡, ≡→==, Memᴰ-filter_by,
  filter_by-Memᴰ, ◌==◌, IsNodup, IsNodup-map,
}
use hetida_designer.Structure.Entities.{StructureServiceThingNode}
use hetida_designer.Structure.Complete.{member, children_of, external_ids}

-- One of the nodes is the root itself, or a child of one that descends from the root.
pub data Descends (nodes : List StructureServiceThingNode) (root : StructureServiceThingNode)
    : StructureServiceThingNode → Type 0 where
  itself : Descends nodes root root
  child_of :
      {m n : StructureServiceThingNode}
      → Descends nodes root m
      → Memᴰ n nodes
      → n.parent_external_node_id ≡ some m.external_id
      → Descends nodes root n

pub not_member : (id : Text) (ids : List Text) → member id ids ≡ false → ¬ Memᴰ id ids
not_member id ids h m = cc (h, (any-==_iff id ids).1 m)

pub Memᴰ-children_of :
    {n : StructureServiceThingNode} (nodes : List StructureServiceThingNode) (id : Text)
    → Memᴰ n (children_of nodes id) ↔ (Memᴰ n nodes × (n.parent_external_node_id ≡ some id))
Memᴰ-children_of {n} nodes id = (
  λ m.
      (let (m', h) = Memᴰ-filter_by (λ node. node.parent_external_node_id == some id) nodes m in
        (m', ==→≡ n.parent_external_node_id (some id) h)),
  λ h.
      filter_by-Memᴰ (λ node. node.parent_external_node_id == some id) h.0
        (≡→== n.parent_external_node_id (some id) h.1),
)

-- No two of the nodes have the same external id.
abbrev pub HasUniqueIds : List StructureServiceThingNode → Type 0
HasUniqueIds nodes = IsNodup (external_ids nodes)

pub HasUniqueIds-same :
    (nodes : List StructureServiceThingNode) {m n : StructureServiceThingNode}
    → HasUniqueIds nodes
    → Memᴰ m nodes
    → Memᴰ n nodes
    → m.external_id ≡ n.external_id
    → m ≡ n
HasUniqueIds-same nodes unique = IsNodup-map (λ node. node.external_id) nodes unique

pub Descends-Memᴰ :
    {nodes : List StructureServiceThingNode} {root n : StructureServiceThingNode}
    → Memᴰ root nodes
    → Descends nodes root n
    → Memᴰ n nodes
Descends-Memᴰ m Descends.itself = m
Descends-Memᴰ m (Descends.child_of d i parent) = i
