-- ===== src/Content/Acyclic.antt =====
-- `WorkflowContent.links_acyclic_directed_graph`: the links as edges, the indegrees of the vertices,
-- and the loop that removes vertices of indegree zero. The loop takes as fuel the number of
-- vertices, since each round deletes one.
pub mod Walk
pub mod Edges
pub mod Lower
pub mod Cycle
pub mod Decision
use hetida_designer.Prelude.{
  ℕ, zero, suc, ◌+◌, ◌-◌, Bool, true, false, Option, none, some, List, [], ◌∷◌, ◌++◌, map, Dict,
  get, put, delete, filter_by, remove_all, length, ltb, ◌==◌, nat_eq, is_some, if◌then◌else◌,
  Result, ok, err, ◌>>=◌, ◌>>◌, require, key_missing, out_of_fuel, loop_in_links,
}
use hetida_designer.Link.{Link}
use hetida_designer.Content.Dicts.{pair_eq}
use hetida_designer.Content.Links.{or_not_in_list}

abbrev pub Edge : Type 0
Edge = ℕ × ℕ

pub record Graph : Type 0 where
  pub edges : List Edge
  pub indegrees : Dict ℕ ℕ

abbrev pub or_else : ℕ → Option ℕ → ℕ
or_else n none = n
or_else n (some m) = m

-- `if start_vertex not in indegrees: indegrees[start_vertex] = 0`
unfoldable pub enter_start : ℕ → Dict ℕ ℕ → Dict ℕ ℕ
enter_start v indegrees = if is_some (get v indegrees) then indegrees else put v 0 indegrees

abbrev pub one_more : Option ℕ → ℕ
one_more none = 1
one_more (some n) = n + 1

-- `indegrees[end_vertex]` becomes 1, or one more than it was
unfoldable pub enter_end : ℕ → Dict ℕ ℕ → Dict ℕ ℕ
enter_end v indegrees = put v (one_more (get v indegrees)) indegrees

unfoldable pub add_edge : Edge → Graph → Graph
unfolding enter_start enter_end
add_edge edge g = record {
  edges = g.edges ++ edge ∷ [];
  indegrees = enter_end edge.1 (enter_start edge.0 g.indegrees);
}

-- `indegrees[edge[1]]` is read, and lowered unless it is 0; a missing key is the KeyError.
unfoldable pub lower : Edge → Dict ℕ ℕ → Result (Dict ℕ ℕ)
lower edge indegrees = elim (get edge.1 indegrees) [
  | none ↦ err key_missing
  | some n ↦ ok (if ltb 0 n then put edge.1 (n - 1) indegrees else indegrees)
]

-- the loop over the edges in `remove_outgoing_edges`
unfoldable pub lower_targets : ℕ → List Edge → Dict ℕ ℕ → Result (Dict ℕ ℕ)
unfolding lower
lower_targets v [] indegrees = ok indegrees
lower_targets v (edge ∷ edges) indegrees = do
  lowered ← (if edge.0 == v then lower edge indegrees else ok indegrees)
  lower_targets v edges lowered

-- `del indegrees[start_vertex]`
unfoldable pub delete_vertex : ℕ → Dict ℕ ℕ → Result (Dict ℕ ℕ)
delete_vertex v indegrees = do
  require (is_some (get v indegrees)) key_missing
  ok (delete v indegrees)

unfoldable pub remove_outgoing_edges : ℕ → Graph → Result Graph
unfolding lower_targets delete_vertex
remove_outgoing_edges v g = do
  lowered ← lower_targets v g.edges g.indegrees
  indegrees ← delete_vertex v lowered
  edges ← or_not_in_list (remove_all (filter_by (λ edge. edge.0 == v) g.edges) g.edges)
  ok (record { edges = edges; indegrees = indegrees })

unfoldable pub vertices_with_indegree_zero : Dict ℕ ℕ → List ℕ
vertices_with_indegree_zero indegrees =
    map (λ item. item.0) (filter_by (λ item. item.1 == 0) indegrees)

-- the `while` loop
unfoldable pub drain : ℕ → Graph → Result Graph
unfolding remove_outgoing_edges vertices_with_indegree_zero
drain zero g = elim (vertices_with_indegree_zero g.indegrees) [
  | [] ↦ ok g
  | v ∷ vs ↦ err out_of_fuel
]
drain (suc fuel) g = elim (vertices_with_indegree_zero g.indegrees) [
  | [] ↦ ok g
  | v ∷ vs ↦ remove_outgoing_edges v g >>= drain fuel
]

-- A workflow input or output is the vertex of its own id.
abbrev pub vertex : Option ℕ → ℕ → ℕ
vertex none id = id
vertex (some op) id = op

abbrev pub edge_of : Link → Edge
edge_of link = (
  vertex link.start.operator link.start.connector.id,
  vertex link.end.operator link.end.connector.id,
)

unfoldable pub add_links : List Link → Graph → Graph
unfolding add_edge
add_links [] g = g
add_links (link ∷ links) g = add_links links (add_edge (edge_of link) g)

abbrev pub no_graph : Graph
no_graph = record { edges = []; indegrees = [] }

abbrev pub accept_if_drained : List Link → List Edge → Result (List Link)
accept_if_drained links [] = ok links
accept_if_drained links (e ∷ es) = err loop_in_links

unfoldable pub links_acyclic_directed_graph : List Link → Result (List Link)
unfolding add_links drain
links_acyclic_directed_graph links = do
  let g = add_links links no_graph
  drained ← drain (length g.indegrees) g
  accept_if_drained links drained.edges
