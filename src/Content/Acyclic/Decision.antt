-- ===== src/Content/Acyclic/Decision.antt =====
-- The answer of `links_acyclic_directed_graph` and loops in the links.
use mathlib.Core.List.Memᴰ
use hetida_designer.Prelude.{
  ℕ, zero, suc, ◌≤◌, ◌<◌, ◌≡◌, ◌⊎◌, refl, ap, ◌∙◌, subst, not, some, List, [], ◌∷◌, map, Memᴰ, Dict,
  get, IsDict, length, filter_by, ◌==◌, nat_eq, ==→≡, ==_self, Bool-cases, List-cases, Option-cases,
  get-Memᴰ, Memᴰ-get, Memᴰ-filter_by, filter_by-Memᴰ, arith, inl, inr, ok, err, loop_in_links,
}
use hetida_designer.Link.{Link}
use hetida_designer.Content.Acyclic.{
  Edge, Graph, vertices_with_indegree_zero, drain, edge_of, add_links, no_graph, accept_if_drained,
  links_acyclic_directed_graph,
}
use hetida_designer.Content.Acyclic.Edges.{
  into, IsCounted, IsCounted-add_links, IsCounted-no_graph, edges_of_links,
}
use hetida_designer.Content.Acyclic.Lower.{Round, round, leaves, cycle_stays}
use hetida_designer.Content.Acyclic.Walk.{Walk, one, more, IsAcyclic, Walk-subset}
use hetida_designer.Content.Acyclic.Cycle.{cycle_of_back}

-- The head of the list of vertices of indegree zero is such a vertex.
zero_vertex :
    (d : Dict ℕ ℕ) (v : ℕ) (vs : List ℕ)
    → IsDict d
    → vertices_with_indegree_zero d ≡ v ∷ vs
    → get v d ≡ some 0
unfolding vertices_with_indegree_zero
zero_vertex d v vs h e =
    let first : Memᴰ v (map (λ (i : ℕ × ℕ). i.0) (filter_by (λ i. i.1 == 0) d)) =
      rw e (Memᴰ.head refl) in
    let (item, m, same) = Memᴰ.of_map (λ (i : ℕ × ℕ). i.0) (filter_by (λ i. i.1 == 0) d) first in
    let (m', is_zero) = Memᴰ-filter_by (λ (i : ℕ × ℕ). i.1 == 0) d m in
    rw (same, ==→≡ item.1 0 is_zero) at (get-Memᴰ d h m')

no_zero_vertex :
    (d : Dict ℕ ℕ) (v n : ℕ) → vertices_with_indegree_zero d ≡ [] → get v d ≡ some n → 0 < n
unfolding vertices_with_indegree_zero
no_zero_vertex d v zero e h =
    let item : Memᴰ (v, 0) (filter_by (λ i. i.1 == 0) d) =
      filter_by-Memᴰ (λ (i : ℕ × ℕ). i.1 == 0) (Memᴰ-get d h) (==_self {A = ℕ} 0) in
    elim (rw e at (Memᴰ.map (λ (i : ℕ × ℕ). i.0) item)) [ ]
no_zero_vertex d v (suc n) e h = omega arith

-- What the loop ends in.
record Drained (g g' : Graph) : Type 0 where
  counted : IsCounted g'
  no_zero : vertices_with_indegree_zero g'.indegrees ≡ []
  fewer : (a b : ℕ) → Memᴰ (a, b) g'.edges → Memᴰ (a, b) g.edges
  cycles : (u : ℕ) → Walk g.edges u u → Walk g'.edges u u

Drained-refl :
    (g : Graph) → IsCounted g → vertices_with_indegree_zero g.indegrees ≡ [] → Drained g g
Drained-refl g c e = record { counted = c; no_zero = e; fewer = λ a b m. m; cycles = λ u w. w }

Drained-trans :
    (v : ℕ) (g g1 g' : Graph) (c : IsCounted g)
    → get v g.indegrees ≡ some 0
    → Round v g g1
    → Drained g1 g'
    → Drained g g'
Drained-trans v g g1 g' c zero_in r d = record {
  counted = d.counted;
  no_zero = d.no_zero;
  fewer =
      λ a b m. (Memᴰ-filter_by (λ e. not (leaves v e)) g.edges (rw r.edges at (d.fewer a b m))).0;
  cycles = λ u w. d.cycles u (rw r.edges (cycle_stays v g c zero_in u w));
}

no-Walk : {a b : ℕ} → ¬ Walk [] a b
no-Walk (one m) = elim m [ ]
no-Walk (more m w) = elim m [ ]

drain_lem :
    (fuel : ℕ) (g : Graph)
    → IsCounted g
    → length g.indegrees ≤ fuel
    → (g' : Graph) × (drain fuel g ≡ ok g') × Drained g g'
unfolding drain
drain_lem zero g c h = elim (List-cases (vertices_with_indegree_zero g.indegrees)) [
  | inl e ↦ (g, rw (e, drain) refl, Drained-refl g c e)
  | inr (v, vs, e) ↦
      let (g', run, r) = round v g c (zero_vertex g.indegrees v vs c.dict e) in
      absurd (omega (arith, r.size))
]
drain_lem (suc fuel) g c h = elim (List-cases (vertices_with_indegree_zero g.indegrees)) [
  | inl e ↦ (g, rw (e, drain) refl, Drained-refl g c e)
  | inr (v, vs, e) ↦
      let zero_in = zero_vertex g.indegrees v vs c.dict e in
      let (g1, run, r) = round v g c zero_in in
      let (g', rest, done) = drain_lem fuel g1 r.counted (omega (arith, r.size)) in
      (g', rw (e, drain, run) rest, Drained-trans v g g1 g' c zero_in r done)
]

module _ (g' : Graph) (c : IsCounted g')
    (no_zero : vertices_with_indegree_zero g'.indegrees ≡ []) where
  edge_into : (a : ℕ) (es : List Edge) → 0 < into a es → (z : ℕ) × Memᴰ (z, a) es
  edge_into a [] h = absurd (omega arith)
  edge_into a ((x, y) ∷ es) h = elim (Bool-cases (y == a)) [
    | inl same ↦ (x, Memᴰ.head (ground (arith, ==→≡ y a same)))
    | inr other ↦ let (z, m) = edge_into a es (rw other at h) in (z, Memᴰ.tail m)
  ]

  back : (a b : ℕ) → Memᴰ (a, b) g'.edges → (z : ℕ) × Memᴰ (z, a) g'.edges
  back a b m = elim (Option-cases (get a g'.indegrees)) [
    | inl e ↦ cc (e, (c.ends a b m).0)
    | inr (n, e) ↦
        let pos : 0 < n = no_zero_vertex g'.indegrees a n no_zero e in
        edge_into a g'.edges (ground (arith, c.counted a))
  ]

abbrev Decides : List Link → List Edge → Type 0
Decides links es =
    ((links_acyclic_directed_graph links ≡ ok links) × IsAcyclic es)
    ⊎ ((links_acyclic_directed_graph links ≡ err loop_in_links) × ((v : ℕ) × Walk es v v))

decides :
    (links : List Link) (g g' : Graph)
    → links_acyclic_directed_graph links ≡ accept_if_drained links g'.edges
    → Drained g g'
    → Decides links g.edges
decides links g g' run d = elim (List-cases g'.edges) [
  | inl e ↦ inl (
    run ∙ ap (accept_if_drained links) e,
    λ v w. no-Walk (subst (λ es. Walk es v v) e (d.cycles v w)),
  )
  | inr ((a, b), es, e) ↦
      let (v, w) =
        cycle_of_back g'.edges (back g' d.counted d.no_zero) a b (rw e (Memᴰ.head refl)) in
      inr (run ∙ ap (accept_if_drained links) e, (v, Walk-subset d.fewer w))
]

-- Whatever the links: either the validator returns them, and no walk along them is closed, or it
-- raises the error for loops, and there is a closed walk. It neither raises another error nor fails
-- to end.
pub links_acyclic_directed_graph_lem :
    (links : List Link)
    → ((links_acyclic_directed_graph links ≡ ok links) × IsAcyclic (map edge_of links))
      ⊎ ((links_acyclic_directed_graph links ≡ err loop_in_links)
          × ((v : ℕ) × Walk (map edge_of links) v v))
unfolding links_acyclic_directed_graph
links_acyclic_directed_graph_lem links =
    let g = add_links links no_graph in
    let (g', run, d) =
      drain_lem (length g.indegrees) g (IsCounted-add_links links no_graph IsCounted-no_graph)
        (omega arith) in
    subst (Decides links) (edges_of_links links) (decides links g g' (rw run refl) d)
