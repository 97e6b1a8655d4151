-- ===== src/Content/Acyclic/Edges.antt =====
-- The invariant of the graph: `indegrees` counts the edges into each vertex.
use mathlib.Core.List.Memᴰ
use mathlib.Core.List.{append_assoc, append-nil}
use hetida_designer.Prelude.{
  ℕ, ◌+◌, ◌≡◌, refl, ap, sym, ◌∙◌, true, List, [], ◌∷◌, ◌++◌, map, Memᴰ, Dict, get, get-put, IsDict,
  IsDict-put, is_some, length, filter_by, ◌==◌, nat_eq, ==→≡, ==_self, arith, inl, inr,
}
use hetida_designer.Link.{Link}
use hetida_designer.Content.Acyclic.{
  Edge, Graph, or_else, enter_start, enter_end, one_more, add_edge, add_links, edge_of, no_graph,
}

-- how many edges end at a vertex
abbrev pub into : ℕ → List Edge → ℕ
into v es = length (filter_by (λ e. e.1 == v) es)

pub record IsCounted (g : Graph) : Type 0 where
  pub dict : IsDict g.indegrees
  pub counted : (v : ℕ) → or_else 0 (get v g.indegrees) ≡ into v g.edges
  pub ends :
      (a b : ℕ)
      → Memᴰ (a, b) g.edges
      → (is_some (get a g.indegrees) ≡ true) × (is_some (get b g.indegrees) ≡ true)

into-append :
    (v : ℕ) (es : List Edge) (e : Edge) → into v (es ++ e ∷ []) ≡ into v es + into v (e ∷ [])
into-append v [] e = omega arith
into-append v (x ∷ es) e = ground (arith, into-append v es e)

module _ (s : ℕ) (d : Dict ℕ ℕ) where
  IsDict-enter_start : IsDict d → IsDict (enter_start s d)
  unfolding enter_start
  IsDict-enter_start h = ground (arith, IsDict-put s 0 d h)

  get-enter_start : (v : ℕ) → or_else 0 (get v (enter_start s d)) ≡ or_else 0 (get v d)
  unfolding enter_start
  get-enter_start v = ground (arith, get-put s v 0 d, ==→≡ s v)

  has-enter_start : (v : ℕ) → is_some (get v d) ≡ true → is_some (get v (enter_start s d)) ≡ true
  unfolding enter_start
  has-enter_start v h = ground (arith, get-put s v 0 d)

  has-enter_start_self : is_some (get s (enter_start s d)) ≡ true
  unfolding enter_start
  has-enter_start_self = ground (arith, get-put s s 0 d, ==_self s)

  IsDict-enter_end : IsDict d → IsDict (enter_end s d)
  unfolding enter_end
  IsDict-enter_end h = IsDict-put s (one_more (get s d)) d h

  get-enter_end :
      (v a : ℕ) → or_else 0 (get v (enter_end s d)) ≡ or_else 0 (get v d) + into v ((a, s) ∷ [])
  unfolding enter_end
  get-enter_end v a = ground (arith, get-put s v (one_more (get s d)) d, ==→≡ s v)

  has-enter_end : (v : ℕ) → is_some (get v d) ≡ true → is_some (get v (enter_end s d)) ≡ true
  unfolding enter_end
  has-enter_end v h = ground (arith, get-put s v (one_more (get s d)) d)

  has-enter_end_self : is_some (get s (enter_end s d)) ≡ true
  unfolding enter_end
  has-enter_end_self = ground (arith, get-put s s (one_more (get s d)) d, ==_self s)

pub IsCounted-add_edge : (edge : Edge) (g : Graph) → IsCounted g → IsCounted (add_edge edge g)
unfolding add_edge
IsCounted-add_edge (s, e) g c = record {
  dict = IsDict-enter_end e (enter_start s g.indegrees) (IsDict-enter_start s g.indegrees c.dict);
  counted = λ v. omega (
    arith,
    get-enter_end e (enter_start s g.indegrees) v s,
    get-enter_start s g.indegrees v,
    c.counted v,
    into-append v g.edges (s, e),
  );
  ends = λ a b m. elim (Memᴰ.append_cases g.edges m) [
    | inl old ↦ (kept a (c.ends a b old).0, kept b (c.ends a b old).1)
    | inr new ↦
        let same : ◌≡◌ {A = ℕ × ℕ} (a, b) (s, e) = Memᴰ.eq_of_singleton new in
        (
          rw (ap (λ (p : ℕ × ℕ). p.0) same)
              (has-enter_end e (enter_start s g.indegrees) s (has-enter_start_self s g.indegrees)),
          rw (ap (λ (p : ℕ × ℕ). p.1) same) (has-enter_end_self e (enter_start s g.indegrees)),
        )
  ];
}
  where
    kept :
        (v : ℕ)
        → is_some (get v g.indegrees) ≡ true
        → is_some (get v (enter_end e (enter_start s g.indegrees))) ≡ true
    kept v h = has-enter_end e (enter_start s g.indegrees) v (has-enter_start s g.indegrees v h)

pub IsCounted-add_links :
    (links : List Link) (g : Graph) → IsCounted g → IsCounted (add_links links g)
unfolding add_links
IsCounted-add_links [] g c = c
IsCounted-add_links (link ∷ links) g c =
    IsCounted-add_links links (add_edge (edge_of link) g) (IsCounted-add_edge (edge_of link) g c)

edges-add_links :
    (links : List Link) (g : Graph) → (add_links links g).edges ≡ g.edges ++ map edge_of links
unfolding add_links add_edge
edges-add_links [] g = sym (append-nil g.edges)
edges-add_links (link ∷ links) g =
    edges-add_links links (add_edge (edge_of link) g)
    ∙ append_assoc g.edges (edge_of link ∷ []) (map edge_of links)

-- The edges are the links, in their order.
pub edges_of_links : (links : List Link) → (add_links links no_graph).edges ≡ map edge_of links
edges_of_links links = edges-add_links links no_graph

pub IsCounted-no_graph : IsCounted no_graph
unfolding get
IsCounted-no_graph = record { dict = tt; counted = λ v. refl; ends = λ a b m. elim m [ ] }
