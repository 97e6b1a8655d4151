-- ===== src/Content/Acyclic/Lower.antt =====
-- One round of the loop: the invariant and the loops when a vertex of indegree zero is removed.
use hetida_designer.Prelude.{
  ℕ, suc, ◌+◌, ◌-◌, ◌≤◌, ◌<◌, ◌≡◌, refl, ap, ◌∙◌, Bool, true, false, not, ◌&&◌, some, List, [], ◌∷◌,
  Memᴰ, Dict, get, put, delete, get-put, get-delete, IsDict, IsDict-put, IsDict-delete, is_some,
  length, length-put, length-delete, filter_by, ◌==◌, nat_eq, ==→≡, ==_self, Bool-cases,
  Memᴰ-filter_by, filter_by-Memᴰ, remove_all-filter_by, arith, inl, inr, if◌then◌else◌, ok,
}
use hetida_designer.Content.Dicts.{pair_eq}
use hetida_designer.Content.Acyclic.{
  Edge, Graph, or_else, lower, lower_targets, remove_outgoing_edges,
}
use hetida_designer.Content.Acyclic.Edges.{into, IsCounted}
use hetida_designer.Content.Acyclic.Walk.{Walk, cycle_avoids}

-- how many edges lead from one vertex to another
abbrev from_to : ℕ → ℕ → List Edge → ℕ
from_to v u es = length (filter_by (λ e. (e.0 == v) && (e.1 == u)) es)

record Lowered (v : ℕ) (es : List Edge) (d d' : Dict ℕ ℕ) : Type 0 where
  dict : IsDict d'
  counts : (u : ℕ) → or_else 0 (get u d') + from_to v u es ≡ or_else 0 (get u d)
  keys : (u : ℕ) → is_some (get u d') ≡ is_some (get u d)
  size : length d' ≡ length d

abbrev lowered_by : ℕ → Edge → Dict ℕ ℕ → Dict ℕ ℕ
lowered_by v e d = if e.0 == v then put e.1 (or_else 0 (get e.1 d) - 1) d else d

module _ (v : ℕ) (e : Edge) (d : Dict ℕ ℕ) (has : is_some (get e.1 d) ≡ true)
    (room : (e.0 == v) ≡ true → 0 < or_else 0 (get e.1 d)) where
  lower_step : (if e.0 == v then lower e d else ok d) ≡ ok (lowered_by v e d)
  unfolding lower
  lower_step = ground arith

  Lowered-step : IsDict d → Lowered v (e ∷ []) d (lowered_by v e d)
  Lowered-step h = record {
    dict = ground (arith, IsDict-put e.1 (or_else 0 (get e.1 d) - 1) d h);
    counts = λ u. ground (arith, get-put e.1 u (or_else 0 (get e.1 d) - 1) d, ==→≡ e.1 u);
    keys = λ u. ground (arith, get-put e.1 u (or_else 0 (get e.1 d) - 1) d, ==→≡ e.1 u);
    size = ground (arith, length-put e.1 (or_else 0 (get e.1 d) - 1) d);
  }

from_to-cons :
    (v u : ℕ) (e : Edge) (es : List Edge)
    → from_to v u (e ∷ es) ≡ from_to v u (e ∷ []) + from_to v u es
from_to-cons v u e es = ground arith

from_to_pos : (v : ℕ) (e : Edge) (es : List Edge) → (e.0 == v) ≡ true → 0 < from_to v e.1 (e ∷ es)
from_to_pos v e es h = ground (arith, ==_self e.1)

lower_targets_lem :
    (v : ℕ) (es : List Edge) (d : Dict ℕ ℕ)
    → IsDict d
    → ((u : ℕ) → from_to v u es ≤ or_else 0 (get u d))
    → ((a b : ℕ) → Memᴰ (a, b) es → is_some (get b d) ≡ true)
    → (d' : Dict ℕ ℕ) × (lower_targets v es d ≡ ok d') × Lowered v es d d'
unfolding lower_targets
lower_targets_lem v [] d h room ends =
    (d, refl, record { dict = h; counts = λ u. omega arith; keys = λ u. refl; size = refl })
lower_targets_lem v (e ∷ es) d h room ends =
    let has = ends e.0 e.1 (Memᴰ.head refl) in
    let room_here : (e.0 == v) ≡ true → 0 < or_else 0 (get e.1 d) =
      λ p. omega (arith, room e.1, from_to_pos v e es p) in
    let d1 = lowered_by v e d in
    let step = Lowered-step v e d has room_here h in
    let (d', run, low) =
      lower_targets_lem v es d1 step.dict
        (λ u. omega (arith, room u, step.counts u, from_to-cons v u e es))
        (λ a b m. step.keys b ∙ ends a b (Memᴰ.tail m)) in
    (
      d',
      rw (lower_step v e d has room_here) run,
      record {
        dict = low.dict;
        counts = λ u. omega (arith, low.counts u, step.counts u, from_to-cons v u e es);
        keys = λ u. low.keys u ∙ step.keys u;
        size = low.size ∙ step.size;
      },
    )

abbrev pub leaves : ℕ → Edge → Bool
leaves v e = e.0 == v

abbrev pub stays : ℕ → List Edge → List Edge
stays v = filter_by (λ e. not (leaves v e))

into-stays : (v u : ℕ) (es : List Edge) → into u (stays v es) + from_to v u es ≡ into u es
into-stays v u [] = omega arith
into-stays v u (e ∷ es) = ground (arith, into-stays v u es)

pub into_pos : {a b : ℕ} {es : List Edge} → Memᴰ (a, b) es → 0 < into b es
into_pos {es = []} m = elim m [ ]
into_pos {a} {b} {es = e ∷ es} (Memᴰ.head same) =
    ground (arith, ap (λ (p : Edge). p.1) same, ==_self b)
into_pos {a} {b} {es = e ∷ es} (Memᴰ.tail m) = ground (arith, into_pos m)

pub record Round (v : ℕ) (g g' : Graph) : Type 0 where
  pub counted : IsCounted g'
  pub size : suc (length g'.indegrees) ≡ length g.indegrees
  pub edges : g'.edges ≡ stays v g.edges

module _ (v : ℕ) (g : Graph) (c : IsCounted g) (zero_in : get v g.indegrees ≡ some 0) where
  no_into : (a : ℕ) → ¬ Memᴰ (a, v) g.edges
  no_into a m = absurd (ground (arith, into_pos m, c.counted v))

  IsCounted-after :
      (d : Dict ℕ ℕ)
      → Lowered v g.edges g.indegrees d
      → IsCounted (record { edges = stays v g.edges; indegrees = delete v d })
  IsCounted-after d low = record {
    dict = IsDict-delete v d low.dict;
    counted = λ u. ground (
      arith,
      get-delete v u d low.dict,
      low.counts u,
      c.counted u,
      into-stays v u g.edges,
      c.counted v,
      ==→≡ v u,
    );
    ends = λ a b m. ends_after a b m;
  }
    where
      ends_after :
          (a b : ℕ)
          → Memᴰ (a, b) (stays v g.edges)
          → (is_some (get a (delete v d)) ≡ true) × (is_some (get b (delete v d)) ≡ true)
      ends_after a b m =
          let (old, stay) = Memᴰ-filter_by (λ e. not (leaves v e)) g.edges m in
          let has = c.ends a b old in
          let other : (v == b) ≡ false = elim (Bool-cases (v == b)) [
            | inl same ↦ absurd (no_into a (rw (==→≡ v b same) old))
            | inr e ↦ e
          ] in
          let start : (v == a) ≡ false = elim (Bool-cases (v == a)) [
            | inl same ↦ ground (arith, ==→≡ v a same, ==_self v)
            | inr e ↦ e
          ] in
          (
            rw (get-delete v a d low.dict, start) (low.keys a ∙ has.0),
            rw (get-delete v b d low.dict, other) (low.keys b ∙ has.1),
          )

  pub round : (g' : Graph) × (remove_outgoing_edges v g ≡ ok g') × Round v g g'
  unfolding remove_outgoing_edges
  round =
      let (d, run, low) =
        lower_targets_lem v g.edges g.indegrees c.dict
          (λ u. omega (arith, c.counted u, into-stays v u g.edges)) (λ a b m. (c.ends a b m).1) in
      let present : is_some (get v d) ≡ true = low.keys v ∙ rw zero_in refl in
      (
        record { edges = stays v g.edges; indegrees = delete v d },
        rw (run, present, remove_all-filter_by (leaves v) g.edges) refl,
        record {
          counted = IsCounted-after d low;
          size = length-delete v d present ∙ low.size;
          edges = refl;
        },
      )

  -- A closed walk never meets the vertex.
  pub cycle_stays : (u : ℕ) → Walk g.edges u u → Walk (stays v g.edges) u u
  cycle_stays = cycle_avoids {es = g.edges} {fs = stays v g.edges} λ z x y m n.
      filter_by-Memᴰ (λ e. not (leaves v e)) n
        (elim (Bool-cases (x == v)) [
          | inl same ↦ absurd (no_into z (rw (==→≡ x v same) at m))
          | inr e ↦ rw e refl
        ])
