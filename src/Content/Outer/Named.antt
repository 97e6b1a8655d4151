-- ===== src/Content/Outer/Named.antt =====
-- Which links `clean_up_outer_links` keeps.
use mathlib.Core.List.Memᴰ
use hetida_designer.Prelude.{
  ℕ, ◌≡◌, ◌⊎◌, inl, inr, refl, ap, sym, Bool, false, not, Option, none, some, List, map, get,
  from_pairs, get-update, get-from_pairs, remove_all-filter_by, filter_by, nat_eq, ok, Memᴰ,
  Memᴰ-filter_by, filter_by-Memᴰ, arith, Option-cases,
}
use hetida_designer.Io.{
  WorkflowContentOutput, WorkflowContentDynamicInput, WorkflowContentConstantInput, is_nameless,
}
use hetida_designer.Link.{Link, link_eq}
use hetida_designer.Content.Outer.{
  WorkflowInput, dynamic, constant, workflow_content_input_by_id, workflow_content_output_by_id,
  input_unfit, output_unfit, only_outer, outer_link_is_removed, clean_up_outer_links,
}

-- A named dynamic input, or a constant, with the id is there.
abbrev pub HasSource :
    List WorkflowContentDynamicInput → List WorkflowContentConstantInput → Option ℕ → ℕ → Type 0
HasSource inputs constants (some op) id = Unit
HasSource inputs constants none id =
    ((x : WorkflowContentDynamicInput) × Memᴰ x inputs × (x.id ≡ id) × (is_nameless x.name ≡ false))
    ⊎ ((c : WorkflowContentConstantInput) × Memᴰ c constants × (c.id ≡ id))

-- A named output with the id is there.
abbrev pub HasTarget : List WorkflowContentOutput → Option ℕ → ℕ → Type 0
HasTarget outputs (some op) id = Unit
HasTarget outputs none id =
    (o : WorkflowContentOutput) × Memᴰ o outputs × (o.id ≡ id) × (is_nameless o.name ≡ false)

module _ (inputs : List WorkflowContentDynamicInput) (constants : List WorkflowContentConstantInput)
    (outputs : List WorkflowContentOutput) where
  source_of :
      (id : ℕ) {found : WorkflowInput}
      → get id (workflow_content_input_by_id inputs constants) ≡ some found
      → input_unfit (some found) ≡ false
      → HasSource inputs constants none id
  unfolding workflow_content_input_by_id
  source_of id {found} h fit =
      elim (get-update (map (λ c. (c.id, constant c)) constants)
        (from_pairs (map (λ i. (i.id, dynamic i)) inputs)) id h) [
          | inl m ↦
              let (c, member, e) =
                Memᴰ.of_map (λ (c : WorkflowContentConstantInput). (c.id, constant c)) constants
                  m in
              inr (c, member, ap (λ p. p.0) e)
          | inr p ↦
              let (x, member, e) =
                Memᴰ.of_map (λ (i : WorkflowContentDynamicInput). (i.id, dynamic i)) inputs
                  (get-from_pairs (map (λ i. (i.id, dynamic i)) inputs) id p) in
              inl (x, member, ap (λ p. p.0) e, rw (sym (ap (λ p. p.1) e)) at fit)
        ]

  target_of :
      (id : ℕ) {o : WorkflowContentOutput}
      → get id (workflow_content_output_by_id outputs) ≡ some o
      → is_nameless o.name ≡ false
      → HasTarget outputs none id
  unfolding workflow_content_output_by_id
  target_of id {o} h fit =
      let (x, member, e) =
        Memᴰ.of_map (λ (i : WorkflowContentOutput). (i.id, i)) outputs
          (get-from_pairs (map (λ i. (i.id, i)) outputs) id h) in
      (x, member, ap (λ p. p.0) e, rw (sym (ap (λ p. p.1) e)) at fit)

  source_fits :
      (op : Option ℕ) (id : ℕ)
      → only_outer op (input_unfit (get id (workflow_content_input_by_id inputs constants))) ≡ false
      → HasSource inputs constants op id
  source_fits (some op) id h = tt
  source_fits none id h =
      elim (Option-cases (get id (workflow_content_input_by_id inputs constants))) [
        | inl e ↦ cc (rw e at h)
        | inr (found, e) ↦ source_of id e (rw e at h)
      ]

  target_fits :
      (op : Option ℕ) (id : ℕ)
      → only_outer op (output_unfit (get id (workflow_content_output_by_id outputs))) ≡ false
      → HasTarget outputs op id
  target_fits (some op) id h = tt
  target_fits none id h = elim (Option-cases (get id (workflow_content_output_by_id outputs))) [
    | inl e ↦ cc (rw e at h)
    | inr (o, e) ↦ target_of id e (rw e at h)
  ]

  abbrev dropped : Link → Bool
  dropped =
      outer_link_is_removed (workflow_content_input_by_id inputs constants)
        (workflow_content_output_by_id outputs)

  ends_fit :
      (l : Link)
      → dropped l ≡ false
      → HasSource inputs constants l.start.operator l.start.connector.id
        × HasTarget outputs l.end.operator l.end.connector.id
  unfolding outer_link_is_removed
  ends_fit l h = (
    source_fits l.start.operator l.start.connector.id (ground arith),
    target_fits l.end.operator l.end.connector.id (ground arith),
  )

  -- The validator always returns, what it keeps are given links, all given links between operators
  -- are kept, and of every kept link an end without an operator has its counterpart: a named dynamic
  -- input or a constant at the start, a named output at the end.
  pub clean_up_outer_links-named :
      (links : List Link)
      → (kept : List Link) × (clean_up_outer_links inputs constants outputs links ≡ ok kept)
        × ((l : Link)
            → Memᴰ l kept
            → Memᴰ l links
              × HasSource inputs constants l.start.operator l.start.connector.id
              × HasTarget outputs l.end.operator l.end.connector.id)
        × ((l : Link) (a b : ℕ)
            → Memᴰ l links
            → l.start.operator ≡ some a
            → l.end.operator ≡ some b
            → Memᴰ l kept)
  unfolding clean_up_outer_links
  clean_up_outer_links-named links = (
    filter_by (λ l. not (dropped l)) links,
    rw (remove_all-filter_by dropped links) refl,
    λ l m.
        (let (given, stays) = Memᴰ-filter_by (λ x. not (dropped x)) links m in
          let (s, t) = ends_fit l (ground arith) in (given, s, t)),
    λ l a b m p q.
        filter_by-Memᴰ (λ x. not (dropped x)) m (unfold outer_link_is_removed in rw (p, q) refl),
  )
