-- ===== src/NestingTable/Returns.antt =====
-- When `update_nesting` returns.
use mathlib.Core.List.Memᴰ
use hetida_designer.Prelude.{
  ℕ, ◌≡◌, ◌≢◌, ◌⊎◌, inl, inr, refl, Bool, true, false, some, List, [], ◌∷◌, Memᴰ-filter_by, Exists,
  Exists-iff, Memᴰ, ℕ_discrete, Bool-cases, ◌==◌, nat_eq, ==→≡, arith, ok, any, any-Memᴰ,
}
use hetida_designer.Operator.{Operator, workflow, trafo_type_eq}
use hetida_designer.NestingTable.{
  NestingDbModel, NestingStore, Descendant, child_row, descendant_row, add_single_nesting,
  find_all_nested_transformation_revisions, find_all_nestings, delete_own_nestings, add_descendants,
  add_child, add_children, update_nesting,
}
use hetida_designer.NestingTable.Rows.{Nests, IsTyped}
use hetida_designer.NestingTable.Descendants.{Deep, Brings}
use hetida_designer.NestingTable.Children.{children_lem}
use hetida_designer.NestingTable.Deleted.{
  deleted_others, deleted_own, deleted-IsTypedAt, deleted-Deep,
}
use hetida_designer.NestingTable.Update.{own_nests}

module _ (store : NestingStore) (w : ℕ)
    (merges : (x : NestingDbModel) (s : store.Session)
      → (t : store.Session) × (store.merge x s ≡ some t)) where
  add_run :
      (x : NestingDbModel) (s : store.Session)
      → (t : store.Session) × (add_single_nesting store x s ≡ ok t)
  unfolding add_single_nesting
  add_run x s = let (t, e) = merges x s in (t, rw e refl)

  descendants_run :
      (child : Operator) (ds : List Descendant) (state : store.Session × List ℕ)
      → (state' : store.Session × List ℕ) × (add_descendants store w child ds state ≡ ok state')
  unfolding add_descendants
  descendants_run child [] state = (state, refl)
  descendants_run child (d ∷ ds) state =
      let (t, e) = add_run (descendant_row w child d) state.0 in
      let (state', run) = descendants_run child ds (t, d.transformation_id ∷ state.1) in
      (state', rw e run)

  child_run :
      (child : Operator) (state : store.Session × List ℕ)
      → child.transformation_id ≢ w
      → (state' : store.Session × List ℕ) × (add_child store w child state ≡ ok state')
  unfolding add_child
  child_run child state ne =
      let (t, e) = add_run (child_row w child) state.0 in
      let other : (child.transformation_id == w) ≡ false =
        ground (arith, ==→≡ child.transformation_id w) in
      elim (Bool-cases (child.type == workflow)) [
        | inl is_workflow ↦
            let (state', run) =
              descendants_run child
                (find_all_nested_transformation_revisions store t child.transformation_id)
                (t, state.1) in
            (state', rw (e, other, is_workflow) run)
        | inr is_component ↦ ((t, state.1), rw (e, other, is_component) refl)
      ]

  children_run :
      (ops : List Operator) (state : store.Session × List ℕ)
      → ((op : Operator) → Memᴰ op ops → op.transformation_id ≢ w)
      → (state' : store.Session × List ℕ) × (add_children store w ops state ≡ ok state')
  unfolding add_children
  children_run [] state other = (state, refl)
  children_run (op ∷ ops) state other =
      let (state', step) = child_run op state (other op (Memᴰ.head refl)) in
      let (state'', rest) = children_run ops state' (λ o m. other o (Memᴰ.tail m)) in
      (state'', rw step rest)

abbrev found_in : List ℕ → List NestingDbModel → Bool
found_in dis ancestors = any (λ ancestor. any (λ id. id == ancestor.workflow_id) dis) ancestors

ancestor_of :
    (store : NestingStore) (w : ℕ) (t : store.Session) (dis : List ℕ)
    → found_in dis (find_all_nestings store t w) ≡ true
    → (a : ℕ) × Nests store t a w × Memᴰ a dis
unfolding find_all_nestings
ancestor_of store w t dis h =
    let (r, m, inner) =
      any-Memᴰ (λ (x : NestingDbModel). any (λ id. id == x.workflow_id) dis) _ h in
    let (id, listed, same) = any-Memᴰ (λ id. id == r.workflow_id) dis inner in
    let (given, at) = Memᴰ-filter_by (λ x. x.nested_transformation_id == w) (store.rows t) m in
    (
      r.workflow_id,
      (r, given, refl, ==→≡ r.nested_transformation_id w at),
      rw (← ==→≡ id r.workflow_id same) listed,
    )

split : {A B : Type 0} → ¬ A → (A ⊎ B) → B
split no_a n = elim n [ inl a ↦ absurd (no_a a) | inr b ↦ b ]

no_own :
    (store : NestingStore) (w : ℕ) (ops : List Operator) (s : store.Session)
    → ((op : Operator) → Memᴰ op ops → op.transformation_id ≢ w)
    → ¬ Exists (Deep store s w) ops
    → ¬ Exists (Brings store s w) ops
no_own store w ops s other no_deep (op, m, brings) = elim brings [
  | inl e ↦ other op m e
  | inr deep ↦ no_deep (op, m, deep)
]

-- The update returns if the store raises no IntegrityError, no operator is the workflow itself or a
-- workflow that contains it, and none contains a workflow that contains it, by the table before. The
-- table and the operators are such that an operator id names one transformation revision.
pub update_nesting-returns :
    (store : NestingStore) (trafo_of : ℕ → ℕ) (w : ℕ) (ops : List Operator) (s : store.Session)
    → ((x : NestingDbModel) (s : store.Session) → (t : store.Session) × (store.merge x s ≡ some t))
    → IsTyped store trafo_of s
    → ((op : Operator) → Memᴰ op ops → op.transformation_id ≡ trafo_of op.id)
    → ((op : Operator) → Memᴰ op ops → op.transformation_id ≢ w)
    → ¬ Exists (Deep store s w) ops
    → ((a : ℕ) → Nests store s a w → ¬ Exists (Deep store s a) ops)
    → (t : store.Session) × (update_nesting store w ops s ≡ ok t)
unfolding update_nesting
update_nesting-returns store trafo_of w ops s merges typed fits other no_self no_cycle =
    let start = delete_own_nestings store w s in
    let (state, run) = children_run store w merges ops (start, w ∷ []) other in
    let (_, (grown, listed)) =
      children_lem store trafo_of w ops start state.0 (w ∷ []) state.1 run
        (deleted-IsTypedAt store trafo_of w s typed) fits in
    elim (Bool-cases (found_in state.1 (find_all_nestings store state.0 w))) [
      | inr no_ancestor ↦ (state.0, rw (run, no_ancestor) refl)
      | inl ancestor ↦
          let (a, nests, m) = ancestor_of store w state.0 state.1 ancestor in
          let back : Exists (Deep store start a) ops → Exists (Deep store s a) ops =
            (Exists-iff ops (λ op m. deleted-Deep store trafo_of w s op a (other op m))).0 in
          let self : ¬ Nests store state.0 w w = λ n.
            no_own store w ops start other
              (λ d.
                no_self (
                  (Exists-iff ops (λ op m. deleted-Deep store trafo_of w s op w (other op m))).0 d))
              (split (deleted_own store trafo_of w s w)
                ((own_nests store trafo_of w ops start start state.0 w grown).0 n)) in
          absurd (elim (ℕ_discrete a w) [
            | yes e ↦ self (rw e at nests)
            | no ne ↦ elim ((listed a).0 m) [
              | inl first ↦ ne (elim (Memᴰ.cases_cons first) [ inl e ↦ e | inr i ↦ elim i [ ] ])
              | inr deep ↦
                  let (r, given, p, q) = nests in
                  no_cycle a
                    (
                      r,
                      (deleted_others store trafo_of w s r (λ e. ne (cc))).0
                          ((grown.others r (λ e. ne (cc))).0 given),
                      p,
                      q,
                    )
                    (back deep)
            ]
          ])
    ]
