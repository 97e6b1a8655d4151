-- ===== src/NestingTable/Update.antt =====
-- `update_nesting`: the rows that it leaves behind, and what they say.
use hetida_designer.Prelude.{
  ℕ, ◌+◌, ◌≡◌, ◌≢◌, ◌↔◌, ◌⊎◌, inl, inr, refl, ap, sym, ◌∙◌, true, not, List, [], ◌∷◌, Exists,
  Exists-iff, filter_by-Memᴰ, ◌==◌, nat_eq, ≡→==, ok, >>=-eq-ok, >>-require, any, Memᴰ-any, Memᴰ,
  ancestor_cycle,
}
use hetida_designer.Operator.{Operator, workflow}
use hetida_designer.NestingTable.{
  NestingDbModel, NestingStore, to_descendant, child_row, descendant_row, find_all_nestings,
  delete_own_nestings, add_children, update_nesting,
}
use hetida_designer.NestingTable.Rows.{Nests, IsTyped, Grows, row_ext}
use hetida_designer.NestingTable.Descendants.{Deep, Brings, BringsRow}
use hetida_designer.NestingTable.Children.{children_lem}
use hetida_designer.NestingTable.Deleted.{
  deleted_others, deleted_own, deleted-IsTypedAt, deleted-Deep,
}

-- The row is one that the operator brings into the workflow `w`: that of the operator itself, or, for a
-- workflow, one that passes on a row of the table one level deeper.
abbrev pub IsBrought :
    (store : NestingStore) → store.Session → ℕ → NestingDbModel → Operator → Type 0
IsBrought store s w r op =
    (r.workflow_id ≡ w)
    × (r.via_transformation_id ≡ op.transformation_id)
    × (r.via_operator_id ≡ op.id)
    × (((r.depth ≡ 1)
          × (r.nested_transformation_id ≡ op.transformation_id)
          × (r.nested_operator_id ≡ op.id))
        ⊎ ((op.type ≡ workflow)
            × (r' : NestingDbModel) × Memᴰ r' (store.rows s)
            × (r'.workflow_id ≡ op.transformation_id)
            × (r.depth ≡ 1 + r'.depth)
            × (r.nested_transformation_id ≡ r'.nested_transformation_id)
            × (r.nested_operator_id ≡ r'.nested_operator_id)))

BringsRow-iff :
    (store : NestingStore) (s : store.Session) (w : ℕ) (r : NestingDbModel) (op : Operator)
    → BringsRow store w s r op ↔ IsBrought store s w r op
BringsRow-iff store s w r op = (
  λ b. elim b [
    | inl e ↦ (
      ap (λ x. x.workflow_id) e,
      ap (λ x. x.via_transformation_id) e,
      ap (λ x. x.via_operator_id) e,
      inl (
        ap (λ x. x.depth) e,
        ap (λ x. x.nested_transformation_id) e,
        ap (λ x. x.nested_operator_id) e,
      ),
    )
    | inr (is_wf, r', m, p, e) ↦ (
      ap (λ x. x.workflow_id) e,
      ap (λ x. x.via_transformation_id) e,
      ap (λ x. x.via_operator_id) e,
      inr (
        is_wf,
        r',
        m,
        p,
        ap (λ x. x.depth) e,
        ap (λ x. x.nested_transformation_id) e,
        ap (λ x. x.nested_operator_id) e,
      ),
    )
  ],
  λ (a, b, c, n). elim n [
    | inl (d, e, f) ↦ inl (row_ext r (child_row w op) a b c d e f)
    | inr (is_wf, r', m, p, d, e, f) ↦
        inr (is_wf, r', m, p, row_ext r (descendant_row w op (to_descendant r')) a b c d e f)
  ],
)

module _ (store : NestingStore) (trafo_of : ℕ → ℕ) (w : ℕ) where
  -- What the rows that the operators bring say.
  pub own_nests :
      (ops : List Operator) (s start t : store.Session) (b : ℕ)
      → Grows store trafo_of w start t (λ r. Exists (BringsRow store w s r) ops)
      → Nests store t w b ↔ (Nests store start w b ⊎ Exists (Brings store s b) ops)
  own_nests ops s start t b g = (
    λ n.
        (let (r, m, p, q) = n in
          elim ((g.own r p).0 m) [
            | inl old ↦ inl (r, old, p, q)
            | inr (op, i, brings) ↦ inr (
              op,
              i,
              elim brings [
                | inl e ↦ inl (sym (ap (λ x. x.nested_transformation_id) e) ∙ q)
                | inr (is_wf, r', m', p', e) ↦
                    inr (is_wf, (r', m', p', sym (ap (λ x. x.nested_transformation_id) e) ∙ q))
              ],
            )
          ]),
    λ n. elim n [
      | inl (r, m, p, q) ↦ (r, (g.own r p).1 (inl m), p, q)
      | inr (op, i, brings) ↦ elim brings [
        | inl e ↦ (child_row w op, (g.own (child_row w op) refl).1 (inr (op, i, inl refl)), refl, e)
        | inr (is_wf, (r', m, p, q)) ↦
            let x = descendant_row w op (to_descendant r') in
            (x, (g.own x refl).1 (inr (op, i, inr (is_wf, r', m, p, refl))), refl, q)
      ]
    ],
  )

  brought :
      (ops : List Operator) (s t : store.Session) (b : ℕ)
      → ((op : Operator) → Memᴰ op ops → Deep store s b op ↔ Deep store t b op)
      → Exists (Brings store s b) ops ↔ Exists (Brings store t b) ops
  brought ops s t b same = Exists-iff ops λ op m. (
    λ n. elim n [ inl e ↦ inl e | inr d ↦ inr ((same op m).0 d) ],
    λ n. elim n [ inl e ↦ inl e | inr d ↦ inr ((same op m).1 d) ],
  )

  IsBrought-rows :
      (ops : List Operator) (s : store.Session) (r : NestingDbModel)
      → ((op : Operator) → Memᴰ op ops → op.transformation_id ≢ w)
      → Exists (BringsRow store w (delete_own_nestings store w s) r) ops
        ↔ Exists (IsBrought store s w r) ops
  IsBrought-rows ops s r other = Exists-iff ops λ op i. (
    λ b. (BringsRow-iff store s w r op).0 (elim b [
      | inl e ↦ inl e
      | inr (is_wf, r', m, p, e) ↦
          inr (is_wf, r', (deleted_others store trafo_of w s r' (λ x. other op i (cc))).0 m, p, e)
    ]),
    λ b. elim ((BringsRow-iff store s w r op).1 b) [
      | inl e ↦ inl e
      | inr (is_wf, r', m, p, e) ↦
          inr (is_wf, r', (deleted_others store trafo_of w s r' (λ x. other op i (cc))).1 m, p, e)
    ],
  )

  -- What an update that returns has done.
  pub record Updated (ops : List Operator) (s t : store.Session) : Type 0 where
    pub others :
        (r : NestingDbModel) → r.workflow_id ≢ w → Memᴰ r (store.rows t) ↔ Memᴰ r (store.rows s)
    pub own_rows :
        (r : NestingDbModel)
        → r.workflow_id ≡ w
        → Memᴰ r (store.rows t) ↔ Exists (IsBrought store s w r) ops
    pub own : (b : ℕ) → Nests store t w b ↔ Exists (Brings store s b) ops
    pub not_itself : ¬ Nests store t w w

  no_ancestor :
      (t : store.Session) (dis : List ℕ)
      → not (
          any
            (λ (r : NestingDbModel). any (λ id. id == r.workflow_id) dis)
            (find_all_nestings store t w))
        ≡ true
      → (a : ℕ) → Nests store t a w
      → ¬ Memᴰ a dis
  unfolding find_all_nestings
  no_ancestor t dis h a (r, m, p, q) listed =
      let at_w =
        filter_by-Memᴰ (λ x. x.nested_transformation_id == w) m
          (≡→== r.nested_transformation_id w q) in
      let disallowed = Memᴰ-any (λ id. id == r.workflow_id) listed (≡→== a r.workflow_id (sym p)) in
      cc (h, Memᴰ-any (λ (x : NestingDbModel). any (λ id. id == x.workflow_id) dis) at_w disallowed)

  pub updated_lem :
      (ops : List Operator) (s t : store.Session)
      → update_nesting store w ops s ≡ ok t
      → IsTyped store trafo_of s
      → ((op : Operator) → Memᴰ op ops → op.transformation_id ≡ trafo_of op.id)
      → Updated ops s t
  unfolding update_nesting
  updated_lem ops s t h typed fits =
      let start = delete_own_nestings store w s in
      let (state, run, rest) = >>=-eq-ok (add_children store w ops (start, w ∷ [])) _ h in
      let (passed, last) =
        >>-require
          (not (
            any (λ (r : NestingDbModel). any (λ id. id == r.workflow_id) state.1)
              (find_all_nestings store state.0 w)))
          ancestor_cycle (ok state.0) rest in
      let same : state.0 ≡ t = cc in
      let (other, (grown, listed)) =
        children_lem store trafo_of w ops start state.0 (w ∷ []) state.1 run
          (deleted-IsTypedAt store trafo_of w s typed) fits in
      let deep : (b : ℕ) (op : Operator) → Memᴰ op ops → Deep store start b op ↔ Deep store s b op =
        λ b op m. deleted-Deep store trafo_of w s op b (other op m) in
      rw (← same) (record {
        others = λ r ne. (
          λ m. (deleted_others store trafo_of w s r ne).0 ((grown.others r ne).0 m),
          λ m. (grown.others r ne).1 ((deleted_others store trafo_of w s r ne).1 m),
        );
        own_rows = λ r at. (
          λ m. elim ((grown.own r at).0 m) [
            | inl old ↦
                absurd
                  (deleted_own store trafo_of w s r.nested_transformation_id (r, old, at, refl))
            | inr new ↦ (IsBrought-rows ops s r other).0 new
          ],
          λ n. (grown.own r at).1 (inr ((IsBrought-rows ops s r other).1 n)),
        );
        own = λ b. (
          λ n. elim ((own_nests ops start start state.0 b grown).0 n) [
            | inl old ↦ absurd (deleted_own store trafo_of w s b old)
            | inr new ↦ (brought ops start s b (deep b)).0 new
          ],
          λ n.
              (own_nests ops start start state.0 b grown).1
                (inr ((brought ops start s b (deep b)).1 n)),
        );
        not_itself =
            λ n. no_ancestor state.0 state.1 passed w n ((listed w).1 (inl (Memᴰ.head refl)));
      })

  pub old :
      (ops : List Operator) (s t : store.Session)
      → Updated ops s t
      → (a b : ℕ) → a ≢ w
      → Nests store t a b
      → Nests store s a b
  old ops s t u a b ne (r, m, p, q) = (r, (u.others r (λ e. ne (cc))).0 m, p, q)

-- If the update returns, then the rows of the workflow are exactly those that its operators bring, in
-- all columns: for each operator the row of depth 1 that names it, and, for an operator that is a
-- workflow, each row that the table before has for that workflow, one level deeper and reached through
-- the operator. No row of another workflow has changed. The condition is that an operator id names one
-- transformation revision, in the rows of the table before and among the operators.
pub update_nesting-Brings :
    (store : NestingStore) (trafo_of : ℕ → ℕ) (w : ℕ) (ops : List Operator) (s t : store.Session)
    → update_nesting store w ops s ≡ ok t
    → IsTyped store trafo_of s
    → ((op : Operator) → Memᴰ op ops → op.transformation_id ≡ trafo_of op.id)
    → ((r : NestingDbModel)
        → r.workflow_id ≡ w
        → Memᴰ r (store.rows t) ↔ Exists (IsBrought store s w r) ops)
      × ((r : NestingDbModel) → r.workflow_id ≢ w → Memᴰ r (store.rows t) ↔ Memᴰ r (store.rows s))
update_nesting-Brings store trafo_of w ops s t h typed fits =
    let u = updated_lem store trafo_of w ops s t h typed fits in (u.own_rows, u.others)
