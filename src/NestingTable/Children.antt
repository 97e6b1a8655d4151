-- ===== src/NestingTable/Children.antt =====
-- The loop of `update_nesting` over the operators, and what it adds to the table and to the disallowed
-- ancestors.
use mathlib.Core.List.Memᴰ
use hetida_designer.Prelude.{
  ℕ, ◌≡◌, ◌≢◌, ◌↔◌, inl, inr, refl, not, List, [], ◌∷◌, Memᴰ, Bool-cases, ◌==◌, nat_eq, ==→≡, ≡→==,
  Result, ok, >>=-eq-ok, >>-require, Exists, Exists-cons, Exists-iff, direct_cycle, if◌then◌else◌,
}
use hetida_designer.Operator.{Operator, workflow, trafo_type_eq}
use hetida_designer.NestingTable.{
  NestingDbModel, NestingStore, child_row, add_single_nesting,
  find_all_nested_transformation_revisions, add_descendants, add_child, add_children,
}
use hetida_designer.NestingTable.Rows.{
  IsTypedAt, Grows, Grows-refl, Grows-trans, Grows-iff, Grows-add,
}
use hetida_designer.NestingTable.Ancestors.{
  Extends, Extends-refl, Extends-trans, Extends-iff, iff-flip, sum_iff, iff_trans, to_left,
  iff_refl, none_of,
}
use hetida_designer.NestingTable.Descendants.{
  Deep, DeepRow, BringsRow, descendants_lem, found_typed, found-Deep, found-DeepRow, Nests-others,
}

module _ (store : NestingStore) (trafo_of : ℕ → ℕ) (w : ℕ) where
  abbrev Added :
      store.Session
      → store.Session
      → List ℕ
      → List ℕ
      → (NestingDbModel → Type 0)
      → (ℕ → Type 0)
      → Type 0
  Added s t before after New NewDeep = Grows store trafo_of w s t New × Extends before after NewDeep

  child_lem :
      (child : Operator) (s t : store.Session) (before after : List ℕ)
      → add_child store w child (s, before) ≡ ok (t, after)
      → IsTypedAt store trafo_of w s
      → child.transformation_id ≡ trafo_of child.id
      → (child.transformation_id ≢ w)
        × Added s t before after (λ r. BringsRow store w s r child) (λ b. Deep store s b child)
  unfolding add_child
  child_lem child s t before after h typed fits =
      let (u, step, rest) = >>=-eq-ok (add_single_nesting store (child_row w child) s) _ h in
      let (passed, last) =
        >>-require (not (child.transformation_id == w)) direct_cycle
          (if child.type == workflow
            then add_descendants store w child
                (find_all_nested_transformation_revisions store u child.transformation_id)
                (u, before)
            else ok (u, before))
          rest in
      let first = Grows-add store trafo_of w (child_row w child) s u step refl fits fits typed in
      let other : child.transformation_id ≢ w =
        λ e. cc (passed, ≡→== child.transformation_id w e) in
      (
        other,
        elim (Bool-cases (child.type == workflow)) [
          | inl is_workflow ↦
              let (more, listed) =
                descendants_lem store trafo_of w child
                  (find_all_nested_transformation_revisions store u child.transformation_id) u t
                  before after (rw is_workflow at last) first.typed fits
                  (found_typed store trafo_of w u child.transformation_id first.typed.0) in
              let typed_so = ==→≡ child.type workflow is_workflow in
              let deep = found-Deep store trafo_of w child s u first other typed_so in
              (
                Grows-iff store trafo_of w s t
                    (λ r.
                      sum_iff iff_refl
                        (found-DeepRow store trafo_of w child s u first other typed_so r))
                    (Grows-trans store trafo_of w s u t first more),
                Extends-iff before after deep listed,
              )
          | inr is_component ↦
              let run : ◌≡◌ {A = Result (store.Session × List ℕ)} (ok (u, before)) (ok (t, after)) =
                rw is_component at last in
              let e : u ≡ t = cc in
              let f : before ≡ after = cc in
              let shallow : (b : ℕ) → ⊥ ↔ Deep store s b child = λ b.
                (λ no. absurd no, λ deep. cc (is_component, ≡→== child.type workflow deep.0)) in
              let no_rows : (r : NestingDbModel) → ⊥ ↔ DeepRow store w s r child = λ r.
                (λ no. absurd no, λ deep. cc (is_component, ≡→== child.type workflow deep.0)) in
              (
                rw (← e) (Grows-iff store trafo_of w s u (λ r. to_left (no_rows r)) first),
                rw (← f) (Extends-iff before before shallow (Extends-refl before)),
              )
        ],
      )

  Deep-others :
      (o : Operator) (s t : store.Session) {New : NestingDbModel → Type 0} (b : ℕ)
      → Grows store trafo_of w s t New
      → o.transformation_id ≢ w
      → Deep store t b o ↔ Deep store s b o
  Deep-others o s t b g ne =
      let same = Nests-others store trafo_of w s t o.transformation_id b g ne in
      (λ d. (d.0, same.0 d.1), λ d. (d.0, same.1 d.1))

  DeepRow-others :
      (o : Operator) (s t : store.Session) {New : NestingDbModel → Type 0} (r : NestingDbModel)
      → Grows store trafo_of w s t New
      → o.transformation_id ≢ w
      → DeepRow store w t r o ↔ DeepRow store w s r o
  DeepRow-others o s t r g ne = (
    λ d. (let (is_wf, r', m, p, q) = d in (is_wf, r', (g.others r' (λ e. ne (cc))).0 m, p, q)),
    λ d. (let (is_wf, r', m, p, q) = d in (is_wf, r', (g.others r' (λ e. ne (cc))).1 m, p, q)),
  )

  -- What the operators bring, by the table before; and none of them is the workflow itself.
  pub children_lem :
      (ops : List Operator) (s t : store.Session) (before after : List ℕ)
      → add_children store w ops (s, before) ≡ ok (t, after)
      → IsTypedAt store trafo_of w s
      → ((op : Operator) → Memᴰ op ops → op.transformation_id ≡ trafo_of op.id)
      → ((op : Operator) → Memᴰ op ops → op.transformation_id ≢ w)
        × Added s t before after
            (λ r. Exists (BringsRow store w s r) ops)
            (λ b. Exists (Deep store s b) ops)
  unfolding add_children
  children_lem [] s t before after h typed fits =
      let e : s ≡ t = cc in
      let f : before ≡ after = cc in
      (
        λ op m. elim m [ ],
        (
          rw (← e)
              (Grows-iff store trafo_of w s s (λ r. none_of) (Grows-refl store trafo_of w s typed)),
          rw (← f) (Extends-iff before before (λ b. none_of) (Extends-refl before)),
        ),
      )
  children_lem (op ∷ ops) s t before after h typed fits =
      let (state, step, rest) = >>=-eq-ok (add_child store w op (s, before)) _ h in
      let (other, (first, listed)) =
        child_lem op s state.0 before state.1 step typed (fits op (Memᴰ.head refl)) in
      let (others, (more, further)) =
        children_lem ops state.0 t state.1 after rest first.typed (λ o m. fits o (Memᴰ.tail m)) in
      let deep : (b : ℕ) (o : Operator) → Memᴰ o ops → Deep store state.0 b o ↔ Deep store s b o =
        λ b o m. Deep-others o s state.0 b first (others o m) in
      (
        λ o m. elim (Memᴰ.cases_cons m) [ inl same ↦ rw same other | inr later ↦ others o later ],
        (
          Grows-iff store trafo_of w s t
              (λ r.
                iff_trans
                  (sum_iff iff_refl (
                    Exists-iff ops
                      (λ o m. sum_iff iff_refl (DeepRow-others o s state.0 r first (others o m)))))
                  (iff-flip (Exists-cons (BringsRow store w s r) op ops)))
              (Grows-trans store trafo_of w s state.0 t first more),
          Extends-iff before after
              (λ b.
                iff_trans (sum_iff iff_refl (Exists-iff ops (deep b)))
                  (iff-flip (Exists-cons (Deep store s b) op ops)))
              (Extends-trans before state.1 after listed further),
        ),
      )
