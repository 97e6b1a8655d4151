-- ===== src/NestingTable/Descendants.antt =====
-- The loop of `update_nesting` over the descendants of an operator, and the rows that it finds and adds.
use mathlib.Core.List.Memᴰ
use hetida_designer.Prelude.{
  ℕ, ◌≡◌, ◌≢◌, ◌↔◌, ◌⊎◌, refl, ap, sym, subst, ◌∙◌, List, [], ◌∷◌, Memᴰ, Memᴰ-filter_by,
  filter_by-Memᴰ, ◌==◌, nat_eq, ==→≡, ≡→==, ok, >>=-eq-ok, Exists, Exists-cons,
}
use hetida_designer.Operator.{Operator, workflow, trafo_type_eq}
use hetida_designer.NestingTable.{
  NestingDbModel, NestingStore, Descendant, to_descendant, child_row, descendant_row,
  add_single_nesting, find_all_nested_transformation_revisions, add_descendants,
}
use hetida_designer.NestingTable.Rows.{
  Nests, IsTyped, IsTypedAt, Grows, Grows-refl, Grows-trans, Grows-iff, Grows-add,
}
use hetida_designer.NestingTable.Ancestors.{
  Extends, Extends-refl, Extends-cons, Extends-trans, Extends-iff, iff-flip, iff_trans, none_of,
}

-- What an operator that is a workflow contains by the table.
abbrev pub Deep : (store : NestingStore) → store.Session → ℕ → Operator → Type 0
Deep store s b op = (op.type ≡ workflow) × Nests store s op.transformation_id b

-- What an operator brings into a workflow: its transformation, and what that contains.
abbrev pub Brings : (store : NestingStore) → store.Session → ℕ → Operator → Type 0
Brings store s b op = (op.transformation_id ≡ b) ⊎ Deep store s b op

-- The row of `w` that stands for a row of what the operator contains by the table.
abbrev pub DeepRow : (store : NestingStore) → ℕ → store.Session → NestingDbModel → Operator → Type 0
DeepRow store w s r op =
    (op.type ≡ workflow)
    × (r' : NestingDbModel) × Memᴰ r' (store.rows s)
    × (r'.workflow_id ≡ op.transformation_id)
    × (r ≡ descendant_row w op (to_descendant r'))

-- The rows of `w` that an operator brings.
abbrev pub BringsRow :
    (store : NestingStore) → ℕ → store.Session → NestingDbModel → Operator → Type 0
BringsRow store w s r op = (r ≡ child_row w op) ⊎ DeepRow store w s r op

abbrev pub SomeRow : ℕ → Operator → List Descendant → NestingDbModel → Type 0
SomeRow w child ds r = Exists (λ (d : Descendant). r ≡ descendant_row w child d) ds

abbrev pub SomeDescendant : List Descendant → ℕ → Type 0
SomeDescendant ds b = Exists (λ (d : Descendant). d.transformation_id ≡ b) ds

module _ (store : NestingStore) (trafo_of : ℕ → ℕ) (w : ℕ) where
  pub descendants_lem :
      (child : Operator) (ds : List Descendant) (s t : store.Session) (before after : List ℕ)
      → add_descendants store w child ds (s, before) ≡ ok (t, after)
      → IsTypedAt store trafo_of w s
      → child.transformation_id ≡ trafo_of child.id
      → ((d : Descendant) → Memᴰ d ds → d.transformation_id ≡ trafo_of d.operator_id)
      → Grows store trafo_of w s t (SomeRow w child ds) × Extends before after (SomeDescendant ds)
  unfolding add_descendants
  descendants_lem child [] s t before after h typed through fits =
      let e : s ≡ t = cc in
      let f : before ≡ after = cc in
      (
        rw (← e)
            (Grows-iff store trafo_of w s s (λ r. none_of) (Grows-refl store trafo_of w s typed)),
        rw (← f) (Extends-iff before before (λ b. none_of) (Extends-refl before)),
      )
  descendants_lem child (d ∷ ds) s t before after h typed through fits =
      let (u, step, rest) = >>=-eq-ok (add_single_nesting store (descendant_row w child d) s) _ h in
      let first =
        Grows-add store trafo_of w (descendant_row w child d) s u step refl through
          (fits d (Memᴰ.head refl)) typed in
      let (more, listed) =
        descendants_lem child ds u t (d.transformation_id ∷ before) after rest first.typed through
          (λ e m. fits e (Memᴰ.tail m)) in
      (
        Grows-iff store trafo_of w s t
            (λ r. iff-flip (Exists-cons (λ (e : Descendant). r ≡ descendant_row w child e) d ds))
            (Grows-trans store trafo_of w s u t first more),
        Extends-iff before after
            (λ b. iff-flip (Exists-cons (λ (e : Descendant). e.transformation_id ≡ b) d ds))
            (Extends-trans before (d.transformation_id ∷ before) after
              (Extends-cons d.transformation_id before) listed),
      )

  pub Nests-others :
      (s t : store.Session) {New : NestingDbModel → Type 0} (a b : ℕ)
      → Grows store trafo_of w s t New
      → a ≢ w
      → Nests store t a b ↔ Nests store s a b
  Nests-others s t a b g ne = (
    λ n. (let (r, m, p, q) = n in (r, (g.others r (λ e. ne (cc))).0 m, p, q)),
    λ n. (let (r, m, p, q) = n in (r, (g.others r (λ e. ne (cc))).1 m, p, q)),
  )

  found_lem :
      (s : store.Session) (c b : ℕ)
      → SomeDescendant (find_all_nested_transformation_revisions store s c) b ↔ Nests store s c b
  unfolding find_all_nested_transformation_revisions
  found_lem s c b = (
    λ n.
        (let (d, m, p) = n in
          let (r, member, e) = Memᴰ.of_map to_descendant _ m in
          let (given, at) = Memᴰ-filter_by (λ r. r.workflow_id == c) (store.rows s) member in
          (r, given, ==→≡ r.workflow_id c at, ap (λ (x : Descendant). x.transformation_id) e ∙ p)),
    λ n.
        (let (r, m, p, q) = n in
          (
            to_descendant r,
            Memᴰ.map to_descendant
                (filter_by-Memᴰ (λ r. r.workflow_id == c) m (≡→== r.workflow_id c p)),
            q,
          )),
  )

  found_rows :
      (child : Operator) (s : store.Session) (r : NestingDbModel)
      → SomeRow w child (find_all_nested_transformation_revisions store s child.transformation_id) r
        ↔ ((r' : NestingDbModel) × Memᴰ r' (store.rows s)
            × (r'.workflow_id ≡ child.transformation_id)
            × (r ≡ descendant_row w child (to_descendant r')))
  unfolding find_all_nested_transformation_revisions
  found_rows child s r = (
    λ n.
        (let (d, m, p) = n in
          let (r', member, e) = Memᴰ.of_map to_descendant _ m in
          let (given, at) =
            Memᴰ-filter_by (λ r. r.workflow_id == child.transformation_id) (store.rows s) member in
          (
            r',
            given,
            ==→≡ r'.workflow_id child.transformation_id at,
            p ∙ ap (descendant_row w child) (sym e),
          )),
    λ n.
        (let (r', m, p, q) = n in
          (
            to_descendant r',
            Memᴰ.map to_descendant (
                filter_by-Memᴰ (λ r. r.workflow_id == child.transformation_id) m
                  (≡→== r'.workflow_id child.transformation_id p)),
            q,
          )),
  )

  pub found_typed :
      (s : store.Session) (c : ℕ)
      → IsTyped store trafo_of s
      → (d : Descendant) → Memᴰ d (find_all_nested_transformation_revisions store s c)
      → d.transformation_id ≡ trafo_of d.operator_id
  unfolding find_all_nested_transformation_revisions
  found_typed s c typed d m =
      let (r, member, e) = Memᴰ.of_map to_descendant _ m in
      let (given, at) = Memᴰ-filter_by (λ r. r.workflow_id == c) (store.rows s) member in
      subst (λ (x : Descendant). x.transformation_id ≡ trafo_of x.operator_id) e (typed r given)

  pub found-Deep :
      (child : Operator) (s u : store.Session) {New : NestingDbModel → Type 0}
      → Grows store trafo_of w s u New
      → child.transformation_id ≢ w
      → child.type ≡ workflow
      → (b : ℕ)
      → SomeDescendant (find_all_nested_transformation_revisions store u child.transformation_id) b
        ↔ Deep store s b child
  found-Deep child s u g other is_workflow b = iff_trans (found_lem u child.transformation_id b) (
      iff_trans (Nests-others s u child.transformation_id b g other)
        (λ n. (is_workflow, n), λ d. d.1))

  pub found-DeepRow :
      (child : Operator) (s u : store.Session) {New : NestingDbModel → Type 0}
      → Grows store trafo_of w s u New
      → child.transformation_id ≢ w
      → child.type ≡ workflow
      → (r : NestingDbModel)
      → SomeRow w child (find_all_nested_transformation_revisions store u child.transformation_id) r
        ↔ DeepRow store w s r child
  found-DeepRow child s u g other is_workflow r = iff_trans (found_rows child u r) (
    λ n. (let (r', m, p, q) = n in (is_workflow, r', (g.others r' (λ e. other (cc))).0 m, p, q)),
    λ d. (let (is_wf, r', m, p, q) = d in (r', (g.others r' (λ e. other (cc))).1 m, p, q)),
  )
