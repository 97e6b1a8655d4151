-- ===== src/NestingTable/Acyclic.antt =====
-- `update_nesting` and cycles: chains of nestings in the table that it leaves behind.
use hetida_designer.Prelude.{ℕ, ◌≡◌, ◌≢◌, ◌⊎◌, inl, inr, List, Memᴰ, ℕ_discrete, ok}
use hetida_designer.Operator.{Operator, workflow}
use hetida_designer.NestingTable.{NestingStore, update_nesting}
use hetida_designer.NestingTable.Rows.{Nests, IsTyped}
use hetida_designer.NestingTable.Chains.{Chain, direct, through, IsTransitive, IsAcyclic}
use hetida_designer.NestingTable.Update.{Updated, updated_lem, old}

module _ (store : NestingStore) (trafo_of : ℕ → ℕ) (w : ℕ) (ops : List Operator)
    (s t : store.Session) (u : Updated store trafo_of w ops s t)
    (workflows : (op : Operator) (b : ℕ)
      → Memᴰ op ops
      → Nests store s op.transformation_id b
      → op.type ≡ workflow)
    (transitive : IsTransitive store s) where
  -- What the workflow contains by the table afterwards, it contains with all that this contains.
  own_step : (b c : ℕ) → Nests store t w b → Nests store s b c → Nests store t w c
  own_step b c n m =
      let (op, i, brings) = (u.own b).0 n in
      (u.own c).1 (elim brings [
        | inl e ↦
            let deep : Nests store s op.transformation_id c = rw e m in
            (op, i, inr (workflows op c i deep, deep))
        | inr (is_wf, deep) ↦ (op, i, inr (is_wf, transitive op.transformation_id b c deep m))
      ])

  abbrev FromOther : ℕ → ℕ → Type 0
  FromOther a c = (a ≢ w) × Nests store s a c

  -- A chain either stands for an old row of another workflow, or it comes to the workflow and goes on.
  Chain-cases :
      {a c : ℕ}
      → Chain store t a c
      → FromOther a c ⊎ (((a ≡ w) ⊎ FromOther a w) × Nests store t w c)
  Chain-cases (direct {a} {b} n) = elim (ℕ_discrete a w) [
    | yes e ↦ inr (inl e, rw e at n)
    | no ne ↦ inl (ne, old store trafo_of w ops s t u a b ne n)
  ]
  Chain-cases (through {a} {b} {c} n chain) = elim (ℕ_discrete a w) [
    | yes e ↦ starts e (rw e at n) (Chain-cases chain)
    | no ne ↦ passes ne (old store trafo_of w ops s t u a b ne n) (Chain-cases chain)
  ]
    where
      starts :
          a ≡ w
          → Nests store t w b
          → FromOther b c ⊎ (((b ≡ w) ⊎ FromOther b w) × Nests store t w c)
          → FromOther a c ⊎ (((a ≡ w) ⊎ FromOther a w) × Nests store t w c)
      starts e n (inl (ne, m)) = inr (inl e, own_step b c n m)
      starts e n (inr (inl f, m)) = inr (inl e, m)
      starts e n (inr (inr f, m)) = inr (inl e, m)

      passes :
          a ≢ w
          → Nests store s a b
          → FromOther b c ⊎ (((b ≡ w) ⊎ FromOther b w) × Nests store t w c)
          → FromOther a c ⊎ (((a ≡ w) ⊎ FromOther a w) × Nests store t w c)
      passes ne n (inl (_, m)) = inl (ne, transitive a b c n m)
      passes ne n (inr (inl f, m)) = inr (inr (ne, rw f at n), m)
      passes ne n (inr (inr (_, k), m)) = inr (inr (ne, transitive a b w n k), m)

  IsAcyclic-after : IsAcyclic store s → IsAcyclic store t
  IsAcyclic-after before a chain = elim (Chain-cases chain) [
    | inl (ne, n) ↦ before a (direct n)
    | inr (inl e, n) ↦ u.not_itself (rw e at n)
    | inr (inr (ne, m), n) ↦ u.not_itself (own_step a w n m)
  ]

  IsTransitive-after : ((a : ℕ) → ¬ Nests store s a w) → IsTransitive store t
  IsTransitive-after uncontained a b c n m = elim (ℕ_discrete b w) [
    | yes e ↦ elim (ℕ_discrete a w) [
      | yes f ↦ absurd (u.not_itself (rw (e, f) at n))
      | no ne ↦ absurd (uncontained a (rw e at (old store trafo_of w ops s t u a b ne n)))
    ]
    | no other ↦
        let kept = old store trafo_of w ops s t u b c other m in
        elim (ℕ_discrete a w) [
          | yes f ↦ rw f (own_step b c (rw f at n) kept)
          | no ne ↦
              let (r, i, p, q) = transitive a b c (old store trafo_of w ops s t u a b ne n) kept in
              (r, (u.others r (λ e. ne (cc))).1 i, p, q)
        ]
  ]

-- An update that returns leaves no chain of nestings, of whatever length, that leads back to its start,
-- if there was none before and the table before is transitive: what a workflow contains through others
-- has a row of its own. The further conditions are that an operator id names one transformation
-- revision, and that the operators whose transformations contain something by the table before have the
-- type of workflows.
pub update_nesting-IsAcyclic :
    (store : NestingStore) (trafo_of : ℕ → ℕ) (w : ℕ) (ops : List Operator) (s t : store.Session)
    → update_nesting store w ops s ≡ ok t
    → IsTyped store trafo_of s
    → ((op : Operator) → Memᴰ op ops → op.transformation_id ≡ trafo_of op.id)
    → ((op : Operator) (b : ℕ)
        → Memᴰ op ops
        → Nests store s op.transformation_id b
        → op.type ≡ workflow)
    → IsTransitive store s
    → IsAcyclic store s
    → IsAcyclic store t
update_nesting-IsAcyclic store trafo_of w ops s t h typed fits workflows transitive before =
    IsAcyclic-after store trafo_of w ops s t (updated_lem store trafo_of w ops s t h typed fits)
      workflows transitive before

-- An update of a workflow that nothing contains by the table keeps the table transitive, under the
-- same conditions on the ids and types of operators.
pub update_nesting-IsTransitive :
    (store : NestingStore) (trafo_of : ℕ → ℕ) (w : ℕ) (ops : List Operator) (s t : store.Session)
    → update_nesting store w ops s ≡ ok t
    → IsTyped store trafo_of s
    → ((op : Operator) → Memᴰ op ops → op.transformation_id ≡ trafo_of op.id)
    → ((op : Operator) (b : ℕ)
        → Memᴰ op ops
        → Nests store s op.transformation_id b
        → op.type ≡ workflow)
    → IsTransitive store s
    → ((a : ℕ) → ¬ Nests store s a w)
    → IsTransitive store t
update_nesting-IsTransitive store trafo_of w ops s t h typed fits workflows transitive uncontained =
    IsTransitive-after store trafo_of w ops s t (updated_lem store trafo_of w ops s t h typed fits)
      workflows transitive uncontained
