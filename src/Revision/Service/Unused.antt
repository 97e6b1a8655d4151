-- ===== src/Revision/Service/Unused.antt =====
-- On `is_unused`.
use hetida_designer.Prelude.{
  ℕ, ◌≡◌, ◌↔◌, inl, inr, refl, Bool, true, false, not, Option, none, some, Memᴰ, any, any-false,
  any-Memᴰ, filter_by-Memᴰ, Memᴰ-filter_by, ◌==◌, nat_eq, ==→≡, ≡→==, Bool-cases,
}
use hetida_designer.NestingTable.{NestingDbModel, find_all_nestings}
use hetida_designer.NestingTable.Chains.{Chain, direct, IsTransitive, Chain-Nests}
use hetida_designer.Operator.{disabled, state_eq}
use hetida_designer.Revision.Stored.{TransformationRevisionDbModel}
use hetida_designer.Revision.Service.{RevisionStore, Services, is_in_use, is_unused}

in_use_iff :
    (o : Option TransformationRevisionDbModel)
    → (is_in_use o ≡ false)
      ↔ ((m : TransformationRevisionDbModel) → o ≡ some m → m.state ≡ disabled)
in_use_iff none = (λ h m e. cc, λ h. refl)
in_use_iff (some row) = (
  λ h m e. elim (Bool-cases (row.state == disabled)) [
    | inl d ↦ rw (← found m e) (==→≡ row.state disabled d)
    | inr n ↦ cc (rw n at h)
  ],
  λ h. rw (≡→== row.state disabled (h row refl)) refl,
)
  where
    found : (m : TransformationRevisionDbModel) → some row ≡ some m → row ≡ m
    found m e = cc

module _ (store : RevisionStore) (services : Services) where
  rows_iff :
      (id : ℕ) (s : store.nestings.Session)
      → (is_unused store services id s ≡ true) ↔ (
          (nesting : NestingDbModel)
          → Memᴰ nesting (store.nestings.rows s)
          → nesting.nested_transformation_id ≡ id
          → (m : TransformationRevisionDbModel) → store.find s nesting.workflow_id ≡ some m
          → m.state ≡ disabled)
  unfolding is_unused find_all_nestings
  rows_iff id s = (
    λ h nesting member same. (in_use_iff (store.find s nesting.workflow_id)).0 (
        any-false used
          (filter_by-Memᴰ (λ r. r.nested_transformation_id == id) member
            (≡→== nesting.nested_transformation_id id same))
          (not_true (any used (find_all_nestings store.nestings s id)) h)),
    λ all. elim (Bool-cases (any used (find_all_nestings store.nestings s id))) [
      | inl some_used ↦
          let (nesting, m, u) = any-Memᴰ used (find_all_nestings store.nestings s id) some_used in
          let (member, same) =
            Memᴰ-filter_by (λ r. r.nested_transformation_id == id) (store.nestings.rows s) m in
          cc (
            (in_use_iff (store.find s nesting.workflow_id)).1
                (all nesting member (==→≡ nesting.nested_transformation_id id same)),
            u,
          )
      | inr none_used ↦ rw none_used refl
    ],
  )
    where
      used : NestingDbModel → Bool
      used nesting = is_in_use (store.find s nesting.workflow_id)

      not_true : (b : Bool) → not b ≡ true → b ≡ false
      not_true true h = cc
      not_true false h = refl

  -- On a transitive table of nestings, in which what a workflow contains through others has a row of
  -- its own, a revision counts as unused exactly if every stored workflow from which a chain of nestings
  -- of whatever length leads to it is disabled.
  pub is_unused_iff :
      (id : ℕ) (s : store.nestings.Session)
      → IsTransitive store.nestings s
      → (is_unused store services id s ≡ true) ↔ (
          (a : ℕ)
          → Chain store.nestings s a id
          → (m : TransformationRevisionDbModel) → store.find s a ≡ some m
          → m.state ≡ disabled)
  is_unused_iff id s transitive = (
    λ h a chain m found.
        (let (r, i, p, q) = Chain-Nests store.nestings s transitive chain in
          (rows_iff id s).0 h r i q m (rw p found)),
    λ all.
        (rows_iff id s).1 λ nesting i same m found.
          all nesting.workflow_id (direct (nesting, i, refl, same)) m found,
  )
