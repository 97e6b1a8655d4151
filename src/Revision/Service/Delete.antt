-- ===== src/Revision/Service/Delete.antt =====
-- On `delete_single_transformation_revision`.
use hetida_designer.Prelude.{
  ℕ, ◌≡◌, ◌≢◌, ◌⊎◌, inl, inr, refl, sym, ap, ◌∙◌, Bool, true, not, ◌&&◌, Option, none, some, ◌==◌,
  nat_eq, ==→≡, ==_self, Bool-cases, if◌then◌else◌, filter_by, ok, >>=-eq-ok, >>-require, >>-ok_iff,
  require_iff,
}
use hetida_designer.NestingTable.{or_integrity_error, delete_own_nestings}
use hetida_designer.Operator.{TrafoType, draft, state_eq, trafo_type_eq}
use hetida_designer.Revision.{TransformationRevision}
use hetida_designer.Revision.Stored.{TransformationRevisionDbModel}
use hetida_designer.Revision.Service.{
  RevisionStore, Services, select_tr_by_id, delete_tr, check_type,
  delete_single_transformation_revision,
}
use hetida_designer.Revision.Service.Select.{select_tr_by_id-Loaded}

-- The revision was there, and only it and its rows of nestings are gone.
pub record Deleted (store : RevisionStore) (id : ℕ) (row : TransformationRevisionDbModel)
    (s t : store.nestings.Session) : Type 0 where
  pub was_there : store.find s id ≡ some row
  pub gone : store.find t id ≡ none
  pub others : (other : ℕ) → other ≢ id → store.find t other ≡ store.find s other
  pub nestings :
      store.nestings.rows t ≡ filter_by (λ r. not (r.workflow_id == id)) (store.nestings.rows s)

pub integrity-some : {A : Type 0} (o : Option A) {a : A} → or_integrity_error o ≡ ok a → o ≡ some a
integrity-some none h = cc
integrity-some (some a) h = cc

module _ (store : RevisionStore) (services : Services) where
  Deleted-of_calls :
      (id : ℕ) (s t : store.nestings.Session) (r : TransformationRevision)
      (m : TransformationRevisionDbModel)
      → store.find s id ≡ some m
      → r.id ≡ id
      → delete_tr store services r.id (delete_own_nestings store.nestings r.id s) ≡ ok t
      → Deleted store id m s t
  unfolding delete_tr delete_own_nestings
  Deleted-of_calls id s t r m found same run =
      let own = store.nestings.delete_where (λ n. n.workflow_id == id) s in
      let done = integrity-some (store.delete_row id own) (rw same at run) in
      record {
        was_there = found;
        gone = store.find-delete_row id own t done id ∙ gone_case (store.find own id);
        others = λ other ne.
            store.find-delete_row id own t done other
            ∙ other_case other ne own
            ∙ store.find-delete_where (λ n. n.workflow_id == id) s other;
        nestings =
            store.rows-delete_row id own t done
            ∙ store.nestings.rows-delete (λ n. n.workflow_id == id) s;
      }
    where
      gone_case : {A : Type 0} (a : Option A) → (if id == id then none else a) ≡ none
      gone_case a = rw (==_self id) refl

      other_case :
          (other : ℕ)
          → other ≢ id
          → (own : store.nestings.Session)
          → (if id == other then none else store.find own other) ≡ store.find own other
      other_case other ne own = elim (Bool-cases (id == other)) [
        | inl same ↦ absurd (ne (sym (==→≡ id other same)))
        | inr apart ↦ rw apart refl
      ]

  check_type-cases :
      (type : Option TrafoType) (found : TrafoType)
      → check_type store services type found ≡ ok tt
      → (type ≡ none) ⊎ (type ≡ some found)
  check_type-cases none found h = inl refl
  check_type-cases (some wanted) found h =
      inr (ap some (sym (==→≡ found wanted ((require_iff _ _).0 h))))

  -- A deletion that returns has removed the revision, which was there, with its rows of nestings and
  -- nothing else; its type was the wanted one, if one was named, and it was a draft, if its state was
  -- not ignored.
  pub delete_single_transformation_revision-Deleted :
      (id : ℕ) (type : Option TrafoType) (ignore_state : Bool) (s t : store.nestings.Session)
      → delete_single_transformation_revision store services id type ignore_state s ≡ ok t
      → (row : TransformationRevisionDbModel) × Deleted store id row s t
        × ((type ≡ none) ⊎ (type ≡ some row.type))
        × ((ignore_state ≡ true) ⊎ (row.state ≡ draft))
  unfolding delete_single_transformation_revision
  delete_single_transformation_revision-Deleted id type ignore_state s t run =
      let (r, e1, r1) = >>=-eq-ok (select_tr_by_id store services s id) _ run in
      let (typed, r2) = (>>-ok_iff (check_type store services type r.type) _).0 r1 in
      let (free, r3) = >>-require (not (not ignore_state && not (r.state == draft))) _ _ r2 in
      let (m, found, loaded, same) = select_tr_by_id-Loaded store services s id e1 in
      (
        m,
        Deleted-of_calls id s t r m found same r3,
        rw (← loaded.type) (check_type-cases type r.type typed),
        elim (Bool-cases ignore_state) [
          | inl ignored ↦ inl ignored
          | inr strict ↦ elim (Bool-cases (r.state == draft)) [
            | inl is_draft ↦ inr (sym loaded.state ∙ ==→≡ r.state draft is_draft)
            | inr other ↦ cc (rw (strict, other) at free)
          ]
        ],
      )
