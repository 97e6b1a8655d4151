-- ===== src/Revision/Service/Select.antt =====
-- What a revision that is read from the table says of its row.
use hetida_designer.Prelude.{
  ℕ, ◌≡◌, refl, ap, ◌∙◌, Option, none, some, Result, ok, err, >>=-eq-ok, db_not_found,
}
use hetida_designer.Revision.{
  Content, TransformationRevision, filter_unnamed_operator_inputs_and_outputs,
}
use hetida_designer.Revision.Lifecycle.{Library}
use hetida_designer.Revision.Stored.{
  TransformationRevisionDbModel, from_orm_model, loaded_content, row_values, or_invalid_entry,
}
use hetida_designer.Revision.Rules.Validated.{model_validate-eq}
use hetida_designer.Revision.Service.{RevisionStore, Services, select_tr_by_id}

-- The revision was loaded from the row.
pub record Loaded (m : TransformationRevisionDbModel) (r : TransformationRevision) : Type 0 where
  pub id : r.id ≡ m.id
  pub state : r.state ≡ m.state
  pub type : r.type ≡ m.type
  pub loaded : Content
  pub column : loaded_content m.type m.workflow_content m.component_code ≡ ok loaded
  pub content : r.content ≡ filter_unnamed_operator_inputs_and_outputs loaded

or_invalid_entry-ok :
    {A : Type 0} (result : Result A) {a : A} → or_invalid_entry result ≡ ok a → result ≡ ok a
or_invalid_entry-ok (ok a) h = h
or_invalid_entry-ok (err e) h = cc

module _ (library : Library) where
  from_orm_model-Loaded :
      (m : TransformationRevisionDbModel) {r : TransformationRevision}
      → from_orm_model library m ≡ ok r
      → Loaded m r
  unfolding from_orm_model
  from_orm_model-Loaded m run =
      let (content, e1, e2) =
        >>=-eq-ok (loaded_content m.type m.workflow_content m.component_code) _
          (or_invalid_entry-ok _ run) in
      let (io, same) = model_validate-eq library (row_values m content) e2 in
      record {
        id = ap (λ r. r.id) same;
        state = ap (λ r. r.state) same;
        type = ap (λ r. r.type) same;
        loaded = content;
        column = e1;
        content = ap (λ r. r.content) same;
      }

pub select_tr_by_id-Loaded :
    (store : RevisionStore) (services : Services) (s : store.nestings.Session) (id : ℕ)
    {r : TransformationRevision}
    → select_tr_by_id store services s id ≡ ok r
    → (m : TransformationRevisionDbModel) × (store.find s id ≡ some m) × Loaded m r × (r.id ≡ id)
unfolding select_tr_by_id
select_tr_by_id-Loaded store services s id {r} run = go (store.find s id) refl run
  where
    go :
        (o : Option TransformationRevisionDbModel)
        → store.find s id ≡ o
        → (elim o [ none ↦ err db_not_found | some m ↦ from_orm_model services.library m ]) ≡ ok r
        → (m : TransformationRevisionDbModel) × (store.find s id ≡ some m)
          × Loaded m r
          × (r.id ≡ id)
    go none found h = cc
    go (some m) found h =
        let l = from_orm_model-Loaded services.library m h in
        (m, found, l, l.id ∙ store.find-id s id m found)
