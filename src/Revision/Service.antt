-- ===== src/Revision/Service.antt =====
-- runtime/hetdesrun/persistence/dbservice/revision.py: what the service does with the tables of
-- revisions and of nestings. The session of SQLAlchemy is a parameter: `RevisionStore` has the calls that
-- the code makes and what their documentation says. Reading component code is one too.
pub mod Select
pub mod Delete
pub mod Deprecation
pub mod Unused
pub mod Imports
use hetida_designer.Prelude.{
  ℕ, ◌≡◌, Bool, true, false, not, ◌&&◌, ◌||◌, Option, none, some, List, [], ◌∷◌, Memᴰ, map, any,
  filter_by, Text, ◌==◌, nat_eq, if◌then◌else◌, is_some, Result, ok, err, Error, ◌>>=◌, ◌>>◌,
  require, db_not_found, modify_forbidden, type_conflict, state_conflict, import_of_noncomponent,
  non_existing_import, draft_import, not_a_component, check_all,
}
use hetida_designer.NestingTable.{
  NestingDbModel, NestingStore, or_integrity_error, find_all_nestings, delete_own_nestings,
  update_nesting,
}
use hetida_designer.Operator.{
  Operator, TrafoType, component, workflow, trafo_type_eq, State, draft, disabled, state_eq,
}
use hetida_designer.Revision.{
  Content, code, workflow_content, TransformationRevision, with_operators,
}
use hetida_designer.Revision.Lifecycle.{Library, StripWirings, strip_wirings, with_content}
use hetida_designer.Revision.Stored.{TransformationRevisionDbModel, to_orm_model, from_orm_model}
use hetida_designer.Revision.Rules.{
  ComponentCode, with_operator_state, the_workflow, update_component_content, prepare_update,
}

-- `none` is the IntegrityError. A `select` after a call sees what the call did.
pub record RevisionStore : Type 1 where
  pub nestings : NestingStore
  pub find : nestings.Session → ℕ → Option TransformationRevisionDbModel
  pub add : TransformationRevisionDbModel → nestings.Session → Option nestings.Session
  pub update_row : TransformationRevisionDbModel → nestings.Session → Option nestings.Session
  pub delete_row : ℕ → nestings.Session → Option nestings.Session
  pub find-id :
      (s : nestings.Session) (id : ℕ) (m : TransformationRevisionDbModel)
      → find s id ≡ some m
      → m.id ≡ id
  pub find-update_row :
      (m : TransformationRevisionDbModel) (s t : nestings.Session)
      → update_row m s ≡ some t
      → is_some (find s m.id) ≡ true
      → (id : ℕ) → find t id ≡ (if m.id == id then some m else find s id)
  pub find-delete_row :
      (gone : ℕ) (s t : nestings.Session)
      → delete_row gone s ≡ some t
      → (id : ℕ) → find t id ≡ (if gone == id then none else find s id)
  pub rows-delete_row :
      (gone : ℕ) (s t : nestings.Session)
      → delete_row gone s ≡ some t
      → nestings.rows t ≡ nestings.rows s
  pub find-delete_where :
      (p : NestingDbModel → Bool) (s : nestings.Session) (id : ℕ)
      → find (nestings.delete_where p s) id ≡ find s id

abbrev pub import_error : Error → Error
import_error db_not_found = non_existing_import
import_error e = e

-- `except DBNotFoundError as e: raise ComponentImportNonExistingComponentError(...) from e`
abbrev pub or_non_existing {ℓ} : {A : Type ℓ} → Result A → Result A
or_non_existing (ok a) = ok a
or_non_existing (err e) = err (import_error e)

-- What the service calls beside the session: the models' library, the code of components, the ids that
-- a component's code imports, and the clock.
pub record Services : Type 0 where
  pub library : Library
  pub component_code : ComponentCode
  pub get_global_component_imports : Text → Result (List ℕ)
  pub now : ℕ

-- with `allow_everything_for_draft_components` and without `check_releasability`
unfoldable pub check_import : TransformationRevision → TransformationRevision → Result (Unit {0})
check_import importing trafo = do
  require (trafo.type == component) import_of_noncomponent
  require (not (not (importing.state == draft) && trafo.state == draft)) draft_import

unfoldable pub read_multiple :
    (ℕ → Result TransformationRevision) → List ℕ → Result (List TransformationRevision)
read_multiple reads [] = ok []
read_multiple reads (id ∷ ids) = do
  trafo ← reads id
  trafos ← read_multiple reads ids
  ok (trafo ∷ trafos)

unfoldable pub check_direct_component_imports :
    Services → (ℕ → Result TransformationRevision) → TransformationRevision → Result (Unit {0})
unfolding check_import read_multiple
check_direct_component_imports services reads importing =
    if importing.state == draft then ok tt else elim importing.content [
      | workflow_content c ↦ err not_a_component
      | code text ↦ do
        ids ← services.get_global_component_imports text
        trafos ← or_non_existing (read_multiple reads ids)
        check_all (check_import importing) trafos
    ]

-- The operators that a nesting goes through are disabled.
unfoldable pub disable_operators : ℕ → List Operator → List Operator
disable_operators via_operator_id operators =
    map
      (λ operator.
        if operator.id == via_operator_id then with_operator_state disabled operator else operator)
      operators

abbrev pub is_in_use : Option TransformationRevisionDbModel → Bool
is_in_use none = false
is_in_use (some m) = not (m.state == disabled)

module _ (store : RevisionStore) (services : Services) where
  open store.nestings use {Session}

  unfoldable pub select_tr_by_id : Session → ℕ → Result TransformationRevision
  unfolding from_orm_model
  select_tr_by_id s id = elim (store.find s id) [
    | none ↦ err db_not_found
    | some m ↦ from_orm_model services.library m
  ]

  unfoldable pub add_tr : TransformationRevision → Session → Result Session
  unfolding to_orm_model
  add_tr r s = or_integrity_error (store.add (to_orm_model r) s)

  unfoldable pub update_tr : TransformationRevision → Session → Result Session
  unfolding to_orm_model
  update_tr r s = or_integrity_error (store.update_row (to_orm_model r) s)

  unfoldable pub pass_on : NestingDbModel → Session → Result Session
  unfolding select_tr_by_id update_tr the_workflow disable_operators with_operators
  pass_on nesting s = do
    r ← select_tr_by_id s nesting.workflow_id
    c ← the_workflow r.content
    update_tr
        (with_content r
          (workflow_content
            (with_operators c (disable_operators nesting.via_operator_id c.operators)))
          r.io_interface)
        s

  unfoldable pub pass_on_all : List NestingDbModel → Session → Result Session
  unfolding pass_on
  pass_on_all [] s = ok s
  pass_on_all (nesting ∷ sup_nestings) s = pass_on nesting s >>= pass_on_all sup_nestings

  unfoldable pub pass_on_deprecation : ℕ → Session → Result Session
  unfolding pass_on_all find_all_nestings
  pass_on_deprecation id s = pass_on_all (find_all_nestings store.nestings s id) s

  -- The arguments besides the revision, without those of `strip_wirings`.
  unfoldable pub write_revision :
      Bool
      → Bool
      → Bool
      → TransformationRevision
      → Session
      → Result (TransformationRevision × Session)
  unfolding select_tr_by_id update_component_content add_tr prepare_update update_tr
  write_revision overwrite update_code expand given s = elim (select_tr_by_id s given.id) [
    | err db_not_found ↦ do
      it ←
          if given.type == component && update_code
          then update_component_content services.library services.component_code given expand
          else ok given
      t ← add_tr it s
      ok (it, t)
    | err e ↦ err e
    | ok existing ↦ do
      it ←
          prepare_update services.library services.component_code services.now (select_tr_by_id s)
            overwrite update_code expand existing given
      t ← update_tr it s
      ok (it, t)
  ]

  unfoldable pub update_or_create_single_transformation_revision :
      StripWirings
      → Bool
      → Bool
      → Bool
      → TransformationRevision
      → Session
      → Result (TransformationRevision × Session)
  unfolding strip_wirings check_direct_component_imports write_revision pass_on_deprecation
      update_nesting the_workflow select_tr_by_id
  update_or_create_single_transformation_revision strips overwrite update_code expand revision s =
      do
        let given = strip_wirings strips revision
        if given.type == component
            then check_direct_component_imports services (select_tr_by_id s) given
            else ok tt
        written ← write_revision overwrite update_code expand given s
        t ←
            if written.0.state == disabled
            then pass_on_deprecation written.0.id written.1
            else if written.0.type == workflow
            then (do
              c ← the_workflow written.0.content
              update_nesting store.nestings written.0.id c.operators written.1)
            else ok written.1
        r ← select_tr_by_id t written.0.id
        ok (r, t)

  unfoldable pub delete_tr : ℕ → Session → Result Session
  delete_tr id s = or_integrity_error (store.delete_row id s)

  abbrev pub check_type : Option TrafoType → TrafoType → Result (Unit {0})
  check_type none type = ok tt
  check_type (some wanted) type = require (type == wanted) type_conflict

  unfoldable pub delete_single_transformation_revision :
      ℕ → Option TrafoType → Bool → Session → Result Session
  unfolding select_tr_by_id delete_own_nestings delete_tr
  delete_single_transformation_revision id type ignore_state s = do
    r ← select_tr_by_id s id
    check_type type r.type
    require (not (not ignore_state && not (r.state == draft))) state_conflict
    delete_tr r.id (delete_own_nestings store.nestings r.id s)

  -- The select gives the revisions whose id is that of a containing workflow and whose state is not
  -- disabled: it is empty if none of these workflows is stored in another state.
  unfoldable pub is_unused : ℕ → Session → Bool
  unfolding find_all_nestings
  is_unused id s = not (
      any (λ nesting. is_in_use (store.find s nesting.workflow_id))
        (find_all_nestings store.nestings s id))
