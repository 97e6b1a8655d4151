-- ===== src/NestingTable.antt =====
-- runtime/hetdesrun/persistence/dbservice/nesting.py: the table that says which transformation
-- revisions are nested in which workflows, over a store of its rows. The session of SQLAlchemy is a
-- parameter: `NestingStore` has the calls that the code makes and what their documentation says.
pub mod Rows
pub mod Ancestors
pub mod Descendants
pub mod Children
pub mod Deleted
pub mod Update
pub mod Chains
pub mod Acyclic
pub mod Built
pub mod Returns
use hetida_designer.Prelude.{
  ℕ, ◌+◌, ◌≡◌, ◌≢◌, ◌↔◌, ◌⊎◌, Bool, true, not, ◌&&◌, Option, none, some, List, [], ◌∷◌, Memᴰ,
  filter_by, any, ◌==◌, nat_eq, if◌then◌else◌, Result, ok, err, ◌>>=◌, ◌>>◌, require, db_integrity,
  direct_cycle, ancestor_cycle, map,
}
use hetida_designer.Operator.{Operator, TrafoType, workflow, trafo_type_eq}

-- A row of the table `nestings`.
pub record NestingDbModel : Type 0 where
  pub workflow_id : ℕ
  pub via_transformation_id : ℕ
  pub via_operator_id : ℕ
  pub depth : ℕ
  pub nested_transformation_id : ℕ
  pub nested_operator_id : ℕ

-- The columns of the primary key agree.
unfoldable pub same_key : NestingDbModel → NestingDbModel → Bool
same_key a b =
    a.workflow_id == b.workflow_id
    && (a.via_operator_id == b.via_operator_id
        && (a.depth == b.depth && a.nested_operator_id == b.nested_operator_id))

-- The parameters of `update_nesting` that stand for the session. SQLAlchemy sends a merged row at the
-- next flush; the model does it at the merge, where the code catches an IntegrityError.
-- `merge` takes the place of a row with the same primary key, or adds a row; `none` is the
-- IntegrityError. A `select` after it sees the row.
pub record NestingStore : Type 1 where
  pub Session : Type 0
  pub rows : Session → List NestingDbModel
  pub merge : NestingDbModel → Session → Option Session
  pub delete_where : (NestingDbModel → Bool) → Session → Session
  pub rows-merge :
      (x : NestingDbModel) (s s' : Session)
      → merge x s ≡ some s'
      → (r : NestingDbModel)
      → Memᴰ r (rows s') ↔ ((r ≡ x) ⊎ (Memᴰ r (rows s) × (same_key x r ≢ true)))
  pub rows-delete :
      (p : NestingDbModel → Bool) (s : Session)
      → rows (delete_where p s) ≡ filter_by (λ r. not (p r)) (rows s)

pub record Descendant : Type 0 where
  pub depth : ℕ
  pub transformation_id : ℕ
  pub operator_id : ℕ

abbrev pub to_descendant : NestingDbModel → Descendant
to_descendant r = record {
  depth = r.depth;
  transformation_id = r.nested_transformation_id;
  operator_id = r.nested_operator_id;
}

abbrev pub or_integrity_error {ℓ} : {A : Type ℓ} → Option A → Result A
or_integrity_error none = err db_integrity
or_integrity_error (some a) = ok a

-- the row of an operator of the workflow
abbrev pub child_row : ℕ → Operator → NestingDbModel
child_row workflow_id child = record {
  workflow_id = workflow_id;
  via_transformation_id = child.transformation_id;
  via_operator_id = child.id;
  depth = 1;
  nested_transformation_id = child.transformation_id;
  nested_operator_id = child.id;
}

-- the row of what is nested in an operator of the workflow
abbrev pub descendant_row : ℕ → Operator → Descendant → NestingDbModel
descendant_row workflow_id child descendant = record {
  workflow_id = workflow_id;
  via_transformation_id = child.transformation_id;
  via_operator_id = child.id;
  depth = 1 + descendant.depth;
  nested_transformation_id = descendant.transformation_id;
  nested_operator_id = descendant.operator_id;
}

module _ (store : NestingStore) where
  open store use {Session, rows, merge, delete_where}

  unfoldable pub add_single_nesting : NestingDbModel → Session → Result Session
  add_single_nesting nesting s = or_integrity_error (merge nesting s)

  unfoldable pub find_all_nested_transformation_revisions : Session → ℕ → List Descendant
  find_all_nested_transformation_revisions s workflow_id =
      map to_descendant (filter_by (λ r. r.workflow_id == workflow_id) (rows s))

  unfoldable pub find_all_nestings : Session → ℕ → List NestingDbModel
  find_all_nestings s id = filter_by (λ r. r.nested_transformation_id == id) (rows s)

  unfoldable pub delete_own_nestings : ℕ → Session → Session
  delete_own_nestings workflow_id = delete_where (λ r. r.workflow_id == workflow_id)

  unfoldable pub delete_single_nesting : ℕ → ℕ → ℕ → Session → Session
  delete_single_nesting workflow_id via_operator_id nested_operator_id = delete_where λ r.
      r.workflow_id == workflow_id
      && (r.via_operator_id == via_operator_id && r.nested_operator_id == nested_operator_id)

  -- The loop over the descendants of a child; the second part is `disallowed_ancestors`.
  unfoldable pub add_descendants :
      ℕ → Operator → List Descendant → Session × List ℕ → Result (Session × List ℕ)
  unfolding add_single_nesting
  add_descendants workflow_id child [] state = ok state
  add_descendants workflow_id child (d ∷ descendants) state = do
    s ← add_single_nesting (descendant_row workflow_id child d) state.0
    add_descendants workflow_id child descendants (s, d.transformation_id ∷ state.1)

  unfoldable pub add_child : ℕ → Operator → Session × List ℕ → Result (Session × List ℕ)
  unfolding add_descendants find_all_nested_transformation_revisions
  add_child workflow_id child state = do
    s ← add_single_nesting (child_row workflow_id child) state.0
    require (not (child.transformation_id == workflow_id)) direct_cycle
    if child.type == workflow
        then add_descendants workflow_id child
            (find_all_nested_transformation_revisions s child.transformation_id) (s, state.1)
        else ok (s, state.1)

  unfoldable pub add_children : ℕ → List Operator → Session × List ℕ → Result (Session × List ℕ)
  unfolding add_child
  add_children workflow_id [] state = ok state
  add_children workflow_id (child ∷ operators) state =
      add_child workflow_id child state >>= add_children workflow_id operators

  unfoldable pub update_nesting : ℕ → List Operator → Session → Result Session
  unfolding add_children delete_own_nestings find_all_nestings
  update_nesting workflow_id operators s = do
    state ← add_children workflow_id operators (delete_own_nestings workflow_id s, workflow_id ∷ [])
    require
        (not (
          any (λ ancestor. any (λ id. id == ancestor.workflow_id) state.1)
            (find_all_nestings state.0 workflow_id)))
        ancestor_cycle
    ok state.0

  -- `None` stands for a component, the operators for the content of a workflow.
  unfoldable pub update_or_create_nesting : ℕ → Option (List Operator) → Session → Result Session
  unfolding update_nesting
  update_or_create_nesting id none s = ok s
  update_or_create_nesting id (some operators) s = update_nesting id operators s
