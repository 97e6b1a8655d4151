-- ===== src/NestingTable/Deleted.antt =====
-- What `delete_own_nestings` leaves of the table.
use hetida_designer.Prelude.{
  ℕ, ◌≢◌, ◌↔◌, refl, not, Memᴰ-filter_by, filter_by-Memᴰ, ◌==◌, nat_eq, ≡→==, arith, Memᴰ,
}
use hetida_designer.Operator.{Operator}
use hetida_designer.NestingTable.{NestingDbModel, NestingStore, delete_own_nestings}
use hetida_designer.NestingTable.Rows.{Nests, IsTyped, IsTypedAt}
use hetida_designer.NestingTable.Descendants.{Deep}

module _ (store : NestingStore) (trafo_of : ℕ → ℕ) (w : ℕ) where
  pub deleted_others :
      (s : store.Session) (r : NestingDbModel)
      → r.workflow_id ≢ w
      → Memᴰ r (store.rows (delete_own_nestings store w s)) ↔ Memᴰ r (store.rows s)
  unfolding delete_own_nestings
  deleted_others s r ne = (
    λ m.
        (Memᴰ-filter_by (λ r. not (r.workflow_id == w)) (store.rows s)
          (rw store.rows-delete at m)).0,
    λ m.
        rw store.rows-delete
          (filter_by-Memᴰ (λ r. not (r.workflow_id == w)) m (ground (arith, ≡→== r.workflow_id w))),
  )

  pub deleted_own : (s : store.Session) (b : ℕ) → ¬ Nests store (delete_own_nestings store w s) w b
  unfolding delete_own_nestings
  deleted_own s b (r, m, p, q) = cc (
    ≡→== r.workflow_id w p,
    (Memᴰ-filter_by (λ r. not (r.workflow_id == w)) (store.rows s) (rw store.rows-delete at m)).1,
  )

  pub deleted-IsTyped :
      (s : store.Session)
      → IsTyped store trafo_of s
      → IsTyped store trafo_of (delete_own_nestings store w s)
  unfolding delete_own_nestings
  deleted-IsTyped s typed r m =
      typed r
        (Memᴰ-filter_by (λ r. not (r.workflow_id == w)) (store.rows s)
          (rw store.rows-delete at m)).0

  pub deleted-IsTypedAt :
      (s : store.Session)
      → IsTyped store trafo_of s
      → IsTypedAt store trafo_of w (delete_own_nestings store w s)
  deleted-IsTypedAt s typed = (
    deleted-IsTyped s typed,
    λ r m at. absurd (deleted_own s r.nested_transformation_id (r, m, at, refl)),
  )

  pub deleted-Deep :
      (s : store.Session) (op : Operator) (b : ℕ)
      → op.transformation_id ≢ w
      → Deep store (delete_own_nestings store w s) b op ↔ Deep store s b op
  deleted-Deep s op b ne = (
    λ d. (let (r, m, p, q) = d.1 in (d.0, (r, (deleted_others s r (λ e. ne (cc))).0 m, p, q))),
    λ d. (let (r, m, p, q) = d.1 in (d.0, (r, (deleted_others s r (λ e. ne (cc))).1 m, p, q))),
  )
