-- ===== src/NestingTable/Built.antt =====
-- Tables that `update_nesting` builds from the empty one, when each workflow is updated while no other
-- contains it: the order in which transformations are imported, by nesting level.
use hetida_designer.Prelude.{ℕ, ◌≡◌, inl, inr, List, Memᴰ, ℕ_discrete, ok}
use hetida_designer.Operator.{Operator, workflow}
use hetida_designer.NestingTable.{NestingDbModel, NestingStore, update_nesting}
use hetida_designer.NestingTable.Rows.{Nests, IsTyped}
use hetida_designer.NestingTable.Chains.{Chain, direct, through, IsTransitive, IsAcyclic}
use hetida_designer.NestingTable.Update.{update_nesting-Brings}
use hetida_designer.NestingTable.Acyclic.{update_nesting-IsAcyclic, update_nesting-IsTransitive}

-- The operators name the revisions that their ids stand for, and those whose transformations contain
-- something are workflows.
pub record AreFitting (store : NestingStore) (trafo_of : ℕ → ℕ) (s : store.Session)
    (ops : List Operator) : Type 0 where
  pub ids : (op : Operator) → Memᴰ op ops → op.transformation_id ≡ trafo_of op.id
  pub types :
      (op : Operator) (b : ℕ)
      → Memᴰ op ops
      → Nests store s op.transformation_id b
      → op.type ≡ workflow

-- The tables that updates lead to, each of a workflow that nothing contains.
pub data Built (store : NestingStore) (trafo_of : ℕ → ℕ) : store.Session → Type 0 where
  empty :
      {s : store.Session}
      → ((r : NestingDbModel) → ¬ Memᴰ r (store.rows s))
      → Built store trafo_of s
  updated :
      {s t : store.Session} (w : ℕ) (ops : List Operator)
      → Built store trafo_of s
      → AreFitting store trafo_of s ops
      → ((a : ℕ) → ¬ Nests store s a w)
      → update_nesting store w ops s ≡ ok t
      → Built store trafo_of t

-- An update keeps the operator ids of the table naming one revision each.
update_nesting-IsTyped :
    (store : NestingStore) (trafo_of : ℕ → ℕ) (w : ℕ) (ops : List Operator) (s t : store.Session)
    → update_nesting store w ops s ≡ ok t
    → IsTyped store trafo_of s
    → ((op : Operator) → Memᴰ op ops → op.transformation_id ≡ trafo_of op.id)
    → IsTyped store trafo_of t
update_nesting-IsTyped store trafo_of w ops s t h typed fits r m =
    let (own, others) = update_nesting-Brings store trafo_of w ops s t h typed fits in
    elim (ℕ_discrete r.workflow_id w) [
      | yes at ↦
          let (op, i, (_, _, _, brought)) = (own r at).0 m in
          elim brought [
            | inl (_, p, q) ↦ let fit = fits op i in cc
            | inr (_, r', m', _, _, p, q) ↦ let fit = typed r' m' in cc
          ]
      | no ne ↦ typed r ((others r ne).0 m)
    ]

start_of :
    (store : NestingStore) (s : store.Session) {a b : ℕ}
    → Chain store s a b
    → (c : ℕ) × Nests store s a c
start_of store s (direct {a} {b} n) = (b, n)
start_of store s (through {a} {b} {c} n chain) = (b, n)

-- In every table that is built from the empty one by updates, each of a workflow that no other contains
-- at that time, an operator id names one transformation revision, what a workflow contains through
-- others has a row of its own, and no chain of nestings leads back to its start. The conditions on the
-- operators of an update are those of `AreFitting`.
pub Built-IsAcyclic :
    (store : NestingStore) (trafo_of : ℕ → ℕ) {s : store.Session}
    → Built store trafo_of s
    → IsTyped store trafo_of s × IsTransitive store s × IsAcyclic store s
Built-IsAcyclic store trafo_of {s} (empty none_there) = (
  λ r m. absurd (none_there r m),
  λ a b c n m. absurd (none_there n.0 n.1),
  λ a chain. (let (c, (r, m, _, _)) = start_of store s chain in none_there r m),
)
Built-IsAcyclic store trafo_of (updated {s} {t} w ops before fitting uncontained run) =
    let (typed, transitive, acyclic) = Built-IsAcyclic store trafo_of before in
    (
      update_nesting-IsTyped store trafo_of w ops s t run typed fitting.ids,
      update_nesting-IsTransitive store trafo_of w ops s t run typed fitting.ids fitting.types
          transitive uncontained,
      update_nesting-IsAcyclic store trafo_of w ops s t run typed fitting.ids fitting.types
          transitive acyclic,
    )
