-- ===== src/NestingTable/Chains.antt =====
-- Chains of nestings in the table: what a workflow contains directly or through other workflows.
use hetida_designer.Prelude.{ℕ}
use hetida_designer.NestingTable.{NestingStore}
use hetida_designer.NestingTable.Rows.{Nests}

-- A chain of one or more rows, from a workflow to what it contains by them.
pub data Chain (store : NestingStore) (s : store.Session) : ℕ → ℕ → Type 0 where
  direct : {a b : ℕ} → Nests store s a b → Chain store s a b
  through : {a b c : ℕ} → Nests store s a b → Chain store s b c → Chain store s a c

-- What a workflow contains through others has a row of its own.
abbrev pub IsTransitive : (store : NestingStore) → store.Session → Type 0
IsTransitive store s = (a b c : ℕ) → Nests store s a b → Nests store s b c → Nests store s a c

-- No chain, of whatever length, leads back to its start.
abbrev pub IsAcyclic : (store : NestingStore) → store.Session → Type 0
IsAcyclic store s = (a : ℕ) → ¬ Chain store s a a

pub Chain-Nests :
    (store : NestingStore) (s : store.Session)
    → IsTransitive store s
    → {a b : ℕ} → Chain store s a b
    → Nests store s a b
Chain-Nests store s transitive (direct n) = n
Chain-Nests store s transitive (through {a} {b} {c} n chain) =
    transitive a b c n (Chain-Nests store s transitive chain)
