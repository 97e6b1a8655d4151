-- ===== src/Examples/Store.antt =====
-- A store of rows as a list, and examples for the table of nestings.
use mathlib.Core.List.Memᴰ
use hetida_designer.Prelude.{
  ℕ, ◌+◌, ap, ◌≡◌, ◌≢◌, ◌↔◌, ◌⊎◌, inl, inr, refl, true, not, Option, some, List, [], ◌∷◌, Memᴰ,
  ◌>>=◌, filter_by, Memᴰ-filter_by, filter_by-Memᴰ, Bool-cases, arith, ok, Exists, ℕ_discrete,
}
use hetida_designer.Operator.{Operator, workflow, TrafoType-discrete}
use hetida_designer.NestingTable.{NestingDbModel, NestingStore, same_key, update_nesting}
use hetida_designer.NestingTable.Rows.{Nests, IsTyped}
use hetida_designer.NestingTable.Descendants.{Deep}
use hetida_designer.NestingTable.Chains.{IsTransitive, IsAcyclic, Chain-Nests}
use hetida_designer.NestingTable.Update.{IsBrought, update_nesting-Brings}
use hetida_designer.NestingTable.Acyclic.{update_nesting-IsAcyclic, update_nesting-IsTransitive}
use hetida_designer.NestingTable.Built.{AreFitting, Built, Built-IsAcyclic}
use hetida_designer.NestingTable.Returns.{update_nesting-returns}
use hetida_designer.Examples.Data.{operator}

abbrev pub merged : NestingDbModel → List NestingDbModel → Option (List NestingDbModel)
merged x s = some (x ∷ filter_by (λ r. not (same_key x r)) s)

pub rows-merged :
    (x : NestingDbModel) (s t : List NestingDbModel)
    → merged x s ≡ some t
    → (r : NestingDbModel) → Memᴰ r t ↔ ((r ≡ x) ⊎ (Memᴰ r s × (same_key x r ≢ true)))
rows-merged x s t h r =
    let e : x ∷ filter_by (λ r. not (same_key x r)) s ≡ t = cc in
    rw (← e) (
      λ m. elim (Memᴰ.cases_cons m) [
        | inl same ↦ inl same
        | inr later ↦
            let (given, new) = Memᴰ-filter_by (λ r. not (same_key x r)) s later in
            inr (given, λ key. cc (rw key at new))
      ],
      λ n. elim n [
        | inl same ↦ Memᴰ.head same
        | inr kept ↦ Memᴰ.tail (
            filter_by-Memᴰ (λ r. not (same_key x r)) kept.0
              (elim (Bool-cases (same_key x r)) [
                | inl key ↦ absurd (kept.1 key)
                | inr new ↦ rw new refl
              ]))
      ],
    )

abbrev store : NestingStore
store = record {
  Session = List NestingDbModel;
  rows = λ s. s;
  merge = merged;
  delete_where = λ p s. filter_by (λ r. not (p r)) s;
  rows-merge = rows-merged;
  rows-delete = λ p s. refl;
}

abbrev pub row : ℕ → ℕ → ℕ → ℕ → NestingDbModel
row w via nested op = record {
  workflow_id = w;
  via_transformation_id = via;
  via_operator_id = op;
  depth = 1;
  nested_transformation_id = nested;
  nested_operator_id = op;
}

-- Workflow 2 contains the transformation 8 as its operator 7.
abbrev table : List NestingDbModel
table = row 2 8 8 7 ∷ []

-- Workflow 9 gets the workflow 2 as its operator 1.
abbrev inserted : Operator
inserted = operator 1 [] []

abbrev after : List NestingDbModel
after =
    record {
      workflow_id = 9;
      via_transformation_id = 2;
      via_operator_id = 1;
      depth = 2;
      nested_transformation_id = 8;
      nested_operator_id = 7;
    }
    ∷ row 9 2 2 1
    ∷ table

updates : update_nesting store 9 (inserted ∷ []) table ≡ ok after
unfolding update_nesting same_key ℕ_discrete TrafoType-discrete
updates = refl

typed : IsTyped store (λ n. n + 1) table
typed r (Memᴰ.head e) = rw e refl
typed r (Memᴰ.tail i) = elim i [ ]

fits : (op : Operator) → Memᴰ op (inserted ∷ []) → op.transformation_id ≡ op.id + 1
fits op (Memᴰ.head e) = rw e refl
fits op (Memᴰ.tail i) = elim i [ ]

are_workflows :
    (op : Operator) (b : ℕ)
    → Memᴰ op (inserted ∷ [])
    → Nests store table op.transformation_id b
    → op.type ≡ workflow
are_workflows op b (Memᴰ.head e) n = rw e refl
are_workflows op b (Memᴰ.tail i) n = elim i [ ]

row_only : (a b : ℕ) → Nests store table a b → (a ≡ 2) × (b ≡ 8)
row_only a b (r, Memᴰ.head e, p, q) = (cc, cc)
row_only a b (r, Memᴰ.tail i, p, q) = elim i [ ]

table-IsTransitive : IsTransitive store table
table-IsTransitive a b c n m = absurd (omega (arith, row_only a b n, row_only b c m))

uncontained : (a : ℕ) → ¬ Nests store table a 9
uncontained a n = omega (arith, row_only a 9 n)

table-IsAcyclic : IsAcyclic store table
table-IsAcyclic a chain =
    omega (arith, row_only a a (Chain-Nests store table table-IsTransitive chain))

is_other : (op : Operator) → Memᴰ op (inserted ∷ []) → op.transformation_id ≢ 9
is_other op (Memᴰ.head e) same = omega (arith, fits op (Memᴰ.head e), ap (λ (o : Operator). o.id) e)
is_other op (Memᴰ.tail i) same = elim i [ ]

no_self : ¬ Exists (Deep store table 9) (inserted ∷ [])
no_self (op, m, d) = omega (arith, row_only op.transformation_id 9 d.1)

no_cycle : (a : ℕ) → Nests store table a 9 → ¬ Exists (Deep store table a) (inserted ∷ [])
no_cycle a n d = omega (arith, row_only a 9 n)

update_nesting-Brings_example :
    ((r : NestingDbModel)
      → r.workflow_id ≡ 9
      → Memᴰ r after ↔ Exists (IsBrought store table 9 r) (inserted ∷ []))
    × ((r : NestingDbModel) → r.workflow_id ≢ 9 → Memᴰ r after ↔ Memᴰ r table)
update_nesting-Brings_example =
    update_nesting-Brings store (λ n. n + 1) 9 (inserted ∷ []) table after updates typed fits

update_nesting-IsAcyclic_example : IsAcyclic store after
update_nesting-IsAcyclic_example =
    update_nesting-IsAcyclic store (λ n. n + 1) 9 (inserted ∷ []) table after updates typed fits
      are_workflows table-IsTransitive table-IsAcyclic

update_nesting-IsTransitive_example : IsTransitive store after
update_nesting-IsTransitive_example =
    update_nesting-IsTransitive store (λ n. n + 1) 9 (inserted ∷ []) table after updates typed fits
      are_workflows table-IsTransitive uncontained

none_nests : (a b : ℕ) → ¬ Nests store [] a b
none_nests a b (r, m, p, q) = elim m [ ]

-- The operator 7 is the transformation 8.
first_fits :
    AreFitting store (λ n. n + 1) [] (record inserted { id = 7; transformation_id = 8 } ∷ [])
first_fits = record {
  ids = fits_first;
  types = λ op b m n. absurd (none_nests op.transformation_id b n);
}
  where
    fits_first :
        (op : Operator)
        → Memᴰ op (record inserted { id = 7; transformation_id = 8 } ∷ [])
        → op.transformation_id ≡ op.id + 1
    fits_first op (Memᴰ.head e) = rw e refl
    fits_first op (Memᴰ.tail i) = elim i [ ]

first_update :
    update_nesting store 2 (record inserted { id = 7; transformation_id = 8 } ∷ []) [] ≡ ok table
unfolding update_nesting same_key ℕ_discrete TrafoType-discrete
first_update = refl

-- The table is built from the empty one by an update of workflow 2 and one of workflow 9.
after-Built : Built store (λ n. n + 1) after
after-Built =
    Built.updated 9 (inserted ∷ [])
      (Built.updated 2 (record inserted { id = 7; transformation_id = 8 } ∷ [])
        (Built.empty (λ r m. elim m [ ])) first_fits (λ a. none_nests a 2) first_update)
      (record { ids = fits; types = are_workflows }) uncontained updates

Built-IsAcyclic_example :
    IsTyped store (λ n. n + 1) after × IsTransitive store after × IsAcyclic store after
Built-IsAcyclic_example = Built-IsAcyclic store (λ n. n + 1) after-Built

update_nesting-returns_example :
    (t : List NestingDbModel) × (update_nesting store 9 (inserted ∷ []) table ≡ ok t)
update_nesting-returns_example =
    update_nesting-returns store (λ n. n + 1) 9 (inserted ∷ []) table (λ x s. (_, refl)) typed fits
      is_other no_self no_cycle

-- A workflow as an operator.
abbrev in_cycle : ℕ → ℕ → Operator
in_cycle id nested = record (operator 1 [] []) { id = id; transformation_id = nested }

-- Workflow 1 gets 2 as an operator, 2 gets 3, 3 gets 4 and 4 gets 1: the rows of 1 do not tell that it
-- contains 3 and 4, and all four updates return.
abbrev unnoticed : List NestingDbModel
unnoticed =
    record (row 4 1 2 12) { via_operator_id = 41; depth = 2 }
    ∷ row 4 1 1 41
    ∷ row 3 4 4 34
    ∷ row 2 3 3 23
    ∷ row 1 2 2 12
    ∷ []

cycle_returns :
    (do
      a ← update_nesting store 1 (in_cycle 12 2 ∷ []) []
      b ← update_nesting store 2 (in_cycle 23 3 ∷ []) a
      c ← update_nesting store 3 (in_cycle 34 4 ∷ []) b
      update_nesting store 4 (in_cycle 41 1 ∷ []) c)
    ≡ ok unnoticed
unfolding update_nesting same_key ℕ_discrete TrafoType-discrete
cycle_returns = refl
