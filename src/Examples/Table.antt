-- ===== src/Examples/Table.antt =====
-- A store of nestings and revisions as lists, and examples for the service of revisions.
use hetida_designer.Prelude.{
  ◌↔◌, ◌≢◌, ℕ, ◌≡◌, ◌⊎◌, inl, inr, refl, sym, ap, ◌∙◌, true, false, not, Option, none, some, List,
  [], ◌∷◌, Memᴰ, filter_by, ◌==◌, nat_eq, ==→≡, ==_self, ≡→==, Bool-cases, if◌then◌else◌, is_some,
  ok, ℕ_discrete, Text-discrete, arith,
}
use hetida_designer.NestingTable.{NestingDbModel, NestingStore, same_key}
use hetida_designer.NestingTable.Rows.{Nests}
use hetida_designer.NestingTable.Chains.{Chain, IsTransitive}
use hetida_designer.Operator.{
  component, released, disabled, workflow, draft, State-discrete, TrafoType-discrete,
}
use hetida_designer.Revision.{id_str, Wiring, code, TransformationRevision, with_operators}
use hetida_designer.Revision.Stored.{TransformationRevisionDbModel, to_orm_model}
use hetida_designer.Revision.Service.{
  is_unused, check_direct_component_imports, RevisionStore, Services,
  delete_single_transformation_revision, disable_operators, pass_on_deprecation,
}
use hetida_designer.Revision.Lifecycle.{StripWirings, strip_wirings}
use hetida_designer.Revision.Strip.{Stays, strip_wirings_iff}
use hetida_designer.Revision.Service.Unused.{is_unused_iff}
use hetida_designer.Revision.Service.Imports.{IsImportable, check_direct_component_imports_iff}
use hetida_designer.Revision.Service.Delete.{Deleted, delete_single_transformation_revision-Deleted}
use hetida_designer.Revision.Service.Deprecation.{IsPassedOn, pass_on_deprecation-IsPassedOn}
use hetida_designer.Examples.Store.{rows-merged, row}
use hetida_designer.Examples.Revisions.{library, component_code, pump, pump_content}

abbrev Row : Type 0
Row = TransformationRevisionDbModel

abbrev Tables : Type 0
Tables = List NestingDbModel × List Row

abbrev find : List Row → ℕ → Option Row
find [] id = none
find (m ∷ ms) id = if m.id == id then some m else find ms id

abbrev put_row : Row → List Row → List Row
put_row m [] = []
put_row m (r ∷ rs) = if r.id == m.id then m ∷ rs else r ∷ put_row m rs

find_id : (ms : List Row) (id : ℕ) (m : Row) → find ms id ≡ some m → m.id ≡ id
find_id [] id m h = cc
find_id (r ∷ rs) id m h = elim (Bool-cases (r.id == id)) [
  | inl hit ↦ one r m (==→≡ r.id id hit) (rw hit at h)
  | inr miss ↦ find_id rs id m (rw miss at h)
]
  where
    one : (r m : Row) → r.id ≡ id → some r ≡ some m → m.id ≡ id
    one r m is same = ap (λ (o : Row). o.id) (found same) ∙ is
      where
        found : some r ≡ some m → m ≡ r
        found e = cc

find-put_row :
    (m : Row) (rs : List Row)
    → is_some (find rs m.id) ≡ true
    → (id : ℕ) → find (put_row m rs) id ≡ (if m.id == id then some m else find rs id)
find-put_row m [] there id = cc
find-put_row m (r ∷ rs) there id = elim (Bool-cases (r.id == m.id)) [
  | inl hit ↦ elim (Bool-cases (m.id == id)) [
    | inl e ↦ rw (hit, e) refl
    | inr e ↦ elim (Bool-cases (r.id == id)) [
      | inl f ↦ cc (≡→== m.id id (sym (==→≡ r.id m.id hit) ∙ ==→≡ r.id id f), e)
      | inr f ↦ rw (hit, e, f) refl
    ]
  ]
  | inr miss ↦ rw miss (later miss (find-put_row m rs (rw miss at there) id))
]
  where
    later :
        (r.id == m.id) ≡ false
        → find (put_row m rs) id ≡ (if m.id == id then some m else find rs id)
        → (if r.id == id then some r else find (put_row m rs) id)
          ≡ (if m.id == id then some m else if r.id == id then some r else find rs id)
    later miss h = elim (Bool-cases (r.id == id)) [
      | inl e ↦ elim (Bool-cases (m.id == id)) [
        | inl f ↦ cc (≡→== r.id m.id (==→≡ r.id id e ∙ sym (==→≡ m.id id f)), miss)
        | inr f ↦ rw (e, f) refl
      ]
      | inr e ↦ rw (e, h) refl
    ]

find-removed :
    (gone : ℕ) (rs : List Row) (id : ℕ)
    → find (filter_by (λ r. not (r.id == gone)) rs) id ≡ (if gone == id then none else find rs id)
find-removed gone [] id = ground arith
find-removed gone (r ∷ rs) id =
    ground (arith, find-removed gone rs id, ==→≡ r.id gone, ==→≡ gone id, ==→≡ r.id id, ==_self id)

some_inj {ℓ} : {A : Type ℓ} {a b : A} → some a ≡ some b → a ≡ b
some_inj e = cc

abbrev nesting_table : NestingStore
nesting_table = record {
  Session = Tables;
  rows = λ s. s.0;
  merge = λ x s. some (x ∷ filter_by (λ r. not (same_key x r)) s.0, s.1);
  delete_where = λ p s. (filter_by (λ r. not (p r)) s.0, s.1);
  rows-merge = λ x s t h. rows-merged x s.0 t.0 (ap some (ap (λ (v : Tables). v.0) (some_inj h)));
  rows-delete = λ p s. refl;
}

abbrev tables : RevisionStore
tables = record {
  nestings = nesting_table;
  find = λ s. find s.1;
  add = λ m s. some (s.0, m ∷ s.1);
  update_row = λ m s. some (s.0, put_row m s.1);
  delete_row = λ id s. some (s.0, filter_by (λ r. not (r.id == id)) s.1);
  find-id = λ s. find_id s.1;
  find-update_row = λ m s t h there id. rw (← some_inj h) (find-put_row m s.1 there id);
  find-delete_row = λ gone s t h id. rw (← some_inj h) (find-removed gone s.1 id);
  rows-delete_row = λ gone s t h. rw (← some_inj h) refl;
  find-delete_where = λ p s id. refl;
}

abbrev services : Services
services = record {
  library = library;
  component_code = component_code;
  get_global_component_imports = λ text. ok [];
  now = 8;
}

-- Workflow 5, the pump, contains revision 2 as its operator 1.
abbrev filled : Tables
filled = (row 5 2 2 1 ∷ [], to_orm_model pump ∷ [])

abbrev emptied : Tables
emptied = ([], [])

deletes :
    delete_single_transformation_revision tables services 5 (some workflow) true filled ≡ ok emptied
unfolding delete_single_transformation_revision ℕ_discrete to_orm_model Text-discrete State-discrete
    TrafoType-discrete
deletes = refl

delete_single_transformation_revision-Deleted_example :
    (found : Row) × Deleted tables 5 found filled emptied
    × ((some workflow ≡ none) ⊎ (some workflow ≡ some found.type))
    × ((true ≡ true) ⊎ (found.state ≡ draft))
delete_single_transformation_revision-Deleted_example =
    delete_single_transformation_revision-Deleted tables services 5 (some workflow) true filled
      emptied deletes

abbrev passed : Tables
passed = (
  row 5 2 2 1 ∷ [],
  record (to_orm_model pump) {
    workflow_content =
        some (with_operators pump_content (disable_operators 1 pump_content.operators));
  }
      ∷ [],
)

passes : pass_on_deprecation tables services 2 filled ≡ ok passed
unfolding pass_on_deprecation ℕ_discrete to_orm_model Text-discrete State-discrete
    TrafoType-discrete disable_operators with_operators
passes = refl

pass_on_deprecation-IsPassedOn_example : IsPassedOn tables (row 5 2 2 1) passed
pass_on_deprecation-IsPassedOn_example =
    pass_on_deprecation-IsPassedOn tables services 2 filled passed passes (row 5 2 2 1)
      (Memᴰ.head refl) refl

filled_only : (a b : ℕ) → Nests nesting_table filled a b → (a ≡ 5) × (b ≡ 2)
filled_only a b (r, Memᴰ.head e, p, q) = (cc, cc)
filled_only a b (r, Memᴰ.tail i, p, q) = elim i [ ]

filled-IsTransitive : IsTransitive nesting_table filled
filled-IsTransitive a b c n m = absurd (omega (arith, filled_only a b n, filled_only b c m))

is_unused_iff_example : (is_unused tables services 2 filled ≡ true) ↔ (
    (a : ℕ)
    → Chain nesting_table filled a 2
    → (m : Row) → find (to_orm_model pump ∷ []) a ≡ some m
    → m.state ≡ disabled)
is_unused_iff_example = is_unused_iff tables services 2 filled filled-IsTransitive

-- A released component whose code imports the component 7.
abbrev valve : TransformationRevision
valve = record pump { type = component; content = code [] }

abbrev reading : Services
reading = record services { get_global_component_imports = λ text. ok (7 ∷ []) }

valve_not_draft : released ≢ draft
valve_not_draft same = cc

check_direct_component_imports_iff_example :
    (check_direct_component_imports reading (λ id. ok valve) valve ≡ ok tt)
    ↔ ((id : ℕ) → Memᴰ id (7 ∷ []) → IsImportable (λ id. ok valve) id)
check_direct_component_imports_iff_example =
    check_direct_component_imports_iff reading (λ id. ok valve) valve [] (7 ∷ []) valve_not_draft
      refl refl

abbrev wiring : Wiring
wiring = record { name = 97 ∷ []; adapter_id = id_str (107 ∷ []); rest = [] }

abbrev wired : TransformationRevision
wired = record pump {
  test_wiring = record {
    input_wirings = wiring ∷ [];
    output_wirings = [];
    dashboard_positionings = [];
  };
}

-- The wirings of the adapter `k` are stripped.
abbrev strips : StripWirings
strips = record {
  strip_wiring = false;
  strip_release_wiring = false;
  strip_wirings_with_adapter_ids = id_str (107 ∷ []) ∷ [];
  keep_only_wirings_with_adapter_ids = [];
  strip_release_wirings_with_adapter_ids = [];
  keep_only_release_wirings_with_adapter_ids = [];
}

strip_wirings_iff_example :
    (Memᴰ wiring (strip_wirings strips wired).test_wiring.input_wirings
      ↔ Stays (id_str (107 ∷ []) ∷ []) [] (wiring ∷ []) wiring)
    × (Memᴰ wiring (strip_wirings strips wired).test_wiring.output_wirings
        ↔ Stays (id_str (107 ∷ []) ∷ []) [] [] wiring)
strip_wirings_iff_example = strip_wirings_iff strips wired wiring refl
