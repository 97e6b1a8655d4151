-- ===== src/Revision/Service/Deprecation.antt =====
-- On `pass_on_deprecation`: what it does to the workflows that the table of nestings names.
use mathlib.Core.List.Memᴰ
use hetida_designer.Prelude.{
  ℕ, ◌≡◌, ◌⊎◌, inl, inr, refl, sym, ap, subst, ◌∙◌, true, false, Option, none, some, List, [], ◌∷◌,
  Memᴰ, map, ◌==◌, nat_eq, ==→≡, ==_self, ≡→==, Bool-cases, if◌then◌else◌, filter_by-Memᴰ, is_some,
  Text, ok, >>=-eq-ok, ok-injective,
}
use hetida_designer.NestingTable.{NestingDbModel, or_integrity_error, find_all_nestings}
use hetida_designer.Operator.{Operator, TrafoType, component, workflow, disabled}
use hetida_designer.Revision.{
  Content, workflow_content, WorkflowContent, TransformationRevision, with_operators,
  filter_operator_ios, filter_unnamed_operator_inputs_and_outputs,
}
use hetida_designer.Revision.Lifecycle.{with_content}
use hetida_designer.Revision.Stored.{TransformationRevisionDbModel, to_orm_model, loaded_content}
use hetida_designer.Revision.Rules.{with_operator_state, the_workflow}
use hetida_designer.Revision.Service.{
  RevisionStore, Services, select_tr_by_id, update_tr, disable_operators, pass_on, pass_on_all,
  pass_on_deprecation,
}
use hetida_designer.Revision.Service.Select.{Loaded, select_tr_by_id-Loaded}
use hetida_designer.Revision.Service.Delete.{integrity-some}

-- The operators with that id are disabled.
abbrev pub AreDisabled : ℕ → List Operator → Type 0
AreDisabled via operators = (op : Operator) → Memᴰ op operators → op.id ≡ via → op.state ≡ disabled

-- The stored workflow of the nesting has the operator that it goes through disabled.
abbrev pub IsPassedOn : (store : RevisionStore) → NestingDbModel → store.nestings.Session → Type 0
IsPassedOn store nesting s =
    (m : TransformationRevisionDbModel) × (c : WorkflowContent) × (store.find s nesting.workflow_id
      ≡ some m)
    × (m.workflow_content ≡ some c)
    × AreDisabled nesting.via_operator_id c.operators

AreDisabled-disable_operators :
    (via : ℕ) (ops : List Operator) → AreDisabled via (disable_operators via ops)
unfolding disable_operators
AreDisabled-disable_operators via ops op m same =
    let (o, i, e) =
      Memᴰ.of_map
        (λ (operator : Operator).
          if operator.id == via then with_operator_state disabled operator else operator)
        ops m in
    go o (Bool-cases (o.id == via)) e
  where
    go :
        (o : Operator)
        → (o.id == via) ≡ true ⊎ (o.id == via) ≡ false
        → (if o.id == via then with_operator_state disabled o else o) ≡ op
        → op.state ≡ disabled
    go o (inl hit) e = sym (ap (λ v. v.state) (rw hit at e))
    go o (inr miss) e = let is = rw miss at e in cc (≡→== o.id via (ap (λ v. v.id) is ∙ same), miss)

AreDisabled-kept :
    (via other : ℕ) (ops : List Operator)
    → AreDisabled via ops
    → AreDisabled via (disable_operators other (map filter_operator_ios ops))
unfolding disable_operators filter_operator_ios
AreDisabled-kept via other ops all op m same =
    let (o, i, e) =
      Memᴰ.of_map
        (λ (operator : Operator).
          if operator.id == other then with_operator_state disabled operator else operator)
        (map filter_operator_ios ops) m in
    let (p, j, f) = Memᴰ.of_map filter_operator_ios ops i in
    go o p j f (Bool-cases (o.id == other)) e
  where
    go :
        (o p : Operator)
        → Memᴰ p ops
        → filter_operator_ios p ≡ o
        → (o.id == other) ≡ true ⊎ (o.id == other) ≡ false
        → (if o.id == other then with_operator_state disabled o else o) ≡ op
        → op.state ≡ disabled
    go o p j f (inl hit) e = sym (ap (λ v. v.state) (rw hit at e))
    go o p j f (inr miss) e =
        let is = f ∙ (rw miss at e) in
        sym (ap (λ v. v.state) is) ∙ all p j (ap (λ v. v.id) is ∙ same)

some_injective {ℓ} : {A : Type ℓ} {a b : A} → some a ≡ some b → a ≡ b
some_injective e = cc

-- What a row of a workflow says once it is read.
column-workflow :
    (type : TrafoType) (stored : Option WorkflowContent) (text : Option Text) {loaded : Content}
    {c : WorkflowContent}
    → loaded_content type stored text ≡ ok loaded
    → the_workflow (filter_unnamed_operator_inputs_and_outputs loaded) ≡ ok c
    → (type ≡ workflow)
      × (was : WorkflowContent) × (stored ≡ some was)
      × (c.operators ≡ map filter_operator_ios was.operators)
unfolding the_workflow filter_unnamed_operator_inputs_and_outputs with_operators
column-workflow workflow (some was) text {loaded} {c} e h = (
  refl,
  was,
  refl,
  sym (
      ap (λ v. v.operators)
        (ok-injective (
          subst (λ l. the_workflow (filter_unnamed_operator_inputs_and_outputs l) ≡ ok c)
            (sym (ok-injective e)) h))),
)
column-workflow workflow none text e h = cc
column-workflow component stored (some text) {loaded} {c} e h = cc (
    subst (λ l. the_workflow (filter_unnamed_operator_inputs_and_outputs l) ≡ ok c)
      (sym (ok-injective e)) h)
column-workflow component stored none e h = cc

-- One round of the loop: the row of the nesting's workflow is written again, and no other.
record Round (store : RevisionStore) (nesting : NestingDbModel) (s t : store.nestings.Session)
    : Type 0 where
  new : TransformationRevisionDbModel
  was : WorkflowContent
  is : WorkflowContent
  old : TransformationRevisionDbModel
  found : store.find s nesting.workflow_id ≡ some old
  column : old.workflow_content ≡ some was
  written : new.workflow_content ≡ some is
  operators :
      is.operators
      ≡ disable_operators nesting.via_operator_id (map filter_operator_ios was.operators)
  finds :
      (id : ℕ) → store.find t id ≡ (if nesting.workflow_id == id then some new else store.find s id)

module _ (store : RevisionStore) (services : Services) where
  written_row :
      (nesting : NestingDbModel) (s t : store.nestings.Session)
      (row : TransformationRevisionDbModel)
      → row.id ≡ nesting.workflow_id
      → is_some (store.find s nesting.workflow_id) ≡ true
      → or_integrity_error (store.update_row row s) ≡ ok t
      → (id : ℕ)
      → store.find t id ≡ (if nesting.workflow_id == id then some row else store.find s id)
  written_row nesting s t row same found run id =
      subst (λ own. store.find t id ≡ (if own == id then some row else store.find s id)) same
        (store.find-update_row row s t (integrity-some (store.update_row row s) run)
          (subst (λ own. is_some (store.find s own) ≡ true) (sym same) found) id)

  update-Round :
      (nesting : NestingDbModel) (s t : store.nestings.Session) (r : TransformationRevision)
      (c : WorkflowContent) (m : TransformationRevisionDbModel)
      → store.find s nesting.workflow_id ≡ some m
      → Loaded m r
      → r.id ≡ nesting.workflow_id
      → the_workflow r.content ≡ ok c
      → update_tr store services
          (with_content r
            (workflow_content
              (with_operators c (disable_operators nesting.via_operator_id c.operators)))
            r.io_interface)
          s
        ≡ ok t
      → Round store nesting s t
  unfolding update_tr to_orm_model with_operators
  update-Round nesting s t r c m found loaded same is_workflow run =
      let (typed, was, column, ops) =
        column-workflow m.type m.workflow_content m.component_code loaded.column
          (rw loaded.content at is_workflow) in
      let next = with_operators c (disable_operators nesting.via_operator_id c.operators) in
      record {
        new = to_orm_model (with_content r (workflow_content next) r.io_interface);
        was = was;
        is = next;
        old = m;
        found = found;
        column = column;
        written = rw (loaded.type ∙ typed) refl;
        operators = ap (disable_operators nesting.via_operator_id) ops;
        finds =
            written_row nesting s t
              (to_orm_model (with_content r (workflow_content next) r.io_interface)) same
              (rw found refl) run;
      }

  pass_on-Round :
      (nesting : NestingDbModel) (s t : store.nestings.Session)
      → pass_on store services nesting s ≡ ok t
      → Round store nesting s t
  unfolding pass_on
  pass_on-Round nesting s t run =
      let (r, e1, r1) = >>=-eq-ok (select_tr_by_id store services s nesting.workflow_id) _ run in
      let (c, e2, r2) = >>=-eq-ok (the_workflow r.content) _ r1 in
      let (m, found, loaded, same) =
        select_tr_by_id-Loaded store services s nesting.workflow_id e1 in
      update-Round nesting s t r c m found loaded same e2 r2

  Round-IsPassedOn :
      (nesting other : NestingDbModel) (s t : store.nestings.Session)
      → Round store nesting s t
      → IsPassedOn store other s
      → IsPassedOn store other t
  Round-IsPassedOn nesting other s t r (m, c, found, column, all) =
      elim (Bool-cases (nesting.workflow_id == other.workflow_id)) [
        | inl hit ↦
            let at_one = ==→≡ nesting.workflow_id other.workflow_id hit in
            let one = some_injective (sym r.found ∙ ap (store.find s) at_one ∙ found) in
            let same = some_injective (sym r.column ∙ ap (λ v. v.workflow_content) one ∙ column) in
            (
              r.new,
              r.is,
              r.finds other.workflow_id ∙ rw hit refl,
              r.written,
              rw r.operators (
                  AreDisabled-kept other.via_operator_id nesting.via_operator_id r.was.operators
                    (rw same all)),
            )
        | inr miss ↦ (m, c, r.finds other.workflow_id ∙ rw miss found, column, all)
      ]

  Round-own :
      (nesting : NestingDbModel) (s t : store.nestings.Session)
      → Round store nesting s t
      → IsPassedOn store nesting t
  Round-own nesting s t r = (
    r.new,
    r.is,
    r.finds nesting.workflow_id ∙ rw (==_self nesting.workflow_id) refl,
    r.written,
    rw r.operators (
        AreDisabled-disable_operators nesting.via_operator_id
          (map filter_operator_ios r.was.operators)),
  )

  pass_on_all-IsPassedOn :
      (nestings : List NestingDbModel) (s t : store.nestings.Session)
      → pass_on_all store services nestings s ≡ ok t
      → ((other : NestingDbModel) → IsPassedOn store other s → IsPassedOn store other t)
        × ((n : NestingDbModel) → Memᴰ n nestings → IsPassedOn store n t)
  unfolding pass_on_all
  pass_on_all-IsPassedOn [] s t run =
      (λ other h. subst (IsPassedOn store other) (ok-injective run) h, λ n m. elim m [ ])
  pass_on_all-IsPassedOn (nesting ∷ nestings) s t run =
      let (mid, e1, e2) = >>=-eq-ok (pass_on store services nesting s) _ run in
      let round = pass_on-Round nesting s mid e1 in
      let (keeps, rest) = pass_on_all-IsPassedOn nestings mid t e2 in
      (
        λ other h. keeps other (Round-IsPassedOn nesting other s mid round h),
        λ n m. elim (Memᴰ.cases_cons m) [
          | inl same ↦ keeps n (rw same (Round-own nesting s mid round))
          | inr later ↦ rest n later
        ],
      )

  -- If passing on the deprecation of a revision returns, then for every row of the table of nestings that
  -- has the revision as the nested one, all operators with the row's via_operator_id are disabled in
  -- the stored content of the row's workflow.
  pub pass_on_deprecation-IsPassedOn :
      (id : ℕ) (s t : store.nestings.Session)
      → pass_on_deprecation store services id s ≡ ok t
      → (nesting : NestingDbModel) → Memᴰ nesting (store.nestings.rows s)
      → nesting.nested_transformation_id ≡ id
      → IsPassedOn store nesting t
  unfolding pass_on_deprecation find_all_nestings
  pass_on_deprecation-IsPassedOn id s t run nesting m same =
      (pass_on_all-IsPassedOn (find_all_nestings store.nestings s id) s t run).1 nesting (
        filter_by-Memᴰ (λ r. r.nested_transformation_id == id) m
          (≡→== nesting.nested_transformation_id id same))
