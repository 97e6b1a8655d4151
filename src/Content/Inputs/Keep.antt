-- ===== src/Content/Inputs/Keep.antt =====
-- Which dynamic workflow inputs `clean_up_workflow_content_inputs` keeps.
use hetida_designer.Prelude.{
  ℕ, ◌≡◌, ◌↔◌, ◌⊎◌, inl, inr, refl, ap, subst, ◌∙◌, Bool, true, false, not, Option, none, some,
  List, [], ◌∷◌, Dict, get, nat_eq, key_eq, arith, Bool-cases, if◌then◌else◌, Result, ok, >>=-eq-ok,
  Memᴰ, Memᴰ-filter_by, filter_by-Memᴰ, filter_by, All-Memᴰ, ≡→==, ==_self,
}
use hetida_designer.Io.{
  OperatorInput, WorkflowContentDynamicInput, dynamic_input_eq, position_eq, matches_io,
  matches_operator_io, is_nameless,
}
use hetida_designer.Link.{Link, operator_eq}
use hetida_designer.Operator.{Operator}
use hetida_designer.Content.Dicts.{
  pair_eq, initialize_operator_input_by_id_tuple_dict, initialize_links_by_start_id_tuple_dict,
  initialize_link_by_end_id_tuple_dict,
}
use hetida_designer.Content.Dicts.Keys.{
  nonempty, starting_at, last_ending_at, get-links_by_start, get-link_by_end,
}
use hetida_designer.Content.Moved.{AreMoved}
use hetida_designer.Content.Adjust.{verdict, collect_adjusting}
use hetida_designer.Content.Adjust.Filter.{
  passes, AllDecided, collect_adjusting-ok, remove_collected,
}
use hetida_designer.Content.Inputs.{
  operator_input_unfit, wf_input_unnecessary, named_wf_input_unnecessary, input_is_removed,
  clean_up_workflow_content_inputs,
}
use hetida_designer.Content.Inputs.Decide.{verdict-input, input-AreMoved}

-- The operator input that a workflow input refers to is there, agrees in its data type, and is
-- exposed.
abbrev pub RefersTo : Dict (ℕ × ℕ) OperatorInput → WorkflowContentDynamicInput → Type 0
RefersTo d x =
    (i : OperatorInput) × (get (x.operator_id, x.connector_id) d ≡ some i)
    × (matches_operator_io x.io i.connector ≡ true)
    × (i.exposed ≡ true)

-- The last link that ends at the operator input, if there is one, starts at the workflow input.
abbrev pub LinkedFromHere : WorkflowContentDynamicInput → Option Link → Type 0
LinkedFromHere x none = Unit
LinkedFromHere x (some l) = x.id ≡ l.start.connector.id

-- Exactly one link starts at the workflow input; it agrees in id, name and data type, and it leads
-- to the operator input that the workflow input refers to.
abbrev pub HasItsLink : WorkflowContentDynamicInput → List Link → Type 0
HasItsLink x links =
    (l : Link) × (links ≡ l ∷ [])
    × (matches_io x.connector l.start.connector ≡ true)
    × (l.end.operator ≡ some x.operator_id)
    × (l.end.connector.id ≡ x.connector_id)

-- What makes a dynamic workflow input necessary.
pub record IsNecessary (d : Dict (ℕ × ℕ) OperatorInput) (links : List Link)
    (x : WorkflowContentDynamicInput) : Type 0 where
  pub refers : RefersTo d x
  pub linked : LinkedFromHere x (last_ending_at (some x.operator_id, x.connector_id) none links)
  pub named : (is_nameless x.name ≡ true) ⊎ HasItsLink x (starting_at (none, x.id) links)

module _ (x : WorkflowContentDynamicInput) where
  fit :
      (oi : Option OperatorInput) (l : Option Link)
      → operator_input_unfit x oi l ≡ false
      → ((i : OperatorInput) × (oi ≡ some i)
          × (matches_operator_io x.io i.connector ≡ true)
          × (i.exposed ≡ true))
        × LinkedFromHere x l
  fit none l h = cc
  fit (some i) none h = ((i, refl, ground arith, ground arith), tt)
  fit (some i) (some l) h = ((i, refl, ground arith, ground arith), ground arith)

  unfit_not :
      (oi : Option OperatorInput) (l : Option Link)
      → ((i : OperatorInput) × (oi ≡ some i)
          × (matches_operator_io x.io i.connector ≡ true)
          × (i.exposed ≡ true))
      → LinkedFromHere x l
      → operator_input_unfit x oi l ≡ false
  unfit_not oi none (i, e, m, p) h = rw (e, m, p) refl
  unfit_not oi (some l) (i, e, m, p) h = rw (e, m, p) (ground (arith, ==_self x.id))

  its_link :
      (ls all : List Link)
      → verdict (named_wf_input_unnecessary x (nonempty ls) all) ≡ ok false
      → HasItsLink x ls
  unfolding named_wf_input_unnecessary
  its_link [] all h = cc
  its_link (l ∷ []) all h = (l, refl, ground arith, ground arith, ground arith)
  its_link (l ∷ m ∷ ls) all h = cc

  not_removed :
      (ls all : List Link)
      → HasItsLink x ls
      → verdict (named_wf_input_unnecessary x (nonempty ls) all) ≡ ok false
  unfolding named_wf_input_unnecessary
  not_removed ls all (l, e, m, p, q) =
      rw
        (e, m, ≡→== l.end.operator (some x.operator_id) p, ≡→== l.end.connector.id x.connector_id q)
        refl

module _ (d : Dict (ℕ × ℕ) OperatorInput) (links : List Link)
    (x : WorkflowContentDynamicInput) where
  by_end : Option Link
  by_end = last_ending_at (some x.operator_id, x.connector_id) none links

  IsNecessary-of_verdict : verdict (input_is_removed d x links) ≡ ok false → IsNecessary d links x
  unfolding input_is_removed wf_input_unnecessary by_end
  IsNecessary-of_verdict h =
      elim (Bool-cases (wf_input_unnecessary x d (initialize_link_by_end_id_tuple_dict links))) [
        | inl e ↦ cc (rw e at h)
        | inr e ↦
            let (refers, linked) =
              fit x (get (x.operator_id, x.connector_id) d) by_end (rw get-link_by_end at e) in
            record { refers = refers; linked = linked; named = named_part (rw e at h) }
      ]
    where
      named_part :
          verdict (
              if is_nameless x.name
              then ok (false, links)
              else named_wf_input_unnecessary x
                  (get (none, x.id) (initialize_links_by_start_id_tuple_dict links))
                  links)
            ≡ ok false
          → (is_nameless x.name ≡ true) ⊎ HasItsLink x (starting_at (none, x.id) links)
      named_part h = elim (Bool-cases (is_nameless x.name)) [
        | inl e ↦ inl e
        | inr e ↦ inr (
            its_link x (starting_at (none, x.id) links) links
              (rw get-links_by_start at (rw e at h)))
      ]

  verdict_of_necessary : IsNecessary d links x → verdict (input_is_removed d x links) ≡ ok false
  unfolding input_is_removed wf_input_unnecessary
  verdict_of_necessary n =
      rw
        (
          get-link_by_end (some x.operator_id, x.connector_id) links,
          unfit_not x (get (x.operator_id, x.connector_id) d)
              (last_ending_at (some x.operator_id, x.connector_id) none links) n.refers n.linked,
        )
        (named_part n.named)
    where
      named_part :
          (is_nameless x.name ≡ true) ⊎ HasItsLink x (starting_at (none, x.id) links)
          → verdict (
              if is_nameless x.name
              then ok (false, links)
              else named_wf_input_unnecessary x
                  (get (none, x.id) (initialize_links_by_start_id_tuple_dict links))
                  links)
            ≡ ok false
      named_part (inl e) = rw e refl
      named_part (inr h) = elim (Bool-cases (is_nameless x.name)) [
        | inl e ↦ rw e refl
        | inr e ↦
            rw (e, get-links_by_start (none, x.id) links)
              (not_removed x (starting_at (none, x.id) links) links h)
      ]

abbrev removing :
    List Operator → WorkflowContentDynamicInput → List Link → Result (Bool × List Link)
removing operators = input_is_removed (initialize_operator_input_by_id_tuple_dict operators)

module _ (operators : List Operator) (links : List Link) where
  abbrev inputs_by_key : Dict (ℕ × ℕ) OperatorInput
  inputs_by_key = initialize_operator_input_by_id_tuple_dict operators

  abbrev goes : WorkflowContentDynamicInput → Bool
  goes =
      passes (removing operators) (λ x ls ms h. verdict-input inputs_by_key x ls ms h)
        (λ x ls b ms h. input-AreMoved inputs_by_key x ls h) links

  abbrev Decided : List WorkflowContentDynamicInput → Type 0
  Decided =
      AllDecided (removing operators) (λ x ls ms h. verdict-input inputs_by_key x ls ms h)
        (λ x ls b ms h. input-AreMoved inputs_by_key x ls h) links

  IsNecessary-iff :
      (inputs : List WorkflowContentDynamicInput)
      → Decided inputs
      → (x : WorkflowContentDynamicInput)
      → Memᴰ x (filter_by (λ y. not (goes y)) inputs)
        ↔ (Memᴰ x inputs × IsNecessary inputs_by_key links x)
  IsNecessary-iff inputs decided x = (to, from)
    where
      to :
          Memᴰ x (filter_by (λ y. not (goes y)) inputs)
          → Memᴰ x inputs × IsNecessary inputs_by_key links x
      to m =
          let (given, stays) = Memᴰ-filter_by (λ y. not (goes y)) inputs m in
          let stayed : goes x ≡ false = ground arith in
          let said =
            All-Memᴰ (λ y. verdict (removing operators y links) ≡ ok (goes y)) given decided in
          (given, IsNecessary-of_verdict inputs_by_key links x (said ∙ ap ok stayed))

      from :
          Memᴰ x inputs × IsNecessary inputs_by_key links x
          → Memᴰ x (filter_by (λ y. not (goes y)) inputs)
      from (given, n) =
          filter_by-Memᴰ (λ y. not (goes y)) given
            (rw (verdict_of_necessary inputs_by_key links x n) refl)

  clean_up-run :
      (inputs : List WorkflowContentDynamicInput) {kept : List WorkflowContentDynamicInput}
      {links' : List Link}
      → clean_up_workflow_content_inputs operators links inputs ≡ ok (kept, links')
      → (kept ≡ filter_by (λ y. not (goes y)) inputs) × AreMoved links links' × Decided inputs
  unfolding clean_up_workflow_content_inputs
  clean_up-run inputs {kept} {links'} h =
      let (p, run, rest) = >>=-eq-ok (collect_adjusting (removing operators) inputs links) _ h in
      let (found, moved, decided) =
        collect_adjusting-ok (removing operators)
          (λ x ls ms h. verdict-input inputs_by_key x ls ms h)
          (λ x ls b ms h. input-AreMoved inputs_by_key x ls h) inputs links {ys = p.0} {ms = p.1}
          run in
      let (same, adjusted) =
        remove_collected goes inputs p.0 p.1 {kept = kept} {links = links'} found rest in
      (same, subst (AreMoved links) adjusted moved, decided)

-- If the validator returns, the inputs that it keeps are exactly the given ones that are necessary,
-- and the links differ from the given ones at most in positions.
pub clean_up_inputs-IsNecessary :
    (operators : List Operator) (links : List Link) (inputs : List WorkflowContentDynamicInput)
    {kept : List WorkflowContentDynamicInput} {links' : List Link}
    → clean_up_workflow_content_inputs operators links inputs ≡ ok (kept, links')
    → ((x : WorkflowContentDynamicInput)
        → Memᴰ x kept ↔ (
            Memᴰ x inputs
            × IsNecessary (initialize_operator_input_by_id_tuple_dict operators) links x))
      × AreMoved links links'
clean_up_inputs-IsNecessary operators links inputs h =
    let (same, moved, decided) = clean_up-run operators links inputs h in
    (λ x. rw same (IsNecessary-iff operators links inputs decided x), moved)
