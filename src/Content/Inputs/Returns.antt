-- ===== src/Content/Inputs/Returns.antt =====
-- When `clean_up_workflow_content_inputs` returns.
use hetida_designer.Prelude.{
  ℕ, ◌≡◌, ◌≤◌, refl, Bool, not, none, List, [], ◌∷◌, Dict, length, nat_eq, key_eq, arith,
  Bool-cases, inl, inr, Result, ok, Memᴰ, Memᴰ-All, filter_by, remove_all-filter_by,
}
use hetida_designer.Io.{OperatorInput, WorkflowContentDynamicInput, dynamic_input_eq, is_nameless}
use hetida_designer.Link.{Link}
use hetida_designer.Operator.{Operator}
use hetida_designer.Content.Dicts.{
  pair_eq, initialize_operator_input_by_id_tuple_dict, initialize_link_by_end_id_tuple_dict,
}
use hetida_designer.Content.Dicts.Keys.{nonempty, starting_at, get-links_by_start}
use hetida_designer.Content.Moved.{AreMoved}
use hetida_designer.Content.Moved.Lookup.{AreMoved-refl}
use hetida_designer.Content.Adjust.{verdict}
use hetida_designer.Content.Adjust.Filter.{says_true, passes, collect_adjusting_of}
use hetida_designer.Content.Inputs.{
  wf_input_unnecessary, named_wf_input_unnecessary, input_is_removed,
  clean_up_workflow_content_inputs,
}
use hetida_designer.Content.Inputs.Decide.{verdict-input, input-AreMoved}

abbrev IsDecided : Result Bool → Type 0
IsDecided r = r ≡ ok (says_true r)

named-IsDecided :
    (x : WorkflowContentDynamicInput) (ls all : List Link)
    → length ls ≤ 1
    → IsDecided (verdict (named_wf_input_unnecessary x (nonempty ls) all))
unfolding named_wf_input_unnecessary
named-IsDecided x [] all h = refl
named-IsDecided x (l ∷ []) all h = ground arith
named-IsDecided x (l ∷ m ∷ ls) all h = absurd (omega arith)

module _ (d : Dict (ℕ × ℕ) OperatorInput) (links : List Link) where
  input-IsDecided :
      (x : WorkflowContentDynamicInput)
      → length (starting_at (none, x.id) links) ≤ 1
      → IsDecided (verdict (input_is_removed d x links))
  unfolding input_is_removed
  input-IsDecided x h =
      elim (Bool-cases (wf_input_unnecessary x d (initialize_link_by_end_id_tuple_dict links))) [
        | inl e ↦ rw e refl
        | inr e ↦ elim (Bool-cases (is_nameless x.name)) [
          | inl nameless ↦ rw (e, nameless) refl
          | inr named ↦
              rw (e, named, get-links_by_start)
                (named-IsDecided x (starting_at (none, x.id) links) links h)
        ]
      ]

-- The validator returns, and moves links at most, if at most one link starts at each of the workflow
-- inputs.
pub clean_up_inputs-returns :
    (operators : List Operator) (links : List Link) (inputs : List WorkflowContentDynamicInput)
    → ((x : WorkflowContentDynamicInput)
        → Memᴰ x inputs
        → length (starting_at (none, x.id) links) ≤ 1)
    → (kept : List WorkflowContentDynamicInput) × (links' : List Link)
      × (clean_up_workflow_content_inputs operators links inputs ≡ ok (kept, links'))
      × AreMoved links links'
unfolding clean_up_workflow_content_inputs
clean_up_inputs-returns operators links inputs single =
    let d = initialize_operator_input_by_id_tuple_dict operators in
    let goes =
      passes (input_is_removed d) (λ x ls ms h. verdict-input d x ls ms h)
        (λ x ls b ms h. input-AreMoved d x ls h) links in
    let (links', run, moved) =
      collect_adjusting_of (input_is_removed d) (λ x ls ms h. verdict-input d x ls ms h)
        (λ x ls b ms h. input-AreMoved d x ls h) inputs links links (AreMoved-refl links)
        (Memᴰ-All inputs (λ x m. input-IsDecided d links x (single x m))) in
    (
      filter_by (λ x. not (goes x)) inputs,
      links',
      rw (run, remove_all-filter_by goes inputs) refl,
      moved,
    )
