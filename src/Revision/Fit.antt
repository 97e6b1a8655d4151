-- ===== src/Revision/Fit.antt =====
-- The io interface of a workflow revision is fitted to its content: `io_interface_fits_to_content` and
-- the four functions that it calls. The lists and dictionaries that they change are passed on.
pub mod Loop
pub mod Matches
pub mod Interface
use hetida_designer.Prelude.{
  ℕ, Bool, Option, none, some, List, [], ◌∷◌, ◌++◌, map, Dict, get, from_pairs, delete, remove_all,
  cons_to, Eq, ◌==◌, nat_eq, if◌then◌else◌, ℕ_discrete, Text-discrete, Result, ok, ◌>>=◌,
}
use hetida_designer.Io.{
  Python, TransformationInput, TransformationOutput, WorkflowContentDynamicInput,
  WorkflowContentOutput,
}
use hetida_designer.Io.Convert.{
  matches_trafo_input, matches_trafo_output, to_transformation_input, to_transformation_output,
}
use hetida_designer.Content.Links.{or_not_in_list}
use hetida_designer.Revision.{Content, code, workflow_content, IoInterface}

unfoldable pub TransformationInput-discrete : Discrete TransformationInput
TransformationInput-discrete = hlevel (ℕ_discrete, Text-discrete)

instance abbrev pub tr_input_eq : Eq TransformationInput
tr_input_eq = record { discrete = TransformationInput-discrete }

unfoldable pub TransformationOutput-discrete : Discrete TransformationOutput
TransformationOutput-discrete = hlevel (ℕ_discrete, Text-discrete)

instance abbrev pub tr_output_eq : Eq TransformationOutput
tr_output_eq = record { discrete = TransformationOutput-discrete }

-- `xs[xs.index(x)] = y`, with `none` for the ValueError
unfoldable pub replace_first {ℓ} : {A : Type ℓ} ⦃e : Eq A⦄ → A → A → List A → Option (List A)
replace_first x y [] = none
replace_first x y (z ∷ zs) = if z == x then some (y ∷ zs) else cons_to z (replace_first x y zs)

-- what a list of inputs or outputs and the dictionary of the workflow's have become, and what to remove
abbrev pub Adjusted : Type 0 → Type 0 → Type 0
Adjusted A W = List A × Dict ℕ W × List A

-- A matching element stays, another one is replaced.
unfoldable pub adjust_one :
    {A W : Type 0} ⦃e : Eq A⦄ → (W → A → Bool) → (W → Result A) → A → W → List A → Result (List A)
unfolding replace_first
adjust_one matches convert x w current =
    if matches w x
    then ok current
    else (do new ← convert w; or_not_in_list (replace_first x new current))

-- The loop of both `adjust` functions; a copy of the list is left to visit, since an element is only
-- replaced at or before its place.
unfoldable pub adjust_loop :
    {A W : Type 0} ⦃e : Eq A⦄
    → (A → ℕ)
    → (W → A → Bool)
    → (W → Result A)
    → List A
    → List A
    → Dict ℕ W
    → Result (Adjusted A W)
unfolding get delete adjust_one
adjust_loop id_of matches convert [] current by_id = ok (current, by_id, [])
adjust_loop id_of matches convert (x ∷ xs) current by_id = elim (get (id_of x) by_id) [
  | none ↦ do
    rest ← adjust_loop id_of matches convert xs current by_id
    ok (rest.0, rest.1, x ∷ rest.2)
  | some w ↦ do
    replaced ← adjust_one matches convert x w current
    adjust_loop id_of matches convert xs replaced (delete (id_of x) by_id)
]

-- Then the elements without an entry of the dictionary are removed.
unfoldable pub adjust_and_remove :
    {A W : Type 0} ⦃e : Eq A⦄
    → (A → ℕ)
    → (W → A → Bool)
    → (W → Result A)
    → List A
    → Dict ℕ W
    → Result (List A × Dict ℕ W)
unfolding adjust_loop
adjust_and_remove id_of matches convert xs by_id = do
  adjusted ← adjust_loop id_of matches convert xs xs by_id
  kept ← or_not_in_list (remove_all adjusted.2 adjusted.0)
  ok (kept, adjusted.1)

-- `for w in d.values(): xs.append(convert(w))`
unfoldable pub add_surplus : {A W : Type 0} → (W → Result A) → List A → Dict ℕ W → Result (List A)
add_surplus convert xs [] = ok xs
add_surplus convert xs ((id, w) ∷ by_id) = do
  new ← convert w
  add_surplus convert (xs ++ new ∷ []) by_id

module _ (py : Python) where
  unfoldable pub adjust_tr_inputs_to_not_matching_wf_inputs_and_remove_surplus_tr_inputs :
      List TransformationInput
      → Dict ℕ WorkflowContentDynamicInput
      → Result (List TransformationInput × Dict ℕ WorkflowContentDynamicInput)
  unfolding adjust_and_remove to_transformation_input matches_trafo_input
  adjust_tr_inputs_to_not_matching_wf_inputs_and_remove_surplus_tr_inputs =
      adjust_and_remove (λ i. i.id) matches_trafo_input (to_transformation_input py)

  unfoldable pub add_tr_inputs_for_surplus_wf_inputs :
      List TransformationInput
      → Dict ℕ WorkflowContentDynamicInput
      → Result (List TransformationInput)
  unfolding add_surplus to_transformation_input
  add_tr_inputs_for_surplus_wf_inputs = add_surplus (to_transformation_input py)

  unfoldable pub adjust_tr_outputs_to_not_matching_wf_outputs_and_remove_surplus_tr_outputs :
      List TransformationOutput
      → Dict ℕ WorkflowContentOutput
      → Result (List TransformationOutput × Dict ℕ WorkflowContentOutput)
  unfolding adjust_and_remove to_transformation_output matches_trafo_output
  adjust_tr_outputs_to_not_matching_wf_outputs_and_remove_surplus_tr_outputs =
      adjust_and_remove (λ o. o.id) matches_trafo_output (to_transformation_output py)

  unfoldable pub add_trafo_outputs_for_surplus_wf_outputs :
      List TransformationOutput → Dict ℕ WorkflowContentOutput → Result (List TransformationOutput)
  unfolding add_surplus to_transformation_output
  add_trafo_outputs_for_surplus_wf_outputs = add_surplus (to_transformation_output py)

  unfoldable pub io_interface_fits_to_content : Content → IoInterface → Result IoInterface
  unfolding adjust_tr_inputs_to_not_matching_wf_inputs_and_remove_surplus_tr_inputs
      add_tr_inputs_for_surplus_wf_inputs
      adjust_tr_outputs_to_not_matching_wf_outputs_and_remove_surplus_tr_outputs
      add_trafo_outputs_for_surplus_wf_outputs from_pairs
  io_interface_fits_to_content (code text) io_interface = ok io_interface
  io_interface_fits_to_content (workflow_content c) io_interface = do
    i ←
        adjust_tr_inputs_to_not_matching_wf_inputs_and_remove_surplus_tr_inputs io_interface.inputs
          (from_pairs (map (λ wf_input. (wf_input.id, wf_input)) c.inputs))
    inputs ← add_tr_inputs_for_surplus_wf_inputs i.0 i.1
    o ←
        adjust_tr_outputs_to_not_matching_wf_outputs_and_remove_surplus_tr_outputs
          io_interface.outputs (from_pairs (map (λ wf_output. (wf_output.id, wf_output)) c.outputs))
    outputs ← add_trafo_outputs_for_surplus_wf_outputs o.0 o.1
    ok (record { inputs = inputs; outputs = outputs })
