-- ===== src/Revision/Fit/Interface.antt =====
-- On `io_interface_fits_to_content`.
use mathlib.Core.List.Memᴰ
use hetida_designer.Prelude.{
  ℕ, ◌≡◌, refl, sym, ap, subst, ◌∙◌, true, not, ◌&&◌, Option, none, some, List, [], ◌∷◌, map, Text,
  get, from_pairs, get-from_pairs, IsDict-from_pairs, ◌==◌, nat_eq, name_eq, ==→≡, ==_self,
  Bool-cases, IsNodup, inl, inr, ok, >>=-eq-ok, ok-injective,
}
use hetida_designer.Io.{
  Python, valid_python_identifier, name_valid_python_identifier, InputType, required, optional,
  value_set_only_for_optional_input, TransformationInput, TransformationOutput,
  WorkflowContentDynamicInput, WorkflowContentOutput, data_type_eq,
}
use hetida_designer.Io.Convert.{
  matches_trafo_input, matches_trafo_output, to_transformation_input, to_transformation_output,
}
use hetida_designer.Io.Convert.Roundtrip.{same_type_self}
use hetida_designer.Revision.{WorkflowContent, workflow_content, IoInterface}
use hetida_designer.Revision.Fit.{
  tr_input_eq, tr_output_eq,
  adjust_tr_inputs_to_not_matching_wf_inputs_and_remove_surplus_tr_inputs,
  add_tr_inputs_for_surplus_wf_inputs,
  adjust_tr_outputs_to_not_matching_wf_outputs_and_remove_surplus_tr_outputs,
  add_trafo_outputs_for_surplus_wf_outputs, io_interface_fits_to_content,
}
use hetida_designer.Revision.Fit.Matches.{IsFitted, adjust_and_add-IsFitted}

name_kept :
    (py : Python) (name : Option Text) {given : Option Text}
    → name_valid_python_identifier py name ≡ ok given
    → name ≡ given
unfolding name_valid_python_identifier valid_python_identifier
name_kept py none run = ok-injective run
name_kept py (some []) run = ok-injective run
name_kept py (some (c ∷ cs)) {given} run =
    elim (Bool-cases (py.isidentifier (c ∷ cs) && not (py.iskeyword (c ∷ cs)))) [
      | inl fine ↦ ok-injective (rw fine at run)
      | inr bad ↦ cc (rw bad at run)
    ]

value_kept :
    (type : InputType) (value : Option Text) {given : Option Text}
    → value_set_only_for_optional_input type value ≡ ok given
    → value ≡ given
unfolding value_set_only_for_optional_input
value_kept required (some value) run = cc
value_kept required none run = ok-injective run
value_kept optional (some value) run = ok-injective run
value_kept optional none run = ok-injective run

input_matches :
    (py : Python) (w : WorkflowContentDynamicInput) (a : TransformationInput)
    → to_transformation_input py w ≡ ok a
    → matches_trafo_input w a ≡ true
unfolding to_transformation_input matches_trafo_input
input_matches py w a run =
    let (name, e1, r1) = >>=-eq-ok (name_valid_python_identifier py w.name) _ run in
    let (value, e2, r2) = >>=-eq-ok (value_set_only_for_optional_input w.type w.value) _ r1 in
    subst (λ v. matches_trafo_input w v ≡ true)
      (ap
          (λ n. record {
            id = w.id;
            name = n;
            data_type = w.data_type;
            type = w.type;
            value = w.value;
          })
          (name_kept py w.name e1)
        ∙ ap
            (λ v. record {
              id = w.id;
              name = name;
              data_type = w.data_type;
              type = w.type;
              value = v;
            })
            (value_kept w.type w.value e2)
        ∙ ok-injective r2)
      (rw
        (==_self w.id, ==_self w.name, ==_self w.data_type, same_type_self w.type, ==_self w.value)
        refl)

output_matches :
    (py : Python) (w : WorkflowContentOutput) (a : TransformationOutput)
    → to_transformation_output py w ≡ ok a
    → matches_trafo_output w a ≡ true
unfolding to_transformation_output matches_trafo_output
output_matches py w a run =
    let (name, e1, r1) = >>=-eq-ok (name_valid_python_identifier py w.name) _ run in
    subst (λ v. matches_trafo_output w v ≡ true)
      (ap (λ n. record { id = w.id; name = n; data_type = w.data_type }) (name_kept py w.name e1)
        ∙ ok-injective r1)
      (rw (==_self w.id, ==_self w.name, ==_self w.data_type) refl)

input_id :
    (w : WorkflowContentDynamicInput) (a : TransformationInput)
    → matches_trafo_input w a ≡ true
    → a.id ≡ w.id
unfolding matches_trafo_input
input_id w a h = elim (Bool-cases (w.id == a.id)) [
  | inl same ↦ sym (==→≡ w.id a.id same)
  | inr other ↦ cc (rw other at h)
]

output_id :
    (w : WorkflowContentOutput) (a : TransformationOutput)
    → matches_trafo_output w a ≡ true
    → a.id ≡ w.id
unfolding matches_trafo_output
output_id w a h = elim (Bool-cases (w.id == a.id)) [
  | inl same ↦ sym (==→≡ w.id a.id same)
  | inr other ↦ cc (rw other at h)
]

keys_kept :
    {W : Type 0} (id_w : W → ℕ) (ws : List W) (id : ℕ) (w : W)
    → get id (from_pairs (map (λ v. (id_w v, v)) ws)) ≡ some w
    → id_w w ≡ id
keys_kept id_w ws id w found =
    let (v, m, same) =
      Memᴰ.of_map (λ v. (id_w v, v)) ws (get-from_pairs (map (λ v. (id_w v, v)) ws) id found) in
    ap id_w (sym (ap (λ p. p.1) same)) ∙ ap (λ p. p.0) same

-- Where the inputs, and the outputs, of the io interface have distinct ids, every one of the fitted
-- interface matches the workflow's of the same id, and every one of the workflow has one that it matches.
pub io_interface_fits_to_content-IsFitted :
    (py : Python) (c : WorkflowContent) (given fitted : IoInterface)
    → IsNodup (map (λ i. i.id) given.inputs)
    → IsNodup (map (λ o. o.id) given.outputs)
    → io_interface_fits_to_content py (workflow_content c) given ≡ ok fitted
    → IsFitted
        (λ i. i.id)
        matches_trafo_input
        (from_pairs (map (λ w. (w.id, w)) c.inputs))
        fitted.inputs
      × IsFitted
          (λ o. o.id)
          matches_trafo_output
          (from_pairs (map (λ w. (w.id, w)) c.outputs))
          fitted.outputs
unfolding io_interface_fits_to_content
    adjust_tr_inputs_to_not_matching_wf_inputs_and_remove_surplus_tr_inputs
    add_tr_inputs_for_surplus_wf_inputs
    adjust_tr_outputs_to_not_matching_wf_outputs_and_remove_surplus_tr_outputs
    add_trafo_outputs_for_surplus_wf_outputs
io_interface_fits_to_content-IsFitted py c given fitted inputs_nodup outputs_nodup run =
    let wf_inputs = from_pairs (map (λ (w : WorkflowContentDynamicInput). (w.id, w)) c.inputs) in
    let wf_outputs = from_pairs (map (λ (w : WorkflowContentOutput). (w.id, w)) c.outputs) in
    let (i, e1, r1) =
      >>=-eq-ok
        (adjust_tr_inputs_to_not_matching_wf_inputs_and_remove_surplus_tr_inputs py given.inputs
          wf_inputs)
        _ run in
    let (inputs, e2, r2) = >>=-eq-ok (add_tr_inputs_for_surplus_wf_inputs py i.0 i.1) _ r1 in
    let (o, e3, r3) =
      >>=-eq-ok
        (adjust_tr_outputs_to_not_matching_wf_outputs_and_remove_surplus_tr_outputs py given.outputs
          wf_outputs)
        _ r2 in
    let (outputs, e4, r4) = >>=-eq-ok (add_trafo_outputs_for_surplus_wf_outputs py o.0 o.1) _ r3 in
    let same = ok-injective r4 in
    (
      subst (λ (v : IoInterface). IsFitted (λ i. i.id) matches_trafo_input wf_inputs v.inputs) same
          (adjust_and_add-IsFitted (λ i. i.id) (λ w. w.id) matches_trafo_input
            (to_transformation_input py) input_id (input_matches py) given.inputs wf_inputs i.0 i.1
            inputs
            (IsDict-from_pairs (map (λ (w : WorkflowContentDynamicInput). (w.id, w)) c.inputs))
            (keys_kept (λ w. w.id) c.inputs) inputs_nodup e1 e2),
      subst (λ (v : IoInterface). IsFitted (λ o. o.id) matches_trafo_output wf_outputs v.outputs)
          same
          (adjust_and_add-IsFitted (λ o. o.id) (λ w. w.id) matches_trafo_output
            (to_transformation_output py) output_id (output_matches py) given.outputs wf_outputs o.0
            o.1 outputs
            (IsDict-from_pairs (map (λ (w : WorkflowContentOutput). (w.id, w)) c.outputs))
            (keys_kept (λ w. w.id) c.outputs) outputs_nodup e3 e4),
    )
