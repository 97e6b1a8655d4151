-- ===== src/Content/Inputs/Cover.antt =====
-- What feeds the operator inputs after `add_workflow_content_inputs_for_unlinked_operator_inputs`.
use mathlib.Core.List.Memᴰ
use mathlib.Core.List.{flat_map}
use hetida_designer.Prelude.{
  ℕ, ◌+◌, ◌≡◌, ◌≢◌, inl, inr, refl, ap, subst, sym, true, false, Option, none, some, List, [], ◌∷◌,
  ◌++◌, map, Dict, get, from_pairs, get-from_pairs, get-update, nat_eq, key_eq, Bool-cases,
  Option-cases, Memᴰ, ≡→==,
}
use hetida_designer.Io.{
  OperatorInput, WorkflowContentIo, WorkflowContentDynamicInput, WorkflowContentConstantInput,
}
use hetida_designer.Link.{Link, operator_eq}
use hetida_designer.Operator.{Operator}
use hetida_designer.Content.Dicts.{pair_eq, initialize_link_by_end_id_tuple_dict}
use hetida_designer.Content.Dicts.Keys.{last_ending_at, get-link_by_end}
use hetida_designer.Content.Inputs.{
  input_slots, known_inputs, unnamed_input, is_unlinked, input_is_missing, add_inputs,
  add_workflow_content_inputs_for_unlinked_operator_inputs,
}

-- What can feed the input `i` of the operator `op`.
pub data Feeds (op i : ℕ) (inputs : List WorkflowContentDynamicInput)
    (constants : List WorkflowContentConstantInput) (links : List Link) : Type 0 where
  by_input :
      (x : WorkflowContentDynamicInput)
      → Memᴰ x inputs
      → x.operator_id ≡ op
      → x.connector_id ≡ i
      → Feeds op i inputs constants links
  by_constant :
      (c : WorkflowContentConstantInput)
      → Memᴰ c constants
      → c.operator_id ≡ op
      → c.connector_id ≡ i
      → Feeds op i inputs constants links
  by_link :
      (l : Link)
      → last_ending_at (some op, i) none links ≡ some l
      → l.start.operator ≢ none
      → Feeds op i inputs constants links

slot_Memᴰ :
    {op : Operator} {i : OperatorInput} (operators : List Operator)
    → Memᴰ op operators
    → Memᴰ i op.inputs
    → Memᴰ (op, i) (input_slots operators)
unfolding flat_map
slot_Memᴰ [] m n = elim m [ ]
slot_Memᴰ {op} {i} (o ∷ operators) (Memᴰ.head e) n = Memᴰ.append_left (input_slots operators) (
    subst (λ q. Memᴰ {A = Operator × OperatorInput} (op, i) (map (λ j. (q, j)) q.inputs)) e
      (Memᴰ.map (λ j. (op, j)) n))
slot_Memᴰ {op} {i} (o ∷ operators) (Memᴰ.tail m) n =
    Memᴰ.append_right (map (λ j. (o, j)) o.inputs) (slot_Memᴰ operators m n)

module _ (uuid4 : ℕ → ℕ) (known : Dict (ℕ × ℕ) WorkflowContentIo)
    (by_end : Dict (Option ℕ × ℕ) Link) where
  added :
      (n : ℕ) {slot : Operator × OperatorInput} (slots : List (Operator × OperatorInput))
      → Memᴰ slot slots
      → input_is_missing known by_end slot ≡ true
      → (x : WorkflowContentDynamicInput) × Memᴰ x (add_inputs uuid4 known by_end n slots)
        × (x.operator_id ≡ slot.0.id)
        × (x.connector_id ≡ slot.1.id)
  unfolding add_inputs
  added n [] m h = elim m [ ]
  added n {slot} (s ∷ slots) (Memᴰ.head e) h = (
    unnamed_input (uuid4 n) s.0 s.1,
    rw (ap (input_is_missing known by_end) (sym e), h) (Memᴰ.head refl),
    ap (λ (p : Operator × OperatorInput). p.0.id) (sym e),
    ap (λ (p : Operator × OperatorInput). p.1.id) (sym e),
  )
  added n {slot} (s ∷ slots) (Memᴰ.tail m) h = elim (Bool-cases (input_is_missing known by_end s)) [
    | inl e ↦ let (x, member, p, q) = added (n + 1) slots m h in (x, rw e (Memᴰ.tail member), p, q)
    | inr e ↦ let (x, member, p, q) = added n slots m h in (x, rw e member, p, q)
  ]

known_source :
    (inputs : List WorkflowContentDynamicInput) (constants : List WorkflowContentConstantInput)
    (op i : ℕ) (links : List Link) {io : WorkflowContentIo}
    → get (op, i) (known_inputs inputs constants) ≡ some io
    → Feeds op i inputs constants links
unfolding known_inputs
known_source inputs constants op i links h =
    elim (get-update (map (λ c. ((c.operator_id, c.connector_id), c.io)) constants)
      (from_pairs (map (λ x. ((x.operator_id, x.connector_id), x.io)) inputs)) (op, i) h) [
        | inl m ↦
            let (c, member, e) =
              Memᴰ.of_map
                (λ (c : WorkflowContentConstantInput). ((c.operator_id, c.connector_id), c.io))
                constants m in
            by_constant c member (ap (λ p. p.0.0) e) (ap (λ p. p.0.1) e)
        | inr p ↦
            let m =
              get-from_pairs (map (λ x. ((x.operator_id, x.connector_id), x.io)) inputs) (op, i)
                p in
            let (x, member, e) =
              Memᴰ.of_map
                (λ (x : WorkflowContentDynamicInput). ((x.operator_id, x.connector_id), x.io))
                inputs m in
            by_input x member (ap (λ p. p.0.0) e) (ap (λ p. p.0.1) e)
      ]

more_inputs :
    {op i : ℕ} {inputs : List WorkflowContentDynamicInput}
    {constants : List WorkflowContentConstantInput} {links : List Link}
    (new : List WorkflowContentDynamicInput)
    → Feeds op i inputs constants links
    → Feeds op i (inputs ++ new) constants links
more_inputs new (by_input x m p q) = by_input x (Memᴰ.append_left new m) p q
more_inputs new (by_constant c m p q) = by_constant c m p q
more_inputs new (by_link l e h) = by_link l e h

module _ (uuid4 : ℕ → ℕ) (constants : List WorkflowContentConstantInput) (links : List Link) (n : ℕ)
    (inputs : List WorkflowContentDynamicInput) (slots : List (Operator × OperatorInput)) where
  abbrev new_inputs : List WorkflowContentDynamicInput
  new_inputs =
      add_inputs uuid4 (known_inputs inputs constants) (initialize_link_by_end_id_tuple_dict links)
        n slots

  Feeds-unlinked :
      (op : Operator) (i : OperatorInput)
      → Memᴰ (op, i) slots
      → input_is_missing
          (known_inputs inputs constants)
          (initialize_link_by_end_id_tuple_dict links)
          (op, i)
        ≡ true
      → Feeds op.id i.id (inputs ++ new_inputs) constants links
  Feeds-unlinked op i m h =
      let (x, member, p, q) =
        added uuid4 (known_inputs inputs constants) (initialize_link_by_end_id_tuple_dict links) n
          slots m h in
      by_input x (Memᴰ.append_right inputs member) p q

  Feeds-linked :
      (op : Operator) (i : OperatorInput)
      → is_unlinked (last_ending_at (some op.id, i.id) none links) ≡ false
      → Feeds op.id i.id (inputs ++ new_inputs) constants links
  Feeds-linked op i h = elim (Option-cases (last_ending_at (some op.id, i.id) none links)) [
    | inl e ↦ cc (rw e at h)
    | inr (l, e) ↦ by_link l e (λ unset. cc (rw e at h, ≡→== l.start.operator none unset))
  ]

  feeds :
      (op : Operator) (i : OperatorInput)
      → Memᴰ (op, i) slots
      → i.exposed ≡ true
      → Feeds op.id i.id (inputs ++ new_inputs) constants links
  feeds op i m exposed = elim (Option-cases (get (op.id, i.id) (known_inputs inputs constants))) [
    | inr (io, e) ↦ more_inputs new_inputs (known_source inputs constants op.id i.id links e)
    | inl e ↦ elim (Bool-cases (is_unlinked (last_ending_at (some op.id, i.id) none links))) [
      | inl free ↦
          Feeds-unlinked op i m (rw (exposed, e, get-link_by_end (some op.id, i.id) links) free)
      | inr taken ↦ Feeds-linked op i taken
    ]
  ]

-- Every exposed input of every operator is fed afterwards: by a workflow input of the result, by a
-- constant, or by a link that starts at an operator.
pub add_inputs-Feeds :
    (uuid4 : ℕ → ℕ) (operators : List Operator) (constants : List WorkflowContentConstantInput)
    (links : List Link) (n : ℕ) (inputs : List WorkflowContentDynamicInput) {op : Operator}
    {i : OperatorInput}
    → Memᴰ op operators
    → Memᴰ i op.inputs
    → i.exposed ≡ true
    → Feeds op.id i.id
        (add_workflow_content_inputs_for_unlinked_operator_inputs uuid4 operators constants links n
          inputs)
        constants
        links
unfolding add_workflow_content_inputs_for_unlinked_operator_inputs
add_inputs-Feeds uuid4 operators constants links n inputs {op} {i} m member exposed =
    feeds uuid4 constants links n inputs (input_slots operators) op i (slot_Memᴰ operators m member)
      exposed
