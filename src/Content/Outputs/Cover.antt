-- ===== src/Content/Outputs/Cover.antt =====
-- Where the operator outputs lead after `add_workflow_content_outputs_for_unlinked_operator_outputs`.
use mathlib.Core.List.Memᴰ
use mathlib.Core.List.{flat_map}
use hetida_designer.Prelude.{
  ℕ, ◌+◌, ◌≡◌, ◌≢◌, inl, inr, refl, ap, subst, sym, true, false, Option, none, some, List, [], ◌∷◌,
  ◌++◌, map, Dict, get, get-from_pairs, nat_eq, key_eq, ◌==◌, Bool-cases, Option-cases, Memᴰ, ≡→==,
  any-false,
}
use hetida_designer.Io.{OperatorOutput, WorkflowContentIo, WorkflowContentOutput}
use hetida_designer.Link.{Link, operator_eq}
use hetida_designer.Operator.{Operator}
use hetida_designer.Content.Dicts.{pair_eq, initialize_links_by_start_id_tuple_dict}
use hetida_designer.Content.Dicts.Keys.{nonempty, starting_at, get-links_by_start}
use hetida_designer.Content.Outputs.{
  output_slots, known_outputs, unnamed_output, leads_out, output_is_missing, add_outputs,
  add_workflow_content_outputs_for_unlinked_operator_outputs,
}

-- Where the output `o` of the operator `op` leads: an output of the workflow refers to it, or links
-- start at it and all of them end at operators.
pub data Leads (op o : ℕ) (outputs : List WorkflowContentOutput) (links : List Link) : Type 0 where
  to_output :
      (x : WorkflowContentOutput)
      → Memᴰ x outputs
      → x.operator_id ≡ op
      → x.connector_id ≡ o
      → Leads op o outputs links
  to_operators :
      starting_at (some op, o) links ≢ []
      → ((l : Link) → Memᴰ l (starting_at (some op, o) links) → l.end.operator ≢ none)
      → Leads op o outputs links

slot_Memᴰ :
    {op : Operator} {o : OperatorOutput} (operators : List Operator)
    → Memᴰ op operators
    → Memᴰ o op.outputs
    → Memᴰ (op, o) (output_slots operators)
unfolding flat_map
slot_Memᴰ [] m n = elim m [ ]
slot_Memᴰ {op} {o} (first ∷ operators) (Memᴰ.head e) n = Memᴰ.append_left (output_slots operators) (
    subst (λ q. Memᴰ {A = Operator × OperatorOutput} (op, o) (map (λ j. (q, j)) q.outputs)) e
      (Memᴰ.map (λ j. (op, j)) n))
slot_Memᴰ {op} {o} (first ∷ operators) (Memᴰ.tail m) n =
    Memᴰ.append_right (map (λ j. (first, j)) first.outputs) (slot_Memᴰ operators m n)

module _ (uuid4 : ℕ → ℕ) (known : Dict (ℕ × ℕ) WorkflowContentIo)
    (by_start : Dict (Option ℕ × ℕ) (List Link)) where
  output_added :
      (n : ℕ) {slot : Operator × OperatorOutput} (slots : List (Operator × OperatorOutput))
      → Memᴰ slot slots
      → output_is_missing known by_start slot ≡ true
      → (x : WorkflowContentOutput) × Memᴰ x (add_outputs uuid4 known by_start n slots)
        × (x.operator_id ≡ slot.0.id)
        × (x.connector_id ≡ slot.1.id)
  unfolding add_outputs
  output_added n [] m h = elim m [ ]
  output_added n {slot} (s ∷ slots) (Memᴰ.head e) h = (
    unnamed_output (uuid4 n) s.0 s.1,
    rw (ap (output_is_missing known by_start) (sym e), h) (Memᴰ.head refl),
    ap (λ (p : Operator × OperatorOutput). p.0.id) (sym e),
    ap (λ (p : Operator × OperatorOutput). p.1.id) (sym e),
  )
  output_added n {slot} (s ∷ slots) (Memᴰ.tail m) h =
      elim (Bool-cases (output_is_missing known by_start s)) [
        | inl e ↦
            let (x, member, p, q) = output_added (n + 1) slots m h in
            (x, rw e (Memᴰ.tail member), p, q)
        | inr e ↦ let (x, member, p, q) = output_added n slots m h in (x, rw e member, p, q)
      ]

known_target :
    (outputs : List WorkflowContentOutput) (op o : ℕ) (links : List Link) {io : WorkflowContentIo}
    (new : List WorkflowContentOutput)
    → get (op, o) (known_outputs outputs) ≡ some io
    → Leads op o (outputs ++ new) links
unfolding known_outputs
known_target outputs op o links new h =
    let m = get-from_pairs (map (λ x. ((x.operator_id, x.connector_id), x)) outputs) (op, o) h in
    let (x, member, e) =
      Memᴰ.of_map (λ (x : WorkflowContentOutput). ((x.operator_id, x.connector_id), x)) outputs m in
    to_output x (Memᴰ.append_left new member) (ap (λ p. p.0.0) e) (ap (λ p. p.0.1) e)

missing_of_free :
    (known : Dict (ℕ × ℕ) WorkflowContentIo) (by_start : Dict (Option ℕ × ℕ) (List Link))
    (op : Operator) (o : OperatorOutput)
    → get (op.id, o.id) known ≡ none
    → leads_out (get (some op.id, o.id) by_start) ≡ true
    → output_is_missing known by_start (op, o) ≡ true
missing_of_free known by_start op o e free = rw (output_is_missing, e) free

-- What `leads_out` refuses.
inside :
    (ls : List Link)
    → leads_out (nonempty ls) ≡ false
    → (ls ≢ []) × ((l : Link) → Memᴰ l ls → l.end.operator ≢ none)
inside [] h = cc
inside (l ∷ ls) h = (
  λ e. cc,
  λ k m unset. cc (any-false (λ x. x.end.operator == none) m h, ≡→== k.end.operator none unset),
)

-- Every output of every operator leads on afterwards: a workflow output of the result refers to it, or
-- links start at it and all of them end at operators.
pub add_outputs-Leads :
    (uuid4 : ℕ → ℕ) (operators : List Operator) (links : List Link) (n : ℕ)
    (outputs : List WorkflowContentOutput) {op : Operator} {o : OperatorOutput}
    → Memᴰ op operators
    → Memᴰ o op.outputs
    → Leads op.id o.id
        (add_workflow_content_outputs_for_unlinked_operator_outputs uuid4 operators links n outputs)
        links
unfolding add_workflow_content_outputs_for_unlinked_operator_outputs
add_outputs-Leads uuid4 operators links n outputs {op} {o} m member =
    let key : Option ℕ × ℕ = (some op.id, o.id) in
    elim (Option-cases (get (op.id, o.id) (known_outputs outputs))) [
      | inr (io, e) ↦ known_target outputs op.id o.id links _ e
      | inl e ↦ elim (Bool-cases (leads_out (nonempty (starting_at key links)))) [
        | inl free ↦
            let (x, new, p, q) =
              output_added uuid4 (known_outputs outputs)
                (initialize_links_by_start_id_tuple_dict links) n (output_slots operators)
                (slot_Memᴰ operators m member)
                (missing_of_free (known_outputs outputs)
                  (initialize_links_by_start_id_tuple_dict links) op o e
                  (rw (get-links_by_start key links) free)) in
            to_output x (Memᴰ.append_right outputs new) p q
        | inr taken ↦
            let (some_link, within) = inside (starting_at key links) taken in
            to_operators some_link within
      ]
    ]
