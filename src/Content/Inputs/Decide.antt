-- ===== src/Content/Inputs/Decide.antt =====
-- The verdict on an input, and the positions of the links' connectors, which the loop adjusts while it
-- decides.
use hetida_designer.Prelude.{
  ℕ, ◌≡◌, refl, subst, Bool, true, false, Option, none, some, List, [], ◌∷◌, Dict, get, ◌==◌,
  nat_eq, key_eq, arith, Bool-cases, inl, inr, if◌then◌else◌, Result, ok,
}
use hetida_designer.Io.{
  OperatorInput, WorkflowContentDynamicInput, position_eq, matches_io, is_nameless,
}
use hetida_designer.Link.{Link, operator_eq}
use hetida_designer.Content.Dicts.{
  pair_eq, initialize_links_by_start_id_tuple_dict, initialize_link_by_end_id_tuple_dict,
}
use hetida_designer.Content.Dicts.Keys.{
  nonempty, starting_at, last_ending_at, get-links_by_start, get-link_by_end,
}
use hetida_designer.Content.Moved.{AreMoved}
use hetida_designer.Content.Adjust.{verdict}
use hetida_designer.Content.Moved.Lookup.{
  AreMoved-refl, AreMoved-move_start, AreMoved-starting_at, OptionMoved, OptionMoved-last_ending_at,
}
use hetida_designer.Content.Inputs.{
  operator_input_unfit, wf_input_unnecessary, named_wf_input_unnecessary, input_is_removed,
}

module _ (x : WorkflowContentDynamicInput) where
  named-AreMoved :
      (found : Option (List Link)) (ls : List Link) {b : Bool} {ms : List Link}
      → named_wf_input_unnecessary x found ls ≡ ok (b, ms)
      → AreMoved ls ms
  unfolding named_wf_input_unnecessary
  named-AreMoved none ls {b} {ms} h = subst (AreMoved ls) (ground arith) (AreMoved-refl ls)
  named-AreMoved (some []) ls h = cc
  named-AreMoved (some (l ∷ [])) ls {b} {ms} h =
      elim (Bool-cases (matches_io x.connector l.start.connector)) [
        | inl e ↦ elim (Bool-cases (x.position == l.start.connector.position)) [
          | inl same ↦ subst (AreMoved ls) (ground arith) (AreMoved-refl ls)
          | inr other ↦
              subst (AreMoved ls) (ground arith) (AreMoved-move_start (none, x.id) x.position ls)
        ]
        | inr e ↦ subst (AreMoved ls) (ground arith) (AreMoved-refl ls)
      ]
  named-AreMoved (some (l ∷ m ∷ more)) ls h = cc

  verdict-named :
      (cs ds ls ms : List Link)
      → AreMoved cs ds
      → verdict (named_wf_input_unnecessary x (nonempty ds) ms)
        ≡ verdict (named_wf_input_unnecessary x (nonempty cs) ls)
  unfolding named_wf_input_unnecessary matches_io
  verdict-named [] [] ls ms h = refl
  verdict-named [] (d ∷ ds) ls ms h = elim h [ ]
  verdict-named (c ∷ cs) [] ls ms h = elim h [ ]
  verdict-named (c ∷ []) (d ∷ []) ls ms h = ground arith
  verdict-named (c ∷ []) (d ∷ d' ∷ ds) ls ms h = elim h.1 [ ]
  verdict-named (c ∷ c' ∷ cs) (d ∷ []) ls ms h = elim h.1 [ ]
  verdict-named (c ∷ c' ∷ cs) (d ∷ d' ∷ ds) ls ms h = refl

  unfit-moved :
      (oi : Option OperatorInput) (o p : Option Link)
      → OptionMoved o p
      → operator_input_unfit x oi p ≡ operator_input_unfit x oi o
  unfit-moved oi none none h = refl
  unfit-moved oi none (some m) h = elim h [ ]
  unfit-moved oi (some l) none h = elim h [ ]
  unfit-moved oi (some l) (some m) h = ground arith

module _ (d : Dict (ℕ × ℕ) OperatorInput) (x : WorkflowContentDynamicInput) where
  unnecessary_moved :
      (ls ms : List Link)
      → AreMoved ls ms
      → wf_input_unnecessary x d (initialize_link_by_end_id_tuple_dict ms)
        ≡ wf_input_unnecessary x d (initialize_link_by_end_id_tuple_dict ls)
  unfolding wf_input_unnecessary
  unnecessary_moved ls ms h =
      let key : Option ℕ × ℕ = (some x.operator_id, x.connector_id) in
      rw (get-link_by_end key ms, get-link_by_end key ls)
        (unfit-moved x (get (x.operator_id, x.connector_id) d) (last_ending_at key none ls)
          (last_ending_at key none ms) (OptionMoved-last_ending_at key none none ls ms tt h))

  abbrev branch : Bool → Result (Bool × List Link) → List Link → Result (Bool × List Link)
  branch unnecessary named links =
      if unnecessary
      then ok (true, links)
      else if is_nameless x.name
      then ok (false, links)
      else named

  verdict-branch :
      (u : Bool) (r s : Result (Bool × List Link)) (ls ms : List Link)
      → verdict s ≡ verdict r
      → verdict (branch u s ms) ≡ verdict (branch u r ls)
  verdict-branch true r s ls ms e = refl
  verdict-branch false r s ls ms e = ground arith

  branch-AreMoved :
      (u : Bool) (r : Result (Bool × List Link)) (ls : List Link) {b : Bool} {ms : List Link}
      → (r ≡ ok (b, ms) → AreMoved ls ms)
      → branch u r ls ≡ ok (b, ms)
      → AreMoved ls ms
  branch-AreMoved true r ls {b} {ms} k h = subst (AreMoved ls) (ground arith) (AreMoved-refl ls)
  branch-AreMoved false r ls {b} {ms} k h = elim (Bool-cases (is_nameless x.name)) [
    | inl e ↦ subst (AreMoved ls) (ground arith) (AreMoved-refl ls)
    | inr e ↦ k (rw e at h)
  ]

  pub verdict-input :
      (ls ms : List Link)
      → AreMoved ls ms
      → verdict (input_is_removed d x ms) ≡ verdict (input_is_removed d x ls)
  unfolding input_is_removed
  verdict-input ls ms h =
      let key : Option ℕ × ℕ = (none, x.id) in
      rw (unnecessary_moved ls ms h) (
        verdict-branch (wf_input_unnecessary x d (initialize_link_by_end_id_tuple_dict ls))
          (named_wf_input_unnecessary x (get key (initialize_links_by_start_id_tuple_dict ls)) ls)
          (named_wf_input_unnecessary x (get key (initialize_links_by_start_id_tuple_dict ms)) ms)
          ls ms
          (rw (get-links_by_start key ms, get-links_by_start key ls)
            (verdict-named x (starting_at key ls) (starting_at key ms) ls ms
              (AreMoved-starting_at key ls ms h))))

  pub input-AreMoved :
      (ls : List Link) {b : Bool} {ms : List Link}
      → input_is_removed d x ls ≡ ok (b, ms)
      → AreMoved ls ms
  unfolding input_is_removed
  input-AreMoved ls h =
      branch-AreMoved (wf_input_unnecessary x d (initialize_link_by_end_id_tuple_dict ls))
        (named_wf_input_unnecessary x
          (get (none, x.id) (initialize_links_by_start_id_tuple_dict ls)) ls)
        ls (named-AreMoved x (get (none, x.id) (initialize_links_by_start_id_tuple_dict ls)) ls) h
