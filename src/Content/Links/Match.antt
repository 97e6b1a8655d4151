-- ===== src/Content/Links/Match.antt =====
-- Which links `link_connectors_match_operator_ios` keeps.
use hetida_designer.Prelude.{
  ℕ, ◌≡◌, ◌↔◌, refl, Bool, true, false, not, ◌||◌, Option, none, some, List, [], ◌∷◌, arith, Dict,
  get, filter_by, remove_all-filter_by, Memᴰ, Memᴰ-filter_by, filter_by-Memᴰ, Result, ok,
}
use hetida_designer.Io.{OperatorInput, OperatorOutput, matches_connector}
use hetida_designer.Link.{Link, link_eq}
use hetida_designer.Operator.{Operator}
use hetida_designer.Content.Dicts.{
  pair_eq, initialize_operator_output_by_id_tuple_dict, initialize_operator_input_by_id_tuple_dict,
}
use hetida_designer.Content.Links.{
  link_is_removed, output_differs, input_differs, collect, link_connectors_match_operator_ios,
}

-- A loop whose test never raises collects what passes.
pub collect-eq-filter_by {ℓ} :
    {A : Type ℓ} (test : A → Result Bool) (p : A → Bool) (xs : List A)
    → ((x : A) → test x ≡ ok (p x))
    → collect test xs ≡ ok (filter_by p xs)
unfolding collect
collect-eq-filter_by test p [] h = refl
collect-eq-filter_by test p (x ∷ xs) h = rw (h x, collect-eq-filter_by test p xs h) refl

-- The output that a link names at its start, where it names an operator, is there with equal id,
-- name, data type and position.
abbrev pub StartMatches : Dict (ℕ × ℕ) OperatorOutput → Option ℕ → Link → Type 0
StartMatches outputs none link = Unit
StartMatches outputs (some op) link =
    (o : OperatorOutput) × (get (op, link.start.connector.id) outputs ≡ some o)
    × (matches_connector link.start.connector o ≡ true)

-- The input that a link names at its end, where it names an operator, is there with equal id, name,
-- data type and position, and is exposed.
abbrev pub EndMatches : Dict (ℕ × ℕ) OperatorInput → Option ℕ → Link → Type 0
EndMatches inputs none link = Unit
EndMatches inputs (some op) link =
    (i : OperatorInput) × (get (op, link.end.connector.id) inputs ≡ some i)
    × (matches_connector link.end.connector i.connector ≡ true)
    × (i.exposed ≡ true)

start_fails : Dict (ℕ × ℕ) OperatorOutput → Option ℕ → Link → Bool
start_fails outputs none link = false
start_fails outputs (some op) link = output_differs link (get (op, link.start.connector.id) outputs)

end_fails : Dict (ℕ × ℕ) OperatorInput → Option ℕ → Link → Bool
end_fails inputs none link = false
end_fails inputs (some op) link = input_differs link (get (op, link.end.connector.id) inputs)

removed : Dict (ℕ × ℕ) OperatorOutput → Dict (ℕ × ℕ) OperatorInput → Link → Bool
removed outputs inputs link =
    start_fails outputs link.start.operator link || end_fails inputs link.end.operator link

found_output :
    (link : Link) (found : Option OperatorOutput)
    → output_differs link found ≡ false
    → (o : OperatorOutput) × (found ≡ some o) × (matches_connector link.start.connector o ≡ true)
found_output link none h = cc
found_output link (some o) h = (o, refl, ground arith)

found_input :
    (link : Link) (found : Option OperatorInput)
    → input_differs link found ≡ false
    → (i : OperatorInput) × (found ≡ some i)
      × (matches_connector link.end.connector i.connector ≡ true)
      × (i.exposed ≡ true)
found_input link none h = cc
found_input link (some i) h = (i, refl, ground arith, ground arith)

module _ (outputs : Dict (ℕ × ℕ) OperatorOutput) (inputs : Dict (ℕ × ℕ) OperatorInput)
    (link : Link) where
  link_is_removed-eq : link_is_removed outputs inputs link ≡ ok (removed outputs inputs link)
  unfolding removed link_is_removed start_fails end_fails
  link_is_removed-eq = ground arith

  start_passes :
      (op : Option ℕ) → start_fails outputs op link ≡ false → StartMatches outputs op link
  unfolding start_fails
  start_passes none h = tt
  start_passes (some op) h = found_output link (get (op, link.start.connector.id) outputs) h

  end_passes : (op : Option ℕ) → end_fails inputs op link ≡ false → EndMatches inputs op link
  unfolding end_fails
  end_passes none h = tt
  end_passes (some op) h = found_input link (get (op, link.end.connector.id) inputs) h

  start_fails_not :
      (op : Option ℕ) → StartMatches outputs op link → start_fails outputs op link ≡ false
  unfolding start_fails
  start_fails_not none h = refl
  start_fails_not (some op) (o, found, same) = rw (found, same) refl

  end_fails_not : (op : Option ℕ) → EndMatches inputs op link → end_fails inputs op link ≡ false
  unfolding end_fails
  end_fails_not none h = refl
  end_fails_not (some op) (i, found, same, exposed) = rw (found, same, exposed) refl

  removed-false :
      removed outputs inputs link ≡ false
      → StartMatches outputs link.start.operator link × EndMatches inputs link.end.operator link
  unfolding removed
  removed-false h =
      (start_passes link.start.operator (ground arith), end_passes link.end.operator (ground arith))

  removed_of_matches :
      StartMatches outputs link.start.operator link × EndMatches inputs link.end.operator link
      → removed outputs inputs link ≡ false
  unfolding removed
  removed_of_matches (s, e) =
      rw (start_fails_not link.start.operator s, end_fails_not link.end.operator e) refl

module _ (operators : List Operator) (links : List Link) where
  abbrev outputs : Dict (ℕ × ℕ) OperatorOutput
  outputs = initialize_operator_output_by_id_tuple_dict operators

  abbrev inputs : Dict (ℕ × ℕ) OperatorInput
  inputs = initialize_operator_input_by_id_tuple_dict operators

  kept : List Link
  kept = filter_by (λ link. not (removed outputs inputs link)) links

  link_connectors-eq-kept : link_connectors_match_operator_ios operators links ≡ ok kept
  unfolding link_connectors_match_operator_ios kept
  link_connectors-eq-kept =
      rw
        (
          collect-eq-filter_by (link_is_removed outputs inputs) (removed outputs inputs) links
              (link_is_removed-eq outputs inputs),
          remove_all-filter_by (removed outputs inputs) links,
        )
        refl

-- The validator always returns, and it keeps of the given links exactly those whose ends match: a
-- start that names an operator has an equal operator output, an end that names one has an equal
-- operator input which is exposed. A link can be removed, and none is added.
pub link_connectors-keeps_matching :
    (operators : List Operator) (links : List Link)
    → (kept : List Link) × (link_connectors_match_operator_ios operators links ≡ ok kept)
      × ((link : Link)
          → Memᴰ link kept ↔ (
              Memᴰ link links
              × StartMatches
                  (initialize_operator_output_by_id_tuple_dict operators)
                  link.start.operator
                  link
              × EndMatches
                  (initialize_operator_input_by_id_tuple_dict operators)
                  link.end.operator
                  link))
unfolding kept
link_connectors-keeps_matching operators links =
    (kept operators links, link_connectors-eq-kept operators links, λ link. (to link, from link))
  where
    passes : Link → Bool
    passes link = not (removed (outputs operators links) (inputs operators links) link)

    to :
        (link : Link)
        → Memᴰ link (kept operators links)
        → Memᴰ link links
          × StartMatches (outputs operators links) link.start.operator link
          × EndMatches (inputs operators links) link.end.operator link
    to link m =
        let (given, p) = Memᴰ-filter_by passes links m in
        let (s, e) =
          removed-false (outputs operators links) (inputs operators links) link (ground arith) in
        (given, s, e)

    from :
        (link : Link)
        → (Memᴰ link links
            × StartMatches (outputs operators links) link.start.operator link
            × EndMatches (inputs operators links) link.end.operator link)
        → Memᴰ link (kept operators links)
    from link (m, s, e) = filter_by-Memᴰ passes m (
        rw (removed_of_matches (outputs operators links) (inputs operators links) link (s, e)) refl)
