-- ===== src/Nestings/Groups.antt =====
-- The groups of `structure_ids_by_nesting_level`.
use mathlib.Core.List.Memᴰ
use hetida_designer.Prelude.{
  ℕ, ◌≡◌, refl, subst, inl, inr, List, [], ◌∷◌, ◌++◌, Dict, get, put, get-put, nat_eq, ◌==◌, ==→≡,
  ==_self, Bool-cases, arith, Memᴰ, ok, >>=-eq-ok,
}
use hetida_designer.Nestings.{
  Transformation, Transformations, nesting_level, ids_at, group_by_level,
  structure_ids_by_nesting_level,
}

module _ (dict : Transformations) where
  stays_put :
      {x : ℕ} (n level id : ℕ) (groups : Dict ℕ (List ℕ))
      → Memᴰ x (ids_at (get n groups))
      → Memᴰ x (ids_at (get n (put level (ids_at (get level groups) ++ id ∷ []) groups)))
  stays_put n level id groups m = elim (Bool-cases (level == n)) [
    | inl e ↦ rw (get-put, e, ==→≡ level n e) (Memᴰ.append_left (id ∷ []) m)
    | inr e ↦ rw (get-put, e) m
  ]

  stays :
      {x : ℕ} {result : Dict ℕ (List ℕ)} (n : ℕ) (groups : Dict ℕ (List ℕ))
      (items : List (ℕ × Transformation))
      → group_by_level dict groups items ≡ ok result
      → Memᴰ x (ids_at (get n groups))
      → Memᴰ x (ids_at (get n result))
  unfolding group_by_level
  stays {x} n groups [] h m = subst (λ g. Memᴰ x (ids_at (get n g))) (ground arith) m
  stays n groups ((id, t) ∷ items) h m =
      let (level, run, rest) = >>=-eq-ok (nesting_level id dict) _ h in
      stays n (put level (ids_at (get level groups) ++ id ∷ []) groups) items rest
        (stays_put n level id groups m)

  placed :
      {id : ℕ} {t : Transformation} {result : Dict ℕ (List ℕ)} (groups : Dict ℕ (List ℕ))
      (items : List (ℕ × Transformation))
      → group_by_level dict groups items ≡ ok result
      → Memᴰ (id, t) items
      → (n : ℕ) × (nesting_level id dict ≡ ok n) × Memᴰ id (ids_at (get n result))
  unfolding group_by_level
  placed groups [] h m = elim m [ ]
  placed {id} groups ((i, u) ∷ items) h (Memᴰ.head e) =
      let (level, run, rest) = >>=-eq-ok (nesting_level i dict) _ h in
      let same : id ≡ i = cc in
      (
        level,
        rw same run,
        stays level (put level (ids_at (get level groups) ++ i ∷ []) groups) items rest (
            rw (get-put, ==_self level, same)
              (Memᴰ.append_right (ids_at (get level groups)) (Memᴰ.head refl))),
      )
  placed groups ((i, u) ∷ items) h (Memᴰ.tail m) =
      let (level, run, rest) = >>=-eq-ok (nesting_level i dict) _ h in
      placed (put level (ids_at (get level groups) ++ i ∷ []) groups) items rest m

-- If the grouping returns, every transformation has a nesting level, and stands in the group of it.
pub structure_ids_by_nesting_level_lem :
    (dict : Transformations) {id : ℕ} {t : Transformation} {groups : Dict ℕ (List ℕ)}
    → structure_ids_by_nesting_level dict ≡ ok groups
    → Memᴰ (id, t) dict
    → (n : ℕ) × (nesting_level id dict ≡ ok n) × Memᴰ id (ids_at (get n groups))
unfolding structure_ids_by_nesting_level
structure_ids_by_nesting_level_lem dict h m = placed dict [] dict h m
