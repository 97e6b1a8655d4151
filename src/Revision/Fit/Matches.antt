-- ===== src/Revision/Fit/Matches.antt =====
-- What the io interface is after the adjustments: the inputs, and the outputs, of the workflow.
use mathlib.Core.List.Memᴰ
use hetida_designer.Prelude.{
  ℕ, ◌≡◌, ◌⊎◌, inl, inr, refl, sym, ap, subst, ◌∙◌, Bool, true, not, some, List, [], ◌∷◌, ◌++◌,
  Memᴰ, map, any, any-==_iff, filter_by, filter_by-Memᴰ, Memᴰ-filter_by, remove_all,
  remove_all-filter_by, Dict, get, Memᴰ-get, get-Memᴰ, IsDict, Eq, ◌==◌, nat_eq, Bool-cases,
  Option-cases, IsNodup, Result, ok, >>=-eq-ok, ok-injective,
}
use hetida_designer.Content.Links.{or_not_in_list}
use hetida_designer.Revision.Fit.{Adjusted, adjust_loop, adjust_and_remove, add_surplus}
use hetida_designer.Revision.Fit.Loop.{if_some, HasKeys, gone, Looped, adjust_loop-Looped}

surplus_lem :
    {A W : Type 0} (convert : W → Result A) (xs : List A) (d : Dict ℕ W) {ys : List A}
    → add_surplus convert xs d ≡ ok ys
    → ((a : A) → Memᴰ a xs → Memᴰ a ys)
      × ((a : A)
          → Memᴰ a ys
          → Memᴰ a xs ⊎ ((id : ℕ) × (w : W) × Memᴰ (id, w) d × (convert w ≡ ok a)))
      × ((id : ℕ) (w : W) → Memᴰ (id, w) d → (a : A) × Memᴰ a ys × (convert w ≡ ok a))
unfolding add_surplus
surplus_lem convert xs [] {ys} run =
    let same = ok-injective run in
    (λ a m. rw (← same) m, λ a m. inl (rw same m), λ id w m. elim m [ ])
surplus_lem {A} {W} convert xs ((k, v) ∷ d) {ys} run =
    let (new, made, r1) = >>=-eq-ok (convert v) _ run in
    let (kept, from, added) = surplus_lem convert (xs ++ new ∷ []) d r1 in
    (
      λ a m. kept a (Memᴰ.append_left (new ∷ []) m),
      λ a m. elim (from a m) [
        | inl old ↦ elim (Memᴰ.append_cases xs old) [
          | inl given ↦ inl given
          | inr last ↦ elim (Memᴰ.cases_cons last) [
            | inl same ↦ inr (k, v, Memᴰ.head refl, rw same made)
            | inr none_left ↦ elim none_left [ ]
          ]
        ]
        | inr (id, w, i, c) ↦ inr (id, w, Memᴰ.tail i, c)
      ],
      λ id w m. elim (Memᴰ.cases_cons m) [
        | inl same ↦ (
          new,
          kept new (Memᴰ.append_right xs (Memᴰ.head refl)),
          value w (ap (λ p. p.1) same) made,
        )
        | inr later ↦ added id w later
      ],
    )
  where
    value : {a : A} (w : W) → w ≡ v → convert v ≡ ok a → convert w ≡ ok a
    value w same made = rw same made

-- Every element matches the entry of its id, and every entry has an element that it matches.
abbrev pub IsFitted : {A W : Type 0} → (A → ℕ) → (W → A → Bool) → Dict ℕ W → List A → Type 0
IsFitted {A} {W} id_of matches d ys =
    ((a : A) → Memᴰ a ys → (w : W) × (get (id_of a) d ≡ some w) × (matches w a ≡ true))
    × ((id : ℕ) (w : W)
        → get id d ≡ some w
        → (a : A) × Memᴰ a ys × (id_of a ≡ id) × (matches w a ≡ true))

module _ {A W : Type 0} ⦃e : Eq A⦄ (id_of : A → ℕ) (id_w : W → ℕ) (matches : W → A → Bool)
    (convert : W → Result A) (matches-id : (w : W) (a : A) → matches w a ≡ true → id_of a ≡ id_w w)
    (convert-matches : (w : W) (a : A) → convert w ≡ ok a → matches w a ≡ true) where
  abbrev stays : Dict ℕ W → A → Bool
  stays d a = not (gone id_of id_w matches convert matches-id convert-matches d a)

  stays-some : (d : Dict ℕ W) (a : A) → stays d a ≡ true → (w : W) × (get (id_of a) d ≡ some w)
  stays-some d a h = elim (Option-cases (get (id_of a) d)) [
    | inl missing ↦ cc (rw missing at h)
    | inr found ↦ found
  ]

  kept-eq :
      (xs : List A) (d : Dict ℕ W) (r : Adjusted A W) {kept : List A}
      → (l : Looped id_of id_w matches convert matches-id convert-matches xs [] d r)
      → or_not_in_list (remove_all r.2 r.0) ≡ ok kept
      → kept ≡ filter_by (stays d) l.ys
  kept-eq xs d r {kept} l run =
      sym (ok-injective (subst (λ o. or_not_in_list o ≡ ok kept) removes run))
    where
      removes : remove_all r.2 r.0 ≡ some (filter_by (stays d) l.ys)
      removes =
          ap (λ gone_ones. remove_all gone_ones r.0) l.removed
          ∙ ap
              (remove_all
                (filter_by (gone id_of id_w matches convert matches-id convert-matches d) l.ys))
              l.current
          ∙ remove_all-filter_by (gone id_of id_w matches convert matches-id convert-matches d) l.ys

  fitted_lem :
      (xs : List A) (d : Dict ℕ W) (r : Adjusted A W) (kept ys : List A)
      → HasKeys id_of id_w matches convert matches-id convert-matches d
      → (l : Looped id_of id_w matches convert matches-id convert-matches xs [] d r)
      → kept ≡ filter_by (stays d) l.ys
      → add_surplus convert kept r.1 ≡ ok ys
      → IsFitted id_of matches d ys
  fitted_lem xs d r kept ys keys l same run =
      let (keeps, from, added) = surplus_lem convert kept r.1 run in
      (
        λ a m. elim (from a m) [
          | inl old ↦
              let (i, s) = Memᴰ-filter_by (stays d) l.ys (rw same at old) in
              let (w, found) = stays-some d a s in (w, found, l.fit a i w found)
          | inr (id, w, i, c) ↦
              let found = before id w (get-Memᴰ r.1 l.dict i) in
              (
                w,
                ap (λ k. get k d) (matches-id w a (convert-matches w a c) ∙ keys id w found)
                    ∙ found,
                convert-matches w a c,
              )
        ],
        λ id w found. elim (Bool-cases (any (λ i. i == id) (map id_of xs))) [
          | inl known ↦
              let (y, i, key) =
                Memᴰ.of_map id_of l.ys (
                  subst (λ ids. Memᴰ id ids) (sym l.ids)
                    ((any-==_iff id (map id_of xs)).0 known)) in
              let here = ap (λ k. get k d) key ∙ found in
              (
                y,
                keeps y (rw same (filter_by-Memᴰ (stays d) i (rw here refl))),
                key,
                l.fit y i w here,
              )
          | inr new ↦
              let (a, i, c) = added id w (Memᴰ-get r.1 (l.left id ∙ rw new found)) in
              (
                a,
                i,
                matches-id w a (convert-matches w a c) ∙ keys id w found,
                convert-matches w a c,
              )
        ],
      )
    where
      before : (id : ℕ) (w : W) → get id r.1 ≡ some w → get id d ≡ some w
      before id w h = if_some (any (λ i. i == id) (map id_of xs)) (get id d) (sym (l.left id) ∙ h)

  -- Where the elements have distinct ids and the entries their keys, both functions after another leave
  -- a list whose elements match the entries, one to each of them.
  pub adjust_and_add-IsFitted :
      (xs : List A) (d : Dict ℕ W) (kept : List A) (rest : Dict ℕ W) (ys : List A)
      → IsDict d
      → HasKeys id_of id_w matches convert matches-id convert-matches d
      → IsNodup (map id_of xs)
      → adjust_and_remove id_of matches convert xs d ≡ ok (kept, rest)
      → add_surplus convert kept rest ≡ ok ys
      → IsFitted id_of matches d ys
  unfolding adjust_and_remove
  adjust_and_add-IsFitted xs d kept rest ys dict keys nodup run add =
      let (r, e1, r1) = >>=-eq-ok (adjust_loop id_of matches convert xs xs d) _ run in
      let (kept', e2, r2) = >>=-eq-ok (or_not_in_list (remove_all r.2 r.0)) _ r1 in
      let pair = ok-injective r2 in
      let l =
        adjust_loop-Looped id_of id_w matches convert matches-id convert-matches xs [] d dict keys
          nodup (λ a b m. elim m [ ]) e1 in
      fitted_lem xs d r kept ys keys l (sym (ap (λ p. p.0) pair) ∙ kept-eq xs d r l e2)
        (subst (λ v. add_surplus convert kept v ≡ ok ys) (sym (ap (λ p. p.1) pair)) add)
