-- ===== src/Revision/Fit/Loop.antt =====
-- On the loop that adjusts inputs or outputs: what it makes of the list, and what is left of the
-- dictionary.
use mathlib.Core.List.Memᴰ
use hetida_designer.Prelude.{
  ℕ, ◌≡◌, ◌≢◌, inl, inr, refl, sym, ap, subst, ◌∙◌, Bool, true, false, not, Option, none, some,
  List, [], ◌∷◌, ◌++◌, Memᴰ, map, any, filter_by, Dict, get, delete, get-delete, IsDict,
  IsDict-delete, is_some, Eq, ◌==◌, nat_eq, ==→≡, ==_self, Bool-cases, Option-cases, if◌then◌else◌,
  All, All-Memᴰ, IsNodup, Result, ok, >>=-eq-ok, ok-injective,
}
use hetida_designer.Revision.Fit.{Adjusted, replace_first, adjust_one, adjust_loop}

append_assoc :
    {A : Type 0} (xs : List A) (y : A) (ys : List A) → (xs ++ y ∷ []) ++ ys ≡ xs ++ (y ∷ ys)
append_assoc [] y ys = refl
append_assoc (x ∷ xs) y ys = ap (λ l. x ∷ l) (append_assoc xs y ys)

pub if_some {ℓ} :
    {B : Type ℓ} (b : Bool) (o : Option B) {w : B} → (if b then none else o) ≡ some w → o ≡ some w
if_some true o h = cc
if_some false o h = h

module _ {A W : Type 0} ⦃e : Eq A⦄ (id_of : A → ℕ) (id_w : W → ℕ) (matches : W → A → Bool)
    (convert : W → Result A) (matches-id : (w : W) (a : A) → matches w a ≡ true → id_of a ≡ id_w w)
    (convert-matches : (w : W) (a : A) → convert w ≡ ok a → matches w a ≡ true) where
  replaced_at :
      (x y : A) (done xs : List A)
      → ((a : A) → Memᴰ a done → a ≢ x)
      → replace_first x y (done ++ (x ∷ xs)) ≡ some (done ++ (y ∷ xs))
  unfolding replace_first
  replaced_at x y [] xs apart = rw (==_self x) refl
  replaced_at x y (z ∷ done) xs apart = elim (Bool-cases (z == x)) [
    | inl same ↦ absurd (apart z (Memᴰ.head refl) (==→≡ z x same))
    | inr other ↦ rw (other, replaced_at x y done xs (λ a m. apart a (Memᴰ.tail m))) refl
  ]

  -- One element is visited: what stands in its place matches and has its id.
  adjust_one-eq :
      (x : A) (w : W) (done xs : List A) {after : List A}
      → id_of x ≡ id_w w
      → ((a : A) → Memᴰ a done → a ≢ x)
      → adjust_one matches convert x w (done ++ (x ∷ xs)) ≡ ok after
      → (y : A) × (after ≡ done ++ (y ∷ xs)) × (matches w y ≡ true) × (id_of y ≡ id_of x)
  unfolding adjust_one
  adjust_one-eq x w done xs key apart run = elim (Bool-cases (matches w x)) [
    | inl fits ↦ (x, sym (ok-injective (rw fits at run)), fits, refl)
    | inr misfit ↦
        let (new, made, r1) = >>=-eq-ok (convert w) _ (rw misfit at run) in
        let fits = convert-matches w new made in
        (
          new,
          sym (ok-injective (rw (replaced_at x new done xs apart) at r1)),
          fits,
          matches-id w new fits ∙ sym key,
        )
  ]

  abbrev pub HasKeys : Dict ℕ W → Type 0
  HasKeys d = (id : ℕ) (w : W) → get id d ≡ some w → id_w w ≡ id

  -- nothing stands under the id of the element
  abbrev pub gone : Dict ℕ W → A → Bool
  gone d a = not (is_some (get (id_of a) d))

  abbrev pub AllFit : Dict ℕ W → List A → Type 0
  AllFit d ys = (a : A) → Memᴰ a ys → (w : W) → get (id_of a) d ≡ some w → matches w a ≡ true

  pub record Looped (xs done : List A) (d : Dict ℕ W) (result : Adjusted A W) : Type 0 where
    pub ys : List A
    pub current : result.0 ≡ done ++ ys
    pub removed : result.2 ≡ filter_by (gone d) ys
    pub ids : map id_of ys ≡ map id_of xs
    pub fit : AllFit d ys
    pub dict : IsDict result.1
    pub left :
        (id : ℕ) → get id result.1 ≡ (if any (λ i. i == id) (map id_of xs) then none else get id d)

  kept_by :
      (p q : A → Bool) (ys : List A)
      → ((a : A) → Memᴰ a ys → p a ≡ q a)
      → filter_by p ys ≡ filter_by q ys
  kept_by p q [] same = refl
  kept_by p q (y ∷ ys) same = elim (Bool-cases (q y)) [
    | inl pass ↦
        rw (same y (Memᴰ.head refl) ∙ pass, pass, kept_by p q ys (λ a m. same a (Memᴰ.tail m))) refl
    | inr fail ↦
        rw (same y (Memᴰ.head refl) ∙ fail, fail, kept_by p q ys (λ a m. same a (Memᴰ.tail m))) refl
  ]

  Looped-missing :
      (x : A) (xs done : List A) (d : Dict ℕ W) (r : Adjusted A W)
      → get (id_of x) d ≡ none
      → Looped xs (done ++ x ∷ []) d r
      → Looped (x ∷ xs) done d (r.0, r.1, x ∷ r.2)
  Looped-missing x xs done d r missing l = record {
    ys = x ∷ l.ys;
    current = l.current ∙ append_assoc done x l.ys;
    removed = rw missing (ap (λ v. x ∷ v) l.removed);
    ids = ap (λ v. id_of x ∷ v) l.ids;
    fit = λ a m w found. elim (Memᴰ.cases_cons m) [
      | inl same ↦ cc (ap (λ v. get (id_of v) d) same, missing, found)
      | inr later ↦ l.fit a later w found
    ];
    dict = l.dict;
    left = λ id. elim (Bool-cases (id_of x == id)) [
      | inl hit ↦
          rw hit
            (l.left id ∙ nothing id (ap (λ v. get v d) (sym (==→≡ (id_of x) id hit)) ∙ missing))
      | inr other ↦ rw other (l.left id)
    ];
  }
    where
      nothing :
          (id : ℕ)
          → get id d ≡ none
          → (if any (λ i. i == id) (map id_of xs) then none else get id d) ≡ none
      nothing id none_there = elim (Bool-cases (any (λ i. i == id) (map id_of xs))) [
        | inl found ↦ rw found refl
        | inr new ↦ rw new none_there
      ]

  get-deleted : (k id : ℕ) (d : Dict ℕ W) → IsDict d → k ≢ id → get id (delete k d) ≡ get id d
  get-deleted k id d dict apart = elim (Bool-cases (k == id)) [
    | inl same ↦ absurd (apart (==→≡ k id same))
    | inr other ↦ get-delete k id d dict ∙ rw other refl
  ]

  Looped-found :
      (x y : A) (w : W) (xs done : List A) (d : Dict ℕ W) (r : Adjusted A W)
      → IsDict d
      → get (id_of x) d ≡ some w
      → matches w y ≡ true
      → id_of y ≡ id_of x
      → All (λ id. id_of x ≢ id) (map id_of xs)
      → Looped xs (done ++ y ∷ []) (delete (id_of x) d) r
      → Looped (x ∷ xs) done d r
  Looped-found x y w xs done d r dict found fits key fresh l = record {
    ys = y ∷ l.ys;
    current = l.current ∙ append_assoc done y l.ys;
    removed =
        l.removed
        ∙ kept_by (gone (delete (id_of x) d)) (gone d) l.ys
            (λ a m. ap (λ o. not (is_some o)) (get-deleted (id_of x) (id_of a) d dict (apart a m)))
        ∙ rw (key, found) refl;
    ids = rw key (ap (λ v. id_of x ∷ v) l.ids);
    fit = λ a m v stands. elim (Memᴰ.cases_cons m) [
      | inl same ↦ one a v same stands
      | inr later ↦
          l.fit a later v (get-deleted (id_of x) (id_of a) d dict (apart a later) ∙ stands)
    ];
    dict = l.dict;
    left = λ id. l.left id ∙ elim (Bool-cases (id_of x == id)) [
      | inl hit ↦ rw hit (nothing id (get-delete (id_of x) id d dict ∙ rw hit refl))
      | inr other ↦ rw (other, get-delete (id_of x) id d dict, other) refl
    ];
  }
    where
      apart : (a : A) → Memᴰ a l.ys → id_of x ≢ id_of a
      apart a m =
          All-Memᴰ (λ id. id_of x ≢ id) (subst (λ ids. Memᴰ (id_of a) ids) l.ids (Memᴰ.map id_of m))
            fresh

      one : (a : A) (v : W) → a ≡ y → get (id_of a) d ≡ some v → matches v a ≡ true
      one a v same stands =
          rw
            (
              same,
              same_value v (sym found ∙ ap (λ i. get i d) (sym key ∙ sym (ap id_of same)) ∙ stands),
            )
            fits
        where
          same_value : (v : W) → some w ≡ some v → v ≡ w
          same_value v e = cc

      nothing :
          (id : ℕ)
          → get id (delete (id_of x) d) ≡ none
          → (if any (λ i. i == id) (map id_of xs) then none else get id (delete (id_of x) d)) ≡ none
      nothing id none_there = elim (Bool-cases (any (λ i. i == id) (map id_of xs))) [
        | inl is ↦ rw is refl
        | inr new ↦ rw new none_there
      ]

  HasKeys-delete : (k : ℕ) (d : Dict ℕ W) → IsDict d → HasKeys d → HasKeys (delete k d)
  HasKeys-delete k d dict keys id w found =
      keys id w (if_some (k == id) (get id d) (sym (get-delete k id d dict) ∙ found))

  -- The ids of what is done are not those of what is left to visit.
  abbrev Apart : List A → List A → Type 0
  Apart done xs = (a b : A) → Memᴰ a done → Memᴰ b xs → id_of a ≢ id_of b

  Apart-next :
      (x y : A) (done xs : List A)
      → id_of y ≡ id_of x
      → All (λ id. id_of x ≢ id) (map id_of xs)
      → Apart done (x ∷ xs)
      → Apart (done ++ y ∷ []) xs
  Apart-next x y done xs key fresh apart a b m n same = elim (Memᴰ.append_cases done m) [
    | inl old ↦ apart a b old (Memᴰ.tail n) same
    | inr new ↦ elim (Memᴰ.cases_cons new) [
      | inl is ↦
          All-Memᴰ (λ id. id_of x ≢ id) (Memᴰ.map id_of n) fresh
            (sym key ∙ sym (ap id_of is) ∙ same)
      | inr none_left ↦ elim none_left [ ]
    ]
  ]

  -- The loop keeps ids and places, replaces what does not match, names for removal what has no entry,
  -- and deletes the entries that it met.
  pub adjust_loop-Looped :
      (xs done : List A) (d : Dict ℕ W) {result : Adjusted A W}
      → IsDict d
      → HasKeys d
      → IsNodup (map id_of xs)
      → Apart done xs
      → adjust_loop id_of matches convert xs (done ++ xs) d ≡ ok result
      → Looped xs done d result
  unfolding adjust_loop
  adjust_loop-Looped [] done d dict keys nodup apart run =
      subst (λ r. Looped [] done d r) (ok-injective run)
        (record {
          ys = [];
          current = refl;
          removed = refl;
          ids = refl;
          fit = λ a m. elim m [ ];
          dict = dict;
          left = λ id. refl;
        })
  adjust_loop-Looped (x ∷ xs) done d {result} dict keys (fresh, nodup) apart run =
      elim (Option-cases (get (id_of x) d)) [
        | inl missing ↦
            let (r, e1, e2) =
              >>=-eq-ok (adjust_loop id_of matches convert xs (done ++ (x ∷ xs)) d) _
                (rw (adjust_loop, missing) at run) in
            subst (λ v. Looped (x ∷ xs) done d v) (ok-injective e2)
              (Looped-missing x xs done d r missing (
                adjust_loop-Looped xs (done ++ x ∷ []) d dict keys nodup
                  (Apart-next x x done xs refl fresh apart)
                  (subst (λ c. adjust_loop id_of matches convert xs c d ≡ ok r)
                    (sym (append_assoc done x xs)) e1)))
        | inr (w, found) ↦
            let (after, e1, e2) =
              >>=-eq-ok (adjust_one matches convert x w (done ++ (x ∷ xs))) _
                (rw (adjust_loop, found) at run) in
            let (y, same, fits, key) =
              adjust_one-eq x w done xs (sym (keys (id_of x) w found))
                (λ a m is. apart a x m (Memᴰ.head refl) (ap id_of is)) e1 in
            Looped-found x y w xs done d result dict found fits key fresh (
              adjust_loop-Looped xs (done ++ y ∷ []) (delete (id_of x) d)
                (IsDict-delete (id_of x) d dict) (HasKeys-delete (id_of x) d dict keys) nodup
                (Apart-next x y done xs key fresh apart)
                (subst
                  (λ c. adjust_loop id_of matches convert xs c (delete (id_of x) d) ≡ ok result)
                  (same ∙ sym (append_assoc done y xs)) e2))
      ]
