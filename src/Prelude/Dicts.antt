-- ===== src/Prelude/Dicts.antt =====
-- Python dictionaries: association lists in the order of insertion, a key at most once.
use mathlib.Core.Path.{◌≡◌, refl}
use mathlib.Core.Logic.{◌⊎◌, inl, inr}
use mathlib.Core.Option.{Option, none, some}
use mathlib.Core.List.{List, [], ◌∷◌, Memᴰ}
use native.Mathlib.Omega.{arith}
use hetida_designer.Prelude.Tests.{Eq, ◌==◌, if◌then◌else◌, ==_self, ==→≡, Bool-cases}

abbrev pub Dict {ℓ κ} : Type ℓ → Type κ → Type (ℓ ⊔ κ)
Dict K V = List (K × V)

module _ {ℓ κ} {K : Type ℓ} {V : Type κ} ⦃e : Eq K⦄ where
  -- `d[k]`, with `none` for the KeyError
  unfoldable pub get : K → Dict K V → Option V
  get k [] = none
  get k ((j, v) ∷ d) = if j == k then some v else get k d

  -- `d[k] = v`
  unfoldable pub put : K → V → Dict K V → Dict K V
  put k v [] = (k, v) ∷ []
  put k v ((j, w) ∷ d) = if j == k then (j, v) ∷ d else (j, w) ∷ put k v d

  -- `d.update(pairs)`, the later pairs winning
  unfoldable pub update : Dict K V → List (K × V) → Dict K V
  unfolding put
  update d [] = d
  update d ((k, v) ∷ ps) = update (put k v d) ps

  -- `{k: v for ...}`
  unfoldable pub from_pairs : List (K × V) → Dict K V
  unfolding update
  from_pairs ps = update [] ps

  pub get-put :
      (k j : K) (v : V) (d : Dict K V) → get j (put k v d) ≡ (if k == j then some v else get j d)
  unfolding get put
  get-put k j v [] = refl
  get-put k j v ((i, w) ∷ d) =
      ground (arith, get-put k j v d, ==→≡ i k, ==→≡ i j, ==→≡ k j, ==_self k, ==_self j)

  pub get-update :
      (ps : List (K × V)) (d : Dict K V) (k : K) {v : V}
      → get k (update d ps) ≡ some v
      → Memᴰ (k, v) ps ⊎ (get k d ≡ some v)
  unfolding update
  get-update [] d k h = inr h
  get-update ((j, w) ∷ ps) d k {v} h = elim (get-update ps (put j w d) k h) [
    | inl m ↦ inl (Memᴰ.tail m)
    | inr p ↦ elim (Bool-cases (j == k)) [
      | inl same ↦ inl (Memᴰ.head (ground (arith, get-put j k w d, ==→≡ j k same)))
      | inr other ↦ inr (ground (arith, get-put j k w d))
    ]
  ]

  get-update_kept :
      (ps : List (K × V)) (d : Dict K V) (k : K) {v : V}
      → get k d ≡ some v
      → (u : V) × (get k (update d ps) ≡ some u)
  unfolding update
  get-update_kept [] d k {v} h = (v, h)
  get-update_kept ((j, w) ∷ ps) d k {v} h = elim (Bool-cases (j == k)) [
    | inl same ↦ get-update_kept ps (put j w d) k {v = w} (ground (arith, get-put j k w d))
    | inr other ↦ get-update_kept ps (put j w d) k {v = v} (ground (arith, get-put j k w d))
  ]

  get-update_of_Memᴰ :
      (k : K) {v : V} (d : Dict K V) {ps : List (K × V)}
      → Memᴰ (k, v) ps
      → (u : V) × (get k (update d ps) ≡ some u)
  unfolding update
  get-update_of_Memᴰ k d {ps = []} m = elim m [ ]
  get-update_of_Memᴰ k {v} d {ps = (j, w) ∷ ps} (Memᴰ.head same) =
      get-update_kept ps (put j w d) k {v = w} (ground (arith, get-put j k w d, ==_self k))
  get-update_of_Memᴰ k d {ps = (j, w) ∷ ps} (Memᴰ.tail m) = get-update_of_Memᴰ k (put j w d) m

  -- What a comprehension's dictionary returns for a key is one of the comprehension's pairs.
  pub get-from_pairs :
      (ps : List (K × V)) (k : K) {v : V} → get k (from_pairs ps) ≡ some v → Memᴰ (k, v) ps
  unfolding from_pairs get
  get-from_pairs ps k h = elim (get-update ps [] k h) [ inl m ↦ m | inr p ↦ cc ]

  -- A key of the comprehension is found in its dictionary.
  pub get-from_pairs_of_Memᴰ :
      {k : K} {v : V} {ps : List (K × V)}
      → Memᴰ (k, v) ps
      → (u : V) × (get k (from_pairs ps) ≡ some u)
  unfolding from_pairs
  get-from_pairs_of_Memᴰ {k} m = get-update_of_Memᴰ k [] m
