-- ===== src/Prelude/DictKeys.antt =====
-- Deletion, and the dictionaries in which each key stands once, as it does in every Python dict.
use mathlib.Core.Path.{◌≡◌, refl}
use mathlib.Core.Logic.{inl, inr}
use mathlib.Core.Bool.{Bool, true, false}
use mathlib.Core.Option.{Option, none, some}
use mathlib.Core.List.{[], ◌∷◌, Memᴰ}
use Prim.Native.Nat.{suc}
use native.Mathlib.Omega.{arith}
use hetida_designer.Prelude.Tests.{Eq, ◌==◌, if◌then◌else◌, ==_self, ==→≡, Bool-cases}
use hetida_designer.Prelude.Lists.{length}
use hetida_designer.Prelude.Dicts.{Dict, get, put, update, from_pairs, get-put}

module _ {ℓ} {A : Type ℓ} where
  abbrev pub is_some : Option A → Bool
  is_some none = false
  is_some (some a) = true

module _ {ℓ κ} {K : Type ℓ} {V : Type κ} ⦃e : Eq K⦄ where
  -- `del d[k]` for a key that is there
  unfoldable pub delete : K → Dict K V → Dict K V
  delete k [] = []
  delete k ((j, v) ∷ d) = if j == k then d else (j, v) ∷ delete k d

  abbrev pub IsDict : Dict K V → Type 0
  IsDict [] = Unit
  IsDict ((k, v) ∷ d) = (is_some (get k d) ≡ false) × IsDict d

  pub IsDict-put : (k : K) (v : V) (d : Dict K V) → IsDict d → IsDict (put k v d)
  unfolding put get
  IsDict-put k v [] h = (refl, tt)
  IsDict-put k v ((j, w) ∷ d) h =
      ground (arith, IsDict-put k v d h.1, get-put k j v d, ==→≡ k j, ==_self j)

  pub get-delete :
      (k j : K) (d : Dict K V) → IsDict d → get j (delete k d) ≡ (if k == j then none else get j d)
  unfolding get delete
  get-delete k j [] h = ground arith
  get-delete k j ((i, w) ∷ d) h =
      ground (arith, get-delete k j d h.1, ==→≡ i k, ==→≡ i j, ==→≡ k j, ==_self k, ==_self j)

  pub IsDict-delete : (k : K) (d : Dict K V) → IsDict d → IsDict (delete k d)
  unfolding delete
  IsDict-delete k [] h = tt
  IsDict-delete k ((j, w) ∷ d) h = ground (arith, IsDict-delete k d h.1, get-delete k j d h.1)

  pub length-delete :
      (k : K) (d : Dict K V) → is_some (get k d) ≡ true → suc (length (delete k d)) ≡ length d
  unfolding delete get
  length-delete k [] h = cc
  length-delete k ((j, w) ∷ d) h = ground (arith, length-delete k d)

  pub get-Memᴰ : {k : K} {v : V} (d : Dict K V) → IsDict d → Memᴰ (k, v) d → get k d ≡ some v
  unfolding get
  get-Memᴰ [] h m = elim m [ ]
  get-Memᴰ {k} {v} ((j, w) ∷ d) h (Memᴰ.head same) = ground (arith, ==_self k)
  get-Memᴰ {k} {v} ((j, w) ∷ d) h (Memᴰ.tail m) = ground (arith, get-Memᴰ d h.1 m, ==→≡ j k)

  pub Memᴰ-get : {k : K} {v : V} (d : Dict K V) → get k d ≡ some v → Memᴰ (k, v) d
  unfolding get
  Memᴰ-get [] h = cc
  Memᴰ-get {k} {v} ((j, w) ∷ d) h = elim (Bool-cases (j == k)) [
    | inl same ↦ Memᴰ.head (ground (arith, ==→≡ j k))
    | inr other ↦ Memᴰ.tail (Memᴰ-get d (ground arith))
  ]

  pub length-put :
      (k : K) (v : V) (d : Dict K V) → is_some (get k d) ≡ true → length (put k v d) ≡ length d
  unfolding put get
  length-put k v [] h = cc
  length-put k v ((j, w) ∷ d) h = ground (arith, length-put k v d)

  -- A comprehension's dictionary has each key once.
  pub IsDict-update : (d ps : Dict K V) → IsDict d → IsDict (update d ps)
  unfolding update
  IsDict-update d [] h = h
  IsDict-update d ((k, v) ∷ ps) h = IsDict-update (put k v d) ps (IsDict-put k v d h)

  pub IsDict-from_pairs : (ps : Dict K V) → IsDict (from_pairs ps)
  unfolding from_pairs
  IsDict-from_pairs ps = IsDict-update [] ps tt
