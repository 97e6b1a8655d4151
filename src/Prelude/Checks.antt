-- ===== src/Prelude/Checks.antt =====
-- Loops that check each element of a list and raise at the first that fails.
use mathlib.Core.Path.{◌≡◌, refl}
use mathlib.Core.Logic.{◌↔◌, inl, inr}
use mathlib.Core.Bool.{Bool, true, false}
use mathlib.Core.List.Memᴰ
use mathlib.Core.List.{List, [], ◌∷◌, Memᴰ}
use Prim.Native.Nat.{◌≤◌, ◌<◌}
use native.Mathlib.Omega.{arith}
use hetida_designer.Prelude.Lists.{length, filter_by}
use hetida_designer.Prelude.Results.{Error, Result, ok, err, require, ◌>>◌}

pub >>-ok_iff {ℓ} :
    {Next : Type ℓ} (first : Result (Unit {0})) (next : Result Next) {end : Next}
    → (first >> next ≡ ok end) ↔ ((first ≡ ok tt) × (next ≡ ok end))
>>-ok_iff (ok u) next = (λ h. (refl, h), λ h. h.1)
>>-ok_iff (err e) next = (λ h. cc, λ h. cc)

module _ {ℓ} {A : Type ℓ} where
  -- `for x in xs: check(x)`
  unfoldable pub check_all : (A → Result (Unit {0})) → List A → Result (Unit {0})
  check_all check [] = ok tt
  check_all check (x ∷ xs) = do check x; check_all check xs

  -- The loop ends well exactly when every element passes.
  pub check_all_iff :
      (check : A → Result (Unit {0})) (xs : List A)
      → (check_all check xs ≡ ok tt) ↔ ((x : A) → Memᴰ x xs → check x ≡ ok tt)
  unfolding check_all
  check_all_iff check [] = (λ h x m. elim m [ ], λ h. refl)
  check_all_iff check (x ∷ xs) = (
    λ h y m.
        (let (first, rest) = (>>-ok_iff (check x) (check_all check xs)).0 h in
          elim (Memᴰ.cases_cons m) [
            | inl same ↦ rw same first
            | inr later ↦ (check_all_iff check xs).0 rest y later
          ]),
    λ h.
        (>>-ok_iff (check x) (check_all check xs)).1
          (h x (Memᴰ.head refl), (check_all_iff check xs).1 (λ y m. h y (Memᴰ.tail m))),
  )

  pub filter_by_le : (p : A → Bool) (xs : List A) → length (filter_by p xs) ≤ length xs
  filter_by_le p [] = omega arith
  filter_by_le p (x ∷ xs) = ground (arith, filter_by_le p xs)

  -- Fewer elements pass a test that is stronger.
  pub length-filter_by_le :
      (p q : A → Bool) (xs : List A)
      → ((x : A) → q x ≡ true → p x ≡ true)
      → length (filter_by q xs) ≤ length (filter_by p xs)
  length-filter_by_le p q [] h = omega arith
  length-filter_by_le p q (x ∷ xs) h = ground (arith, length-filter_by_le p q xs h, h x)

  pub length-filter_by_lt :
      (p q : A → Bool) {x : A} {xs : List A}
      → Memᴰ x xs
      → ((x : A) → q x ≡ true → p x ≡ true)
      → p x ≡ true
      → q x ≡ false
      → length (filter_by q xs) < length (filter_by p xs)
  length-filter_by_lt p q {xs = []} m h px qx = elim m [ ]
  length-filter_by_lt p q {xs = y ∷ xs} (Memᴰ.head same) h px qx =
      rw (← same, px, qx) (omega (arith, length-filter_by_le p q xs h))
  length-filter_by_lt p q {xs = y ∷ xs} (Memᴰ.tail m) h px qx =
      ground (arith, length-filter_by_lt p q m h px qx, h y)

pub require_iff : (b : Bool) (e : Error) → (require b e ≡ ok tt) ↔ (b ≡ true)
require_iff true e = (λ h. refl, λ h. refl)
require_iff false e = (λ h. cc, λ h. cc)
