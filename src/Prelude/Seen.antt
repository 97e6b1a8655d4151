-- ===== src/Prelude/Seen.antt =====
-- Loops that raise at the first element that was seen before, and the lists that they accept.
use mathlib.Core.Path.{◌≡◌, refl, sym, ap, ◌∙◌}
use mathlib.Core.Logic.{◌≢◌, ◌↔◌, inl, inr}
use mathlib.Core.Bool.{true, not}
use mathlib.Core.List.Memᴰ
use mathlib.Core.List.{List, [], ◌∷◌, map, Memᴰ}
use hetida_designer.Prelude.Tests.{Eq, ◌==◌, ==→≡, ==_self, Bool-cases}
use hetida_designer.Prelude.Lists.{any, any-Memᴰ, Memᴰ-any, any-false, All, Memᴰ-All, All-Memᴰ}
use hetida_designer.Prelude.Results.{Error, Result, ok, require, ◌>>◌, >>-require}

module _ {ℓ} {A : Type ℓ} ⦃e : Eq A⦄ where
  unfoldable pub check_unseen : Error → List A → List A → Result (Unit {0})
  check_unseen error seen [] = ok tt
  check_unseen error seen (x ∷ xs) = do
    require (not (any (λ y. y == x) seen)) error
    check_unseen error (x ∷ seen) xs

-- No element occurs again behind its place.
abbrev pub IsNodup {ℓ} : {A : Type ℓ} → List A → Type ℓ
IsNodup [] = Unit
IsNodup (x ∷ xs) = All (λ y. x ≢ y) xs × IsNodup xs

module _ {ℓ} {A : Type ℓ} ⦃e : Eq A⦄ where
  -- No element of the first list occurs in the second.
  abbrev Apart : List A → List A → Type ℓ
  Apart seen xs = (x : A) → Memᴰ x xs → ¬ Memᴰ x seen

  fresh_iff : (x : A) (seen : List A) → (not (any (λ y. y == x) seen) ≡ true) ↔ (¬ Memᴰ x seen)
  fresh_iff x seen = (
    λ h m. elim (Bool-cases (any (λ y. y == x) seen)) [
      | inl found ↦ cc (rw found at h)
      | inr new ↦ cc (any-false (λ y. y == x) m new, ==_self x)
    ],
    λ h. elim (Bool-cases (any (λ y. y == x) seen)) [
      | inl found ↦
          let (y, m, same) = any-Memᴰ (λ y. y == x) seen found in
          absurd (h (rw (← ==→≡ y x same) m))
      | inr new ↦ rw new refl
    ],
  )

  seen_iff :
      (error : Error) (seen xs : List A)
      → (check_unseen error seen xs ≡ ok tt) ↔ (Apart seen xs × IsNodup xs)
  unfolding check_unseen
  seen_iff error seen [] = (λ h. ((λ x m. elim m [ ]), tt), λ h. refl)
  seen_iff error seen (x ∷ xs) =
      (to (seen_iff error (x ∷ seen) xs).0, from (seen_iff error (x ∷ seen) xs).1)
    where
      split :
          ¬ Memᴰ x seen → Apart (x ∷ seen) xs × IsNodup xs → Apart seen (x ∷ xs) × IsNodup (x ∷ xs)
      split fresh (apart, nodup) = (
        λ y m. elim (Memᴰ.cases_cons m) [
          | inl same ↦ rw same fresh
          | inr later ↦ λ old. apart y later (Memᴰ.tail old)
        ],
        (Memᴰ-All xs (λ y m same. apart y m (Memᴰ.head (sym same))), nodup),
      )

      to :
          (check_unseen error (x ∷ seen) xs ≡ ok tt → Apart (x ∷ seen) xs × IsNodup xs)
          → check_unseen error seen (x ∷ xs) ≡ ok tt
          → Apart seen (x ∷ xs) × IsNodup (x ∷ xs)
      to next h =
          let (new, rest) =
            >>-require (not (any (λ y. y == x) seen)) error (check_unseen error (x ∷ seen) xs) h in
          split ((fresh_iff x seen).0 new) (next rest)

      from :
          (Apart (x ∷ seen) xs × IsNodup xs → check_unseen error (x ∷ seen) xs ≡ ok tt)
          → Apart seen (x ∷ xs) × IsNodup (x ∷ xs)
          → check_unseen error seen (x ∷ xs) ≡ ok tt
      from rest (apart, (fresh, nodup)) = rw ((fresh_iff x seen).1 (apart x (Memᴰ.head refl))) (
          rest (
            λ y m old. elim (Memᴰ.cases_cons old) [
              | inl same ↦ All-Memᴰ (λ z. x ≢ z) m fresh (sym same)
              | inr earlier ↦ apart y (Memᴰ.tail m) earlier
            ],
            nodup,
          ))

  -- From the empty set on, the loop lets exactly the lists without repetition through.
  pub check_unseen_iff :
      (error : Error) (xs : List A) → (check_unseen error [] xs ≡ ok tt) ↔ IsNodup xs
  check_unseen_iff error xs = (
    λ h. ((seen_iff error [] xs).0 h).1,
    λ nodup. (seen_iff error [] xs).1 ((λ x m old. elim old [ ]), nodup),
  )

-- Where the images do not repeat, an element is determined by its image.
pub IsNodup-map {ℓ κ} :
    {A : Type ℓ} {B : Type κ} (f : A → B) {x y : A} (xs : List A)
    → IsNodup (map f xs)
    → Memᴰ x xs
    → Memᴰ y xs
    → f x ≡ f y
    → x ≡ y
IsNodup-map f [] nodup m n same = elim m [ ]
IsNodup-map f {x} {y} (z ∷ zs) (fresh, nodup) m n same = elim (Memᴰ.cases_cons m) [
  | inl xz ↦ elim (Memᴰ.cases_cons n) [
    | inl yz ↦ xz ∙ sym yz
    | inr n' ↦ absurd (All-Memᴰ (λ v. f z ≢ v) (Memᴰ.map f n') fresh (ap f (sym xz) ∙ same))
  ]
  | inr m' ↦ elim (Memᴰ.cases_cons n) [
    | inl yz ↦ absurd (All-Memᴰ (λ v. f z ≢ v) (Memᴰ.map f m') fresh (ap f (sym yz) ∙ sym same))
    | inr n' ↦ IsNodup-map f zs nodup m' n' same
  ]
]

-- The Boolean test and membership.
pub any-==_iff {ℓ} :
    {A : Type ℓ} ⦃e : Eq A⦄ (x : A) (xs : List A) → (any (λ y. y == x) xs ≡ true) ↔ Memᴰ x xs
any-==_iff x xs = (
  λ h. (let (y, m, same) = any-Memᴰ (λ y. y == x) xs h in rw (← ==→≡ y x same) m),
  λ m. Memᴰ-any (λ y. y == x) m (==_self x),
)
