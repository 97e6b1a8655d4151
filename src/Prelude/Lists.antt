-- ===== src/Prelude/Lists.antt =====
-- Lists under Boolean tests, membership, and Python's `list.remove`.
use mathlib.Core.Path.{◌≡◌, refl, sym, ap, subst}
use mathlib.Core.Logic.{◌≢◌, ◌⊎◌, ◌↔◌, inl, inr}
use mathlib.Core.Bool.{Bool, true, false, not, ◌||◌}
use mathlib.Core.List.Memᴰ
use mathlib.Core.List.{List, [], ◌∷◌, Memᴰ}
use mathlib.Core.Option.{Option, none, some}
use Prim.Native.Nat.{ℕ, zero, suc}
use native.Mathlib.Omega.{arith}
use hetida_designer.Prelude.Tests.{Eq, ◌==◌, if◌then◌else◌, ==_self, ==→≡, Bool-cases}

module _ {ℓ} {A : Type ℓ} where
  abbrev pub length : List A → ℕ
  length [] = 0
  length (x ∷ xs) = suc (length xs)

  abbrev pub get_elem? : List A → ℕ → Option A
  get_elem? [] i = none
  get_elem? (x ∷ xs) zero = some x
  get_elem? (x ∷ xs) (suc i) = get_elem? xs i

  pub List-cases : (xs : List A) → (xs ≡ []) ⊎ ((x : A) × (ys : List A) × (xs ≡ x ∷ ys))
  List-cases [] = inl refl
  List-cases (x ∷ xs) = inr (x, xs, refl)

  -- `[x for x in xs if p(x)]`
  abbrev pub filter_by : (A → Bool) → List A → List A
  filter_by p [] = []
  filter_by p (x ∷ xs) = if p x then x ∷ filter_by p xs else filter_by p xs

  abbrev pub any : (A → Bool) → List A → Bool
  any p [] = false
  any p (x ∷ xs) = p x || any p xs

  abbrev pub All {κ} : (A → Type κ) → List A → Type κ
  All P [] = Unit
  All P (x ∷ xs) = P x × All P xs

  pub All-Memᴰ {κ} : (P : A → Type κ) {x : A} {xs : List A} → Memᴰ x xs → All P xs → P x
  All-Memᴰ P (Memᴰ.head e) h = subst P (sym e) h.0
  All-Memᴰ P (Memᴰ.tail m) h = All-Memᴰ P m h.1

  pub Memᴰ-All {κ} : {P : A → Type κ} (xs : List A) → ((x : A) → Memᴰ x xs → P x) → All P xs
  Memᴰ-All [] h = tt
  Memᴰ-All (x ∷ xs) h = (h x (Memᴰ.head refl), Memᴰ-All xs (λ y m. h y (Memᴰ.tail m)))

  pub Memᴰ-filter_by :
      (p : A → Bool) (xs : List A) {x : A} → Memᴰ x (filter_by p xs) → Memᴰ x xs × (p x ≡ true)
  Memᴰ-filter_by p [] m = elim m [ ]
  Memᴰ-filter_by p (y ∷ xs) {x} m = elim (Bool-cases (p y)) [
    | inl e ↦ elim (Memᴰ.cases_cons (rw e at m)) [
      | inl same ↦ (Memᴰ.head same, rw same e)
      | inr later ↦ let (m', h) = Memᴰ-filter_by p xs later in (Memᴰ.tail m', h)
    ]
    | inr e ↦ let (m', h) = Memᴰ-filter_by p xs (rw e at m) in (Memᴰ.tail m', h)
  ]

  pub filter_by-Memᴰ :
      (p : A → Bool) {x : A} {xs : List A} → Memᴰ x xs → p x ≡ true → Memᴰ x (filter_by p xs)
  filter_by-Memᴰ p {xs = []} m h = elim m [ ]
  filter_by-Memᴰ p {xs = y ∷ xs} (Memᴰ.head e) h = rw (← e, h) (Memᴰ.head refl)
  filter_by-Memᴰ p {xs = y ∷ xs} (Memᴰ.tail m) h = elim (Bool-cases (p y)) [
    | inl e ↦ rw e (Memᴰ.tail (filter_by-Memᴰ p m h))
    | inr e ↦ rw e (filter_by-Memᴰ p m h)
  ]

  pub All-filter_by {κ} :
      (P : A → Type κ) (p : A → Bool) (xs : List A) → All P xs → All P (filter_by p xs)
  All-filter_by P p [] h = tt
  All-filter_by P p (x ∷ xs) h = elim (Bool-cases (p x)) [
    | inl e ↦ rw e (h.0, All-filter_by P p xs h.1)
    | inr e ↦ rw e (All-filter_by P p xs h.1)
  ]

  pub any-Memᴰ : (p : A → Bool) (xs : List A) → any p xs ≡ true → (x : A) × Memᴰ x xs × (p x ≡ true)
  any-Memᴰ p [] h = cc
  any-Memᴰ p (x ∷ xs) h = elim (Bool-cases (p x)) [
    | inl e ↦ (x, Memᴰ.head refl, e)
    | inr e ↦ let (y, m, py) = any-Memᴰ p xs (rw e at h) in (y, Memᴰ.tail m, py)
  ]

  pub Memᴰ-any : (p : A → Bool) {x : A} {xs : List A} → Memᴰ x xs → p x ≡ true → any p xs ≡ true
  Memᴰ-any p (Memᴰ.head e) h = rw (← e, h)
  Memᴰ-any p {xs = y ∷ xs} (Memᴰ.tail m) h = ground (arith, Memᴰ-any p m h)

  -- `any` is false exactly when no element passes.
  pub any-false : (p : A → Bool) {x : A} {xs : List A} → Memᴰ x xs → any p xs ≡ false → p x ≡ false
  any-false p {x} m h = elim (Bool-cases (p x)) [ inl e ↦ cc (Memᴰ-any p m e) | inr e ↦ e ]

module _ {ℓ} {A : Type ℓ} where
  abbrev pub cons_to : A → Option (List A) → Option (List A)
  cons_to x none = none
  cons_to x (some zs) = some (x ∷ zs)

  abbrev pub and_then {κ} : {B : Type κ} → Option A → (A → Option B) → Option B
  and_then none f = none
  and_then (some a) f = f a

module _ {ℓ} {A : Type ℓ} ⦃e : Eq A⦄ where
  -- `xs.remove(y)`: the first equal element goes; `none` is the ValueError for an absent one.
  abbrev pub remove : A → List A → Option (List A)
  remove y [] = none
  remove y (x ∷ xs) = if x == y then some xs else cons_to x (remove y xs)

  -- `for y in ys: xs.remove(y)`
  abbrev pub remove_all : List A → List A → Option (List A)
  remove_all [] xs = some xs
  remove_all (y ∷ ys) xs = and_then (remove y xs) (remove_all ys)

  remove_skip : (y x : A) (xs : List A) → x ≢ y → remove y (x ∷ xs) ≡ cons_to x (remove y xs)
  remove_skip y x xs h = ground (arith, ==→≡ x y)

  remove_all-skip :
      (ys : List A) (x : A) (xs : List A)
      → All (λ y. x ≢ y) ys
      → remove_all ys (x ∷ xs) ≡ cons_to x (remove_all ys xs)
  remove_all-skip [] x xs h = refl
  remove_all-skip (y ∷ ys) x xs h =
      rw (remove_skip y x xs h.0) (go (remove y xs) (λ zs. remove_all-skip ys x zs h.1))
    where
      go :
          (o : Option (List A))
          → ((zs : List A) → remove_all ys (x ∷ zs) ≡ cons_to x (remove_all ys zs))
          → and_then (cons_to x o) (remove_all ys) ≡ cons_to x (and_then o (remove_all ys))
      go none k = refl
      go (some zs) k = k zs

  remove_head : (x : A) (xs : List A) → remove x (x ∷ xs) ≡ some xs
  remove_head x xs = rw (==_self x)

  filter_by-ne :
      (p : A → Bool) (x : A) (xs : List A) → p x ≡ false → All (λ y. x ≢ y) (filter_by p xs)
  filter_by-ne p x xs h =
      Memᴰ-All (filter_by p xs) λ y m same. cc (ap p same, (Memᴰ-filter_by p xs m).1)

  -- Removing one by one what passes a test leaves what fails it, and never raises.
  pub remove_all-filter_by :
      (p : A → Bool) (xs : List A)
      → remove_all (filter_by p xs) xs ≡ some (filter_by (λ x. not (p x)) xs)
  remove_all-filter_by p [] = refl
  remove_all-filter_by p (x ∷ xs) = elim (Bool-cases (p x)) [
    | inl h ↦ rw (h, remove_head x xs) (remove_all-filter_by p xs)
    | inr h ↦
        rw
          (
            h,
            remove_all-skip (filter_by p xs) x xs (filter_by-ne p x xs h),
            remove_all-filter_by p xs,
          )
          refl
  ]

-- Some element fulfils the predicate.
abbrev pub Exists {ℓ κ} : {A : Type ℓ} → (A → Type κ) → List A → Type (ℓ ⊔ κ)
Exists {A} P xs = (x : A) × Memᴰ x xs × P x

pub Exists-cons {ℓ κ} :
    {A : Type ℓ} (P : A → Type κ) (x : A) (xs : List A) → Exists P (x ∷ xs) ↔ (P x ⊎ Exists P xs)
Exists-cons {A} P x xs = (to, from)
  where
    to : Exists P (x ∷ xs) → P x ⊎ Exists P xs
    to (y, Memᴰ.head e, p) = inl (subst P e p)
    to (y, Memᴰ.tail m, p) = inr (y, m, p)

    from : P x ⊎ Exists P xs → Exists P (x ∷ xs)
    from (inl p) = (x, Memᴰ.head refl, p)
    from (inr (y, m, p)) = (y, Memᴰ.tail m, p)

pub Exists-iff {ℓ κ} :
    {A : Type ℓ} {P Q : A → Type κ} (xs : List A)
    → ((x : A) → Memᴰ x xs → P x ↔ Q x)
    → Exists P xs ↔ Exists Q xs
Exists-iff xs same = (
  λ n. (let (x, m, p) = n in (x, m, (same x m).0 p)),
  λ n. (let (x, m, q) = n in (x, m, (same x m).1 q)),
)
