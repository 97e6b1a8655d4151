-- ===== src/NestingTable/Ancestors.antt =====
-- The disallowed ancestors that `update_nesting` gathers: lists of numbers by what they have.
use mathlib.Core.List.Memᴰ
use hetida_designer.Prelude.{ℕ, ◌≡◌, ◌↔◌, ◌⊎◌, inl, inr, sym, List, [], ◌∷◌, Memᴰ, Exists}

-- The list `after` has the numbers of `before` and those that fulfil `New`.
abbrev pub Extends : List ℕ → List ℕ → (ℕ → Type 0) → Type 0
Extends before after New = (b : ℕ) → Memᴰ b after ↔ (Memᴰ b before ⊎ New b)

pub Extends-refl : (before : List ℕ) → Extends before before (λ b. ⊥)
Extends-refl before b = (λ m. inl m, λ n. elim n [ inl m ↦ m | inr e ↦ absurd e ])

pub Extends-cons : (x : ℕ) (before : List ℕ) → Extends before (x ∷ before) (λ b. x ≡ b)
Extends-cons x before b = (
  λ m. elim (Memᴰ.cases_cons m) [ inl e ↦ inr (sym e) | inr k ↦ inl k ],
  λ n. elim n [ inl m ↦ Memᴰ.tail m | inr e ↦ Memᴰ.head (sym e) ],
)

pub Extends-trans :
    (xs ys zs : List ℕ) {A B : ℕ → Type 0}
    → Extends xs ys A
    → Extends ys zs B
    → Extends xs zs (λ b. A b ⊎ B b)
Extends-trans xs ys zs g h b = (
  λ m. elim ((h b).0 m) [
    | inl k ↦ elim ((g b).0 k) [ inl old ↦ inl old | inr a ↦ inr (inl a) ]
    | inr new ↦ inr (inr new)
  ],
  λ n. elim n [
    | inl old ↦ (h b).1 (inl ((g b).1 (inl old)))
    | inr new ↦ elim new [ inl a ↦ (h b).1 (inl ((g b).1 (inr a))) | inr c ↦ (h b).1 (inr c) ]
  ],
)

pub Extends-iff :
    (xs ys : List ℕ) {A B : ℕ → Type 0} → ((b : ℕ) → A b ↔ B b) → Extends xs ys A → Extends xs ys B
Extends-iff xs ys same g b = (
  λ m. elim ((g b).0 m) [ inl old ↦ inl old | inr a ↦ inr ((same b).0 a) ],
  λ n. elim n [ inl old ↦ (g b).1 (inl old) | inr c ↦ (g b).1 (inr ((same b).1 c)) ],
)

pub iff-flip : {A B : Type 0} → A ↔ B → B ↔ A
iff-flip h = (h.1, h.0)

pub sum_iff : {A B C D : Type 0} → A ↔ C → B ↔ D → (A ⊎ B) ↔ (C ⊎ D)
sum_iff f g = (
  λ n. elim n [ inl a ↦ inl (f.0 a) | inr b ↦ inr (g.0 b) ],
  λ n. elim n [ inl c ↦ inl (f.1 c) | inr d ↦ inr (g.1 d) ],
)

pub iff_trans : {A B C : Type 0} → A ↔ B → B ↔ C → A ↔ C
iff_trans f g = (λ a. g.0 (f.0 a), λ c. f.1 (g.1 c))

pub to_left : {A B : Type 0} → ⊥ ↔ B → A ↔ (A ⊎ B)
to_left none = (λ a. inl a, λ n. elim n [ inl a ↦ a | inr b ↦ absurd (none.1 b) ])

pub iff_refl : {A : Type 0} → A ↔ A
iff_refl = (λ a. a, λ a. a)

pub none_of : {A : Type 0} {P : A → Type 0} → ⊥ ↔ Exists P []
none_of = (λ e. absurd e, λ n. elim n.1 [ ])
