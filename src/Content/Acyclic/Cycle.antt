-- ===== src/Content/Acyclic/Cycle.antt =====
-- Closed walks in graphs where each vertex with an outgoing edge has an incoming one.
use mathlib.Core.List.Memᴰ
use hetida_designer.Prelude.{
  ℕ, zero, suc, ◌≡◌, ◌≤◌, ap, refl, List, [], ◌∷◌, Memᴰ, ◌⊎◌, inl, inr, length, map, arith,
}
use hetida_designer.Content.Acyclic.{Edge}
use hetida_designer.Content.Acyclic.Walk.{Walk, one, more}

-- Taking one occurrence of a member out leaves the other members.
without :
    {x : ℕ} {ys : List ℕ}
    → Memᴰ x ys
    → (zs : List ℕ) × (suc (length zs) ≡ length ys) × ((y : ℕ) → Memᴰ y ys → (y ≡ x) ⊎ Memᴰ y zs)
without {ys = []} m = elim m [ ]
without {x} {ys = y ∷ ys} (Memᴰ.head e) = (ys, refl, λ z m. go z m)
  where
    go : (z : ℕ) → Memᴰ z (y ∷ ys) → (z ≡ x) ⊎ Memᴰ z ys
    go z (Memᴰ.head p) = inl (cc)
    go z (Memᴰ.tail m) = inr m
without {x} {ys = y ∷ ys} (Memᴰ.tail m) =
    let (zs, len, rest) = without m in (y ∷ zs, ap suc len, λ z. go z zs rest)
  where
    go :
        (z : ℕ) (zs : List ℕ)
        → ((w : ℕ) → Memᴰ w ys → (w ≡ x) ⊎ Memᴰ w zs)
        → Memᴰ z (y ∷ ys)
        → (z ≡ x) ⊎ Memᴰ z (y ∷ zs)
    go z zs rest (Memᴰ.head p) = inr (Memᴰ.head p)
    go z zs rest (Memᴰ.tail q) = elim (rest z q) [ inl e ↦ inl e | inr r ↦ inr (Memᴰ.tail r) ]

module _ (es : List Edge) (back : (a b : ℕ) → Memᴰ (a, b) es → (z : ℕ) × Memᴰ (z, a) es) where
  reach_back :
      (z c : ℕ)
      → Memᴰ (z, c) es
      → (seen : List ℕ) → ((x : ℕ) → Memᴰ x seen → Walk es c x)
      → (x : ℕ) → Memᴰ x (c ∷ seen)
      → Walk es z x
  reach_back z c into seen reach x (Memᴰ.head e) = one (rw e into)
  reach_back z c into seen reach x (Memᴰ.tail m) = more into (reach x m)

  cover_back :
      (zs ys : List ℕ) (c : ℕ) (seen : List ℕ)
      → ((y : ℕ) → Memᴰ y ys → (y ≡ c) ⊎ Memᴰ y zs)
      → ((x y : ℕ) → Memᴰ (x, y) es → Memᴰ x seen ⊎ Memᴰ x ys)
      → (x y : ℕ) → Memᴰ (x, y) es
      → Memᴰ x (c ∷ seen) ⊎ Memᴰ x zs
  cover_back zs ys c seen rest cover x y m = elim (cover x y m) [
    | inl old ↦ inl (Memᴰ.tail old)
    | inr new ↦ elim (rest x new) [ inl e ↦ inl (Memᴰ.head e) | inr r ↦ inr r ]
  ]

  -- Walks backwards from `c`; `seen` are the vertices met, `open_ys` those still unmet.
  close :
      (n : ℕ) (ys seen : List ℕ) (c b : ℕ)
      → length ys ≤ n
      → Memᴰ (c, b) es
      → ((x : ℕ) → Memᴰ x seen → Walk es c x)
      → ((x y : ℕ) → Memᴰ (x, y) es → Memᴰ x seen ⊎ Memᴰ x ys)
      → (v : ℕ) × Walk es v v
  close zero ys seen c b h m reach cover = elim (cover c b m) [
    | inl old ↦ (c, reach c old)
    | inr new ↦ let (zs, len, rest) = without new in absurd (omega arith)
  ]
  close (suc n) ys seen c b h m reach cover = elim (cover c b m) [
    | inl old ↦ (c, reach c old)
    | inr new ↦
        let (zs, len, rest) = without new in
        let (z, into) = back c b m in
        close n zs (c ∷ seen) z c (omega arith) into (reach_back z c into seen reach)
          (cover_back zs ys c seen rest cover)
  ]

  -- With an edge at all, some walk is closed.
  pub cycle_of_back : (a b : ℕ) → Memᴰ (a, b) es → (v : ℕ) × Walk es v v
  cycle_of_back a b m =
      close (length (map (λ e. e.0) es)) (map (λ e. e.0) es) [] a b (omega arith) m
        (λ x none_seen. elim none_seen [ ]) (λ x y into. inr (Memᴰ.map (λ e. e.0) into))
