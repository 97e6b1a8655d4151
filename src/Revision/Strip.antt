-- ===== src/Revision/Strip.antt =====
-- On `strip_wirings`.
use hetida_designer.Prelude.{
  ◌≡◌, ◌↔◌, ◌⊎◌, inl, inr, refl, Bool, true, false, not, List, [], ◌∷◌, Memᴰ, any, any-==_iff,
  filter_by-Memᴰ, Memᴰ-filter_by, ◌==◌, Bool-cases,
}
use hetida_designer.Revision.{AdapterId, adapter_id_eq, Wiring, TransformationRevision}
use hetida_designer.Revision.Lifecycle.{StripWirings, strip_ids, strip_wirings}

stripped_iff :
    (ids : List AdapterId) (wirings : List Wiring) (w : Wiring)
    → Memᴰ w (strip_ids false ids wirings) ↔ (Memᴰ w wirings × (¬ Memᴰ w.adapter_id ids))
unfolding strip_ids
stripped_iff [] wirings w = (λ m. (m, λ i. elim i [ ]), λ h. h.0)
stripped_iff (id ∷ ids) wirings w = (
  λ m.
      (let (given, free) = Memᴰ-filter_by test wirings m in
        (given, λ i. cc (rw ((any-==_iff w.adapter_id (id ∷ ids)).1 i) at free))),
  λ h. filter_by-Memᴰ test (h.0) (elim (Bool-cases (any (λ i. i == w.adapter_id) (id ∷ ids))) [
    | inl found ↦ absurd ((h.1) ((any-==_iff w.adapter_id (id ∷ ids)).0 found))
    | inr free ↦ rw free refl
  ]),
)
  where
    test : Wiring → Bool
    test v = not (any (λ i. i == v.adapter_id) (id ∷ ids))

kept_iff :
    (ids : List AdapterId) (wirings : List Wiring) (w : Wiring)
    → Memᴰ w (strip_ids true ids wirings) ↔ (Memᴰ w wirings × ((ids ≡ []) ⊎ Memᴰ w.adapter_id ids))
unfolding strip_ids
kept_iff [] wirings w = (λ m. (m, inl refl), λ h. h.0)
kept_iff (id ∷ ids) wirings w = (
  λ m.
      (let (given, found) = Memᴰ-filter_by test wirings m in
        (given, inr ((any-==_iff w.adapter_id (id ∷ ids)).0 found))),
  λ h. filter_by-Memᴰ test (h.0) (elim (h.1) [
    | inl empty ↦ cc empty
    | inr found ↦ (any-==_iff w.adapter_id (id ∷ ids)).1 found
  ]),
)
  where
    test : Wiring → Bool
    test v = any (λ i. i == v.adapter_id) (id ∷ ids)

-- The wiring is one of the given ones, its adapter is not one to strip, and is one to keep if any are
-- named.
abbrev pub Stays : List AdapterId → List AdapterId → List Wiring → Wiring → Type 0
Stays strip keep wirings w =
    (Memᴰ w wirings × (¬ Memᴰ w.adapter_id strip)) × ((keep ≡ []) ⊎ Memᴰ w.adapter_id keep)

Stays-iff :
    (strip keep : List AdapterId) (wirings : List Wiring) (w : Wiring)
    → Memᴰ w (strip_ids true keep (strip_ids false strip wirings)) ↔ Stays strip keep wirings w
Stays-iff strip keep wirings w = (
  λ m.
      (let (first, kept) = (kept_iff keep (strip_ids false strip wirings) w).0 m in
        ((stripped_iff strip wirings w).0 first, kept)),
  λ h.
      (kept_iff keep (strip_ids false strip wirings) w).1
        ((stripped_iff strip wirings w).1 (h.0), h.1),
)

-- Unless all wirings are stripped, an input or output wiring of the test wiring stays exactly if its
-- adapter is not one to strip, and is one to keep if any are named.
pub strip_wirings_iff :
    (a : StripWirings) (r : TransformationRevision) (w : Wiring)
    → a.strip_wiring ≡ false
    → (Memᴰ w (strip_wirings a r).test_wiring.input_wirings
        ↔ Stays a.strip_wirings_with_adapter_ids a.keep_only_wirings_with_adapter_ids
            r.test_wiring.input_wirings w)
      × (Memᴰ w (strip_wirings a r).test_wiring.output_wirings
          ↔ Stays a.strip_wirings_with_adapter_ids a.keep_only_wirings_with_adapter_ids
              r.test_wiring.output_wirings w)
unfolding strip_wirings
strip_wirings_iff a r w not_all = rw not_all (
  Stays-iff a.strip_wirings_with_adapter_ids a.keep_only_wirings_with_adapter_ids
      r.test_wiring.input_wirings w,
  Stays-iff a.strip_wirings_with_adapter_ids a.keep_only_wirings_with_adapter_ids
      r.test_wiring.output_wirings w,
)
