-- ===== src/Revision/Service/Imports.antt =====
-- On `check_direct_component_imports`.
use mathlib.Core.List.Memᴰ
use hetida_designer.Prelude.{
  ℕ, ◌≡◌, ◌≢◌, ◌↔◌, inl, inr, refl, sym, subst, true, false, not, ◌&&◌, List, [], ◌∷◌, Memᴰ, Text,
  ◌==◌, nat_eq, ==→≡, ≡→==, Bool-cases, check_all, require_iff, >>-ok_iff, >>=-eq-ok, Result, ok,
  err, ◌>>=◌, ok-injective,
}
use hetida_designer.Operator.{component, trafo_type_eq, draft, state_eq}
use hetida_designer.Revision.{code, TransformationRevision}
use hetida_designer.Revision.Service.{
  Services, or_non_existing, check_import, read_multiple, check_direct_component_imports,
}

-- The id is read as a component that is not a draft.
abbrev pub IsImportable : (ℕ → Result TransformationRevision) → ℕ → Type 0
IsImportable reads id =
    (r : TransformationRevision) × (reads id ≡ ok r) × (r.type ≡ component) × (r.state ≢ draft)

check_import_iff :
    (importing r : TransformationRevision)
    → importing.state ≢ draft
    → (check_import importing r ≡ ok tt) ↔ ((r.type ≡ component) × (r.state ≢ draft))
unfolding check_import
check_import_iff importing r strict = elim (Bool-cases (importing.state == draft)) [
  | inl is_draft ↦ absurd (strict (==→≡ importing.state draft is_draft))
  | inr other ↦ (
    λ h.
        let (typed, free) = (>>-ok_iff _ _).0 h in
        (
          ==→≡ r.type component ((require_iff _ _).0 typed),
          λ is_draft. no_draft (≡→== r.state draft is_draft) ((require_iff _ _).0 free) other,
        ),
    λ h. (>>-ok_iff _ _).1 (
      (require_iff _ _).1 (≡→== r.type component (h.0)),
      (require_iff _ _).1 (elim (Bool-cases (r.state == draft)) [
        | inl is_draft ↦ absurd ((h.1) (==→≡ r.state draft is_draft))
        | inr free ↦ rw (other, free) refl
      ]),
    ),
  )
]
  where
    no_draft :
        (r.state == draft) ≡ true
        → not (not (importing.state == draft) && r.state == draft) ≡ true
        → (importing.state == draft) ≡ false
        → ⊥
    no_draft is_draft free other = cc (rw (other, is_draft) at free)

read_all_iff :
    (reads : ℕ → Result TransformationRevision) (importing : TransformationRevision) (ids : List ℕ)
    → importing.state ≢ draft
    → ((read_multiple reads ids >>= check_all (check_import importing)) ≡ ok tt)
      ↔ ((id : ℕ) → Memᴰ id ids → IsImportable reads id)
unfolding read_multiple check_all
read_all_iff reads importing [] strict = (λ h id m. elim m [ ], λ h. refl)
read_all_iff reads importing (id ∷ ids) strict =
    (to (read_all_iff reads importing ids strict), from (read_all_iff reads importing ids strict))
  where
    Reads : List ℕ → Type 0
    Reads js =
        ((read_multiple reads js >>= check_all (check_import importing)) ≡ ok tt)
        ↔ ((i : ℕ) → Memᴰ i js → IsImportable reads i)

    to :
        Reads ids
        → (read_multiple reads (id ∷ ids) >>= check_all (check_import importing)) ≡ ok tt
        → (i : ℕ) → Memᴰ i (id ∷ ids)
        → IsImportable reads i
    to later_ids h i m =
        let (all, e0, checked) =
          >>=-eq-ok (read_multiple reads (id ∷ ids)) (check_all (check_import importing)) h in
        let (r, e1, r1) = >>=-eq-ok (reads id) _ e0 in
        let (rest, e2, same) = >>=-eq-ok (read_multiple reads ids) _ r1 in
        let (first, others) =
          (>>-ok_iff (check_import importing r) (check_all (check_import importing) rest)).0 (
            subst (λ v. check_all (check_import importing) v ≡ ok tt) (sym (ok-injective same))
              checked) in
        elim (Memᴰ.cases_cons m) [
          | inl is ↦
              let (typed, free) = (check_import_iff importing r strict).0 first in
              rw is (r, e1, typed, free)
          | inr later ↦ later_ids.0 (rw e2 others) i later
        ]

    from :
        Reads ids
        → ((i : ℕ) → Memᴰ i (id ∷ ids) → IsImportable reads i)
        → (read_multiple reads (id ∷ ids) >>= check_all (check_import importing)) ≡ ok tt
    from later_ids all =
        let (r, read, typed, free) = all id (Memᴰ.head refl) in
        let (rest, e, checked) =
          >>=-eq-ok (read_multiple reads ids) (check_all (check_import importing))
            (later_ids.1 (λ i m. all i (Memᴰ.tail m))) in
        rw (read, e)
          ((>>-ok_iff (check_import importing r) (check_all (check_import importing) rest)).1
            ((check_import_iff importing r strict).1 (typed, free), checked))

-- The imports of a component that is not a draft, and whose imported ids can be read from its code, are
-- accepted exactly if each of these ids is read as a component in a state other than DRAFT: released
-- or disabled.
pub check_direct_component_imports_iff :
    (services : Services) (reads : ℕ → Result TransformationRevision)
    (importing : TransformationRevision) (text : Text) (ids : List ℕ)
    → importing.state ≢ draft
    → importing.content ≡ code text
    → services.get_global_component_imports text ≡ ok ids
    → (check_direct_component_imports services reads importing ≡ ok tt)
      ↔ ((id : ℕ) → Memᴰ id ids → IsImportable reads id)
unfolding check_direct_component_imports
check_direct_component_imports_iff services reads importing text ids strict content parsed =
    elim (Bool-cases (importing.state == draft)) [
      | inl is_draft ↦ absurd (strict (==→≡ importing.state draft is_draft))
      | inr other ↦
          rw (check_direct_component_imports, other, content, parsed)
            (same (read_multiple reads ids) (read_all_iff reads importing ids strict))
    ]
  where
    same :
        (result : Result (List TransformationRevision))
        → ((result >>= check_all (check_import importing)) ≡ ok tt)
          ↔ ((id : ℕ) → Memᴰ id ids → IsImportable reads id)
        → ((or_non_existing result >>= check_all (check_import importing)) ≡ ok tt)
          ↔ ((id : ℕ) → Memᴰ id ids → IsImportable reads id)
    same (ok trafos) h = h
    same (err e) h = (λ f. cc, λ all. cc ((h.1) all))
