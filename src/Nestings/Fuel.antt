-- ===== src/Nestings/Fuel.antt =====
-- On the fuel of `nesting_level`.
use hetida_designer.Prelude.{
  ℕ, zero, suc, ◌+◌, ◌≤◌, ◌<◌, ◌≡◌, ◌≢◌, refl, true, false, not, Option, none, some, List, [], ◌∷◌,
  get, is_some, length, filter_by, nat_eq, ==→≡, ==_self, arith, Bool-cases, Option-cases, inl, inr,
  Result, ok, err, ◌>>=◌, out_of_fuel,
}
use hetida_designer.Operator.{Operator, TrafoType, component, workflow, trafo_type_eq}
use hetida_designer.Nestings.{
  Transformation, Transformations, TrafoContent, code, operators_of, member, next_level,
  operators_level, trafo_level, level_of, nesting_level_from, nesting_level,
}

-- how many entries have a key that was not seen
abbrev unseen : List ℕ → Transformations → ℕ
unseen seen dict = length (filter_by (λ item. not (member item.0 seen)) dict)

unseen-cons_le :
    (id : ℕ) (seen : List ℕ) (dict : Transformations) → unseen (id ∷ seen) dict ≤ unseen seen dict
unseen-cons_le id seen [] = omega arith
unseen-cons_le id seen ((k, t) ∷ dict) = ground (arith, unseen-cons_le id seen dict)

unseen-cons_lt :
    (id : ℕ) (seen : List ℕ) (dict : Transformations)
    → is_some (get id dict) ≡ true
    → member id seen ≡ false
    → unseen (id ∷ seen) dict < unseen seen dict
unfolding get
unseen-cons_lt id seen [] h k = cc
unseen-cons_lt id seen ((j, t) ∷ dict) h k =
    ground (arith, unseen-cons_lt id seen dict, unseen-cons_le id seen dict, ==→≡ j id, ==_self id)

module _ (nested : ℕ → Result ℕ) (dict : Transformations)
    (enough : (id : ℕ) → nested id ≢ err out_of_fuel) where
  next_enough : (next : ℕ) (op : Operator) → next_level nested dict next op ≢ err out_of_fuel
  unfolding next_level
  next_enough next op h = ground (arith, enough op.transformation_id)

  operators_enough :
      (next : ℕ) (ops : List Operator) → operators_level nested dict next ops ≢ err out_of_fuel
  unfolding operators_level
  operators_enough next [] h = cc
  operators_enough next (op ∷ ops) h =
      go (next_level nested dict next op) (next_enough next op) (λ n. operators_enough n ops) h
    where
      go :
          (r : Result ℕ)
          → r ≢ err out_of_fuel
          → ((n : ℕ) → operators_level nested dict n ops ≢ err out_of_fuel)
          → (r >>= (λ n. operators_level nested dict n ops)) ≢ err out_of_fuel
      go (ok n) p k e = k n e
      go (err x) p k e = p e

  level_enough :
      (level : ℕ) (t : Option Transformation) → level_of nested dict level t ≢ err out_of_fuel
  unfolding trafo_level
  level_enough level none h = cc
  level_enough level (some t) h = go t.type t.content h
    where
      go :
          (ty : TrafoType) (c : TrafoContent) → trafo_level nested dict level ty c ≢ err out_of_fuel
      go component c e = cc
      go workflow (code x) e = cc
      go workflow (operators_of ops) e = operators_enough (level + 1) ops e

from_enough :
    (fuel id : ℕ) (dict : Transformations) (level : ℕ) (seen : List ℕ)
    → unseen seen dict < fuel
    → nesting_level_from fuel id dict level seen ≢ err out_of_fuel
unfolding nesting_level_from
from_enough zero id dict level seen h e = absurd (omega arith)
from_enough (suc fuel) id dict level seen h e = elim (Bool-cases (member id seen)) [
  | inl old ↦ cc (rw old at e)
  | inr new ↦ elim (Option-cases (get id dict)) [
    | inl missing ↦ cc (rw (new, missing) at e)
    | inr (t, found) ↦
        level_enough (λ nested. nesting_level_from fuel nested dict (level + 1) (id ∷ seen)) dict
          (λ nested.
            from_enough fuel nested dict (level + 1) (id ∷ seen)
              (omega (arith, unseen-cons_lt id seen dict (rw found refl) new)))
          level (get id dict) (rw new at e)
  ]
]

unseen-nil : (dict : Transformations) → unseen [] dict ≡ length dict
unseen-nil [] = refl
unseen-nil (item ∷ dict) = omega (arith, unseen-nil dict)

-- Whatever the transformations, cyclic or incomplete ones too, the fuel does not run out.
pub nesting_level-ends : (id : ℕ) (dict : Transformations) → nesting_level id dict ≢ err out_of_fuel
unfolding nesting_level
nesting_level-ends id dict =
    from_enough (suc (length dict)) id dict 0 [] (omega (arith, unseen-nil dict))
