-- ===== src/Nestings.antt =====
-- runtime/hetdesrun/trafoutils/nestings.py: how deep workflows are nested, and transformation
-- revisions grouped by that. `nesting_level` takes as fuel one more than the number of
-- transformations, since each recursive call adds one of them to `seen`.
pub mod Depth
pub mod Fuel
pub mod Level
pub mod Order
pub mod Groups
use hetida_designer.Prelude.{
  ℕ, zero, suc, ◌+◌, max, Bool, true, false, Option, none, some, List, [], ◌∷◌, ◌++◌, any, Text,
  Dict, get, put, is_some, length, ◌==◌, nat_eq, if◌then◌else◌, Result, ok, err, ◌>>=◌, ◌>>◌,
  nesting_cycle, missing_transformation, unexpected_content, out_of_fuel, not,
}
use hetida_designer.Operator.{Operator, TrafoType, component, workflow, trafo_type_eq}

-- The content of a transformation revision: the code of a component, or the operators of a
-- `WorkflowContent`.
pub data TrafoContent : Type 0 where
  code : Text → TrafoContent
  operators_of : List Operator → TrafoContent

-- What `nestings.py` reads of a `TransformationRevision`.
pub record Transformation : Type 0 where
  pub type : TrafoType
  pub content : TrafoContent

abbrev pub Transformations : Type 0
Transformations = Dict ℕ Transformation

abbrev pub member : ℕ → List ℕ → Bool
member id seen = any (λ s. s == id) seen

-- One round of the loop over the operators; `nested` is the recursive call.
unfoldable pub next_level : (ℕ → Result ℕ) → Transformations → ℕ → Operator → Result ℕ
next_level nested dict nextlevel operator =
    if operator.type == workflow
    then (if not (is_some (get operator.transformation_id dict))
        then err missing_transformation
        else do level ← nested operator.transformation_id; ok (max nextlevel level))
    else ok nextlevel

unfoldable pub operators_level : (ℕ → Result ℕ) → Transformations → ℕ → List Operator → Result ℕ
unfolding next_level
operators_level nested dict nextlevel [] = ok nextlevel
operators_level nested dict nextlevel (operator ∷ operators) =
    next_level nested dict nextlevel operator >>= λ next. operators_level nested dict next operators

-- From the transformation on, once it is found; `nested` is the recursive call at the next level.
unfoldable pub trafo_level :
    (ℕ → Result ℕ) → Transformations → ℕ → TrafoType → TrafoContent → Result ℕ
unfolding operators_level
trafo_level nested dict level component content = ok level
trafo_level nested dict level workflow (code text) = err unexpected_content
trafo_level nested dict level workflow (operators_of operators) =
    operators_level nested dict (level + 1) operators

abbrev pub level_of : (ℕ → Result ℕ) → Transformations → ℕ → Option Transformation → Result ℕ
level_of nested dict level none = err missing_transformation
level_of nested dict level (some t) = trafo_level nested dict level t.type t.content

unfoldable pub nesting_level_from : ℕ → ℕ → Transformations → ℕ → List ℕ → Result ℕ
unfolding trafo_level
nesting_level_from zero id dict level seen = err out_of_fuel
nesting_level_from (suc fuel) id dict level seen =
    if member id seen
    then err nesting_cycle
    else level_of (λ nested. nesting_level_from fuel nested dict (level + 1) (id ∷ seen)) dict level
        (get id dict)

-- The call without the arguments that are for recursion only.
unfoldable pub nesting_level : ℕ → Transformations → Result ℕ
unfolding nesting_level_from
nesting_level id dict = nesting_level_from (suc (length dict)) id dict 0 []

abbrev pub ids_at : Option (List ℕ) → List ℕ
ids_at none = []
ids_at (some ids) = ids

unfoldable pub group_by_level :
    Transformations → Dict ℕ (List ℕ) → List (ℕ × Transformation) → Result (Dict ℕ (List ℕ))
unfolding nesting_level
group_by_level dict groups [] = ok groups
group_by_level dict groups ((id, t) ∷ items) = do
  level ← nesting_level id dict
  group_by_level dict (put level (ids_at (get level groups) ++ id ∷ []) groups) items

unfoldable pub structure_ids_by_nesting_level : Transformations → Result (Dict ℕ (List ℕ))
unfolding group_by_level
structure_ids_by_nesting_level dict = group_by_level dict [] dict
