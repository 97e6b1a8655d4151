-- ===== src/Prelude/Results.antt =====
-- A validator or a function that may raise returns a `Result`; the errors name the `raise` that ended it.
use mathlib.Core.Path.{◌≡◌, refl}
use mathlib.Core.Bool.{Bool, true, false}

pub data Error : Type 0 where
  -- models/util.py and persistence/models/io.py
  invalid_identifier nameless_entity duplicate_names value_of_required_input named_constant : Error
  -- persistence/models/link.py
  wrong_start_class wrong_end_class data_types_differ same_operator no_operator : Error
  -- persistence/models/workflow.py; `not_in_list` is the ValueError of `list.remove`
  key_missing not_in_list loop_in_links several_links nameless_io : Error
  -- trafoutils/nestings.py and persistence/dbservice/nesting.py
  nesting_cycle missing_transformation unexpected_content direct_cycle ancestor_cycle : Error
  out_of_fuel : Error
  -- persistence/dbservice and persistence/models/exceptions.py
  db_integrity db_not_found modify_forbidden type_conflict state_conflict : Error
  -- persistence/models/transformation.py
  version_tag_latest released_timestamp_of_draft missing_released_timestamp : Error
  disabled_timestamp_of_released missing_disabled_timestamp empty_io_name draft_operator : Error
  not_a_component not_a_workflow : Error
  import_of_noncomponent non_existing_import draft_import : Error
  -- structure/models.py
  empty_field invalid_filter_name invalid_internal_name duplicate_filter_name : Error
  timestamp_filter_name : Error
  no_element_types unknown_parent duplicate_key_id duplicate_parent_id : Error
  inconsistent_stakeholder circular_reference unknown_thing_node : Error
  -- the TypeError of a loop over `None`
  none_not_iterable : Error

pub data Result {ℓ} (Value : Type ℓ) : Type ℓ where
  err : Error → Result Value
  ok : Value → Result Value

-- `if not condition: raise error`
abbrev pub require : Bool → Error → Result (Unit {0})
require false error = err error
require true _ = ok tt

infixl 5 ◌>>=◌ ◌>>◌
abbrev pub ◌>>=◌ {ℓ κ} :
    {Value : Type ℓ} {Next : Type κ} → Result Value → (Value → Result Next) → Result Next
err raised >>= next = err raised
ok value >>= next = next value

abbrev pub ◌>>◌ {κ} : {Next : Type κ} → Result (Unit {0}) → Result Next → Result Next
err raised >> next = err raised
ok _ >> next = next

-- A chain that returns took its first step, and then its second.
pub >>=-eq-ok {ℓ κ} :
    {Value : Type ℓ} {Next : Type κ} (first : Result Value) (next : Value → Result Next)
    {end : Next}
    → (first >>= next) ≡ ok end
    → (middle : Value) × (first ≡ ok middle) × (next middle ≡ ok end)
>>=-eq-ok (err raised) next run = cc
>>=-eq-ok (ok middle) next run = (middle, refl, run)

pub require-eq-ok : (b : Bool) (e : Error) {u : Unit {0}} → require b e ≡ ok u → b ≡ true
require-eq-ok true e h = refl
require-eq-ok false e h = cc

-- What follows a guard that lets through.
pub >>-require {ℓ} :
    {Next : Type ℓ} (condition : Bool) (error : Error) (next : Result Next) {end : Next}
    → (require condition error >> next) ≡ ok end
    → (condition ≡ true) × (next ≡ ok end)
>>-require false error next run = cc
>>-require true error next run = (refl, run)

pub ok-injective {ℓ} : {Value : Type ℓ} {a b : Value} → ok a ≡ ok b → a ≡ b
ok-injective same = cc
