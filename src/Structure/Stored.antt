-- ===== src/Structure/Stored.antt =====
-- The conversions of the four classes to and from their database models, records of the same columns.
-- A stored filter is the dictionary of its fields, and is validated again when it is read.
pub mod Roundtrip
use hetida_designer.Prelude.{
  ℕ, Bool, Option, none, some, List, [], ◌∷◌, map, Text, Result, Error, ok, err, ◌>>=◌,
  db_integrity,
}
use hetida_designer.Structure.Filters.{Characters, Filter, FilterValues, make_filter, or_empty}
use hetida_designer.Structure.Entities.{
  StructureServiceElementType, StructureServiceThingNode, StructureServiceSource,
  StructureServiceSink, validate_element_type, validate_thing_node, validate_source, validate_sink,
}

pub record StructureServiceElementTypeDbModel : Type 0 where
  pub id : ℕ
  pub external_id : Text
  pub stakeholder_key : Text
  pub name : Text
  pub description : Option Text

pub record StructureServiceThingNodeDbModel : Type 0 where
  pub id : ℕ
  pub external_id : Text
  pub stakeholder_key : Text
  pub name : Text
  pub description : Text
  pub parent_node_id : Option ℕ
  pub parent_external_node_id : Option Text
  pub element_type_id : ℕ
  pub element_type_external_id : Text
  pub meta_data : Option Text

pub record StructureServiceSourceDbModel : Type 0 where
  pub id : ℕ
  pub external_id : Text
  pub stakeholder_key : Text
  pub name : Text
  pub type : Text
  pub visible : Bool
  pub display_path : Text
  pub preset_filters : List (Text × Text)
  pub passthrough_filters : Option (List FilterValues)
  pub adapter_key : Text
  pub source_id : Text
  pub ref_key : Option Text
  pub ref_id : Text
  pub meta_data : Option Text
  pub thing_node_external_ids : List Text

pub record StructureServiceSinkDbModel : Type 0 where
  pub id : ℕ
  pub external_id : Text
  pub stakeholder_key : Text
  pub name : Text
  pub type : Text
  pub visible : Bool
  pub display_path : Text
  pub preset_filters : List (Text × Text)
  pub passthrough_filters : Option (List FilterValues)
  pub adapter_key : Text
  pub sink_id : Text
  pub ref_key : Option Text
  pub ref_id : Text
  pub meta_data : Option Text
  pub thing_node_external_ids : List Text

-- `f.model_dump()`
abbrev pub dump_filter : Filter → FilterValues
dump_filter f = record {
  name = f.name;
  internal_name = some f.internal_name;
  type = f.type;
  required = f.required;
}

-- a list if there is one and it is not empty, else `None`
unfoldable pub dump_filters : Option (List Filter) → Option (List FilterValues)
dump_filters none = none
dump_filters (some []) = none
dump_filters (some (f ∷ fs)) = some (map dump_filter (f ∷ fs))

unfoldable pub make_filters : Characters → List FilterValues → Result (List Filter)
make_filters ch [] = ok []
make_filters ch (v ∷ vs) = do f ← make_filter ch v; fs ← make_filters ch vs; ok (f ∷ fs)

unfoldable pub load_filters :
    Characters → Option (List FilterValues) → Result (Option (List Filter))
unfolding make_filters
load_filters ch none = ok none
load_filters ch (some vs) = do fs ← make_filters ch vs; ok (some fs)

-- `except ValidationError as e: raise DBIntegrityError(msg) from e`
abbrev pub or_db_integrity_error {ℓ} : {A : Type ℓ} → Result A → Result A
or_db_integrity_error (ok a) = ok a
or_db_integrity_error (err e) = err db_integrity

unfoldable pub element_type_to_orm_model :
    StructureServiceElementType → StructureServiceElementTypeDbModel
element_type_to_orm_model x = record {
  id = x.id;
  external_id = x.external_id;
  stakeholder_key = x.stakeholder_key;
  name = x.name;
  description = x.description;
}

unfoldable pub element_type_from_orm_model :
    StructureServiceElementTypeDbModel → Result StructureServiceElementType
unfolding validate_element_type
element_type_from_orm_model m = or_db_integrity_error (
    validate_element_type (record {
      id = m.id;
      external_id = m.external_id;
      stakeholder_key = m.stakeholder_key;
      name = m.name;
      description = m.description;
    }))

unfoldable pub thing_node_to_orm_model :
    StructureServiceThingNode → StructureServiceThingNodeDbModel
thing_node_to_orm_model x = record {
  id = x.id;
  external_id = x.external_id;
  stakeholder_key = x.stakeholder_key;
  name = x.name;
  description = x.description;
  parent_node_id = x.parent_node_id;
  parent_external_node_id = x.parent_external_node_id;
  element_type_id = x.element_type_id;
  element_type_external_id = x.element_type_external_id;
  meta_data = x.meta_data;
}

unfoldable pub thing_node_from_orm_model :
    StructureServiceThingNodeDbModel → Result StructureServiceThingNode
unfolding validate_thing_node
thing_node_from_orm_model m = or_db_integrity_error (
    validate_thing_node (record {
      id = m.id;
      external_id = m.external_id;
      stakeholder_key = m.stakeholder_key;
      name = m.name;
      description = m.description;
      parent_node_id = m.parent_node_id;
      parent_external_node_id = m.parent_external_node_id;
      element_type_id = m.element_type_id;
      element_type_external_id = m.element_type_external_id;
      meta_data = m.meta_data;
    }))

unfoldable pub source_to_orm_model : StructureServiceSource → StructureServiceSourceDbModel
unfolding dump_filters
source_to_orm_model x = record {
  id = x.id;
  external_id = x.external_id;
  stakeholder_key = x.stakeholder_key;
  name = x.name;
  type = x.type;
  visible = x.visible;
  display_path = x.display_path;
  preset_filters = x.preset_filters;
  passthrough_filters = dump_filters x.passthrough_filters;
  adapter_key = x.adapter_key;
  source_id = x.source_id;
  ref_key = x.ref_key;
  ref_id = x.ref_id;
  meta_data = x.meta_data;
  thing_node_external_ids = or_empty x.thing_node_external_ids;
}

unfoldable pub source_from_orm_model :
    Characters → StructureServiceSourceDbModel → Result StructureServiceSource
unfolding load_filters validate_source
source_from_orm_model ch m = do
  filters ← load_filters ch m.passthrough_filters
  validate_source ch (record {
    id = m.id;
    external_id = m.external_id;
    stakeholder_key = m.stakeholder_key;
    name = m.name;
    type = m.type;
    visible = m.visible;
    display_path = m.display_path;
    preset_filters = m.preset_filters;
    passthrough_filters = filters;
    adapter_key = m.adapter_key;
    source_id = m.source_id;
    ref_key = m.ref_key;
    ref_id = m.ref_id;
    meta_data = m.meta_data;
    thing_node_external_ids = some m.thing_node_external_ids;
  })

unfoldable pub sink_to_orm_model : StructureServiceSink → StructureServiceSinkDbModel
unfolding dump_filters
sink_to_orm_model x = record {
  id = x.id;
  external_id = x.external_id;
  stakeholder_key = x.stakeholder_key;
  name = x.name;
  type = x.type;
  visible = x.visible;
  display_path = x.display_path;
  preset_filters = x.preset_filters;
  passthrough_filters = dump_filters x.passthrough_filters;
  adapter_key = x.adapter_key;
  sink_id = x.sink_id;
  ref_key = x.ref_key;
  ref_id = x.ref_id;
  meta_data = x.meta_data;
  thing_node_external_ids = or_empty x.thing_node_external_ids;
}

unfoldable pub sink_from_orm_model :
    Characters → StructureServiceSinkDbModel → Result StructureServiceSink
unfolding load_filters validate_sink
sink_from_orm_model ch m = do
  filters ← load_filters ch m.passthrough_filters
  validate_sink (record {
    id = m.id;
    external_id = m.external_id;
    stakeholder_key = m.stakeholder_key;
    name = m.name;
    type = m.type;
    visible = m.visible;
    display_path = m.display_path;
    preset_filters = m.preset_filters;
    passthrough_filters = filters;
    adapter_key = m.adapter_key;
    sink_id = m.sink_id;
    ref_key = m.ref_key;
    ref_id = m.ref_id;
    meta_data = m.meta_data;
    thing_node_external_ids = some m.thing_node_external_ids;
  })
