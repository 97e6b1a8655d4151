-- ===== src/Structure/Entities.antt =====
-- The four classes of the virtual structure and their validators. The type of a source or sink is the
-- text of its value, and metadata and the values of preset filters are texts of JSON.
use hetida_designer.Prelude.{
  ℕ, Bool, Option, List, [], ◌∷◌, map, Text, text_eq, Result, ok, err, ◌>>=◌, ◌>>◌, empty_field,
}
use hetida_designer.Structure.Filters.{
  Characters, Filter, passthrough_filters_no_duplicate_keys,
  check_for_filter_name_conflicts_with_timestamp_filters,
}

unfoldable pub check_not_empty : Text → Result Text
check_not_empty [] = err empty_field
check_not_empty (c ∷ cs) = ok (c ∷ cs)

-- The validators of the fields that all four classes have.
unfoldable pub check_common_fields : Text → Text → Text → Result (Unit {0})
unfolding check_not_empty
check_common_fields external_id stakeholder_key name = do
  id ← check_not_empty external_id
  key ← check_not_empty stakeholder_key
  given ← check_not_empty name
  ok tt

pub record StructureServiceElementType : Type 0 where
  pub id : ℕ
  pub external_id : Text
  pub stakeholder_key : Text
  pub name : Text
  pub description : Option Text

pub record StructureServiceThingNode : Type 0 where
  pub id : ℕ
  pub external_id : Text
  pub stakeholder_key : Text
  pub name : Text
  pub description : Text
  pub parent_node_id : Option ℕ
  pub parent_external_node_id : Option Text
  pub element_type_id : ℕ
  pub element_type_external_id : Text
  pub meta_data : Option Text

pub record StructureServiceSource : Type 0 where
  pub id : ℕ
  pub external_id : Text
  pub stakeholder_key : Text
  pub name : Text
  pub type : Text
  pub visible : Bool
  pub display_path : Text
  pub preset_filters : List (Text × Text)
  pub passthrough_filters : Option (List Filter)
  pub adapter_key : Text
  pub source_id : Text
  pub ref_key : Option Text
  pub ref_id : Text
  pub meta_data : Option Text
  pub thing_node_external_ids : Option (List Text)

pub record StructureServiceSink : Type 0 where
  pub id : ℕ
  pub external_id : Text
  pub stakeholder_key : Text
  pub name : Text
  pub type : Text
  pub visible : Bool
  pub display_path : Text
  pub preset_filters : List (Text × Text)
  pub passthrough_filters : Option (List Filter)
  pub adapter_key : Text
  pub sink_id : Text
  pub ref_key : Option Text
  pub ref_id : Text
  pub meta_data : Option Text
  pub thing_node_external_ids : Option (List Text)

-- The validators of a source, once its filters are built.
unfoldable pub validate_source : Characters → StructureServiceSource → Result StructureServiceSource
unfolding check_common_fields passthrough_filters_no_duplicate_keys
    check_for_filter_name_conflicts_with_timestamp_filters
validate_source ch source = do
  check_common_fields source.external_id source.stakeholder_key source.name
  passthrough_filters_no_duplicate_keys source.passthrough_filters
  check_for_filter_name_conflicts_with_timestamp_filters ch source.type
      (map (λ preset. preset.0) source.preset_filters) source.passthrough_filters
  ok source

unfoldable pub validate_sink : StructureServiceSink → Result StructureServiceSink
unfolding check_common_fields passthrough_filters_no_duplicate_keys
validate_sink sink = do
  check_common_fields sink.external_id sink.stakeholder_key sink.name
  passthrough_filters_no_duplicate_keys sink.passthrough_filters
  ok sink

unfoldable pub validate_element_type :
    StructureServiceElementType → Result StructureServiceElementType
unfolding check_common_fields
validate_element_type e = do check_common_fields e.external_id e.stakeholder_key e.name; ok e

unfoldable pub validate_thing_node : StructureServiceThingNode → Result StructureServiceThingNode
unfolding check_common_fields
validate_thing_node node = do
  check_common_fields node.external_id node.stakeholder_key node.name
  ok node
