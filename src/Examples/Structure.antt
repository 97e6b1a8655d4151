-- ===== src/Examples/Structure.antt =====
-- A plant with a tank, a source and a sink, and examples for the virtual structure.
use hetida_designer.Prelude.{
  ℕ, ◌≡◌, ◌↔◌, refl, ap, arith, check_all, from_pairs, true, not, none, some, [], ◌∷◌, Memᴰ, Text,
  text_eq, name_eq, ◌==◌, nat_eq, ok, Text-discrete, Name-discrete, ℕ_discrete, check_unseen,
}
use hetida_designer.Structure.Filters.{
  Characters, Filter, FilterValues, free_text, make_filter, all_of,
  name_not_empty_only_alphanum_underscores_spaces, internal_name_only_alphanum_and_underscores,
  generate_internal_name_if_not_provided, split_words, join_words, strip_left, strip_right,
  passthrough_filters_no_duplicate_keys, check_for_filter_name_conflicts_with_timestamp_filters,
  contains_text, starts_with, is_timestamp_name,
}
use hetida_designer.Structure.Entities.{
  StructureServiceElementType, StructureServiceThingNode, StructureServiceSource,
  StructureServiceSink, validate_source, validate_sink, check_common_fields, check_not_empty,
}
use hetida_designer.Structure.Stored.{
  load_filters, make_filters, source_to_orm_model, source_from_orm_model, sink_to_orm_model,
  sink_from_orm_model,
}
use hetida_designer.Structure.Stored.Roundtrip.{
  stored_source, stored_sink, source_from_orm_model-source_to_orm_model,
  sink_from_orm_model-sink_to_orm_model,
}
use hetida_designer.Structure.Complete.{
  CompleteStructure, Pair-discrete, check_stakeholder_key_consistency, check_for_circular_reference,
  validate_complete_structure,
}
use hetida_designer.Structure.Hierarchy.{Descends, HasUniqueIds}
use hetida_designer.Structure.Hierarchy.Keys.{check_stakeholder_key_consistency_iff}
use hetida_designer.Structure.Hierarchy.Circular.{Ends, HasIds, check_for_circular_reference_iff}
use hetida_designer.Structure.Valid.{IsValidStructure, validate_complete_structure_iff}

abbrev characters : Characters
characters = record {
  is_word = λ c. not (c == 32);
  is_re_space = λ c. c == 32;
  is_space = λ c. c == 32;
  lower = λ text. text;
}

abbrev key : Text
key = 107 ∷ []

abbrev plant : StructureServiceThingNode
plant = record {
  id = 1;
  external_id = 112 ∷ [];
  stakeholder_key = key;
  name = 112 ∷ [];
  description = [];
  parent_node_id = none;
  parent_external_node_id = none;
  element_type_id = 9;
  element_type_external_id = 101 ∷ [];
  meta_data = none;
}

abbrev tank : StructureServiceThingNode
tank = record {
  id = 2;
  external_id = 116 ∷ [];
  stakeholder_key = key;
  name = 116 ∷ [];
  description = [];
  parent_node_id = some 1;
  parent_external_node_id = some (112 ∷ []);
  element_type_id = 9;
  element_type_external_id = 101 ∷ [];
  meta_data = none;
}

-- The name has a space, so that the generated name joins two words.
abbrev values : FilterValues
values = record {
  name = 97 ∷ 32 ∷ 98 ∷ [];
  internal_name = none;
  type = free_text;
  required = true;
}

abbrev filter : Filter
filter = record {
  name = 97 ∷ 32 ∷ 98 ∷ [];
  internal_name = 97 ∷ 95 ∷ 98 ∷ [];
  type = free_text;
  required = true;
}

abbrev level : StructureServiceSource
level = record {
  id = 3;
  external_id = 108 ∷ [];
  stakeholder_key = key;
  name = 108 ∷ [];
  type = 102 ∷ [];
  visible = true;
  display_path = [];
  preset_filters = [];
  passthrough_filters = some (filter ∷ []);
  adapter_key = 97 ∷ [];
  source_id = 115 ∷ [];
  ref_key = none;
  ref_id = 114 ∷ [];
  meta_data = none;
  thing_node_external_ids = some ((116 ∷ []) ∷ []);
}

abbrev alarm : StructureServiceSink
alarm = record {
  id = 4;
  external_id = 109 ∷ [];
  stakeholder_key = key;
  name = 109 ∷ [];
  type = 102 ∷ [];
  visible = true;
  display_path = [];
  preset_filters = [];
  passthrough_filters = some (filter ∷ []);
  adapter_key = 97 ∷ [];
  sink_id = 115 ∷ [];
  ref_key = none;
  ref_id = 114 ∷ [];
  meta_data = none;
  thing_node_external_ids = none;
}

abbrev kind : StructureServiceElementType
kind = record {
  id = 9;
  external_id = 101 ∷ [];
  stakeholder_key = key;
  name = 101 ∷ [];
  description = none;
}

abbrev site : CompleteStructure
site = record {
  element_types = kind ∷ [];
  thing_nodes = plant ∷ tank ∷ [];
  sources = level ∷ [];
  sinks = [];
}

abbrev first : Text → ℕ
first [] = 0
first (c ∷ cs) = c

site-HasUniqueIds : HasUniqueIds (plant ∷ tank ∷ [])
site-HasUniqueIds = (((λ same. omega (arith, ap first same)), tt), (tt, tt))

site-HasIds : HasIds (plant ∷ tank ∷ [])
site-HasIds n (Memᴰ.head e) = rw e (λ same. cc)
site-HasIds n (Memᴰ.tail (Memᴰ.head e)) = rw e (λ same. cc)
site-HasIds n (Memᴰ.tail (Memᴰ.tail m)) = elim m [ ]

check_stakeholder_key_consistency_iff_example : (check_stakeholder_key_consistency site ≡ ok tt) ↔ (
    (root n : StructureServiceThingNode)
    → Memᴰ root (plant ∷ tank ∷ [])
    → root.parent_external_node_id ≡ none
    → Descends (plant ∷ tank ∷ []) root n
    → n.stakeholder_key ≡ root.stakeholder_key)
check_stakeholder_key_consistency_iff_example =
    check_stakeholder_key_consistency_iff site site-HasUniqueIds

check_for_circular_reference_iff_example :
    (check_for_circular_reference site ≡ ok tt)
    ↔ ((n : StructureServiceThingNode) → Memᴰ n (plant ∷ tank ∷ []) → Ends (plant ∷ tank ∷ []) n)
check_for_circular_reference_iff_example =
    check_for_circular_reference_iff site site-HasUniqueIds site-HasIds

validate_complete_structure_iff_example :
    (validate_complete_structure site ≡ ok site) ↔ IsValidStructure site
validate_complete_structure_iff_example =
    validate_complete_structure_iff site site-HasUniqueIds site-HasIds

built_filters : load_filters characters (some (values ∷ [])) ≡ ok (some (filter ∷ []))
unfolding load_filters make_filters make_filter all_of
    name_not_empty_only_alphanum_underscores_spaces internal_name_only_alphanum_and_underscores
    generate_internal_name_if_not_provided split_words join_words strip_left strip_right ℕ_discrete
built_filters = refl

valid_source : validate_source characters level ≡ ok level
unfolding validate_source check_common_fields check_not_empty passthrough_filters_no_duplicate_keys
    check_unseen check_for_filter_name_conflicts_with_timestamp_filters contains_text starts_with
    is_timestamp_name ℕ_discrete
valid_source = refl

valid_sink : validate_sink alarm ≡ ok alarm
unfolding validate_sink check_common_fields check_not_empty passthrough_filters_no_duplicate_keys
    check_unseen
valid_sink = refl

source_from_orm_model-source_to_orm_model_example :
    source_from_orm_model characters (source_to_orm_model level) ≡ ok (stored_source level)
source_from_orm_model-source_to_orm_model_example =
    source_from_orm_model-source_to_orm_model characters level (some (values ∷ [])) built_filters
      valid_source

sink_from_orm_model-sink_to_orm_model_example :
    sink_from_orm_model characters (sink_to_orm_model alarm) ≡ ok (stored_sink alarm)
sink_from_orm_model-sink_to_orm_model_example =
    sink_from_orm_model-sink_to_orm_model characters alarm (some (values ∷ [])) built_filters
      valid_sink

-- The validators run.
validates : validate_complete_structure site ≡ ok site
unfolding validate_complete_structure check_all Text-discrete ℕ_discrete check_unseen Pair-discrete
    Name-discrete from_pairs
validates = refl
