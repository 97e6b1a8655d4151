-- ===== src/Structure/Stored/Roundtrip.antt =====
-- What is stored reads back: filters, and the four classes.
use hetida_designer.Prelude.{
  ◌≡◌, refl, subst, true, ◌&&◌, ◌||◌, Option, none, some, List, [], ◌∷◌, map, Text, ok, >>=-eq-ok,
  >>-require, >>-ok_iff, invalid_filter_name, invalid_internal_name, check_unseen, ok-injective,
}
use hetida_designer.Structure.Filters.{
  Characters, Filter, FilterValues, all_of, has_content, make_filter, or_empty,
  name_not_empty_only_alphanum_underscores_spaces, internal_name_only_alphanum_and_underscores,
  generate_internal_name_if_not_provided, passthrough_filters_no_duplicate_keys,
  check_for_filter_name_conflicts_with_timestamp_filters,
}
use hetida_designer.Structure.Entities.{
  StructureServiceElementType, StructureServiceThingNode, StructureServiceSource,
  StructureServiceSink, check_common_fields, validate_element_type, validate_thing_node,
  validate_source, validate_sink,
}
use hetida_designer.Structure.Stored.{
  dump_filter, dump_filters, make_filters, load_filters, element_type_to_orm_model,
  element_type_from_orm_model, thing_node_to_orm_model, thing_node_from_orm_model,
  source_to_orm_model, source_from_orm_model, sink_to_orm_model, sink_from_orm_model,
}

-- A generated or given name that is accepted has a character, so that it is not generated again.
given_name :
    (ch : Characters) (f : Filter)
    → all_of ch.is_word f.internal_name ≡ true
    → generate_internal_name_if_not_provided ch (dump_filter f) ≡ f.internal_name
unfolding all_of generate_internal_name_if_not_provided
given_name ch f h = go f.internal_name h
  where
    go :
        (name : Text)
        → all_of ch.is_word name ≡ true
        → generate_internal_name_if_not_provided ch (record {
          name = f.name;
          internal_name = some name;
          type = f.type;
          required = f.required;
        })
          ≡ name
    go [] h = cc
    go (c ∷ cs) h = refl

name-eq :
    (ch : Characters) (value : Text) {name : Text}
    → name_not_empty_only_alphanum_underscores_spaces ch value ≡ ok name
    → value ≡ name
unfolding name_not_empty_only_alphanum_underscores_spaces
name-eq ch value run =
    let (h, same) =
      >>-require (all_of (λ c. ch.is_word c || ch.is_re_space c) value && has_content ch value)
        invalid_filter_name (ok value) run in
    cc same

internal_name-eq :
    (ch : Characters) (value : Text) {name : Text}
    → internal_name_only_alphanum_and_underscores ch value ≡ ok name
    → (value ≡ name) × (all_of ch.is_word name ≡ true)
unfolding internal_name_only_alphanum_and_underscores
internal_name-eq ch value {name} run =
    let (h, same) = >>-require (all_of ch.is_word value) invalid_internal_name (ok value) run in
    let e = inside same in (e, rw e at h)
  where
    inside : ok value ≡ ok name → value ≡ name
    inside same = cc

rebuilt :
    (ch : Characters) (f : Filter)
    → name_not_empty_only_alphanum_underscores_spaces ch f.name ≡ ok f.name
    → internal_name_only_alphanum_and_underscores ch f.internal_name ≡ ok f.internal_name
    → make_filter ch (dump_filter f) ≡ ok f
unfolding make_filter
rebuilt ch f n i = rw (n, given_name ch f ((internal_name-eq ch f.internal_name i).1), i) refl

-- A filter that was built is built again from what is stored of it.
pub make_filter-dump_filter :
    (ch : Characters) (values : FilterValues) {f : Filter}
    → make_filter ch values ≡ ok f
    → make_filter ch (dump_filter f) ≡ ok f
unfolding make_filter
make_filter-dump_filter ch values {f} run =
    let (name, n, r1) =
      >>=-eq-ok (name_not_empty_only_alphanum_underscores_spaces ch values.name) _ run in
    let (internal_name, i, r2) =
      >>=-eq-ok
        (internal_name_only_alphanum_and_underscores ch
          (generate_internal_name_if_not_provided ch values))
        _ r1 in
    subst (λ g. make_filter ch (dump_filter g) ≡ ok g) (ok-injective r2)
      (rebuilt ch
        (record {
          name = name;
          internal_name = internal_name;
          type = values.type;
          required = values.required;
        })
        (rw (name-eq ch values.name n) at n)
        (rw ((internal_name-eq ch (generate_internal_name_if_not_provided ch values) i).0) at i))

make_filters-map :
    (ch : Characters) (values : List FilterValues) {fs : List Filter}
    → make_filters ch values ≡ ok fs
    → make_filters ch (map dump_filter fs) ≡ ok fs
unfolding make_filters
make_filters-map ch [] {fs} run = rw (← ok-injective run) refl
make_filters-map ch (v ∷ values) run =
    let (g, first, r1) = >>=-eq-ok (make_filter ch v) _ run in
    let (gs, rest, same) = >>=-eq-ok (make_filters ch values) _ r1 in
    subst (λ hs. make_filters ch (map dump_filter hs) ≡ ok hs) (ok-injective same)
      (rw (make_filter-dump_filter ch v first, make_filters-map ch values rest) refl)

-- What is stored for no filters.
abbrev stored_filters : Option (List Filter) → Option (List Filter)
stored_filters none = none
stored_filters (some []) = none
stored_filters (some (f ∷ fs)) = some (f ∷ fs)

load_filters-dump_filters :
    (ch : Characters) (values : Option (List FilterValues)) {fs : Option (List Filter)}
    → load_filters ch values ≡ ok fs
    → load_filters ch (dump_filters fs) ≡ ok (stored_filters fs)
unfolding load_filters dump_filters
load_filters-dump_filters ch none {fs} run = rw (← ok-injective run) refl
load_filters-dump_filters ch (some values) run =
    let (gs, built, same) = >>=-eq-ok (make_filters ch values) _ run in
    subst (λ hs. load_filters ch (dump_filters hs) ≡ ok (stored_filters hs)) (ok-injective same)
      (go gs (make_filters-map ch values built))
  where
    go :
        (gs : List Filter)
        → make_filters ch (map dump_filter gs) ≡ ok gs
        → load_filters ch (dump_filters (some gs)) ≡ ok (stored_filters (some gs))
    go [] h = refl
    go (g ∷ gs) h = rw h refl

-- The source with what its stored form keeps: no list in place of an empty list of filters, and an
-- empty list of ids in place of none.
abbrev pub stored_source : StructureServiceSource → StructureServiceSource
stored_source x = record {
  id = x.id;
  external_id = x.external_id;
  stakeholder_key = x.stakeholder_key;
  name = x.name;
  type = x.type;
  visible = x.visible;
  display_path = x.display_path;
  preset_filters = x.preset_filters;
  passthrough_filters = stored_filters x.passthrough_filters;
  adapter_key = x.adapter_key;
  source_id = x.source_id;
  ref_key = x.ref_key;
  ref_id = x.ref_id;
  meta_data = x.meta_data;
  thing_node_external_ids = some (or_empty x.thing_node_external_ids);
}

abbrev pub stored_sink : StructureServiceSink → StructureServiceSink
stored_sink x = record {
  id = x.id;
  external_id = x.external_id;
  stakeholder_key = x.stakeholder_key;
  name = x.name;
  type = x.type;
  visible = x.visible;
  display_path = x.display_path;
  preset_filters = x.preset_filters;
  passthrough_filters = stored_filters x.passthrough_filters;
  adapter_key = x.adapter_key;
  sink_id = x.sink_id;
  ref_key = x.ref_key;
  ref_id = x.ref_id;
  meta_data = x.meta_data;
  thing_node_external_ids = some (or_empty x.thing_node_external_ids);
}

stored_no_duplicates :
    (fs : Option (List Filter))
    → passthrough_filters_no_duplicate_keys (stored_filters fs)
      ≡ passthrough_filters_no_duplicate_keys fs
unfolding passthrough_filters_no_duplicate_keys check_unseen
stored_no_duplicates none = refl
stored_no_duplicates (some []) = refl
stored_no_duplicates (some (f ∷ fs)) = refl

stored_no_conflicts :
    (ch : Characters) (type : Text) (keys : List Text) (fs : Option (List Filter))
    → check_for_filter_name_conflicts_with_timestamp_filters ch type keys (stored_filters fs)
      ≡ check_for_filter_name_conflicts_with_timestamp_filters ch type keys fs
unfolding check_for_filter_name_conflicts_with_timestamp_filters
stored_no_conflicts ch type keys none = refl
stored_no_conflicts ch type keys (some []) = refl
stored_no_conflicts ch type keys (some (f ∷ fs)) = refl

-- A source that was built, its filters and then itself validated, is read back from its stored form
-- as it was, but for an empty list of filters, which is read as none, and missing ids of thing nodes,
-- which are read as the empty list.
pub source_from_orm_model-source_to_orm_model :
    (ch : Characters) (x : StructureServiceSource) (values : Option (List FilterValues))
    → load_filters ch values ≡ ok x.passthrough_filters
    → validate_source ch x ≡ ok x
    → source_from_orm_model ch (source_to_orm_model x) ≡ ok (stored_source x)
unfolding source_from_orm_model source_to_orm_model validate_source
source_from_orm_model-source_to_orm_model ch x values filters valid =
    let (common, r1) =
      (>>-ok_iff (check_common_fields x.external_id x.stakeholder_key x.name) _).0 valid in
    let (unique, r2) =
      (>>-ok_iff (passthrough_filters_no_duplicate_keys x.passthrough_filters) _).0 r1 in
    let (free, r3) =
      (>>-ok_iff
          (check_for_filter_name_conflicts_with_timestamp_filters ch x.type
            (map (λ preset. preset.0) x.preset_filters) x.passthrough_filters)
          (ok x)).0
        r2 in
    rw
      (
        load_filters-dump_filters ch values filters,
        stored_no_duplicates x.passthrough_filters,
        stored_no_conflicts ch x.type (map (λ preset. preset.0) x.preset_filters)
            x.passthrough_filters,
        common,
        unique,
        free,
      )
      refl

-- A sink that was built is read back from its stored form in the same way.
pub sink_from_orm_model-sink_to_orm_model :
    (ch : Characters) (x : StructureServiceSink) (values : Option (List FilterValues))
    → load_filters ch values ≡ ok x.passthrough_filters
    → validate_sink x ≡ ok x
    → sink_from_orm_model ch (sink_to_orm_model x) ≡ ok (stored_sink x)
unfolding sink_from_orm_model sink_to_orm_model validate_sink
sink_from_orm_model-sink_to_orm_model ch x values filters valid =
    let (common, r1) =
      (>>-ok_iff (check_common_fields x.external_id x.stakeholder_key x.name) _).0 valid in
    let (unique, r2) =
      (>>-ok_iff (passthrough_filters_no_duplicate_keys x.passthrough_filters) (ok x)).0 r1 in
    rw
      (
        load_filters-dump_filters ch values filters,
        stored_no_duplicates x.passthrough_filters,
        common,
        unique,
      )
      refl

-- Element types and thing nodes that were validated are read back as they were.
pub element_type_from_orm_model-element_type_to_orm_model :
    (x : StructureServiceElementType)
    → validate_element_type x ≡ ok x
    → element_type_from_orm_model (element_type_to_orm_model x) ≡ ok x
unfolding element_type_from_orm_model element_type_to_orm_model
element_type_from_orm_model-element_type_to_orm_model x valid = rw valid refl

pub thing_node_from_orm_model-thing_node_to_orm_model :
    (x : StructureServiceThingNode)
    → validate_thing_node x ≡ ok x
    → thing_node_from_orm_model (thing_node_to_orm_model x) ≡ ok x
unfolding thing_node_from_orm_model thing_node_to_orm_model
thing_node_from_orm_model-thing_node_to_orm_model x valid = rw valid refl
