-- ===== src/Revision/Lifecycle.antt =====
-- The construction of a `TransformationRevision`, with its validators in the order of the fields, and
-- the methods that change one. Assignment to a field validates that field and fits the io interface.
use hetida_designer.Prelude.{
  ℕ, Bool, true, false, not, Option, none, some, List, [], ◌∷◌, filter_by, any, Text, ◌==◌, text_eq,
  if◌then◌else◌, Result, ok, ◌>>=◌,
}
use hetida_designer.Io.{Python}
use hetida_designer.Operator.{State, released, disabled}
use hetida_designer.Revision.{
  Content, IoInterface, AdapterId, adapter_id_eq, Wiring, WorkflowWiring, TransformationRevision,
  version_tag_not_latest, disabled_timestamp_requires_released_timestamp,
  timestamps_set_corresponding_to_state, io_interface_no_names_empty, validate_content,
}
use hetida_designer.Revision.Fit.{io_interface_fits_to_content}

-- What the models' validators call of Python's library.
pub record Library : Type 0 where
  pub python : Python
  pub lower : Text → Text

-- the revision with other lifecycle fields
abbrev pub with_state :
    TransformationRevision
    → Option ℕ
    → Option ℕ
    → State
    → Option WorkflowWiring
    → TransformationRevision
with_state r disabled_timestamp released_timestamp state release_wiring = record {
  id = r.id;
  revision_group_id = r.revision_group_id;
  name = r.name;
  description = r.description;
  category = r.category;
  version_tag = r.version_tag;
  disabled_timestamp = disabled_timestamp;
  released_timestamp = released_timestamp;
  state = state;
  type = r.type;
  io_interface = r.io_interface;
  documentation = r.documentation;
  content = r.content;
  test_wiring = r.test_wiring;
  release_wiring = release_wiring;
}

-- the revision with another content and io interface
abbrev pub with_content : TransformationRevision → Content → IoInterface → TransformationRevision
with_content r content io_interface = record {
  id = r.id;
  revision_group_id = r.revision_group_id;
  name = r.name;
  description = r.description;
  category = r.category;
  version_tag = r.version_tag;
  disabled_timestamp = r.disabled_timestamp;
  released_timestamp = r.released_timestamp;
  state = r.state;
  type = r.type;
  io_interface = io_interface;
  documentation = r.documentation;
  content = content;
  test_wiring = r.test_wiring;
  release_wiring = r.release_wiring;
}

-- the revision with other wirings
abbrev pub with_wirings :
    TransformationRevision → WorkflowWiring → Option WorkflowWiring → TransformationRevision
with_wirings r test_wiring release_wiring = record {
  id = r.id;
  revision_group_id = r.revision_group_id;
  name = r.name;
  description = r.description;
  category = r.category;
  version_tag = r.version_tag;
  disabled_timestamp = r.disabled_timestamp;
  released_timestamp = r.released_timestamp;
  state = r.state;
  type = r.type;
  io_interface = r.io_interface;
  documentation = r.documentation;
  content = r.content;
  test_wiring = test_wiring;
  release_wiring = release_wiring;
}

-- `[w for w in wirings if (w.adapter_id in ids) is keep]`, if there are ids
unfoldable pub strip_ids : Bool → List AdapterId → List Wiring → List Wiring
strip_ids keep [] wirings = wirings
strip_ids keep (id ∷ ids) wirings =
    filter_by
      (λ w.
        if keep
        then any (λ i. i == w.adapter_id) (id ∷ ids)
        else not (any (λ i. i == w.adapter_id) (id ∷ ids)))
      wirings

abbrev pub strip_wiring_ids : List AdapterId → List AdapterId → WorkflowWiring → WorkflowWiring
strip_wiring_ids strip keep wiring = record {
  input_wirings = strip_ids true keep (strip_ids false strip wiring.input_wirings);
  output_wirings = strip_ids true keep (strip_ids false strip wiring.output_wirings);
  dashboard_positionings = wiring.dashboard_positionings;
}

-- `WorkflowWiring()`; the empty list in JSON
abbrev pub no_wiring : WorkflowWiring
no_wiring = record {
  input_wirings = [];
  output_wirings = [];
  dashboard_positionings = 91 ∷ 93 ∷ [];
}

-- The arguments of `strip_wirings`; no set is the empty set.
pub record StripWirings : Type 0 where
  pub strip_wiring : Bool
  pub strip_release_wiring : Bool
  pub strip_wirings_with_adapter_ids : List AdapterId
  pub keep_only_wirings_with_adapter_ids : List AdapterId
  pub strip_release_wirings_with_adapter_ids : List AdapterId
  pub keep_only_release_wirings_with_adapter_ids : List AdapterId

abbrev pub strip_release :
    List AdapterId → List AdapterId → Option WorkflowWiring → Option WorkflowWiring
strip_release strip keep none = none
strip_release strip keep (some wiring) = some (strip_wiring_ids strip keep wiring)

-- Without the fitting of the io interface that each assignment to a field runs again.
unfoldable pub strip_wirings : StripWirings → TransformationRevision → TransformationRevision
unfolding strip_ids
strip_wirings a r =
    with_wirings r
      (strip_wiring_ids a.strip_wirings_with_adapter_ids a.keep_only_wirings_with_adapter_ids
        (if a.strip_wiring then no_wiring else r.test_wiring))
      (strip_release a.strip_release_wirings_with_adapter_ids
        a.keep_only_release_wirings_with_adapter_ids
        (if a.strip_release_wiring then none else r.release_wiring))

module _ (library : Library) where
  -- `TransformationRevision(**fields)` and `TransformationRevision.model_validate`. The content is a
  -- `WorkflowContent` already: its own validators, which run when it is parsed, are those of Content.
  unfoldable pub model_validate : TransformationRevision → Result TransformationRevision
  unfolding version_tag_not_latest disabled_timestamp_requires_released_timestamp
      timestamps_set_corresponding_to_state io_interface_no_names_empty validate_content
      io_interface_fits_to_content
  model_validate r = do
    tag ← version_tag_not_latest library.lower r.version_tag
    let released_timestamp =
        disabled_timestamp_requires_released_timestamp r.disabled_timestamp r.released_timestamp
    state ← timestamps_set_corresponding_to_state r.disabled_timestamp released_timestamp r.state
    io_interface ← io_interface_no_names_empty state r.io_interface
    content ← validate_content r.type state r.content
    fitted ← io_interface_fits_to_content library.python content io_interface
    ok (
        with_content (with_state r r.disabled_timestamp released_timestamp state r.release_wiring)
          content fitted)

  -- `r.content = content`
  unfoldable pub assign_content : Content → TransformationRevision → Result TransformationRevision
  unfolding validate_content io_interface_fits_to_content
  assign_content content r = do
    valid ← validate_content r.type r.state content
    fitted ← io_interface_fits_to_content library.python valid r.io_interface
    ok (with_content r valid fitted)

  -- the io interface after an assignment to another field
  unfoldable pub refit : TransformationRevision → Result TransformationRevision
  unfolding io_interface_fits_to_content
  refit r = do
    fitted ← io_interface_fits_to_content library.python r.content r.io_interface
    ok (with_content r r.content fitted)

  -- `r.state = state`
  unfoldable pub assign_state : State → TransformationRevision → Result TransformationRevision
  unfolding timestamps_set_corresponding_to_state refit
  assign_state state r = do
    valid ← timestamps_set_corresponding_to_state r.disabled_timestamp r.released_timestamp state
    refit (with_state r r.disabled_timestamp r.released_timestamp valid r.release_wiring)

  -- `now` is what `datetime.now` returns. The validated copy of the end is dropped.
  unfoldable pub release : ℕ → TransformationRevision → Result TransformationRevision
  unfolding refit assign_state model_validate
  release now r = do
    dated ← refit (with_state r r.disabled_timestamp (some now) r.state r.release_wiring)
    wired ← refit (
        with_state dated dated.disabled_timestamp dated.released_timestamp dated.state
          (some dated.test_wiring))
    final ← assign_state released wired
    copy ← model_validate final
    ok final

  unfoldable pub deprecate : ℕ → TransformationRevision → Result TransformationRevision
  unfolding refit assign_state model_validate
  deprecate now r = do
    dated ← refit (with_state r (some now) r.released_timestamp r.state r.release_wiring)
    final ← assign_state disabled dated
    copy ← model_validate final
    ok final
