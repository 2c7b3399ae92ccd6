-- ===== src/Playback/Items.antt =====
-- internal/playback/mapping.go: what is made of the items that a caller hands in.
pub mod Normal
use ben_desktop.Base.{
  String, Bool, true, false, ◌≡◌, refl, Option, none, some, List, [], ◌∷◌, All, is_blank,
  trim_space, if◌then◌else◌,
}
use ben_desktop.Playback.Types.{
  ResolutionMode, PlaybackTargetResolution, PlaybackTargetRef, SessionItem,
}

unfoldable pub first_non_empty : List String → String
first_non_empty [] = ""
first_non_empty (value ∷ rest) =
    let next = first_non_empty rest in
    if is_blank (trim_space value) then next else trim_space value

abbrev trim_target : PlaybackTargetRef → PlaybackTargetRef
trim_target t = record t {
  logical_recording_id = trim_space t.logical_recording_id;
  exact_variant_recording_id = trim_space t.exact_variant_recording_id;
}

pub trim_item : SessionItem → SessionItem
trim_item i = record i {
  library_recording_id = trim_space i.library_recording_id;
  variant_recording_id = trim_space i.variant_recording_id;
  recording_id = trim_space i.recording_id;
  title = trim_space i.title;
  subtitle = trim_space i.subtitle;
  artwork_ref = trim_space i.artwork_ref;
  source_kind = trim_space i.source_kind;
  source_id = trim_space i.source_id;
  source_item_id = trim_space i.source_item_id;
  album_id = trim_space i.album_id;
  variant_album_id = trim_space i.variant_album_id;
  target = trim_target i.target;
}

abbrev pub or_else : String → String → String
or_else value default = if is_blank value then default else value

abbrev pub default_policy : ResolutionMode → PlaybackTargetResolution
default_policy ResolutionMode.explicit = PlaybackTargetResolution.exact
default_policy _ = PlaybackTargetResolution.preferred

abbrev pub resolved_policy : PlaybackTargetResolution → ResolutionMode → PlaybackTargetResolution
resolved_policy PlaybackTargetResolution.unset mode = default_policy mode
resolved_policy policy mode = policy

-- The defaults, once the recording is known.
pub fill_item : SessionItem → SessionItem
unfolding first_non_empty
fill_item i = record i {
  title = or_else i.title i.recording_id;
  artwork_ref = or_else i.artwork_ref i.recording_id;
  target = record {
    logical_recording_id =
        or_else i.target.logical_recording_id
          (first_non_empty (i.library_recording_id ∷ i.recording_id ∷ i.variant_recording_id ∷ []));
    exact_variant_recording_id =
        or_else i.target.exact_variant_recording_id
          (first_non_empty (i.variant_recording_id ∷ i.recording_id ∷ []));
    resolution_policy = resolved_policy i.target.resolution_policy i.resolution_mode;
  };
}

pub name_recording : SessionItem → SessionItem
unfolding first_non_empty
name_recording i = record i {
  recording_id =
      or_else i.recording_id
        (first_non_empty (i.library_recording_id ∷ i.variant_recording_id ∷ []));
}

-- One round of `NormalizeItems`; `none` is `continue`.
unfoldable pub normalize_item : SessionItem → Option SessionItem
unfolding trim_item fill_item name_recording
normalize_item i =
    let named = name_recording (trim_item i) in
    if is_blank named.recording_id then none else some (fill_item named)

abbrev pub cons_some : Option SessionItem → List SessionItem → List SessionItem
cons_some none rest = rest
cons_some (some i) rest = i ∷ rest

unfoldable pub normalize_items : List SessionItem → List SessionItem
unfolding normalize_item
normalize_items [] = []
normalize_items (i ∷ rest) = cons_some (normalize_item i) (normalize_items rest)

-- `normalizeSessionItem`
unfoldable pub normalize_session_item : SessionItem → SessionItem
unfolding normalize_item
normalize_session_item i = elim (normalize_item i) [ none ↦ i | some j ↦ j ]
