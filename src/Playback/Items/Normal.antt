-- ===== src/Playback/Items/Normal.antt =====
-- internal/playback/mapping.go: the form of a normalised item, and that it is reached once.
use ben_desktop.Base.{
  String, false, ◌≡◌, refl, ap, some, List, [], ◌∷◌, All, is_blank, trim_space,
  trim_space-trim_space, trim_space_blank, Bool-cases, inl, inr,
}
use ben_desktop.Playback.Types.{ResolutionMode, PlaybackTargetResolution, SessionItem}
use ben_desktop.Playback.Items.{
  first_non_empty, trim_item, or_else, resolved_policy, fill_item, name_recording, normalize_item,
  normalize_items,
}

abbrev IsTrimmed : String → Type 0
IsTrimmed s = trim_space s ≡ s

abbrev HasInk : String → Type 0
HasInk s = is_blank s ≡ false

-- Texts without white space around them, and nothing left empty that playback needs.
pub record IsNormal (i : SessionItem) : Type 0 where
  pub library_recording_id : IsTrimmed i.library_recording_id
  pub variant_recording_id : IsTrimmed i.variant_recording_id
  pub recording_id : IsTrimmed i.recording_id
  pub title : IsTrimmed i.title
  pub subtitle : IsTrimmed i.subtitle
  pub artwork_ref : IsTrimmed i.artwork_ref
  pub source_kind : IsTrimmed i.source_kind
  pub source_id : IsTrimmed i.source_id
  pub source_item_id : IsTrimmed i.source_item_id
  pub album_id : IsTrimmed i.album_id
  pub variant_album_id : IsTrimmed i.variant_album_id
  pub logical : IsTrimmed i.target.logical_recording_id
  pub exact : IsTrimmed i.target.exact_variant_recording_id
  pub has_recording : HasInk i.recording_id
  pub has_title : HasInk i.title
  pub has_artwork : HasInk i.artwork_ref
  pub has_logical : HasInk i.target.logical_recording_id
  pub has_exact : HasInk i.target.exact_variant_recording_id
  pub has_policy :
      resolved_policy i.target.resolution_policy i.resolution_mode ≡ i.target.resolution_policy

or_else-IsTrimmed : (a b : String) → IsTrimmed a → IsTrimmed b → IsTrimmed (or_else a b)
or_else-IsTrimmed a b p q = elim (Bool-cases (is_blank a)) [ inl h ↦ rw h q | inr h ↦ rw h p ]

or_else_ink : (a b : String) → HasInk b → HasInk (or_else a b)
or_else_ink a b q = elim (Bool-cases (is_blank a)) [ inl h ↦ rw h q | inr h ↦ rw h h ]

first_non_empty-IsTrimmed : (xs : List String) → IsTrimmed (first_non_empty xs)
unfolding first_non_empty
first_non_empty-IsTrimmed [] = trim_space_blank
first_non_empty-IsTrimmed (x ∷ xs) = elim (Bool-cases (is_blank (trim_space x))) [
  | inl h ↦ rw h (first_non_empty-IsTrimmed xs)
  | inr h ↦ rw h (trim_space-trim_space x)
]

first_non_empty_later :
    (x : String) (xs : List String)
    → HasInk (first_non_empty xs)
    → HasInk (first_non_empty (x ∷ xs))
unfolding first_non_empty
first_non_empty_later x xs p = elim (Bool-cases (is_blank (trim_space x))) [
  | inl h ↦ rw h p
  | inr h ↦ rw h h
]

first_non_empty_here :
    (x : String) (xs : List String) → IsTrimmed x → HasInk x → HasInk (first_non_empty (x ∷ xs))
unfolding first_non_empty
first_non_empty_here x xs t p = rw (t, p) p

resolved_policy-resolved_policy :
    (p : PlaybackTargetResolution) (m : ResolutionMode)
    → resolved_policy (resolved_policy p m) m ≡ resolved_policy p m
resolved_policy-resolved_policy PlaybackTargetResolution.unset ResolutionMode.library = refl
resolved_policy-resolved_policy PlaybackTargetResolution.unset ResolutionMode.explicit = refl
resolved_policy-resolved_policy PlaybackTargetResolution.unset (ResolutionMode.unknown s) = refl
resolved_policy-resolved_policy PlaybackTargetResolution.preferred m = refl
resolved_policy-resolved_policy PlaybackTargetResolution.exact m = refl
resolved_policy-resolved_policy (PlaybackTargetResolution.unknown s) m = refl

filled-IsNormal :
    (i : SessionItem)
    → HasInk (name_recording (trim_item i)).recording_id
    → IsNormal (fill_item (name_recording (trim_item i)))
unfolding fill_item name_recording trim_item
filled-IsNormal i h =
    let trimmed = λ (s : String). trim_space-trim_space s in
    let named_trimmed = or_else-IsTrimmed (trim_space i.recording_id) _ (trimmed i.recording_id) (
      first_non_empty-IsTrimmed
        (trim_space i.library_recording_id ∷ trim_space i.variant_recording_id ∷ [])) in
    let named = name_recording (trim_item i) in
    let last : List String = named.variant_recording_id ∷ [] in
    record {
      library_recording_id = trimmed i.library_recording_id;
      variant_recording_id = trimmed i.variant_recording_id;
      recording_id = named_trimmed;
      title = or_else-IsTrimmed (trim_space i.title) _ (trimmed i.title) named_trimmed;
      subtitle = trimmed i.subtitle;
      artwork_ref =
          or_else-IsTrimmed (trim_space i.artwork_ref) _ (trimmed i.artwork_ref) named_trimmed;
      source_kind = trimmed i.source_kind;
      source_id = trimmed i.source_id;
      source_item_id = trimmed i.source_item_id;
      album_id = trimmed i.album_id;
      variant_album_id = trimmed i.variant_album_id;
      logical =
          or_else-IsTrimmed (trim_space i.target.logical_recording_id) _
            (trimmed i.target.logical_recording_id)
            (first_non_empty-IsTrimmed (named.library_recording_id ∷ named.recording_id ∷ last));
      exact =
          or_else-IsTrimmed (trim_space i.target.exact_variant_recording_id) _
            (trimmed i.target.exact_variant_recording_id)
            (first_non_empty-IsTrimmed (named.variant_recording_id ∷ named.recording_id ∷ []));
      has_recording = h;
      has_title = or_else_ink (trim_space i.title) _ h;
      has_artwork = or_else_ink (trim_space i.artwork_ref) _ h;
      has_logical = or_else_ink (trim_space i.target.logical_recording_id) _ (
          first_non_empty_later named.library_recording_id (named.recording_id ∷ last)
            (first_non_empty_here named.recording_id last named_trimmed h));
      has_exact = or_else_ink (trim_space i.target.exact_variant_recording_id) _ (
          first_non_empty_later named.variant_recording_id (named.recording_id ∷ [])
            (first_non_empty_here named.recording_id [] named_trimmed h));
      has_policy = resolved_policy-resolved_policy i.target.resolution_policy i.resolution_mode;
    }

normalize_item_fixed : (i : SessionItem) → IsNormal i → normalize_item i ≡ some i
unfolding normalize_item fill_item name_recording trim_item
normalize_item_fixed i n = simp (
  n.library_recording_id, n.variant_recording_id, n.recording_id, n.title, n.subtitle,
  n.artwork_ref, n.source_kind, n.source_id, n.source_item_id, n.album_id, n.variant_album_id,
  n.logical, n.exact, n.has_recording, n.has_title, n.has_artwork, n.has_logical, n.has_exact,
  n.has_policy,
)

-- Every item that is kept is normal: its texts are trimmed, and it has a recording, a title, artwork
-- and a target.
pub normalize_items-IsNormal : (items : List SessionItem) → All IsNormal (normalize_items items)
unfolding normalize_items normalize_item
normalize_items-IsNormal [] = tt
normalize_items-IsNormal (i ∷ rest) =
    elim (Bool-cases (is_blank (name_recording (trim_item i)).recording_id)) [
      | inl blank ↦ rw blank (normalize_items-IsNormal rest)
      | inr ink ↦ rw ink (filled-IsNormal i ink, normalize_items-IsNormal rest)
    ]

normalize_items_fixed :
    (items : List SessionItem) → All IsNormal items → normalize_items items ≡ items
unfolding normalize_items
normalize_items_fixed [] n = refl
normalize_items_fixed (i ∷ rest) n =
    rw (normalize_item_fixed i n.0) (ap (λ l. i ∷ l) (normalize_items_fixed rest n.1))

-- To normalise twice is to normalise once.
pub normalize_items-normalize_items :
    (items : List SessionItem) → normalize_items (normalize_items items) ≡ normalize_items items
normalize_items-normalize_items items =
    normalize_items_fixed (normalize_items items) (normalize_items-IsNormal items)
