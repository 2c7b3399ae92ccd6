-- ===== src/Playback/Types.antt =====
-- internal/playback/types.go and the payloads of api/types that a session carries. Strings that
-- name a case are data types with one more constructor for any other text; a nil pointer is
-- `none`; an `int` that may be -1 is a ℤ, a time is a number of nanoseconds.
use ben_desktop.Base.{ℕ, String, Bool, true, false, Option, List}
use ben_desktop.Base.Int.{ℤ}

pub data RepeatMode : Type 0 where
  off all one : RepeatMode
  unknown : String → RepeatMode

pub data Status : Type 0 where
  idle paused playing pending : Status
  unknown : String → Status

pub data ContextKind : Type 0 where
  album playlist liked offline tracks recording custom : ContextKind
  unknown : String → ContextKind

pub data ContextRebasePolicy : Type 0 where
  frozen live : ContextRebasePolicy
  unknown : String → ContextRebasePolicy

pub data EntryOrigin : Type 0 where
  context queued : EntryOrigin
  unknown : String → EntryOrigin

pub data QueueInsertMode : Type 0 where
  next last unset : QueueInsertMode

pub data ResolutionMode : Type 0 where
  library explicit : ResolutionMode
  unknown : String → ResolutionMode

pub data PlaybackTargetResolution : Type 0 where
  preferred exact unset : PlaybackTargetResolution
  unknown : String → PlaybackTargetResolution

pub data CurrentLane : Type 0 where
  context user unset : CurrentLane

pub record PlaybackTargetRef : Type 0 where
  pub logical_recording_id : String
  pub exact_variant_recording_id : String
  pub resolution_policy : PlaybackTargetResolution

pub record PlaybackSourceAnchor : Type 0 where
  pub entry_key : String
  pub recording_id : String
  pub source_item_id : String

pub record PlaybackSourceDescriptor : Type 0 where
  pub kind : ContextKind
  pub id : String
  pub title : String
  pub rebase_policy : ContextRebasePolicy
  pub live : Bool

pub record SessionItem : Type 0 where
  pub library_recording_id : String
  pub variant_recording_id : String
  pub recording_id : String
  pub title : String
  pub subtitle : String
  pub duration_ms : ℤ
  pub artwork_ref : String
  pub source_kind : String
  pub source_id : String
  pub source_item_id : String
  pub album_id : String
  pub variant_album_id : String
  pub resolution_mode : ResolutionMode
  pub target : PlaybackTargetRef

pub record SessionEntry : Type 0 where
  pub entry_id : String
  pub origin : EntryOrigin
  pub context_index : ℤ
  pub item : SessionItem

pub record ContextQueue : Type 0 where
  pub kind : ContextKind
  pub id : String
  pub title : String
  pub entries : List SessionEntry
  pub start_index : ℤ
  pub current_index : ℤ
  pub resume_index : ℤ
  pub shuffle_bag : List ℤ
  pub has_before : Bool
  pub has_after : Bool
  pub window_start : ℤ
  pub window_count : ℤ
  pub total_count : ℤ
  pub live : Bool
  pub loading : Bool
  pub source_version : ℤ
  pub shuffle_seed : ℕ  -- uint64
  pub source : Option PlaybackSourceDescriptor
  pub anchor : Option PlaybackSourceAnchor
  pub all_entries : List SessionEntry

pub record QueuePlan : Type 0 where
  pub entry : Option SessionEntry
  pub lane : CurrentLane
  pub planned : Bool

pub record PlaybackPreparationStatus : Type 0 where
  pub library_recording_id : String
  pub variant_recording_id : String
  pub recording_id : String
  pub preferred_profile : String
  pub purpose : String
  pub phase : String
  pub source_kind : String
  pub reason : String
  pub playable_uri : String
  pub encoding_id : String
  pub blob_id : String
  pub updated_at : ℕ

pub record RecordingPlaybackAvailability : Type 0 where
  pub library_recording_id : String
  pub variant_recording_id : String
  pub recording_id : String
  pub preferred_profile : String
  pub pinned : Bool
  pub state : String
  pub source_kind : String
  pub local_path : String
  pub reason : String

pub record EntryPreparation : Type 0 where
  pub entry_id : String
  pub status : PlaybackPreparationStatus

pub record PlaybackSkipEvent : Type 0 where
  pub event_id : String
  pub message : String
  pub count : ℤ
  pub stopped : Bool
  pub first_entry : Option SessionEntry
  pub occurred_at : String

-- The map `EntryAvailability` is an association list.
pub record SessionSnapshot : Type 0 where
  pub context_queue : Option ContextQueue
  pub user_queue : List SessionEntry
  pub current_entry_id : String
  pub current_entry : Option SessionEntry
  pub current_item : Option SessionItem
  pub loading_entry : Option SessionEntry
  pub loading_item : Option SessionItem
  pub upcoming_entries : List SessionEntry
  pub current_lane : CurrentLane
  pub next_planned : Option QueuePlan
  pub preloaded_plan : Option QueuePlan
  pub repeat_mode : RepeatMode
  pub shuffle : Bool
  pub volume : ℤ
  pub status : Status
  pub position_ms : ℤ
  pub position_captured_at_ms : ℤ
  pub duration_ms : Option ℤ
  pub updated_at : String
  pub last_error : String
  pub current_source_kind : String
  pub current_preparation : Option EntryPreparation
  pub loading_preparation : Option EntryPreparation
  pub next_preparation : Option EntryPreparation
  pub entry_availability : List (String × RecordingPlaybackAvailability)
  pub last_skip_event : Option PlaybackSkipEvent
  pub queue_length : ℤ
  pub next_entry_seq : ℤ
  pub queue_version : ℤ

abbrev pub is_repeat_all : RepeatMode → Bool
is_repeat_all RepeatMode.all = true
is_repeat_all _ = false

abbrev pub is_repeat_one : RepeatMode → Bool
is_repeat_one RepeatMode.one = true
is_repeat_one _ = false

abbrev pub is_context : EntryOrigin → Bool
is_context EntryOrigin.context = true
is_context _ = false

abbrev pub is_queued : EntryOrigin → Bool
is_queued EntryOrigin.queued = true
is_queued _ = false

-- Go's zero values.
abbrev pub zero_item : SessionItem
zero_item = record {
  library_recording_id = "";
  variant_recording_id = "";
  recording_id = "";
  title = "";
  subtitle = "";
  duration_ms = ℤ.pos 0;
  artwork_ref = "";
  source_kind = "";
  source_id = "";
  source_item_id = "";
  album_id = "";
  variant_album_id = "";
  resolution_mode = ResolutionMode.unknown "";
  target = record {
    logical_recording_id = "";
    exact_variant_recording_id = "";
    resolution_policy = PlaybackTargetResolution.unset;
  };
}

abbrev pub zero_entry : SessionEntry
zero_entry = record {
  entry_id = "";
  origin = EntryOrigin.unknown "";
  context_index = ℤ.pos 0;
  item = zero_item;
}
