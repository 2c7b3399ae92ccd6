-- ===== src/Playback/Session.antt =====
-- internal/playback/session.go: the state of a session under its lock, and the steps that every
-- operation is made of.
pub mod Queue
pub mod Planning
pub mod Reshuffle
use ben_desktop.Base.{
  ℕ, suc, ◌+◌, ◌%◌, ◌^◌, String, Bool, true, false, Option, none, some, List, [], ◌∷◌, ◌++◌, ◌&&◌,
  ◌||◌, not, map, length, get_elem?, get_or, remove_at, insert_at, ltb, leb, ◌==◌, if◌then◌else◌,
  is_blank, trim_space, str_eq,
}
use ben_desktop.Base.Int.{ℤ, pos, negsuc, ◌+ℤ◌, pos_part}
use ben_desktop.Playback.Types.{
  RepeatMode, Status, ContextKind, ContextRebasePolicy, EntryOrigin, SessionItem, SessionEntry,
  ContextQueue, QueuePlan, SessionSnapshot, PlaybackPreparationStatus,
  RecordingPlaybackAvailability, PlaybackSourceDescriptor, PlaybackSourceAnchor, is_context,
  is_queued,
}
use ben_desktop.Playback.Platform.{Platform, format_timestamp}
use ben_desktop.Playback.Context.{context_all_entries, shuffle_anchor_index}
use ben_desktop.Playback.Shuffle.{build_anchored_cycle}
use ben_desktop.Playback.Navigation.{normalize_resume_context_index}
use ben_desktop.Playback.Previous.{PlannedCandidate}
use ben_desktop.Playback.Window.{refresh_context_window}
use ben_desktop.Playback.Normalize.{
  normalize_snapshot, derive_current_lane, build_queue_plan_from_snapshot, find_entry_by_id,
  planned_entry, option_map, is_none, clear_context_shuffle_state,
}

pub record BackendActivationRef : Type 0 where
  pub uri : String
  pub playlist_entry_id : ℤ
  pub playlist_pos : ℤ
  pub attempt_id : ℕ

pub record SourceIdentity : Type 0 where
  pub kind : ContextKind
  pub id : String
  pub rebase_policy : ContextRebasePolicy
  pub live : Bool
  pub anchor_mode : String

pub data TransportTransitionKind : Type 0 where
  direct_load activate_preloaded : TransportTransitionKind

pub record TransportTransition : Type 0 where
  pub token : ℕ
  pub entry : SessionEntry
  pub origin : EntryOrigin
  pub queue_index : ℤ
  pub previous : Option SessionEntry
  pub playable_uri : String
  pub activation : BackendActivationRef
  pub status : PlaybackPreparationStatus
  pub source_identity : SourceIdentity
  pub kind : TransportTransitionKind

pub record NextActionPlan : Type 0 where
  pub version : ℤ
  pub queue_version : ℤ
  pub source_version : ℤ
  pub current_entry_id : String
  pub repeat_mode : RepeatMode
  pub shuffle : Bool
  pub transport_token : ℕ
  pub pending_entry_id : String
  pub pending_origin : EntryOrigin
  pub pending_queue_idx : ℤ
  pub candidates : List PlannedCandidate

module _ (P : Platform) where
  -- The part of `Session` that the operations below read or write. `backend_preloads` says that there
  -- is a backend and that it supports preloading.
  pub record Session : Type 0 where
    pub snapshot : SessionSnapshot
    pub queue_dirty : Bool
    pub intent_epoch : ℕ
    pub backend_preloads : Bool
    pub loaded_entry_id : String
    pub loaded_uri : String
    pub preloaded_id : String
    pub preloaded_uri : String
    pub backend_preload_armed : Bool
    pub next_preparation_retry_entry_id : String
    pub next_preparation_retry_at : Option P.Time
    pub preload_failure_entry_id : String
    pub preload_failure_uri : String
    pub rng : P.rand.Source
    pub pending_cancel : Bool
    pub pending_entry : String
    pub pending_token : ℕ
    pub transport_token : ℕ
    pub transport_pending : Option TransportTransition
    pub availability_cache : List (String × RecordingPlaybackAvailability × P.Time)
    pub next_action_plan : Option NextActionPlan
    pub next_action_builds : ℤ

-- uint64 arithmetic.
unfoldable pub next_word : ℕ → ℕ
next_word n = suc n % 2 ^ 64

unfoldable pub index_of_entry_id : List SessionEntry → String → Option ℕ
index_of_entry_id [] id = none
index_of_entry_id (e ∷ rest) id =
    let later = option_map suc (index_of_entry_id rest id) in
    if str_eq e.entry_id (trim_space id) then some 0 else later

unfoldable pub string_member : String → List String → Bool
string_member id [] = false
string_member id (x ∷ xs) = str_eq x id || string_member id xs

abbrev kind_text : ContextKind → String
kind_text ContextKind.album = "album"
kind_text ContextKind.playlist = "playlist"
kind_text ContextKind.liked = "liked"
kind_text ContextKind.offline = "offline"
kind_text ContextKind.tracks = "tracks"
kind_text ContextKind.recording = "recording"
kind_text ContextKind.custom = "custom"
kind_text (ContextKind.unknown s) = s

abbrev policy_text : ContextRebasePolicy → String
policy_text ContextRebasePolicy.frozen = "frozen"
policy_text ContextRebasePolicy.live = "live"
policy_text (ContextRebasePolicy.unknown s) = s

abbrev bool_eq : Bool → Bool → Bool
bool_eq true b = b
bool_eq false b = not b

unfoldable pub source_identity_equal : SourceIdentity → SourceIdentity → Bool
source_identity_equal l r =
    str_eq (kind_text l.kind) (kind_text r.kind)
    && str_eq (policy_text l.rebase_policy) (policy_text r.rebase_policy)
    && bool_eq l.live r.live
    && str_eq l.anchor_mode r.anchor_mode
    && str_eq (trim_space l.id) (trim_space r.id)

-- What a mutation of the queues changes: the arguments of
-- `transportTransitionInvalidatedByQueueMutationLocked`. The zero source identity is `none`.
pub record QueueMutation : Type 0 where
  pub changed_entry_ids : List String
  pub clear_context : Bool
  pub clear_user_queue : Bool
  pub next_source : Option SourceIdentity
  pub invalidate_queue_index : Bool

abbrev pub moves_source : SourceIdentity → Option SourceIdentity → Bool
moves_source source none = false
moves_source source (some other) = not (source_identity_equal source other)

unfoldable pub transport_invalidated : Option TransportTransition → QueueMutation → Bool
transport_invalidated none m = false
transport_invalidated (some t) m =
    string_member t.entry.entry_id m.changed_entry_ids
    || (m.clear_user_queue && is_queued t.origin)
    || (m.clear_context && is_context t.origin)
    || (m.invalidate_queue_index && is_queued t.origin)
    || (is_context t.origin && moves_source t.source_identity m.next_source)

pub allowed_ids : List SessionEntry → List String
allowed_ids [] = []
allowed_ids (e ∷ rest) =
    if is_blank (trim_space e.entry_id)
    then allowed_ids rest
    else trim_space e.entry_id ∷ allowed_ids rest

keep_allowed :
    List String
    → List (String × RecordingPlaybackAvailability)
    → List (String × RecordingPlaybackAvailability)
keep_allowed allowed [] = []
keep_allowed allowed ((id, status) ∷ rest) =
    if string_member (trim_space id) allowed
    then (id, status) ∷ keep_allowed allowed rest
    else keep_allowed allowed rest

-- `pruneEntryAvailabilityLocked`; an empty map is nil.
unfoldable pub prune_entry_availability : SessionSnapshot → SessionSnapshot
unfolding allowed_ids keep_allowed
prune_entry_availability s = record s {
  entry_availability =
      keep_allowed (allowed_ids (s.user_queue ++ context_all_entries s)) s.entry_availability;
}

abbrev pub clear_loading_state : SessionSnapshot → SessionSnapshot
clear_loading_state s = record s {
  loading_entry = none;
  loading_item = none;
  loading_preparation = none;
}

abbrev set_resume : ℤ → ContextQueue → ContextQueue
set_resume i q = record q { resume_index = i }

abbrev pub set_resume_context_index : ℤ → SessionSnapshot → SessionSnapshot
set_resume_context_index i s = record s {
  context_queue = option_map (set_resume i) s.context_queue;
}

abbrev pub clear_authoritative_position : SessionSnapshot → SessionSnapshot
clear_authoritative_position s = record s { position_ms = pos 0; position_captured_at_ms = pos 0 }

module _ (P : Platform) where
  abbrev pub advance_intent_epoch : Session P → Session P
  advance_intent_epoch s = record s { intent_epoch = next_word s.intent_epoch }

  abbrev pub mark_queue_dirty : Session P → Session P
  mark_queue_dirty s = record s { queue_dirty = true; next_action_plan = none }

  pub cancel_pending : Session P → Option TransportTransition → Session P
  cancel_pending s none = s
  cancel_pending s (some t) = record s {
    transport_pending = none;
    transport_token = next_word s.transport_token;
    snapshot = clear_loading_state s.snapshot;
    next_action_plan = none;
  }

  unfoldable pub cancel_transport_transition : Session P → Session P
  unfolding cancel_pending
  cancel_transport_transition s = cancel_pending s s.transport_pending

  unfoldable pub cancel_if_invalidated : QueueMutation → Session P → Session P
  unfolding cancel_transport_transition
  cancel_if_invalidated m s =
      if transport_invalidated s.transport_pending m then cancel_transport_transition s else s

  abbrev pub cancel_pending_retry : Session P → Session P
  cancel_pending_retry s = record s {
    pending_cancel = false;
    pending_entry = "";
    pending_token = next_word s.pending_token;
  }

  -- Whether the backend is to drop what it preloaded, under `forceRecovery`.
  unfoldable pub needs_clear_preload : Session P → Bool
  needs_clear_preload s =
      s.backend_preload_armed
      || not (is_none s.snapshot.next_preparation)
      || not (is_blank s.preloaded_id)
      || not (is_blank s.preloaded_uri)
      || (s.backend_preloads
          && not (is_none s.snapshot.current_entry)
          && not (is_blank s.loaded_uri))

  -- The state that `invalidatePreloadPlanLocked` leaves.
  abbrev pub invalidate_preload_plan : Session P → Session P
  invalidate_preload_plan s = record s {
    snapshot = record s.snapshot { next_preparation = none };
    preloaded_id = "";
    preloaded_uri = "";
    next_preparation_retry_entry_id = "";
    next_preparation_retry_at = none;
    preload_failure_entry_id = "";
    preload_failure_uri = "";
    availability_cache = [];
    next_action_plan = none;
  }

  abbrev pub on_snapshot : (SessionSnapshot → SessionSnapshot) → Session P → Session P
  on_snapshot f s = record s { snapshot = f s.snapshot }

  unfoldable pub preloaded_plan_of : SessionSnapshot → String → Option QueuePlan
  preloaded_plan_of s id =
      if is_blank id then none else option_map planned_entry (find_entry_by_id s id)

  abbrev pub sync_authority_state : String → SessionSnapshot → SessionSnapshot
  sync_authority_state preloaded_id s = record s {
    current_lane = derive_current_lane s;
    next_planned = build_queue_plan_from_snapshot P s;
    preloaded_plan = preloaded_plan_of s preloaded_id;
  }

  abbrev refreshed : SessionSnapshot → SessionSnapshot
  refreshed s = record s { context_queue = option_map refresh_context_window s.context_queue }

  unfoldable pub bump_version : Bool → SessionSnapshot → SessionSnapshot
  bump_version dirty s =
      if dirty
      then record (prune_entry_availability s) { queue_version = s.queue_version +ℤ pos 1 }
      else s

  -- `touchLocked` at the time `now`.
  unfoldable pub touch : P.Time → Session P → Session P
  unfolding bump_version
  touch now s =
      let normal = normalize_snapshot P (refreshed s.snapshot) in
      let synced = sync_authority_state s.preloaded_id normal in
      record s {
        snapshot = record (bump_version s.queue_dirty synced) {
          updated_at = format_timestamp P now;
        };
        queue_dirty = false;
      }

  unfoldable pub recalculate_resume_context_index : SessionSnapshot → SessionSnapshot
  recalculate_resume_context_index s =
      set_resume_context_index (normalize_resume_context_index P.rand s) s

  -- `rebuildShuffleCycleLocked`: a seed of 0 is drawn anew first.
  pub seeded_rebuild : Session P → ContextQueue → Session P
  seeded_rebuild s q =
      let (drawn, rng') = P.rand.uint64 s.rng in
      let fresh = q.shuffle_seed == 0 in
      let seed = if fresh then drawn else q.shuffle_seed in
      record s {
        rng = if fresh then rng' else s.rng;
        snapshot = record s.snapshot {
          context_queue = some (record q {
            shuffle_seed = seed;
            shuffle_bag = map pos (
                build_anchored_cycle P.rand (context_all_entries s.snapshot)
                  (shuffle_anchor_index s.snapshot) (P.rand.new_source seed));
          });
        };
      }

  pub rebuild_from : Session P → Option ContextQueue → Session P
  unfolding seeded_rebuild
  rebuild_from s none = s
  rebuild_from s (some q) = seeded_rebuild s q

  unfoldable pub rebuild_shuffle_cycle : Session P → Session P
  unfolding rebuild_from
  rebuild_shuffle_cycle s =
      if s.snapshot.shuffle
      then rebuild_from s s.snapshot.context_queue
      else on_snapshot clear_context_shuffle_state s
