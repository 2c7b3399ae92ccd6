-- ===== src/Playback/SessionTests.antt =====
-- The theorems on items, windows, snapshots and sessions at inputs that meet their hypotheses.
use ben_desktop.Base.{
  ℕ, zero, suc, ◌+◌, ◌≤◌, ◌<◌, ◌≡◌, refl, ap, String, true, false, none, some, List, [], ◌∷◌, ◌++◌,
  ◌⊎◌, map, length, All, get_elem?, remove_at, arith, ◌==◌,
}
use ben_desktop.Base.Int.{pos, negsuc}
use ben_desktop.Base.Count.{count}
use ben_desktop.Playback.Types.{
  EntryOrigin, QueueInsertMode, SessionItem, SessionEntry, SessionSnapshot,
  PlaybackPreparationStatus, ContextKind, ContextRebasePolicy, zero_item, zero_entry,
}
use ben_desktop.Playback.Platform.{Platform}
use ben_desktop.Playback.Context.{context_all_entries}
use ben_desktop.Playback.Context.{resume_context_index, entry_matches_context_index}
use ben_desktop.Playback.Normalize.{normalize_queue, clear_context_shuffle_state, current_duration}
use ben_desktop.Playback.Navigation.Bounds.{Indexes}
use ben_desktop.Playback.Normalize.Resume.{resume_context_index-normalize_snapshot}
use ben_desktop.Playback.Context.{shuffle_bag}
use ben_desktop.Playback.Shuffle.{effective_shuffle_cycle}
use ben_desktop.Playback.Session.{rebuild_shuffle_cycle}
use ben_desktop.Playback.Session.Reshuffle.{shuffle_bag-rebuild_shuffle_cycle}
use ben_desktop.Playback.Tests.{counter, queue, playing, shuffled}
use ben_desktop.Playback.Items.{normalize_items}
use ben_desktop.Playback.Items.Normal.{
  IsNormal, normalize_items-IsNormal, normalize_items-normalize_items,
}
use ben_desktop.Playback.Window.{refresh_context_window}
use ben_desktop.Playback.Window.Slice.{IsWindow, refresh_context_window-IsWindow}
use ben_desktop.Playback.Previous.{previous_indexes}
use ben_desktop.Playback.Previous.Walk.{previous_indexes-le, previous_indexes_fuel}
use ben_desktop.Playback.Normalize.{normalize_snapshot, normalize_user_entry}
use ben_desktop.Playback.Normalize.Queues.{user_queue-normalize_snapshot}
use ben_desktop.Playback.Upcoming.{build_upcoming_entries}
use ben_desktop.Playback.Iterator.Plan.{own}
use ben_desktop.Playback.Session.{Session, TransportTransition, TransportTransitionKind}
use ben_desktop.Playback.Session.Queue.{
  queue_items, remove_queued_entry, move_queued_entry, move_entry,
}
use ben_desktop.Playback.Session.Queue.Lists.{IsFirst, move_entry_lem}
use ben_desktop.Playback.Session.Queue.Places.{IsPlaced}
use ben_desktop.Playback.Session.Queue.Pending.{
  queue_items-IsPlaced, remove_queued_entry-IsPlaced, move_queued_entry-IsPlaced,
}
use ben_desktop.Playback.Session.Queue.Outcome.{
  IsMissing, IsChanged, IsMoved, remove_queued_entry_lem, move_queued_entry_lem,
}
use ben_desktop.Playback.Session.Planning.{plan_candidates}
use ben_desktop.Playback.Session.Planning.Overwrite.{ids-plan_candidates}

-- A number as that many marks in front of the prefix.
tally : String → ℕ → String
tally prefix zero = prefix
tally prefix (suc n) = String.◌∷◌ "x" (tally prefix n)

size : String → ℕ
size String.[] = 0
size (String.◌∷◌ c s) = suc (size s)

size-tally : (prefix : String) (n : ℕ) → size (tally prefix n) ≡ n + size prefix
unfolding size tally
size-tally prefix zero = omega arith
size-tally prefix (suc n) = omega (arith, size-tally prefix n)

tally-injective : (prefix : String) (m n : ℕ) → tally prefix m ≡ tally prefix n → m ≡ n
tally-injective prefix m n h = omega (arith, ap size h, size-tally prefix m, size-tally prefix n)

abbrev platform : Platform
platform = record {
  rand = counter;
  Time = ℕ;
  is_zero = λ t. t == 0;
  parse = λ s. none;
  format = λ t. "now";
  to_lower = λ s. s;
  sprint_id = tally;
  sprint_id-injective = tally-injective;
}

abbrev named : String → SessionItem
named id = record zero_item { recording_id = id }

abbrev queued : String → SessionEntry
queued id = record zero_entry {
  entry_id = id;
  origin = EntryOrigin.queued;
  context_index = negsuc 0;
  item = named id;
}

abbrev three : List SessionEntry
three = queued "p" ∷ queued "q" ∷ queued "r" ∷ []

abbrev ready : PlaybackPreparationStatus
ready = record {
  library_recording_id = "";
  variant_recording_id = "";
  recording_id = "q";
  preferred_profile = "";
  purpose = "";
  phase = "ready";
  source_kind = "";
  reason = "";
  playable_uri = "file:///q";
  encoding_id = "";
  blob_id = "";
  updated_at = 0;
}

-- A transition to the second entry of the user queue.
abbrev transition : TransportTransition
transition = record {
  token = 1;
  entry = queued "q";
  origin = EntryOrigin.queued;
  queue_index = pos 1;
  previous = none;
  playable_uri = "file:///q";
  activation = record {
    uri = "file:///q";
    playlist_entry_id = pos 1;
    playlist_pos = pos 1;
    attempt_id = 1;
  };
  status = ready;
  source_identity = record {
    kind = ContextKind.unknown "";
    id = "";
    rebase_policy = ContextRebasePolicy.unknown "";
    live = false;
    anchor_mode = "";
  };
  kind = TransportTransitionKind.direct_load;
}

abbrev waiting : SessionSnapshot
waiting = record playing { user_queue = three }

abbrev session : Session platform
session = record {
  snapshot = waiting;
  queue_dirty = false;
  intent_epoch = 0;
  backend_preloads = true;
  loaded_entry_id = "b";
  loaded_uri = "file:///b";
  preloaded_id = "";
  preloaded_uri = "";
  backend_preload_armed = false;
  next_preparation_retry_entry_id = "";
  next_preparation_retry_at = none;
  preload_failure_entry_id = "";
  preload_failure_uri = "";
  rng = 1;
  pending_cancel = false;
  pending_entry = "";
  pending_token = 0;
  transport_token = 1;
  transport_pending = some transition;
  availability_cache = [];
  next_action_plan = none;
  next_action_builds = pos 0;
}

normalize_items-IsNormal_example : All IsNormal (normalize_items (named " a " ∷ []))
normalize_items-IsNormal_example = normalize_items-IsNormal (named " a " ∷ [])

normalize_items-normalize_items_example :
    normalize_items (normalize_items (named " a " ∷ [])) ≡ normalize_items (named " a " ∷ [])
normalize_items-normalize_items_example = normalize_items-normalize_items (named " a " ∷ [])

refresh_context_window-IsWindow_example :
    (from : ℕ) × (to : ℕ) × IsWindow (refresh_context_window queue) from to
refresh_context_window-IsWindow_example = refresh_context_window-IsWindow queue

previous_indexes-le_example : count 0 (previous_indexes counter playing 9) ≤ 1
unfolding context_all_entries
previous_indexes-le_example = previous_indexes-le counter playing 9 0

previous_indexes_fuel_example :
    previous_indexes counter playing (suc (length (context_all_entries playing)) + 5)
    ≡ previous_indexes counter playing (suc (length (context_all_entries playing)))
previous_indexes_fuel_example = previous_indexes_fuel counter playing 5

user_queue-normalize_snapshot_example :
    (normalize_snapshot platform waiting).user_queue ≡ map normalize_user_entry three
user_queue-normalize_snapshot_example = user_queue-normalize_snapshot platform waiting

queue_items-IsPlaced_example :
    IsPlaced (queue_items platform 5 (named "s" ∷ []) QueueInsertMode.next session).session
queue_items-IsPlaced_example =
    queue_items-IsPlaced platform 5 (named "s" ∷ []) QueueInsertMode.next session refl

remove_queued_entry-IsPlaced_example : IsPlaced (remove_queued_entry platform 5 "r" session).session
remove_queued_entry-IsPlaced_example = remove_queued_entry-IsPlaced platform 5 "r" session refl

move_queued_entry-IsPlaced_example :
    IsPlaced (move_queued_entry platform 5 "r" (pos 0) session).session
move_queued_entry-IsPlaced_example = move_queued_entry-IsPlaced platform 5 "r" (pos 0) session refl

remove_queued_entry_lem_example :
    IsMissing platform "q" session (remove_queued_entry platform 5 "q" session)
    ⊎ ((before : List SessionEntry) × (e : SessionEntry) × (after : List SessionEntry) × IsFirst "q"
          three before e after
        × IsChanged platform (before ++ after) (remove_queued_entry platform 5 "q" session))
remove_queued_entry_lem_example = remove_queued_entry_lem platform 5 "q" session

move_queued_entry_lem_example :
    IsMissing platform "r" session (move_queued_entry platform 5 "r" (pos 0) session)
    ⊎ ((before : List SessionEntry) × (e : SessionEntry) × (after : List SessionEntry) × IsFirst "r"
          three before e after
        × IsMoved platform session before e after
            (move_queued_entry platform 5 "r" (pos 0) session)
            (pos 0))
move_queued_entry_lem_example = move_queued_entry_lem platform 5 "r" (pos 0) session

move_entry_lem_example :
    (get_elem? (move_entry three 0 2) 2 ≡ some (queued "p"))
    × (remove_at (move_entry three 0 2) 2 ≡ queued "q" ∷ queued "r" ∷ [])
move_entry_lem_example = move_entry_lem three 0 2 (omega arith) (omega arith)

ids-plan_candidates_example :
    map (λ c. c.entry_id) (plan_candidates counter playing)
    ≡ map (λ e. e.entry_id) (own playing ++ build_upcoming_entries counter playing)
ids-plan_candidates_example = ids-plan_candidates counter playing

waiting_has_entries : 0 < length (context_all_entries (normalize_snapshot platform waiting))
unfolding context_all_entries entry_matches_context_index normalize_snapshot normalize_queue
    clear_context_shuffle_state current_duration
waiting_has_entries = grind arith

resume_context_index-normalize_snapshot_example :
    Indexes
      (length (context_all_entries (normalize_snapshot platform waiting)))
      (resume_context_index (normalize_snapshot platform waiting))
resume_context_index-normalize_snapshot_example =
    resume_context_index-normalize_snapshot platform waiting waiting_has_entries

abbrev mixed : Session platform
mixed = record session { snapshot = shuffled }

shuffle_bag-rebuild_shuffle_cycle_example :
    shuffle_bag (rebuild_shuffle_cycle platform mixed).snapshot
    ≡ map pos (effective_shuffle_cycle counter (rebuild_shuffle_cycle platform mixed).snapshot)
unfolding context_all_entries
shuffle_bag-rebuild_shuffle_cycle_example =
    shuffle_bag-rebuild_shuffle_cycle platform mixed queue refl refl (omega arith)
