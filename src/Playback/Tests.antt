-- ===== src/Playback/Tests.antt =====
-- Runs of the playback model at small inputs, and its theorems at inputs that meet their hypotheses.
use ben_desktop.Base.{
  ℕ, ◌+◌, ◌%◌, ◌<◌, ◌≡◌, refl, ◌⊎◌, String, true, false, none, some, List, [], ◌∷◌, ◌++◌, map,
  length, head?, str_eq, arith,
}
use ben_desktop.Base.Int.{pos}
use ben_desktop.Base.Count.{IsCycle, count, unit_at}
use ben_desktop.Playback.Types.{
  RepeatMode, Status, ContextKind, EntryOrigin, CurrentLane, SessionEntry, ContextQueue,
  SessionSnapshot, zero_item, zero_entry,
}
use ben_desktop.Playback.Rand.{Rand}
use ben_desktop.Playback.Context.{
  context_all_entries, current_context_index, resume_context_index, shuffle_bag,
  current_matches_context, entry_matches_context_index, is_valid_context_index,
  detached_current_context_index, shuffle_anchor_index,
}
use ben_desktop.Playback.Shuffle.{
  sanitize_shuffle_bag, build_anchored_cycle, effective_shuffle_cycle,
}
use ben_desktop.Playback.Shuffle.Sanitize.{sanitize_shuffle_bag_sound}
use ben_desktop.Playback.Shuffle.Cycle.{build_anchored_cycle-IsCycle}
use ben_desktop.Playback.Shuffle.Anchor.{effective_shuffle_cycle-IsCycle}
use ben_desktop.Playback.Navigation.{
  next_context_index_from_anchor, previous_context_index_from_anchor,
  normalize_resume_context_index,
}
use ben_desktop.Playback.Navigation.Order.{previous-next, advance, advance_reaches}
use ben_desktop.Playback.Navigation.Bounds.{Indexes, normalize_resume-Indexes}
use ben_desktop.Playback.Upcoming.{
  build_upcoming_entries, upcoming_entry_count, first_upcoming_entry, upcoming_indices,
  next_action_count,
}
use ben_desktop.Playback.Upcoming.Agreement.{
  length-build_upcoming_entries, head-build_upcoming_entries,
}
use ben_desktop.Playback.Upcoming.Range.{upcoming_indices_round}
use ben_desktop.Playback.Iterator.{new_next_action_iterator, candidates}
use ben_desktop.Playback.Iterator.Plan.{own, entries-candidates}
use ben_desktop.Playback.Position.{index_of_int}

pub draw-lt : (r n : ℕ) → 0 < n → r % n < n
draw-lt r n h = grind arith

-- A generator that counts.
abbrev pub counter : Rand
counter = record {
  Source = ℕ;
  new_source = λ seed. seed;
  swaps = λ r n. ((0, 1) ∷ [], r + 1);
  intn = λ r n. (r % n, r + 1);
  uint64 = λ r. (r, r + 1);
  intn-lt = draw-lt;
  equal_fold = str_eq;
}

abbrev pub track : ℕ → String → SessionEntry
track i id = record zero_entry {
  entry_id = id;
  origin = EntryOrigin.context;
  context_index = pos i;
  item = record zero_item { recording_id = id };
}

abbrev pub tracks : List SessionEntry
tracks = track 0 "a" ∷ track 1 "b" ∷ track 2 "c" ∷ []

abbrev pub queue : ContextQueue
queue = record {
  kind = ContextKind.album;
  id = "x";
  title = "X";
  entries = tracks;
  start_index = pos 0;
  current_index = pos 1;
  resume_index = pos 2;
  shuffle_bag = [];
  has_before = false;
  has_after = false;
  window_start = pos 0;
  window_count = pos 3;
  total_count = pos 3;
  live = false;
  loading = false;
  source_version = pos 0;
  shuffle_seed = 7;
  source = none;
  anchor = none;
  all_entries = tracks;
}

abbrev pub playing : SessionSnapshot
playing = record {
  context_queue = some queue;
  user_queue = [];
  current_entry_id = "b";
  current_entry = some (track 1 "b");
  current_item = none;
  loading_entry = none;
  loading_item = none;
  upcoming_entries = [];
  current_lane = CurrentLane.context;
  next_planned = none;
  preloaded_plan = none;
  repeat_mode = RepeatMode.all;
  shuffle = false;
  volume = pos 100;
  status = Status.playing;
  position_ms = pos 0;
  position_captured_at_ms = pos 0;
  duration_ms = none;
  updated_at = "";
  last_error = "";
  current_source_kind = "";
  current_preparation = none;
  loading_preparation = none;
  next_preparation = none;
  entry_availability = [];
  last_skip_event = none;
  queue_length = pos 0;
  next_entry_seq = pos 1;
  queue_version = pos 0;
}

abbrev pub shuffled : SessionSnapshot
shuffled = record playing { shuffle = true }

program : Unit {0}
unfolding context_all_entries current_context_index resume_context_index current_matches_context
    entry_matches_context_index is_valid_context_index detached_current_context_index
    next_context_index_from_anchor index_of_int upcoming_indices upcoming_entry_count
    next_action_count shuffle_bag shuffle_anchor_index effective_shuffle_cycle count
    build_upcoming_entries
program = tt

upcoming_test : upcoming_indices counter playing ≡ 2 ∷ 0 ∷ []
unfolding program
upcoming_test = refl

sanitize_shuffle_bag_sound_example :
    let kept = sanitize_shuffle_bag (pos 1 ∷ pos 0 ∷ []) 2 in
    (kept ≡ []) ⊎ (IsCycle 2 kept × (pos 1 ∷ pos 0 ∷ [] ≡ map pos kept))
sanitize_shuffle_bag_sound_example = sanitize_shuffle_bag_sound (pos 1 ∷ pos 0 ∷ []) 2

swapped-IsCycle : IsCycle 2 (1 ∷ 0 ∷ [])
unfolding count
swapped-IsCycle = record { counted = λ a. ground arith; sized = refl }

build_anchored_cycle-IsCycle_example : IsCycle 3 (build_anchored_cycle counter tracks (pos 1) 4)
build_anchored_cycle-IsCycle_example = build_anchored_cycle-IsCycle counter tracks (pos 1) 4

effective_shuffle_cycle-IsCycle_example :
    IsCycle (length (context_all_entries shuffled)) (effective_shuffle_cycle counter shuffled)
effective_shuffle_cycle-IsCycle_example = effective_shuffle_cycle-IsCycle counter shuffled

previous-next_example : previous_context_index_from_anchor counter playing (pos 0) ≡ pos 2
unfolding program
previous-next_example = previous-next counter playing 2 0 (omega arith) refl

advance_reaches_example : (k : ℕ) × (k < 3) × (advance counter shuffled k (pos 0) ≡ pos 1)
unfolding program
advance_reaches_example = advance_reaches counter shuffled 0 1 refl (omega arith) (omega arith)

normalize_resume-Indexes_example :
    Indexes
      (length (context_all_entries shuffled))
      (normalize_resume_context_index counter shuffled)
normalize_resume-Indexes_example = normalize_resume-Indexes counter shuffled

length-build_upcoming_entries_example :
    length (build_upcoming_entries counter shuffled) ≡ upcoming_entry_count counter shuffled
length-build_upcoming_entries_example = length-build_upcoming_entries counter shuffled

head-build_upcoming_entries_example :
    head? (build_upcoming_entries counter playing) ≡ first_upcoming_entry counter playing
head-build_upcoming_entries_example = head-build_upcoming_entries counter playing

upcoming_indices_round_example : unit_at 1 0 + count 0 (upcoming_indices counter shuffled) ≡ 1
unfolding program
upcoming_indices_round_example = upcoming_indices_round counter shuffled 0 (omega arith) refl refl

entries-candidates_example :
    map (λ c. c.entry) (candidates 9 9 (new_next_action_iterator counter playing []))
    ≡ own playing ++ build_upcoming_entries counter playing
unfolding program
entries-candidates_example = entries-candidates counter playing 9 9 (omega arith) (omega arith)
