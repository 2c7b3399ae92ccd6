-- ===== src/Playback/Session/Planning.antt =====
-- internal/playback/session.go: the plan of next actions, its key, and the snapshot it is made from.
pub mod Overwrite
use ben_desktop.Base.{
  drop, ℕ, zero, suc, ◌+◌, String, Bool, true, false, Option, none, some, List, [], ◌∷◌, ◌&&◌, not,
  map, length, get_elem?, get_or, remove_at, ltb, ◌==◌, if◌then◌else◌, is_blank, trim_space, str_eq,
}
use ben_desktop.Base.Int.{ℤ, pos, negsuc, ◌+ℤ◌, eqb_ℤ, at?}
use ben_desktop.Playback.Types.{
  RepeatMode, Status, EntryOrigin, CurrentLane, SessionEntry, ContextQueue, SessionSnapshot,
  is_queued, is_context, zero_entry,
}
use ben_desktop.Playback.Rand.{Rand}
use ben_desktop.Playback.Platform.{Platform}
use ben_desktop.Playback.Context.{context_all_entries}
use ben_desktop.Playback.Upcoming.{next_action_count}
use ben_desktop.Playback.Iterator.{PlaybackCandidate, new_next_action_iterator, candidates}
use ben_desktop.Playback.Previous.{PlannedCandidate}
use ben_desktop.Playback.Normalize.{find_entry_by_id, option_map}
use ben_desktop.Playback.Session.{Session, TransportTransition, NextActionPlan, index_of_entry_id}

-- Go's zero snapshot.
abbrev zero_snapshot : SessionSnapshot
zero_snapshot = record {
  context_queue = none;
  user_queue = [];
  current_entry_id = "";
  current_entry = none;
  current_item = none;
  loading_entry = none;
  loading_item = none;
  upcoming_entries = [];
  current_lane = CurrentLane.unset;
  next_planned = none;
  preloaded_plan = none;
  repeat_mode = RepeatMode.unknown "";
  shuffle = false;
  volume = pos 0;
  status = Status.unknown "";
  position_ms = pos 0;
  position_captured_at_ms = pos 0;
  duration_ms = none;
  updated_at = "";
  last_error = "";
  current_source_kind = "";
  current_preparation = none;
  loading_preparation = none;
  next_preparation = none;
  entry_availability = [];
  last_skip_event = none;
  queue_length = pos 0;
  next_entry_seq = pos 0;
  queue_version = pos 0;
}

-- The place in the queue from which a pending transition takes its entry.
unfoldable pub taken_place : List SessionEntry → TransportTransition → Option ℕ
taken_place queue t = elim t.queue_index [
  | negsuc i ↦ none
  | pos i ↦
      if is_queued t.origin
        && ltb i (length queue)
        && str_eq (get_or queue i zero_entry).entry_id t.entry.entry_id
      then some i
      else none
]

abbrev pub without_taken : List SessionEntry → Option ℕ → List SessionEntry
without_taken queue none = queue
without_taken queue (some i) = remove_at queue i

-- The array of a slice, after these entries have been written into it from an index on.
unfoldable pub written_from : List SessionEntry → ℕ → List SessionEntry → List SessionEntry
written_from [] i entries = []
written_from (x ∷ array) (suc i) entries = x ∷ written_from array i entries
written_from (x ∷ array) zero [] = x ∷ array
written_from (x ∷ array) zero (e ∷ entries) = e ∷ written_from array zero entries

-- `append(queue[:i], queue[i+1:]...)`: what is appended fits into the array of `queue` and is written there
-- from `i` on.
abbrev pub overwritten : List SessionEntry → Option ℕ → List SessionEntry
overwritten queue none = queue
overwritten queue (some i) = written_from queue i (drop (suc i) queue)

abbrev pub at_pending : TransportTransition → ContextQueue → ContextQueue
at_pending t q =
    if is_context t.origin then record q { current_index = t.entry.context_index } else q

abbrev base_snapshot : SessionSnapshot → SessionSnapshot
base_snapshot s = record zero_snapshot {
  context_queue = s.context_queue;
  user_queue = s.user_queue;
  current_entry = s.current_entry;
  repeat_mode = s.repeat_mode;
  shuffle = s.shuffle;
  current_entry_id = elim s.current_entry [ none ↦ "" | some e ↦ e.entry_id ];
}

unfoldable pub planning_of : SessionSnapshot → Option TransportTransition → SessionSnapshot
planning_of s none = base_snapshot s
planning_of s (some t) = record (base_snapshot s) {
  current_entry = some t.entry;
  current_entry_id = t.entry.entry_id;
  context_queue = option_map (at_pending t) s.context_queue;
  user_queue = without_taken s.user_queue (taken_place s.user_queue t);
}

-- What the live snapshot is afterwards: it shares the context queue and the array of the user queue.
unfoldable pub live_after : SessionSnapshot → Option TransportTransition → SessionSnapshot
unfolding written_from
live_after s none = s
live_after s (some t) = record s {
  context_queue = option_map (at_pending t) s.context_queue;
  user_queue = overwritten s.user_queue (taken_place s.user_queue t);
}

abbrev repeat_text : RepeatMode → String
repeat_text RepeatMode.off = "off"
repeat_text RepeatMode.all = "all"
repeat_text RepeatMode.one = "one"
repeat_text (RepeatMode.unknown s) = s

abbrev origin_text : EntryOrigin → String
origin_text EntryOrigin.context = "context"
origin_text EntryOrigin.queued = "queued"
origin_text (EntryOrigin.unknown s) = s

abbrev same_bool : Bool → Bool → Bool
same_bool true b = b
same_bool false b = not b

-- Whether two plans have the same key.
unfoldable pub same_key : NextActionPlan → NextActionPlan → Bool
same_key l r =
    eqb_ℤ l.queue_version r.queue_version
    && eqb_ℤ l.source_version r.source_version
    && str_eq l.current_entry_id r.current_entry_id
    && str_eq (repeat_text l.repeat_mode) (repeat_text r.repeat_mode)
    && same_bool l.shuffle r.shuffle
    && l.transport_token == r.transport_token
    && str_eq l.pending_entry_id r.pending_entry_id
    && str_eq (origin_text l.pending_origin) (origin_text r.pending_origin)
    && eqb_ℤ l.pending_queue_idx r.pending_queue_idx

abbrev pub planned_candidate : PlaybackCandidate → PlannedCandidate
planned_candidate c = record {
  entry_id = c.entry.entry_id;
  origin = c.origin;
  queue_index = c.queue_index;
  context_index = c.entry.context_index;
  target = c.entry.item.target;
  recording_id = c.entry.item.recording_id;
}

-- The candidates of a snapshot, with fuel above their number.
unfoldable pub plan_candidates : Rand → SessionSnapshot → List PlannedCandidate
plan_candidates R s =
    let fuel = suc (next_action_count R s) in
    map planned_candidate (candidates fuel fuel (new_next_action_iterator R s []))

module _ (P : Platform) where
  -- The key of the plan that is wanted now, as a plan without candidates.
  abbrev key_of_pending : Session P → NextActionPlan → Option TransportTransition → NextActionPlan
  key_of_pending s plan none = plan
  key_of_pending s plan (some t) = record plan {
    current_entry_id = t.entry.entry_id;
    pending_entry_id = t.entry.entry_id;
    pending_origin = t.origin;
    pending_queue_idx = t.queue_index;
  }

  unfoldable pub current_plan_key : Session P → NextActionPlan
  current_plan_key s =
      key_of_pending s
        (record {
          version = s.next_action_builds +ℤ pos 1;
          queue_version =
              if s.queue_dirty then s.snapshot.queue_version +ℤ pos 1 else s.snapshot.queue_version;
          source_version = elim s.snapshot.context_queue [
            | none ↦ pos 0
            | some q ↦ q.source_version
          ];
          current_entry_id = s.snapshot.current_entry_id;
          repeat_mode = s.snapshot.repeat_mode;
          shuffle = s.snapshot.shuffle;
          transport_token = s.transport_token;
          pending_entry_id = "";
          pending_origin = EntryOrigin.unknown "";
          pending_queue_idx = negsuc 0;
          candidates = [];
        })
        s.transport_pending

  unfoldable pub fresh_plan : Session P → NextActionPlan
  unfolding current_plan_key planning_of plan_candidates
  fresh_plan s = record (current_plan_key s) {
    candidates = plan_candidates P.rand (planning_of s.snapshot s.transport_pending);
  }

  -- A new plan is stored; making it goes through the shared snapshot.
  unfoldable pub replan : Session P → Session P × NextActionPlan
  unfolding live_after fresh_plan
  replan s = (
    record s {
      snapshot = live_after s.snapshot s.transport_pending;
      next_action_builds = s.next_action_builds +ℤ pos 1;
      next_action_plan = some (fresh_plan s);
    },
    fresh_plan s,
  )

  unfoldable pub ensure_next_action_plan : Session P → Session P × NextActionPlan
  unfolding replan
  ensure_next_action_plan s = elim s.next_action_plan [
    | none ↦ replan s
    | some plan ↦ if same_key plan (current_plan_key s) then (s, plan) else replan s
  ]

abbrev index_or_none : Option ℕ → ℤ
index_or_none none = negsuc 0
index_or_none (some i) = pos i

abbrev found_entry : SessionSnapshot → SessionEntry → PlaybackCandidate
found_entry s e = record {
  entry = e;
  origin = e.origin;
  queue_index =
      if is_queued e.origin
      then index_or_none (index_of_entry_id s.user_queue e.entry_id)
      else negsuc 0;
}

-- The entry at the planned place, if it is still there.
abbrev entry_at_place : List SessionEntry → ℤ → String → Option SessionEntry
entry_at_place entries place id = elim (at? entries place) [
  | none ↦ none
  | some e ↦ if str_eq e.entry_id id then some e else none
]

abbrev placed_candidate : SessionSnapshot → PlannedCandidate → Option PlaybackCandidate
placed_candidate s c =
    if is_queued c.origin
    then option_map
        (λ e. record { entry = e; origin = EntryOrigin.queued; queue_index = c.queue_index })
        (entry_at_place s.user_queue c.queue_index c.entry_id)
    else if is_context c.origin
    then option_map
        (λ e. record { entry = e; origin = EntryOrigin.context; queue_index = negsuc 0 })
        (entry_at_place (context_all_entries s) c.context_index c.entry_id)
    else none

abbrev current_candidate : Option SessionEntry → String → Option PlaybackCandidate
current_candidate none id = none
current_candidate (some e) id =
    if str_eq e.entry_id id
    then some (record { entry = e; origin = e.origin; queue_index = negsuc 0 })
    else none

abbrev pending_candidate : Option TransportTransition → String → Option PlaybackCandidate
pending_candidate none id = none
pending_candidate (some t) id =
    if str_eq t.entry.entry_id id
    then some (record { entry = t.entry; origin = t.origin; queue_index = t.queue_index })
    else none

abbrev or_else_option {ℓ} : {A : Type ℓ} → Option A → Option A → Option A
or_else_option none other = other
or_else_option (some a) other = some a

-- `playbackCandidateFromPlannedLocked`: the first of the current entry, the pending one, the planned
-- place and any place that has the id.
unfoldable pub candidate_from_planned :
    SessionSnapshot → Option TransportTransition → PlannedCandidate → Option PlaybackCandidate
candidate_from_planned s pending c =
    if is_blank (trim_space c.entry_id)
    then none
    else or_else_option (current_candidate s.current_entry c.entry_id) (
        or_else_option (pending_candidate pending c.entry_id) (
          or_else_option (placed_candidate s c)
            (option_map (found_entry s) (find_entry_by_id s c.entry_id))))
