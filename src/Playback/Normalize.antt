-- ===== src/Playback/Normalize.antt =====
-- internal/playback/session.go, normalizeSnapshot: a snapshot made consistent.
pub mod Queues
pub mod Resume
use ben_desktop.Base.{
  ℕ, zero, suc, ◌+◌, String, Bool, true, false, Option, none, some, List, [], ◌∷◌, ◌&&◌, ◌||◌, not,
  map, length, ltb, leb, ◌==◌, if◌then◌else◌, is_blank, trim_space, str_eq,
}
use ben_desktop.Base.Int.{ℤ, pos, negsuc, ◌+ℤ◌, ltb_ℤ, is_negative}
use ben_desktop.Playback.Types.{
  RepeatMode, Status, EntryOrigin, CurrentLane, QueuePlan, SessionItem, SessionEntry,
  EntryPreparation, ContextQueue, SessionSnapshot, is_queued,
}
use ben_desktop.Playback.Platform.{Platform, normalize_timestamp}
use ben_desktop.Playback.Context.{context_all_entries, entry_matches_context_index}
use ben_desktop.Playback.Shuffle.{sanitize_shuffle_bag}
use ben_desktop.Playback.Navigation.{normalize_resume_context_index}
use ben_desktop.Playback.Upcoming.{first_upcoming_entry, queue_length}
use ben_desktop.Playback.Items.{normalize_session_item}
use ben_desktop.Playback.Window.{is_source_backed_queue}

abbrev pub is_positive : ℤ → Bool
is_positive (pos zero) = false
is_positive (pos (suc n)) = true
is_positive (negsuc n) = false

unfoldable pub clamp_volume : ℤ → ℤ
clamp_volume (negsuc n) = pos 0
clamp_volume (pos n) = if ltb 100 n then pos 100 else pos n

unfoldable pub current_duration : SessionItem → Option ℤ
current_duration item = if is_positive item.duration_ms then some item.duration_ms else none

abbrev pub lane_from_origin : EntryOrigin → CurrentLane
lane_from_origin origin = if is_queued origin then CurrentLane.user else CurrentLane.context

unfoldable pub derive_current_lane : SessionSnapshot → CurrentLane
derive_current_lane s = elim s.current_entry [
  | some e ↦ lane_from_origin e.origin
  | none ↦ elim s.loading_entry [ some e ↦ lane_from_origin e.origin | none ↦ CurrentLane.unset ]
]

abbrev pub planned_entry : SessionEntry → QueuePlan
planned_entry e = record { entry = some e; lane = lane_from_origin e.origin; planned = true }

pub find_id : String → List SessionEntry → Option SessionEntry
find_id id [] = none
find_id id (e ∷ rest) =
    let later = find_id id rest in if str_eq e.entry_id id then some e else later

abbrev pub first_some {ℓ} : {A : Type ℓ} → Option A → Option A → Option A
first_some none other = other
first_some (some a) other = some a

unfoldable pub find_entry_by_id : SessionSnapshot → String → Option SessionEntry
unfolding find_id
find_entry_by_id s entry_id =
    let id = trim_space entry_id in
    if is_blank id
    then none
    else first_some (find_id id s.user_queue) (
        first_some (find_id id (context_all_entries s)) (elim s.current_entry [
          | none ↦ none
          | some e ↦ if str_eq e.entry_id id then some e else none
        ]))

-- The `switch` statements on the modes.
abbrev known_repeat : RepeatMode → RepeatMode
known_repeat (RepeatMode.unknown s) = RepeatMode.off
known_repeat mode = mode

abbrev known_status : Status → Status
known_status (Status.unknown s) = Status.idle
known_status status = status

abbrev at_least_zero : ℤ → ℤ
at_least_zero (pos n) = pos n
at_least_zero (negsuc n) = pos 0

abbrev pub at_least_one : ℤ → ℤ
at_least_one n = if is_positive n then n else pos 1

unfoldable pub normalize_context_entry : ℤ → ℕ → SessionEntry → SessionEntry
normalize_context_entry window_start k e = record e {
  item = normalize_session_item e.item;
  origin = EntryOrigin.context;
  context_index = if is_negative e.context_index then window_start +ℤ pos k else e.context_index;
}

unfoldable pub normalize_context_entries : ℤ → ℕ → List SessionEntry → List SessionEntry
unfolding normalize_context_entry
normalize_context_entries window_start k [] = []
normalize_context_entries window_start k (e ∷ rest) =
    normalize_context_entry window_start k e ∷ normalize_context_entries window_start (suc k) rest

-- `StartIndex`, and `CurrentIndex` and `ResumeIndex`, in a queue of `n` entries.
unfoldable pub clamp_start : ℕ → ℤ → ℤ
clamp_start n (negsuc i) = pos 0
clamp_start n (pos i) = if ltb 0 n && leb n i then pos 0 else pos i

unfoldable pub clamp_index : ℕ → ℤ → ℤ
clamp_index n (negsuc i) = negsuc 0
clamp_index n (pos i) = if ltb 0 n && leb n i then negsuc 0 else pos i

abbrev clamp_window_start : ℕ → ℤ → ℤ
clamp_window_start n (negsuc i) = pos 0
clamp_window_start n (pos i) = if leb n i then pos 0 else pos i

-- With entries, and with a descriptor only.
normalize_full_queue : ContextQueue → ContextQueue
unfolding clamp_start clamp_index
normalize_full_queue q =
    let n = length q.all_entries in
    record q {
      shuffle_bag = map pos (sanitize_shuffle_bag q.shuffle_bag n);
      start_index = clamp_start n q.start_index;
      current_index = clamp_index n q.current_index;
      resume_index = clamp_index n q.resume_index;
      total_count = if is_positive q.total_count then q.total_count else pos n;
      window_start = clamp_window_start n q.window_start;
      window_count = if is_positive q.window_count then q.window_count else pos (length q.entries);
    }

normalize_descriptor_queue : ContextQueue → ContextQueue
unfolding clamp_start clamp_index
normalize_descriptor_queue q = record q {
  shuffle_bag = [];
  start_index = clamp_start 0 q.start_index;
  current_index = clamp_index 0 q.current_index;
  resume_index = clamp_index 0 q.resume_index;
  entries = [];
  window_start = pos 0;
  window_count = pos 0;
  has_before = false;
  has_after = false;
}

unfoldable pub normalize_queue : ContextQueue → Option ContextQueue
unfolding normalize_context_entries normalize_full_queue normalize_descriptor_queue
normalize_queue q =
    let entries = normalize_context_entries q.window_start 0 q.entries in
    let all : List SessionEntry = elim q.all_entries [ [] ↦ entries | e ∷ rest ↦ e ∷ rest ] in
    let copied = record q { entries = entries; all_entries = all } in
    if ltb 0 (length all)
    then some (normalize_full_queue copied)
    else if is_source_backed_queue q
    then some (normalize_descriptor_queue copied)
    else none

unfoldable pub normalize_user_entry : SessionEntry → SessionEntry
normalize_user_entry e = record e {
  item = normalize_session_item e.item;
  origin = EntryOrigin.queued;
  context_index = negsuc 0;
}

abbrev pub option_bind {ℓ κ} : {A : Type ℓ} {B : Type κ} → (A → Option B) → Option A → Option B
option_bind f none = none
option_bind f (some a) = f a

abbrev pub option_map {ℓ κ} : {A : Type ℓ} {B : Type κ} → (A → B) → Option A → Option B
option_map f none = none
option_map f (some a) = some (f a)

abbrev pub normal_entry : SessionEntry → SessionEntry
normal_entry e = record e { item = normalize_session_item e.item }

abbrev set_current_index : ℤ → ContextQueue → ContextQueue
set_current_index i q = record q { current_index = i }

with_current : SessionSnapshot → SessionEntry → SessionSnapshot
with_current s e = record s {
  current_entry_id = if is_blank s.current_entry_id then e.entry_id else s.current_entry_id;
  current_entry = some e;
  current_item = some e.item;
  duration_ms = first_some s.duration_ms (current_duration e.item);
  context_queue =
      if entry_matches_context_index s e e.context_index
      then option_map (set_current_index e.context_index) s.context_queue
      else s.context_queue;
}

abbrev paused_status : Status → Status
paused_status Status.playing = Status.paused
paused_status Status.pending = Status.paused
paused_status status = status

without_current : SessionSnapshot → SessionSnapshot
without_current s = record s {
  current_entry_id = "";
  current_entry = none;
  current_item = none;
  current_preparation = none;
  status = paused_status s.status;
}

pub normalize_current : SessionSnapshot → Option SessionEntry → SessionSnapshot
unfolding with_current without_current
normalize_current s none = without_current s
normalize_current s (some e) = with_current s (normal_entry e)

pub normalize_loading : SessionSnapshot → Option SessionEntry → SessionSnapshot
normalize_loading s none = record s {
  loading_entry = none;
  loading_item = none;
  loading_preparation = none;
}
normalize_loading s (some e) = record s {
  loading_entry = some (normal_entry e);
  loading_item = some (normal_entry e).item;
}

abbrev pub clear_shuffle : ContextQueue → ContextQueue
clear_shuffle q = record q { shuffle_bag = []; shuffle_seed = 0 }

-- `clearContextShuffleStateLocked`
unfoldable pub clear_context_shuffle_state : SessionSnapshot → SessionSnapshot
clear_context_shuffle_state s = record s {
  context_queue = option_map clear_shuffle s.context_queue;
}

-- The position within the duration.
pub normalize_position : SessionSnapshot → Option ℤ → SessionSnapshot
normalize_position s none = s
normalize_position s (some d) = if ltb_ℤ d s.position_ms then record s { position_ms = d } else s

abbrev pub is_none {ℓ} : {A : Type ℓ} → Option A → Bool
is_none none = true
is_none (some a) = false

abbrev pub is_nil {ℓ} : {A : Type ℓ} → List A → Bool
is_nil [] = true
is_nil (x ∷ xs) = false

pub normalize_idle : SessionSnapshot → SessionSnapshot
normalize_idle s =
    if is_none s.context_queue
      && is_nil s.user_queue
      && is_none s.current_entry
      && is_none s.loading_entry
    then record s {
      status = Status.idle;
      position_ms = pos 0;
      position_captured_at_ms = pos 0;
      duration_ms = none;
      current_source_kind = "";
      next_preparation = none;
    }
    else s

-- The test that the status is not yet pending changes nothing.
pub normalize_pending : SessionSnapshot → SessionSnapshot
normalize_pending s =
    if not (is_none s.loading_entry) && is_none s.current_entry
    then record s { status = Status.pending }
    else s

module _ (P : Platform) where
  abbrev pub normalize_modes : SessionSnapshot → SessionSnapshot
  normalize_modes s = record s {
    volume = clamp_volume s.volume;
    updated_at = normalize_timestamp P s.updated_at;
    repeat_mode = known_repeat s.repeat_mode;
    status = known_status s.status;
    position_captured_at_ms = at_least_zero s.position_captured_at_ms;
    next_entry_seq = at_least_one s.next_entry_seq;
    context_queue = option_bind normalize_queue s.context_queue;
    user_queue = map normalize_user_entry s.user_queue;
  }

  -- Shuffle state, total and resume index, once the current entry is known.
  pub normalize_resume : SessionSnapshot → ContextQueue → SessionSnapshot
  unfolding clear_context_shuffle_state
  normalize_resume s q =
      let cleared = if s.shuffle then q else clear_shuffle q in
      let all = context_all_entries (record s { context_queue = some cleared }) in
      let counted = record cleared {
        total_count = if is_positive q.total_count then q.total_count else pos (length all);
      } in
      let ready = record s { context_queue = some counted } in
      if is_source_backed_queue q && length all == 0 then ready else record ready {
        context_queue =
            some (record counted { resume_index = normalize_resume_context_index P.rand ready });
      }

  pub normalize_lane : SessionSnapshot → Option ContextQueue → SessionSnapshot
  unfolding normalize_resume
  normalize_lane s none =
      if is_none s.current_entry then record s { current_lane = CurrentLane.unset } else s
  normalize_lane s (some q) = normalize_resume s q

  unfoldable pub build_queue_plan_from_snapshot : SessionSnapshot → Option QueuePlan
  build_queue_plan_from_snapshot s = option_map planned_entry (first_upcoming_entry P.rand s)

  abbrev plan_of_preparation : SessionSnapshot → Option EntryPreparation → Option QueuePlan
  plan_of_preparation s none = none
  plan_of_preparation s (some p) = option_map planned_entry (find_entry_by_id s p.entry_id)

  pub normalize_plans : SessionSnapshot → SessionSnapshot
  unfolding build_queue_plan_from_snapshot derive_current_lane
  normalize_plans s = record s {
    upcoming_entries = [];
    current_lane = derive_current_lane s;
    next_planned = build_queue_plan_from_snapshot s;
    preloaded_plan = first_some s.preloaded_plan (plan_of_preparation s s.next_preparation);
    queue_length = pos (queue_length P.rand s);
  }

  -- The steps in the source's order; each reads the field that decides it.
  unfoldable pub normalize_snapshot : SessionSnapshot → SessionSnapshot
  unfolding normalize_current normalize_loading normalize_lane normalize_position normalize_idle
      normalize_pending normalize_plans
  normalize_snapshot s0 =
      let s1 = normalize_modes s0 in
      let s2 = normalize_current s1 s1.current_entry in
      let s3 = normalize_loading s2 s2.loading_entry in
      let s4 = normalize_lane s3 s3.context_queue in
      let s5 = normalize_position s4 s4.duration_ms in
      normalize_plans (normalize_pending (normalize_idle s5))
