-- ===== src/Playback/Session/Queue.antt =====
-- internal/playback/session.go: the operations on the user queue and on the modes.
pub mod Pending
pub mod Lists
pub mod Places
pub mod Settled
pub mod Outcome
use ben_desktop.Base.{
  ℕ, zero, suc, ◌+◌, String, Bool, true, false, Option, none, some, List, [], ◌∷◌, ◌++◌, ◌&&◌, ◌||◌,
  not, length, get_elem?, get_or, remove_at, insert_at, ltb, leb, ◌==◌, if◌then◌else◌, trim_space,
  str_eq,
}
use ben_desktop.Base.Int.{ℤ, pos, negsuc, pos_part, in_range, eqb_ℤ}
use ben_desktop.Playback.Types.{
  RepeatMode, Status, EntryOrigin, QueueInsertMode, SessionItem, SessionEntry, ContextQueue,
  SessionSnapshot, is_queued, zero_entry,
}
use ben_desktop.Playback.Platform.{Platform}
use ben_desktop.Playback.Context.{resume_context_index}
use ben_desktop.Playback.Items.{normalize_items}
use ben_desktop.Playback.Normalize.{
  normalize_snapshot, is_none, option_map, at_least_one, clear_context_shuffle_state,
}
use ben_desktop.Playback.Session.{
  Session, TransportTransition, QueueMutation, index_of_entry_id, advance_intent_epoch,
  mark_queue_dirty, cancel_transport_transition, cancel_if_invalidated, cancel_pending_retry,
  needs_clear_preload, invalidate_preload_plan, on_snapshot, touch, clear_loading_state,
  set_resume_context_index, clear_authoritative_position, recalculate_resume_context_index,
  rebuild_shuffle_cycle,
}

pub data Failure : Type 0 where
  entry_not_found : String → Failure
  index_out_of_range : ℤ → Failure
  invalid_repeat_mode : String → Failure

-- What an operation does once it has let go of the lock.
pub data Effect : Type 0 where
  clear_backend_preload stop_backend publish : Effect

module _ (P : Platform) where
  -- The session after an operation, the snapshot it returns, its error, and its effects in order; what
  -- is published is the snapshot that is returned.
  pub record Reply : Type 0 where
    pub session : Session P
    pub state : SessionSnapshot
    pub error : Option Failure
    pub effects : List Effect

abbrev pub effects_of : Bool → List Effect → List Effect
effects_of true rest = clear_backend_preload ∷ rest
effects_of false rest = rest

abbrev pub no_mutation : QueueMutation
no_mutation = record {
  changed_entry_ids = [];
  clear_context = false;
  clear_user_queue = false;
  next_source = none;
  invalidate_queue_index = false;
}

-- The entries that `QueueItems` makes, numbered from `seq`.
unfoldable pub queued_entries : (String → ℕ → String) → ℕ → List SessionItem → List SessionEntry
queued_entries sprint seq [] = []
queued_entries sprint seq (i ∷ rest) =
    record {
      entry_id = sprint "queued" seq;
      origin = EntryOrigin.queued;
      context_index = negsuc 0;
      item = i;
    }
    ∷ queued_entries sprint (suc seq) rest

abbrev pub inserts_next : QueueInsertMode → Bool
inserts_next QueueInsertMode.next = true
inserts_next _ = false

abbrev pub queue_mutation : QueueInsertMode → QueueMutation
queue_mutation mode = record no_mutation { invalidate_queue_index = inserts_next mode }

abbrev pub clearing : QueueMutation
clearing = record no_mutation {
  clear_context = true;
  clear_user_queue = true;
  invalidate_queue_index = true;
}

-- Without a current entry the player is idle.
idle_snapshot : SessionSnapshot → SessionSnapshot
idle_snapshot s = record (clear_authoritative_position s) {
  duration_ms = none;
  status = Status.idle;
  current_source_kind = "";
  current_preparation = none;
  current_entry_id = "";
  current_entry = none;
  current_item = none;
}

-- The cases in which the place of a pending transition is no longer that of its entry.
unfoldable pub removal_hits : Option TransportTransition → ℕ → Bool
removal_hits none index = false
removal_hits (some t) index = elim t.queue_index [
  | pos i ↦ is_queued t.origin && leb index i
  | negsuc i ↦ false
]

unfoldable pub move_hits : Option TransportTransition → String → ℕ → ℕ → Bool
move_hits none id from to = false
move_hits (some t) id from to = elim t.queue_index [
  | negsuc i ↦ false
  | pos i ↦
      is_queued t.origin
      && (str_eq t.entry.entry_id (trim_space id)
          || (ltb from i && leb i to)
          || (ltb i from && leb to i))
]

-- `append(queue[:to], append([]SessionEntry{entry}, queue[to:]...)...)` after the removal.
unfoldable pub move_entry : List SessionEntry → ℕ → ℕ → List SessionEntry
move_entry queue from to = insert_at (remove_at queue from) to (get_or queue from zero_entry)

module _ (P : Platform) where
  abbrev pub refuse : Session P → Failure → Reply P
  refuse s failure = record {
    session = s;
    state = normalize_snapshot P s.snapshot;
    error = some failure;
    effects = [];
  }

  abbrev pub unchanged : Session P → Reply P
  unchanged s = record {
    session = s;
    state = normalize_snapshot P s.snapshot;
    error = none;
    effects = [];
  }

  -- The end of every operation: touch, copy the snapshot, unlock, then the effects.
  abbrev pub settle : P.Time → Session P → List Effect → Reply P
  settle now s effects = record {
    session = touch P now s;
    state = normalize_snapshot P (touch P now s).snapshot;
    error = none;
    effects = effects;
  }

  abbrev pub set_user_queue : List SessionEntry → Session P → Session P
  set_user_queue queue s =
      mark_queue_dirty P (record s { snapshot = record s.snapshot { user_queue = queue } })

  -- The start of an operation on the queues: cancel what it invalidates, drop the preload plan.
  abbrev pub prepared : QueueMutation → Session P → Session P
  prepared m s = invalidate_preload_plan P (cancel_if_invalidated P m (advance_intent_epoch P s))

  abbrev pub clears : QueueMutation → Session P → Bool
  clears m s = needs_clear_preload P (cancel_if_invalidated P m (advance_intent_epoch P s))

  enqueue : QueueInsertMode → List SessionItem → Session P → Session P
  unfolding queued_entries
  enqueue mode items s =
      let seq = pos_part (at_least_one s.snapshot.next_entry_seq) in
      let entries = queued_entries P.sprint_id seq items in
      let queue = s.snapshot.user_queue in
      set_user_queue (if inserts_next mode then entries ++ queue else queue ++ entries)
        (record s { snapshot = record s.snapshot { next_entry_seq = pos (seq + length items) } })

  queue_normal : P.Time → List SessionItem → QueueInsertMode → Session P → Reply P
  unfolding enqueue
  queue_normal now [] mode s = unchanged s
  queue_normal now (i ∷ rest) mode s =
      settle now (enqueue mode (i ∷ rest) (prepared (queue_mutation mode) s))
        (effects_of (clears (queue_mutation mode) s) (publish ∷ []))

  unfoldable pub queue_items : P.Time → List SessionItem → QueueInsertMode → Session P → Reply P
  unfolding queue_normal
  queue_items now items mode s = queue_normal now (normalize_items items) mode s

  abbrev pub removal : String → ℕ → Session P → QueueMutation
  removal id index s = record no_mutation {
    changed_entry_ids = trim_space id ∷ [];
    invalidate_queue_index = removal_hits s.transport_pending index;
  }

  -- At the index that the search found, if any.
  unfoldable pub remove_found : P.Time → String → Session P → Option ℕ → Reply P
  remove_found now id s none = refuse s (Failure.entry_not_found (trim_space id))
  remove_found now id s (some index) =
      settle now
        (cancel_pending_retry P (
          set_user_queue (remove_at s.snapshot.user_queue index) (prepared (removal id index s) s)))
        (effects_of (clears (removal id index s) s) (publish ∷ []))

  unfoldable pub remove_queued_entry : P.Time → String → Session P → Reply P
  unfolding remove_found
  remove_queued_entry now id s = remove_found now id s (index_of_entry_id s.snapshot.user_queue id)

  abbrev pub displacement : String → ℕ → ℕ → Session P → QueueMutation
  displacement id from to s = record no_mutation {
    changed_entry_ids = trim_space id ∷ [];
    invalidate_queue_index = move_hits s.transport_pending id from to;
  }

  unfoldable pub moved : P.Time → String → ℕ → ℕ → Session P → Reply P
  unfolding move_entry
  moved now id from to s =
      settle now
        (cancel_pending_retry P (
          set_user_queue (move_entry s.snapshot.user_queue from to)
            (prepared (displacement id from to s) s)))
        (effects_of (clears (displacement id from to s) s) (publish ∷ []))

  unfoldable pub move_found : P.Time → String → ℤ → Session P → Option ℕ → Reply P
  unfolding moved
  move_found now id to s none = refuse s (Failure.entry_not_found (trim_space id))
  move_found now id to s (some from) =
      if not (in_range to (length s.snapshot.user_queue))
      then refuse s (Failure.index_out_of_range to)
      else if from == pos_part to
      then unchanged s
      else moved now id from (pos_part to) s

  unfoldable pub move_queued_entry : P.Time → String → ℤ → Session P → Reply P
  unfolding move_found
  move_queued_entry now id to s =
      move_found now id to s (index_of_entry_id s.snapshot.user_queue id)

  -- By index: the entry's id is read first, and the operation looks for it again.
  unfoldable pub remove_queue_item : P.Time → ℤ → Session P → Reply P
  unfolding remove_queued_entry
  remove_queue_item now index s =
      if in_range index (length s.snapshot.user_queue)
      then remove_queued_entry now
          (get_or s.snapshot.user_queue (pos_part index) zero_entry).entry_id s
      else refuse s (Failure.index_out_of_range index)

  unfoldable pub move_queue_item : P.Time → ℤ → ℤ → Session P → Reply P
  unfolding move_queued_entry
  move_queue_item now from to s =
      if in_range from (length s.snapshot.user_queue)
      then move_queued_entry now (get_or s.snapshot.user_queue (pos_part from) zero_entry).entry_id
          to s
      else refuse s (Failure.index_out_of_range from)

  unfoldable pub append_to_queue : P.Time → List SessionItem → Session P → Reply P
  unfolding queue_items
  append_to_queue now items s = queue_items now items QueueInsertMode.last s

  unfoldable pub emptied : Session P → Session P
  unfolding idle_snapshot
  emptied s =
      let bare = record (clear_loading_state s.snapshot) {
        context_queue = none;
        user_queue = [];
        last_error = "";
      } in
      let cleared = cancel_pending_retry P (mark_queue_dirty P (record s { snapshot = bare })) in
      if is_none s.snapshot.current_entry
      then record cleared { snapshot = idle_snapshot bare; loaded_entry_id = ""; loaded_uri = "" }
      else cleared

  unfoldable pub clear_queue : P.Time → Session P → Reply P
  unfolding emptied
  clear_queue now s = settle now (emptied (prepared clearing s)) (
      effects_of (clears clearing s)
        (if is_none s.snapshot.current_entry then stop_backend ∷ publish ∷ [] else publish ∷ []))

  -- `ParseRepeatMode`
  unfoldable pub parse_repeat_mode : String → Option RepeatMode
  parse_repeat_mode value =
      let text = P.to_lower (trim_space value) in
      if str_eq text "off"
      then some RepeatMode.off
      else if str_eq text "all"
      then some RepeatMode.all
      else if str_eq text "one"
      then some RepeatMode.one
      else none

  -- `ParseQueueInsertMode`
  unfoldable pub parse_queue_insert_mode : String → QueueInsertMode
  parse_queue_insert_mode value =
      if str_eq (P.to_lower (trim_space value)) "next"
      then QueueInsertMode.next
      else QueueInsertMode.last

  unfoldable pub with_repeat_mode : P.Time → RepeatMode → Session P → Reply P
  with_repeat_mode now mode s =
      let before = resume_context_index s.snapshot in
      let ready = invalidate_preload_plan P s in
      let set =
        on_snapshot P (recalculate_resume_context_index P)
          (record ready { snapshot = record ready.snapshot { repeat_mode = mode } }) in
      settle now
        (if eqb_ℤ (resume_context_index set.snapshot) before then set else mark_queue_dirty P set)
        (effects_of (needs_clear_preload P s) (publish ∷ []))

  unfoldable pub set_repeat_mode : P.Time → String → Session P → Reply P
  unfolding parse_repeat_mode with_repeat_mode
  set_repeat_mode now mode s = elim (parse_repeat_mode (trim_space mode)) [
    | none ↦ refuse s (Failure.invalid_repeat_mode mode)
    | some m ↦ with_repeat_mode now m s
  ]

  abbrev set_seed : ℕ → ContextQueue → ContextQueue
  set_seed seed q = record q { shuffle_seed = seed }

  -- A new seed where shuffle is turned on with a context.
  reseed : Session P → Session P
  reseed s = elim s.snapshot.context_queue [
    | none ↦ s
    | some q ↦
        let (seed, rng') = P.rand.uint64 s.rng in
        record s {
          rng = rng';
          snapshot = record s.snapshot { context_queue = some (set_seed seed q) };
        }
  ]

  unfoldable pub shuffled_session : Bool → Session P → Session P
  unfolding reseed
  shuffled_session enabled s =
      let set = record s { snapshot = record s.snapshot { shuffle = enabled } } in
      if enabled
      then rebuild_shuffle_cycle P (if s.snapshot.shuffle then set else reseed set)
      else on_snapshot P clear_context_shuffle_state set

  unfoldable pub set_shuffle : P.Time → Bool → Session P → Reply P
  unfolding shuffled_session
  set_shuffle now enabled s =
      let cancelled = cancel_transport_transition P (advance_intent_epoch P s) in
      settle now
        (mark_queue_dirty P (
          on_snapshot P (recalculate_resume_context_index P)
            (shuffled_session enabled (invalidate_preload_plan P cancelled))))
        (effects_of (needs_clear_preload P cancelled) (publish ∷ []))
