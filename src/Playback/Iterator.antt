-- ===== src/Playback/Iterator.antt =====
-- internal/playback/session.go: the iterator over what can be played next, and the plan it fills.
pub mod Phases
pub mod Rounds
pub mod Plan
use ben_desktop.Base.{
  ℕ, zero, suc, ◌+◌, ◌-◌, String, Bool, true, false, Option, none, some, List, [], ◌∷◌, ◌&&◌, ◌||◌,
  not, length, get_or, ltb, leb, ◌==◌, str_eq, if◌then◌else◌,
}
use ben_desktop.Base.Int.{ℤ, pos, negsuc, pos_part, is_negative, in_range}
use ben_desktop.Playback.Types.{
  EntryOrigin, SessionEntry, SessionSnapshot, is_repeat_all, is_repeat_one, zero_entry,
}
use ben_desktop.Playback.Rand.{Rand}
use ben_desktop.Playback.Context.{
  context_all_entries, current_context_index, resume_context_index, current_matches_context,
}
use ben_desktop.Playback.Shuffle.{effective_shuffle_cycle}
use ben_desktop.Playback.Position.{index_of_int}
use ben_desktop.Playback.Upcoming.{current_in_context, first_upcoming_context_index}

pub record PlaybackCandidate : Type 0 where
  pub entry : SessionEntry
  pub origin : EntryOrigin
  pub queue_index : ℤ

-- The counters never fall below 0.
pub record NextActionIterator : Type 0 where
  pub snapshot : SessionSnapshot
  pub blocked : List String
  pub emitted_repeat_one : Bool
  pub user_index : ℕ
  pub context_index : ℕ
  pub context_wrap_index : ℕ
  pub context_wrap_limit : ℕ
  pub context_wrapping : Bool
  pub shuffle_cycle : List ℕ
  pub shuffle_pos : ℕ
  pub shuffle_wrap_limit : ℕ
  pub shuffle_wrapping : Bool

abbrev fresh_iterator : SessionSnapshot → List String → NextActionIterator
fresh_iterator s blocked = record {
  snapshot = s;
  blocked = blocked;
  emitted_repeat_one = false;
  user_index = 0;
  context_index = 0;
  context_wrap_index = 0;
  context_wrap_limit = 0;
  context_wrapping = false;
  shuffle_cycle = [];
  shuffle_pos = 0;
  shuffle_wrap_limit = 0;
  shuffle_wrapping = false;
}

-- Position and wrap limit under shuffle.
shuffle_start : SessionSnapshot → List ℕ → ℕ × ℕ
shuffle_start s cycle =
    let wraps = is_repeat_all s.repeat_mode in
    let n = length cycle in
    if current_in_context s
    then elim (index_of_int cycle (current_context_index s)) [
      | none ↦ (0, 0)
      | some p ↦ (if ltb n (p + 1) then n else p + 1, if wraps then if n == 1 then 1 else p else 0)
    ]
    else if in_range (resume_context_index s) (length (context_all_entries s))
    then elim (index_of_int cycle (resume_context_index s)) [
      | none ↦ (0, 0)
      | some p ↦ (p, if wraps then p else 0)
    ]
    else (0, 0)

shuffled_iterator : SessionSnapshot → List String → List ℕ → NextActionIterator
unfolding shuffle_start
shuffled_iterator s blocked [] = fresh_iterator s blocked
shuffled_iterator s blocked (i ∷ rest) = record (fresh_iterator s blocked) {
  shuffle_cycle = i ∷ rest;
  shuffle_pos = (shuffle_start s (i ∷ rest)).0;
  shuffle_wrap_limit = (shuffle_start s (i ∷ rest)).1;
}

-- The wrap limit without shuffle.
context_limit : SessionSnapshot → ℕ → ℕ
context_limit s start =
    if is_repeat_all s.repeat_mode
    then if current_in_context s
      then if length (context_all_entries s) == 1 then 1 else pos_part (current_context_index s)
      else if not (current_matches_context s) && ltb 0 start
      then start
      else 0
    else 0

module _ (R : Rand) where
  start_of : SessionSnapshot → ℕ
  start_of s =
      let start = first_upcoming_context_index R s in
      if is_negative start then length (context_all_entries s) else pos_part start

  unfoldable pub new_next_action_iterator : SessionSnapshot → List String → NextActionIterator
  unfolding shuffled_iterator context_limit start_of
  new_next_action_iterator s blocked =
      if length (context_all_entries s) == 0
      then fresh_iterator s blocked
      else if s.shuffle
      then shuffled_iterator s blocked (effective_shuffle_cycle R s)
      else record (fresh_iterator s blocked) {
        context_index = start_of s;
        context_wrap_limit = context_limit s (start_of s);
      }

unfoldable pub member : String → List String → Bool
member k [] = false
member k (x ∷ xs) = str_eq x k || member k xs

pub is_blocked : NextActionIterator → String → Bool
unfolding member
is_blocked it entry_id = member entry_id it.blocked

abbrev pub context_candidate : SessionSnapshot → ℕ → PlaybackCandidate
context_candidate s i = record {
  entry = get_or (context_all_entries s) i zero_entry;
  origin = EntryOrigin.context;
  queue_index = negsuc 0;
}

-- The second pass over the cycle, and over the context.
shuffle_wrap : NextActionIterator → NextActionIterator × Option PlaybackCandidate
shuffle_wrap it = if leb it.shuffle_wrap_limit it.shuffle_pos then (it, none) else (
  record it { shuffle_pos = it.shuffle_pos + 1 },
  some (context_candidate it.snapshot (get_or it.shuffle_cycle it.shuffle_pos 0)),
)

shuffle_next : NextActionIterator → NextActionIterator × Option PlaybackCandidate
shuffle_next it =
    if it.shuffle_wrapping
    then shuffle_wrap it
    else if ltb it.shuffle_pos (length it.shuffle_cycle)
    then (
      record it { shuffle_pos = it.shuffle_pos + 1 },
      some (context_candidate it.snapshot (get_or it.shuffle_cycle it.shuffle_pos 0)),
    )
    else if leb it.shuffle_wrap_limit 0
    then (it, none)
    else shuffle_wrap (record it { shuffle_wrapping = true; shuffle_pos = 0 })

order_wrap : NextActionIterator → NextActionIterator × Option PlaybackCandidate
order_wrap it = if leb it.context_wrap_limit it.context_wrap_index then (it, none) else (
  record it { context_wrap_index = it.context_wrap_index + 1 },
  some (context_candidate it.snapshot it.context_wrap_index),
)

order_next : NextActionIterator → NextActionIterator × Option PlaybackCandidate
order_next it =
    if it.context_wrapping
    then order_wrap it
    else if ltb it.context_index (length (context_all_entries it.snapshot))
    then (
      record it { context_index = it.context_index + 1 },
      some (context_candidate it.snapshot it.context_index),
    )
    else if leb it.context_wrap_limit 0
    then (it, none)
    else order_wrap (record it { context_wrapping = true; context_wrap_index = 0 })

pub next_context_candidate : NextActionIterator → NextActionIterator × Option PlaybackCandidate
next_context_candidate it =
    if length (context_all_entries it.snapshot) == 0
    then (it, none)
    else if it.snapshot.shuffle
    then shuffle_next it
    else order_next it

-- One round of the loop in `Next`: return a candidate, `continue`, or return nothing.
pub data Attempt : Type 0 where
  emit : PlaybackCandidate → Attempt
  skip stop : Attempt

offer : NextActionIterator → PlaybackCandidate → Attempt
offer it c = if is_blocked it c.entry.entry_id then skip else emit c

from_context : NextActionIterator × Option PlaybackCandidate → NextActionIterator × Attempt
from_context (it, none) = (it, stop)
from_context (it, some c) = (it, offer it c)

from_queue : NextActionIterator → NextActionIterator × Attempt
from_queue it =
    if ltb it.user_index (length it.snapshot.user_queue)
    then (
      record it { user_index = it.user_index + 1 },
      offer it (record {
        entry = get_or it.snapshot.user_queue it.user_index zero_entry;
        origin = EntryOrigin.queued;
        queue_index = pos it.user_index;
      }),
    )
    else from_context (next_context_candidate it)

-- The current entry, if repeat-one plays it again.
abbrev pub repeated : NextActionIterator → Option SessionEntry
repeated it =
    if it.emitted_repeat_one
    then none
    else if is_repeat_one it.snapshot.repeat_mode
    then it.snapshot.current_entry
    else none

abbrev emitted : NextActionIterator → NextActionIterator
emitted it = record it { emitted_repeat_one = true }

abbrev pub own_candidate : SessionEntry → PlaybackCandidate
own_candidate e = record { entry = e; origin = e.origin; queue_index = negsuc 0 }

attempt : NextActionIterator → NextActionIterator × Attempt
attempt it = elim (repeated it) [
  | none ↦ from_queue (emitted it)
  | some e ↦ (emitted it, offer it (own_candidate e))
]

resume :
    (NextActionIterator → NextActionIterator × Option PlaybackCandidate)
    → NextActionIterator × Attempt
    → NextActionIterator × Option PlaybackCandidate
resume again (it, emit c) = (it, some c)
resume again (it, skip) = again it
resume again (it, stop) = (it, none)

-- `Next`, with fuel for its rounds.
unfoldable pub next : ℕ → NextActionIterator → NextActionIterator × Option PlaybackCandidate
unfolding attempt resume from_queue from_context offer is_blocked next_context_candidate
    shuffle_next shuffle_wrap order_next order_wrap
next zero it = (it, none)
next (suc fuel) it = resume (next fuel) (attempt it)

gather :
    (NextActionIterator → List PlaybackCandidate)
    → NextActionIterator × Option PlaybackCandidate
    → List PlaybackCandidate
gather more (it, none) = []
gather more (it, some c) = c ∷ more it

-- The loop of `ensureNextActionPlanLocked`; each call of `Next` has `rounds` rounds.
unfoldable pub candidates : ℕ → ℕ → NextActionIterator → List PlaybackCandidate
unfolding next gather
candidates rounds zero it = []
candidates rounds (suc fuel) it = gather (candidates rounds fuel) (next rounds it)
