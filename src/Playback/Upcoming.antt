-- ===== src/Playback/Upcoming.antt =====
-- internal/playback/session.go: what will be played, listed, counted and looked up at its head.
pub mod Agreement
pub mod Range
use ben_desktop.Base.{
  ℕ, zero, suc, ◌+◌, ◌-◌, Bool, true, false, Option, none, some, List, [], ◌∷◌, ◌++◌, ◌&&◌, not,
  map, length, get_or, take, drop, ltb, leb, ◌==◌, if◌then◌else◌, String, is_blank, trim_space,
  str_eq,
}
use ben_desktop.Base.Int.{ℤ, pos, negsuc, pos_part, is_negative, in_range}
use ben_desktop.Playback.Types.{
  EntryOrigin, CurrentLane, QueuePlan, SessionEntry, SessionSnapshot, is_repeat_all, is_repeat_one,
  is_queued, zero_entry,
}
use ben_desktop.Playback.Rand.{Rand}
use ben_desktop.Playback.Context.{
  context_all_entries, current_context_index, resume_context_index, current_matches_context,
  detached_current_context_index,
}
use ben_desktop.Playback.Shuffle.{effective_shuffle_cycle, indices_from}
use ben_desktop.Playback.Position.{index_of_int}
use ben_desktop.Playback.Navigation.{next_detached_context_resume_index, has_current}

-- `currentMatchesContext(s) && currentContextIndex(s) >= 0`
abbrev pub current_in_context : SessionSnapshot → Bool
current_in_context s = current_matches_context s && not (is_negative (current_context_index s))

-- Where the current entry stands in the cycle, if it is the context's.
abbrev pub current_position : SessionSnapshot → List ℕ → Option ℕ
current_position s cycle =
    if current_in_context s then index_of_int cycle (current_context_index s) else none

-- Where the resume index stands in the cycle, if it is in range.
abbrev pub resume_position : SessionSnapshot → List ℕ → Option ℕ
resume_position s cycle =
    if in_range (resume_context_index s) (length (context_all_entries s))
    then index_of_int cycle (resume_context_index s)
    else none

-- The context's part of `buildUpcomingEntries` under shuffle.
unfoldable pub upcoming_in_cycle : SessionSnapshot → List ℕ → List ℕ
upcoming_in_cycle s cycle =
    let wraps = is_repeat_all s.repeat_mode in
    elim (current_position s cycle) [
      | some p ↦
          drop (p + 1) cycle
          ++ (if wraps
              then take p cycle ++ (if length cycle == 1 then get_or cycle 0 0 ∷ [] else [])
              else [])
      | none ↦ elim (resume_position s cycle) [
        | some p ↦ drop p cycle ++ (if wraps then take p cycle else [])
        | none ↦ cycle
      ]
    ]

-- The index behind `firstUpcomingEntry` once the user queue is empty.
first_in_cycle : SessionSnapshot → List ℕ → Option ℕ
first_in_cycle s [] = none
first_in_cycle s (first ∷ rest) = elim (current_position s (first ∷ rest)) [
  | some p ↦
      if ltb (p + 1) (length (first ∷ rest))
      then some (get_or (first ∷ rest) (p + 1) 0)
      else if is_repeat_all s.repeat_mode
      then some first
      else none
  | none ↦ elim (resume_position s (first ∷ rest)) [
    | some p ↦ some (get_or (first ∷ rest) p 0)
    | none ↦ some first
  ]
]

abbrev pub entry_of : List SessionEntry → Option ℕ → Option SessionEntry
entry_of all none = none
entry_of all (some i) = some (get_or all i zero_entry)

-- `upcomingEntryCount`, less the user queue.
count_in_cycle : SessionSnapshot → List ℕ → ℕ
count_in_cycle s cycle =
    let wraps = is_repeat_all s.repeat_mode in
    elim (current_position s cycle) [
      | some p ↦
          length cycle - p - 1 + (if wraps then p + (if length cycle == 1 then 1 else 0) else 0)
      | none ↦ elim (resume_position s cycle) [
        | some p ↦ length cycle - p + (if wraps then p else 0)
        | none ↦ length cycle
      ]
    ]

module _ (R : Rand) where
  -- The first index of the context that is still to come, without shuffle.
  unfoldable pub first_upcoming_context_index : SessionSnapshot → ℤ
  first_upcoming_context_index s =
      let n = length (context_all_entries s) in
      let detached = detached_current_context_index s in
      let index = next_detached_context_resume_index R s detached in
      if n == 0
      then negsuc 0
      else if current_in_context s
      then if ltb (pos_part (current_context_index s) + 1) n
        then pos (pos_part (current_context_index s) + 1)
        else pos n
      else if not (is_negative detached)
      then if is_negative index then pos n else index
      else if in_range (resume_context_index s) n
      then resume_context_index s
      else pos 0

  -- The `start` of `buildUpcomingEntries`.
  pub upcoming_start : SessionSnapshot → ℕ
  upcoming_start s =
      let n = length (context_all_entries s) in
      let detached = detached_current_context_index s in
      let index = next_detached_context_resume_index R s detached in
      if current_in_context s
      then pos_part (current_context_index s) + 1
      else if not (is_negative detached)
      then if is_negative index then n else pos_part index
      else if in_range (resume_context_index s) n
      then pos_part (resume_context_index s)
      else 0

  -- Its context part without shuffle.
  unfoldable pub upcoming_in_order : SessionSnapshot → List ℕ
  unfolding upcoming_start
  upcoming_in_order s =
      let n = length (context_all_entries s) in
      let start = upcoming_start s in
      let current = pos_part (current_context_index s) in
      indices_from start (n - start)
      ++ (if is_repeat_all s.repeat_mode && current_in_context s
          then indices_from 0 current ++ (if n == 1 then 0 ∷ [] else [])
          else if is_repeat_all s.repeat_mode && not (current_matches_context s) && ltb 0 start
          then indices_from 0 start
          else [])

  unfoldable pub upcoming_indices : SessionSnapshot → List ℕ
  unfolding upcoming_in_order
  upcoming_indices s =
      if length (context_all_entries s) == 0
      then []
      else if s.shuffle
      then upcoming_in_cycle s (effective_shuffle_cycle R s)
      else upcoming_in_order s

  unfoldable pub build_upcoming_entries : SessionSnapshot → List SessionEntry
  unfolding upcoming_indices
  build_upcoming_entries s =
      s.user_queue ++ map (λ i. get_or (context_all_entries s) i zero_entry) (upcoming_indices s)

  first_in_order : SessionSnapshot → Option ℕ
  unfolding first_upcoming_context_index
  first_in_order s =
      let n = length (context_all_entries s) in
      let start = first_upcoming_context_index s in
      if in_range start n
      then some (pos_part start)
      else if not (is_repeat_all s.repeat_mode)
      then none
      else if current_matches_context s && ltb 0 (pos_part (current_context_index s))
      then some 0
      else if current_matches_context s && n == 1
      then some 0
      else if not (current_matches_context s) && ltb 0 (pos_part start)
      then some 0
      else none

  unfoldable pub first_upcoming_index : SessionSnapshot → Option ℕ
  unfolding first_in_cycle first_in_order
  first_upcoming_index s =
      if length (context_all_entries s) == 0
      then none
      else if s.shuffle
      then first_in_cycle s (effective_shuffle_cycle R s)
      else first_in_order s

  unfoldable pub first_upcoming_entry : SessionSnapshot → Option SessionEntry
  unfolding first_upcoming_index
  first_upcoming_entry s = elim s.user_queue [
    | e ∷ rest ↦ some e
    | [] ↦ entry_of (context_all_entries s) (first_upcoming_index s)
  ]

  count_in_order : SessionSnapshot → ℕ
  unfolding first_upcoming_context_index
  count_in_order s =
      let n = length (context_all_entries s) in
      let start = first_upcoming_context_index s in
      let current = pos_part (current_context_index s) in
      (if in_range start n then n - pos_part start else 0)
      + (if is_repeat_all s.repeat_mode
          then if current_in_context s
            then current + (if n == 1 then 1 else 0)
            else if not (current_matches_context s) && ltb 0 (pos_part start)
            then pos_part start
            else 0
          else 0)

  unfoldable pub upcoming_entry_count : SessionSnapshot → ℕ
  unfolding count_in_cycle count_in_order
  upcoming_entry_count s =
      if length (context_all_entries s) == 0
      then length s.user_queue
      else if s.shuffle
      then length s.user_queue + count_in_cycle s (effective_shuffle_cycle R s)
      else length s.user_queue + count_in_order s

  unfoldable pub next_action_count : SessionSnapshot → ℕ
  unfolding upcoming_entry_count
  next_action_count s =
      upcoming_entry_count s + (if is_repeat_one s.repeat_mode && has_current s then 1 else 0)

  unfoldable pub queue_length : SessionSnapshot → ℕ
  unfolding upcoming_entry_count
  queue_length s = upcoming_entry_count s + (if has_current s then 1 else 0)
