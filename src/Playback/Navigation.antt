-- ===== src/Playback/Navigation.antt =====
-- internal/playback/session.go: which entry of the context comes next, and which came before.
pub mod Order
pub mod Bounds
use ben_desktop.Base.{
  ℕ, zero, suc, ◌+◌, ◌-◌, Bool, true, false, Option, none, some, List, [], ◌∷◌, ◌&&◌, not, length,
  get_or, ltb, leb, if◌then◌else◌,
}
use ben_desktop.Base.Int.{ℤ, pos, negsuc, pos_part, is_negative}
use ben_desktop.Playback.Types.{
  SessionEntry, SessionSnapshot, is_repeat_all, is_repeat_one, is_context,
}
use ben_desktop.Playback.Rand.{Rand}
use ben_desktop.Playback.Context.{
  context_all_entries, current_context_index, resume_context_index, current_matches_context,
  is_valid_context_index, detached_current_context_index,
}
use ben_desktop.Playback.Shuffle.{effective_shuffle_cycle}
use ben_desktop.Playback.Position.{index_of_int}

-- -1, the answer "none".
abbrev pub no_index : ℤ
no_index = negsuc 0

abbrev first_of_cycle : List ℕ → ℤ
first_of_cycle [] = no_index
first_of_cycle (i ∷ rest) = pos i

abbrev pub has_current : SessionSnapshot → Bool
has_current s = elim s.current_entry [ none ↦ false | some e ↦ true ]

-- `CurrentEntry != nil && CurrentEntry.Origin != EntryOriginContext`
abbrev pub current_is_foreign : SessionSnapshot → Bool
current_is_foreign s = elim s.current_entry [ none ↦ false | some e ↦ not (is_context e.origin) ]

-- From an anchor that is in range, without shuffle and along the cycle.
next_in_order : SessionSnapshot → ℕ → Bool → ℤ
next_in_order s anchor ignore_repeat_one =
    if not ignore_repeat_one && is_repeat_one s.repeat_mode
    then pos anchor
    else if ltb (anchor + 1) (length (context_all_entries s))
    then pos (anchor + 1)
    else if is_repeat_all s.repeat_mode
    then pos 0
    else no_index

next_in_cycle : SessionSnapshot → List ℕ → ℕ → Bool → ℤ
next_in_cycle s [] anchor ignore_repeat_one = no_index
next_in_cycle s (first ∷ rest) anchor ignore_repeat_one =
    if not ignore_repeat_one && is_repeat_one s.repeat_mode
    then pos anchor
    else elim (index_of_int (first ∷ rest) (pos anchor)) [
      | none ↦ pos first
      | some p ↦
          if ltb (p + 1) (length (first ∷ rest))
          then pos (get_or (first ∷ rest) (p + 1) 0)
          else if is_repeat_all s.repeat_mode
          then pos first
          else no_index
    ]

previous_in_order : SessionSnapshot → ℕ → ℤ
previous_in_order s anchor =
    if ltb 0 anchor
    then pos (anchor - 1)
    else if is_repeat_all s.repeat_mode
    then pos (length (context_all_entries s) - 1)
    else no_index

previous_in_cycle : SessionSnapshot → List ℕ → ℕ → ℤ
previous_in_cycle s [] anchor = no_index
previous_in_cycle s (first ∷ rest) anchor = elim (index_of_int (first ∷ rest) (pos anchor)) [
  | none ↦ no_index
  | some p ↦
      if ltb 0 p
      then pos (get_or (first ∷ rest) (p - 1) 0)
      else if is_repeat_all s.repeat_mode
      then pos (get_or (first ∷ rest) (length rest) 0)
      else no_index
]

module _ (R : Rand) where
  unfoldable pub default_first_context_index : SessionSnapshot → ℤ
  default_first_context_index s = elim (context_all_entries s) [
    | [] ↦ no_index
    | e ∷ rest ↦ if s.shuffle then first_of_cycle (effective_shuffle_cycle R s) else pos 0
  ]

  unfoldable pub next_context_index_from_anchor : SessionSnapshot → ℤ → Bool → ℤ
  unfolding next_in_order next_in_cycle
  next_context_index_from_anchor s anchor ignore_repeat_one =
      if is_valid_context_index s anchor
      then if s.shuffle
        then next_in_cycle s (effective_shuffle_cycle R s) (pos_part anchor) ignore_repeat_one
        else next_in_order s (pos_part anchor) ignore_repeat_one
      else default_first_context_index s

  unfoldable pub previous_context_index_from_anchor : SessionSnapshot → ℤ → ℤ
  unfolding previous_in_order previous_in_cycle
  previous_context_index_from_anchor s anchor =
      if is_valid_context_index s anchor
      then if s.shuffle
        then previous_in_cycle s (effective_shuffle_cycle R s) (pos_part anchor)
        else previous_in_order s (pos_part anchor)
      else no_index

  unfoldable pub next_detached_context_resume_index : SessionSnapshot → ℤ → ℤ
  next_detached_context_resume_index s detached =
      let n = length (context_all_entries s) in
      if leb n 0
      then no_index
      else if s.shuffle
      then if is_valid_context_index s (resume_context_index s)
        then resume_context_index s
        else default_first_context_index s
      else if is_negative detached
      then default_first_context_index s
      else if leb n (pos_part detached)
      then if is_repeat_all s.repeat_mode then pos 0 else no_index
      else detached

  unfoldable pub previous_detached_context_index : SessionSnapshot → ℤ → ℤ
  previous_detached_context_index s detached =
      let n = length (context_all_entries s) in
      if leb n 0
      then no_index
      else if s.shuffle
      then if is_valid_context_index s (current_context_index s)
        then previous_context_index_from_anchor s (current_context_index s)
        else no_index
      else if leb (pos_part detached) 0
      then if is_repeat_all s.repeat_mode then pos (n - 1) else no_index
      else if ltb n (pos_part detached)
      then pos (n - 1)
      else pos (pos_part detached - 1)

  unfoldable pub normalize_resume_context_index : SessionSnapshot → ℤ
  normalize_resume_context_index s =
      let detached = detached_current_context_index s in
      if leb (length (context_all_entries s)) 0
      then no_index
      else if current_matches_context s
      then next_context_index_from_anchor s (current_context_index s) false
      else if not (is_negative detached)
      then next_detached_context_resume_index s detached
      else if current_is_foreign s && is_valid_context_index s (current_context_index s)
      then next_context_index_from_anchor s (current_context_index s) false
      else if is_valid_context_index s (resume_context_index s)
      then resume_context_index s
      else if not (has_current s) && is_valid_context_index s (current_context_index s)
      then current_context_index s
      else default_first_context_index s
