-- ===== src/Playback/Previous.antt =====
-- internal/playback/session.go, buildPreviousActionPlan: what "previous" may go back to.
pub mod Walk
use ben_desktop.Base.{
  ℕ, zero, suc, ◌+◌, String, Bool, true, false, Option, none, some, List, [], ◌∷◌, ◌++◌, ◌&&◌, map,
  length, get_or, ltb, ◌==◌, if◌then◌else◌,
}
use ben_desktop.Base.Int.{ℤ, pos, negsuc, is_negative}
use ben_desktop.Base.Count.{count}
use ben_desktop.Playback.Types.{
  EntryOrigin, PlaybackTargetRef, SessionEntry, SessionSnapshot, is_queued, zero_entry,
}
use ben_desktop.Playback.Rand.{Rand}
use ben_desktop.Playback.Context.{
  context_all_entries, current_context_index, current_matches_context,
  detached_current_context_index,
}
use ben_desktop.Playback.Navigation.{
  previous_context_index_from_anchor, previous_detached_context_index,
}

pub record PlannedCandidate : Type 0 where
  pub entry_id : String
  pub origin : EntryOrigin
  pub queue_index : ℤ
  pub context_index : ℤ
  pub target : PlaybackTargetRef
  pub recording_id : String

-- `appendIndex`: in range and not yet seen.
abbrev pub can_append : ℕ → List ℕ → ℤ → Bool
can_append n indexes (pos i) = ltb i n && count i indexes == 0
can_append n indexes (negsuc i) = false

-- The loop `for index := ...; appendIndex(index); index = previous(index)`.
unfoldable pub walk : (ℤ → ℤ) → ℕ → ℕ → List ℕ → ℤ → List ℕ
walk previous n zero indexes index = indexes
walk previous n (suc fuel) indexes (negsuc i) = indexes
walk previous n (suc fuel) indexes (pos i) =
    let rest = walk previous n fuel (indexes ++ i ∷ []) (previous (pos i)) in
    if can_append n indexes (pos i) then rest else indexes

abbrev pub planned_from_context : SessionEntry → PlannedCandidate
planned_from_context e = record {
  entry_id = e.entry_id;
  origin = EntryOrigin.context;
  queue_index = negsuc 0;
  context_index = e.context_index;
  target = e.item.target;
  recording_id = e.item.recording_id;
}

module _ (R : Rand) where
  abbrev pub walk_back : SessionSnapshot → ℕ → ℤ → List ℕ
  walk_back s fuel index =
      walk (previous_context_index_from_anchor R s) (length (context_all_entries s)) fuel [] index

  -- A queued entry goes back to the anchor itself, the context's own entry to the one before it, and
  -- a detached entry to the one before its old place.
  unfoldable pub previous_from : SessionSnapshot → ℕ → Option SessionEntry → List ℕ
  previous_from s fuel none = []
  previous_from s fuel (some e) =
      if is_queued e.origin
      then walk_back s fuel (current_context_index s)
      else if current_matches_context s
      then walk_back s fuel (previous_context_index_from_anchor R s (current_context_index s))
      else if is_negative (detached_current_context_index s)
      then []
      else walk_back s fuel (previous_detached_context_index R s (detached_current_context_index s))

  unfoldable pub previous_indexes : SessionSnapshot → ℕ → List ℕ
  unfolding previous_from
  previous_indexes s fuel = previous_from s fuel s.current_entry

  unfoldable pub build_previous_action_plan : SessionSnapshot → List PlannedCandidate
  unfolding previous_indexes
  build_previous_action_plan s =
      let all = context_all_entries s in
      if length all == 0
      then []
      else map (λ i. planned_from_context (get_or all i zero_entry))
          (previous_indexes s (suc (length all)))
