-- ===== src/Playback/Session/Planning/Overwrite.antt =====
-- internal/playback/session.go: what the plan lists, and what making it does to the live queue.
use ben_desktop.Base.{suc, ◌≡◌, refl, ap, ◌∙◌, List, [], ◌∷◌, ◌++◌, map, arith}
use ben_desktop.Playback.Types.{SessionEntry, SessionSnapshot}
use ben_desktop.Playback.Rand.{Rand}
use ben_desktop.Playback.Upcoming.{next_action_count, build_upcoming_entries}
use ben_desktop.Playback.Iterator.{PlaybackCandidate, new_next_action_iterator, candidates}
use ben_desktop.Playback.Iterator.Plan.{own, entries-candidates}
use ben_desktop.Playback.Session.Planning.{planned_candidate, plan_candidates}

entry_ids :
    (cs : List PlaybackCandidate)
    → map (λ c. c.entry_id) (map planned_candidate cs)
      ≡ map (λ (e : SessionEntry). e.entry_id) (map (λ c. c.entry) cs)
entry_ids [] = refl
entry_ids (c ∷ cs) = ap (λ l. c.entry.entry_id ∷ l) (entry_ids cs)

-- A plan names the current entry under repeat-one and then the upcoming entries of the snapshot that
-- it is made from, all of them and in their order.
pub ids-plan_candidates :
    (R : Rand) (s : SessionSnapshot)
    → map (λ c. c.entry_id) (plan_candidates R s)
      ≡ map (λ e. e.entry_id) (own s ++ build_upcoming_entries R s)
unfolding plan_candidates
ids-plan_candidates R s =
    let fuel = suc (next_action_count R s) in
    entry_ids (candidates fuel fuel (new_next_action_iterator R s []))
    ∙ ap (map (λ e. e.entry_id)) (entries-candidates R s fuel fuel (omega arith) (omega arith))

-- The last of the entries.
abbrev pub last_of : SessionEntry → List SessionEntry → SessionEntry
last_of e [] = e
last_of e (f ∷ rest) = last_of f rest
