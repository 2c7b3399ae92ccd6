-- ===== src/Playback/Session/Reshuffle.antt =====
-- internal/playback/session.go, rebuildShuffleCycleLocked: the bag that is stored is what is played.
use ben_desktop.Base.{
  ℕ, ◌<◌, ◌≡◌, refl, sym, ap, ◌∙◌, subst, Bool, true, Option, none, some, List, [], ◌∷◌, map,
  length, ◌==◌, if◌then◌else◌, arith,
}
use ben_desktop.Base.Int.{pos}
use ben_desktop.Base.Count.{IsCycle}
use ben_desktop.Playback.Types.{SessionEntry, ContextQueue, SessionSnapshot}
use ben_desktop.Playback.Platform.{Platform}
use ben_desktop.Playback.Context.{
  context_all_entries, queue_all_entries, shuffle_bag, shuffle_anchor_index,
}
use ben_desktop.Playback.Shuffle.{
  sanitize_shuffle_bag, build_anchored_cycle, effective_shuffle_cycle,
}
use ben_desktop.Playback.Shuffle.Sanitize.{sanitize_shuffle_bag_complete}
use ben_desktop.Playback.Shuffle.Cycle.{build_anchored_cycle-IsCycle}
use ben_desktop.Playback.Normalize.{clear_context_shuffle_state}
use ben_desktop.Playback.Session.{
  Session, on_snapshot, seeded_rebuild, rebuild_from, rebuild_shuffle_cycle,
}

abbrev entries_of : Option ContextQueue → List SessionEntry
entries_of o = elim o [ none ↦ [] | some q ↦ queue_all_entries q ]

-- A cycle with entries that is kept is what is played.
kept_cycle :
    (kept cycle other : List ℕ)
    → kept ≡ cycle
    → 0 < length cycle
    → (elim kept as (λ x. List ℕ) [ [] ↦ other | i ∷ rest ↦ i ∷ rest ]) ≡ cycle
kept_cycle [] cycle other e h = absurd (ground (arith, rw (← e) at h))
kept_cycle (i ∷ rest) cycle other e h = e

module _ (P : Platform) (s : Session P) where
  -- A bag of the snapshot that is a cycle is what is played.
  bag-effective :
      (t : SessionSnapshot) (cycle : List ℕ)
      → shuffle_bag t ≡ map pos cycle
      → 0 < length (context_all_entries t)
      → IsCycle (length (context_all_entries t)) cycle
      → effective_shuffle_cycle P.rand t ≡ cycle
  unfolding effective_shuffle_cycle
  bag-effective t cycle e h c =
      let n = length (context_all_entries t) in
      kept_cycle (sanitize_shuffle_bag (shuffle_bag t) n) cycle _
        (ap (λ bag. sanitize_shuffle_bag bag n) e ∙ sanitize_shuffle_bag_complete cycle n h c)
        (ground (arith, c.sized))

  rebuilt :
      (q : ContextQueue)
      → s.snapshot.context_queue ≡ some q
      → s.snapshot.shuffle ≡ true
      → rebuild_shuffle_cycle P s ≡ rebuild_from P s (some q)
  unfolding rebuild_shuffle_cycle
  rebuilt q e on =
      ap
        (λ (b : Bool).
          if b
          then rebuild_from P s s.snapshot.context_queue
          else on_snapshot P clear_context_shuffle_state s)
        on
      ∙ ap (rebuild_from P s) e

  rebuild_from_lem :
      (q : ContextQueue)
      → s.snapshot.context_queue ≡ some q
      → 0 < length (context_all_entries s.snapshot)
      → shuffle_bag (rebuild_from P s (some q)).snapshot
        ≡ map pos (effective_shuffle_cycle P.rand (rebuild_from P s (some q)).snapshot)
  unfolding rebuild_from seeded_rebuild shuffle_bag context_all_entries
  rebuild_from_lem q e h =
      let all = context_all_entries s.snapshot in
      let same : context_all_entries s.snapshot ≡ queue_all_entries q = ap entries_of e in
      let sizes : length (queue_all_entries q) ≡ length all = ap length (sym same) in
      let seed = if q.shuffle_seed == 0 then (P.rand.uint64 s.rng).0 else q.shuffle_seed in
      let cycle =
        build_anchored_cycle P.rand all (shuffle_anchor_index s.snapshot)
          (P.rand.new_source seed) in
      ap (map pos) (
        sym (
          bag-effective (rebuild_from P s (some q)).snapshot cycle refl (rw sizes h) (
            rw sizes (
              build_anchored_cycle-IsCycle P.rand all (shuffle_anchor_index s.snapshot)
                (P.rand.new_source seed)))))

  -- With shuffle on and a context that has entries, the bag that is stored anew is the cycle that is
  -- played from then on.
  pub shuffle_bag-rebuild_shuffle_cycle :
      (q : ContextQueue)
      → s.snapshot.context_queue ≡ some q
      → s.snapshot.shuffle ≡ true
      → 0 < length (context_all_entries s.snapshot)
      → shuffle_bag (rebuild_shuffle_cycle P s).snapshot
        ≡ map pos (effective_shuffle_cycle P.rand (rebuild_shuffle_cycle P s).snapshot)
  unfolding rebuild_shuffle_cycle
  shuffle_bag-rebuild_shuffle_cycle q e on h =
      subst
        (λ (t : Session P).
          shuffle_bag t.snapshot ≡ map pos (effective_shuffle_cycle P.rand t.snapshot))
        (sym (rebuilt q e on)) (rebuild_from_lem q e h)
