-- ===== src/Playback/Shuffle/Anchor.antt =====
-- internal/playback/session.go: the cycle in force, and what the optimiser gains.
use ben_desktop.Base.{
  ℕ, zero, suc, ◌-◌, ◌≡◌, refl, ◌⊎◌, inl, inr, Bool, true, false, Option, none, some, List, [], ◌∷◌,
  length, arith, ltb, if◌then◌else◌, Bool-cases,
}
use ben_desktop.Base.Int.{ℤ, ◌≤ℤ◌, ltb_ℤ, ltb_ℤ→≤ℤ}
use ben_desktop.Base.Count.{IsCycle, count}
use ben_desktop.Playback.Types.{SessionEntry, SessionSnapshot, ContextQueue}
use ben_desktop.Playback.Rand.{Rand}
use ben_desktop.Playback.Context.{context_all_entries, shuffle_bag, shuffle_anchor_index}
use ben_desktop.Playback.Shuffle.{
  sanitize_shuffle_bag, rebuilt_cycle, effective_shuffle_cycle, smart_shuffle_wrap_score,
  optimize_loop, optimize_anchored_cycle, moved_to_end,
}
use ben_desktop.Playback.Shuffle.Sanitize.{sanitize_shuffle_bag_sound}
use ben_desktop.Playback.Shuffle.Cycle.{build_anchored_cycle-IsCycle}

module _ (R : Rand) where
  on_queue :
      (P : List ℕ → Type 0) (q : Option ContextQueue) (f : ContextQueue → List ℕ)
      → (q ≡ none → P [])
      → ((c : ContextQueue) → P (f c))
      → P (elim q [ none ↦ [] | some c ↦ f c ])
  on_queue P none f h k = h refl
  on_queue P (some c) f h k = k c

  empty_without_queue :
      (s : SessionSnapshot) → s.context_queue ≡ none → length (context_all_entries s) ≡ 0
  unfolding context_all_entries
  empty_without_queue s e = ground arith

  rebuilt_cycle-IsCycle :
      (s : SessionSnapshot) → IsCycle (length (context_all_entries s)) (rebuilt_cycle R s)
  unfolding rebuilt_cycle count
  rebuilt_cycle-IsCycle s =
      on_queue (IsCycle (length (context_all_entries s))) s.context_queue _
        (λ e. rw (empty_without_queue s e) (record { counted = λ a. ground arith; sized = refl }))
        (λ q. build_anchored_cycle-IsCycle R (context_all_entries s) (shuffle_anchor_index s) _)

  IsCycle-or-rebuilt :
      (n : ℕ) (kept built : List ℕ)
      → (kept ≡ []) ⊎ IsCycle n kept
      → IsCycle n built
      → IsCycle n (elim kept [ [] ↦ built | i ∷ rest ↦ i ∷ rest ])
  IsCycle-or-rebuilt n [] built h c = c
  IsCycle-or-rebuilt n (i ∷ rest) built (inl e) c = absurd (ground arith)
  IsCycle-or-rebuilt n (i ∷ rest) built (inr h) c = h

  -- In every snapshot, whatever bag it was stored with, the shuffle plays each entry of the context
  -- exactly once in a round.
  pub effective_shuffle_cycle-IsCycle :
      (s : SessionSnapshot) → IsCycle (length (context_all_entries s)) (effective_shuffle_cycle R s)
  unfolding effective_shuffle_cycle
  effective_shuffle_cycle-IsCycle s =
      let n = length (context_all_entries s) in
      IsCycle-or-rebuilt n (sanitize_shuffle_bag (shuffle_bag s) n) (rebuilt_cycle R s)
        (elim (sanitize_shuffle_bag_sound (shuffle_bag s) n) [ inl e ↦ inl e | inr c ↦ inr c.0 ])
        (rebuilt_cycle-IsCycle s)

  module _ (entries : List SessionEntry) where
    abbrev wrap : List ℕ → ℤ
    wrap = smart_shuffle_wrap_score R entries

    choice-ge :
        (xs ys cycle : List ℕ) (b : Bool)
        → ltb_ℤ (wrap xs) (wrap ys) ≡ b
        → wrap cycle ≤ℤ wrap xs
        → wrap cycle ≤ℤ wrap (if b then ys else xs)
    choice-ge xs ys cycle true e h = omega (arith, ltb_ℤ→≤ℤ (wrap xs) (wrap ys) e)
    choice-ge xs ys cycle false e h = h

    optimize_loop-ge :
        (cycle : List ℕ) (rounds index : ℕ) (best : List ℕ) (score : ℤ)
        → score ≡ wrap best
        → wrap cycle ≤ℤ wrap best
        → wrap cycle ≤ℤ wrap (optimize_loop R entries cycle rounds index best score)
    unfolding optimize_loop
    optimize_loop-ge cycle zero index best score e h = h
    optimize_loop-ge cycle (suc rounds) index best score e h =
        let trial = moved_to_end cycle index in
        let better = ltb_ℤ score (wrap trial) in
        optimize_loop-ge cycle rounds (suc index) _ _
          (elim (Bool-cases better) [ inl p ↦ rw p | inr p ↦ rw p e ])
          (choice-ge best trial cycle better (rw (← e)) h)

    -- The optimiser never returns a cycle with a worse score than the one that it was given.
    pub wrap_score-optimize_anchored_cycle :
        (cycle : List ℕ)
        → smart_shuffle_wrap_score R entries cycle
          ≤ℤ smart_shuffle_wrap_score R entries (optimize_anchored_cycle R entries cycle)
    unfolding optimize_anchored_cycle
    wrap_score-optimize_anchored_cycle cycle = elim (Bool-cases (ltb (length cycle) 3)) [
      | inl short ↦ rw short (omega arith)
      | inr long ↦
          rw long
            (optimize_loop-ge cycle (length cycle - 2) 1 cycle (wrap cycle) refl (omega arith))
    ]
