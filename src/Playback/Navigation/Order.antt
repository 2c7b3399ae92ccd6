-- ===== src/Playback/Navigation/Order.antt =====
-- internal/playback/session.go: next and previous as moves along one play order.
use ben_desktop.Base.{
  ℕ, zero, suc, ◌+◌, ◌-◌, ◌≤◌, ◌<◌, ◌≡◌, refl, sym, ap, ◌∙◌, Bool, true, List, [], ◌∷◌, length,
  get_or, arith, ltb, lt→ltb, leb, if◌then◌else◌, Bool-cases, inl, inr,
}
use ben_desktop.Base.Int.{ℤ, pos}
use ben_desktop.Base.Count.{IsCycle}
use ben_desktop.Playback.Types.{SessionSnapshot, is_repeat_all}
use ben_desktop.Playback.Rand.{Rand}
use ben_desktop.Playback.Context.{context_all_entries, is_valid_context_index}
use ben_desktop.Playback.Shuffle.{effective_shuffle_cycle, indices_from}
use ben_desktop.Playback.Shuffle.Anchor.{effective_shuffle_cycle-IsCycle}
use ben_desktop.Playback.Shuffle.Cycle.{indices_from-IsCycle}
use ben_desktop.Playback.Position.{index_of_int-get_or, index_of_int-cycle, get_or-cycle-lt}
use ben_desktop.Playback.Navigation.{
  no_index, next_in_cycle, next_context_index_from_anchor, previous_in_cycle,
  previous_context_index_from_anchor,
}

get_or-indices_from : (k n p : ℕ) → p < n → get_or (indices_from k n) p 0 ≡ k + p
unfolding indices_from
get_or-indices_from k zero p h = elim h [ ]
get_or-indices_from k (suc n) zero h = omega arith
get_or-indices_from k (suc n) (suc p) h =
    omega (arith, get_or-indices_from (suc k) n p (omega arith))

-- Along a list: the next place, wrapping at the end under repeat-all.
abbrev pub after : Bool → List ℕ → ℕ → ℤ
after wraps xs p =
    if ltb (p + 1) (length xs)
    then pos (get_or xs (p + 1) 0)
    else if wraps
    then pos (get_or xs 0 0)
    else no_index

abbrev pub before : Bool → List ℕ → ℕ → ℤ
before wraps xs p =
    if ltb 0 p
    then pos (get_or xs (p - 1) 0)
    else if wraps
    then pos (get_or xs (length xs - 1) 0)
    else no_index

next_in_cycle_at :
    (s : SessionSnapshot) (n : ℕ) (xs : List ℕ) (p : ℕ)
    → IsCycle n xs
    → p < n
    → next_in_cycle s xs (get_or xs p 0) true ≡ after (is_repeat_all s.repeat_mode) xs p
unfolding next_in_cycle
next_in_cycle_at s n [] p c h = absurd (omega (arith, c.sized))
next_in_cycle_at s n (x ∷ xs) p c h = rw (index_of_int-get_or c p h, next_in_cycle) refl

previous_in_cycle_at :
    (s : SessionSnapshot) (n : ℕ) (xs : List ℕ) (p : ℕ)
    → IsCycle n xs
    → p < n
    → previous_in_cycle s xs (get_or xs p 0) ≡ before (is_repeat_all s.repeat_mode) xs p
unfolding previous_in_cycle
previous_in_cycle_at s n [] p c h = absurd (omega (arith, c.sized))
previous_in_cycle_at s n (x ∷ xs) p c h =
    rw (index_of_int-get_or c p h, previous_in_cycle) (ground arith)

module _ (R : Rand) (s : SessionSnapshot) where
  abbrev total : ℕ
  total = length (context_all_entries s)

  -- The order in which the entries are played: as they stand, or along the shuffle cycle.
  abbrev pub play_order : List ℕ
  play_order = if s.shuffle then effective_shuffle_cycle R s else indices_from 0 total

  pub play_order-IsCycle : IsCycle (length (context_all_entries s)) play_order
  play_order-IsCycle = elim (Bool-cases s.shuffle) [
    | inl on ↦ simp on (effective_shuffle_cycle-IsCycle R s)
    | inr off ↦ simp off (indices_from-IsCycle total)
  ]

  abbrev wraps : Bool
  wraps = is_repeat_all s.repeat_mode

  next_at :
      (p : ℕ)
      → p < total
      → next_context_index_from_anchor R s (pos (get_or play_order p 0)) true
        ≡ after wraps play_order p
  unfolding next_context_index_from_anchor is_valid_context_index
  next_at p h = elim (Bool-cases s.shuffle) [
    | inl on ↦
        let c = effective_shuffle_cycle-IsCycle R s in
        simp (on, lt→ltb _ _ (get_or-cycle-lt c p h)) (next_in_cycle_at s total _ p c h)
    | inr off ↦ ground (
      arith,
      get_or-indices_from 0 total p h,
      get_or-indices_from 0 total (p + 1),
      get_or-indices_from 0 total 0,
      (indices_from-IsCycle total).sized,
    )
  ]

  previous_at :
      (p : ℕ)
      → p < total
      → previous_context_index_from_anchor R s (pos (get_or play_order p 0))
        ≡ before wraps play_order p
  unfolding previous_context_index_from_anchor is_valid_context_index
  previous_at p h = elim (Bool-cases s.shuffle) [
    | inl on ↦
        let c = effective_shuffle_cycle-IsCycle R s in
        simp (on, lt→ltb _ _ (get_or-cycle-lt c p h)) (previous_in_cycle_at s total _ p c h)
    | inr off ↦ ground (
      arith,
      get_or-indices_from 0 total p h,
      get_or-indices_from 0 total (p - 1),
      get_or-indices_from 0 total (total - 1),
      (indices_from-IsCycle total).sized,
    )
  ]

  place : (i : ℕ) → i < total → (p : ℕ) × (p < total) × (get_or play_order p 0 ≡ i)
  place i h = let (p, e, lt, g) = index_of_int-cycle play_order-IsCycle i h in (p, lt, g)

  previous-after :
      (p j : ℕ)
      → p < total
      → after wraps play_order p ≡ pos j
      → previous_context_index_from_anchor R s (pos j) ≡ pos (get_or play_order p 0)
  previous-after p j h e =
      let c = play_order-IsCycle in ground (arith, c.sized, previous_at (p + 1), previous_at 0)

  -- If the entry that follows an index in range, repeat-one aside, is j, the entry before j is that
  -- index, in order and under shuffle, also across the wrap of repeat-all.
  pub previous-next :
      (i j : ℕ)
      → i < length (context_all_entries s)
      → next_context_index_from_anchor R s (pos i) true ≡ pos j
      → previous_context_index_from_anchor R s (pos j) ≡ pos i
  previous-next i j h e =
      let (p, lt, g) = place i h in previous-after p j lt (sym (next_at p lt) ∙ rw g e) ∙ ap pos g

  -- The index after k moves.
  abbrev pub advance : ℕ → ℤ → ℤ
  advance zero i = i
  advance (suc k) i = next_context_index_from_anchor R s (advance k i) true

  abbrev wrapped : ℕ → ℕ
  wrapped p = if ltb p total then p else p - total

  advance_at :
      (k p : ℕ)
      → is_repeat_all s.repeat_mode ≡ true
      → p < total
      → k ≤ total
      → advance k (pos (get_or play_order p 0)) ≡ pos (get_or play_order (wrapped (p + k)) 0)
  advance_at zero p r h b = ground arith
  advance_at (suc k) p r h b =
      rw (advance_at k p r h (omega arith))
        (ground (arith, next_at (wrapped (p + k)), play_order-IsCycle.sized))

  -- Under repeat-all, from any index of the context, following the next index in an unchanged snapshot fewer
  -- times than the context has entries leads to any other index, in order and under shuffle.
  pub advance_reaches :
      (i j : ℕ)
      → is_repeat_all s.repeat_mode ≡ true
      → i < length (context_all_entries s)
      → j < length (context_all_entries s)
      → (k : ℕ) × (k < length (context_all_entries s)) × (advance k (pos i) ≡ pos j)
  advance_reaches i j r hi hj =
      let (p, lp, gp) = place i hi in
      let (q, lq, gq) = place j hj in
      let k : ℕ = if leb p q then q - p else q + total - p in
      let reach = advance_at k p r lp (ground arith) in
      let lands : wrapped (p + k) ≡ q = ground arith in
      (k, ground arith, rw gp at reach ∙ ap pos (ap (λ (t : ℕ). get_or play_order t 0) lands ∙ gq))
