-- ===== src/Playback/Upcoming/Range.antt =====
-- internal/playback/session.go: which entries of the context are still to come.
use ben_desktop.Base.{
  ℕ, zero, suc, ◌+◌, ◌-◌, ◌≤◌, ◌<◌, ◌≡◌, inl, inr, Bool, true, false, ◌==◌, some, List, [], ◌∷◌,
  ◌++◌, length, get_or, take, drop, arith, ltb, if◌then◌else◌, Bool-cases, Option-cases,
}
use ben_desktop.Base.Int.{pos_part}
use ben_desktop.Base.Count.{IsCycle, count, unit_at, count-append}
use ben_desktop.Playback.Types.{SessionSnapshot, is_repeat_all}
use ben_desktop.Playback.Rand.{Rand}
use ben_desktop.Playback.Context.{context_all_entries, current_context_index}
use ben_desktop.Playback.Shuffle.{effective_shuffle_cycle, indices_from}
use ben_desktop.Playback.Shuffle.Anchor.{effective_shuffle_cycle-IsCycle}
use ben_desktop.Playback.Shuffle.Cycle.{count-indices_from}
use ben_desktop.Playback.Position.{index_of_int_bound, index_of_int-cycle}
use ben_desktop.Playback.Upcoming.{
  current_in_context, current_position, resume_position, upcoming_in_cycle, upcoming_start,
  upcoming_in_order, upcoming_indices,
}
use ben_desktop.Playback.Upcoming.Agreement.{current_matches-lt, start-index}

count-drop-take : (a p : ℕ) (xs : List ℕ) → count a (drop p xs) + count a (take p xs) ≡ count a xs
unfolding count
count-drop-take a zero xs = omega arith
count-drop-take a (suc p) [] = omega arith
count-drop-take a (suc p) (x ∷ xs) = omega (arith, count-drop-take a p xs)

count-around :
    (a p : ℕ) (xs : List ℕ)
    → p < length xs
    → unit_at (get_or xs p 0) a + (count a (drop (suc p) xs) + count a (take p xs)) ≡ count a xs
unfolding count
count-around a p [] h = elim h [ ]
count-around a zero (x ∷ xs) h = omega arith
count-around a (suc p) (x ∷ xs) h = omega (arith, count-around a p xs (omega arith))

single_count :
    (a n : ℕ) (xs : List ℕ)
    → count a (if n == 1 then get_or xs 0 0 ∷ [] else [])
      ≡ (if n == 1 then unit_at (get_or xs 0 0) a else 0)
unfolding count
single_count a n xs = ground arith

count-wrap-le :
    (a n p : ℕ) (xs : List ℕ) (wraps : Bool)
    → IsCycle n xs
    → p < n
    → count a (
        drop (p + 1) xs
        ++ (if wraps then take p xs ++ (if length xs == 1 then get_or xs 0 0 ∷ [] else []) else []))
      ≤ (if ltb a n then 1 else 0)
unfolding count
count-wrap-le a n p xs wraps c h =
    let last = if length xs == 1 then get_or xs 0 0 ∷ [] else [] in
    ground (
      arith,
      c.counted a,
      c.sized,
      count-around a p xs,
      count-append a (drop (p + 1) xs) (take p xs ++ last),
      count-append a (drop (p + 1) xs) [],
      count-append a (take p xs) last,
      single_count a (length xs) xs,
    )

upcoming_in_cycle-le :
    (s : SessionSnapshot) (n : ℕ) (xs : List ℕ) (a : ℕ)
    → IsCycle n xs
    → count a (upcoming_in_cycle s xs) ≤ (if ltb a n then 1 else 0)
unfolding upcoming_in_cycle count
upcoming_in_cycle-le s n xs a c = elim (Option-cases (current_position s xs)) [
  | inr (p, e) ↦
      let lt : p < length xs = index_of_int_bound xs (current_context_index s) (ground arith) in
      rw (e, upcoming_in_cycle)
        (count-wrap-le a n p xs (is_repeat_all s.repeat_mode) c (omega (arith, c.sized)))
  | inl e ↦ elim (Option-cases (resume_position s xs)) [
    | inr (p, f) ↦
        rw (e, f, upcoming_in_cycle)
          (ground (
            arith,
            c.counted a,
            count-drop-take a p xs,
            count-append a (drop p xs) (take p xs),
            count-append a (drop p xs) [],
          ))
    | inl f ↦ rw (e, f, upcoming_in_cycle) (ground (arith, c.counted a))
  ]
]

module _ (R : Rand) (s : SessionSnapshot) where
  abbrev total : ℕ
  total = length (context_all_entries s)

  upcoming_in_order-le :
      (a : ℕ) → 0 < total → count a (upcoming_in_order R s) ≤ (if ltb a total then 1 else 0)
  unfolding upcoming_in_order count
  upcoming_in_order-le a h =
      let start = upcoming_start R s in
      let current = pos_part (current_context_index s) in
      let one : List ℕ = if total == 1 then 0 ∷ [] else [] in
      ground (
        arith,
        (start-index R s h).1,
        current_matches-lt s,
        count-append a (indices_from start (total - start)) (indices_from 0 current ++ one),
        count-append a (indices_from start (total - start)) (indices_from 0 start),
        count-append a (indices_from start (total - start)) [],
        count-append a (indices_from 0 current) one,
        count-indices_from a start (total - start),
        count-indices_from a 0 current,
        count-indices_from a 0 start,
      )

  upcoming_start-current :
      current_in_context s ≡ true → upcoming_start R s ≡ pos_part (current_context_index s) + 1
  unfolding upcoming_start
  upcoming_start-current h = rw h

  -- No entry of the context is announced twice, and only indices of the context are read.
  pub upcoming_indices-le :
      (a : ℕ)
      → count a (upcoming_indices R s) ≤ (if ltb a (length (context_all_entries s)) then 1 else 0)
  unfolding upcoming_indices count
  upcoming_indices-le a = ground (
    arith,
    upcoming_in_order-le a,
    upcoming_in_cycle-le s total (effective_shuffle_cycle R s) a
        (effective_shuffle_cycle-IsCycle R s),
  )

  round_in_cycle :
      (a p : ℕ)
      → 1 < total
      → is_repeat_all s.repeat_mode ≡ true
      → current_position s (effective_shuffle_cycle R s) ≡ some p
      → let cycle = effective_shuffle_cycle R s in
        unit_at (get_or cycle p 0) a + count a (upcoming_in_cycle s cycle)
        ≡ (if ltb a total then 1 else 0)
  unfolding upcoming_in_cycle count
  round_in_cycle a p h r e =
      let cycle = effective_shuffle_cycle R s in
      let c = effective_shuffle_cycle-IsCycle R s in
      let lt : p < length cycle =
        index_of_int_bound cycle (current_context_index s) (ground arith) in
      let single : (length cycle == 1) ≡ false = ground (arith, c.sized) in
      rw (e, r, single, upcoming_in_cycle)
        (ground (
          arith,
          c.counted a,
          count-around a p cycle lt,
          count-append a (drop (p + 1) cycle) (take p cycle ++ []),
          count-append a (take p cycle) [],
        ))

  -- Under repeat-all, with the current entry in a context of several, the entry itself and those
  -- announced after it are every entry of the context, each once.
  pub upcoming_indices_round :
      (a : ℕ)
      → 1 < length (context_all_entries s)
      → is_repeat_all s.repeat_mode ≡ true
      → current_in_context s ≡ true
      → unit_at (pos_part (current_context_index s)) a + count a (upcoming_indices R s)
        ≡ (if ltb a (length (context_all_entries s)) then 1 else 0)
  unfolding upcoming_indices upcoming_in_order count
  upcoming_indices_round a h r here =
      let (cur, at, lt) = current_matches-lt s (ground arith) in
      elim (Bool-cases s.shuffle) [
        | inl on ↦
            let (p, e, _, g) = index_of_int-cycle (effective_shuffle_cycle-IsCycle R s) cur lt in
            let found : current_position s (effective_shuffle_cycle R s) ≡ some p = ground arith in
            ground (arith, round_in_cycle a p h r found)
        | inr off ↦ ground (
          arith,
          upcoming_start-current here,
          count-append a (indices_from (cur + 1) (total - (cur + 1))) (indices_from 0 cur ++ []),
          count-append a (indices_from 0 cur) [],
          count-indices_from a (cur + 1) (total - (cur + 1)),
          count-indices_from a 0 cur,
        )
      ]
