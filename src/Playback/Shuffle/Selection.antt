-- ===== src/Playback/Shuffle/Selection.antt =====
-- internal/playback/session.go: the scan for the best score always finds a candidate, and each
-- round moves one index from the rest to the cycle.
use ben_desktop.Base.{
  ℕ, zero, suc, ◌+◌, ◌*◌, ◌≤◌, ◌<◌, ◌≡◌, Bool, true, false, List, [], ◌∷◌, ◌++◌, All, length,
  get_or, reverse, arith, if◌then◌else◌, length-append,
}
use ben_desktop.Base.Int.{ℤ, pos, ◌+ℤ◌, ◌-ℤ◌, ltb_ℤ, eqb_ℤ, neg_part, +ℤ_parts}
use ben_desktop.Playback.Types.{SessionItem, SessionEntry}
use ben_desktop.Playback.Rand.{Rand}
use ben_desktop.Playback.Shuffle.{
  best_loop, lowest_score, penalty, pair_score, score_loop, smart_shuffle_score, item_at,
}

below_mono : (m n : ℕ) (xs : List ℕ) → m ≤ n → All (λ i. i < m) xs → All (λ i. i < n) xs
below_mono m n [] h p = tt
below_mono m n (x ∷ xs) h p = (omega arith, below_mono m n xs h p.1)

below-append :
    (n : ℕ) (xs : List ℕ) (k : ℕ) → All (λ i. i < n) xs → k < n → All (λ i. i < n) (xs ++ k ∷ [])
below-append n [] k p h = (h, tt)
below-append n (x ∷ xs) k p h = (p.0, below-append n xs k p.1 h)

below-get_or :
    (n : ℕ) (xs : List ℕ) (j : ℕ) → All (λ i. i < n) xs → j < length xs → get_or xs j 0 < n
below-get_or n [] j p h = elim h [ ]
below-get_or n (x ∷ xs) zero p h = p.0
below-get_or n (x ∷ xs) (suc j) p h = below-get_or n xs j p.1 (omega arith)

below-choice :
    (k : ℕ) (found : List ℕ) (s t : Bool)
    → All (λ i. i < k) found
    → All (λ i. i < suc k) (if s then k ∷ [] else if t then found ++ k ∷ [] else found)
below-choice k found true t h = (omega arith, tt)
below-choice k found false true h =
    below-append (suc k) found k (below_mono k (suc k) found (omega arith) h) (omega arith)
below-choice k found false false h = below_mono k (suc k) found (omega arith) h

-- The positions that the scan collects lie in the list.
best_loop-lt :
    (score : ℕ → ℤ) (rest : List ℕ) (k : ℕ) (best : ℤ) (found : List ℕ) (n : ℕ)
    → k + length rest ≤ n
    → All (λ i. i < k) found
    → All (λ i. i < n) (best_loop score rest k best found)
unfolding best_loop
best_loop-lt score [] k best found n e h = below_mono k n found (omega arith) h
best_loop-lt score (x ∷ rest) k best found n e h =
    best_loop-lt score rest (suc k) _ _ n (omega arith)
      (below-choice k found (ltb_ℤ best (score x)) (eqb_ℤ (score x) best) h)

choice-pos :
    (k : ℕ) (found : List ℕ) (s t : Bool)
    → 0 < length found
    → 0 < length (if s then k ∷ [] else if t then found ++ k ∷ [] else found)
choice-pos k found s t h = ground (arith, length-append found (k ∷ []))

-- A scan that has found a candidate keeps one.
best_loop-pos :
    (score : ℕ → ℤ) (rest : List ℕ) (k : ℕ) (best : ℤ) (found : List ℕ)
    → 0 < length found
    → 0 < length (best_loop score rest k best found)
unfolding best_loop
best_loop-pos score [] k best found h = h
best_loop-pos score (x ∷ rest) k best found h =
    best_loop-pos score rest (suc k) _ _
      (choice-pos k found (ltb_ℤ best (score x)) (eqb_ℤ (score x) best) h)

best_loop_finds :
    (score : ℕ → ℤ) (x : ℕ) (rest : List ℕ)
    → ltb_ℤ lowest_score (score x) ≡ true
    → 0 < length (best_loop score (x ∷ rest) 0 lowest_score [])
unfolding best_loop
best_loop_finds score x rest h =
    rw (h, best_loop) (best_loop-pos score rest 1 (score x) (0 ∷ []) (omega arith))

penalty-le : (a : ℤ) (t : Bool) (n : ℕ) → neg_part (a -ℤ penalty t n) ≤ neg_part a + n
unfolding ◌-ℤ◌
penalty-le a t n = ground arith

module _ (R : Rand) where
  -- A score never falls to the value that the scan starts from.
  pair_score-ge : (c p : SessionItem) (w : ℕ) → neg_part (pair_score R c p w) ≤ 1000 + 520 * w
  unfolding pair_score
  pair_score-ge c p w = omega (arith, penalty-le)

  score_loop-ge :
      (entries : List SessionEntry) (c : SessionItem) (is : List ℕ) (w : ℕ) (score : ℤ)
      → neg_part (score_loop R entries c is w score) ≤ neg_part score + (1000 * w + 520 * (w * w))
  unfolding score_loop
  score_loop-ge entries c [] w score = omega arith
  score_loop-ge entries c (i ∷ is) zero score = omega arith
  score_loop-ge entries c (i ∷ is) (suc w) score =
      let p = pair_score R c (item_at entries i) (suc w) in
      grind (
        arith,
        score_loop-ge entries c is w (score +ℤ p),
        pair_score-ge c (item_at entries i) (suc w),
        +ℤ_parts score p,
      )

  lowest-lt-score :
      (entries : List SessionEntry) (cycle : List ℕ) (i : ℕ)
      → ltb_ℤ lowest_score (smart_shuffle_score R entries cycle i) ≡ true
  unfolding smart_shuffle_score
  lowest-lt-score entries cycle i =
      let s = score_loop R entries (item_at entries i) (reverse cycle) 3 (pos 0) in
      ground (
        arith,
        score_loop-ge entries (item_at entries i) (reverse cycle) 3 (pos 0),
        +ℤ_parts s (pos (length cycle * 10)),
      )

  -- The round's choice is a position of the rest.
  pub chosen-lt :
      (entries : List SessionEntry) (cycle : List ℕ) (x : ℕ) (rest : List ℕ) (rng : R.Source)
      → let best = best_loop (smart_shuffle_score R entries cycle) (x ∷ rest) 0 lowest_score [] in
        get_or best (R.intn rng (length best)).0 0 < suc (length rest)
  chosen-lt entries cycle x rest rng =
      let score = smart_shuffle_score R entries cycle in
      let best = best_loop score (x ∷ rest) 0 lowest_score [] in
      below-get_or (suc (length rest)) best (R.intn rng (length best)).0
        (best_loop-lt score (x ∷ rest) 0 lowest_score [] (suc (length rest)) (omega arith) tt)
        (R.intn-lt rng (length best)
          (best_loop_finds score x rest (lowest-lt-score entries cycle x)))
