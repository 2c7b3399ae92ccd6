-- ===== src/Playback/Shuffle.antt =====
-- internal/playback/session.go: the smart shuffle, its scores and the cycle that it builds.
pub mod Sanitize
pub mod Selection
pub mod Cycle
pub mod Anchor
use ben_desktop.Base.{
  ℕ, zero, suc, ◌+◌, ◌-◌, ◌*◌, String, Bool, true, false, Option, none, some, List, [], ◌∷◌, ◌++◌,
  ◌&&◌, ◌||◌, not, map, reverse, length, get_or, get_elem?, set, take, drop, remove_at, replicate,
  str_eq, trim_space, ltb, leb, ◌==◌, if◌then◌else◌, is_blank,
}
use ben_desktop.Base.Int.{ℤ, pos, negsuc, ◌+ℤ◌, ◌-ℤ◌, ltb_ℤ, eqb_ℤ, in_range}
use ben_desktop.Playback.Types.{SessionItem, SessionEntry, SessionSnapshot, zero_item, zero_entry}
use ben_desktop.Playback.Rand.{Rand}
use ben_desktop.Playback.Context.{context_all_entries, shuffle_bag, shuffle_anchor_index}

-- The loop of `sanitizeShuffleBag`. The empty list is nil.
sanitize_loop : List ℤ → ℕ → List Bool → List ℕ → List ℕ
sanitize_loop [] total seen out = out
sanitize_loop (negsuc i ∷ bag) total seen out = []
sanitize_loop (pos i ∷ bag) total seen out =
    if leb total i || get_or seen i false
    then []
    else sanitize_loop bag total (set seen i true) (out ++ i ∷ [])

unfoldable pub sanitize_shuffle_bag : List ℤ → ℕ → List ℕ
unfolding sanitize_loop
sanitize_shuffle_bag bag total =
    if total == 0 || not (length bag == total)
    then []
    else sanitize_loop bag total (replicate total false) []

-- `indices_from k n` is k, …, k + n - 1.
unfoldable pub indices_from : ℕ → ℕ → List ℕ
indices_from start zero = []
indices_from start (suc n) = start ∷ indices_from (suc start) n

-- The loop that leaves out the anchor.
without : ℕ → List ℕ → List ℕ
without anchor [] = []
without anchor (i ∷ rest) = if i == anchor then without anchor rest else i ∷ without anchor rest

-- `xs[l], xs[r] = xs[r], xs[l]`; the positions of `Shuffle` are in range.
swap_at : List ℕ → ℕ → ℕ → List ℕ
swap_at xs l r = elim (get_elem? xs l) [
  | none ↦ xs
  | some x ↦ elim (get_elem? xs r) [ none ↦ xs | some y ↦ set (set xs l y) r x ]
]

apply_swaps : List (ℕ × ℕ) → List ℕ → List ℕ
apply_swaps [] xs = xs
apply_swaps ((l, r) ∷ rest) xs = apply_swaps rest (swap_at xs l r)

abbrev item_at : List SessionEntry → ℕ → SessionItem
item_at entries i = (get_or entries i zero_entry).item

-- The scan of one round: the positions in `remaining` whose score is the best seen.
pub best_loop : (ℕ → ℤ) → List ℕ → ℕ → ℤ → List ℕ → List ℕ
best_loop score [] k best found = found
best_loop score (e ∷ rest) k best found =
    best_loop score rest (suc k) (if ltb_ℤ best (score e) then score e else best) (
      if ltb_ℤ best (score e)
      then k ∷ []
      else if eqb_ℤ (score e) best
      then found ++ k ∷ []
      else found)

-- -1 << 30
abbrev pub lowest_score : ℤ
lowest_score = negsuc 1073741823

abbrev penalty : Bool → ℕ → ℤ
penalty test n = if test then pos n else pos 0

-- The trial of the optimiser.
abbrev moved_to_end : List ℕ → ℕ → List ℕ
moved_to_end cycle index = remove_at cycle index ++ get_or cycle index 0 ∷ []

module _ (R : Rand) where
  same_label : String → String → Bool
  same_label left right =
      not (is_blank (trim_space left)) && R.equal_fold (trim_space left) (trim_space right)

  pair_score : SessionItem → SessionItem → ℕ → ℤ
  unfolding same_label
  pair_score candidate previous weight =
      pos 0
      -ℤ penalty (str_eq candidate.recording_id previous.recording_id) 1000
      -ℤ penalty (same_label candidate.subtitle previous.subtitle) (240 * weight)
      -ℤ penalty (not (is_blank candidate.album_id) && str_eq candidate.album_id previous.album_id)
          (160 * weight)
      -ℤ penalty
          (str_eq candidate.source_kind "album"
            && not (is_blank candidate.source_id)
            && str_eq candidate.source_id previous.source_id)
          (120 * weight)

  -- The last three of the cycle, nearest first, with the weights 3, 2 and 1.
  score_loop : List SessionEntry → SessionItem → List ℕ → ℕ → ℤ → ℤ
  unfolding pair_score
  score_loop entries candidate [] weight score = score
  score_loop entries candidate (i ∷ rest) zero score = score
  score_loop entries candidate (i ∷ rest) (suc weight) score =
      score_loop entries candidate rest weight
        (score +ℤ pair_score candidate (item_at entries i) (suc weight))

  pub smart_shuffle_score : List SessionEntry → List ℕ → ℕ → ℤ
  unfolding score_loop
  smart_shuffle_score entries cycle candidate =
      score_loop entries (item_at entries candidate) (reverse cycle) 3 (pos 0)
      +ℤ pos (length cycle * 10)

  -- The `for len(remaining) > 0` loop; `fuel` is the number of rounds left.
  pick_loop : List SessionEntry → ℕ → R.Source → List ℕ → List ℕ → List ℕ
  unfolding smart_shuffle_score best_loop
  pick_loop entries zero rng remaining cycle = cycle
  pick_loop entries (suc fuel) rng [] cycle = cycle
  pick_loop entries (suc fuel) rng (x ∷ rest) cycle =
      let remaining : List ℕ = x ∷ rest in
      let best = best_loop (smart_shuffle_score entries cycle) remaining 0 lowest_score [] in
      let (k, rng') = R.intn rng (length best) in
      let chosen = get_or best k 0 in
      pick_loop entries fuel rng' (remove_at remaining chosen)
        (cycle ++ get_or remaining chosen 0 ∷ [])

  unfoldable pub build_smart_shuffle_cycle : List SessionEntry → R.Source → List ℕ
  unfolding pick_loop apply_swaps swap_at indices_from
  build_smart_shuffle_cycle entries rng =
      let n = length entries in
      let (exchanges, rng') = R.swaps rng n in
      pick_loop entries n rng' (apply_swaps exchanges (indices_from 0 n)) []

  adjacent_score : List SessionEntry → List ℕ → ℤ
  unfolding pair_score
  adjacent_score entries [] = pos 0
  adjacent_score entries (i ∷ []) = pos 0
  adjacent_score entries (i ∷ j ∷ rest) =
      pair_score (item_at entries j) (item_at entries i) 3 +ℤ adjacent_score entries (j ∷ rest)

  unfoldable pub smart_shuffle_wrap_score : List SessionEntry → List ℕ → ℤ
  unfolding adjacent_score pair_score
  smart_shuffle_wrap_score entries cycle =
      let ends =
        pair_score (item_at entries (get_or cycle 0 0))
          (item_at entries (get_or cycle (length cycle - 1) 0)) 3 in
      if ltb (length cycle) 2 then pos 0 else adjacent_score entries cycle +ℤ (ends +ℤ ends)

  optimize_loop : List SessionEntry → List ℕ → ℕ → ℕ → List ℕ → ℤ → List ℕ
  unfolding smart_shuffle_wrap_score
  optimize_loop entries cycle zero index best best_score = best
  optimize_loop entries cycle (suc rounds) index best best_score =
      let trial = moved_to_end cycle index in
      let score = smart_shuffle_wrap_score entries trial in
      optimize_loop entries cycle rounds (suc index)
        (if ltb_ℤ best_score score then trial else best)
        (if ltb_ℤ best_score score then score else best_score)

  unfoldable pub optimize_anchored_cycle : List SessionEntry → List ℕ → List ℕ
  unfolding optimize_loop
  optimize_anchored_cycle entries cycle =
      if ltb (length cycle) 3
      then cycle
      else optimize_loop entries cycle (length cycle - 2) 1 cycle
          (smart_shuffle_wrap_score entries cycle)

  -- The cycle of `buildAnchoredSmartShuffleCycle` at an anchor that is in range.
  anchored_cycle : List SessionEntry → ℕ → R.Source → List ℕ
  unfolding optimize_anchored_cycle pick_loop apply_swaps swap_at indices_from without
  anchored_cycle entries anchor rng =
      let n = length entries in
      let (exchanges, rng') = R.swaps rng (n - 1) in
      optimize_anchored_cycle entries (
        pick_loop entries n rng' (apply_swaps exchanges (without anchor (indices_from 0 n)))
          (anchor ∷ []))

  unfoldable pub build_anchored_cycle : List SessionEntry → ℤ → R.Source → List ℕ
  unfolding anchored_cycle build_smart_shuffle_cycle
  build_anchored_cycle entries (negsuc i) rng = build_smart_shuffle_cycle entries rng
  build_anchored_cycle entries (pos i) rng =
      if ltb i (length entries)
      then anchored_cycle entries i rng
      else build_smart_shuffle_cycle entries rng

  -- A seed of 0 counts as 1.
  abbrev pub source_of_seed : ℕ → R.Source
  source_of_seed seed = R.new_source (if seed == 0 then 1 else seed)

  rebuilt_cycle : SessionSnapshot → List ℕ
  unfolding build_anchored_cycle
  rebuilt_cycle s = elim s.context_queue [
    | none ↦ []
    | some q ↦
        build_anchored_cycle (context_all_entries s) (shuffle_anchor_index s)
          (source_of_seed q.shuffle_seed)
  ]

  unfoldable pub effective_shuffle_cycle : SessionSnapshot → List ℕ
  unfolding sanitize_shuffle_bag rebuilt_cycle
  effective_shuffle_cycle s =
      elim (sanitize_shuffle_bag (shuffle_bag s) (length (context_all_entries s))) [
        | [] ↦ rebuilt_cycle s
        | i ∷ rest ↦ i ∷ rest
      ]
