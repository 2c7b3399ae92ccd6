-- ===== src/Playback/Shuffle/Cycle.antt =====
-- internal/playback/session.go: the cycles that the shuffle builds list each entry once, and start at
-- the anchor.
use mathlib.Core.List.{append_assoc, append-nil}
use ben_desktop.Base.{
  ℕ, zero, suc, ◌+◌, ◌-◌, ◌≤◌, ◌<◌, ◌≡◌, refl, sym, ap, ◌∙◌, Bool, true, false, List, [], ◌∷◌, ◌++◌,
  length, get_or, remove_at, arith, ltb, lt→ltb, leb, ◌&&◌, ◌==◌, if◌then◌else◌, length-append,
  length-remove_at, Bool-cases, inl, inr, Option-cases, some, get_elem?, set, get_elem?-set_ne,
  get_elem?-set_self, length-set, get_elem?-lt, head?,
}
use ben_desktop.Base.Int.{ℤ, pos, negsuc, ltb_ℤ}
use ben_desktop.Base.Count.{IsCycle, count, count-append, count-remove_at, count-set}
use ben_desktop.Playback.Types.{SessionEntry}
use ben_desktop.Playback.Rand.{Rand}
use ben_desktop.Playback.Shuffle.Selection.{chosen-lt}
use ben_desktop.Playback.Shuffle.{
  smart_shuffle_wrap_score, best_loop, lowest_score, smart_shuffle_score, pick_loop, swap_at,
  apply_swaps, indices_from, without, build_smart_shuffle_cycle, optimize_loop,
  optimize_anchored_cycle, anchored_cycle, build_anchored_cycle, moved_to_end,
}

-- The same numbers, as often.
record Regroups (xs ys : List ℕ) : Type 0 where
  counts : (a : ℕ) → count a xs ≡ count a ys
  lengths : length xs ≡ length ys

Regroups-IsCycle : {n : ℕ} {xs ys : List ℕ} → Regroups xs ys → IsCycle n ys → IsCycle n xs
Regroups-IsCycle r c = record {
  counted = λ a. r.counts a ∙ c.counted a;
  sized = r.lengths ∙ c.sized;
}

-- After the first write the other position holds its own value, also where the two are one.
read_other :
    (xs : List ℕ) (l r y : ℕ)
    → l < length xs
    → get_elem? xs r ≡ some y
    → get_elem? (set xs l y) r ≡ some y
read_other xs l r y h e = elim (Bool-cases (l == r)) [
  | inl same ↦ let p : l ≡ r = ground arith in rw (← p) (get_elem?-set_self xs l y h)
  | inr apart ↦ get_elem?-set_ne xs y (λ p. ground arith) ∙ e
]

swap_at-Regroups : (xs : List ℕ) (l r : ℕ) → Regroups (swap_at xs l r) xs
unfolding swap_at
swap_at-Regroups xs l r = elim (Option-cases (get_elem? xs l)) [
  | inl e ↦ rw (e, swap_at) (record { counts = λ a. refl; lengths = refl })
  | inr (x, e) ↦ elim (Option-cases (get_elem? xs r)) [
    | inl f ↦ rw (e, f, swap_at) (record { counts = λ a. refl; lengths = refl })
    | inr (y, f) ↦
        let g = read_other xs l r y (get_elem?-lt xs l e) f in
        rw (e, f, swap_at)
          (record {
            counts = λ a. omega (arith, count-set a xs l y e, count-set a (set xs l y) r x g);
            lengths = length-set (set xs l y) r x ∙ length-set xs l y;
          })
  ]
]

apply_swaps-Regroups :
    (exchanges : List (ℕ × ℕ)) (xs : List ℕ) → Regroups (apply_swaps exchanges xs) xs
unfolding apply_swaps
apply_swaps-Regroups [] xs = record { counts = λ a. refl; lengths = refl }
apply_swaps-Regroups ((l, r) ∷ rest) xs =
    let step = swap_at-Regroups xs l r in
    let more = apply_swaps-Regroups rest (swap_at xs l r) in
    record { counts = λ a. more.counts a ∙ step.counts a; lengths = more.lengths ∙ step.lengths }

pub count-indices_from :
    (a start n : ℕ)
    → count a (indices_from start n) ≡ (if leb start a && ltb a (start + n) then 1 else 0)
unfolding count indices_from
count-indices_from a start zero = ground arith
count-indices_from a start (suc n) = ground (arith, count-indices_from a (suc start) n)

pub length-indices_from : (start n : ℕ) → length (indices_from start n) ≡ n
unfolding indices_from
length-indices_from start zero = refl
length-indices_from start (suc n) = ap suc (length-indices_from (suc start) n)

count-without :
    (a anchor : ℕ) (xs : List ℕ)
    → count a (without anchor xs) ≡ (if a == anchor then 0 else count a xs)
unfolding count without
count-without a anchor [] = ground arith
count-without a anchor (x ∷ xs) = ground (arith, count-without a anchor xs)

length-without :
    (anchor : ℕ) (xs : List ℕ) → length (without anchor xs) + count anchor xs ≡ length xs
unfolding count without
length-without anchor [] = omega arith
length-without anchor (x ∷ xs) = ground (arith, length-without anchor xs)

pub indices_from-IsCycle : (n : ℕ) → IsCycle n (indices_from 0 n)
indices_from-IsCycle n = record {
  counted = λ a. ground (arith, count-indices_from a 0 n);
  sized = length-indices_from 0 n;
}

Regroups-put_back :
    {ys : List ℕ} (xs : List ℕ) (i : ℕ)
    → i < length xs
    → Regroups ys (remove_at xs i)
    → Regroups (get_or xs i 0 ∷ ys) xs
unfolding count
Regroups-put_back xs i h r = record {
  counts = λ a. omega (arith, r.counts a, count-remove_at a xs i 0 h);
  lengths = ap suc r.lengths ∙ length-remove_at xs i h;
}

moved_to_end-Regroups : (xs : List ℕ) (i : ℕ) → i < length xs → Regroups (moved_to_end xs i) xs
unfolding count
moved_to_end-Regroups xs i h =
    let last = get_or xs i 0 ∷ [] in
    record {
      counts = λ a. omega (arith, count-append a (remove_at xs i) last, count-remove_at a xs i 0 h);
      lengths = omega (arith, length-append (remove_at xs i) last, length-remove_at xs i h);
    }

head-moved_to_end :
    (xs : List ℕ) (i : ℕ) → 0 < i → i < length xs → head? (moved_to_end xs i) ≡ head? xs
head-moved_to_end [] i p h = elim h [ ]
head-moved_to_end (x ∷ xs) zero p h = absurd (omega arith)
head-moved_to_end (x ∷ xs) (suc i) p h = refl

-- A reordering that keeps the first index.
record Improves (xs ys : List ℕ) : Type 0 where
  regroups : Regroups xs ys
  same_head : head? xs ≡ head? ys

Improves-choice :
    {xs ys zs : List ℕ} (b : Bool)
    → Improves xs zs
    → Improves ys zs
    → Improves (if b then xs else ys) zs
Improves-choice true p q = p
Improves-choice false p q = q

module _ (R : Rand) (entries : List SessionEntry) where
  -- The rounds append the rest of the indices to the cycle in some order, and leave none out.
  pick_loop_appends :
      (fuel : ℕ) (rng : R.Source) (remaining cycle : List ℕ)
      → length remaining ≤ fuel
      → (ys : List ℕ) × (pick_loop R entries fuel rng remaining cycle ≡ cycle ++ ys)
        × Regroups ys remaining
  unfolding pick_loop
  pick_loop_appends zero rng [] cycle h =
      ([], sym (append-nil cycle), record { counts = λ a. refl; lengths = refl })
  pick_loop_appends zero rng (x ∷ rest) cycle h = absurd (omega arith)
  pick_loop_appends (suc fuel) rng [] cycle h =
      ([], sym (append-nil cycle), record { counts = λ a. refl; lengths = refl })
  pick_loop_appends (suc fuel) rng (x ∷ rest) cycle h =
      let best = best_loop (smart_shuffle_score R entries cycle) (x ∷ rest) 0 lowest_score [] in
      let draw = R.intn rng (length best) in
      let chosen = get_or best draw.0 0 in
      let picked = get_or (x ∷ rest) chosen 0 in
      let left = remove_at (x ∷ rest) chosen in
      let lt : chosen < suc (length rest) = chosen-lt R entries cycle x rest rng in
      let (ys, e, r) =
        pick_loop_appends fuel draw.1 left (cycle ++ picked ∷ [])
          (omega (arith, length-remove_at (x ∷ rest) chosen lt)) in
      (
        picked ∷ ys,
        e ∙ append_assoc cycle (picked ∷ []) ys,
        Regroups-put_back (x ∷ rest) chosen lt r,
      )

  build_smart_shuffle_cycle-IsCycle :
      (rng : R.Source) → IsCycle (length entries) (build_smart_shuffle_cycle R entries rng)
  unfolding build_smart_shuffle_cycle
  build_smart_shuffle_cycle-IsCycle rng =
      let n = length entries in
      let draw = R.swaps rng n in
      let start = apply_swaps-Regroups draw.0 (indices_from 0 n) in
      let (ys, e, r) =
        pick_loop_appends n draw.1 (apply_swaps draw.0 (indices_from 0 n)) []
          (omega (arith, start.lengths, length-indices_from 0 n)) in
      rw e (Regroups-IsCycle r (Regroups-IsCycle start (indices_from-IsCycle n)))

  optimize_loop-Improves :
      (cycle : List ℕ) (rounds index : ℕ) (best : List ℕ) (score : ℤ)
      → 0 < index
      → index + rounds < length cycle
      → Improves best cycle
      → Improves (optimize_loop R entries cycle rounds index best score) cycle
  unfolding optimize_loop
  optimize_loop-Improves cycle zero index best score p h i = i
  optimize_loop-Improves cycle (suc rounds) index best score p h i =
      optimize_loop-Improves cycle rounds (suc index) _ _ (omega arith) (omega arith) (
        Improves-choice
          (ltb_ℤ score (smart_shuffle_wrap_score R entries (moved_to_end cycle index)))
          (record {
            regroups = moved_to_end-Regroups cycle index (omega arith);
            same_head = head-moved_to_end cycle index p (omega arith);
          })
          i)

  optimize_anchored_cycle-Improves :
      (cycle : List ℕ) → Improves (optimize_anchored_cycle R entries cycle) cycle
  unfolding optimize_anchored_cycle
  optimize_anchored_cycle-Improves cycle =
      let same : Improves cycle cycle = record {
        regroups = record { counts = λ a. refl; lengths = refl };
        same_head = refl;
      } in
      elim (Bool-cases (ltb (length cycle) 3)) [
        | inl short ↦ rw short same
        | inr long ↦ rw long (
            optimize_loop-Improves cycle (length cycle - 2) 1 cycle _ (omega arith) (ground arith)
              same)
      ]

  anchored_cycle_lem :
      (anchor : ℕ) (rng : R.Source)
      → anchor < length entries
      → IsCycle (length entries) (anchored_cycle R entries anchor rng)
        × (head? (anchored_cycle R entries anchor rng) ≡ some anchor)
  unfolding anchored_cycle count
  anchored_cycle_lem anchor rng h =
      let n = length entries in
      let draw = R.swaps rng (n - 1) in
      let others = without anchor (indices_from 0 n) in
      let start = apply_swaps-Regroups draw.0 others in
      let all = indices_from-IsCycle n in
      let (ys, e, r) =
        pick_loop_appends n draw.1 (apply_swaps draw.0 others) (anchor ∷ [])
          (omega (arith, start.lengths, length-without anchor (indices_from 0 n), all.sized)) in
      let better = optimize_anchored_cycle-Improves (anchor ∷ ys) in
      rw e (
        Regroups-IsCycle better.regroups (record {
          counted = λ a. ground (
            arith,
            r.counts a,
            start.counts a,
            count-without a anchor (indices_from 0 n),
            all.counted a,
          );
          sized = ground (
            arith,
            r.lengths,
            start.lengths,
            length-without anchor (indices_from 0 n),
            all.counted anchor,
            all.sized,
          );
        }),
        better.same_head,
      )

  -- What the shuffle builds lists each entry of the queue exactly once, wherever the anchor is.
  pub build_anchored_cycle-IsCycle :
      (anchor : ℤ) (rng : R.Source)
      → IsCycle (length entries) (build_anchored_cycle R entries anchor rng)
  unfolding build_anchored_cycle
  build_anchored_cycle-IsCycle (negsuc i) rng = build_smart_shuffle_cycle-IsCycle rng
  build_anchored_cycle-IsCycle (pos i) rng = elim (Bool-cases (ltb i (length entries))) [
    | inl lt ↦ rw lt (anchored_cycle_lem i rng (ground arith)).0
    | inr ge ↦ rw ge (build_smart_shuffle_cycle-IsCycle rng)
  ]

  -- With an anchor in range of the queue, the cycle starts at the anchor.
  pub head-build_anchored_cycle :
      (anchor : ℕ) (rng : R.Source)
      → anchor < length entries
      → head? (build_anchored_cycle R entries (pos anchor) rng) ≡ some anchor
  unfolding build_anchored_cycle
  head-build_anchored_cycle anchor rng h = rw (lt→ltb _ _ h) (anchored_cycle_lem anchor rng h).1
