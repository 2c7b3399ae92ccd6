-- ===== src/Playback/Navigation/Bounds.antt =====
-- internal/playback/session.go: every index that navigation returns is -1 or an entry's.
use ben_desktop.Base.{
  ℕ, ◌+◌, ◌-◌, ◌<◌, ◌≡◌, refl, ◌⊎◌, inl, inr, Bool, true, false, List, [], ◌∷◌, length, arith, ltb,
  Bool-cases,
}
use ben_desktop.Base.Int.{ℤ, pos, negsuc, in_range}
use ben_desktop.Base.Count.{IsCycle}
use ben_desktop.Playback.Types.{SessionSnapshot}
use ben_desktop.Playback.Rand.{Rand}
use ben_desktop.Playback.Context.{
  context_all_entries, current_context_index, is_valid_context_index,
  detached_current_context_index,
}
use ben_desktop.Playback.Shuffle.{effective_shuffle_cycle}
use ben_desktop.Playback.Shuffle.Anchor.{effective_shuffle_cycle-IsCycle}
use ben_desktop.Playback.Position.{index_of_int-cycle, get_or-cycle-lt}
use ben_desktop.Playback.Navigation.{
  no_index, first_of_cycle, default_first_context_index, next_in_cycle,
  next_context_index_from_anchor, previous_in_cycle, previous_context_index_from_anchor,
  next_detached_context_resume_index, normalize_resume_context_index,
}

-- -1, or an index of a list of that length.
abbrev pub Indexes : ℕ → ℤ → Type 0
Indexes n i = (i ≡ no_index) ⊎ (in_range i n ≡ true)

next_in_cycle-Indexes :
    (s : SessionSnapshot) (n : ℕ) (xs : List ℕ) (a : ℕ) (b : Bool)
    → IsCycle n xs
    → a < n
    → Indexes n (next_in_cycle s xs a b)
unfolding next_in_cycle
next_in_cycle-Indexes s n [] a b c h = inl refl
next_in_cycle-Indexes s n (x ∷ xs) a b c h =
    let (p, e, lt, g) = index_of_int-cycle c a h in
    ground (arith, e, c.sized, get_or-cycle-lt c (p + 1), get_or-cycle-lt c 0)

previous_in_cycle-Indexes :
    (s : SessionSnapshot) (n : ℕ) (xs : List ℕ) (a : ℕ)
    → IsCycle n xs
    → a < n
    → Indexes n (previous_in_cycle s xs a)
unfolding previous_in_cycle
previous_in_cycle-Indexes s n [] a c h = inl refl
previous_in_cycle-Indexes s n (x ∷ xs) a c h =
    let (p, e, lt, g) = index_of_int-cycle c a h in
    ground (arith, e, c.sized, get_or-cycle-lt c (p - 1), get_or-cycle-lt c (length xs))

first_of_cycle-Indexes : (n : ℕ) (xs : List ℕ) → IsCycle n xs → Indexes n (first_of_cycle xs)
first_of_cycle-Indexes n [] c = inl refl
first_of_cycle-Indexes n (x ∷ xs) c = ground (arith, c.sized, get_or-cycle-lt c 0)

module _ (R : Rand) (s : SessionSnapshot) where
  abbrev total : ℕ
  total = length (context_all_entries s)

  effective-IsCycle : IsCycle total (effective_shuffle_cycle R s)
  effective-IsCycle = effective_shuffle_cycle-IsCycle R s

  default_first-Indexes : Indexes total (default_first_context_index R s)
  unfolding default_first_context_index
  default_first-Indexes =
      ground (arith, first_of_cycle-Indexes total (effective_shuffle_cycle R s) effective-IsCycle)

  -- After any anchor, valid or not, the next index is -1 or an entry's.
  pub next-Indexes :
      (anchor : ℤ) (ignore_repeat_one : Bool)
      → Indexes
          (length (context_all_entries s))
          (next_context_index_from_anchor R s anchor ignore_repeat_one)
  unfolding next_context_index_from_anchor is_valid_context_index
  next-Indexes (negsuc i) b = default_first-Indexes
  next-Indexes (pos i) b = elim (Bool-cases (ltb i total)) [
    | inl lt ↦ rw lt (elim (Bool-cases s.shuffle) [
      | inl on ↦ simp on (
          next_in_cycle-Indexes s total (effective_shuffle_cycle R s) i b effective-IsCycle
            (ground arith))
      | inr off ↦ ground arith
    ])
    | inr ge ↦ rw ge default_first-Indexes
  ]

  pub previous-Indexes :
      (anchor : ℤ)
      → Indexes (length (context_all_entries s)) (previous_context_index_from_anchor R s anchor)
  unfolding previous_context_index_from_anchor is_valid_context_index
  previous-Indexes (negsuc i) = inl refl
  previous-Indexes (pos i) = elim (Bool-cases (ltb i total)) [
    | inl lt ↦ rw lt (elim (Bool-cases s.shuffle) [
      | inl on ↦ simp on (
          previous_in_cycle-Indexes s total (effective_shuffle_cycle R s) i effective-IsCycle
            (ground arith))
      | inr off ↦ ground arith
    ])
    | inr ge ↦ rw ge (inl refl)
  ]

  pub next_detached-Indexes :
      (d : ℤ) → Indexes (length (context_all_entries s)) (next_detached_context_resume_index R s d)
  unfolding next_detached_context_resume_index is_valid_context_index
  next_detached-Indexes (negsuc d) = ground (arith, default_first-Indexes)
  next_detached-Indexes (pos d) = ground (arith, default_first-Indexes)

  -- The resume index that a snapshot is given is -1 or an entry's, whatever it held before.
  pub normalize_resume-Indexes :
      Indexes (length (context_all_entries s)) (normalize_resume_context_index R s)
  unfolding normalize_resume_context_index is_valid_context_index
  normalize_resume-Indexes = ground (
    arith,
    default_first-Indexes,
    next-Indexes (current_context_index s) false,
    next_detached-Indexes (detached_current_context_index s),
  )
