-- ===== src/Playback/Upcoming/Agreement.antt =====
-- internal/playback/session.go: the list of upcoming entries, its count and its head agree.
use ben_desktop.Base.{
  ℕ, zero, suc, ◌+◌, ◌-◌, ◌≤◌, ◌<◌, ◌≡◌, refl, ◌⊎◌, inl, inr, ap, ◌∙◌, true, not, ◌&&◌, ◌==◌, none,
  some, List, [], ◌∷◌, ◌++◌, map, length, get_or, take, drop, head?, arith, ltb, if◌then◌else◌,
  Bool-cases, Option-cases, length-append, length-map, length-take, length-drop, get_elem?,
  get_elem?-lt,
}
use ben_desktop.Base.Int.{ℤ, pos, negsuc, pos_part, at?}
use ben_desktop.Playback.Types.{SessionEntry, SessionSnapshot, is_repeat_all, zero_entry}
use ben_desktop.Playback.Rand.{Rand}
use ben_desktop.Playback.Context.{
  context_all_entries, current_context_index, resume_context_index, current_matches_context,
  entry_matches_context_index, detached_current_context_index,
}
use ben_desktop.Playback.Shuffle.{effective_shuffle_cycle, indices_from}
use ben_desktop.Playback.Shuffle.Cycle.{length-indices_from}
use ben_desktop.Playback.Position.{index_of_int_bound}
use ben_desktop.Playback.Navigation.Bounds.{next_detached-Indexes}
use ben_desktop.Playback.Upcoming.{
  current_in_context, current_position, resume_position, upcoming_in_cycle,
  first_upcoming_context_index, upcoming_start, upcoming_in_order, upcoming_indices,
  build_upcoming_entries, first_in_cycle, first_in_order, first_upcoming_index,
  first_upcoming_entry, count_in_cycle, count_in_order, upcoming_entry_count, entry_of,
}

at?-valid :
    (xs : List SessionEntry) (i : ℤ) → (at? xs i ≡ none) ⊎ ((c : ℕ) × (i ≡ pos c) × (c < length xs))
at?-valid xs (pos c) = elim (Option-cases (get_elem? xs c)) [
  | inl e ↦ inl e
  | inr (x, e) ↦ inr (c, refl, get_elem?-lt xs c e)
]
at?-valid xs (negsuc c) = inl refl

-- A current entry that is the context's stands at an index of the context.
pub current_matches-lt :
    (s : SessionSnapshot)
    → current_matches_context s ≡ true
    → (c : ℕ) × (current_context_index s ≡ pos c) × (c < length (context_all_entries s))
unfolding current_matches_context entry_matches_context_index
current_matches-lt s h = elim (at?-valid (context_all_entries s) (current_context_index s)) [
  | inl e ↦ absurd (ground arith)
  | inr v ↦ v
]

length-upcoming_in_cycle :
    (s : SessionSnapshot) (cycle : List ℕ)
    → length (upcoming_in_cycle s cycle) ≡ count_in_cycle s cycle
unfolding upcoming_in_cycle count_in_cycle
length-upcoming_in_cycle s cycle = elim (Option-cases (current_position s cycle)) [
  | inr (p, e) ↦
      let lt : p < length cycle =
        index_of_int_bound cycle (current_context_index s) (ground arith) in
      rw (e, upcoming_in_cycle, count_in_cycle)
        (ground (
          arith,
          length-append (drop (p + 1) cycle)
              (take p cycle ++ (if length cycle == 1 then get_or cycle 0 0 ∷ [] else [])),
          length-append (drop (p + 1) cycle) [],
          length-append (take p cycle) (if length cycle == 1 then get_or cycle 0 0 ∷ [] else []),
          length-take p cycle,
          length-drop (p + 1) cycle,
        ))
  | inl e ↦ elim (Option-cases (resume_position s cycle)) [
    | inr (p, f) ↦
        let lt : p < length cycle =
          index_of_int_bound cycle (resume_context_index s) (ground arith) in
        rw (e, f, upcoming_in_cycle, count_in_cycle)
          (ground (
            arith,
            length-append (drop p cycle) (take p cycle),
            length-append (drop p cycle) [],
            length-take p cycle,
            length-drop p cycle,
          ))
    | inl f ↦ rw (e, f, upcoming_in_cycle, count_in_cycle) refl
  ]
]

head-drop :
    (xs : List ℕ) (p : ℕ) (ys : List ℕ)
    → p < length xs
    → head? (drop p xs ++ ys) ≡ some (get_or xs p 0)
head-drop [] p ys h = elim h [ ]
head-drop (x ∷ xs) zero ys h = refl
head-drop (x ∷ xs) (suc p) ys h = head-drop xs p ys (omega arith)

drop_all : (xs : List ℕ) (p : ℕ) → length xs ≤ p → drop p xs ≡ []
drop_all [] zero h = refl
drop_all [] (suc p) h = refl
drop_all (x ∷ xs) zero h = absurd (omega arith)
drop_all (x ∷ xs) (suc p) h = drop_all xs p (omega arith)

head-wrapped :
    (x : ℕ) (rest : List ℕ) (p : ℕ)
    → length (x ∷ rest) ≤ p + 1
    → p < length (x ∷ rest)
    → head? (take p (x ∷ rest) ++ (if length (x ∷ rest) == 1 then x ∷ [] else [])) ≡ some x
head-wrapped x rest zero h lt = ground arith
head-wrapped x rest (suc p) h lt = refl

head-upcoming_in_cycle :
    (s : SessionSnapshot) (cycle : List ℕ)
    → head? (upcoming_in_cycle s cycle) ≡ first_in_cycle s cycle
unfolding upcoming_in_cycle first_in_cycle
head-upcoming_in_cycle s [] = elim (Option-cases (current_position s [])) [
  | inr (p, e) ↦
      let lt : p < 0 = index_of_int_bound [] (current_context_index s) (ground arith) in
      absurd (omega arith)
  | inl e ↦ elim (Option-cases (resume_position s [])) [
    | inr (p, f) ↦
        let lt : p < 0 = index_of_int_bound [] (resume_context_index s) (ground arith) in
        absurd (omega arith)
    | inl f ↦ rw (e, f, upcoming_in_cycle) refl
  ]
]
head-upcoming_in_cycle s (x ∷ rest) = elim (Option-cases (current_position s (x ∷ rest))) [
  | inr (p, e) ↦
      let lt : p < length (x ∷ rest) =
        index_of_int_bound (x ∷ rest) (current_context_index s) (ground arith) in
      elim (Bool-cases (ltb (p + 1) (length (x ∷ rest)))) [
        | inl more ↦
            rw (e, more, upcoming_in_cycle, first_in_cycle)
              (head-drop (x ∷ rest) (p + 1) _ (ground arith))
        | inr end ↦
            rw (e, end, upcoming_in_cycle, first_in_cycle)
              (ground (arith, drop_all (x ∷ rest) (p + 1), head-wrapped x rest p))
      ]
  | inl e ↦ elim (Option-cases (resume_position s (x ∷ rest))) [
    | inr (p, f) ↦
        let lt : p < length (x ∷ rest) =
          index_of_int_bound (x ∷ rest) (resume_context_index s) (ground arith) in
        rw (e, f, upcoming_in_cycle, first_in_cycle) (head-drop (x ∷ rest) p _ lt)
    | inl f ↦ rw (e, f, upcoming_in_cycle, first_in_cycle) refl
  ]
]

head-indices_from : (k n : ℕ) (ys : List ℕ) → 0 < n → head? (indices_from k n ++ ys) ≡ some k
unfolding indices_from
head-indices_from k zero ys h = absurd (omega arith)
head-indices_from k (suc n) ys h = refl

indices_from-zero : (k : ℕ) → indices_from k 0 ≡ []
unfolding indices_from
indices_from-zero k = refl

module _ (R : Rand) (s : SessionSnapshot) where
  abbrev total : ℕ
  total = length (context_all_entries s)

  -- What the two spellings of the start have in common.
  pub start-index :
      0 < length (context_all_entries s)
      → (first_upcoming_context_index R s ≡ pos (upcoming_start R s))
        × (upcoming_start R s ≤ length (context_all_entries s))
  unfolding first_upcoming_context_index upcoming_start
  start-index h =
      ground
        (arith, current_matches-lt s, next_detached-Indexes R s (detached_current_context_index s))

  abbrev wrap_part : List ℕ
  wrap_part =
      if is_repeat_all s.repeat_mode && current_in_context s
      then indices_from 0 (pos_part (current_context_index s))
        ++ (if total == 1 then 0 ∷ [] else [])
      else if is_repeat_all s.repeat_mode
          && not (current_matches_context s)
          && ltb 0 (upcoming_start R s)
      then indices_from 0 (upcoming_start R s)
      else []

  length-upcoming_in_order : 0 < total → length (upcoming_in_order R s) ≡ count_in_order R s
  unfolding upcoming_in_order count_in_order
  length-upcoming_in_order h =
      let start = upcoming_start R s in
      let current = pos_part (current_context_index s) in
      let f = start-index h in
      rw (f.0) (
        ground (
          arith,
          length-append (indices_from start (total - start)) wrap_part,
          length-append (indices_from 0 current) (if total == 1 then 0 ∷ [] else []),
          length-indices_from start (total - start),
          length-indices_from 0 current,
          length-indices_from 0 start,
          current_matches-lt s,
        ))

  head-upcoming_in_order : 0 < total → head? (upcoming_in_order R s) ≡ first_in_order R s
  unfolding upcoming_in_order first_in_order
  head-upcoming_in_order h =
      let start = upcoming_start R s in
      let current = pos_part (current_context_index s) in
      let f = start-index h in
      ground (
        arith,
        f.0,
        f.1,
        head-indices_from start (total - start) wrap_part,
        head-indices_from 0 current (if total == 1 then 0 ∷ [] else []),
        head-indices_from 0 start [],
        current_matches-lt s,
        indices_from-zero start,
        indices_from-zero 0,
      )

  length-upcoming_indices :
      length (upcoming_indices R s) + length s.user_queue ≡ upcoming_entry_count R s
  unfolding upcoming_indices upcoming_entry_count
  length-upcoming_indices =
      ground
        (arith, length-upcoming_in_order, length-upcoming_in_cycle s (effective_shuffle_cycle R s))

  head-upcoming_indices : head? (upcoming_indices R s) ≡ first_upcoming_index R s
  unfolding upcoming_indices first_upcoming_index
  head-upcoming_indices =
      ground (arith, head-upcoming_in_order, head-upcoming_in_cycle s (effective_shuffle_cycle R s))

  -- The count that is computed without the list is the length of the list of upcoming entries.
  pub length-build_upcoming_entries : length (build_upcoming_entries R s) ≡ upcoming_entry_count R s
  unfolding build_upcoming_entries
  length-build_upcoming_entries =
      let read = λ (i : ℕ). get_or (context_all_entries s) i zero_entry in
      omega (
        arith,
        length-append s.user_queue (map read (upcoming_indices R s)),
        length-map read (upcoming_indices R s),
        length-upcoming_indices,
      )

  head-map-read :
      (all : List SessionEntry) (is : List ℕ)
      → head? (map (λ i. get_or all i zero_entry) is) ≡ entry_of all (head? is)
  head-map-read all [] = refl
  head-map-read all (i ∷ is) = refl

  -- The entry that is planned next is the head of that list, and there is none exactly when the
  -- list is empty.
  pub head-build_upcoming_entries : head? (build_upcoming_entries R s) ≡ first_upcoming_entry R s
  unfolding build_upcoming_entries first_upcoming_entry
  head-build_upcoming_entries = split s.user_queue refl
    where
      split :
          (queue : List SessionEntry)
          → s.user_queue ≡ queue
          → head? (
              queue
              ++ map (λ i. get_or (context_all_entries s) i zero_entry) (upcoming_indices R s))
            ≡ elim queue [
              | e ∷ rest ↦ some e
              | [] ↦ entry_of (context_all_entries s) (first_upcoming_index R s)
            ]
      split [] e =
          head-map-read (context_all_entries s) (upcoming_indices R s)
          ∙ ap (entry_of (context_all_entries s)) head-upcoming_indices
      split (x ∷ rest) e = refl
