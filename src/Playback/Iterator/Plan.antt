-- ===== src/Playback/Iterator/Plan.antt =====
-- internal/playback/session.go: the plan of next actions is the list of upcoming entries.
use mathlib.Core.Path.{ap₂}
use mathlib.Core.List.{append-nil, map-append}
use ben_desktop.Base.{
  ℕ, suc, ◌+◌, ◌≤◌, ◌<◌, ◌≡◌, refl, ap, ◌∙◌, inl, inr, Bool, true, false, ◌==◌, none, some, List,
  [], ◌∷◌, ◌++◌, map, length, get_or, take, drop, arith, ltb, if◌then◌else◌, Bool-cases,
  length-append, length-map,
}
use ben_desktop.Base.Int.{ℤ, pos, negsuc, pos_part, in_range}
use ben_desktop.Base.Count.{IsCycle}
use ben_desktop.Playback.Types.{
  SessionEntry, SessionSnapshot, is_repeat_all, is_repeat_one, zero_entry,
}
use ben_desktop.Playback.Rand.{Rand}
use ben_desktop.Playback.Context.{context_all_entries, current_context_index, resume_context_index}
use ben_desktop.Playback.Shuffle.{effective_shuffle_cycle, indices_from}
use ben_desktop.Playback.Shuffle.Anchor.{effective_shuffle_cycle-IsCycle}
use ben_desktop.Playback.Position.{index_of_int, index_of_int-cycle}
use ben_desktop.Playback.Upcoming.{
  current_in_context, current_position, upcoming_in_cycle, upcoming_in_order, upcoming_indices,
  build_upcoming_entries, next_action_count, upcoming_entry_count,
}
use ben_desktop.Playback.Upcoming.Agreement.{
  current_matches-lt, start-index, length-build_upcoming_entries,
}
use ben_desktop.Playback.Iterator.{
  PlaybackCandidate, NextActionIterator, shuffle_start, shuffled_iterator, context_limit, start_of,
  new_next_action_iterator, candidates, member, context_candidate,
}
use ben_desktop.Playback.Iterator.Phases.{
  context_rest, queue_rest, repeat_rest, pending, WithinCycle, range,
}
use ben_desktop.Playback.Iterator.Rounds.{unblocked, candidates-unblocked}

take_one : (xs : List ℕ) → length xs ≡ 1 → take 1 xs ≡ get_or xs 0 0 ∷ []
take_one [] h = absurd (omega arith)
take_one (x ∷ []) h = refl
take_one (x ∷ y ∷ xs) h = absurd (omega arith)

-- The rest of a shuffled iterator at its start.
abbrev first_pass : ℕ × ℕ → List ℕ → List ℕ
first_pass (p, limit) cycle = drop p cycle ++ take limit cycle

tail_of :
    (p : ℕ) (cycle : List ℕ) (wraps : Bool)
    → p < length cycle
    → take (if wraps then if length cycle == 1 then 1 else p else 0) cycle ≡ (
        if wraps
        then take p cycle ++ (if length cycle == 1 then get_or cycle 0 0 ∷ [] else [])
        else [])
tail_of p cycle wraps h = ground (arith, take_one cycle, append-nil (take p cycle))

at_current :
    (s : SessionSnapshot) (cycle : List ℕ) (p : ℕ)
    → current_in_context s ≡ true
    → index_of_int cycle (current_context_index s) ≡ some p
    → p < length cycle
    → (first_pass (shuffle_start s cycle) cycle ≡ upcoming_in_cycle s cycle)
      × ((shuffle_start s cycle).1 ≤ length cycle)
unfolding shuffle_start upcoming_in_cycle
at_current s cycle p here found lt =
    let placed : current_position s cycle ≡ some p = rw (here, found) refl in
    let first : (if ltb (length cycle) (p + 1) then length cycle else p + 1) ≡ p + 1 =
      ground arith in
    (
      rw (placed, upcoming_in_cycle)
          (rw (here, found, first, shuffle_start)
            (ap (λ rest. drop (p + 1) cycle ++ rest)
              (tail_of p cycle (is_repeat_all s.repeat_mode) lt))),
      rw (here, found, shuffle_start) (ground arith),
    )

at_resume :
    (s : SessionSnapshot) (cycle : List ℕ) (p : ℕ)
    → current_in_context s ≡ false
    → in_range (resume_context_index s) (length (context_all_entries s)) ≡ true
    → index_of_int cycle (resume_context_index s) ≡ some p
    → p < length cycle
    → (first_pass (shuffle_start s cycle) cycle ≡ upcoming_in_cycle s cycle)
      × ((shuffle_start s cycle).1 ≤ length cycle)
unfolding shuffle_start upcoming_in_cycle
at_resume s cycle p away valid found lt = ground arith

at_start :
    (s : SessionSnapshot) (cycle : List ℕ)
    → current_in_context s ≡ false
    → in_range (resume_context_index s) (length (context_all_entries s)) ≡ false
    → (first_pass (shuffle_start s cycle) cycle ≡ upcoming_in_cycle s cycle)
      × ((shuffle_start s cycle).1 ≤ length cycle)
unfolding shuffle_start upcoming_in_cycle
at_start s cycle away invalid = ground (arith, append-nil cycle)

Shuffled : SessionSnapshot → List ℕ → Type 0
Shuffled s cycle =
    (first_pass (shuffle_start s cycle) cycle ≡ upcoming_in_cycle s cycle)
    × ((shuffle_start s cycle).1 ≤ length cycle)

shuffle_start-Shuffled :
    (s : SessionSnapshot) (cycle : List ℕ)
    → IsCycle (length (context_all_entries s)) cycle
    → Shuffled s cycle
unfolding Shuffled
shuffle_start-Shuffled s cycle k = elim (Bool-cases (current_in_context s)) [
  | inl here ↦
      let (c, at, lt) = current_matches-lt s (ground arith) in
      let (p, e, lp, _) = index_of_int-cycle k c lt in
      at_current s cycle p here (rw at e) (omega (arith, k.sized))
  | inr away ↦
      elim (Bool-cases (in_range (resume_context_index s) (length (context_all_entries s)))) [
        | inl valid ↦
            let (p, e, lp) = resume_found (resume_context_index s) valid in
            at_resume s cycle p away valid e (omega (arith, k.sized))
        | inr invalid ↦ at_start s cycle away invalid
      ]
]
  where
    resume_found :
        (i : ℤ)
        → in_range i (length (context_all_entries s)) ≡ true
        → (p : ℕ) × (index_of_int cycle i ≡ some p) × (p < length (context_all_entries s))
    resume_found (pos i) v = let (p, e, lp, _) = index_of_int-cycle k i (ground arith) in (p, e, lp)
    resume_found (negsuc i) v = cc

shuffled_rest :
    (s : SessionSnapshot) (cycle : List ℕ)
    → (length (context_all_entries s) == 0) ≡ false
    → s.shuffle ≡ true
    → IsCycle (length (context_all_entries s)) cycle
    → (context_rest (shuffled_iterator s [] cycle) ≡ upcoming_in_cycle s cycle)
      × WithinCycle (shuffled_iterator s [] cycle)
unfolding shuffled_iterator context_rest Shuffled
shuffled_rest s [] full on k = absurd (ground (arith, k.sized))
shuffled_rest s (i ∷ rest) full on k =
    let (same, within) = shuffle_start-Shuffled s (i ∷ rest) k in
    (simp (full, on) same, record { within = within })

record Starts (s : SessionSnapshot) (it : NextActionIterator) : Type 0 where
  snapshot : it.snapshot ≡ s
  blocked : it.blocked ≡ []
  user_index : it.user_index ≡ 0
  emitted_repeat_one : it.emitted_repeat_one ≡ false

shuffled-Starts : (s : SessionSnapshot) (cycle : List ℕ) → Starts s (shuffled_iterator s [] cycle)
unfolding shuffled_iterator
shuffled-Starts s [] = record {
  snapshot = refl;
  blocked = refl;
  user_index = refl;
  emitted_repeat_one = refl;
}
shuffled-Starts s (i ∷ rest) = record {
  snapshot = refl;
  blocked = refl;
  user_index = refl;
  emitted_repeat_one = refl;
}

entries-queue_rest : (k : ℕ) (es : List SessionEntry) → map (λ c. c.entry) (queue_rest k es) ≡ es
unfolding queue_rest
entries-queue_rest k [] = refl
entries-queue_rest k (e ∷ es) = ap (◌∷◌ e) (entries-queue_rest (suc k) es)

entries-context :
    (s : SessionSnapshot) (is : List ℕ)
    → map (λ c. c.entry) (map (context_candidate s) is)
      ≡ map (λ i. get_or (context_all_entries s) i zero_entry) is
entries-context s [] = refl
entries-context s (i ∷ is) =
    ap (◌∷◌ (get_or (context_all_entries s) i zero_entry)) (entries-context s is)

-- The entry that repeat-one plays again.
abbrev pub own : SessionSnapshot → List SessionEntry
own s =
    if is_repeat_one s.repeat_mode then elim s.current_entry [ none ↦ [] | some e ↦ e ∷ [] ] else []

abbrev entry_list : List PlaybackCandidate → List SessionEntry
entry_list = map (λ c. c.entry)

own_as :
    (s : SessionSnapshot) (it : NextActionIterator)
    → it.emitted_repeat_one ≡ false
    → it.snapshot ≡ s
    → entry_list (repeat_rest it) ≡ own s
unfolding repeat_rest
own_as s it e f = rw (← f) (ground arith)

entries-pending :
    (s : SessionSnapshot) (it : NextActionIterator) (is : List ℕ)
    → Starts s it
    → context_rest it ≡ is
    → entry_list (pending it)
      ≡ own s ++ (s.user_queue ++ map (λ i. get_or (context_all_entries s) i zero_entry) is)
unfolding pending
entries-pending s it is start rest =
    let queue = queue_rest it.user_index (drop it.user_index it.snapshot.user_queue) in
    let context = map (context_candidate it.snapshot) (context_rest it) in
    let queued : entry_list queue ≡ s.user_queue =
      entries-queue_rest it.user_index (drop it.user_index it.snapshot.user_queue)
      ∙ ap (λ k. drop k it.snapshot.user_queue) start.user_index
      ∙ ap (λ (t : SessionSnapshot). t.user_queue) start.snapshot in
    let others : entry_list context ≡ map (λ i. get_or (context_all_entries s) i zero_entry) is =
      entries-context it.snapshot (context_rest it)
      ∙ ap (λ t. map (λ i. get_or (context_all_entries t) i zero_entry) (context_rest it))
          start.snapshot
      ∙ ap (map (λ i. get_or (context_all_entries s) i zero_entry)) rest in
    map-append (λ (c : PlaybackCandidate). c.entry) (repeat_rest it) (queue ++ context)
    ∙ ap₂ ◌++◌ (own_as s it start.emitted_repeat_one start.snapshot)
        (map-append (λ (c : PlaybackCandidate). c.entry) queue context ∙ ap₂ ◌++◌ queued others)

module _ (R : Rand) (s : SessionSnapshot) where
  abbrev total : ℕ
  total = length (context_all_entries s)

  abbrev fresh : NextActionIterator
  fresh = new_next_action_iterator R s []

  ordered_rest :
      0 < total
      → range (start_of R s) total ++ range 0 (context_limit s (start_of R s))
        ≡ upcoming_in_order R s
  unfolding start_of context_limit upcoming_in_order indices_from
  ordered_rest h =
      let f = start-index R s h in
      rw f.0 (
        ground (
          arith,
          f.1,
          current_matches-lt s,
          append-nil (indices_from 0 (pos_part (current_context_index s))),
        ))

  new_iterator_rest :
      (context_rest fresh ≡ upcoming_indices R s) × WithinCycle fresh × Starts s fresh
  unfolding new_next_action_iterator upcoming_indices
  new_iterator_rest = elim (Bool-cases (total == 0)) [
    | inl empty ↦ simp empty (
      unfold context_rest in simp empty,
      record { within = omega arith },
      record { snapshot = refl; blocked = refl; user_index = refl; emitted_repeat_one = refl },
    )
    | inr full ↦ elim (Bool-cases s.shuffle) [
      | inl on ↦
          let r =
            shuffled_rest s (effective_shuffle_cycle R s) full on
              (effective_shuffle_cycle-IsCycle R s) in
          simp (full, on) (r.0, r.1, shuffled-Starts s (effective_shuffle_cycle R s))
      | inr off ↦
          simp (full, off)
            (
              unfold context_rest in simp (full, off) (ordered_rest (ground arith)),
              record { within = omega arith },
              record {
                snapshot = refl;
                blocked = refl;
                user_index = refl;
                emitted_repeat_one = refl;
              },
            )
    ]
  ]

  pending-fresh : entry_list (pending fresh) ≡ own s ++ build_upcoming_entries R s
  unfolding build_upcoming_entries
  pending-fresh =
      let (rest, within, start) = new_iterator_rest in
      entries-pending s fresh (upcoming_indices R s) start rest

  length-own : length (own s) + upcoming_entry_count R s ≡ next_action_count R s
  unfolding next_action_count
  length-own = ground arith

  length-pending : length (pending fresh) ≡ next_action_count R s
  length-pending = omega (
    arith,
    ap length pending-fresh,
    length-map (λ (c : PlaybackCandidate). c.entry) (pending fresh),
    length-append (own s) (build_upcoming_entries R s),
    length-build_upcoming_entries R s,
    length-own,
  )

  all_unblocked : (cs : List PlaybackCandidate) → unblocked [] cs ≡ cs
  unfolding unblocked member
  all_unblocked [] = refl
  all_unblocked (c ∷ cs) = ap (◌∷◌ c) (all_unblocked cs)

  plan-pending :
      (rounds fuel : ℕ)
      → next_action_count R s < rounds
      → next_action_count R s < fuel
      → candidates rounds fuel fresh ≡ pending fresh
  plan-pending rounds fuel r h =
      let (rest, within, start) = new_iterator_rest in
      candidates-unblocked rounds fuel fresh within (omega (arith, length-pending))
        (omega (arith, length-pending))
      ∙ ap (λ l. unblocked l (pending fresh)) start.blocked
      ∙ all_unblocked (pending fresh)

  -- Given more rounds than there are next actions, the plan lists the entry that repeat-one plays
  -- again and then the upcoming entries, in their order.
  pub entries-candidates :
      (rounds fuel : ℕ)
      → next_action_count R s < rounds
      → next_action_count R s < fuel
      → map (λ c. c.entry) (candidates rounds fuel (new_next_action_iterator R s []))
        ≡ own s ++ build_upcoming_entries R s
  entries-candidates rounds fuel r h =
      ap (map (λ c. c.entry)) (plan-pending rounds fuel r h) ∙ pending-fresh

  -- Given more rounds than there are next actions, the plan has as many candidates as
  -- `nextActionCount` says.
  pub length-candidates :
      (rounds fuel : ℕ)
      → next_action_count R s < rounds
      → next_action_count R s < fuel
      → length (candidates rounds fuel (new_next_action_iterator R s [])) ≡ next_action_count R s
  length-candidates rounds fuel r h = ap length (plan-pending rounds fuel r h) ∙ length-pending
