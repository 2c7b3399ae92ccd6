-- ===== src/Playback/Previous/Walk.antt =====
-- internal/playback/session.go, buildPreviousActionPlan: the walk back ends and visits nothing twice.
use ben_desktop.Base.{
  ℕ, zero, suc, ◌+◌, ◌≤◌, ◌<◌, ◌≡◌, refl, sym, ◌∙◌, true, Option, none, some, List, [], ◌∷◌, ◌++◌,
  length, length-append, ltb, if◌then◌else◌, arith, Bool-cases, ◌⊎◌, inl, inr,
}
use ben_desktop.Base.Int.{ℤ, pos, negsuc, is_negative}
use ben_desktop.Base.Count.{count, count-append, count_bound-length}
use ben_desktop.Playback.Types.{SessionEntry, SessionSnapshot, is_queued}
use ben_desktop.Playback.Rand.{Rand}
use ben_desktop.Playback.Context.{
  context_all_entries, current_context_index, current_matches_context,
  detached_current_context_index,
}
use ben_desktop.Playback.Navigation.{
  previous_context_index_from_anchor, previous_detached_context_index,
}
use ben_desktop.Playback.Previous.{can_append, walk, walk_back, previous_from, previous_indexes}

abbrev Distinct : ℕ → List ℕ → Type 0
Distinct n xs = (a : ℕ) → count a xs ≤ (if ltb a n then 1 else 0)

module _ (previous : ℤ → ℤ) (n : ℕ) where
  Distinct-append :
      (xs : List ℕ) (i : ℕ)
      → Distinct n xs
      → can_append n xs (pos i) ≡ true
      → Distinct n (xs ++ i ∷ [])
  unfolding count
  Distinct-append xs i d h a = ground (arith, d a, count-append a xs (i ∷ []))

  walk-Distinct :
      (fuel : ℕ) (xs : List ℕ) (index : ℤ)
      → Distinct n xs
      → Distinct n (walk previous n fuel xs index)
  unfolding walk
  walk-Distinct zero xs index d = d
  walk-Distinct (suc fuel) xs (negsuc i) d = d
  walk-Distinct (suc fuel) xs (pos i) d = elim (Bool-cases (can_append n xs (pos i))) [
    | inl fresh ↦
        rw fresh
          (walk-Distinct fuel (xs ++ i ∷ []) (previous (pos i)) (Distinct-append xs i d fresh))
    | inr stale ↦ rw stale d
  ]

  -- More fuel than there are entries left to visit changes nothing.
  walk_fuel :
      (fuel more : ℕ) (xs : List ℕ) (index : ℤ)
      → Distinct n xs
      → n < length xs + fuel
      → walk previous n (fuel + more) xs index ≡ walk previous n fuel xs index
  unfolding walk
  walk_fuel zero more xs index d h = absurd (omega (arith, count_bound-length n xs d))
  walk_fuel (suc fuel) more xs (negsuc i) d h =
      let e : suc fuel + more ≡ suc (fuel + more) = omega arith in rw e refl
  walk_fuel (suc fuel) more xs (pos i) d h =
      let e : suc fuel + more ≡ suc (fuel + more) = omega arith in
      rw e (elim (Bool-cases (can_append n xs (pos i))) [
        | inl fresh ↦ rw fresh (
            walk_fuel fuel more (xs ++ i ∷ []) (previous (pos i)) (Distinct-append xs i d fresh)
              (omega (arith, length-append xs (i ∷ []))))
        | inr stale ↦ rw stale refl
      ])

module _ (R : Rand) (s : SessionSnapshot) where
  abbrev total : ℕ
  total = length (context_all_entries s)

  -- The plan is empty or a walk, from wherever.
  previous_from_cases :
      (current : Option SessionEntry)
      → ((fuel : ℕ) → previous_from R s fuel current ≡ [])
        ⊎ ((index : ℤ) × ((fuel : ℕ) → previous_from R s fuel current ≡ walk_back R s fuel index))
  unfolding previous_from
  previous_from_cases none = inl (λ fuel. refl)
  previous_from_cases (some e) = elim (Bool-cases (is_queued e.origin)) [
    | inl queued ↦ inr (current_context_index s, λ fuel. simp queued)
    | inr other ↦ elim (Bool-cases (current_matches_context s)) [
      | inl own ↦ inr (
        previous_context_index_from_anchor R s (current_context_index s),
        λ fuel. simp (other, own),
      )
      | inr away ↦ elim (Bool-cases (is_negative (detached_current_context_index s))) [
        | inl lost ↦ inl (λ fuel. simp (other, away, lost))
        | inr old ↦ inr (
          previous_detached_context_index R s (detached_current_context_index s),
          λ fuel. simp (other, away, old),
        )
      ]
    ]
  ]

  previous_indexes_cases :
      ((fuel : ℕ) → previous_indexes R s fuel ≡ [])
      ⊎ ((index : ℤ) × ((fuel : ℕ) → previous_indexes R s fuel ≡ walk_back R s fuel index))
  unfolding previous_indexes
  previous_indexes_cases = previous_from_cases s.current_entry

  nothing_seen : Distinct total []
  unfolding count
  nothing_seen a = omega arith

  -- Whatever the modes, the plan for going back holds no index twice and none beyond the context.
  pub previous_indexes-le :
      (fuel a : ℕ)
      → count a (previous_indexes R s fuel)
        ≤ (if ltb a (length (context_all_entries s)) then 1 else 0)
  previous_indexes-le fuel a = elim previous_indexes_cases [
    | inl e ↦ rw (e fuel) (nothing_seen a)
    | inr (index, e) ↦
        rw (e fuel) (
          walk-Distinct (previous_context_index_from_anchor R s) total fuel [] index nothing_seen a)
  ]

  -- The loop that fills the plan ends within one round more than the context has entries: more fuel
  -- does not change what it finds.
  pub previous_indexes_fuel :
      (more : ℕ)
      → previous_indexes R s (suc (length (context_all_entries s)) + more)
        ≡ previous_indexes R s (suc (length (context_all_entries s)))
  previous_indexes_fuel more = elim previous_indexes_cases [
    | inl e ↦ e (suc total + more) ∙ sym (e (suc total))
    | inr (index, e) ↦
        e (suc total + more)
        ∙ walk_fuel (previous_context_index_from_anchor R s) total (suc total) more [] index
            nothing_seen (omega arith)
        ∙ sym (e (suc total))
  ]
