-- ===== src/Playback/Iterator/Phases.antt =====
-- internal/playback/session.go: each round of the iterator takes one candidate off what is left.
use native.Mathlib.Numerals.{add-one}
use ben_desktop.Base.{
  ℕ, zero, suc, ◌+◌, ◌-◌, ◌≤◌, ◌<◌, ◌≡◌, refl, ap, ◌∙◌, inl, inr, true, false, ◌==◌, Option, none,
  some, List, [], ◌∷◌, ◌++◌, map, length, get_or, take, drop, arith, ltb, leb, if◌then◌else◌,
  Bool-cases,
}
use ben_desktop.Base.Int.{pos}
use ben_desktop.Playback.Types.{EntryOrigin, SessionEntry}
use ben_desktop.Playback.Context.{context_all_entries}
use ben_desktop.Playback.Shuffle.{indices_from}
use ben_desktop.Playback.Iterator.{
  PlaybackCandidate, NextActionIterator, context_candidate, shuffle_wrap, shuffle_next, order_wrap,
  order_next, next_context_candidate, repeated, own_candidate,
}

-- The indices of the context that the iterator has still to visit.
abbrev pub range : ℕ → ℕ → List ℕ
range a b = indices_from a (b - a)

unfoldable pub context_rest : NextActionIterator → List ℕ
context_rest it =
    if length (context_all_entries it.snapshot) == 0
    then []
    else if it.snapshot.shuffle
    then if it.shuffle_wrapping
      then drop it.shuffle_pos (take it.shuffle_wrap_limit it.shuffle_cycle)
      else drop it.shuffle_pos it.shuffle_cycle ++ take it.shuffle_wrap_limit it.shuffle_cycle
    else if it.context_wrapping
    then range it.context_wrap_index it.context_wrap_limit
    else range it.context_index (length (context_all_entries it.snapshot))
      ++ range 0 it.context_wrap_limit

unfoldable pub queue_rest : ℕ → List SessionEntry → List PlaybackCandidate
queue_rest k [] = []
queue_rest k (e ∷ rest) =
    record { entry = e; origin = EntryOrigin.queued; queue_index = pos k } ∷ queue_rest (suc k) rest

unfoldable pub repeat_rest : NextActionIterator → List PlaybackCandidate
repeat_rest it = elim (repeated it) [ none ↦ [] | some e ↦ own_candidate e ∷ [] ]

-- All that is left, blocked or not.
unfoldable pub pending : NextActionIterator → List PlaybackCandidate
pending it =
    repeat_rest it
    ++ (queue_rest it.user_index (drop it.user_index it.snapshot.user_queue)
        ++ map (context_candidate it.snapshot) (context_rest it))

-- The second pass stays inside the cycle.
pub record WithinCycle (it : NextActionIterator) : Type 0 where
  pub within : it.shuffle_wrap_limit ≤ length it.shuffle_cycle

pub drop-step :
    {A : Type 0} (xs : List A) (p : ℕ) (d : A)
    → p < length xs
    → drop p xs ≡ get_or xs p d ∷ drop (p + 1) xs
drop-step [] p d h = elim h [ ]
drop-step (x ∷ xs) zero d h = refl
drop-step (x ∷ xs) (suc p) d h =
    let e : suc p + 1 ≡ suc (p + 1) = omega arith in rw e (drop-step xs p d (omega arith))

pub drop_end : {A : Type 0} (xs : List A) (p : ℕ) → length xs ≤ p → drop p xs ≡ []
drop_end [] zero h = refl
drop_end [] (suc p) h = refl
drop_end (x ∷ xs) zero h = absurd (omega arith)
drop_end (x ∷ xs) (suc p) h = drop_end xs p (omega arith)

get_or-take : (xs : List ℕ) (n p : ℕ) → p < n → get_or (take n xs) p 0 ≡ get_or xs p 0
get_or-take [] zero p h = refl
get_or-take [] (suc n) p h = refl
get_or-take (x ∷ xs) zero p h = absurd (omega arith)
get_or-take (x ∷ xs) (suc n) zero h = refl
get_or-take (x ∷ xs) (suc n) (suc p) h = get_or-take xs n p (omega arith)

length-take_le : (xs : List ℕ) (n : ℕ) → n ≤ length xs → length (take n xs) ≡ n
length-take_le xs zero h = refl
length-take_le [] (suc n) h = absurd (omega arith)
length-take_le (x ∷ xs) (suc n) h = ap suc (length-take_le xs n (omega arith))

range-step : (a b : ℕ) → a < b → range a b ≡ a ∷ range (a + 1) b
unfolding indices_from
range-step a b h = let e : b - a ≡ suc (b - (a + 1)) = omega arith in rw (e, add-one) refl

range_end : (a b : ℕ) → b ≤ a → range a b ≡ []
unfolding indices_from
range_end a b h = let e : b - a ≡ 0 = omega arith in rw e refl

-- What the context's part leaves alone.
pub record Same (it it' : NextActionIterator) : Type 0 where
  pub snapshot : it'.snapshot ≡ it.snapshot
  pub blocked : it'.blocked ≡ it.blocked
  pub user_index : it'.user_index ≡ it.user_index
  pub emitted_repeat_one : it'.emitted_repeat_one ≡ it.emitted_repeat_one

-- What one call of the context's part does to the rest of the indices.
abbrev pub Visits : NextActionIterator → NextActionIterator × Option PlaybackCandidate → Type 0
Visits it (it', none) = context_rest it ≡ []
Visits it (it', some c) =
    (i : ℕ) × (context_rest it ≡ i ∷ context_rest it')
    × (c ≡ context_candidate it.snapshot i)
    × WithinCycle it'
    × Same it it'

module _ (it : NextActionIterator) where
  abbrev HasContext : Type 0
  HasContext = (length (context_all_entries it.snapshot) == 0) ≡ false

  shuffle_wrap-Visits :
      WithinCycle it
      → HasContext
      → it.snapshot.shuffle ≡ true
      → it.shuffle_wrapping ≡ true
      → Visits it (shuffle_wrap it)
  unfolding shuffle_wrap context_rest
  shuffle_wrap-Visits w n s h =
      let slice = take it.shuffle_wrap_limit it.shuffle_cycle in
      let sized = length-take_le it.shuffle_cycle it.shuffle_wrap_limit w.within in
      elim (Bool-cases (leb it.shuffle_wrap_limit it.shuffle_pos)) [
        | inl end ↦ simp (end, n, s, h) (drop_end slice it.shuffle_pos (ground arith))
        | inr more ↦
            simp (more, n, s, h)
              (
                get_or it.shuffle_cycle it.shuffle_pos 0,
                drop-step slice it.shuffle_pos 0 (ground arith)
                    ∙ ap (λ i. i ∷ drop (it.shuffle_pos + 1) slice)
                        (get_or-take it.shuffle_cycle it.shuffle_wrap_limit it.shuffle_pos
                          (ground arith)),
                refl,
                record { within = w.within },
                record {
                  snapshot = refl;
                  blocked = refl;
                  user_index = refl;
                  emitted_repeat_one = refl;
                },
              )
      ]

  order_wrap-Visits :
      WithinCycle it
      → HasContext
      → it.snapshot.shuffle ≡ false
      → it.context_wrapping ≡ true
      → Visits it (order_wrap it)
  unfolding order_wrap context_rest
  order_wrap-Visits w n s h = elim (Bool-cases (leb it.context_wrap_limit it.context_wrap_index)) [
    | inl end ↦
        simp (end, n, s, h) (range_end it.context_wrap_index it.context_wrap_limit (ground arith))
    | inr more ↦
        simp (more, n, s, h)
          (
            it.context_wrap_index,
            range-step it.context_wrap_index it.context_wrap_limit (ground arith),
            refl,
            record { within = w.within },
            record {
              snapshot = refl;
              blocked = refl;
              user_index = refl;
              emitted_repeat_one = refl;
            },
          )
  ]

-- To turn to the second pass changes nothing of what is left.
turn_shuffle :
    (it : NextActionIterator)
    → (length (context_all_entries it.snapshot) == 0) ≡ false
    → it.snapshot.shuffle ≡ true
    → it.shuffle_wrapping ≡ false
    → length it.shuffle_cycle ≤ it.shuffle_pos
    → context_rest it ≡ context_rest (record it { shuffle_wrapping = true; shuffle_pos = 0 })
unfolding context_rest
turn_shuffle it n s w h = simp (n, s, w, drop_end it.shuffle_cycle it.shuffle_pos h)

turn_order :
    (it : NextActionIterator)
    → (length (context_all_entries it.snapshot) == 0) ≡ false
    → it.snapshot.shuffle ≡ false
    → it.context_wrapping ≡ false
    → length (context_all_entries it.snapshot) ≤ it.context_index
    → context_rest it ≡ context_rest (record it { context_wrapping = true; context_wrap_index = 0 })
unfolding context_rest
turn_order it n s w h =
    simp (n, s, w, range_end it.context_index (length (context_all_entries it.snapshot)) h)

Visits-turn :
    (it turned : NextActionIterator) (r : NextActionIterator × Option PlaybackCandidate)
    → context_rest it ≡ context_rest turned
    → Same it turned
    → ((i : ℕ) → context_candidate turned.snapshot i ≡ context_candidate it.snapshot i)
    → Visits turned r
    → Visits it r
Visits-turn it turned (it', none) e s k v = e ∙ v
Visits-turn it turned (it', some c) e s k (i, rest, found, w, t) = (
  i,
  e ∙ rest,
  found ∙ k i,
  w,
  record {
    snapshot = t.snapshot ∙ s.snapshot;
    blocked = t.blocked ∙ s.blocked;
    user_index = t.user_index ∙ s.user_index;
    emitted_repeat_one = t.emitted_repeat_one ∙ s.emitted_repeat_one;
  },
)

module _ (it : NextActionIterator) where
  shuffle_next-Visits :
      WithinCycle it → HasContext it → it.snapshot.shuffle ≡ true → Visits it (shuffle_next it)
  unfolding shuffle_next
  shuffle_next-Visits w n s = elim (Bool-cases it.shuffle_wrapping) [
    | inl second ↦ simp second (shuffle_wrap-Visits it w n s second)
    | inr first ↦ elim (Bool-cases (ltb it.shuffle_pos (length it.shuffle_cycle))) [
      | inl more ↦
          simp (first, more)
            (
              get_or it.shuffle_cycle it.shuffle_pos 0,
              unfold context_rest in
                  simp (n, s, first, drop-step it.shuffle_cycle it.shuffle_pos 0 (ground arith)),
              refl,
              record { within = w.within },
              record {
                snapshot = refl;
                blocked = refl;
                user_index = refl;
                emitted_repeat_one = refl;
              },
            )
      | inr end ↦ elim (Bool-cases (leb it.shuffle_wrap_limit 0)) [
        | inl stay ↦
            let none_left : it.shuffle_wrap_limit ≡ 0 = ground arith in
            simp (first, end, stay)
              (unfold context_rest in
                simp
                  (n, s, first, drop_end it.shuffle_cycle it.shuffle_pos (ground arith), none_left))
        | inr turn ↦
            simp (first, end, turn)
              (Visits-turn it (record it { shuffle_wrapping = true; shuffle_pos = 0 }) _
                (turn_shuffle it n s first (ground arith))
                (record {
                  snapshot = refl;
                  blocked = refl;
                  user_index = refl;
                  emitted_repeat_one = refl;
                })
                (λ i. refl)
                (shuffle_wrap-Visits (record it { shuffle_wrapping = true; shuffle_pos = 0 })
                  (record { within = w.within }) n s refl))
      ]
    ]
  ]

  order_next-Visits :
      WithinCycle it → HasContext it → it.snapshot.shuffle ≡ false → Visits it (order_next it)
  unfolding order_next
  order_next-Visits w n s = elim (Bool-cases it.context_wrapping) [
    | inl second ↦ simp second (order_wrap-Visits it w n s second)
    | inr first ↦
        elim (Bool-cases (ltb it.context_index (length (context_all_entries it.snapshot)))) [
          | inl more ↦
              simp (first, more)
                (
                  it.context_index,
                  unfold context_rest in
                      simp (
                        n,
                        s,
                        first,
                        range-step it.context_index (length (context_all_entries it.snapshot))
                            (ground arith),
                      ),
                  refl,
                  record { within = w.within },
                  record {
                    snapshot = refl;
                    blocked = refl;
                    user_index = refl;
                    emitted_repeat_one = refl;
                  },
                )
          | inr end ↦ elim (Bool-cases (leb it.context_wrap_limit 0)) [
            | inl stay ↦
                let none_left : it.context_wrap_limit ≡ 0 = ground arith in
                simp (first, end, stay)
                  (unfold context_rest in
                    simp (
                      n,
                      s,
                      first,
                      range_end it.context_index (length (context_all_entries it.snapshot))
                          (ground arith),
                      none_left,
                      range_end 0 0 (omega arith),
                    ))
            | inr turn ↦
                simp (first, end, turn)
                  (Visits-turn it (record it { context_wrapping = true; context_wrap_index = 0 }) _
                    (turn_order it n s first (ground arith))
                    (record {
                      snapshot = refl;
                      blocked = refl;
                      user_index = refl;
                      emitted_repeat_one = refl;
                    })
                    (λ i. refl)
                    (order_wrap-Visits
                      (record it { context_wrapping = true; context_wrap_index = 0 })
                      (record { within = w.within }) n s refl))
          ]
        ]
  ]

  pub next_context_candidate-Visits : WithinCycle it → Visits it (next_context_candidate it)
  unfolding next_context_candidate
  next_context_candidate-Visits w =
      elim (Bool-cases (length (context_all_entries it.snapshot) == 0)) [
        | inl empty ↦ simp empty (unfold context_rest in simp empty)
        | inr full ↦ elim (Bool-cases it.snapshot.shuffle) [
          | inl on ↦ simp (full, on) (shuffle_next-Visits w full on)
          | inr off ↦ simp (full, off) (order_next-Visits w full off)
        ]
      ]
