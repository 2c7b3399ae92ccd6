-- ===== src/Playback/Iterator/Rounds.antt =====
-- internal/playback/session.go: the loops of the iterator run through all that is left, and stop.
use native.Mathlib.Numerals.{add-one}
use mathlib.Core.Path.{ap₂}
use ben_desktop.Base.{
  ℕ, zero, suc, ◌+◌, ◌≤◌, ◌<◌, ◌≡◌, refl, sym, ap, ◌∙◌, inl, inr, String, true, false, Option, none,
  some, List, [], ◌∷◌, ◌++◌, map, length, get_or, drop, arith, ltb, if◌then◌else◌, Bool-cases,
  Option-cases,
}
use ben_desktop.Base.Int.{pos}
use ben_desktop.Playback.Types.{EntryOrigin, SessionSnapshot, zero_entry}
use ben_desktop.Playback.Iterator.{
  PlaybackCandidate, NextActionIterator, member, is_blocked, context_candidate,
  next_context_candidate, Attempt, emit, skip, stop, offer, from_context, from_queue, repeated,
  emitted, own_candidate, attempt, resume, next, gather, candidates,
}
use ben_desktop.Playback.Iterator.Phases.{
  context_rest, queue_rest, repeat_rest, pending, WithinCycle, Visits, drop-step, drop_end,
  next_context_candidate-Visits,
}

-- What one round does: it takes the first candidate off, or nothing is left.
abbrev Took : NextActionIterator → PlaybackCandidate → NextActionIterator → Type 0
Took it c it' = (pending it ≡ c ∷ pending it') × (it'.blocked ≡ it.blocked) × WithinCycle it'

abbrev Takes : NextActionIterator → NextActionIterator × Attempt → Type 0
Takes it (it', emit c) = Took it c it' × (is_blocked it c.entry.entry_id ≡ false)
Takes it (it', skip) =
    (c : PlaybackCandidate) × (Took it c it' × (is_blocked it c.entry.entry_id ≡ true))
Takes it (it', stop) = pending it ≡ []

offer-Takes :
    (it it' asked : NextActionIterator) (c : PlaybackCandidate)
    → Took it c it'
    → asked.blocked ≡ it.blocked
    → Takes it (it', offer asked c)
unfolding offer is_blocked
offer-Takes it it' asked c t e = elim (Bool-cases (member c.entry.entry_id asked.blocked)) [
  | inl hit ↦ rw hit (c, (t, rw e at hit))
  | inr miss ↦ rw miss (t, rw e at miss)
]

-- What is left once the current entry needs no repeat.
abbrev parts : ℕ → SessionSnapshot → List ℕ → List PlaybackCandidate
parts k s is = queue_rest k (drop k s.user_queue) ++ map (context_candidate s) is

pending-parts :
    (it : NextActionIterator)
    → it.emitted_repeat_one ≡ true
    → pending it ≡ parts it.user_index it.snapshot (context_rest it)
unfolding pending repeat_rest
pending-parts it done = rw (done, repeat_rest)

abbrev queued_candidate : ℕ → SessionSnapshot → PlaybackCandidate
queued_candidate k s = record {
  entry = get_or s.user_queue k zero_entry;
  origin = EntryOrigin.queued;
  queue_index = pos k;
}

parts_queued :
    (k : ℕ) (s : SessionSnapshot) (is : List ℕ)
    → k < length s.user_queue
    → parts k s is ≡ queued_candidate k s ∷ parts (k + 1) s is
unfolding queue_rest
parts_queued k s is h = rw (drop-step s.user_queue k zero_entry h, queue_rest, add-one) refl

parts_context :
    (k : ℕ) (s : SessionSnapshot) (i : ℕ) (is : List ℕ)
    → length s.user_queue ≤ k
    → parts k s (i ∷ is) ≡ context_candidate s i ∷ parts k s is
unfolding queue_rest
parts_context k s i is h = rw (drop_end s.user_queue k h, queue_rest) refl

parts_end : (k : ℕ) (s : SessionSnapshot) → length s.user_queue ≤ k → parts k s [] ≡ []
unfolding queue_rest
parts_end k s h = rw (drop_end s.user_queue k h, queue_rest) refl

module _ (it : NextActionIterator) (done : it.emitted_repeat_one ≡ true) where
  from_context-Takes :
      (r : NextActionIterator × Option PlaybackCandidate)
      → length it.snapshot.user_queue ≤ it.user_index
      → Visits it r
      → Takes it (from_context r)
  unfolding from_context
  from_context-Takes (it', none) h v =
      pending-parts it done
      ∙ ap (parts it.user_index it.snapshot) v
      ∙ parts_end it.user_index it.snapshot h
  from_context-Takes (it', some c) h (i, rest, found, w, same) =
      offer-Takes it it' it' c
        (
          pending-parts it done
              ∙ ap (parts it.user_index it.snapshot) rest
              ∙ parts_context it.user_index it.snapshot i (context_rest it') h
              ∙ sym (
                  ap₂ ◌∷◌ found (
                    pending-parts it' (same.emitted_repeat_one ∙ done)
                    ∙ ap (λ k. parts k it'.snapshot (context_rest it')) same.user_index
                    ∙ ap (λ s. parts it.user_index s (context_rest it')) same.snapshot)),
          same.blocked,
          w,
        )
        same.blocked

  from_queue-Takes : WithinCycle it → Takes it (from_queue it)
  unfolding from_queue context_rest
  from_queue-Takes w = elim (Bool-cases (ltb it.user_index (length it.snapshot.user_queue))) [
    | inl more ↦
        let it' : NextActionIterator = record it { user_index = it.user_index + 1 } in
        rw more (
          offer-Takes it it' it _
            (
              pending-parts it done
                  ∙ parts_queued it.user_index it.snapshot (context_rest it) (ground arith)
                  ∙ ap (◌∷◌ (queued_candidate it.user_index it.snapshot))
                      (sym (pending-parts it' done)),
              refl,
              record { within = w.within },
            )
            refl)
    | inr end ↦ rw end (
        from_context-Takes (next_context_candidate it) (ground arith)
          (next_context_candidate-Visits it w))
  ]

-- Only what is not blocked is handed out.
unfoldable pub unblocked : List String → List PlaybackCandidate → List PlaybackCandidate
unblocked blocked [] = []
unblocked blocked (c ∷ cs) =
    if member c.entry.entry_id blocked then unblocked blocked cs else c ∷ unblocked blocked cs

attempt-Takes : (it : NextActionIterator) → WithinCycle it → Takes it (attempt it)
unfolding attempt pending repeat_rest context_rest is_blocked
attempt-Takes it w = elim (Option-cases (repeated it)) [
  | inl nothing ↦
      let same : pending it ≡ pending (emitted it) = rw (nothing, repeat_rest) refl in
      rw (nothing, attempt)
        (Takes-start (from_queue (emitted it)) same
          (from_queue-Takes (emitted it) refl (record { within = w.within })))
  | inr (e, again) ↦
      rw (again, attempt)
        (offer-Takes it (emitted it) it (own_candidate e)
          (rw (again, repeat_rest) refl, refl, record { within = w.within }) refl)
]
  where
    Takes-start :
        (r : NextActionIterator × Attempt)
        → pending it ≡ pending (emitted it)
        → Takes (emitted it) r
        → Takes it r
    Takes-start (it', emit c) p ((rest, b, v), k) = ((p ∙ rest, b, v), k)
    Takes-start (it', skip) p (c, ((rest, b, v), k)) = (c, ((p ∙ rest, b, v), k))
    Takes-start (it', stop) p k = p ∙ k

-- A call of `Next` returns the first candidate that is not blocked, and what follows it is left.
abbrev Returns : NextActionIterator → NextActionIterator × Option PlaybackCandidate → Type 0
Returns it (it', none) = unblocked it.blocked (pending it) ≡ []
Returns it (it', some c) =
    (unblocked it.blocked (pending it) ≡ c ∷ unblocked it.blocked (pending it'))
    × (it'.blocked ≡ it.blocked)
    × WithinCycle it'
    × (length (pending it') < length (pending it))

Returns-skip :
    (it it' : NextActionIterator) (c : PlaybackCandidate)
    → Took it c it'
    → is_blocked it c.entry.entry_id ≡ true
    → (r : NextActionIterator × Option PlaybackCandidate) → Returns it' r
    → Returns it r
unfolding unblocked is_blocked
Returns-skip it it' c (e, b, w) hit (last, none) r =
    ap (unblocked it.blocked) e ∙ (rw (hit) (ap (λ l. unblocked l (pending it')) (sym b) ∙ r))
Returns-skip it it' c (e, b, w) hit (last, some d) (r, b', w', shorter) = (
  ap (unblocked it.blocked) e
      ∙ rw hit (
          ap (λ l. unblocked l (pending it')) (sym b)
          ∙ r
          ∙ ap (λ l. d ∷ unblocked l (pending last)) b),
  b' ∙ b,
  w',
  omega (arith, ap length e),
)

next-Returns :
    (fuel : ℕ) (it : NextActionIterator)
    → WithinCycle it
    → length (pending it) < fuel
    → Returns it (next fuel it)
unfolding next
next-Returns zero it w h = absurd (omega arith)
next-Returns (suc fuel) it w h =
    resumed (attempt it) (attempt-Takes it w)
      (λ it' shorter w'. next-Returns fuel it' w' (omega arith))
  where
    resumed :
        (r : NextActionIterator × Attempt)
        → Takes it r
        → ((it' : NextActionIterator)
            → length (pending it') < length (pending it)
            → WithinCycle it'
            → Returns it' (next fuel it'))
        → Returns it (resume (next fuel) r)
    resumed (it', emit c) ((e, b, v), miss) ih = (
      ap (unblocked it.blocked) e
          ∙ unfold unblocked is_blocked in
            rw miss refl ∙ ap (λ l. c ∷ unblocked l (pending it')) refl,
      b,
      v,
      omega (arith, ap length e),
    )
    resumed (it', skip) (c, ((e, b, v), hit)) ih =
        Returns-skip it it' c (e, b, v) hit (next fuel it') (ih it' (omega (arith, ap length e)) v)
    resumed (it', stop) e ih = unfold unblocked in ap (unblocked it.blocked) e

-- Given more rounds than candidates are left, the plan is all of them that are not blocked.
pub candidates-unblocked :
    (rounds fuel : ℕ) (it : NextActionIterator)
    → WithinCycle it
    → length (pending it) < rounds
    → length (pending it) < fuel
    → candidates rounds fuel it ≡ unblocked it.blocked (pending it)
unfolding candidates
candidates-unblocked rounds zero it w r h = absurd (omega arith)
candidates-unblocked rounds (suc fuel) it w r h =
    gathered (next rounds it) (next-Returns rounds it w r)
      (λ it' shorter w'. candidates-unblocked rounds fuel it' w' (omega arith) (omega arith))
  where
    gathered :
        (n : NextActionIterator × Option PlaybackCandidate)
        → Returns it n
        → ((it' : NextActionIterator)
            → length (pending it') < length (pending it)
            → WithinCycle it'
            → candidates rounds fuel it' ≡ unblocked it'.blocked (pending it'))
        → gather (candidates rounds fuel) n ≡ unblocked it.blocked (pending it)
    gathered (it', none) e ih = sym e
    gathered (it', some c) (e, b, w', shorter) ih =
        ap (◌∷◌ c) (ih it' shorter w' ∙ ap (λ l. unblocked l (pending it')) b) ∙ sym e
