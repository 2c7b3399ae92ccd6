-- ===== src/Playback/Session/Queue/Outcome.antt =====
-- internal/playback/session.go: what each operation on the queue does to it, and what a refusal does.
use ben_desktop.Base.{
  ℕ, suc, trim_space, ◌≤◌, ◌++◌, ◌∷◌, List, ◌⊎◌, sym, ap, subst, ◌∙◌, take, drop, get_or, insert_at,
  length-append, All, Option-cases, ◌≡◌, ◌≢◌, refl, inl, inr, String, Option, none, some, map,
  length, remove_at, arith, ltb, ◌==◌, Bool-cases,
}
use ben_desktop.Base.Int.{ℤ, pos, negsuc, pos_part, in_range}
use ben_desktop.Playback.Platform.{Platform}
use ben_desktop.Playback.Normalize.{normalize_user_entry}
use ben_desktop.Playback.Session.{Session, index_of_entry_id}
use ben_desktop.Playback.Session.Queue.{
  move_entry, remove_found, remove_queued_entry, moved, move_found, move_queued_entry,
}
use ben_desktop.Playback.Session.Queue.{Failure, Reply, unchanged}
use ben_desktop.Playback.Types.{SessionEntry, zero_entry}
use ben_desktop.Playback.Session.Queue.Lists.{
  IsOther, IsFirst, index_of_entry_id-none, index_of_entry_id-IsFirst, remove_at-append,
  get_or-append, insert_at-take,
}
use ben_desktop.Playback.Session.Queue.Settled.{user_queue-touch}

apart : {n m : ℕ} → negsuc n ≢ pos m
apart h = cc

module _ (P : Platform) where
  remove_found_refused :
      (now : P.Time) (id : String) (s : Session P) (o : Option ℕ) {f : Failure}
      → (remove_found P now id s o).error ≡ some f
      → (remove_found P now id s o).session ≡ s
  unfolding remove_found
  remove_found_refused now id s none h = refl
  remove_found_refused now id s (some index) h = cc

  -- A removal that returns an error changes nothing.
  pub remove_queued_entry_refused :
      (now : P.Time) (id : String) (s : Session P) {f : Failure}
      → (remove_queued_entry P now id s).error ≡ some f
      → (remove_queued_entry P now id s).session ≡ s
  unfolding remove_queued_entry
  remove_queued_entry_refused now id s h =
      remove_found_refused now id s (index_of_entry_id s.snapshot.user_queue id) h

  moved_succeeds :
      (now : P.Time) (id : String) (from to : ℕ) (s : Session P)
      → (moved P now id from to s).error ≡ none
  unfolding moved
  moved_succeeds now id from to s = refl

  move_found_refused :
      (now : P.Time) (id : String) (to : ℤ) (s : Session P) (o : Option ℕ) {f : Failure}
      → (move_found P now id to s o).error ≡ some f
      → (move_found P now id to s o).session ≡ s
  unfolding move_found
  move_found_refused now id to s none h = refl
  move_found_refused now id to s (some from) h =
      elim (Bool-cases (in_range to (length s.snapshot.user_queue))) [
        | inr out ↦ rw out refl
        | inl within ↦ elim (Bool-cases (from == pos_part to)) [
          | inl there ↦ rw (within, there) refl
          | inr away ↦
              absurd
                (ground (arith, rw (within, away) at h, moved_succeeds now id from (pos_part to) s))
        ]
      ]

  -- A move that returns an error, because the entry is not found or the index is out of range, changes
  -- nothing.
  pub move_queued_entry_refused :
      (now : P.Time) (id : String) (to : ℤ) (s : Session P) {f : Failure}
      → (move_queued_entry P now id to s).error ≡ some f
      → (move_queued_entry P now id to s).session ≡ s
  unfolding move_queued_entry
  move_queued_entry_refused now id to s h =
      move_found_refused now id to s (index_of_entry_id s.snapshot.user_queue id) h

  abbrev queue_of : Session P → List SessionEntry
  queue_of s = s.snapshot.user_queue

  -- No entry has the id, and nothing changes.
  pub record IsMissing (id : String) (s : Session P) (r : Reply P) : Type 0 where
    pub others : All (IsOther id) s.snapshot.user_queue
    pub kept : r.session ≡ s
    pub refused : r.error ≡ some (Failure.entry_not_found (trim_space id))

  -- The queue becomes another one, each entry normalised by itself.
  pub record IsChanged (queue : List SessionEntry) (r : Reply P) : Type 0 where
    pub queue_is : r.session.snapshot.user_queue ≡ map normalize_user_entry queue
    pub accepted : r.error ≡ none

  -- A removal takes the first entry with the id out of the queue and leaves the others in their order; if
  -- no entry has the id, it changes nothing and says so.
  pub remove_queued_entry_lem :
      (now : P.Time) (id : String) (s : Session P)
      → IsMissing id s (remove_queued_entry P now id s)
        ⊎ ((before : List SessionEntry) × (e : SessionEntry) × (after : List SessionEntry) × IsFirst
              id s.snapshot.user_queue before e after
            × IsChanged (before ++ after) (remove_queued_entry P now id s))
  unfolding remove_queued_entry remove_found
  remove_queued_entry_lem now id s = elim (Option-cases (index_of_entry_id (queue_of s) id)) [
    | inl gone ↦ rw gone (
        inl (record {
          others = index_of_entry_id-none (queue_of s) id gone;
          kept = refl;
          refused = refl;
        }))
    | inr (index, found) ↦
        let (before, e, after, first, at) = index_of_entry_id-IsFirst (queue_of s) id index found in
        let rest : remove_at (queue_of s) index ≡ before ++ after =
          ap (λ n. remove_at (queue_of s) n) at
          ∙ ap (λ q. remove_at q (length before)) first.parts
          ∙ remove_at-append before after e in
        rw found (
          inr (
            before,
            e,
            after,
            first,
            record {
              queue_is = user_queue-touch P now _ ∙ ap (map normalize_user_entry) rest;
              accepted = refl;
            },
          ))
  ]

  -- What a move of the entry between these to an index does: outside the queue it is refused, to its own
  -- place it does nothing, and elsewhere it stands at that index among the others.
  pub data IsMoved (s : Session P) (before : List SessionEntry) (e : SessionEntry)
      (after : List SessionEntry) (r : Reply P) : ℤ → Type 0 where
    outside :
        (to : ℤ)
        → ((n : ℕ) → to ≡ pos n → length s.snapshot.user_queue ≤ n)
        → r.session ≡ s
        → r.error ≡ some (Failure.index_out_of_range to)
        → IsMoved s before e after r to
    in_place : r.session ≡ s → r.error ≡ none → IsMoved s before e after r (pos (length before))
    placed :
        (n : ℕ)
        → n ≤ length (before ++ after)
        → n ≢ length before
        → IsChanged (take n (before ++ after) ++ (e ∷ drop n (before ++ after))) r
        → IsMoved s before e after r (pos n)

  moved-Parts :
      (s : Session P) (id : String) (before : List SessionEntry) (e : SessionEntry)
      (after : List SessionEntry) (n : ℕ)
      → IsFirst id (queue_of s) before e after
      → n ≤ length (before ++ after)
      → move_entry (queue_of s) (length before) n
        ≡ take n (before ++ after) ++ (e ∷ drop n (before ++ after))
  unfolding move_entry
  moved-Parts s id before e after n first fits =
      ap (λ q. insert_at (remove_at q (length before)) n (get_or q (length before) zero_entry))
        first.parts
      ∙ ap (λ q. insert_at q n (get_or (before ++ (e ∷ after)) (length before) zero_entry))
          (remove_at-append before after e)
      ∙ ap (insert_at (before ++ after) n) (get_or-append before after e zero_entry)
      ∙ insert_at-take (before ++ after) n e fits

  move_found_first :
      (now : P.Time) (id : String) (to : ℤ) (s : Session P) (before : List SessionEntry)
      (e : SessionEntry) (after : List SessionEntry)
      → IsFirst id (queue_of s) before e after
      → IsMoved s before e after (move_found P now id to s (some (length before))) to
  unfolding move_found moved
  move_found_first now id (negsuc n) s before e after first =
      outside (negsuc n) (λ m h. absurd (apart h)) refl refl
  move_found_first now id (pos n) s before e after first =
      let size : length (queue_of s) ≡ suc (length (before ++ after)) = omega (
        arith,
        ap length first.parts,
        length-append before (e ∷ after),
        length-append before after,
      ) in
      elim (Bool-cases (ltb n (length (queue_of s)))) [
        | inr out ↦ rw out (outside (pos n) (λ m h. ground (arith, out, ap pos_part h)) refl refl)
        | inl within ↦ elim (Bool-cases (length before == n)) [
          | inl there ↦
              rw (within, there)
                (let same : length before ≡ n = ground (arith, there) in
                  subst (λ k. IsMoved s before e after (unchanged P s) (pos k)) same
                    (in_place refl refl))
          | inr away ↦
              let fits : n ≤ length (before ++ after) = ground (arith, within, size) in
              rw (within, away)
                (placed n fits (ground (arith, away)) (record {
                  queue_is =
                      user_queue-touch P now _
                      ∙ ap (map normalize_user_entry)
                          (moved-Parts s id before e after n first fits);
                  accepted = refl;
                }))
        ]
      ]

  IsMissing-move :
      (now : P.Time) (id : String) (to : ℤ) (s : Session P)
      → index_of_entry_id (queue_of s) id ≡ none
      → IsMissing id s (move_found P now id to s none)
  unfolding move_found
  IsMissing-move now id to s gone = record {
    others = index_of_entry_id-none (queue_of s) id gone;
    kept = refl;
    refused = refl;
  }

  -- A move takes the first entry with the id to an index among the others; if no entry has the id it
  -- changes nothing and says so.
  pub move_queued_entry_lem :
      (now : P.Time) (id : String) (to : ℤ) (s : Session P)
      → IsMissing id s (move_queued_entry P now id to s)
        ⊎ ((before : List SessionEntry) × (e : SessionEntry) × (after : List SessionEntry) × IsFirst
              id s.snapshot.user_queue before e after
            × IsMoved s before e after (move_queued_entry P now id to s) to)
  unfolding move_queued_entry
  move_queued_entry_lem now id to s = elim (Option-cases (index_of_entry_id (queue_of s) id)) [
    | inl gone ↦ rw gone (inl (IsMissing-move now id to s gone))
    | inr (index, found) ↦
        let (before, e, after, first, at) = index_of_entry_id-IsFirst (queue_of s) id index found in
        rw found (
          inr (
            before,
            e,
            after,
            first,
            subst (λ k. IsMoved s before e after (move_found P now id to s (some k)) to) (sym at)
                (move_found_first now id to s before e after first),
          ))
  ]
