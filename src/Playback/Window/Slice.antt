-- ===== src/Playback/Window/Slice.antt =====
-- internal/playback/session.go, refreshContextWindowLocked: the window is a slice around the anchor.
use ben_desktop.Base.{
  ℕ, ◌+◌, ◌-◌, ◌≤◌, ◌<◌, ◌≡◌, refl, ap, List, [], ◌∷◌, length, take, drop, length-take, length-drop,
  ltb, ◌==◌, arith, Bool-cases, inl, inr,
}
use ben_desktop.Base.Int.{pos}
use ben_desktop.Playback.Types.{SessionEntry, ContextQueue}
use ben_desktop.Playback.Context.{queue_all_entries}
use ben_desktop.Playback.Window.{
  is_source_backed_queue, window_anchor, window_from, window_to, slice, part_window,
  refresh_context_window,
}

-- The invariant of a window: a slice of all entries, with the counts and flags that belong to it.
pub record IsWindow (q : ContextQueue) (from to : ℕ) : Type 0 where
  pub ordered : from ≤ to
  pub fits : to ≤ length q.all_entries
  pub entries : q.entries ≡ slice from to q.all_entries
  pub start : q.window_start ≡ pos from
  pub counted : q.window_count ≡ pos (to - from)
  pub total : q.total_count ≡ pos (length q.all_entries)
  pub before : q.has_before ≡ ltb 0 from
  pub after : q.has_after ≡ ltb to (length q.all_entries)

take_all : (xs : List SessionEntry) → take (length xs) xs ≡ xs
take_all [] = refl
take_all (x ∷ xs) = ap (λ l. x ∷ l) (take_all xs)

slice_all : (xs : List SessionEntry) → xs ≡ slice 0 (length xs) xs
slice_all xs = let e : length xs - 0 ≡ length xs = omega arith in rw (e, take_all xs) refl

length-slice :
    (from to : ℕ) (xs : List SessionEntry)
    → from ≤ to
    → to ≤ length xs
    → length (slice from to xs) ≡ to - from
length-slice from to xs h k =
    length-take (to - from) (drop from xs) (omega (arith, length-drop from xs))

anchor-lt : (q : ContextQueue) (n : ℕ) → 0 < n → window_anchor q n < n
unfolding window_anchor
anchor-lt q n h = ground arith

part_window-IsWindow :
    (q : ContextQueue) (entries : List SessionEntry)
    → 0 < length entries
    → IsWindow
        (part_window
          (record q { all_entries = entries; total_count = pos (length entries) })
          entries)
        (window_from q (length entries))
        (window_to q (length entries))
unfolding part_window window_from window_to
part_window-IsWindow q entries h =
    let n = length entries in
    let lt = anchor-lt q n h in
    let ordered : window_from q n ≤ window_to q n = ground arith in
    let fits : window_to q n ≤ n = ground arith in
    record {
      ordered = ordered;
      fits = fits;
      entries = refl;
      start = refl;
      counted = ap pos (length-slice (window_from q n) (window_to q n) entries ordered fits);
      total = refl;
      before = refl;
      after = refl;
    }

module _ (q : ContextQueue) where
  -- After a refresh the entries shown are a slice of the context, and the start, the counts and the
  -- flags of the window are those of the slice.
  pub refresh_context_window-IsWindow :
      (from : ℕ) × (to : ℕ) × IsWindow (refresh_context_window q) from to
  unfolding refresh_context_window
  refresh_context_window-IsWindow =
      let entries = queue_all_entries q in
      elim (Bool-cases (length entries == 0)) [
        | inl empty ↦ rw empty (
          0,
          0,
          record {
            ordered = omega arith;
            fits = omega arith;
            entries = refl;
            start = refl;
            counted = refl;
            total = refl;
            before = refl;
            after = ground arith;
          },
        )
        | inr full ↦ elim (Bool-cases (is_source_backed_queue q)) [
          | inl backed ↦
              simp (full, backed)
                (
                  window_from q (length entries),
                  window_to q (length entries),
                  part_window-IsWindow q entries (ground arith),
                )
          | inr local ↦
              simp (full, local)
                (
                  0,
                  length entries,
                  record {
                    ordered = omega arith;
                    fits = omega arith;
                    entries = slice_all entries;
                    start = refl;
                    counted = ap pos (omega arith);
                    total = refl;
                    before = refl;
                    after = ground arith;
                  },
                )
        ]
      ]

  -- The part that a context with entries shows has the anchor in it and at most 121 entries.
  pub window_anchor-inside :
      let n = length (queue_all_entries q) in
      0 < n
      → (window_from q n ≤ window_anchor q n)
        × (window_anchor q n < window_to q n)
        × (window_to q n ≤ window_from q n + 121)
  unfolding window_from window_to
  window_anchor-inside h =
      let lt = anchor-lt q (length (queue_all_entries q)) h in
      (omega arith, ground arith, ground arith)
