-- ===== src/Playback/Window.antt =====
-- internal/playback/session.go, refreshContextWindowLocked: the part of a context that is shown.
pub mod Slice
use ben_desktop.Base.{
  ℕ, ◌+◌, ◌-◌, Bool, true, false, Option, none, some, List, [], ◌∷◌, length, take, drop, ltb, ◌==◌,
  not, if◌then◌else◌,
}
use ben_desktop.Base.Int.{ℤ, pos, pos_part, is_negative, in_range}
use ben_desktop.Playback.Types.{SessionEntry, ContextQueue}
use ben_desktop.Playback.Context.{queue_all_entries}

abbrev pub is_source_backed_queue : ContextQueue → Bool
is_source_backed_queue q = elim q.source [ none ↦ false | some d ↦ true ]

-- `isSourceBackedContext`
abbrev pub is_source_backed_context : Option ContextQueue → Bool
is_source_backed_context none = false
is_source_backed_context (some q) = is_source_backed_queue q

unfoldable pub window_anchor : ContextQueue → ℕ → ℕ
window_anchor q total =
    let wanted = if is_negative q.current_index then q.resume_index else q.current_index in
    if in_range wanted total then pos_part wanted else 0

-- Where the window starts and ends; the subtraction stops at 0 as the source's test has it.
unfoldable pub window_from : ContextQueue → ℕ → ℕ
unfolding window_anchor
window_from q total = window_anchor q total - 20

unfoldable pub window_to : ContextQueue → ℕ → ℕ
unfolding window_anchor
window_to q total =
    let end = window_anchor q total + 100 + 1 in if ltb total end then total else end

abbrev pub slice {ℓ} : {A : Type ℓ} → ℕ → ℕ → List A → List A
slice from to xs = take (to - from) (drop from xs)

abbrev empty_window : ContextQueue → ContextQueue
empty_window q = record q {
  entries = [];
  window_start = pos 0;
  window_count = pos 0;
  has_before = false;
  has_after = false;
}

abbrev whole_window : ContextQueue → List SessionEntry → ContextQueue
whole_window q all = record q {
  entries = all;
  window_start = pos 0;
  window_count = pos (length all);
  has_before = false;
  has_after = false;
}

unfoldable pub part_window : ContextQueue → List SessionEntry → ContextQueue
unfolding window_from window_to
part_window q all =
    let from = window_from q (length all) in
    let to = window_to q (length all) in
    record q {
      entries = slice from to all;
      window_start = pos from;
      window_count = pos (length (slice from to all));
      has_before = ltb 0 from;
      has_after = ltb to (length all);
    }

unfoldable pub refresh_context_window : ContextQueue → ContextQueue
unfolding queue_all_entries part_window
refresh_context_window q =
    let all = queue_all_entries q in
    let counted = record q { all_entries = all; total_count = pos (length all) } in
    if length all == 0
    then empty_window counted
    else if not (is_source_backed_queue q)
    then whole_window counted all
    else part_window counted all
