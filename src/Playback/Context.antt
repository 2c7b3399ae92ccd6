-- ===== src/Playback/Context.antt =====
-- internal/playback/session.go: reading the context queue of a snapshot.
use ben_desktop.Base.{
  ℕ, Bool, false, none, some, List, [], ◌∷◌, ◌&&◌, not, length, get_or, str_eq, if◌then◌else◌,
}
use ben_desktop.Base.Int.{ℤ, negsuc, in_range, at?}
use ben_desktop.Playback.Types.{SessionEntry, ContextQueue, SessionSnapshot, is_context, zero_entry}

unfoldable pub queue_all_entries : ContextQueue → List SessionEntry
queue_all_entries q = elim q.all_entries [ [] ↦ q.entries | e ∷ rest ↦ e ∷ rest ]

-- `contextAllEntries`
unfoldable pub context_all_entries : SessionSnapshot → List SessionEntry
unfolding queue_all_entries
context_all_entries s = elim s.context_queue [ none ↦ [] | some q ↦ queue_all_entries q ]

unfoldable pub current_context_index : SessionSnapshot → ℤ
current_context_index s = elim s.context_queue [ none ↦ negsuc 0 | some q ↦ q.current_index ]

unfoldable pub resume_context_index : SessionSnapshot → ℤ
resume_context_index s = elim s.context_queue [ none ↦ negsuc 0 | some q ↦ q.resume_index ]

unfoldable pub shuffle_bag : SessionSnapshot → List ℤ
shuffle_bag s = elim s.context_queue [ none ↦ [] | some q ↦ q.shuffle_bag ]

-- `contextEntryAt` at an index that its callers have checked; past the end Go would panic.
unfoldable pub context_entry_at : SessionSnapshot → ℕ → SessionEntry
context_entry_at s i = get_or (context_all_entries s) i zero_entry

-- The range test and the read are one: `at?` is `none` where the test fails.
unfoldable pub entry_matches_context_index : SessionSnapshot → SessionEntry → ℤ → Bool
entry_matches_context_index s e index =
    if is_context e.origin
    then elim (at? (context_all_entries s) index) [
      | none ↦ false
      | some x ↦ str_eq x.entry_id e.entry_id
    ]
    else false

unfoldable pub current_matches_context : SessionSnapshot → Bool
current_matches_context s = elim s.current_entry [
  | none ↦ false
  | some e ↦ entry_matches_context_index s e (current_context_index s)
]

-- `ContextQueue != nil` is part of the test: without one there are no entries.
unfoldable pub is_valid_context_index : SessionSnapshot → ℤ → Bool
is_valid_context_index s index = in_range index (length (context_all_entries s))

unfoldable pub shuffle_anchor_index : SessionSnapshot → ℤ
shuffle_anchor_index s =
    if is_valid_context_index s (current_context_index s)
    then current_context_index s
    else if is_valid_context_index s (resume_context_index s)
    then resume_context_index s
    else negsuc 0

unfoldable pub detached_current_context_index : SessionSnapshot → ℤ
detached_current_context_index s = elim s.current_entry [
  | none ↦ negsuc 0
  | some e ↦ elim s.context_queue [
    | none ↦ negsuc 0
    | some q ↦
        if is_context e.origin && not (current_matches_context s) then e.context_index else negsuc 0
  ]
]
