-- ===== src/Playback/Normalize/Resume.antt =====
-- internal/playback/session.go, normalizeSnapshot: the resume index of a normalised snapshot.
use ben_desktop.Base.{
  ◌<◌, ◌≡◌, refl, sym, ◌∙◌, subst, Option, none, some, List, [], length, ◌==◌, ◌&&◌, not,
  if◌then◌else◌, arith, Bool-cases, inl, inr,
}
use ben_desktop.Base.Int.{ℤ, negsuc, ltb_ℤ}
use ben_desktop.Playback.Types.{SessionEntry, ContextQueue, SessionSnapshot}
use ben_desktop.Playback.Platform.{Platform}
use ben_desktop.Playback.Context.{context_all_entries, queue_all_entries, resume_context_index}
use ben_desktop.Playback.Navigation.Bounds.{Indexes, normalize_resume-Indexes}
use ben_desktop.Playback.Window.{is_source_backed_queue}
use ben_desktop.Playback.Normalize.{
  normalize_current, normalize_loading, normalize_position, is_none, is_nil, clear_shuffle,
  normalize_idle, normalize_pending, normalize_modes, normalize_resume, normalize_lane,
  normalize_plans, normalize_snapshot,
}

abbrev entries_of : Option ContextQueue → List SessionEntry
entries_of o = elim o [ none ↦ [] | some q ↦ queue_all_entries q ]

abbrev resume_of : Option ContextQueue → ℤ
resume_of o = elim o [ none ↦ negsuc 0 | some q ↦ q.resume_index ]

-- A queue with entries resumes at -1 or at one of them.
abbrev Resumes : Option ContextQueue → Type 0
Resumes o = 0 < length (entries_of o) → Indexes (length (entries_of o)) (resume_of o)

module _ (s : SessionSnapshot) where
  context_queue-normalize_position :
      (o : Option ℤ) → (normalize_position s o).context_queue ≡ s.context_queue
  unfolding normalize_position
  context_queue-normalize_position none = refl
  context_queue-normalize_position (some d) = elim (Bool-cases (ltb_ℤ d s.position_ms)) [
    | inl h ↦ rw h refl
    | inr h ↦ rw h refl
  ]

  context_queue-normalize_idle : (normalize_idle s).context_queue ≡ s.context_queue
  unfolding normalize_idle
  context_queue-normalize_idle =
      elim (Bool-cases (
        is_none s.context_queue
        && is_nil s.user_queue
        && is_none s.current_entry
        && is_none s.loading_entry)) [ inl h ↦ rw h refl | inr h ↦ rw h refl ]

  context_queue-normalize_pending : (normalize_pending s).context_queue ≡ s.context_queue
  unfolding normalize_pending
  context_queue-normalize_pending =
      elim (Bool-cases (not (is_none s.loading_entry) && is_none s.current_entry)) [
        | inl h ↦ rw h refl
        | inr h ↦ rw h refl
      ]

module _ (P : Platform) where
  normalize_resume-Resumes :
      (s : SessionSnapshot) (q : ContextQueue) → Resumes (normalize_resume P s q).context_queue
  unfolding normalize_resume context_all_entries queue_all_entries
  normalize_resume-Resumes s q =
      let cleared = if s.shuffle then q else clear_shuffle q in
      let all = context_all_entries (record s { context_queue = some cleared }) in
      elim (Bool-cases (is_source_backed_queue q && length all == 0)) [
        | inl bare ↦ rw bare (λ h. absurd (ground (arith, bare)))
        | inr full ↦ rw full (λ h. normalize_resume-Indexes P.rand _)
      ]

  normalize_lane-Resumes :
      (s : SessionSnapshot) (o : Option ContextQueue)
      → s.context_queue ≡ o
      → Resumes (normalize_lane P s o).context_queue
  unfolding normalize_lane
  normalize_lane-Resumes s none e =
      let gone : (normalize_lane P s none).context_queue ≡ none =
        elim (Bool-cases (is_none s.current_entry)) [ inl h ↦ rw h e | inr h ↦ rw h e ] in
      subst Resumes (sym gone) (λ h. absurd (omega arith))
  normalize_lane-Resumes s (some q) e = normalize_resume-Resumes s q

  normalize_snapshot-Resumes :
      (s : SessionSnapshot) → Resumes (normalize_snapshot P s).context_queue
  unfolding normalize_snapshot normalize_plans
  normalize_snapshot-Resumes s0 =
      let s1 = normalize_modes P s0 in
      let s2 = normalize_current s1 s1.current_entry in
      let s3 = normalize_loading s2 s2.loading_entry in
      let s4 = normalize_lane P s3 s3.context_queue in
      let s5 = normalize_position s4 s4.duration_ms in
      subst Resumes
        (sym (
          context_queue-normalize_pending (normalize_idle s5)
          ∙ context_queue-normalize_idle s5
          ∙ context_queue-normalize_position s4 s4.duration_ms))
        (normalize_lane-Resumes s3 s3.context_queue refl)

  -- Whatever a snapshot held before, normalised and with a context that has entries its resume index
  -- is -1 or that of an entry.
  pub resume_context_index-normalize_snapshot :
      (s : SessionSnapshot)
      → 0 < length (context_all_entries (normalize_snapshot P s))
      → Indexes
          (length (context_all_entries (normalize_snapshot P s)))
          (resume_context_index (normalize_snapshot P s))
  unfolding context_all_entries resume_context_index
  resume_context_index-normalize_snapshot s = normalize_snapshot-Resumes s
