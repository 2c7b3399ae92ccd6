-- ===== src/Playback/Normalize/Queues.antt =====
-- internal/playback/session.go, normalizeSnapshot: what becomes of the user queue and the volume.
use ben_desktop.Base.{
  ℕ, ◌≤◌, ◌≡◌, refl, ◌∙◌, Option, none, some, map, length, ◌==◌, ltb, ◌&&◌, not, if◌then◌else◌,
  arith, Bool-cases, inl, inr,
}
use ben_desktop.Base.Int.{ℤ, pos, negsuc, ltb_ℤ}
use ben_desktop.Playback.Types.{SessionEntry, ContextQueue, SessionSnapshot}
use ben_desktop.Playback.Context.{context_all_entries}
use ben_desktop.Playback.Window.{is_source_backed_queue}
use ben_desktop.Playback.Platform.{Platform}
use ben_desktop.Playback.Normalize.{
  clamp_volume, normalize_user_entry, normalize_current, normalize_loading, normalize_position,
  is_none, is_nil, clear_shuffle, normalize_idle, normalize_pending, normalize_modes,
  normalize_resume, normalize_lane, normalize_plans, normalize_snapshot,
}

-- What the later steps leave alone.
record Keeps (s s' : SessionSnapshot) : Type 0 where
  user_queue : s'.user_queue ≡ s.user_queue
  volume : s'.volume ≡ s.volume

Keeps-self : (s : SessionSnapshot) → Keeps s s
Keeps-self s = record { user_queue = refl; volume = refl }

Keeps-trans : {r s t : SessionSnapshot} → Keeps r s → Keeps s t → Keeps r t
Keeps-trans k l = record { user_queue = l.user_queue ∙ k.user_queue; volume = l.volume ∙ k.volume }

module _ (s : SessionSnapshot) where
  normalize_current-Keeps : (o : Option SessionEntry) → Keeps s (normalize_current s o)
  unfolding normalize_current
  normalize_current-Keeps none = record { user_queue = refl; volume = refl }
  normalize_current-Keeps (some e) = record { user_queue = refl; volume = refl }

  normalize_loading-Keeps : (o : Option SessionEntry) → Keeps s (normalize_loading s o)
  unfolding normalize_loading
  normalize_loading-Keeps none = record { user_queue = refl; volume = refl }
  normalize_loading-Keeps (some e) = record { user_queue = refl; volume = refl }

  normalize_position-Keeps : (o : Option ℤ) → Keeps s (normalize_position s o)
  unfolding normalize_position
  normalize_position-Keeps none = Keeps-self s
  normalize_position-Keeps (some d) = elim (Bool-cases (ltb_ℤ d s.position_ms)) [
    | inl h ↦ rw h (record { user_queue = refl; volume = refl })
    | inr h ↦ rw h (record { user_queue = refl; volume = refl })
  ]

  normalize_idle-Keeps : Keeps s (normalize_idle s)
  unfolding normalize_idle
  normalize_idle-Keeps =
      elim (Bool-cases (
        is_none s.context_queue
        && is_nil s.user_queue
        && is_none s.current_entry
        && is_none s.loading_entry)) [
          | inl h ↦ rw h (record { user_queue = refl; volume = refl })
          | inr h ↦ rw h (record { user_queue = refl; volume = refl })
        ]

  normalize_pending-Keeps : Keeps s (normalize_pending s)
  unfolding normalize_pending
  normalize_pending-Keeps =
      elim (Bool-cases (not (is_none s.loading_entry) && is_none s.current_entry)) [
        | inl h ↦ rw h (record { user_queue = refl; volume = refl })
        | inr h ↦ rw h (record { user_queue = refl; volume = refl })
      ]

module _ (P : Platform) where
  module _ (s : SessionSnapshot) where
    normalize_resume-Keeps : (q : ContextQueue) → Keeps s (normalize_resume P s q)
    unfolding normalize_resume
    normalize_resume-Keeps q =
        let cleared = if s.shuffle then q else clear_shuffle q in
        let all = context_all_entries (record s { context_queue = some cleared }) in
        elim (Bool-cases (is_source_backed_queue q && length all == 0)) [
          | inl h ↦ rw h (record { user_queue = refl; volume = refl })
          | inr h ↦ rw h (record { user_queue = refl; volume = refl })
        ]

    normalize_lane-Keeps : (o : Option ContextQueue) → Keeps s (normalize_lane P s o)
    unfolding normalize_lane
    normalize_lane-Keeps none = elim (Bool-cases (is_none s.current_entry)) [
      | inl h ↦ rw h (record { user_queue = refl; volume = refl })
      | inr h ↦ rw h (record { user_queue = refl; volume = refl })
    ]
    normalize_lane-Keeps (some q) = normalize_resume-Keeps q

    normalize_plans-Keeps : Keeps s (normalize_plans P s)
    unfolding normalize_plans
    normalize_plans-Keeps = record { user_queue = refl; volume = refl }

  later-Keeps : (s : SessionSnapshot) → Keeps (normalize_modes P s) (normalize_snapshot P s)
  unfolding normalize_snapshot
  later-Keeps s0 =
      let s1 = normalize_modes P s0 in
      let s2 = normalize_current s1 s1.current_entry in
      let s3 = normalize_loading s2 s2.loading_entry in
      let s4 = normalize_lane P s3 s3.context_queue in
      let s5 = normalize_position s4 s4.duration_ms in
      let s6 = normalize_idle s5 in
      Keeps-trans (normalize_current-Keeps s1 s1.current_entry) (
        Keeps-trans (normalize_loading-Keeps s2 s2.loading_entry) (
          Keeps-trans (normalize_lane-Keeps s3 s3.context_queue) (
            Keeps-trans (normalize_position-Keeps s4 s4.duration_ms) (
              Keeps-trans (normalize_idle-Keeps s5) (
                Keeps-trans (normalize_pending-Keeps s6)
                  (normalize_plans-Keeps (normalize_pending s6)))))))

  -- The user queue keeps its entries and their order; each is normalised by itself.
  pub user_queue-normalize_snapshot :
      (s : SessionSnapshot)
      → (normalize_snapshot P s).user_queue ≡ map normalize_user_entry s.user_queue
  user_queue-normalize_snapshot s = (later-Keeps s).user_queue

  clamp_volume-le : (v : ℤ) → (n : ℕ) × (clamp_volume v ≡ pos n) × (n ≤ 100)
  unfolding clamp_volume
  clamp_volume-le (negsuc n) = (0, refl, omega arith)
  clamp_volume-le (pos n) = elim (Bool-cases (ltb 100 n)) [
    | inl loud ↦ rw loud (100, refl, omega arith)
    | inr fine ↦ rw fine (n, refl, ground arith)
  ]

  -- The volume lies between 0 and 100.
  pub volume-normalize_snapshot :
      (s : SessionSnapshot) → (n : ℕ) × ((normalize_snapshot P s).volume ≡ pos n) × (n ≤ 100)
  volume-normalize_snapshot s =
      let (n, e, h) = clamp_volume-le s.volume in (n, (later-Keeps s).volume ∙ e, h)
