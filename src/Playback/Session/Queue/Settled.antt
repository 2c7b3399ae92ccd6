-- ===== src/Playback/Session/Queue/Settled.antt =====
-- internal/playback/session.go: the user queue at the start and at the end of an operation.
use ben_desktop.Base.{
  ◌≡◌, refl, ◌∙◌, inl, inr, Bool, true, false, Option, none, some, map, Bool-cases,
}
use ben_desktop.Playback.Types.{SessionSnapshot}
use ben_desktop.Playback.Platform.{Platform}
use ben_desktop.Playback.Normalize.{normalize_user_entry}
use ben_desktop.Playback.Normalize.Queues.{user_queue-normalize_snapshot}
use ben_desktop.Playback.Session.{
  Session, TransportTransition, QueueMutation, transport_invalidated, cancel_pending,
  cancel_transport_transition, cancel_if_invalidated, advance_intent_epoch, bump_version,
  prune_entry_availability, touch,
}
use ben_desktop.Playback.Session.Queue.{prepared}

module _ (P : Platform) where
  user_queue-bump_version :
      (b : Bool) (s : SessionSnapshot) → (bump_version P b s).user_queue ≡ s.user_queue
  unfolding bump_version prune_entry_availability
  user_queue-bump_version true s = refl
  user_queue-bump_version false s = refl

  -- At the end of an operation the queue keeps its entries, each normalised by itself.
  pub user_queue-touch :
      (now : P.Time) (s : Session P)
      → (touch P now s).snapshot.user_queue ≡ map normalize_user_entry s.snapshot.user_queue
  unfolding touch
  user_queue-touch now s =
      user_queue-bump_version s.queue_dirty _ ∙ user_queue-normalize_snapshot P _

  user_queue-cancel_pending :
      (s : Session P) (o : Option TransportTransition)
      → (cancel_pending P s o).snapshot.user_queue ≡ s.snapshot.user_queue
  unfolding cancel_pending
  user_queue-cancel_pending s none = refl
  user_queue-cancel_pending s (some t) = refl

  -- The start of an operation leaves the queue alone.
  pub user_queue-prepared :
      (m : QueueMutation) (s : Session P)
      → (prepared P m s).snapshot.user_queue ≡ s.snapshot.user_queue
  unfolding cancel_if_invalidated cancel_transport_transition
  user_queue-prepared m s = elim (Bool-cases (transport_invalidated s.transport_pending m)) [
    | inl hit ↦ rw hit (user_queue-cancel_pending (advance_intent_epoch P s) s.transport_pending)
    | inr miss ↦ rw miss refl
  ]
