-- ===== src/Playback/Session/Queue/Pending.antt =====
-- internal/playback/session.go: a pending transition to a queued entry keeps its place in the queue.
use ben_desktop.Base.{
  ℕ, ◌<◌, ◌≡◌, refl, sym, subst, inl, inr, String, Option, none, some, List, [], ◌∷◌, ◌++◌, length,
  get_or, remove_at, arith, ◌==◌, trim_space, Bool-cases, if◌then◌else◌,
}
use ben_desktop.Base.Int.{ℤ, pos_part, in_range}
use ben_desktop.Playback.Types.{QueueInsertMode, SessionItem, zero_entry}
use ben_desktop.Playback.Platform.{Platform}
use ben_desktop.Playback.Items.{normalize_items}
use ben_desktop.Playback.Normalize.{at_least_one}
use ben_desktop.Playback.Session.{
  Session, TransportTransition, QueueMutation, index_of_entry_id, transport_invalidated,
  cancel_pending, cancel_transport_transition, cancel_if_invalidated, advance_intent_epoch, touch,
}
use ben_desktop.Playback.Session.Queue.{
  queued_entries, inserts_next, move_entry, enqueue, queue_mutation, queue_normal, queue_items,
  removal, remove_found, remove_queued_entry, displacement, moved, move_found, move_queued_entry,
  prepared,
}
use ben_desktop.Playback.Session.Queue.Lists.{index_of_entry_id_found}
use ben_desktop.Playback.Session.Queue.Settled.{user_queue-touch, user_queue-prepared}
use ben_desktop.Playback.Session.Queue.Places.{
  Placed, IsPlaced, survivor, Placed-map, Placed-enqueue, Placed-remove, Placed-move,
}

module _ (P : Platform) where
  touch-IsPlaced :
      (now : P.Time) (s : Session P)
      → Placed s.transport_pending s.snapshot.user_queue
      → Placed (touch P now s).transport_pending (touch P now s).snapshot.user_queue
  unfolding touch
  touch-IsPlaced now s h =
      subst (Placed s.transport_pending) (sym (user_queue-touch P now s))
        (Placed-map s.transport_pending s.snapshot.user_queue h)

  cancel_pending-pending :
      (s : Session P) (o : Option TransportTransition)
      → s.transport_pending ≡ o
      → (cancel_pending P s o).transport_pending ≡ none
  unfolding cancel_pending
  cancel_pending-pending s none e = e
  cancel_pending-pending s (some t) e = refl

  prepared-pending :
      (m : QueueMutation) (s : Session P)
      → (prepared P m s).transport_pending ≡ survivor m s.transport_pending
  unfolding cancel_if_invalidated cancel_transport_transition
  prepared-pending m s = elim (Bool-cases (transport_invalidated s.transport_pending m)) [
    | inl hit ↦ rw hit (cancel_pending-pending (advance_intent_epoch P s) s.transport_pending refl)
    | inr miss ↦ rw miss refl
  ]

  queue_normal-IsPlaced :
      (now : P.Time) (items : List SessionItem) (mode : QueueInsertMode) (s : Session P)
      → IsPlaced s
      → IsPlaced (queue_normal P now items mode s).session
  unfolding queue_normal enqueue
  queue_normal-IsPlaced now [] mode s h = h
  queue_normal-IsPlaced now (i ∷ rest) mode s h =
      let r = prepared P (queue_mutation mode) s in
      let seq = pos_part (at_least_one r.snapshot.next_entry_seq) in
      let entries = queued_entries P.sprint_id seq (i ∷ rest) in
      let queue = r.snapshot.user_queue in
      touch-IsPlaced now _ (
        subst (λ o. Placed o (if inserts_next mode then entries ++ queue else queue ++ entries))
          (sym (prepared-pending (queue_mutation mode) s))
          (Placed-enqueue mode s.transport_pending entries queue (
            subst (Placed s.transport_pending) (sym (user_queue-prepared P (queue_mutation mode) s))
              h)))

  -- If a pending transition to a queued entry names the entry's place before items are queued, it
  -- does so afterwards or it is cancelled.
  pub queue_items-IsPlaced :
      (now : P.Time) (items : List SessionItem) (mode : QueueInsertMode) (s : Session P)
      → IsPlaced s
      → IsPlaced (queue_items P now items mode s).session
  unfolding queue_items
  queue_items-IsPlaced now items mode s h =
      queue_normal-IsPlaced now (normalize_items items) mode s h

  remove_found-IsPlaced :
      (now : P.Time) (id : String) (s : Session P) (o : Option ℕ)
      → IsPlaced s
      → IsPlaced (remove_found P now id s o).session
  unfolding remove_found
  remove_found-IsPlaced now id s none h = h
  remove_found-IsPlaced now id s (some index) h = touch-IsPlaced now _ (
      subst (λ o. Placed o (remove_at s.snapshot.user_queue index))
        (sym (prepared-pending (removal P id index s) s))
        (Placed-remove s.transport_pending s.snapshot.user_queue id index h))

  -- If a pending transition to a queued entry names the entry's place before a removal, whether the
  -- entry to remove is found or not, it does so afterwards or it is cancelled.
  pub remove_queued_entry-IsPlaced :
      (now : P.Time) (id : String) (s : Session P)
      → IsPlaced s
      → IsPlaced (remove_queued_entry P now id s).session
  unfolding remove_queued_entry
  remove_queued_entry-IsPlaced now id s h =
      remove_found-IsPlaced now id s (index_of_entry_id s.snapshot.user_queue id) h

  moved-IsPlaced :
      (now : P.Time) (id : String) (from to : ℕ) (s : Session P)
      → from < length s.snapshot.user_queue
      → to < length s.snapshot.user_queue
      → (get_or s.snapshot.user_queue from zero_entry).entry_id ≡ trim_space id
      → IsPlaced s
      → IsPlaced (moved P now id from to s).session
  unfolding moved
  moved-IsPlaced now id from to s f t e h = touch-IsPlaced now _ (
      subst (λ o. Placed o (move_entry s.snapshot.user_queue from to))
        (sym (prepared-pending (displacement P id from to s) s))
        (Placed-move s.transport_pending s.snapshot.user_queue id from to f t e h))

  move_found-IsPlaced :
      (now : P.Time) (id : String) (to : ℤ) (s : Session P) (o : Option ℕ)
      → index_of_entry_id s.snapshot.user_queue id ≡ o
      → IsPlaced s
      → IsPlaced (move_found P now id to s o).session
  unfolding move_found
  move_found-IsPlaced now id to s none e h = h
  move_found-IsPlaced now id to s (some from) e h =
      let (f, same) = index_of_entry_id_found s.snapshot.user_queue id from e in
      elim (Bool-cases (in_range to (length s.snapshot.user_queue))) [
        | inr out ↦ rw out h
        | inl within ↦ elim (Bool-cases (from == pos_part to)) [
          | inl there ↦ rw (within, there) h
          | inr away ↦
              rw (within, away) (moved-IsPlaced now id from (pos_part to) s f (ground arith) same h)
        ]
      ]

  -- If a pending transition to a queued entry names the entry's place before a move, refused or not, it
  -- does so afterwards or it is cancelled.
  pub move_queued_entry-IsPlaced :
      (now : P.Time) (id : String) (to : ℤ) (s : Session P)
      → IsPlaced s
      → IsPlaced (move_queued_entry P now id to s).session
  unfolding move_queued_entry
  move_queued_entry-IsPlaced now id to s h =
      move_found-IsPlaced now id to s (index_of_entry_id s.snapshot.user_queue id) refl h
