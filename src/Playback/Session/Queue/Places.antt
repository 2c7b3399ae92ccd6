-- ===== src/Playback/Session/Queue/Places.antt =====
-- internal/playback/session.go: what the operations on the queue do to the place of an entry.
use ben_desktop.Base.{
  ℕ, zero, suc, ◌<◌, ◌≡◌, ◌≢◌, refl, sym, ap, ◌∙◌, ◌⊎◌, inl, inr, Bool, true, false, ◌&&◌, ◌||◌,
  String, Option, none, some, List, [], ◌∷◌, ◌++◌, map, length, get_elem?, get_or, remove_at,
  length-remove_at, arith, ltb, leb, str_eq, str_eq_iff, trim_space, Bool-cases, Option-cases,
  if◌then◌else◌,
}
use ben_desktop.Base.Int.{ℤ, pos, negsuc}
use ben_desktop.Playback.Types.{QueueInsertMode, SessionEntry, is_queued, zero_entry}
use ben_desktop.Playback.Platform.{Platform}
use ben_desktop.Playback.Normalize.{normalize_user_entry, option_map}
use ben_desktop.Playback.Session.{
  Session, TransportTransition, QueueMutation, transport_invalidated,
}
use ben_desktop.Playback.Session.Queue.{
  no_mutation, inserts_next, removal_hits, move_hits, move_entry, queue_mutation,
}
use ben_desktop.Playback.Session.Queue.Lists.{
  get_elem?-remove_at_lt, get_elem?-remove_at_ge, get_elem?-insert_at_lt, get_elem?-insert_at_ge,
  get_elem?-append_left,
}

abbrev pub id_at : List SessionEntry → ℕ → Option String
id_at queue i = option_map (λ e. e.entry_id) (get_elem? queue i)

-- Where a transition to a queued entry says that the entry stands, it does.
abbrev pub AtPlace : Bool → ℤ → List SessionEntry → String → Type 0
AtPlace true (pos i) queue id = id_at queue i ≡ some id
AtPlace true (negsuc i) queue id = Unit
AtPlace false place queue id = Unit

abbrev pub Placed : Option TransportTransition → List SessionEntry → Type 0
Placed none queue = Unit
Placed (some t) queue = AtPlace (is_queued t.origin) t.queue_index queue t.entry.entry_id

abbrev pub IsPlaced : {P : Platform} → Session P → Type 0
IsPlaced s = Placed s.transport_pending s.snapshot.user_queue

abbrev pub survivor : QueueMutation → Option TransportTransition → Option TransportTransition
survivor m o = if transport_invalidated o m then none else o

id_at-map :
    (queue : List SessionEntry) (i : ℕ) → id_at (map normalize_user_entry queue) i ≡ id_at queue i
unfolding normalize_user_entry
id_at-map [] i = refl
id_at-map (e ∷ rest) zero = refl
id_at-map (e ∷ rest) (suc i) = id_at-map rest i

AtPlace-map :
    (b : Bool) (place : ℤ) (queue : List SessionEntry) (id : String)
    → AtPlace b place queue id
    → AtPlace b place (map normalize_user_entry queue) id
AtPlace-map true (pos i) queue id h = id_at-map queue i ∙ h
AtPlace-map true (negsuc i) queue id h = tt
AtPlace-map false place queue id h = tt

pub Placed-map :
    (o : Option TransportTransition) (queue : List SessionEntry)
    → Placed o queue
    → Placed o (map normalize_user_entry queue)
Placed-map none queue h = tt
Placed-map (some t) queue h =
    AtPlace-map (is_queued t.origin) t.queue_index queue t.entry.entry_id h

AtPlace-enqueue :
    (b next : Bool) (place : ℤ) (entries queue : List SessionEntry) (id : String)
    → (b && next) ≡ false
    → AtPlace b place queue id
    → AtPlace b place (if next then entries ++ queue else queue ++ entries) id
AtPlace-enqueue false next place entries queue id n h = tt
AtPlace-enqueue true true place entries queue id n h = absurd (ground arith)
AtPlace-enqueue true false (negsuc i) entries queue id n h = tt
AtPlace-enqueue true false (pos i) entries queue id n h = elim (Option-cases (get_elem? queue i)) [
  | inl gone ↦ absurd (ground (arith, rw gone at h))
  | inr (e, here) ↦ rw (get_elem?-append_left queue entries i here) (rw here at h)
]

pub Placed-enqueue :
    (mode : QueueInsertMode) (o : Option TransportTransition) (entries queue : List SessionEntry)
    → Placed o queue
    → Placed
        (survivor (queue_mutation mode) o)
        (if inserts_next mode then entries ++ queue else queue ++ entries)
unfolding transport_invalidated
Placed-enqueue mode none entries queue h = tt
Placed-enqueue mode (some t) entries queue h =
    elim (Bool-cases (transport_invalidated (some t) (queue_mutation mode))) [
      | inl hit ↦ rw hit tt
      | inr miss ↦ rw miss (
          AtPlace-enqueue (is_queued t.origin) (inserts_next mode) t.queue_index entries queue
            t.entry.entry_id (ground (arith, miss)) h)
    ]

abbrev hits_removal : Bool → ℤ → ℕ → Bool
hits_removal b place index = elim place [ pos i ↦ b && leb index i | negsuc i ↦ false ]

AtPlace-remove :
    (b : Bool) (place : ℤ) (queue : List SessionEntry) (index : ℕ) (id : String)
    → (hits_removal b place index && b) ≡ false
    → AtPlace b place queue id
    → AtPlace b place (remove_at queue index) id
AtPlace-remove false place queue index id n h = tt
AtPlace-remove true (negsuc i) queue index id n h = tt
AtPlace-remove true (pos i) queue index id n h =
    ap (option_map (λ e. e.entry_id)) (get_elem?-remove_at_lt queue index i (ground arith)) ∙ h

pub Placed-remove :
    (o : Option TransportTransition) (queue : List SessionEntry) (id : String) (index : ℕ)
    → Placed o queue
    → Placed
        (survivor
          (record no_mutation {
            changed_entry_ids = trim_space id ∷ [];
            invalidate_queue_index = removal_hits o index;
          })
          o)
        (remove_at queue index)
unfolding transport_invalidated removal_hits
Placed-remove none queue id index h = tt
Placed-remove (some t) queue id index h =
    let m = record no_mutation {
      changed_entry_ids = trim_space id ∷ [];
      invalidate_queue_index = removal_hits (some t) index;
    } in
    elim (Bool-cases (transport_invalidated (some t) m)) [
      | inl hit ↦ rw hit tt
      | inr miss ↦ rw miss (
          AtPlace-remove (is_queued t.origin) t.queue_index queue index t.entry.entry_id
            (ground (arith, miss)) h)
    ]

abbrev hits_move : Bool → ℤ → String → String → ℕ → ℕ → Bool
hits_move b place entry_id id from to = elim place [
  | negsuc i ↦ false
  | pos i ↦
      b && (str_eq entry_id (trim_space id) || (ltb from i && leb i to) || (ltb i from && leb to i))
]

-- A place that the move does not pass over.
get_elem?-move_entry :
    (queue : List SessionEntry) (from to i : ℕ)
    → from < length queue
    → to < length queue
    → ((from < i) × (to < i)) ⊎ ((i < from) × (i < to))
    → get_elem? (move_entry queue from to) i ≡ get_elem? queue i
unfolding move_entry
get_elem?-move_entry queue from to zero f t (inl (l, r)) = absurd (omega arith)
get_elem?-move_entry queue from to (suc i) f t (inl (l, r)) =
    get_elem?-insert_at_ge (remove_at queue from) to i _ (omega arith)
      (omega (arith, length-remove_at queue from f))
    ∙ get_elem?-remove_at_ge queue from i (omega arith)
get_elem?-move_entry queue from to i f t (inr (l, r)) =
    get_elem?-insert_at_lt (remove_at queue from) to i _ r
      (omega (arith, length-remove_at queue from f))
    ∙ get_elem?-remove_at_lt queue from i l

id_at-get_or :
    (queue : List SessionEntry) (i : ℕ) (id : String)
    → i < length queue
    → id_at queue i ≡ some id
    → (get_or queue i zero_entry).entry_id ≡ id
id_at-get_or [] i id f h = absurd (omega arith)
id_at-get_or (e ∷ rest) zero id f h = cc
id_at-get_or (e ∷ rest) (suc i) id f h = id_at-get_or rest i id (omega arith) h

AtPlace-move :
    (b : Bool) (place : ℤ) (queue : List SessionEntry) (entry_id id : String) (from to : ℕ)
    → from < length queue
    → to < length queue
    → (get_or queue from zero_entry).entry_id ≡ trim_space id
    → (hits_move b place entry_id id from to && b) ≡ false
    → AtPlace b place queue entry_id
    → AtPlace b place (move_entry queue from to) entry_id
AtPlace-move false place queue entry_id id from to f t e n h = tt
AtPlace-move true (negsuc i) queue entry_id id from to f t e n h = tt
AtPlace-move true (pos i) queue entry_id id from to f t e n h =
    let apart : i ≢ from = λ same. ground (
      arith,
      (str_eq_iff entry_id (trim_space id)).1 (
          sym (id_at-get_or queue i entry_id (rw same f) h)
          ∙ ap (λ k. (get_or queue k zero_entry).entry_id) same
          ∙ e),
    ) in
    ap (option_map (λ e. e.entry_id)) (get_elem?-move_entry queue from to i f t (ground arith)) ∙ h

pub Placed-move :
    (o : Option TransportTransition) (queue : List SessionEntry) (id : String) (from to : ℕ)
    → from < length queue
    → to < length queue
    → (get_or queue from zero_entry).entry_id ≡ trim_space id
    → Placed o queue
    → Placed
        (survivor
          (record no_mutation {
            changed_entry_ids = trim_space id ∷ [];
            invalidate_queue_index = move_hits o id from to;
          })
          o)
        (move_entry queue from to)
unfolding transport_invalidated move_hits
Placed-move none queue id from to f t e h = tt
Placed-move (some p) queue id from to f t e h =
    let m = record no_mutation {
      changed_entry_ids = trim_space id ∷ [];
      invalidate_queue_index = move_hits (some p) id from to;
    } in
    elim (Bool-cases (transport_invalidated (some p) m)) [
      | inl hit ↦ rw hit tt
      | inr miss ↦ rw miss (
          AtPlace-move (is_queued p.origin) p.queue_index queue p.entry.entry_id id from to f t e
            (ground (arith, miss)) h)
    ]
