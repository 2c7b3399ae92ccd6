-- ===== src/Desktopcore/Tests.antt =====
-- Runs of the operation log, and the theorems on it at concrete inputs.
use ben_desktop.Base.{
  ℕ, length, str_eq_iff, ◌+◌, ◌-◌, ◌^◌, ◌≤◌, false, ◌<◌, ◌≡◌, refl, sym, ap, subst, inl, inr, ◌&&◌,
  String, Option, none, some, List, [], ◌∷◌, arith, trim_space, trim_left, trim_right, is_space,
  if◌then◌else◌,
}
use ben_desktop.Playback.Items.{first_non_empty}
use ben_desktop.Desktopcore.Oplog.{
  OplogEntry, CheckpointOplogEntry, Entity, is_about, is_newer, latest_row, is_of, newest, is_row,
  take_clock, or_zero, device_clock_seq, put_clock, max_seq, upsert_device_clock,
  next_library_device_seq, should_apply_latest_mutation,
}
use ben_desktop.Desktopcore.Oplog.Latest.{Stored, IsSameSet}
use ben_desktop.Desktopcore.Helpers.{normalize_role, is_role}
use ben_desktop.Base.Order.{str_ltb}
use ben_desktop.Desktopcore.Replica.{
  has_op, has_seq, create_entry, insert_by_seq, rows_from, apply_rows, advance_clock,
  apply_buffered_device_oplog, refused, deliver_entry, Engine, ok, Replica, entry_from_op,
  apply_remote_op, deliver_all, fresh_replica,
}
use ben_desktop.Desktopcore.Replica.Clocks.{clock}
use ben_desktop.Desktopcore.Replica.Buffered.{IsApplied}
use ben_desktop.Desktopcore.Replica.Consistent.{IsConsistent}
use ben_desktop.Desktopcore.Replica.Converge.{deliver_all-IsConsistent}
use ben_desktop.Desktopcore.Replica.Repeated.{
  Outcome, apply_remote_op_atomic, apply_remote_op_twice,
}
use ben_desktop.Desktopcore.Apply.{
  PlaylistPayload, Playlist, Tables, Host, apply_playlist, upsert_playlist, playlist_row,
  playlist_kind, liked_playlist_id, mutation_time, upsert, take_row, deleted_playlist_id,
}
use ben_desktop.Desktopcore.Replica.Local
use ben_desktop.Desktopcore.Replica.Local.{
  LocalOp, payload_json, local_entry, op_id_of, is_incomplete, append_entry, append_local_oplog,
}
use ben_desktop.Desktopcore.Replica.Local.Numbers.{next_library_device_seq_fresh}
use ben_desktop.Desktopcore.Apply.Items.{
  put_item, place_item, upsert_item, apply_playlist_item, apply_oplog_entry, if_latest, or_text,
}
use ben_desktop.Desktopcore.Apply.Playlists.{
  IsNamed, is_tracked, written, read_playlist, playlist_value,
}
use ben_desktop.Desktopcore.Apply.Registers.{read-apply_oplog_entry}
use ben_desktop.Desktopcore.Apply.Runs.{engine, playlists, playlists_converge}
use ben_desktop.Desktopcore.Replica.Rows.{IsOf}

-- A host whose playlists all decode to the same payload.
abbrev host : Host ℕ
host = record {
  now = 9;
  decode_library = λ s. none;
  decode_playlist = λ s. some (record { playlist_id = "p"; name = s; kind = ""; created_by = "" });
  decode_playlist_delete = λ s. some "p";
  decode_playlist_item = λ s. some (record {
    playlist_id = "p";
    item_id = "i";
    recording_id = "r";
    position_key = "1";
    liked = false;
  });
  decode_playlist_item_delete = λ s. none;
  decode_preference = λ s. none;
  digest = λ s. "0";
  liked_item_name = λ s. s;
  split_three = λ s. none;
  resolve_recording = λ c l r. some r;
  apply_catalog = λ log e c. ok c;
}

abbrev payload_id : Option PlaylistPayload → String
payload_id none = ""
payload_id (some p) = p.playlist_id

abbrev no_tables : Tables ℕ
no_tables = record {
  libraries = [];
  playlists = [];
  playlist_items = [];
  preferences = [];
  catalog = 0;
}

abbrev rename_by : String → String → ℕ → ℕ → String → CheckpointOplogEntry
rename_by device id seq tsns name = record {
  op_id = id;
  device_id = device;
  seq = seq;
  tsns = tsns;
  entity_type = "playlist";
  entity_id = "p";
  op_kind = "upsert";
  payload_json = name;
  signer_peer_id = "s";
  signer_authority_version = 1;
  signer_cert_serial = 1;
  signer_role = "member";
  signer_issued_at = 0;
  signer_expires_at = 0;
  signer_cert_sig = [];
  sig = [];
}

abbrev rename : String → ℕ → ℕ → String → CheckpointOplogEntry
rename = rename_by "d"

-- Each operation is applied at a time of its own.
abbrev time : ℕ → List OplogEntry → OplogEntry → ℕ
time c log e = 100 + e.tsns

abbrev engine_here : Engine (Tables ℕ)
engine_here = engine host time (λ s. s) (λ t l op. none)

abbrev in_order : List (String × CheckpointOplogEntry)
in_order = ("l", rename "d:1" 1 5 "a") ∷ ("l", rename "d:2" 2 7 "b") ∷ []

abbrev out_of_order : List (String × CheckpointOplogEntry)
out_of_order = ("l", rename "d:2" 2 7 "b") ∷ ("l", rename "d:1" 1 5 "a") ∷ []

abbrev playlist_p : Entity
playlist_p = record { library_id = "l"; entity_type = "playlist"; entity_id = "p" }

abbrev here : List (String × CheckpointOplogEntry) → Replica (Tables ℕ)
here ops = deliver_all engine_here (fresh_replica no_tables) ops

program : Unit {0}
unfolding apply_remote_op deliver_all fresh_replica entry_from_op has_op has_seq create_entry
    insert_by_seq rows_from apply_rows advance_clock apply_buffered_device_oplog refused
    deliver_entry is_of is_newer newest latest_row is_row should_apply_latest_mutation take_clock
    or_zero device_clock_seq put_clock upsert_device_clock str_ltb trim_space trim_left trim_right
    is_space normalize_role is_role engine playlists apply_oplog_entry if_latest apply_playlist
    upsert_playlist playlist_row playlist_kind liked_playlist_id first_non_empty mutation_time
    upsert take_row read_playlist is_tracked playlist_value written deleted_playlist_id
    is_incomplete payload_json next_library_device_seq op_id_of local_entry append_entry
    append_local_oplog max_seq
program = tt

-- The operation that came before its turn has been applied once the gap was closed.
out_of_order_test :
    read_playlist host (here out_of_order).tables playlist_p
    ≡ some (record { name = "b"; kind = "normal"; created_by = "d"; updated_at = 7 })
unfolding program
out_of_order_test = refl

first :
    IsNamed host (entry_from_op (λ s. s) "l" (rename "d:1" 1 5 "a"))
    × (1 ≤ (entry_from_op (λ s. s) "l" (rename "d:1" 1 5 "a")).tsns)
unfolding program
first = (
  record {
    trimmed = refl;
    upserted = λ p type h. ap (λ o. first_non_empty (payload_id o ∷ "p" ∷ [])) (sym h);
    deleted = λ i type h. ap (λ o. first_non_empty (or_text o "p" ∷ "p" ∷ [])) (sym h);
  },
  omega arith,
)

second :
    IsNamed host (entry_from_op (λ s. s) "l" (rename "d:2" 2 7 "b"))
    × (1 ≤ (entry_from_op (λ s. s) "l" (rename "d:2" 2 7 "b")).tsns)
unfolding program
second = (
  record {
    trimmed = refl;
    upserted = λ p type h. ap (λ o. first_non_empty (payload_id o ∷ "p" ∷ [])) (sym h);
    deleted = λ i type h. ap (λ o. first_non_empty (or_text o "p" ∷ "p" ∷ [])) (sym h);
  },
  omega arith,
)

-- An operation on an item, whose payload names the playlist that the item is in.
abbrev item_op : CheckpointOplogEntry
item_op = record (rename "d:3" 3 8 "c") { entity_type = "playlist_item"; entity_id = "i" }

item_lawful :
    IsNamed host (entry_from_op (λ s. s) "l" item_op)
    × (1 ≤ (entry_from_op (λ s. s) "l" item_op).tsns)
unfolding program
item_lawful = (
  record {
    trimmed = refl;
    upserted = λ p type h. absurd (ground (arith, (str_eq_iff "playlist_item" "playlist").1 type));
    deleted = λ i type h. absurd (ground (arith, (str_eq_iff "playlist_item" "playlist").1 type));
  },
  omega arith,
)

item_written_test :
    length (apply_remote_op engine_here (here in_order) "l" item_op).replica.tables.playlist_items
    ≡ 1
unfolding program put_item place_item upsert_item apply_playlist_item
item_written_test = refl

deliver_all-IsConsistent_example :
    IsConsistent engine_here
      (playlists host time (λ s. s) (λ t l op. none))
      no_tables
      (here out_of_order)
unfolding program
deliver_all-IsConsistent_example =
    deliver_all-IsConsistent engine_here (playlists host time (λ s. s) (λ t l op. none)) no_tables
      out_of_order (second, (first, tt))

same_rows : IsSameSet (here out_of_order).oplog (here in_order).oplog
unfolding program
same_rows x = (
  (λ s. elim s [ inl a ↦ inr (inl a) | inr (inl b) ↦ inl b | inr (inr z) ↦ elim z [ ] ]),
  (λ s. elim s [ inl a ↦ inr (inl a) | inr (inl b) ↦ inl b | inr (inr z) ↦ elim z [ ] ]),
)

-- Both operations have had their turn.
settled :
    (x : OplogEntry)
    → Stored x (here out_of_order).oplog
    → IsApplied (clock (here out_of_order).clocks) x
unfolding program
settled x (inl a) = subst (IsApplied (clock (here out_of_order).clocks)) (sym a) (omega arith)
settled x (inr (inl b)) = subst (IsApplied (clock (here out_of_order).clocks)) (sym b) (omega arith)
settled x (inr (inr z)) = elim z [ ]

playlists_converge_example :
    ((l d : String) → clock (here out_of_order).clocks l d ≡ clock (here in_order).clocks l d)
    × ((k : Entity)
        → read_playlist host (here out_of_order).tables k
          ≡ read_playlist host (here in_order).tables k)
unfolding program
playlists_converge_example =
    playlists_converge host time (λ s. s) (λ t l op. none) no_tables no_tables out_of_order in_order
      (λ k. refl) (second, (first, tt)) (first, (second, tt)) same_rows settled

-- The times of creation of the playlists, which no operation but the first one that is written decides.
abbrev created_times : List Playlist → List ℕ
created_times [] = []
created_times (p ∷ rest) = p.created_at ∷ created_times rest

abbrev two_devices : List (String × CheckpointOplogEntry)
two_devices = ("l", rename "d:1" 1 5 "a") ∷ ("l", rename_by "e" "e:1" 1 7 "b") ∷ []

abbrev other_order : List (String × CheckpointOplogEntry)
other_order = ("l", rename_by "e" "e:1" 1 7 "b") ∷ ("l", rename "d:1" 1 5 "a") ∷ []

created_first_test : created_times (here two_devices).tables.playlists ≡ 5 ∷ []
unfolding program
created_first_test = refl

created_other_test : created_times (here other_order).tables.playlists ≡ 7 ∷ []
unfolding program
created_other_test = refl

apply_remote_op_atomic_example :
    Outcome engine_here
      (here in_order)
      (entry_from_op (λ s. s) "l" (rename "d:4" 4 9 "c"))
      (apply_remote_op engine_here (here in_order) "l" (rename "d:4" 4 9 "c"))
unfolding engine
apply_remote_op_atomic_example =
    apply_remote_op_atomic engine_here (here in_order) "l" (rename "d:4" 4 9 "c")

apply_remote_op_twice_example :
    apply_remote_op engine_here
      (apply_remote_op engine_here (here in_order) "l" (rename "d:4" 4 9 "c")).replica
      "l"
      (rename "d:4" 4 9 "c")
    ≡ record {
      replica = (apply_remote_op engine_here (here in_order) "l" (rename "d:4" 4 9 "c")).replica;
      inserted = 0;
      error = none;
    }
unfolding program
apply_remote_op_twice_example =
    apply_remote_op_twice engine_here (here in_order) "l" (rename "d:4" 4 9 "c") refl

Stored-below :
    (x : OplogEntry) → Stored x (here in_order).oplog → IsOf "l" "d" x → x.seq < 2 ^ 63 - 1
unfolding program
Stored-below x (inl a) own = subst (λ y. y.seq < 2 ^ 63 - 1) (sym a) (omega arith)
Stored-below x (inr (inl b)) own = subst (λ y. y.seq < 2 ^ 63 - 1) (sym b) (omega arith)
Stored-below x (inr (inr z)) own = elim z [ ]

next_library_device_seq_fresh_example :
    (clock (here in_order).clocks "l" "d"
      < next_library_device_seq (here in_order).oplog (here in_order).clocks "l" "d")
    × ((x : OplogEntry)
        → Stored x (here in_order).oplog
        → IsOf "l" "d" x
        → x.seq < next_library_device_seq (here in_order).oplog (here in_order).clocks "l" "d")
    × (next_library_device_seq (here in_order).oplog (here in_order).clocks "l" "d" < 2 ^ 63)
unfolding program
next_library_device_seq_fresh_example =
    next_library_device_seq_fresh (here in_order) "l" "d" (omega arith) Stored-below

-- A device whose clock is behind: its operation is older than one that it has received.
abbrev behind : Local.Host
behind = record { now = 6; sprint = λ n. "n" }

abbrev local_op : LocalOp
local_op = record {
  library_id = "l";
  device_id = "h";
  entity_type = "playlist";
  entity_id = "p";
  op_kind = "upsert";
  payload = some (ok "c");
}

abbrev local_row : OplogEntry
local_row = local_entry behind local_op 1 "h:n" "c"

-- It is not written, though it is the last that was made.
behind_test : should_apply_latest_mutation (local_row ∷ (here in_order).oplog) local_row ≡ false
unfolding program
behind_test = refl

abbrev first_row : OplogEntry
first_row = entry_from_op (λ s. s) "l" (rename "d:1" 1 5 "a")

abbrev after_first : Tables ℕ
after_first = (here (("l", rename "d:1" 1 5 "a") ∷ [])).tables

read-apply_oplog_entry_example : read_playlist host after_first playlist_p ≡ (
    if should_apply_latest_mutation (first_row ∷ []) first_row && is_about playlist_p first_row
    then playlist_value host first_row
    else read_playlist host no_tables playlist_p)
unfolding program
read-apply_oplog_entry_example =
    read-apply_oplog_entry host (first_row ∷ []) first_row no_tables after_first playlist_p first.0
      refl

first_written_test :
    read_playlist host after_first playlist_p
    ≡ some (record { name = "a"; kind = "normal"; created_by = "d"; updated_at = 5 })
unfolding program
first_written_test = refl
