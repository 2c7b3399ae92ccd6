-- ===== src/Desktopcore/Replica.antt =====
-- internal/desktopcore/service_sync.go: an operation of another device is stored, and it is applied when all
-- the operations of its device that come before it have been. What verifies an operation and what writes it
-- to the tables are the engine's; internal/desktopcore/service_oplog.go appends the operations made here.
use ben_desktop.Base.{
  ℕ, ◌+◌, ◌-◌, ◌≡◌, refl, ap, ◌⊎◌, inl, inr, Bool, true, false, ◌&&◌, ◌||◌, String, Option, none,
  some, List, [], ◌∷◌, length, leb, ◌==◌, str_eq, is_blank, trim_space, if◌then◌else◌,
}
use ben_desktop.Desktopcore.Oplog.{
  OplogEntry, CheckpointOplogEntry, DeviceClock, is_of, device_clock_seq, upsert_device_clock,
}
use ben_desktop.Desktopcore.Helpers.{normalize_role}
pub mod Rows
pub mod Clocks
pub mod Register
pub mod Buffered
pub mod Consistent
pub mod Runs
pub mod Delivered
pub mod Converge
pub mod Repeated
pub mod Local

-- What a Go function returns beside an error: its value, or the message of the error.
pub data Result {ℓ} (A : Type ℓ) : Type ℓ where
  ok : A → Result A
  err : String → Result A

pub Result-cases {ℓ} :
    {A : Type ℓ} (r : Result A) → ((a : A) × (r ≡ ok a)) ⊎ ((message : String) × (r ≡ err message))
Result-cases (ok a) = inl (a, refl)
Result-cases (err message) = inr (message, refl)

abbrev value_or {ℓ} : {A : Type ℓ} → A → Result A → A
value_or d (ok a) = a
value_or d (err message) = d

pub ok-inj {ℓ} : {A : Type ℓ} {a b : A} → ok a ≡ ok b → a ≡ b
ok-inj {a = a} e = ap (value_or a) e

pub record Engine (T : Type 0) : Type 0 where
  -- `strings.ToLower`
  pub to_lower : String → String
  -- `verifyCheckpointOplogEntryTx`, with the message of a refusal
  pub verify : T → String → CheckpointOplogEntry → Option String
  -- `applyOplogEntryTx`
  pub apply_oplog_entry : List OplogEntry → OplogEntry → T → Result T

pub record Replica (T : Type 0) : Type 0 where
  pub oplog : List OplogEntry
  pub clocks : List DeviceClock
  pub tables : T

-- What `applyRemoteOp` leaves behind and returns.
pub record Delivery (T : Type 0) : Type 0 where
  pub replica : Replica T
  pub inserted : ℕ
  pub error : Option String

-- The rows with the identifier of an operation: the primary key of `OplogEntry`.
unfoldable pub has_op : List OplogEntry → String → String → Bool
has_op [] library op = false
has_op (e ∷ log) library op =
    (str_eq e.library_id library && str_eq e.op_id op) || has_op log library op

-- The unique index `idx_oplog_device_seq`.
unfoldable pub has_seq : List OplogEntry → String → String → ℕ → Bool
unfolding is_of
has_seq [] library device seq = false
has_seq (e ∷ log) library device seq =
    (is_of library device e && e.seq == seq) || has_seq log library device seq

-- `tx.Create`: a row that breaks the primary key or the unique index is refused.
unfoldable pub create_entry : List OplogEntry → OplogEntry → Option (List OplogEntry)
unfolding has_op has_seq
create_entry log e =
    if has_op log e.library_id e.op_id || has_seq log e.library_id e.device_id e.seq
    then none
    else some (e ∷ log)

unfoldable pub insert_by_seq : OplogEntry → List OplogEntry → List OplogEntry
insert_by_seq e [] = e ∷ []
insert_by_seq e (x ∷ rows) =
    let rest = insert_by_seq e rows in if leb e.seq x.seq then e ∷ x ∷ rows else x ∷ rest

-- The rows of a device from a sequence number on, `ORDER BY seq ASC`.
unfoldable pub rows_from : List OplogEntry → String → String → ℕ → List OplogEntry
unfolding insert_by_seq is_of
rows_from [] library device seq = []
rows_from (e ∷ log) library device seq =
    let rest = rows_from log library device seq in
    if is_of library device e && leb seq e.seq then insert_by_seq e rest else rest

-- The row of an operation: its fields, trimmed.
unfoldable pub entry_from_op : (String → String) → String → CheckpointOplogEntry → OplogEntry
unfolding normalize_role
entry_from_op to_lower library op = record {
  library_id = trim_space library;
  op_id = trim_space op.op_id;
  device_id = trim_space op.device_id;
  seq = op.seq;
  tsns = op.tsns;
  entity_type = trim_space op.entity_type;
  entity_id = trim_space op.entity_id;
  op_kind = trim_space op.op_kind;
  payload_json = if is_blank op.payload_json then "{}" else op.payload_json;
  signer_peer_id = trim_space op.signer_peer_id;
  signer_authority_version = op.signer_authority_version;
  signer_cert_serial = op.signer_cert_serial;
  signer_role = normalize_role to_lower op.signer_role;
  signer_issued_at = op.signer_issued_at;
  signer_expires_at = op.signer_expires_at;
  signer_cert_sig = op.signer_cert_sig;
  sig = op.sig;
}

module _ {T : Type 0} (E : Engine T) where
  open E use {to_lower, verify, apply_oplog_entry}

  -- The rows in their order, as long as each follows the one that was applied last.
  unfoldable pub apply_rows : List OplogEntry → List OplogEntry → ℕ → T → Result (ℕ × T)
  apply_rows log [] until t = ok (until, t)
  apply_rows log (row ∷ rest) until t =
      if row.seq == until + 1
      then elim (apply_oplog_entry log row t) [
        | ok u ↦ apply_rows log rest row.seq u
        | err message ↦ err message
      ]
      else ok (until, t)

  unfoldable pub advance_clock : Replica T → String → String → ℕ → ℕ × T → Replica T
  advance_clock r library device next (until, t) = record r {
    tables = t;
    clocks = if leb next until then upsert_device_clock r.clocks library device until else r.clocks;
  }

  -- `applyBufferedDeviceOplogTx`
  unfoldable pub apply_buffered_device_oplog : Replica T → String → String → ℕ → Result (Replica T)
  unfolding apply_rows advance_clock rows_from
  apply_buffered_device_oplog r library device next =
      elim (apply_rows r.oplog (rows_from r.oplog (trim_space library) (trim_space device) next)
        (next - 1) r.tables) [
          | ok applied ↦ ok (advance_clock r library device next applied)
          | err message ↦ err message
        ]

  unfoldable pub refused : Replica T → ℕ → String → Delivery T
  refused r inserted message = record { replica = r; inserted = inserted; error = some message }

  -- The transaction from the row on: what fails is rolled back, and `inserted` stays.
  unfoldable pub deliver_entry : Replica T → String → OplogEntry → ℕ → Delivery T
  unfolding create_entry apply_buffered_device_oplog refused
  deliver_entry r library e last_seq = elim (create_entry r.oplog e) [
    | none ↦ refused r 0 "constraint failed"
    | some log ↦
        let stored = record r { oplog = log } in
        if e.seq == last_seq + 1
        then elim (apply_buffered_device_oplog stored library e.device_id (last_seq + 1)) [
          | ok applied ↦ record { replica = applied; inserted = 1; error = none }
          | err message ↦ refused r 1 message
        ]
        else record { replica = stored; inserted = 1; error = none }
  ]

  -- `applyRemoteOp`
  unfoldable pub apply_remote_op : Replica T → String → CheckpointOplogEntry → Delivery T
  unfolding has_op deliver_entry refused entry_from_op
  apply_remote_op r library op =
      if has_op r.oplog (trim_space library) (trim_space op.op_id)
      then record { replica = r; inserted = 0; error = none }
      else elim (verify r.tables library op) [
        | some message ↦ refused r 0 message
        | none ↦
            deliver_entry r library (entry_from_op to_lower library op)
              (device_clock_seq r.clocks library op.device_id)
      ]

  -- The count goes on, and so does whether a source file was among the operations.
  unfoldable pub tally_up : ℕ → Bool → Delivery T × Bool → Delivery T × Bool
  tally_up inserted rebuild (d, rest) =
      (record d { inserted = inserted + d.inserted }, rebuild || rest)

  -- `applyRemoteOpsSummary`: it stops at the first error.
  unfoldable pub apply_remote_ops_summary :
      Replica T → String → List CheckpointOplogEntry → Delivery T × Bool
  unfolding apply_remote_op tally_up
  apply_remote_ops_summary r library [] =
      (record { replica = r; inserted = 0; error = none }, false)
  apply_remote_ops_summary r library (op ∷ ops) =
      let d = apply_remote_op r library op in
      let source = str_eq (trim_space op.entity_type) "source_file" in
      elim d.error [
        | some message ↦ (d, source)
        | none ↦ tally_up d.inserted source (apply_remote_ops_summary d.replica library ops)
      ]

  -- Operations that arrive one by one, each in a transaction of its own.
  unfoldable pub deliver_all : Replica T → List (String × CheckpointOplogEntry) → Replica T
  unfolding apply_remote_op
  deliver_all r [] = r
  deliver_all r ((library, op) ∷ ops) = deliver_all (apply_remote_op r library op).replica ops

-- A replica that has received nothing.
unfoldable pub fresh_replica : {T : Type 0} → T → Replica T
fresh_replica t = record { oplog = []; clocks = []; tables = t }
