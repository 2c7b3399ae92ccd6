-- ===== src/Desktopcore/Batches.antt =====
-- internal/desktopcore/service_sync.go: which of its operations a device sends to another in one batch.
use ben_desktop.Base.{
  ℕ, zero, suc, ◌+◌, ◌-◌, Bool, true, false, ◌&&◌, ◌||◌, String, Option, none, some, List, [], ◌∷◌,
  ◌++◌, length, take, get_elem?, ltb, leb, ◌==◌, str_eq, trim_space, if◌then◌else◌,
}
use ben_desktop.Base.Order.{str_ltb}
use ben_desktop.Desktopcore.Oplog.{OplogEntry, CheckpointOplogEntry, DeviceClock}
use ben_desktop.Desktopcore.Helpers.{normalize_role}
use ben_desktop.Desktopcore.Replica.{rows_from}
pub mod Round
pub mod Fair

-- `deviceBacklog`
pub record DeviceBacklog : Type 0 where
  pub entries : List CheckpointOplogEntry
  pub next_cursor : ℕ

-- `syncBatch`
pub record SyncBatch : Type 0 where
  pub ops : List CheckpointOplogEntry
  pub has_more : Bool
  pub remaining_ops : ℕ
  pub total_missing : ℕ

-- The state of the loops that draw operations from the backlogs.
pub record Draw : Type 0 where
  pub ops : List CheckpointOplogEntry
  pub backlogs : List DeviceBacklog
  pub progress : Bool

abbrev pub next_entry : DeviceBacklog → Option CheckpointOplogEntry
next_entry b = get_elem? b.entries b.next_cursor

abbrev behind : DeviceBacklog → Draw → Draw
behind b d = record d { backlogs = b ∷ d.backlogs }

abbrev pub advance : DeviceBacklog → DeviceBacklog
advance b = record b { next_cursor = suc b.next_cursor }

-- One operation of each backlog that has one left, until the batch is full: the inner loop.
unfoldable pub draw_round : ℕ → List CheckpointOplogEntry → List DeviceBacklog → Draw
draw_round limit ops [] = record { ops = ops; backlogs = []; progress = false }
draw_round limit ops (b ∷ rest) =
    if leb limit (length ops)
    then record { ops = ops; backlogs = b ∷ rest; progress = false }
    else elim (next_entry b) [
      | none ↦ behind b (draw_round limit ops rest)
      | some e ↦ record (behind (advance b) (draw_round limit (ops ++ (e ∷ [])) rest)) {
        progress = true;
      }
    ]

-- The outer loop; each round but the last adds an operation, so `limit` rounds are enough.
unfoldable pub draw_rounds : ℕ → ℕ → List CheckpointOplogEntry → List DeviceBacklog → Draw
unfolding draw_round
draw_rounds zero limit ops backlogs = record { ops = ops; backlogs = backlogs; progress = false }
draw_rounds (suc fuel) limit ops backlogs =
    let d = draw_round limit ops backlogs in
    let rest = draw_rounds fuel limit d.ops d.backlogs in
    if ltb (length ops) limit
    then (if d.progress then rest else d)
    else record { ops = ops; backlogs = backlogs; progress = false }

-- `checkpointEntryFromRow`
unfoldable pub checkpoint_entry_from_row : (String → String) → OplogEntry → CheckpointOplogEntry
unfolding normalize_role
checkpoint_entry_from_row to_lower row = record {
  op_id = trim_space row.op_id;
  device_id = trim_space row.device_id;
  seq = row.seq;
  tsns = row.tsns;
  entity_type = trim_space row.entity_type;
  entity_id = trim_space row.entity_id;
  op_kind = trim_space row.op_kind;
  payload_json = trim_space row.payload_json;
  signer_peer_id = trim_space row.signer_peer_id;
  signer_authority_version = row.signer_authority_version;
  signer_cert_serial = row.signer_cert_serial;
  signer_role = normalize_role to_lower row.signer_role;
  signer_issued_at = row.signer_issued_at;
  signer_expires_at = row.signer_expires_at;
  signer_cert_sig = row.signer_cert_sig;
  sig = row.sig;
}

unfoldable pub entries_from_rows : (String → String) → List OplogEntry → List CheckpointOplogEntry
unfolding checkpoint_entry_from_row
entries_from_rows to_lower [] = []
entries_from_rows to_lower (row ∷ rows) =
    checkpoint_entry_from_row to_lower row ∷ entries_from_rows to_lower rows

-- `seq > ?` is asked for a number that is positive only; without it every row of the device is listed.
unfoldable pub from_seq : ℕ → ℕ
from_seq zero = 0
from_seq (suc n) = suc n + 1

-- `listOplogByDevice`, with a limit that is positive.
unfoldable pub list_oplog_by_device :
    (String → String) → List OplogEntry → String → String → ℕ → ℕ → List CheckpointOplogEntry
unfolding entries_from_rows rows_from from_seq
list_oplog_by_device to_lower log library device since limit =
    entries_from_rows to_lower
      (take limit (rows_from log (trim_space library) (trim_space device) (from_seq since)))

-- The order of `sortCheckpointEntries`.
unfoldable pub sorts_before : CheckpointOplogEntry → CheckpointOplogEntry → Bool
unfolding str_ltb
sorts_before a b =
    ltb a.tsns b.tsns
    || (a.tsns == b.tsns
        && (str_ltb a.device_id b.device_id
            || (str_eq a.device_id b.device_id
                && (ltb a.seq b.seq || (a.seq == b.seq && str_ltb a.op_id b.op_id)))))

unfoldable pub insert_entry :
    CheckpointOplogEntry → List CheckpointOplogEntry → List CheckpointOplogEntry
unfolding sorts_before
insert_entry e [] = e ∷ []
insert_entry e (x ∷ entries) =
    let rest = insert_entry e entries in if sorts_before x e then x ∷ rest else e ∷ x ∷ entries

-- `sortCheckpointEntries`
unfoldable pub sort_checkpoint_entries : List CheckpointOplogEntry → List CheckpointOplogEntry
unfolding insert_entry
sort_checkpoint_entries [] = []
sort_checkpoint_entries (e ∷ entries) = insert_entry e (sort_checkpoint_entries entries)

-- `listDeviceClocks`: the clocks of a library, `ORDER BY device_id ASC`.
unfoldable pub insert_clock : DeviceClock → List DeviceClock → List DeviceClock
unfolding str_ltb
insert_clock c [] = c ∷ []
insert_clock c (x ∷ clocks) =
    let rest = insert_clock c clocks in
    if str_ltb x.device_id c.device_id then x ∷ rest else c ∷ x ∷ clocks

unfoldable pub list_device_clocks : List DeviceClock → String → List DeviceClock
unfolding insert_clock
list_device_clocks [] library = []
list_device_clocks (c ∷ clocks) library =
    let rest = list_device_clocks clocks library in
    if str_eq c.library_id (trim_space library) then insert_clock c rest else rest

-- How many operations the other device misses of each device whose clock it has not reached, in all.
unfoldable pub missing_ops : List DeviceClock → (String → ℕ) → ℕ
missing_ops [] peer = 0
missing_ops (c ∷ clocks) peer =
    (c.last_seq_seen - peer (trim_space c.device_id)) + missing_ops clocks peer

-- The backlogs of the devices that the other device has not all operations of.
unfoldable pub device_backlogs :
    (String → String)
    → List OplogEntry
    → String
    → ℕ
    → (String → ℕ)
    → List DeviceClock
    → List DeviceBacklog
unfolding list_oplog_by_device
device_backlogs to_lower log library limit peer [] = []
device_backlogs to_lower log library limit peer (c ∷ clocks) =
    let device = trim_space c.device_id in
    let rest = device_backlogs to_lower log library limit peer clocks in
    if ltb (peer device) c.last_seq_seen
    then record {
      entries = list_oplog_by_device to_lower log library device (peer device) limit;
      next_cursor = 0;
    }
      ∷ rest
    else rest

-- `limit <= 0` is replaced by `defaultSyncBatchSize`.
unfoldable pub batch_limit : ℕ → ℕ
batch_limit zero = 500
batch_limit (suc n) = suc n

unfoldable pub sync_batch : ℕ → List CheckpointOplogEntry → SyncBatch
unfolding sort_checkpoint_entries
sync_batch missing ops =
    let remaining = missing - length ops in
    record {
      ops = sort_checkpoint_entries ops;
      has_more = ltb 0 remaining;
      remaining_ops = remaining;
      total_missing = missing;
    }

-- `selectSyncBatch`, for what the other device has seen of each device; a device that it does not name counts
-- as not seen.
unfoldable pub select_sync_batch :
    (String → String) → List OplogEntry → List DeviceClock → String → (String → ℕ) → ℕ → SyncBatch
unfolding list_device_clocks missing_ops device_backlogs batch_limit draw_rounds sync_batch
select_sync_batch to_lower log clocks library peer limit =
    let listed = list_device_clocks clocks library in
    let n = batch_limit limit in
    sync_batch (missing_ops listed peer)
      (draw_rounds n n [] (device_backlogs to_lower log library n peer listed)).ops
