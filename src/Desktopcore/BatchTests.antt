-- ===== src/Desktopcore/BatchTests.antt =====
-- Runs of what a device sends in one batch, and the theorem on it at a concrete input.
use ben_desktop.Base.{
  ℕ, ◌≡◌, refl, String, List, [], ◌∷◌, trim_space, trim_left, trim_right, is_space,
}
use ben_desktop.Base.Order.{str_ltb}
use ben_desktop.Desktopcore.Oplog.{OplogEntry, CheckpointOplogEntry, DeviceClock, is_of}
use ben_desktop.Desktopcore.Helpers.{normalize_role, is_role}
use ben_desktop.Desktopcore.Replica.{rows_from, insert_by_seq}
use ben_desktop.Desktopcore.Batches.{
  draw_round, draw_rounds, checkpoint_entry_from_row, entries_from_rows, from_seq,
  list_oplog_by_device, sorts_before, insert_entry, sort_checkpoint_entries, insert_clock,
  list_device_clocks, missing_ops, device_backlogs, batch_limit, sync_batch, select_sync_batch,
}
use ben_desktop.Desktopcore.Batches.Fair.{IsFair, select_sync_batch-IsFair}

abbrev row : String → ℕ → ℕ → OplogEntry
row device seq tsns = record {
  library_id = "l";
  op_id = device;
  device_id = device;
  seq = seq;
  tsns = tsns;
  entity_type = "playlist";
  entity_id = "p";
  op_kind = "upsert";
  payload_json = "{}";
  signer_peer_id = "s";
  signer_authority_version = 1;
  signer_cert_serial = 1;
  signer_role = "member";
  signer_issued_at = 0;
  signer_expires_at = 0;
  signer_cert_sig = [];
  sig = [];
}

abbrev rows : List OplogEntry
rows = row "a" 3 9 ∷ row "b" 1 4 ∷ row "a" 2 7 ∷ row "a" 1 5 ∷ []

abbrev clock_of : String → ℕ → DeviceClock
clock_of device seq = record { library_id = "l"; device_id = device; last_seq_seen = seq }

abbrev clocks : List DeviceClock
clocks = clock_of "b" 1 ∷ clock_of "a" 3 ∷ []

abbrev times_of : List CheckpointOplogEntry → List ℕ
times_of [] = []
times_of (e ∷ entries) = e.tsns ∷ times_of entries

batches : Unit {0}
unfolding draw_round draw_rounds checkpoint_entry_from_row entries_from_rows from_seq
    list_oplog_by_device sorts_before insert_entry sort_checkpoint_entries insert_clock
    list_device_clocks missing_ops device_backlogs batch_limit sync_batch select_sync_batch
    rows_from insert_by_seq is_of str_ltb trim_space trim_left trim_right is_space normalize_role
    is_role
batches = tt

-- Each device gets its turn before the first one gets its second.
two_in_turn_test : times_of (select_sync_batch (λ s. s) rows clocks "l" (λ d. 0) 2).ops ≡ 4 ∷ 5 ∷ []
unfolding batches
two_in_turn_test = refl

two_left_test : (select_sync_batch (λ s. s) rows clocks "l" (λ d. 0) 2).remaining_ops ≡ 2
unfolding batches
two_left_test = refl

select_sync_batch-IsFair_example :
    IsFair 2
      (device_backlogs (λ s. s) rows "l" 2 (λ d. 0) (clock_of "a" 3 ∷ clock_of "b" 1 ∷ []))
      (select_sync_batch (λ s. s) rows clocks "l" (λ d. 0) 2).ops
unfolding batches
select_sync_batch-IsFair_example = select_sync_batch-IsFair (λ s. s) rows clocks "l" (λ d. 0) 2
