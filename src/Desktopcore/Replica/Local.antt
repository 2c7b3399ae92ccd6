-- ===== src/Desktopcore/Replica/Local.antt =====
-- internal/desktopcore/service_oplog.go: the operations that are made on this device.
use Prim.Native.String.{◌++◌}
use ben_desktop.Base.{
  ℕ, ◌-◌, ◌^◌, ◌≤◌, ◌<◌, ◌≡◌, ◌≢◌, refl, sym, ap, subst, ltb, ◌==◌, ◌∙◌, inl, inr, Bool, true,
  false, ◌||◌, String, Option, none, some, List, [], ◌∷◌, arith, ==_self, is_blank, str_eq,
  str_eq_iff, str_eq_self, trim_space, if◌then◌else◌, Bool-cases, Option-cases,
}
use ben_desktop.Desktopcore.Oplog.{
  OplogEntry, Entity, entity_of, is_about, is_newer, newest, latest_row, is_row, is_of, max_seq,
  put_clock, next_library_device_seq, should_apply_latest_mutation,
}
use ben_desktop.Desktopcore.Oplog.Latest.{
  Stored, latest_row-Stored, latest_row-cons, latest_row-found, latest_row_newest,
}
use ben_desktop.Desktopcore.Replica.{Result, ok, err, Result-cases, ok-inj, Replica, create_entry}
use ben_desktop.Desktopcore.Replica.Rows.{IsOf, is_of-IsOf}
use ben_desktop.Desktopcore.Replica.Consistent.{create_entry-some}
use ben_desktop.Desktopcore.Replica.Clocks.{clock}
pub mod Numbers
pub mod Gate

-- What the code takes from outside: `time.Now`, and `fmt.Sprintf("%d", …)`.
pub record Host : Type 0 where
  pub now : ℕ
  pub sprint : ℕ → String

-- An operation before it has a place: its entity, its kind, and its payload as JSON; a `nil` payload is
-- `none`, and one that cannot be marshalled is an error.
pub record LocalOp : Type 0 where
  pub library_id : String
  pub device_id : String
  pub entity_type : String
  pub entity_id : String
  pub op_kind : String
  pub payload : Option (Result String)

unfoldable pub payload_json : Option (Result String) → Result String
payload_json none = ok "{}"
payload_json (some r) = r

unfoldable pub local_entry : Host → LocalOp → ℕ → String → String → OplogEntry
local_entry host op seq op_id json = record {
  library_id = trim_space op.library_id;
  op_id = op_id;
  device_id = trim_space op.device_id;
  seq = seq;
  tsns = host.now;
  entity_type = trim_space op.entity_type;
  entity_id = trim_space op.entity_id;
  op_kind = trim_space op.op_kind;
  payload_json = json;
  signer_peer_id = "";
  signer_authority_version = 0;
  signer_cert_serial = 0;
  signer_role = "";
  signer_issued_at = 0;
  signer_expires_at = 0;
  signer_cert_sig = [];
  sig = [];
}

-- The identifier of an operation, `device:seq`.
unfoldable pub op_id_of : Host → String → ℕ → String
op_id_of host device seq = device ++ (":" ++ host.sprint seq)

unfoldable pub is_incomplete : LocalOp → Option String
is_incomplete op =
    if is_blank (trim_space op.library_id) || is_blank (trim_space op.device_id)
    then some "local library and device context are required"
    else if is_blank (trim_space op.entity_type)
        || (is_blank (trim_space op.entity_id) || is_blank (trim_space op.op_kind))
    then some "oplog entity type, entity id, and op kind are required"
    else none

-- The row is created and the clock goes to it; the commit hook that tells the transport is left out.
unfoldable pub append_entry :
    {T : Type 0} → Replica T → OplogEntry → Result (OplogEntry × Replica T)
unfolding create_entry put_clock
append_entry r e = elim (create_entry r.oplog e) [
  | none ↦ err "constraint failed"
  | some log ↦
      ok (e, record r { oplog = log; clocks = put_clock r.clocks e.library_id e.device_id e.seq })
]

-- `appendLocalOplogTx`
unfoldable pub append_local_oplog :
    {T : Type 0} → Host → Replica T → LocalOp → Result (OplogEntry × Replica T)
unfolding is_incomplete payload_json next_library_device_seq op_id_of local_entry append_entry
append_local_oplog host r op = elim (is_incomplete op) [
  | some message ↦ err message
  | none ↦ elim (payload_json op.payload) [
    | err message ↦ err message
    | ok json ↦
        let library = trim_space op.library_id in
        let device = trim_space op.device_id in
        let seq = next_library_device_seq r.oplog r.clocks library device in
        append_entry r (local_entry host op seq (op_id_of host device seq) json)
  ]
]
