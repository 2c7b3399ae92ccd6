-- ===== src/Desktopcore/Oplog.antt =====
-- internal/desktopcore/models.go, oplog_apply.go and service_checkpoint.go: the rows of the operation log,
-- and which operation on an entity is its latest.
use ben_desktop.Base.{
  ℕ, ◌+◌, ◌%◌, ◌^◌, Bool, true, false, ◌&&◌, ◌||◌, String, Option, none, some, List, [], ◌∷◌, ◌++◌,
  ltb, ◌==◌, str_eq, trim_space, if◌then◌else◌,
}
use ben_desktop.Base.Order.{str_ltb}
pub mod Latest
pub mod Gate

pub record OplogEntry : Type 0 where
  pub library_id : String
  pub op_id : String
  pub device_id : String
  pub seq : ℕ
  pub tsns : ℕ
  pub entity_type : String
  pub entity_id : String
  pub op_kind : String
  pub payload_json : String
  pub signer_peer_id : String
  pub signer_authority_version : ℕ
  pub signer_cert_serial : ℕ
  pub signer_role : String
  pub signer_issued_at : ℕ
  pub signer_expires_at : ℕ
  pub signer_cert_sig : List ℕ
  pub sig : List ℕ

-- An operation as it travels between devices.
pub record CheckpointOplogEntry : Type 0 where
  pub op_id : String
  pub device_id : String
  pub seq : ℕ
  pub tsns : ℕ
  pub entity_type : String
  pub entity_id : String
  pub op_kind : String
  pub payload_json : String
  pub signer_peer_id : String
  pub signer_authority_version : ℕ
  pub signer_cert_serial : ℕ
  pub signer_role : String
  pub signer_issued_at : ℕ
  pub signer_expires_at : ℕ
  pub signer_cert_sig : List ℕ
  pub sig : List ℕ

pub record DeviceClock : Type 0 where
  pub library_id : String
  pub device_id : String
  pub last_seq_seen : ℕ

-- The entity that an operation is about.
pub record Entity : Type 0 where
  pub library_id : String
  pub entity_type : String
  pub entity_id : String

abbrev pub entity_of : OplogEntry → Entity
entity_of e = record {
  library_id = e.library_id;
  entity_type = e.entity_type;
  entity_id = e.entity_id;
}

abbrev pub is_about : Entity → OplogEntry → Bool
is_about k e =
    str_eq e.library_id k.library_id
    && (str_eq e.entity_type k.entity_type && str_eq e.entity_id k.entity_id)

-- `ORDER BY tsns DESC, op_id DESC`: the row stands in front of the other.
unfoldable pub is_newer : OplogEntry → OplogEntry → Bool
is_newer a b = ltb b.tsns a.tsns || (a.tsns == b.tsns && str_ltb b.op_id a.op_id)

unfoldable pub newest : OplogEntry → Option OplogEntry → Option OplogEntry
newest e none = some e
newest e (some best) = if is_newer e best then some e else some best

-- `LIMIT 1` of the rows about an entity in that order.
unfoldable pub latest_row : List OplogEntry → Entity → Option OplogEntry
latest_row [] k = none
latest_row (e ∷ log) k = let rest = latest_row log k in if is_about k e then newest e rest else rest

unfoldable pub is_row : Option OplogEntry → OplogEntry → Bool
is_row none e = 0 == e.tsns && str_eq "" (trim_space e.op_id)
is_row (some latest) e =
    latest.tsns == e.tsns && str_eq (trim_space latest.op_id) (trim_space e.op_id)

-- `shouldApplyLatestMutationTx`
unfoldable pub should_apply_latest_mutation : List OplogEntry → OplogEntry → Bool
unfolding is_row
should_apply_latest_mutation log e = is_row (latest_row log (entity_of e)) e

-- `library_id = ? AND device_id = ?`
unfoldable pub is_of : String → String → OplogEntry → Bool
is_of library device e = str_eq e.library_id library && str_eq e.device_id device

-- `SELECT COALESCE(MAX(seq), 0)` of the rows of a device.
unfoldable pub max_seq : List OplogEntry → String → String → ℕ
unfolding is_of
max_seq [] library device = 0
max_seq (e ∷ log) library device =
    let rest = max_seq log library device in
    if is_of library device e && ltb rest e.seq then e.seq else rest

-- The row of a device's clock; `gorm.ErrRecordNotFound` is `none`.
unfoldable pub take_clock : List DeviceClock → String → String → Option ℕ
take_clock [] library device = none
take_clock (c ∷ rest) library device =
    if str_eq c.library_id library && str_eq c.device_id device
    then some c.last_seq_seen
    else take_clock rest library device

unfoldable pub or_zero : Option ℕ → ℕ
or_zero none = 0
or_zero (some n) = n

-- `deviceClockSeqTx`
unfoldable pub device_clock_seq : List DeviceClock → String → String → ℕ
unfolding or_zero
device_clock_seq clocks library device =
    or_zero (take_clock clocks (trim_space library) (trim_space device))

unfoldable pub put_clock : List DeviceClock → String → String → ℕ → List DeviceClock
put_clock [] library device seq =
    record { library_id = library; device_id = device; last_seq_seen = seq } ∷ []
put_clock (c ∷ rest) library device seq =
    if str_eq c.library_id library && str_eq c.device_id device
    then record c { last_seq_seen = seq } ∷ rest
    else c ∷ put_clock rest library device seq

-- `upsertDeviceClockTx`
unfoldable pub upsert_device_clock : List DeviceClock → String → String → ℕ → List DeviceClock
unfolding put_clock
upsert_device_clock clocks library device seq =
    put_clock clocks (trim_space library) (trim_space device) seq

-- `n + 1` of an `int64` that is not negative; beyond `2 ^ 63 - 1` this is the two's complement of a negative one.
abbrev pub next_int : ℕ → ℕ
next_int n = (n + 1) % 2 ^ 64

-- `nextLibraryDeviceSeqTx`
unfoldable pub next_library_device_seq : List OplogEntry → List DeviceClock → String → String → ℕ
unfolding or_zero take_clock max_seq
next_library_device_seq log clocks library device =
    let seen = or_zero (take_clock clocks library device) in
    let stored = max_seq log library device in next_int (if ltb seen stored then stored else seen)
