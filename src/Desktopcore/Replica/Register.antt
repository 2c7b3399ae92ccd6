-- ===== src/Desktopcore/Replica/Register.antt =====
-- internal/desktopcore/oplog_apply.go: what a handler of operations promises, so that an entity of the tables
-- is a register that holds what the latest applied operation on it wrote.
use ben_desktop.Base.{◌≡◌, ◌&&◌, List, if◌then◌else◌}
use ben_desktop.Desktopcore.Oplog.{OplogEntry, Entity, is_about, should_apply_latest_mutation}
use ben_desktop.Desktopcore.Replica.{Engine, ok}

pub record Register {T : Type 0} (E : Engine T) : Type 1 where
  pub Value : Type 0
  pub read : T → Entity → Value
  pub value : OplogEntry → Value
  -- The operation names the entity that it writes.
  pub IsLawful : OplogEntry → Type 0
  pub read-apply :
      (log : List OplogEntry) (e : OplogEntry) (t u : T) (k : Entity)
      → IsLawful e
      → E.apply_oplog_entry log e t ≡ ok u
      → read u k
        ≡ (if should_apply_latest_mutation log e && is_about k e then value e else read t k)
