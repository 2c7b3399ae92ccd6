-- ===== src/Desktopcore/Replica/Local/Gate.antt =====
-- internal/desktopcore/service_oplog.go and oplog_apply.go: when an operation that is made on this device is
-- the latest on its entity.
use ben_desktop.Base.{ℕ, ◌<◌, ◌≡◌, Bool, true, false, List}
use ben_desktop.Desktopcore.Oplog.{OplogEntry, Entity, is_about}
use ben_desktop.Desktopcore.Oplog.Latest.{Stored}
use ben_desktop.Desktopcore.Replica.{Replica}

-- How the times of the rows that were stored about an entity decide whether a new row is written.
pub data IsGated (log : List OplogEntry) (k : Entity) (now : ℕ) : Bool → Type 0 where
  late :
      (x : OplogEntry) → Stored x log → is_about k x ≡ true → now < x.tsns → IsGated log k now false
  first :
      ((x : OplogEntry) → Stored x log → is_about k x ≡ true → x.tsns < now)
      → IsGated log k now true
  tied :
      (x : OplogEntry) (applied : Bool)
      → Stored x log
      → is_about k x ≡ true
      → x.tsns ≡ now
      → IsGated log k now applied
