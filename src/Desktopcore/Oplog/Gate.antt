-- ===== src/Desktopcore/Oplog/Gate.antt =====
-- internal/desktopcore/oplog_apply.go: an operation passes exactly when it is the latest one.
use ben_desktop.Base.{
  ◌≡◌, sym, subst, ◌∙◌, true, some, List, arith, ==_self, str_eq_iff, str_eq_self, trim_space,
}
use ben_desktop.Desktopcore.Oplog.{
  OplogEntry, Entity, entity_of, is_about, latest_row, is_row, should_apply_latest_mutation,
}
use ben_desktop.Desktopcore.Oplog.Latest.{Stored, HasUniqueIds, latest_row-Stored, is_about-library}

-- The identifiers are stored trimmed.
abbrev pub IsTrimmed : List OplogEntry → Type 0
IsTrimmed log = (x : OplogEntry) → Stored x log → trim_space x.op_id ≡ x.op_id

pub entity-is_about : (k : Entity) (x : OplogEntry) → is_about k x ≡ true → entity_of x ≡ k
entity-is_about k x a =
    let l = (str_eq_iff x.library_id k.library_id).0 (ground arith) in
    let t = (str_eq_iff x.entity_type k.entity_type).0 (ground arith) in
    let i = (str_eq_iff x.entity_id k.entity_id).0 (ground arith) in
    λ j. record { library_id = l j; entity_type = t j; entity_id = i j }

pub latest_passes :
    (log : List OplogEntry) (k : Entity) (m : OplogEntry)
    → latest_row log k ≡ some m
    → should_apply_latest_mutation log m ≡ true
unfolding should_apply_latest_mutation is_row
latest_passes log k m h =
    let about = (latest_row-Stored log k m h).1 in
    let found : latest_row log (entity_of m) ≡ some m = rw (entity-is_about k m about) h in
    subst (λ o. is_row o m ≡ true) (sym found)
      (ground (arith, ==_self m.tsns, str_eq_self (trim_space m.op_id)))

pub passes_latest :
    (log : List OplogEntry) (k : Entity) (m x : OplogEntry)
    → HasUniqueIds log
    → IsTrimmed log
    → latest_row log k ≡ some m
    → Stored x log
    → is_about k x ≡ true
    → should_apply_latest_mutation log x ≡ true
    → x ≡ m
unfolding should_apply_latest_mutation is_row
passes_latest log k m x unique trimmed h s a passes =
    let stored = latest_row-Stored log k m h in
    let found : latest_row log (entity_of x) ≡ some m = rw (entity-is_about k x a) h in
    let is : is_row (some m) x ≡ true = subst (λ o. is_row o x ≡ true) found passes in
    let ids : trim_space m.op_id ≡ trim_space x.op_id =
      (str_eq_iff (trim_space m.op_id) (trim_space x.op_id)).0 (ground (arith, is)) in
    unique x m s stored.0 (is_about-library k x a ∙ sym (is_about-library k m stored.1))
      (sym (trimmed x s) ∙ sym ids ∙ trimmed m stored.0)
