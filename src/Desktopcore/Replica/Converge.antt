-- ===== src/Desktopcore/Replica/Converge.antt =====
-- internal/desktopcore/service_sync.go and oplog_apply.go: replicas that have received the same operations.
use ben_desktop.Base.{
  ℕ, ◌+◌, ◌≤◌, ◌≡◌, refl, sym, subst, ◌∙◌, inl, inr, true, String, none, List, [], ◌∷◌, arith, ltb,
  All, Bool-cases, Option-cases,
}
use ben_desktop.Desktopcore.Oplog.{
  OplogEntry, CheckpointOplogEntry, Entity, latest_row, take_clock, or_zero,
}
use ben_desktop.Desktopcore.Oplog.Latest.{
  Stored, IsSameSet, latest_row-set, latest_row-Stored, latest_row-found,
}
use ben_desktop.Desktopcore.Replica.{
  Engine, Replica, has_seq, entry_from_op, apply_remote_op, deliver_all, fresh_replica,
}
use ben_desktop.Desktopcore.Replica.Register.{Register}
use ben_desktop.Desktopcore.Replica.Clocks.{clock}
use ben_desktop.Desktopcore.Replica.Rows.{IsKeyed-ids, has_seq-Stored, Stored-has_seq}
use ben_desktop.Desktopcore.Replica.Buffered.{IsApplied}
use ben_desktop.Desktopcore.Replica.Consistent.{IsConsistent}
use ben_desktop.Desktopcore.Replica.Delivered.{apply_remote_op-IsConsistent}

has_seq-set :
    (log other : List OplogEntry) (library device : String) (s : ℕ)
    → IsSameSet log other
    → has_seq log library device s ≡ true
    → has_seq other library device s ≡ true
has_seq-set log other library device s same h =
    let x = has_seq-Stored log library device s h in
    subst (λ n. has_seq other library device n ≡ true) x.3
      (Stored-has_seq other library device x.0 ((same x.0).0 x.1) x.2)

IsSameSet-sym : (log other : List OplogEntry) → IsSameSet log other → IsSameSet other log
IsSameSet-sym log other same x = ((same x).1, (same x).0)

module _ {T : Type 0} (E : Engine T) (R : Register E) where
  open R use {read, IsLawful}

  abbrev pub AreLawful : List (String × CheckpointOplogEntry) → Type 0
  AreLawful ops = All (λ p. IsLawful (entry_from_op E.to_lower p.0 p.1)) ops

  deliver_all-from :
      (before : T) (r : Replica T) (ops : List (String × CheckpointOplogEntry))
      → AreLawful ops
      → IsConsistent E R before r
      → IsConsistent E R before (deliver_all E r ops)
  unfolding deliver_all
  deliver_all-from before r [] w c = c
  deliver_all-from before r ((library, op) ∷ ops) w c =
      deliver_all-from before (apply_remote_op E r library op).replica ops w.1
        (apply_remote_op-IsConsistent E R before r library op w.0 c)

  fresh-IsConsistent : (before : T) → IsConsistent E R before (fresh_replica before)
  unfolding fresh_replica has_seq latest_row take_clock or_zero
  fresh-IsConsistent before = record {
    keyed = tt;
    trimmed = λ x s. elim s [ ];
    lawful = λ x s. elim s [ ];
    filled = λ l d s low high. absurd (omega arith);
    stops = λ l d. refl;
    current = λ k m h. absurd (ground arith);
    untouched = λ k h. refl;
  }

  -- Whatever operations that are lawful for the register have been delivered, the clock of each device is
  -- the length of the gapless start of its stored operations; each entity of the register whose latest
  -- operation lies within the clocks holds what that operation wrote, and one without operations is as it was.
  pub deliver_all-IsConsistent :
      (before : T) (ops : List (String × CheckpointOplogEntry))
      → AreLawful ops
      → IsConsistent E R before (deliver_all E (fresh_replica before) ops)
  deliver_all-IsConsistent before ops w =
      deliver_all-from before (fresh_replica before) ops w (fresh-IsConsistent before)

  clock_le :
      (before other : T) (a b : Replica T) (l d : String)
      → IsConsistent E R before a
      → IsConsistent E R other b
      → IsSameSet a.oplog b.oplog
      → clock a.clocks l d ≤ clock b.clocks l d
  clock_le before other a b l d c e same =
      elim (Bool-cases (ltb (clock b.clocks l d) (clock a.clocks l d))) [
        | inl less ↦
            let low : clock b.clocks l d + 1 ≤ clock a.clocks l d = ground arith in
            let here = c.filled l d (clock b.clocks l d + 1) (omega arith) low in
            absurd (
              ground (
                arith,
                e.stops l d,
                has_seq-set a.oplog b.oplog l d (clock b.clocks l d + 1) same here,
              ))
        | inr more ↦ ground arith
      ]

  -- Each clock depends on the set of the stored operations only.
  pub clocks_agree :
      (before other : T) (a b : Replica T) (l d : String)
      → IsConsistent E R before a
      → IsConsistent E R other b
      → IsSameSet a.oplog b.oplog
      → clock a.clocks l d ≡ clock b.clocks l d
  clocks_agree before other a b l d c e same = omega (
    arith,
    clock_le before other a b l d c e same,
    clock_le other before b a l d e c (IsSameSet-sym a.oplog b.oplog same),
  )

  tables_agree :
      (before other : T) (a b : Replica T) (k : Entity)
      → IsConsistent E R before a
      → IsConsistent E R other b
      → read before k ≡ read other k
      → IsSameSet a.oplog b.oplog
      → ((x : OplogEntry) → Stored x a.oplog → IsApplied (clock a.clocks) x)
      → read a.tables k ≡ read b.tables k
  tables_agree before other a b k c e start same settled =
      elim (Option-cases (latest_row a.oplog k)) [
        | inl quiet ↦
            let also : latest_row b.oplog k ≡ none = elim (Option-cases (latest_row b.oplog k)) [
              | inl gone ↦ gone
              | inr (m, found) ↦
                  let stored = latest_row-Stored b.oplog k m found in
                  absurd (latest_row-found a.oplog k m ((same m).1 stored.0) stored.1 quiet)
            ] in
            c.untouched k quiet ∙ start ∙ sym (e.untouched k also)
        | inr (m, found) ↦
            let stored = latest_row-Stored a.oplog k m found in
            let turn = settled m stored.0 in
            let there =
              latest_row-set a.oplog b.oplog k m (IsKeyed-ids a.oplog c.keyed) same found in
            let agree = clocks_agree before other a b m.library_id m.device_id c e same in
            c.current k m found turn
            ∙ sym (e.current k m there (turn.0, omega (arith, turn.1, agree)))
      ]

  -- Replicas whose tables agree on each entity of the register at the start, and that have stored the same
  -- operations, whatever was delivered to them and in whatever order, agree on the clock of each device and on
  -- each entity of the register, if the operations are lawful and in one of them none waits in front of a gap.
  pub replicas_converge :
      (before other : T) (ops_a ops_b : List (String × CheckpointOplogEntry))
      → ((k : Entity) → read before k ≡ read other k)
      → AreLawful ops_a
      → AreLawful ops_b
      → IsSameSet
          (deliver_all E (fresh_replica before) ops_a).oplog
          (deliver_all E (fresh_replica other) ops_b).oplog
      → ((x : OplogEntry)
          → Stored x (deliver_all E (fresh_replica before) ops_a).oplog
          → IsApplied (clock (deliver_all E (fresh_replica before) ops_a).clocks) x)
      → ((l d : String)
          → clock (deliver_all E (fresh_replica before) ops_a).clocks l d
            ≡ clock (deliver_all E (fresh_replica other) ops_b).clocks l d)
        × ((k : Entity)
            → read (deliver_all E (fresh_replica before) ops_a).tables k
              ≡ read (deliver_all E (fresh_replica other) ops_b).tables k)
  replicas_converge before other ops_a ops_b start v w same settled =
      let c = deliver_all-IsConsistent before ops_a v in
      let e = deliver_all-IsConsistent other ops_b w in
      let a = deliver_all E (fresh_replica before) ops_a in
      let b = deliver_all E (fresh_replica other) ops_b in
      (
        (λ l d. clocks_agree before other a b l d c e same),
        (λ k. tables_agree before other a b k c e (start k) same settled),
      )
