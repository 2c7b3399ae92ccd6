-- ===== src/Desktopcore/Replica/Delivered.antt =====
-- internal/desktopcore/service_sync.go: each delivery of an operation keeps a replica consistent.
use ben_desktop.Base.{
  ℕ, ◌+◌, ◌-◌, ◌≡◌, refl, sym, ap, subst, ◌∙◌, inl, inr, true, false, String, some, List, ◌∷◌,
  arith, leb, ◌==◌, trim_space, trim_space-trim_space, if◌then◌else◌, Bool-cases, Option-cases,
}
use ben_desktop.Desktopcore.Oplog.{
  OplogEntry, CheckpointOplogEntry, DeviceClock, or_zero, device_clock_seq, upsert_device_clock,
}
use ben_desktop.Desktopcore.Oplog.Latest.{latest_row-tail}
use ben_desktop.Desktopcore.Replica.{
  Engine, ok, Result-cases, Replica, has_op, has_seq, create_entry, rows_from, entry_from_op,
  apply_rows, advance_clock, apply_buffered_device_oplog, deliver_entry, apply_remote_op,
}
use ben_desktop.Desktopcore.Replica.Register.{Register}
use ben_desktop.Desktopcore.Replica.Clocks.{clock, raised, clock-upsert}
use ben_desktop.Desktopcore.Replica.Rows.{
  IsKeyed, rows_from-Stored, Stored-rows_from, rows_from-IsSorted, Stored-has_seq,
}
use ben_desktop.Desktopcore.Replica.Buffered.{IsCurrent, CatchUp, apply_rows-CatchUp}
use ben_desktop.Desktopcore.Replica.Consistent.{
  IsConsistent, Grown, raised_same, create_entry-some, has_seq-cons, grown-IsCurrent,
  buffered-IsConsistent,
}
use ben_desktop.Desktopcore.Replica.Runs.{
  IsFilled, IsStopped, raised-IsFilled, raised-IsStopped, went_on, buffered_run,
}

module _ {T : Type 0} (E : Engine T) (R : Register E) where
  open R use {IsLawful}

  -- The loop over the rows of the device, from the row that has just been stored.
  caught_up :
      (before : T) (r : Replica T) (e : OplogEntry) (until : ℕ) (u : T)
      → IsConsistent E R before r
      → trim_space e.op_id ≡ e.op_id
      → IsLawful e
      → has_op r.oplog e.library_id e.op_id ≡ false
      → has_seq r.oplog e.library_id e.device_id e.seq ≡ false
      → apply_rows E
          (e ∷ r.oplog)
          (rows_from
            (e ∷ r.oplog)
            e.library_id
            e.device_id
            (clock r.clocks e.library_id e.device_id + 1))
          (clock r.clocks e.library_id e.device_id)
          r.tables
        ≡ ok (until, u)
      → CatchUp E R
          (e ∷ r.oplog)
          (clock r.clocks)
          e.library_id
          e.device_id
          before
          (clock r.clocks e.library_id e.device_id)
          until
          u
  caught_up before r e until u c t w o s h =
      let log = e ∷ r.oplog in
      let last = clock r.clocks e.library_id e.device_id in
      let keyed : IsKeyed log = (o, s, c.keyed) in
      apply_rows-CatchUp E R log (clock r.clocks) e.library_id e.device_id before keyed
        (λ x st. elim st [
          | inl new ↦ subst (λ y. trim_space y.op_id ≡ y.op_id) (sym new) t
          | inr old ↦ c.trimmed x old
        ])
        (λ x st. elim st [ inl new ↦ subst IsLawful (sym new) w | inr old ↦ c.lawful x old ])
        (rows_from log e.library_id e.device_id (last + 1)) last until r.tables u
        (rows_from-IsSorted log e.library_id e.device_id (last + 1) keyed)
        (λ x st.
          let there = rows_from-Stored log e.library_id e.device_id (last + 1) x st in
          (there.0, there.1, omega (arith, there.2)))
        (λ x st of_device high.
          Stored-rows_from log e.library_id e.device_id (last + 1) x st of_device (omega arith))
        (subst (λ f. IsCurrent E R log f r.tables)
          (sym (raised_same (clock r.clocks) e.library_id e.device_id))
          (grown-IsCurrent E R before r e c s))
        (λ k gone. c.untouched k (latest_row-tail e r.oplog k gone)) h

  -- The replica once the clock shows what the loop has reached.
  caught_up-IsConsistent :
      (before : T) (r : Replica T) (e : OplogEntry) (until : ℕ) (u : T) (clocks : List DeviceClock)
      → IsConsistent E R before r
      → trim_space e.op_id ≡ e.op_id
      → IsLawful e
      → has_op r.oplog e.library_id e.op_id ≡ false
      → has_seq r.oplog e.library_id e.device_id e.seq ≡ false
      → CatchUp E R
          (e ∷ r.oplog)
          (clock r.clocks)
          e.library_id
          e.device_id
          before
          (clock r.clocks e.library_id e.device_id)
          until
          u
      → clock clocks ≡ raised (clock r.clocks) e.library_id e.device_id until
      → IsConsistent E R before (record { oplog = e ∷ r.oplog; clocks = clocks; tables = u })
  caught_up-IsConsistent before r e until u clocks c t w o s up is = record {
    keyed = (o, s, c.keyed);
    trimmed = λ x st. elim st [
      | inl new ↦ subst (λ y. trim_space y.op_id ≡ y.op_id) (sym new) t
      | inr old ↦ c.trimmed x old
    ];
    lawful = λ x st. elim st [ inl new ↦ subst IsLawful (sym new) w | inr old ↦ c.lawful x old ];
    filled = subst (IsFilled (e ∷ r.oplog)) (sym is) (
        raised-IsFilled (e ∷ r.oplog) (clock r.clocks) e.library_id e.device_id until
          (λ l d n low high. has_seq-cons e r.oplog l d n (c.filled l d n low high)) up.filled);
    stops =
        subst (IsStopped (e ∷ r.oplog)) (sym is)
          (raised-IsStopped e r.oplog (clock r.clocks) until c.stops up.stops);
    current = subst (λ f. IsCurrent E R (e ∷ r.oplog) f u) (sym is) up.current;
    untouched = up.untouched;
  }

  -- The loop goes past the row that has just been stored, so the clock is written.
  applied-IsConsistent :
      (before : T) (r next : Replica T) (library : String) (e : OplogEntry)
      → IsConsistent E R before r
      → trim_space library ≡ e.library_id
      → trim_space e.device_id ≡ e.device_id
      → trim_space e.op_id ≡ e.op_id
      → IsLawful e
      → has_op r.oplog e.library_id e.op_id ≡ false
      → has_seq r.oplog e.library_id e.device_id e.seq ≡ false
      → e.seq ≡ clock r.clocks e.library_id e.device_id + 1
      → apply_buffered_device_oplog E
          (Grown E R r e)
          library
          e.device_id
          (clock r.clocks e.library_id e.device_id + 1)
        ≡ ok next
      → IsConsistent E R before next
  unfolding advance_clock
  applied-IsConsistent before r next library e c l d t w o s now h =
      let last = clock r.clocks e.library_id e.device_id in
      let log = e ∷ r.oplog in
      let run = buffered_run E (Grown E R r e) next library e.device_id (last + 1) h in
      let pred : last + 1 - 1 ≡ last = omega arith in
      let loop : apply_rows E log (rows_from log e.library_id e.device_id (last + 1)) last r.tables
          ≡ ok (run.0, run.1) =
        subst
          (λ n.
            apply_rows E log (rows_from log e.library_id e.device_id (last + 1)) n r.tables
            ≡ ok (run.0, run.1))
          pred
          (subst
            (λ x.
              apply_rows E log (rows_from log e.library_id x (last + 1)) (last + 1 - 1) r.tables
              ≡ ok (run.0, run.1))
            d
            (subst
              (λ x.
                apply_rows E log (rows_from log x (trim_space e.device_id) (last + 1))
                  (last + 1 - 1) r.tables
                ≡ ok (run.0, run.1))
              l run.2)) in
      let up = caught_up before r e run.0 run.1 c t w o s loop in
      let here : has_seq log e.library_id e.device_id (last + 1) ≡ true =
        subst (λ n. has_seq log e.library_id e.device_id n ≡ true) now
          (Stored-has_seq log e.library_id e.device_id e (inl refl) (refl, refl)) in
      let past : leb (last + 1) run.0 ≡ true =
        went_on log e.library_id e.device_id last run.0 up.reached here up.stops in
      let written = upsert_device_clock r.clocks library e.device_id run.0 in
      let is : next ≡ record { oplog = log; clocks = written; tables = run.1 } =
        run.3
        ∙ ap
            (λ b. record (Grown E R r e) {
              tables = run.1;
              clocks = if b then written else r.clocks;
            })
            past in
      let clocks_are : clock written ≡ raised (clock r.clocks) e.library_id e.device_id run.0 =
        subst (λ x. clock written ≡ raised (clock r.clocks) e.library_id x run.0) d
          (subst (λ x. clock written ≡ raised (clock r.clocks) x (trim_space e.device_id) run.0) l
            (λ i a b. clock-upsert r.clocks library e.device_id run.0 a b i)) in
      subst (IsConsistent E R before) (sym is)
        (caught_up-IsConsistent before r e run.0 run.1 written c t w o s up clocks_are)

  deliver_entry-IsConsistent :
      (before : T) (r : Replica T) (library : String) (e : OplogEntry)
      → IsConsistent E R before r
      → trim_space library ≡ e.library_id
      → trim_space e.device_id ≡ e.device_id
      → trim_space e.op_id ≡ e.op_id
      → IsLawful e
      → IsConsistent E R before
          (deliver_entry E r library e (clock r.clocks e.library_id e.device_id)).replica
  unfolding deliver_entry
  deliver_entry-IsConsistent before r library e c l d t w =
      let last = clock r.clocks e.library_id e.device_id in
      elim (Option-cases (create_entry r.oplog e)) [
        | inl refuse ↦ rw (refuse, deliver_entry) c
        | inr (log, made) ↦
            let free = create_entry-some r.oplog log e made in
            rw (made ∙ ap some free.0, deliver_entry)
              (elim (Bool-cases (e.seq == last + 1)) [
                | inl now ↦
                    rw now
                      (elim (Result-cases (
                        apply_buffered_device_oplog E (Grown E R r e) library e.device_id
                          (last + 1))) [
                            | inl (next, done) ↦ rw done (
                                applied-IsConsistent before r next library e c l d t w free.1 free.2
                                  (ground (arith, now)) done)
                            | inr (message, failed) ↦ rw failed c
                          ])
                | inr later ↦ rw later (
                    buffered-IsConsistent E R before r e c t w free.1 free.2
                      (ground (arith, later)))
              ])
      ]

  -- Each delivery of an operation, whether it is applied, buffered, known or refused.
  pub apply_remote_op-IsConsistent :
      (before : T) (r : Replica T) (library : String) (op : CheckpointOplogEntry)
      → IsLawful (entry_from_op E.to_lower library op)
      → IsConsistent E R before r
      → IsConsistent E R before (apply_remote_op E r library op).replica
  unfolding apply_remote_op device_clock_seq or_zero
  apply_remote_op-IsConsistent before r library op w c =
      elim (Bool-cases (has_op r.oplog (trim_space library) (trim_space op.op_id))) [
        | inl known ↦ rw known c
        | inr new ↦ rw new (elim (Option-cases (E.verify r.tables library op)) [
          | inl good ↦ rw good (
              deliver_entry-IsConsistent before r library (entry_from_op E.to_lower library op) c
                refl (trim_space-trim_space op.device_id) (trim_space-trim_space op.op_id) w)
          | inr (message, bad) ↦ rw bad c
        ])
      ]
