-- ===== src/Desktopcore/Replica/Repeated.antt =====
-- internal/desktopcore/service_sync.go: an operation that arrives again, and one whose transaction fails.
use ben_desktop.Base.{
  ℕ, ◌+◌, ◌≡◌, ◌≢◌, ◌⊎◌, refl, sym, ap, subst, ◌∙◌, inl, inr, true, String, none, some, List, ◌∷◌,
  arith, ◌==◌, str_eq_self, trim_space, Bool-cases, Option-cases,
}
use ben_desktop.Desktopcore.Oplog.{OplogEntry, CheckpointOplogEntry, device_clock_seq}
use ben_desktop.Desktopcore.Replica.{
  Engine, Result-cases, Replica, Delivery, create_entry, has_op, entry_from_op, advance_clock,
  apply_buffered_device_oplog, refused, deliver_entry, apply_remote_op,
}
use ben_desktop.Desktopcore.Replica.Consistent.{create_entry-some}
use ben_desktop.Desktopcore.Replica.Runs.{buffered_run}

module _ {T : Type 0} (E : Engine T) where
  known_op :
      (r : Replica T) (library : String) (op : CheckpointOplogEntry)
      → has_op r.oplog (trim_space library) (trim_space op.op_id) ≡ true
      → apply_remote_op E r library op ≡ record { replica = r; inserted = 0; error = none }
  unfolding apply_remote_op
  known_op r library op h = rw h refl

  -- What a delivery may do: all of it, or nothing.
  abbrev pub Outcome : Replica T → OplogEntry → Delivery T → Type 0
  Outcome r e d =
      ((d.replica ≡ r) × ((d.error ≢ none) ⊎ (has_op r.oplog e.library_id e.op_id ≡ true)))
      ⊎ ((d.error ≡ none) × (d.inserted ≡ 1) × (d.replica.oplog ≡ e ∷ r.oplog))

  deliver_entry-Outcome :
      (r : Replica T) (library : String) (e : OplogEntry) (last : ℕ)
      → Outcome r e (deliver_entry E r library e last)
  unfolding deliver_entry refused advance_clock
  deliver_entry-Outcome r library e last = elim (Option-cases (create_entry r.oplog e)) [
    | inl refuse ↦ rw (refuse, deliver_entry) (inl (refl, inl (λ h. absurd (ground arith))))
    | inr (log, made) ↦
        let free = create_entry-some r.oplog log e made in
        let stored = record r { oplog = e ∷ r.oplog } in
        rw (made ∙ ap some free.0, deliver_entry)
          (elim (Bool-cases (e.seq == last + 1)) [
            | inl now ↦
                rw now
                  (elim (Result-cases
                    (apply_buffered_device_oplog E stored library e.device_id (last + 1))) [
                      | inl (next, done) ↦
                          let run =
                            buffered_run E stored next library e.device_id (last + 1) done in
                          rw done (inr (refl, refl, ap (λ x. x.oplog) run.3))
                      | inr (message, failed) ↦
                          rw failed (inl (refl, inl (λ h. absurd (ground arith))))
                    ])
            | inr later ↦ rw later (inr (refl, refl, refl))
          ])
  ]

  -- A delivery leaves the replica as it was, and then it reports an error or the operation was stored before;
  -- or it has stored the row of the operation, counts one, and reports no error.
  pub apply_remote_op_atomic :
      (r : Replica T) (library : String) (op : CheckpointOplogEntry)
      → Outcome r (entry_from_op E.to_lower library op) (apply_remote_op E r library op)
  unfolding apply_remote_op refused
  apply_remote_op_atomic r library op =
      elim (Bool-cases (has_op r.oplog (trim_space library) (trim_space op.op_id))) [
        | inl known ↦ rw known (inl (refl, inr refl))
        | inr new ↦ elim (Option-cases (E.verify r.tables library op)) [
          | inl good ↦
              let e = entry_from_op E.to_lower library op in
              let last = device_clock_seq r.clocks library op.device_id in
              let is : apply_remote_op E r library op ≡ deliver_entry E r library e last =
                rw new (rw good refl) in
              subst (Outcome r e) (sym is) (deliver_entry-Outcome r library e last)
          | inr (message, bad) ↦ rw new (rw bad (inl (refl, inl (λ h. absurd (ground arith)))))
        ]
      ]

  has_op-cons :
      (e : OplogEntry) (log : List OplogEntry) → has_op (e ∷ log) e.library_id e.op_id ≡ true
  unfolding has_op
  has_op-cons e log = ground (arith, str_eq_self e.library_id, str_eq_self e.op_id)

  -- An operation that has been delivered without an error is known: to deliver it again changes nothing,
  -- counts none, and reports no error.
  pub apply_remote_op_twice :
      (r : Replica T) (library : String) (op : CheckpointOplogEntry)
      → (apply_remote_op E r library op).error ≡ none
      → apply_remote_op E (apply_remote_op E r library op).replica library op
        ≡ record { replica = (apply_remote_op E r library op).replica; inserted = 0; error = none }
  unfolding entry_from_op trim_space
  apply_remote_op_twice r library op h =
      let e = entry_from_op E.to_lower library op in
      let next = (apply_remote_op E r library op).replica in
      known_op next library op (elim (apply_remote_op_atomic r library op) [
        | inl (same, inl failed) ↦ absurd (failed h)
        | inl (same, inr known) ↦
            subst (λ x. has_op x.oplog e.library_id e.op_id ≡ true) (sym same) known
        | inr (fine, one, log) ↦
            subst (λ l. has_op l e.library_id e.op_id ≡ true) (sym log) (has_op-cons e r.oplog)
      ])
