-- ===== src/Desktopcore/Replica/Local/Numbers.antt =====
-- internal/desktopcore/service_oplog.go: the number of an operation that is made on this device.
use ben_desktop.Base.{
  ℕ, ◌-◌, ◌^◌, ◌≤◌, ◌<◌, ◌≡◌, refl, ap, subst, inl, inr, true, String, List, [], ◌∷◌, arith,
  Bool-cases,
}
use ben_desktop.Desktopcore.Oplog.{OplogEntry, is_of, max_seq, next_library_device_seq}
use ben_desktop.Desktopcore.Oplog.Latest.{Stored}
use ben_desktop.Desktopcore.Replica.{Replica}
use ben_desktop.Desktopcore.Replica.Rows.{IsOf, is_of-IsOf}
use ben_desktop.Desktopcore.Replica.Clocks.{clock}

max_seq-le :
    (log : List OplogEntry) (library device : String) (x : OplogEntry)
    → Stored x log
    → IsOf library device x
    → x.seq ≤ max_seq log library device
unfolding max_seq
max_seq-le [] library device x s o = elim s [ ]
max_seq-le (e ∷ log) library device x (inl same) o = ground (
  arith,
  ap (λ y. y.seq) same,
  subst (λ y. is_of library device y ≡ true) same ((is_of-IsOf library device x).1 o),
)
max_seq-le (e ∷ log) library device x (inr old) o =
    ground (arith, max_seq-le log library device x old o)

max_seq-below :
    (log : List OplogEntry) (library device : String) (bound : ℕ)
    → 0 < bound
    → ((x : OplogEntry) → Stored x log → IsOf library device x → x.seq < bound)
    → max_seq log library device < bound
unfolding max_seq
max_seq-below [] library device bound some_room h = some_room
max_seq-below (e ∷ log) library device bound some_room h =
    let rest = max_seq-below log library device bound some_room (λ x s. h x (inr s)) in
    elim (Bool-cases (is_of library device e)) [
      | inl own ↦ ground (arith, rest, own, h e (inl refl) ((is_of-IsOf library device e).0 own))
      | inr other ↦ ground (arith, rest, other)
    ]

-- Where the clock of a device and the numbers of its stored operations are below the greatest `int64`, the
-- number that it gives to its next operation is beyond all of them, buffered ones included, and is an `int64`
-- that is not negative.
pub next_library_device_seq_fresh :
    {T : Type 0} (r : Replica T) (library device : String)
    → clock r.clocks library device < 2 ^ 63 - 1
    → ((x : OplogEntry) → Stored x r.oplog → IsOf library device x → x.seq < 2 ^ 63 - 1)
    → (clock r.clocks library device < next_library_device_seq r.oplog r.clocks library device)
      × ((x : OplogEntry)
          → Stored x r.oplog
          → IsOf library device x
          → x.seq < next_library_device_seq r.oplog r.clocks library device)
      × (next_library_device_seq r.oplog r.clocks library device < 2 ^ 63)
unfolding next_library_device_seq
next_library_device_seq_fresh r library device c h =
    let top = max_seq-below r.oplog library device (2 ^ 63 - 1) (omega arith) h in
    (
      ground (arith, c, top),
      (λ x s o. ground (arith, c, top, max_seq-le r.oplog library device x s o)),
      ground (arith, c, top),
    )
