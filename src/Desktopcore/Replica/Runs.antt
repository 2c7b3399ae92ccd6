-- ===== src/Desktopcore/Replica/Runs.antt =====
-- internal/desktopcore/service_sync.go: the rows that are applied in one go when a gap has been closed.
use ben_desktop.Base.{
  ℕ, ◌+◌, ◌-◌, ◌≤◌, ◌<◌, ◌≡◌, sym, subst, inl, inr, true, false, ◌&&◌, String, List, ◌∷◌, arith,
  leb, ◌==◌, str_eq, str_eq_iff, trim_space, Bool-cases,
}
use ben_desktop.Desktopcore.Oplog.{OplogEntry}
use ben_desktop.Desktopcore.Replica.{
  Engine, ok, Result-cases, ok-inj, Replica, has_seq, rows_from, apply_rows, advance_clock,
  apply_buffered_device_oplog,
}
use ben_desktop.Desktopcore.Replica.Clocks.{raised}
use ben_desktop.Desktopcore.Replica.Consistent.{has_seq-other}

-- Up to its clock each device has all its rows, and not the next one.
abbrev pub IsFilled : List OplogEntry → (String → String → ℕ) → Type 0
IsFilled log f = (l d : String) (n : ℕ) → 1 ≤ n → n ≤ f l d → has_seq log l d n ≡ true

abbrev pub IsStopped : List OplogEntry → (String → String → ℕ) → Type 0
IsStopped log f = (l d : String) → has_seq log l d (f l d + 1) ≡ false

pub raised-IsFilled :
    (log : List OplogEntry) (c : String → String → ℕ) (library device : String) (until : ℕ)
    → IsFilled log c
    → ((n : ℕ) → c library device < n → n ≤ until → has_seq log library device n ≡ true)
    → IsFilled log (raised c library device until)
raised-IsFilled log c library device until old new l d n low high =
    elim (Bool-cases (str_eq library l && str_eq device d)) [
      | inl here ↦
          let same_library = (str_eq_iff library l).0 (ground (arith, here)) in
          let same_device = (str_eq_iff device d).0 (ground (arith, here)) in
          elim (Bool-cases (leb n (c library device))) [
            | inl before ↦
                rw (sym same_library)
                  (rw (sym same_device) (old library device n low (ground arith)))
            | inr after ↦
                let top : n ≤ until = ground (arith, here, high) in
                rw (sym same_library) (rw (sym same_device) (new n (ground arith) top))
          ]
      | inr other ↦ old l d n low (ground (arith, other, high))
    ]

pub raised-IsStopped :
    (e : OplogEntry) (log : List OplogEntry) (c : String → String → ℕ) (until : ℕ)
    → IsStopped log c
    → has_seq (e ∷ log) e.library_id e.device_id (until + 1) ≡ false
    → IsStopped (e ∷ log) (raised c e.library_id e.device_id until)
raised-IsStopped e log c until old new l d =
    elim (Bool-cases (str_eq e.library_id l && str_eq e.device_id d)) [
      | inl here ↦ rw here (
          let same_library = (str_eq_iff e.library_id l).0 (ground (arith, here)) in
          let same_device = (str_eq_iff e.device_id d).0 (ground (arith, here)) in
          subst (λ x. has_seq (e ∷ log) x d (until + 1) ≡ false) same_library
            (subst (λ x. has_seq (e ∷ log) e.library_id x (until + 1) ≡ false) same_device new))
      | inr other ↦ rw other (
          has_seq-other e log l d (c l d + 1)
            (λ of_device. absurd (
              ground (
                arith,
                other,
                (str_eq_iff e.library_id l).1 of_device.0,
                (str_eq_iff e.device_id d).1 of_device.1,
              )))
            (old l d))
    ]

-- The loop does not stop in front of a row that follows.
pub went_on :
    (log : List OplogEntry) (library device : String) (last until : ℕ)
    → last ≤ until
    → has_seq log library device (last + 1) ≡ true
    → has_seq log library device (until + 1) ≡ false
    → leb (last + 1) until ≡ true
went_on log library device last until h here stop = elim (Bool-cases (until == last)) [
  | inl stuck ↦
      let e : until ≡ last = ground (arith, stuck) in
      absurd (ground (arith, here, subst (λ n. has_seq log library device (n + 1) ≡ false) e stop))
  | inr gone ↦ ground (arith, gone, h)
]

pub buffered_run :
    {T : Type 0} (E : Engine T) (r next : Replica T) (library device : String) (seq : ℕ)
    → apply_buffered_device_oplog E r library device seq ≡ ok next
    → (until : ℕ) × (u : T) × (apply_rows E r.oplog
          (rows_from r.oplog (trim_space library) (trim_space device) seq)
          (seq - 1)
          r.tables
        ≡ ok (until, u))
      × (next ≡ advance_clock E r library device seq (until, u))
unfolding apply_buffered_device_oplog
buffered_run E r next library device seq h =
    let rows = rows_from r.oplog (trim_space library) (trim_space device) seq in
    elim (Result-cases (apply_rows E r.oplog rows (seq - 1) r.tables)) [
      | inl ((until, u), done) ↦
          (until, u, done, sym (ok-inj (rw (done, apply_buffered_device_oplog) at h)))
      | inr (message, failed) ↦
          absurd (ground (arith, rw (failed, apply_buffered_device_oplog) at h))
    ]
