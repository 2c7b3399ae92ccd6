-- ===== src/Desktopcore/Replica/Consistent.antt =====
-- internal/desktopcore/service_sync.go: what holds of a replica whatever operations have been delivered to it.
use ben_desktop.Base.{
  ℕ, ◌+◌, ◌≤◌, ◌≡◌, ◌≢◌, refl, sym, ap, subst, ◌∙◌, inl, inr, true, false, ◌&&◌, ◌||◌, String, some,
  List, ◌∷◌, arith, str_eq, str_eq_iff, trim_space, Bool-cases,
}
use ben_desktop.Desktopcore.Oplog.{OplogEntry, is_of}
use ben_desktop.Desktopcore.Oplog.Latest.{Stored, latest_row-cons, latest_row-tail}
use ben_desktop.Desktopcore.Oplog.Gate.{IsTrimmed}
use ben_desktop.Desktopcore.Replica.{Engine, Replica, has_op, has_seq, create_entry}
use ben_desktop.Desktopcore.Replica.Register.{Register}
use ben_desktop.Desktopcore.Replica.Clocks.{clock, raised}
use ben_desktop.Desktopcore.Replica.Rows.{IsOf, IsKeyed, is_of-IsOf}
use ben_desktop.Desktopcore.Replica.Buffered.{IsApplied, IsCurrent, IsUntouched}

-- To set a clock to what it shows changes nothing.
pub raised_same :
    (c : String → String → ℕ) (library device : String)
    → raised c library device (c library device) ≡ c
raised_same c library device i l d = same l d i
  where
    same : (l d : String) → raised c library device (c library device) l d ≡ c l d
    same l d = elim (Bool-cases (str_eq library l && str_eq device d)) [
      | inl here ↦ rw here (
          ap (λ x. c x device) ((str_eq_iff library l).0 (ground (arith, here)))
          ∙ ap (c l) ((str_eq_iff device d).0 (ground (arith, here))))
      | inr other ↦ rw other refl
    ]

pub create_entry-some :
    (log longer : List OplogEntry) (e : OplogEntry)
    → create_entry log e ≡ some longer
    → (longer ≡ e ∷ log)
      × (has_op log e.library_id e.op_id ≡ false)
      × (has_seq log e.library_id e.device_id e.seq ≡ false)
unfolding create_entry
create_entry-some log longer e h =
    elim (Bool-cases
      (has_op log e.library_id e.op_id || has_seq log e.library_id e.device_id e.seq)) [
        | inl taken ↦ absurd (ground (arith, rw taken at h))
        | inr free ↦
            let is : some (e ∷ log) ≡ some longer = rw free at h in
            (cc is, ground (arith, free), ground (arith, free))
      ]

pub has_seq-cons :
    (e : OplogEntry) (log : List OplogEntry) (library device : String) (s : ℕ)
    → has_seq log library device s ≡ true
    → has_seq (e ∷ log) library device s ≡ true
unfolding has_seq
has_seq-cons e log library device s h = ground (arith, h)

-- A new row takes a free place, so it fills no other one.
pub has_seq-other :
    (e : OplogEntry) (log : List OplogEntry) (library device : String) (s : ℕ)
    → (IsOf library device e → e.seq ≢ s)
    → has_seq log library device s ≡ false
    → has_seq (e ∷ log) library device s ≡ false
unfolding has_seq
has_seq-other e log library device s other h = elim (Bool-cases (is_of library device e)) [
  | inl of_device ↦
      let ne : e.seq ≢ s = other ((is_of-IsOf library device e).0 of_device) in
      ground (arith, of_device, ne, h)
  | inr elsewhere ↦ ground (arith, elsewhere, h)
]

module _ {T : Type 0} (E : Engine T) (R : Register E) where
  open R use {IsLawful}

  pub record IsConsistent (before : T) (r : Replica T) : Type 0 where
    pub keyed : IsKeyed r.oplog
    pub trimmed : IsTrimmed r.oplog
    pub lawful : (x : OplogEntry) → Stored x r.oplog → IsLawful x
    pub filled :
        (l d : String) (s : ℕ) → 1 ≤ s → s ≤ clock r.clocks l d → has_seq r.oplog l d s ≡ true
    pub stops : (l d : String) → has_seq r.oplog l d (clock r.clocks l d + 1) ≡ false
    pub current : IsCurrent E R r.oplog (clock r.clocks) r.tables
    pub untouched : IsUntouched E R r.oplog before r.tables

  -- A row that fits no gap below the clock leaves all but the next place as it was.
  abbrev pub Grown : Replica T → OplogEntry → Replica T
  Grown r e = record r { oplog = e ∷ r.oplog }

  not-IsApplied :
      (before : T) (r : Replica T) (e : OplogEntry)
      → IsConsistent before r
      → has_seq r.oplog e.library_id e.device_id e.seq ≡ false
      → ¬ IsApplied (clock r.clocks) e
  not-IsApplied before r e c free a =
      absurd (ground (arith, free, c.filled e.library_id e.device_id e.seq a.0 a.1))

  pub grown-IsCurrent :
      (before : T) (r : Replica T) (e : OplogEntry)
      → IsConsistent before r
      → has_seq r.oplog e.library_id e.device_id e.seq ≡ false
      → IsCurrent E R (e ∷ r.oplog) (clock r.clocks) r.tables
  grown-IsCurrent before r e c free k m h a = elim (latest_row-cons e m r.oplog k h) [
    | inl new ↦
        absurd (not-IsApplied before r e c free (subst (IsApplied (clock r.clocks)) (sym new) a))
    | inr old ↦ c.current k m old a
  ]

  -- A row that is stored, and is not the next of its device.
  pub buffered-IsConsistent :
      (before : T) (r : Replica T) (e : OplogEntry)
      → IsConsistent before r
      → trim_space e.op_id ≡ e.op_id
      → IsLawful e
      → has_op r.oplog e.library_id e.op_id ≡ false
      → has_seq r.oplog e.library_id e.device_id e.seq ≡ false
      → e.seq ≢ clock r.clocks e.library_id e.device_id + 1
      → IsConsistent before (Grown r e)
  buffered-IsConsistent before r e c t w o s later = record {
    keyed = (o, s, c.keyed);
    trimmed = λ x st. elim st [
      | inl new ↦ subst (λ y. trim_space y.op_id ≡ y.op_id) (sym new) t
      | inr old ↦ c.trimmed x old
    ];
    lawful = λ x st. elim st [ inl new ↦ subst IsLawful (sym new) w | inr old ↦ c.lawful x old ];
    filled = λ l d n low high. has_seq-cons e r.oplog l d n (c.filled l d n low high);
    stops = λ l d.
        has_seq-other e r.oplog l d (clock r.clocks l d + 1)
          (λ of_device same. later (
            same
            ∙ ap (λ x. clock r.clocks x d + 1) (sym of_device.0)
            ∙ ap (λ x. clock r.clocks e.library_id x + 1) (sym of_device.1)))
          (c.stops l d);
    current = grown-IsCurrent before r e c s;
    untouched = λ k gone. c.untouched k (latest_row-tail e r.oplog k gone);
  }
