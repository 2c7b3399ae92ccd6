-- ===== src/Desktopcore/Replica/Rows.antt =====
-- internal/desktopcore/service_sync.go: the stored rows of a device.
use ben_desktop.Base.{
  ℕ, ◌≤◌, ◌<◌, ◌≡◌, ◌≢◌, ◌↔◌, refl, sym, ap, subst, ◌∙◌, ◌⊎◌, inl, inr, true, false, ◌&&◌, String,
  List, [], ◌∷◌, arith, leb, ◌==◌, str_eq_iff, str_eq_self, Bool-cases,
}
use ben_desktop.Desktopcore.Oplog.{OplogEntry, is_of}
use ben_desktop.Desktopcore.Oplog.Latest.{Stored, HasUniqueIds}
use ben_desktop.Desktopcore.Replica.{has_op, has_seq, insert_by_seq, rows_from}

-- The row is of this device of this library.
abbrev pub IsOf : String → String → OplogEntry → Type 0
IsOf library device x = (x.library_id ≡ library) × (x.device_id ≡ device)

pub is_of-IsOf :
    (library device : String) (x : OplogEntry)
    → (is_of library device x ≡ true) ↔ IsOf library device x
unfolding is_of
is_of-IsOf library device x = (
  (λ h. (
    (str_eq_iff x.library_id library).0 (ground arith),
    (str_eq_iff x.device_id device).0 (ground arith),
  )),
  (λ o.
      ground
        (arith, (str_eq_iff x.library_id library).1 o.0, (str_eq_iff x.device_id device).1 o.1)),
)

pub has_seq-Stored :
    (log : List OplogEntry) (library device : String) (seq : ℕ)
    → has_seq log library device seq ≡ true
    → (x : OplogEntry) × Stored x log × IsOf library device x × (x.seq ≡ seq)
unfolding has_seq
has_seq-Stored [] library device seq h = absurd (ground arith)
has_seq-Stored (e ∷ log) library device seq h =
    elim (Bool-cases (is_of library device e && e.seq == seq)) [
      | inl here ↦ (e, inl refl, (is_of-IsOf library device e).0 (ground arith), ground arith)
      | inr other ↦
          let ih = has_seq-Stored log library device seq (ground (arith, h, other)) in
          (ih.0, inr ih.1, ih.2, ih.3)
    ]

pub Stored-has_seq :
    (log : List OplogEntry) (library device : String) (x : OplogEntry)
    → Stored x log
    → IsOf library device x
    → has_seq log library device x.seq ≡ true
unfolding has_seq
Stored-has_seq [] library device x s o = elim s [ ]
Stored-has_seq (e ∷ log) library device x (inl same) o = ground (
  arith,
  ap (λ y. y.seq) same,
  subst (λ y. is_of library device y ≡ true) same ((is_of-IsOf library device x).1 o),
)
Stored-has_seq (e ∷ log) library device x (inr older) o =
    ground (arith, Stored-has_seq log library device x older o)

pub Stored-has_op :
    (log : List OplogEntry) (x : OplogEntry) → Stored x log → has_op log x.library_id x.op_id ≡ true
unfolding has_op
Stored-has_op [] x s = elim s [ ]
Stored-has_op (e ∷ log) x (inl same) =
    subst (λ y. has_op (e ∷ log) y.library_id y.op_id ≡ true) (sym same)
      (ground (arith, str_eq_self e.library_id, str_eq_self e.op_id))
Stored-has_op (e ∷ log) x (inr older) = ground (arith, Stored-has_op log x older)

Stored-insert :
    (e x : OplogEntry) (rows : List OplogEntry)
    → Stored x (insert_by_seq e rows)
    → (x ≡ e) ⊎ Stored x rows
unfolding insert_by_seq
Stored-insert e x [] s = s
Stored-insert e x (y ∷ rows) s = elim (Bool-cases (leb e.seq y.seq)) [
  | inl here ↦ rw here at s
  | inr later ↦
      let found : Stored x (y ∷ insert_by_seq e rows) = rw later at s in
      elim found [
        | inl same ↦ inr (inl same)
        | inr rest ↦ elim (Stored-insert e x rows rest) [
          | inl new ↦ inl new
          | inr old ↦ inr (inr old)
        ]
      ]
]

insert-Stored :
    (e x : OplogEntry) (rows : List OplogEntry)
    → (x ≡ e) ⊎ Stored x rows
    → Stored x (insert_by_seq e rows)
unfolding insert_by_seq
insert-Stored e x [] s = s
insert-Stored e x (y ∷ rows) s = elim (Bool-cases (leb e.seq y.seq)) [
  | inl here ↦ rw here s
  | inr later ↦ rw later (elim s [
    | inl new ↦ inr (insert-Stored e x rows (inl new))
    | inr (inl same) ↦ inl same
    | inr (inr old) ↦ inr (insert-Stored e x rows (inr old))
  ])
]

pub rows_from-Stored :
    (log : List OplogEntry) (library device : String) (seq : ℕ) (x : OplogEntry)
    → Stored x (rows_from log library device seq)
    → Stored x log × IsOf library device x × (seq ≤ x.seq)
unfolding rows_from
rows_from-Stored [] library device seq x s = elim s [ ]
rows_from-Stored (e ∷ log) library device seq x s =
    elim (Bool-cases (is_of library device e && leb seq e.seq)) [
      | inl fits ↦ elim (Stored-insert e x (rows_from log library device seq) (rw fits at s)) [
        | inl new ↦ (
          inl new,
          (is_of-IsOf library device x).0
              (subst (λ y. is_of library device y ≡ true) (sym new) (ground (arith, fits))),
          subst (λ y. seq ≤ y.seq) (sym new) (ground (arith, fits)),
        )
        | inr old ↦ let ih = rows_from-Stored log library device seq x old in (inr ih.0, ih.1, ih.2)
      ]
      | inr other ↦
          let ih = rows_from-Stored log library device seq x (rw other at s) in
          (inr ih.0, ih.1, ih.2)
    ]

pub Stored-rows_from :
    (log : List OplogEntry) (library device : String) (seq : ℕ) (x : OplogEntry)
    → Stored x log
    → IsOf library device x
    → seq ≤ x.seq
    → Stored x (rows_from log library device seq)
unfolding rows_from
Stored-rows_from [] library device seq x s o h = elim s [ ]
Stored-rows_from (e ∷ log) library device seq x s o h =
    elim (Bool-cases (is_of library device e && leb seq e.seq)) [
      | inl fits ↦ rw fits (
          insert-Stored e x (rows_from log library device seq) (elim s [
            | inl same ↦ inl same
            | inr older ↦ inr (Stored-rows_from log library device seq x older o h)
          ]))
      | inr other ↦ rw other (elim s [
        | inl same ↦ absurd (
            ground (
              arith,
              other,
              ap (λ y. y.seq) same,
              subst (λ y. is_of library device y ≡ true) same ((is_of-IsOf library device x).1 o),
            ))
        | inr older ↦ Stored-rows_from log library device seq x older o h
      ])
    ]

taken :
    (e x y : OplogEntry) (log : List OplogEntry)
    → x ≡ e
    → Stored y log
    → x.library_id ≡ y.library_id
    → x.device_id ≡ y.device_id
    → x.seq ≡ y.seq
    → has_seq log e.library_id e.device_id e.seq ≡ true
taken e x y log same s l d q =
    subst (λ z. has_seq log z.library_id z.device_id z.seq ≡ true) same
      (rw q (Stored-has_seq log x.library_id x.device_id y s (sym l, sym d)))

-- No two rows share the primary key or the unique index.
abbrev pub IsKeyed : List OplogEntry → Type 0
IsKeyed [] = Unit
IsKeyed (e ∷ log) =
    (has_op log e.library_id e.op_id ≡ false)
    × (has_seq log e.library_id e.device_id e.seq ≡ false)
    × IsKeyed log

pub IsKeyed-ids : (log : List OplogEntry) → IsKeyed log → HasUniqueIds log
IsKeyed-ids [] h x y s r l o = elim s [ ]
IsKeyed-ids (e ∷ log) h x y (inl s) (inl r) l o = s ∙ sym r
IsKeyed-ids (e ∷ log) h x y (inl s) (inr r) l o = absurd (
    ground (
      arith,
      h.0,
      subst (λ z. has_op log z.library_id z.op_id ≡ true) s (rw l (rw o (Stored-has_op log y r))),
    ))
IsKeyed-ids (e ∷ log) h x y (inr s) (inl r) l o = absurd (
    ground (
      arith,
      h.0,
      subst (λ z. has_op log z.library_id z.op_id ≡ true) r
          (rw (sym l) (rw (sym o) (Stored-has_op log x s))),
    ))
IsKeyed-ids (e ∷ log) h x y (inr s) (inr r) l o = IsKeyed-ids log h.2 x y s r l o

-- A place in the sequence of a device belongs to one row.
pub IsKeyed-seqs :
    (log : List OplogEntry) (library device : String) (x y : OplogEntry)
    → IsKeyed log
    → Stored x log
    → Stored y log
    → IsOf library device x
    → IsOf library device y
    → x.seq ≡ y.seq
    → x ≡ y
IsKeyed-seqs [] library device x y h s r o u q = elim s [ ]
IsKeyed-seqs (e ∷ log) library device x y h (inl s) (inl r) o u q = s ∙ sym r
IsKeyed-seqs (e ∷ log) library device x y h (inl s) (inr r) o u q =
    absurd (ground (arith, h.1, taken e x y log s r (o.0 ∙ sym u.0) (o.1 ∙ sym u.1) q))
IsKeyed-seqs (e ∷ log) library device x y h (inr s) (inl r) o u q =
    absurd (ground (arith, h.1, taken e y x log r s (u.0 ∙ sym o.0) (u.1 ∙ sym o.1) (sym q)))
IsKeyed-seqs (e ∷ log) library device x y h (inr s) (inr r) o u q =
    IsKeyed-seqs log library device x y h.2 s r o u q

-- The rows ascend strictly.
abbrev pub IsSorted : List OplogEntry → Type 0
IsSorted [] = Unit
IsSorted (x ∷ rows) = ((y : OplogEntry) → Stored y rows → x.seq < y.seq) × IsSorted rows

insert-IsSorted :
    (e : OplogEntry) (rows : List OplogEntry)
    → ((y : OplogEntry) → Stored y rows → e.seq ≢ y.seq)
    → IsSorted rows
    → IsSorted (insert_by_seq e rows)
unfolding insert_by_seq
insert-IsSorted e [] fresh h = ((λ y s. elim s [ ]), tt)
insert-IsSorted e (x ∷ rows) fresh h = elim (Bool-cases (leb e.seq x.seq)) [
  | inl here ↦ rw here (
    (λ y s. elim s [
      | inl same ↦ ground (arith, here, ap (λ z. z.seq) same, fresh x (inl refl))
      | inr rest ↦ ground (arith, here, h.0 y rest)
    ]),
    h,
  )
  | inr later ↦ rw later (
    (λ y s. elim (Stored-insert e y rows s) [
      | inl new ↦ ground (arith, later, ap (λ z. z.seq) new)
      | inr old ↦ h.0 y old
    ]),
    insert-IsSorted e rows (λ y s. fresh y (inr s)) h.1,
  )
]

pub rows_from-IsSorted :
    (log : List OplogEntry) (library device : String) (seq : ℕ)
    → IsKeyed log
    → IsSorted (rows_from log library device seq)
unfolding rows_from
rows_from-IsSorted [] library device seq h = tt
rows_from-IsSorted (e ∷ log) library device seq h =
    elim (Bool-cases (is_of library device e && leb seq e.seq)) [
      | inl fits ↦
          let o = (is_of-IsOf library device e).0 (ground (arith, fits)) in
          rw fits (
            insert-IsSorted e (rows_from log library device seq)
              (λ y s q.
                let there = rows_from-Stored log library device seq y s in
                absurd (
                  ground (
                    arith,
                    h.1,
                    taken e e y log refl there.0 (o.0 ∙ sym there.1.0) (o.1 ∙ sym there.1.1) q,
                  )))
              (rows_from-IsSorted log library device seq h.2))
      | inr other ↦ rw other (rows_from-IsSorted log library device seq h.2)
    ]
