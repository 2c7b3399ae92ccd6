-- ===== src/Desktopcore/Replica/Buffered.antt =====
-- internal/desktopcore/service_sync.go: the buffered operations of a device are applied in their order, up to
-- the first gap.
use ben_desktop.Base.{
  ℕ, ◌+◌, ◌≤◌, ◌<◌, ◌≡◌, ◌≢◌, refl, sym, ap, subst, ◌∙◌, ◌⊎◌, inl, inr, true, false, ◌&&◌, String,
  none, some, List, [], ◌∷◌, arith, ◌==◌, str_eq, str_eq_iff, Bool-cases,
}
use ben_desktop.Desktopcore.Oplog.{
  OplogEntry, Entity, is_about, latest_row, should_apply_latest_mutation,
}
use ben_desktop.Desktopcore.Oplog.Latest.{Stored, latest_row-Stored, latest_row-found}
use ben_desktop.Desktopcore.Oplog.Gate.{IsTrimmed, latest_passes, passes_latest}
use ben_desktop.Desktopcore.Replica.{Engine, Result, ok, Result-cases, ok-inj, has_seq, apply_rows}
use ben_desktop.Desktopcore.Replica.Register.{Register}
use ben_desktop.Desktopcore.Replica.Clocks.{raised}
use ben_desktop.Desktopcore.Replica.Rows.{
  IsOf, IsKeyed, IsKeyed-ids, IsKeyed-seqs, IsSorted, has_seq-Stored, Stored-has_seq,
}

-- A row whose turn has come.
abbrev pub IsApplied : (String → String → ℕ) → OplogEntry → Type 0
IsApplied c m = (1 ≤ m.seq) × (m.seq ≤ c m.library_id m.device_id)

-- Whether a row is the next of a device, or had its turn before.
turn-cases :
    (c : String → String → ℕ) (library device : String) (until : ℕ) (m : OplogEntry)
    → IsApplied (raised c library device (until + 1)) m
    → (IsOf library device m × (m.seq ≡ until + 1)) ⊎ IsApplied (raised c library device until) m
turn-cases c library device until m h =
    elim (Bool-cases (str_eq library m.library_id && str_eq device m.device_id)) [
      | inl here ↦ elim (Bool-cases (m.seq == until + 1)) [
        | inl now ↦ inl (
          (
            sym ((str_eq_iff library m.library_id).0 (ground (arith, here))),
            sym ((str_eq_iff device m.device_id).0 (ground (arith, here))),
          ),
          ground (arith, now),
        )
        | inr before ↦ inr (rw here (h.0, ground (arith, before, h.1, here)))
      ]
      | inr other ↦ inr (rw other (rw other at h))
    ]

module _ {T : Type 0} (E : Engine T) (R : Register E) where
  open R use {read, value, IsLawful, read-apply}

  -- Each entity holds what its latest operation wrote, if that one had its turn.
  abbrev pub IsCurrent : List OplogEntry → (String → String → ℕ) → T → Type 0
  IsCurrent log c t =
      (k : Entity) (m : OplogEntry) → latest_row log k ≡ some m → IsApplied c m → read t k ≡ value m

  -- An entity without an operation is as it was.
  abbrev pub IsUntouched : List OplogEntry → T → T → Type 0
  IsUntouched log before t = (k : Entity) → latest_row log k ≡ none → read t k ≡ read before k

  row-IsCurrent :
      (log : List OplogEntry) (c : String → String → ℕ) (library device : String) (until : ℕ)
      (row : OplogEntry) (t u : T)
      → IsKeyed log
      → IsTrimmed log
      → IsLawful row
      → Stored row log
      → IsOf library device row
      → row.seq ≡ until + 1
      → E.apply_oplog_entry log row t ≡ ok u
      → IsCurrent log (raised c library device until) t
      → IsCurrent log (raised c library device (until + 1)) u
  row-IsCurrent log c library device until row t u keyed trimmed lawful s o q done cur k m h a =
      let stored = latest_row-Stored log k m h in
      let law = read-apply log row t u k lawful done in
      let gate = should_apply_latest_mutation log row && is_about k row in
      elim (turn-cases c library device until m a) [
        | inl (of_device, now) ↦
            let same =
              IsKeyed-seqs log library device row m keyed s stored.0 o of_device (q ∙ sym now) in
            let open_gate : gate ≡ true =
              subst (λ x. (should_apply_latest_mutation log x && is_about k x) ≡ true) (sym same)
                (rw (latest_passes log k m h) stored.1) in
            law ∙ rw open_gate (ap value same)
        | inr before ↦ elim (Bool-cases gate) [
          | inl pass ↦
              let same =
                passes_latest log k m row (IsKeyed-ids log keyed) trimmed h s (ground (arith, pass))
                  (ground (arith, pass)) in
              law ∙ rw pass (ap value same)
          | inr stop ↦ law ∙ rw stop (cur k m h before)
        ]
      ]

  row-IsUntouched :
      (log : List OplogEntry) (row : OplogEntry) (before t u : T)
      → IsLawful row
      → Stored row log
      → E.apply_oplog_entry log row t ≡ ok u
      → IsUntouched log before t
      → IsUntouched log before u
  row-IsUntouched log row before t u lawful s done same k none_there =
      elim (Bool-cases (is_about k row)) [
        | inl about ↦ absurd (latest_row-found log k row s about none_there)
        | inr other ↦
            read-apply log row t u k lawful done
            ∙ let stop : (should_apply_latest_mutation log row && is_about k row) ≡ false =
                ground (arith, other) in
              rw stop (same k none_there)
      ]

  -- What the loop over the rows of a device has done when it stops at `until`.
  pub record CatchUp (log : List OplogEntry) (c : String → String → ℕ) (library device : String)
      (before : T) (from until : ℕ) (t : T) : Type 0 where
    pub reached : from ≤ until
    pub filled : (s : ℕ) → from < s → s ≤ until → has_seq log library device s ≡ true
    pub stops : has_seq log library device (until + 1) ≡ false
    pub current : IsCurrent log (raised c library device until) t
    pub untouched : IsUntouched log before t

  abbrev HasNoRow : List OplogEntry → String → String → ℕ → Type 0
  HasNoRow log library device s =
      (x : OplogEntry) → Stored x log → IsOf library device x → x.seq ≢ s

  no_row :
      (log : List OplogEntry) (library device : String) (s : ℕ)
      → HasNoRow log library device s
      → has_seq log library device s ≡ false
  no_row log library device s h = elim (Bool-cases (has_seq log library device s)) [
    | inl there ↦ let x = has_seq-Stored log library device s there in absurd (h x.0 x.1 x.2 x.3)
    | inr missing ↦ missing
  ]

  stopped :
      (log : List OplogEntry) (c : String → String → ℕ) (library device : String) (before : T)
      (until last : ℕ) (t u : T)
      → HasNoRow log library device (until + 1)
      → IsCurrent log (raised c library device until) t
      → IsUntouched log before t
      → ◌≡◌ {A = Result (ℕ × T)} (ok (until, t)) (ok (last, u))
      → CatchUp log c library device before until last u
  stopped log c library device before until last t u none_next cur same h =
      let is = ok-inj h in
      subst (λ (p : ℕ × T). CatchUp log c library device before until p.0 p.1) is
        (record {
          reached = omega arith;
          filled = λ s low high. absurd (omega arith);
          stops = no_row log library device (until + 1) none_next;
          current = cur;
          untouched = same;
        })

  one_more :
      (log : List OplogEntry) (c : String → String → ℕ) (library device : String) (before : T)
      (row : OplogEntry) (until last : ℕ) (u : T)
      → Stored row log
      → IsOf library device row
      → row.seq ≡ until + 1
      → CatchUp log c library device before (until + 1) last u
      → CatchUp log c library device before until last u
  one_more log c library device before row until last u s o q r = record {
    reached = omega (arith, r.reached);
    filled = λ n low high. elim (Bool-cases (n == until + 1)) [
      | inl now ↦
          let e : row.seq ≡ n = ground (arith, now, q) in
          subst (λ m. has_seq log library device m ≡ true) e
            (Stored-has_seq log library device row s o)
      | inr later ↦ r.filled n (ground (arith, later)) high
    ];
    stops = r.stops;
    current = r.current;
    untouched = r.untouched;
  }

  pub apply_rows-CatchUp :
      (log : List OplogEntry) (c : String → String → ℕ) (library device : String) (before : T)
      → IsKeyed log
      → IsTrimmed log
      → ((x : OplogEntry) → Stored x log → IsLawful x)
      → (rows : List OplogEntry) (until last : ℕ) (t u : T) → IsSorted rows
      → ((x : OplogEntry) → Stored x rows → Stored x log × IsOf library device x × (until < x.seq))
      → ((x : OplogEntry) → Stored x log → IsOf library device x → until < x.seq → Stored x rows)
      → IsCurrent log (raised c library device until) t
      → IsUntouched log before t
      → apply_rows E log rows until t ≡ ok (last, u)
      → CatchUp log c library device before until last u
  unfolding apply_rows
  apply_rows-CatchUp log c library device before keyed trimmed lawful [] until last t u sorted sound
        complete cur same h =
      stopped log c library device before until last t u
        (λ x s o e. elim (complete x s o (omega arith)) [ ]) cur same h
  apply_rows-CatchUp log c library device before keyed trimmed lawful (row ∷ rest) until last t u
        sorted sound complete cur same h =
      elim (Bool-cases (row.seq == until + 1)) [
        | inl next ↦
            let at_row = sound row (inl refl) in
            let q : row.seq ≡ until + 1 = ground (arith, next) in
            elim (Result-cases (E.apply_oplog_entry log row t)) [
              | inl (v, done) ↦
                  one_more log c library device before row until last u at_row.0 at_row.1 q (
                    apply_rows-CatchUp log c library device before keyed trimmed lawful rest
                      (until + 1) last v u sorted.1
                      (λ x s.
                        let there = sound x (inr s) in
                        (there.0, there.1, omega (arith, q, sorted.0 x s)))
                      (λ x s o high. elim (complete x s o (omega arith)) [
                        | inl now ↦ absurd (omega (arith, q, ap (λ y. y.seq) now))
                        | inr older ↦ older
                      ])
                      (row-IsCurrent log c library device until row t v keyed trimmed
                        (lawful row at_row.0) at_row.0 at_row.1 q done cur)
                      (row-IsUntouched log row before t v (lawful row at_row.0) at_row.0 done same)
                      (subst (λ n. apply_rows E log rest n v ≡ ok (last, u)) q
                        (rw (next, done) at h)))
              | inr (message, failed) ↦ absurd (ground (arith, rw (next, failed) at h))
            ]
        | inr gap ↦
            stopped log c library device before until last t u
              (λ x s o e. elim (complete x s o (omega arith)) [
                | inl now ↦ absurd (ground (arith, gap, e, ap (λ y. y.seq) now))
                | inr older ↦
                    absurd (ground (arith, gap, e, (sound row (inl refl)).2, sorted.0 x older))
              ])
              cur same (rw gap at h)
      ]
