-- ===== src/Desktopcore/Batches/Round.antt =====
-- internal/desktopcore/service_sync.go: one round, in which each backlog gives one operation.
use ben_desktop.Base.{
  ℕ, zero, suc, ◌+◌, ◌≤◌, ◌<◌, ◌≡◌, refl, ap, ◌⊎◌, inl, inr, Bool, false, none, some, List, [], ◌∷◌,
  ◌++◌, length, take, get_elem?, get_elem?-lt, length-append, leb, if◌then◌else◌, arith, All,
  Bool-cases, Option-cases,
}
use ben_desktop.Desktopcore.Oplog.{CheckpointOplogEntry}
use ben_desktop.Desktopcore.Batches.{DeviceBacklog, Draw, next_entry, draw_round}

-- How many operations of a list pass a test.
unfoldable pub counted : (CheckpointOplogEntry → Bool) → List CheckpointOplogEntry → ℕ
counted test [] = 0
counted test (e ∷ entries) = (if test e then 1 else 0) + counted test entries

-- How many operations in front of the cursors pass a test.
unfoldable pub drawn : (CheckpointOplogEntry → Bool) → List DeviceBacklog → ℕ
unfolding counted
drawn test [] = 0
drawn test (b ∷ rest) = counted test (take b.next_cursor b.entries) + drawn test rest

-- The cursor lies between the two bounds, or at the end of the backlog if this comes first.
abbrev pub IsDrawn : ℕ → ℕ → DeviceBacklog → Type 0
IsDrawn low high b =
    (b.next_cursor ≤ length b.entries)
    × (b.next_cursor ≤ high)
    × ((low ≤ b.next_cursor) ⊎ (length b.entries ≤ b.next_cursor))

abbrev pub IsExhausted : DeviceBacklog → Type 0
IsExhausted b = length b.entries ≤ b.next_cursor

abbrev pub entries_of : List DeviceBacklog → List (List CheckpointOplogEntry)
entries_of [] = []
entries_of (b ∷ rest) = b.entries ∷ entries_of rest

counted-append :
    (test : CheckpointOplogEntry → Bool) (xs ys : List CheckpointOplogEntry)
    → counted test (xs ++ ys) ≡ counted test xs + counted test ys
unfolding counted
counted-append test [] ys = omega arith
counted-append test (x ∷ xs) ys = omega (arith, counted-append test xs ys)

counted-take_next :
    (test : CheckpointOplogEntry → Bool) (xs : List CheckpointOplogEntry) (i : ℕ)
    {e : CheckpointOplogEntry}
    → get_elem? xs i ≡ some e
    → counted test (take (suc i) xs) ≡ counted test (take i xs) + counted test (e ∷ [])
unfolding counted
counted-take_next test [] i h = cc
counted-take_next test (x ∷ xs) zero h = ground arith
counted-take_next test (x ∷ xs) (suc i) h = omega (arith, counted-take_next test xs i h)

get_elem?-none-le : (xs : List CheckpointOplogEntry) (i : ℕ) → get_elem? xs i ≡ none → length xs ≤ i
get_elem?-none-le [] i h = omega arith
get_elem?-none-le (x ∷ xs) zero h = cc
get_elem?-none-le (x ∷ xs) (suc i) h = omega (arith, get_elem?-none-le xs i h)

-- One round, in which each backlog that has not reached its end gives an operation until the batch is full.
pub record IsRound (n limit : ℕ) (ops : List CheckpointOplogEntry) (backlogs : List DeviceBacklog)
    (d : Draw) : Type 0 where
  pub entries : entries_of d.backlogs ≡ entries_of backlogs
  pub kept :
      (test : CheckpointOplogEntry → Bool)
      → counted test d.ops + drawn test backlogs ≡ counted test ops + drawn test d.backlogs
  pub bounded : length ops ≤ limit → length d.ops ≤ limit
  pub grown : length ops + (if d.progress then 1 else 0) ≤ length d.ops
  pub fair : All (IsDrawn n (suc n)) d.backlogs
  pub even : length d.ops < limit → All (IsDrawn (suc n) (suc n)) d.backlogs
  pub ended : d.progress ≡ false → length d.ops < limit → All IsExhausted d.backlogs

pub widen :
    (n : ℕ) (backlogs : List DeviceBacklog)
    → All (IsDrawn n n) backlogs
    → All (IsDrawn n (suc n)) backlogs
widen n [] w = tt
widen n (b ∷ rest) (w, ws) = ((w.0, omega (arith, w.1), w.2), widen n rest ws)

low_end : {n i m : ℕ} → (n ≤ i) ⊎ (m ≤ i) → i < m → n ≤ i
low_end (inl h) before = h
low_end (inr h) before = absurd (omega arith)

pub draw_round-IsRound :
    (n limit : ℕ) (ops : List CheckpointOplogEntry) (backlogs : List DeviceBacklog)
    → All (IsDrawn n n) backlogs
    → IsRound n limit ops backlogs (draw_round limit ops backlogs)
unfolding draw_round drawn
draw_round-IsRound n limit ops [] w = record {
  entries = refl;
  kept = λ test. refl;
  bounded = λ h. h;
  grown = omega arith;
  fair = tt;
  even = λ h. tt;
  ended = λ p h. tt;
}
draw_round-IsRound n limit ops (b ∷ rest) (w, ws) = elim (Bool-cases (leb limit (length ops))) [
  | inl full ↦ rw full (record {
    entries = refl;
    kept = λ test. refl;
    bounded = λ h. h;
    grown = omega arith;
    fair = widen n (b ∷ rest) (w, ws);
    even = λ h. absurd (ground (arith, full));
    ended = λ p h. absurd (ground (arith, full));
  })
  | inr room ↦ elim (Option-cases (next_entry b)) [
    | inl out ↦
        let end = get_elem?-none-le b.entries b.next_cursor out in
        let r = draw_round-IsRound n limit ops rest ws in
        rw (room, out)
          (record {
            entries = ap (λ es. b.entries ∷ es) r.entries;
            kept = λ test. omega (arith, r.kept test);
            bounded = r.bounded;
            grown = r.grown;
            fair = ((w.0, omega (arith, w.1), inr end), r.fair);
            even = λ h. ((w.0, omega (arith, w.1), inr end), r.even h);
            ended = λ p h. (end, r.ended p h);
          })
    | inr (e, here) ↦
        let before = get_elem?-lt b.entries b.next_cursor here in
        let low = low_end w.2 before in
        let r = draw_round-IsRound n limit (ops ++ (e ∷ [])) rest ws in
        let one = length-append ops (e ∷ []) in
        rw (room, here)
          (record {
            entries = ap (λ es. b.entries ∷ es) r.entries;
            kept = λ test. omega (
              arith,
              r.kept test,
              counted-take_next test b.entries b.next_cursor here,
              counted-append test ops (e ∷ []),
            );
            bounded = λ h. r.bounded (ground (arith, one, room));
            grown = ground (arith, r.grown, one);
            fair = ((omega (arith, before), omega (arith, w.1), inl (omega (arith, low))), r.fair);
            even = λ h.
                ((omega (arith, before), omega (arith, w.1), inl (omega (arith, low))), r.even h);
            ended = λ p h. absurd (ground (arith, p));
          })
  ]
]
