-- ===== src/Desktopcore/Batches/Fair.antt =====
-- internal/desktopcore/service_sync.go: the operations of a batch are drawn from the devices in turn.
use ben_desktop.Base.{
  ℕ, zero, suc, ◌+◌, ◌≤◌, ◌<◌, ◌≡◌, refl, sym, ◌∙◌, ◌⊎◌, inl, inr, Bool, true, String, List, [],
  ◌∷◌, length, ltb→lt, ltb, arith, trim_space, All, Bool-cases,
}
use ben_desktop.Desktopcore.Oplog.{OplogEntry, CheckpointOplogEntry, DeviceClock}
use ben_desktop.Desktopcore.Batches.{
  DeviceBacklog, draw_round, draw_rounds, insert_entry, sort_checkpoint_entries, device_backlogs,
  batch_limit, select_sync_batch, list_device_clocks, sync_batch,
}
use ben_desktop.Desktopcore.Batches.Round.{
  counted, drawn, IsDrawn, IsExhausted, entries_of, widen, draw_round-IsRound,
}

-- The operations that have been drawn from backlogs: each from in front of a cursor, no device ahead of
-- another by more than one, unless that one has no more; and no more than the limit, nor fewer while a device has more.
pub record IsFair (limit : ℕ) (backlogs : List DeviceBacklog) (ops : List CheckpointOplogEntry)
    : Type 0 where
  pub final : List DeviceBacklog
  pub entries : entries_of final ≡ entries_of backlogs
  pub kept : (test : CheckpointOplogEntry → Bool) → counted test ops ≡ drawn test final
  pub bounded : length ops ≤ limit
  pub rounds : ℕ
  pub fair : All (IsDrawn rounds (suc rounds)) final
  pub full : (limit ≤ length ops) ⊎ All IsExhausted final

record IsDrawing (limit : ℕ) (backlogs : List DeviceBacklog) (ops : List CheckpointOplogEntry)
    (now : List DeviceBacklog) : Type 0 where
  entries : entries_of now ≡ entries_of backlogs
  kept : (test : CheckpointOplogEntry → Bool) → counted test ops ≡ drawn test now
  bounded : length ops ≤ limit
  rounds : ℕ
  fair : All (IsDrawn rounds (suc rounds)) now
  even : length ops < limit → (n : ℕ) × All (IsDrawn n n) now

draw_round-IsDrawing :
    (limit : ℕ) (backlogs : List DeviceBacklog) (ops : List CheckpointOplogEntry)
    (now : List DeviceBacklog)
    → length ops < limit
    → IsDrawing limit backlogs ops now
    → IsDrawing limit backlogs (draw_round limit ops now).ops (draw_round limit ops now).backlogs
draw_round-IsDrawing limit backlogs ops now room w =
    let (n, even) = w.even room in
    let r = draw_round-IsRound n limit ops now even in
    record {
      entries = r.entries ∙ w.entries;
      kept = λ test. omega (arith, r.kept test, w.kept test);
      bounded = r.bounded w.bounded;
      rounds = n;
      fair = r.fair;
      even = λ h. (suc n, r.even h);
    }

draw_rounds-IsDrawing :
    (fuel limit : ℕ) (backlogs : List DeviceBacklog) (ops : List CheckpointOplogEntry)
    (now : List DeviceBacklog)
    → IsDrawing limit backlogs ops now
    → IsDrawing limit backlogs
        (draw_rounds fuel limit ops now).ops
        (draw_rounds fuel limit ops now).backlogs
unfolding draw_rounds
draw_rounds-IsDrawing zero limit backlogs ops now w = w
draw_rounds-IsDrawing (suc fuel) limit backlogs ops now w =
    elim (Bool-cases (ltb (length ops) limit)) [
      | inr full ↦ rw full w
      | inl room ↦
          let next = draw_round-IsDrawing limit backlogs ops now (ground (arith, room)) w in
          elim (Bool-cases (draw_round limit ops now).progress) [
            | inl more ↦
                rw (room, more)
                  (draw_rounds-IsDrawing fuel limit backlogs (draw_round limit ops now).ops
                    (draw_round limit ops now).backlogs next)
            | inr stop ↦ rw (room, stop) next
          ]
    ]

-- With rounds for all the room that is left, the batch is full or no backlog has operations left.
draw_rounds-full :
    (fuel limit : ℕ) (backlogs : List DeviceBacklog) (ops : List CheckpointOplogEntry)
    (now : List DeviceBacklog)
    → limit ≤ length ops + fuel
    → IsDrawing limit backlogs ops now
    → (limit ≤ length (draw_rounds fuel limit ops now).ops)
      ⊎ All IsExhausted (draw_rounds fuel limit ops now).backlogs
unfolding draw_rounds
draw_rounds-full zero limit backlogs ops now enough w = inl (omega arith)
draw_rounds-full (suc fuel) limit backlogs ops now enough w =
    elim (Bool-cases (ltb (length ops) limit)) [
      | inr full ↦ rw full (inl (ground (arith, full)))
      | inl room ↦
          let lt = ltb→lt (length ops) limit room in
          let (n, even) = w.even lt in
          let r = draw_round-IsRound n limit ops now even in
          let next = draw_round-IsDrawing limit backlogs ops now lt w in
          elim (Bool-cases (draw_round limit ops now).progress) [
            | inl more ↦
                rw (room, more)
                  (draw_rounds-full fuel limit backlogs (draw_round limit ops now).ops
                    (draw_round limit ops now).backlogs (ground (arith, r.grown, more)) next)
            | inr stop ↦
                rw (room, stop)
                  (elim (Bool-cases (ltb (length (draw_round limit ops now).ops) limit)) [
                    | inl left ↦ inr (r.ended stop (ground (arith, left)))
                    | inr none_left ↦ inl (ground (arith, none_left))
                  ])
          ]
    ]

counted-insert_entry :
    (test : CheckpointOplogEntry → Bool) (e : CheckpointOplogEntry)
    (entries : List CheckpointOplogEntry)
    → counted test (insert_entry e entries) ≡ counted test (e ∷ entries)
unfolding counted insert_entry
counted-insert_entry test e [] = refl
counted-insert_entry test e (x ∷ entries) = ground (arith, counted-insert_entry test e entries)

counted-sort :
    (test : CheckpointOplogEntry → Bool) (entries : List CheckpointOplogEntry)
    → counted test (sort_checkpoint_entries entries) ≡ counted test entries
unfolding counted sort_checkpoint_entries
counted-sort test [] = refl
counted-sort test (e ∷ entries) = omega (
  arith,
  counted-insert_entry test e (sort_checkpoint_entries entries),
  counted-sort test entries,
)

counted-all : (entries : List CheckpointOplogEntry) → counted (λ e. true) entries ≡ length entries
unfolding counted
counted-all [] = refl
counted-all (e ∷ entries) = omega (arith, counted-all entries)

length-sort :
    (entries : List CheckpointOplogEntry)
    → length (sort_checkpoint_entries entries) ≡ length entries
length-sort entries = omega (
  arith,
  counted-all entries,
  counted-all (sort_checkpoint_entries entries),
  counted-sort (λ e. true) entries,
)

device_backlogs-IsDrawn :
    (to_lower : String → String) (log : List OplogEntry) (library : String) (limit : ℕ)
    (peer : String → ℕ) (clocks : List DeviceClock)
    → All (IsDrawn 0 0) (device_backlogs to_lower log library limit peer clocks)
      × ((test : CheckpointOplogEntry → Bool)
          → drawn test (device_backlogs to_lower log library limit peer clocks) ≡ 0)
unfolding device_backlogs drawn counted
device_backlogs-IsDrawn to_lower log library limit peer [] = (tt, λ test. refl)
device_backlogs-IsDrawn to_lower log library limit peer (c ∷ clocks) =
    let rest = device_backlogs-IsDrawn to_lower log library limit peer clocks in
    elim (Bool-cases (ltb (peer (trim_space c.device_id)) c.last_seq_seen)) [
      | inl behind ↦ rw behind (
        ((omega arith, omega arith, inl (omega arith)), rest.0),
        λ test. omega (arith, rest.1 test),
      )
      | inr level ↦ rw level rest
    ]

draw_rounds-IsFair :
    (limit : ℕ) (backlogs : List DeviceBacklog)
    → All (IsDrawn 0 0) backlogs
    → ((test : CheckpointOplogEntry → Bool) → drawn test backlogs ≡ 0)
    → IsFair limit backlogs (sort_checkpoint_entries (draw_rounds limit limit [] backlogs).ops)
unfolding counted
draw_rounds-IsFair limit backlogs w none_drawn =
    let start : IsDrawing limit backlogs [] backlogs = record {
      entries = refl;
      kept = λ test. sym (none_drawn test);
      bounded = omega arith;
      rounds = 0;
      fair = widen 0 backlogs w;
      even = λ h. (0, w);
    } in
    let r = draw_rounds-IsDrawing limit limit backlogs [] backlogs start in
    let same = length-sort (draw_rounds limit limit [] backlogs).ops in
    record {
      final = (draw_rounds limit limit [] backlogs).backlogs;
      entries = r.entries;
      kept = λ test. counted-sort test (draw_rounds limit limit [] backlogs).ops ∙ r.kept test;
      bounded = omega (arith, r.bounded, same);
      rounds = r.rounds;
      fair = r.fair;
      full = elim (draw_rounds-full limit limit backlogs [] backlogs (omega arith) start) [
        | inl reached ↦ inl (omega (arith, reached, same))
        | inr ended ↦ inr ended
      ];
    }

-- The operations of a batch are drawn from the backlogs of the devices, each backlog from its start and in
-- its order, no device ahead of another by more than one operation unless that one has no more; and the
-- batch is as large as its limit, or nothing is left in the backlogs.
pub select_sync_batch-IsFair :
    (to_lower : String → String) (log : List OplogEntry) (clocks : List DeviceClock)
    (library : String) (peer : String → ℕ) (limit : ℕ)
    → IsFair
        (batch_limit limit)
        (device_backlogs to_lower log library
          (batch_limit limit)
          peer
          (list_device_clocks clocks library))
        (select_sync_batch to_lower log clocks library peer limit).ops
unfolding select_sync_batch sync_batch
select_sync_batch-IsFair to_lower log clocks library peer limit =
    let n = batch_limit limit in
    let listed = list_device_clocks clocks library in
    let new = device_backlogs-IsDrawn to_lower log library n peer listed in
    draw_rounds-IsFair n (device_backlogs to_lower log library n peer listed) new.0 new.1
