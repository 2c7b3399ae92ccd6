-- ===== src/Desktopcore/Scans/Awake.antt =====
-- internal/desktopcore/scan_coordinator.go: while a request waits there is a worker that will take it.
use ben_desktop.Base.{
  ℕ, ◌≡◌, refl, sym, ap, subst, ◌∙◌, inl, inr, Bool, true, false, not, some, List, [], ◌∷◌, arith,
  if◌then◌else◌, Bool-cases, Option-cases,
}
use ben_desktop.Desktopcore.Scans.{
  ScanCoordinatorRequest, Worker, parked, looping, took, scanning, ScanCoordinator, keep_if, submit,
  fail_pending, take_round, next_round, go_on, filter_canceled, finish_batch, work_at, work,
  give_up, remove_request, cancel_request, Action, submits, gives_up, stops, works, perform,
}
use ben_desktop.Desktopcore.Scans.Times.{is_parked}

started_up : (w : Worker) → is_parked (if not (is_parked w) then w else looping) ≡ false
started_up parked = refl
started_up looping = refl
started_up (took batch) = refl
started_up (scanning batch) = refl

nothing_to_remove :
    (i : ℕ) (r : ScanCoordinatorRequest) (rest : List ScanCoordinatorRequest)
    → ¬ (remove_request i [] ≡ some (r, rest))
unfolding remove_request
nothing_to_remove i r rest h = absurd (ground arith)

-- The flag says whether there is a worker, and without one nothing waits.
pub record IsAwake (c : ScanCoordinator) : Type 0 where
  pub flagged : c.worker_running ≡ not (is_parked c.worker)
  pub served : is_parked c.worker ≡ true → c.pending ≡ []

take_round-IsAwake :
    (c : ScanCoordinator) (xs : List ScanCoordinatorRequest)
    → c.worker_running ≡ true
    → IsAwake (take_round c xs)
unfolding take_round
take_round-IsAwake c [] on = record { flagged = refl; served = λ h. refl }
take_round-IsAwake c (x ∷ xs) on = record { flagged = on; served = λ h. absurd (ground arith) }

pub submit-IsAwake :
    (r : ScanCoordinatorRequest) (c : ScanCoordinator) → IsAwake c → IsAwake (submit r c)
unfolding submit
submit-IsAwake r c a =
    let up : is_parked (if c.worker_running then c.worker else looping) ≡ false =
      rw a.flagged (started_up c.worker) in
    record { flagged = rw up refl; served = λ h. absurd (ground (arith, h, up)) }

next_round-IsAwake : (c : ScanCoordinator) → c.worker_running ≡ true → IsAwake (next_round c)
unfolding next_round fail_pending
next_round-IsAwake c up = elim (Bool-cases c.stopped) [
  | inl off ↦
      subst (λ b. IsAwake (if b then fail_pending c else take_round c c.pending)) (sym off)
        (record { flagged = refl; served = λ h. refl })
  | inr on ↦
      subst (λ b. IsAwake (if b then fail_pending c else take_round c c.pending)) (sym on)
        (take_round-IsAwake c c.pending up)
]

go_on-IsAwake :
    (c : ScanCoordinator) (batch gone active : List ScanCoordinatorRequest)
    → c.worker_running ≡ true
    → IsAwake (go_on c batch gone active)
unfolding go_on
go_on-IsAwake c batch gone [] on = record { flagged = on; served = λ h. absurd (ground arith) }
go_on-IsAwake c batch gone (r ∷ active) on = record {
  flagged = on;
  served = λ h. absurd (ground arith);
}

work_at-IsAwake :
    (canceled : ScanCoordinatorRequest → Bool) (c : ScanCoordinator) (w : Worker)
    → IsAwake c
    → c.worker_running ≡ not (is_parked w)
    → IsAwake (work_at canceled c w)
unfolding work_at filter_canceled finish_batch
work_at-IsAwake canceled c parked a on = a
work_at-IsAwake canceled c looping a on = next_round-IsAwake c on
work_at-IsAwake canceled c (took batch) a on =
    go_on-IsAwake c batch (keep_if canceled batch) (keep_if (λ r. not (canceled r)) batch) on
work_at-IsAwake canceled c (scanning batch) a on = record {
  flagged = on;
  served = λ h. absurd (ground arith);
}

pub give_up-IsAwake : (i : ℕ) (c : ScanCoordinator) → IsAwake c → IsAwake (cancel_request i c)
unfolding cancel_request give_up remove_request
give_up-IsAwake i c a = elim (Option-cases (remove_request i c.pending)) [
  | inl gone ↦ rw (gone, cancel_request) a
  | inr ((r, rest), found) ↦
      rw (found, cancel_request)
        (record {
          flagged = a.flagged;
          served = λ h.
              absurd
                (nothing_to_remove i r rest (ap (remove_request i) (sym (a.served h)) ∙ found));
        })
]

pub perform-IsAwake : (a : Action) (c : ScanCoordinator) → IsAwake c → IsAwake (perform a c)
unfolding perform work
perform-IsAwake (submits r) c w = submit-IsAwake r c w
perform-IsAwake (gives_up i) c w = give_up-IsAwake i c w
perform-IsAwake stops c w = record { flagged = w.flagged; served = w.served }
perform-IsAwake (works canceled) c w = work_at-IsAwake canceled c c.worker w w.flagged
