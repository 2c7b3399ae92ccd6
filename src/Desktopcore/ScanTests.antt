-- ===== src/Desktopcore/ScanTests.antt =====
-- Runs of the scan coordinator, and the theorems on it at concrete inputs.
use ben_desktop.Base.{
  ℕ, ◌+◌, ◌≡◌, ◌⊎◌, refl, Bool, true, false, not, List, [], ◌∷◌, All, map, arith,
}
use ben_desktop.Desktopcore.Scans.{
  ScanRequestClass, ScanCoordinatorRequest, Action, submits, gives_up, works, is_repair, keep_if,
  take_next_batch, join_roots, startup_key, startup_keys, has_key, without_keys, submit, waits_for,
  is_queued_startup, fail_pending, take_round, next_round, go_on, filter_canceled, finish_batch,
  work_at, work, remove_request, give_up, cancel_request, perform, perform_all,
  new_scan_coordinator,
}
use ben_desktop.Desktopcore.Scans.Times.{is_parked, times, known, submitted}
use ben_desktop.Desktopcore.Scans.Awake.{IsAwake}
use ben_desktop.Desktopcore.Scans.Order.{perform_all_conserves}
use ben_desktop.Desktopcore.Scans.Work.{work_all, worker_comes_to_rest, take_next_batch_lem}

abbrev startup_request : ℕ → ScanCoordinatorRequest
startup_request id = record { id = id; class = ScanRequestClass.startup; full_roots = "/m" ∷ [] }

abbrev repair_request : ℕ → ScanCoordinatorRequest
repair_request id = record { id = id; class = ScanRequestClass.repair; full_roots = [] }

abbrev nobody : ScanCoordinatorRequest → Bool
nobody r = false

abbrev history : List Action
history =
    submits (startup_request 1)
    ∷ works nobody
    ∷ submits (repair_request 2)
    ∷ gives_up 2
    ∷ submits (repair_request 3)
    ∷ []

program : Unit {0}
unfolding keep_if take_next_batch join_roots startup_key startup_keys has_key without_keys submit
    waits_for is_queued_startup fail_pending take_round next_round go_on filter_canceled
    finish_batch work_at work remove_request give_up cancel_request perform perform_all times known
    submitted work_all
program = tt

-- Two callers that test before either has submitted are both let through, and the scan is queued twice.
queued_twice :
    (is_queued_startup new_scan_coordinator "/m" ≡ false)
    × (map
          (λ r. startup_key r)
          (perform_all
            (submits (startup_request 1) ∷ submits (startup_request 2) ∷ [])
            new_scan_coordinator).pending
        ≡ "/m" ∷ "/m" ∷ [])
unfolding program
queued_twice = (refl, refl)

perform_all_conserves_example :
    ((id : ℕ) → known id (perform_all history new_scan_coordinator) ≡ submitted id history)
    × IsAwake (perform_all history new_scan_coordinator)
perform_all_conserves_example = perform_all_conserves history

worker_comes_to_rest_example :
    let schedule = nobody ∷ nobody ∷ nobody ∷ nobody ∷ nobody ∷ nobody ∷ [] in
    let rest = work_all schedule (perform_all history new_scan_coordinator) in
    (is_parked rest.worker ≡ true)
    × (rest.pending ≡ [])
    × ((id : ℕ) → times id rest.finished ≡ submitted id history)
unfolding program
worker_comes_to_rest_example =
    worker_comes_to_rest history (nobody ∷ nobody ∷ nobody ∷ nobody ∷ nobody ∷ nobody ∷ [])
      (omega arith)

take_next_batch_lem_example :
    ((is_repair (startup_request 1) ≡ true)
      × (take_next_batch (startup_request 1 ∷ repair_request 2 ∷ [])
          ≡ (startup_request 1 ∷ [], repair_request 2 ∷ [])))
    ⊎ ((is_repair (startup_request 1) ≡ false)
        × All
            (λ r. not (is_repair r) ≡ true)
            (take_next_batch (startup_request 1 ∷ repair_request 2 ∷ [])).0
        × All
            (λ r. is_repair r ≡ true)
            (take_next_batch (startup_request 1 ∷ repair_request 2 ∷ [])).1
        × ((id : ℕ)
            → times id (take_next_batch (startup_request 1 ∷ repair_request 2 ∷ [])).0
                + times id (take_next_batch (startup_request 1 ∷ repair_request 2 ∷ [])).1
              ≡ times id (startup_request 1 ∷ repair_request 2 ∷ [])))
take_next_batch_lem_example = take_next_batch_lem (startup_request 1) (repair_request 2 ∷ [])
