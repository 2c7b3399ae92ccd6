-- ===== src/Desktopcore/Scans/Order.antt =====
-- internal/desktopcore/scan_coordinator.go: no request is lost, and none is finished twice.
use ben_desktop.Base.{
  ℕ, ◌+◌, ◌≡◌, refl, ap, ◌∙◌, inl, inr, Bool, true, false, not, none, some, List, [], ◌∷◌, ◌++◌,
  arith, ◌==◌, if◌then◌else◌, Bool-cases, Option-cases,
}
use ben_desktop.Desktopcore.Scans.{
  ScanCoordinatorRequest, Worker, parked, looping, took, scanning, ScanCoordinator, keep_if, submit,
  fail_pending, take_round, next_round, go_on, filter_canceled, finish_batch, work_at, work,
  give_up, remove_request, cancel_request, Action, submits, gives_up, stops, works, perform,
  perform_all, new_scan_coordinator,
}
use ben_desktop.Desktopcore.Scans.Times.{
  times, is_parked, held, known, submitted, times-append, times-keep_if, times_none, last_one,
  held-started, times-take_next_batch, times-remove_request,
}
use ben_desktop.Desktopcore.Scans.Awake.{IsAwake, submit-IsAwake, give_up-IsAwake, perform-IsAwake}

known-submit :
    (id : ℕ) (r : ScanCoordinatorRequest) (c : ScanCoordinator)
    → c.worker_running ≡ not (is_parked c.worker)
    → known id (submit r c) ≡ (if r.id == id then 1 else 0) + known id c
unfolding known submit
known-submit id r c awake =
    let ends : times id (c.pending ++ (r ∷ []))
        ≡ times id c.pending + (if r.id == id then 1 else 0) =
      times-append id c.pending (r ∷ []) ∙ last_one id r (times id c.pending) in
    let keeps : held (if c.worker_running then c.worker else looping) ≡ held c.worker =
      rw awake (held-started c.worker) in
    omega (arith, ends, ap (times id) keeps)

-- The parts of the count, where the worker holds nothing.
known-take_round :
    (id : ℕ) (c : ScanCoordinator) (xs : List ScanCoordinatorRequest)
    → known id (take_round c xs) ≡ times id xs + times id c.finished
unfolding known take_round
known-take_round id c [] = omega (arith, times_none id)
known-take_round id c (x ∷ xs) = omega (arith, times-take_next_batch id x xs)

known-fail_pending :
    (id : ℕ) (c : ScanCoordinator)
    → known id (fail_pending c) ≡ times id c.pending + times id c.finished
unfolding known fail_pending
known-fail_pending id c = omega (arith, times-append id c.pending c.finished, times_none id)

finished_all :
    (id : ℕ) (c : ScanCoordinator) (batch : List ScanCoordinatorRequest)
    → known id (finish_batch batch c) ≡ times id c.pending + (times id batch + times id c.finished)
unfolding known finish_batch
finished_all id c batch = omega (arith, times-append id batch c.finished, times_none id)

both_same : (b : Bool) (n : ℕ) → (if b then n else n) ≡ n
both_same true n = refl
both_same false n = refl

nothing_given_up : (id : ℕ) (c : ScanCoordinator) → known id (give_up c none) ≡ known id c
unfolding give_up
nothing_given_up id c = refl

given_up :
    (id : ℕ) (c : ScanCoordinator) (r : ScanCoordinatorRequest) (rest : List ScanCoordinatorRequest)
    → times id (r ∷ rest) ≡ times id c.pending
    → known id (give_up c (some (r, rest))) ≡ known id c
unfolding known give_up times
given_up id c r rest same = omega (arith, same)

known-next_round :
    (id : ℕ) (c : ScanCoordinator)
    → known id (next_round c) ≡ times id c.pending + times id c.finished
unfolding next_round
known-next_round id c = elim (Bool-cases c.stopped) [
  | inl off ↦
      ap (λ b. known id (if b then fail_pending c else take_round c c.pending)) off
      ∙ known-fail_pending id c
  | inr on ↦
      ap (λ b. known id (if b then fail_pending c else take_round c c.pending)) on
      ∙ known-take_round id c c.pending
]

known-go_on :
    (id : ℕ) (c : ScanCoordinator) (batch gone active : List ScanCoordinatorRequest)
    → known id (go_on c batch gone active)
      ≡ times id c.pending + (times id active + (times id gone + times id c.finished))
unfolding known go_on
known-go_on id c batch gone [] = omega (arith, times-append id gone c.finished, times_none id)
known-go_on id c batch gone (r ∷ active) = omega (arith, times-append id gone c.finished)

known-work_at :
    (canceled : ScanCoordinatorRequest → Bool) (id : ℕ) (c : ScanCoordinator) (w : Worker)
    → known id (work_at canceled c w) ≡ (
        if is_parked w
        then known id c
        else times id c.pending + (times id (held w) + times id c.finished))
unfolding work_at filter_canceled finish_batch
known-work_at canceled id c parked = refl
known-work_at canceled id c looping = omega (arith, known-next_round id c, times_none id)
known-work_at canceled id c (took batch) = omega (
  arith,
  known-go_on id c batch (keep_if canceled batch) (keep_if (λ r. not (canceled r)) batch),
  times-keep_if id canceled batch,
)
known-work_at canceled id c (scanning batch) = finished_all id c batch

pub known-work :
    (canceled : ScanCoordinatorRequest → Bool) (id : ℕ) (c : ScanCoordinator)
    → known id (work canceled c) ≡ known id c
unfolding work known
known-work canceled id c =
    known-work_at canceled id c c.worker ∙ both_same (is_parked c.worker) (known id c)

known-give_up : (id i : ℕ) (c : ScanCoordinator) → known id (cancel_request i c) ≡ known id c
unfolding cancel_request
known-give_up id i c = elim (Option-cases (remove_request i c.pending)) [
  | inl gone ↦ ap (λ o. known id (give_up c o)) gone ∙ nothing_given_up id c
  | inr ((r, rest), found) ↦
      ap (λ o. known id (give_up c o)) found
      ∙ given_up id c r rest (times-remove_request id i c.pending rest r found)
]

known-stop : (id : ℕ) (c : ScanCoordinator) → known id (record c { stopped = true }) ≡ known id c
unfolding known
known-stop id c = refl

known-new : (id n : ℕ) → n + known id new_scan_coordinator ≡ n
unfolding known times
known-new id n = omega arith

perform_all-known :
    (id : ℕ) (actions : List Action) (c : ScanCoordinator)
    → IsAwake c
    → known id (perform_all actions c) ≡ submitted id actions + known id c
unfolding perform_all perform submitted
perform_all-known id [] c w = omega arith
perform_all-known id (submits r ∷ actions) c w = omega (
  arith,
  perform_all-known id actions (submit r c) (submit-IsAwake r c w),
  known-submit id r c w.flagged,
)
perform_all-known id (gives_up i ∷ actions) c w =
    perform_all-known id actions (cancel_request i c) (give_up-IsAwake i c w)
    ∙ ap (λ n. submitted id actions + n) (known-give_up id i c)
perform_all-known id (stops ∷ actions) c w =
    perform_all-known id actions (record c { stopped = true })
      (record { flagged = w.flagged; served = w.served })
    ∙ ap (λ n. submitted id actions + n) (known-stop id c)
perform_all-known id (works canceled ∷ actions) c w =
    perform_all-known id actions (work canceled c) (perform-IsAwake (works canceled) c w)
    ∙ ap (λ n. submitted id actions + n) (known-work canceled id c)

new-IsAwake : IsAwake new_scan_coordinator
new-IsAwake = record { flagged = refl; served = λ h. refl }

perform_all-IsAwake :
    (actions : List Action) (c : ScanCoordinator) → IsAwake c → IsAwake (perform_all actions c)
unfolding perform_all
perform_all-IsAwake [] c w = w
perform_all-IsAwake (a ∷ actions) c w =
    perform_all-IsAwake actions (perform a c) (perform-IsAwake a c w)

-- Whatever submissions, cancellations, stops and steps of the worker have followed one another, each request
-- that was submitted waits, is in the worker's batch, or is finished, as often as it was submitted; and while
-- something waits, there is a worker.
pub perform_all_conserves :
    (actions : List Action)
    → ((id : ℕ) → known id (perform_all actions new_scan_coordinator) ≡ submitted id actions)
      × IsAwake (perform_all actions new_scan_coordinator)
perform_all_conserves actions = (
  (λ id.
      perform_all-known id actions new_scan_coordinator new-IsAwake
      ∙ known-new id (submitted id actions)),
  perform_all-IsAwake actions new_scan_coordinator new-IsAwake,
)
