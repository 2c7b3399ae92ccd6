-- ===== src/Desktopcore/Scans/Work.antt =====
-- internal/desktopcore/scan_coordinator.go: the worker comes to rest, and a repair is scanned for alone.
use ben_desktop.Base.{
  ℕ, ◌+◌, ◌*◌, ◌≤◌, ◌<◌, ◌≡◌, refl, sym, ap, subst, ◌∙◌, ◌⊎◌, inl, inr, Bool, true, false, not,
  List, [], ◌∷◌, arith, All, length, if◌then◌else◌, Bool-cases,
}
use ben_desktop.Desktopcore.Scans.{
  ScanCoordinatorRequest, Worker, parked, looping, took, scanning, ScanCoordinator, is_repair,
  keep_if, take_next_batch, fail_pending, take_round, next_round, go_on, filter_canceled,
  finish_batch, work_at, work, Action, works, perform, perform_all, new_scan_coordinator,
}
use ben_desktop.Desktopcore.Scans.Times.{
  is_parked, times, known, submitted, held, take_next_batch-mixed, take_next_batch-alone,
  times-take_next_batch,
}
use ben_desktop.Desktopcore.Scans.Awake.{IsAwake, perform-IsAwake}
use ben_desktop.Desktopcore.Scans.Order.{known-work, perform_all_conserves}

-- How many actions the worker needs at most before it parks.
abbrev pub turns_at : Worker → ℕ → ℕ
turns_at parked n = 0
turns_at looping n = n * 3 + 1
turns_at (took batch) n = n * 3 + 3
turns_at (scanning batch) n = n * 3 + 2

abbrev pub turns : ScanCoordinator → ℕ
turns c = turns_at c.worker (length c.pending)

keep_if-le :
    (test : ScanCoordinatorRequest → Bool) (xs : List ScanCoordinatorRequest)
    → length (keep_if test xs) ≤ length xs
unfolding keep_if
keep_if-le test [] = omega arith
keep_if-le test (x ∷ xs) = ground (arith, keep_if-le test xs)

-- Each batch takes the first request at least.
take_next_batch-less :
    (x : ScanCoordinatorRequest) (xs : List ScanCoordinatorRequest)
    → length (take_next_batch (x ∷ xs)).1 ≤ length xs
unfolding keep_if
take_next_batch-less x xs = elim (Bool-cases (is_repair x)) [
  | inl alone ↦ omega (arith, ap (λ p. length p.1) (take_next_batch-alone x xs alone))
  | inr batch ↦
      let skipped : keep_if is_repair (x ∷ xs) ≡ keep_if is_repair xs =
        ap (λ b. if b then x ∷ keep_if is_repair xs else keep_if is_repair xs) batch in
      omega (
        arith,
        ap (λ p. length p.1) (take_next_batch-mixed x xs batch),
        ap length skipped,
        keep_if-le is_repair xs,
      )
]

take_round-less :
    (c : ScanCoordinator) (xs : List ScanCoordinatorRequest)
    → turns (take_round c xs) < length xs * 3 + 1
unfolding take_round
take_round-less c [] = omega arith
take_round-less c (x ∷ xs) = omega (arith, take_next_batch-less x xs)

go_on-less :
    (c : ScanCoordinator) (batch gone active : List ScanCoordinatorRequest)
    → turns (go_on c batch gone active) < length c.pending * 3 + 3
unfolding go_on
go_on-less c batch gone [] = omega arith
go_on-less c batch gone (r ∷ active) = omega arith

next_round-less : (c : ScanCoordinator) → turns (next_round c) < length c.pending * 3 + 1
unfolding next_round fail_pending
next_round-less c = elim (Bool-cases c.stopped) [
  | inl off ↦
      subst
        (λ b.
          turns (if b then fail_pending c else take_round c c.pending) < length c.pending * 3 + 1)
        (sym off) (omega arith)
  | inr on ↦
      subst
        (λ b.
          turns (if b then fail_pending c else take_round c c.pending) < length c.pending * 3 + 1)
        (sym on) (take_round-less c c.pending)
]

work_at-less :
    (canceled : ScanCoordinatorRequest → Bool) (c : ScanCoordinator) (w : Worker)
    → is_parked w ≡ false
    → turns (work_at canceled c w) < turns_at w (length c.pending)
unfolding work_at filter_canceled finish_batch
work_at-less canceled c parked h = absurd (ground arith)
work_at-less canceled c looping h = next_round-less c
work_at-less canceled c (took batch) h =
    go_on-less c batch (keep_if canceled batch) (keep_if (λ r. not (canceled r)) batch)
work_at-less canceled c (scanning batch) h = omega arith

parked_turns : (w : Worker) (n : ℕ) → turns_at w n ≡ 0 → is_parked w ≡ true
parked_turns parked n h = refl
parked_turns looping n h = absurd (omega arith)
parked_turns (took batch) n h = absurd (omega arith)
parked_turns (scanning batch) n h = absurd (omega arith)

idle_turns : (w : Worker) (n : ℕ) → is_parked w ≡ true → turns_at w n ≡ 0
idle_turns parked n h = refl
idle_turns looping n h = absurd (ground arith)
idle_turns (took batch) n h = absurd (ground arith)
idle_turns (scanning batch) n h = absurd (ground arith)

-- The worker alone, with what is canceled at each of its actions.
unfoldable pub work_all : List (ScanCoordinatorRequest → Bool) → ScanCoordinator → ScanCoordinator
unfolding work
work_all [] c = c
work_all (canceled ∷ rest) c = work_all rest (work canceled c)

work_parked :
    (canceled : ScanCoordinatorRequest → Bool) (c : ScanCoordinator) (w : Worker)
    → is_parked w ≡ true
    → work_at canceled c w ≡ c
unfolding work_at
work_parked canceled c parked h = refl
work_parked canceled c looping h = absurd (ground arith)
work_parked canceled c (took batch) h = absurd (ground arith)
work_parked canceled c (scanning batch) h = absurd (ground arith)

work_all-parked :
    (schedule : List (ScanCoordinatorRequest → Bool)) (c : ScanCoordinator)
    → turns c ≤ length schedule
    → is_parked (work_all schedule c).worker ≡ true
unfolding work_all work
work_all-parked [] c h = parked_turns c.worker (length c.pending) (omega arith)
work_all-parked (canceled ∷ rest) c h = elim (Bool-cases (is_parked c.worker)) [
  | inl idle ↦
      let same : work canceled c ≡ c = work_parked canceled c c.worker idle in
      subst (λ x. is_parked (work_all rest x).worker ≡ true) (sym same)
        (work_all-parked rest c (omega (arith, idle_turns c.worker (length c.pending) idle)))
  | inr busy ↦
      work_all-parked rest (work canceled c) (omega (arith, work_at-less canceled c c.worker busy))
]

work_all-known :
    (id : ℕ) (schedule : List (ScanCoordinatorRequest → Bool)) (c : ScanCoordinator)
    → known id (work_all schedule c) ≡ known id c
unfolding work_all
work_all-known id [] c = refl
work_all-known id (canceled ∷ rest) c =
    work_all-known id rest (work canceled c) ∙ known-work canceled id c

work_all-IsAwake :
    (schedule : List (ScanCoordinatorRequest → Bool)) (c : ScanCoordinator)
    → IsAwake c
    → IsAwake (work_all schedule c)
unfolding work_all perform
work_all-IsAwake [] c a = a
work_all-IsAwake (canceled ∷ rest) c a =
    work_all-IsAwake rest (work canceled c) (perform-IsAwake (works canceled) c a)

held_none : (id : ℕ) (w : Worker) → is_parked w ≡ true → times id (held w) ≡ 0
unfolding times
held_none id parked h = refl
held_none id looping h = absurd (ground arith)
held_none id (took batch) h = absurd (ground arith)
held_none id (scanning batch) h = absurd (ground arith)

at_rest :
    (id : ℕ) (c : ScanCoordinator)
    → is_parked c.worker ≡ true
    → c.pending ≡ []
    → known id c ≡ times id c.finished
unfolding known times
at_rest id c idle none_left = omega (arith, held_none id c.worker idle, ap (times id) none_left)

-- Whatever has happened, once no more requests come and the worker has had its turns, at most three for each
-- request that waits and three more, the worker is parked, nothing waits, and each request that was submitted
-- has been finished as often as it was submitted, whatever was canceled meanwhile.
pub worker_comes_to_rest :
    (actions : List Action) (schedule : List (ScanCoordinatorRequest → Bool))
    → turns (perform_all actions new_scan_coordinator) ≤ length schedule
    → (is_parked (work_all schedule (perform_all actions new_scan_coordinator)).worker ≡ true)
      × ((work_all schedule (perform_all actions new_scan_coordinator)).pending ≡ [])
      × ((id : ℕ)
          → times id (work_all schedule (perform_all actions new_scan_coordinator)).finished
            ≡ submitted id actions)
worker_comes_to_rest actions schedule h =
    let c = perform_all actions new_scan_coordinator in
    let before = perform_all_conserves actions in
    let idle = work_all-parked schedule c h in
    let none_left = (work_all-IsAwake schedule c before.1).served idle in
    (
      idle,
      none_left,
      λ id.
          sym (at_rest id (work_all schedule c) idle none_left)
          ∙ work_all-known id schedule c
          ∙ before.0 id,
    )

keep_if-All :
    (test : ScanCoordinatorRequest → Bool) (xs : List ScanCoordinatorRequest)
    → All (λ r. test r ≡ true) (keep_if test xs)
unfolding keep_if
keep_if-All test [] = tt
keep_if-All test (x ∷ xs) =
    let kept = keep_if test xs in
    let step = λ (b : Bool). if b then x ∷ kept else kept in
    elim (Bool-cases (test x)) [
      | inl fits ↦
          subst (λ b. All (λ r. test r ≡ true) (step b)) (sym fits) (fits, keep_if-All test xs)
      | inr other ↦ subst (λ b. All (λ r. test r ≡ true) (step b)) (sym other) (keep_if-All test xs)
    ]

-- The batch that is taken of requests that wait: a repair in front goes alone and the others wait on;
-- otherwise no repair is in the batch, only repairs wait on, and each request is in one of the two.
pub take_next_batch_lem :
    (x : ScanCoordinatorRequest) (xs : List ScanCoordinatorRequest)
    → ((is_repair x ≡ true) × (take_next_batch (x ∷ xs) ≡ (x ∷ [], xs)))
      ⊎ ((is_repair x ≡ false)
          × All (λ r. not (is_repair r) ≡ true) (take_next_batch (x ∷ xs)).0
          × All (λ r. is_repair r ≡ true) (take_next_batch (x ∷ xs)).1
          × ((id : ℕ)
              → times id (take_next_batch (x ∷ xs)).0 + times id (take_next_batch (x ∷ xs)).1
                ≡ times id (x ∷ xs)))
take_next_batch_lem x xs = elim (Bool-cases (is_repair x)) [
  | inl alone ↦ inl (alone, take_next_batch-alone x xs alone)
  | inr mixed ↦
      let is = take_next_batch-mixed x xs mixed in
      inr (
        mixed,
        subst (λ p. All (λ r. not (is_repair r) ≡ true) p.0) (sym is)
            (keep_if-All (λ r. not (is_repair r)) (x ∷ xs)),
        subst (λ p. All (λ r. is_repair r ≡ true) p.1) (sym is) (keep_if-All is_repair (x ∷ xs)),
        λ id. times-take_next_batch id x xs,
      )
]
