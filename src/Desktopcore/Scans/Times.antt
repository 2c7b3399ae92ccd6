-- ===== src/Desktopcore/Scans/Times.antt =====
-- internal/desktopcore/scan_coordinator.go: how often a request stands in the parts of the coordinator.
use ben_desktop.Base.{
  ℕ, ◌+◌, ◌≡◌, refl, sym, ap, ◌∙◌, inl, inr, Bool, true, false, not, Option, none, some, List, [],
  ◌∷◌, ◌++◌, arith, ◌==◌, if◌then◌else◌, Bool-cases, Option-cases,
}
use ben_desktop.Desktopcore.Scans.{
  ScanCoordinatorRequest, Worker, parked, looping, took, scanning, ScanCoordinator, is_repair,
  keep_if, take_next_batch, remove_request, Action, submits, gives_up, stops, works,
}

-- How often a request stands in a list.
unfoldable pub times : ℕ → List ScanCoordinatorRequest → ℕ
times id [] = 0
times id (r ∷ rest) = (if r.id == id then 1 else 0) + times id rest

abbrev found_times : ℕ → Option (ScanCoordinatorRequest × List ScanCoordinatorRequest) → ℕ
found_times id none = 0
found_times id (some (r, rest)) = times id (r ∷ rest)

abbrev pub is_parked : Worker → Bool
is_parked parked = true
is_parked looping = false
is_parked (took batch) = false
is_parked (scanning batch) = false

-- The batch that the worker holds.
abbrev pub held : Worker → List ScanCoordinatorRequest
held parked = []
held looping = []
held (took batch) = batch
held (scanning batch) = batch

-- How often a request is in the coordinator: it waits, it is worked on, or it is finished.
unfoldable pub known : ℕ → ScanCoordinator → ℕ
unfolding times
known id c = times id c.pending + (times id (held c.worker) + times id c.finished)

-- How often a request has been submitted.
unfoldable pub submitted : ℕ → List Action → ℕ
submitted id [] = 0
submitted id (submits r ∷ actions) = (if r.id == id then 1 else 0) + submitted id actions
submitted id (gives_up i ∷ actions) = submitted id actions
submitted id (stops ∷ actions) = submitted id actions
submitted id (works f ∷ actions) = submitted id actions

pub times-append :
    (id : ℕ) (xs ys : List ScanCoordinatorRequest) → times id (xs ++ ys) ≡ times id xs + times id ys
unfolding times
times-append id [] ys = omega arith
times-append id (x ∷ xs) ys = omega (arith, times-append id xs ys)

-- A test and its opposite share a list out.
pub times-keep_if :
    (id : ℕ) (test : ScanCoordinatorRequest → Bool) (xs : List ScanCoordinatorRequest)
    → times id (keep_if test xs) + times id (keep_if (λ r. not (test r)) xs) ≡ times id xs
unfolding times keep_if
times-keep_if id test [] = refl
times-keep_if id test (x ∷ xs) = elim (Bool-cases (test x)) [
  | inl yes_ ↦ rw yes_ (omega (arith, times-keep_if id test xs))
  | inr no_ ↦ rw no_ (omega (arith, times-keep_if id test xs))
]

pub times_none : (id : ℕ) → times id [] ≡ 0
unfolding times
times_none id = refl

pub last_one :
    (id : ℕ) (r : ScanCoordinatorRequest) (n : ℕ)
    → n + times id (r ∷ []) ≡ n + (if r.id == id then 1 else 0)
unfolding times
last_one id r n = omega arith

one_and_rest :
    (id : ℕ) (x : ScanCoordinatorRequest) (xs : List ScanCoordinatorRequest)
    → times id (x ∷ []) + times id xs ≡ times id (x ∷ xs)
unfolding times
one_and_rest id x xs = omega arith

pub held-started : (w : Worker) → held (if not (is_parked w) then w else looping) ≡ held w
held-started parked = refl
held-started looping = refl
held-started (took batch) = refl
held-started (scanning batch) = refl

pub take_next_batch-mixed :
    (x : ScanCoordinatorRequest) (xs : List ScanCoordinatorRequest)
    → is_repair x ≡ false
    → take_next_batch (x ∷ xs)
      ≡ (keep_if (λ r. not (is_repair r)) (x ∷ xs), keep_if is_repair (x ∷ xs))
unfolding take_next_batch
take_next_batch-mixed x xs batch =
    ap
      (λ b.
        if b
        then (x ∷ [], xs)
        else (keep_if (λ r. not (is_repair r)) (x ∷ xs), keep_if is_repair (x ∷ xs)))
      batch

pub take_next_batch-alone :
    (x : ScanCoordinatorRequest) (xs : List ScanCoordinatorRequest)
    → is_repair x ≡ true
    → take_next_batch (x ∷ xs) ≡ (x ∷ [], xs)
unfolding take_next_batch
take_next_batch-alone x xs alone =
    ap
      (λ b.
        if b
        then (x ∷ [], xs)
        else (keep_if (λ r. not (is_repair r)) (x ∷ xs), keep_if is_repair (x ∷ xs)))
      alone

abbrev both_times : ℕ → List ScanCoordinatorRequest × List ScanCoordinatorRequest → ℕ
both_times id p = times id p.0 + times id p.1

pub times-take_next_batch :
    (id : ℕ) (x : ScanCoordinatorRequest) (xs : List ScanCoordinatorRequest)
    → both_times id (take_next_batch (x ∷ xs)) ≡ times id (x ∷ xs)
times-take_next_batch id x xs = elim (Bool-cases (is_repair x)) [
  | inl alone ↦ ap (both_times id) (take_next_batch-alone x xs alone) ∙ one_and_rest id x xs
  | inr batch ↦
      ap (both_times id) (take_next_batch-mixed x xs batch)
      ∙ omega (arith, times-keep_if id is_repair (x ∷ xs))
]

pub times-remove_request :
    (id i : ℕ) (xs rest : List ScanCoordinatorRequest) (r : ScanCoordinatorRequest)
    → remove_request i xs ≡ some (r, rest)
    → times id (r ∷ rest) ≡ times id xs
unfolding remove_request times
times-remove_request id i [] rest r h = absurd (ground arith)
times-remove_request id i (x ∷ xs) rest r h = elim (Bool-cases (x.id == i)) [
  | inl hit ↦ sym (ap (found_times id) (rw (hit, remove_request) at h))
  | inr miss ↦ elim (Option-cases (remove_request i xs)) [
    | inl gone ↦ absurd (ground (arith, rw (miss, gone, remove_request) at h))
    | inr ((y, others), found) ↦
        let ih : times id (y ∷ others) ≡ times id xs =
          times-remove_request id i xs others y found in
        sym (ap (found_times id) (rw (miss, found, remove_request) at h)) ∙ omega (arith, ih)
  ]
]
