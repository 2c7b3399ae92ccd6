-- ===== src/Desktopcore/Scans.antt =====
-- internal/desktopcore/scan_coordinator.go: requests for scans, and the one worker that serves them. A goroutine's
-- work between two of its locked regions is one action; what the environment does stands between the actions.
use Prim.Native.String.{◌++◌ as ◌⧺◌}
use ben_desktop.Base.{
  ℕ, ◌+◌, Bool, true, false, ◌&&◌, ◌||◌, not, String, Option, none, some, List, [], ◌∷◌, ◌++◌, ◌==◌,
  is_blank, str_eq, if◌then◌else◌,
}
pub mod Times
pub mod Awake
pub mod Order
pub mod Work

pub data ScanRequestClass : Type 0 where
  delta : ScanRequestClass
  startup : ScanRequestClass
  repair : ScanRequestClass

-- A request: `id` stands for the request itself, that is for its job and its channel.
pub record ScanCoordinatorRequest : Type 0 where
  pub id : ℕ
  pub class : ScanRequestClass
  pub full_roots : List String

-- Where the worker is: not started, at the head of its loop, with a batch it has taken, or scanning.
pub data Worker : Type 0 where
  parked : Worker
  looping : Worker
  took : List ScanCoordinatorRequest → Worker
  scanning : List ScanCoordinatorRequest → Worker

-- `finished` lists the requests on which `finishRequest` has been called, the latest first.
pub record ScanCoordinator : Type 0 where
  pub stopped : Bool
  pub pending : List ScanCoordinatorRequest
  pub worker_running : Bool
  pub running_startup_keys : List String
  pub worker : Worker
  pub finished : List ScanCoordinatorRequest

abbrev pub is_repair : ScanCoordinatorRequest → Bool
is_repair r = elim r.class [ ScanRequestClass.repair ↦ true | _ ↦ false ]

unfoldable pub keep_if :
    (ScanCoordinatorRequest → Bool) → List ScanCoordinatorRequest → List ScanCoordinatorRequest
keep_if test [] = []
keep_if test (r ∷ rest) = let kept = keep_if test rest in if test r then r ∷ kept else kept

-- `takeNextBatchLocked`: the batch, and what stays pending. A repair goes alone.
unfoldable pub take_next_batch :
    List ScanCoordinatorRequest → List ScanCoordinatorRequest × List ScanCoordinatorRequest
unfolding keep_if
take_next_batch [] = ([], [])
take_next_batch (r ∷ rest) =
    if is_repair r
    then (r ∷ [], rest)
    else (keep_if (λ x. not (is_repair x)) (r ∷ rest), keep_if is_repair (r ∷ rest))

unfoldable pub join_roots : List String → String
join_roots [] = ""
join_roots (r ∷ []) = r
join_roots (r ∷ s ∷ rest) = r ⧺ ("|" ⧺ join_roots (s ∷ rest))

-- `scanCoordinatorStartupKey`; the roots of a request are normalised when it is made.
unfoldable pub startup_key : ScanCoordinatorRequest → String
unfolding join_roots
startup_key r = elim r.class [ ScanRequestClass.startup ↦ join_roots r.full_roots | _ ↦ "" ]

-- `scanCoordinatorStartupKeys`
unfoldable pub startup_keys : List ScanCoordinatorRequest → List String
unfolding startup_key
startup_keys [] = []
startup_keys (r ∷ rest) =
    let keys = startup_keys rest in if is_blank (startup_key r) then keys else startup_key r ∷ keys

unfoldable pub has_key : List String → String → Bool
has_key [] key = false
has_key (k ∷ keys) key = str_eq k key || has_key keys key

unfoldable pub without_keys : List String → List String → List String
unfolding has_key
without_keys gone [] = []
without_keys gone (k ∷ keys) =
    let rest = without_keys gone keys in if has_key gone k then rest else k ∷ rest

-- `submit`, past the test of the context
unfoldable pub submit : ScanCoordinatorRequest → ScanCoordinator → ScanCoordinator
submit r c = record c {
  pending = c.pending ++ (r ∷ []);
  worker_running = true;
  worker = if c.worker_running then c.worker else looping;
}

unfoldable pub waits_for : List ScanCoordinatorRequest → String → Bool
unfolding startup_key
waits_for [] key = false
waits_for (r ∷ rest) key = str_eq (startup_key r) key || waits_for rest key

-- The test of `queueStartupFull`: the roots are scanned for, or wait to be.
unfoldable pub is_queued_startup : ScanCoordinator → String → Bool
unfolding has_key waits_for
is_queued_startup c key = has_key c.running_startup_keys key || waits_for c.pending key

-- `failPending`
unfoldable pub fail_pending : ScanCoordinator → ScanCoordinator
fail_pending c = record c {
  pending = [];
  worker_running = false;
  running_startup_keys = [];
  worker = parked;
  finished = c.pending ++ c.finished;
}

-- The locked region of `run`: the worker parks, or it takes a batch.
unfoldable pub take_round : ScanCoordinator → List ScanCoordinatorRequest → ScanCoordinator
unfolding take_next_batch startup_keys
take_round c [] = record c {
  pending = [];
  worker_running = false;
  running_startup_keys = [];
  worker = parked;
}
take_round c (r ∷ rest) =
    let taken = take_next_batch (r ∷ rest) in
    record c {
      pending = taken.1;
      running_startup_keys = startup_keys taken.0;
      worker = took taken.0;
    }

-- The head of the loop of `run`.
unfoldable pub next_round : ScanCoordinator → ScanCoordinator
unfolding take_round fail_pending
next_round c = if c.stopped then fail_pending c else take_round c c.pending

-- `clearRunningStartupKeys`
abbrev pub cleared : ScanCoordinator → List ScanCoordinatorRequest → List String
cleared c batch = without_keys (startup_keys batch) c.running_startup_keys

unfoldable pub go_on :
    ScanCoordinator
    → List ScanCoordinatorRequest
    → List ScanCoordinatorRequest
    → List ScanCoordinatorRequest
    → ScanCoordinator
unfolding startup_keys without_keys
go_on c batch gone [] = record c {
  running_startup_keys = cleared c batch;
  worker = looping;
  finished = gone ++ c.finished;
}
go_on c batch gone (r ∷ active) = record c {
  worker = scanning (r ∷ active);
  finished = gone ++ c.finished;
}

-- `filterCanceledBatch`: the requests whose callers have gone are finished, the others are scanned for.
unfoldable pub filter_canceled :
    (ScanCoordinatorRequest → Bool)
    → List ScanCoordinatorRequest
    → ScanCoordinator
    → ScanCoordinator
unfolding keep_if go_on
filter_canceled canceled batch c =
    go_on c batch (keep_if canceled batch) (keep_if (λ r. not (canceled r)) batch)

-- The end of a round: the scan is over, with or without an error.
unfoldable pub finish_batch : List ScanCoordinatorRequest → ScanCoordinator → ScanCoordinator
unfolding startup_keys without_keys
finish_batch batch c = record c {
  running_startup_keys = cleared c batch;
  worker = looping;
  finished = batch ++ c.finished;
}

unfoldable pub work_at :
    (ScanCoordinatorRequest → Bool) → ScanCoordinator → Worker → ScanCoordinator
unfolding next_round filter_canceled finish_batch
work_at canceled c parked = c
work_at canceled c looping = next_round c
work_at canceled c (took batch) = filter_canceled canceled batch c
work_at canceled c (scanning batch) = finish_batch batch c

-- `run`, one action at a time; `canceled` says whose callers have gone at that moment.
unfoldable pub work : (ScanCoordinatorRequest → Bool) → ScanCoordinator → ScanCoordinator
unfolding work_at
work canceled c = work_at canceled c c.worker

-- `cancelPendingRequest` and the `finishRequest` that follows it.
unfoldable pub remove_request :
    ℕ → List ScanCoordinatorRequest → Option (ScanCoordinatorRequest × List ScanCoordinatorRequest)
remove_request id [] = none
remove_request id (r ∷ rest) =
    let later = remove_request id rest in
    if r.id == id
    then some (r, rest)
    else elim later [ none ↦ none | some (x, others) ↦ some (x, r ∷ others) ]

unfoldable pub give_up :
    ScanCoordinator
    → Option (ScanCoordinatorRequest × List ScanCoordinatorRequest)
    → ScanCoordinator
give_up c none = c
give_up c (some (r, rest)) = record c { pending = rest; finished = r ∷ c.finished }

unfoldable pub cancel_request : ℕ → ScanCoordinator → ScanCoordinator
unfolding remove_request give_up
cancel_request id c = give_up c (remove_request id c.pending)

-- What may happen next: a caller submits, a caller gives up, the context ends, or the worker goes on.
pub data Action : Type 0 where
  submits : ScanCoordinatorRequest → Action
  gives_up : ℕ → Action
  stops : Action
  works : (ScanCoordinatorRequest → Bool) → Action

unfoldable pub perform : Action → ScanCoordinator → ScanCoordinator
unfolding submit cancel_request work
perform (submits r) c = submit r c
perform (gives_up id) c = cancel_request id c
perform stops c = record c { stopped = true }
perform (works canceled) c = work canceled c

unfoldable pub perform_all : List Action → ScanCoordinator → ScanCoordinator
unfolding perform
perform_all [] c = c
perform_all (a ∷ actions) c = perform_all actions (perform a c)

-- `newScanCoordinator`
abbrev pub new_scan_coordinator : ScanCoordinator
new_scan_coordinator = record {
  stopped = false;
  pending = [];
  worker_running = false;
  running_startup_keys = [];
  worker = parked;
  finished = [];
}
