-- ===== src/Lib.antt =====
-- ben_desktop: the playback core of the desktop player, and the replication of its library.
--
-- A session (internal/playback/session.go) plays entries from two lanes: a context (an album, a
-- playlist, …) and a queue of the user's own. Its snapshot holds both lanes, the current entry and
-- the modes. What is shown or played next is computed from the snapshot; every operation changes the
-- snapshot under a lock, normalises it and returns a copy; a transition to another entry may be
-- pending in the backend meanwhile, and remembers the place of its entry in the user queue.
--
-- A library is kept on several devices (internal/desktopcore). Each change of it is an operation of an
-- operation log: the device that makes it numbers it and appends it, and sends it to the others, which
-- verify its signature (shared/registryauth), store it, and write it to their tables once all operations
-- of its device that come before it have been. Of the operations on one entity only the latest is
-- written. Scans of the music folders are asked for by the watcher, at the start and by the user, and
-- one worker serves them.
--
-- Data and what the code relies on:
--   Playback/Types       internal/playback/types.go: the snapshot and its parts
--   Playback/Rand        math/rand and strings.EqualFold, a parameter of what uses them
--   Playback/Platform    internal/playback/timestamps.go; time, fmt.Sprintf and strings.ToLower, a
--                        parameter likewise
--   Playback/Items       internal/playback/mapping.go: NormalizeItems, firstNonEmpty
-- What follows from a snapshot (internal/playback/session.go, as all below):
--   Playback/Context     contextAllEntries, currentMatchesContext, detachedCurrentContextIndex, …
--   Playback/Shuffle     buildSmartShuffleCycle, buildAnchoredSmartShuffleCycle, sanitizeShuffleBag,
--                        effectiveShuffleCycle and the scores
--   Playback/Position    indexOfInt
--   Playback/Navigation  next/previousContextIndexFromAnchor, normalizeResumeContextIndex, …
--   Playback/Upcoming    buildUpcomingEntries, firstUpcomingEntry, upcomingEntryCount, queueLength
--   Playback/Iterator    newNextActionIterator, Next, the loop of ensureNextActionPlanLocked
--   Playback/Previous    buildPreviousActionPlan
--   Playback/Window      refreshContextWindowLocked
--   Playback/Normalize   normalizeSnapshot, step by step
-- The session:
--   Playback/Session           the state, touchLocked, cancelTransportTransitionLocked,
--                              invalidatePreloadPlanLocked, rebuildShuffleCycleLocked, …
--   Playback/Session/Queue     QueueItems, RemoveQueuedEntry, MoveQueuedEntry, ClearQueue,
--                              SetRepeatMode, SetShuffle and the operations by index
--   Playback/Session/Planning  planningSnapshotLocked, ensureNextActionPlanLocked,
--                              playbackCandidateFromPlannedLocked
-- The operation log (internal/desktopcore):
--   Desktopcore/Helpers        helpers.go: normalizeRole
--   Desktopcore/Oplog          models.go: OplogEntry, DeviceClock; oplog_apply.go:
--                              shouldApplyLatestMutationTx; the clocks; nextLibraryDeviceSeqTx
--   Desktopcore/Replica        service_sync.go: applyRemoteOp, applyBufferedDeviceOplogTx, over an
--                              engine that verifies an operation and writes it (Engine)
--   Desktopcore/Replica/Local  service_oplog.go: appendLocalOplogTx
--   Desktopcore/Batches        service_sync.go: selectSyncBatch, sortCheckpointEntries
--   Desktopcore/Replica/Register  what a handler promises to Replica (Register)
--   Desktopcore/Apply          oplog_apply.go: the tables, the handlers of libraries and playlists
--   Desktopcore/Apply/Items    the handlers of playlist items and preferences, applyOplogEntryTx
--   Desktopcore/Apply/Runs     the handlers as an Engine, the playlists as its Register: not the liked ones, nor
--                              times of creation, which depend on the order of delivery
--   Desktopcore/Auth           oplog_auth.go: verifyCheckpointOplogEntryTx
--   Registryauth               shared/registryauth/registryauth.go: VerifyAdmissionAuthorityChain,
--                              VerifyMembershipCert, VerifyHistoricalMembershipCert
-- Scans:
--   Desktopcore/Scans          scan_coordinator.go: submit, run, takeNextBatchLocked, failPending,
--                              filterCanceledBatch, cancelPendingRequest
-- A file below one of these holds proofs about it and is named for what they prove. Base is what the
-- parts share: tests, lists, texts, integers, counting. The files named Tests, SessionTests, ScanTests
-- and BatchTests run the theorems at small inputs.
--
-- Function names keep the source's words in snake case, without the suffix Locked. An `int` that may
-- be negative is a ℤ, any other number an ℕ; Go's widths are not reached by indices into a list in
-- memory, and the counters of type uint64 wrap. A nil pointer is `none`, an empty map or slice `[]`. A
-- read that would panic reads a zero entry, and the bounds theorems show that the indices are in
-- range. An operation is a function from a session to a reply: the session afterwards, the returned
-- snapshot, the error, and the calls made after the lock is released, in order. Slices are values; only
-- planningSnapshotLocked depends on a shared array, and there `append` writes into it (written_from).
--
-- In the operation log a table is a list of rows, a query is a function on it, and a transaction is a
-- function whose error leaves the replica as it was. `ORDER BY` on a text compares code points, as
-- SQLite does on UTF-8. Sequence numbers, times and serials are ℕ: a remote number of zero or below is
-- stored and never has its turn, and zero stands for all of these; the number after the greatest int64 wraps,
-- and is written in two's complement. A handler takes the time at which it runs; in a run it is a function of
-- what the device has, its log and the operation, so that it differs from device to device and from call to
-- call. JSON, digests, base64, Ed25519, libp2p keys and
-- strings.ToLower are parameters; so are the catalog's tables, the handlers that write to them (source
-- files, optimized assets, device caches, artwork) and the lookup of a recording in them.
--
-- The scan coordinator is an automaton: what a goroutine does between two locked regions is one action,
-- and an interleaving is a list of actions. The scan itself and its outcome are left out.
--
-- The loops of the shuffle run on the length of their list. `Next` and the plan's loop run on fuel, and
-- the theorems on them take any fuel above nextActionCount, which is what the plan is given; the walk
-- back runs on one round more than the context has entries.
--
-- Not modelled: goroutines, locks and logging; the backend's calls and events, retries and the ticker;
-- the store; loading and rebasing of source-backed contexts; checkpoints and the exchange of operations
-- over the network; the handlers of the catalog; the order keys of playlists; jobs and the watcher.
pub mod Base
pub mod Desktopcore
pub mod Playback
pub mod Registryauth
