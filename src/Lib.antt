-- ===== src/Lib.antt =====
-- A verification library for the AUTO-MAS Runtime, the Go program that prepares and supervises the
-- AUTO-MAS backend on Windows and reports to the launcher in a protocol of JSON lines.
--
-- The parts of the program and how they meet. A command of internal/cli makes an emitter
-- (internal/protocol/emitter.go) on the one output of the process; every event of the command goes
-- through it, and the status of the backend moves through the table of
-- internal/protocol/lifecycle.go. What the command fetches (git, uv, Python, packages) comes from
-- sources: internal/mirror builds a catalog, orders it by the policy of the command line into a plan
-- (`BuildPlan`), and tries the plan's sources with a fixed target (`Rotator.Run`).
--
-- What is modelled, and where:
-- - Protocol/Lifecycle: internal/protocol/lifecycle.go. `transition` is `Transition`, with the static
--   table as data and the guards on a restart after it; `rollback_preparation` undoes a preparation.
--   Steps says when a transition is made and what it changes, Traces follows sequences of them.
-- - Protocol/OperationId: internal/protocol/operation_id.go. ULIDs, from a time and ten bytes.
-- - Protocol/Event and Protocol/Emitter: internal/protocol/event.go and emitter.go. A
--   `ProcessOutput` is the state that the Go code keeps behind a mutex; each method is one step on
--   it. Session is a list of calls, Stream and Effect say what they write, Operation is a whole
--   operation from its reservation on, Sticky and Refusal what is refused. The sequence number is a uint64 and wraps.
-- - Mirror/Source and Mirror/Catalog: internal/mirror/kind.go, source.go, packageindex.go and
--   policy.go. Sources are checked by building them again; the catalog is a function of the kind.
--   Distinct, Order, Attempts, Build and Refused lead to Plans, where the results of `BuildPlan` are told.
-- - Mirror/Rank: internal/mirror/rank.go. `rank_plan` is `RankPlan`; the stable sort of Go's `slices`
--   is an insertion sort, which gives the same list.
-- - Mirror/Cache: internal/mirror/probecache.go. `lookup` and `store` are the two methods; Remembers
--   compares them with a record that never forgets, History with the calls made before.
-- - Mirror/Target and Version: internal/mirror/target.go and internal/version/product.go.
-- - Mirror/Report and Mirror/Rotation: internal/mirror/report.go and rotation.go. `run` is
--   `Rotator.Run`; its two loops are `try_sources` and `try_source`. Step and OneAttempt follow one
--   attempt, Reports and Loops carry what is known of the reports through the loops, and Counted
--   compares the reports with the attempts that were made.
-- - Relay/Chunk: internal/relay/chunk.go, the chunks of a file that workers fetch side by side. A run is
--   a list of events on the plan in any order: `pop`, `begin`, `end` and what follows it are events of
--   their own. Cover counts the chunks that hold a byte, Split is the loop that makes the chunks
--   (on fuel, for which the size is enough when chunks are not empty), Workers the events.
-- - State: internal/state/transaction.go, validation.go and inspect.go, with the stages of
--   internal/protocol/values.go. `validate_transaction` is `ValidateTransaction`, `inspect_transaction`
--   is `InspectTransaction` with its probes as a record of functions.
-- - Gitrepo/Revision: internal/gitrepo/target.go and repository.go, versions, revisions and the identity
--   of a repository that is on the disk.
-- - Gitrepo/Swap and Gitrepo/Recovery: internal/gitrepo/swap.go and recovery.go. `swap` is
--   `Swapper.Swap`, `recover` is `Recovery.Recover`; both run in a `World` of operations (file system,
--   store, reader, context) on an unknown state. Disk is the view of that state as three directories
--   and a transaction, World/Rules the laws of the operations and rules that follow a program step by
--   step. Swap/Safe and Recovery/Seen to Safe carry them through; Crash puts swap and recovery
--   together. A process that dies is a world whose operations change nothing from some point on. Calm
--   is a world without faults, Rollback a recovery in it.
-- - Logging/Retention: internal/logging/retention.go. `select_retention_removals` is
--   `selectRetentionRemovals`; the flags on indexes are lists of what is kept and removed. Groups and
--   Oldest tell of the groups of files of one command.
-- - Base: numbers, Booleans, lists, and Go strings as lists of bytes, with the functions of Go's
--   `strings` that the code calls in Base/Strings.
--
-- Code that is not in this repository is a parameter: the renderer, encoding/json, the clock and the
-- entropy of the emitter (`Outside`), `net/url` with `strings.ToLower` on a host (`UrlPackage`),
-- `filepath.Clean` and `strings.EqualFold` on log paths, sha256 (a function on bytes), and all
-- that a rotation calls (`World`: functions that take a state and return the next, so that they may
-- answer differently each time). Laws are assumed of three of them, where a theorem says so: a printed
-- sha256 is not empty; encoding/json decodes a warning whose containers are not nil to one whose
-- containers are not nil (`KeepsContainers`); and a view of a rotation's state may count the attempts
-- (`Counts`). The operations that a swap and a recovery call (internal/filesystem and the
-- store of internal/state, go-git) are parameters with laws: a rename that is applied moves the whole
-- directory to a free path and one that is not changes nothing; a removal leaves the directory, a wreck
-- of it or nothing, and nothing when it reports a complete audited removal; a reader that answers tells
-- what is there; transaction files do not touch directories.
--
-- Numbers are natural numbers; a Go `int` that only counts is not bounded. Loops over lists and
-- strings are structural. The loop over the tries of a source recurs on the number of tries that
-- are left, which is the bound of the loop less the tries made, so it ends where the Go loop does.
--
-- What is not modelled: mutexes (a method is one step), the text of errors, reading and writing and
-- the operating system; the option functions of constructors; the other packages of internal (backend,
-- cleanup, cli, config, doctor, filesystem, health, lock, process, release, telemetry,
-- uv), the writers of internal/logging, the store and the environment document of internal/state, the clone, the verification and the
-- service of internal/gitrepo, the rest of internal/relay (its server, its ledger, and when a source counts as
-- slow), the control channel and the renderers of internal/protocol, and the probes and the downloader
-- of internal/mirror.
pub mod Base
pub mod Version
pub mod Protocol
pub mod Mirror
pub mod Relay
pub mod State
pub mod Gitrepo
pub mod Logging
