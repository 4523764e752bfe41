-- ===== src/Lib.antt =====
-- Syncrules synchronises two storage endpoints, such as a local directory and a Google Drive folder,
-- by rules: it lists both sides, plans actions, resolves conflicts, and executes the plan.
--
-- How the parts interact, and where they are modelled:
-- - Domain: the data that all parts exchange (internal/domain).
-- - Diff: `DefaultComparer.Compare` (internal/core/diff/diff.go) tells whether two entries differ.
-- - Conflict: `DefaultResolver.Resolve` (internal/core/conflict/resolver.go) picks an action for a pair
--   that differs.
-- - Planner: `PlanOneWay`, `PlanTwoWay`, `sortActions`, `calculateStats` and `ShouldIgnore`
--   (internal/core/planner/planner.go) make an ordered plan from the maps of both sides.
-- - Adapter: the interface of the storage backends (internal/adapter/adapter.go), as operations over a
--   state; implementations are arguments.
-- - Executor: `DefaultExecutor.Plan` and `listAllFiles` (internal/core/rule/executor.go) list both
--   sides through their adapters and call the planner.
-- - Config: `Config.Validate`, the lookups, `ApplyDefaults` and the path getters
--   (internal/config/config.go), and `Load` and `LoadFromString` (internal/config/loader.go) over what viper
--   reads.
-- - Lock: `FileLock` (internal/lock/lock.go). `Acquire` is a machine that makes one access to the lock file
--   in a step, so that the calls of two processes can interleave; `Processes` is `processExists`
--   (internal/lock/process_unix.go; `Windows` that of process_windows.go), and `Opening` the constructor.
-- - Service: `SyncService` (internal/service/sync.go): it opens adapters, asks the executor for a plan, and
--   executes a plan action by action under the lock; `Opening` has its constructor and its calls of the lock.
--   `Storage` and `Replicas` say what the two storages of a push and of a two-way rule are to do, on the paths
--   of a set.
-- - Scheduler: `IntervalScheduler` (internal/scheduler/interval.go): the loop, the ticks, and the calls of
--   other goroutines as moves that interleave.
-- - Daemon: `syncRunner.RunSync` and `DaemonService` (internal/service/daemon.go): the scheduler calls the
--   runner, which uses the service through the record `SyncOps` and saves a record for each rule; `Stored`
--   composes it with the execution history, `Locked` with the service, and `Opening` has its constructor.
-- - Paths: the functions of Go's `path` and `path/filepath` that the adapters call.
-- - Local: the adapter of a directory (internal/adapter/local/local.go), an implementation of the interface
--   over the functions of `os`. `Writing/Places` has where two directories keep the paths of a set, and
--   `Storages` makes of two such adapters the `Storage` and the `Replicas` of the service.
-- - Drive: the adapter of Google Drive (internal/adapter/gdrive/gdrive.go), with its cache of identifiers,
--   over the calls of the Drive service.
-- - Auth: the token of Google Drive and its file (internal/adapter/gdrive/auth.go), over the calls of `os` and
--   `oauth2`; that the code which the user pastes stands for this request is not checked there.
-- - Checksum: `DefaultCalculator.Calculate` (internal/core/checksum/checksum.go) over the reads of a content.
-- - History: `Manager` (internal/state/manager.go) with the queries on the rows of its table; `Table` says what
--   is relied on of the driver and of the texts of the times; `Opening` is `NewManager` and `Close`.
-- - Progress: the reporter, the counting reader and the texts (internal/progress/progress.go); `report` gives
--   the events of the service to the reporter.
-- - PidFile: `PIDFile` (internal/daemon/pidfile.go, pidfile_unix.go) over the calls of the system; `Windows`
--   has those of pidfile_windows.go.
-- - Logger: levels and formats (internal/logger/types.go), `Sanitizer` (internal/logger/sanitizer.go; `Rules`
--   has the default rules, over the matcher of `Patterns`), the loggers and their writers
--   (internal/logger/slog_adapter.go, legacy.go), and in `Global` the logger of the package
--   (internal/logger/logger.go).
-- - Prelude: shared names, tests, texts, lists, maps and results. Tests: runs and instances.
--
-- How the code is represented:
-- - A Go string is the list of its bytes (`Text`); the reasons of actions, which are only displayed, are
--   native strings. An int or int64 is its bit pattern below 2 ^ 64, and sums wrap. An instant is a
--   number of nanoseconds.
-- - A map is an association list in the order in which `range` visits it.
--   A pointer that may be nil is an `Option`.
-- - `filepath.Match` is the argument `glob`: every result holds for every matcher. The separator is `/`.
-- - A context is a function that says for the number of each poll of `ctx.Done()` whether it is done.
-- - `sort.Slice` is insertion by the given comparison.
-- - The recursion of `listAllFiles` takes fuel; a fuel above the height of the listed tree is enough.
-- - `Acquire` is run for six accesses to the lock file, which its longest path makes: the check of its own
--   lock, the check, the removal, the creation, the record, and the removal if the record fails.
-- - An error that the operating system may give for an access to the lock file is an argument, a fault.
-- - `time.ParseDuration`, `local.New`, `gdrive.New` and the runner of the scheduler are arguments.
-- - The functions of `os`, the Drive service, the database, hashes and the patterns of `AddRule` are parameters,
--   records of functions over a state; what is documented of them is stated as laws of those records.
-- - A pattern of the sanitizer is a list of pieces that are matched with backtracking, byte by byte.
-- - The arithmetic on floats in the texts of the progress is a parameter.
-- - The loop over the pages of a listing takes fuel; one for each page is enough.
-- - The texts of wrapped errors are shortened; the error that is wrapped is kept.
--
-- Not modelled: the text that a handler of slog makes of an entry, what SQLite does below the statements of
-- the execution history (internal/state), and the system calls behind the lock, the PID file and the adapters.
pub mod Prelude
pub mod Domain
pub mod Paths
pub mod Diff
pub mod Conflict
pub mod Planner
pub mod Adapter
pub mod Local
pub mod Drive
pub mod Auth
pub mod Checksum
pub mod History
pub mod Executor
pub mod Config
pub mod Lock
pub mod Service
pub mod Scheduler
pub mod Progress
pub mod PidFile
pub mod Logger
pub mod Daemon
mod Tests
