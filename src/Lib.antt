-- ===== src/Lib.antt =====
-- jc_proxy: an HTTP gateway that spreads requests over pools of upstream API keys. This library
-- models the parts that decide: which key an attempt uses, what its outcome does to that key, how
-- the status and the statistics of keys reach the key store, and what the client sees of an error.
--
-- Parts and files:
--   Prelude           shared names: tests, slices (Lists), int64, instants and durations (Int),
--                     strings by code point (Text) and their order (Order), float64 as a parameter
--                     (Float), maps from strings (Table), and calls that may fail (Result).
--   Keystore/Status   internal/keystore/store.go: NormalizeStatus, IsActiveStatus, nextRecordVersion.
--   Keystore/RuntimeStats   internal/keystore/store.go and recent_stats.go: RuntimeStats with
--                     DeltaSince, ApplyDelta, InterruptedCount, and normalizeRuntimeLastError, whose
--                     text internal/balancer/pool.go repeats as normalizeLastError.
--   Keystore/Record   internal/keystore/store.go: Record, NormalizeRecord, NormalizeKeys, and the copies
--                     of record maps.
--   Keystore/FileStore      internal/keystore/file_store.go: FileStore with its map, its file and the
--                     errors of the file system. Operations and Statistics have the operations, Calls
--                     sequences of them, Updates and Durable the lemmas.
--   Keystore/AsyncStore     internal/keystore/async_store.go and status_error.go: AsyncStatusStore over
--                     a base store, which OverFile makes of the file store. Worker has the flushes,
--                     Replacement has Replace; Interleaving has the steps of clients and worker.
--   Balancer/Handle   internal/balancer/runtime_stats.go, stats_reset.go and the first half of
--                     performance.go: RuntimeStatsHandle. Counters has RecordSuccess, RecordError,
--                     RecordInterrupted and ClearLastError; Window has recordSampleLocked; Costs has
--                     updateCostsLocked; Lifecycle has NewRuntimeStatsHandle, MergeBaseline and the
--                     reset of one handle.
--   Balancer/Cooldown internal/balancer/pool.go: scaledCooldownDuration.
--   Balancer/KeyState internal/balancer/pool.go and performance.go: KeyState, and the helpers that
--                     change one key: releaseInflightLocked, recordFailureLocked, disableLocked,
--                     enableLocked, syncStatsGeneration, noteSample.
--   Balancer/Pool     internal/balancer/pool.go: NewPoolWithConfigs, isAvailableLocked,
--                     HasAvailableAllowed, LoadTotals, DisableKey, EnableKey, Retire.
--   Balancer/Pick     internal/balancer/pool.go and performance.go: pickRoundRobinLocked,
--                     pickRandomLocked, pickByScoreLocked, pickPerformanceLocked, and Acquire with
--                     AcquireVersioned.
--   Balancer/Settle   internal/balancer/attempt_result.go and pool.go: CompleteAttempt, the five
--                     releases and RecordSample.
--   Balancer/Session  a step relation: callers acquire attempts and settle each with its own index and
--                     version, with the admin's operations between, in any order.
--   Gateway/AggregatePool   internal/gateway/gateway.go: aggregatePool, which picks a child of an
--                     aggregate vendor: the best tier, the strategies within it (Strategies), and
--                     newAggregatePool (Make).
--   Gateway/ErrorPolicy     internal/config/config.go: the policy of errors, and helpers of
--                     internal/gateway/key_policy.go.
--   Gateway/KeyPolicy internal/gateway/key_policy.go: classifyResponse and classifyRequestError, which
--                     turn a failure into the action that Settle carries out.
--   Gateway/ErrorMasking    internal/gateway/error_masking.go: which error is masked and with what;
--                     Validation has validateErrorMaskingRules of internal/config/config.go.
--   Gateway/StatsPersister  internal/gateway/stats_persister.go: deltas, baseline, flush, and in Reset
--                     the reset, which goes through Gateway/StatsRegistry.
--   Gateway/StatsRegistry   internal/gateway/runtime_stats_registry.go: one handle for each key.
--   Gateway/VendorPath      internal/gateway/router.go: splitVendorPath.
--   Config/Vendors    internal/config/vendors.go: the list of vendors and its lookups, SetVendor and
--                     DeleteVendorByID; Naming has ensureVendorIDs and the check of identifiers and
--                     names, of internal/config/config.go.
--   Admin/StatsReset  internal/admin/stats_reset.go: Service.ResetRuntimeStats.
--   Admin/LoginGuard  internal/admin/login_guard.go: Blocked, Failed, Succeeded, and the length of
--                     the lock.
--   Admin/SessionManager  internal/admin/auth.go: the sessions of the administration interface.
--
-- An attempt is acquired from a pool (Pick), runs outside of it, and is settled with the index and
-- version that it was acquired with (Settle). Settling writes the handle of the key, whose costs and
-- totals the next pick reads. A disabling goes to the asynchronous store, which writes it to the file
-- store behind the requests (AsyncStore); the persister writes the growth of the handles' counters to
-- the same store (StatsPersister).
--
-- How the code is modelled:
--   - p.mu is held during every call, so a call is one function from pool to pool. The mutex of a
--     handle is held within it.
--   - Clock readings, the epoch of the scheduler and the draws of Intn are arguments. Time is the
--     number of nanoseconds since the zero Time; Duration is an int64, and its sums wrap.
--   - Indexes and counters are natural numbers: the tests idx < 0 are vacuous, and no counter comes
--     near 2^63. The cursor rrIdx is at most the number of keys.
--   - float64 is a type with the operations that the code calls, so no theorem rests on rounding.
--   - A call of `Intn` is a function of its bound. Where a theorem needs the result below the bound, it
--     says so.
--   - The weights and priorities of children are whole numbers, far from the bounds of an int.
--   - The pool of a child's vendor is a field of the child, as it is at the call.
--   - strings.ToLower is a parameter of the key policy and of the check of a vendor's name. What
--     applyDefaults does to the rest of a vendor is an argument of Config/Vendors. The key policy
--     takes what it reads from a response (the body's text, the credential code, Retry-After, the texts
--     of the reason) as a record.
--   - A map is a list of entries, read from its front (Prelude/Table).
--   - A call of the file system or of a store that may fail takes its error, or the store's state, as an
--     argument, so that theorems hold for every pattern of failures. JSON is not modelled: a file holds
--     the snapshot that it encodes.
--   - sort.Slice is an insertion sort that keeps the order of equal keys.
--   - A lock's critical section is one step. Clients and the worker of the asynchronous store interleave
--     between their critical sections, also between the worker's write of an update to the base store
--     and its settling (AsyncStore/Interleaving); its update numbers wrap at 2^64. Worker has the same
--     flush as one step, for sequences of calls without such interleaving.
--   - Under the asynchronous store, each call of the file store has its own answer of the file system
--     and of the clock (disk_ops in AsyncStore/OverFile).
--   - A key in a pool always has a handle, as NewPoolWithConfigs makes one where it gets none. Keys
--     and handles are held by value within one pool.
--   - Loops are structural recursion over the keys, the candidates or the rounds left. Only the digits
--     of a number are made on fuel: one more than the number, which has no more digits than that.
--
-- Not modelled: ShareRuntimeStateFrom, which shares key states between two pools; Snapshot and Stats,
-- which copy and format; the timers and channels of the two background workers; the text of errors;
-- the methods of a nil Config; everything outside these files, which is HTTP, PostgreSQL, and the rest of
-- the configuration and of the administration.
pub mod Prelude
pub mod Keystore
pub mod Balancer
pub mod Admin
pub mod Config
pub mod Gateway
