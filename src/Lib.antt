-- ===== src/Lib.antt =====
-- mcpcheck: a checker of the tools that an MCP server advertises, and the utility packages beside it.
--
-- The command (cmd/mcpcheck/main.go) reads its flags, loads a tool set from a file, from a live
-- server or from both, runs the registered rules on them and writes the findings. A rule is a record
-- with up to three callbacks: for a tool, for a tool set, and for the comparison of two tool sets.
-- The rules of internal/rules register themselves with internal/v2, which keeps the registry and
-- calls them; internal/output writes what they report.
--
-- Files, and what each models:
-- - Prelude and its children: the names that all modules share; Prelude/Texts has the parts of Go's
--   `strings`, `unicode` and `utf8` that the program calls, Prelude/Sorting its sorts, Prelude/Format
--   `%q`, `%d` and `strings.Join`.
-- - Mcpmodel: internal/mcpmodel/tool.go and the values of encoding/json.
-- - Registry: internal/v2/v2.go. Registry/Register: Register; Registry/Dispatch: Run, RunProject,
--   RunComparison; Registry/Single: rules that report one message; Registry/Names: the tools that
--   findings name.
-- - Rules/SnakeCase, Description, Destructive, Network, FilePath, Required, StaticVsLive, Collision,
--   Pii, Secrets: internal/rules/snakecase.go, description.go, destructive.go, network.go, filepath.go,
--   required_undefined.go, static_vs_live.go, collision.go, pii.go, secrets.go: `check` is the callback,
--   `rule` what is registered. The regular expressions of the last two are a parameter. Rules/Schema:
--   schemautil.go. Rules/OpenProperty: the loop that network.go and filepath.go share.
--   Collision, Pii, Required and StaticVsLive have a child Laws; Rules/Pii/Placeholders: which texts are
--   placeholders and which values are examples.
-- - Output/Ordering, Output/Sarif: internal/output/text.go, rules.go and sarif.go.
-- - Main: cmd/mcpcheck/main.go from the parsed flags to the exit code, with the loaders and standard
--   output as parameters (`World`).
-- - CircuitBreaker: internal/circuitbreaker/circuitbreaker.go. CircuitBreaker/Invariant: one call at a
--   time; CircuitBreaker/Machine: many goroutines, each critical section being a step.
-- - Limiter: internal/limiter/limiter.go. Limiter/Permits: the calls by themselves; Limiter/Waiting: a
--   goroutine that waits in AcquireN, its watcher and the other goroutines.
-- - Kv: internal/kv/kv.go. Kv/Shards: the shards and their indices; Kv/Lookup: what is found behind each
--   change; Kv/Refinement: the store and a plain map.
-- - Scheduler: internal/scheduler/scheduler.go. Scheduler/Due: what runs and what is next;
--   Scheduler/Sleep: how long Start sleeps; Scheduler/Overlap: the guard against overlap.
-- - Scanner: internal/scanner. Scanner/Files: the walk of LoadPythonDir and LoadTypeScriptDir over a
--   tree with symbolic links; Scanner/Python, TypeScript, Json, Dispatch: pyintake.go, tsintake.go,
--   jsonintake.go, dispatch.go. Scanner/Declarations and Scanner/Lines: the lines that declare a tool;
--   Scanner/Offsets: the lines of byte offsets; Scanner/Walks: the files that a walk reads;
--   Scanner/Documents: the JSON documents; Scanner/Roots: directories that are not looked into.
-- - Vfs: `Mem` of internal/vfs/vfs.go. Vfs/Paths: the functions of `filepath` on clean paths;
--   Vfs/Directories: MkdirAll; Vfs/Tree: the parents of entries; Vfs/Contents: WriteFile and Remove;
--   Vfs/Listing and Vfs/Order: ReadDir.
-- - Tokens: internal/tokens/tokens.go. Tokens/Segments: the split at the dots; Tokens/Verification:
--   what Verify accepts.
-- - Retry: internal/retry/retry.go. Retry/Attempts: the loop of Do; Retry/Delays: computeDelay.
-- - Shutdown: internal/shutdown/shutdown.go. Shutdown/Hooks: the deregister functions;
--   Shutdown/Running: the order of the hooks.
-- - Eventbus: internal/eventbus/eventbus.go. Eventbus/Delivery and Eventbus/Subscribers: `Sync`;
--   Eventbus/Queues: the queue of a subscriber of `Async`.
-- - Errgroup: internal/errgroup/errgroup.go, over Limiter. Errgroup/Concurrency: how many goroutines
--   run; Errgroup/Errors: which error is kept.
-- - Fsutil: internal/fsutil/atomic.go. Fsutil/Atomicity: the states that a reader can find.
-- - Cacheutil: internal/cacheutil/async_writer.go. Cacheutil/Workers: the goroutines, step by step;
--   Cacheutil/Tallies: how many are how far; Cacheutil/Outcomes: what one operation does;
--   Cacheutil/Accounts: what the counts say; Cacheutil/Drained: what Flush waits for;
--   Cacheutil/Leaving, Cacheutil/Finding and Cacheutil/Draining: that the workers get there.
-- - Tests: the results at examples.
--
-- How the code is rendered. A text is a list of code points, and a byte offset is a sum of UTF-8
-- lengths. A pointer to a context or a breaker is a value that is passed and returned. A map is the
-- list of its entries in the order of one iteration, and the theorems hold for any such list. A panic
-- and an error are values. A mutex makes its critical section one step, and where the code drops the
-- lock the step takes what happens meanwhile as an argument. Times are numbers of nanoseconds that
-- each call is given. Two loops run on fuel: that of `nextPow2`, as many rounds as its argument, since
-- up to 2 ^ 62 each round adds 1 at least, and above it the source's loop does not end; and the recursion
-- of `mkdirAllLocked`, one round more than its path is long, since each parent is shorter or a root.
-- Every other loop is over a list or a number.
-- Regular expressions, base64, HMAC, the syntax of JSON, float64 arithmetic and `filepath.Clean` are
-- parameters, and what a theorem needs of them is a hypothesis with a name.
-- The tables of Unicode above ASCII are a parameter (`Tables`), since the program reads them from Go's
-- library.
--
-- Not modelled: the live intake of internal/scanner, which is processes and JSON-RPC, the rule that
-- rests on a JSON schema compiler (examples.go, but for extractExamples), JSON encoding, the janitor of
-- the store and its channels, the loops of `Start` and `WaitInflight`, Subscribe and Close of the
-- asynchronous bus, a limiter that groups share, the versioned directory and the compressed encoding of
-- internal/cacheutil, the fakes of internal/tokens, and the utility packages
-- not named above. Counters are taken not to overflow; the size that `nextPow2` doubles and the seconds of
-- `time.Time` in internal/tokens wrap around as in Go. The times of tokens are taken not to be negative, and
-- an object of a tools document to have one key for each field.
pub mod Prelude
pub mod Cacheutil
pub mod CircuitBreaker
pub mod Errgroup
pub mod Eventbus
pub mod Fsutil
pub mod Kv
pub mod Limiter
pub mod Main
pub mod Mcpmodel
pub mod Output
pub mod Registry
pub mod Retry
pub mod Rules
pub mod Scanner
pub mod Scheduler
pub mod Shutdown
pub mod Tokens
pub mod Vfs
pub mod Tests
