-- ===== src/Lib.antt =====
-- The workflow engine of landc-go, with the in-memory parts it stands on and the scheduler beside it;
-- of the tools, the LRU cache, with the limiters and verification codes over it, and the functions on
-- integers; and, of the web framework, the circuit breaker, the websocket hub, the sessions, the
-- database migrations, the module manager, the parser of command lines, and the balancers and the
-- resolver of services.
--
-- A workflow is a graph of nodes. `StartWorkflow` makes an execution of it and starts a goroutine,
-- which builds the graph, refuses it if it has a cycle, and runs the nodes in batches: first the
-- root nodes, then again and again the nodes whose dependencies are completed. Executions and tasks
-- are kept in a store, whose update of an execution is an optimistic lock; pausing, resuming and
-- cancelling go through the same update.
--
-- Model (workflow/pkg/model/model.go, status.go): the records `Workflow`, `Node`, `Edge`,
--   `Execution`, `Task`, `Worker`, the statuses, `is_valid` (IsValid), `can_transition`
--   (CanTransition), `execution_is_final` and `task_is_final` (IsFinal).
-- Dag (workflow/pkg/engine/dag.go): `Dag.Cycle` is detectCycle, with the closure's variables as the
--   record `Search`; `Dag.Graph` is NewDAGGraph with `add_nodes` and `add_edges` for its two loops,
--   and the queries; `Dag.Topological` is TopologicalSort, with the body of its inner loop as `lower`.
--   The other modules prove: Colors, Fuel, Acyclic, Found and Verdict about the search, Build and
--   Order about the graph, Ready, Flow and Progress about what is ready, Remaining, Kahn, Settled,
--   Sorted, Roots and Linear about the topological sort.
-- Store (workflow/pkg/store/memory_store.go): `Store.Memory` has MemoryStore and every operation,
--   by its name in snake case; Versions is about the optimistic lock, Listing about the listings.
-- Idempotent (workflow/pkg/idempotent/idempotent.go): the checker in memory.
-- Engine (workflow/pkg/engine/engine.go, context.go, hooks.go): `Engine.Node` is executeNode and
--   handleNodeFailure, with GetInput; `Engine.Loop` is executeDAG; `Engine.Api` is StartWorkflow,
--   PauseWorkflow, ResumeWorkflow and CancelWorkflow, `Engine.Execute` is executeWorkflow and
--   failExecution. Rounds, Effect, Steps, Complete and Smooth prove what a run does, Once and
--   Pausing what the calls do, Keeps,
--   Closing and Outcome what executeWorkflow leaves in the store.
-- Retry (workflow/pkg/executor/executor.go): the retry strategies and RetryableExecutor.
-- Lock (workflow/pkg/lock/memory_lock.go): the lock in memory; Exclusion proves that locks exclude
--   each other.
-- Breaker (frame/pkg/middleware/ratelimit.go): the circuit breaker; Opening proves when it is open.
-- Cache: `Cache.Lru` is lruCache (tools/cache/cache.go), by the names of its methods, the cleanup
--   goroutine being a call per tick; `Cache.Scoped` is ContextCache; `Cache.Local` is LocalCache and
--   its adapter (frame/pkg/cache/cache.go, tools_adapter.go). Entries, Bounds, Reads and History
--   prove what the cache holds.
-- RateLimit (tools/ratelimit/cache_limiter.go): the interface Cache as a record of operations
--   (`CacheOps`) with its laws (`IsCache`), which `Cache.Local` implements, and the two limiters.
-- VerifyCode (tools/verifycode/manager.go): the manager of verification codes over that interface.
-- Hub (frame/pkg/websocket/websocket.go): the hub; each case of its loop is a function, and
--   `Hub.Rooms.Step` lets them come in any order, with the calls on connections between them.
-- Session (frame/pkg/session/session.go): the middleware around an arbitrary handler, which may
--   send the answer, whose header then takes no cookie any more, over the
--   interface Store as a record of operations (`StoreOps`) with its laws (`IsStore`), which the
--   store in memory implements (`Session.Memory`); Persist is about one request and the next.
-- Scheduler (workflow/pkg/scheduler/scheduler.go): the worker over the store in memory. Beats is about
--   the workers that share a store: their heartbeats, starts, polls and cleanups; Dispatch about the tasks
--   that a poll skips, Reload about a run that loads them.
-- Registry (frame/pkg/registry/registry.go): service instances, RoundRobinBalancer (Rounds),
--   WeightedBalancer (Weights), whose answer may be a panic, and the resolver with its cache
--   (Resolving).
-- Di (frame/pkg/di/module.go): modules and the module manager. Starting and Closing are about Use
--   and Close, Retry about a module that is used again.
-- Migrate (frame/pkg/db/migration.go): the migrator over a database that is a parameter (`Db`), with
--   the laws that it relies on (`Migrate.Laws`). Up, UpTo and Down are about the calls of these names.
-- Parser (frame/pkg/cmd/parser.go): the parser of command lines; a round of its loop is `move`.
--   Printing is about command lines that are printed from their parts.
-- Num (tools/num/number.go): functions on integers. Primes and Trial are about IsPrime, Divisors about
--   GCD, Sequences about Fibonacci and Factorial.
-- Prelude has what these share: tests of numbers, lists, maps, sorting, results. Examples applies
-- the theorems to concrete data.
--
-- State and time. A Go map is an association list on texts; a pointer that may be nil is an Option;
-- an instant is a number given to the call that reads the clock. Go's `int` is the type of integers,
-- without a bound, where it may be negative; it wraps at 64 bits in IsPrime, Fibonacci and Factorial,
-- in the sums of the weighted balancer, and in the counter of the LRU cache. Each operation of the
-- store, the checker, a lock, the breaker and a cache holds a mutex for its whole length, so it is
-- one step; so is each case of the hub's loop, which one goroutine runs. The nodes of a batch run in
-- Go as goroutines; they write under their own keys, and run here one behind the other. What the
-- context and the pause channel answer is a parameter of a run, round by round, and so is whether
-- the context ends by a cancellation or by its deadline. The map and the list of the LRU cache, which
-- every call changes together, are one list, so that a difference between the two has no model.
--
-- Parameters. The executors' answers (behind their retries in a run, one by one in `Retry`), the
-- registry of executors, the ids drawn by the uuid packages, the JSON library, the SHA-256 digest,
-- the draws of a random source and the backoff on float64 are arguments (`Env`, `Context`, `Codec`,
-- `World`); so are the handlers behind the session middleware, the database behind the migrator (`Db`), the
-- functions of a module and the registry of services in etcd (`Registry`).
--
-- Fuel. `detect_cycle` recurses on one more than the number of ids it can meet, and `execute_dag` on
-- two more than the number of nodes; `topological_sort` takes one round for each id in the queue and
-- each counter above zero, of which no round makes more. The loop that shrinks a cache to its
-- capacity recurses on the number of its entries, of which each round takes one away. `gcd` recurses
-- on one more than its second argument, which each round makes smaller, and the trial division of
-- `is_prime` on the number itself, of which each round passes six.
--
-- Not modelled: observers, logging, trace spans, event channels and debug stepping, which decide
-- nothing in what is modelled; the timer of PauseTimeout; GetExecutionTracing,
-- WaitExecution, RunNode and the resolution of templates; the stores and locks over gorm and Redis,
-- the executors; the network side of the hub; the listing of migrations by Status; the rest of frame, tools, api, log
-- and saas.
mod Prelude
pub mod Model
pub mod Dag
pub mod Store
pub mod Idempotent
pub mod Cache
pub mod RateLimit
pub mod VerifyCode
pub mod Retry
pub mod Hub
pub mod Session
pub mod Migrate
pub mod Num
pub mod Registry
pub mod Scheduler
pub mod Di
pub mod Parser
pub mod Lock
pub mod Breaker
pub mod Engine
pub mod Examples
