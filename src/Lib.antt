-- ===== src/Lib.antt =====
-- FlowMesh: an engine for workflows of asynchronous tasks (src/flowmesh).
--
-- A workflow is a list of tasks that name the tasks they depend on. `Workflow.build_dag` turns it
-- into a `DAG` and refuses unknown dependencies and cycles. While a workflow runs, the scheduler keeps
-- which tasks are completed, failed, running and skipped, and finds the tasks that may start, the
-- important ones first. A task's function is called through `retry_with_backoff` and, if there is one,
-- a circuit breaker; results go to a checkpoint store and a workflow store, and subscribers are told
-- by an event bus. A token bucket limits a rate of calls. Workflows are written with decorators, a builder
-- or a document, or sent to an HTTP interface that keeps them in a store and executes them in the
-- background; requests to the server pass a check of keys or tokens and a limit for each client.
--
-- Prelude and its children: list, counting and dictionary lemmas, Python's sets and dictionaries,
--   the exceptions as values (`Result`), integers, and the stable sort of `list.sort`. A dictionary is
--   an association list in insertion order. A set is a list without repetition, and where the code
--   iterates over a set, a `SetOrder` gives an arbitrary rearrangement of it.
-- Models: the data of src/flowmesh/core/models.py. Ids and creation times are given. `V` is the type
--   of the values that tasks pass on, and a task's function maps keyword arguments to an outcome.
-- Dag: `DAG` and `Workflow.build_dag` of src/flowmesh/core/models.py. The children hold the invariant
--   (Dag/Invariant), Kahn's algorithm step by step (Dag/Start, Dag/Relax, Dag/Drain), what it comes to
--   (Dag/Position, Dag/Topological), the ready nodes (Dag/Ready) and the building of a graph
--   (Dag/Dependencies, Dag/Build).
-- Scheduler: src/flowmesh/core/scheduler.py. The semaphore is left out: nothing acquires it.
-- Breaker: src/flowmesh/patterns/circuit_breaker.py. A call is two sections under the breaker's lock,
--   `admit` before the guarded function runs and `settle` when it has ended, so a list of sections is
--   any interleaving of calls. A cancelled call has no second section that changes anything.
-- Retry: src/flowmesh/patterns/retry.py. Delays are whole ticks, the exponential base is a whole
--   number, and the jitter is a function from the attempt to a factor in thousandths.
-- RateLimiter: src/flowmesh/patterns/rate_limiter.py, with whole ticks and token units. A waiting
--   `acquire` reads the clock from a list; when the list runs out, it is waiting still.
-- Store: src/flowmesh/storage/base.py as a record of operations with their laws (Store/Contract), and
--   the implementation of src/flowmesh/storage/memory.py.
-- Checkpoint: the in-memory store of src/flowmesh/core/checkpoint.py.
-- Events: src/flowmesh/core/events.py. A subscriber is its identity. What comes of its calls, what happens
--   to the bus while `publish` waits for them, and whether it has a `__qualname__`, are parameters
--   (Events/Delivery).
-- Engine: `execute`, `resume`, `_run_loop`, `_execute_task` and `_invoke` of
--   src/flowmesh/core/engine.py. The functions run as a sequence of moves (Engine/Steps), each a
--   stretch between two `await`s, so a list of moves is any interleaving of the loop and the
--   tasks' futures; Engine/Runs is `execute` around the loop, and Engine/Resume is `resume`.
--   Engine/Invariant, Engine/Dispatch, Engine/Moves, Engine/Active, Engine/Running and
--   Engine/Start are about what the moves keep, Engine/Safety about every moment of an
--   execution, Engine/Results and Engine/Arguments about what a function is called with,
--   Engine/Completion about its end, and Engine/Restored about `resume`. What user code does comes with the moves: whether hooks and
--   the checkpoint store raise, when the function is called, whether it runs out of time or a
--   circuit breaker refuses the call. The readings of the clock within one stretch are one
--   reading. An execution has its scheduler for itself, which the source shares between executions at
--   the same time, and `publish` returns.
-- DryRun: `dry_run` of src/flowmesh/core/engine.py. DryRun/Phases is about its phases,
--   DryRun/Extend, DryRun/Longest and DryRun/Critical about its critical path, DryRun/Depth about both together, and DryRun/Plans
--   about what it returns or raises.
-- Schemas, Routes: src/flowmesh/api/schemas.py and src/flowmesh/api/routes.py, over the contract of a
--   store. A handler or background task is one definition for each stretch between its `await`s, and
--   Routes/Responses makes the answers and workflows, Routes/Tracking, Routes/Executions and
--   Routes/Restarts are about sequences of stretches, Routes/Requests about the store.
--   The methods of the store do not suspend, and the store has been configured.
-- Sqlite: src/flowmesh/storage/sqlite.py, its SQL as operations on two tables. A JSON text stands for
--   the value that is read from it: the parameter `json` tells which that is, or that the value cannot be
--   written. An ISO time stands for the time. Sqlite/Rows has the rows, Sqlite/Tables counts them,
--   Sqlite/Reloaded says what a workflow is that was written and read again,
--   Sqlite/Consistency and Sqlite/Operations are about keys and statuses, Sqlite/Reads about reading.
-- Documents: the JSON texts of the two stores that follow, as the values that are read from them.
-- Redis: src/flowmesh/storage/redis.py, its keys as dictionaries and the order of its sorted set as a
--   parameter. Redis/Consistency is about the keys, Redis/Updates about a new status, Redis/Pages about
--   listing.
-- Postgres: src/flowmesh/storage/postgres.py, its SQL as operations on rows, with the times that have
--   a time zone as a parameter `is_aware` (Postgres/Saves, Postgres/Pages).
-- Metrics: src/flowmesh/observability/__init__.py, up to the text of the lines (Metrics/Buckets,
--   Metrics/Counters).
-- Logging: the formatter, the filter and the context of src/flowmesh/observability/logging.py, up to
--   the JSON text (Logging/Contexts). Which records the filters of a logger see is the logging library's.
-- Websocket: `ConnectionManager` of src/flowmesh/api/websocket.py (Websocket/Broadcast). Other coroutines
--   may change the list of connections while `broadcast` waits: a turn of its loop says how.
-- ApiAuth: src/flowmesh/api/auth.py.
-- Decorators: src/flowmesh/decorators/__init__.py; ids are given instead of drawn at random.
-- Dsl: `WorkflowParser` of src/flowmesh/dsl/__init__.py, on documents with fields of the types that
--   tasks take, and in Dsl/Files on the texts and files that a library reads them from.
-- Auth: the API keys, tokens, roles and request limit of src/flowmesh/auth/__init__.py (Auth/Access,
--   Auth/Tokens, Auth/Effects and Auth/Window are about what gets through). The decoding of a token is
--   a parameter.
-- Examples: concrete inputs, what the definitions compute on them, and the theorems applied to them.
--
-- The loops that are not structural run on fuel: that of `topological_sort`, one unit for each node that
-- it takes from the queue, that of the phases of `dry_run`, one for each phase, and the walk back over
-- its critical path, one for each node. The number of nodes is fuel enough, since a node is queued once
-- at most, a phase is not empty, and a path does not come back: running out of fuel is an error of its
-- own, which is none of the outcomes that the results name.
--
-- The in-memory stores copy what they keep and what they hand out, so values stand for objects. Floating-point
-- times and token counts are whole numbers of a small enough unit, without rounding. Log lines and
-- messages of exceptions that carry no data are left out.
--
-- Not modelled: the state of a circuit breaker from one attempt of a task's call to the next, the connections of the stores; `configure_logging`, `health` and the wiring of the application
-- (src/flowmesh/api/app.py), which are calls of libraries; the creation of tokens; and the
-- scripts under examples.
mod Prelude
pub mod Models
pub mod Dag
pub mod Breaker
pub mod Retry
pub mod RateLimiter
pub mod Store
pub mod Checkpoint
pub mod Events
pub mod Scheduler
pub mod Engine
pub mod Decorators
pub mod Dsl
pub mod Auth
pub mod DryRun
pub mod Schemas
pub mod Routes
pub mod Sqlite
pub mod Documents
pub mod Redis
pub mod Postgres
pub mod Metrics
pub mod Websocket
pub mod ApiAuth
pub mod Logging
mod Examples
