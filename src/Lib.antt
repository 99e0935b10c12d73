-- ===== src/Lib.antt =====
-- AgentForge: a durable runtime for agents that call tools, modelled and verified.
--
-- A run is a conversation with a model that may ask for tools. `AgentLoop.run`
-- (app/core/runtime/loop.py) claims a run in the run store, and then, until the model answers or a
-- bound is met, asks the model for a step, executes the tool calls of that step, commits the step
-- and renews its lease. A tool call goes through the tool ledger (app/core/tools/execution.py),
-- under a key that is computed from the run, the step, the tool and its arguments, so that a second
-- attempt replays what the first one recorded. The loop reaches its collaborators through the ports
-- of app/core/ports.py.
--
-- The files, each with the code that it models:
-- Errors (app/core/runtime/errors.py): the exceptions as the constructors of `Exc`, and their
-- texts.
-- Effects: Python code that may raise (`Result`), and code that runs against an outside world
-- (`Prog`), which returns, raises or runs out of fuel; rules for what such a program ends with and
-- yields.
-- Json: parsed JSON and `json.dumps(..., sort_keys=True)`.
-- Messages (app/core/runtime/messages.py), with Messages.Wire for `block_from_dict` and
-- `blocks_to_wire`.
-- State (app/core/runtime/state.py), Policy (app/core/runtime/policy.py), Retry
-- (app/core/runtime/retry.py).
-- Tools.Spec (app/core/tools/base.py), Tools.Registry (app/core/tools/registry.py),
-- Tools.Calculator and Tools.Builtin (app/core/tools/builtin), and what a call of the calculator
-- gives, in Tools.Answers and Tools.Default.
-- Idempotency (app/core/runtime/idempotency.py), with Idempotency.Key for `invocation_key` and, in
-- Idempotency.Canonical, what it is for arguments in another order; Json.Order has the order that
-- sorts their fields.
-- Ports (app/core/ports.py): records of functions over a world.
-- Execution (app/core/tools/execution.py): `execute_invocation`, with Execution.Later for what may
-- lie between two attempts.
-- Ledger.Memory and Store.Memory (app/adapters/db/memory.py): `InMemoryToolLedger`, whose
-- `needs_review` is `mark_needs_review` here, and `InMemoryRunStore`, with its records and helpers
-- in Store.Records. Ledger.Port and Store.Port make ports of them over the record of World.
-- Store.Steps has the histories of the store as a step relation.
-- Database (app/adapters/db): the tables of PostgreSQL as an interface with laws, Database.Tables,
-- and lists of rows that keep the laws, Database.Rows.
-- Ledger.Postgres (app/adapters/db/tool_ledger.py): `PostgresToolLedger`.
-- Store.Postgres (app/adapters/db/run_store.py, app/adapters/db/models.py): the rows in Models,
-- what is written and read back in Records, the operations in Runs and Leases. Store.Postgres.Kept
-- has the transactions of the store as a step relation, and Store.Postgres.Abandoned says which
-- runs the recovery scan is for. Store.Contract is what app/core/ports.py promises of leases, as an
-- interface that both stores fill; `finish`, which takes no worker, clears the lease of its run
-- whoever holds it.
-- Queue (app/adapters/queue, app/workers/tasks.py): Queue.Fake is `FakeTaskQueue` with its worker,
-- Queue.Celery the publishing of `CeleryTaskQueue`, Queue.Worker the body of the worker's task.
-- Llm (app/adapters/llm): Llm.Fake is `FakeLLM` with the builders of scripts, Llm.Anthropic the
-- translations of `AnthropicClient`.
-- Loop (app/core/runtime/loop.py): Loop.Deps is `__init__`, Loop.Blocks the small helpers,
-- Loop.Dispatch `_execute_all`, `_execute_one` and `_execute_durable`, Loop.Attempts
-- `_attempt_step`, Loop.Turns the local variables of `run`, `_conversation` and the readings of a
-- response and of an exception, and Loop.Drive `run`, `_commit`, `_fail` and `_pause`.
-- Loop.History is what the loop relies on of its store, as an interface, `StoresRun`, that
-- Store.Durable fills for the store in memory and Store.Postgres.Durable for PostgreSQL, whose
-- ports are Store.Port and Store.Postgres.Port. Loop.Tracking sets the local variables of `run`
-- against that history, Loop.Untouched follows what an attempt leaves alone, and Loop.Durability
-- and Loop.Resumed put the two together.
-- Settings (app/settings.py): the fields with their defaults and bounds.
-- Workers (app/workers): Workers.Celery is `build_celery_app`, Workers.Resources
-- app/workers/runtime.py and `get_settings`; its module state and the cache are fields of
-- `Process`.
-- Prompts (app/adapters/prompts.py): `load_prompt`, with the cache of its decorator as a field of
-- `Loader`.
-- Migrations (alembic/versions): Migrations.Runs, Migrations.Invocations and Migrations.Retries are
-- the three migrations, as lists of the operations that they call, and Migrations.Metadata is what
-- app/adapters/db/models.py declares to Alembic. That a column counts up by itself is left out.
-- Tests: runs on concrete values, among them a whole run of the loop.
--
-- Conventions. A UUID is its number, and `show_uuid` its text. Times are natural numbers: the
-- limits are in milliseconds, the loop's clock in ticks of 50 microseconds, so that the reserve of
-- 5% is exact, and the store's clock in microseconds; where an operation of the store reads the
-- clock twice, both readings are one. A backoff delay is exact, for a random fraction k / 2^53, and
-- the sleep is rounded down to a tick. A JSON number is kept as its text. The local lists of `run`
-- are fields of `LoopState`, and an `except` clause is a function of the exception.
-- `asyncio.timeout` is an entry into and an exit from a block in which any call may raise a
-- cancellation, which leaves the block as a `TimeoutError`.
--
-- Fuel. `drive` has a round for each step below the cap and one more, `attempts` a try for each
-- allowed number and one more, and `poll` a round for each tick up to the deadline and one more,
-- since every round sleeps at least a tick. Running out of fuel is an outcome of its own.
--
-- Parameters: the model, the handlers of tools, the pydantic models, the prompt loader, the queue,
-- the clock, the random numbers, the new UUIDs and sha256. What the termination of polling relies
-- on is named `TimePasses`: reading the event loop's clock changes nothing, a sleep that returns
-- has passed at least the time asked for, and a lookup does not turn the clock back. What a run's
-- durability relies on is named `LeavesAlone` (the model, the tools, the ledger, the queue and the
-- clock do not write to the run's own rows; nor, while the lease is held, does another worker) and
-- `RepliesReplayably` (the blocks of a response have the types and the fields that can be stored).
-- What the replay of an invocation relies on is named `KeepsLedger`: a handler does not write to
-- the ledger itself.
--
-- The database is a parameter as well: its tables are types of their own, with reads and writes
-- whose laws are named `IsTable`, `IsChildren` and `IsSchema`: a SELECT reads what was written, an
-- INSERT that violates a constraint raises `IntegrityError` and any other succeeds, an UPDATE
-- rewrites the row of its key. A transaction is one step, which commits whole or, where it raises,
-- changes nothing; the clocks of the database and of the worker are one argument. So are the `ast`
-- module's parser and the arithmetic of Python's numbers, of which `IsArithmetic` names what the
-- calculator relies on: the operators raise `ZeroDivisionError` and `OverflowError` only, and a
-- sign makes no small number too large. So are `uuid.UUID`, Celery's `send_task`, the SDK of the
-- model, the directory of the prompts, and what a worker process uses of asyncio and SQLAlchemy, of
-- which `HostLaws` names what is relied on: a new loop is open until it is closed, a coroutine runs
-- on a loop that is open, an engine is built, without a connection, from a URL that can be parsed,
-- which the settings are taken to have, and its disposal closes it. What the migrations rely on is
-- named `IsPostgres`: an operation has its documented effect on the catalog, where it is possible,
-- and a table whose name is taken is refused.
--
-- Not modelled: the statements of two transactions interleaved, save that the scan for abandoned
-- runs passes over rows that others have locked; failures of the database other than a violated
-- constraint; what configures the engine (app/adapters/db/session.py); the clock itself
-- (app/adapters/clock.py), the API (app/main.py, app/api), which serves one constant, and what
-- connects Alembic to the database (alembic/env.py); a cancellation of the whole task from outside;
-- unprintable characters outside ASCII in `repr`.
pub mod Database
pub mod Effects
pub mod Errors
pub mod Execution
pub mod Idempotency
pub mod Json
pub mod Ledger
pub mod Llm
pub mod Loop
pub mod Messages
pub mod Migrations
pub mod Policy
pub mod Ports
pub mod Prelude
pub mod Prompts
pub mod Queue
pub mod Retry
pub mod Settings
pub mod State
pub mod Store
pub mod Tests
pub mod Tools
pub mod Workers
pub mod World
