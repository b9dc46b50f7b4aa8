-- ===== src/Lib.antt =====
-- ATLAS: the agent runtime of backend/atlas.
--
-- A user gives a goal. The run manager (backend/atlas/runtime/manager.py) has a planner split it
-- into tasks, runs each task with an executor that thinks and calls tools, has a reflector judge
-- each attempt (accept, retry, replan, abort), and has a synthesizer compose the answer. Each step
-- is an event of an append-only ledger. A budget caps the calls of models and tools, a
-- cancellation may come at any moment, and after a crash the ledger is folded to find out what the
-- interrupted run had reached.
--
-- Which file is about which part:
--   Base             tests on Booleans and numbers, lists, Python strings as lists of code points
--   Core             JSON values, Python's built-ins, and the settings (core/config.py)
--   Events           events/types.py, events/hub.py (Hub); Gapless is about the numbering of the
--                    ledger, Hub/Queues about one subscription
--   Api/Stream       the stream of api/ws.py and the steps of the server around it; Windows, Backlog,
--                    Cursor, Followed and Delivery are about what it sends, Closed about its
--                    end, Drained about how it catches up
--   Api/Routes       the routes of runs, memories and metrics of api/routes.py; Kept is about what
--                    is left of a memory that a user pins or deletes
--   Agent            agent/: Schemas, Prompts, Jsonio, Envelope, Planner (_decide, plan, replan; Plan
--                    for _parse_plan, Normalize for _normalize), Executor (Rounds about the calls
--                    that one run of it makes), Reflector (Verdict for
--                    _parse_reflection, Range for its confidence), Context, Synthesizer; Jsonio/Balanced
--                    writes objects by a grammar; Fields reads pydantic fields, and
--                    Turns is the turn of a repair, which three loops share
--   Persistence      the repositories of persistence/repositories.py on the tables of models.py:
--                    Runs, Tasks, Attempts, Ledger, Memories; Tasks/Status, Listed and Fresh are about
--                    which tasks are open, Memories/Owners about the memory of a run, and
--                    Memories/Retention has prune, and Counted, Retained and Pruned are about the bound
--                    on active memories
--   Runtime/Budget   RunBudget of runtime/budget.py; its wrappers of the gateway and the registry are
--                    complete_as and execute_tool of Process/Effects
--   Runtime/Manager  RunManager: Finalize (the finalizers and task events), Attempt (_run_task,
--                    _escalate, _graceful_abort), Replan (_do_replan), Tasks (_run_tasks), Execute
--                    (_execute, _plan, _synthesize, create_run); Kept, Bounded and Sequence are about
--                    whole runs, Settled about how one is finalized, Outcome about how one
--                    ends, in the order of its parts: Stages (what holds between two steps),
--                    Attempts, Ladder, Rounds, Replans, Passes, Generations, Delivered, Phases, Ends;
--                    Remembering puts the manager and the memory together, Appended is about the
--                    ledger, Replayed about its replay, Once about the one event that ends a run, in
--                    the order of its parts (Rules, Finalizers, Attempts, Generations), Streamed about
--                    the tokens of the answer; Cancels has cancel_run, _cleanup and the signal of
--                    shutdown
--   Tools, Llm       tools/base.py and tools/registry.py; Files has the file tools of tools/files.py on
--                    a POSIX disk, and Files/Jailed their path jail; Calculator the walk of
--                    tools/calculator.py, Calculator/Checked about what it refuses; the messages of llm/gateway.py
--   Memory           what the manager asks of memory/service.py, as an interface, and memory/:
--                    Schemas, Tokens and Ranking (ranking.py; Chosen, Limits, Varied, Gated about what
--                    it selects), Writer, and Service with the recall of recall.py and store.py
--   Obs              obs/metrics.py: Labels (_Base, _esc_label, _fmt), Counters (Counter, Gauge),
--                    Histograms, Registry, Runtime (RuntimeMetrics); Escaped, Buckets, Observed and
--                    Recorded are about what is read back, counted and recorded
--   Recovery         recovery/replay.py, recovery/reconciler.py and recovery/integrity.py; Track has
--                    the state machine of a run's status, Track/Ledger what an event makes of it, Interrupted what is made of an interrupted
--                    run, Integrity/Clear what the check of the store reports
--   Process          state and exceptions, EventEmitter.emit, and rules to reason about actions
--   Tests            concrete runs
--
-- A coroutine is an action: a function of the state (database, budget, clock, lessons) that returns
-- a value or an exception, and the state, in which what was written before the exception stays.
-- A session of the database is one function on the tables. A run id is a number, since it is a
-- hexadecimal uuid. Every call that leaves the process, and every look at the cancellation flag,
-- advances a clock, so that providers, tools and whoever cancels may act differently each time;
-- they are arbitrary functions of the clock. The state also counts the calls that have reached the
-- provider and the tools, beside the counters of the budget, which the code keeps. A session or an emit
-- of the memory service may fail at any moment, before it has changed anything. Python's own functions (json.loads, repr, float of a
-- string) are the fields of the parameter Python, the arithmetic of doubles those of Arithmetic, and
-- what is asked of SQLite's full-text search those of Sqlite. One emit is one step, as the lock of the emitter
-- makes it; one run is executed at a time.
--
-- Fuel: the attempt loop has agent_max_retries + 1 rounds, since each round but the last uses up a
-- retry of the task, and the loop over generations has agent_max_replans + 1, since each one but the
-- last uses up a replan. The loops that repair a reply recurse on the repairs that are left, and the
-- executor on its iterations. Running out is an exception of its own, out_of_fuel, which no code
-- catches.
--
-- Not modelled: the wording of prompts (a prompt is a symbol with its arguments), timestamps
-- of runs and tasks, the routes of health, readiness, tools and the list of runs, the web tools, logging,
-- SQL set-up, failures of the database outside of the memory service, and asyncio's bookkeeping of tasks.
pub mod Base
pub mod Core
pub mod Events
pub mod Agent
pub mod Persistence
pub mod Runtime
pub mod Tools
pub mod Api
pub mod Llm
pub mod Process
pub mod Memory
pub mod Obs
pub mod Recovery
pub mod Tests
