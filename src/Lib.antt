-- ===== src/Lib.antt =====
-- Verification of the core of YouMi Agent, a multi-agent framework in Python: the parts that decide
-- what runs, in which order, how often and for whom. Paths are those of the repository.
--
-- The program's parts, and how they work together: a master agent turns a request into a workflow
-- plan and executes it step by step with sub-agents (youmi/coordinator/plan.py); the agents talk over
-- a message bus (youmi/bus); each agent keeps a small set of tools at hand (youmi/mcp/context.py),
-- whose versions follow one policy (youmi/core/versioning.py) and which it gets on approval
-- (youmi/mcp/approval.py), and remembers its messages (youmi/memory); plugins hook into its loop
-- (youmi/core/hooks.py); calls of models and tools are retried and guarded by circuit breakers
-- (youmi/core/resilience.py); tasks from outside come in through a gateway (youmi/gateway), which asks youmi/security/auth.py who
-- sends them, and tasks that come back at intervals from a scheduler (youmi/scheduler).
--
-- Which file models which part:
-- - Prelude, with Prelude/Tests, Prelude/Lists and Prelude/Int: the library names that the others
--   share, Boolean tests on native numbers, lists measured by them, and Python's `int`.
-- - Dict: Python's `dict` with string keys, in insertion order. `d[k] = v` is `insert`, `d.get(k)` is
--   `lookup`, `d.pop(k, None)` is `remove`.
-- - Breaker: `CircuitBreaker` of youmi/core/resilience.py. The mutable object is a record, a method
--   takes it and returns the new one, and `before_call` returns whether it raised. Breaker/Calls is
--   `call`, split at its `await` into the events that other calls may come between. Breaker/Registry
--   is `CircuitBreakerRegistry`.
-- - Retry: `compute_backoff_delay` and `retry_async`; the wrapped call is a function from the number
--   of the attempt to how it ends.
-- - Text: strings as lists of code points, with `strip`, `split`, `lower`, `in` and `int`.
--   Version: youmi/core/versioning.py.
-- - ToolContext: the state, `recycle` and `reset` of `AgentToolContext` (youmi/mcp/context.py);
--   ToolContext/Operations has the other operations, and ToolContext/Operations/Histories its calls in
--   any order.
-- - Gateway: the records of youmi/gateway/models.py; Gateway/Registry is youmi/gateway/registry.py,
--   Gateway/Worker is `_execute` of youmi/gateway/worker.py and `submit` of youmi/gateway/service.py,
--   Gateway/Events is youmi/gateway/events.py, Gateway/Pool is youmi/gateway/queue.py with the
--   workers of youmi/gateway/worker.py, Gateway/Worker/Streams is what a worker publishes as events,
--   Gateway/Wiring is how the service and the worker pool come by their registries.
-- - Plan: the data of youmi/coordinator/plan.py. Plan/Order is `get_execution_order`, Kahn's
--   algorithm by layers.
--   Plan/Validate is `validate` with `_detect_cycle`,
--   Plan/Step is one step's attempts, and Plan/Executor is `WorkflowExecutor` with serial layers.
-- - Bus: the messages of youmi/bus/message.py. Bus/Broker is `InProcessBroker` of
--   youmi/bus/broker.py, and Bus/Broker/Histories its calls in any order.
-- - Plan/Executor/Parallel: the layers whose steps run at the same time, as turns in any order.
-- - Approval: `ApprovalManager` of youmi/mcp/approval.py, with Approval/Histories for its calls in any
--   order.
-- - Auth: youmi/security/auth.py.
-- - Scheduler: youmi/scheduler/__init__.py, with Scheduler/Calls for its calls and the turns of its
--   coroutines in any order.
-- - Hooks: `HookRegistry` of youmi/core/hooks.py; Hooks/Registrations has its calls in any order.
-- - Memory: youmi/memory/strategies/full.py. Memory/Lstm is youmi/memory/strategies/lstm.py, and
--   Memory/Sessions its calls in any order.
-- A module's children hold its theorems, in a file named for what they are about, and Examples has
-- each theorem at a concrete input.
--
-- Conventions: a shared object is passed on as a state, `await` and locks are the places where a
-- history of events may put other events, exceptions are values, and code outside the repository
-- (an LLM, a sub-agent, a clock, a random number) is an argument. Times and waits are natural
-- numbers of some small unit where the source has floats, so that the source's overflow of a float (at
-- 2 ** 1024, in the backoff after the 1025th attempt) does not appear; numbers that the source lets run
-- below zero are integers (Prelude/Int).
--
-- Fuel: the loop over the layers takes one round more than the plan has steps, the search for a
-- cycle has fuel for one call more than there are steps, and `retry_async` takes max_retries + 1
-- rounds; each is shown to end within that. Decimal digits take as much fuel as the number, and all
-- other loops are structural. Where fuel runs out the model returns none, and theorems claim a
-- result, not only what holds of one.
--
-- Not modelled: the ReAct loop and everything that prompts an LLM, the stores on SQLite, HTTP,
-- WebSocket and subprocess input and output, log lines, and the free-form metadata that no
-- operation reads.
pub mod Prelude
pub mod Approval
pub mod Auth
pub mod Breaker
pub mod Bus
pub mod Dict
pub mod Gateway
pub mod Hooks
pub mod Memory
pub mod Plan
pub mod Retry
pub mod Scheduler
pub mod Text
pub mod ToolContext
pub mod Version
