-- ===== src/Lib.antt =====
-- Verification library of MapGo, a trip planner with agents (backend/app).
--
-- The parts and how they interact. The agents of a planning task share one task state, which they
-- read and update through `AgentSharedStateManager`. It is kept in a runtime store, in memory or in
-- Redis, whose compare-and-set decides between writers; the same store has the counters of the rate
-- limits, the locks of the workers and their queues. The plan itself is found by the route
-- optimizer, which chooses a place for each task and an order of the tasks. A formal plan is a
-- sequence of numbered versions; it is only changed by a patch, whose operations are applied to the
-- newest version, calculated again by the optimizer's evaluation and committed as the next version.
-- A trip that follows from a plan has a state machine, which a user's requests, the events of the
-- trip and accepted patches move on. Agents that run apart send each other messages along allowed
-- routes, by a transport that gives each message out until it is acknowledged or given up. What a
-- model decides is carried out by the agent runtime, a loop with budgets that calls only the tools
-- that the capability registry and the policy of the role allow; the controller runs the Companion in
-- it on a trip, and records each call of a tool.
--
-- RuntimeStore: backend/app/infrastructure/runtime_store.py, `InMemoryRuntimeStore`. Its
--   attributes are four records, each with the operations that use it: RuntimeStore/Cache
--   (`_values`, `_value_sizes`, `_value_bytes`), RuntimeStore/Counters (`_counters`),
--   RuntimeStore/Locks (`_locks`, `_lock_fences`, `lock_fencing_token`), RuntimeStore/Queues
--   (`_queues`, `_processing`). RuntimeStore/JsonStore is the part of the protocol `RuntimeStore`
--   on JSON values as an interface with laws, and the in-memory store as one that keeps them.
-- SharedState: backend/app/services/agent_shared_state.py and backend/app/schemas/agent_state.py,
--   over any `JsonStore`. SharedState/Phase and SharedState/Access are the tables,
--   SharedState/Types the records, SharedState/Manager the operations `read`, `update`,
--   `initialize` and `sync_formal_route_plan`, SharedState/Updates and SharedState/Guarantees the
--   theorems. SharedState/Views is `read_for_agent`.
-- Trip: Trip/State is backend/app/services/agent_state.py, Trip/Events
--   backend/app/services/trip_events.py, Trip/Policy backend/app/services/agent_policy.py, and
--   Trip/Session the endpoints `transition_trip` and `ingest_event` of
--   backend/app/api/companion.py.
-- Route: backend/app/services/route_optimizer.py over the records of
--   backend/app/schemas/ai_intent.py, which are in Route/Types. Route/Visits is the loop of
--   `evaluate_joint_order` with its body, Route/Evaluation what is around it, Route/Orders the
--   comparisons of orders, Route/Enumeration `itertools.product` and `itertools.permutations` with
--   `_factorial`, Route/Beam `_beam_joint`, Route/Optimizer `_evaluation_key` and
--   `optimize_joint_route`. Route/Evaluation/Stops and Route/Evaluation/Timetable are about a
--   feasible evaluation, Route/Optimizer/Candidates, Best and Exact about the search.
-- Patches: backend/app/services/plan_patch_validator.py is Plan/Patch (`apply_patch_structure`)
--   and Plan/Recalculation (`recalculate_and_validate_snapshot`), with the columns of a plan in
--   Plan/Snapshots. Versions: Plan/Versions is backend/app/services/plan_versioning.py,
--   `apply_plan_patch_cas`, with the columns of backend/app/models.py in Plan/Tables, and
--   Plan/Versions/Acceptance `decide_plan_patch` of backend/app/api/ai_planner.py where the user
--   accepts. Plan/Recalculation/Placed and Schedule follow the stops through the calculation,
--   Plan/Versions/History puts the transactions in sequence, and Plan/Versions/Log has the log of a
--   run that the rows of its versions stand for.
-- Transport: the messages between agents. Transport/Protocol is
--   backend/app/services/agent_protocol.py (`ROUTES`, `_authorize`, `validate`), Transport/Memory
--   `InMemoryAgentMessageTransport` of backend/app/services/agent_transport.py, with what each
--   operation does to the messages of a channel in Transport/Memory/Held and Transport/Memory/Letters. Transport/Worker is
--   `AgentTaskWorker.run_once` of the same file with the checks of `RecoverableAgentMessageBus`.
--
-- Agents: Agents/Registry is backend/app/services/agent_tool_registry.py, Agents/Runtime
--   `AgentRuntime` of backend/app/services/agent_runtime.py: its checks in Agents/Runtime itself,
--   one turn of the loop in Agents/Runtime/Loop, and `execute` in Agents/Runtime/Execute.
--   Agents/Decider is `RuleBasedAgentDecider` of backend/app/services/agent_decider.py, and
--   Agents/Controller `run_once` of backend/app/services/agent_controller.py, which asks
--   Trip/Policy what the Companion may do and has the calls of the manager of the shared state as
--   a record, which Agents/Controller/Shared fills with SharedState/Manager. Agents/Runtime/Turns tells what one turn adds, and
--   Agents/Runtime/Induction is the invariant rule of the loop.
--
-- Conventions. A method of an object is a function from its arguments and its state to its answer
-- and the new state; what the asyncio lock makes atomic is one function. Clock readings are whole
-- seconds, for messages milliseconds, and are arguments; where an operation awaits between two
-- calls of the store, the two calls have store states of their own, so that anything may happen in
-- between. Exceptions are values. A Python dictionary is the list of its items in insertion order.
-- The `json` module, Pydantic and SHA-256 are parameters with what the code relies on as laws; the
-- check of a message's content against its schema is a parameter too. The loop that evicts values
-- runs on as much fuel as there are values, and each round takes one away; `str` of a number runs
-- on fuel above the number.
--
-- Floats are a record `Python` of numbers with the operations that the optimizer uses, of which
-- nothing is assumed; its datetimes are microseconds. The messages of conflicts are the
-- constructors of a type. The matrix of the map provider, and the solution that OR-Tools finds, are
-- arguments. A transaction has two states of the database, the one that it reads and the one that
-- it commits to, and the commit checks the unique constraints of `plan_versions` and `trip_events`.
-- The columns with JSON texts hold the values that they stand for. A lookup that would raise
-- KeyError or IndexError is `none`. `permutations` takes as many rounds as there are tasks, and the
-- beam search one for each task; the loop of the agents takes one for each step that its limit
-- allows. What a model or a tool answers may depend on the index of its step. That Pydantic refuses
-- a step is `none`, as is every other exception that leaves `execute`.
-- What other tasks do to the messages while a worker's handler runs is a function of the transport.
--
-- Not modelled: metrics and logging, `RedisRuntimeStore` (commands of an external server),
-- subscribers of `publish`, the search of OR-Tools, the Redis streams of messages, the queries and
-- the HTTP interface around the endpoints, the agents but for the loop that runs them; of a run of
-- the Companion the messages that trace it, of which it is only told whether they can be built, and
-- the snapshot and the deletion of the shared state; the rejection of a patch, which writes no
-- version, and the deletion of an account with its plans.
pub mod Prelude
pub mod RuntimeStore
pub mod SharedState
pub mod Trip
pub mod Plan
pub mod Route
pub mod Transport
pub mod Agents
