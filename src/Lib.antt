-- ===== src/Lib.antt =====
-- Heike: a runtime that runs agents in a fixed loop behind policy checks.
--
-- An adapter hands an event to the ingress (internal/ingress), which drops events that came before
-- (internal/idempotency), routes the rest, resolves the session of each and puts it on one of two
-- bounded queues. The scheduler (internal/scheduler) submits events of its own, one for each task
-- that is due. A worker takes events off a queue and has the orchestrator run the cognitive engine
-- (internal/cognitive): plan, think, act and reflect, until an answer or the turn limit. Acting
-- calls tools (internal/tool) behind the policy engine (internal/policy), thinking calls models
-- through the model router (internal/model), and the response goes back to the adapter that the
-- session came from (internal/egress).
--
-- The files and what they model:
--   Prelude        texts, maps as association lists, lists and tests on numbers
--   Errors         internal/errors/errors.go: categories, wrapping, what may be retried
--   Policy         internal/policy/engine.go: Check, Resolve, ConsumeQuota, IsGranted and approvals
--   Tool           internal/tool: Registry (tool.go), Validator (validator.go), Runner (runner.go),
--                  Session (builtin/exec_session.go: the output buffer)
--   Idempotency    internal/idempotency/store.go: CheckAndMark, Prune, Save
--   Cognitive      internal/cognitive: Context (context.go) with Prune, Engine (engine.go) with Run,
--                  Actor (actor.go), Structured (structured_response.go and the attempts of
--                  planner.go and reflector.go)
--   Ingress        internal/ingress: Event (event.go, router.go), Resolver (resolver.go and the
--                  session index of internal/store/worker.go), Queues (ingress.go: Submit)
--   Egress         internal/egress/egress.go: Register, Unregister, Send, Health
--   Scheduler      internal/scheduler: Store (store.go), Engine (engine.go: the tick and its pass)
--   Lane           internal/worker/worker.go and internal/concurrency/lock.go: the workers' steps
--                  over the session locks
--   Orchestrator   internal/orchestrator/task/coordinator.go: Batches (resolveExecutionBatches), Dag
--                  (ExecuteDAG, executeBatch, executeTask); manager.go: Normalizing
--                  (normalizeSubTasks, defaultSubTasks), Skills (applySkillContext, selectSkills)
--                  and Requests (HandleRequest and its two ways), Parsing (what the decomposer makes
--                  of an answer); tool_broker.go and capability_catalog.go: Tools. internal/orchestrator: Kernel
--                  (kernel.go), Command (command/handler.go), Session (session/manager.go)
--   Daemon         internal/daemon/manager.go: Order (validateDependencies, resolveInitOrder),
--                  Lifecycle (AddComponent, Start and what it calls)
--   Store          internal/store/worker.go: Lines and Transcripts (appendTranscript, checkAndRotate,
--                  readTranscript, resetSession)
--   Model          internal/model/router.go: Route with its fallback, RouteEmbedding
--   Examples       the theorems at concrete inputs, and small tests
-- The children of a component that are not named above hold its proofs.
--
-- How state and calls are modelled. A struct behind a mutex is a record, and a method that locks it
-- is a function from that record to the next one and its result, so a trace is a list of calls run
-- one after the other; where a theorem speaks of what happens between two calls it takes any such
-- list. An error is a value of `Err`, a message its format and arguments. A file is the value that
-- it holds, and a parameter says whether a write succeeds. Times, fresh identifiers, the agents, the
-- tools, the providers, JSON encoding and decoding, URL parsing, `shlex`, `cron` and sorting are parameters, with
-- what is needed of them as a hypothesis. A map is walked in the order of its association list,
-- where Go's order is arbitrary.
--
-- Bounds and fuel. Numbers are natural numbers: the counts of the code are never negative and stay
-- far below the machine's width; the one product that an input can bring over it, that of the
-- tokens of a session's read, wraps around at 64 bits. The loop of the cognitive engine runs on
-- fuel: four passes for each turn, and one more for the test that ends it, are enough, and `Run` is
-- given them. The loop over the batches of subtasks runs on one round for each subtask and one
-- more, and the visits of the daemon's components on a depth of one for each component and one
-- more; both are proved enough. The rounds that take the markers off a line of a decomposition run
-- on the line's length, which is proved enough too. The other loops are structural, or count what is left of their
-- attempts.
--
-- Not modelled: the start and stop of the lane workers, the prompts of the planner, thinker and reflector
-- (which are parameters of the engine), the orchestrator's memory, the registry and loading of skills, the other built-in
-- tools, sandboxes, adapters, providers, the configuration and the command line; of
-- the components above, logging, tracing and health checks but the egress's, the constructors that
-- only fill in defaults, the guards against parts that were never set (Submit without a store, router
-- or resolver, a worker without a lock manager), and the parts of start and stop that are timers and
-- contexts: of a shutdown that is not waited for, the model has how far it came.
mod Prelude
pub mod Errors
pub mod Policy
pub mod Tool
pub mod Idempotency
pub mod Cognitive
pub mod Ingress
pub mod Egress
pub mod Scheduler
pub mod Model
pub mod Lane
pub mod Orchestrator
pub mod Daemon
pub mod Store
mod Examples
