-- ===== src/Lib.antt =====
-- Dahlia: a service that runs workflows on incoming signals.
--
-- A signal comes in by HTTP (internal/handler/signal_handler.go). The workflow manager gives the
-- workflows of its type, and the handler puts a message for each of them in the executor queue. A
-- consumer (internal/consumer/executor_queue) takes a message and runs the workflow: its conditions,
-- then its actions one after the other. A delay ends the run for now, and the scheduler
-- (internal/service/scheduler.go) puts a message in the queue when the time has come, with which the
-- run goes on. Runs, logs, jobs, signals and workflows are in DynamoDB; a write of a run is
-- conditional on the time of its last change, so of two executors with one run only one goes on.
-- The other handlers create and list workflows, show runs and schedule jobs; the creation of a
-- workflow writes a node of ZooKeeper, which every process watches to refresh its workflows.
--
-- Which file models what (paths of the repository):
--   Domain, Run, ActionLogs, Jobs   internal/domain: records and their methods (MarkFailed is
--                                   mark_failed, SetActionStartedStatus set_action_started_status, ...)
--   Errors                          internal/repository/dynamodb/errors.go and Go's wrapped errors
--   Repository                      internal/repository/dynamodb, a child for each repository;
--                                   Tokens are the tokens of pagination in run_repo.go
--   Cache                           internal/cache/redis/redis_cache.go
--   Scheduler                       internal/service/scheduler.go, with Cron for its Start and Stop
--   ActionExecutor, Template        internal/service/action_executor.go
--   ConditionEvaluator              internal/service/condition_evaluator.go
--   WorkflowManager                 internal/service/workflow_manager.go, with Shared for its mutex and
--                                   the goroutines that meet there
--   WorkflowExecutor                internal/service/workflow_executor.go
--   Scheduler.History               the passes and the scheduling of jobs, in any order
--   Scheduler.Lists                 the lists of Redis, with luaAtomicTransfer; Nodes has the node ids
--                                   of internal/config/scheduler_providers.go and
--                                   internal/config/ingestion_providers.go
--   Queue                           internal/queue/sqs/sqs_queue.go
--   Consumer                        internal/consumer/executor_queue, and Send of the queue
--   Coordinator                     internal/coordinator/zk/zk_coordinator.go: nodes, with Watch for
--                                   startWatch and Reconnect for handleReconnect, monitorSession and
--                                   monitorEvents, which meet at its mutex
--   Handlers                        the other handlers of internal/handler, with internal/dto
--   Requests                        commons/handler: request_io.go, gin_handler.go, and Middleware
--                                   for middleware.go and NewRouter of commons/routes/router.go, and
--                                   Routes for the rest of it, internal/routes and the route
--                                   initializers of internal/config
--   SignalHandler                   internal/handler/signal_handler.go, internal/domain/signal.go
--   ErrorCollection                 commons/error_handler, the answers of gin_handler.go
--   Decimal                         %d, strconv.FormatInt and Atoi, the Sscanf of resume tokens
--   Common, Runtime, Clock          shared lemmas, and how a function runs
--   Examples                        the theorems at concrete inputs
--
-- How a function is modelled. A method becomes a function of the same name in snake_case, in the
-- monad of Runtime: it may write to the object that it holds a pointer to (the run, the job), it
-- makes calls of the outside, which a trace keeps in their order, and it returns, returns an error,
-- or panics. What the outside answers (DynamoDB, Redis, SQS, Slack, the clock, JSON, base64, the
-- expression library) is a parameter, the record Env of Runtime: each answer may depend on all the
-- calls so far. A theorem that relies on documented behaviour of a library names it as a hypothesis.
-- Numbers are natural numbers and integers without bound, except int32(limit), the range of an int that
-- Sscanf reads and the index after it; times are milliseconds since the epoch, and where RFC 3339 is
-- read or written they have the offset of their zone. A text is its bytes. A map is an
-- association list whose first entry of a key counts; the order of range is an answer of Env.
--
-- Fuel: writing a number in decimal takes one unit for each digit, and a number has fewer digits than
-- its value and one more; replacing template variables takes one unit for a byte or a match, and the
-- length of the template is given. The creation of the parents of a ZooKeeper node takes one unit for
-- each of them, and the length of the path and one more is given; UpsertNode and UpdateNode call each
-- other at most as often as `rounds` says, and one round is enough if a node that was found to exist
-- is still there at the next call. Where such a bound is met the model panics. The loops of a worker
-- of the queue and of a watch run for a given number of rounds.
--
-- Concurrency: a function runs alone; what other goroutines and processes do shows in the answers of
-- Env. The mutexes of the coordinator and of the workflow manager are modelled with the steps of their
-- goroutines (Coordinator.Reconnect, WorkflowManager.Shared): a section that only reads or sets fields
-- between its Lock and Unlock is one step, and Lock waits while another goroutine is inside. The passes
-- of a scheduler are steps of Scheduler.History that do not overlap.
--
-- Not modelled: logging; the gin, cron and ZooKeeper libraries (Scheduler.Cron and Requests.Routes have
-- what the code tells cron and gin); the HTTP server, configuration other than node ids and routes, and
-- main; constructors that only keep their arguments.

pub mod Common
pub mod Errors
pub mod Domain
pub mod Runtime
pub mod Decimal
pub mod Clock
pub mod Run
pub mod ActionLogs
pub mod Jobs
pub mod Repository
pub mod Coordinator
pub mod Scheduler
pub mod Cache
pub mod Template
pub mod ActionExecutor
pub mod ConditionEvaluator
pub mod WorkflowManager
pub mod WorkflowExecutor
pub mod Queue
pub mod Consumer
pub mod ErrorCollection
pub mod SignalHandler
pub mod Requests
pub mod Handlers
pub mod Examples
