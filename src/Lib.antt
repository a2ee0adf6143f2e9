-- ===== src/Lib.antt =====
-- OttoFlow: Kubernetes-native workflows of steps, in Go. A Workflow (api/v1alpha1) is a template of
-- steps with declared dependencies; a WorkflowRun is one run of it. The controller
-- (internal/workflow/controller) creates a runner Job for a run; the runner
-- (internal/workflow/executor) builds the dependency graph, and executes steps until none is left.
-- A waitForCallback step pauses the run: the runner stores the hash of a token and exits; an HTTP
-- endpoint of the controller accepts the callback and stores its body in the run; the controller
-- then creates a runner Job again, which takes the stored body as the step's outputs. A scheduler
-- creates runs when cron fires.
--
-- Files:
--   Prelude: shared names, Boolean tests, lists, association lists for Go's maps.
--   Api/Json: decoded JSON. Api/Step and Api/Run: the records of api/v1alpha1 that the code reads.
--   Dag: internal/workflow/executor/dag.go. Graph, Edges and Declare read the graph that AddNode and
--     AddEdge build; Unvisited and Walk are the search of HasCycle; Build is BuildDAG's contract, and
--     Ready that of GetReadySteps.
--   Executor: the step loop of ExecuteWorkflow in internal/workflow/executor/executor.go, as a
--     function from the run's state to its end. Ran and Order follow one step, Loop all iterations,
--     Untouched the steps that were done before, and Count, Finish and Ends the way to the end. Start
--     is ExecuteWorkflow from its beginning, with the checkpoint that it loads and the context of
--     internal/workflow/executor/context.go; Begins and Inputs are what it starts with, and Resumed
--     what a restart keeps.
--   Callback/Token: internal/workflow/token/generator.go.
--   Callback/Schema: validatePayloadAgainstSchema of internal/workflow/controller/callback_server.go
--     and keepDeclaredProperties of internal/workflow/executor/wait_for_callback.go.
--   Callback/Server: handleCallback of callback_server.go; Server/Accepts is what it checks.
--   Callback/Wait: wait_for_callback.go; Wait/Delivery is what a paused step waits for.
--   Controller/Failure and Controller/Resume: handleFailedJob, reconcilePendingCallback and what
--     they call in internal/workflow/controller/workflowrun_controller.go, DeleteCheckpointForRun of
--     internal/workflow/executor/checkpoint.go included.
--   Scheduler: handleCronFire of internal/workflow/controller/scheduler.go, on the store of a
--     workflow's runs; Limit and Single are what its policies keep. Registry is its AddSchedule and
--     RemoveSchedule, and Registry/Exact what they keep.
--   Admission: ValidateStepDependencies of internal/webhook/workflow_deps_validation.go; Texts are the
--     CEL texts that it scans, Texts/Found and Texts/Collected which texts a step has and that these
--     are the scanned ones, and Explicit is what an admitted workflow's run may rely on.
--   Checkpoint: SaveAsync and Load of internal/workflow/executor/checkpoint.go, on the stored
--     ConfigMap; Progress is what the checkpoint keeps, and Names the names of the ConfigMaps.
--   Audit: the audit snapshot. Redaction is internal/workflow/executor/audit_redaction.go; Paths,
--     Secrecy and Outputs say what it hides. Truncate and Size are the truncation and
--     SaveAuditSnapshot of checkpoint.go; Kept and Bounds are what they leave.
--   ForEach: executeForEach of internal/workflow/executor/foreach_executor.go; Pool is its pool of
--     workers, Invariant, Moves and Interleavings what every interleaving keeps, Tracking and Assigned
--     which items the workers and the results have, Complete and Result what a loop that ends leaves
--     and returns.
--   Webhook: handleWebhook of internal/workflow/controller/webhook_server.go; Trigger is
--     CreateWorkflowRunFromWebhook of trigger_manager.go, Checked what a request is checked for,
--     Steps what it does to the deduplication, and Duplicates what that keeps.
--   Samples, beside the parts: concrete runs at which the theorems apply.
--
-- Conventions: a struct is a record, a pointer an Option, a Go map an association list or a function,
-- and an error a constructor of the part's own type. What the code calls outside the modelled parts
-- (the API server, CEL, encoding/json, the clock, random bytes, SHA-256) is an argument: a field of
-- Env, Server, Runner or Cluster. Where Go leaves the order of a map open, the order is an argument.
-- Times are Unix seconds.
--
-- Fuel: HasCycle's search has as fuel the number of nodes, which bounds the depth of its calls, since
-- each call marks a node that was not marked; that it is enough is part of the theorem on BuildDAG.
-- The loop of ExecuteWorkflow has its own limit, twice the number of steps, and that it is enough is
-- part of the theorem on its end. The attempts of RetryOnConflict are a list of answers.
--
-- Not modelled: CEL and its libraries, the agent, MCP, A2A and Prometheus clients, the CLI, event
-- triggers, the rest of the admission webhooks, secrets
-- and RBAC, metrics and tracing.
pub mod Prelude
pub mod Api
pub mod Dag
pub mod Executor
pub mod Callback
pub mod Controller
pub mod Admission
pub mod Checkpoint
pub mod Audit
pub mod ForEach
pub mod Webhook
pub mod Scheduler
