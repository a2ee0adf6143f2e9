-- ===== src/Executor/Start.antt =====
-- ExecuteWorkflow from its beginning (internal/workflow/executor/executor.go), with the context that
-- it initialises or restores (internal/workflow/executor/context.go). The world of the step loop has
-- the in-memory context, if it is initialised, as a part. CEL, the texts of errors and the order of
-- completion that older checkpoints are given are arguments.
use Prim.Native.String.{◌++◌ as append}
use ottoflow.Prelude.{
  ℕ, String, Bool, true, false, not, Option, none, some, List, [], ◌∷◌, ◌==◌, ◌&&◌, ◌||◌,
  if◌then◌else◌, ltb, is_some,
}
use ottoflow.Api.Json.{Json, str, obj, Fields, end, field, get, put}
use ottoflow.Api.Step.{Step, Expression, Workflow}
use ottoflow.Api.Run.{RunPhase, StepStatus, RunStatus, ExecutionStatus}
use ottoflow.Checkpoint.{Snapshot, Loaded, unreadable, malformed, absent, found}
use ottoflow.Dag.{Dag, BuildError, Result, ok, err, build_dag}
use ottoflow.Executor.{Env, Exec, End, failed_with, record_workflow_failure, run_steps}

pub record Input : Type 0 where
  pub name : String
  pub default : String
  pub required : Bool

pub record World (V : Type 0) : Type 0 where
  pub context : Option Fields
  pub rest : V

pub data Evaluated : Type 0 where
  no_value : String → Evaluated
  value_of : Json → Evaluated

pub record Front : Type 0 where
  pub inputs : List Input
  pub input_values : List (String × String)
  pub checkpointing : Bool  -- there is a checkpoint manager, and it is enabled
  pub load : Loaded
  pub restored_order : List (String × StepStatus) → List String
  pub evaluate : String → Fields → Evaluated
  pub range : List String → List String
  pub describe : BuildError → String
  pub load_error : String

-- The map of the given values.
unfoldable pub given : List (String × String) → Fields → Fields
given [] params = params
given ((name, v) ∷ vs) params = given vs (put name (str v) params)

pub data Params : Type 0 where
  missing_input : String → Params
  params_ok : Fields → Params

-- The defaults of InitializeContext
unfoldable pub add_defaults : List Input → Fields → Params
add_defaults [] params = params_ok params
add_defaults (i ∷ is) params =
    let with_default : Params = add_defaults is (put i.name (str i.default) params) in
    let as_given : Params = add_defaults is params in
    if is_some (get i.name params)
    then as_given
    else if i.required && i.default == ""
    then missing_input i.name
    else with_default

abbrev pub new_context : Fields → Fields
new_context params =
    field "inputs" (obj params)
      (field "expressions" (obj end) (field "variables" (obj end) (field "steps" (obj end) end)))

abbrev pub fresh_context : Params → Option String × Option Fields
fresh_context (missing_input name) =
    (some (append "required input " (append name " not provided")), none)
fresh_context (params_ok params) = (none, some (new_context params))

-- InitializeContext: its error, and the context.
unfoldable pub initialize_context : Front → Option Fields → Option String × Option Fields
unfolding given add_defaults
initialize_context f (some c) = (none, some c)
initialize_context f none = fresh_context (add_defaults f.inputs (given f.input_values end))

abbrev pub variables_of : Option Json → Fields
variables_of (some (obj vs)) = vs
variables_of _ = end

-- evaluateWorkflowVariables: its error, and the context.
unfoldable pub evaluate_workflow_variables :
    (String → Fields → Evaluated) → List Expression → Fields → Option String × Fields
evaluate_workflow_variables evaluate [] c = (none, c)
evaluate_workflow_variables evaluate (x ∷ xs) c = elim (evaluate x.expression c) [
  | no_value e ↦ (some (append "failed to evaluate variable '" (append x.name (append "': " e))), c)
  | value_of v ↦
      evaluate_workflow_variables evaluate xs
        (put "variables" (obj (put x.name v (variables_of (get "variables" c)))) c)
]

abbrev pub has_attempts : Option ExecutionStatus → Bool
has_attempts none = false
has_attempts (some e) = ltb 0 e.attempts

abbrev pub is_running_phase : RunPhase → Bool
is_running_phase RunPhase.running = true
is_running_phase _ = false

-- isRestart
abbrev pub is_restart : RunStatus → Bool
is_restart s = is_running_phase s.phase || has_attempts s.execution

abbrev pub is_nil : List String → Bool
is_nil [] = true
is_nil (x ∷ xs) = false

abbrev pub order_of : Front → Snapshot → List String
order_of f snap =
    if is_nil snap.completion_order
    then f.restored_order snap.step_statuses
    else snap.completion_order

pub data Restart (V : Type 0) : Type 0 where
  load_failed not_restored : Restart V
  resumed : Exec (World V) → Restart V

module _ {V : Type 0} where
  unfoldable pub restored : Front → Snapshot → Exec (World V) → Exec (World V)
  restored f snap x = record x {
    status = record (x.status) { step_statuses = snap.step_statuses };
    completion_order = order_of f snap;
    world = record (x.world) { context = some snap.context };
  }

  -- What Load returned.
  abbrev pub after_load : Front → Loaded → Exec (World V) → Restart V
  after_load f unreadable x = load_failed
  after_load f malformed x = load_failed
  after_load f absent x = not_restored
  after_load f (found snap) x = resumed (restored f snap x)

  -- loadCheckpointIfNeeded
  unfoldable pub load_checkpoint_if_needed : Front → Exec (World V) → Restart V
  unfolding restored
  load_checkpoint_if_needed f x =
      if is_some x.world.context
      then not_restored
      else if not (is_restart x.status)
      then not_restored
      else if not f.checkpointing
      then not_restored
      else after_load f f.load x

  -- failBeforeSteps
  unfoldable pub fail_before_steps : ℕ → String → Exec (World V) → End × Exec (World V)
  unfolding record_workflow_failure
  fail_before_steps now e x =
      let y : Exec (World V) = record_workflow_failure e x in
      (failed_with e, record y { status = record (y.status) { completion_time = some now } })

  abbrev pub with_context : Option Fields → Exec (World V) → Exec (World V)
  with_context c x = record x { world = record (x.world) { context = c } }

module _ {V : Type 0} (env : Env (World V)) (f : Front) (wf : Workflow) where
  -- From the graph on.
  unfoldable pub after_build : Result Dag → Exec (World V) → End × Exec (World V)
  unfolding fail_before_steps
  after_build (err e) x =
      fail_before_steps (env.now x.world) (append "failed to build DAG: " (f.describe e)) x
  after_build (ok d) x = run_steps env wf d x

  unfoldable pub check_steps : List Step → Exec (World V) → End × Exec (World V)
  unfolding fail_before_steps after_build
  check_steps [] x = fail_before_steps (env.now x.world) "workflow has no steps" x
  check_steps (s ∷ ss) x = after_build (build_dag f.range wf.steps) x

  unfoldable pub after_variables : Option String × Fields → Exec (World V) → End × Exec (World V)
  unfolding check_steps
  after_variables (none, c) x = check_steps wf.steps (with_context (some c) x)
  after_variables (some e, c) x = (failed_with e, with_context (some c) x)

  abbrev pub or_end : Option Fields → Fields
  or_end none = end
  or_end (some c) = c

  -- The context of a run that was not restored.
  unfoldable pub after_context :
      Option String × Option Fields → Exec (World V) → End × Exec (World V)
  unfolding after_variables evaluate_workflow_variables fail_before_steps
  after_context (some e, c) x =
      fail_before_steps (env.now x.world) (append "failed to initialize context: " e)
        (with_context c x)
  after_context (none, c) x =
      after_variables (evaluate_workflow_variables f.evaluate wf.variables (or_end c))
        (with_context c x)

  -- From loadCheckpointIfNeeded on. The context of a restored run is initialised already.
  unfoldable pub after_restart : Restart V → Exec (World V) → End × Exec (World V)
  unfolding after_context check_steps initialize_context
  after_restart load_failed x = (failed_with (append "failed to load checkpoint: " f.load_error), x)
  after_restart not_restored x = after_context (initialize_context f x.world.context) x
  after_restart (resumed y) x = check_steps wf.steps y

  -- ExecuteWorkflow, less the clean-up that it defers
  unfoldable pub execute_workflow : Exec (World V) → End × Exec (World V)
  unfolding after_restart load_checkpoint_if_needed
  execute_workflow x = after_restart (load_checkpoint_if_needed f x) x
