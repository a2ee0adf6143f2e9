-- ===== src/Executor.antt =====
-- The step loop of ExecuteWorkflow (internal/workflow/executor/executor.go).
--
-- The run status, the completion order of the context manager, the events that were emitted and
-- the rest of the world (the context, the cluster, the clock) are one state, `Exec`. What the loop
-- calls is the record `Env`: the order in which Go ranges over the map of nodes in each iteration,
-- CEL evaluation, the clock and executeStep. A step's handler changes of the run status its own
-- step's message (forEach reports its progress there) and the pending callback, so an `Effect`
-- holds these. Spans, progress callbacks and checkpoint writes leave that state alone.
pub mod Ran
pub mod Order
pub mod Untouched
pub mod Loop
pub mod Count
pub mod Finish
pub mod Ends
pub mod Start
pub mod Begins
pub mod Resumed
pub mod Inputs
mod RestartSamples
pub mod Samples
use Prim.Native.String.{◌++◌ as append}
use ottoflow.Prelude.{
  ℕ, zero, suc, ◌*◌, String, Bool, true, false, not, Option, none, some, List, [], ◌∷◌, ◌++◌, ◌==◌,
  ◌&&◌, ◌||◌, if◌then◌else◌, length, take, lookup, insert, all, ltb, is_some,
}
use ottoflow.Api.Step.{Step, Expression, Workflow, continue}
use ottoflow.Api.Run.{RunPhase, StepPhase, StepStatus, RunStatus, CallbackState, zero_status}
use ottoflow.Dag.{Dag, Flags, mark, unset, get_ready_steps, node_names}

-- What a CEL evaluation returns.
pub data CelResult : Type 0 where
  value : Bool → CelResult
  not_boolean : CelResult
  failure : String → CelResult

-- What executeStep returns: its error, if any, is the pause for a callback or another one.
pub data Outcome : Type 0 where
  success : Outcome
  awaiting : String → Outcome
  error : String → Outcome

pub record Effect : Type 0 where
  pub outcome : Outcome
  pub message : Option String
  pub pending_callback : Option CallbackState

pub record Env (W : Type 0) : Type 0 where
  pub range : ℕ → List String → List String
  pub evaluate : W → String → CelResult
  pub now : W → ℕ
  pub execute : Step → W → Effect × W
  pub format_time : ℕ → String

pub data Event : Type 0 where
  workflow_running workflow_succeeded : Event
  workflow_failed : String → Event
  started skipped succeeded failed : String → Event

pub record Exec (W : Type 0) : Type 0 where
  pub status : RunStatus
  pub completion_order : List String
  pub events : List Event
  pub world : W

-- How ExecuteWorkflow returns: nil, the pause for a callback, or another error.
pub data End : Type 0 where
  returned : End
  paused failed_with : String → End

-- One pass of the loop body goes on, having executed a step or not, or returns.
pub data Next (W : Type 0) : Type 0 where
  next : Bool → Exec W → Next W
  stop : End → Exec W → Next W

-- `status.StepStatuses[name]`, the zero value if it is missing
unfoldable pub get_status : String → List (String × StepStatus) → StepStatus
get_status name m = elim (lookup name m) [ none ↦ zero_status | some s ↦ s ]

-- isStepDone
unfoldable pub is_step_done : Step → StepStatus → Bool
is_step_done s st = elim st.phase [
  | StepPhase.succeeded ↦ true
  | StepPhase.skipped ↦ true
  | StepPhase.failed ↦ s.failure_policy == continue
  | _ ↦ false
]

abbrev pub is_pending : StepPhase → Bool
is_pending StepPhase.pending = true
is_pending _ = false

-- findStepByName
pub find_step : String → List Step → Option Step
find_step name [] = none
find_step name (s ∷ ss) = if s.name == name then some s else find_step name ss

-- checkMatchConditions: every condition must be true, and the first that is not decides.
pub check_match_conditions : (String → CelResult) → List Expression → CelResult
check_match_conditions eval [] = value true
check_match_conditions eval (c ∷ cs) =
    let rest = check_match_conditions eval cs in
    elim (eval c.expression) [
      | failure e ↦
          failure (append "failed to evaluate matchCondition '" (append c.name (append "': " e)))
      | not_boolean ↦
          failure (append "matchCondition '" (append c.name "' did not evaluate to boolean"))
      | value true ↦ rest
      | value false ↦ value false
    ]

module _ {W : Type 0} where
  abbrev pub statuses : Exec W → List (String × StepStatus)
  statuses x = x.status.step_statuses

  abbrev pub set_status : String → StepStatus → Exec W → Exec W
  set_status name st x = record x {
    status = record (x.status) { step_statuses = insert name st x.status.step_statuses };
  }

  abbrev pub emit : Event → Exec W → Exec W
  emit e x = record x { events = x.events ++ e ∷ [] }

  -- recordWorkflowFailure
  unfoldable pub record_workflow_failure : String → Exec W → Exec W
  record_workflow_failure message x =
      emit (workflow_failed message)
        (record x { status = record (x.status) { phase = RunPhase.failed; message = message } })

  -- recordWorkflowSuccess, whose evaluation of the outputs is another component
  unfoldable pub record_workflow_success : ℕ → Exec W → Exec W
  record_workflow_success now x = emit workflow_succeeded (record x {
    status = record (x.status) { phase = RunPhase.succeeded; completion_time = some now };
  })

module _ {W : Type 0} (env : Env W) where
  -- A match condition could not be evaluated.
  pub match_failed : Step → String → Exec W → Next W
  unfolding record_workflow_failure
  match_failed s e x =
      let st = get_status s.name (statuses x) in
      let message = append "matchCondition evaluation failed: " e in
      let y =
        emit (failed s.name)
          (set_status s.name (record st { phase = StepPhase.failed; error = message }) x) in
      if s.failure_policy == continue
      then next true y
      else stop
          (failed_with
            (append "matchCondition evaluation failed for step " (append s.name (append ": " e))))
          (record_workflow_failure (append "Step " (append s.name (append " failed: " e))) y)

  -- The match conditions are not met.
  pub skip : Step → Exec W → Next W
  skip s x =
      let st = get_status s.name (statuses x) in
      next true
        (emit (skipped s.name) (set_status s.name (record st { phase = StepPhase.skipped }) x))

  -- The step runs: its status and event before executeStep.
  pub start : Step → Exec W → Exec W
  start s x =
      let st = get_status s.name (statuses x) in
      emit (started s.name) (
        set_status s.name
          (record st { phase = StepPhase.running; start_time = some (env.now x.world) }) x)

  -- What executeStep itself leaves in the run.
  pub absorb : Step → Effect → W → Exec W → Exec W
  absorb s effect w x =
      let y = record x {
        status = record (x.status) { pending_callback = effect.pending_callback };
        world = w;
      } in
      elim effect.message [
        | none ↦ y
        | some m ↦ set_status s.name (record (get_status s.name (statuses y)) { message = m }) y
      ]

  expiry_message : Option CallbackState → String → String
  expiry_message none old = old
  expiry_message (some cb) old =
      append "Awaiting callback, expires at " (env.format_time cb.expires_at)

  waiting_message : Step → Exec W → String → String
  unfolding expiry_message
  waiting_message s x old =
      let expiry = expiry_message x.status.pending_callback old in
      elim s.wait_for_callback [
        | some c ↦ if c.message == "" then expiry else c.message
        | none ↦ expiry
      ]

  -- What follows executeStep, by its outcome.
  pub settle : Step → Outcome → Exec W → Next W
  unfolding record_workflow_failure waiting_message
  settle s success x =
      let st = get_status s.name (statuses x) in
      let y = emit (succeeded s.name) (
        set_status s.name
          (record st { phase = StepPhase.succeeded; completion_time = some (env.now x.world) })
          x) in
      next true (record y { completion_order = y.completion_order ++ s.name ∷ [] })
  settle s (awaiting e) x =
      let st = get_status s.name (statuses x) in
      stop (paused e) (
        set_status s.name
          (record st { phase = StepPhase.waiting; message = waiting_message s x st.message }) x)
  settle s (error e) x =
      let st = get_status s.name (statuses x) in
      let y = emit (failed s.name) (
        set_status s.name
          (record st {
            phase = StepPhase.failed;
            error = e;
            message = e;
            completion_time = some (env.now x.world);
          })
          x) in
      if s.failure_policy == continue
      then next true y
      else stop (failed_with e)
          (record_workflow_failure (append "Step " (append s.name (append " failed: " e))) y)

  -- Execute one step.
  pub launch : Step → Exec W → Next W
  unfolding start absorb settle
  launch s x =
      let y = start s x in
      let r = env.execute s y.world in settle s r.0.outcome (absorb s r.0 r.1 y)

  -- The body of the loop over the ready steps.
  pub run_step : List Step → String → Exec W → Next W
  unfolding find_step check_match_conditions match_failed skip launch
  run_step steps name x = elim (find_step name steps) [
    | none ↦ stop (failed_with (append "step " (append name " not found"))) x
    | some s ↦
        if is_pending (get_status name (statuses x)).phase
        then elim (check_match_conditions (env.evaluate x.world) s.match_conditions) [
          | failure e ↦ match_failed s e x
          | not_boolean ↦ match_failed s "" x
          | value false ↦ skip s x
          | value true ↦ launch s x
        ]
        else next false x
  ]

  -- The loop over the ready steps; the flag is executedAny.
  pub run_ready : List Step → List String → Bool → Exec W → Next W
  unfolding run_step
  run_ready steps [] any x = next any x
  run_ready steps (name ∷ names) any x = elim (run_step steps name x) [
    | stop e y ↦ stop e y
    | next b y ↦ run_ready steps names (b || any) y
  ]

-- The map completedSteps of one iteration; a later step of the same name overwrites.
pub completed_steps : List Step → List (String × StepStatus) → Flags → Flags
completed_steps [] m flags = flags
completed_steps (s ∷ ss) m flags =
    completed_steps ss m (mark s.name (is_step_done s (get_status s.name m)) flags)

pub all_done : List Step → List (String × StepStatus) → Bool
all_done [] m = true
all_done (s ∷ ss) m = is_step_done s (get_status s.name m) && all_done ss m

-- The first step with phase Failed.
pub first_failed : List Step → List (String × StepStatus) → Option (String × String)
first_failed [] m = none
first_failed (s ∷ ss) m =
    let rest = first_failed ss m in
    elim (get_status s.name m).phase [
      | StepPhase.failed ↦ some (s.name, (get_status s.name m).error)
      | _ ↦ rest
    ]

-- `if maxConcurrentSteps > 0 && len(readySteps) > maxConcurrentSteps { … }`
pub limit_ready : ℕ → List String → List String
limit_ready max ready = if ltb 0 max && ltb max (length ready) then take max ready else ready

module _ {W : Type 0} (env : Env W) where
  -- No step is ready: the run is over, or has failed, or waits.
  pub conclude : List Step → Exec W → End × Exec W
  unfolding all_done first_failed record_workflow_failure record_workflow_success
  conclude steps x =
      if all_done steps (statuses x)
      then (returned, record_workflow_success (env.now x.world) x)
      else elim (first_failed steps (statuses x)) [
        | none ↦ (returned, x)
        | some (name, e) ↦ (
          failed_with (append "workflow failed: step " (append name " failed")),
          record_workflow_failure (append "Step " (append name (append " failed: " e))) x,
        )
      ]

  -- After the loop.
  pub finish : List Step → Exec W → End × Exec W
  unfolding all_done record_workflow_success
  finish steps x =
      if all_done steps (statuses x)
      then (returned, record_workflow_success (env.now x.world) x)
      else (returned, x)

  -- The loop of the iterations; the first argument counts those that are left of maxIterations, and
  -- the second the iterations done.
  pub iterate : ℕ → ℕ → List Step → Dag → ℕ → Exec W → End × Exec W
  unfolding completed_steps limit_ready conclude finish run_ready
  iterate zero i steps d max x = finish steps x
  iterate (suc left) i steps d max x =
      let ready = limit_ready max (
        get_ready_steps d (env.range i (node_names d.nodes))
          (completed_steps steps (statuses x) unset)) in
      elim ready [
        | [] ↦ conclude steps x
        | name ∷ names ↦ elim (run_ready env steps (name ∷ names) false x) [
          | stop e y ↦ (e, y)
          | next true y ↦ iterate left (suc i) steps d max y
          | next false y ↦ finish steps y
        ]
      ]

-- The statuses of steps that have none.
pub initialize_statuses : List Step → List (String × StepStatus) → List (String × StepStatus)
initialize_statuses [] m = m
initialize_statuses (s ∷ ss) m = initialize_statuses ss (
    if is_some (lookup s.name m)
    then m
    else insert s.name (record zero_status { phase = StepPhase.pending }) m)

module _ {W : Type 0} (env : Env W) where
  -- A run that is not marked as running yet.
  pub mark_running : Exec W → Exec W
  mark_running x =
      let begun = emit workflow_running (record x {
        status = record (x.status) {
          phase = RunPhase.running;
          start_time = some (env.now x.world);
        };
      }) in
      elim x.status.phase [ RunPhase.unset ↦ begun | RunPhase.pending ↦ begun | _ ↦ x ]

  pub begin : Workflow → Exec W → Exec W
  unfolding initialize_statuses mark_running
  begin wf x = mark_running (record x {
    status = record (x.status) { step_statuses = initialize_statuses wf.steps (statuses x) };
  })

  -- ExecuteWorkflow from the statuses on, with the graph that BuildDAG returned.
  pub run_steps : Workflow → Dag → Exec W → End × Exec W
  unfolding begin iterate
  run_steps wf d x =
      iterate env (length wf.steps * 2) 0 wf.steps d
        (elim wf.max_concurrent_steps [ none ↦ 0 | some n ↦ n ]) (begin wf x)
