-- ===== src/Executor/RestartSamples.antt =====
-- A run of two steps that is started again after the first.
use ottoflow.Prelude.{ℕ, suc, true, false, none, List, [], ◌∷◌, ◌≡◌, refl, ◌==◌, if◌then◌else◌}
use ottoflow.Api.Json.{Fields, null, str, field, end}
use ottoflow.Api.Step.{Step, plain_step, fail}
use ottoflow.Api.Run.{RunPhase, StepPhase, zero_status}
use ottoflow.Checkpoint.{Snapshot, found}
use ottoflow.Dag.Samples.{
  same_order, same_order-RangeOk, report, two_workflow, two_dag, two_dag-built,
}
use ottoflow.Executor.{Env, Exec, success, value, get_status, statuses, initialize_statuses}
use ottoflow.Executor.Ran.{pending_at}
use ottoflow.Executor.Loop.{RangesOk}
use ottoflow.Executor.Start.{World, Front, Input, value_of, add_defaults, execute_workflow}
use ottoflow.Executor.Inputs.{HasInputs, add_defaults-HasInputs}
use ottoflow.Executor.Begins.{Starts, execute_workflow-Starts}
use ottoflow.Executor.Resumed.{execute_workflow-resumed}

abbrev calm : Env (World ℕ)
calm = record {
  range = λ i names. names;
  evaluate = λ w e. value true;
  now = λ w. w.rest;
  execute = λ s w. (record { outcome = success; message = none; pending_callback = none }, w);
  format_time = λ n. "";
}

calm-RangesOk : RangesOk calm
calm-RangesOk i names a = refl

abbrev after_fetch : Snapshot
after_fetch = record {
  version = 1;
  workflow_run_uid = "u1";
  last_completed_step = "fetch";
  step_statuses = ("fetch", record zero_status { phase = StepPhase.succeeded }) ∷ [];
  context = end;
  completion_order = "fetch" ∷ [];
}

abbrev front : Front
front = record {
  inputs = [];
  input_values = [];
  checkpointing = true;
  load = found after_fetch;
  restored_order = λ m. [];
  evaluate = λ e c. value_of null;
  range = same_order;
  describe = λ e. "";
  load_error = "";
}

abbrev restarted : Exec (World ℕ)
restarted = record {
  status = record {
    phase = RunPhase.running;
    message = "";
    failure_reason = "";
    start_time = none;
    completion_time = none;
    step_statuses = [];
    pending_callback = none;
    execution = none;
  };
  completion_order = [];
  events = [];
  world = record { context = none; rest = 7 };
}

execute_workflow-Starts_example :
    Starts calm front two_workflow restarted (execute_workflow calm front two_workflow restarted)
execute_workflow-Starts_example = execute_workflow-Starts calm front two_workflow restarted

fetch_done :
    pending_at "fetch" (initialize_statuses two_workflow.steps after_fetch.step_statuses) ≡ false
unfolding initialize_statuses get_status
fetch_done = refl

-- The world counts how many times "fetch" was executed.
abbrev counting : Env (World ℕ)
counting = record calm {
  execute = λ s w. (
    record { outcome = success; message = none; pending_callback = none },
    if s.name == "fetch" then record w { rest = suc w.rest } else w,
  );
}

counting-RangesOk : RangesOk counting
counting-RangesOk i names a = refl

counting-others :
    (s : Step) (w : World ℕ)
    → (s.name == "fetch") ≡ false
    → w.rest ≡ 7
    → (counting.execute s w).1.rest ≡ 7
counting-others s w e h = rw (e) h

execute_workflow-resumed_example :
    (get_status "fetch" (statuses (execute_workflow counting front two_workflow restarted).1)
      ≡ get_status "fetch" (initialize_statuses two_workflow.steps after_fetch.step_statuses))
    × ((execute_workflow counting front two_workflow restarted).1.world.rest ≡ 7)
execute_workflow-resumed_example =
    execute_workflow-resumed counting front two_workflow two_dag after_fetch restarted
      (plain_step "fetch" [] fail) (report ∷ []) "fetch" (λ w. w.rest ≡ 7) counting-others
      counting-RangesOk same_order-RangeOk refl two_dag-built refl refl refl refl fetch_done refl

abbrev namespace_input : List Input
namespace_input = (record { name = "namespace"; default = "default"; required = true }) ∷ []

abbrev pod_given : Fields
pod_given = field "pod" (str "web") end

add_defaults-HasInputs_example :
    HasInputs namespace_input pod_given (add_defaults namespace_input pod_given)
add_defaults-HasInputs_example = add_defaults-HasInputs namespace_input pod_given
