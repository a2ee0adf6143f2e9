-- ===== src/Scheduler/Samples.antt =====
-- Firings for a workflow with one active run.
use ottoflow.Scheduler.Registry.{Schedule, Operation, add, remove, operate_all, no_schedules}
use ottoflow.Scheduler.Registry.Exact.{IsExact, operate_all-no_schedules}
use ottoflow.Prelude.{
  zero, suc, ◌<◌, ◌≤◌, ◌==◌, Bool, true, false, none, some, List, [], ◌∷◌, ◌≡◌, refl, inl, inr,
  arith,
}
use ottoflow.Api.Step.{Workflow, effective_max_concurrent_runs}
use ottoflow.Api.Run.{is_active}
use ottoflow.Controller.Failure.{set_run_failed}
use ottoflow.Callback.Samples.{waiting_run}
use ottoflow.Scheduler.{
  Item, CronTrigger, Api, created, handle_cron_fire, within_limit, after_cancel,
  cancel_active_workflow_runs, count_active_workflow_runs, create_workflow_run, create_item,
  cron_input_values_from_secrets, set_status,
}
use ottoflow.Scheduler.Limit.{active_total, IsDistinct, limit, handle_cron_fire-le}
use ottoflow.Scheduler.Single.{cron_total, Follows, handle_cron_fire-one}

abbrev workflow : Workflow
workflow = record {
  name = "deploy";
  namespace = "ops";
  variables = [];
  steps = [];
  outputs = [];
  max_concurrent_steps = none;
  max_concurrent_runs = some 1;
}

-- The first attempt to set the status of the new run fails.
abbrev api : Api
api = record {
  list_cron = true;
  list_all = true;
  shows_updates = false;
  update = λ name. true;
  secret = λ namespace name. none;
  create = true;
  set_status = λ attempt. elim attempt [ zero ↦ false | suc n ↦ true ];
  run_name = "deploy-2";
  checkpointing = none;
}

abbrev replace : CronTrigger
replace = record { concurrency_policy = "Replace"; inputs = [] }

abbrev one_run : List Item
one_run = record { run = waiting_run; cron = true } ∷ []

one_run-created : (handle_cron_fire api workflow replace one_run).outcome ≡ created
unfolding handle_cron_fire within_limit after_cancel cancel_active_workflow_runs
    count_active_workflow_runs create_workflow_run create_item cron_input_values_from_secrets
    set_status effective_max_concurrent_runs is_active set_run_failed
one_run-created = refl

one_run-total : active_total one_run ≤ limit api workflow
unfolding is_active effective_max_concurrent_runs
one_run-total = omega arith

limited : 0 < limit api workflow
unfolding effective_max_concurrent_runs
limited = omega arith

one_run-IsDistinct : IsDistinct one_run
one_run-IsDistinct = (refl, tt)

handle_cron_fire-le_example :
    active_total (handle_cron_fire api workflow replace one_run).store ≤ limit api workflow
handle_cron_fire-le_example =
    handle_cron_fire-le api workflow replace one_run limited one_run-IsDistinct one_run-total

handle_cron_fire-one_example :
    (cron_total (handle_cron_fire api workflow replace one_run).store ≡ 1)
    × Follows api workflow replace.concurrency_policy one_run
        (handle_cron_fire api workflow replace one_run).store
handle_cron_fire-one_example =
    handle_cron_fire-one api workflow replace one_run (inr refl) (inl one_run-created)

-- A schedule is added, replaced, replaced by one that is not valid, and one of another key removed.
abbrev daily : Schedule
daily = record { schedule = "0 6 * * *"; timezone = "" }

abbrev garbled : Schedule
garbled = record { schedule = "every day"; timezone = "" }

abbrev operations : List Operation
operations =
    add "ops/audit" "audit" daily
    ∷ add "ops/audit" "audit" daily
    ∷ add "ops/report" "report" daily
    ∷ add "ops/audit" "audit" garbled
    ∷ remove "ops/report"
    ∷ []

abbrev is_daily : Schedule → Bool
is_daily s = s.schedule == "0 6 * * *"

operate_all-no_schedules_example : IsExact (operate_all is_daily operations no_schedules)
operate_all-no_schedules_example = operate_all-no_schedules is_daily operations
