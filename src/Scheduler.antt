-- ===== src/Scheduler.antt =====
-- The cron scheduler (internal/workflow/controller/scheduler.go). The runs of the workflow are a
-- store; the API server's other answers are an argument. A list reads a cache, which may or may not
-- show the cancellations of this firing.
pub mod Single
pub mod Limit
pub mod Registry
mod Samples
use ottoflow.Prelude.{
  ℕ, zero, suc, ◌+◌, ◌-◌, String, Bool, true, false, not, Option, none, some, List, [], ◌∷◌, ◌++◌,
  ◌==◌, ◌&&◌, ◌||◌, if◌then◌else◌, ltb, leb, contains, insert, lookup,
}
use ottoflow.Api.Step.{Workflow, effective_max_concurrent_runs}
use ottoflow.Api.Run.{
  RunPhase, unset, pending, is_active, RunStatus, WorkflowRun, ExecutionStatus, Checkpointing,
}
use ottoflow.Controller.Failure.{set_run_failed}

-- A run of the workflow, and whether its trigger label says cron.
pub record Item : Type 0 where
  pub run : WorkflowRun
  pub cron : Bool

pub record CronInput : Type 0 where
  pub input_name : String
  pub secret_namespace : String
  pub secret_name : String
  pub secret_key : String

pub record CronTrigger : Type 0 where
  pub concurrency_policy : String
  pub inputs : List CronInput

-- What the API server and its cache answer.
pub record Api : Type 0 where
  pub list_cron : Bool  -- the list by the trigger label succeeds
  pub list_all : Bool  -- the list of the workflow's runs succeeds
  pub shows_updates : Bool  -- that list already has the cancelled runs as failed
  pub update : String → Bool  -- the status update of the named run succeeds
  pub secret : String → String → Option (List (String × String))
  pub create : Bool
  pub set_status : ℕ → Bool  -- the read and the status update of an attempt succeed
  pub run_name : String  -- the workflow's name and the Unix time
  pub checkpointing : Option Checkpointing  -- of the workflow's execution spec

pub data Outcome : Type 0 where
  list_failed has_active cancel_failed count_failed at_limit : Outcome
  inputs_failed create_failed status_failed created : Outcome

pub record Fire : Type 0 where
  pub store : List Item
  pub outcome : Outcome

abbrev pub active : Item → Bool
active x = is_active x.run.status.phase

abbrev pub active_cron : Item → Bool
active_cron x = x.cron && active x

-- hasActiveWorkflowRun, of a list that was answered
unfoldable pub has_active_workflow_run : List Item → Bool
has_active_workflow_run [] = false
has_active_workflow_run (x ∷ xs) = active_cron x || has_active_workflow_run xs

abbrev pub replaced : Item → Item
replaced x = record x { run = set_run_failed x.run "Replaced by newer cron trigger execution" "" }

pub record Cancelled : Type 0 where
  pub store : List Item
  pub names : Option (List String)  -- none: an update failed

abbrev pub also : String → Option (List String) → Option (List String)
also n none = none
also n (some ns) = some (n ∷ ns)

-- cancelActiveWorkflowRuns: the first update that fails ends it; earlier ones stay.
unfoldable pub cancel_active_workflow_runs : (String → Bool) → List Item → Cancelled
cancel_active_workflow_runs update [] = record { store = []; names = some [] }
cancel_active_workflow_runs update (x ∷ xs) =
    let rest : Cancelled = cancel_active_workflow_runs update xs in
    if active_cron x
    then (if update x.run.name
        then record { store = replaced x ∷ rest.store; names = also x.run.name rest.names }
        else record { store = x ∷ xs; names = none })
    else record { store = x ∷ rest.store; names = rest.names }

-- countActiveWorkflowRuns, of a list that was answered
unfoldable pub count_active_workflow_runs : List String → List Item → ℕ
count_active_workflow_runs skip [] = 0
count_active_workflow_runs skip (x ∷ xs) =
    let rest : ℕ = count_active_workflow_runs skip xs in
    if active x && not (contains x.run.name skip) then suc rest else rest

module _ (api : Api) (wf : Workflow) where
  -- cronInputValuesFromSecrets; none is an error.
  unfoldable pub cron_input_values_from_secrets :
      List CronInput → List (String × String) → Option (List (String × String))
  cron_input_values_from_secrets [] out = some out
  cron_input_values_from_secrets (entry ∷ entries) out =
      if not (entry.secret_namespace == "") && not (entry.secret_namespace == wf.namespace)
      then none
      else elim (api.secret wf.namespace entry.secret_name) [
        | none ↦ none
        | some values ↦ elim (lookup entry.secret_key values) [
          | none ↦ none
          | some v ↦ cron_input_values_from_secrets entries (insert entry.input_name v out)
        ]
      ]

  -- The run as Create stores it: a status is not part of what is created. The input values are part
  -- of its spec, which the record of a run leaves out.
  unfoldable pub new_item : RunPhase → Item
  new_item phase = record {
    cron = true;
    run = record {
      name = api.run_name;
      namespace = wf.namespace;
      checkpointing = api.checkpointing;
      status = record {
        phase = phase;
        message = "";
        failure_reason = "";
        start_time = none;
        completion_time = none;
        step_statuses = [];
        pending_callback = none;
        execution = none;
      };
    };
  }

  -- The attempts to set the status, `left` of them.
  unfoldable pub set_status : ℕ → ℕ → Bool
  set_status zero attempt = false
  set_status (suc left) attempt =
      let rest : Bool = set_status left (suc attempt) in
      if api.set_status attempt then true else rest

  abbrev pub fired : List Item → Outcome → Fire
  fired store outcome = record { store = store; outcome = outcome }

  -- createWorkflowRun, from the input values on
  unfoldable pub create_item : Option (List (String × String)) → List Item → Fire
  unfolding new_item set_status
  create_item none store = fired store inputs_failed
  create_item (some inputs) store =
      if not api.create
      then fired store create_failed
      else (if set_status 5 0
          then fired (new_item pending ∷ store) created
          else fired (new_item unset ∷ store) status_failed)

  -- createWorkflowRun
  unfoldable pub create_workflow_run : CronTrigger → List Item → Fire
  unfolding create_item cron_input_values_from_secrets
  create_workflow_run spec store = create_item (cron_input_values_from_secrets spec.inputs []) store

  -- The limit of runs: `listed` is what the list answers.
  unfoldable pub within_limit : CronTrigger → List String → List Item → List Item → Fire
  unfolding create_workflow_run count_active_workflow_runs effective_max_concurrent_runs
  within_limit spec cancelled listed store =
      let limit : ℕ = effective_max_concurrent_runs wf.max_concurrent_runs in
      if ltb 0 limit
      then (if not api.list_all
          then fired store count_failed
          else (if leb limit (count_active_workflow_runs cancelled listed)
              then fired store at_limit
              else create_workflow_run spec store))
      else create_workflow_run spec store

  -- Replace: the runs that were active are cancelled, and left out of the count.
  unfoldable pub after_cancel : CronTrigger → Option (List String) → List Item → List Item → Fire
  unfolding within_limit
  after_cancel spec none before after = fired after cancel_failed
  after_cancel spec (some names) before after =
      within_limit spec names (if api.shows_updates then after else before) after

  -- handleCronFire, for a workflow and a trigger that are registered
  unfoldable pub handle_cron_fire : CronTrigger → List Item → Fire
  unfolding within_limit after_cancel has_active_workflow_run cancel_active_workflow_runs
  handle_cron_fire spec store =
      if spec.concurrency_policy == "Forbid"
      then (if not api.list_cron
          then fired store list_failed
          else (if has_active_workflow_run store
              then fired store has_active
              else within_limit spec [] store store))
      else if spec.concurrency_policy == "Replace"
      then (if not api.list_cron
          then fired store cancel_failed
          else after_cancel spec (cancel_active_workflow_runs api.update store).names store
              (cancel_active_workflow_runs api.update store).store)
      else within_limit spec [] store store
