-- ===== src/Controller/Resume.antt =====
-- A run that waits for a callback (internal/workflow/controller/workflowrun_controller.go:
-- reconcilePendingCallback, resumeRunnerJob, findStepFailurePolicy).
pub mod Delivery
use Prim.Native.String.{◌++◌ as append}
use ottoflow.Prelude.{
  ℕ, ◌+◌, ◌-◌, String, Bool, true, false, not, Option, none, some, List, [], ◌∷◌, ◌≡◌, refl, ◌==◌,
  ◌&&◌, ◌||◌, if◌then◌else◌, ltb, arith, eq_iff, any, lookup, insert,
}
use ottoflow.Api.Run.{
  RunPhase, running, failed, RunStatus, WorkflowRun, CallbackState, StepStatus, zero_status,
  StepPhase,
}
use ottoflow.Api.Step.{Workflow, Step, WaitForCallback, fail, continue}
use ottoflow.Controller.Failure.{
  Job, Condition, Answer, done, gone, Requeue, finished, requeue, requeue_after, error, Effects,
  Cluster, set_run_failed, handle_failed_job, unchanged,
}

own_policy : Option WaitForCallback → Option String
own_policy none = none
own_policy (some w) = if w.failure_policy == "" then none else some w.failure_policy

policy_of : String → List Step → String
unfolding own_policy
policy_of name [] = fail
policy_of name (s ∷ ss) =
    let rest : String = policy_of name ss in
    if s.name == name
    then elim (own_policy s.wait_for_callback) [ none ↦ rest | some p ↦ p ]
    else rest

-- findStepFailurePolicy
unfoldable pub find_step_failure_policy : Option Workflow → String → String
unfolding policy_of
find_step_failure_policy none name = fail
find_step_failure_policy (some wf) name = policy_of name wf.steps

-- The runner Job, as the read of it is answered.
pub data JobFetch : Type 0 where
  missing unreadable : JobFetch
  found : Job → JobFetch

-- What a reconciliation of a waiting run leaves, and whether the caller goes on to create the Job.
pub record Resumed : Type 0 where
  pub effects : Effects
  pub proceed : Bool
  pub timed_out : Bool  -- the CallbackTimeout event

-- jobConditionTrue
unfoldable pub job_condition_true : String → Job → Bool
job_condition_true kind job = any (λ c. c.kind == kind && c.is_true) job.conditions

unfoldable pub is_running : RunPhase → Bool
is_running running = true
is_running _ = false

abbrev pub as_running : WorkflowRun → WorkflowRun
as_running wr = record wr { status = record wr.status { phase = running } }

module _ (k : Cluster) where
  unfoldable pub updated_running : Answer → WorkflowRun → Requeue → Bool → Resumed
  updated_running done wr a proceed = record {
    effects = record (unchanged k (as_running wr) a) { stored = some (as_running wr) };
    proceed = proceed;
    timed_out = false;
  }
  updated_running _ wr a proceed = record {
    effects = unchanged k (as_running wr) error;
    proceed = false;
    timed_out = false;
  }

  -- ensureRunning, and what follows when its update is stored.
  unfoldable pub ensure_running : WorkflowRun → Requeue → Bool → Resumed
  unfolding is_running updated_running
  ensure_running wr a proceed =
      if is_running wr.status.phase
      then record { effects = unchanged k wr a; proceed = proceed; timed_out = false }
      else updated_running k.on_update wr a proceed

  -- A Job that is not being deleted is deleted, in the foreground.
  unfoldable pub delete_completed : WorkflowRun → Job → Effects
  delete_completed wr job =
      if job.deleting then unchanged k wr (requeue_after 2) else elim k.on_delete [
        | done ↦ record (unchanged k wr (requeue_after 2)) { job_deleted = true }
        | gone ↦ record (unchanged k wr (requeue_after 2)) { job_deleted = true }
        | _ ↦ unchanged k wr error
      ]

  -- resumeRunnerJob
  unfoldable pub resume_runner_job : WorkflowRun → JobFetch → String → Resumed
  unfolding ensure_running delete_completed handle_failed_job job_condition_true
  resume_runner_job wr missing job_name = ensure_running wr finished true
  resume_runner_job wr unreadable job_name = record {
    effects = unchanged k wr error;
    proceed = false;
    timed_out = false;
  }
  resume_runner_job wr (found job) job_name =
      if job_condition_true "Complete" job || ltb 0 job.succeeded
      then record { effects = delete_completed wr job; proceed = false; timed_out = false }
      else (if job_condition_true "Failed" job
          then record {
            effects = handle_failed_job k wr job job_name;
            proceed = false;
            timed_out = false;
          }
          else ensure_running wr (requeue_after 2) false)

  abbrev pub timeout_error : String
  timeout_error = "callback timeout: no callback received within the configured timeout"

  or_zero : Option StepStatus → StepStatus
  or_zero none = zero_status
  or_zero (some s) = s

  -- The step and the run fail.
  unfoldable pub timed_out_run : WorkflowRun → String → String → WorkflowRun
  unfolding set_run_failed or_zero
  timed_out_run wr step_name message =
      let s : StepStatus = record (or_zero (lookup step_name wr.status.step_statuses)) {
        phase = StepPhase.failed;
        error = timeout_error;
        message = timeout_error;
      } in
      set_run_failed
        (record wr {
          status = record wr.status { step_statuses = insert step_name s wr.status.step_statuses };
        })
        message ""

  unfoldable pub fail_timed_out : WorkflowRun → Effects
  fail_timed_out w = elim k.on_update [
    | done ↦ record (unchanged k w finished) { stored = some w }
    | _ ↦ unchanged k w error
  ]

  -- reconcilePendingCallback, for the pending callback of the run
  unfoldable pub reconcile_pending_callback :
      CallbackState → Option Workflow → WorkflowRun → JobFetch → String → Resumed
  unfolding resume_runner_job fail_timed_out timed_out_run find_step_failure_policy
  reconcile_pending_callback cb wf wr fetch job_name =
      if not (cb.outputs == "")
      then resume_runner_job wr fetch job_name
      else if ltb cb.expires_at k.now
      then (if find_step_failure_policy wf cb.step_name == continue
          then record (resume_runner_job wr fetch job_name) { timed_out = true }
          else record {
            effects = fail_timed_out (
                timed_out_run wr cb.step_name (
                  append "Step "
                    (append (k.quote cb.step_name) " timed out waiting for callback")));
            proceed = false;
            timed_out = true;
          })
      else record {
        effects = unchanged k wr (requeue_after (cb.expires_at - k.now + 1));
        proceed = false;
        timed_out = false;
      }
