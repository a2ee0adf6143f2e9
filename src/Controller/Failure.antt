-- ===== src/Controller/Failure.antt =====
-- Failed runner Jobs (internal/workflow/controller/workflowrun_controller.go: handleFailedJob and the
-- functions that it calls). The state is the run in memory, what the API server stores of it, and
-- which objects were deleted; the API server's answers are arguments.
pub mod Attempts
use Prim.Native.String.{◌++◌ as append}
use ottoflow.Prelude.{
  ℕ, ◌+◌, String, Bool, true, false, not, Option, none, some, List, [], ◌∷◌, ◌≡◌, refl, ◌==◌, ◌&&◌,
  ◌||◌, if◌then◌else◌, ltb, arith, eq_iff, any,
}
use ottoflow.Api.Run.{
  RunPhase, pending, failed, RunStatus, WorkflowRun, ExecutionStatus, Checkpointing,
  checkpointing_enabled, unset,
}

-- A pod's phase, as far as the code tells: terminated or not.
pub record Container : Type 0 where
  pub last_reason : Option String  -- of LastTerminationState.Terminated
  pub reason : Option String  -- of State.Terminated

pub record Pod : Type 0 where
  pub ended : Bool
  pub created : ℕ
  pub reason : String
  pub containers : List Container

pub record Condition : Type 0 where
  pub kind : String
  pub is_true : Bool
  pub reason : String

pub record Job : Type 0 where
  pub conditions : List Condition
  pub succeeded : ℕ
  pub deleting : Bool

-- How the API server answers an update or a deletion.
pub data Answer : Type 0 where
  done gone conflict refused : Answer

-- What a reconciliation tells its caller.
pub data Requeue : Type 0 where
  finished requeue : Requeue
  requeue_after : ℕ → Requeue
  error : Requeue

pub record Effects : Type 0 where
  pub run : WorkflowRun  -- in memory
  pub stored : Option WorkflowRun  -- by the status update
  pub job_deleted : Bool
  pub checkpoint_deleted : Bool  -- no checkpoint is left
  pub answer : Requeue

pub record Cluster : Type 0 where
  pub now : ℕ
  pub pods : Option (List Pod)  -- the Job's, or the error of the list
  pub on_delete : Answer
  pub on_update : Answer
  pub on_checkpoint_delete : Answer
  pub number : ℕ → String  -- %d
  pub quote : String → String  -- %q

default_max : ℕ
default_max = 3

-- maxRestartAttemptsForRun
unfoldable pub max_restart_attempts_for_run : WorkflowRun → ℕ
unfolding default_max
max_restart_attempts_for_run wr = elim wr.checkpointing [
  | none ↦ default_max
  | some c ↦ elim c.max_restart_attempts [ none ↦ default_max | some n ↦ n ]
]

-- checkpointingEnabledForRun
unfoldable pub checkpointing_enabled_for_run : WorkflowRun → Bool
unfolding checkpointing_enabled
checkpointing_enabled_for_run wr = checkpointing_enabled wr

-- isDeterministicTermination
unfoldable pub is_deterministic_termination : String → Bool
is_deterministic_termination reason =
    reason == "OOMKilled"
    || (reason == "ContainerCannotRun"
        || (reason == "CreateContainerError"
            || (reason == "CreateContainerConfigError" || reason == "DeadlineExceeded")))

-- The pod to look at: the latest of those that ended, the first among equals.
unfoldable pub latest_pod : Option Pod → List Pod → Option Pod
latest_pod best [] = best
latest_pod best (p ∷ ps) =
    latest_pod
      (if p.ended
        then elim best [
          | none ↦ some p
          | some b ↦ if ltb b.created p.created then some p else some b
        ]
        else best)
      ps

-- The first reason that is there and not empty.
unfoldable pub first_reason : List (Option String) → Option String
first_reason [] = none
first_reason (none ∷ rs) = first_reason rs
first_reason (some r ∷ rs) = if r == "" then first_reason rs else some r

last_reasons : List Container → List (Option String)
last_reasons [] = []
last_reasons (c ∷ cs) = c.last_reason ∷ last_reasons cs

reasons : List Container → List (Option String)
reasons [] = []
reasons (c ∷ cs) = c.reason ∷ reasons cs

or_empty : Option String → String
or_empty none = ""
or_empty (some r) = r

unfoldable pub pod_reason : Option Pod → String
unfolding first_reason last_reasons reasons or_empty
pod_reason none = ""
pod_reason (some p) =
    if not (p.reason == "") then p.reason else elim (first_reason (last_reasons p.containers)) [
      | some r ↦ r
      | none ↦ or_empty (first_reason (reasons p.containers))
    ]

-- getPodTerminationReason
unfoldable pub get_pod_termination_reason : Option (List Pod) → String
unfolding pod_reason latest_pod
get_pod_termination_reason none = "UnknownTerminationReason"
get_pod_termination_reason (some pods) = pod_reason (latest_pod none pods)

-- setRunFailed
unfoldable pub set_run_failed : WorkflowRun → String → String → WorkflowRun
set_run_failed wr message reason = record wr {
  status = record wr.status {
    phase = failed;
    message = message;
    failure_reason = reason;
    pending_callback = none;
  };
}

abbrev pub zero_execution : ExecutionStatus
zero_execution = record {
  phase = unset;
  job_name = "";
  attempts = 0;
  message = "";
  last_termination_reason = "";
  completion_time = none;
}

abbrev pub execution_of : Option ExecutionStatus → ExecutionStatus
execution_of none = zero_execution
execution_of (some e) = e

abbrev pub attempts_of : WorkflowRun → ℕ
attempts_of wr = (execution_of wr.status.execution).attempts

-- What follows a status update.
unfoldable pub update : Answer → Requeue → WorkflowRun → Bool → Bool → Effects
update done after wr j c = record {
  run = wr;
  stored = some wr;
  job_deleted = j;
  checkpoint_deleted = c;
  answer = after;
}
update conflict after wr j c = record {
  run = wr;
  stored = none;
  job_deleted = j;
  checkpoint_deleted = c;
  answer = requeue;
}
update _ after wr j c = record {
  run = wr;
  stored = none;
  job_deleted = j;
  checkpoint_deleted = c;
  answer = error;
}

module _ (k : Cluster) where
  unfoldable pub failure_message : String → String → ℕ → String
  unfolding is_deterministic_termination
  failure_message job_name reason attempts =
      if is_deterministic_termination reason
      then append "Runner Job "
          (append job_name (append " failed with non-retryable reason: " reason))
      else if not (reason == "")
      then append "Runner Job " (
          append job_name (
            append " failed (reason: "
              (append reason (append ", attempts: " (append (k.number (attempts + 1)) ")")))))
      else append "Runner Job " (append job_name " failed")

  unfoldable pub terminally_failed : WorkflowRun → String → String → String → WorkflowRun
  unfolding set_run_failed
  terminally_failed wr job_name reason message =
      let w : WorkflowRun = set_run_failed wr message "" in
      record w {
        status = record w.status {
          completion_time = some k.now;
          execution = some (record (execution_of w.status.execution) {
            phase = failed;
            job_name = job_name;
            message = message;
            completion_time = some k.now;
            last_termination_reason = reason;
          });
        };
      }

  unfoldable pub deletion_refused : Answer → Bool
  deletion_refused done = false
  deletion_refused gone = false
  deletion_refused _ = true

  -- DeleteCheckpointForRun: a failure is logged only.
  unfoldable pub delete_checkpoint_for_run : WorkflowRun → Bool
  unfolding checkpointing_enabled deletion_refused
  delete_checkpoint_for_run wr =
      checkpointing_enabled wr && not (deletion_refused k.on_checkpoint_delete)

  -- markRunTerminallyFailed
  unfoldable pub mark_run_terminally_failed : WorkflowRun → String → String → ℕ → Effects
  unfolding terminally_failed failure_message update delete_checkpoint_for_run
  mark_run_terminally_failed wr job_name reason attempts =
      update k.on_update finished
        (terminally_failed wr job_name reason (failure_message job_name reason attempts)) false
        (delete_checkpoint_for_run wr)

  unfoldable pub retried : WorkflowRun → String → ℕ → ℕ → WorkflowRun
  retried wr reason attempts max_attempts = record wr {
    status = record wr.status {
      phase = pending;
      completion_time = none;
      execution = some (record (execution_of wr.status.execution) {
        attempts = attempts + 1;
        last_termination_reason = reason;
        message = append "Runner pod failed (reason: " (
            append reason (
              append "), retrying (attempt " (
                append (k.number (attempts + 1))
                  (append "/" (append (k.number max_attempts) ")")))));
        phase = pending;
        completion_time = none;
      });
    };
  }

  abbrev pub unchanged : WorkflowRun → Requeue → Effects
  unchanged wr a = record {
    run = wr;
    stored = none;
    job_deleted = false;
    checkpoint_deleted = false;
    answer = a;
  }

  -- retryTransientFailure
  unfoldable pub retry_transient_failure : WorkflowRun → String → ℕ → ℕ → Effects
  unfolding retried update deletion_refused
  retry_transient_failure wr reason attempts max_attempts =
      if deletion_refused k.on_delete
      then unchanged wr error
      else update k.on_update requeue (retried wr reason attempts max_attempts) true false

  -- Does the Job's condition say that its deadline was exceeded?
  unfoldable pub deadline_exceeded : Condition → Bool
  deadline_exceeded c =
      (c.kind == "FailureTarget" || c.kind == "Failed")
      && (c.is_true && c.reason == "DeadlineExceeded")

  -- handleFailedJob
  unfoldable pub handle_failed_job : WorkflowRun → Job → String → Effects
  unfolding mark_run_terminally_failed retry_transient_failure deadline_exceeded
      checkpointing_enabled_for_run get_pod_termination_reason max_restart_attempts_for_run
      is_deterministic_termination
  handle_failed_job wr job job_name =
      let attempts : ℕ = attempts_of wr in
      let reason : String = get_pod_termination_reason k.pods in
      if any deadline_exceeded job.conditions
      then mark_run_terminally_failed wr job_name "DeadlineExceeded" attempts
      else (if checkpointing_enabled_for_run wr
          then (if not (is_deterministic_termination reason)
                && ltb attempts (max_restart_attempts_for_run wr)
              then retry_transient_failure wr reason attempts (max_restart_attempts_for_run wr)
              else mark_run_terminally_failed wr job_name reason attempts)
          else mark_run_terminally_failed wr job_name "" attempts)
