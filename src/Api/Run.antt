-- ===== src/Api/Run.antt =====
-- Workflow runs and their status (api/v1alpha1/workflowrun_types.go, wait_for_callback.go).
-- Times are Unix seconds.
use ottoflow.Prelude.{ℕ, String, Bool, true, false, Option, none, some, List}

-- WorkflowRunPhase; `unset` is the empty text of a run that was created and not yet reconciled.
pub data RunPhase : Type 0 where
  unset pending running succeeded failed : RunPhase

unfoldable pub is_terminal : RunPhase → Bool
is_terminal succeeded = true
is_terminal failed = true
is_terminal _ = false

unfoldable pub is_active : RunPhase → Bool
is_active unset = true
is_active pending = true
is_active running = true
is_active _ = false

-- StepPhase; `absent` is the empty text of the zero StepStatus, which a missing map entry reads as.
pub data StepPhase : Type 0 where
  absent pending running succeeded failed skipped waiting : StepPhase

pub record StepStatus : Type 0 where
  pub phase : StepPhase
  pub start_time : Option ℕ
  pub completion_time : Option ℕ
  pub message : String
  pub error : String

abbrev pub zero_status : StepStatus
zero_status = record {
  phase = absent;
  start_time = none;
  completion_time = none;
  message = "";
  error = "";
}

-- CallbackState. `outputs` is the raw JSON text; the empty text says that no callback came yet.
pub record CallbackState : Type 0 where
  pub token_hash : String
  pub step_name : String
  pub expires_at : ℕ
  pub outputs : String
  pub created_at : ℕ

-- WorkflowRunExecutionStatus
pub record ExecutionStatus : Type 0 where
  pub phase : RunPhase
  pub job_name : String
  pub attempts : ℕ
  pub message : String
  pub last_termination_reason : String
  pub completion_time : Option ℕ

-- WorkflowRunStatus, as far as the components read it.
pub record RunStatus : Type 0 where
  pub phase : RunPhase
  pub message : String
  pub failure_reason : String
  pub start_time : Option ℕ
  pub completion_time : Option ℕ
  pub step_statuses : List (String × StepStatus)
  pub pending_callback : Option CallbackState
  pub execution : Option ExecutionStatus

-- spec.execution.checkpointing
pub record Checkpointing : Type 0 where
  pub enabled : Bool
  pub max_restart_attempts : Option ℕ

pub record WorkflowRun : Type 0 where
  pub name : String
  pub namespace : String
  pub checkpointing : Option Checkpointing
  pub status : RunStatus

-- WorkflowRun.CheckpointingEnabled
unfoldable pub checkpointing_enabled : WorkflowRun → Bool
checkpointing_enabled wr = elim wr.checkpointing [ none ↦ false | some c ↦ c.enabled ]
