-- ===== src/Checkpoint/Samples.antt =====
-- A run that saves two checkpoints, which are served in the wrong order.
use ottoflow.Prelude.{
  ℕ, ◌≤◌, String, true, none, some, List, [], ◌∷◌, ◌≡◌, ◌≢◌, refl, ◌==◌, if◌then◌else◌, length,
  arith,
}
use ottoflow.Api.Json.{end}
use ottoflow.Api.Run.{StepPhase, StepStatus, zero_status}
use ottoflow.Checkpoint.{
  Snapshot, terminal_step_count, Codec, granted, conflict, Manager, Call, saves, load, found,
}
use ottoflow.Checkpoint.Progress.{AreOwn, most, progress, load-saves}
use ottoflow.Checkpoint.Names.{
  IsShort, truncated_config_map_name, checkpoint_config_map_name, audit_config_map_name,
  checkpoint_prefix, length-truncated_config_map_name,
  checkpoint_config_map_name-audit_config_map_name,
}

abbrev saved_after : String → List (String × StepStatus) → Snapshot
saved_after name statuses = record {
  version = 1;
  workflow_run_uid = "u1";
  last_completed_step = name;
  step_statuses = statuses;
  context = end;
  completion_order = [];
}

abbrev one_done : Snapshot
one_done = saved_after "a" (
    ("a", record zero_status { phase = StepPhase.succeeded })
    ∷ ("b", record zero_status { phase = StepPhase.pending })
    ∷ [])

abbrev two_done : Snapshot
two_done = saved_after "b" (
    ("a", record zero_status { phase = StepPhase.succeeded })
    ∷ ("b", record zero_status { phase = StepPhase.failed })
    ∷ [])

-- A snapshot is written as the name of its last step.
abbrev by_step : Codec
by_step = record {
  encode = λ s. some s.last_completed_step;
  decode = λ t. if t == "a" then some one_done else if t == "b" then some two_done else none;
}

abbrev manager : Manager
manager = record { codec = by_step; run_uid = "u1"; enabled = true }

abbrev calls : List Call
calls =
    (record { snapshot = two_done; answer = granted })
    ∷ (record { snapshot = one_done; answer = conflict })
    ∷ (record { snapshot = one_done; answer = granted })
    ∷ []

calls-AreOwn : AreOwn manager calls
calls-AreOwn = (refl, ("b", refl, refl), (refl, ("a", refl, refl), (refl, ("a", refl, refl), tt)))

two_finished : 1 ≤ most manager calls (progress manager none)
unfolding terminal_step_count
two_finished = omega arith

load-saves_example :
    (s : Snapshot) × (load manager (saves manager calls none) ≡ found s)
    × (terminal_step_count s.step_statuses ≡ most manager calls (progress manager none))
load-saves_example = load-saves manager refl refl calls none calls-AreOwn two_finished

abbrev one_digit : List ℕ → List ℕ
one_digit name = b'7' ∷ []

one_digit-IsShort : IsShort one_digit
one_digit-IsShort name = omega arith

abbrev run_name : List ℕ
run_name = b'R' ∷ b'_' ∷ b'1' ∷ []

length-truncated_config_map_name_example :
    length (truncated_config_map_name one_digit checkpoint_prefix run_name) ≤ 63
length-truncated_config_map_name_example =
    length-truncated_config_map_name one_digit one_digit-IsShort checkpoint_prefix run_name

checkpoint_config_map_name-audit_config_map_name_example :
    checkpoint_config_map_name one_digit run_name ≢ audit_config_map_name one_digit run_name
checkpoint_config_map_name-audit_config_map_name_example =
    checkpoint_config_map_name-audit_config_map_name one_digit one_digit-IsShort run_name run_name
