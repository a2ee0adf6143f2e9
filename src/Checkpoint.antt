-- ===== src/Checkpoint.antt =====
-- Checkpoints of a run (internal/workflow/executor/checkpoint.go, and the functions of executor.go
-- that save and load them). A ConfigMap has the one key that the code writes. encoding/json is an
-- argument. An update carries the resource version that was read, so one that is granted has read
-- what it replaces: a call of the retried closure is one event on the stored ConfigMap.
pub mod Names
pub mod Progress
mod Samples
use ottoflow.Prelude.{
  ℕ, zero, suc, ◌≤◌, String, Bool, true, false, not, Option, none, some, List, [], ◌∷◌, ◌++◌, ◌≡◌,
  ◌==◌, ◌&&◌, if◌then◌else◌, leb,
}
use ottoflow.Api.Json.{Fields}
use ottoflow.Api.Run.{StepPhase, StepStatus}

-- CheckpointSnapshot
pub record Snapshot : Type 0 where
  pub version : ℕ
  pub workflow_run_uid : String
  pub last_completed_step : String
  pub step_statuses : List (String × StepStatus)
  pub context : Fields
  pub completion_order : List String

abbrev pub is_terminal_phase : StepPhase → Bool
is_terminal_phase StepPhase.succeeded = true
is_terminal_phase StepPhase.failed = true
is_terminal_phase StepPhase.skipped = true
is_terminal_phase _ = false

-- terminalStepCount
unfoldable pub terminal_step_count : List (String × StepStatus) → ℕ
terminal_step_count [] = 0
terminal_step_count ((name, s) ∷ ss) =
    let rest : ℕ = terminal_step_count ss in if is_terminal_phase s.phase then suc rest else rest

pub record Codec : Type 0 where
  pub encode : Snapshot → Option String
  pub decode : String → Option Snapshot

-- The ConfigMap of a run's checkpoint: its key `checkpoint`, where it has one.
pub record ConfigMap : Type 0 where
  pub checkpoint : Option String

pub data Answer : Type 0 where
  granted conflict refused : Answer

-- CheckpointManager
pub record Manager : Type 0 where
  pub codec : Codec
  pub run_uid : String
  pub enabled : Bool

abbrev pub decoded : Codec → Option String → Option Snapshot
decoded c none = c.decode ""
decoded c (some raw) = c.decode raw

-- The guard of the closure: what is stored is of the same run, and no less advanced.
unfoldable pub is_covered : Manager → Snapshot → Snapshot → Bool
is_covered m s old =
    old.workflow_run_uid == m.run_uid
    && leb (terminal_step_count s.step_statuses) (terminal_step_count old.step_statuses)

-- What the closure writes over a snapshot, if any.
abbrev pub overwrite : Manager → Snapshot → String → Option Snapshot → Option ConfigMap
overwrite m s raw none = some (record { checkpoint = some raw })
overwrite m s raw (some old) =
    if is_covered m s old then none else some (record { checkpoint = some raw })

-- The ConfigMap that a call of the closure writes in place of the one that it has read, if any.
unfoldable pub replacement : Manager → Snapshot → String → Option ConfigMap → Option ConfigMap
replacement m s raw none = some (record { checkpoint = some raw })
replacement m s raw (some cm) = overwrite m s raw (decoded m.codec cm.checkpoint)

abbrev pub or_stored : Option ConfigMap → Option ConfigMap → Option ConfigMap
or_stored none stored = stored
or_stored (some cm) stored = some cm

-- SaveAsync, where the API server grants the write of the closure's call.
abbrev pub save_text : Manager → Snapshot → Option String → Option ConfigMap → Option ConfigMap
save_text m s none stored = stored
save_text m s (some raw) stored = or_stored (replacement m s raw stored) stored

unfoldable pub save : Manager → Snapshot → Option ConfigMap → Option ConfigMap
unfolding replacement
save m s stored = if m.enabled then save_text m s (m.codec.encode s) stored else stored

-- A call of a closure, by what it saves and how it is answered.
pub record Call : Type 0 where
  pub snapshot : Snapshot
  pub answer : Answer

abbrev pub served {ℓ} : {A : Type ℓ} → Answer → A → A → A
served granted new old = new
served conflict new old = old
served refused new old = old

unfoldable pub step : Manager → Call → Option ConfigMap → Option ConfigMap
step m e stored = served e.answer (save m e.snapshot stored) stored

-- The calls of all closures, in the order in which the API server serves them.
unfoldable pub saves : Manager → List Call → Option ConfigMap → Option ConfigMap
unfolding step
saves m [] stored = stored
saves m (e ∷ es) stored = saves m es (step m e stored)

pub data Loaded : Type 0 where
  unreadable malformed absent : Loaded
  found : Snapshot → Loaded

abbrev pub load_decoded : Manager → Option Snapshot → Loaded
load_decoded m none = malformed
load_decoded m (some s) = if s.workflow_run_uid == m.run_uid then found s else absent

abbrev pub load_text : Manager → Option String → Loaded
load_text m none = absent
load_text m (some raw) = if raw == "" then absent else load_decoded m (m.codec.decode raw)

abbrev pub text_of : Option ConfigMap → Option String
text_of none = none
text_of (some cm) = cm.checkpoint

-- Load, where the API server answers
unfoldable pub load : Manager → Option ConfigMap → Loaded
load m stored = if m.enabled then load_text m (text_of stored) else absent
