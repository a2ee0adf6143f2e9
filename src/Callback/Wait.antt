-- ===== src/Callback/Wait.antt =====
-- The executor of a waitForCallback step (internal/workflow/executor/wait_for_callback.go:
-- executeWaitForCallback, handleCallbackTimeout, setPendingCallbackPatch, clearPendingCallbackPatch).
-- The API server's answers to the attempts of a patch are an argument, as is the context manager.
pub mod Delivery
use ottoflow.Prelude.{
  ℕ, ◌+◌, String, Bool, true, false, not, Option, none, some, List, [], ◌∷◌, ◌≡◌, refl, ◌==◌,
  if◌then◌else◌, ltb, arith, eq_iff,
}
use ottoflow.Api.Json.{Json, Fields, end}
use ottoflow.Api.Step.{Step, WaitForCallback, continue, fail}
use ottoflow.Api.Run.{CallbackState, WorkflowRun, RunStatus}
use ottoflow.Callback.Schema.{keep_declared_properties}
use ottoflow.Callback.Server.{
  Fetch, missing, failed, found, PatchAnswer, applied, conflict, refused, Attempt, as_map, patched,
}

abbrev pub with_pending : Option CallbackState → WorkflowRun → WorkflowRun
with_pending o wr = record wr { status = record wr.status { pending_callback = o } }

abbrev pub patch_once :
    (WorkflowRun → WorkflowRun) → Fetch → PatchAnswer → Option WorkflowRun → Option WorkflowRun
patch_once f (found current) (applied stored) later = some (f stored)
patch_once f (found current) conflict later = later
patch_once f _ _ later = none

-- RetryOnConflict around a read and a merge patch: what the patch leaves stored, or an error.
unfoldable pub patch_run : (WorkflowRun → WorkflowRun) → List Attempt → Option WorkflowRun
patch_run f [] = none
patch_run f (a ∷ rest) = patch_once f a.fetch a.patch (patch_run f rest)

-- setPendingCallbackPatch and clearPendingCallbackPatch
unfoldable pub set_pending_callback_patch : CallbackState → List Attempt → Option WorkflowRun
unfolding patch_run
set_pending_callback_patch cb = patch_run (with_pending (some cb))

unfoldable pub clear_pending_callback_patch : List Attempt → Option WorkflowRun
unfolding patch_run
clear_pending_callback_patch = patch_run (with_pending none)

-- Why a step fails.
pub data WaitError : Type 0 where
  no_configuration invalid_timeout bad_outputs write_failed clear_failed : WaitError
  generate_failed set_failed timed_out : WaitError

pub data Waited : Type 0 where
  outputs : Fields → Waited
  awaiting : Waited
  errored : WaitError → Waited

-- What the step leaves: the run in memory, the context, the run that a patch stored, the result.
pub record Left (Ctx : Type 0) : Type 0 where
  pub memory : WorkflowRun
  pub context : Ctx
  pub stored : Option WorkflowRun
  pub result : Waited

-- What the step calls that is not its own.
pub record Runner (Ctx : Type 0) : Type 0 where
  pub now : ℕ
  pub parse_duration : String → Option ℕ
  pub unmarshal : String → Option Json
  pub generate : Option (String × String)  -- the token and its hash
  pub write_step_outputs : Ctx → String → Fields → Option Ctx
  pub callback_token : String → Fields  -- the map that binds callbackToken
  pub control : Option (List Attempt)  -- the attempts of the control client's patch, where there is one

-- handleCallbackTimeout
unfoldable pub handle_callback_timeout : WaitForCallback → Waited
handle_callback_timeout wfc =
    if (if wfc.failure_policy == "" then fail else wfc.failure_policy) == continue
    then outputs end
    else errored timed_out

module _ {Ctx : Type 0} (e : Runner Ctx) where
  abbrev pub nothing : WorkflowRun → Ctx → Waited → Left Ctx
  nothing wr x r = record { memory = wr; context = x; stored = none; result = r }

  unfoldable pub after_clear : Option WorkflowRun → WorkflowRun → Ctx → Fields → Left Ctx
  after_clear none wr x out = nothing wr x (errored clear_failed)
  after_clear (some w) wr x out = record {
    memory = with_pending none wr;
    context = x;
    stored = some w;
    result = outputs out;
  }

  -- The outputs are in the context; the callback is cleared, which must succeed.
  unfoldable pub consume : Option (List Attempt) → WorkflowRun → Ctx → Fields → Left Ctx
  unfolding clear_pending_callback_patch after_clear
  consume none wr x out = record {
    memory = with_pending none wr;
    context = x;
    stored = none;
    result = outputs out;
  }
  consume (some attempts) wr x out = after_clear (clear_pending_callback_patch attempts) wr x out

  unfoldable pub write_received : Option Ctx → WorkflowRun → Ctx → Fields → Left Ctx
  unfolding consume
  write_received none wr x out = nothing wr x (errored write_failed)
  write_received (some y) wr x out = consume e.control wr y out

  -- The outputs, as they parse.
  unfoldable pub receive : Option Fields → WaitForCallback → Step → WorkflowRun → Ctx → Left Ctx
  unfolding write_received
  receive none wfc step wr x = nothing wr x (errored bad_outputs)
  receive (some out) wfc step wr x =
      let kept : Fields = keep_declared_properties e.unmarshal wfc.output_schema out in
      write_received (e.write_step_outputs x step.name kept) wr x kept

  -- A clear that fails is only logged.
  unfoldable pub expire : WaitForCallback → WorkflowRun → Ctx → Left Ctx
  unfolding handle_callback_timeout clear_pending_callback_patch
  expire wfc wr x = record {
    memory = with_pending none wr;
    context = x;
    stored = elim e.control [ none ↦ none | some attempts ↦ clear_pending_callback_patch attempts ];
    result = handle_callback_timeout wfc;
  }

  -- The callback is pending for this step.
  unfoldable pub recover : CallbackState → WaitForCallback → Step → WorkflowRun → Ctx → Left Ctx
  unfolding receive expire as_map
  recover cb wfc step wr x =
      if not (cb.outputs == "")
      then receive (as_map (e.unmarshal cb.outputs)) wfc step wr x
      else (if ltb cb.expires_at e.now then expire wfc wr x else nothing wr x awaiting)

  unfoldable pub new_callback : String → String → ℕ → CallbackState
  new_callback hash name timeout = record {
    token_hash = hash;
    step_name = name;
    expires_at = e.now + timeout;
    outputs = "";
    created_at = e.now;
  }

  or_same : Ctx → Option Ctx → Ctx
  or_same x none = x
  or_same x (some y) = y

  -- The step is paused; the write of the plain token is best effort.
  unfoldable pub pause : CallbackState → String → Option WorkflowRun → WorkflowRun → Ctx → Left Ctx
  unfolding or_same
  pause cb token stored wr x = record {
    memory = with_pending (some cb) wr;
    context = or_same x (e.write_step_outputs x cb.step_name (e.callback_token token));
    stored = stored;
    result = awaiting;
  }

  abbrev stored_if_some : Option WorkflowRun → Option (Option WorkflowRun)
  stored_if_some none = none
  stored_if_some (some w) = some (some w)

  -- The patch of the control client, where there is one.
  unfoldable pub set_stored : CallbackState → Option (List Attempt) → Option (Option WorkflowRun)
  unfolding set_pending_callback_patch
  set_stored cb none = some none
  set_stored cb (some attempts) = stored_if_some (set_pending_callback_patch cb attempts)

  unfoldable pub after_set :
      Option (Option WorkflowRun) → CallbackState → String → WorkflowRun → Ctx → Left Ctx
  unfolding pause
  after_set none cb token wr x = nothing wr x (errored set_failed)
  after_set (some stored) cb token wr x = pause cb token stored wr x

  unfoldable pub arm : Option (String × String) → ℕ → Step → WorkflowRun → Ctx → Left Ctx
  unfolding new_callback after_set set_stored
  arm none timeout step wr x = nothing wr x (errored generate_failed)
  arm (some (token, hash)) timeout step wr x =
      let cb : CallbackState = new_callback hash step.name timeout in
      after_set (set_stored cb e.control) cb token wr x

  abbrev pub pending_for : Step → Option CallbackState → Option CallbackState
  pending_for step none = none
  pending_for step (some cb) = if cb.step_name == step.name then some cb else none

  unfoldable pub with_callback :
      Option CallbackState → ℕ → WaitForCallback → Step → WorkflowRun → Ctx → Left Ctx
  unfolding recover arm
  with_callback (some cb) timeout wfc step wr x = recover cb wfc step wr x
  with_callback none timeout wfc step wr x = arm e.generate timeout step wr x

  unfoldable pub with_timeout : Option ℕ → WaitForCallback → Step → WorkflowRun → Ctx → Left Ctx
  unfolding with_callback
  with_timeout none wfc step wr x = nothing wr x (errored invalid_timeout)
  with_timeout (some timeout) wfc step wr x =
      with_callback (pending_for step wr.status.pending_callback) timeout wfc step wr x

  unfoldable pub with_configuration : Option WaitForCallback → Step → WorkflowRun → Ctx → Left Ctx
  unfolding with_timeout
  with_configuration none step wr x = nothing wr x (errored no_configuration)
  with_configuration (some wfc) step wr x =
      with_timeout (e.parse_duration wfc.timeout) wfc step wr x

  -- executeWaitForCallback
  unfoldable pub execute_wait_for_callback : WorkflowRun → Step → Ctx → Left Ctx
  unfolding with_configuration
  execute_wait_for_callback wr step x = with_configuration step.wait_for_callback step wr x
