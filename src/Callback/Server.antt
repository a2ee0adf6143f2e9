-- ===== src/Callback/Server.antt =====
-- The HTTP endpoint that receives a callback (internal/workflow/controller/callback_server.go:
-- handleCallback, validateCallbackSchema). The API server's answers are arguments: the first read,
-- and one attempt for each call of the closure that RetryOnConflict makes. A merge patch carries no
-- resource version, so it is applied to the object that is stored by then.
pub mod Accepts
use ottoflow.Prelude.{
  ℕ, String, Bool, true, false, not, Option, none, some, List, [], ◌∷◌, ◌++◌, ◌≡◌, refl, ◌⊎◌, inl,
  inr, ◌==◌, ◌||◌, if◌then◌else◌, ltb, arith, eq_iff, Option-cases, Bool-cases, contains,
}
use ottoflow.Api.Json.{Json, null, bool, num, str, arr, obj, Fields, end}
use ottoflow.Api.Step.{Workflow, Step}
use ottoflow.Api.Run.{RunPhase, is_terminal, CallbackState, WorkflowRun, RunStatus}
use ottoflow.Callback.Token.{validate_token}
use ottoflow.Callback.Schema.{validate_payload}

pub data Fetch : Type 0 where
  missing failed : Fetch
  found : WorkflowRun → Fetch

-- What the API server answers to a patch: it applies it to the stored object, or refuses.
pub data PatchAnswer : Type 0 where
  applied : WorkflowRun → PatchAnswer
  conflict refused : PatchAnswer

-- One call of the retried closure: what its read and its patch are answered.
pub record Attempt : Type 0 where
  pub fetch : Fetch
  pub patch : PatchAnswer

-- The responses, by the branch that writes them.
pub data Answer : Type 0 where
  method_not_allowed bad_path bad_token_format run_not_found fetch_error : Answer
  no_pending_callback token_mismatch run_terminal token_expired : Answer
  body_error invalid_json schema_failed serialization_error record_failed : Answer
  already_accepted accepted : RunPhase → Answer

pub data Event : Type 0 where
  callback_timeout callback_validation_failed callback_received : String → Event

pub record Reply : Type 0 where
  pub answer : Answer
  pub events : List Event
  pub written : Option WorkflowRun

pub record Request : Type 0 where
  pub is_post : Bool
  pub parts : List String  -- the path behind the prefix, split at its slashes
  pub body : Option String  -- what io.ReadAll of the limited body returns

-- What the handler calls that is not its own.
pub record Server : Type 0 where
  pub codes : String → List ℕ  -- the bytes of a text
  pub hash_token : String → String
  pub unmarshal : String → Option Json
  pub marshal : String → Option String  -- of a raw JSON text
  -- What a JSON merge patch with this value leaves: null members are dropped.
  pub merge : String → String
  pub workflow : Option Workflow  -- resolveWorkflow
  pub now : ℕ
  pub first : String → String → Fetch
  pub attempts : List Attempt

abbrev pub only : Answer → Reply
only a = record { answer = a; events = []; written = none }

abbrev pub with_event : Answer → Event → Reply
with_event a e = record { answer = a; events = e ∷ []; written = none }

-- The merge patch of status.pendingCallback.
unfoldable pub patched : WorkflowRun → CallbackState → String → WorkflowRun
patched wr cb out = record wr {
  status = record wr.status { pending_callback = some (record cb { outputs = out }) };
}

pub data Recorded : Type 0 where
  now_terminal already not_recorded : Recorded
  recorded : WorkflowRun → Recorded

-- Are outputs there by now?
abbrev pub has_outputs : Option CallbackState → Bool
has_outputs none = false
has_outputs (some cb) = not (cb.outputs == "")

-- One call of the closure; a conflict has the result of the calls that follow.
unfoldable pub record_once : CallbackState → String → Fetch → PatchAnswer → Recorded → Recorded
unfolding is_terminal patched
record_once cb out missing p on_conflict = not_recorded
record_once cb out failed p on_conflict = not_recorded
record_once cb out (found fresh) p on_conflict =
    if is_terminal fresh.status.phase
    then now_terminal
    else (if has_outputs fresh.status.pending_callback then already else elim p [
      | applied stored ↦ recorded (patched stored cb out)
      | conflict ↦ on_conflict
      | refused ↦ not_recorded
    ])

-- The calls, until the policy gives up.
unfoldable pub record_outputs : CallbackState → String → List Attempt → Recorded
unfolding record_once
record_outputs cb out [] = not_recorded
record_outputs cb out (a ∷ rest) = record_once cb out a.fetch a.patch (record_outputs cb out rest)

abbrev pub first_step : String → List Step → Option Step
first_step name [] = none
first_step name (s ∷ ss) = if s.name == name then some s else first_step name ss

-- json.Unmarshal into a map: an object, or null, which leaves the map nil.
unfoldable pub as_map : Option Json → Option Fields
as_map (some (obj fs)) = some fs
as_map (some null) = some end
as_map _ = none

module _ (cs : Server) where
  -- validateCallbackSchema
  unfoldable pub validate_callback_schema : String → Fields → Bool
  validate_callback_schema step_name payload = elim cs.workflow [
    | none ↦ true
    | some wf ↦ elim (first_step step_name wf.steps) [
      | none ↦ true
      | some s ↦ elim s.wait_for_callback [
        | none ↦ true
        | some wfc ↦ validate_payload cs.unmarshal wfc.output_schema payload
      ]
    ]
  ]

  -- Token, phase and expiry, then a callback that is there already.
  unfoldable pub refusal : CallbackState → WorkflowRun → String → Option Reply
  unfolding is_terminal
  refusal cb wr token =
      if not (cb.token_hash == cs.hash_token token)
      then some (only token_mismatch)
      else if is_terminal wr.status.phase
      then some (only run_terminal)
      else if ltb cb.expires_at cs.now
      then some (with_event token_expired (callback_timeout cb.step_name))
      else (if not (cb.outputs == "") then some (only (already_accepted wr.status.phase)) else none)

  unfoldable pub after_record : Recorded → CallbackState → WorkflowRun → Reply
  after_record now_terminal cb wr = only run_terminal
  after_record already cb wr = only (already_accepted wr.status.phase)
  after_record not_recorded cb wr = only record_failed
  after_record (recorded w) cb wr = record {
    answer = accepted wr.status.phase;
    events = callback_received cb.step_name ∷ [];
    written = some w;
  }

  unfoldable pub after_marshal : Option String → CallbackState → WorkflowRun → Reply
  unfolding after_record record_outputs
  after_marshal none cb wr = only serialization_error
  after_marshal (some out) cb wr = after_record (record_outputs cb (cs.merge out) cs.attempts) cb wr

  unfoldable pub after_payload : Option Fields → String → CallbackState → WorkflowRun → Reply
  unfolding after_marshal validate_callback_schema
  after_payload none body cb wr = with_event invalid_json (callback_validation_failed cb.step_name)
  after_payload (some payload) body cb wr =
      if validate_callback_schema cb.step_name payload
      then after_marshal (cs.marshal body) cb wr
      else with_event schema_failed (callback_validation_failed cb.step_name)

  unfoldable pub or_braces : String → String
  or_braces b = if b == "" then "{}" else b

  unfoldable pub after_body : Option String → CallbackState → WorkflowRun → Reply
  unfolding after_payload as_map or_braces
  after_body none cb wr = only body_error
  after_body (some b) cb wr =
      after_payload (as_map (cs.unmarshal (or_braces b))) (or_braces b) cb wr

  unfoldable pub after_refusal : Option Reply → Option String → CallbackState → WorkflowRun → Reply
  unfolding after_body
  after_refusal (some r) body cb wr = r
  after_refusal none body cb wr = after_body body cb wr

  unfoldable pub after_fetch : Fetch → String → Option String → Reply
  unfolding after_refusal refusal
  after_fetch missing token body = only run_not_found
  after_fetch failed token body = only fetch_error
  after_fetch (found wr) token body = elim wr.status.pending_callback [
    | none ↦ only no_pending_callback
    | some cb ↦ after_refusal (refusal cb wr token) body cb wr
  ]

  unfoldable pub route : List String → Option (String × String × String)
  route (ns ∷ name ∷ verb ∷ token ∷ []) =
      if not (verb == "callback") || (ns == "" || (name == "" || token == ""))
      then none
      else some (ns, name, token)
  route _ = none

  unfoldable pub after_route : Option (String × String × String) → Option String → Reply
  unfolding after_fetch validate_token
  after_route none body = only bad_path
  after_route (some (ns, name, token)) body =
      if validate_token (cs.codes token)
      then after_fetch (cs.first ns name) token body
      else only bad_token_format

  -- handleCallback
  unfoldable pub handle_callback : Request → Reply
  unfolding after_route route
  handle_callback r =
      if r.is_post then after_route (route r.parts) r.body else only method_not_allowed
