-- ===== src/Callback/Samples.antt =====
-- A callback for one step.
use ottoflow.Prelude.{
  ℕ, zero, suc, ◌==◌, ◌++◌, arith, String, true, Option, none, some, List, [], ◌∷◌, ◌≡◌, refl,
  if◌then◌else◌, is_some,
}
use ottoflow.Api.Json.{Json, str, bool, obj, Fields, end, field, get}
use ottoflow.Api.Step.{Step, WaitForCallback, plain_step, fail}
use ottoflow.Api.Run.{RunPhase, CallbackState, WorkflowRun, is_terminal}
use ottoflow.Callback.Token.{
  generate, validate_token, validate_token-generate, encode_hex, token_prefix, AreBytes, all_hex,
  is_hex, same_codes, hex_digit,
}
use ottoflow.Callback.Schema.{
  schema_properties, properties_ok, fits_schema, property_ok, value_ok, check_json_type,
  validate_payload, keep_declared_properties, keep_declared_properties-fits,
}
use ottoflow.Callback.Server.{
  Fetch, applied, Server, Request, handle_callback, after_route, route, after_fetch, after_refusal,
  refusal, after_body, or_braces, after_payload, validate_callback_schema, after_marshal,
  record_outputs, record_once, after_record, as_map, patched,
}
use ottoflow.Callback.Server.Accepts.{Checked, handle_callback-Checked}
use ottoflow.Callback.Wait.{
  Runner, with_configuration, with_timeout, with_callback, arm, after_set, set_stored, pause,
  execute_wait_for_callback, nothing, awaiting, with_pending,
}
use ottoflow.Callback.Wait.Delivery.{execute_wait_for_callback-rearmed}

abbrev zeros : ℕ → List ℕ
zeros zero = []
zeros (suc n) = 0 ∷ zeros n

zeros-AreBytes : (n : ℕ) → AreBytes (zeros n)
zeros-AreBytes zero = tt
zeros-AreBytes (suc n) = (omega arith, zeros-AreBytes n)

zero_token : generate (some (zeros 32)) ≡ some (token_prefix ++ encode_hex (zeros 32))
unfolding generate
zero_token = refl

validate_token-generate_example : validate_token (token_prefix ++ encode_hex (zeros 32)) ≡ true
validate_token-generate_example =
    validate_token-generate (zeros 32) (token_prefix ++ encode_hex (zeros 32)) refl
      (zeros-AreBytes 32) zero_token

-- {"properties":{"approved":{"type":"boolean"}}}
abbrev pub properties : Fields
properties = field "approved" (obj (field "type" (str "boolean") end)) end

abbrev pub schema : Fields
schema = field "properties" (obj properties) end

-- {"approved":true,"note":"ok"}
abbrev pub payload : Fields
payload = field "approved" (bool true) (field "note" (str "ok") end)

abbrev pub parse : String → Option Json
parse text = if text == "schema" then some (obj schema) else some (obj payload)

schema_properties-schema : schema_properties schema ≡ some properties
unfolding schema_properties
schema_properties-schema = refl

payload-fits : validate_payload parse (some "schema") payload ≡ true
unfolding validate_payload fits_schema schema_properties properties_ok property_ok value_ok
    check_json_type
payload-fits = refl

keep_declared_properties-fits_example :
    (properties_ok properties (keep_declared_properties parse (some "schema") payload) ≡ true)
    × ((k : String)
        → get k (keep_declared_properties parse (some "schema") payload)
          ≡ (if is_some (get k properties) then get k payload else none))
keep_declared_properties-fits_example =
    keep_declared_properties-fits parse "schema" schema properties payload refl refl
      schema_properties-schema payload-fits

abbrev pub approval : CallbackState
approval = record {
  token_hash = "hash";
  step_name = "approve";
  expires_at = 100;
  outputs = "";
  created_at = 10;
}

abbrev pub waiting_run : WorkflowRun
waiting_run = record {
  name = "deploy-1";
  namespace = "ops";
  checkpointing = none;
  status = record {
    phase = RunPhase.running;
    message = "";
    failure_reason = "";
    start_time = none;
    completion_time = none;
    step_statuses = [];
    pending_callback = some approval;
    execution = none;
  };
}

abbrev server : Server
server = record {
  codes = λ s. token_prefix ++ encode_hex (zeros 32);
  hash_token = λ s. "hash";
  unmarshal = parse;
  marshal = λ s. some s;
  merge = λ s. s;
  workflow = none;
  now = 50;
  first = λ namespace name. Fetch.found waiting_run;
  attempts = record { fetch = Fetch.found waiting_run; patch = applied waiting_run } ∷ [];
}

abbrev request : Request
request = record {
  is_post = true;
  parts = "ops" ∷ "deploy-1" ∷ "callback" ∷ "cb_" ∷ [];
  body = some "payload";
}

request-written :
    (handle_callback server request).written ≡ some (patched waiting_run approval "payload")
unfolding handle_callback after_route route after_fetch after_refusal refusal after_body or_braces
    after_payload as_map validate_callback_schema after_marshal record_outputs record_once
    after_record is_terminal validate_token all_hex is_hex same_codes encode_hex hex_digit
request-written = refl

handle_callback-Checked_example : Checked server request (patched waiting_run approval "payload")
handle_callback-Checked_example =
    handle_callback-Checked server request (patched waiting_run approval "payload") request-written

abbrev pub gate : WaitForCallback
gate = record { timeout = "1m"; output_schema = some "schema"; message = ""; failure_policy = "" }

abbrev pub gate_step : Step
gate_step = record (plain_step "approve" [] fail) { wait_for_callback = some gate }

-- A context that counts its writes.
abbrev pub runner : ℕ → Runner ℕ
runner n = record {
  now = n;
  parse_duration = λ t. some 60;
  unmarshal = parse;
  generate = some ("token", "hash");
  write_step_outputs = λ x name out. some (suc x);
  callback_token = λ t. end;
  control = none;
}

pub payload-parses : as_map (parse "payload") ≡ some payload
unfolding as_map
payload-parses = refl

abbrev new_run : WorkflowRun
new_run = with_pending none waiting_run

new_run-awaiting : (execute_wait_for_callback (runner 20) new_run gate_step 0).result ≡ awaiting
unfolding execute_wait_for_callback with_configuration with_timeout with_callback arm after_set
    set_stored pause
new_run-awaiting = refl

execute_wait_for_callback-rearmed_example :
    execute_wait_for_callback
      (runner 70)
      (execute_wait_for_callback (runner 20) new_run gate_step 0).memory
      gate_step
      3
    ≡ nothing
        (runner 70)
        (execute_wait_for_callback (runner 20) new_run gate_step 0).memory
        3
        awaiting
execute_wait_for_callback-rearmed_example =
    execute_wait_for_callback-rearmed (runner 20) (runner 70) new_run gate gate_step 60 0 3 refl
      refl refl refl new_run-awaiting (omega arith)
