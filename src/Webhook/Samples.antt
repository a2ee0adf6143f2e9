-- ===== src/Webhook/Samples.antt =====
-- A signed request for a workflow with a webhook trigger, and its repetition.
use ottoflow.Prelude.{
  ℕ, zero, suc, ◌<◌, ◌-◌, true, false, none, some, List, [], ◌∷◌, ◌++◌, ◌≡◌, refl, ◌==◌,
  if◌then◌else◌, arith,
}
use ottoflow.Api.Json.{str, end, field}
use ottoflow.Api.Step.{Workflow, effective_max_concurrent_runs}
use ottoflow.Callback.Token.{same_codes}
use ottoflow.Webhook.{
  Epoch, Request, Server, signature_prefix, handle_webhook, parse_webhook_path, after_path,
  verify_timestamp, after_body, after_workflow, after_trigger, fetch_secret, key_name, after_secret,
  verify_hmac, signed_bytes, after_auth, effective_rate_limit,
}
use ottoflow.Webhook.Trigger.{
  WebhookTrigger, cel_value, Calls, create_workflow_run_from_webhook, needs_object, after_parse,
  filter_value, after_filter, map_inputs, object_key, is_duplicate, after_dedup, within_limit,
  create_run, remember, set_status, effective_dedup_window, updated,
}
use ottoflow.Webhook.Checked.{Gate, SomeChecked, refusal, accepts, handle_webhook-Gate}
use ottoflow.Webhook.Steps.{is_made}
use ottoflow.Webhook.Duplicates.{
  Hook, HasKey, handled, made_of, create_workflow_run_from_webhook-once,
}

abbrev deploy : Workflow
deploy = record {
  name = "deploy";
  namespace = "default";
  variables = [];
  steps = [];
  outputs = [];
  max_concurrent_steps = none;
  max_concurrent_runs = some 2;
}

abbrev trigger : WebhookTrigger
trigger = record {
  secret_ref = record { name = "hook"; namespace = ""; key = "" };
  cel_filter = "";
  input_mapping = ("revision", "object.rev") ∷ [];
  dedup_key = "object.rev";
  dedup_window = none;
  rate_limit = none;
}

-- {"rev":"abc"}, at the second 10 and again at the second 40
abbrev calls_at : ℕ → Calls
calls_at now = record {
  unmarshal = λ body. some (field "rev" (str "abc") end);
  evaluate = λ e o. cel_value none "abc";
  checked_at = now;
  active = some 0;
  run_name = "deploy-1";
  create = true;
  created_at = now;
  status_calls = updated ∷ [];
}

abbrev zeros : ℕ → List ℕ
zeros zero = []
zeros (suc n) = 0 ∷ zeros n

abbrev server : Server
server = record {
  now = 10000000000;
  parse_int = λ s. some (Epoch.since 10);
  bytes = λ s. if s == "sha256=01" then signature_prefix ++ (1 ∷ []) else [];
  hex_decode = λ cs. some cs;
  hmac = λ secret message. 1 ∷ [];
  get_workflow = λ ns name.
      if name == "deploy"
      then some (record { workflow = deploy; triggers = none ∷ some trigger ∷ [] })
      else none;
  get_secret = λ ns name. some (("hmac-key", zeros 32) ∷ []);
  allow = λ key limit. true;
  calls = calls_at 10000000000;
}

abbrev request : Request
request = record {
  is_post = true;
  path = "/webhooks/default/deploy";
  parts = some ("default" ∷ "deploy" ∷ []);
  timestamp = "10";
  content_type = "application/json";
  signature = "sha256=01";
  body = some (b'{' ∷ b'}' ∷ []);
}

handle_webhook-Gate_example :
    Gate request []
      (refusal server request)
      (SomeChecked server request)
      (handle_webhook server request [])
handle_webhook-Gate_example = handle_webhook-Gate server request []

-- The request creates a run.
creates : accepts (handle_webhook server request []).0 ≡ true
unfolding handle_webhook parse_webhook_path after_path verify_timestamp after_body after_workflow
    after_trigger fetch_secret key_name after_secret verify_hmac signed_bytes after_auth
    effective_rate_limit same_codes create_workflow_run_from_webhook needs_object after_parse
    filter_value after_filter map_inputs object_key is_duplicate after_dedup within_limit create_run
    remember set_status effective_dedup_window effective_max_concurrent_runs
creates = refl

abbrev hook_at : ℕ → Hook
hook_at now = record { workflow = deploy; trigger = trigger; calls = calls_at now; body = [] }

hook_at-HasKey : (now : ℕ) → HasKey (hook_at now) "webhook-dedup/abc"
unfolding needs_object object_key
hook_at-HasKey now = (field "rev" (str "abc") end, refl, refl)

has_window : 0 < effective_dedup_window trigger
unfolding effective_dedup_window
has_window = omega arith

first_made : is_made (made_of (hook_at 10000000000) []).0 ≡ true
unfolding create_workflow_run_from_webhook needs_object after_parse filter_value after_filter
    map_inputs object_key is_duplicate after_dedup within_limit create_run remember set_status
    effective_dedup_window effective_max_concurrent_runs
first_made = refl

is_recent_again : 40000000000 - 10000000000 < effective_dedup_window trigger
unfolding effective_dedup_window
is_recent_again = omega arith

create_workflow_run_from_webhook-once_example :
    is_made
      (made_of
        (hook_at 40000000000)
        (handled (hook_at 20000000000 ∷ []) (made_of (hook_at 10000000000) []).1)).0
    ≡ false
create_workflow_run_from_webhook-once_example =
    create_workflow_run_from_webhook-once (hook_at 10000000000) (hook_at 40000000000)
      (hook_at 20000000000 ∷ []) [] "webhook-dedup/abc" (hook_at-HasKey 10000000000)
      (hook_at-HasKey 40000000000) refl has_window first_made (omega arith, tt) is_recent_again
