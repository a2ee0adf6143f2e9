-- ===== src/Audit/Samples.antt =====
-- A run with a sensitive output.
use ottoflow.Prelude.{ℕ, zero, suc, String, true, none, some, List, [], ◌∷◌, ◌≡◌, refl}
use ottoflow.Api.Json.{Json, Items, null, str, arr, obj, cons, nil, Fields, end, field}
use ottoflow.Api.Step.{Output, Step, Workflow, plain_step, fail}
use ottoflow.Checkpoint.{Snapshot}
use ottoflow.Audit.Redaction.{redact_sensitive_context, sensitive_output_names}
use ottoflow.Audit.Paths.{Segment, key, index, at}
use ottoflow.Audit.Secrecy.{
  Masked, IsKeptAt, redact_sensitive_context-hidden, redact_sensitive_context-visible,
}
use ottoflow.Audit.Outputs.{sensitive_output_names-hidden}
use ottoflow.Audit.Truncate.{truncate_arrays, truncated_keys}
use ottoflow.Audit.Kept.{within, is_empty, truncate_arrays-within, truncate_arrays-recorded}
use ottoflow.Audit.Size.{
  Encoding, OwnerReference, Attempt, not_found, existing, written, conflict, save_audit_snapshot,
}
use ottoflow.Audit.Bounds.{IsStored, save_audit_snapshot-IsStored}

abbrev token_output : Output
token_output = record {
  name = "token";
  expression = "variables.raw";
  value = none;
  metric = none;
  sensitive = true;
}

abbrev login : Step
login = record (plain_step "login" [] fail) { outputs = token_output ∷ [] }

abbrev login_workflow : Workflow
login_workflow = record {
  name = "login";
  namespace = "default";
  variables = [];
  steps = login ∷ [];
  outputs = [];
  max_concurrent_steps = none;
  max_concurrent_runs = none;
}

-- {"variables":{"token":"s3cret","count":"1"},"steps":{"all":[{"outputs":{"token":"s3cret"}}]}}
abbrev context : Fields
context = field "variables" (obj (field "token" (str "s3cret") (field "count" (str "1") end))) (
    field "steps"
      (obj (
        field "all"
          (arr (cons (obj (field "outputs" (obj (field "token" (str "s3cret") end)) end)) nil))
          end))
      end)

abbrev nested : List Segment
nested = key "steps" ∷ key "all" ∷ index 0 ∷ key "outputs" ∷ key "token" ∷ []

redact_sensitive_context-hidden_example :
    Masked (at nested (some (obj (redact_sensitive_context context ("token" ∷ [])))))
redact_sensitive_context-hidden_example =
    redact_sensitive_context-hidden ("token" ∷ []) context nested refl

redact_sensitive_context-visible_example :
    IsKeptAt (at (key "variables" ∷ key "count" ∷ []) (some (obj context))) (
      at
        (key "variables" ∷ key "count" ∷ [])
        (some (obj (redact_sensitive_context context ("token" ∷ [])))))
redact_sensitive_context-visible_example =
    redact_sensitive_context-visible ("token" ∷ []) context (key "variables" ∷ key "count" ∷ [])
      refl

sensitive_output_names-hidden_example : Masked (
    at
      (key "variables" ∷ key "token" ∷ [])
      (some (obj (redact_sensitive_context context (sensitive_output_names login_workflow)))))
sensitive_output_names-hidden_example =
    sensitive_output_names-hidden login_workflow context "token" [] refl

abbrev nulls : ℕ → Items
nulls zero = nil
nulls (suc n) = cons null (nulls n)

-- {"rows":[null, ... 51 times]}
abbrev long : Json
long = obj (field "rows" (arr (nulls 51)) end)

abbrev some_decimal : ℕ → String
some_decimal n = "51"

truncate_arrays-within_example : within (truncate_arrays some_decimal long) ≡ true
truncate_arrays-within_example = truncate_arrays-within some_decimal long

truncate_arrays-recorded_example :
    (within long ≡ true → truncate_arrays some_decimal long ≡ long)
    × (is_empty (truncated_keys "" long) ≡ within long)
truncate_arrays-recorded_example = truncate_arrays-recorded some_decimal "" long

-- Every snapshot is written as one short text.
abbrev short_texts : Encoding
short_texts = record { marshal = λ s. some "{}"; byte_count = λ t. 2; decimal = some_decimal }

abbrev final : Snapshot
final = record {
  version = 1;
  workflow_run_uid = "u1";
  last_completed_step = "";
  step_statuses = [];
  context = context;
  completion_order = [];
}

abbrev run_owner : List OwnerReference
run_owner = (record { name = "run-1"; uid = "u1" }) ∷ []

-- A conflict, then a write over a ConfigMap of another run.
abbrev two_attempts : List Attempt
two_attempts =
    (record { read = not_found; write = conflict })
    ∷ (record {
      read = existing (record { owners = []; labels = []; entries = [] });
      write = written;
    })
    ∷ []

save_audit_snapshot-IsStored_example :
    IsStored short_texts run_owner final two_attempts
      (save_audit_snapshot short_texts run_owner final two_attempts)
save_audit_snapshot-IsStored_example =
    save_audit_snapshot-IsStored short_texts run_owner final two_attempts
