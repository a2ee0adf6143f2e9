-- ===== src/Audit/Redaction.antt =====
-- The redaction of sensitive outputs (internal/workflow/executor/audit_redaction.go).
use ottoflow.Prelude.{
  String, Bool, Option, none, some, List, [], ◌∷◌, ◌++◌, ◌==◌, ◌||◌, if◌then◌else◌, contains,
}
use ottoflow.Api.Json.{Json, null, bool, num, str, arr, obj, Items, nil, cons, Fields, end, field}
use ottoflow.Api.Step.{Output, Step, ForEach, Workflow}

abbrev pub placeholder : String
placeholder = "<redacted:sensitive>"

-- collect
unfoldable pub sensitive_names : List Output → List String
sensitive_names [] = []
sensitive_names (o ∷ os) =
    let rest : List String = sensitive_names os in if o.sensitive then o.name ∷ rest else rest

abbrev pub inner_outputs : Option ForEach → List Output
inner_outputs none = []
inner_outputs (some f) = elim f.step [ none ↦ [] | some s ↦ s.outputs ]

unfoldable pub step_names : List Step → List String
unfolding sensitive_names
step_names [] = []
step_names (s ∷ ss) =
    sensitive_names s.outputs ++ (sensitive_names (inner_outputs s.for_each) ++ step_names ss)

-- sensitiveOutputNames: the keys of the map
unfoldable pub sensitive_output_names : Workflow → List String
unfolding step_names
sensitive_output_names w = sensitive_names w.outputs ++ step_names w.steps

abbrev pub is_output_key : String → Bool
is_output_key k = k == "outputs" || k == "variables"

unfoldable mutual
  -- redactValue
  pub redact_value : List String → Json → Json
  redact_value names (obj fs) = obj (redact_fields names fs)
  redact_value names (arr xs) = arr (redact_items names xs)
  redact_value names null = null
  redact_value names (bool b) = bool b
  redact_value names (num n) = num n
  redact_value names (str s) = str s

  -- The entries of a map, in redactValue
  pub redact_fields : List String → Fields → Fields
  redact_fields names end = end
  redact_fields names (field k v fs) =
      field k (if is_output_key k then redact_named_map names v else redact_value names v)
        (redact_fields names fs)

  -- The entries of an array, in redactValue
  pub redact_items : List String → Items → Items
  redact_items names nil = nil
  redact_items names (cons v xs) = cons (redact_value names v) (redact_items names xs)

  -- redactNamedMap
  pub redact_named_map : List String → Json → Json
  redact_named_map names (obj fs) = obj (redact_named_fields names fs)
  redact_named_map names (arr xs) = arr (redact_items names xs)
  redact_named_map names null = null
  redact_named_map names (bool b) = bool b
  redact_named_map names (num n) = num n
  redact_named_map names (str s) = str s

  -- The entries of a map of outputs, in redactNamedMap
  pub redact_named_fields : List String → Fields → Fields
  redact_named_fields names end = end
  redact_named_fields names (field k v fs) =
      field k (if contains k names then str placeholder else redact_value names v)
        (redact_named_fields names fs)

-- redactSensitiveContext
unfoldable pub redact_sensitive_context : Fields → List String → Fields
unfolding redact_fields
redact_sensitive_context context names = redact_fields names context
