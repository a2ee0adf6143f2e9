-- ===== src/Admission/Texts.antt =====
-- The CEL texts of a step (internal/webhook/workflow_deps_validation.go: collectCELStringsFromStep,
-- collectCELStringsFromForEachStep, collectCELStringsFromOpenReport). A Go map gives its values in
-- the order of the association list; the texts are only searched.
pub mod Found
pub mod Collected
use ottoflow.Prelude.{
  String, Bool, false, not, Option, none, some, List, [], ◌∷◌, ◌++◌, ◌==◌, if◌then◌else◌, filter,
}
use ottoflow.Api.Json.{Json, null, bool, num, str, arr, obj, Items, nil, cons, Fields, end, field}
use ottoflow.Api.Step.{
  Step, Output, Expression, ForEach, ForEachStep, WorkflowRefStep, AgentRef, ExternalAgentRef,
  McpToolCall, ResourceQuery, PrometheusQuery, Mutate, OpenReport, StepTemplateRef,
}

abbrev pub texts : List String → List String
texts = filter (λ t. not (t == ""))

pub values_of : List (String × String) → List String
values_of [] = []
values_of (entry ∷ entries) = entry.1 ∷ values_of entries

pub expressions_of : List Expression → List String
expressions_of [] = []
expressions_of (e ∷ es) = e.expression ∷ expressions_of es

-- The text of a pointer to an object with one.
pub text_of : Option String → List String
text_of none = []
text_of (some t) = texts (t ∷ [])

-- What the scan of JSON values calls: encoding/json, strings.ContainsAny(s, ".([") and CEL's parser.
pub record Reader : Type 0 where
  pub unmarshal : String → Option Json
  pub has_marks : String → Bool
  pub parses : String → Bool

module _ (r : Reader) where
  -- evaluatedAsCEL
  unfoldable pub evaluated_as_cel : String → Bool
  evaluated_as_cel s = if not (r.has_marks s) then false else r.parses s

  -- The closure `walk`.
  mutual
    unfolding evaluated_as_cel

    pub walk : Json → List String
    walk (str s) = if evaluated_as_cel s then s ∷ [] else []
    walk (arr xs) = walk_items xs
    walk (obj fs) = walk_fields fs
    walk null = []
    walk (bool b) = []
    walk (num n) = []

    pub walk_items : Items → List String
    walk_items nil = []
    walk_items (cons x xs) = walk x ++ walk_items xs

    pub walk_fields : Fields → List String
    walk_fields end = []
    walk_fields (field k v fs) = walk v ++ walk_fields fs

  -- jsonStringValues
  unfoldable pub json_string_values : String → List String
  unfolding walk
  json_string_values raw = elim (r.unmarshal raw) [ none ↦ raw ∷ [] | some v ↦ walk v ]

  pub value_texts : Option String → List String
  unfolding json_string_values
  value_texts none = []
  value_texts (some raw) = if raw == "" then [] else json_string_values raw

  pub output_texts : List Output → List String
  unfolding value_texts
  output_texts [] = []
  output_texts (o ∷ os) = texts (o.expression ∷ []) ++ value_texts o.value ++ output_texts os

  pub query_texts : Option ResourceQuery → List String
  unfolding values_of
  query_texts none = []
  query_texts (some q) =
      texts (q.namespace ∷ q.name ∷ q.field_selector ∷ [])
      ++ texts (values_of q.outputs)
      ++ texts (values_of q.label_selector)

  pub prometheus_texts : Option PrometheusQuery → List String
  unfolding values_of
  prometheus_texts none = []
  prometheus_texts (some q) = texts (values_of q.variables) ++ texts (values_of q.outputs)

  pub mutate_texts : Option Mutate → List String
  unfolding values_of text_of
  mutate_texts none = []
  mutate_texts (some m) =
      texts (m.target_namespace ∷ m.target_name ∷ [])
      ++ text_of m.apply_configuration
      ++ text_of m.json_patch
      ++ texts (values_of m.outputs)

  pub workflow_texts : Option WorkflowRefStep → List String
  unfolding values_of
  workflow_texts none = []
  workflow_texts (some w) = texts (values_of w.inputs)

  pub prompt_texts : Option AgentRef → List String
  prompt_texts none = []
  prompt_texts (some a) = texts a.additional_prompts

  pub tool_texts : Option McpToolCall → List String
  unfolding values_of
  tool_texts none = []
  tool_texts (some t) = texts (values_of t.arguments)

  pub template_texts : Option StepTemplateRef → List String
  unfolding values_of
  template_texts none = []
  template_texts (some t) = texts (values_of t.arguments)

  pub items_texts : Option ForEach → List String
  items_texts none = []
  items_texts (some f) = texts (f.items ∷ [])

  pub external_texts : Option ExternalAgentRef → List String
  external_texts none = []
  external_texts (some a) = texts (a.prompt ∷ [])

  -- collectCELStringsFromOpenReport
  unfoldable pub collect_cel_strings_from_open_report : Option OpenReport → List String
  collect_cel_strings_from_open_report none = []
  collect_cel_strings_from_open_report (some ref) =
      texts (ref.results_expression ∷ ref.scope_expression ∷ ref.summary_expression ∷ [])

  -- collectCELStringsFromStep
  unfoldable pub collect_cel_strings_from_step : Step → List String
  unfolding expressions_of output_texts workflow_texts prompt_texts tool_texts query_texts
      prometheus_texts mutate_texts template_texts items_texts external_texts
      collect_cel_strings_from_open_report
  collect_cel_strings_from_step s =
      texts (expressions_of s.expressions)
      ++ output_texts s.outputs
      ++ texts (expressions_of s.match_conditions)
      ++ workflow_texts s.workflow_ref
      ++ prompt_texts s.agent_ref
      ++ tool_texts s.mcp_tool_call
      ++ query_texts s.resource_query
      ++ prometheus_texts s.prometheus_query
      ++ mutate_texts s.mutate
      ++ template_texts s.step_template_ref
      ++ items_texts s.for_each
      ++ external_texts s.external_agent_ref
      ++ collect_cel_strings_from_open_report s.open_report

  -- collectCELStringsFromForEachStep
  unfoldable pub collect_cel_strings_from_for_each_step : ForEachStep → List String
  unfolding expressions_of output_texts workflow_texts prompt_texts tool_texts query_texts
      prometheus_texts mutate_texts external_texts collect_cel_strings_from_open_report
  collect_cel_strings_from_for_each_step s =
      texts (expressions_of s.expressions)
      ++ output_texts s.outputs
      ++ texts (expressions_of s.match_conditions)
      ++ query_texts s.resource_query
      ++ prometheus_texts s.prometheus_query
      ++ mutate_texts s.mutate
      ++ prompt_texts s.agent_ref
      ++ tool_texts s.mcp_tool_call
      ++ workflow_texts s.workflow_ref
      ++ external_texts s.external_agent_ref
      ++ collect_cel_strings_from_open_report s.open_report
