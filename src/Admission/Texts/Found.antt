-- ===== src/Admission/Texts/Found.antt =====
-- Which texts a step has that the collectors have to find, field by field and independently of them
-- (workflow_deps_validation.go: collectCELStringsFromStep, collectCELStringsFromForEachStep).
use ottoflow.Prelude.{
  String, Bool, false, not, Option, none, some, List, ◌==◌, ◌&&◌, ◌||◌, contains, any,
}
use ottoflow.Api.Json.{Json, null, bool, num, str, arr, obj, Items, nil, cons, Fields, end, field}
use ottoflow.Api.Step.{
  Step, Output, Expression, ForEach, ForEachStep, WorkflowRefStep, AgentRef, ExternalAgentRef,
  McpToolCall, ResourceQuery, PrometheusQuery, Mutate, OpenReport, StepTemplateRef,
}
use ottoflow.Admission.Texts.{Reader}

-- Is the text that of an expression, or a value of a map, or what a pointer points to?
abbrev pub is_expression : String → List Expression → Bool
is_expression t es = any (λ e. e.expression == t) es

abbrev pub is_value : String → List (String × String) → Bool
is_value t m = any (λ entry. entry.1 == t) m

abbrev pub is_pointed : String → Option String → Bool
is_pointed t none = false
is_pointed t (some s) = s == t

-- Is the text a string of a JSON document, at any depth?
abbrev mutual
  pub is_string : String → Json → Bool
  is_string t (str s) = s == t
  is_string t (arr xs) = is_item t xs
  is_string t (obj fs) = is_field t fs
  is_string t null = false
  is_string t (bool b) = false
  is_string t (num n) = false

  pub is_item : String → Items → Bool
  is_item t nil = false
  is_item t (cons x xs) = is_string t x || is_item t xs

  pub is_field : String → Fields → Bool
  is_field t end = false
  is_field t (field k v fs) = is_string t v || is_field t fs

-- The raw value of an output: its strings that are CEL, or the value itself if it is not JSON.
abbrev pub is_raw : Reader → String → String → Bool
is_raw r t raw = elim (r.unmarshal raw) [
  | none ↦ raw == t
  | some v ↦ is_string t v && (r.has_marks t && r.parses t)
]

abbrev pub is_output_value : Reader → String → Option String → Bool
is_output_value r t none = false
is_output_value r t (some raw) = not (raw == "") && is_raw r t raw

abbrev pub is_output : Reader → String → List Output → Bool
is_output r t os = any (λ o. o.expression == t || is_output_value r t o.value) os

abbrev pub in_query : String → Option ResourceQuery → Bool
in_query t none = false
in_query t (some q) =
    q.namespace == t
    || (q.name == t
        || (q.field_selector == t || (is_value t q.outputs || is_value t q.label_selector)))

abbrev pub in_prometheus : String → Option PrometheusQuery → Bool
in_prometheus t none = false
in_prometheus t (some q) = is_value t q.variables || is_value t q.outputs

abbrev pub in_mutate : String → Option Mutate → Bool
in_mutate t none = false
in_mutate t (some m) =
    m.target_namespace == t
    || (m.target_name == t
        || (is_pointed t m.apply_configuration
            || (is_pointed t m.json_patch || is_value t m.outputs)))

abbrev pub in_workflow : String → Option WorkflowRefStep → Bool
in_workflow t none = false
in_workflow t (some w) = is_value t w.inputs

abbrev pub in_prompts : String → Option AgentRef → Bool
in_prompts t none = false
in_prompts t (some a) = contains t a.additional_prompts

abbrev pub in_tool : String → Option McpToolCall → Bool
in_tool t none = false
in_tool t (some c) = is_value t c.arguments

abbrev pub in_template : String → Option StepTemplateRef → Bool
in_template t none = false
in_template t (some x) = is_value t x.arguments

abbrev pub in_items : String → Option ForEach → Bool
in_items t none = false
in_items t (some f) = f.items == t

abbrev pub in_external : String → Option ExternalAgentRef → Bool
in_external t none = false
in_external t (some a) = a.prompt == t

abbrev pub in_report : String → Option OpenReport → Bool
in_report t none = false
in_report t (some x) =
    x.results_expression == t || (x.scope_expression == t || x.summary_expression == t)

abbrev pub has_text : Reader → String → Step → Bool
has_text r t s =
    (((((((((((is_expression t s.expressions || is_output r t s.outputs)
                        || is_expression t s.match_conditions)
                      || in_workflow t s.workflow_ref)
                    || in_prompts t s.agent_ref)
                  || in_tool t s.mcp_tool_call)
                || in_query t s.resource_query)
              || in_prometheus t s.prometheus_query)
            || in_mutate t s.mutate)
          || in_template t s.step_template_ref)
        || in_items t s.for_each)
      || in_external t s.external_agent_ref)
    || in_report t s.open_report

abbrev pub has_inner_text : Reader → String → ForEachStep → Bool
has_inner_text r t s =
    (((((((((is_expression t s.expressions || is_output r t s.outputs)
                    || is_expression t s.match_conditions)
                  || in_query t s.resource_query)
                || in_prometheus t s.prometheus_query)
              || in_mutate t s.mutate)
            || in_prompts t s.agent_ref)
          || in_tool t s.mcp_tool_call)
        || in_workflow t s.workflow_ref)
      || in_external t s.external_agent_ref)
    || in_report t s.open_report
