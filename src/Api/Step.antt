-- ===== src/Api/Step.antt =====
-- Workflow templates (api/v1alpha1/workflow_types.go and its siblings). A pointer is an `Option`,
-- a map with text keys is an association list in the order in which it is iterated, and the
-- fields that no modelled code reads are left out. The types of pure parameters that the code
-- only tests for nil keep no field.
use ottoflow.Prelude.{ℕ, String, Bool, Option, none, some, List, []}

pub record Expression : Type 0 where
  pub name : String
  pub expression : String

pub record MetricLabel : Type 0 where
  pub name : String
  pub value : String

pub record Output : Type 0 where
  pub name : String
  pub expression : String
  pub value : Option String  -- the raw JSON text
  pub metric : Option (List MetricLabel)  -- the labels of the metric
  pub sensitive : Bool

pub record WorkflowRefStep : Type 0 where
  pub name : String
  pub namespace : String
  pub inputs : List (String × String)

pub record AgentRef : Type 0 where
  pub name : String
  pub namespace : String
  pub additional_prompts : List String
  pub context_budget_mode : String
  pub context_budget_last_n : Option ℕ  -- int32; a negative one is read as 0, which the code treats alike

pub record ExternalAgentRef : Type 0 where
  pub url : String
  pub protocol : String
  pub prompt : String
  pub auth_secret_ref : Bool  -- Auth != nil && Auth.SecretRef != nil
  pub ca_secret_ref : Bool  -- CASecretRef != nil
  pub allow_insecure_http : Bool

pub record McpToolCall : Type 0 where
  pub arguments : List (String × String)

pub record ResourceQuery : Type 0 where
  pub namespace : String
  pub name : String
  pub field_selector : String
  pub label_selector : List (String × String)
  pub outputs : List (String × String)

pub record PrometheusQuery : Type 0 where
  pub variables : List (String × String)
  pub outputs : List (String × String)

pub record Mutate : Type 0 where
  pub target_namespace : String
  pub target_name : String
  pub apply_configuration : Option String  -- its expression
  pub json_patch : Option String  -- its expression
  pub outputs : List (String × String)

pub record OpenReport : Type 0 where
  pub report_name : String
  pub results_expression : String
  pub scope_expression : String
  pub summary_expression : String

pub record TemplateRef : Type 0 where
  pub arguments : List (String × String)

pub record StepTemplateRef : Type 0 where
  pub arguments : List (String × String)

pub record ForEachStep : Type 0 where
  pub expressions : List Expression
  pub outputs : List Output
  pub match_conditions : List Expression
  pub resource_query : Option ResourceQuery
  pub prometheus_query : Option PrometheusQuery
  pub mutate : Option Mutate
  pub agent_ref : Option AgentRef
  pub mcp_tool_call : Option McpToolCall
  pub workflow_ref : Option WorkflowRefStep
  pub external_agent_ref : Option ExternalAgentRef
  pub open_report : Option OpenReport

pub record ForEach : Type 0 where
  pub items : String
  pub step : Option ForEachStep
  pub step_template_ref : Option TemplateRef
  pub max_concurrency : ℕ  -- a negative one is read as 0, which the code treats alike
  pub item_failure_policy : String

pub record WaitForCallback : Type 0 where
  pub timeout : String
  pub output_schema : Option String  -- the raw JSON text
  pub message : String
  pub failure_policy : String

pub record Step : Type 0 where
  pub name : String
  pub depends_on : List String
  pub failure_policy : String
  pub expressions : List Expression
  pub outputs : List Output
  pub match_conditions : List Expression
  pub workflow_ref : Option WorkflowRefStep
  pub agent_ref : Option AgentRef
  pub mcp_tool_call : Option McpToolCall
  pub resource_query : Option ResourceQuery
  pub prometheus_query : Option PrometheusQuery
  pub mutate : Option Mutate
  pub step_template_ref : Option StepTemplateRef
  pub for_each : Option ForEach
  pub external_agent_ref : Option ExternalAgentRef
  pub open_report : Option OpenReport
  pub wait_for_callback : Option WaitForCallback

pub record Workflow : Type 0 where
  pub name : String
  pub namespace : String
  pub variables : List Expression
  pub steps : List Step
  pub outputs : List Output
  pub max_concurrent_steps : Option ℕ  -- spec.executionLimits.maxConcurrentSteps
  pub max_concurrent_runs : Option ℕ  -- spec.run.maxConcurrentRuns

abbrev pub fail : String
fail = "Fail"

abbrev pub continue : String
continue = "Continue"

-- A step that sets nothing but its name, dependencies and failure policy.
abbrev pub plain_step : String → List String → String → Step
plain_step name depends_on failure_policy = record {
  name = name;
  depends_on = depends_on;
  failure_policy = failure_policy;
  expressions = [];
  outputs = [];
  match_conditions = [];
  workflow_ref = none;
  agent_ref = none;
  mcp_tool_call = none;
  resource_query = none;
  prometheus_query = none;
  mutate = none;
  step_template_ref = none;
  for_each = none;
  external_agent_ref = none;
  open_report = none;
  wait_for_callback = none;
}

-- RunPolicy.EffectiveMaxConcurrentRuns
pub default_max_concurrent_runs : ℕ
default_max_concurrent_runs = 10

unfoldable pub effective_max_concurrent_runs : Option ℕ → ℕ
unfolding default_max_concurrent_runs
effective_max_concurrent_runs none = default_max_concurrent_runs
effective_max_concurrent_runs (some n) = n
