-- ===== src/Admission/Texts/Collected.antt =====
-- The collectors return exactly the texts that a step has
-- (workflow_deps_validation.go: collectCELStringsFromStep, collectCELStringsFromForEachStep).
use ottoflow.Prelude.{
  String, Bool, true, false, Option, none, some, List, [], ◌∷◌, ◌++◌, ◌≡◌, refl, ap, ◌∙◌, ◌==◌,
  ◌&&◌, ◌||◌, contains, contains-append, arith, eq_iff, Bool-cases, inl, inr,
}
use ottoflow.Api.Json.{Json, null, bool, num, str, arr, obj, Items, nil, cons, Fields, end, field}
use ottoflow.Api.Step.{
  Step, Output, Expression, ForEach, ForEachStep, WorkflowRefStep, AgentRef, ExternalAgentRef,
  McpToolCall, ResourceQuery, PrometheusQuery, Mutate, OpenReport, StepTemplateRef,
}
use ottoflow.Admission.Texts.{
  Reader, texts, values_of, expressions_of, text_of, evaluated_as_cel, walk, walk_items,
  walk_fields, json_string_values, value_texts, output_texts, query_texts, prometheus_texts,
  mutate_texts, workflow_texts, prompt_texts, tool_texts, template_texts, items_texts,
  external_texts, collect_cel_strings_from_open_report, collect_cel_strings_from_step,
  collect_cel_strings_from_for_each_step,
}
use ottoflow.Admission.Texts.Found.{
  is_expression, is_value, is_pointed, is_string, is_item, is_field, is_raw, is_output_value,
  is_output, in_query, in_prometheus, in_mutate, in_workflow, in_prompts, in_tool, in_template,
  in_items, in_external, in_report, has_text, has_inner_text,
}

module _ (r : Reader) (t : String) (filled : (t == "") ≡ false) where
  -- Joined lists have the texts of both.
  joined :
      (xs ys : List String) {p q : Bool}
      → contains t xs ≡ p
      → contains t ys ≡ q
      → contains t (xs ++ ys) ≡ (p || q)
  joined xs ys {p} {q} h k =
      contains-append t xs ys ∙ (ap (λ b. b || contains t ys) h ∙ ap (λ b. p || b) k)

  contains-texts : (l : List String) → contains t (texts l) ≡ contains t l
  contains-texts [] = refl
  contains-texts (x ∷ xs) =
      ground (arith, filled, contains-texts xs, eq_iff x t, eq_iff x "", eq_iff t "")

  contains-values_of : (m : List (String × String)) → contains t (values_of m) ≡ is_value t m
  unfolding values_of
  contains-values_of [] = refl
  contains-values_of (e ∷ es) = ap (λ b. e.1 == t || b) (contains-values_of es)

  contains-expressions_of :
      (es : List Expression) → contains t (expressions_of es) ≡ is_expression t es
  unfolding expressions_of
  contains-expressions_of [] = refl
  contains-expressions_of (e ∷ es) = ap (λ b. e.expression == t || b) (contains-expressions_of es)

  values_found : (m : List (String × String)) → contains t (texts (values_of m)) ≡ is_value t m
  values_found m = contains-texts (values_of m) ∙ contains-values_of m

  contains-text_of : (o : Option String) → contains t (text_of o) ≡ is_pointed t o
  unfolding text_of
  contains-text_of none = refl
  contains-text_of (some s) = contains-texts (s ∷ []) ∙ ground arith

  same : (s : String) → (s == t) ≡ true → s ≡ t
  same s e = ground (arith, e, eq_iff s t)

  mutual
    unfolding walk walk_items walk_fields evaluated_as_cel

    contains-walk :
        (v : Json) → contains t (walk r v) ≡ (is_string t v && (r.has_marks t && r.parses t))
    contains-walk (str s) = elim (Bool-cases (s == t)) [
      | inl e ↦ ground (arith, e, ap r.has_marks (same s e), ap r.parses (same s e))
      | inr e ↦ ground (arith, e)
    ]
    contains-walk (arr xs) = contains-walk_items xs
    contains-walk (obj fs) = contains-walk_fields fs
    contains-walk null = refl
    contains-walk (bool b) = refl
    contains-walk (num n) = refl

    contains-walk_items :
        (xs : Items)
        → contains t (walk_items r xs) ≡ (is_item t xs && (r.has_marks t && r.parses t))
    contains-walk_items nil = refl
    contains-walk_items (cons x xs) =
        joined (walk r x) (walk_items r xs) (contains-walk x) (contains-walk_items xs)
        ∙ ground arith

    contains-walk_fields :
        (fs : Fields)
        → contains t (walk_fields r fs) ≡ (is_field t fs && (r.has_marks t && r.parses t))
    contains-walk_fields end = refl
    contains-walk_fields (field k v fs) =
        joined (walk r v) (walk_fields r fs) (contains-walk v) (contains-walk_fields fs)
        ∙ ground arith

  contains-json_string_values :
      (raw : String) → contains t (json_string_values r raw) ≡ is_raw r t raw
  unfolding json_string_values
  contains-json_string_values raw = by_value (r.unmarshal raw)
    where
      by_value :
          (o : Option Json)
          → contains t (elim o [ none ↦ raw ∷ [] | some v ↦ walk r v ])
            ≡ elim o [ none ↦ raw == t | some v ↦ is_string t v && (r.has_marks t && r.parses t) ]
      by_value none = ground arith
      by_value (some v) = contains-walk v

  contains-value_texts : (o : Option String) → contains t (value_texts r o) ≡ is_output_value r t o
  unfolding value_texts
  contains-value_texts none = refl
  contains-value_texts (some raw) = elim (Bool-cases (raw == "")) [
    | inl e ↦ rw (e) refl
    | inr e ↦ rw (e) (contains-json_string_values raw)
  ]

  contains-output_texts : (os : List Output) → contains t (output_texts r os) ≡ is_output r t os
  unfolding output_texts
  contains-output_texts [] = refl
  contains-output_texts (o ∷ os) =
      joined _ _ (joined _ _ (contains-texts (o.expression ∷ [])) (contains-value_texts o.value))
        (contains-output_texts os)
      ∙ ground arith

  contains-query_texts : (o : Option ResourceQuery) → contains t (query_texts r o) ≡ in_query t o
  unfolding query_texts
  contains-query_texts none = refl
  contains-query_texts (some q) =
      joined _ _
        (joined _ _ (contains-texts (q.namespace ∷ q.name ∷ q.field_selector ∷ []))
          (values_found q.outputs))
        (values_found q.label_selector)
      ∙ ground arith

  contains-prometheus_texts :
      (o : Option PrometheusQuery) → contains t (prometheus_texts r o) ≡ in_prometheus t o
  unfolding prometheus_texts
  contains-prometheus_texts none = refl
  contains-prometheus_texts (some q) =
      joined (texts (values_of q.variables)) (texts (values_of q.outputs))
        (values_found q.variables) (values_found q.outputs)

  contains-mutate_texts : (o : Option Mutate) → contains t (mutate_texts r o) ≡ in_mutate t o
  unfolding mutate_texts
  contains-mutate_texts none = refl
  contains-mutate_texts (some m) =
      joined _ _
        (joined _ _
          (joined _ _ (contains-texts (m.target_namespace ∷ m.target_name ∷ []))
            (contains-text_of m.apply_configuration))
          (contains-text_of m.json_patch))
        (values_found m.outputs)
      ∙ ground arith

  contains-workflow_texts :
      (o : Option WorkflowRefStep) → contains t (workflow_texts r o) ≡ in_workflow t o
  unfolding workflow_texts
  contains-workflow_texts none = refl
  contains-workflow_texts (some w) = values_found w.inputs

  contains-prompt_texts : (o : Option AgentRef) → contains t (prompt_texts r o) ≡ in_prompts t o
  unfolding prompt_texts
  contains-prompt_texts none = refl
  contains-prompt_texts (some a) = contains-texts a.additional_prompts

  contains-tool_texts : (o : Option McpToolCall) → contains t (tool_texts r o) ≡ in_tool t o
  unfolding tool_texts
  contains-tool_texts none = refl
  contains-tool_texts (some c) = values_found c.arguments

  contains-template_texts :
      (o : Option StepTemplateRef) → contains t (template_texts r o) ≡ in_template t o
  unfolding template_texts
  contains-template_texts none = refl
  contains-template_texts (some x) = values_found x.arguments

  contains-items_texts : (o : Option ForEach) → contains t (items_texts r o) ≡ in_items t o
  unfolding items_texts
  contains-items_texts none = refl
  contains-items_texts (some f) = contains-texts (f.items ∷ []) ∙ ground arith

  contains-external_texts :
      (o : Option ExternalAgentRef) → contains t (external_texts r o) ≡ in_external t o
  unfolding external_texts
  contains-external_texts none = refl
  contains-external_texts (some a) = contains-texts (a.prompt ∷ []) ∙ ground arith

  contains-report :
      (o : Option OpenReport)
      → contains t (collect_cel_strings_from_open_report r o) ≡ in_report t o
  unfolding collect_cel_strings_from_open_report
  contains-report none = refl
  contains-report (some x) =
      contains-texts (x.results_expression ∷ x.scope_expression ∷ x.summary_expression ∷ [])
      ∙ ground arith

  -- The collectors return the texts that a step has, other than the empty one, and no others.
  pub contains-collect :
      (s : Step) → contains t (collect_cel_strings_from_step r s) ≡ has_text r t s
  unfolding collect_cel_strings_from_step
  contains-collect s =
      joined _ _
        (joined _ _
          (joined _ _
            (joined _ _
              (joined _ _
                (joined _ _
                  (joined _ _
                    (joined _ _
                      (joined _ _
                        (joined _ _
                          (joined _ _
                            (joined _ _
                              (contains-texts (expressions_of s.expressions)
                                ∙ contains-expressions_of s.expressions)
                              (contains-output_texts s.outputs))
                            (contains-texts (expressions_of s.match_conditions)
                              ∙ contains-expressions_of s.match_conditions))
                          (contains-workflow_texts s.workflow_ref))
                        (contains-prompt_texts s.agent_ref))
                      (contains-tool_texts s.mcp_tool_call))
                    (contains-query_texts s.resource_query))
                  (contains-prometheus_texts s.prometheus_query))
                (contains-mutate_texts s.mutate))
              (contains-template_texts s.step_template_ref))
            (contains-items_texts s.for_each))
          (contains-external_texts s.external_agent_ref))
        (contains-report s.open_report)

  pub contains-collect_inner :
      (s : ForEachStep)
      → contains t (collect_cel_strings_from_for_each_step r s) ≡ has_inner_text r t s
  unfolding collect_cel_strings_from_for_each_step
  contains-collect_inner s =
      joined _ _
        (joined _ _
          (joined _ _
            (joined _ _
              (joined _ _
                (joined _ _
                  (joined _ _
                    (joined _ _
                      (joined _ _
                        (joined _ _
                          (contains-texts (expressions_of s.expressions)
                            ∙ contains-expressions_of s.expressions)
                          (contains-output_texts s.outputs))
                        (contains-texts (expressions_of s.match_conditions)
                          ∙ contains-expressions_of s.match_conditions))
                      (contains-query_texts s.resource_query))
                    (contains-prometheus_texts s.prometheus_query))
                  (contains-mutate_texts s.mutate))
                (contains-prompt_texts s.agent_ref))
              (contains-tool_texts s.mcp_tool_call))
            (contains-workflow_texts s.workflow_ref))
          (contains-external_texts s.external_agent_ref))
        (contains-report s.open_report)
