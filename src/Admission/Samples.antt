-- ===== src/Admission/Samples.antt =====
-- A workflow whose second step reads the first.
use ottoflow.Prelude.{true, none, [], ◌∷◌, ◌≡◌, refl, if◌then◌else◌, contains, arith}
use ottoflow.Dag.Samples.{
  same_order, same_order-RangeOk, two_steps, two_workflow, two_dag, two_dag-built,
}
use ottoflow.Executor.{statuses, run_steps}
use ottoflow.Executor.Order.{completed}
use ottoflow.Executor.Samples.{quiet, quiet-RangesOk, halfway, halfway-IsOrdered, report-left}
use ottoflow.Admission.{
  Scanner, check_step_refs, check_variable_refs, check_texts, check_inner, check_steps,
  check_inner_steps, inner_step, validate_step_dependencies,
}
use ottoflow.Admission.Texts.{collect_cel_strings_from_step}
use ottoflow.Admission.Explicit.{is_text_of, IsUnion, validate_step_dependencies-run_steps}

abbrev scanner : Scanner
scanner = record {
  reader = record { unmarshal = λ s. none; has_marks = λ s. true; parses = λ s. true };
  step_refs = λ texts. if contains "steps.fetch.total" texts then "fetch" ∷ [] else [];
  variable_refs = λ texts. [];
}

two_workflow-admitted : validate_step_dependencies scanner two_workflow ≡ none
unfolding validate_step_dependencies check_steps check_inner_steps check_texts check_inner
    check_step_refs check_variable_refs inner_step collect_cel_strings_from_step
two_workflow-admitted = refl

scanner-IsUnion : IsUnion scanner
scanner-IsUnion a [] = refl
scanner-IsUnion a (t ∷ ts) = ground (arith, scanner-IsUnion a ts)

report-text : is_text_of scanner.reader two_steps "report" "steps.fetch.total" ≡ true
unfolding inner_step
report-text = refl

validate_step_dependencies-run_steps_example :
    completed two_steps (statuses (run_steps quiet two_workflow two_dag halfway).1) "fetch" ≡ true
validate_step_dependencies-run_steps_example =
    validate_step_dependencies-run_steps quiet quiet-RangesOk same_order same_order-RangeOk
      two_workflow two_dag scanner halfway "fetch" "report" "steps.fetch.total" scanner-IsUnion
      two_dag-built two_workflow-admitted halfway-IsOrdered report-text refl refl refl refl
      report-left
