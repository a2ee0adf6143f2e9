-- ===== src/Admission.antt =====
-- The admission check of explicit dependencies (internal/webhook/workflow_deps_validation.go:
-- ValidateStepDependencies). The regular expressions that find `steps.a` and `variables.v` in texts
-- are an argument, in the order in which Go ranges over the sets of their matches.
pub mod Texts
pub mod Explicit
mod Samples
use ottoflow.Prelude.{
  String, Bool, true, false, not, Option, none, some, List, [], ◌∷◌, ◌++◌, ◌==◌, ◌&&◌, ◌||◌,
  if◌then◌else◌, contains,
}
use ottoflow.Api.Step.{Step, Output, Expression, ForEach, ForEachStep, Workflow}
use ottoflow.Admission.Texts.{
  Reader, collect_cel_strings_from_step, collect_cel_strings_from_for_each_step,
}

pub data DependencyError : Type 0 where
  missing_step missing_producer : (step reference : String) → DependencyError

pub record Scanner : Type 0 where
  pub reader : Reader
  pub step_refs : List String → List String  -- extractStepRefs
  pub variable_refs : List String → List String  -- extractVariableRefs

abbrev pub step_names : List Step → List String
step_names [] = []
step_names (s ∷ ss) = s.name ∷ step_names ss

abbrev pub variable_names : List Expression → List String
variable_names [] = []
variable_names (v ∷ vs) = v.name ∷ variable_names vs

-- Does one of the outputs have the name? An empty name counts for none.
unfoldable pub has_output : String → List Output → Bool
has_output v [] = false
has_output v (o ∷ os) = (not (o.name == "") && o.name == v) || has_output v os

unfoldable pub inner_step : Option ForEach → Option ForEachStep
inner_step none = none
inner_step (some f) = f.step

unfoldable pub inner_has_output : String → Option ForEachStep → Bool
unfolding has_output
inner_has_output v none = false
inner_has_output v (some inner) = has_output v inner.outputs

-- variableToSteps[v], where a step with the output twice stands once
unfoldable pub producers : String → List Step → List String
unfolding has_output inner_step inner_has_output
producers v [] = []
producers v (s ∷ ss) =
    if has_output v s.outputs || inner_has_output v (inner_step s.for_each)
    then s.name ∷ producers v ss
    else producers v ss

-- hasProducerDependency
unfoldable pub has_producer_dependency : String → List String → List String → Bool
has_producer_dependency name [] deps = false
has_producer_dependency name (p ∷ ps) deps =
    p == name || (contains p deps || has_producer_dependency name ps deps)

abbrev pub or_else : Option DependencyError → Option DependencyError → Option DependencyError
or_else none e = e
or_else (some x) e = some x

-- The loop over the steps that a step refers to.
unfoldable pub check_step_refs :
    List String → String → List String → List String → Option DependencyError
check_step_refs names name deps [] = none
check_step_refs names name deps (r ∷ rs) =
    let rest : Option DependencyError = check_step_refs names name deps rs in
    if not (contains r names)
    then rest
    else if r == name
    then rest
    else (if contains r deps then rest else some (missing_step name r))

abbrev pub is_empty : List String → Bool
is_empty [] = true
is_empty (x ∷ xs) = false

-- The loop over the variables that a step reads.
unfoldable pub check_variable_refs :
    List String → List Step → String → List String → List String → Option DependencyError
unfolding producers has_producer_dependency
check_variable_refs vars steps name deps [] = none
check_variable_refs vars steps name deps (v ∷ vs) =
    let rest : Option DependencyError = check_variable_refs vars steps name deps vs in
    if contains v vars
    then rest
    else if is_empty (producers v steps)
    then rest
    else (if has_producer_dependency name (producers v steps) deps
        then rest
        else some (missing_producer name v))

module _ (c : Scanner) (vars : List String) (steps : List Step) where
  unfoldable pub check_texts : Step → List String → Option DependencyError
  unfolding check_step_refs check_variable_refs
  check_texts s texts =
      or_else (check_step_refs (step_names steps) s.name s.depends_on (c.step_refs texts))
        (check_variable_refs vars steps s.name s.depends_on (c.variable_refs texts))

  unfoldable pub check_inner : Step → Option ForEachStep → Option DependencyError
  unfolding check_texts
  check_inner s none = none
  check_inner s (some inner) = check_texts s (collect_cel_strings_from_for_each_step c.reader inner)

  -- The first loop over the steps, and the second, over the inner steps of forEach.
  unfoldable pub check_steps : List Step → Option DependencyError
  unfolding check_texts
  check_steps [] = none
  check_steps (s ∷ ss) =
      or_else (check_texts s (collect_cel_strings_from_step c.reader s)) (check_steps ss)

  unfoldable pub check_inner_steps : List Step → Option DependencyError
  unfolding check_inner inner_step
  check_inner_steps [] = none
  check_inner_steps (s ∷ ss) =
      or_else (check_inner s (inner_step s.for_each)) (check_inner_steps ss)

-- ValidateStepDependencies; none is nil.
unfoldable pub validate_step_dependencies : Scanner → Workflow → Option DependencyError
unfolding check_steps check_inner_steps
validate_step_dependencies c wf =
    or_else (check_steps c (variable_names wf.variables) wf.steps wf.steps)
      (check_inner_steps c (variable_names wf.variables) wf.steps wf.steps)
