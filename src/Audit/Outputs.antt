-- ===== src/Audit/Outputs.antt =====
-- The outputs that a workflow marks as sensitive, wherever it declares them
-- (internal/workflow/executor/audit_redaction.go).
use ottoflow.Prelude.{
  String, Bool, true, false, some, List, [], ◌∷◌, ◌++◌, ◌==◌, ◌&&◌, ◌||◌, ◌≡◌, refl, ap, ◌∙◌,
  contains, contains-append, arith,
}
use ottoflow.Api.Json.{obj, Fields}
use ottoflow.Api.Step.{Output, Step, Workflow}
use ottoflow.Audit.Redaction.{
  sensitive_names, inner_outputs, step_names, sensitive_output_names, redact_sensitive_context,
}
use ottoflow.Audit.Paths.{Segment, key, at, hidden}
use ottoflow.Audit.Secrecy.{Masked, redact_sensitive_context-hidden}

-- Is the name that of a sensitive output of the list?
abbrev pub marks : String → List Output → Bool
marks name [] = false
marks name (o ∷ os) = (o.sensitive && o.name == name) || marks name os

-- Is it that of a sensitive output of a step or of the step of its forEach?
abbrev pub steps_mark : String → List Step → Bool
steps_mark name [] = false
steps_mark name (s ∷ ss) =
    marks name s.outputs || (marks name (inner_outputs s.for_each) || steps_mark name ss)

contains-sensitive_names :
    (name : String) (os : List Output) → contains name (sensitive_names os) ≡ marks name os
unfolding sensitive_names
contains-sensitive_names name [] = refl
contains-sensitive_names name (o ∷ os) = ground (arith, contains-sensitive_names name os)

contains-step_names :
    (name : String) (ss : List Step) → contains name (step_names ss) ≡ steps_mark name ss
unfolding step_names
contains-step_names name [] = refl
contains-step_names name (s ∷ ss) =
    rw
      (
        contains-append name (sensitive_names s.outputs)
            (sensitive_names (inner_outputs s.for_each) ++ step_names ss),
        contains-append name (sensitive_names (inner_outputs s.for_each)) (step_names ss),
        contains-sensitive_names name s.outputs,
        contains-sensitive_names name (inner_outputs s.for_each),
        contains-step_names name ss,
      )
      refl

contains-sensitive_output_names :
    (name : String) (w : Workflow)
    → contains name (sensitive_output_names w) ≡ (marks name w.outputs || steps_mark name w.steps)
unfolding sensitive_output_names
contains-sensitive_output_names name w = ground (
  arith,
  contains-append name (sensitive_names w.outputs) (step_names w.steps),
  contains-sensitive_names name w.outputs,
  contains-step_names name w.steps,
)

-- A variable that an output of the workflow, of a step or of the step of a forEach writes, and
-- that is marked as sensitive there, is not in the context that the audit snapshot keeps, nor is
-- anything below it.
pub sensitive_output_names-hidden :
    (w : Workflow) (context : Fields) (name : String) (p : List Segment)
    → (marks name w.outputs || steps_mark name w.steps) ≡ true
    → Masked (
        at
          (key "variables" ∷ key name ∷ p)
          (some (obj (redact_sensitive_context context (sensitive_output_names w)))))
sensitive_output_names-hidden w context name p h =
    redact_sensitive_context-hidden (sensitive_output_names w) context
      (key "variables" ∷ key name ∷ p)
      (ap (λ b. b || hidden (sensitive_output_names w) false p)
        (contains-sensitive_output_names name w ∙ h))
