-- ===== src/Admission/Explicit.antt =====
-- An admitted workflow's references are declared dependencies, so that a step that runs finds the
-- steps that it refers to completed (workflow_deps_validation.go, dag.go, executor.go).
use ottoflow.Prelude.{
  String, Bool, true, false, Option, none, some, List, [], ◌∷◌, ◌≡◌, refl, ◌==◌, ◌&&◌, ◌||◌,
  contains, any, arith, eq_iff, String-cases, inl, inr, sym, ◌∙◌, ap, or-true, and-true,
}
use ottoflow.Api.Step.{Step, ForEachStep, Workflow}
use ottoflow.Dag.{Dag, build_dag, ok}
use ottoflow.Dag.Declare.{declares, is_step}
use ottoflow.Dag.Build.{RangeOk}
use ottoflow.Executor.{Env, Exec, statuses, initialize_statuses, run_steps}
use ottoflow.Executor.Ran.{pending_at}
use ottoflow.Executor.Order.{IsOrdered, completed}
use ottoflow.Executor.Loop.{RangesOk, run_steps-IsOrdered}
use ottoflow.Admission.{
  DependencyError, Scanner, step_names, variable_names, inner_step, or_else, check_step_refs,
  check_variable_refs, check_texts, check_inner, check_steps, check_inner_steps,
  validate_step_dependencies,
}
use ottoflow.Admission.Texts.{
  Reader, collect_cel_strings_from_step, collect_cel_strings_from_for_each_step,
}
use ottoflow.Admission.Texts.Found.{has_text, has_inner_text}
use ottoflow.Admission.Texts.Collected.{contains-collect, contains-collect_inner}

-- Does the step named `b`, or its inner step, refer to `a` in its texts?
abbrev pub refers_here : Scanner → List Step → String → String → Bool
refers_here c ss a b =
    any (λ s. s.name == b && contains a (c.step_refs (collect_cel_strings_from_step c.reader s))) ss

abbrev pub inner_refers : Scanner → String → Option ForEachStep → Bool
inner_refers c a none = false
inner_refers c a (some inner) =
    contains a (c.step_refs (collect_cel_strings_from_for_each_step c.reader inner))

abbrev pub refers_inside : Scanner → List Step → String → String → Bool
refers_inside c ss a b = any (λ s. s.name == b && inner_refers c a (inner_step s.for_each)) ss

contains-step_names : (a : String) (ss : List Step) → contains a (step_names ss) ≡ is_step ss a
contains-step_names a [] = refl
contains-step_names a (s ∷ ss) = ground (arith, contains-step_names a ss)

or_else-none : (x y : Option DependencyError) → or_else x y ≡ none → (x ≡ none) × (y ≡ none)
or_else-none none y h = (refl, h)
or_else-none (some x) y h = ground (arith, h)

check_step_refs-declared :
    (names : List String) (name : String) (deps refs : List String) (a : String)
    → check_step_refs names name deps refs ≡ none
    → contains a refs ≡ true
    → contains a names ≡ true
    → (a == name) ≡ false
    → contains a deps ≡ true
unfolding check_step_refs
check_step_refs-declared names name deps [] a h m k e = ground (arith, m)
check_step_refs-declared names name deps (r ∷ rs) a h m k e =
    let rest = check_step_refs-declared names name deps rs a in
    elim (String-cases r a) [
      | inr (p, t) ↦ ground (arith, h, m, k, e, t, rest)
      | inl (p, t) ↦
          let k' = ap (λ z. contains z names) p ∙ k in
          let e' = ap (λ z. z == name) p ∙ e in
          let found : contains r deps ≡ true = ground (arith, h, k', e') in
          sym (ap (λ z. contains z deps) p) ∙ found
    ]

module _ (c : Scanner) (vars : List String) (steps : List Step) where
  check_texts-declared :
      (s : Step) (texts : List String) (a : String)
      → check_texts c vars steps s texts ≡ none
      → contains a (c.step_refs texts) ≡ true
      → is_step steps a ≡ true
      → (a == s.name) ≡ false
      → contains a s.depends_on ≡ true
  unfolding check_texts
  check_texts-declared s texts a h m k e =
      let (left, right) =
        or_else-none (check_step_refs (step_names steps) s.name s.depends_on (c.step_refs texts))
          (check_variable_refs vars steps s.name s.depends_on (c.variable_refs texts)) h in
      check_step_refs-declared (step_names steps) s.name s.depends_on (c.step_refs texts) a left m
        (contains-step_names a steps ∙ k) e

  check_inner-declared :
      (s : Step) (o : Option ForEachStep) (a : String)
      → check_inner c vars steps s o ≡ none
      → inner_refers c a o ≡ true
      → is_step steps a ≡ true
      → (a == s.name) ≡ false
      → contains a s.depends_on ≡ true
  unfolding check_inner
  check_inner-declared s none a h m k e = ground (arith, m)
  check_inner-declared s (some inner) a h m k e = check_texts-declared s _ a h m k e

  -- A dependency of the first step, or of the others.
  first-declared :
      (s : Step) (ss : List Step) (a b : String) (q : Bool)
      → (a == b) ≡ false
      → (q ≡ true → (a == s.name) ≡ false → contains a s.depends_on ≡ true)
      → ((s.name == b) && q) ≡ true
      → declares (s ∷ ss) a b ≡ true
  first-declared s ss a b q e head h =
      let (n, m) = and-true (s.name == b) q h in
      let same : s.name ≡ b = ground (arith, n, eq_iff s.name b) in
      let deps = head m (ap (λ z. a == z) same ∙ e) in ground (arith, n, deps)

  check_steps-declared :
      (ss : List Step) (a b : String)
      → check_steps c vars steps ss ≡ none
      → refers_here c ss a b ≡ true
      → is_step steps a ≡ true
      → (a == b) ≡ false
      → declares ss a b ≡ true
  unfolding check_steps
  check_steps-declared [] a b h m k e = ground (arith, m)
  check_steps-declared (s ∷ ss) a b h m k e =
      let found : List String = collect_cel_strings_from_step c.reader s in
      let q : Bool = contains a (c.step_refs found) in
      let (left, right) =
        or_else-none (check_texts c vars steps s found) (check_steps c vars steps ss) h in
      elim (or-true ((s.name == b) && q) (refers_here c ss a b) m) [
        | inl here ↦
            first-declared s ss a b q e (λ t n. check_texts-declared s found a left t k n) here
        | inr later ↦ let rest = check_steps-declared ss a b right later k e in ground (arith, rest)
      ]

  check_inner_steps-declared :
      (ss : List Step) (a b : String)
      → check_inner_steps c vars steps ss ≡ none
      → refers_inside c ss a b ≡ true
      → is_step steps a ≡ true
      → (a == b) ≡ false
      → declares ss a b ≡ true
  unfolding check_inner_steps
  check_inner_steps-declared [] a b h m k e = ground (arith, m)
  check_inner_steps-declared (s ∷ ss) a b h m k e =
      let q : Bool = inner_refers c a (inner_step s.for_each) in
      let (left, right) =
        or_else-none (check_inner c vars steps s (inner_step s.for_each))
          (check_inner_steps c vars steps ss) h in
      elim (or-true ((s.name == b) && q) (refers_inside c ss a b) m) [
        | inl here ↦
            first-declared s ss a b q e
              (λ t n. check_inner-declared s (inner_step s.for_each) a left t k n) here
        | inr later ↦
            let rest = check_inner_steps-declared ss a b right later k e in ground (arith, rest)
      ]

-- Does the step named `b` refer to `a`, in its own texts or those of its inner step?
abbrev pub refers : Scanner → List Step → String → String → Bool
refers c ss a b = refers_here c ss a b || refers_inside c ss a b

validate_step_dependencies-declares :
    (c : Scanner) (wf : Workflow) (a b : String)
    → validate_step_dependencies c wf ≡ none
    → refers c wf.steps a b ≡ true
    → is_step wf.steps a ≡ true
    → (a == b) ≡ false
    → declares wf.steps a b ≡ true
unfolding validate_step_dependencies
validate_step_dependencies-declares c wf a b h m k e =
    let vars : List String = variable_names wf.variables in
    let (left, right) =
      or_else-none (check_steps c vars wf.steps wf.steps)
        (check_inner_steps c vars wf.steps wf.steps) h in
    elim (or-true (refers_here c wf.steps a b) (refers_inside c wf.steps a b) m) [
      | inl here ↦ check_steps-declared c vars wf.steps wf.steps a b left here k e
      | inr inside ↦ check_inner_steps-declared c vars wf.steps wf.steps a b right inside k e
    ]

-- Has the step named `b`, or the step of its forEach, the text `t` in a field that is scanned?
abbrev pub inner_has_text : Reader → String → Option ForEachStep → Bool
inner_has_text r t none = false
inner_has_text r t (some inner) = has_inner_text r t inner

abbrev pub is_text_of : Reader → List Step → String → String → Bool
is_text_of r ss b t =
    any (λ s. s.name == b && (has_text r t s || inner_has_text r t (inner_step s.for_each))) ss

-- The references in a list of texts are those in each of them.
abbrev pub IsUnion : Scanner → Type 0
IsUnion c =
    (a : String) (l : List String)
    → contains a (c.step_refs l) ≡ any (λ t. contains a (c.step_refs (t ∷ []))) l

any_found :
    (p : String → Bool) (t : String) (l : List String)
    → contains t l ≡ true
    → p t ≡ true
    → any p l ≡ true
any_found p t [] h k = ground (arith, h)
any_found p t (x ∷ xs) h k = elim (String-cases x t) [
  | inl (e, q) ↦ let here : p x ≡ true = ap p e ∙ k in ground (arith, here)
  | inr (e, q) ↦
      let later : any p xs ≡ true = any_found p t xs (ground (arith, h, q)) k in
      ground (arith, later)
]

module _ (c : Scanner) (union : IsUnion c) (a b t : String) (filled : (t == "") ≡ false)
    (found : contains a (c.step_refs (t ∷ [])) ≡ true) where
  here-refers :
      (s : Step)
      → has_text c.reader t s ≡ true
      → contains a (c.step_refs (collect_cel_strings_from_step c.reader s)) ≡ true
  here-refers s h =
      union a (collect_cel_strings_from_step c.reader s)
      ∙ any_found (λ x. contains a (c.step_refs (x ∷ []))) t _
          (contains-collect c.reader t filled s ∙ h) found

  inside-refers :
      (o : Option ForEachStep) → inner_has_text c.reader t o ≡ true → inner_refers c a o ≡ true
  inside-refers none h = ground (arith, h)
  inside-refers (some inner) h =
      union a (collect_cel_strings_from_for_each_step c.reader inner)
      ∙ any_found (λ x. contains a (c.step_refs (x ∷ []))) t _
          (contains-collect_inner c.reader t filled inner ∙ h) found

  is_text_of-refers : (ss : List Step) → is_text_of c.reader ss b t ≡ true → refers c ss a b ≡ true
  is_text_of-refers [] h = ground (arith, h)
  is_text_of-refers (s ∷ ss) h =
      let here : Bool = has_text c.reader t s in
      let inside : Bool = inner_has_text c.reader t (inner_step s.for_each) in
      elim (or-true ((s.name == b) && (here || inside)) (is_text_of c.reader ss b t) h) [
        | inr later ↦ let rest = is_text_of-refers ss later in ground (arith, rest)
        | inl first ↦
            let (named, text) = and-true (s.name == b) (here || inside) first in
            elim (or-true here inside text) [
              | inl x ↦ let r = here-refers s x in ground (arith, named, r)
              | inr x ↦ let r = inside-refers (inner_step s.for_each) x in ground (arith, named, r)
            ]
      ]

-- In a workflow that ValidateStepDependencies admits and whose graph BuildDAG returned, a step that
-- has a text with a reference steps.<name> to another step, or whose forEach has a step with such a
-- text, leaves the phase Pending only when that other step is completed, however the run ends. This
-- is provided that it holds of declared dependencies in the statuses that the run starts from, with
-- the missing ones filled in. The texts of a step are those that has_text and has_inner_text list:
-- expressions, of outputs too, the CEL strings of an output's JSON value, match conditions, inputs,
-- prompts, arguments, queries, mutations, items and reports; the metric labels of outputs, and the
-- arguments of a step template that a forEach refers to, are not among them. The references found in a list of texts are assumed to be
-- those found in each of them.
pub validate_step_dependencies-run_steps :
    {W : Type 0} (env : Env W) (ranges : RangesOk env) (range : List String → List String)
    (range_ok : RangeOk range) (wf : Workflow) (d : Dag) (c : Scanner) (x : Exec W) (a b t : String)
    → IsUnion c
    → build_dag range wf.steps ≡ ok d
    → validate_step_dependencies c wf ≡ none
    → IsOrdered wf.steps (initialize_statuses wf.steps (statuses x))
    → is_text_of c.reader wf.steps b t ≡ true
    → (t == "") ≡ false
    → contains a (c.step_refs (t ∷ [])) ≡ true
    → is_step wf.steps a ≡ true
    → (a == b) ≡ false
    → pending_at b (statuses (run_steps env wf d x).1) ≡ false
    → completed wf.steps (statuses (run_steps env wf d x).1) a ≡ true
validate_step_dependencies-run_steps env ranges range range_ok wf d c x a b t union built valid
      ordered text filled found k e left =
    run_steps-IsOrdered env ranges range range_ok wf d built x ordered a b
      (validate_step_dependencies-declares c wf a b valid
        (is_text_of-refers c union a b t filled found wf.steps text) k e)
      left
