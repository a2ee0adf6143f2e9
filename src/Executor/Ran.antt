-- ===== src/Executor/Ran.antt =====
-- What the loop body makes of one step: its status is settled, or the run ends with it.
use ottoflow.Prelude.{
  String, Bool, true, false, some, List, [], ◌∷◌, ◌≡◌, refl, ◌∙◌, inl, inr, ap, ◌==◌, if◌then◌else◌,
  arith, eq_iff, eq_refl, Bool-cases, Option-cases, String-cases, insert, lookup-insert,
}
use ottoflow.Api.Step.{Step, continue}
use ottoflow.Api.Run.{RunPhase, StepPhase, StepStatus}
use ottoflow.Executor.{
  CelResult, value, not_boolean, failure, Outcome, success, awaiting, error, Effect, Env, Exec,
  returned, paused, failed_with, Next, next, stop, get_status, is_step_done, is_pending, find_step,
  check_match_conditions, statuses, match_failed, skip, start, record_workflow_failure, absorb,
  settle, launch, run_step,
}

abbrev pub Statuses : Type 0
Statuses = List (String × StepStatus)

pub get_status-insert :
    (k n : String) (st : StepStatus) (m : Statuses)
    → get_status n (insert k st m) ≡ (if k == n then st else get_status n m)
unfolding get_status
get_status-insert k n st m = ground (arith, lookup-insert k n st m)

pub get_status_self :
    (k : String) (st : StepStatus) (m : Statuses) → get_status k (insert k st m) ≡ st
get_status_self k st m = rw (get_status-insert, eq_refl)

abbrev pub pending_at : String → Statuses → Bool
pending_at n m = is_pending (get_status n m).phase

-- The statuses that are not Pending stay as they are.
abbrev pub Frozen : Statuses → Statuses → Type 0
Frozen m m' = (n : String) → pending_at n m ≡ false → get_status n m' ≡ get_status n m

-- All but one status stay as they are.
abbrev pub Others : String → Statuses → Statuses → Type 0
Others name m m' = (n : String) → (name == n) ≡ false → get_status n m' ≡ get_status n m

pub Frozen-trans : (m m' m'' : Statuses) → Frozen m m' → Frozen m' m'' → Frozen m m''
Frozen-trans m m' m'' h k n e = k n (ap (λ s. is_pending s.phase) (h n e) ∙ e) ∙ h n e

pub Frozen-Others :
    (name : String) (m m' : Statuses) → pending_at name m ≡ true → Others name m m' → Frozen m m'
Frozen-Others name m m' p h n e = elim (String-cases name n) [
  | inl (q, t) ↦ absurd (cc (p, e, q))
  | inr (q, t) ↦ h n t
]

Others-trans :
    (name : String) (m m' m'' : Statuses)
    → Others name m m'
    → Others name m' m''
    → Others name m m''
Others-trans name m m' m'' h k n e = k n e ∙ h n e

Others-insert : (name : String) (st : StepStatus) (m : Statuses) → Others name m (insert name st m)
Others-insert name st m n e = ground (arith, get_status-insert name n st m)

module _ {W : Type 0} (env : Env W) where
  -- How a step that was pending ends: done, or the run ends with it.
  abbrev pub Ran : Step → Exec W → Next W → Type 0
  Ran s x (next b y) =
      (b ≡ true)
      × Others s.name (statuses x) (statuses y)
      × (is_step_done s (get_status s.name (statuses y)) ≡ true)
  Ran s x (stop returned y) = ⊥
  Ran s x (stop (paused e) y) =
      Others s.name (statuses x) (statuses y)
      × ((get_status s.name (statuses y)).phase ≡ StepPhase.waiting)
  Ran s x (stop (failed_with e) y) =
      Others s.name (statuses x) (statuses y)
      × ((get_status s.name (statuses y)).phase ≡ StepPhase.failed)
      × (y.status.phase ≡ RunPhase.failed)

  -- The policy decides whether a failed step stops the run.
  policy-Ran :
      (s : Step) (x y : Exec W) (e message : String)
      → Others s.name (statuses x) (statuses y)
      → (get_status s.name (statuses y)).phase ≡ StepPhase.failed
      → Ran s x (
          if s.failure_policy == continue
          then next true y
          else stop (failed_with e) (record_workflow_failure message y))
  unfolding is_step_done record_workflow_failure
  policy-Ran s x y e message others failed = elim (Bool-cases (s.failure_policy == continue)) [
    | inl c ↦ rw c (refl, others, rw (failed, is_step_done) c)
    | inr c ↦ rw c (others, failed, refl)
  ]

  match_failed-Ran : (s : Step) (e : String) (x : Exec W) → Ran s x (match_failed env s e x)
  unfolding match_failed
  match_failed-Ran s e x =
      policy-Ran s x _ _ _ (Others-insert s.name _ (statuses x)) (rw get_status_self refl)

  skip-Ran : (s : Step) (x : Exec W) → Ran s x (skip env s x)
  unfolding skip is_step_done
  skip-Ran s x =
      (refl, Others-insert s.name _ (statuses x), rw (get_status_self, is_step_done) refl)

  absorb-Others :
      (s : Step) (effect : Effect) (w : W) (x : Exec W)
      → Others s.name (statuses x) (statuses (absorb env s effect w x))
  unfolding absorb
  absorb-Others s effect w x = elim (Option-cases effect.message) [
    | inl e ↦ rw (e, absorb) (λ n h. refl)
    | inr (m, e) ↦ rw (e, absorb) (Others-insert s.name _ (statuses x))
  ]

  settle-Ran :
      (s : Step) (o : Outcome) (x y : Exec W)
      → Others s.name (statuses x) (statuses y)
      → Ran s x (settle env s o y)
  unfolding settle is_step_done
  settle-Ran s success x y h = (
    refl,
    Others-trans s.name (statuses x) (statuses y) _ h (Others-insert s.name _ (statuses y)),
    rw (get_status_self, is_step_done) refl,
  )
  settle-Ran s (awaiting e) x y h = (
    Others-trans s.name (statuses x) (statuses y) _ h (Others-insert s.name _ (statuses y)),
    rw get_status_self refl,
  )
  settle-Ran s (error e) x y h =
      policy-Ran s x _ _ _
        (Others-trans s.name (statuses x) (statuses y) _ h (Others-insert s.name _ (statuses y)))
        (rw get_status_self refl)

  launch-Ran : (s : Step) (x : Exec W) → Ran s x (launch env s x)
  unfolding launch
  launch-Ran s x =
      let y = start env s x in
      let r = env.execute s y.world in
      settle-Ran s r.0.outcome x (absorb env s r.0 r.1 y) (
        Others-trans s.name (statuses x) (statuses y) _ (Others-insert s.name _ (statuses x))
          (absorb-Others s r.0 r.1 y))

  dispatch-Ran :
      (s : Step) (x : Exec W) (c : CelResult)
      → Ran s x (elim c [
        | failure e ↦ match_failed env s e x
        | not_boolean ↦ match_failed env s "" x
        | value false ↦ skip env s x
        | value true ↦ launch env s x
      ])
  dispatch-Ran s x (failure e) = match_failed-Ran s e x
  dispatch-Ran s x not_boolean = match_failed-Ran s "" x
  dispatch-Ran s x (value false) = skip-Ran s x
  dispatch-Ran s x (value true) = launch-Ran s x

  pub find_step-name :
      (name : String) (ss : List Step) (s : Step) → find_step name ss ≡ some s → s.name ≡ name
  unfolding find_step
  find_step-name name [] s e = cc
  find_step-name name (t ∷ ss) s e = ground (arith, find_step-name name ss s, eq_iff t.name name)

  -- A pending step of the workflow is run; one that is not pending is passed over.
  pub run_step-Ran :
      (steps : List Step) (name : String) (s : Step) (x : Exec W)
      → find_step name steps ≡ some s
      → pending_at name (statuses x) ≡ true
      → Ran s x (run_step env steps name x)
  unfolding run_step
  run_step-Ran steps name s x e p =
      rw (e, run_step)
        (rw p (dispatch-Ran s x (check_match_conditions (env.evaluate x.world) s.match_conditions)))

  pub run_step-passes :
      (steps : List Step) (name : String) (s : Step) (x : Exec W)
      → find_step name steps ≡ some s
      → pending_at name (statuses x) ≡ false
      → run_step env steps name x ≡ next false x
  unfolding run_step
  run_step-passes steps name s x e p = rw (e, run_step) (rw p refl)
