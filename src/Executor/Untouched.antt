-- ===== src/Executor/Untouched.antt =====
-- A step that is not pending when the loop starts is not executed (executor.go): whatever the
-- execution of the other steps keeps of the world, the whole run keeps.
use ottoflow.Prelude.{
  ℕ, zero, suc, ◌*◌, String, Bool, true, false, none, some, List, [], ◌∷◌, ◌≡◌, refl, sym, ◌∙◌, inl,
  inr, ap, subst, ◌==◌, ◌||◌, if◌then◌else◌, arith, Bool-cases, Option-cases, String-cases, length,
}
use ottoflow.Api.Step.{Step, Workflow, continue}
use ottoflow.Dag.{Dag, unset, get_ready_steps, node_names}
use ottoflow.Executor.{
  CelResult, value, not_boolean, failure, Outcome, success, awaiting, error, Effect, Env, Exec, End,
  returned, paused, failed_with, Next, next, stop, find_step, check_match_conditions, statuses,
  record_workflow_failure, record_workflow_success, match_failed, skip, start, absorb, settle,
  launch, run_step, run_ready, conclude, finish, iterate, mark_running, begin, run_steps,
  initialize_statuses, is_pending, limit_ready, completed_steps,
}
use ottoflow.Executor.Ran.{
  Statuses, pending_at, Frozen, Frozen-Others, Ran, find_step-name, run_step-Ran, run_step-passes,
}

module _ {W : Type 0} where
  abbrev exec_of : Next W → Exec W
  exec_of (next b y) = y
  exec_of (stop e y) = y

  -- The policy leaves the world alone.
  policy-world :
      (c : Bool) (e : End) (message : String) (y : Exec W)
      → (exec_of (if c then next true y else stop e (record_workflow_failure message y))).world
        ≡ y.world
  unfolding record_workflow_failure
  policy-world true e message y = refl
  policy-world false e message y = refl

  settle-world :
      (env : Env W) (s : Step) (o : Outcome) (x : Exec W)
      → (exec_of (settle env s o x)).world ≡ x.world
  unfolding settle
  settle-world env s success x = refl
  settle-world env s (awaiting e) x = refl
  settle-world env s (error e) x = policy-world (s.failure_policy == continue) _ _ _

  absorb-world :
      (env : Env W) (s : Step) (effect : Effect) (w : W) (x : Exec W)
      → (absorb env s effect w x).world ≡ w
  unfolding absorb
  absorb-world env s effect w x = elim (Option-cases effect.message) [
    | inl e ↦ rw (e, absorb) refl
    | inr (m, e) ↦ rw (e, absorb) refl
  ]

  -- A step that is launched leaves the world that executeStep leaves.
  launch-world :
      (env : Env W) (s : Step) (x : Exec W)
      → (exec_of (launch env s x)).world ≡ (env.execute s x.world).1
  unfolding launch start
  launch-world env s x =
      let y = start env s x in
      let r = env.execute s y.world in
      settle-world env s r.0.outcome (absorb env s r.0 r.1 y) ∙ absorb-world env s r.0 r.1 y

  match_failed-world :
      (env : Env W) (s : Step) (e : String) (x : Exec W)
      → (exec_of (match_failed env s e x)).world ≡ x.world
  unfolding match_failed
  match_failed-world env s e x = policy-world (s.failure_policy == continue) _ _ _

module _ {W : Type 0} (env : Env W) (steps : List Step) (name : String) (P : W → Type 0)
    (others : (s : Step) (w : W) → (s.name == name) ≡ false → P w → P (env.execute s w).1) where
  -- The named step is not pending, and the world has the property.
  abbrev IsLeft : Exec W → Type 0
  IsLeft x = (pending_at name (statuses x) ≡ false) × P x.world

  dispatch-keeps :
      (s : Step) (x : Exec W) (c : CelResult)
      → (s.name == name) ≡ false
      → P x.world
      → P
          (exec_of (elim c [
            | failure e ↦ match_failed env s e x
            | not_boolean ↦ match_failed env s "" x
            | value false ↦ skip env s x
            | value true ↦ launch env s x
          ])).world
  unfolding skip
  dispatch-keeps s x (failure e) other p = subst P (sym (match_failed-world env s e x)) p
  dispatch-keeps s x not_boolean other p = subst P (sym (match_failed-world env s "" x)) p
  dispatch-keeps s x (value false) other p = p
  dispatch-keeps s x (value true) other p =
      subst P (sym (launch-world env s x)) (others s x.world other p)

  Ran-Frozen :
      (s : Step) (x : Exec W) (r : Next W)
      → pending_at s.name (statuses x) ≡ true
      → Ran env s x r
      → Frozen (statuses x) (statuses (exec_of r))
  Ran-Frozen s x (next b y) p h = Frozen-Others s.name (statuses x) (statuses y) p h.1
  Ran-Frozen s x (stop returned y) p h = absurd h
  Ran-Frozen s x (stop (paused e) y) p h = Frozen-Others s.name (statuses x) (statuses y) p h.0
  Ran-Frozen s x (stop (failed_with e) y) p h = Frozen-Others s.name (statuses x) (statuses y) p h.0

  Frozen-pending :
      (m m' : Statuses) → Frozen m m' → pending_at name m ≡ false → pending_at name m' ≡ false
  Frozen-pending m m' h e = ap (λ s. is_pending s.phase) (h name e) ∙ e

  -- A pending step of another name.
  run_pending-IsLeft :
      (n : String) (s : Step) (x : Exec W)
      → find_step n steps ≡ some s
      → pending_at n (statuses x) ≡ true
      → IsLeft x
      → IsLeft (exec_of (run_step env steps n x))
  unfolding run_step
  run_pending-IsLeft n s x e p (done, holds) =
      let named = find_step-name env n steps s e in
      let other : (s.name == name) ≡ false = elim (String-cases s.name name) [
        | inl (q, t) ↦ absurd (cc (p, done, q, named))
        | inr (q, t) ↦ t
      ] in
      let now_pending : pending_at s.name (statuses x) ≡ true =
        subst (λ k. pending_at k (statuses x) ≡ true) (sym named) p in
      (
        Frozen-pending (statuses x) _
            (Ran-Frozen s x (run_step env steps n x) now_pending (run_step-Ran env steps n s x e p))
            done,
        rw (e, run_step)
            (rw p (
              dispatch-keeps s x (check_match_conditions (env.evaluate x.world) s.match_conditions)
                other holds)),
      )

  run_step-IsLeft : (n : String) (x : Exec W) → IsLeft x → IsLeft (exec_of (run_step env steps n x))
  unfolding run_step
  run_step-IsLeft n x left = elim (Option-cases (find_step n steps)) [
    | inl e ↦ rw (e, run_step) left
    | inr (s, e) ↦ elim (Bool-cases (pending_at n (statuses x))) [
      | inl p ↦ run_pending-IsLeft n s x e p left
      | inr p ↦ rw (run_step-passes env steps n s x e p) left
    ]
  ]

  resume-IsLeft :
      (names : List String) (any : Bool) (r : Next W)
      → IsLeft (exec_of r)
      → ((y : Exec W) (b : Bool) → IsLeft y → IsLeft (exec_of (run_ready env steps names b y)))
      → IsLeft (
          exec_of
            (elim r [ stop e y ↦ stop e y | next b y ↦ run_ready env steps names (b || any) y ]))
  resume-IsLeft names any (stop e y) h rest = h
  resume-IsLeft names any (next b y) h rest = rest y (b || any) h

  run_ready-IsLeft :
      (names : List String) (any : Bool) (x : Exec W)
      → IsLeft x
      → IsLeft (exec_of (run_ready env steps names any x))
  unfolding run_ready
  run_ready-IsLeft [] any x left = left
  run_ready-IsLeft (n ∷ names) any x left =
      resume-IsLeft names any (run_step env steps n x) (run_step-IsLeft n x left)
        (λ y b h. run_ready-IsLeft names b y h)

  conclude-keeps : (x : Exec W) → P x.world → P (conclude env steps x).1.world
  unfolding conclude record_workflow_failure record_workflow_success
  conclude-keeps x p = subst P (sym same) p
    where
      same : (conclude env steps x).1.world ≡ x.world
      same = ground arith

  finish-keeps : (x : Exec W) → P x.world → P (finish env steps x).1.world
  unfolding finish record_workflow_success
  finish-keeps x p = subst P (sym same) p
    where
      same : (finish env steps x).1.world ≡ x.world
      same = ground arith

  abbrev EndKeeps : End × Exec W → Type 0
  EndKeeps r = P r.1.world

  after-keeps :
      (left i max : ℕ) (d : Dag) (r : Next W)
      → IsLeft (exec_of r)
      → ((y : Exec W) → IsLeft y → EndKeeps (iterate env left (suc i) steps d max y))
      → EndKeeps (elim r [
        | stop e y ↦ (e, y)
        | next true y ↦ iterate env left (suc i) steps d max y
        | next false y ↦ finish env steps y
      ])
  after-keeps left i max d (stop e y) h rest = h.1
  after-keeps left i max d (next true y) h rest = rest y h
  after-keeps left i max d (next false y) h rest = finish-keeps y h.1

  -- One iteration, for the list of ready steps.
  round-keeps :
      (left i max : ℕ) (d : Dag) (x : Exec W) (ready : List String)
      → IsLeft x
      → ((y : Exec W) → IsLeft y → EndKeeps (iterate env left (suc i) steps d max y))
      → EndKeeps (elim ready [
        | [] ↦ conclude env steps x
        | n ∷ names ↦ elim (run_ready env steps (n ∷ names) false x) [
          | stop e y ↦ (e, y)
          | next true y ↦ iterate env left (suc i) steps d max y
          | next false y ↦ finish env steps y
        ]
      ])
  round-keeps left i max d x [] h rest = conclude-keeps x h.1
  round-keeps left i max d x (n ∷ names) h rest =
      after-keeps left i max d (run_ready env steps (n ∷ names) false x)
        (run_ready-IsLeft (n ∷ names) false x h) rest

  pub iterate-keeps :
      (left i max : ℕ) (d : Dag) (x : Exec W)
      → IsLeft x
      → EndKeeps (iterate env left i steps d max x)
  unfolding iterate
  iterate-keeps zero i max d x h = finish-keeps x h.1
  iterate-keeps (suc left) i max d x h =
      round-keeps left i max d x
        (limit_ready max (
          get_ready_steps d (env.range i (node_names d.nodes))
            (completed_steps steps (statuses x) unset)))
        h (λ y k. iterate-keeps left (suc i) max d y k)

module _ {W : Type 0} (env : Env W) (wf : Workflow) (d : Dag) (name : String) (P : W → Type 0)
    (others : (s : Step) (w : W) → (s.name == name) ≡ false → P w → P (env.execute s w).1) where
  begin-world : (x : Exec W) → (begin env wf x).world ≡ x.world
  unfolding begin mark_running
  begin-world x = ground arith

  begin-status :
      (x : Exec W) → statuses (begin env wf x) ≡ initialize_statuses wf.steps (statuses x)
  unfolding begin mark_running
  begin-status x = ground arith

  pub run_steps-keeps :
      (x : Exec W)
      → pending_at name (initialize_statuses wf.steps (statuses x)) ≡ false
      → P x.world
      → P (run_steps env wf d x).1.world
  unfolding run_steps
  run_steps-keeps x done p =
      let max : ℕ = elim wf.max_concurrent_steps [ none ↦ 0 | some n ↦ n ] in
      iterate-keeps env wf.steps name P others (length wf.steps * 2) 0 max d (begin env wf x)
        (ap (pending_at name) (begin-status x) ∙ done, subst P (sym (begin-world x)) p)
