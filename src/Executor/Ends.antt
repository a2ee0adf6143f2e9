-- ===== src/Executor/Ends.antt =====
-- The loop of ExecuteWorkflow ends before its limit of iterations, in one of three ways.
use ottoflow.Prelude.{
  ℕ, zero, suc, ◌*◌, ◌≤◌, ◌<◌, String, true, false, none, some, List, [], ◌∷◌, ◌≡◌, ◌≢◌, refl, sym,
  ◌∙◌, inl, inr, subst, arith, Bool-cases, contains, contains_self, length,
}
use ottoflow.Api.Step.{Step, Workflow}
use ottoflow.Api.Run.{RunPhase, StepPhase}
use ottoflow.Dag.{Dag, unset, get_ready_steps, node_names, build_dag, ok}
use ottoflow.Dag.Build.{RangeOk}
use ottoflow.Dag.Ready.{get_ready_steps_progress}
use ottoflow.Executor.{
  Env, Exec, End, returned, paused, failed_with, Next, next, stop, get_status, find_step, statuses,
  run_ready, limit_ready, record_workflow_success, conclude, finish, iterate, all_done,
  initialize_statuses, begin, run_steps,
}
use ottoflow.Executor.Ran.{Statuses}
use ottoflow.Executor.Order.{completed}
use ottoflow.Executor.Loop.{RangesOk, ready_at, ready_at_sound, covers, begin-statuses}
use ottoflow.Executor.Count.{
  IsDistinct, is_step-of-find_step, completed_steps-find, not_done, pending_count, pending_count-le,
  pending_count-pos,
}
use ottoflow.Executor.Finish.{IsClean, Progress, run_ready-Progress}

-- How ExecuteWorkflow returns: with every step done and the run marked as succeeded; paused, with a
-- step that waits; or with an error and the run marked as failed.
abbrev pub Ended : {W : Type 0} → List Step → End × Exec W → Type 0
Ended steps (returned, y) =
    (all_done steps (statuses y) ≡ true) × (y.status.phase ≡ RunPhase.succeeded)
Ended steps (paused e, y) =
    (name : String) × ((get_status name (statuses y)).phase ≡ StepPhase.waiting)
Ended steps (failed_with e, y) = y.status.phase ≡ RunPhase.failed

limit_ready-some :
    (a : String) (max : ℕ) (xs : List String) → contains a xs ≡ true → limit_ready max xs ≢ []
unfolding limit_ready
limit_ready-some a max [] h = cc
limit_ready-some a zero (x ∷ xs) h = λ e. ground arith
limit_ready-some a (suc max) (x ∷ xs) h = λ e. ground arith

module _ {W : Type 0} (env : Env W) (ranges : RangesOk env) (range : List String → List String)
    (range_ok : RangeOk range) (steps : List Step) (distinct : IsDistinct steps) (d : Dag)
    (built : build_dag range steps ≡ ok d) where
  -- In a clean state a step that is not done is pending, and then some step is ready.
  open_step :
      (m : Statuses)
      → all_done steps m ≡ false
      → (s : Step) × (find_step s.name steps ≡ some s) × (completed steps m s.name ≡ false)
  open_step m e =
      let (s, found, open_s) = not_done steps m distinct e in
      (s, found, completed_steps-find steps m unset s.name s distinct found ∙ open_s)

  finish-Ended :
      (x : Exec W)
      → IsClean steps (statuses x)
      → pending_count steps (statuses x) ≤ 0
      → Ended {W = W} steps (finish env steps x)
  unfolding finish record_workflow_success
  finish-Ended x clean none_pending = elim (Bool-cases (all_done steps (statuses x))) [
    | inl e ↦ rw (e, finish) (e, refl)
    | inr e ↦
        let (s, found, c) = open_step (statuses x) e in
        let is = is_step-of-find_step steps s.name s found in
        absurd (elim (clean s.name is) [
          | inl p ↦ omega (arith, pending_count-pos steps (statuses x) s.name is p)
          | inr q ↦ cc (q, c)
        ])
  ]

  conclude-Ended :
      (i max : ℕ) (x : Exec W)
      → ready_at env ranges range range_ok steps d built i max (statuses x) ≡ []
      → Ended {W = W} steps (conclude env steps x)
  unfolding conclude record_workflow_success
  conclude-Ended i max x idle = elim (Bool-cases (all_done steps (statuses x))) [
    | inl e ↦ rw (e, conclude) (e, refl)
    | inr e ↦
        let (s, found, c) = open_step (statuses x) e in
        let order = env.range i (node_names d.nodes) in
        let (b, m) =
          get_ready_steps_progress range range_ok steps d built order
            (covers env ranges range range_ok steps d built i) (completed steps (statuses x)) s.name
            (is_step-of-find_step steps s.name s found) c in
        absurd
          (limit_ready-some b max (get_ready_steps d order (completed steps (statuses x))) m idle)
  ]

  after-Ended :
      (left i max : ℕ) (x : Exec W) (r : Next W)
      → Progress env steps distinct x r
      → ((y : Exec W)
          → IsClean steps (statuses y)
          → pending_count steps (statuses y) < pending_count steps (statuses x)
          → Ended {W = W} steps (iterate env left (suc i) steps d max y))
      → Ended {W = W} steps (elim r [
        | stop e y ↦ (e, y)
        | next true y ↦ iterate env left (suc i) steps d max y
        | next false y ↦ finish env steps y
      ])
  after-Ended left i max x (stop returned y) h rest = absurd h
  after-Ended left i max x (stop (paused e) y) h rest = h
  after-Ended left i max x (stop (failed_with e) y) h rest = h
  after-Ended left i max x (next false y) (t, c, k) rest = absurd cc
  after-Ended left i max x (next true y) (t, c, k) rest = rest y c k

  round-Ended :
      (left i max : ℕ) (x : Exec W)
      → IsClean steps (statuses x)
      → (ready : List String)
      → ready_at env ranges range range_ok steps d built i max (statuses x) ≡ ready
      → ((y : Exec W)
          → IsClean steps (statuses y)
          → pending_count steps (statuses y) < pending_count steps (statuses x)
          → Ended {W = W} steps (iterate env left (suc i) steps d max y))
      → Ended {W = W} steps (elim ready [
        | [] ↦ conclude env steps x
        | name ∷ names ↦ elim (run_ready env steps (name ∷ names) false x) [
          | stop e y ↦ (e, y)
          | next true y ↦ iterate env left (suc i) steps d max y
          | next false y ↦ finish env steps y
        ]
      ])
  round-Ended left i max x clean [] idle rest = conclude-Ended i max x idle
  round-Ended left i max x clean (name ∷ names) busy rest =
      let sound = λ (a : String) (m : contains a (name ∷ names) ≡ true).
        ready_at_sound env ranges range range_ok steps d built i max (statuses x) a
          (subst (λ l. contains a l ≡ true) (sym busy) m) in
      let head = sound name (contains_self name names) in
      after-Ended left i max x (run_ready env steps (name ∷ names) false x)
        (run_ready-Progress env steps distinct name names x (λ a m. (sound a m).0)
          (elim (clean name head.0) [ inl p ↦ p | inr c ↦ absurd (cc (c, head.1)) ]) clean)
        rest

  iterate-Ended :
      (left i max : ℕ) (x : Exec W)
      → IsClean steps (statuses x)
      → pending_count steps (statuses x) ≤ left
      → Ended {W = W} steps (iterate env left i steps d max x)
  unfolding iterate
  iterate-Ended zero i max x clean few = finish-Ended x clean few
  iterate-Ended (suc left) i max x clean few =
      round-Ended left i max x clean
        (ready_at env ranges range range_ok steps d built i max (statuses x)) refl
        (λ y c k. iterate-Ended left (suc i) max y c (omega arith))

module _ {W : Type 0} (env : Env W) (ranges : RangesOk env) (range : List String → List String)
    (range_ok : RangeOk range) (wf : Workflow) (distinct : IsDistinct wf.steps) (d : Dag)
    (built : build_dag range wf.steps ≡ ok d) where
  -- For steps with distinct names whose graph BuildDAG returned, and from statuses, with the missing
  -- ones filled in, in which every step is pending or done, the loop of ExecuteWorkflow ends within
  -- its limit of iterations in one of three ways: it returns without an error, with every step done
  -- and the run marked as succeeded; it returns the pause for a callback, with a step in phase
  -- Waiting; or it returns another error, with the run marked as failed. It never returns without an
  -- error while work is left.
  pub run_steps-Ended :
      (x : Exec W)
      → IsClean wf.steps (initialize_statuses wf.steps (statuses x))
      → Ended wf.steps (run_steps env wf d x)
  unfolding run_steps
  run_steps-Ended x clean =
      let max : ℕ = elim wf.max_concurrent_steps [ none ↦ 0 | some n ↦ n ] in
      let begun = begin-statuses env wf x in
      iterate-Ended env ranges range range_ok wf.steps distinct d built (length wf.steps * 2) 0 max
        (begin env wf x) (subst (IsClean wf.steps) (sym begun) clean)
        (omega (arith, pending_count-le wf.steps (statuses (begin env wf x))))
