-- ===== src/Executor/Loop.antt =====
-- The loop of the iterations keeps what Order states of one pass.
use ottoflow.Prelude.{
  ℕ, zero, suc, ◌*◌, String, true, false, none, some, List, [], ◌∷◌, ◌≡◌, ◌∙◌, inl, inr, subst,
  ◌&&◌, ◌==◌, arith, Bool-cases, contains, length, ltb, contains-take,
}
use ottoflow.Api.Step.{Step, Workflow}
use ottoflow.Dag.{Dag, get_ready_steps, node_names, build_dag, ok}
use ottoflow.Dag.Declare.{is_step}
use ottoflow.Dag.Build.{Depends, RangeOk, Verdict, build_dag-Verdict, contains-node_names}
use ottoflow.Dag.Ready.{get_ready_steps_iff}
use ottoflow.Executor.{
  Env, Exec, End, Next, next, stop, get_status, statuses, run_ready, limit_ready,
  record_workflow_success, record_workflow_failure, conclude, finish, iterate, initialize_statuses,
  mark_running, begin, run_steps,
}
use ottoflow.Executor.Ran.{Statuses, pending_at}
use ottoflow.Executor.Untouched.{run_steps-keeps}
use ottoflow.Executor.Order.{
  completed, IsOrdered, Keeps, Keeps-refl, Keeps-trans, NextKeeps, run_ready-Keeps,
}

-- Go's range over the map of nodes meets each of them, in every iteration.
abbrev pub RangesOk : {W : Type 0} → Env W → Type 0
RangesOk env = (i : ℕ) → RangeOk (env.range i)

contains-limit_ready :
    (a : String) (max : ℕ) (xs : List String)
    → contains a (limit_ready max xs) ≡ true
    → contains a xs ≡ true
unfolding limit_ready
contains-limit_ready a max xs h = elim (Bool-cases (ltb 0 max && ltb max (length xs))) [
  | inl e ↦ contains-take a max xs (rw (e, limit_ready) at h)
  | inr e ↦ rw (e, limit_ready) at h
]

module _ {W : Type 0} (env : Env W) (ranges : RangesOk env) (range : List String → List String)
    (range_ok : RangeOk range) (steps : List Step) (d : Dag)
    (built : build_dag range steps ≡ ok d) where
  -- The ready steps of one iteration, and that each of them is a step with its dependencies done.
  abbrev pub ready_at : ℕ → ℕ → Statuses → List String
  ready_at i max m =
      limit_ready max (get_ready_steps d (env.range i (node_names d.nodes)) (completed steps m))

  pub covers :
      (i : ℕ) (a : String) → contains a (env.range i (node_names d.nodes)) ≡ is_step steps a
  covers i a =
      let holds = (subst (Verdict steps) built (build_dag-Verdict range range_ok steps)).0 in
      ranges i (node_names d.nodes) a ∙ (contains-node_names a d.nodes ∙ holds.nodes a)

  pub ready_at_sound :
      (i max : ℕ) (m : Statuses) (a : String)
      → contains a (ready_at i max m) ≡ true
      → (is_step steps a ≡ true)
        × (completed steps m a ≡ false)
        × ((b : String) → Depends steps b a → completed steps m b ≡ true)
  ready_at_sound i max m a h =
      (get_ready_steps_iff range range_ok steps d built (env.range i (node_names d.nodes))
          (covers i) (completed steps m) a).0
        (contains-limit_ready a max _ h)

  conclude-statuses : (x : Exec W) → statuses (conclude env steps x).1 ≡ statuses x
  unfolding conclude record_workflow_failure record_workflow_success
  conclude-statuses x = ground arith

  finish-statuses : (x : Exec W) → statuses (finish env steps x).1 ≡ statuses x
  unfolding finish record_workflow_success
  finish-statuses x = ground arith

  abbrev EndKeeps : Statuses → End × Exec W → Type 0
  EndKeeps m r = Keeps env steps m (statuses r.1)

  finish-Keeps :
      (m : Statuses) (x : Exec W) → Keeps env steps m (statuses x) → EndKeeps m (finish env steps x)
  finish-Keeps m x k = rw (finish-statuses x) k

  conclude-Keeps : (x : Exec W) → EndKeeps (statuses x) (conclude env steps x)
  conclude-Keeps x = rw (conclude-statuses x) (Keeps-refl env steps (statuses x))

  after-Keeps :
      (left i max : ℕ) (m : Statuses) (r : Next W)
      → NextKeeps env steps m r
      → ((y : Exec W) → EndKeeps (statuses y) (iterate env left (suc i) steps d max y))
      → EndKeeps m (elim r [
        | stop e y ↦ (e, y)
        | next true y ↦ iterate env left (suc i) steps d max y
        | next false y ↦ finish env steps y
      ])
  after-Keeps left i max m (stop e y) h rest = h
  after-Keeps left i max m (next false y) h rest = finish-Keeps m y h
  after-Keeps left i max m (next true y) h rest = Keeps-trans env steps m (statuses y) _ h (rest y)

  -- One iteration, for the list of ready steps.
  round-Keeps :
      (left i max : ℕ) (x : Exec W) (ready : List String)
      → ((a : String)
          → contains a ready ≡ true
          → (b : String) → Depends steps b a
          → completed steps (statuses x) b ≡ true)
      → ((y : Exec W) → EndKeeps (statuses y) (iterate env left (suc i) steps d max y))
      → EndKeeps (statuses x) (elim ready [
        | [] ↦ conclude env steps x
        | name ∷ names ↦ elim (run_ready env steps (name ∷ names) false x) [
          | stop e y ↦ (e, y)
          | next true y ↦ iterate env left (suc i) steps d max y
          | next false y ↦ finish env steps y
        ]
      ])
  round-Keeps left i max x [] deps rest = conclude-Keeps x
  round-Keeps left i max x (name ∷ names) deps rest =
      after-Keeps left i max (statuses x) (run_ready env steps (name ∷ names) false x)
        (run_ready-Keeps env steps (name ∷ names) false x (λ n m a before. deps n m a before)) rest

  pub iterate-Keeps :
      (left i max : ℕ) (x : Exec W) → EndKeeps (statuses x) (iterate env left i steps d max x)
  unfolding iterate
  iterate-Keeps zero i max x = finish-Keeps (statuses x) x (Keeps-refl env steps (statuses x))
  iterate-Keeps (suc left) i max x =
      round-Keeps left i max x (ready_at i max (statuses x))
        (λ a m. (ready_at_sound i max (statuses x) a m).2) (λ y. iterate-Keeps left (suc i) max y)

pub begin-statuses :
    {W : Type 0} (env : Env W) (wf : Workflow) (x : Exec W)
    → statuses (begin env wf x) ≡ initialize_statuses wf.steps (statuses x)
unfolding begin mark_running
begin-statuses env wf x = ground arith

module _ {W : Type 0} (env : Env W) (ranges : RangesOk env) (range : List String → List String)
    (range_ok : RangeOk range) (wf : Workflow) (d : Dag)
    (built : build_dag range wf.steps ≡ ok d) where
  run_steps-Keeps :
      (x : Exec W)
      → Keeps env wf.steps
          (initialize_statuses wf.steps (statuses x))
          (statuses (run_steps env wf d x).1)
  unfolding run_steps
  run_steps-Keeps x =
      let max : ℕ = elim wf.max_concurrent_steps [ none ↦ 0 | some n ↦ n ] in
      subst (λ m. Keeps env wf.steps m (statuses (run_steps env wf d x).1))
        (begin-statuses env wf x)
        (iterate-Keeps env ranges range range_ok wf.steps d built (length wf.steps * 2) 0 max
          (begin env wf x))

  -- However the run of a graph that BuildDAG returned ends, if in the statuses that it starts from
  -- every step that has left the phase Pending depends on completed steps only, then so it is in
  -- the statuses that it leaves. (Completed: succeeded, skipped, or failed with policy Continue.)
  pub run_steps-IsOrdered :
      (x : Exec W)
      → IsOrdered wf.steps (initialize_statuses wf.steps (statuses x))
      → IsOrdered wf.steps (statuses (run_steps env wf d x).1)
  run_steps-IsOrdered x h = (run_steps-Keeps x).ordered h

  -- However the run ends, a step that is not in phase Pending when the loop starts, with the missing
  -- statuses filled in, has the same status afterwards, and is not executed: every property of the
  -- world that the execution of any step of another name keeps, whatever the execution of this one
  -- does, the run keeps.
  pub run_steps-Frozen :
      (x : Exec W) (name : String) (P : W → Type 0)
      → ((s : Step) (w : W) → (s.name == name) ≡ false → P w → P (env.execute s w).1)
      → pending_at name (initialize_statuses wf.steps (statuses x)) ≡ false
      → P x.world
      → (get_status name (statuses (run_steps env wf d x).1)
          ≡ get_status name (initialize_statuses wf.steps (statuses x)))
        × P (run_steps env wf d x).1.world
  run_steps-Frozen x name P others e p =
      ((run_steps-Keeps x).frozen name e, run_steps-keeps env wf d name P others x e p)
