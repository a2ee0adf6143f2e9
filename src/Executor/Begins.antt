-- ===== src/Executor/Begins.antt =====
-- What ExecuteWorkflow comes to, by its causes (internal/workflow/executor/executor.go).
use ottoflow.Prelude.{
  ℕ, String, Bool, true, false, not, Option, none, some, List, [], ◌∷◌, ◌≡◌, refl, ◌⊎◌, inl, inr,
  if◌then◌else◌, is_some, arith,
}
use ottoflow.Api.Json.{Fields}
use ottoflow.Api.Step.{Step, Workflow}
use ottoflow.Api.Run.{RunPhase}
use ottoflow.Checkpoint.{Snapshot, Loaded, unreadable, malformed, absent, found}
use ottoflow.Dag.{Dag, BuildError, Result, ok, err, build_dag}
use ottoflow.Executor.{Env, Exec, End, failed_with, run_steps, record_workflow_failure}
use ottoflow.Executor.Start.{
  World, Front, Restart, load_failed, not_restored, resumed, restored, is_restart, after_load,
  load_checkpoint_if_needed, fail_before_steps, with_context, after_build, check_steps,
  evaluate_workflow_variables, initialize_context, after_variables, after_context, or_end,
  after_restart, execute_workflow,
}

module _ {V : Type 0} (env : Env (World V)) (f : Front) (wf : Workflow) (x : Exec (World V)) where
  -- A checkpoint is asked for: a restart, with checkpointing, of a run without a context.
  abbrev pub AsksFor : Type 0
  AsksFor =
      (is_some x.world.context ≡ false) × (is_restart x.status ≡ true) × (f.checkpointing ≡ true)

  -- No checkpoint is restored: none is asked for, or there is none.
  abbrev pub IsNew : Type 0
  IsNew =
      (is_some x.world.context ≡ true)
      ⊎ ((is_restart x.status ≡ false) ⊎ ((f.checkpointing ≡ false) ⊎ (f.load ≡ absent)))

  -- The state with the checkpoint that Load found.
  abbrev pub Restores : Exec (World V) → Type 0
  Restores y = AsksFor × ((snap : Snapshot) × (f.load ≡ found snap) × (y ≡ restored f snap x))

  -- The context is initialised, or there already.
  abbrev pub HasContext : Option Fields → Type 0
  HasContext c = IsNew × (initialize_context f x.world.context ≡ (none, c))

  -- The state with the context that has the variables.
  abbrev pub IsFresh : Exec (World V) → Type 0
  IsFresh y =
      (c : Option Fields) × HasContext c
      × ((v : Fields) × (evaluate_workflow_variables f.evaluate wf.variables (or_end env f wf c)
            ≡ (none, v))
          × (y ≡ with_context (some v) x))

  abbrev pub IsReady : Exec (World V) → Type 0
  IsReady y = Restores y ⊎ IsFresh y

  -- The steps were run, from the restored state or the one with a new context.
  abbrev pub StartsRun : End × Exec (World V) → Type 0
  StartsRun r =
      (y : Exec (World V)) × IsReady y
      × ((d : Dag) × (build_dag f.range wf.steps ≡ ok d) × (r ≡ run_steps env wf d y))
      × ((s : Step) × (ss : List Step) × (wf.steps ≡ s ∷ ss))

  -- There are no steps, or no graph of them, or the context could not be initialised.
  abbrev pub CannotStart : Type 0
  CannotStart =
      (((y : Exec (World V)) × IsReady y)
        × ((wf.steps ≡ []) ⊎ ((e : BuildError) × (build_dag f.range wf.steps ≡ err e))))
      ⊎ (IsNew
          × ((e : String) × (c : Option Fields) × (initialize_context f x.world.context
                ≡ (some e, c))))

  -- An error is returned, and the run is marked as failed, with its completion time.
  abbrev pub IsMarked : End × Exec (World V) → Type 0
  IsMarked r =
      CannotStart
      × ((e : String) × (r.0 ≡ failed_with e))
      × (r.1.status.phase ≡ RunPhase.failed)
      × (is_some r.1.status.completion_time ≡ true)

  -- The checkpoint could not be loaded, or a variable could not be evaluated.
  abbrev pub CannotPrepare : Type 0
  CannotPrepare =
      (AsksFor × ((f.load ≡ unreadable) ⊎ (f.load ≡ malformed)))
      ⊎ ((c : Option Fields) × HasContext c
          × ((e : String) × (v : Fields) × (evaluate_workflow_variables f.evaluate wf.variables
                  (or_end env f wf c)
                ≡ (some e, v))))

  -- An error is returned, and the status is as it was.
  abbrev pub IsAborted : End × Exec (World V) → Type 0
  IsAborted r = CannotPrepare × ((e : String) × (r.0 ≡ failed_with e)) × (r.1.status ≡ x.status)

  abbrev pub Starts : End × Exec (World V) → Type 0
  Starts r = StartsRun r ⊎ (IsMarked r ⊎ IsAborted r)

  fail_before_steps-Starts :
      (now : ℕ) (e : String) (y : Exec (World V)) → CannotStart → Starts (fail_before_steps now e y)
  unfolding fail_before_steps record_workflow_failure
  fail_before_steps-Starts now e y why = inr (inl (why, (e, refl), refl, refl))

  after_build-Starts :
      (r : Result Dag) (y : Exec (World V)) (s : Step) (ss : List Step)
      → IsReady y
      → wf.steps ≡ s ∷ ss
      → build_dag f.range wf.steps ≡ r
      → Starts (after_build env f wf r y)
  unfolding after_build
  after_build-Starts (err e) y s ss ready cons h =
      fail_before_steps-Starts _ _ y (inl ((y, ready), inr (e, h)))
  after_build-Starts (ok d) y s ss ready cons h = inl (y, ready, (d, h, refl), (s, ss, cons))

  check_steps-Starts :
      (l : List Step) (y : Exec (World V))
      → IsReady y
      → wf.steps ≡ l
      → Starts (check_steps env f wf l y)
  unfolding check_steps
  check_steps-Starts [] y ready h = fail_before_steps-Starts _ _ y (inl ((y, ready), inl h))
  check_steps-Starts (s ∷ ss) y ready h =
      after_build-Starts (build_dag f.range wf.steps) y s ss ready h refl

  after_variables-Starts :
      (c : Option Fields) (o : Option String × Fields)
      → HasContext c
      → evaluate_workflow_variables f.evaluate wf.variables (or_end env f wf c) ≡ o
      → Starts (after_variables env f wf o (with_context c x))
  unfolding after_variables
  after_variables-Starts c (none, v) has e =
      check_steps-Starts wf.steps (with_context (some v) x) (inr (c, has, (v, e, refl))) refl
  after_variables-Starts c (some m, v) has e = inr (inr (inr (c, has, (m, v, e)), (m, refl), refl))

  after_context-Starts :
      (o : Option String × Option Fields)
      → IsNew
      → initialize_context f x.world.context ≡ o
      → Starts (after_context env f wf o x)
  unfolding after_context
  after_context-Starts (some m, c) new e =
      fail_before_steps-Starts _ _ (with_context c x) (inr (new, (m, c, e)))
  after_context-Starts (none, c) new e =
      after_variables-Starts c
        (evaluate_workflow_variables f.evaluate wf.variables (or_end env f wf c)) (new, e) refl

  -- What an answer of the checkpoint's load stands for.
  abbrev LoadedAs : Restart V → Type 0
  LoadedAs load_failed = AsksFor × ((f.load ≡ unreadable) ⊎ (f.load ≡ malformed))
  LoadedAs not_restored = IsNew
  LoadedAs (resumed y) = Restores y

  after_load-LoadedAs : (l : Loaded) → f.load ≡ l → AsksFor → LoadedAs (after_load f l x)
  after_load-LoadedAs unreadable e asks = (asks, inl e)
  after_load-LoadedAs malformed e asks = (asks, inr e)
  after_load-LoadedAs absent e asks = inr (inr (inr e))
  after_load-LoadedAs (found snap) e asks = (asks, (snap, e, refl))

  if-LoadedAs :
      (b : Bool) (r t : Restart V)
      → (b ≡ true → LoadedAs r)
      → (b ≡ false → LoadedAs t)
      → LoadedAs (if b then r else t)
  if-LoadedAs true r t h k = h refl
  if-LoadedAs false r t h k = k refl

  load_checkpoint_if_needed-LoadedAs : LoadedAs (load_checkpoint_if_needed f x)
  unfolding load_checkpoint_if_needed
  load_checkpoint_if_needed-LoadedAs =
      if-LoadedAs (is_some x.world.context) _ _ (λ has. inl has)
        (λ lost.
          if-LoadedAs (not (is_restart x.status)) _ _ (λ first. inr (inl (ground (arith, first))))
            (λ again.
              if-LoadedAs (not f.checkpointing) _ _ (λ off. inr (inr (inl (ground (arith, off)))))
                (λ on.
                  after_load-LoadedAs f.load refl
                    (lost, ground (arith, again), ground (arith, on)))))

  after_restart-Starts : (r : Restart V) → LoadedAs r → Starts (after_restart env f wf r x)
  unfolding after_restart
  after_restart-Starts load_failed why = inr (inr (inl why, (_, refl), refl))
  after_restart-Starts not_restored new =
      after_context-Starts (initialize_context f x.world.context) new refl
  after_restart-Starts (resumed y) restores = check_steps-Starts wf.steps y (inl restores) refl

  -- ExecuteWorkflow does one of three things. It runs the steps, of a workflow that has steps and
  -- whose graph BuildDAG returns, from the state with the checkpoint that Load found, where a restart
  -- asks for one, and otherwise from the given state with the initialised context and the variables
  -- in it. Or it returns an error and marks the run as failed, with a completion time, and then there
  -- are no steps, or BuildDAG returns an error, or the context could not be initialised. Or it
  -- returns an error and leaves the status as it was, and then the checkpoint could not be loaded,
  -- or a variable of the workflow could not be evaluated.
  pub execute_workflow-Starts : Starts (execute_workflow env f wf x)
  unfolding execute_workflow
  execute_workflow-Starts =
      after_restart-Starts (load_checkpoint_if_needed f x) load_checkpoint_if_needed-LoadedAs
