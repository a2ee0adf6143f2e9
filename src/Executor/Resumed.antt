-- ===== src/Executor/Resumed.antt =====
-- What a run that is started again from a checkpoint keeps (internal/workflow/executor/executor.go).
use ottoflow.Prelude.{
  String, true, false, not, none, some, List, [], ◌∷◌, ◌≡◌, ap, ◌∙◌, if◌then◌else◌, is_some, arith,
  ◌==◌, sym, subst,
}
use ottoflow.Api.Step.{Step, Workflow}
use ottoflow.Checkpoint.{Snapshot, found}
use ottoflow.Dag.{Dag, ok, build_dag}
use ottoflow.Dag.Build.{RangeOk}
use ottoflow.Executor.{Env, Exec, get_status, statuses, initialize_statuses, run_steps}
use ottoflow.Executor.Ran.{pending_at}
use ottoflow.Executor.Loop.{RangesOk, run_steps-Frozen}
use ottoflow.Executor.Start.{
  World, Front, Restart, not_restored, resumed, restored, is_restart, after_load,
  load_checkpoint_if_needed, after_build, check_steps, after_restart, execute_workflow,
}

module _ {V : Type 0} (env : Env (World V)) (f : Front) (wf : Workflow) (d : Dag)
    (snap : Snapshot) where
  check_steps-built :
      (l : List Step) (y : Exec (World V)) (s : Step) (ss : List Step)
      → l ≡ s ∷ ss
      → build_dag f.range wf.steps ≡ ok d
      → check_steps env f wf l y ≡ run_steps env wf d y
  unfolding check_steps after_build
  check_steps-built [] y s ss cons built = ground (arith, cons)
  check_steps-built (t ∷ ts) y s ss cons built = ap (λ r. after_build env f wf r y) built

  load_checkpoint_if_needed-found :
      (x : Exec (World V))
      → x.world.context ≡ none
      → is_restart x.status ≡ true
      → f.checkpointing ≡ true
      → f.load ≡ found snap
      → load_checkpoint_if_needed f x ≡ resumed (restored f snap x)
  unfolding load_checkpoint_if_needed
  load_checkpoint_if_needed-found x lost again on there =
      ap (λ c. if is_some c then not_restored else rest) lost
      ∙ (ap (λ b. if not b then not_restored else enabled) again
          ∙ (ap (λ b. if not b then not_restored else loaded) on
              ∙ ap (λ l. after_load f l x) there))
    where
      loaded : Restart V
      loaded = after_load f f.load x

      enabled : Restart V
      enabled = if not f.checkpointing then not_restored else loaded

      rest : Restart V
      rest = if not (is_restart x.status) then not_restored else enabled

  execute_workflow-run_steps :
      (x : Exec (World V)) (s : Step) (ss : List Step)
      → wf.steps ≡ s ∷ ss
      → build_dag f.range wf.steps ≡ ok d
      → x.world.context ≡ none
      → is_restart x.status ≡ true
      → f.checkpointing ≡ true
      → f.load ≡ found snap
      → execute_workflow env f wf x ≡ run_steps env wf d (restored f snap x)
  unfolding execute_workflow after_restart
  execute_workflow-run_steps x s ss steps built lost again on there =
      ap (λ r. after_restart env f wf r x) (load_checkpoint_if_needed-found x lost again on there)
      ∙ check_steps-built wf.steps (restored f snap x) s ss steps built

  -- When a run is started again, with checkpointing, in a new process, and Load finds a snapshot, then
  -- a step of a workflow with steps, whose graph BuildDAG returns, that is not pending in the
  -- snapshot, with the missing statuses filled in, has the status of the snapshot however the run
  -- ends, and is not executed: every property that the world has with the snapshot's context, and
  -- that the execution of any step of another name keeps, whatever the execution of this one does,
  -- the run keeps.
  pub execute_workflow-resumed :
      (x : Exec (World V)) (s : Step) (ss : List Step) (name : String) (P : World V → Type 0)
      → ((t : Step) (w : World V) → (t.name == name) ≡ false → P w → P (env.execute t w).1)
      → RangesOk env
      → RangeOk f.range
      → wf.steps ≡ s ∷ ss
      → build_dag f.range wf.steps ≡ ok d
      → x.world.context ≡ none
      → is_restart x.status ≡ true
      → f.checkpointing ≡ true
      → f.load ≡ found snap
      → pending_at name (initialize_statuses wf.steps snap.step_statuses) ≡ false
      → P (record (x.world) { context = some snap.context })
      → (get_status name (statuses (execute_workflow env f wf x).1)
          ≡ get_status name (initialize_statuses wf.steps snap.step_statuses))
        × P (execute_workflow env f wf x).1.world
  unfolding restored
  execute_workflow-resumed x s ss name P others ranges range_ok steps built lost again on there done
        p =
      let (same, kept) =
        run_steps-Frozen env ranges f.range range_ok wf d built (restored f snap x) name P others
          done p in
      let run = execute_workflow-run_steps x s ss steps built lost again on there in
      (ap (λ r. get_status name (statuses r.1)) run ∙ same, subst (λ r. P r.1.world) (sym run) kept)
