-- ===== src/Executor/Samples.antt =====
-- A run of two steps.
use ottoflow.Prelude.{
  ℕ, suc, ◌==◌, if◌then◌else◌, true, false, none, [], ◌∷◌, ◌≡◌, refl, inl, inr, arith, subst,
  String-cases,
}
use ottoflow.Api.Step.{Step}
use ottoflow.Api.Run.{RunPhase, StepPhase, zero_status}
use ottoflow.Dag.{get_ready_steps, all_completed, node_names, find}
use ottoflow.Dag.Samples.{
  same_order, same_order-RangeOk, two_steps, two_workflow, two_dag, two_dag-built,
}
use ottoflow.Executor.{
  Env, Exec, success, value, get_status, statuses, initialize_statuses, run_steps, is_step_done,
  completed_steps, begin, mark_running, iterate, limit_ready, run_ready, run_step, find_step,
  check_match_conditions, launch, start, absorb, settle, conclude, all_done, finish,
  record_workflow_success,
}
use ottoflow.Executor.Ran.{pending_at}
use ottoflow.Executor.Order.{IsOrdered, completed}
use ottoflow.Executor.Loop.{RangesOk, run_steps-IsOrdered, run_steps-Frozen}
use ottoflow.Executor.Count.{IsDistinct}
use ottoflow.Executor.Finish.{IsClean}
use ottoflow.Executor.Ends.{Ended, run_steps-Ended}

abbrev pub quiet : Env ℕ
quiet = record {
  range = λ i names. names;
  evaluate = λ w e. value true;
  now = λ w. w;
  execute = λ s w. (record { outcome = success; message = none; pending_callback = none }, w);
  format_time = λ n. "";
}

pub quiet-RangesOk : RangesOk quiet
quiet-RangesOk i names a = refl

abbrev pub fresh : Exec ℕ
fresh = record {
  status = record {
    phase = RunPhase.pending;
    message = "";
    failure_reason = "";
    start_time = none;
    completion_time = none;
    step_statuses = [];
    pending_callback = none;
    execution = none;
  };
  completion_order = [];
  events = [];
  world = 7;
}

-- The first step succeeded, the second is pending.
abbrev pub halfway : Exec ℕ
halfway = record fresh {
  status = record fresh.status {
    step_statuses = ("fetch", record zero_status { phase = StepPhase.succeeded }) ∷ [];
  };
}

pub halfway-IsOrdered : IsOrdered two_steps (initialize_statuses two_steps (statuses halfway))
unfolding initialize_statuses is_step_done get_status completed_steps
halfway-IsOrdered a b before left = elim (String-cases "fetch" a) [
  | inl (p, t) ↦
      subst (λ z. completed two_steps (initialize_statuses two_steps (statuses halfway)) z ≡ true) p
        refl
  | inr (p, t) ↦ absurd (ground (arith, before, t))
]

halfway-IsClean : IsClean two_steps (initialize_statuses two_steps (statuses halfway))
unfolding initialize_statuses is_step_done get_status completed_steps
halfway-IsClean a h = elim (String-cases "fetch" a) [
  | inl (p, t) ↦ inr (
      subst (λ z. completed two_steps (initialize_statuses two_steps (statuses halfway)) z ≡ true) p
        refl)
  | inr (p, t) ↦ elim (String-cases "report" a) [
    | inl (q, r) ↦
        inl (
          subst (λ z. pending_at z (initialize_statuses two_steps (statuses halfway)) ≡ true) q
            refl)
    | inr (q, r) ↦ absurd (ground (arith, h, t, r))
  ]
]

run_steps-IsOrdered_example :
    IsOrdered two_steps (statuses (run_steps quiet two_workflow two_dag halfway).1)
run_steps-IsOrdered_example =
    run_steps-IsOrdered quiet quiet-RangesOk same_order same_order-RangeOk two_workflow two_dag
      two_dag-built halfway halfway-IsOrdered

pending_at-fetch : pending_at "fetch" (initialize_statuses two_steps (statuses halfway)) ≡ false
unfolding initialize_statuses get_status
pending_at-fetch = refl

-- The world of an environment is a natural number: how many times "fetch" was executed.
abbrev pub counting : Env ℕ
counting = record quiet {
  execute = λ s w. (
    record { outcome = success; message = none; pending_callback = none },
    if s.name == "fetch" then suc w else w,
  );
}

pub counting-RangesOk : RangesOk counting
counting-RangesOk i names a = refl

counting-others :
    (n : ℕ) (s : Step) (w : ℕ) → (s.name == "fetch") ≡ false → w ≡ n → (counting.execute s w).1 ≡ n
counting-others n s w e h = rw (e) h

run_steps-Frozen_example :
    (get_status "fetch" (statuses (run_steps counting two_workflow two_dag halfway).1)
      ≡ get_status "fetch" (initialize_statuses two_steps (statuses halfway)))
    × ((run_steps counting two_workflow two_dag halfway).1.world ≡ halfway.world)
run_steps-Frozen_example =
    run_steps-Frozen counting counting-RangesOk same_order same_order-RangeOk two_workflow two_dag
      two_dag-built halfway "fetch" (λ w. w ≡ halfway.world) (counting-others halfway.world)
      pending_at-fetch refl

two_steps-IsDistinct : IsDistinct two_steps
two_steps-IsDistinct = (refl, (refl, tt))

run_steps-Ended_example : Ended two_steps (run_steps quiet two_workflow two_dag halfway)
run_steps-Ended_example =
    run_steps-Ended quiet quiet-RangesOk same_order same_order-RangeOk two_workflow
      two_steps-IsDistinct two_dag two_dag-built halfway halfway-IsClean

-- The run executes the second step.
pub report-left :
    pending_at "report" (statuses (run_steps quiet two_workflow two_dag halfway).1) ≡ false
unfolding run_steps begin initialize_statuses mark_running iterate completed_steps is_step_done
    get_status limit_ready run_ready run_step find_step check_match_conditions launch start absorb
    settle conclude all_done finish get_ready_steps all_completed node_names find
    record_workflow_success
report-left = refl
