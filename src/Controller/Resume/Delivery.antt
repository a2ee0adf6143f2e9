-- ===== src/Controller/Resume/Delivery.antt =====
-- A recorded callback reaches the step that waits for it (callback_server.go,
-- workflowrun_controller.go: reconcilePendingCallback, wait_for_callback.go).
use ottoflow.Prelude.{
  ℕ, ◌<◌, String, Bool, true, false, Option, some, ◌≡◌, refl, ◌⊎◌, inl, inr, ◌==◌, ltb, arith,
  eq_iff, Bool-cases, ap, sym, subst, ◌∙◌,
}
use ottoflow.Api.Json.{Fields}
use ottoflow.Api.Step.{Workflow, Step, WaitForCallback, continue}
use ottoflow.Api.Run.{RunPhase, running, WorkflowRun, CallbackState}
use ottoflow.Callback.Schema.{keep_declared_properties}
use ottoflow.Callback.Server.{as_map, patched}
use ottoflow.Callback.Wait.{Runner, execute_wait_for_callback}
use ottoflow.Callback.Wait.Delivery.{Delivered, CanClear, execute_wait_for_callback-patched}
use ottoflow.Controller.Failure.{
  Job, Answer, done, gone, conflict, refused, Requeue, finished, requeue_after, Cluster, unchanged,
}
use ottoflow.Controller.Resume.{
  find_step_failure_policy, JobFetch, missing, unreadable, found, Resumed, as_running, is_running,
  updated_running, ensure_running, resume_runner_job, reconcile_pending_callback,
}

module _ (k : Cluster) where
  -- What the caller that goes on to create the Job is given.
  abbrev pub GoesOn : CallbackState → Option Workflow → WorkflowRun → Resumed → Type 0
  GoesOn cb wf wr x =
      (x.effects.run.status.phase ≡ running)
      × (x.effects.run.status.pending_callback ≡ wr.status.pending_callback)
      × (((cb.outputs == "") ≡ false)
          ⊎ ((cb.expires_at < k.now) × (find_step_failure_policy wf cb.step_name ≡ continue)))

  is_running-running : (p : RunPhase) → is_running p ≡ true → p ≡ running
  unfolding is_running
  is_running-running p h = ground (arith, h)

  updated_running-proceeds :
      (o : Answer) (wr : WorkflowRun) (a : Requeue) (b : Bool)
      → (updated_running k o wr a b).proceed ≡ true
      → updated_running k o wr a b ≡ record {
        effects = record (unchanged k (as_running wr) a) { stored = some (as_running wr) };
        proceed = b;
        timed_out = false;
      }
  unfolding updated_running
  updated_running-proceeds done wr a b h = refl
  updated_running-proceeds gone wr a b h = ground (arith, h)
  updated_running-proceeds conflict wr a b h = ground (arith, h)
  updated_running-proceeds refused wr a b h = ground (arith, h)

  Running : WorkflowRun → Resumed → Type 0
  Running wr x =
      (x.effects.run.status.phase ≡ running)
      × (x.effects.run.status.pending_callback ≡ wr.status.pending_callback)

  ensure_running-proceeds :
      (wr : WorkflowRun) (a : Requeue) (b : Bool)
      → (ensure_running k wr a b).proceed ≡ true
      → Running wr (ensure_running k wr a b)
  unfolding ensure_running Running
  ensure_running-proceeds wr a b h = elim (Bool-cases (is_running wr.status.phase)) [
    | inl r ↦ rw (r) (is_running-running wr.status.phase r, refl)
    | inr r ↦
        let run = updated_running-proceeds k.on_update wr a b (ground (arith, h, r)) in
        rw (r) (
          ap (λ x. x.effects.run.status.phase) run,
          ap (λ x. x.effects.run.status.pending_callback) run,
        )
  ]

  updated_running-stays :
      (o : Answer) (wr : WorkflowRun) (a : Requeue)
      → (updated_running k o wr a false).proceed ≡ false
  unfolding updated_running
  updated_running-stays done wr a = refl
  updated_running-stays gone wr a = refl
  updated_running-stays conflict wr a = refl
  updated_running-stays refused wr a = refl

  ensure_running-stays :
      (wr : WorkflowRun) (a : Requeue) → (ensure_running k wr a false).proceed ≡ false
  unfolding ensure_running
  ensure_running-stays wr a = ground (arith, updated_running-stays k.on_update wr a)

  found-stays :
      (wr : WorkflowRun) (job : Job) (job_name : String)
      → (resume_runner_job k wr (found job) job_name).proceed ≡ false
  unfolding resume_runner_job
  found-stays wr job job_name = ground (arith, ensure_running-stays wr (requeue_after 2))

  resume_runner_job-proceeds :
      (wr : WorkflowRun) (f : JobFetch) (job_name : String)
      → (resume_runner_job k wr f job_name).proceed ≡ true
      → (f ≡ missing) × Running wr (resume_runner_job k wr f job_name)
  unfolding resume_runner_job
  resume_runner_job-proceeds wr missing job_name h =
      (refl, ensure_running-proceeds wr finished true h)
  resume_runner_job-proceeds wr unreadable job_name h = ground (arith, h)
  resume_runner_job-proceeds wr (found job) job_name h =
      absurd (cc (h, found-stays wr job job_name))

  -- A reconciliation of a waiting run goes on to create the runner's Job only where the old Job is
  -- gone, and only with a callback that came or one that expired under the policy Continue; the run
  -- that it hands on is running, and its callback is still pending, for the runner to consume.
  pub reconcile_pending_callback-GoesOn :
      (cb : CallbackState) (wf : Option Workflow) (wr : WorkflowRun) (f : JobFetch)
      (job_name : String)
      → (reconcile_pending_callback k cb wf wr f job_name).proceed ≡ true
      → (f ≡ missing) × GoesOn cb wf wr (reconcile_pending_callback k cb wf wr f job_name)
  unfolding reconcile_pending_callback Running
  reconcile_pending_callback-GoesOn cb wf wr f job_name h = elim (Bool-cases (cb.outputs == "")) [
    | inr o ↦
        let (gone', (p, c)) = resume_runner_job-proceeds wr f job_name (ground (arith, h, o)) in
        rw (o) (gone', (p, c, inl refl))
    | inl o ↦ elim (Bool-cases (ltb cb.expires_at k.now)) [
      | inr t ↦ ground (arith, h, o, t)
      | inl t ↦ elim (Bool-cases (find_step_failure_policy wf cb.step_name == continue)) [
        | inr p ↦ ground (arith, h, o, t, p)
        | inl p ↦
            let run : reconcile_pending_callback k cb wf wr f job_name
                ≡ record (resume_runner_job k wr f job_name) { timed_out = true } =
              rw (o, t, p) refl in
            let (gone', (ph, c)) =
              resume_runner_job-proceeds wr f job_name (sym (ap (λ x. x.proceed) run) ∙ h) in
            (
              gone',
              (
                ap (λ x. x.effects.run.status.phase) run ∙ ph,
                ap (λ x. x.effects.run.status.pending_callback) run ∙ c,
                inr (
                  ground (arith, t),
                  ground (arith, p, eq_iff (find_step_failure_policy wf cb.step_name) continue),
                ),
              ),
            )
      ]
    ]
  ]

  -- The controller hands the run of a recorded callback to a new runner, at any time.
  reconcile_pending_callback-patched :
      (base : WorkflowRun) (cb : CallbackState) (body job_name : String) (wf : Option Workflow)
      → (body == "") ≡ false
      → k.on_update ≡ done
      → ((reconcile_pending_callback k
            (record cb { outputs = body })
            wf
            (patched base cb body)
            missing
            job_name).proceed
          ≡ true)
        × ((w : WorkflowRun) × ((reconcile_pending_callback k
                (record cb { outputs = body })
                wf
                (patched base cb body)
                missing
                job_name).effects.run
              ≡ patched w cb body))
  unfolding reconcile_pending_callback resume_runner_job ensure_running updated_running patched
  reconcile_pending_callback-patched base cb body job_name wf full stored =
      elim (Bool-cases (is_running base.status.phase)) [
        | inl r ↦ rw (full) (rw (r) (refl, (base, refl)))
        | inr r ↦ rw (full) (rw (r) (rw (stored) (refl, (as_running base, refl))))
      ]

-- A callback that the endpoint recorded reaches its step, however late the controller and the runner
-- come: the reconciliation of the run goes on to create the runner's Job, and the runner of the run
-- that it hands on has the payload, less the keys that the schema does not declare, as the step's
-- outputs. The old Job is gone, the writes succeed and the payload parses.
pub reconcile_pending_callback-execute_wait_for_callback :
    (k : Cluster) {Ctx : Type 0} (e : Runner Ctx) (base : WorkflowRun) (cb : CallbackState)
    (body job_name : String) (wf : Option Workflow) (wfc : WaitForCallback) (step : Step)
    (timeout : ℕ) (x y : Ctx) (out : Fields)
    → (body == "") ≡ false
    → k.on_update ≡ done
    → cb.step_name ≡ step.name
    → step.wait_for_callback ≡ some wfc
    → e.parse_duration wfc.timeout ≡ some timeout
    → as_map (e.unmarshal body) ≡ some out
    → e.write_step_outputs x step.name (keep_declared_properties e.unmarshal wfc.output_schema out)
      ≡ some y
    → CanClear e e.control
    → ((reconcile_pending_callback k
          (record cb { outputs = body })
          wf
          (patched base cb body)
          missing
          job_name).proceed
        ≡ true)
      × Delivered e
          (execute_wait_for_callback e
            (reconcile_pending_callback k
              (record cb { outputs = body })
              wf
              (patched base cb body)
              missing
              job_name).effects.run
            step
            x)
          (keep_declared_properties e.unmarshal wfc.output_schema out)
          y
reconcile_pending_callback-execute_wait_for_callback k e base cb body job_name wf wfc step timeout x
      y out full stored same config parses parsed written clears =
    let (proceeds, (w, run)) =
      reconcile_pending_callback-patched k base cb body job_name wf full stored in
    (
      proceeds,
      subst
          (λ r.
            Delivered e (execute_wait_for_callback e r step x)
              (keep_declared_properties e.unmarshal wfc.output_schema out) y)
          (sym run)
          (execute_wait_for_callback-patched e w cb body wfc step timeout x y out same config parses
            full parsed written clears),
    )
