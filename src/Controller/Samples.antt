-- ===== src/Controller/Samples.antt =====
-- A failed Job, and a run that resumes.
use ottoflow.Prelude.{true, false, none, some, [], ◌∷◌, ◌≡◌, refl}
use ottoflow.Api.Run.{CallbackState}
use ottoflow.Callback.Schema.{keep_declared_properties}
use ottoflow.Callback.Server.{patched}
use ottoflow.Callback.Wait.{execute_wait_for_callback}
use ottoflow.Callback.Wait.Delivery.{Delivered}
use ottoflow.Callback.Samples.{
  payload, parse, approval, waiting_run, gate, gate_step, runner, payload-parses,
}
use ottoflow.Controller.Failure.{Cluster, Job, done, refused, handle_failed_job}
use ottoflow.Controller.Failure.Attempts.{Handled, handle_failed_job-Handled}
use ottoflow.Controller.Resume.{
  missing, reconcile_pending_callback, resume_runner_job, ensure_running, is_running,
}
use ottoflow.Controller.Resume.Delivery.{
  GoesOn, reconcile_pending_callback-GoesOn, reconcile_pending_callback-execute_wait_for_callback,
}

abbrev cluster : Cluster
cluster = record {
  now = 900;
  pods = some [];
  on_delete = done;
  on_update = done;
  on_checkpoint_delete = refused;
  number = λ n. "1";
  quote = λ s. s;
}

abbrev failed_job : Job
failed_job = record {
  conditions = record { kind = "Failed"; is_true = true; reason = "BackoffLimitExceeded" } ∷ [];
  succeeded = 0;
  deleting = false;
}

handle_failed_job-Handled_example :
    Handled cluster waiting_run failed_job
      (handle_failed_job cluster waiting_run failed_job "runner")
handle_failed_job-Handled_example =
    handle_failed_job-Handled cluster waiting_run failed_job "runner"

abbrev delivered_callback : CallbackState
delivered_callback = record approval { outputs = "payload" }

delivered-proceeds :
    (reconcile_pending_callback cluster delivered_callback none waiting_run missing
      "runner").proceed
    ≡ true
unfolding reconcile_pending_callback resume_runner_job ensure_running is_running
delivered-proceeds = refl

reconcile_pending_callback-GoesOn_example :
    (missing ≡ missing)
    × GoesOn cluster delivered_callback none waiting_run
        (reconcile_pending_callback cluster delivered_callback none waiting_run missing "runner")
reconcile_pending_callback-GoesOn_example =
    reconcile_pending_callback-GoesOn cluster delivered_callback none waiting_run missing "runner"
      delivered-proceeds

reconcile_pending_callback-execute_wait_for_callback_example :
    ((reconcile_pending_callback cluster
        (record approval { outputs = "payload" })
        none
        (patched waiting_run approval "payload")
        missing
        "runner").proceed
      ≡ true)
    × Delivered
        (runner 901)
        (execute_wait_for_callback
          (runner 901)
          (reconcile_pending_callback cluster
            (record approval { outputs = "payload" })
            none
            (patched waiting_run approval "payload")
            missing
            "runner").effects.run
          gate_step
          4)
        (keep_declared_properties parse (some "schema") payload)
        5
reconcile_pending_callback-execute_wait_for_callback_example =
    reconcile_pending_callback-execute_wait_for_callback cluster (runner 901) waiting_run approval
      "payload" "runner" none gate gate_step 60 4 5 payload refl refl refl refl refl payload-parses
      refl tt
