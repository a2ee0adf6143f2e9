-- ===== src/Controller/Failure/Attempts.antt =====
-- What a failed Job does to its run (workflowrun_controller.go: handleFailedJob).
use ottoflow.Prelude.{
  ℕ, ◌+◌, ◌≤◌, ◌<◌, String, Bool, true, false, not, some, none, ◌≡◌, refl, ◌∙◌, ◌⊎◌, inl, inr, ◌&&◌,
  ltb, arith, any, Bool-cases, ap, sym, subst,
}
use ottoflow.Api.Run.{pending, failed, WorkflowRun, checkpointing_enabled}
use ottoflow.Controller.Failure.{
  Job, Answer, done, gone, conflict, refused, Requeue, finished, requeue, error, Effects, Cluster,
  max_restart_attempts_for_run, checkpointing_enabled_for_run, is_deterministic_termination,
  get_pod_termination_reason, set_run_failed, attempts_of, update, terminally_failed,
  mark_run_terminally_failed, delete_checkpoint_for_run, retried, deletion_refused,
  retry_transient_failure, deadline_exceeded, handle_failed_job, failure_message,
}

-- Does the API server delete the object, or have none?
abbrev pub accepts : Answer → Bool
accepts done = true
accepts gone = true
accepts conflict = false
accepts refused = false

-- What the status update stores: the run in memory, where it is accepted.
abbrev pub IsWritten : Answer → Effects → Type 0
IsWritten done x = x.stored ≡ some x.run
IsWritten gone x = x.stored ≡ none
IsWritten conflict x = x.stored ≡ none
IsWritten refused x = x.stored ≡ none

module _ (k : Cluster) (wr : WorkflowRun) where
  -- Another attempt is due.
  abbrev pub IsDue : Job → Type 0
  IsDue job =
      (any (deadline_exceeded k) job.conditions ≡ false)
      × (checkpointing_enabled wr ≡ true)
      × (is_deterministic_termination (get_pod_termination_reason k.pods) ≡ false)
      × (attempts_of wr < max_restart_attempts_for_run wr)

  -- No other attempt is due.
  abbrev pub IsOver : Job → Type 0
  IsOver job =
      (any (deadline_exceeded k) job.conditions ≡ true)
      ⊎ ((checkpointing_enabled wr ≡ false)
          ⊎ ((is_deterministic_termination (get_pod_termination_reason k.pods) ≡ true)
              ⊎ (max_restart_attempts_for_run wr ≤ attempts_of wr)))

  -- The run failed for good: no callback is pending any more, the attempts are as they were, and no
  -- checkpoint is left, where there can be one and the API server does not refuse.
  abbrev pub IsFailed : Effects → Type 0
  IsFailed x =
      (x.run.status.phase ≡ failed)
      × (x.run.status.pending_callback ≡ none)
      × (attempts_of x.run ≡ attempts_of wr)
      × IsWritten k.on_update x
      × (x.job_deleted ≡ false)
      × (x.checkpoint_deleted ≡ checkpointing_enabled wr && accepts k.on_checkpoint_delete)

  -- The run is tried again: one more attempt; what it waits for and its checkpoint are kept, and the
  -- Job is gone.
  abbrev pub IsRetried : Effects → Type 0
  IsRetried x =
      (accepts k.on_delete ≡ true)
      × (x.run.status.phase ≡ pending)
      × (attempts_of x.run ≡ attempts_of wr + 1)
      × (x.run.status.pending_callback ≡ wr.status.pending_callback)
      × IsWritten k.on_update x
      × (x.job_deleted ≡ true)
      × (x.checkpoint_deleted ≡ false)

  -- Nothing changed, for the API server refused to delete the Job.
  abbrev pub IsUntouched : Effects → Type 0
  IsUntouched x =
      (accepts k.on_delete ≡ false)
      × (x.run ≡ wr)
      × (x.stored ≡ none)
      × (x.job_deleted ≡ false)
      × (x.checkpoint_deleted ≡ false)
      × (x.answer ≡ error)

  abbrev pub Handled : Job → Effects → Type 0
  Handled job x = (IsOver job × IsFailed x) ⊎ (IsDue job × (IsRetried x ⊎ IsUntouched x))

update-run :
    (a : Answer) (r : Requeue) (wr : WorkflowRun) (j c : Bool)
    → ((update a r wr j c).run ≡ wr)
      × IsWritten a (update a r wr j c)
      × ((update a r wr j c).job_deleted ≡ j)
      × ((update a r wr j c).checkpoint_deleted ≡ c)
unfolding update
update-run done r wr j c = (refl, refl, refl, refl)
update-run gone r wr j c = (refl, refl, refl, refl)
update-run conflict r wr j c = (refl, refl, refl, refl)
update-run refused r wr j c = (refl, refl, refl, refl)

module _ (k : Cluster) (wr : WorkflowRun) where
  refused_accepts : (a : Answer) → deletion_refused k a ≡ not (accepts a)
  unfolding deletion_refused
  refused_accepts done = refl
  refused_accepts gone = refl
  refused_accepts conflict = refl
  refused_accepts refused = refl

  delete_checkpoint_for_run-accepts :
      delete_checkpoint_for_run k wr ≡ checkpointing_enabled wr && accepts k.on_checkpoint_delete
  unfolding delete_checkpoint_for_run
  delete_checkpoint_for_run-accepts = ground (arith, refused_accepts k.on_checkpoint_delete)

  mark-IsFailed :
      (job_name reason : String) (n : ℕ)
      → IsFailed k wr (mark_run_terminally_failed k wr job_name reason n)
  unfolding mark_run_terminally_failed terminally_failed set_run_failed
  mark-IsFailed job_name reason n =
      let (run, written, j, c) =
        update-run k.on_update finished
          (terminally_failed k wr job_name reason (failure_message k job_name reason n)) false
          (delete_checkpoint_for_run k wr) in
      (
        ap (λ r. r.status.phase) run,
        ap (λ r. r.status.pending_callback) run,
        ap attempts_of run,
        written,
        j,
        c ∙ delete_checkpoint_for_run-accepts,
      )

  retry-Handled :
      (reason : String)
      → IsRetried k wr
          (retry_transient_failure k wr reason (attempts_of wr) (max_restart_attempts_for_run wr))
        ⊎ IsUntouched k wr
            (retry_transient_failure k wr reason (attempts_of wr) (max_restart_attempts_for_run wr))
  unfolding retry_transient_failure retried
  retry-Handled reason = elim (Bool-cases (deletion_refused k k.on_delete)) [
    | inl d ↦
        let kept : accepts k.on_delete ≡ false = ground (arith, d, refused_accepts k.on_delete) in
        rw (d) (inr (kept, refl, refl, refl, refl, refl))
    | inr d ↦
        let deleted : accepts k.on_delete ≡ true = ground (arith, d, refused_accepts k.on_delete) in
        let next : WorkflowRun =
          retried k wr reason (attempts_of wr) (max_restart_attempts_for_run wr) in
        let (run, written, j, c) = update-run k.on_update requeue next true false in
        rw (d) (
          inl (
            deleted,
            ap (λ r. r.status.phase) run,
            ap attempts_of run,
            ap (λ r. r.status.pending_callback) run,
            written,
            j,
            c,
          ))
  ]

  -- A failed Job does one of three things. Where another attempt is due, because no deadline was
  -- exceeded, the run has checkpointing, the pods' reason is not a deterministic one and the attempts
  -- are below the limit, the run is tried again: it is pending, one more attempt is counted, what it
  -- waits for and its checkpoint are kept, and the Job is deleted. If the API server refuses to
  -- delete the Job, nothing changes and the answer is an error. Where none is due, the run fails for
  -- good: nothing is pending that an endpoint could accept, the attempts are as they were, and its
  -- checkpoint is deleted, if the run has checkpointing and the API server does not refuse. A changed
  -- run is stored where the status update is accepted.
  pub handle_failed_job-Handled :
      (job : Job) (job_name : String) → Handled k wr job (handle_failed_job k wr job job_name)
  unfolding handle_failed_job checkpointing_enabled_for_run
  handle_failed_job-Handled job job_name =
      let reason : String = get_pod_termination_reason k.pods in
      elim (Bool-cases (any (deadline_exceeded k) job.conditions)) [
        | inl d ↦
            let run : handle_failed_job k wr job job_name
                ≡ mark_run_terminally_failed k wr job_name "DeadlineExceeded" (attempts_of wr) =
              rw (d) refl in
            subst (Handled k wr job) (sym run)
              (inl (inl d, mark-IsFailed job_name "DeadlineExceeded" (attempts_of wr)))
        | inr d ↦ elim (Bool-cases (checkpointing_enabled wr)) [
          | inr e ↦
              let run : handle_failed_job k wr job job_name
                  ≡ mark_run_terminally_failed k wr job_name "" (attempts_of wr) =
                rw (d, e) refl in
              subst (Handled k wr job) (sym run)
                (inl (inr (inl e), mark-IsFailed job_name "" (attempts_of wr)))
          | inl e ↦
              elim (Bool-cases (
                not (is_deterministic_termination reason)
                && ltb (attempts_of wr) (max_restart_attempts_for_run wr))) [
                  | inl t ↦
                      let run : handle_failed_job k wr job job_name
                          ≡ retry_transient_failure k wr reason (attempts_of wr)
                              (max_restart_attempts_for_run wr) =
                        rw (d, e, t) refl in
                      subst (Handled k wr job) (sym run)
                        (inr ((d, e, ground (arith, t), ground (arith, t)), retry-Handled reason))
                  | inr t ↦
                      let run : handle_failed_job k wr job job_name
                          ≡ mark_run_terminally_failed k wr job_name reason (attempts_of wr) =
                        rw (d, e, t) refl in
                      subst (Handled k wr job) (sym run) (
                        inl (
                          inr (inr (ground (arith, t))),
                          mark-IsFailed job_name reason (attempts_of wr),
                        ))
                ]
        ]
      ]
