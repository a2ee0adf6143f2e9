-- ===== src/Callback/Wait/Delivery.antt =====
-- A paused step waits until its callback comes, and then has it (wait_for_callback.go).
use ottoflow.Prelude.{
  ℕ, ◌+◌, ◌≤◌, String, true, false, Option, none, some, List, ◌≡◌, refl, ◌==◌, ltb, arith, eq_iff,
  sym, subst, ap, ◌∙◌, eq_refl,
}
use ottoflow.Api.Json.{Fields}
use ottoflow.Api.Step.{Step, WaitForCallback}
use ottoflow.Api.Run.{CallbackState, WorkflowRun}
use ottoflow.Callback.Schema.{keep_declared_properties}
use ottoflow.Callback.Server.{Attempt, as_map, patched}
use ottoflow.Callback.Wait.{
  with_pending, clear_pending_callback_patch, after_clear, outputs, awaiting, Left, Runner, nothing,
  consume, write_received, receive, recover, new_callback, pause, arm, pending_for, set_stored,
  after_set, with_callback, with_timeout, with_configuration, execute_wait_for_callback,
}

module _ {Ctx : Type 0} (e : Runner Ctx) where
  -- The run that the step leaves when it has its outputs.
  abbrev pub Delivered : Left Ctx → Fields → Ctx → Type 0
  Delivered l out y =
      (l.result ≡ outputs out) × (l.memory.status.pending_callback ≡ none) × (l.context ≡ y)

  -- Every clear of the callback that the runner asks for succeeds.
  abbrev pub CanClear : Option (List Attempt) → Type 0
  CanClear none = Unit {0}
  CanClear (some attempts) = (w : WorkflowRun) × (clear_pending_callback_patch attempts ≡ some w)

  consume-Delivered :
      (c : Option (List Attempt)) (wr : WorkflowRun) (x : Ctx) (out : Fields)
      → CanClear c
      → Delivered (consume e c wr x out) out x
  unfolding consume after_clear
  consume-Delivered none wr x out h = (refl, refl, refl)
  consume-Delivered (some attempts) wr x out (w, h) = rw (h) (refl, refl, refl)

  recover-Delivered :
      (cb : CallbackState) (wfc : WaitForCallback) (step : Step) (wr : WorkflowRun) (x y : Ctx)
      (out : Fields)
      → (cb.outputs == "") ≡ false
      → as_map (e.unmarshal cb.outputs) ≡ some out
      → e.write_step_outputs x step.name
          (keep_declared_properties e.unmarshal wfc.output_schema out)
        ≡ some y
      → CanClear e.control
      → Delivered
          (recover e cb wfc step wr x)
          (keep_declared_properties e.unmarshal wfc.output_schema out)
          y
  unfolding recover receive write_received
  recover-Delivered cb wfc step wr x y out full parsed written clears =
      rw (full) (rw (parsed) (rw (written) (consume-Delivered e.control wr y _ clears)))

  configured :
      (wfc : WaitForCallback) (step : Step) (timeout : ℕ) (wr : WorkflowRun) (x : Ctx)
      → step.wait_for_callback ≡ some wfc
      → e.parse_duration wfc.timeout ≡ some timeout
      → execute_wait_for_callback e wr step x
        ≡ with_callback e (pending_for e step wr.status.pending_callback) timeout wfc step wr x
  unfolding execute_wait_for_callback with_configuration with_timeout
  configured wfc step timeout wr x config parses =
      ap (λ o. with_configuration e o step wr x) config
      ∙ ap (λ o. with_timeout e o wfc step wr x) parses

  -- The callback that the endpoint recorded is what the step has when the run resumes, at any time,
  -- also after its expiry: the outputs are the payload less its undeclared keys, they are in the
  -- context, and the callback is no longer pending. The payload parses, and the context manager and
  -- the control client do their writes.
  pub execute_wait_for_callback-patched :
      (base : WorkflowRun) (cb : CallbackState) (body : String) (wfc : WaitForCallback)
      (step : Step) (timeout : ℕ) (x y : Ctx) (out : Fields)
      → cb.step_name ≡ step.name
      → step.wait_for_callback ≡ some wfc
      → e.parse_duration wfc.timeout ≡ some timeout
      → (body == "") ≡ false
      → as_map (e.unmarshal body) ≡ some out
      → e.write_step_outputs x step.name
          (keep_declared_properties e.unmarshal wfc.output_schema out)
        ≡ some y
      → CanClear e.control
      → Delivered
          (execute_wait_for_callback e (patched base cb body) step x)
          (keep_declared_properties e.unmarshal wfc.output_schema out)
          y
  unfolding with_callback patched
  execute_wait_for_callback-patched base cb body wfc step timeout x y out same config parses full
        parsed written clears =
      let same' : (cb.step_name == step.name) ≡ true =
        ground (arith, same, eq_iff cb.step_name step.name) in
      rw (configured wfc step timeout (patched base cb body) x config parses) (
        rw (same') (
          recover-Delivered (record cb { outputs = body }) wfc step (patched base cb body) x y out
            full parsed written clears))

  after_set-awaiting :
      (o : Option (Option WorkflowRun)) (cb : CallbackState) (token : String) (wr : WorkflowRun)
      (x : Ctx)
      → (after_set e o cb token wr x).result ≡ awaiting
      → (after_set e o cb token wr x).memory ≡ with_pending (some cb) wr
  unfolding after_set pause
  after_set-awaiting none cb token wr x h = ground (arith, h)
  after_set-awaiting (some stored) cb token wr x h = refl

  -- The run that a step which paused leaves: the callback is armed for it.
  arm-awaiting :
      (g : Option (String × String)) (timeout : ℕ) (step : Step) (wr : WorkflowRun) (x : Ctx)
      → (arm e g timeout step wr x).result ≡ awaiting
      → (hash : String) × ((arm e g timeout step wr x).memory
          ≡ with_pending (some (new_callback e hash step.name timeout)) wr)
  unfolding arm
  arm-awaiting none timeout step wr x h = ground (arith, h)
  arm-awaiting (some (token, hash)) timeout step wr x h = (
    hash,
    after_set-awaiting (set_stored e (new_callback e hash step.name timeout) e.control)
        (new_callback e hash step.name timeout) token wr x h,
  )

  recover-awaiting :
      (f : Runner Ctx) (hash : String) (wfc : WaitForCallback) (step : Step) (timeout : ℕ)
      (wr : WorkflowRun) (y : Ctx)
      → f.now ≤ e.now + timeout
      → recover f (new_callback e hash step.name timeout) wfc step wr y ≡ nothing f wr y awaiting
  unfolding recover new_callback
  recover-awaiting f hash wfc step timeout wr y time =
      let early : ltb (e.now + timeout) f.now ≡ false = ground (arith, time) in rw (early) refl

module _ {Ctx : Type 0} (e f : Runner Ctx) where
  waits :
      (hash : String) (wfc : WaitForCallback) (step : Step) (timeout : ℕ) (wr : WorkflowRun)
      (y : Ctx)
      → step.wait_for_callback ≡ some wfc
      → f.parse_duration wfc.timeout ≡ some timeout
      → f.now ≤ e.now + timeout
      → execute_wait_for_callback f
          (with_pending (some (new_callback e hash step.name timeout)) wr)
          step
          y
        ≡ nothing f (with_pending (some (new_callback e hash step.name timeout)) wr) y awaiting
  unfolding with_callback new_callback
  waits hash wfc step timeout wr y config parses time =
      let armed : WorkflowRun = with_pending (some (new_callback e hash step.name timeout)) wr in
      configured f wfc step timeout armed y config parses
      ∙ (rw (eq_refl step.name) (recover-awaiting e f hash wfc step timeout armed y time))

  -- A step that paused waits on: until the expiry of the callback that it armed, running it again,
  -- in any later environment, neither changes the run nor arms another callback, and pauses again.
  pub execute_wait_for_callback-rearmed :
      (wr : WorkflowRun) (wfc : WaitForCallback) (step : Step) (timeout : ℕ) (x y : Ctx)
      → step.wait_for_callback ≡ some wfc
      → e.parse_duration wfc.timeout ≡ some timeout
      → f.parse_duration wfc.timeout ≡ some timeout
      → pending_for e step wr.status.pending_callback ≡ none
      → (execute_wait_for_callback e wr step x).result ≡ awaiting
      → f.now ≤ e.now + timeout
      → execute_wait_for_callback f (execute_wait_for_callback e wr step x).memory step y
        ≡ nothing f (execute_wait_for_callback e wr step x).memory y awaiting
  unfolding with_callback
  execute_wait_for_callback-rearmed wr wfc step timeout x y config parses parses' fresh paused
        time =
      let run : execute_wait_for_callback e wr step x ≡ arm e e.generate timeout step wr x =
        configured e wfc step timeout wr x config parses
        ∙ ap (λ o. with_callback e o timeout wfc step wr x) fresh in
      let (hash, left) =
        arm-awaiting e e.generate timeout step wr x (sym (ap (λ l. l.result) run) ∙ paused) in
      subst (λ w. execute_wait_for_callback f w step y ≡ nothing f w y awaiting)
        (sym (ap (λ l. l.memory) run ∙ left)) (waits hash wfc step timeout wr y config parses' time)
