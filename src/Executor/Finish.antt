-- ===== src/Executor/Finish.antt =====
-- How a run ends: within the limit of iterations, and never with work left unless it says so.
use ottoflow.Prelude.{
  ◌≤◌, ◌<◌, String, true, false, some, List, [], ◌∷◌, ◌≡◌, refl, sym, ◌∙◌, ◌⊎◌, inl, inr, ap, subst,
  ◌||◌, arith, Bool-cases, String-cases, contains, contains_self,
}
use ottoflow.Api.Step.{Step}
use ottoflow.Api.Run.{RunPhase, StepPhase}
use ottoflow.Dag.{unset}
use ottoflow.Dag.Declare.{is_step}
use ottoflow.Executor.{
  Env, Exec, End, returned, paused, failed_with, Next, next, stop, get_status, is_step_done,
  is_pending, find_step, statuses, run_step, run_ready,
}
use ottoflow.Executor.Ran.{
  Statuses, pending_at, Frozen-Others, Ran, find_step-name, run_step-Ran, run_step-passes,
}
use ottoflow.Executor.Order.{completed, completed_steps-congr}
use ottoflow.Executor.Order.{done_pending}
use ottoflow.Executor.Count.{
  IsDistinct, find_step-of-is_step, is_step-of-find_step, completed_steps-find, pending_count,
  pending_count-lt,
}

-- Every step is pending or done.
abbrev pub IsClean : List Step → Statuses → Type 0
IsClean steps m =
    (a : String) → is_step steps a ≡ true → (pending_at a m ≡ true) ⊎ (completed steps m a ≡ true)

module _ {W : Type 0} (env : Env W) (steps : List Step) (distinct : IsDistinct steps) where
  -- What an error return says: a step waits for its callback, or the run is marked as failed.
  abbrev pub Stopped : End → Exec W → Type 0
  Stopped returned y = ⊥
  Stopped (paused e) y =
      (name : String) × ((get_status name (statuses y)).phase ≡ StepPhase.waiting)
  Stopped (failed_with e) y = y.status.phase ≡ RunPhase.failed

  -- Progress by one step that was pending, or an error return.
  abbrev pub Progress : Exec W → Next W → Type 0
  Progress x (next b y) =
      (b ≡ true)
      × IsClean steps (statuses y)
      × (pending_count steps (statuses y) < pending_count steps (statuses x))
  Progress x (stop e y) = Stopped e y

  Ran-Progress :
      (s : Step) (x : Exec W) (r : Next W)
      → find_step s.name steps ≡ some s
      → pending_at s.name (statuses x) ≡ true
      → IsClean steps (statuses x)
      → Ran env s x r
      → Progress x r
  Ran-Progress s x (stop returned y) e p clean h = h
  Ran-Progress s x (stop (paused m) y) e p clean h = (s.name, h.1)
  Ran-Progress s x (stop (failed_with m) y) e p clean h = h.2
  Ran-Progress s x (next b y) e p clean (t, others, finished) = (
    t,
    λ a is. elim (String-cases s.name a) [
      | inl (q, r) ↦ inr (
          completed_steps-find steps (statuses y) unset a s distinct
            (subst (λ n. find_step n steps ≡ some s) q e)
          ∙ subst (λ n. is_step_done s (get_status n (statuses y)) ≡ true) q finished)
      | inr (q, r) ↦ elim (clean a is) [
        | inl still ↦ inl (ap (λ u. is_pending u.phase) (others a r) ∙ still)
        | inr c ↦ inr (
            completed_steps-congr steps (statuses x) (statuses y) unset unset a (others a r) refl
            ∙ c)
      ]
    ],
    pending_count-lt steps (statuses x) (statuses y) s.name
        (Frozen-Others s.name (statuses x) (statuses y) p others)
        (is_step-of-find_step steps s.name s e) p
        (done_pending s (get_status s.name (statuses y)) finished),
  )

  -- A name of a step: the step is run, or was run before.
  run_step-Progress :
      (name : String) (x : Exec W)
      → is_step steps name ≡ true
      → pending_at name (statuses x) ≡ true
      → IsClean steps (statuses x)
      → Progress x (run_step env steps name x)
  run_step-Progress name x is p clean =
      let (s, e) = find_step-of-is_step steps name is in
      let named = sym (find_step-name env name steps s e) in
      Ran-Progress s x (run_step env steps name x) (subst (λ n. find_step n steps ≡ some s) named e)
        (subst (λ n. pending_at n (statuses x) ≡ true) named p) clean
        (run_step-Ran env steps name s x e p)

  -- The rest of the ready steps, after one that was executed.
  abbrev Rest : Exec W → Next W → Type 0
  Rest x (next b y) =
      (b ≡ true)
      × IsClean steps (statuses y)
      × (pending_count steps (statuses y) ≤ pending_count steps (statuses x))
  Rest x (stop e y) = Stopped e y

  Rest-trans :
      (x y : Exec W)
      → pending_count steps (statuses y) ≤ pending_count steps (statuses x)
      → (r : Next W) → Rest y r
      → Rest x r
  Rest-trans x y h (next b z) (t, c, k) = (t, c, omega arith)
  Rest-trans x y h (stop e z) k = k

  Progress-Rest :
      (names : List String) (x : Exec W) (r : Next W)
      → Progress x r
      → ((y : Exec W) → IsClean steps (statuses y) → Rest y (run_ready env steps names true y))
      → Rest x (elim r [ stop e y ↦ stop e y | next b y ↦ run_ready env steps names (b || true) y ])
  Progress-Rest names x (stop e y) h rest = h
  Progress-Rest names x (next true y) (t, c, k) rest =
      Rest-trans x y (omega arith) (run_ready env steps names true y) (rest y c)
  Progress-Rest names x (next false y) (t, c, k) rest = absurd cc

  run_ready-Rest :
      (names : List String) (x : Exec W)
      → ((a : String) → contains a names ≡ true → is_step steps a ≡ true)
      → IsClean steps (statuses x)
      → Rest x (run_ready env steps names true x)
  unfolding run_ready
  run_ready-Rest [] x are clean = (refl, clean, omega arith)
  run_ready-Rest (name ∷ names) x are clean =
      let is = are name (contains_self name names) in
      let rest = λ (y : Exec W) (c : IsClean steps (statuses y)).
        run_ready-Rest names y (λ a m. are a (ground arith)) c in
      elim (Bool-cases (pending_at name (statuses x))) [
        | inl p ↦
            Progress-Rest names x (run_step env steps name x) (run_step-Progress name x is p clean)
              rest
        | inr p ↦
            let (s, e) = find_step-of-is_step steps name is in
            rw (run_step-passes env steps name s x e p, run_ready) (rest x clean)
      ]

  Progress-Progress :
      (names : List String) (x : Exec W) (r : Next W)
      → Progress x r
      → ((y : Exec W) → IsClean steps (statuses y) → Rest y (run_ready env steps names true y))
      → Progress x
          (elim r [ stop e y ↦ stop e y | next b y ↦ run_ready env steps names (b || false) y ])
  Progress-Progress names x (stop e y) h rest = h
  Progress-Progress names x (next false y) (t, c, k) rest = absurd cc
  Progress-Progress names x (next true y) (t, c, k) rest =
      join (run_ready env steps names true y) (rest y c)
    where
      join : (r : Next W) → Rest y r → Progress x r
      join (next b z) (t', c', k') = (t', c', omega arith)
      join (stop e z) h = h

  -- One iteration with a ready step makes progress.
  pub run_ready-Progress :
      (name : String) (names : List String) (x : Exec W)
      → ((a : String) → contains a (name ∷ names) ≡ true → is_step steps a ≡ true)
      → pending_at name (statuses x) ≡ true
      → IsClean steps (statuses x)
      → Progress x (run_ready env steps (name ∷ names) false x)
  unfolding run_ready
  run_ready-Progress name names x are p clean =
      Progress-Progress names x (run_step env steps name x)
        (run_step-Progress name x (are name (contains_self name names)) p clean)
        (λ y c. run_ready-Rest names y (λ a m. are a (ground arith)) c)
