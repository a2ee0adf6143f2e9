-- ===== src/Scheduler/Limit.antt =====
-- Firings keep to the workflow's limit of concurrent runs (scheduler.go: handleCronFire).
use ottoflow.Prelude.{
  ℕ, suc, ◌≤◌, ◌<◌, String, Bool, true, false, Option, none, some, List, [], ◌∷◌, ◌≡◌, refl,
  if◌then◌else◌, contains, arith, eq_iff, Bool-cases, ◌⊎◌, inl, inr, sym, ◌∙◌, subst, ap,
}
use ottoflow.Api.Step.{Workflow, effective_max_concurrent_runs}
use ottoflow.Api.Run.{is_active}
use ottoflow.Controller.Failure.{set_run_failed}
use ottoflow.Scheduler.{
  Item, CronTrigger, Api, active, active_cron, replaced, Cancelled, also,
  cancel_active_workflow_runs, count_active_workflow_runs, new_item, create_item,
  create_workflow_run, within_limit, after_cancel, handle_cron_fire, cron_input_values_from_secrets,
}

-- The runs that are active.
abbrev pub active_total : List Item → ℕ
active_total [] = 0
active_total (x ∷ xs) = if active x then suc (active_total xs) else active_total xs

abbrev pub names : List Item → List String
names [] = []
names (x ∷ xs) = x.run.name ∷ names xs

-- No two runs have the same name.
abbrev pub IsDistinct : List Item → Type 0
IsDistinct [] = Unit {0}
IsDistinct (x ∷ xs) = (contains x.run.name (names xs) ≡ false) × IsDistinct xs

count-nothing : (xs : List Item) → count_active_workflow_runs [] xs ≡ active_total xs
unfolding count_active_workflow_runs
count-nothing [] = refl
count-nothing (x ∷ xs) = ground (arith, count-nothing xs)

-- A name that no run has skips nothing.
count-absent :
    (n : String) (skip : List String) (xs : List Item)
    → contains n (names xs) ≡ false
    → count_active_workflow_runs (n ∷ skip) xs ≡ count_active_workflow_runs skip xs
unfolding count_active_workflow_runs
count-absent n skip [] h = refl
count-absent n skip (x ∷ xs) h =
    ground (arith, h, count-absent n skip xs, eq_iff n x.run.name, eq_iff x.run.name n)

module _ (update : String → Bool) where
  abbrev pub after : List Item → Cancelled
  after = cancel_active_workflow_runs update

  -- What the cancellation of the rest comes to when that of the whole list succeeds.
  also-some :
      (n : String) (o : Option (List String)) (ns : List String)
      → also n o ≡ some ns
      → (ms : List String) × (o ≡ some ms) × (ns ≡ n ∷ ms)
  also-some n none ns h = ground (arith, h)
  also-some n (some ms) ns h = (ms, refl, ground (arith, h))

  pub replaced-inactive : (x : Item) → active (replaced x) ≡ false
  unfolding is_active set_run_failed
  replaced-inactive x = refl

  cancel-le : (xs : List Item) → active_total (after xs).store ≤ active_total xs
  unfolding cancel_active_workflow_runs
  cancel-le [] = omega arith
  cancel-le (x ∷ xs) = ground (arith, cancel-le xs, replaced-inactive x)

  -- How a cancellation that succeeds treats its first run.
  abbrev pub First : Item → List Item → List String → Type 0
  First x xs ns =
      ((active_cron x ≡ true)
        × ((ms : List String) × ((after xs).names ≡ some ms) × (ns ≡ x.run.name ∷ ms))
        × ((after (x ∷ xs)).store ≡ replaced x ∷ (after xs).store))
      ⊎ ((active_cron x ≡ false)
          × ((after xs).names ≡ some ns)
          × ((after (x ∷ xs)).store ≡ x ∷ (after xs).store))

  pub cancel-First :
      (x : Item) (xs : List Item) (ns : List String)
      → (after (x ∷ xs)).names ≡ some ns
      → First x xs ns
  unfolding cancel_active_workflow_runs
  cancel-First x xs ns e = elim (Bool-cases (active_cron x)) [
    | inr c ↦ inr (c, ground (arith, c, e), rw (c) refl)
    | inl c ↦ elim (Bool-cases (update x.run.name)) [
      | inr u ↦ ground (arith, c, u, e)
      | inl u ↦
          inl
            (c, also-some x.run.name (after xs).names ns (ground (arith, c, u, e)), rw (c, u) refl)
    ]
  ]

  cancel-absent :
      (a : String) (xs : List Item) (ns : List String)
      → (after xs).names ≡ some ns
      → contains a (names xs) ≡ false
      → contains a ns ≡ false
  unfolding cancel_active_workflow_runs
  cancel-absent a [] ns e h = ground (arith, e)
  cancel-absent a (x ∷ xs) ns e h = elim (cancel-First x xs ns e) [
    | inr (c, f, s) ↦ cancel-absent a xs ns f (ground (arith, h))
    | inl (c, (ms, f, g), s) ↦
        let rest = cancel-absent a xs ms f (ground (arith, h)) in
        subst (λ l. contains a l ≡ false) (sym g) (ground (arith, h, rest))
  ]

  -- The count leaves out the cancelled runs, whether the list shows them as active or as failed.
  count-before :
      (xs : List Item) (ns : List String)
      → IsDistinct xs
      → (after xs).names ≡ some ns
      → count_active_workflow_runs ns xs ≡ active_total (after xs).store
  unfolding cancel_active_workflow_runs count_active_workflow_runs
  count-before [] ns d e = refl
  count-before (x ∷ xs) ns d e = elim (cancel-First x xs ns e) [
    | inr (c, f, s) ↦
        let rest = count-before xs ns d.1 f in
        let absent = cancel-absent x.run.name xs ns f d.0 in
        subst (λ l. count_active_workflow_runs ns (x ∷ xs) ≡ active_total l) (sym s)
          (ground (arith, rest, absent))
    | inl (c, (ms, f, g), s) ↦
        let rest = count-before xs ms d.1 f in
        let skip = count-absent x.run.name ms xs d.0 in
        subst (λ l. count_active_workflow_runs ns (x ∷ xs) ≡ active_total l) (sym s)
          (subst
            (λ l.
              count_active_workflow_runs l (x ∷ xs) ≡ active_total (replaced x ∷ (after xs).store))
            (sym g) (ground (arith, rest, skip, replaced-inactive x, eq_iff x.run.name x.run.name)))
  ]

  names-cancel : (xs : List Item) → names (after xs).store ≡ names xs
  unfolding cancel_active_workflow_runs set_run_failed
  names-cancel [] = refl
  names-cancel (x ∷ xs) = ground (arith, names-cancel xs)

  count-after :
      (xs : List Item) (ns : List String)
      → IsDistinct xs
      → (after xs).names ≡ some ns
      → count_active_workflow_runs ns (after xs).store ≡ active_total (after xs).store
  unfolding cancel_active_workflow_runs count_active_workflow_runs
  count-after [] ns d e = refl
  count-after (x ∷ xs) ns d e = elim (cancel-First x xs ns e) [
    | inr (c, f, s) ↦
        let rest = count-after xs ns d.1 f in
        let absent = cancel-absent x.run.name xs ns f d.0 in
        subst (λ l. count_active_workflow_runs ns l ≡ active_total l) (sym s)
          (ground (arith, rest, absent))
    | inl (c, (ms, f, g), s) ↦
        let rest = count-after xs ms d.1 f in
        let skip =
          count-absent x.run.name ms (after xs).store
            (ap (contains x.run.name) (names-cancel xs) ∙ d.0) in
        subst (λ l. count_active_workflow_runs ns l ≡ active_total l) (sym s)
          (subst
            (λ l.
              count_active_workflow_runs l (replaced x ∷ (after xs).store)
              ≡ active_total (replaced x ∷ (after xs).store))
            (sym g) (ground (arith, rest, skip, replaced-inactive x)))
  ]

module _ (api : Api) (wf : Workflow) where
  abbrev pub limit : ℕ
  limit = effective_max_concurrent_runs wf.max_concurrent_runs

  -- A creation adds one active run at most.
  create-le :
      (o : Option (List (String × String))) (store : List Item)
      → active_total (create_item api wf o store).store ≤ suc (active_total store)
  unfolding create_item new_item is_active
  create-le none store = omega arith
  create-le (some inputs) store = ground arith

  create_workflow_run-le :
      (spec : CronTrigger) (store : List Item)
      → active_total (create_workflow_run api wf spec store).store ≤ suc (active_total store)
  unfolding create_workflow_run
  create_workflow_run-le spec store =
      create-le (cron_input_values_from_secrets api wf spec.inputs []) store

  within_limit-le :
      (spec : CronTrigger) (skip : List String) (listed store : List Item)
      → 0 < limit
      → count_active_workflow_runs skip listed ≡ active_total store
      → active_total store ≤ limit
      → active_total (within_limit api wf spec skip listed store).store ≤ limit
  unfolding within_limit
  within_limit-le spec skip listed store on exact h =
      ground (arith, on, exact, h, create_workflow_run-le spec store)

  after_cancel-le :
      (spec : CronTrigger) (store : List Item) (o : Option (List String))
      → 0 < limit
      → IsDistinct store
      → (cancel_active_workflow_runs api.update store).names ≡ o
      → active_total store ≤ limit
      → active_total
          (after_cancel api wf spec o store
            (cancel_active_workflow_runs api.update store).store).store
        ≤ limit
  unfolding after_cancel
  after_cancel-le spec store none on d e h = omega (arith, h, cancel-le api.update store)
  after_cancel-le spec store (some ns) on d e h =
      let less : active_total (cancel_active_workflow_runs api.update store).store ≤ limit =
        omega (arith, h, cancel-le api.update store) in
      elim (Bool-cases api.shows_updates) [
        | inl u ↦ rw (u) (within_limit-le spec ns _ _ on (count-after api.update store ns d e) less)
        | inr u ↦
            rw (u) (within_limit-le spec ns _ _ on (count-before api.update store ns d e) less)
      ]

  -- A firing keeps to the workflow's limit of concurrent runs: if no more runs than the limit are
  -- active before it, no more are afterwards, whatever the policy, whichever of the API server's
  -- calls fail, and whether or not the list that is counted already shows the cancelled runs. The
  -- limit is not zero, which says that there is none, and no two runs have the same name.
  pub handle_cron_fire-le :
      (spec : CronTrigger) (store : List Item)
      → 0 < limit
      → IsDistinct store
      → active_total store ≤ limit
      → active_total (handle_cron_fire api wf spec store).store ≤ limit
  unfolding handle_cron_fire
  handle_cron_fire-le spec store on d h =
      let plain = within_limit-le spec [] store store on (count-nothing store) h in
      let replaces =
        after_cancel-le spec store (cancel_active_workflow_runs api.update store).names on d refl
          h in
      ground (arith, h, plain, replaces)
