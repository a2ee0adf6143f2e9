-- ===== src/Scheduler/Single.antt =====
-- The policies Forbid and Replace leave one active cron run (scheduler.go: handleCronFire).
use ottoflow.Prelude.{
  ℕ, suc, String, Bool, true, false, Option, none, some, List, [], ◌∷◌, ◌≡◌, refl, ◌==◌,
  if◌then◌else◌, arith, ap, Bool-cases, ◌⊎◌, inl, inr, sym, subst,
}
use ottoflow.Api.Step.{Workflow}
use ottoflow.Api.Run.{RunPhase, unset, pending, failed, is_active}
use ottoflow.Controller.Failure.{set_run_failed}
use ottoflow.Scheduler.{
  Item, CronTrigger, Api, Outcome, created, status_failed, active_cron, replaced,
  has_active_workflow_run, cancel_active_workflow_runs, new_item, create_item, create_workflow_run,
  within_limit, after_cancel, handle_cron_fire, cron_input_values_from_secrets, set_status,
}
use ottoflow.Scheduler.Limit.{cancel-First, replaced-inactive}

-- The active runs that a cron trigger created.
abbrev pub cron_total : List Item → ℕ
cron_total [] = 0
cron_total (x ∷ xs) = if active_cron x then suc (cron_total xs) else cron_total xs

inactive-none : (xs : List Item) → has_active_workflow_run xs ≡ false → cron_total xs ≡ 0
unfolding has_active_workflow_run
inactive-none [] h = refl
inactive-none (x ∷ xs) h = ground (arith, h, inactive-none xs)

cancel-none :
    (update : String → Bool) (xs : List Item) (ns : List String)
    → (cancel_active_workflow_runs update xs).names ≡ some ns
    → cron_total (cancel_active_workflow_runs update xs).store ≡ 0
unfolding cancel_active_workflow_runs
cancel-none update [] ns h = refl
cancel-none update (x ∷ xs) ns h = elim (cancel-First update x xs ns h) [
  | inr (c, f, s) ↦
      subst (λ l. cron_total l ≡ 0) (sym s) (ground (arith, c, cancel-none update xs ns f))
  | inl (c, (ms, f, g), s) ↦
      subst (λ l. cron_total l ≡ 0) (sym s)
        (ground (arith, replaced-inactive update x, cancel-none update xs ms f))
]

-- What a cancellation makes of a run: one that is active and that a cron trigger created is failed,
-- and every other is left as it is.
abbrev pub IsTreated : Item → Item → Type 0
IsTreated x y =
    ((active_cron x ≡ true)
      × (y.run.status.phase ≡ failed)
      × (y.run.name ≡ x.run.name)
      × (y.cron ≡ x.cron))
    ⊎ ((active_cron x ≡ false) × (y ≡ x))

abbrev pub AllTreated : List Item → List Item → Type 0
AllTreated [] [] = Unit {0}
AllTreated [] (y ∷ ys) = ⊥
AllTreated (x ∷ xs) [] = ⊥
AllTreated (x ∷ xs) (y ∷ ys) = IsTreated x y × AllTreated xs ys

replaced-IsTreated : (x : Item) → active_cron x ≡ true → IsTreated x (replaced x)
unfolding set_run_failed
replaced-IsTreated x c = inl (c, refl, refl, refl)

cancel-AllTreated :
    (update : String → Bool) (xs : List Item) (ns : List String)
    → (cancel_active_workflow_runs update xs).names ≡ some ns
    → AllTreated xs (cancel_active_workflow_runs update xs).store
unfolding cancel_active_workflow_runs
cancel-AllTreated update [] ns h = tt
cancel-AllTreated update (x ∷ xs) ns h = elim (cancel-First update x xs ns h) [
  | inr (c, f, s) ↦
      subst (λ l. AllTreated (x ∷ xs) l) (sym s) (inr (c, refl), cancel-AllTreated update xs ns f)
  | inl (c, (ms, f, g), s) ↦
      subst (λ l. AllTreated (x ∷ xs) l) (sym s)
        (replaced-IsTreated x c, cancel-AllTreated update xs ms f)
]

-- The outcomes with a run that was created.
abbrev pub Creates : Outcome → Type 0
Creates o = (o ≡ created) ⊎ (o ≡ status_failed)

module _ (api : Api) (wf : Workflow) where
  -- One run more, at the head: of a cron trigger, under the new name, and pending, or without a
  -- phase where its status could not be set.
  abbrev pub Adds : List Item → List Item → Type 0
  Adds store after =
      (x : Item) × (after ≡ x ∷ store)
      × (x.cron ≡ true)
      × (x.run.name ≡ api.run_name)
      × ((x.run.status.phase ≡ pending) ⊎ (x.run.status.phase ≡ unset))

  new_item-Adds :
      (store : List Item) (phase : RunPhase)
      → (phase ≡ pending) ⊎ (phase ≡ unset)
      → Adds store (new_item api wf phase ∷ store)
  unfolding new_item
  new_item-Adds store phase h = (new_item api wf phase, refl, refl, refl, h)

  Adds-total :
      (store after : List Item) → Adds store after → cron_total store ≡ 0 → cron_total after ≡ 1
  unfolding is_active
  Adds-total store after (x, e, c, n, inl p) z = ground (arith, e, c, p, z)
  Adds-total store after (x, e, c, n, inr p) z = ground (arith, e, c, p, z)

  create-Adds :
      (o : Option (List (String × String))) (store : List Item)
      → Creates (create_item api wf o store).outcome
      → Adds store (create_item api wf o store).store
  unfolding create_item
  create-Adds none store h = ground (arith, h)
  create-Adds (some inputs) store h = elim (Bool-cases api.create) [
    | inr c ↦ ground (arith, h, c)
    | inl c ↦ elim (Bool-cases (set_status api wf 5 0)) [
      | inl u ↦ rw (c, u) (new_item-Adds store pending (inl refl))
      | inr u ↦ rw (c, u) (new_item-Adds store unset (inr refl))
    ]
  ]

  within_limit-Adds :
      (spec : CronTrigger) (skip : List String) (listed store : List Item)
      → Creates (within_limit api wf spec skip listed store).outcome
      → Adds store (within_limit api wf spec skip listed store).store
  unfolding within_limit create_workflow_run
  within_limit-Adds spec skip listed store h =
      ground (arith, h, create-Adds (cron_input_values_from_secrets api wf spec.inputs []) store)

  -- The store that a cancellation leaves, and the one with the new run.
  abbrev pub Replaces : List Item → List Item → Type 0
  Replaces store after = (rest : List Item) × AllTreated store rest × Adds rest after

  after_cancel-one :
      (spec : CronTrigger) (store : List Item) (o : Option (List String))
      → (cancel_active_workflow_runs api.update store).names ≡ o
      → Creates
          (after_cancel api wf spec o store
            (cancel_active_workflow_runs api.update store).store).outcome
      → (cron_total
            (after_cancel api wf spec o store
              (cancel_active_workflow_runs api.update store).store).store
          ≡ 1)
        × Replaces store
            (after_cancel api wf spec o store
              (cancel_active_workflow_runs api.update store).store).store
  unfolding after_cancel
  after_cancel-one spec store none e h = ground (arith, h)
  after_cancel-one spec store (some ns) e h =
      let adds = within_limit-Adds spec ns _ _ h in
      (
        Adds-total _ _ adds (cancel-none api.update store ns e),
        (
          (cancel_active_workflow_runs api.update store).store,
          cancel-AllTreated api.update store ns e,
          adds,
        ),
      )

  -- What becomes of the store, by the policy.
  abbrev pub Follows : String → List Item → List Item → Type 0
  Follows policy store after =
      ((policy ≡ "Forbid") × (cron_total store ≡ 0) × Adds store after)
      ⊎ ((policy ≡ "Replace") × Replaces store after)

  -- The firing, where it is known which branch the policy takes.
  forbid-one :
      (spec : CronTrigger) (store : List Item)
      → (spec.concurrency_policy == "Forbid") ≡ true
      → Creates (handle_cron_fire api wf spec store).outcome
      → (cron_total (handle_cron_fire api wf spec store).store ≡ 1)
        × (cron_total store ≡ 0)
        × Adds store (handle_cron_fire api wf spec store).store
  unfolding handle_cron_fire
  forbid-one spec store p h = elim (Bool-cases api.list_cron) [
    | inr l ↦ ground (arith, h, p, l)
    | inl l ↦ elim (Bool-cases (has_active_workflow_run store)) [
      | inl a ↦ ground (arith, h, p, l, a)
      | inr a ↦
          let adds = within_limit-Adds spec [] store store (ground (arith, h, p, l, a)) in
          let nothing = inactive-none store a in
          rw (p, l, a) (Adds-total _ _ adds nothing, nothing, adds)
    ]
  ]

  replace-one :
      (spec : CronTrigger) (store : List Item)
      → (spec.concurrency_policy == "Forbid") ≡ false
      → (spec.concurrency_policy == "Replace") ≡ true
      → Creates (handle_cron_fire api wf spec store).outcome
      → (cron_total (handle_cron_fire api wf spec store).store ≡ 1)
        × Replaces store (handle_cron_fire api wf spec store).store
  unfolding handle_cron_fire
  replace-one spec store f p h = elim (Bool-cases api.list_cron) [
    | inr l ↦ ground (arith, h, f, p, l)
    | inl l ↦
        rw (f, p, l)
          (after_cancel-one spec store (cancel_active_workflow_runs api.update store).names refl
            (ground (arith, h, f, p, l)))
  ]

  -- A firing under the policy Forbid or Replace that creates a run, whether or not the status of
  -- that run could be set, leaves exactly one active run that a cron trigger created. The new run
  -- comes to the store, and is pending, or has no phase where its status could not be set. Under
  -- Forbid there was no active cron run before, and the other runs are as they were; under Replace
  -- each active cron run is now failed, and every other run as it was.
  pub handle_cron_fire-one :
      (spec : CronTrigger) (store : List Item)
      → (spec.concurrency_policy ≡ "Forbid") ⊎ (spec.concurrency_policy ≡ "Replace")
      → Creates (handle_cron_fire api wf spec store).outcome
      → (cron_total (handle_cron_fire api wf spec store).store ≡ 1)
        × Follows spec.concurrency_policy store (handle_cron_fire api wf spec store).store
  handle_cron_fire-one spec store (inl p) h =
      let (one, nothing, adds) = forbid-one spec store (ap (λ c. c == "Forbid") p) h in
      (one, inl (p, nothing, adds))
  handle_cron_fire-one spec store (inr p) h =
      let (one, replaces) =
        replace-one spec store (ap (λ c. c == "Forbid") p) (ap (λ c. c == "Replace") p) h in
      (one, inr (p, replaces))
