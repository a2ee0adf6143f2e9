-- ===== src/ForEach/Result.antt =====
-- How executeForEach returns (internal/workflow/executor/foreach_executor.go).
use ottoflow.Prelude.{
  ℕ, ◌+◌, ◌-◌, ◌≤◌, String, true, false, Option, none, some, List, [], ◌∷◌, ◌≡◌, refl, ◌==◌, ◌&&◌,
  ◌⊎◌, inl, inr, length, ltb, eqb, arith, Bool-cases,
}
use ottoflow.Api.Json.{Json}
use ottoflow.Api.Step.{Step, ForEach, fail}
use ottoflow.ForEach.{
  Items, evaluation_error, not_list, listed, Calls, Error, no_for_each, items_not_list,
  nothing_completed, context_error, items_error, results_error, outputs_error, failed_items,
  incomplete, all_failed, Return, done, partial, error, max_concurrency, item_failure_policy,
  first_failure, foreach_failure_error, conclude, or_error, has_outputs, after_pool, after_items,
  execute_for_each,
}
use ottoflow.ForEach.Complete.{count_phases-le}
use ottoflow.ForEach.Pool.{Results, State, Event, start, run}
use ottoflow.ForEach.Invariant.{is_recorded, successes, Inv}
use ottoflow.ForEach.Interleavings.{run-start-Inv}

abbrev pub IsError : ForEach → Calls → ℕ → Results → Error → Type 0
IsError f c n r no_for_each = ⊥
IsError f c n r items_not_list = c.items ≡ not_list
IsError f c n r (items_error e) = c.items ≡ evaluation_error e
IsError f c n r (context_error e) = c.read_context ≡ some e
IsError f c n r (results_error e) = c.write_results ≡ some e
IsError f c n r (outputs_error e) = c.write_outputs ≡ some e
IsError f c n r (failed_items k e) =
    (k ≡ length r.failed) × (1 ≤ k) × ((item_failure_policy f == fail) ≡ true)
IsError f c n r nothing_completed = (length r.failed ≡ 0) × (successes r.results ≡ 0)
IsError f c n r (incomplete k l e) =
    (k ≡ length r.failed) × (1 ≤ k) × (1 ≤ l) × (k + l ≡ n) × (successes r.results ≡ 0)
IsError f c n r (all_failed k e) = (k ≡ n) × (length r.failed ≡ n) × (successes r.results ≡ 0)

-- The successes that a return counts, against the results of the pool over the items.
abbrev pub IsReturn : ForEach → Calls → ℕ → Results → Return → Type 0
IsReturn f c n r done = (n ≡ 0) ⊎ ((length r.failed ≡ 0) × (1 ≤ successes r.results))
IsReturn f c n r (partial a t b) =
    (a ≡ successes r.results)
    × (1 ≤ a)
    × (t ≡ n)
    × (b ≡ length r.failed)
    × (1 ≤ b)
    × ((item_failure_policy f == fail) ≡ false)
IsReturn f c n r (error e) = IsError f c n r e

module _ (s : Step) (f : ForEach) (c : Calls) (n : ℕ) (r : Results)
    (split : length r.results ≡ length r.failed + successes r.results)
    (few : length r.results ≤ n) where
  foreach_failure_error-IsError :
      successes r.results ≡ 0
      → IsError f c n r (foreach_failure_error n (length r.failed) (first_failure r.failed))
  unfolding foreach_failure_error
  foreach_failure_error-IsError h = elim (Bool-cases (eqb (length r.failed) 0)) [
    | inl none_failed ↦ rw (none_failed) (ground (arith, none_failed), h)
    | inr some_failed ↦ rw (some_failed) (elim (Bool-cases (ltb (length r.failed) n)) [
      | inl less ↦
          rw (less)
            (refl, ground (arith, some_failed), ground (arith, less), ground (arith, less), h)
      | inr more ↦ rw (more) (refl, ground (arith, more, few, split, h), h)
    ])
  ]

  conclude-IsReturn :
      (item_failure_policy f == fail) ≡ false ⊎ (length r.failed ≡ 0)
      → IsReturn f c n r (conclude n r)
  unfolding conclude
  conclude-IsReturn lenient = elim (Bool-cases (eqb (length r.results - length r.failed) 0)) [
    | inl zero_left ↦
        rw (zero_left) (foreach_failure_error-IsError (ground (arith, zero_left, split)))
    | inr some_left ↦ rw (some_left) (elim (Bool-cases (ltb 0 (length r.failed))) [
      | inl some_failed ↦ rw (some_failed) (
        omega (arith, split),
        ground (arith, some_left),
        refl,
        refl,
        ground (arith, some_failed),
        elim lenient [ inl h ↦ h | inr h ↦ absurd (ground (arith, h, some_failed)) ],
      )
      | inr none_failed ↦
          rw (none_failed)
            (inr (ground (arith, none_failed), ground (arith, none_failed, some_left, split)))
    ])
  ]

  or_error-IsReturn :
      (wrap : String → Error) (o : Option String) (ret : Return)
      → ((e : String) → o ≡ some e → IsError f c n r (wrap e))
      → IsReturn f c n r ret
      → IsReturn f c n r (or_error wrap o ret)
  or_error-IsReturn wrap none ret h k = k
  or_error-IsReturn wrap (some e) ret h k = h e refl

  after_pool-IsReturn : IsReturn f c n r (after_pool s (item_failure_policy f) c n r)
  unfolding after_pool
  after_pool-IsReturn =
      or_error-IsReturn results_error c.write_results _ (λ e h. h)
        (elim (Bool-cases (ltb 0 (length r.failed) && item_failure_policy f == fail)) [
          | inl strict ↦ rw (strict) (refl, ground (arith, strict), ground (arith, strict))
          | inr lenient ↦ rw (lenient) (elim (Bool-cases (has_outputs s.outputs)) [
            | inl h ↦ rw (h) (
                or_error-IsReturn outputs_error c.write_outputs _ (λ e h. h)
                  (conclude-IsReturn (mild lenient)))
            | inr h ↦ rw (h) (conclude-IsReturn (mild lenient))
          ])
        ])
    where
      mild :
          (ltb 0 (length r.failed) && item_failure_policy f == fail) ≡ false
          → ((item_failure_policy f == fail) ≡ false) ⊎ (length r.failed ≡ 0)
      mild h = ground (arith, h)

abbrev pub items_of : Items → List Json
items_of (listed l) = l
items_of _ = []

-- The results of the pool over the items.
abbrev pub pool_results : ForEach → Calls → List Event → Results
pool_results f c events =
    (run (max_concurrency f c) (item_failure_policy f) events (start (items_of c.items))).results

module _ (s : Step) (f : ForEach) (c : Calls) (events : List Event) where
  pool : List Json → State
  pool items = run (max_concurrency f c) (item_failure_policy f) events (start items)

  pool_split :
      (items : List Json)
      → length (pool items).results.results
        ≡ length (pool items).results.failed + successes (pool items).results.results
  unfolding pool
  pool_split items =
      (run-start-Inv (max_concurrency f c) (item_failure_policy f) items events).0.loose.split

  pool_few : (items : List Json) → length (pool items).results.results ≤ length items
  unfolding pool
  pool_few items =
      let k : Inv (max_concurrency f c) (item_failure_policy f) (length items) (pool items) =
        (run-start-Inv (max_concurrency f c) (item_failure_policy f) items events).0 in
      omega (arith, k.reported, k.loose.started, count_phases-le is_recorded (pool items).workers)

  after_items-IsReturn :
      (i : Items)
      → c.items ≡ i
      → IsReturn f c (length (items_of i)) (pool (items_of i)).results (after_items s f c i events)
  unfolding pool
  after_items-IsReturn (evaluation_error e) h = h
  after_items-IsReturn not_list h = h
  after_items-IsReturn (listed []) h =
      or_error-IsReturn s f c 0 (pool []).results (pool_split []) (pool_few []) results_error
        c.write_results done (λ e h. h) (inl refl)
  after_items-IsReturn (listed (x ∷ xs)) h =
      after_pool-IsReturn s f c (length (x ∷ xs)) (pool (x ∷ xs)).results (pool_split (x ∷ xs))
        (pool_few (x ∷ xs))

  -- In every interleaving of the pool, executeForEach returns: without a message, where there are no
  -- items or where no item failed and one succeeded; with the tally of the successes and failures,
  -- where both occurred and the policy is not Fail; with the error of the policy Fail, where an item
  -- failed; with one of the errors of a loop without a success, whose numbers are those of the items
  -- that failed and that did not complete; or with the error of a call, which did fail. So a loop
  -- over items in which none succeeded never returns without an error.
  pub execute_for_each-IsReturn :
      IsReturn f c
        (length (items_of c.items))
        (pool_results f c events)
        (execute_for_each s (some f) c events)
  unfolding execute_for_each pool
  execute_for_each-IsReturn =
      or_error-IsReturn s f c (length (items_of c.items)) (pool_results f c events)
        (pool_split (items_of c.items)) (pool_few (items_of c.items)) context_error c.read_context
        (after_items s f c c.items events) (λ e h. h) (after_items-IsReturn c.items refl)
