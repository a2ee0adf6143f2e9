-- ===== src/ForEach/Complete.antt =====
-- A pool that ends has a result for every item (internal/workflow/executor/foreach_executor.go).
use ottoflow.Prelude.{
  ℕ, ◌+◌, ◌≤◌, String, Bool, true, false, List, [], ◌∷◌, ◌≡◌, refl, ◌==◌, ◌||◌, ◌&&◌, inl, inr,
  length, ap, arith,
}
use ottoflow.Api.Json.{Json}
use ottoflow.Api.Step.{fail}
use ottoflow.ForEach.Pool.{
  Results, Phase, recorded, gone, Worker, State, Event, start, run, count_phases, weigh,
}
use ottoflow.ForEach.Invariant.{is_recorded, is_gone, successes, Inv}
use ottoflow.ForEach.Tracking.{
  rev_onto, count_items, count_results, passes, count_recorded, failed_items, items_of_failures,
  Tracks,
}
use ottoflow.ForEach.Interleavings.{run-start-Inv}

-- Has every worker left?
abbrev pub all_over : List Worker → Bool
all_over [] = true
all_over (w ∷ ws) = (is_recorded w.phase || is_gone w.phase) && all_over ws

pub count_phases-le : (f : Phase → Bool) (ws : List Worker) → count_phases f ws ≤ length ws
unfolding count_phases
count_phases-le f [] = omega arith
count_phases-le f (w ∷ ws) = ground (arith, count_phases-le f ws)

over-weight :
    (p : Phase)
    → (is_recorded p || is_gone p) ≡ true
    → weigh (is_recorded p) + weigh (is_gone p) ≡ 1
over-weight recorded h = refl
over-weight gone h = refl
over-weight Phase.waiting h = ground (arith, h)
over-weight Phase.holding h = ground (arith, h)
over-weight Phase.processing h = ground (arith, h)

count_phases-over :
    (ws : List Worker)
    → all_over ws ≡ true
    → count_phases is_recorded ws + count_phases is_gone ws ≡ length ws
unfolding count_phases
count_phases-over [] h = omega arith
count_phases-over (w ∷ ws) h =
    let over : ((is_recorded w.phase || is_gone w.phase) ≡ true) × (all_over ws ≡ true) =
      ground (arith, h) in
    omega (arith, over-weight w.phase over.0, count_phases-over ws over.1)

no_items : (f : Json → Bool) (is : List Json) → length is ≡ 0 → count_items f is ≡ 0
no_items f [] h = refl
no_items f (i ∷ is) h = ground (arith, h)

recorded-passes :
    (f : Json → Bool) (p : Phase) (i : Json)
    → (is_recorded p || is_gone p) ≡ true
    → weigh (is_gone p) ≡ 0
    → weigh (passes f p i) ≡ weigh (f i)
recorded-passes f recorded i h g = refl
recorded-passes f gone i h g = ground (arith, g)
recorded-passes f Phase.waiting i h g = ground (arith, h)
recorded-passes f Phase.holding i h g = ground (arith, h)
recorded-passes f Phase.processing i h g = ground (arith, h)

-- When all workers recorded their items, these are the items of the results, and of the rest.
count_items-rev_onto :
    (f : Json → Bool) (ws : List Worker) (is : List Json)
    → all_over ws ≡ true
    → count_phases is_gone ws ≡ 0
    → count_items f (rev_onto ws is) ≡ count_recorded f ws + count_items f is
unfolding count_phases
count_items-rev_onto f [] is h g = omega arith
count_items-rev_onto f (w ∷ ws) is h g =
    let over : ((is_recorded w.phase || is_gone w.phase) ≡ true) × (all_over ws ≡ true) =
      ground (arith, h) in
    let here : weigh (is_gone w.phase) ≡ 0 = omega (arith, g) in
    let there : count_phases is_gone ws ≡ 0 = omega (arith, g) in
    omega (
      arith,
      count_items-rev_onto f ws (w.item ∷ is) over.1 there,
      recorded-passes f w.phase w.item over.0 here,
    )

-- Each item has one result, which is a success or a recorded failure.
abbrev pub AllDone : List Json → Results → Type 0
AllDone items r =
    ((f : Json → Bool) → count_results f r.results ≡ count_items f items)
    × (length r.results ≡ length items)
    × (failed_items r.results ≡ items_of_failures r.failed)
    × (length r.failed + successes r.results ≡ length items)

module _ (max : ℕ) (policy : String) (items : List Json) (t : State)
    (k : Inv max policy (length items) t) (m : Tracks items t) where
  Inv-complete :
      t.looping ≡ false
      → all_over t.workers ≡ true
      → t.cancelled ≡ false
      → (policy == fail) ≡ false
      → AllDone items t.results
  Inv-complete ended over uncancelled lenient =
      let all : length t.results.results ≡ length items =
        omega (
          arith,
          k.reported,
          k.loose.started,
          count_phases-over t.workers over,
          no_gone,
          no_left,
        ) in
      (
        (λ f. omega (
          arith,
          m.per_item f,
          count_items-rev_onto f t.workers t.remaining over no_gone,
          ap (count_items f) m.in_order,
          no_items f t.remaining no_left,
        )),
        all,
        m.same_failures,
        omega (arith, all, k.loose.split),
      )
    where
      quiet : t.stopped ≡ false
      quiet = elim k.loose.signalled [ inl h ↦ h | inr b ↦ absurd (cc (b.0, lenient)) ]

      no_gone : count_phases is_gone t.workers ≡ 0
      no_gone = elim k.loose.left [
        | inl h ↦ h
        | inr h ↦ absurd (ground (arith, h, quiet, uncancelled))
      ]

      no_left : length t.remaining ≡ 0
      no_left = elim k.loose.broken [
        | inl h ↦ absurd (cc (h, ended))
        | inr b ↦ elim b [ inl h ↦ h | inr h ↦ absurd (cc (h, quiet)) ]
      ]

-- When the loop over the items and every worker have ended, in whatever interleaving, and the pool
-- was not cancelled, under a policy other than Fail every item has exactly one result: the results
-- are of the given items, each as often as it was given. Each result is that of a success or of a
-- failure, and the recorded failures have the items of the failed results, in their order.
pub run_complete :
    (max : ℕ) (policy : String) (items : List Json) (events : List Event)
    → (run max policy events (start items)).looping ≡ false
    → all_over (run max policy events (start items)).workers ≡ true
    → (run max policy events (start items)).cancelled ≡ false
    → (policy == fail) ≡ false
    → AllDone items (run max policy events (start items)).results
run_complete max policy items events ended over uncancelled lenient =
    let (k, m) = run-start-Inv max policy items events in
    Inv-complete max policy items (run max policy events (start items)) k m ended over uncancelled
      lenient
