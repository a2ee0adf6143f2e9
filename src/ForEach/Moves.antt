-- ===== src/ForEach/Moves.antt =====
-- A worker that moves on, and one that records its item, keep the invariant (internal/workflow/executor/foreach_executor.go).
use ottoflow.Prelude.{
  ℕ, suc, ◌+◌, ◌≤◌, String, Bool, true, false, none, some, List, [], ◌∷◌, ◌≡◌, refl, ap, subst,
  ◌==◌, ◌||◌, ◌⊎◌, inl, inr, length, length-append, arith, Bool-cases,
}
use ottoflow.Api.Json.{Json}
use ottoflow.Api.Step.{fail}
use ottoflow.ForEach.Pool.{
  succeeded, failed, ItemResult, Failure, Phase, gone, Worker, State, ItemOutcome, outputs,
  item_error, weigh, holds, count_phases, active, worker_at, set_phase, moved, record_item,
}
use ottoflow.ForEach.Invariant.{
  is_recorded, is_gone, Loose, Inv, successes-append, count_phases-set_phase, length-set_phase,
  or-both,
}

module _ (max : ℕ) (policy : String) (n : ℕ) where
  -- A worker moves on, and the results keep up with it.
  pub moved-Inv :
      (i : ℕ) (p q : Phase) (s : State) (w : Worker)
      → worker_at i s.workers ≡ some w
      → w.phase ≡ q
      → Loose max policy n s
      → active s.workers + weigh (holds p) ≤ max + weigh (holds q)
      → length s.results.results + weigh (is_recorded q)
        ≡ count_phases is_recorded s.workers + weigh (is_recorded p)
      → (weigh (is_gone p) ≡ weigh (is_gone q)) ⊎ ((s.stopped || s.cancelled) ≡ true)
      → Inv max policy n (moved i p s)
  moved-Inv i p q s w at e k bound report leave = record {
    loose = record {
      bounded = omega (arith, bound, now holds);
      started = omega (arith, k.started, length-set_phase i p s.workers);
      split = k.split;
      broken = k.broken;
      signalled = k.signalled;
      left = elim leave [
        | inl same ↦ elim k.left [
          | inl none_gone ↦ inl (omega (arith, none_gone, now is_gone, same))
          | inr h ↦ inr h
        ]
        | inr h ↦ inr h
      ];
    };
    reported = omega (arith, report, now is_recorded);
  }
    where
      now :
          (f : Phase → Bool)
          → count_phases f (set_phase i p s.workers) + weigh (f q)
            ≡ count_phases f s.workers + weigh (f p)
      now f =
          subst
            (λ x.
              count_phases f (set_phase i p s.workers) + weigh (f x)
              ≡ count_phases f s.workers + weigh (f p))
            e (count_phases-set_phase f i p s.workers w at)

  pub record_item-Loose :
      (item : Json) (o : ItemOutcome) (s : State)
      → Loose max policy n s
      → Loose max policy n (record_item policy item o s)
  unfolding record_item
  record_item-Loose item (outputs fs) s k =
      let new : List ItemResult =
        (record { item = item; outputs = some fs; status = succeeded }) ∷ [] in
      record {
        bounded = k.bounded;
        started = k.started;
        split = omega (
          arith,
          k.split,
          length-append s.results.results new,
          successes-append s.results.results new,
        );
        left = k.left;
        broken = k.broken;
        signalled = k.signalled;
      }
  record_item-Loose item (item_error e) s k =
      let new : List ItemResult = (record { item = item; outputs = none; status = failed }) ∷ [] in
      let failure : List Failure = (record { item = item; error = e }) ∷ [] in
      record {
        bounded = k.bounded;
        started = k.started;
        split = omega (
          arith,
          k.split,
          length-append s.results.results new,
          successes-append s.results.results new,
          length-append s.results.failed failure,
        );
        left = elim k.left [ inl h ↦ inl h | inr h ↦ inr (ground (arith, h)) ];
        broken = elim k.broken [
          | inl h ↦ inl h
          | inr b ↦ elim b [ inl h ↦ inr (inl h) | inr h ↦ inr (inr (or-both s.stopped _ h)) ]
        ];
        signalled = elim (Bool-cases (policy == fail)) [
          | inl h ↦ inr (h, omega (arith, length-append s.results.failed failure))
          | inr h ↦ elim k.signalled [
            | inl quiet ↦ inl (ground (arith, h, quiet))
            | inr b ↦ inr (b.0, omega (arith, b.1, length-append s.results.failed failure))
          ]
        ];
      }

  pub length-record_item :
      (item : Json) (o : ItemOutcome) (s : State)
      → length (record_item policy item o s).results.results ≡ suc (length s.results.results)
  unfolding record_item
  length-record_item item (outputs fs) s = omega (arith, length-append s.results.results _)
  length-record_item item (item_error e) s = omega (arith, length-append s.results.results _)

  pub workers-record_item :
      (item : Json) (o : ItemOutcome) (s : State)
      → (record_item policy item o s).workers ≡ s.workers
  unfolding record_item
  workers-record_item item (outputs fs) s = refl
  workers-record_item item (item_error e) s = refl

  -- A worker leaves without a result.
  pub gone-Inv :
      (i : ℕ) (q : Phase) (s : State) (w : Worker)
      → worker_at i s.workers ≡ some w
      → w.phase ≡ q
      → is_recorded q ≡ false
      → (s.stopped || s.cancelled) ≡ true
      → Inv max policy n s
      → Inv max policy n (moved i gone s)
  gone-Inv i q s w at e unfinished over k =
      moved-Inv i gone q s w at e k.loose (omega (arith, k.loose.bounded))
        (omega (arith, k.reported, ap weigh unfinished)) (inr over)
