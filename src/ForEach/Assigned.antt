-- ===== src/ForEach/Assigned.antt =====
-- Every interleaving of the pool keeps track of its items
-- (internal/workflow/executor/foreach_executor.go).
use ottoflow.Prelude.{ℕ, String, Option, none, some, List, [], ◌∷◌, ◌≡◌, refl, ◌||◌, ltb}
use ottoflow.Api.Json.{Json}
use ottoflow.ForEach.Pool.{
  Phase, waiting, holding, processing, recorded, gone, Worker, State, ItemOutcome, Event, next_item,
  cancel, acquire, give_up, check, finish, start, active, worker_at, acquire_slot, give_up_slot,
  check_stopped, finish_item, act, act_at, step, run,
}
use ottoflow.ForEach.Tracking.{
  Tracks, if-Tracks, start-Tracks, next-Tracks, moves-Tracks, records-Tracks,
}

module _ (max : ℕ) (policy : String) (items : List Json) where
  acquire_slot-Tracks :
      (i : ℕ) (q : Phase) (s : State) (w : Worker)
      → worker_at i s.workers ≡ some w
      → w.phase ≡ q
      → Tracks items s
      → Tracks items (acquire_slot max i q s)
  unfolding acquire_slot
  acquire_slot-Tracks i waiting s w at e k =
      if-Tracks items (ltb (active s.workers) max) _ s
        (moves-Tracks items i holding waiting s w at e refl refl k) k
  acquire_slot-Tracks i holding s w at e k = k
  acquire_slot-Tracks i processing s w at e k = k
  acquire_slot-Tracks i recorded s w at e k = k
  acquire_slot-Tracks i gone s w at e k = k

  give_up_slot-Tracks :
      (i : ℕ) (q : Phase) (s : State) (w : Worker)
      → worker_at i s.workers ≡ some w
      → w.phase ≡ q
      → Tracks items s
      → Tracks items (give_up_slot i q s)
  unfolding give_up_slot
  give_up_slot-Tracks i waiting s w at e k =
      if-Tracks items (s.stopped || s.cancelled) _ s
        (moves-Tracks items i gone waiting s w at e refl refl k) k
  give_up_slot-Tracks i holding s w at e k = k
  give_up_slot-Tracks i processing s w at e k = k
  give_up_slot-Tracks i recorded s w at e k = k
  give_up_slot-Tracks i gone s w at e k = k

  check_stopped-Tracks :
      (i : ℕ) (q : Phase) (s : State) (w : Worker)
      → worker_at i s.workers ≡ some w
      → w.phase ≡ q
      → Tracks items s
      → Tracks items (check_stopped i q s)
  unfolding check_stopped
  check_stopped-Tracks i holding s w at e k =
      if-Tracks items s.stopped _ _ (moves-Tracks items i gone holding s w at e refl refl k)
        (moves-Tracks items i processing holding s w at e refl refl k)
  check_stopped-Tracks i waiting s w at e k = k
  check_stopped-Tracks i processing s w at e k = k
  check_stopped-Tracks i recorded s w at e k = k
  check_stopped-Tracks i gone s w at e k = k

  finish_item-Tracks :
      (i : ℕ) (o : ItemOutcome) (q : Phase) (s : State) (w : Worker)
      → worker_at i s.workers ≡ some w
      → w.phase ≡ q
      → Tracks items s
      → Tracks items (finish_item policy i o w.item q s)
  unfolding finish_item
  finish_item-Tracks i o processing s w at e k =
      if-Tracks items s.cancelled _ _ (moves-Tracks items i gone processing s w at e refl refl k)
        (records-Tracks items policy i o s w at e k)
  finish_item-Tracks i o waiting s w at e k = k
  finish_item-Tracks i o holding s w at e k = k
  finish_item-Tracks i o recorded s w at e k = k
  finish_item-Tracks i o gone s w at e k = k

  act_at-Tracks :
      (e : Event) (o : Option Worker) (s : State)
      → ((w : Worker) → o ≡ some w → Tracks items (act max policy e w s))
      → Tracks items s
      → Tracks items (act_at max policy e o s)
  act_at-Tracks e none s h k = k
  act_at-Tracks e (some w) s h k = h w refl

  step-Tracks : (e : Event) (s : State) → Tracks items s → Tracks items (step max policy e s)
  unfolding step act
  step-Tracks next_item s k = next-Tracks items s k
  step-Tracks cancel s k = record {
    in_order = k.in_order;
    per_item = k.per_item;
    same_failures = k.same_failures;
  }
  step-Tracks (acquire j) s k =
      act_at-Tracks (acquire j) (worker_at j s.workers) s
        (λ w at. acquire_slot-Tracks j w.phase s w at refl k) k
  step-Tracks (give_up j) s k =
      act_at-Tracks (give_up j) (worker_at j s.workers) s
        (λ w at. give_up_slot-Tracks j w.phase s w at refl k) k
  step-Tracks (check j) s k =
      act_at-Tracks (check j) (worker_at j s.workers) s
        (λ w at. check_stopped-Tracks j w.phase s w at refl k) k
  step-Tracks (finish j o) s k =
      act_at-Tracks (finish j o) (worker_at j s.workers) s
        (λ w at. finish_item-Tracks j o w.phase s w at refl k) k

  run-Tracks : (es : List Event) (s : State) → Tracks items s → Tracks items (run max policy es s)
  unfolding run
  run-Tracks [] s k = k
  run-Tracks (e ∷ es) s k = run-Tracks es (step max policy e s) (step-Tracks e s k)

pub run-start-Tracks :
    (max : ℕ) (policy : String) (items : List Json) (events : List Event)
    → Tracks items (run max policy events (start items))
run-start-Tracks max policy items events =
    run-Tracks max policy items events (start items) (start-Tracks items)
