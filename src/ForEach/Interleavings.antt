-- ===== src/ForEach/Interleavings.antt =====
-- Every interleaving of the pool keeps the invariant (internal/workflow/executor/foreach_executor.go).
use ottoflow.Prelude.{
  ℕ, String, true, Option, none, some, List, [], ◌∷◌, ◌≡◌, refl, ap, ◌∙◌, ◌||◌, inl, inr, length,
  ltb, arith,
}
use ottoflow.Api.Json.{Json}
use ottoflow.ForEach.Pool.{
  Phase, waiting, holding, processing, recorded, gone, Worker, State, ItemOutcome, Event, next_item,
  cancel, acquire, give_up, check, finish, start, count_phases, active, worker_at, acquire_slot,
  give_up_slot, check_stopped, record_item, finish_item, act, act_at, step, run,
}
use ottoflow.ForEach.Invariant.{is_recorded, Inv, or-both, if-Inv, start-Inv, next-Inv}
use ottoflow.ForEach.Tracking.{Tracks}
use ottoflow.ForEach.Assigned.{run-start-Tracks}
use ottoflow.ForEach.Moves.{
  moved-Inv, record_item-Loose, length-record_item, workers-record_item, gone-Inv,
}

module _ (max : ℕ) (policy : String) (n : ℕ) where
  acquire_slot-Inv :
      (i : ℕ) (q : Phase) (s : State) (w : Worker)
      → worker_at i s.workers ≡ some w
      → w.phase ≡ q
      → Inv max policy n s
      → Inv max policy n (acquire_slot max i q s)
  unfolding acquire_slot
  acquire_slot-Inv i waiting s w at e k =
      if-Inv max policy n (ltb (active s.workers) max) _ s
        (λ h.
          moved-Inv max policy n i holding waiting s w at e k.loose (ground (arith, h))
            (omega (arith, k.reported)) (inl refl))
        (λ h. k)
  acquire_slot-Inv i holding s w at e k = k
  acquire_slot-Inv i processing s w at e k = k
  acquire_slot-Inv i recorded s w at e k = k
  acquire_slot-Inv i gone s w at e k = k

  give_up_slot-Inv :
      (i : ℕ) (q : Phase) (s : State) (w : Worker)
      → worker_at i s.workers ≡ some w
      → w.phase ≡ q
      → Inv max policy n s
      → Inv max policy n (give_up_slot i q s)
  unfolding give_up_slot
  give_up_slot-Inv i waiting s w at e k =
      if-Inv max policy n (s.stopped || s.cancelled) _ s
        (λ h. gone-Inv max policy n i waiting s w at e refl h k) (λ h. k)
  give_up_slot-Inv i holding s w at e k = k
  give_up_slot-Inv i processing s w at e k = k
  give_up_slot-Inv i recorded s w at e k = k
  give_up_slot-Inv i gone s w at e k = k

  check_stopped-Inv :
      (i : ℕ) (q : Phase) (s : State) (w : Worker)
      → worker_at i s.workers ≡ some w
      → w.phase ≡ q
      → Inv max policy n s
      → Inv max policy n (check_stopped i q s)
  unfolding check_stopped
  check_stopped-Inv i holding s w at e k =
      if-Inv max policy n s.stopped _ _
        (λ h. gone-Inv max policy n i holding s w at e refl (or-both s.stopped s.cancelled h) k)
        (λ h.
          moved-Inv max policy n i processing holding s w at e k.loose
            (omega (arith, k.loose.bounded)) (omega (arith, k.reported)) (inl refl))
  check_stopped-Inv i waiting s w at e k = k
  check_stopped-Inv i processing s w at e k = k
  check_stopped-Inv i recorded s w at e k = k
  check_stopped-Inv i gone s w at e k = k

  finish_item-Inv :
      (i : ℕ) (o : ItemOutcome) (item : Json) (q : Phase) (s : State) (w : Worker)
      → worker_at i s.workers ≡ some w
      → w.phase ≡ q
      → Inv max policy n s
      → Inv max policy n (finish_item policy i o item q s)
  unfolding finish_item
  finish_item-Inv i o item processing s w at e k =
      let t : State = record_item policy item o s in
      let same : t.workers ≡ s.workers = workers-record_item max policy n item o s in
      if-Inv max policy n s.cancelled _ _
        (λ h. gone-Inv max policy n i processing s w at e refl (ground (arith, h)) k)
        (λ h.
          moved-Inv max policy n i recorded processing t w (ap (worker_at i) same ∙ at) e
            (record_item-Loose max policy n item o s k.loose)
            (omega (arith, (record_item-Loose max policy n item o s k.loose).bounded))
            (omega (
              arith,
              k.reported,
              length-record_item max policy n item o s,
              ap (count_phases is_recorded) same,
            ))
            (inl refl))
  finish_item-Inv i o item waiting s w at e k = k
  finish_item-Inv i o item holding s w at e k = k
  finish_item-Inv i o item recorded s w at e k = k
  finish_item-Inv i o item gone s w at e k = k

  cancel-Inv : (s : State) → Inv max policy n s → Inv max policy n (record s { cancelled = true })
  cancel-Inv s k = record {
    loose = record {
      bounded = k.loose.bounded;
      started = k.loose.started;
      split = k.loose.split;
      left = elim k.loose.left [ inl none_gone ↦ inl none_gone | inr over ↦ inr (ground arith) ];
      broken = k.loose.broken;
      signalled = k.loose.signalled;
    };
    reported = k.reported;
  }

  act_at-Inv :
      (e : Event) (o : Option Worker) (s : State)
      → ((w : Worker) → o ≡ some w → Inv max policy n (act max policy e w s))
      → Inv max policy n s
      → Inv max policy n (act_at max policy e o s)
  act_at-Inv e none s h k = k
  act_at-Inv e (some w) s h k = h w refl

  step-Inv : (e : Event) (s : State) → Inv max policy n s → Inv max policy n (step max policy e s)
  unfolding step act
  step-Inv next_item s k = next-Inv max policy n s k
  step-Inv cancel s k = cancel-Inv s k
  step-Inv (acquire j) s k =
      act_at-Inv (acquire j) (worker_at j s.workers) s
        (λ w at. acquire_slot-Inv j w.phase s w at refl k) k
  step-Inv (give_up j) s k =
      act_at-Inv (give_up j) (worker_at j s.workers) s
        (λ w at. give_up_slot-Inv j w.phase s w at refl k) k
  step-Inv (check j) s k =
      act_at-Inv (check j) (worker_at j s.workers) s
        (λ w at. check_stopped-Inv j w.phase s w at refl k) k
  step-Inv (finish j o) s k =
      act_at-Inv (finish j o) (worker_at j s.workers) s
        (λ w at. finish_item-Inv j o w.item w.phase s w at refl k) k

  run-Inv :
      (es : List Event) (s : State) → Inv max policy n s → Inv max policy n (run max policy es s)
  unfolding run
  run-Inv [] s k = k
  run-Inv (e ∷ es) s k = run-Inv es (step max policy e s) (step-Inv e s k)

-- In every interleaving of the pool, started with any items: no more workers than the limit hold
-- a slot of the semaphore; the workers have the first items, one each and in their order, and the
-- others wait for one; of each item there are as many results as workers that recorded it; a result
-- is a success or a failure, and the recorded failures have the items of the failed results, in
-- their order; a worker that left without a result means a stop or a cancellation, and so does a
-- loop that ended before the last item a stop; and a stop means a failure under the policy Fail.
pub run-start-Inv :
    (max : ℕ) (policy : String) (items : List Json) (events : List Event)
    → Inv max policy (length items) (run max policy events (start items))
      × Tracks items (run max policy events (start items))
run-start-Inv max policy items events = (
  run-Inv max policy (length items) events (start items)
      (start-Inv max policy (length items) items refl),
  run-start-Tracks max policy items events,
)
