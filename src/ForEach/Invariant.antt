-- ===== src/ForEach/Invariant.antt =====
-- What every interleaving of the pool keeps (internal/workflow/executor/foreach_executor.go).
use ottoflow.Prelude.{
  ℕ, zero, suc, ◌+◌, ◌≤◌, String, Bool, true, false, none, some, List, [], ◌∷◌, ◌++◌, ◌≡◌, refl, ap,
  ◌==◌, ◌||◌, ◌⊎◌, inl, inr, if◌then◌else◌, length, arith,
}
use ottoflow.Api.Json.{Json}
use ottoflow.Api.Step.{fail}
use ottoflow.ForEach.Pool.{
  succeeded, failed, ItemResult, Phase, recorded, gone, Worker, State, start, weigh, count_phases,
  active, worker_at, set_phase, next_of, next,
}

abbrev pub is_recorded : Phase → Bool
is_recorded recorded = true
is_recorded _ = false

abbrev pub is_gone : Phase → Bool
is_gone gone = true
is_gone _ = false

abbrev pub is_success : ItemResult → Bool
is_success r = elim r.status [ succeeded ↦ true | failed ↦ false ]

-- The results of items that succeeded.
abbrev pub successes : List ItemResult → ℕ
successes [] = 0
successes (r ∷ rs) = weigh (is_success r) + successes rs

-- The semaphore is respected, there are as many workers and items without one as items, every result
-- is a success or a failure, workers without a result and items without a worker stem from a stop or
-- a cancellation, and only a failure under the policy Fail stops.
pub record Loose (max : ℕ) (policy : String) (n : ℕ) (s : State) : Type 0 where
  pub bounded : active s.workers ≤ max
  pub started : length s.workers + length s.remaining ≡ n
  pub split : length s.results.results ≡ length s.results.failed + successes s.results.results
  pub left : (count_phases is_gone s.workers ≡ 0) ⊎ ((s.stopped || s.cancelled) ≡ true)
  pub broken : (s.looping ≡ true) ⊎ (length s.remaining ≡ 0) ⊎ (s.stopped ≡ true)
  pub signalled : (s.stopped ≡ false) ⊎ (((policy == fail) ≡ true) × (1 ≤ length s.results.failed))

-- And there are as many results as workers that recorded their item.
pub record Inv (max : ℕ) (policy : String) (n : ℕ) (s : State) : Type 0 where
  pub loose : Loose max policy n s
  pub reported : length s.results.results ≡ count_phases is_recorded s.workers

pub successes-append :
    (xs ys : List ItemResult) → successes (xs ++ ys) ≡ successes xs + successes ys
successes-append [] ys = omega arith
successes-append (x ∷ xs) ys = omega (arith, successes-append xs ys)

pub count_phases-set_phase :
    (f : Phase → Bool) (i : ℕ) (p : Phase) (ws : List Worker) (w : Worker)
    → worker_at i ws ≡ some w
    → count_phases f (set_phase i p ws) + weigh (f w.phase) ≡ count_phases f ws + weigh (f p)
unfolding count_phases
count_phases-set_phase f i p [] w h = ground (arith, h)
count_phases-set_phase f zero p (v ∷ ws) w h =
    let same : weigh (f v.phase) ≡ weigh (f w.phase) =
      ap (λ o. elim o [ none ↦ 0 | some x ↦ weigh (f x.phase) ]) h in
    omega (arith, same)
count_phases-set_phase f (suc i) p (v ∷ ws) w h = omega (arith, count_phases-set_phase f i p ws w h)

pub length-set_phase :
    (i : ℕ) (p : Phase) (ws : List Worker) → length (set_phase i p ws) ≡ length ws
length-set_phase i p [] = refl
length-set_phase zero p (w ∷ ws) = refl
length-set_phase (suc i) p (w ∷ ws) = ap suc (length-set_phase i p ws)

pub or-both : (a b : Bool) → a ≡ true → (a || b) ≡ true
or-both a b h = ground (arith, h)

module _ (max : ℕ) (policy : String) (n : ℕ) where
  pub if-Inv :
      (b : Bool) (x y : State)
      → (b ≡ true → Inv max policy n x)
      → (b ≡ false → Inv max policy n y)
      → Inv max policy n (if b then x else y)
  if-Inv true x y h k = h refl
  if-Inv false x y h k = k refl

  pub start-Inv : (items : List Json) → length items ≡ n → Inv max policy n (start items)
  unfolding start count_phases
  start-Inv items h = record {
    loose = record {
      bounded = omega arith;
      started = omega (arith, h);
      split = omega arith;
      left = inl refl;
      broken = inl refl;
      signalled = inl refl;
    };
    reported = refl;
  }

  pub next_of-Inv :
      (l : List Json) (s : State)
      → s.remaining ≡ l
      → s.looping ≡ true
      → Inv max policy n s
      → Inv max policy n (next_of l s)
  unfolding count_phases
  next_of-Inv [] s e on k = record {
    loose = record {
      bounded = k.loose.bounded;
      started = k.loose.started;
      split = k.loose.split;
      left = k.loose.left;
      broken = inr (inl (ap length e));
      signalled = k.loose.signalled;
    };
    reported = k.reported;
  }
  next_of-Inv (i ∷ is) s e on k =
      if-Inv s.stopped _ _
        (λ h. record {
          loose = record {
            bounded = k.loose.bounded;
            started = k.loose.started;
            split = k.loose.split;
            left = k.loose.left;
            broken = inr (inr h);
            signalled = k.loose.signalled;
          };
          reported = k.reported;
        })
        (λ h. record {
          loose = record {
            bounded = omega (arith, k.loose.bounded);
            started = omega (arith, k.loose.started, ap length e);
            split = k.loose.split;
            left = elim k.loose.left [
              | inl none_gone ↦ inl (omega (arith, none_gone))
              | inr over ↦ inr over
            ];
            broken = inl on;
            signalled = k.loose.signalled;
          };
          reported = omega (arith, k.reported);
        })

  pub next-Inv : (s : State) → Inv max policy n s → Inv max policy n (next s)
  unfolding next
  next-Inv s k = if-Inv s.looping _ s (λ h. next_of-Inv s.remaining s refl h k) (λ h. k)
