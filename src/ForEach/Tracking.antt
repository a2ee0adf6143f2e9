-- ===== src/ForEach/Tracking.antt =====
-- Which items the workers of the pool have, and which the results are of
-- (internal/workflow/executor/foreach_executor.go).
use ottoflow.Prelude.{
  ℕ, zero, suc, ◌+◌, String, Bool, true, false, none, some, List, [], ◌∷◌, ◌++◌, ◌≡◌, refl, ap, sym,
  ◌∙◌, ◌&&◌, if◌then◌else◌, arith,
}
use ottoflow.Api.Json.{Json}
use ottoflow.ForEach.Pool.{
  Status, succeeded, failed, ItemResult, Failure, Phase, processing, recorded, Worker, State,
  ItemOutcome, outputs, item_error, start, weigh, worker_at, set_phase, next_of, next, record_item,
}
use ottoflow.ForEach.Invariant.{is_recorded}

-- The items of the workers in the order of their start, and then those of a list.
abbrev pub rev_onto : List Worker → List Json → List Json
rev_onto [] is = is
rev_onto (w ∷ ws) is = rev_onto ws (w.item ∷ is)

abbrev pub count_items : (Json → Bool) → List Json → ℕ
count_items f [] = 0
count_items f (i ∷ is) = weigh (f i) + count_items f is

-- The results of the items that pass a test.
abbrev pub count_results : (Json → Bool) → List ItemResult → ℕ
count_results f [] = 0
count_results f (r ∷ rs) = weigh (f r.item) + count_results f rs

abbrev pub passes : (Json → Bool) → Phase → Json → Bool
passes f p i = is_recorded p && f i

-- The workers that recorded an item that passes a test.
abbrev pub count_recorded : (Json → Bool) → List Worker → ℕ
count_recorded f [] = 0
count_recorded f (w ∷ ws) = weigh (passes f w.phase w.item) + count_recorded f ws

-- The items whose result is a failure.
abbrev pub failed_items : List ItemResult → List Json
failed_items [] = []
failed_items (r ∷ rs) = elim r.status [
  | succeeded ↦ failed_items rs
  | failed ↦ r.item ∷ failed_items rs
]

abbrev pub items_of_failures : List Failure → List Json
items_of_failures [] = []
items_of_failures (x ∷ xs) = x.item ∷ items_of_failures xs

-- The workers have the first items, one each and in their order, and the others are left; of each
-- item there are as many results as workers that recorded it; and the recorded failures are those
-- of the results, in their order.
pub record Tracks (items : List Json) (s : State) : Type 0 where
  pub in_order : rev_onto s.workers s.remaining ≡ items
  pub per_item : (f : Json → Bool) → count_results f s.results.results ≡ count_recorded f s.workers
  pub same_failures : failed_items s.results.results ≡ items_of_failures s.results.failed

rev_onto-set_phase :
    (i : ℕ) (p : Phase) (ws : List Worker) (is : List Json)
    → rev_onto (set_phase i p ws) is ≡ rev_onto ws is
rev_onto-set_phase i p [] is = refl
rev_onto-set_phase zero p (w ∷ ws) is = refl
rev_onto-set_phase (suc i) p (w ∷ ws) is = rev_onto-set_phase i p ws (w.item ∷ is)

count_recorded-set_phase :
    (f : Json → Bool) (i : ℕ) (p : Phase) (ws : List Worker) (w : Worker)
    → worker_at i ws ≡ some w
    → count_recorded f (set_phase i p ws) + weigh (passes f w.phase w.item)
      ≡ count_recorded f ws + weigh (passes f p w.item)
count_recorded-set_phase f i p [] w h = ground (arith, h)
count_recorded-set_phase f zero p (v ∷ ws) w h =
    let old : weigh (passes f v.phase v.item) ≡ weigh (passes f w.phase w.item) =
      ap (λ o. elim o [ none ↦ 0 | some x ↦ weigh (passes f x.phase x.item) ]) h in
    let new : weigh (passes f p v.item) ≡ weigh (passes f p w.item) =
      ap (λ o. elim o [ none ↦ 0 | some x ↦ weigh (passes f p x.item) ]) h in
    omega (arith, old, new)
count_recorded-set_phase f (suc i) p (v ∷ ws) w h =
    omega (arith, count_recorded-set_phase f i p ws w h)

count_results-append :
    (f : Json → Bool) (xs : List ItemResult) (r : ItemResult)
    → count_results f (xs ++ (r ∷ [])) ≡ count_results f xs + weigh (f r.item)
count_results-append f [] r = omega arith
count_results-append f (x ∷ xs) r = omega (arith, count_results-append f xs r)

-- The head of a list of results, once its status is known.
failed_items-head :
    (t : Status) (i : Json) (xs ys zs : List Json)
    → xs ≡ ys ++ zs
    → (elim t [ succeeded ↦ xs | failed ↦ i ∷ xs ])
      ≡ (elim t [ succeeded ↦ ys | failed ↦ i ∷ ys ]) ++ zs
failed_items-head succeeded i xs ys zs h = h
failed_items-head failed i xs ys zs h = ap (λ l. i ∷ l) h

failed_items-append :
    (xs ys : List ItemResult) → failed_items (xs ++ ys) ≡ failed_items xs ++ failed_items ys
failed_items-append [] ys = refl
failed_items-append (x ∷ xs) ys =
    failed_items-head x.status x.item (failed_items (xs ++ ys)) (failed_items xs) (failed_items ys)
      (failed_items-append xs ys)

append_nothing : (is : List Json) → is ++ [] ≡ is
append_nothing [] = refl
append_nothing (i ∷ is) = ap (λ l. i ∷ l) (append_nothing is)

items_of_failures-append :
    (xs ys : List Failure)
    → items_of_failures (xs ++ ys) ≡ items_of_failures xs ++ items_of_failures ys
items_of_failures-append [] ys = refl
items_of_failures-append (x ∷ xs) ys = ap (λ l. x.item ∷ l) (items_of_failures-append xs ys)

module _ (items : List Json) where
  pub if-Tracks :
      (b : Bool) (x y : State) → Tracks items x → Tracks items y → Tracks items (if b then x else y)
  if-Tracks true x y h k = h
  if-Tracks false x y h k = k

  pub start-Tracks : Tracks items (start items)
  unfolding start
  start-Tracks = record { in_order = refl; per_item = λ f. refl; same_failures = refl }

  next_of-Tracks :
      (l : List Json) (s : State) → s.remaining ≡ l → Tracks items s → Tracks items (next_of l s)
  next_of-Tracks [] s e k = record {
    in_order = k.in_order;
    per_item = k.per_item;
    same_failures = k.same_failures;
  }
  next_of-Tracks (i ∷ is) s e k =
      if-Tracks s.stopped _ _
        (record { in_order = k.in_order; per_item = k.per_item; same_failures = k.same_failures })
        (record {
          in_order = ap (rev_onto s.workers) (sym e) ∙ k.in_order;
          per_item = λ f. omega (arith, k.per_item f);
          same_failures = k.same_failures;
        })

  pub next-Tracks : (s : State) → Tracks items s → Tracks items (next s)
  unfolding next
  next-Tracks s k = if-Tracks s.looping _ _ (next_of-Tracks s.remaining s refl k) k

  -- A worker that has not recorded its item moves on without recording it.
  pub moves-Tracks :
      (i : ℕ) (p q : Phase) (s : State) (w : Worker)
      → worker_at i s.workers ≡ some w
      → w.phase ≡ q
      → is_recorded p ≡ false
      → is_recorded q ≡ false
      → Tracks items s
      → Tracks items (record s { workers = set_phase i p s.workers })
  moves-Tracks i p q s w at e not_p not_q k = record {
    in_order = rev_onto-set_phase i p s.workers s.remaining ∙ k.in_order;
    per_item = λ f.
        let old : weigh (passes f w.phase w.item) ≡ 0 =
          ap (λ x. weigh (passes f x w.item)) e ∙ ap (λ b. weigh (b && f w.item)) not_q in
        let new : weigh (passes f p w.item) ≡ 0 = ap (λ b. weigh (b && f w.item)) not_p in
        omega (arith, k.per_item f, count_recorded-set_phase f i p s.workers w at, old, new);
    same_failures = k.same_failures;
  }

  -- A worker records its item.
  pub records-Tracks :
      (policy : String) (i : ℕ) (o : ItemOutcome) (s : State) (w : Worker)
      → worker_at i s.workers ≡ some w
      → w.phase ≡ processing
      → Tracks items s
      → Tracks items (record (record_item policy w.item o s) {
        workers = set_phase i recorded (record_item policy w.item o s).workers;
      })
  unfolding record_item
  records-Tracks policy i (outputs fs) s w at e k = record {
    in_order = rev_onto-set_phase i recorded s.workers s.remaining ∙ k.in_order;
    per_item = λ f.
        let old : weigh (passes f w.phase w.item) ≡ 0 = ap (λ x. weigh (passes f x w.item)) e in
        omega (
          arith,
          k.per_item f,
          count_recorded-set_phase f i recorded s.workers w at,
          count_results-append f s.results.results
              (record { item = w.item; outputs = some fs; status = succeeded }),
          old,
        );
    same_failures = failed_items-append s.results.results _ ∙ append_nothing _ ∙ k.same_failures;
  }
  records-Tracks policy i (item_error x) s w at e k = record {
    in_order = rev_onto-set_phase i recorded s.workers s.remaining ∙ k.in_order;
    per_item = λ f.
        let old : weigh (passes f w.phase w.item) ≡ 0 = ap (λ x. weigh (passes f x w.item)) e in
        omega (
          arith,
          k.per_item f,
          count_recorded-set_phase f i recorded s.workers w at,
          count_results-append f s.results.results
              (record { item = w.item; outputs = none; status = failed }),
          old,
        );
    same_failures =
        failed_items-append s.results.results _
        ∙ ap (λ l. l ++ (w.item ∷ [])) k.same_failures
        ∙ sym (items_of_failures-append s.results.failed _);
  }
