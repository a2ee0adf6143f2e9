-- ===== src/ForEach/Samples.antt =====
-- A loop over two items, of which one fails.
use ottoflow.Prelude.{true, false, none, some, List, [], ◌∷◌, ◌≡◌, refl, length}
use ottoflow.Api.Json.{Json, str, end}
use ottoflow.Api.Step.{Step, ForEach, plain_step, fail, continue}
use ottoflow.ForEach.{
  listed, Calls, partial, max_concurrency, item_failure_policy, execute_for_each, after_pool,
  conclude,
}
use ottoflow.ForEach.Pool.{
  Event, next_item, acquire, check, finish, outputs, item_error, start, run, step, next, act,
  acquire_slot, check_stopped, finish_item, record_item, count_phases,
}
use ottoflow.ForEach.Invariant.{Inv}
use ottoflow.ForEach.Tracking.{Tracks}
use ottoflow.ForEach.Interleavings.{run-start-Inv}
use ottoflow.ForEach.Complete.{all_over, AllDone, run_complete}
use ottoflow.ForEach.Result.{IsReturn, items_of, pool_results, execute_for_each-IsReturn}

abbrev two_items : List Json
two_items = str "a" ∷ str "b" ∷ []

-- Both workers are started; the second one is done first, and fails.
abbrev events : List Event
events =
    next_item
    ∷ next_item
    ∷ acquire 0
    ∷ acquire 1
    ∷ check 0
    ∷ check 1
    ∷ finish 0 (item_error "no")
    ∷ finish 1 (outputs end)
    ∷ next_item
    ∷ []

run-start-Inv_example :
    Inv 2 continue 2 (run 2 continue events (start two_items))
    × Tracks two_items (run 2 continue events (start two_items))
run-start-Inv_example = run-start-Inv 2 continue two_items events

loop_ended : (run 2 continue events (start two_items)).looping ≡ false
unfolding start run step next act acquire_slot check_stopped finish_item record_item count_phases
loop_ended = refl

workers_over : all_over (run 2 continue events (start two_items)).workers ≡ true
unfolding start run step next act acquire_slot check_stopped finish_item record_item count_phases
workers_over = refl

not_cancelled : (run 2 continue events (start two_items)).cancelled ≡ false
unfolding start run step next act acquire_slot check_stopped finish_item record_item count_phases
not_cancelled = refl

run_complete_example : AllDone two_items (run 2 continue events (start two_items)).results
run_complete_example =
    run_complete 2 continue two_items events loop_ended workers_over not_cancelled refl

abbrev both : ForEach
both = record {
  items = "variables.pods";
  step = none;
  step_template_ref = none;
  max_concurrency = 2;
  item_failure_policy = "";
}

abbrev loop_step : Step
loop_step = record (plain_step "loop" [] fail) { for_each = some both }

abbrev answers : Calls
answers = record {
  read_context = none;
  items = listed two_items;
  write_results = none;
  write_outputs = none;
  max_workers = 0;
}

execute_for_each-IsReturn_example :
    IsReturn both answers
      (length (items_of answers.items))
      (pool_results both answers events)
      (execute_for_each loop_step (some both) answers events)
execute_for_each-IsReturn_example = execute_for_each-IsReturn loop_step both answers events

-- It returns the tally: one of two succeeded, one failed.
tally : execute_for_each loop_step (some both) answers events ≡ partial 1 2 1
unfolding execute_for_each after_pool conclude max_concurrency item_failure_policy start run step
    next act acquire_slot check_stopped finish_item record_item count_phases
tally = refl
