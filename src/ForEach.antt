-- ===== src/ForEach.antt =====
-- The forEach step (internal/workflow/executor/foreach_executor.go): executeForEach.
--
-- What the calls of other parts answer is an argument: the context, CEL, and the writes of the
-- results and outputs, which fail with a text. The pool of workers is in ForEach/Pool; how its
-- goroutines interleave is a list of events. Logging and progress callbacks are left out.
pub mod Pool
pub mod Invariant
pub mod Moves
pub mod Tracking
pub mod Assigned
pub mod Interleavings
pub mod Complete
pub mod Result
mod Samples
use ottoflow.Prelude.{
  ℕ, zero, suc, ◌-◌, String, Bool, true, false, not, Option, none, some, List, [], ◌∷◌, ◌==◌, ◌&&◌,
  if◌then◌else◌, length, ltb, eqb,
}
use ottoflow.Api.Json.{Json}
use ottoflow.Api.Step.{Step, ForEach, Output, fail, continue}
use ottoflow.ForEach.Pool.{Failure, Results, Event, State, start, run}

-- What the items expression evaluates to; nil is the empty list.
pub data Items : Type 0 where
  evaluation_error : String → Items
  not_list : Items
  listed : List Json → Items

pub record Calls : Type 0 where
  pub read_context : Option String  -- its error, if any
  pub items : Items
  pub write_results : Option String
  pub write_outputs : Option String  -- reading the context, evaluating the outputs, writing them
  pub max_workers : ℕ

pub data Error : Type 0 where
  no_for_each items_not_list nothing_completed : Error
  context_error items_error results_error outputs_error : String → Error
  failed_items : ℕ → String → Error
  incomplete : ℕ → ℕ → String → Error  -- failed, did not complete, first failure
  all_failed : ℕ → String → Error

-- How executeForEach returns: with the message of the step, if it sets one, or an error.
pub data Return : Type 0 where
  done : Return
  partial : ℕ → ℕ → ℕ → Return  -- succeeded, total, failed
  error : Error → Return

unfoldable pub max_concurrency : ForEach → Calls → ℕ
max_concurrency f c =
    if ltb 0 f.max_concurrency
    then f.max_concurrency
    else if ltb 0 c.max_workers
    then c.max_workers
    else 5

unfoldable pub item_failure_policy : ForEach → String
item_failure_policy f = if f.item_failure_policy == "" then continue else f.item_failure_policy

-- The first failure to complete.
abbrev pub first_failure : List Failure → String
first_failure [] = ""
first_failure (f ∷ fs) = f.error

-- foreachFailureError
unfoldable pub foreach_failure_error : ℕ → ℕ → String → Error
foreach_failure_error requested failed first =
    if eqb failed 0
    then nothing_completed
    else if ltb failed requested
    then incomplete failed (requested - failed) first
    else all_failed requested first

-- From the outputs of the step on.
unfoldable pub conclude : ℕ → Results → Return
unfolding foreach_failure_error
conclude total r =
    if eqb (length r.results - length r.failed) 0
    then error (foreach_failure_error total (length r.failed) (first_failure r.failed))
    else if ltb 0 (length r.failed)
    then partial (length r.results - length r.failed) total (length r.failed)
    else done

abbrev pub or_error : (String → Error) → Option String → Return → Return
or_error wrap none otherwise = otherwise
or_error wrap (some e) otherwise = error (wrap e)

abbrev pub has_outputs : List Output → Bool
has_outputs [] = false
has_outputs (o ∷ os) = true

-- From the results of the pool on.
unfoldable pub after_pool : Step → String → Calls → ℕ → Results → Return
unfolding conclude
after_pool s policy c total r = or_error results_error c.write_results (
    if ltb 0 (length r.failed) && policy == fail
    then error (failed_items (length r.failed) (first_failure r.failed))
    else if has_outputs s.outputs
    then or_error outputs_error c.write_outputs (conclude total r)
    else conclude total r)

abbrev pub after_items : Step → ForEach → Calls → Items → List Event → Return
after_items s f c (evaluation_error e) events = error (items_error e)
after_items s f c not_list events = error items_not_list
after_items s f c (listed []) events = or_error results_error c.write_results done
after_items s f c (listed (i ∷ is)) events =
    after_pool s (item_failure_policy f) c (length (i ∷ is))
      (run (max_concurrency f c) (item_failure_policy f) events (start (i ∷ is))).results

-- executeForEach, by the events of its pool
unfoldable pub execute_for_each : Step → Option ForEach → Calls → List Event → Return
unfolding after_pool item_failure_policy max_concurrency
execute_for_each s none c events = error no_for_each
execute_for_each s (some f) c events =
    or_error context_error c.read_context (after_items s f c c.items events)
