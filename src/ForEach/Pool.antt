-- ===== src/ForEach/Pool.antt =====
-- The pool of workers of a forEach step (internal/workflow/executor/foreach_executor.go:
-- processItemsConcurrently). An event is one action of the loop, of a worker or of the context; one
-- that is not enabled changes nothing, so that every list of events is an interleaving. The number
-- of a worker is its position from the last one that was started.
use ottoflow.Prelude.{
  ℕ, zero, suc, ◌+◌, String, Bool, true, false, Option, none, some, List, [], ◌∷◌, ◌++◌, ◌==◌, ◌||◌,
  if◌then◌else◌, ltb,
}
use ottoflow.Api.Json.{Json, Fields}
use ottoflow.Api.Step.{fail}

pub data Status : Type 0 where
  succeeded failed : Status

-- ForEachItemResult
pub record ItemResult : Type 0 where
  pub item : Json
  pub outputs : Option Fields
  pub status : Status

-- ForEachItemFailure
pub record Failure : Type 0 where
  pub item : Json
  pub error : String

-- ForEachResults
pub record Results : Type 0 where
  pub results : List ItemResult
  pub failed : List Failure

-- Where a worker is: before the semaphore, behind it, in processForEachItem, or over, with or
-- without a result.
pub data Phase : Type 0 where
  waiting holding processing recorded gone : Phase

pub record Worker : Type 0 where
  pub item : Json
  pub phase : Phase

pub record State : Type 0 where
  pub remaining : List Json  -- the items that have no worker yet
  pub looping : Bool
  pub workers : List Worker
  pub stopped : Bool  -- stopChan is closed
  pub cancelled : Bool  -- ctx is done
  pub results : Results

-- What processForEachItem returns.
pub data ItemOutcome : Type 0 where
  outputs : Fields → ItemOutcome
  item_error : String → ItemOutcome

pub data Event : Type 0 where
  next_item cancel : Event
  acquire give_up check : ℕ → Event
  finish : ℕ → ItemOutcome → Event

unfoldable pub start : List Json → State
start items = record {
  remaining = items;
  looping = true;
  workers = [];
  stopped = false;
  cancelled = false;
  results = record { results = []; failed = [] };
}

abbrev pub weigh : Bool → ℕ
weigh true = 1
weigh false = 0

abbrev pub holds : Phase → Bool
holds holding = true
holds processing = true
holds _ = false

unfoldable pub count_phases : (Phase → Bool) → List Worker → ℕ
count_phases f [] = 0
count_phases f (w ∷ ws) = weigh (f w.phase) + count_phases f ws

-- The slots of the semaphore that are taken.
abbrev pub active : List Worker → ℕ
active ws = count_phases holds ws

abbrev pub worker_at : ℕ → List Worker → Option Worker
worker_at i [] = none
worker_at zero (w ∷ ws) = some w
worker_at (suc i) (w ∷ ws) = worker_at i ws

abbrev pub set_phase : ℕ → Phase → List Worker → List Worker
set_phase i p [] = []
set_phase zero p (w ∷ ws) = record w { phase = p } ∷ ws
set_phase (suc i) p (w ∷ ws) = w ∷ set_phase i p ws

abbrev pub moved : ℕ → Phase → State → State
moved i p s = record s { workers = set_phase i p s.workers }

abbrev pub next_of : List Json → State → State
next_of [] s = record s { looping = false }
next_of (i ∷ is) s =
    if s.stopped
    then record s { looping = false }
    else record s { remaining = is; workers = (record { item = i; phase = waiting }) ∷ s.workers }

-- The loop over the items: it ends when the pool is stopped or no item is left.
unfoldable pub next : State → State
next s = if s.looping then next_of s.remaining s else s

-- What a worker in this phase does on an event.
unfoldable pub acquire_slot : ℕ → ℕ → Phase → State → State
unfolding count_phases
acquire_slot max i waiting s = if ltb (active s.workers) max then moved i holding s else s
acquire_slot max i _ s = s

unfoldable pub give_up_slot : ℕ → Phase → State → State
give_up_slot i waiting s = if s.stopped || s.cancelled then moved i gone s else s
give_up_slot i _ s = s

unfoldable pub check_stopped : ℕ → Phase → State → State
check_stopped i holding s = if s.stopped then moved i gone s else moved i processing s
check_stopped i _ s = s

-- Under the mutex: the result, and with the policy Fail the signal of a failure.
unfoldable pub record_item : String → Json → ItemOutcome → State → State
record_item policy item (outputs fs) s = record s {
  results = record s.results {
    results =
        s.results.results ++ ((record { item = item; outputs = some fs; status = succeeded }) ∷ []);
  };
}
record_item policy item (item_error e) s = record s {
  stopped = s.stopped || policy == fail;
  results = record {
    results = s.results.results ++ ((record { item = item; outputs = none; status = failed }) ∷ []);
    failed = s.results.failed ++ ((record { item = item; error = e }) ∷ []);
  };
}

unfoldable pub finish_item : String → ℕ → ItemOutcome → Json → Phase → State → State
unfolding record_item
finish_item policy i o item processing s =
    if s.cancelled then moved i gone s else moved i recorded (record_item policy item o s)
finish_item policy i o item _ s = s

-- An event of a worker.
unfoldable pub act : ℕ → String → Event → Worker → State → State
unfolding acquire_slot give_up_slot check_stopped finish_item
act max policy (acquire i) w s = acquire_slot max i w.phase s
act max policy (give_up i) w s = give_up_slot i w.phase s
act max policy (check i) w s = check_stopped i w.phase s
act max policy (finish i o) w s = finish_item policy i o w.item w.phase s
act max policy _ w s = s

abbrev pub act_at : ℕ → String → Event → Option Worker → State → State
act_at max policy e none s = s
act_at max policy e (some w) s = act max policy e w s

unfoldable pub step : ℕ → String → Event → State → State
unfolding next act
step max policy next_item s = next s
step max policy cancel s = record s { cancelled = true }
step max policy (acquire i) s = act_at max policy (acquire i) (worker_at i s.workers) s
step max policy (give_up i) s = act_at max policy (give_up i) (worker_at i s.workers) s
step max policy (check i) s = act_at max policy (check i) (worker_at i s.workers) s
step max policy (finish i o) s = act_at max policy (finish i o) (worker_at i s.workers) s

unfoldable pub run : ℕ → String → List Event → State → State
unfolding step start
run max policy [] s = s
run max policy (e ∷ es) s = run max policy es (step max policy e s)
