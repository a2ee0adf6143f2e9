-- ===== src/Webhook/Trigger.antt =====
-- A run for a webhook request (internal/workflow/controller/trigger_manager.go:
-- CreateWorkflowRunFromWebhook). CEL, encoding/json and the API server are arguments. Times are
-- nanoseconds. The map of the deduplication is the state of the trigger manager.
use Prim.Native.String.{◌++◌ as append}
use ottoflow.Prelude.{
  ℕ, zero, suc, ◌-◌, String, Bool, true, false, not, Option, none, some, List, [], ◌∷◌, ◌==◌, ◌&&◌,
  ◌||◌, if◌then◌else◌, ltb, leb, lookup, insert,
}
use ottoflow.Api.Json.{Fields, end}
use ottoflow.Api.Step.{Workflow, effective_max_concurrent_runs}

pub record RateLimit : Type 0 where
  pub requests_per_minute : ℕ  -- a negative one is read as 0, which the code treats alike
  pub burst : ℕ

pub record SecretRef : Type 0 where
  pub name : String
  pub namespace : String
  pub key : String

pub record WebhookTrigger : Type 0 where
  pub secret_ref : SecretRef
  pub cel_filter : String
  pub input_mapping : List (String × String)
  pub dedup_key : String
  pub dedup_window : Option ℕ  -- a negative one is read as 0, which the code treats alike
  pub rate_limit : Option RateLimit

-- What a CEL expression of a trigger evaluates to: its Boolean value, if it is one, and its text.
pub data Cel : Type 0 where
  cel_error : String → Cel
  cel_value : Option Bool → String → Cel

-- A read of the created run and, if it was there, its status update.
pub data StatusCall : Type 0 where
  gone unreadable refused updated : StatusCall

pub record Calls : Type 0 where
  pub unmarshal : List ℕ → Option Fields
  pub evaluate : String → Fields → Cel
  pub checked_at : ℕ  -- the clock at the test for duplicates
  pub active : Option ℕ  -- countActiveWorkflowRuns
  pub run_name : String
  pub create : Bool
  pub created_at : ℕ  -- the clock behind the creation
  pub status_calls : List StatusCall

pub record CreatedRun : Type 0 where
  pub name : String
  pub namespace : String
  pub inputs : List (String × String)
  pub status_set : Bool  -- phase Pending and the trigger's information

abbrev pub Dedup : Type 0
Dedup = List (String × List (String × ℕ))

pub data Made : Type 0 where
  invalid_json count_failed create_failed : Made
  filter_error : String → Made
  filtered deduped limited : Made
  made : CreatedRun → Made

abbrev pub has_entries : List (String × String) → Bool
has_entries [] = false
has_entries (e ∷ es) = true

-- Does a CEL expression read the body?
unfoldable pub needs_object : WebhookTrigger → Bool
needs_object t = not (t.cel_filter == "") || has_entries t.input_mapping || not (t.dedup_key == "")

unfoldable pub passes : Cel → Bool
passes (cel_value (some b) s) = b
passes _ = false

-- The inputs whose expressions evaluate.
unfoldable pub map_inputs : (String → Cel) → List (String × String) → List (String × String)
map_inputs cel [] = []
map_inputs cel ((name, expression) ∷ es) =
    let rest : List (String × String) = map_inputs cel es in
    elim (cel expression) [ cel_error e ↦ rest | cel_value b s ↦ (name, s) ∷ rest ]

abbrev pub trigger_key : Workflow → String
trigger_key w = append w.namespace (append "/" (append w.name "-webhook"))

abbrev pub workflow_key : Workflow → String
workflow_key w = append w.namespace (append "/" w.name)

abbrev pub key_of : Workflow → Cel → String
key_of w (cel_error e) = workflow_key w
key_of w (cel_value b s) = append "webhook-dedup/" s

unfoldable pub object_key : Workflow → WebhookTrigger → (String → Cel) → String
object_key w t cel = if t.dedup_key == "" then workflow_key w else key_of w (cel t.dedup_key)

abbrev pub default_dedup_window : ℕ
default_dedup_window = 600000000000

abbrev pub window_or : Option ℕ → ℕ → ℕ
window_or none d = d
window_or (some n) d = n

unfoldable pub effective_dedup_window : WebhookTrigger → ℕ
effective_dedup_window t =
    window_or t.dedup_window (if t.dedup_key == "" then 0 else default_dedup_window)

abbrev pub entries_of : Option (List (String × ℕ)) → List (String × ℕ)
entries_of none = []
entries_of (some es) = es

abbrev pub is_recent : ℕ → ℕ → Option ℕ → Bool
is_recent now window none = false
is_recent now window (some created) = ltb (now - created) window

-- Gate 3: a run for the same key within the window.
unfoldable pub is_duplicate : ℕ → ℕ → String → String → Dedup → Bool
is_duplicate now window trigger object d =
    ltb 0 window && is_recent now window (lookup object (entries_of (lookup trigger d)))

-- The entry that a created run leaves.
unfoldable pub remember : ℕ → ℕ → String → String → Dedup → Dedup
remember now window trigger object d =
    if ltb 0 window then insert trigger (insert object now (entries_of (lookup trigger d))) d else d

-- The loop over the status updates, by the attempts that are left.
unfoldable pub set_status : ℕ → List StatusCall → Bool
set_status zero cs = false
set_status (suc n) [] = false
set_status (suc n) (gone ∷ cs) = false
set_status (suc n) (unreadable ∷ cs) = set_status n cs
set_status (suc n) (refused ∷ cs) = set_status n cs
set_status (suc n) (updated ∷ cs) = true

-- Gate 5
unfoldable pub create_run :
    Workflow → WebhookTrigger → Calls → String → List (String × String) → Dedup → Made × Dedup
unfolding remember set_status effective_dedup_window
create_run w t c object inputs d =
    if c.create
    then (
      made (record {
        name = c.run_name;
        namespace = w.namespace;
        inputs = inputs;
        status_set = set_status 5 c.status_calls;
      }),
      remember c.created_at (effective_dedup_window t) (trigger_key w) object d,
    )
    else (create_failed, d)

-- Gate 4, by the number of active runs
unfoldable pub within_limit :
    Workflow
    → WebhookTrigger
    → Calls
    → String
    → List (String × String)
    → Option ℕ
    → Dedup
    → Made × Dedup
unfolding create_run
within_limit w t c object inputs none d = (count_failed, d)
within_limit w t c object inputs (some active) d =
    if leb (effective_max_concurrent_runs w.max_concurrent_runs) active
    then (limited, d)
    else create_run w t c object inputs d

unfoldable pub after_dedup :
    Workflow → WebhookTrigger → Calls → String → List (String × String) → Dedup → Made × Dedup
unfolding within_limit
after_dedup w t c object inputs d =
    if ltb 0 (effective_max_concurrent_runs w.max_concurrent_runs)
    then within_limit w t c object inputs c.active d
    else create_run w t c object inputs d

-- Gates 2 and 3
unfoldable pub after_filter : Workflow → WebhookTrigger → Calls → Fields → Dedup → Made × Dedup
unfolding map_inputs object_key is_duplicate effective_dedup_window after_dedup
after_filter w t c o d =
    let cel : String → Cel = λ e. c.evaluate e o in
    let object : String = object_key w t cel in
    if is_duplicate c.checked_at (effective_dedup_window t) (trigger_key w) object d
    then (deduped, d)
    else after_dedup w t c object (map_inputs cel t.input_mapping) d

-- Gate 1, by the value of the filter
unfoldable pub filter_value :
    Workflow → WebhookTrigger → Calls → Fields → Cel → Dedup → Made × Dedup
unfolding after_filter passes
filter_value w t c o (cel_error e) d = (filter_error e, d)
filter_value w t c o (cel_value b s) d =
    if passes (cel_value b s) then after_filter w t c o d else (filtered, d)

unfoldable pub after_parse :
    Workflow → WebhookTrigger → Calls → Option Fields → Dedup → Made × Dedup
unfolding filter_value
after_parse w t c none d = (invalid_json, d)
after_parse w t c (some o) d =
    if t.cel_filter == ""
    then after_filter w t c o d
    else filter_value w t c o (c.evaluate t.cel_filter o) d

-- CreateWorkflowRunFromWebhook
unfoldable pub create_workflow_run_from_webhook :
    Workflow → WebhookTrigger → Calls → List ℕ → Dedup → Made × Dedup
unfolding needs_object after_parse
create_workflow_run_from_webhook w t c body d =
    after_parse w t c (if needs_object t then c.unmarshal body else some end) d
