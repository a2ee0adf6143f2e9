-- ===== src/Webhook/Steps.antt =====
-- What one request does to the state of the deduplication
-- (internal/workflow/controller/trigger_manager.go: CreateWorkflowRunFromWebhook).
use ottoflow.Prelude.{
  ℕ, String, Bool, true, false, Option, none, some, List, ◌≡◌, refl, ◌==◌, ◌⊎◌, inl, inr,
  if◌then◌else◌, ltb, leb, Bool-cases,
}
use ottoflow.Api.Json.{Fields, end}
use ottoflow.Api.Step.{Workflow, effective_max_concurrent_runs}
use ottoflow.Webhook.Trigger.{
  WebhookTrigger, Cel, cel_error, cel_value, Calls, Dedup, Made, deduped, made, needs_object,
  passes, create_run, within_limit, after_dedup, after_filter, filter_value, after_parse,
  is_duplicate, remember, object_key, map_inputs, effective_dedup_window, trigger_key,
}

abbrev pub is_made : Made → Bool
is_made (made r) = true
is_made _ = false

-- The body as an object, where an expression reads it.
abbrev pub parsed : WebhookTrigger → Calls → List ℕ → Option Fields
parsed t c body = if needs_object t then c.unmarshal body else some end

abbrev pub object_of : Workflow → WebhookTrigger → Calls → Fields → String
object_of w t c o = object_key w t (λ e. c.evaluate e o)

-- Nothing is made and nothing remembered, or the limit was not reached, no run of the key was recent,
-- and the new one is remembered.
abbrev pub Step : Workflow → WebhookTrigger → Calls → Fields → Dedup → Made × Dedup → Type 0
Step w t c o d x =
    ((is_made x.0 ≡ false) × (x.1 ≡ d))
    ⊎ ((is_duplicate c.checked_at (effective_dedup_window t) (trigger_key w) (object_of w t c o) d
          ≡ false)
        × (x.1
            ≡ remember c.created_at (effective_dedup_window t) (trigger_key w) (object_of w t c o)
                d))

module _ (w : Workflow) (t : WebhookTrigger) (c : Calls) (o : Fields) (d : Dedup) where
  if-Step :
      (b : Bool) (x y : Made × Dedup)
      → (b ≡ true → Step w t c o d x)
      → (b ≡ false → Step w t c o d y)
      → Step w t c o d (if b then x else y)
  if-Step true x y h k = h refl
  if-Step false x y h k = k refl

  create_run-Step :
      (inputs : List (String × String))
      → is_duplicate c.checked_at (effective_dedup_window t) (trigger_key w) (object_of w t c o) d
        ≡ false
      → Step w t c o d (create_run w t c (object_of w t c o) inputs d)
  unfolding create_run
  create_run-Step inputs new = elim (Bool-cases c.create) [
    | inl e ↦ rw (e) (inr (new, refl))
    | inr e ↦ rw (e) (inl (refl, refl))
  ]

  within_limit-Step :
      (inputs : List (String × String)) (active : Option ℕ)
      → is_duplicate c.checked_at (effective_dedup_window t) (trigger_key w) (object_of w t c o) d
        ≡ false
      → Step w t c o d (within_limit w t c (object_of w t c o) inputs active d)
  unfolding within_limit
  within_limit-Step inputs none new = inl (refl, refl)
  within_limit-Step inputs (some n) new =
      elim (Bool-cases (leb (effective_max_concurrent_runs w.max_concurrent_runs) n)) [
        | inl e ↦ rw (e) (inl (refl, refl))
        | inr e ↦ rw (e) (create_run-Step inputs new)
      ]

  after_dedup-Step :
      (inputs : List (String × String))
      → is_duplicate c.checked_at (effective_dedup_window t) (trigger_key w) (object_of w t c o) d
        ≡ false
      → Step w t c o d (after_dedup w t c (object_of w t c o) inputs d)
  unfolding after_dedup
  after_dedup-Step inputs new =
      elim (Bool-cases (ltb 0 (effective_max_concurrent_runs w.max_concurrent_runs))) [
        | inl e ↦ rw (e) (within_limit-Step inputs c.active new)
        | inr e ↦ rw (e) (create_run-Step inputs new)
      ]

  after_filter-Step : Step w t c o d (after_filter w t c o d)
  unfolding after_filter
  after_filter-Step =
      if-Step _ (deduped, d) _ (λ e. inl (refl, refl))
        (λ e. after_dedup-Step (map_inputs (λ x. c.evaluate x o) t.input_mapping) e)

  filter_value-Step : (v : Cel) → Step w t c o d (filter_value w t c o v d)
  unfolding filter_value
  filter_value-Step (cel_error e) = inl (refl, refl)
  filter_value-Step (cel_value b s) = elim (Bool-cases (passes (cel_value b s))) [
    | inl e ↦ rw (e) after_filter-Step
    | inr e ↦ rw (e) (inl (refl, refl))
  ]

  pub after_parse-Step : Step w t c o d (after_parse w t c (some o) d)
  unfolding after_parse
  after_parse-Step = elim (Bool-cases (t.cel_filter == "")) [
    | inl e ↦ rw (e) after_filter-Step
    | inr e ↦ rw (e) (filter_value-Step (c.evaluate t.cel_filter o))
  ]
