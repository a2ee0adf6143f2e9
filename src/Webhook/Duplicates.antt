-- ===== src/Webhook/Duplicates.antt =====
-- One run in a window of the deduplication
-- (internal/workflow/controller/trigger_manager.go: CreateWorkflowRunFromWebhook).
use ottoflow.Prelude.{
  ℕ, ◌-◌, ◌≤◌, ◌<◌, String, true, false, Option, none, some, List, [], ◌∷◌, ◌≡◌, refl, sym, ap, ◌∙◌,
  subst, ◌==◌, ◌&&◌, ◌⊎◌, inl, inr, if◌then◌else◌, ltb, lookup, insert, lookup-insert, arith,
  eq_iff, Bool-cases, String-cases,
}
use ottoflow.Api.Json.{Fields}
use ottoflow.Api.Step.{Workflow}
use ottoflow.Webhook.Trigger.{
  WebhookTrigger, Calls, Dedup, Made, after_parse, entries_of, is_recent,
  create_workflow_run_from_webhook, is_duplicate, remember, effective_dedup_window, trigger_key,
}
use ottoflow.Webhook.Steps.{is_made, parsed, object_of, Step, after_parse-Step}

-- A run of this key was created at this time or later.
abbrev pub Seen : String → String → ℕ → Dedup → Type 0
Seen trigger object time d =
    (later : ℕ) × (lookup object (entries_of (lookup trigger d)) ≡ some later) × (time ≤ later)

lookup-remember :
    (now window : ℕ) (trigger object trigger' object' : String) (d : Dedup)
    → 0 < window
    → lookup object' (entries_of (lookup trigger' (remember now window trigger object d))) ≡ (
        if trigger == trigger' && object == object'
        then some now
        else lookup object' (entries_of (lookup trigger' d)))
unfolding remember
lookup-remember now window trigger object trigger' object' d positive =
    let inner : List (String × ℕ) = insert object now (entries_of (lookup trigger d)) in
    let on : ltb 0 window ≡ true = ground (arith, positive) in
    ap
      (λ b. lookup object' (entries_of (lookup trigger' (if b then insert trigger inner d else d))))
      on
    ∙ (ap (λ es. lookup object' (entries_of es)) (lookup-insert trigger trigger' inner d)
        ∙ elim (String-cases trigger trigger') [
          | inl (e, same) ↦ rw (same) (
              lookup-insert object object' now (entries_of (lookup trigger d))
              ∙ ap
                  (λ z.
                    if object == object'
                    then some now
                    else lookup object' (entries_of (lookup z d)))
                  e)
          | inr (e, other) ↦ rw (other) refl
        ])

remember-off :
    (now window : ℕ) (trigger object : String) (d : Dedup)
    → ltb 0 window ≡ false
    → remember now window trigger object d ≡ d
unfolding remember
remember-off now window trigger object d off =
    ap (λ b. if b then insert trigger (insert object now (entries_of (lookup trigger d))) d else d)
      off

-- What is remembered later keeps it.
remember-Seen :
    (now window : ℕ) (trigger object trigger' object' : String) (time : ℕ) (d : Dedup)
    → time ≤ now
    → Seen trigger' object' time d
    → Seen trigger' object' time (remember now window trigger object d)
remember-Seen now window trigger object trigger' object' time d newer (later, found, le) =
    elim (Bool-cases (ltb 0 window)) [
      | inl on ↦ elim (Bool-cases (trigger == trigger' && object == object')) [
        | inl same ↦ (
          now,
          lookup-remember now window trigger object trigger' object' d (ground (arith, on))
              ∙ ap (λ b. if b then some now else lookup object' (entries_of (lookup trigger' d)))
                  same,
          newer,
        )
        | inr other ↦ (
          later,
          lookup-remember now window trigger object trigger' object' d (ground (arith, on))
              ∙ (ap (λ b. if b then some now else lookup object' (entries_of (lookup trigger' d)))
                    other
                  ∙ found),
          le,
        )
      ]
      | inr off ↦
          subst (Seen trigger' object' time) (sym (remember-off now window trigger object d off))
            (later, found, le)
    ]

-- One request.
pub record Hook : Type 0 where
  pub workflow : Workflow
  pub trigger : WebhookTrigger
  pub calls : Calls
  pub body : List ℕ

-- The requests that are handled one after the other.
abbrev pub handled : List Hook → Dedup → Dedup
handled [] d = d
handled (h ∷ hs) d =
    handled hs (create_workflow_run_from_webhook h.workflow h.trigger h.calls h.body d).1

-- Each creates its run, if it does, no earlier than this.
abbrev pub AreLater : ℕ → List Hook → Type 0
AreLater time [] = Unit {0}
AreLater time (h ∷ hs) = (time ≤ h.calls.created_at) × AreLater time hs

abbrev pub made_of : Hook → Dedup → Made × Dedup
made_of h d = create_workflow_run_from_webhook h.workflow h.trigger h.calls h.body d

-- The object of the request, where there is one, and its key.
abbrev pub HasKey : Hook → String → Type 0
HasKey h object =
    (o : Fields) × (parsed h.trigger h.calls h.body ≡ some o)
    × (object_of h.workflow h.trigger h.calls o ≡ object)

made_of-Step :
    (h : Hook) (d : Dedup) (o : Option Fields)
    → parsed h.trigger h.calls h.body ≡ o
    → ((is_made (made_of h d).0 ≡ false) × ((made_of h d).1 ≡ d))
      ⊎ ((f : Fields) × (o ≡ some f) × Step h.workflow h.trigger h.calls f d (made_of h d))
unfolding create_workflow_run_from_webhook
made_of-Step h d none e = inl (
  ap (λ x. is_made (after_parse h.workflow h.trigger h.calls x d).0) e,
  ap (λ x. (after_parse h.workflow h.trigger h.calls x d).1) e,
)
made_of-Step h d (some f) e = inr (
  f,
  refl,
  subst (λ x. Step h.workflow h.trigger h.calls f d (after_parse h.workflow h.trigger h.calls x d))
      (sym e) (after_parse-Step h.workflow h.trigger h.calls f d),
)

made_of-Seen :
    (h : Hook) (d : Dedup) (trigger object : String) (time : ℕ)
    → time ≤ h.calls.created_at
    → Seen trigger object time d
    → Seen trigger object time (made_of h d).1
made_of-Seen h d trigger object time newer seen =
    elim (made_of-Step h d (parsed h.trigger h.calls h.body) refl) [
      | inl x ↦ subst (Seen trigger object time) (sym x.1) seen
      | inr y ↦ elim y.2 [
        | inl x ↦ subst (Seen trigger object time) (sym x.1) seen
        | inr x ↦
            subst (Seen trigger object time) (sym x.1)
              (remember-Seen h.calls.created_at _ _ _ trigger object time d newer seen)
      ]
    ]

handled-Seen :
    (hs : List Hook) (d : Dedup) (trigger object : String) (time : ℕ)
    → AreLater time hs
    → Seen trigger object time d
    → Seen trigger object time (handled hs d)
handled-Seen [] d trigger object time newer seen = seen
handled-Seen (h ∷ hs) d trigger object time newer seen =
    handled-Seen hs (made_of h d).1 trigger object time newer.1
      (made_of-Seen h d trigger object time newer.0 seen)

key_of_read :
    (h : Hook) (o f : Fields) (object : String)
    → Path (Option Fields) (some o) (some f)
    → object_of h.workflow h.trigger h.calls o ≡ object
    → object_of h.workflow h.trigger h.calls f ≡ object
key_of_read h o f object e keyed =
    sym (ap (λ m. elim m [ none ↦ object | some x ↦ object_of h.workflow h.trigger h.calls x ]) e)
    ∙ keyed

remembered-Seen :
    (now window : ℕ) (trigger object object' : String) (d : Dedup)
    → 0 < window
    → object ≡ object'
    → Seen trigger object' now (remember now window trigger object d)
remembered-Seen now window trigger object object' d positive e =
    let both : (trigger == trigger && object == object') ≡ true =
      ground (arith, e, eq_iff trigger trigger, eq_iff object object') in
    (
      now,
      lookup-remember now window trigger object trigger object' d positive
          ∙ ap (λ b. if b then some now else lookup object' (entries_of (lookup trigger d))) both,
      omega arith,
    )

Seen-is_duplicate :
    (now window : ℕ) (trigger object : String) (time : ℕ) (d : Dedup)
    → now - time < window
    → Seen trigger object time d
    → is_duplicate now window trigger object d ≡ true
unfolding is_duplicate
Seen-is_duplicate now window trigger object time d recent (later, found, le) =
    ap (λ m. ltb 0 window && is_recent now window m) found ∙ ground (arith, recent, le)

-- A run that is made leaves its key behind.
made_of-Remembered :
    (h : Hook) (d : Dedup) (object : String)
    → HasKey h object
    → 0 < effective_dedup_window h.trigger
    → is_made (made_of h d).0 ≡ true
    → Seen (trigger_key h.workflow) object h.calls.created_at (made_of h d).1
made_of-Remembered h d object (o, reads, keyed) positive yes_made =
    elim (made_of-Step h d (some o) reads) [
      | inl x ↦ absurd (cc (x.0, yes_made))
      | inr y ↦ elim y.2 [
        | inl x ↦ absurd (cc (x.0, yes_made))
        | inr x ↦ subst (Seen (trigger_key h.workflow) object h.calls.created_at) (sym x.1) (
            remembered-Seen h.calls.created_at (effective_dedup_window h.trigger)
              (trigger_key h.workflow) _ object d positive (key_of_read h o y.0 object y.1 keyed))
      ]
    ]

-- While a run of the key is recent, none is made for it.
made_of-blocked :
    (h : Hook) (d : Dedup) (object : String) (time : ℕ)
    → HasKey h object
    → h.calls.checked_at - time < effective_dedup_window h.trigger
    → Seen (trigger_key h.workflow) object time d
    → is_made (made_of h d).0 ≡ false
made_of-blocked h d object time (o, reads, keyed) recent (later, found, le) =
    elim (made_of-Step h d (some o) reads) [
      | inl x ↦ x.0
      | inr y ↦ elim y.2 [
        | inl x ↦ x.0
        | inr x ↦ absurd (
            cc (
              x.0,
              ap
                    (λ z.
                      is_duplicate h.calls.checked_at (effective_dedup_window h.trigger)
                        (trigger_key h.workflow) z d)
                    (key_of_read h o y.0 object y.1 keyed)
                  ∙ Seen-is_duplicate h.calls.checked_at (effective_dedup_window h.trigger)
                      (trigger_key h.workflow) object time d recent (later, found, le),
            ))
      ]
    ]

-- When a request has created a run of a trigger with a window for the deduplication, then whatever
-- requests are handled in between, in the order of the clock, another request for the same
-- workflow and key that comes within its window creates none.
pub create_workflow_run_from_webhook-once :
    (first again : Hook) (between : List Hook) (d : Dedup) (object : String)
    → HasKey first object
    → HasKey again object
    → again.workflow ≡ first.workflow
    → 0 < effective_dedup_window first.trigger
    → is_made (made_of first d).0 ≡ true
    → AreLater first.calls.created_at between
    → again.calls.checked_at - first.calls.created_at < effective_dedup_window again.trigger
    → is_made (made_of again (handled between (made_of first d).1)).0 ≡ false
create_workflow_run_from_webhook-once first again between d object key key' same positive yes_made
      newer recent =
    made_of-blocked again (handled between (made_of first d).1) object first.calls.created_at key'
      recent
      (subst
        (λ w.
          Seen (trigger_key w) object first.calls.created_at (handled between (made_of first d).1))
        (sym same)
        (handled-Seen between (made_of first d).1 (trigger_key first.workflow) object
          first.calls.created_at newer (made_of-Remembered first d object key positive yes_made)))
