-- ===== src/Webhook/Checked.antt =====
-- What the endpoint has checked when it creates a run
-- (internal/workflow/controller/webhook_server.go, trigger_manager.go).
use Prim.Native.String.{◌++◌ as append}
use ottoflow.Prelude.{
  ℕ, ◌≤◌, String, Bool, true, false, not, Option, none, some, List, ◌≡◌, refl, sym, subst, ◌==◌,
  ◌&&◌, ◌⊎◌, inl, inr, if◌then◌else◌, ltb, length, lookup, arith, Bool-cases,
}
use text.Mathlib.Text.{starts_with}
use ottoflow.Webhook.{
  HookedWorkflow, Request, Server, Reply, method_not_allowed, bad_path, body_error, too_large,
  unsupported_media, unauthorized, accepted, max_body_bytes, parse_webhook_path, verify_timestamp,
  verify_hmac, fetch_secret, secret_value, long_enough, key_name, find_webhook_trigger,
  after_secret, after_trigger, after_workflow, after_body, after_path, handle_webhook,
}
use ottoflow.Webhook.Trigger.{WebhookTrigger, SecretRef, Dedup, needs_object}

abbrev pub accepts : Reply → Bool
accepts (accepted r) = true
accepts _ = false

-- A secret of at least 32 bytes, in the namespace of the workflow.
abbrev pub IsKey : Server → SecretRef → String → List ℕ → Type 0
IsKey k r ns val =
    (32 ≤ length val)
    × ((entries : List (String × List ℕ)) × (k.get_secret ns r.name ≡ some entries)
        × (lookup (key_name r) entries ≡ some val))

-- What holds when a run is created for a request to the workflow of this name.
pub record Checked (k : Server) (r : Request) (ns name : String) : Type 0 where
  pub is_post : r.is_post ≡ true
  pub addressed : parse_webhook_path r.parts ≡ some (ns, name)
  pub fresh : verify_timestamp k r.timestamp ≡ true
  pub body : List ℕ
  pub is_body : r.body ≡ some body
  pub small : length body ≤ max_body_bytes
  pub workflow : HookedWorkflow
  pub exists : k.get_workflow ns name ≡ some workflow
  pub trigger : WebhookTrigger
  pub hooked : find_webhook_trigger workflow.triggers ≡ some trigger
  pub secret : List ℕ
  pub is_key : IsKey k trigger.secret_ref ns secret
  pub signed : verify_hmac k secret r.timestamp r.path body r.signature ≡ true

long_enough-le :
    (o : Option (List ℕ)) (val : List ℕ)
    → long_enough o ≡ some val
    → (o ≡ some val) × (32 ≤ length val)
long_enough-le none val h = absurd (ground (arith, h))
long_enough-le (some v) val h = elim (Bool-cases (ltb (length v) 32)) [
  | inl e ↦ absurd (ground (arith, h, e))
  | inr e ↦
      let same : Path (Option (List ℕ)) (some v) (some val) = ground (arith, h, e) in
      (same, ground (arith, h, e))
]

secret_value-IsKey :
    (k : Server) (r : SecretRef) (ns : String) (o : Option (List (String × List ℕ))) (val : List ℕ)
    → k.get_secret ns r.name ≡ o
    → secret_value r o ≡ some val
    → IsKey k r ns val
secret_value-IsKey k r ns none val e h = absurd (ground (arith, h))
secret_value-IsKey k r ns (some entries) val e h =
    let (found, long) = long_enough-le (lookup (key_name r) entries) val h in
    (long, (entries, e, found))

fetch_secret-IsKey :
    (k : Server) (r : SecretRef) (ns : String) (val : List ℕ)
    → fetch_secret k r ns ≡ some val
    → IsKey k r ns val
unfolding fetch_secret
fetch_secret-IsKey k r ns val h =
    elim (Bool-cases (not (r.namespace == "") && not (r.namespace == ns))) [
      | inl e ↦ absurd (ground (arith, h, e))
      | inr e ↦ secret_value-IsKey k r ns (k.get_secret ns r.name) val refl (
          subst (λ b. (if b then none else secret_value r (k.get_secret ns r.name)) ≡ some val) e h)
    ]

not-false : (b : Bool) → not b ≡ false → b ≡ true
not-false b h = ground (arith, h)

-- The reply to a request without a valid signature: it depends on the request and the clock only.
abbrev pub refuse_body : Option (List ℕ) → Reply
refuse_body none = body_error
refuse_body (some body) = if ltb max_body_bytes (length body) then too_large else unauthorized

abbrev pub refuse_path : Server → Request → Option (String × String) → Reply
refuse_path k r none = bad_path
refuse_path k r (some path) =
    if not (verify_timestamp k r.timestamp) then unauthorized else refuse_body r.body

abbrev pub refusal : Server → Request → Reply
refusal k r =
    if not r.is_post then method_not_allowed else refuse_path k r (parse_webhook_path r.parts)

abbrev pub is_json : Request → Bool
is_json r = starts_with r.content_type "application/json"

-- A reply is the refusal, or that of a body that is not JSON, or the request has been checked.
abbrev pub Gate : Request → Dedup → Reply → Type 0 → Reply × Dedup → Type 0
Gate r d refused Good x =
    (x ≡ (refused, d)) ⊎ ((x ≡ (unsupported_media, d)) × (is_json r ≡ false)) ⊎ Good

module _ (k : Server) (r : Request) (ns name : String) (d : Dedup) where
  -- The trigger, its key, and the signature.
  Signed : List ℕ → WebhookTrigger → Type 0
  Signed body t =
      (secret : List ℕ) × IsKey k t.secret_ref ns secret
      × (verify_hmac k secret r.timestamp r.path body r.signature ≡ true)

  after_secret-Gate :
      (key : String) (w : HookedWorkflow) (t : WebhookTrigger) (body : List ℕ) (o : Option (List ℕ))
      → fetch_secret k t.secret_ref ns ≡ o
      → Gate r d unauthorized (Signed body t) (after_secret k r key w t body o d)
  unfolding after_secret Signed
  after_secret-Gate key w t body none e = inl refl
  after_secret-Gate key w t body (some secret) e =
      elim (Bool-cases (verify_hmac k secret r.timestamp r.path body r.signature)) [
        | inl good ↦ inr (inr (secret, fetch_secret-IsKey k t.secret_ref ns secret e, good))
        | inr bad ↦ inl (rw (bad) refl)
      ]

  after_trigger-Gate :
      (key : String) (w : HookedWorkflow) (body : List ℕ) (o : Option WebhookTrigger)
      → Gate r d unauthorized
          ((t : WebhookTrigger) × (o ≡ some t) × Signed body t)
          (after_trigger k r ns key w body o d)
  unfolding after_trigger
  after_trigger-Gate key w body none = inl refl
  after_trigger-Gate key w body (some t) = elim (Bool-cases (needs_object t && not (is_json r))) [
    | inl e ↦ inr (inl (rw (e) refl, ground (arith, e)))
    | inr e ↦ rw (e) (elim (after_secret-Gate key w t body (fetch_secret k t.secret_ref ns) refl) [
      | inl x ↦ inl x
      | inr y ↦ elim y [ inl x ↦ inr (inl x) | inr good ↦ inr (inr (t, refl, good)) ]
    ])
  ]

  -- The request up to its body.
  Addressed : Type 0
  Addressed =
      (r.is_post ≡ true)
      × (parse_webhook_path r.parts ≡ some (ns, name))
      × (verify_timestamp k r.timestamp ≡ true)

  after_workflow-Gate :
      (key : String) (body : List ℕ)
      → Addressed
      → r.body ≡ some body
      → length body ≤ max_body_bytes
      → (o : Option HookedWorkflow) → k.get_workflow ns name ≡ o
      → Gate r d unauthorized (Checked k r ns name) (after_workflow k r ns key body o d)
  unfolding after_workflow Addressed Signed
  after_workflow-Gate key body known is_body small none e = inl refl
  after_workflow-Gate key body (post, path, time) is_body small (some w) e =
      elim (after_trigger-Gate key w body (find_webhook_trigger w.triggers)) [
        | inl x ↦ inl x
        | inr y ↦ elim y [
          | inl x ↦ inr (inl x)
          | inr good ↦ inr (
              inr (record {
                is_post = post;
                addressed = path;
                fresh = time;
                body = body;
                is_body = is_body;
                small = small;
                workflow = w;
                exists = e;
                trigger = good.0;
                hooked = good.1;
                secret = good.2.0;
                is_key = good.2.1;
                signed = good.2.2;
              }))
        ]
      ]

  after_body-Gate :
      Addressed
      → (o : Option (List ℕ)) → r.body ≡ o
      → Gate r d (refuse_body o) (Checked k r ns name) (after_body k r ns name o d)
  unfolding after_body
  after_body-Gate known none e = inl refl
  after_body-Gate known (some body) e = elim (Bool-cases (ltb max_body_bytes (length body))) [
    | inl large ↦ rw (large) (inl refl)
    | inr small ↦ rw (small) (
        after_workflow-Gate (append ns (append "/" name)) body known e (ground (arith, small))
          (k.get_workflow ns name) refl)
  ]

abbrev pub SomeChecked : Server → Request → Type 0
SomeChecked k r = (ns : String) × ((name : String) × Checked k r ns name)

after_path-Gate :
    (k : Server) (r : Request) (d : Dedup) (o : Option (String × String))
    → r.is_post ≡ true
    → parse_webhook_path r.parts ≡ o
    → Gate r d (refuse_path k r o) (SomeChecked k r) (after_path k r o d)
unfolding after_path Addressed
after_path-Gate k r d none post e = inl refl
after_path-Gate k r d (some (ns, name)) post e =
    elim (Bool-cases (verify_timestamp k r.timestamp)) [
      | inl time ↦ rw (time) (elim (after_body-Gate k r ns name d (post, e, time) r.body refl) [
        | inl x ↦ inl x
        | inr y ↦ elim y [ inl x ↦ inr (inl x) | inr good ↦ inr (inr (ns, (name, good))) ]
      ])
      | inr stale ↦ rw (stale) (inl refl)
    ]

-- Every request is answered in one of three ways. Either it was a POST to the path of a workflow that
-- has a webhook trigger; its timestamp is at most five minutes away from the clock; its body is
-- there and has at most 1 MiB; and its signature is the HMAC of the version, the timestamp, the path
-- and the body, under a key of at least 32 bytes of the Secret that the trigger names, read in the
-- workflow's namespace. Or no entry for the deduplication is written, and the answer, which is none
-- of success, is determined by the request and the clock: it does not tell whether the workflow, its
-- trigger or its Secret exist. Or the content type is not JSON, and the answer says so.
pub handle_webhook-Gate :
    (k : Server) (r : Request) (d : Dedup)
    → Gate r d (refusal k r) (SomeChecked k r) (handle_webhook k r d)
unfolding handle_webhook
handle_webhook-Gate k r d = elim (Bool-cases r.is_post) [
  | inl post ↦
      subst
        (λ b.
          Gate r d
            (if not b then method_not_allowed else refuse_path k r (parse_webhook_path r.parts))
            (SomeChecked k r)
            (if not b
              then (method_not_allowed, d)
              else after_path k r (parse_webhook_path r.parts) d))
        (sym post) (after_path-Gate k r d (parse_webhook_path r.parts) post refl)
  | inr other ↦
      subst
        (λ b.
          Gate r d
            (if not b then method_not_allowed else refuse_path k r (parse_webhook_path r.parts))
            (SomeChecked k r)
            (if not b
              then (method_not_allowed, d)
              else after_path k r (parse_webhook_path r.parts) d))
        (sym other) (inl refl)
]
