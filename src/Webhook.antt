-- ===== src/Webhook.antt =====
-- The webhook endpoint (internal/workflow/controller/webhook_server.go). The API server, HMAC,
-- hexadecimal decoding and the rate limiter are arguments, and so are the bytes of a text. Metrics
-- and the texts of the responses are left out.
pub mod Trigger
pub mod Checked
pub mod Steps
pub mod Duplicates
mod Samples
use Prim.Native.String.{◌++◌ as append}
use ottoflow.Prelude.{
  ℕ, ◌+◌, ◌-◌, ◌*◌, String, Bool, true, false, not, Option, none, some, List, [], ◌∷◌, ◌++◌, ◌==◌,
  ◌&&◌, ◌||◌, if◌then◌else◌, ltb, leb, length, take, drop, lookup,
}
use text.Mathlib.Text.{starts_with}
use ottoflow.Api.Step.{Workflow}
use ottoflow.Callback.Token.{same_codes}
use ottoflow.Webhook.Trigger.{
  WebhookTrigger, SecretRef, RateLimit, Calls, Dedup, Made, invalid_json, count_failed,
  create_failed, filter_error, filtered, deduped, limited, made, CreatedRun, needs_object,
  create_workflow_run_from_webhook,
}

-- strconv.ParseInt of the timestamp: seconds from the epoch, or before it.
pub data Epoch : Type 0 where
  since before : ℕ → Epoch

pub record HookedWorkflow : Type 0 where
  pub workflow : Workflow
  pub triggers : List (Option WebhookTrigger)  -- the Webhook of each trigger

pub record Request : Type 0 where
  pub is_post : Bool
  pub path : String
  pub parts : Option (List String)  -- the path behind /webhooks/, split at its slashes
  pub timestamp : String
  pub content_type : String
  pub signature : String
  pub body : Option (List ℕ)  -- what io.ReadAll of one byte more than the limit returns

pub record Server : Type 0 where
  pub now : ℕ  -- nanoseconds
  pub parse_int : String → Option Epoch
  pub bytes : String → List ℕ
  pub hex_decode : List ℕ → Option (List ℕ)
  pub hmac : List ℕ → List ℕ → List ℕ
  pub get_workflow : String → String → Option HookedWorkflow
  pub get_secret : String → String → Option (List (String × List ℕ))
  pub allow : String → RateLimit → Bool
  pub calls : Calls

pub data Reply : Type 0 where
  method_not_allowed bad_path body_error too_large unsupported_media unauthorized : Reply
  rate_limited internal_error bad_request filtered_ok deduped_ok limit_reached : Reply
  accepted : CreatedRun → Reply

abbrev pub max_body_bytes : ℕ
max_body_bytes = 1048576

-- parseWebhookPath, of the parts
unfoldable pub parse_webhook_path : Option (List String) → Option (String × String)
parse_webhook_path (some (ns ∷ name ∷ [])) =
    if ns == "" || name == "" then none else some (ns, name)
parse_webhook_path _ = none

-- Five minutes.
abbrev pub timestamp_window : ℕ
timestamp_window = 300000000000

abbrev pub second : ℕ
second = 1000000000

abbrev pub in_window : ℕ → Option Epoch → Bool
in_window now none = false
in_window now (some (since s)) =
    not (ltb timestamp_window (s * second - now) || ltb timestamp_window (now - s * second))
in_window now (some (before s)) = not (ltb timestamp_window (now + s * second))

-- verifyTimestamp
unfoldable pub verify_timestamp : Server → String → Bool
verify_timestamp k ts = if ts == "" then false else in_window k.now (k.parse_int ts)

-- "sha256="
abbrev pub signature_prefix : List ℕ
signature_prefix = b's' ∷ b'h' ∷ b'a' ∷ b'2' ∷ b'5' ∷ b'6' ∷ b'=' ∷ []

-- "v1:" + timestamp + ":" + path + ":" + body
unfoldable pub signed_bytes : Server → String → String → List ℕ → List ℕ
signed_bytes k ts path body =
    (b'v' ∷ b'1' ∷ b':' ∷ []) ++ (k.bytes ts ++ (b':' ∷ (k.bytes path ++ (b':' ∷ body))))

abbrev pub matches : List ℕ → Option (List ℕ) → Bool
matches computed none = false
matches computed (some expected) = same_codes computed expected

-- verifyHMAC
unfoldable pub verify_hmac : Server → List ℕ → String → String → List ℕ → String → Bool
unfolding signed_bytes
verify_hmac k secret ts path body sig =
    if not (same_codes (take 7 (k.bytes sig)) signature_prefix)
    then false
    else matches (k.hmac secret (signed_bytes k ts path body)) (k.hex_decode (drop 7 (k.bytes sig)))

unfoldable pub key_name : SecretRef → String
key_name r = if r.key == "" then "hmac-key" else r.key

abbrev pub long_enough : Option (List ℕ) → Option (List ℕ)
long_enough none = none
long_enough (some val) = if ltb (length val) 32 then none else some val

abbrev pub secret_value : SecretRef → Option (List (String × List ℕ)) → Option (List ℕ)
secret_value r none = none
secret_value r (some entries) = long_enough (lookup (key_name r) entries)

-- fetchSecret
unfoldable pub fetch_secret : Server → SecretRef → String → Option (List ℕ)
unfolding key_name
fetch_secret k r ns =
    if not (r.namespace == "") && not (r.namespace == ns)
    then none
    else secret_value r (k.get_secret ns r.name)

-- findWebhookTrigger
abbrev pub find_webhook_trigger : List (Option WebhookTrigger) → Option WebhookTrigger
find_webhook_trigger [] = none
find_webhook_trigger (none ∷ ts) = find_webhook_trigger ts
find_webhook_trigger (some t ∷ ts) = some t

abbrev pub positive_or : ℕ → ℕ → ℕ
positive_or n d = if ltb 0 n then n else d

-- The limits of webhookRateLimiter
unfoldable pub effective_rate_limit : Option RateLimit → RateLimit
effective_rate_limit none = record { requests_per_minute = 60; burst = 10 }
effective_rate_limit (some r) = record {
  requests_per_minute = positive_or r.requests_per_minute 60;
  burst = positive_or r.burst 10;
}

abbrev pub reply_of : Made → Reply
reply_of invalid_json = bad_request
reply_of count_failed = bad_request
reply_of create_failed = internal_error
reply_of (filter_error e) = bad_request
reply_of filtered = filtered_ok
reply_of deduped = deduped_ok
reply_of limited = limit_reached
reply_of (made r) = accepted r

abbrev pub answer : Made × Dedup → Reply × Dedup
answer (m, d) = (reply_of m, d)

-- Steps 9 and 10
unfoldable pub after_auth :
    Server → String → HookedWorkflow → WebhookTrigger → List ℕ → Dedup → Reply × Dedup
after_auth k key w t body d =
    if not (k.allow key (effective_rate_limit t.rate_limit))
    then (rate_limited, d)
    else answer (create_workflow_run_from_webhook w.workflow t k.calls body d)

-- Step 8, by the secret
unfoldable pub after_secret :
    Server
    → Request
    → String
    → HookedWorkflow
    → WebhookTrigger
    → List ℕ
    → Option (List ℕ)
    → Dedup
    → Reply × Dedup
unfolding verify_hmac after_auth
after_secret k r key w t body none d = (unauthorized, d)
after_secret k r key w t body (some secret) d =
    if not (verify_hmac k secret r.timestamp r.path body r.signature)
    then (unauthorized, d)
    else after_auth k key w t body d

-- Steps 7 and 8, by the trigger
unfoldable pub after_trigger :
    Server
    → Request
    → String
    → String
    → HookedWorkflow
    → List ℕ
    → Option WebhookTrigger
    → Dedup
    → Reply × Dedup
unfolding fetch_secret after_secret
after_trigger k r ns key w body none d = (unauthorized, d)
after_trigger k r ns key w body (some t) d =
    if needs_object t && not (starts_with r.content_type "application/json")
    then (unsupported_media, d)
    else after_secret k r key w t body (fetch_secret k t.secret_ref ns) d

-- Steps 5 and 6, by the workflow
unfoldable pub after_workflow :
    Server → Request → String → String → List ℕ → Option HookedWorkflow → Dedup → Reply × Dedup
unfolding after_trigger
after_workflow k r ns key body none d = (unauthorized, d)
after_workflow k r ns key body (some w) d =
    after_trigger k r ns key w body (find_webhook_trigger w.triggers) d

-- Step 4, by the body
unfoldable pub after_body :
    Server → Request → String → String → Option (List ℕ) → Dedup → Reply × Dedup
unfolding after_workflow
after_body k r ns name none d = (body_error, d)
after_body k r ns name (some body) d =
    if ltb max_body_bytes (length body)
    then (too_large, d)
    else after_workflow k r ns (append ns (append "/" name)) body (k.get_workflow ns name) d

-- Step 3, by the parsed path
unfoldable pub after_path : Server → Request → Option (String × String) → Dedup → Reply × Dedup
unfolding verify_timestamp after_body
after_path k r none d = (bad_path, d)
after_path k r (some (ns, name)) d =
    if not (verify_timestamp k r.timestamp)
    then (unauthorized, d)
    else after_body k r ns name r.body d

-- handleWebhook
unfoldable pub handle_webhook : Server → Request → Dedup → Reply × Dedup
unfolding parse_webhook_path after_path
handle_webhook k r d =
    if not r.is_post then (method_not_allowed, d) else after_path k r (parse_webhook_path r.parts) d
