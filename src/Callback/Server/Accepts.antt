-- ===== src/Callback/Server/Accepts.antt =====
-- What the endpoint's handler has checked when it writes to a run (callback_server.go).
use ottoflow.Prelude.{
  String, true, false, Option, none, some, List, [], ◌∷◌, ◌≡◌, refl, inl, inr, arith, eq_iff,
  Bool-cases, ◌≤◌, ◌==◌, if◌then◌else◌,
}
use ottoflow.Api.Json.{Fields}
use ottoflow.Api.Run.{is_terminal, CallbackState, WorkflowRun}
use ottoflow.Callback.Token.{validate_token}
use ottoflow.Callback.Server.{
  Fetch, missing, failed, found, PatchAnswer, applied, conflict, refused, Attempt, Reply, Request,
  Server, patched, Recorded, now_terminal, already, not_recorded, recorded, has_outputs,
  record_once, record_outputs, as_map, validate_callback_schema, handle_callback, refusal,
  after_record, after_marshal, after_payload, after_body, after_refusal, after_fetch, route,
  after_route, or_braces,
}

-- An attempt whose read found a run that was not terminal and had no outputs, and whose patch was
-- applied to the stored run.
pub data Recording (cb : CallbackState) (out : String) (w : WorkflowRun)
    : List Attempt → Type 0 where
  here :
      (a : Attempt) (rest : List Attempt) (fresh stored : WorkflowRun)
      → a.fetch ≡ found fresh
      → a.patch ≡ applied stored
      → is_terminal fresh.status.phase ≡ false
      → has_outputs fresh.status.pending_callback ≡ false
      → w ≡ patched stored cb out
      → Recording cb out w (a ∷ rest)
  later :
      (a : Attempt) (rest : List Attempt) → Recording cb out w rest → Recording cb out w (a ∷ rest)

from_recorded : WorkflowRun → Recorded → WorkflowRun
from_recorded d (recorded w) = w
from_recorded d _ = d

module _ (cb : CallbackState) (out : String) (w : WorkflowRun) where
  record_once-Recording :
      (a : Attempt) (rest : List Attempt) (f : Fetch) (p : PatchAnswer) (r : Recorded)
      → a.fetch ≡ f
      → a.patch ≡ p
      → (r ≡ recorded w → Recording cb out w rest)
      → record_once cb out f p r ≡ recorded w
      → Recording cb out w (a ∷ rest)
  unfolding record_once from_recorded
  record_once-Recording a rest missing p r ef ep more h = ground (arith, h)
  record_once-Recording a rest failed p r ef ep more h = ground (arith, h)
  record_once-Recording a rest (found fresh) (applied stored) r ef ep more h =
      elim (Bool-cases (is_terminal fresh.status.phase)) [
        | inl t ↦ ground (arith, h, t)
        | inr t ↦ elim (Bool-cases (has_outputs fresh.status.pending_callback)) [
          | inl o ↦ ground (arith, h, t, o)
          | inr o ↦ here a rest fresh stored ef ep t o (ground (arith, h, t, o))
        ]
      ]
  record_once-Recording a rest (found fresh) conflict r ef ep more h =
      later a rest (more (ground (arith, h)))
  record_once-Recording a rest (found fresh) refused r ef ep more h = ground (arith, h)

  record_outputs-Recording :
      (as' : List Attempt) → record_outputs cb out as' ≡ recorded w → Recording cb out w as'
  unfolding record_outputs
  record_outputs-Recording [] h = ground (arith, h)
  record_outputs-Recording (a ∷ rest) h =
      record_once-Recording a rest a.fetch a.patch (record_outputs cb out rest) refl refl
        (record_outputs-Recording rest) h

-- The text that stands for what was read of a request's body: the body, or braces for an empty one.
abbrev pub IsBody : Option String → String → Type 0
IsBody o body = (sent : String) × (o ≡ some sent) × (body ≡ (if sent == "" then "{}" else sent))

-- What the checks that the handler makes before it writes come to.
pub record Checked (cs : Server) (r : Request) (w : WorkflowRun) : Type 0 where
  pub namespace : String
  pub name : String
  pub token : String
  pub run : WorkflowRun
  pub callback : CallbackState
  pub payload : Fields
  pub body : String
  pub out : String
  pub posted : r.is_post ≡ true
  pub sent : IsBody r.body body
  pub routed : route cs r.parts ≡ some (namespace, name, token)
  pub well_formed : validate_token (cs.codes token) ≡ true
  pub fetched : cs.first namespace name ≡ found run
  pub armed : run.status.pending_callback ≡ some callback
  pub same_hash : callback.token_hash ≡ cs.hash_token token
  pub live : is_terminal run.status.phase ≡ false
  pub in_time : cs.now ≤ callback.expires_at
  pub unused : callback.outputs ≡ ""
  pub parsed : as_map (cs.unmarshal body) ≡ some payload
  pub fits : validate_callback_schema cs callback.step_name payload ≡ true
  pub written_as : cs.marshal body ≡ some out
  pub recording : Recording callback (cs.merge out) w cs.attempts

module _ (cs : Server) (r : Request) (w : WorkflowRun) where
  refusal-none :
      (cb : CallbackState) (wr : WorkflowRun) (token : String)
      → refusal cs cb wr token ≡ none
      → (cb.token_hash ≡ cs.hash_token token)
        × (is_terminal wr.status.phase ≡ false)
        × (cs.now ≤ cb.expires_at)
        × (cb.outputs ≡ "")
  unfolding refusal
  refusal-none cb wr token h =
      ground (arith, h, eq_iff cb.token_hash (cs.hash_token token), eq_iff cb.outputs "")

  -- A refusal writes nothing.
  refusal-writes :
      (cb : CallbackState) (wr : WorkflowRun) (token : String) (x : Reply)
      → refusal cs cb wr token ≡ some x
      → ¬ (x.written ≡ some w)
  unfolding refusal
  refusal-writes cb wr token x e h = ground (arith, e, h)

  after_record-written :
      (x : Recorded) (cb : CallbackState) (wr : WorkflowRun)
      → (after_record cs x cb wr).written ≡ some w
      → x ≡ recorded w
  unfolding after_record
  after_record-written now_terminal cb wr h = ground (arith, h)
  after_record-written already cb wr h = ground (arith, h)
  after_record-written not_recorded cb wr h = ground (arith, h)
  after_record-written (recorded v) cb wr h = ground (arith, h)

  after_marshal-written :
      (o : Option String) (cb : CallbackState) (wr : WorkflowRun)
      → (after_marshal cs o cb wr).written ≡ some w
      → (out : String) × (o ≡ some out) × Recording cb (cs.merge out) w cs.attempts
  unfolding after_marshal
  after_marshal-written none cb wr h = ground (arith, h)
  after_marshal-written (some out) cb wr h = (
    out,
    refl,
    record_outputs-Recording cb (cs.merge out) w cs.attempts
        (after_record-written (record_outputs cb (cs.merge out) cs.attempts) cb wr h),
  )

  -- What is checked of the body.
  Accepts : Option Fields → String → CallbackState → Type 0
  Accepts o body cb =
      (payload : Fields) × (out : String) × (o ≡ some payload)
      × (validate_callback_schema cs cb.step_name payload ≡ true)
      × (cs.marshal body ≡ some out)
      × Recording cb (cs.merge out) w cs.attempts

  after_payload-written :
      (o : Option Fields) (body : String) (cb : CallbackState) (wr : WorkflowRun)
      → (after_payload cs o body cb wr).written ≡ some w
      → Accepts o body cb
  unfolding after_payload Accepts
  after_payload-written none body cb wr h = ground (arith, h)
  after_payload-written (some payload) body cb wr h =
      elim (Bool-cases (validate_callback_schema cs cb.step_name payload)) [
        | inr f ↦ ground (arith, h, f)
        | inl f ↦
            let (out, e, rec) =
              after_marshal-written (cs.marshal body) cb wr (ground (arith, h, f)) in
            (payload, out, refl, f, e, rec)
      ]

  after_body-written :
      (o : Option String) (cb : CallbackState) (wr : WorkflowRun)
      → (after_body cs o cb wr).written ≡ some w
      → (body : String) × IsBody o body × Accepts (as_map (cs.unmarshal body)) body cb
  unfolding after_body or_braces
  after_body-written none cb wr h = ground (arith, h)
  after_body-written (some b) cb wr h = (
    or_braces cs b,
    (b, refl, refl),
    after_payload-written (as_map (cs.unmarshal (or_braces cs b))) (or_braces cs b) cb wr h,
  )

  after_refusal-written :
      (o : Option Reply) (b : Option String) (cb : CallbackState) (wr : WorkflowRun)
      (token : String)
      → refusal cs cb wr token ≡ o
      → (after_refusal cs o b cb wr).written ≡ some w
      → (refusal cs cb wr token ≡ none)
        × ((body : String) × IsBody b body × Accepts (as_map (cs.unmarshal body)) body cb)
  unfolding after_refusal
  after_refusal-written none b cb wr token e h = (e, after_body-written b cb wr h)
  after_refusal-written (some x) b cb wr token e h = absurd (refusal-writes cb wr token x e h)

module _ (cs : Server) (r : Request) (w : WorkflowRun) (post : r.is_post ≡ true) where
  -- The fetched run, once its pending callback is known.
  after_pending :
      (ns name token : String) (wr : WorkflowRun) (o : Option CallbackState)
      → route cs r.parts ≡ some (ns, name, token)
      → validate_token (cs.codes token) ≡ true
      → cs.first ns name ≡ found wr
      → wr.status.pending_callback ≡ o
      → (after_fetch cs (found wr) token r.body).written ≡ some w
      → Checked cs r w
  unfolding after_fetch Accepts
  after_pending ns name token wr none er et ef ep h = ground (arith, ep, h)
  after_pending ns name token wr (some cb) er et ef ep h =
      let (admitted, (body, sent, (payload, out, pp, fit, mm, rec))) =
        after_refusal-written cs r w (refusal cs cb wr token) r.body cb wr token refl
          (ground (arith, ep, h)) in
      let (hash, live, time, fresh) = refusal-none cs r w cb wr token admitted in
      record {
        namespace = ns;
        name = name;
        token = token;
        run = wr;
        callback = cb;
        payload = payload;
        body = body;
        out = out;
        posted = post;
        sent = sent;
        routed = er;
        well_formed = et;
        fetched = ef;
        armed = ep;
        same_hash = hash;
        live = live;
        in_time = time;
        unused = fresh;
        parsed = pp;
        fits = fit;
        written_as = mm;
        recording = rec;
      }

  after_fetch-written :
      (ns name token : String) (f : Fetch)
      → route cs r.parts ≡ some (ns, name, token)
      → validate_token (cs.codes token) ≡ true
      → cs.first ns name ≡ f
      → (after_fetch cs f token r.body).written ≡ some w
      → Checked cs r w
  unfolding after_fetch
  after_fetch-written ns name token missing er et ef h = ground (arith, h)
  after_fetch-written ns name token failed er et ef h = ground (arith, h)
  after_fetch-written ns name token (found wr) er et ef h =
      after_pending ns name token wr wr.status.pending_callback er et ef refl h

  after_route-written :
      (o : Option (String × String × String))
      → route cs r.parts ≡ o
      → (after_route cs o r.body).written ≡ some w
      → Checked cs r w
  unfolding after_route
  after_route-written none er h = ground (arith, h)
  after_route-written (some (ns, name, token)) er h =
      elim (Bool-cases (validate_token (cs.codes token))) [
        | inr f ↦ ground (arith, h, f)
        | inl f ↦
            after_fetch-written ns name token (cs.first ns name) er f refl (ground (arith, h, f))
      ]

module _ (cs : Server) (r : Request) (w : WorkflowRun) where
  -- The handler writes to a run only what it has checked: the request is a POST whose path has a
  -- well-formed token, and the token's hash is that of the run's pending callback; the run is not
  -- terminal, the callback is in time and has no outputs, at the first read and, terminal phase and
  -- outputs, again before the patch; the request's body, or {} where it is empty, is a JSON object,
  -- or null, that fits the step's schema; and the write is the patch that adds this body, as a merge
  -- patch leaves it, as the callback's outputs to the stored run.
  pub handle_callback-Checked : (handle_callback cs r).written ≡ some w → Checked cs r w
  unfolding handle_callback
  handle_callback-Checked h = elim (Bool-cases r.is_post) [
    | inl p ↦ after_route-written cs r w p (route cs r.parts) refl (ground (arith, h, p))
    | inr p ↦ ground (arith, h, p)
  ]
