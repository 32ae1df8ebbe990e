-- ===== src/Outcomes/Webhook.antt =====
-- packages/outcomes/src/valuemaxx/outcomes/webhook.py, the rule of schema.py and `coerce_money` of
-- instrument/emitter.py: an inbound webhook verified, parsed, bound and emitted. The digest, the
-- comparison, the JSON parser and the construction of decimals are Python's, hence parameters.
pub mod Verified
use valuemaxx.Base.{
  Bool, true, false, not, ◌&&◌, Option, none, some, List, [], ◌∷◌, String, if◌then◌else◌,
}
use valuemaxx.Base.Int.{ℤ}
use valuemaxx.Base.Result.{Result, ok, err, signature_error, ◌>>=◌}
use valuemaxx.Base.Text.{same_text}
use valuemaxx.Decimal.{Decimal}
use valuemaxx.Core.Enums.{BindingTier, deterministic, candidate}
use valuemaxx.Core.Alias.{EntityKey}
use valuemaxx.Core.Outcome.{OutcomeEvent}
use valuemaxx.Outcomes.Signal.{EmitRequest, emit}
use valuemaxx.Outcomes.Predicate.{Expr, none_literal}
use valuemaxx.Outcomes.Predicate.Interpreter.{Objects, extract}

pub record WebhookSecurity : Type 0 where
  pub signing_secret : String
  pub ingest_key : String

pub record WebhookRequest (B : Type 0) : Type 0 where
  pub source : String
  pub body : B
  pub signature : String
  pub ingest_key : String

-- What the webhook reads of an `OutcomeRule`: `event` is that of its match, and `extract_from` that
-- of its injection block.
pub record OutcomeRule : Type 0 where
  pub name : String
  pub event : Option String
  pub value : Option String
  pub bind : List (String × String)
  pub signal : String
  pub extract_from : Option String

pub data ExtractedVia : Type 0 where
  echo entity_fallback : ExtractedVia

pub record WebhookResult (D : Type 0) : Type 0 where
  pub verified : Bool
  pub source : String
  pub event_type : String
  pub run_id : Option String
  pub extracted_via : Option ExtractedVia
  pub payload : List (String × D)

-- The parts of Python that a webhook uses besides the objects of a predicate. A comparison of digests
-- raises for a text that is not ASCII.
pub record Wire (D B : Type 0) : Type 0 where
  pub hexdigest : String → B → String
  pub compare_digest : String → String → Result Bool
  pub loads_object : B → Option (List (String × D))
  pub parse : String → Option Expr
  pub is_none : D → Bool
  pub as_decimal : D → Option Decimal
  pub is_bool : D → Bool
  pub is_int_or_str : D → Bool
  pub to_decimal : D → Option Decimal
  pub is_float : D → Bool
  pub float_decimal : D → Decimal

module _ {D N B : Type 0} (o : Objects D N) (getattr : D → String → Result D) (w : Wire D B) where
  abbrev pub decimal_or : Option Decimal → Option Decimal → Option Decimal
  decimal_or (some d) otherwise = some d
  decimal_or none otherwise = otherwise

  unfoldable pub coerce_money : D → Option Decimal
  coerce_money d =
      if w.is_none d
      then none
      else decimal_or (w.as_decimal d) (
          if w.is_bool d
          then none
          else if w.is_int_or_str d
          then w.to_decimal d
          else if w.is_float d
          then some (w.float_decimal d)
          else none)

  unfoldable pub verify : WebhookRequest B → WebhookSecurity → Result Bool
  verify request security = do
    sig_ok ← w.compare_digest (w.hexdigest security.signing_secret request.body) request.signature
    key_ok ← w.compare_digest security.ingest_key request.ingest_key
    ok (sig_ok && key_ok)

  -- `payload.get(key)`
  unfoldable pub payload_get : String → List (String × D) → D
  payload_get key [] = o.of_literal none_literal
  payload_get key ((k, v) ∷ payload) =
      let rest = payload_get key payload in if same_text k key then v else rest

  abbrev pub text_or_empty : Option String → String
  text_or_empty none = ""
  text_or_empty (some s) = s

  unfoldable pub event_type : List (String × D) → String
  event_type payload = text_or_empty (o.as_text (payload_get "type" payload))

  -- `{"data": payload.get("data")}`
  abbrev pub namespace : List (String × D) → String → D
  namespace payload x =
      if same_text x "data" then payload_get "data" payload else o.of_literal none_literal

  abbrev pub evaluated : List (String × D) → String → Result D
  evaluated payload text = extract o getattr (w.parse text) (namespace payload)

  -- A text that is not empty is the run id.
  abbrev pub echoed : Option String → Option String
  echoed none = none
  echoed (some s) = if same_text s "" then none else some s

  abbrev pub extract_run_id : Option String → List (String × D) → Result (Option String)
  extract_run_id none payload = ok none
  extract_run_id (some text) payload = do raw ← evaluated payload text; ok (echoed (o.as_text raw))

  abbrev pub value_of : Option String → List (String × D) → Result (Option Decimal)
  value_of none payload = ok (coerce_money (o.of_literal none_literal))
  value_of (some text) payload = do d ← evaluated payload text; ok (coerce_money d)

  unfoldable pub entity_keys_of :
      List (String × String) → List (String × D) → Result (List EntityKey)
  entity_keys_of [] payload = ok []
  entity_keys_of ((key, text) ∷ bind) payload = do
    d ← evaluated payload text
    s ← o.to_text d
    keys ← entity_keys_of bind payload
    ok ((key, s) ∷ keys)

  abbrev pub tier_of : Option String → BindingTier
  tier_of none = candidate
  tier_of (some run_id) = deterministic

  abbrev pub bound_by_of : Option String → String
  bound_by_of none = "t4_entity_pending"
  bound_by_of (some run_id) = "t3_webhook_echo"

  abbrev pub via_of : Option String → ExtractedVia
  via_of none = entity_fallback
  via_of (some run_id) = echo

  -- The request of `_emit`; the correlation id is the echoed run id.
  unfoldable pub request_of :
      OutcomeRule → String → String → List (String × D) → Option String → Result (EmitRequest D)
  request_of rule tenant source payload run_id = do
    value ← value_of rule.value payload
    keys ← entity_keys_of rule.bind payload
    ok (record {
      tenant_id = tenant;
      name = rule.name;
      match_kind = "webhook";
      declared_signal = rule.signal;
      value = value;
      entity_keys = keys;
      correlation_id = run_id;
      source = source;
      run_id = run_id;
      raw = payload;
      binding_tier = some (tier_of run_id);
      bound_by = some (bound_by_of run_id);
    })

  abbrev pub other_event : Option String → String → Bool
  other_event none type = false
  other_event (some declared) type = not (same_text type declared)

  abbrev pub result_of :
      String → List (String × D) → Option String → Option ExtractedVia → WebhookResult D
  result_of source payload run_id via = record {
    verified = true;
    source = source;
    event_type = event_type payload;
    run_id = run_id;
    extracted_via = via;
    payload = payload;
  }

  -- The store of the emitter, with its id and time for this call.
  module _ {S : Type 0} (upsert : String → OutcomeEvent D → S → S × Bool) (id : String)
      (now : ℤ) where
    abbrev pub receive_matching :
        WebhookRequest B
        → OutcomeRule
        → String
        → List (String × D)
        → S
        → Result (WebhookResult D × S)
    receive_matching request rule tenant payload store = do
      run_id ← extract_run_id rule.extract_from payload
      emission ← request_of rule tenant request.source payload run_id
      ok (
        result_of request.source payload run_id (some (via_of run_id)),
        (emit upsert emission id now store).1,
      )

    abbrev pub receive_payload :
        WebhookRequest B
        → OutcomeRule
        → String
        → Option (List (String × D))
        → S
        → Result (WebhookResult D × S)
    receive_payload request rule tenant none store = err signature_error
    receive_payload request rule tenant (some payload) store =
        if other_event rule.event (event_type payload)
        then ok (result_of request.source payload none none, store)
        else receive_matching request rule tenant payload store

    unfoldable pub receive_webhook :
        WebhookRequest B → OutcomeRule → WebhookSecurity → String → S → Result (WebhookResult D × S)
    receive_webhook request rule security tenant store = do
      verified ← verify request security
      if verified
          then receive_payload request rule tenant (w.loads_object request.body) store
          else err signature_error
