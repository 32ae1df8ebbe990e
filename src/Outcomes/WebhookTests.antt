-- ===== src/Outcomes/WebhookTests.antt =====
-- A webhook whose run id comes back, and the theorem at it.
use valuemaxx.Base.{Bool, true, false, ◌≡◌, refl, Option, none, some, List, [], ◌∷◌, String, ℕ}
use valuemaxx.Base.Int.{pos}
use valuemaxx.Base.Result.{Result, ok, err, type_error, signature_error}
use valuemaxx.Base.Text.{same_text, begins_with, one_of}
use valuemaxx.Core.Outcome.{OutcomeEvent}
use valuemaxx.Outcomes.Signal.{emit, build, map_signal, parse_declared, signal_of}
use valuemaxx.Outcomes.Predicate.{is_dunder, valid, Literal, str_literal, name, attribute}
use valuemaxx.Outcomes.Predicate.Interpreter.{Objects, extract, eval, read, read_name}
use valuemaxx.Outcomes.Webhook.{
  event_type, payload_get, request_of, entity_keys_of, WebhookSecurity, WebhookRequest, OutcomeRule,
  echo, WebhookResult, Wire, verify, receive_webhook,
}
use valuemaxx.Outcomes.Webhook.Verified.{IsVerified, Received, receive_webhook-Received}

-- Objects that are `None` or a text.
abbrev literal_text : Literal → Option String
literal_text (str_literal s) = some s
literal_text _ = none

abbrev texts : Objects (Option String) ℕ
texts = record {
  of_literal = literal_text;
  of_list = λ ds. none;
  of_text = λ s. some s;
  to_bool = λ d. ok true;
  to_text = λ d. ok "None";
  is_mapping = λ d. false;
  mapping_get = λ d key. ok none;
  as_number = λ d. none;
  as_text = λ d. d;
  members = λ d. none;
  is_member = λ d ds. ok false;
  equal = λ d e. ok none;
  unequal = λ d e. ok none;
  greater = λ m n. false;
  arith = λ op m n. err type_error;
  negative = λ n. err type_error;
  positive = λ n. err type_error;
}

-- `data.run_id` reads the run id; every digest is the body.
abbrev wire : Wire (Option String) String
wire = record {
  hexdigest = λ secret body. body;
  compare_digest = λ s t. ok (same_text s t);
  loads_object = λ body. some (("type", some "paid") ∷ []);
  parse = λ text. some (attribute (name "data") text);
  is_none = λ d. true;
  as_decimal = λ d. none;
  is_bool = λ d. false;
  is_int_or_str = λ d. false;
  to_decimal = λ d. none;
  is_float = λ d. false;
  float_decimal = λ d. record { coef = pos 0; exp = pos 0 };
}

abbrev attributes : Option String → String → Result (Option String)
attributes d key = ok (some "run 7")

abbrev append_tenant : String → OutcomeEvent (Option String) → List String → List String × Bool
append_tenant tenant event store = (tenant ∷ store, true)

abbrev request : String → WebhookRequest String
request signature = record {
  source = "stripe";
  body = "signed";
  signature = signature;
  ingest_key = "k";
}

abbrev rule : OutcomeRule
rule = record {
  name = "payment";
  event = some "paid";
  value = none;
  bind = [];
  signal = "outcome_confirmed";
  extract_from = some "run_id";
}

abbrev security : WebhookSecurity
security = record { signing_secret = "s"; ingest_key = "k" }

abbrev received : WebhookResult (Option String) × List String
received = (
  record {
    verified = true;
    source = "stripe";
    event_type = "paid";
    run_id = some "run 7";
    extracted_via = some echo;
    payload = ("type", some "paid") ∷ [];
  },
  "t" ∷ [],
)

echoed_webhook :
    receive_webhook texts attributes wire append_tenant "1"
      (pos 0)
      (request "signed")
      rule
      security
      "t"
      []
    ≡ ok received
unfolding receive_webhook verify event_type payload_get extract valid is_dunder begins_with one_of
    eval read read_name request_of entity_keys_of emit build map_signal parse_declared signal_of
echoed_webhook = refl

forged_webhook :
    receive_webhook texts attributes wire append_tenant "1"
      (pos 0)
      (request "forged")
      rule
      security
      "t"
      []
    ≡ err signature_error
unfolding receive_webhook verify
forged_webhook = refl

receive_webhook-Received_example :
    IsVerified texts attributes wire append_tenant "1" (pos 0) (request "signed") security
    × Received texts attributes wire append_tenant "1"
        (pos 0)
        (request "signed")
        rule
        "t"
        []
        received
receive_webhook-Received_example =
    receive_webhook-Received texts attributes wire append_tenant "1" (pos 0) (request "signed") rule
      security "t" [] received echoed_webhook
