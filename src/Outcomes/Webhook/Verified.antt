-- ===== src/Outcomes/Webhook/Verified.antt =====
-- Nothing of an unverified webhook is stored, and only an echoed run id is bound as deterministic.
use mathlib.Core.Path.{subst}
use valuemaxx.Base.{
  ◌≡◌, ◌≢◌, ap, sym, ◌∙◌, ◌&&◌, if◌then◌else◌, ◌⊎◌, inl, inr, refl, Bool, true, false, Option, none,
  some, List, String, Bool-cases,
}
use valuemaxx.Base.Int.{ℤ}
use valuemaxx.Base.Result.{Result, ok, err, signature_error, bind_returns}
use valuemaxx.Base.Traverse.{two_steps}
use valuemaxx.Base.Text.{same_text, same_text-eq, same_text-intro}
use valuemaxx.Core.Enums.{deterministic, candidate}
use valuemaxx.Core.Outcome.{OutcomeEvent}
use valuemaxx.Outcomes.Signal.{EmitRequest, emit}
use valuemaxx.Outcomes.Predicate.Interpreter.{Objects}
use valuemaxx.Outcomes.Webhook.{
  WebhookSecurity, WebhookRequest, OutcomeRule, WebhookResult, Wire, verify, event_type, evaluated,
  echoed, extract_run_id, value_of, entity_keys_of, request_of, other_event, receive_matching,
  receive_payload, receive_webhook,
}

-- Deterministic with a run id, and a candidate without one.
abbrev pub IsLabelled : {D : Type 0} → Option String → EmitRequest D → Type 0
IsLabelled none e = e.binding_tier ≡ some candidate
IsLabelled (some s) e = e.binding_tier ≡ some deterministic

ok_eq {ℓ} : {A : Type ℓ} {x y : A} → ok x ≡ ok y → x ≡ y
ok_eq e = cc e

module _ {D N B : Type 0} (o : Objects D N) (getattr : D → String → Result D) (w : Wire D B)
    {S : Type 0} (upsert : String → OutcomeEvent D → S → S × Bool) (id : String) (now : ℤ) where
  -- What the rule's expression for the run id gives: a text that is not empty, or no run id.
  abbrev pub TextIs : Option String → Option String → Type 0
  TextIs none run_id = run_id ≡ none
  TextIs (some s) run_id = ((s ≡ "") × (run_id ≡ none)) ⊎ ((s ≢ "") × (run_id ≡ some s))

  abbrev pub CameBack : Option String → List (String × D) → Option String → Type 0
  CameBack none payload run_id = run_id ≡ none
  CameBack (some text) payload run_id =
      (raw : D) × (evaluated o getattr w payload text ≡ ok raw) × TextIs (o.as_text raw) run_id

  same_text_ne : (s t : String) → same_text s t ≡ false → s ≢ t
  same_text_ne s t h e = cc (sym h ∙ same_text-intro s t e)

  echoed-TextIs : (t : Option String) → TextIs t (echoed o getattr w t)
  echoed-TextIs none = refl
  echoed-TextIs (some s) = elim (Bool-cases (same_text s "")) [
    | inl h ↦ rw h (inl (same_text-eq s "" h, refl))
    | inr h ↦ rw h (inr (same_text_ne s "" h, refl))
  ]

  extract_run_id-CameBack :
      (text : Option String) (payload : List (String × D)) (run_id : Option String)
      → extract_run_id o getattr w text payload ≡ ok run_id
      → CameBack text payload run_id
  extract_run_id-CameBack none payload run_id h = sym (ok_eq h)
  extract_run_id-CameBack (some text) payload run_id h =
      let (raw, gave, made) =
        bind_returns (evaluated o getattr w payload text)
          (λ raw. ok (echoed o getattr w (o.as_text raw))) h in
      (raw, gave, subst (TextIs (o.as_text raw)) (ok_eq made) (echoed-TextIs (o.as_text raw)))

  -- The emission that a webhook makes: of the rule, for the tenant, with the payload, labelled by the
  -- run id that came back.
  abbrev pub IsEmission :
      OutcomeRule → String → List (String × D) → Option String → EmitRequest D → Type 0
  IsEmission rule tenant payload run_id e =
      (e.name ≡ rule.name)
      × (e.tenant_id ≡ tenant)
      × (e.raw ≡ payload)
      × (e.run_id ≡ run_id)
      × (e.correlation_id ≡ run_id)
      × IsLabelled run_id e

  request_of-IsEmission :
      (rule : OutcomeRule) (tenant source : String) (payload : List (String × D))
      (run_id : Option String) (e : EmitRequest D)
      → request_of o getattr w rule tenant source payload run_id ≡ ok e
      → IsEmission rule tenant payload run_id e
  unfolding request_of
  request_of-IsEmission rule tenant source payload none e h =
      two_steps (IsEmission rule tenant payload none) (value_of o getattr w rule.value payload)
        (entity_keys_of o getattr w rule.bind payload) _
        (λ value keys. (refl, refl, refl, refl, refl, refl)) h
  request_of-IsEmission rule tenant source payload (some s) e h =
      two_steps (IsEmission rule tenant payload (some s)) (value_of o getattr w rule.value payload)
        (entity_keys_of o getattr w rule.bind payload) _
        (λ value keys. (refl, refl, refl, refl, refl, refl)) h

  -- The rule is for another event than the payload's type, or it is not.
  abbrev pub OfAnother : OutcomeRule → List (String × D) → Type 0
  OfAnother rule payload =
      (declared : String) × (rule.event ≡ some declared)
      × (event_type o getattr w payload ≢ declared)

  abbrev pub OfRule : OutcomeRule → List (String × D) → Type 0
  OfRule rule payload = (rule.event ≡ none) ⊎ (rule.event ≡ some (event_type o getattr w payload))

  event_cases :
      (rule : OutcomeRule) (payload : List (String × D)) (event : Option String) (b : Bool)
      → rule.event ≡ event
      → other_event o getattr w event (event_type o getattr w payload) ≡ b
      → if b then OfAnother rule payload else OfRule rule payload
  event_cases rule payload none true e h = cc h
  event_cases rule payload none false e h = inl e
  event_cases rule payload (some declared) b e h =
      elim (Bool-cases (same_text (event_type o getattr w payload) declared)) [
        | inl same ↦
            let is_this : false ≡ b = rw same at h in
            subst (λ b. if b then OfAnother rule payload else OfRule rule payload) is_this
              (inr (e ∙ ap (λ d. some d) (sym (same_text-eq _ declared same))))
        | inr other ↦
            let is_other : true ≡ b = rw other at h in
            subst (λ b. if b then OfAnother rule payload else OfRule rule payload) is_other
              (declared, e, same_text_ne _ declared other)
      ]

  -- What a verified webhook has done, by its payload.
  abbrev pub Handled : OutcomeRule → String → S → WebhookResult D × S → List (String × D) → Type 0
  Handled rule tenant store r payload =
      (OfAnother rule payload × (r.0.run_id ≡ none) × (r.1 ≡ store))
      ⊎ (OfRule rule payload
          × CameBack rule.extract_from payload r.0.run_id
          × ((e : EmitRequest D) × IsEmission rule tenant payload r.0.run_id e
              × (r.1 ≡ (emit upsert e id now store).1)))

  abbrev pub Received : WebhookRequest B → OutcomeRule → String → S → WebhookResult D × S → Type 0
  Received request rule tenant store r =
      (payload : List (String × D)) × (w.loads_object request.body ≡ some payload)
      × Handled rule tenant store r payload

  receive_matching-Handled :
      (request : WebhookRequest B) (rule : OutcomeRule) (tenant : String)
      (payload : List (String × D)) (store : S) (r : WebhookResult D × S)
      → OfRule rule payload
      → receive_matching o getattr w upsert id now request rule tenant payload store ≡ ok r
      → Handled rule tenant store r payload
  receive_matching-Handled request rule tenant payload store r this h =
      let (run_id, came, rest) =
        bind_returns (extract_run_id o getattr w rule.extract_from payload) _ h in
      let (e, requested, made) =
        bind_returns (request_of o getattr w rule tenant request.source payload run_id) _ rest in
      subst (λ (x : WebhookResult D × S). Handled rule tenant store x payload) (ok_eq made)
        (inr (
          this,
          extract_run_id-CameBack rule.extract_from payload run_id came,
          (e, request_of-IsEmission rule tenant request.source payload run_id e requested, refl),
        ))

  receive_payload-Received :
      (request : WebhookRequest B) (rule : OutcomeRule) (tenant : String)
      (loaded : Option (List (String × D))) (store : S) (r : WebhookResult D × S)
      → w.loads_object request.body ≡ loaded
      → receive_payload o getattr w upsert id now request rule tenant loaded store ≡ ok r
      → Received request rule tenant store r
  receive_payload-Received request rule tenant none store r loads h = cc h
  receive_payload-Received request rule tenant (some payload) store r loads h =
      elim (Bool-cases (other_event o getattr w rule.event (event_type o getattr w payload))) [
        | inl other ↦ (
          payload,
          loads,
          subst (λ (x : WebhookResult D × S). Handled rule tenant store x payload)
              (ok_eq (rw other at h))
              (inl (event_cases rule payload rule.event true refl other, refl, refl)),
        )
        | inr this ↦ (
          payload,
          loads,
          receive_matching-Handled request rule tenant payload store r
              (event_cases rule payload rule.event false refl this) (rw this at h),
        )
      ]

  -- Both comparisons returned that the texts are equal.
  abbrev pub IsVerified : WebhookRequest B → WebhookSecurity → Type 0
  IsVerified request security =
      (w.compare_digest (w.hexdigest security.signing_secret request.body) request.signature
        ≡ ok true)
      × (w.compare_digest security.ingest_key request.ingest_key ≡ ok true)

  verify-IsVerified :
      (request : WebhookRequest B) (security : WebhookSecurity)
      → verify o getattr w request security ≡ ok true
      → IsVerified request security
  unfolding verify
  verify-IsVerified request security h =
      let (sig_ok, compared, rest) =
        bind_returns
          (w.compare_digest (w.hexdigest security.signing_secret request.body) request.signature) _
          h in
      let (key_ok, compared', both) =
        bind_returns (w.compare_digest security.ingest_key request.ingest_key)
          (λ key_ok. ok (sig_ok && key_ok)) rest in
      let parts = and_true sig_ok key_ok (ok_eq both) in
      (compared ∙ ap ok parts.0, compared' ∙ ap ok parts.1)
    where
      and_true : (a b : Bool) → (a && b) ≡ true → (a ≡ true) × (b ≡ true)
      and_true true b h = (refl, h)
      and_true false b h = cc h

  -- A webhook that is received has passed both comparisons, of the signature and of the ingest key,
  -- and its body is an object. Where the rule declares an event and the type of the payload is not
  -- that event, the store is as it was and the result has no run id. Otherwise the run id of the
  -- result is the text that the rule's expression gives on the payload, if it is one and not empty,
  -- and the store has changed by one emission of the rule's outcome, for that tenant and with that
  -- payload: bound as deterministic with the run id, which is also its correlation id; or, without a
  -- run id, a candidate without either.
  pub receive_webhook-Received :
      (request : WebhookRequest B) (rule : OutcomeRule) (security : WebhookSecurity)
      (tenant : String) (store : S) (r : WebhookResult D × S)
      → receive_webhook o getattr w upsert id now request rule security tenant store ≡ ok r
      → IsVerified request security × Received request rule tenant store r
  unfolding receive_webhook
  receive_webhook-Received request rule security tenant store r h =
      let (verified, compared, rest) = bind_returns (verify o getattr w request security) _ h in
      received verified compared rest
    where
      received :
          (verified : Bool)
          → verify o getattr w request security ≡ ok verified
          → (if verified
              then receive_payload o getattr w upsert id now request rule tenant
                  (w.loads_object request.body)
                  store
              else err signature_error)
            ≡ ok r
          → IsVerified request security × Received request rule tenant store r
      received false compared rest = cc rest
      received true compared rest = (
        verify-IsVerified request security compared,
        receive_payload-Received request rule tenant (w.loads_object request.body) store r refl
            rest,
      )
