-- ===== src/Facilitator/Preserves/Events.antt =====
-- The webhook of packages/facilitator/src/routes/webhook.ts, and the decisions, the dry run and the
-- tokens of the other routes.
use hundi.Core.Signature.{ed25519, verify_mandate_signature}
use hundi.Facilitator.VerifyLogic.{build_verify_ctx}
use hundi.Core.CanonicalJson.{canonical_json}
use hundi.Facilitator.MandateRepo.{get_mandate_row}
use hundi.Core.Mandate.{CartMandate, IntentMandate}
use hundi.Facilitator.Routes.Verify.{post_verify}
use hundi.Facilitator.Routes.Mandates.{post_ceremony_tokens}
use hundi.Facilitator.Routes.Decisions.{agent_signature, check_decision, post_decisions}
use hundi.Facilitator.Reconcile.{RazorpayPayment, Reply}
use hundi.Facilitator.Routes.Webhook.{
  event_of, extract_order_id, verify_signature, is_reconciled, post_webhook, receive_parsed,
  receive_event, process_event, reconcile_event, reconcile_named, bound, flag_failure, claim_event,
  refuse, log_webhook,
}
use hundi.Common.{
  [], ◌∷◌, ◌===◌, ℕ, Bool, true, false, not, find, any, Text, List, Option, none, some, Result, ok,
  err, Exception, refl,
}
use hundi.Core.Crypto.{Crypto}
use hundi.Core.Value.{text_of, Value, str, truthy}
use hundi.Facilitator.Db.{Db}
use hundi.Facilitator.Action.{modify}
use hundi.Facilitator.Preserves.Execution.{log_event-Preserves}
use hundi.Facilitator.Preserves.Orders.{reconcile_by_order-Preserves}
use hundi.Facilitator.Preserves.{
  Laws, Preserves, Preserves->>=, Preserves-tx, Preserves-pure, Preserves-gets, Preserves-lift,
  Preserves-still, Preserves-if, Preserves-need, Preserves-ensure, Preserves-recover,
  Preserves-other,
}

module _ (crypto : Crypto) (P : Db → Type 0) (laws : Laws crypto P) where
  log_webhook-Preserves :
      (event_type actor : Text) (payload : Value)
      → Preserves P (log_webhook crypto event_type actor payload)
  log_webhook-Preserves event_type actor payload =
      Preserves->>= P _ _ (laws.append _) (λ _. Preserves-pure P tt)

  refuse-Preserves :
      (event_id reason code : Text) → Preserves P (refuse crypto event_id reason code)
  unfolding refuse
  refuse-Preserves event_id reason code =
      Preserves->>= P _ _ (Preserves-tx P _ (log_webhook-Preserves _ _ _)) (λ _. Preserves-pure P _)

  claim_event-Preserves :
      (event_id : Text) (event_type : Value) (raw_body : Text)
      → Preserves P (claim_event crypto event_id event_type raw_body)
  unfolding claim_event
  claim_event-Preserves event_id event_type raw_body =
      Preserves->>= P _ _ (Preserves-lift P (bound event_type)) (λ stored.
        Preserves->>= P _ _
          (Preserves-gets P (λ db. any (λ row. row.event_id === event_id) db.webhook_events))
          (λ known. Preserves-if P known _ _ (Preserves-pure P true) (
            Preserves->>= P (modify _) _
              (Preserves-other crypto P laws _ (λ db. (refl, refl, refl, refl)))
              (λ _.
                Preserves->>= P _ _ (log_webhook-Preserves _ _ _) (λ _. Preserves-pure P false)))))

  module _ (message_of : Exception → Text) where
    flag_failure-Preserves :
        (event_id : Text) (event_type : Value) (e : Exception)
        → Preserves P (flag_failure crypto message_of event_id event_type e)
    unfolding flag_failure
    flag_failure-Preserves event_id event_type e =
        Preserves->>= P _ _ (Preserves-tx P _ (log_webhook-Preserves _ _ _))
          (λ _. Preserves-pure P _)

    module _ (payments : Reply (List RazorpayPayment)) (reply : Reply Text) where
      reconcile_named-Preserves :
          (order_id : Value) → Preserves P (reconcile_named crypto order_id payments reply)
      unfolding reconcile_named
      reconcile_named-Preserves (str id) =
          reconcile_by_order-Preserves crypto P laws id payments reply
      reconcile_named-Preserves v = Preserves-still P (λ db. err _)

      reconcile_event-Preserves :
          (event_id : Text) (event_type order_id : Value)
          → Preserves P
              (reconcile_event crypto message_of event_id event_type order_id payments reply)
      unfolding reconcile_event
      reconcile_event-Preserves event_id event_type order_id =
          Preserves-if P (truthy order_id) _ _
            (Preserves->>= P _ _
              (Preserves-recover P _ _ (reconcile_named-Preserves order_id)
                (flag_failure-Preserves event_id event_type))
              (λ _. Preserves-pure P tt))
            (Preserves-tx P _ (log_webhook-Preserves _ _ _))

      process_event-Preserves :
          (event_id : Text) (parsed event_type : Value) (is_duplicate : Bool)
          → Preserves P (
              process_event crypto message_of event_id parsed event_type payments reply
                is_duplicate)
      unfolding process_event
      process_event-Preserves event_id parsed event_type true = Preserves-pure P _
      process_event-Preserves event_id parsed event_type false =
          Preserves-if P (is_reconciled event_type) _ _
            (Preserves->>= P _ _
              (reconcile_event-Preserves event_id event_type (extract_order_id parsed))
              (λ _. Preserves-pure P _))
            (Preserves-pure P _)

      receive_event-Preserves :
          (event_id : Option Text) (parsed : Value) (raw_body : Text)
          → Preserves P (receive_event crypto message_of event_id parsed raw_body payments reply)
      unfolding receive_event
      receive_event-Preserves none parsed raw_body = refuse-Preserves _ _ _
      receive_event-Preserves (some []) parsed raw_body = refuse-Preserves _ _ _
      receive_event-Preserves (some (c ∷ s)) parsed raw_body =
          Preserves->>= P _ _ (Preserves-lift P (event_of parsed)) (λ event_type.
            Preserves->>= P _ _
              (Preserves-tx P _ (claim_event-Preserves (c ∷ s) event_type raw_body))
              (λ is_duplicate. process_event-Preserves (c ∷ s) parsed event_type is_duplicate))

      receive_parsed-Preserves :
          (event_id : Option Text) (parsed : Result Value) (raw_body : Text)
          → Preserves P (receive_parsed crypto message_of event_id parsed raw_body payments reply)
      receive_parsed-Preserves event_id (err e) raw_body = refuse-Preserves _ _ _
      receive_parsed-Preserves event_id (ok parsed) raw_body =
          receive_event-Preserves event_id parsed raw_body

      -- A delivery preserves what satisfies the laws.
      pub post_webhook-Preserves :
          (hmac_hex : Text → Text → Text) (secret raw_body : Text)
          (signature_header event_id : Option Text)
          → Preserves P (
              post_webhook crypto message_of hmac_hex secret raw_body signature_header event_id
                payments reply)
      unfolding post_webhook
      post_webhook-Preserves hmac_hex secret raw_body signature_header event_id =
          Preserves-if P (verify_signature hmac_hex raw_body signature_header secret) _ _
            (receive_parsed-Preserves event_id (crypto.json_parse raw_body) raw_body)
            (refuse-Preserves _ _ _)

  -- So does a decision of the agent.
  pub post_decisions-Preserves :
      (settlement_id : Text) (payload : Value) (signature_hex : Text)
      → Preserves P (post_decisions crypto settlement_id payload signature_hex)
  unfolding post_decisions check_decision
  post_decisions-Preserves settlement_id payload signature_hex =
      Preserves->>= P _ _
        (Preserves-gets P (λ db. find (λ s. s.id === settlement_id) db.settlements))
        (λ found. Preserves->>= P _ _ (Preserves-need P _ found) (λ settlement.
          Preserves->>= P _ _ (Preserves-gets P (λ db. get_mandate_row db settlement.mandate_id))
            (λ registered. Preserves->>= P _ _ (Preserves-need P _ registered) (λ mandate_row.
              Preserves->>= P _ _
                (Preserves->>= P _ _ (Preserves-lift P (canonical_json payload)) (λ bytes.
                  Preserves->>= P _ _
                    (Preserves-lift P (
                      verify_mandate_signature crypto bytes (agent_signature signature_hex)
                        (ed25519 (text_of (IntentMandate.agent_pubkey_hex mandate_row.intent)))))
                    (λ valid. Preserves-ensure P _ valid)))
                (λ _. Preserves-tx P _ (log_event-Preserves crypto P laws _ _ _ _))))))

  -- So do a new token and a dry run.
  pub post_ceremony_tokens-Preserves : (token : Text) → Preserves P (post_ceremony_tokens token)
  unfolding post_ceremony_tokens
  post_ceremony_tokens-Preserves token =
      Preserves->>= P _ _
        (Preserves-gets P (λ db. any (λ row. row.token === token) db.ceremony_tokens))
        (λ taken. Preserves->>= P _ _ (Preserves-ensure P _ (not taken)) (λ _.
          Preserves->>= P (modify _) _
            (Preserves-other crypto P laws _ (λ db. (refl, refl, refl, refl)))
            (λ _. Preserves-pure P token)))

  pub post_verify-Preserves :
      (intent : IntentMandate) (cart : CartMandate) (now : ℕ)
      → Preserves P (post_verify crypto intent cart now)
  unfolding post_verify
  post_verify-Preserves intent cart now =
      Preserves->>= P _ _ (Preserves-gets P (λ db. build_verify_ctx crypto db intent cart now none))
        (λ built. Preserves->>= P _ _ (Preserves-lift P built) (λ c. Preserves-pure P _))
