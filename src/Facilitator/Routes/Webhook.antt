-- ===== src/Facilitator/Routes/Webhook.antt =====
-- packages/facilitator/src/routes/webhook.ts: POST /webhook. HMAC-SHA256 is the platform's, and so
-- are the messages of what is thrown. An event's type is a text or a number, and its order's
-- identifier a text, as the provider sends them; what the database driver cannot bind throws.
use hundi.Common.{
  Bool, true, false, ◌&&◌, Option, none, some, List, [], ◌∷◌, ◌++◌, Text, text, any, length, ◌==◌,
  ◌===◌, if◌then◌else◌, Result, ok, err, Exception, bind_error, property_of_null,
}
use hundi.Core.Value.{Value, undefined, null, num, str, obj, end, field, get, truthy, is_text}
use hundi.Core.Platform.{utf8}
use hundi.Core.Crypto.{Crypto}
use hundi.Facilitator.Action.{Action, pure, throw, gets, lift, modify, tx, recover, ◌>>=◌, ◌>>◌}
use hundi.Facilitator.Ledger.{append_ledger}
use hundi.Facilitator.Reconcile.{Reply, RazorpayPayment, ReconcileOutcome}
use hundi.Facilitator.Reconcile.Order.{reconcile_by_order}

pub data WebhookAnswer : Type 0 where
  accepted duplicate : WebhookAnswer
  refused : (code : Text) → WebhookAnswer

-- `RECONCILE_EVENT_TYPES.has(eventType)`
abbrev pub is_reconciled : Value → Bool
is_reconciled event_type = any (is_text event_type) (
    text "payment.captured"
    ∷ text "payment.failed"
    ∷ text "payment_link.paid"
    ∷ text "refund.processed"
    ∷ [])

unfoldable pub verify_signature :
    (hmac_hex : Text → Text → Text)
    → (raw_body : Text) → (signature_header : Option Text) → (secret : Text) → Bool
verify_signature hmac_hex raw_body none secret = false
verify_signature hmac_hex raw_body (some []) secret = false
verify_signature hmac_hex raw_body (some header) secret =
    let expected = utf8 (hmac_hex secret raw_body) in
    let actual = utf8 header in (length expected == length actual) && expected === actual

-- `body?.payload?.payment?.entity?.order_id`
abbrev pub extract_order_id : Value → Value
extract_order_id body =
    get (text "order_id") (get (text "entity") (get (text "payment") (get (text "payload") body)))

-- `(parsed as { event?: string }).event ?? 'unknown'`
abbrev pub event_of : Value → Result Value
event_of null = err property_of_null
event_of parsed = ok (or_unknown (get (text "event") parsed))
  where
    or_unknown : Value → Value
    or_unknown undefined = str (text "unknown")
    or_unknown null = str (text "unknown")
    or_unknown v = v

-- A parameter of a statement.
abbrev pub bound : Value → Result Value
bound (str s) = ok (str s)
bound (num n) = ok (num n)
bound null = ok null
bound _ = err bind_error

abbrev pub or_unknown_id : Option Text → Text
or_unknown_id none = text "unknown"
or_unknown_id (some id) = id

-- The fields that the ledger's entries on an event share.
abbrev pub event_fields : (reason event_id : Text) → Value → Value
event_fields reason event_id event_type = obj (
    field (text "reason") (str reason)
      (field (text "event_id") (str event_id) (field (text "event") event_type end)))

module _ (crypto : Crypto) where
  abbrev pub log_webhook : (event_type actor : Text) → Value → Action (Unit {0})
  log_webhook event_type actor payload = do
    _ ←
        append_ledger crypto (record {
          event_type = event_type;
          settlement_id = none;
          actor = actor;
          payload = payload;
        })
    pure tt

  -- A delivery that is refused is logged, and answered with a code.
  unfoldable pub refuse : (event_id reason code : Text) → Action WebhookAnswer
  refuse event_id reason code = do
    tx (
        log_webhook (text "webhook_rejected") (text "razorpay")
          (obj (field (text "event_id") (str event_id) (field (text "reason") (str reason) end))))
    pure (refused code)

  -- The transaction of a delivery: its answer is whether the event was there already.
  unfoldable pub claim_event : (event_id : Text) → Value → (raw_body : Text) → Action Bool
  claim_event event_id event_type raw_body = do
    stored ← lift (bound event_type)
    known ← gets (λ db. any (λ row. row.event_id === event_id) db.webhook_events)
    if known then pure true else do
      modify (λ db. record db {
        webhook_events =
            db.webhook_events
            ++ record { event_id = event_id; event_type = stored; raw = raw_body } ∷ [];
      })
      log_webhook (text "webhook_received") (text "razorpay")
          (obj (field (text "event_id") (str event_id) (field (text "event") event_type end)))
      pure false

  unfoldable pub reconcile_named :
      Value → Reply (List RazorpayPayment) → Reply Text → Action ReconcileOutcome
  reconcile_named (str id) payments reply = reconcile_by_order crypto id payments reply
  reconcile_named v payments reply = throw bind_error

  module _ (message_of : Exception → Text) where
    -- The `catch` around the reconciliation.
    unfoldable pub flag_failure : (event_id : Text) → Value → Exception → Action ReconcileOutcome
    flag_failure event_id event_type e = do
      tx (
          log_webhook (text "reconciliation_flagged") (text "facilitator") (
            obj (
              field (text "reason") (str (text "webhook_reconcile_failed")) (
                field (text "event_id") (str event_id) (
                  field (text "event") event_type
                    (field (text "detail") (str (message_of e)) end))))))
      pure ReconcileOutcome.no_op

    -- What a claimed event of a known type leads to.
    unfoldable pub reconcile_event :
        (event_id : Text)
        → (event_type order_id : Value) → Reply (List RazorpayPayment)
        → Reply Text
        → Action (Unit {0})
    reconcile_event event_id event_type order_id payments reply =
        if truthy order_id
        then (do
          _ ← recover (reconcile_named order_id payments reply) (flag_failure event_id event_type)
          pure tt)
        else tx (
            log_webhook (text "reconciliation_flagged") (text "facilitator")
              (event_fields (text "webhook_missing_order_id") event_id event_type))

    -- From the dedup on.
    unfoldable pub process_event :
        (event_id : Text)
        → (parsed event_type : Value) → Reply (List RazorpayPayment)
        → Reply Text
        → (is_duplicate : Bool) → Action WebhookAnswer
    process_event event_id parsed event_type payments reply true = pure duplicate
    process_event event_id parsed event_type payments reply false =
        if is_reconciled event_type
        then (do
          reconcile_event event_id event_type (extract_order_id parsed) payments reply
          pure accepted)
        else pure accepted

    -- A body that is JSON.
    unfoldable pub receive_event :
        (event_id : Option Text)
        → (parsed : Value) → (raw_body : Text) → Reply (List RazorpayPayment)
        → Reply Text
        → Action WebhookAnswer
    receive_event none parsed raw_body payments reply =
        refuse (text "unknown") (text "missing_event_id") (text "WEBHOOK_EVENT_ID_MISSING")
    receive_event (some []) parsed raw_body payments reply =
        refuse (text "unknown") (text "missing_event_id") (text "WEBHOOK_EVENT_ID_MISSING")
    receive_event (some event_id) parsed raw_body payments reply = do
      event_type ← lift (event_of parsed)
      is_duplicate ← tx (claim_event event_id event_type raw_body)
      process_event event_id parsed event_type payments reply is_duplicate

    abbrev pub receive_parsed :
        (event_id : Option Text)
        → Result Value
        → (raw_body : Text) → Reply (List RazorpayPayment)
        → Reply Text
        → Action WebhookAnswer
    receive_parsed event_id (err e) raw_body payments reply =
        refuse (or_unknown_id event_id) (text "invalid_json") (text "WEBHOOK_BODY_INVALID")
    receive_parsed event_id (ok parsed) raw_body payments reply =
        receive_event event_id parsed raw_body payments reply

    -- `payments` and `reply` answer the reconciliation, if the event leads to one.
    unfoldable pub post_webhook :
        (hmac_hex : Text → Text → Text)
        → (secret raw_body : Text) → (signature_header event_id : Option Text)
        → Reply (List RazorpayPayment)
        → Reply Text
        → Action WebhookAnswer
    post_webhook hmac_hex secret raw_body signature_header event_id payments reply =
        if verify_signature hmac_hex raw_body signature_header secret
        then receive_parsed event_id (crypto.json_parse raw_body) raw_body payments reply
        else refuse (or_unknown_id event_id) (text "signature_invalid")
            (text "WEBHOOK_SIGNATURE_INVALID")
