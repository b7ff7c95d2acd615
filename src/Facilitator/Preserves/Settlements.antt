-- ===== src/Facilitator/Preserves/Settlements.antt =====
-- What satisfies the laws is preserved by POST /settlements of
-- packages/facilitator/src/routes/settlements.ts.
use hundi.Common.{
  ◌≡◌, arith, refl, true, false, Option, none, some, Text, ok, err, Constraint, ℕ, Bool,
  if◌then◌else◌, text,
}
use hundi.Core.Crypto.{Crypto}
use hundi.Core.Value.{Value}
use hundi.Core.Mandate.{IntentMandate, CartMandate}
use hundi.Core.Verify.Checks.{Gate, passed, rejected, threw}
use hundi.Core.Verify.{Pass}
use hundi.Facilitator.Db.{Db, error_body}
use hundi.Facilitator.Action.{gets, lift, pure}
use hundi.Core.CanonicalJson.{canonical_json}
use hundi.Facilitator.Db.{ResponseBody}
use hundi.Facilitator.Action.{◌>>=◌}
use hundi.Facilitator.Idempotency.{
  IdempotencyClaim, claimed, hash_mismatch, in_flight, completed, claim_idempotency_key,
  complete_idempotency_key,
}
use hundi.Facilitator.Routes.Settlements.{
  create_and_complete, required_key, answer_claim, post_settlements,
}
use hundi.Facilitator.VerifyLogic.{compute_mandate_cart_hash}
use hundi.Facilitator.Preserves.{
  Laws, Preserves, Preserves->>=, Preserves-tx, Preserves-pure, Preserves-lift, Preserves-still,
  Preserves-other,
}
use hundi.Facilitator.SettlementService.{
  insert_violation, new_settlement, log_event, settle_rejected, settle_passed, settle,
  verify_reserved, reserve, create_known, create_settlement,
}

module _ (crypto : Crypto) (P : Db → Type 0) (laws : Laws crypto P) where
  log_event-Preserves :
      (id event_type actor : Text) (payload : Value)
      → Preserves P (log_event crypto id event_type actor payload)
  log_event-Preserves id event_type actor payload =
      Preserves->>= P _ _ (laws.append _) (λ _. Preserves-pure P tt)

  settle_passed-Preserves :
      (id : Text) (b : Bool) (hash : Text) → Preserves P (settle_passed crypto id b hash)
  unfolding settle_passed
  settle_passed-Preserves id true hash =
      Preserves->>= P _ _ (laws.move_settlement id _ _ none (λ e. cc e)) (λ _.
        Preserves->>= P _ _ (laws.move_settlement id _ _ none (λ e. cc e))
          (λ _. Preserves->>= P _ _ (log_event-Preserves id _ _ _) (λ _. Preserves-pure P _)))
  settle_passed-Preserves id false hash =
      Preserves->>= P _ _ (laws.move_settlement id _ _ none (λ e. cc e)) (λ _.
        Preserves->>= P _ _ (laws.move_settlement id _ _ none (λ e. cc e))
          (λ _. Preserves->>= P _ _ (log_event-Preserves id _ _ _) (λ _. Preserves-pure P _)))

  settle-Preserves : (id : Text) (g : Gate Pass) → Preserves P (settle crypto id g)
  unfolding settle settle_rejected
  settle-Preserves id (passed p) =
      settle_passed-Preserves id p.needs_approval p.mandate_cart_hash_hex
  settle-Preserves id (rejected code detail) =
      Preserves->>= P _ _ (laws.move_settlement id _ _ _ (λ e. cc e))
        (λ _. Preserves->>= P _ _ (log_event-Preserves id _ _ _) (λ _. Preserves-pure P _))
  settle-Preserves id (threw e) = Preserves-still P (λ db. err e)

  verify_reserved-Preserves :
      (id : Text) (intent : IntentMandate) (cart : CartMandate) (now : ℕ)
      → Preserves P (verify_reserved crypto id intent cart now)
  unfolding verify_reserved
  verify_reserved-Preserves id intent cart now =
      Preserves->>= P _ _ (laws.move_settlement id _ _ none (λ e. cc e)) (λ _.
        Preserves->>= P _ _ (Preserves-still P (λ db. ok _)) (λ built.
          Preserves->>= P _ _ (Preserves-still P (λ db. built)) (λ c. settle-Preserves id _)))

  module _ (id : Text) (intent : IntentMandate) (cart : CartMandate) (now : ℕ) (hash : Text) where
    reserve-Preserves :
        (db : Db) (v : Option Constraint)
        → insert_violation (new_settlement id intent cart hash db.clock) db ≡ v
        → P db
        → P
            (reserve crypto
              (new_settlement id intent cart hash db.clock)
              v
              (verify_reserved crypto id intent cart now)
              db).1
    unfolding reserve ◌>>=◌ Preserves
    reserve-Preserves db none e i =
        verify_reserved-Preserves id intent cart now _
          (laws.insert_settlement id intent cart hash db e i)
    reserve-Preserves db (some Constraint.one_settlement_per_cart) e i = i
    reserve-Preserves db (some Constraint.one_live_settlement_per_mandate) e i = i
    reserve-Preserves db (some Constraint.primary_key) e i = i
    reserve-Preserves db (some Constraint.unique_intent_hash) e i = i
    reserve-Preserves db (some Constraint.unique_receipt) e i = i
    reserve-Preserves db (some Constraint.one_active_attempt) e i = i
    reserve-Preserves db (some Constraint.one_captured_attempt) e i = i
    reserve-Preserves db (some Constraint.foreign_key) e i = i

    -- From the hash of the pair on.
    hashed-Preserves : Preserves P (
        gets (λ db. db.clock) >>= λ clock.
        gets (insert_violation (new_settlement id intent cart hash clock)) >>= λ violation.
        reserve crypto
          (new_settlement id intent cart hash clock)
          violation
          (verify_reserved crypto id intent cart now))
    unfolding Preserves ◌>>=◌
    hashed-Preserves db i = reserve-Preserves db _ refl i

  create_known-Preserves :
      (id : Text) (intent : IntentMandate) (cart : CartMandate) (now : ℕ)
      → Preserves P (create_known crypto id intent cart now)
  unfolding create_known
  create_known-Preserves id intent cart now =
      Preserves->>= P (lift (compute_mandate_cart_hash crypto intent cart)) _
        (Preserves-lift P (compute_mandate_cart_hash crypto intent cart))
        (λ hash. hashed-Preserves id intent cart now hash)

  pub create_settlement-Preserves :
      (id : Text) (intent : IntentMandate) (cart : CartMandate) (now : ℕ)
      → Preserves P (create_settlement crypto id intent cart now)
  unfolding create_settlement
  create_settlement-Preserves id intent cart now =
      Preserves->>= P _ _ (Preserves-still P (λ db. ok _)) go
    where
      go :
          (known : Bool)
          → Preserves P (
              if known
              then create_known crypto id intent cart now
              else pure (record { status = 404; body = error_body (text "MANDATE_UNKNOWN") }))
      go true = create_known-Preserves id intent cart now
      go false = Preserves-pure P _

  complete-Preserves :
      (key : Text) (id : Option Text) (status : ℕ) (body : ResponseBody)
      → Preserves P (complete_idempotency_key key id status body)
  unfolding complete_idempotency_key
  complete-Preserves key id status body =
      Preserves-other crypto P laws _ (λ db. (refl, refl, refl, refl))

  claim-Preserves : (key hash : Text) → Preserves P (claim_idempotency_key key hash)
  unfolding claim_idempotency_key ◌>>=◌
  claim-Preserves key hash = Preserves-other crypto P laws _ (λ db. ground arith)

  create_and_complete-Preserves :
      (key id : Text) (body : Value) (now : ℕ)
      → Preserves P (create_and_complete crypto key id body now)
  unfolding create_and_complete
  create_and_complete-Preserves key id body now =
      Preserves->>= P _ _ (create_settlement-Preserves id _ _ now)
        (λ result. Preserves->>= P _ _ (complete-Preserves key _ _ _) (λ _. Preserves-pure P _))

  answer_claim-Preserves :
      (key id : Text) (body : Value) (now : ℕ) (claim : IdempotencyClaim)
      → Preserves P (answer_claim crypto key id body now claim)
  unfolding answer_claim
  answer_claim-Preserves key id body now hash_mismatch = Preserves-still P (λ db. err _)
  answer_claim-Preserves key id body now in_flight = Preserves-still P (λ db. err _)
  answer_claim-Preserves key id body now (completed status stored) = Preserves-pure P _
  answer_claim-Preserves key id body now claimed =
      Preserves->>= P _ _ (Preserves-tx P _ (create_and_complete-Preserves key id body now))
        (λ _. Preserves-pure P _)

  -- What satisfies the laws is preserved by POST /settlements, whether the request is answered or
  -- refused.
  pub post_settlements-Preserves :
      (idempotency_key : Option Text) (body : Value) (settlement_id : Text) (now : ℕ)
      → Preserves P (post_settlements crypto idempotency_key body settlement_id now)
  unfolding post_settlements
  post_settlements-Preserves idempotency_key body settlement_id now =
      Preserves->>= P _ _ (Preserves-lift P (required_key idempotency_key)) (λ key.
        Preserves->>= P _ _ (Preserves-lift P (canonical_json body)) (λ bytes.
          Preserves->>= P _ _ (claim-Preserves key _)
            (λ claim. answer_claim-Preserves key settlement_id body now claim)))
