-- ===== src/Facilitator/SettlementService/Keys.antt =====
-- createSettlement does not touch the idempotency keys.
use hundi.Common.{
  refl, ◌++◌, ◌∷◌, [], true, false, Option, none, some, Text, ok, err, Constraint, ℕ, Bool,
  if◌then◌else◌, text,
}
use hundi.Core.Crypto.{Crypto}
use hundi.Core.Value.{Value}
use hundi.Core.Mandate.{IntentMandate, CartMandate}
use hundi.Core.Verify.Checks.{Gate, passed, rejected, threw}
use hundi.Core.Verify.{Pass}
use hundi.Facilitator.Db.{SettlementRow, error_body}
use hundi.Facilitator.Action.{Action, pure, modify}
use hundi.Facilitator.Keeps.{
  Keeps, Keeps->>=, still-Keeps, keys_of, transition_settlement-Keeps, append_ledger-Keeps,
}
use hundi.Facilitator.SettlementService.{
  CreateSettlementOutcome, log_event, settle_rejected, settle_passed, settle, verify_reserved,
  reserve, create_known, create_settlement,
}

returns-Keeps : {A : Type 0} (a : A) → Keeps keys_of (λ db. (ok a, db))
returns-Keeps a = still-Keeps keys_of (λ db. ok a)

inserts-Keeps :
    (row : SettlementRow)
    → Keeps keys_of (modify (λ db. record db { settlements = db.settlements ++ row ∷ [] }))
unfolding Keeps
inserts-Keeps row db = refl

module _ (crypto : Crypto) where
  log_event-Keeps :
      (id event_type actor : Text) (payload : Value)
      → Keeps keys_of (log_event crypto id event_type actor payload)
  log_event-Keeps id event_type actor payload =
      Keeps->>= keys_of _ _ (append_ledger-Keeps keys_of (λ _ _. refl) crypto _)
        (λ _. returns-Keeps tt)

  settle_passed-Keeps :
      (id : Text) (b : Bool) (hash : Text) → Keeps keys_of (settle_passed crypto id b hash)
  unfolding settle_passed
  settle_passed-Keeps id true hash =
      Keeps->>= keys_of _ _ (transition_settlement-Keeps id _ _ none) (λ _.
        Keeps->>= keys_of _ _ (transition_settlement-Keeps id _ _ none)
          (λ _. Keeps->>= keys_of _ _ (log_event-Keeps id _ _ _) (λ _. returns-Keeps _)))
  settle_passed-Keeps id false hash =
      Keeps->>= keys_of _ _ (transition_settlement-Keeps id _ _ none) (λ _.
        Keeps->>= keys_of _ _ (transition_settlement-Keeps id _ _ none)
          (λ _. Keeps->>= keys_of _ _ (log_event-Keeps id _ _ _) (λ _. returns-Keeps _)))

  settle-Keeps : (id : Text) (g : Gate Pass) → Keeps keys_of (settle crypto id g)
  unfolding settle settle_rejected
  settle-Keeps id (passed p) = settle_passed-Keeps id p.needs_approval p.mandate_cart_hash_hex
  settle-Keeps id (rejected code detail) =
      Keeps->>= keys_of _ _ (transition_settlement-Keeps id _ _ _)
        (λ _. Keeps->>= keys_of _ _ (log_event-Keeps id _ _ _) (λ _. returns-Keeps _))
  settle-Keeps id (threw e) = still-Keeps keys_of (λ db. err e)

  verify_reserved-Keeps :
      (id : Text) (intent : IntentMandate) (cart : CartMandate) (now : ℕ)
      → Keeps keys_of (verify_reserved crypto id intent cart now)
  unfolding verify_reserved
  verify_reserved-Keeps id intent cart now =
      Keeps->>= keys_of _ _ (transition_settlement-Keeps id _ _ none) (λ _.
        Keeps->>= keys_of _ _ (still-Keeps keys_of (λ db. ok _)) (λ built.
          Keeps->>= keys_of _ _ (still-Keeps keys_of (λ db. built)) (λ c. settle-Keeps id _)))

  reserve-Keeps :
      (row : SettlementRow) (v : Option Constraint) (next : Action CreateSettlementOutcome)
      → Keeps keys_of next
      → Keeps keys_of (reserve crypto row v next)
  unfolding reserve
  reserve-Keeps row none next h = Keeps->>= keys_of _ _ (inserts-Keeps row) (λ _. h)
  reserve-Keeps row (some Constraint.one_settlement_per_cart) next h = returns-Keeps _
  reserve-Keeps row (some Constraint.one_live_settlement_per_mandate) next h = returns-Keeps _
  reserve-Keeps row (some _) next h = still-Keeps keys_of (λ db. err _)

  create_known-Keeps :
      (id : Text) (intent : IntentMandate) (cart : CartMandate) (now : ℕ)
      → Keeps keys_of (create_known crypto id intent cart now)
  unfolding create_known
  create_known-Keeps id intent cart now =
      Keeps->>= keys_of _ _ (still-Keeps keys_of (λ db. _)) (λ hash.
        Keeps->>= keys_of _ _ (still-Keeps keys_of (λ db. ok db.clock)) (λ clock.
          Keeps->>= keys_of _ _ (still-Keeps keys_of (λ db. ok _))
            (λ v. reserve-Keeps _ v _ (verify_reserved-Keeps id intent cart now))))

  pub create_settlement-Keeps :
      (id : Text) (intent : IntentMandate) (cart : CartMandate) (now : ℕ)
      → Keeps keys_of (create_settlement crypto id intent cart now)
  unfolding create_settlement
  create_settlement-Keeps id intent cart now =
      Keeps->>= keys_of _ _ (still-Keeps keys_of (λ db. ok _)) go
    where
      go :
          (known : Bool)
          → Keeps keys_of (
              if known
              then create_known crypto id intent cart now
              else pure (record { status = 404; body = error_body (text "MANDATE_UNKNOWN") }))
      go true = create_known-Keeps id intent cart now
      go false = returns-Keeps _
