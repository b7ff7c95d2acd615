-- ===== src/Facilitator/SettlementService/Answers.antt =====
-- The branches of createSettlement (packages/facilitator/src/settlement-service.ts) after the gate's
-- answer, each with the row and the ledger that it leaves.
use hundi.Common.{
  ◌≡◌, refl, true, false, Result, Option, none, some, List, [], ◌∷◌, ◌++◌, Text, text, ok,
}
use hundi.Core.Crypto.{Crypto}
use hundi.Core.Value.{Value}
use hundi.Core.CanonicalJson.Total.{IsCanonical}
use hundi.Core.Verify.Checks.{Gate, passed, rejected, RejectionCode, code_text}
use hundi.Core.Verify.{Pass}
use hundi.Facilitator.Db.{SettlementState, SettlementRow, LedgerRow, settlement_body, Db}
use hundi.Facilitator.Action.{after_ok}
use hundi.Facilitator.StateMachine.{
  settlement_moved, can_move, settlement_transitions, SettlementState-discrete,
}
use hundi.Facilitator.StateMachine.Exclusive.{IsExclusive}
use hundi.Facilitator.Ledger.Returns.{append_ledger-writes}
use hundi.Facilitator.SettlementService.{
  CreateSettlementOutcome, log_event, settle_rejected, settle_passed, settle, hash_payload,
  reject_payload,
}
use hundi.Facilitator.SettlementService.Last.{IsFreshId, with_last, last-moves_from}

-- Where the gate's answer sends the settlement, and the reason that is stored.
pub data Decided : Gate Pass → SettlementState → Option Text → Type 0 where
  asks :
      (hash : Text)
      → Decided
          (passed (record { needs_approval = true; mandate_cart_hash_hex = hash }))
          SettlementState.pending_approval
          none
  hands_free :
      (hash : Text)
      → Decided
          (passed (record { needs_approval = false; mandate_cart_hash_hex = hash }))
          SettlementState.approved
          none
  refuses :
      (code : RejectionCode) (detail : Option Text)
      → Decided (rejected code detail) SettlementState.rejected (some (code_text code))

rejectable : can_move SettlementState.verifying SettlementState.rejected ≡ true
unfolding can_move settlement_transitions SettlementState-discrete
rejectable = refl

verifiable : can_move SettlementState.verifying SettlementState.verified ≡ true
unfolding can_move settlement_transitions SettlementState-discrete
verifiable = refl

pendable : can_move SettlementState.verified SettlementState.pending_approval ≡ true
unfolding can_move settlement_transitions SettlementState-discrete
pendable = refl

approvable : can_move SettlementState.verified SettlementState.approved ≡ true
unfolding can_move settlement_transitions SettlementState-discrete
approvable = refl

pub startable : can_move SettlementState.created SettlementState.verifying ≡ true
unfolding can_move settlement_transitions SettlementState-discrete
startable = refl

module _ (crypto : Crypto) where
  log_event-writes :
      (id event_type actor : Text) (payload : Value)
      → IsCanonical payload
      → (db : Db)
      → (ledger : List LedgerRow) × (log_event crypto id event_type actor payload db
          ≡ (ok tt, record db { ledger = ledger }))
  log_event-writes id event_type actor payload h db =
      let (ledger, entry, e) =
        append_ledger-writes crypto
          (record {
            event_type = event_type;
            settlement_id = some id;
            actor = actor;
            payload = payload;
          })
          h db in
      (ledger, after_ok _ _ e refl)

  reject_payload-IsCanonical :
      (code : RejectionCode) (detail : Option Text) → IsCanonical (reject_payload code detail)
  reject_payload-IsCanonical code none = (tt, tt)
  reject_payload-IsCanonical code (some d) = (tt, (tt, tt))

  -- The answer, and what was written: the last row, in state `s`, and the ledger.
  abbrev pub Leaves :
      Db
      → List SettlementRow
      → SettlementRow
      → SettlementState
      → Option Text
      → Result CreateSettlementOutcome × Db
      → Type 0
  Leaves db rows row s reason result =
      (ledger : List LedgerRow) × (row' : SettlementRow) × (result ≡ (
        ok (record { status = 202; body = settlement_body row.id s reason }),
        record db { settlements = rows ++ row' ∷ []; ledger = ledger },
      ))
      × (row'.id ≡ row.id)
      × (row'.state ≡ s)
      × (row'.reject_reason ≡ reason)
      × (row'.mandate_id ≡ row.mandate_id)
      × (row'.amount_paise ≡ row.amount_paise)
      × (row'.mandate_cart_hash_hex ≡ row.mandate_cart_hash_hex)
      × IsExclusive (rows ++ row' ∷ [])

  module _ (db : Db) (rows : List SettlementRow) (row : SettlementRow) where
    settle_rejected-Leaves :
        IsFreshId row.id rows
        → row.state ≡ SettlementState.verifying
        → IsExclusive (rows ++ row ∷ [])
        → (code : RejectionCode) (detail : Option Text)
        → Leaves db rows row SettlementState.rejected
            (some (code_text code))
            (settle_rejected crypto row.id code detail (with_last db rows row))
    unfolding settle_rejected
    settle_rejected-Leaves fresh at h code detail =
        let (moves, exclusive) =
          last-moves_from db rows row SettlementState.rejected (some (code_text code))
            SettlementState.verifying at fresh rejectable h in
        let moved =
          settlement_moved db.clock SettlementState.rejected (some (code_text code)) row in
        let (ledger, logged) =
          log_event-writes row.id (text "verify_rejected") (text "facilitator")
            (reject_payload code detail) (reject_payload-IsCanonical code detail)
            (with_last db rows moved) in
        (
          ledger,
          moved,
          after_ok _ _ moves (after_ok _ _ logged refl),
          refl,
          refl,
          refl,
          refl,
          refl,
          refl,
          exclusive,
        )

    settle_passed-Leaves-true :
        IsFreshId row.id rows
        → row.state ≡ SettlementState.verifying
        → row.reject_reason ≡ none
        → IsExclusive (rows ++ row ∷ [])
        → (hash : Text)
        → Leaves db rows row SettlementState.pending_approval none
            (settle_passed crypto row.id true hash (with_last db rows row))
    unfolding settle_passed
    settle_passed-Leaves-true fresh at clean h hash =
        let (moves, exclusive) =
          last-moves_from db rows row SettlementState.verified none SettlementState.verifying at
            fresh verifiable h in
        let verified = settlement_moved db.clock SettlementState.verified none row in
        let (moves', exclusive') =
          last-moves_from db rows verified SettlementState.pending_approval none
            SettlementState.verified refl fresh pendable exclusive in
        let pending = settlement_moved db.clock SettlementState.pending_approval none verified in
        let (ledger, logged) =
          log_event-writes row.id (text "approval_requested") (text "facilitator")
            (hash_payload hash) (tt, tt) (with_last db rows pending) in
        (
          ledger,
          pending,
          after_ok _ _ moves (after_ok _ _ moves' (after_ok _ _ logged refl)),
          refl,
          refl,
          clean,
          refl,
          refl,
          refl,
          exclusive',
        )

    settle_passed-Leaves-false :
        IsFreshId row.id rows
        → row.state ≡ SettlementState.verifying
        → row.reject_reason ≡ none
        → IsExclusive (rows ++ row ∷ [])
        → (hash : Text)
        → Leaves db rows row SettlementState.approved none
            (settle_passed crypto row.id false hash (with_last db rows row))
    unfolding settle_passed
    settle_passed-Leaves-false fresh at clean h hash =
        let (moves, exclusive) =
          last-moves_from db rows row SettlementState.verified none SettlementState.verifying at
            fresh verifiable h in
        let verified = settlement_moved db.clock SettlementState.verified none row in
        let (moves', exclusive') =
          last-moves_from db rows verified SettlementState.approved none SettlementState.verified
            refl fresh approvable exclusive in
        let approved = settlement_moved db.clock SettlementState.approved none verified in
        let (ledger, logged) =
          log_event-writes row.id (text "verify_passed") (text "facilitator") (hash_payload hash)
            (tt, tt) (with_last db rows approved) in
        (
          ledger,
          approved,
          after_ok _ _ moves (after_ok _ _ moves' (after_ok _ _ logged refl)),
          refl,
          refl,
          clean,
          refl,
          refl,
          refl,
          exclusive',
        )

    pub settle-Leaves :
        IsFreshId row.id rows
        → row.state ≡ SettlementState.verifying
        → row.reject_reason ≡ none
        → IsExclusive (rows ++ row ∷ [])
        → (g : Gate Pass) (s : SettlementState) (reason : Option Text) → Decided g s reason
        → Leaves db rows row s reason (settle crypto row.id g (with_last db rows row))
    unfolding settle
    settle-Leaves fresh at clean h _ _ _ (asks hash) =
        settle_passed-Leaves-true fresh at clean h hash
    settle-Leaves fresh at clean h _ _ _ (hands_free hash) =
        settle_passed-Leaves-false fresh at clean h hash
    settle-Leaves fresh at clean h _ _ _ (refuses code detail) =
        settle_rejected-Leaves fresh at h code detail
