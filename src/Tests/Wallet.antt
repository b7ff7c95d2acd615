-- ===== src/Tests/Wallet.antt =====
-- Runs of applyCapture and of the routes on mandates, approvals and revocations, and each theorem
-- about them at a concrete input.
use hundi.Common.{
  ◌≡◌, ◌≢◌, refl, ◌+◌, ◌≤◌, true, false, none, some, [], ◌∷◌, text, ok, err, find, route_error,
}
use hundi.Tests.Fixtures.{
  toy_crypto, intent, cart, db, with_settlement, with_attempt, settlement_in, signature,
}
use hundi.Tests.Settlements.{service, no_rows, hash_taken, no_violation}
use hundi.Core.Value.{nat_of, text_of}
use hundi.Core.Verify.{Pass, verify_chain}
use hundi.Core.Verify.Checks.{passed}
use hundi.Core.Signature.{Credential}
use hundi.Facilitator.Db.{
  SettlementState, AttemptState, SettlementRow, Decision, settlement_body, Db,
}
use hundi.Facilitator.StateMachine.{
  attempt_transitions, can_move_attempt, AttemptState-discrete, attempt_violation,
  transition_attempt, in_state,
}
use hundi.Facilitator.MandateRepo.{get_captured_spend}
use hundi.Facilitator.VerifyLogic.{verify_ctx}
use hundi.Facilitator.SettlementService.{create_settlement}
use hundi.Facilitator.SettlementService.Ceiling.{create_settlement-within_ceiling}
use hundi.Facilitator.Reconcile.{CaptureTarget, apply_capture, capture_settlement, log_capture}
use hundi.Facilitator.Reconcile.Captures.{apply_capture-spends}
use hundi.Facilitator.Routes.Approvals.{Approval, Decided, decide, check_approval, post_approvals}
use hundi.Facilitator.Routes.Approvals.Once.{post_approvals-decides_once}
use hundi.Facilitator.Routes.Refund.{
  Refund, find_issued_refund, issue_refund, refund_captured, answer_refund, post_refund,
}
use hundi.Facilitator.Routes.Revoke.{revoke, finish, post_revoke}
use hundi.Facilitator.Routes.Revoke.Blocks.{post_revoke-blocks}
use hundi.Facilitator.Routes.Mandates.{
  consume_token, insert_mandate, bind_credential, register_mandate, post_mandates,
}
use hundi.Facilitator.Routes.Mandates.Token.{post_mandates-single_use}

-- The routes as they run.
unfoldable pub routes : Unit {0}
unfolding service attempt_transitions can_move_attempt AttemptState-discrete attempt_violation
    transition_attempt apply_capture capture_settlement log_capture decide check_approval
    post_approvals revoke finish post_revoke consume_token insert_mandate bind_credential
    register_mandate post_mandates find_issued_refund issue_refund refund_captured answer_refund
    post_refund
routes = tt

abbrev created_db : Db
created_db = (create_settlement toy_crypto (text "s1") intent cart 100 db).1

created : create_settlement toy_crypto (text "s1") intent cart 100 db ≡ (
  ok (record { status = 202; body = settlement_body (text "s1") SettlementState.approved none }),
  created_db,
)
unfolding routes
created = refl

approved-ne-rejected : SettlementState.approved ≢ SettlementState.rejected
approved-ne-rejected e = cc e

create_settlement-within_ceiling_example :
    get_captured_spend db (text_of intent.mandate_id) + nat_of cart.total_paise
    ≤ nat_of intent.ceiling_paise
create_settlement-within_ceiling_example =
    create_settlement-within_ceiling toy_crypto (text "s1") intent cart 100 db (37 ∷ [])
      SettlementState.approved none 202 created_db no_rows hash_taken no_violation created
      approved-ne-rejected

abbrev target : CaptureTarget
target = record {
  attempt_id = text "a1";
  attempt_state = AttemptState.awaiting_confirmation;
  settlement_id = text "s1";
  provider_order_id = some (text "o1");
}

abbrev captured_db : Db
captured_db =
    (apply_capture toy_crypto target (text "p1") (with_attempt SettlementState.settling)).1

captures :
    apply_capture toy_crypto target (text "p1") (with_attempt SettlementState.settling)
    ≡ (ok true, captured_db)
unfolding routes
captures = refl

apply_capture-spends_example :
    (row : SettlementRow) × (find
        (in_state (text "s1") SettlementState.settling)
        (settlement_in SettlementState.settling ∷ [])
      ≡ some row)
    × (get_captured_spend captured_db row.mandate_id
        ≡ get_captured_spend (with_attempt SettlementState.settling) row.mandate_id
          + row.amount_paise)
apply_capture-spends_example =
    apply_capture-spends toy_crypto target (text "p1") (with_attempt SettlementState.settling)
      captured_db captures

abbrev moved_db : Db
moved_db =
    (transition_attempt (text "a1") AttemptState.awaiting_confirmation AttemptState.captured
      (with_attempt SettlementState.abandoned)).1

abbrev pass : Pass
pass = record { needs_approval = false; mandate_cart_hash_hex = 37 ∷ [] }

abbrev revoked_db : Db
revoked_db = (post_revoke toy_crypto (text "m1") signature db).1

revokes : post_revoke toy_crypto (text_of intent.mandate_id) signature db ≡ (ok false, revoked_db)
unfolding routes
revokes = refl

post_revoke-blocks_example :
    verify_chain toy_crypto intent cart
      (verify_ctx toy_crypto revoked_db intent cart 100 none (37 ∷ []))
    ≢ passed pass
post_revoke-blocks_example =
    post_revoke-blocks toy_crypto signature false db revoked_db intent cart 100 none (37 ∷ []) pass
      revokes

abbrev approval : Approval
approval = record {
  settlement_id = text "s1";
  mandate_cart_hash_hex = 37 ∷ [];
  decision = Decision.approved;
  sig = signature;
}

abbrev decided : Decided
decided = record { state = SettlementState.approved; execute = some (text "s1") }

abbrev decided_db : Db
decided_db =
    (post_approvals toy_crypto 100 approval (with_settlement SettlementState.pending_approval)).1

approves :
    post_approvals toy_crypto 100 approval (with_settlement SettlementState.pending_approval)
    ≡ (ok decided, decided_db)
unfolding routes
approves = refl

post_approvals-decides_once_example :
    post_approvals toy_crypto 110 (record approval { decision = Decision.rejected }) decided_db
    ≢ (ok decided, db)
post_approvals-decides_once_example =
    post_approvals-decides_once toy_crypto 100 110 approval
      (record approval { decision = Decision.rejected }) decided decided
      (with_settlement SettlementState.pending_approval) decided_db db approves refl

abbrev empty_db : Db
empty_db = record db { mandates = [] }

abbrev registered_db : Db
registered_db =
    (post_mandates toy_crypto intent (Credential.ed25519 (text "0d")) (text "t1") empty_db).1

registers :
    post_mandates toy_crypto intent (Credential.ed25519 (text "0d")) (text "t1") empty_db
    ≡ (ok (163 ∷ []), registered_db)
unfolding routes
registers = refl

post_mandates-single_use_example :
    post_mandates toy_crypto intent (Credential.ed25519 (text "0e")) (text "t1") registered_db
    ≡ (err (route_error 401 (text "TOKEN_INVALID")), registered_db)
post_mandates-single_use_example =
    post_mandates-single_use toy_crypto intent intent (Credential.ed25519 (text "0d"))
      (Credential.ed25519 (text "0e")) (text "t1") (163 ∷ []) empty_db registered_db (refl, tt)
      registers

abbrev refund : Refund
refund = record { refund_id = text "rf1"; amount_paise = 400 }

abbrev refunded_db : Db
refunded_db = (post_refund toy_crypto (text "s1") (ok (text "rf1")) captured_db).1
