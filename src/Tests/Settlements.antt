-- ===== src/Tests/Settlements.antt =====
-- Runs of POST /settlements, of the ledger and of the state machine, and each theorem about them at a
-- concrete input.
use hundi.Common.{
  ◌≡◌, ◌≢◌, refl, ◌⊎◌, true, false, none, some, [], ◌∷◌, text, ok, err, find, invalid_transition,
  stale_transition, route_error,
}
use hundi.Tests.Fixtures.{bytes_of, toy_crypto, intent, cart, body, db}
use hundi.Tests.Gate.{gate}
use hundi.Core.Value.{obj, end}
use hundi.Core.CanonicalJson.{canonical_json}
use hundi.Core.Signature.{sha256_hex}
use hundi.Facilitator.Db.{SettlementState, settlement_body, Db}
use hundi.Facilitator.Action.{◌>>=◌, tx, moves}
use hundi.Facilitator.Table.{update}
use hundi.Facilitator.Listed.{Listed}
use hundi.Facilitator.StateMachine.{
  transition_settlement, can_move, settlement_transitions, SettlementState-discrete,
  settlement_violation, in_state,
}
use hundi.Facilitator.StateMachine.Moves.{Moved}
use hundi.Facilitator.StateMachine.Exclusive.{IsExclusive, transition_settlement-outcome}
use hundi.Facilitator.Ledger.{
  AppendLedgerInput, append_ledger, verify_ledger, intact, current_head, genesis_hash,
}
use hundi.Facilitator.Ledger.Chain.{append_ledger-intact}
use hundi.Facilitator.VerifyLogic.{compute_mandate_cart_hash, build_verify_ctx}
use hundi.Facilitator.SettlementService.{
  create_settlement, new_settlement, insert_violation, create_known, reserve, verify_reserved,
  settle, settle_passed,
}
use hundi.Facilitator.Idempotency.{claim_idempotency_key, complete_idempotency_key, existing_claim}
use hundi.Facilitator.Routes.Settlements.{
  Answer, post_settlements, answer_claim, create_and_complete,
}
use hundi.Facilitator.Routes.Settlements.Replay.{
  post_settlements-replays, post_settlements-key_reused,
}

-- The service as it runs.
unfoldable pub service : Unit {0}
unfolding gate ◌>>=◌ update transition_settlement can_move settlement_transitions
    SettlementState-discrete settlement_violation append_ledger verify_ledger current_head
    compute_mandate_cart_hash create_settlement insert_violation create_known reserve
    verify_reserved settle settle_passed claim_idempotency_key complete_idempotency_key
    existing_claim post_settlements answer_claim create_and_complete Listed build_verify_ctx tx
    moves
service = tt

abbrev input : AppendLedgerInput
input = record { event_type = text "e"; settlement_id = none; actor = text "a"; payload = obj end }

abbrev logged_db : Db
logged_db = (append_ledger toy_crypto input db).1

pub ledger_empty : verify_ledger toy_crypto db ≡ ok (intact genesis_hash 0)
unfolding service
ledger_empty = refl

ledger_logged : append_ledger toy_crypto input db ≡ (ok (1, 92 ∷ []), logged_db)
unfolding service
ledger_logged = refl

append_ledger-intact_example : verify_ledger toy_crypto logged_db ≡ ok (intact (92 ∷ []) 1)
append_ledger-intact_example =
    append_ledger-intact toy_crypto input db logged_db ledger_empty ledger_logged

pub no_rows : IsExclusive []
unfolding service IsExclusive
no_rows r s l m = elim l [ ]

transition_settlement-outcome_example :
    ((can_move SettlementState.created SettlementState.verifying ≡ false)
      × (transition_settlement (text "s1") SettlementState.created SettlementState.verifying none db
          ≡ (err invalid_transition, db)))
    ⊎ ((can_move SettlementState.created SettlementState.verifying ≡ true)
        × (find (in_state (text "s1") SettlementState.created) db.settlements ≡ none)
        × (transition_settlement
              (text "s1")
              SettlementState.created
              SettlementState.verifying
              none
              db
            ≡ (err stale_transition, db)))
    ⊎ ((db' : Db) × (transition_settlement
            (text "s1")
            SettlementState.created
            SettlementState.verifying
            none
            db
          ≡ (ok tt, db'))
        × Moved (text "s1") SettlementState.created SettlementState.verifying none db db'
        × IsExclusive db'.settlements)
transition_settlement-outcome_example =
    transition_settlement-outcome (text "s1") SettlementState.created SettlementState.verifying none
      db no_rows

pub hash_taken : compute_mandate_cart_hash toy_crypto intent cart ≡ ok (37 ∷ [])
unfolding service
hash_taken = refl

pub no_violation : insert_violation (new_settlement (text "s1") intent cart (37 ∷ []) 100) db ≡ none
unfolding service
no_violation = refl

abbrev answer : Answer
answer = record {
  status = 202;
  body = settlement_body (text "s1") SettlementState.approved none;
  execute = some (text "s1");
}

abbrev answered_db : Db
answered_db = (post_settlements toy_crypto (some (text "k1")) body (text "s1") 100 db).1

first_answer :
    post_settlements toy_crypto (some (text "k1")) body (text "s1") 100 db
    ≡ (ok answer, answered_db)
unfolding service
first_answer = refl

post_settlements-replays_example :
    post_settlements toy_crypto (some (text "k1")) body (text "s2") 130 answered_db
    ≡ (ok (record answer { execute = none }), answered_db)
post_settlements-replays_example =
    post_settlements-replays toy_crypto b'k' (text "1") body (text "s1") (text "s2") 100 130 answer
      db answered_db first_answer

body_bytes : canonical_json body ≡ ok (bytes_of body)
unfolding service
body_bytes = refl

other_bytes : canonical_json (obj end) ≡ ok (bytes_of (obj end))
unfolding service
other_bytes = refl

hashes_differ : sha256_hex toy_crypto (bytes_of body) ≢ sha256_hex toy_crypto (bytes_of (obj end))
unfolding service
hashes_differ e = cc e

post_settlements-key_reused_example :
    post_settlements toy_crypto (some (text "k1")) (obj end) (text "s2") 130 answered_db
    ≡ (err (route_error 409 (text "KEY_REUSED")), answered_db)
post_settlements-key_reused_example =
    post_settlements-key_reused toy_crypto b'k' (text "1") body (obj end) (text "s1") (text "s2")
      100 130 answer db answered_db (bytes_of body) (bytes_of (obj end)) body_bytes other_bytes
      hashes_differ first_answer
