-- ===== src/Buyer/Purchase/Reports.antt =====
-- What packages/mcp-server/src/tools/request-purchase.ts reports, and what the facilitator said.
use mathlib.Core.Path.{subst}
use hundi.Common.{
  ℕ, ◌≡◌, ◌≢◌, refl, ◌⊎◌, inl, inr, arith, Bool-cases, Option, none, some, List, [], ◌∷◌, Text,
}
use hundi.Facilitator.Db.{SettlementState, captured}
use hundi.Facilitator.Listed.{Listed}
use hundi.Buyer.AgentTools.{
  CartDraft, SettlementResult, SettlementCreateBody, SettlementGetBody, accepted, refused, stops,
  poll_settlement, read_settlement,
}
use hundi.Buyer.Purchase.{captured_report, uncaptured, report_purchase}

-- The facilitator answered that the settlement is captured, at once or when it was polled.
pub data SaidCaptured (settlement_id : Text) (body : SettlementCreateBody)
    (polled : List SettlementGetBody) : Type 0 where
  at_once :
      (reason : Option Text)
      → body ≡ accepted settlement_id captured reason
      → SaidCaptured settlement_id body polled
  later :
      (state : SettlementState) (reason reason' : Option Text)
      → body ≡ accepted settlement_id state reason
      → Listed (some (captured, reason')) polled
      → SaidCaptured settlement_id body polled

poll_settlement-id :
    (id : Text) (state : SettlementState) (reason : Option Text) (bodies : List SettlementGetBody)
    → (poll_settlement id state reason bodies).settlement_id ≡ id
unfolding poll_settlement
poll_settlement-id id state reason [] = refl
poll_settlement-id id state reason (none ∷ bodies) = poll_settlement-id id state reason bodies
poll_settlement-id id state reason (some (s, r) ∷ bodies) =
    ground (arith, poll_settlement-id id s r bodies)

poll_settlement-captured :
    (id : Text) (state : SettlementState) (reason : Option Text) (bodies : List SettlementGetBody)
    → (poll_settlement id state reason bodies).state ≡ captured
    → (state ≡ captured) ⊎ ((reason' : Option Text) × Listed (some (captured, reason')) bodies)
unfolding poll_settlement Listed
poll_settlement-captured id state reason [] e = inl e
poll_settlement-captured id state reason (none ∷ bodies) e =
    elim (poll_settlement-captured id state reason bodies e) [
      | inl now ↦ inl now
      | inr (r, l) ↦ inr (r, inr l)
    ]
poll_settlement-captured id state reason (some (s, r) ∷ bodies) e = elim (Bool-cases (stops s)) [
  | inl stopped ↦ let same : s ≡ captured = cc (e, stopped) in inr (r, inl (cc same))
  | inr goes_on ↦ elim (poll_settlement-captured id s r bodies (cc (e, goes_on))) [
    | inl now ↦ absurd (cc (now, goes_on))
    | inr (r', l) ↦ inr (r', inr l)
  ]
]

uncaptured-not_captured :
    (result : SettlementResult) (id : Text) (amount : ℕ)
    → uncaptured result ≢ captured_report id amount
uncaptured-not_captured result id amount e = ground arith

report_purchase-captured :
    (cart : CartDraft) (result : SettlementResult) (id : Text) (amount : ℕ)
    → report_purchase cart result ≡ captured_report id amount
    → (result.state ≡ captured) × (result.settlement_id ≡ id) × (amount ≡ cart.total_paise)
unfolding report_purchase
report_purchase-captured cart result id amount e =
    ground (arith, uncaptured-not_captured result id amount)

read_settlement-captured :
    (status : ℕ) (body : SettlementCreateBody) (polled : List SettlementGetBody)
    → (read_settlement status body polled).state ≡ captured
    → SaidCaptured (read_settlement status body polled).settlement_id body polled
unfolding read_settlement
read_settlement-captured status (refused error) polled e = absurd (ground arith)
read_settlement-captured status (accepted id state reason) polled e =
    elim (Bool-cases (stops state)) [
      | inl stopped ↦
          let same : state ≡ captured = cc (e, stopped) in rw stopped (at_once reason (cc same))
      | inr goes_on ↦
          elim (poll_settlement-captured id SettlementState.created none polled (cc (e, goes_on))) [
            | inl now ↦ absurd (cc now)
            | inr (r, l) ↦
                rw (goes_on, poll_settlement-id id SettlementState.created none polled)
                  (later state reason r refl l)
          ]
    ]

-- The tool reports a captured payment only for a settlement that the facilitator called captured,
-- at once or when polled, and with the cart's total.
pub report_purchase-said :
    (cart : CartDraft) (status : ℕ) (body : SettlementCreateBody) (polled : List SettlementGetBody)
    (settlement_id : Text) (amount : ℕ)
    → report_purchase cart (read_settlement status body polled)
      ≡ captured_report settlement_id amount
    → SaidCaptured settlement_id body polled × (amount ≡ cart.total_paise)
report_purchase-said cart status body polled settlement_id amount e =
    let (state, id, total) =
      report_purchase-captured cart (read_settlement status body polled) settlement_id amount e in
    (
      subst (λ i. SaidCaptured i body polled) id
          (read_settlement-captured status body polled state),
      total,
    )
