-- ===== src/Facilitator/Wallet/Fits.antt =====
-- A settlement whose cart the gate lets through fits under the ceiling of its mandate, since nothing
-- else of the mandate is settling: packages/core/src/verify.ts and packages/facilitator/src/db.
use hundi.Common.{
  ℕ, ◌+◌, ◌≤◌, ◌≡◌, sym, ap, ◌∙◌, inl, inr, Option, none, some, List, Text, find, ◌===◌,
  if◌then◌else◌, arith, Bool-cases,
}
use mathlib.Core.Path.{subst}
use hundi.Core.Crypto.{Crypto}
use hundi.Core.Value.{nat_of, text_of}
use hundi.Core.Mandate.{IntentMandate, CartMandate}
use hundi.Core.Verify.{Pass, verify_chain}
use hundi.Core.Verify.Checks.{RejectionCode, passed}
use hundi.Core.Verify.Passes.{verify_chain-passes_iff}
use hundi.Facilitator.Db.{SettlementState, SettlementRow, MandateRow, Db}
use hundi.Facilitator.Table.{find_holds}
use hundi.Facilitator.Listed.{Listed, find-Listed}
use hundi.Facilitator.StateMachine.{
  SettlementState-discrete, is_state, settlement_moved, transition_settlement,
}
use hundi.Facilitator.StateMachine.Moves.{Moved}
use hundi.Facilitator.StateMachine.Exclusive.{transition_settlement-outcome, IsExclusive}
use hundi.Facilitator.MandateRepo.{has_mandate_id, get_captured_spend, captured_amount}
use hundi.Facilitator.VerifyLogic.{verify_ctx}
use hundi.Facilitator.Wallet.{committed_amount, committed, IsDistinct, IsSolventDb}
use hundi.Facilitator.Wallet.Rows.{total-Listed, distinct-eq, same_text, find-in_state}
use hundi.Facilitator.Wallet.Moves.{Moved-committed, Moved-IsSolvent}

IsSolventDb-IsExclusive : (db : Db) → IsSolventDb db → IsExclusive db.settlements
unfolding IsSolventDb
IsSolventDb-IsExclusive db h = h.exclusive

-- Beside an approved settlement of a mandate, nothing of the mandate is settling.
amount_alone :
    (s t : SettlementRow) (rows : List SettlementRow)
    → IsExclusive rows
    → IsDistinct rows
    → Listed s rows
    → Listed t rows
    → s.state ≡ SettlementState.approved
    → committed_amount s.mandate_id t ≡ captured_amount s.mandate_id t
unfolding IsExclusive SettlementState-discrete
amount_alone s t rows h d ls lt at = elim (Bool-cases (is_state t.state SettlementState.settling)) [
  | inr other ↦ ground arith
  | inl settling ↦ elim (Bool-cases (t.mandate_id === s.mandate_id)) [
    | inr others ↦ ground arith
    | inl same ↦
        let (live, cart) = h s t ls lt in
        let eq : s ≡ t =
          distinct-eq s t rows d ls lt
            (live (ground arith) (ground arith) (sym (same_text t.mandate_id s.mandate_id same))) in
        absurd (ground (arith, ap (λ (x : SettlementRow). x.state) eq))
  ]
]

committed_alone :
    (s : SettlementRow) (db : Db)
    → IsSolventDb db
    → Listed s db.settlements
    → s.state ≡ SettlementState.approved
    → committed s.mandate_id db.settlements ≡ get_captured_spend db s.mandate_id
unfolding IsSolventDb committed get_captured_spend
committed_alone s db h l at =
    total-Listed (committed_amount s.mandate_id) (captured_amount s.mandate_id) db.settlements
      (λ t lt. amount_alone s t db.settlements h.exclusive h.distinct l lt at)

moved_amount :
    (id : Text) (s : SettlementRow) (clock : ℕ)
    → s.state ≡ SettlementState.approved
    → committed_amount id (settlement_moved clock SettlementState.settling none s)
      ≡ (if s.mandate_id === id then s.amount_paise else 0)
unfolding SettlementState-discrete
moved_amount id s clock at = ground arith

module _ (crypto : Crypto) where
  -- The gate lets a cart through only within the ceiling.
  pub passed-within :
      (db : Db) (intent : IntentMandate) (cart : CartMandate) (now : ℕ) (exclude : Option Text)
      (hash : Text) (p : Pass)
      → verify_chain crypto intent cart (verify_ctx crypto db intent cart now exclude hash)
        ≡ passed p
      → get_captured_spend db (text_of intent.mandate_id) + nat_of cart.total_paise
        ≤ nat_of intent.ceiling_paise
  unfolding verify_ctx
  passed-within db intent cart now exclude hash p e =
      (verify_chain-passes_iff intent cart (verify_ctx crypto db intent cart now exclude hash)
          crypto).0
        (p, e) RejectionCode.amount_exceeds_ceiling (omega arith)

  -- The move into `settling`, for a settlement that fits under the ceiling of its mandate.
  module _ (id : Text) (s : SettlementRow) (m : MandateRow) (db : Db) (h : IsSolventDb db)
      (found : find (λ r. r.id === id) db.settlements ≡ some s)
      (at : s.state ≡ SettlementState.approved)
      (registered : find (has_mandate_id s.mandate_id) db.mandates ≡ some m) where
    pub fits :
        get_captured_spend db (text_of m.intent.mandate_id) + nat_of s.cart.total_paise
          ≤ nat_of m.intent.ceiling_paise
        → committed s.mandate_id db.settlements + s.amount_paise ≤ nat_of m.intent.ceiling_paise
    unfolding IsSolventDb
    fits within =
        let listed = find-Listed s (λ r. r.id === id) db.settlements found in
        let name : m.mandate_id ≡ s.mandate_id =
          same_text m.mandate_id s.mandate_id
            (find_holds (has_mandate_id s.mandate_id) db.mandates registered) in
        let own = h.named m (find-Listed m (has_mandate_id s.mandate_id) db.mandates registered) in
        let spent : get_captured_spend db (text_of m.intent.mandate_id)
            ≡ get_captured_spend db s.mandate_id =
          ap (get_captured_spend db) (sym own ∙ name) in
        omega (arith, within, spent, committed_alone s db h listed at, h.amounts s listed)

    entered-within :
        committed s.mandate_id db.settlements + s.amount_paise ≤ nat_of m.intent.ceiling_paise
        → (db' : Db)
        → (moved : Moved id SettlementState.approved SettlementState.settling none db db')
        → (mandate_id : Text) (mandate : MandateRow)
        → find (has_mandate_id mandate_id) db.mandates ≡ some mandate
        → committed mandate_id db'.settlements ≤ nat_of mandate.intent.ceiling_paise
    unfolding IsSolventDb
    entered-within fit db' moved mandate_id mandate named =
        let row : moved.row ≡ s = cc (
          moved.found,
          find-in_state id SettlementState.approved db.settlements {r = s} found at,
        ) in
        let counted =
          Moved-committed id SettlementState.approved SettlementState.settling none db db' moved
            mandate_id in
        let after : committed_amount mandate_id
              (settlement_moved db.clock SettlementState.settling none moved.row)
            ≡ (if s.mandate_id === mandate_id then s.amount_paise else 0) =
          ap
            (λ r.
              committed_amount mandate_id
                (settlement_moved db.clock SettlementState.settling none r))
            row
          ∙ moved_amount mandate_id s db.clock at in
        elim (Bool-cases (s.mandate_id === mandate_id)) [
          | inr other ↦ omega (
            arith,
            counted,
            after ∙ ap (λ b. if b then s.amount_paise else 0) other,
            h.within mandate_id mandate named,
          )
          | inl mine ↦
              let owner : s.mandate_id ≡ mandate_id = same_text s.mandate_id mandate_id mine in
              let same : m ≡ mandate = cc (registered, named, owner) in
              omega (
                arith,
                counted,
                after ∙ ap (λ b. if b then s.amount_paise else 0) mine,
                subst
                    (λ i.
                      committed i db.settlements + s.amount_paise
                      ≤ nat_of mandate.intent.ceiling_paise)
                    owner
                    (subst
                      (λ (x : MandateRow).
                        committed s.mandate_id db.settlements + s.amount_paise
                        ≤ nat_of x.intent.ceiling_paise)
                      same fit),
              )
        ]

    pub enters-IsSolvent :
        committed s.mandate_id db.settlements + s.amount_paise ≤ nat_of m.intent.ceiling_paise
        → IsSolventDb
            (transition_settlement id SettlementState.approved SettlementState.settling none db).1
    enters-IsSolvent fit =
        elim (transition_settlement-outcome id SettlementState.approved SettlementState.settling
          none db (IsSolventDb-IsExclusive db h)) [
            | inl (illegal, e) ↦ subst (λ r. IsSolventDb r.1) (sym e) h
            | inr (inl (legal, missing, e)) ↦ subst (λ r. IsSolventDb r.1) (sym e) h
            | inr (inr (db', e, moved, exclusive)) ↦
                subst (λ r. IsSolventDb r.1) (sym e)
                  (Moved-IsSolvent id SettlementState.approved SettlementState.settling none db db'
                    moved h (entered-within fit db' moved))
          ]
