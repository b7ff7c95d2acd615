-- ===== src/Facilitator/Wallet.antt =====
-- What the tables of packages/facilitator/src/db/schema.sql promise of a wallet: a mandate never
-- spends, nor stands to spend, more than the ceiling that its human signed.
pub mod Rows
pub mod Moves
pub mod Registers
pub mod Fits
pub mod Entering
use hundi.Common.{
  ℕ, ◌≤◌, ◌≡◌, Bool, true, false, ◌&&◌, Option, some, List, [], ◌∷◌, Text, any, find, is_some,
  ◌===◌, if◌then◌else◌,
}
use hundi.Core.Value.{nat_of, text_of}
use hundi.Core.Mandate.{IntentMandate, CartMandate}
use hundi.Facilitator.Db.{SettlementState, SettlementRow, MandateRow, Db}
use hundi.Facilitator.Table.{total}
use hundi.Facilitator.Distinct.{HasDistinct}
use hundi.Facilitator.Listed.{Listed}
use hundi.Facilitator.StateMachine.Exclusive.{IsExclusive}
use hundi.Facilitator.MandateRepo.{has_mandate_id}

-- The money of the settlement has moved, or is moving.
abbrev pub is_committed : SettlementState → Bool
is_committed SettlementState.settling = true
is_committed SettlementState.captured = true
is_committed _ = false

abbrev pub committed_amount : Text → SettlementRow → ℕ
committed_amount mandate_id row =
    if (row.mandate_id === mandate_id) && is_committed row.state then row.amount_paise else 0

-- What a mandate has spent, with what is being spent.
unfoldable pub committed : Text → List SettlementRow → ℕ
committed mandate_id rows = total (committed_amount mandate_id) rows

-- The primary key of `settlements`.
abbrev pub IsDistinct : List SettlementRow → Type 0
IsDistinct rows = HasDistinct (λ s. s.id) rows

pub record IsSolvent (mandates : List MandateRow) (settlements : List SettlementRow) : Type 0 where
  pub exclusive : IsExclusive settlements
  pub distinct : IsDistinct settlements
  -- The amount is the total of the cart.
  pub amounts :
      (s : SettlementRow) → Listed s settlements → s.amount_paise ≡ nat_of s.cart.total_paise
  -- The mandate is registered.
  pub owned :
      (s : SettlementRow)
      → Listed s settlements
      → is_some (find (has_mandate_id s.mandate_id) mandates) ≡ true
  -- A mandate is stored under its own name.
  pub named :
      (m : MandateRow)
      → Listed m mandates
      → m.mandate_id ≡ text_of (IntentMandate.mandate_id m.intent)
  pub within :
      (mandate_id : Text) (m : MandateRow)
      → find (has_mandate_id mandate_id) mandates ≡ some m
      → committed mandate_id settlements ≤ nat_of (IntentMandate.ceiling_paise m.intent)

unfoldable pub IsSolventDb : Db → Type 0
IsSolventDb db = IsSolvent db.mandates db.settlements
