-- ===== src/Facilitator/MandateRepo.antt =====
-- packages/facilitator/src/mandate-repo.ts
use hundi.Common.{ℕ, Bool, ◌&&◌, Option, Text, ◌===◌, find, if◌then◌else◌}
use hundi.Facilitator.Db.{MandateRow, SettlementRow, SettlementState, Db}
use hundi.Facilitator.StateMachine.{is_state}
use hundi.Facilitator.Table.{total}

abbrev pub has_mandate_id : Text → MandateRow → Bool
has_mandate_id mandate_id row = row.mandate_id === mandate_id

unfoldable pub get_mandate_row : Db → Text → Option MandateRow
get_mandate_row db mandate_id = find (has_mandate_id mandate_id) db.mandates

-- What a row adds to the captured spend of a mandate.
abbrev pub captured_amount : Text → SettlementRow → ℕ
captured_amount mandate_id row =
    if (row.mandate_id === mandate_id) && is_state row.state SettlementState.captured
    then row.amount_paise
    else 0

unfoldable pub get_captured_spend : Db → Text → ℕ
get_captured_spend db mandate_id = total (captured_amount mandate_id) db.settlements

abbrev captured_amount_at : (mandate_id merchant_id : Text) → SettlementRow → ℕ
captured_amount_at mandate_id merchant_id row =
    if row.merchant_id === merchant_id then captured_amount mandate_id row else 0

unfoldable pub get_captured_spend_at_merchant : Db → (mandate_id merchant_id : Text) → ℕ
get_captured_spend_at_merchant db mandate_id merchant_id =
    total (captured_amount_at mandate_id merchant_id) db.settlements
