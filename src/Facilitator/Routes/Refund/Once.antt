-- ===== src/Facilitator/Routes/Refund/Once.antt =====
-- A settlement is refunded once: packages/facilitator/src/routes/refund.ts.
use hundi.Common.{false, [], ◌∷◌, ◌++◌, any, Result-cases, provider_error, Option, Exception}
use hundi.Core.Crypto.{Crypto}
use hundi.Facilitator.Db.{LedgerRow, Db}
use hundi.Facilitator.Routes.Refund.{Refund}

abbrev with_row : LedgerRow → Db → Db
with_row row db = record db { ledger = db.ledger ++ row ∷ [] }
