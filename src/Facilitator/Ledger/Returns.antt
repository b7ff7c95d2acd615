-- ===== src/Facilitator/Ledger/Returns.antt =====
-- An append returns if its payload is canonical, and then writes the ledger only.
use hundi.Common.{
  ap, sym, ◌∙◌, ◌++◌, ◌∷◌, [], Result-cases, ◌≡◌, Option, none, some, Text, ok, ℕ, List, inl, inr,
}
use mathlib.Core.Path.{subst}
use hundi.Core.Value.{Value}
use hundi.Core.CanonicalJson.{canonical_json}
use hundi.Core.CanonicalJson.Total.{IsCanonical, Returns, Returns-canonical_json}
use hundi.Core.Crypto.{Crypto}
use hundi.Facilitator.Db.{LedgerRow, Db}
use hundi.Facilitator.Ledger.{
  AppendLedgerInput, hashed_fields, current_head, new_row, append_ledger,
}
use hundi.Facilitator.Ledger.Chain.{append_ledger_lem, append_ledger_err}

hashed_fields-Returns :
    (event_type actor prev : Text) (settlement_id : Option Text) (payload : Value)
    → IsCanonical payload
    → Returns (canonical_json (hashed_fields event_type settlement_id actor payload prev))
hashed_fields-Returns event_type actor prev none payload h =
    (Returns-canonical_json _).1 (tt, (tt, (tt, (h, (tt, tt)))))
hashed_fields-Returns event_type actor prev (some id) payload h =
    (Returns-canonical_json _).1 (tt, (tt, (tt, (h, (tt, tt)))))

module _ (crypto : Crypto) where
  pub append_ledger-writes :
      (input : AppendLedgerInput)
      → IsCanonical input.payload
      → (db : Db)
      → (ledger : List LedgerRow) × (entry : ℕ × Text) × (append_ledger crypto input db
          ≡ (ok entry, record db { ledger = ledger }))
  append_ledger-writes input h db =
      let returns =
        hashed_fields-Returns input.event_type input.actor (current_head db) input.settlement_id
          input.payload h in
      elim (Result-cases (
        canonical_json (
          hashed_fields input.event_type input.settlement_id input.actor input.payload
            (current_head db)))) [
              | inl (bytes, q) ↦ (_, _, append_ledger_lem crypto input db bytes q)
              | inr (x, q) ↦ absurd (subst Returns q returns)
            ]

  -- An append that returns has put its row at the end, and nothing else.
  pub append_ledger-returned :
      (input : AppendLedgerInput) (db db' : Db) (entry : ℕ × Text)
      → append_ledger crypto input db ≡ (ok entry, db')
      → (row_hash : Text) × (db' ≡ record db {
        ledger = db.ledger ++ new_row db.ledger input (current_head db) row_hash ∷ [];
      })
  append_ledger-returned input db db' entry e =
      elim (Result-cases (
        canonical_json (
          hashed_fields input.event_type input.settlement_id input.actor input.payload
            (current_head db)))) [
              | inl (bytes, q) ↦
                  (_, ap (λ r. r.1) (sym e ∙ append_ledger_lem crypto input db bytes q))
              | inr (x, q) ↦ absurd (cc (e, append_ledger_err crypto input db x q))
            ]
