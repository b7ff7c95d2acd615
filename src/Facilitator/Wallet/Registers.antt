-- ===== src/Facilitator/Wallet/Registers.antt =====
-- A wallet stays solvent when mandates are registered and revoked, and settlements reserved.
use hundi.Facilitator.Distinct.{append-HasDistinct}
use hundi.Facilitator.Action.{◌>>=◌}
use hundi.Facilitator.Sweep.Rules.{bump_kicks}
use hundi.Common.{
  Bool-cases, ◌⊎◌, ℕ, ◌+◌, ◌≤◌, ◌≡◌, refl, sym, ap, ◌∙◌, inl, inr, Bool, true, false, none, some,
  List, [], ◌∷◌, ◌++◌, Text, find, is_some, arith,
}
use mathlib.Core.Path.{subst}
use hundi.Core.Value.{nat_of, text_of}
use hundi.Core.Mandate.{IntentMandate, CartMandate}
use hundi.Core.Signature.{Credential}
use hundi.Facilitator.Db.{SettlementState, SettlementRow, MandateRow, Db}
use hundi.Facilitator.Table.{update, total, total-append_one}
use hundi.Facilitator.Listed.{Listed, Listed-append, Listed-update, find-Listed}
use hundi.Facilitator.StateMachine.{in_state, settlement_violation}
use hundi.Facilitator.StateMachine.Exclusive.{IsExclusive}
use hundi.Facilitator.MandateRepo.{has_mandate_id, get_mandate_row}
use hundi.Facilitator.SettlementService.{new_settlement, insert_violation}
use hundi.Facilitator.SettlementService.Last.{insert-IsExclusive, IsFreshId}
use hundi.Facilitator.Routes.Mandates.{mandate_exists, mandate_row}
use hundi.Facilitator.Wallet.{committed_amount, committed, IsSolventDb}
use hundi.Facilitator.Wallet.Rows.{total-Listed, same_text}
use hundi.Facilitator.Wallet.Moves.{updated-IsSolvent}

insert_violation-fields :
    (row : SettlementRow) (db : Db)
    → insert_violation row db ≡ none
    → IsFreshId row.id db.settlements
      × (settlement_violation row db.settlements ≡ none)
      × (is_some (find (has_mandate_id row.mandate_id) db.mandates) ≡ true)
unfolding insert_violation get_mandate_row
insert_violation-fields row db fine = ground arith

-- A settlement that is reserved commits nothing yet.
pub insert_settlement-IsSolvent :
    (id : Text) (intent : IntentMandate) (cart : CartMandate) (hash : Text) (db : Db)
    → insert_violation (new_settlement id intent cart hash db.clock) db ≡ none
    → IsSolventDb db
    → IsSolventDb (record db {
      settlements = db.settlements ++ new_settlement id intent cart hash db.clock ∷ [];
    })
unfolding IsSolventDb committed
insert_settlement-IsSolvent id intent cart hash db fine h =
    let row = new_settlement id intent cart hash db.clock in
    let (fresh, free, known) = insert_violation-fields row db fine in
    record {
      exclusive = insert-IsExclusive db.settlements row free h.exclusive;
      distinct =
          append-HasDistinct (λ (s : SettlementRow). s.id) db.settlements row h.distinct fresh;
      amounts = λ s l. elim (Listed-append s db.settlements row l) [
        | inl old ↦ h.amounts s old
        | inr same ↦ subst (λ x. x.amount_paise ≡ nat_of x.cart.total_paise) same refl
      ];
      owned = λ s l. elim (Listed-append s db.settlements row l) [
        | inl old ↦ h.owned s old
        | inr same ↦
            subst (λ x. is_some (find (has_mandate_id x.mandate_id) db.mandates) ≡ true) same known
      ];
      named = h.named;
      within = λ mandate_id m found.
          let none_yet : committed_amount mandate_id row ≡ 0 = ground arith in
          omega (
            arith,
            total-append_one (committed_amount mandate_id) db.settlements row,
            none_yet,
            h.within mandate_id m found,
          );
    }

find-append_one :
    (id : Text) (rows : List MandateRow) (m : MandateRow) {r : MandateRow}
    → find (has_mandate_id id) (rows ++ m ∷ []) ≡ some r
    → (find (has_mandate_id id) rows ≡ some r) ⊎ ((find (has_mandate_id id) rows ≡ none) × (m ≡ r))
find-append_one id [] m {r} e = ground arith
find-append_one id (x ∷ rows) m {r} e = ground (arith, find-append_one id rows m {r = r})

is_some-append_one :
    (id : Text) (rows : List MandateRow) (m : MandateRow)
    → is_some (find (has_mandate_id id) rows) ≡ true
    → is_some (find (has_mandate_id id) (rows ++ m ∷ [])) ≡ true
is_some-append_one id [] m e = cc e
is_some-append_one id (x ∷ rows) m e = ground (arith, is_some-append_one id rows m)

total_zero {ℓ} : {A : Type ℓ} (rows : List A) → total (λ r. 0) rows ≡ 0
unfolding total
total_zero [] = refl
total_zero (r ∷ rows) = omega (arith, total_zero rows)

committed_amount-other :
    (id : Text) (s : SettlementRow) → (s.mandate_id ≡ id → ⊥) → committed_amount id s ≡ 0
committed_amount-other id s ne = ground (arith, ne, same_text s.mandate_id id)

-- A mandate without a row has committed nothing.
unowned-committed :
    (db : Db) (id : Text)
    → IsSolventDb db
    → find (has_mandate_id id) db.mandates ≡ none
    → committed id db.settlements ≡ 0
unfolding IsSolventDb committed
unowned-committed db id h missing =
    total-Listed (committed_amount id) (λ r. 0) db.settlements
      (λ s l. committed_amount-other id s (λ e. cc (h.owned s l, e, missing)))
    ∙ total_zero db.settlements

-- A mandate that is registered has spent nothing yet.
pub insert_mandate-IsSolvent :
    (intent : IntentMandate) (hash : Text) (credential : Credential) (db : Db)
    → mandate_exists (text_of intent.mandate_id) hash db ≡ false
    → IsSolventDb db
    → IsSolventDb
        (record db { mandates = db.mandates ++ mandate_row intent hash credential db.clock ∷ [] })
insert_mandate-IsSolvent intent hash credential db new h =
    let row = mandate_row intent hash credential db.clock in
    unfold IsSolventDb in
    record {
      exclusive = h.exclusive;
      distinct = h.distinct;
      amounts = h.amounts;
      owned = λ s l. is_some-append_one s.mandate_id db.mandates row (h.owned s l);
      named = λ m l. elim (Listed-append m db.mandates row l) [
        | inl old ↦ h.named m old
        | inr same ↦ subst (λ x. x.mandate_id ≡ text_of x.intent.mandate_id) same refl
      ];
      within = λ id m found. elim (find-append_one id db.mandates row {r = m} found) [
        | inl old ↦ h.within id m old
        | inr (missing, same) ↦ omega (arith, unowned-committed db id h missing)
      ];
    }

-- A row that is found with some rows revoked is one of the rows before, with the same intent.
module _ (name : Text) (clock : ℕ) where
  abbrev revoked : List MandateRow → List MandateRow
  revoked rows = update (has_mandate_id name) (λ row. record row { revoked_at = some clock }) rows

  abbrev WasFound : Text → List MandateRow → MandateRow → Type 0
  WasFound id rows m =
      (m' : MandateRow) × (find (has_mandate_id id) rows ≡ some m') × (m.intent ≡ m'.intent)

  find-revoked :
      (id : Text) (rows : List MandateRow) (m : MandateRow)
      → find (has_mandate_id id) (revoked rows) ≡ some m
      → WasFound id rows m
  unfolding update
  find-revoked id [] m e = absurd (cc e)
  find-revoked id (r ∷ rows) m e = elim (Bool-cases (has_mandate_id id r)) [
    | inl here ↦ elim (Bool-cases (has_mandate_id name r)) [
      | inl hit ↦ (r, ground arith, ground arith)
      | inr miss ↦ (r, ground arith, ground arith)
    ]
    | inr later ↦ elim (Bool-cases (has_mandate_id name r)) [
      | inl hit ↦ (m, ground arith, refl)
      | inr miss ↦
          let (m', found, same) = find-revoked id rows m (ground arith) in (m', ground arith, same)
    ]
  ]

  is_some-revoked :
      (id : Text) (rows : List MandateRow)
      → is_some (find (has_mandate_id id) (revoked rows)) ≡ is_some (find (has_mandate_id id) rows)
  unfolding update
  is_some-revoked id [] = refl
  is_some-revoked id (r ∷ rows) = ground (arith, is_some-revoked id rows)

-- A revocation changes no promise.
pub revoke_mandate-IsSolvent :
    (name : Text) (db : Db)
    → IsSolventDb db
    → IsSolventDb (record db {
      mandates =
          update
            (has_mandate_id name)
            (λ row. record row { revoked_at = some db.clock })
            db.mandates;
    })
revoke_mandate-IsSolvent name db h =
    unfold IsSolventDb in
    record {
      exclusive = h.exclusive;
      distinct = h.distinct;
      amounts = h.amounts;
      owned = λ s l. is_some-revoked name db.clock s.mandate_id db.mandates ∙ h.owned s l;
      named = λ m l.
          elim (Listed-update m (has_mandate_id name)
            (λ row. record row { revoked_at = some db.clock }) db.mandates l) [
              | inl old ↦ h.named m old
              | inr (t, found, same) ↦
                  subst (λ x. x.mandate_id ≡ text_of x.intent.mandate_id) same
                    (h.named t (find-Listed t (has_mandate_id name) db.mandates found))
            ];
      within = λ id m found.
          let (m', before, same) = find-revoked name db.clock id db.mandates m found in
          subst (λ i. committed id db.settlements ≤ nat_of (IntentMandate.ceiling_paise i))
            (sym same) (h.within id m' before);
    }

module _ (p : SettlementRow → Bool) where
  abbrev bumped : List SettlementRow → List SettlementRow
  bumped rows = update p (λ row. record row { kick_count = row.kick_count + 1 }) rows

  -- A row after a kick was counted, up to the count.
  Listed-bumped :
      (rows : List SettlementRow) (r : SettlementRow)
      → Listed r (bumped rows)
      → (s : SettlementRow) × Listed s rows
        × (s.id ≡ r.id)
        × (s.mandate_id ≡ r.mandate_id)
        × (s.state ≡ r.state)
        × (s.mandate_cart_hash_hex ≡ r.mandate_cart_hash_hex)
  Listed-bumped rows r l =
      elim (Listed-update r p (λ row. record row { kick_count = row.kick_count + 1 }) rows l) [
        | inl old ↦ (r, old, refl, refl, refl, refl)
        | inr (t, found, same) ↦ (
          t,
          find-Listed t p rows found,
          ap (λ (x : SettlementRow). x.id) same,
          ap (λ (x : SettlementRow). x.mandate_id) same,
          ap (λ (x : SettlementRow). x.state) same,
          ap (λ (x : SettlementRow). x.mandate_cart_hash_hex) same,
        )
      ]

  bumped-IsExclusive : (rows : List SettlementRow) → IsExclusive rows → IsExclusive (bumped rows)
  unfolding IsExclusive
  bumped-IsExclusive rows h r s lr ls =
      let (r', lr', ri, rm, rt, rc) = Listed-bumped rows r lr in
      let (s', ls', si, sm, st, sc) = Listed-bumped rows s ls in
      let (live, cart) = h r' s' lr' ls' in
      (
        (λ a b e. sym ri ∙ live (cc (a, rt)) (cc (b, st)) (rm ∙ (e ∙ sym sm)) ∙ si),
        (λ a b e. sym ri ∙ cart (cc (a, rt)) (cc (b, st)) (rc ∙ (e ∙ sym sc)) ∙ si),
      )

  bumped-committed :
      (id : Text) (rows : List SettlementRow) → committed id (bumped rows) ≡ committed id rows
  unfolding committed total update
  bumped-committed id [] = refl
  bumped-committed id (r ∷ rows) = ground (arith, bumped-committed id rows)

-- Counting a kick changes no promise.
pub bump_kicks-IsSolvent : (id : Text) (db : Db) → IsSolventDb db → IsSolventDb (bump_kicks id db).1
unfolding IsSolventDb bump_kicks ◌>>=◌
bump_kicks-IsSolvent id db h =
    updated-IsSolvent db.mandates (in_state id SettlementState.approved)
      (λ row. record row { kick_count = row.kick_count + 1 }) db.settlements (λ r. refl) (λ r. refl)
      (λ r. ((λ e. e), (λ e. e))) h
      (bumped-IsExclusive (in_state id SettlementState.approved) db.settlements h.exclusive)
      (λ mandate_id m found. omega (
        arith,
        bumped-committed (in_state id SettlementState.approved) mandate_id db.settlements,
        h.within mandate_id m found,
      ))
