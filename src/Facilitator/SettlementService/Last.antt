-- ===== src/Facilitator/SettlementService/Last.antt =====
-- A settlement that was just inserted is the last row, and moves there.
use hundi.Common.{
  ◌≡◌, refl, ◌∙◌, inl, inr, true, false, Option, none, some, List, [], ◌∷◌, ◌++◌, find, any, Text,
  ◌===◌, ok, arith, ap,
}
use mathlib.Core.Path.{subst}
use hundi.Facilitator.Db.{SettlementState, SettlementRow, Db}
use hundi.Facilitator.Table.{update}
use hundi.Facilitator.Listed.{Listed-append}
use hundi.Facilitator.StateMachine.{
  can_move, in_state, settlement_moved, transition_settlement, settlement_violation,
}
use hundi.Facilitator.StateMachine.Moves.{Moved, transition_settlement-written}
use hundi.Facilitator.StateMachine.Exclusive.{
  IsExclusive, legal-allowed, Apart, allowed-Apart, Apart-sym, Moved-IsExclusive, in_state_refl,
}

-- No row has the id.
abbrev pub IsFreshId : Text → List SettlementRow → Type 0
IsFreshId id rows = any (λ s. s.id === id) rows ≡ false

module _ (id : Text) (from : SettlementState) (f : SettlementRow → SettlementRow)
    (row : SettlementRow) where
  find_last :
      (rows : List SettlementRow)
      → IsFreshId id rows
      → in_state id from row ≡ true
      → find (in_state id from) (rows ++ row ∷ []) ≡ some row
  find_last [] fresh here = ground arith
  find_last (s ∷ rows) fresh here = ground (arith, find_last rows)

  update_last :
      (rows : List SettlementRow)
      → IsFreshId id rows
      → in_state id from row ≡ true
      → update (in_state id from) f (rows ++ row ∷ []) ≡ rows ++ f row ∷ []
  unfolding update
  update_last [] fresh here = ground arith
  update_last (s ∷ rows) fresh here = ground (arith, update_last rows)

-- The database with `row` behind `rows`.
abbrev pub with_last : Db → List SettlementRow → SettlementRow → Db
with_last db rows row = record db { settlements = rows ++ row ∷ [] }

-- An inserted row that violates no index leaves rows that satisfy them.
pub insert-IsExclusive :
    (rows : List SettlementRow) (row : SettlementRow)
    → settlement_violation row rows ≡ none
    → IsExclusive rows
    → IsExclusive (rows ++ row ∷ [])
unfolding IsExclusive
insert-IsExclusive rows row fine h r s lr ls = elim (Listed-append r rows row lr) [
  | inl old_r ↦ elim (Listed-append s rows row ls) [
    | inl old_s ↦ h r s old_r old_s
    | inr same ↦ subst (Apart r) same (Apart-sym row r (allowed-Apart row r rows fine old_r))
  ]
  | inr same ↦ elim (Listed-append s rows row ls) [
    | inl old_s ↦ subst (λ x. Apart x s) same (allowed-Apart row s rows fine old_s)
    | inr same' ↦ let ids : r.id ≡ s.id = cc (same, same') in ((λ _ _ _. ids), (λ _ _ _. ids))
  ]
]

module _ (db : Db) (rows : List SettlementRow) (row : SettlementRow) (to : SettlementState)
    (reason : Option Text) where
  -- The last row moves, and the indexes hold again.
  last-moves :
      IsFreshId row.id rows
      → can_move row.state to ≡ true
      → IsExclusive (rows ++ row ∷ [])
      → (transition_settlement row.id row.state to reason (with_last db rows row)
          ≡ (ok tt, with_last db rows (settlement_moved db.clock to reason row)))
        × IsExclusive (rows ++ settlement_moved db.clock to reason row ∷ [])
  last-moves fresh legal h =
      let found = find_last row.id row.state (λ s. s) row rows fresh (in_state_refl row) in
      let fine =
        legal-allowed row.id row.state to reason (with_last db rows row) h row legal found in
      let f = settlement_moved db.clock to reason in
      let at_end = update_last row.id row.state f row rows fresh (in_state_refl row) in
      let moved : Moved row.id row.state to reason (with_last db rows row) _ = record {
        row = row;
        legal = legal;
        found = found;
        allowed = fine;
        written = refl;
      } in
      (
        transition_settlement-written row.id row.state to reason (with_last db rows row) row legal
              found fine
            ∙ ap (λ rs. (ok tt, record db { settlements = rs })) at_end,
        subst IsExclusive at_end (Moved-IsExclusive row.id row.state to reason _ _ moved h),
      )

  pub last-moves_from :
      (from : SettlementState)
      → row.state ≡ from
      → IsFreshId row.id rows
      → can_move from to ≡ true
      → IsExclusive (rows ++ row ∷ [])
      → (transition_settlement row.id from to reason (with_last db rows row)
          ≡ (ok tt, with_last db rows (settlement_moved db.clock to reason row)))
        × IsExclusive (rows ++ settlement_moved db.clock to reason row ∷ [])
  last-moves_from from at fresh legal h =
      let (moves, exclusive) = last-moves fresh (cc (legal, at)) h in
      (
        subst
            (λ s.
              transition_settlement row.id s to reason (with_last db rows row)
              ≡ (ok tt, with_last db rows (settlement_moved db.clock to reason row)))
            at moves,
        exclusive,
      )
