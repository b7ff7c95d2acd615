-- ===== src/Facilitator/StateMachine/Exclusive.antt =====
-- The invariants that the two partial unique indexes on `settlements` stand for, and that no move
-- can run into: packages/facilitator/src/db/schema.sql and state-machine.ts.
use hundi.Common.{
  ◌≡◌, refl, sym, Bool-cases, Option-cases, invalid_transition, stale_transition, ◌⊎◌, inl, inr,
  true, false, Option, none, some, List, find, any, Text, arith, ◌&&◌, ok, err,
}
use mathlib.Core.Path.{subst}
use hundi.Facilitator.Db.{SettlementState, SettlementRow, Db}
use hundi.Facilitator.Table.{update, find_holds}
use hundi.Facilitator.Listed.{Listed, Listed-update, find-Listed, any-Listed, any-found}
use hundi.Facilitator.StateMachine.{
  SettlementState-discrete, settlement_transitions, can_move, in_state, settlement_moved,
  settlement_violation, transition_settlement, is_live, holds_cart, blocks_mandate, blocks_cart,
}
use hundi.Facilitator.StateMachine.Moves.{
  Moved, transition_settlement-written, transition_settlement-illegal, transition_settlement-stale,
}

-- Of two rows, not both are live for one mandate, or hold one cart, unless they have one id.
abbrev pub Apart : SettlementRow → SettlementRow → Type 0
Apart r s =
    (is_live r.state ≡ true → is_live s.state ≡ true → r.mandate_id ≡ s.mandate_id → r.id ≡ s.id)
    × (holds_cart r.state ≡ true
        → holds_cart s.state ≡ true
        → r.mandate_cart_hash_hex ≡ s.mandate_cart_hash_hex
        → r.id ≡ s.id)

unfoldable pub IsExclusive : List SettlementRow → Type 0
IsExclusive rows = (r s : SettlementRow) → Listed r rows → Listed s rows → Apart r s

pub Apart-sym : (r s : SettlementRow) → Apart r s → Apart s r
Apart-sym r s (live, cart) = ((λ a b e. sym (live b a (sym e))), (λ a b e. sym (cart b a (sym e))))

-- A row that violates no index is apart from every row.
pub allowed-Apart :
    (row s : SettlementRow) (rows : List SettlementRow)
    → settlement_violation row rows ≡ none
    → Listed s rows
    → Apart row s
unfolding settlement_violation
allowed-Apart row s rows fine l =
    ground (arith, any-Listed s (blocks_mandate row) rows, any-Listed s (blocks_cart row) rows)

-- A row that is apart from the others violates no index, wherever it moves among the covered states.
mandate_free :
    (row moved : SettlementRow) (rows : List SettlementRow)
    → ((s : SettlementRow) → Listed s rows → Apart row s)
    → moved.id ≡ row.id
    → moved.mandate_id ≡ row.mandate_id
    → (is_live moved.state ≡ true → is_live row.state ≡ true)
    → is_live moved.state && any (blocks_mandate moved) rows ≡ false
mandate_free row moved rows h same key covered =
    elim (Bool-cases (any (blocks_mandate moved) rows)) [
      | inr free ↦ ground arith
      | inl blocked ↦
          let (s, l, b) = any-found (blocks_mandate moved) rows blocked in
          let (live, cart) = h s l in ground (arith, live)
    ]

cart_free :
    (row moved : SettlementRow) (rows : List SettlementRow)
    → ((s : SettlementRow) → Listed s rows → Apart row s)
    → moved.id ≡ row.id
    → moved.mandate_cart_hash_hex ≡ row.mandate_cart_hash_hex
    → (holds_cart moved.state ≡ true → holds_cart row.state ≡ true)
    → holds_cart moved.state && any (blocks_cart moved) rows ≡ false
cart_free row moved rows h same key covered = elim (Bool-cases (any (blocks_cart moved) rows)) [
  | inr free ↦ ground arith
  | inl blocked ↦
      let (s, l, b) = any-found (blocks_cart moved) rows blocked in
      let (live, cart) = h s l in ground (arith, cart)
]

-- A legal move neither makes a row live, nor makes it hold its cart.
legal_covered :
    (from to : SettlementState)
    → can_move from to ≡ true
    → (is_live to ≡ true → is_live from ≡ true) × (holds_cart to ≡ true → holds_cart from ≡ true)
unfolding can_move settlement_transitions SettlementState-discrete
legal_covered from to legal = ground arith

pub in_state_refl : (row : SettlementRow) → in_state row.id row.state row ≡ true
unfolding SettlementState-discrete
in_state_refl row = ground arith

in_state-fields :
    (id : Text) (from : SettlementState) (row : SettlementRow)
    → in_state id from row ≡ true
    → (row.id ≡ id) × (row.state ≡ from)
unfolding SettlementState-discrete
in_state-fields id from row e = ground arith

module _ (id : Text) (from to : SettlementState) (reason : Option Text) (db db' : Db) where
  Moved-row-Apart :
      Moved id from to reason db db'
      → (t s : SettlementRow) → find (in_state id from) db.settlements ≡ some t
      → Listed s db.settlements
      → Apart (settlement_moved db.clock to reason t) s
  Moved-row-Apart m t s found l =
      allowed-Apart (settlement_moved db.clock to reason t) s db.settlements
        (cc (m.allowed, m.found, found)) l

  Moved-Apart :
      IsExclusive db.settlements
      → (m : Moved id from to reason db db') (r s : SettlementRow)
      → Listed r (update (in_state id from) (settlement_moved db.clock to reason) db.settlements)
      → Listed s (update (in_state id from) (settlement_moved db.clock to reason) db.settlements)
      → Apart r s
  unfolding IsExclusive
  Moved-Apart h m r s lr ls =
      let f = settlement_moved db.clock to reason in
      let p = in_state id from in
      elim (Listed-update r p f db.settlements lr) [
        | inl old_r ↦ elim (Listed-update s p f db.settlements ls) [
          | inl old_s ↦ h r s old_r old_s
          | inr (t, found, same) ↦
              subst (Apart r) same (Apart-sym (f t) r (Moved-row-Apart m t r found old_r))
        ]
        | inr (t, found, same) ↦ elim (Listed-update s p f db.settlements ls) [
          | inl old_s ↦ subst (λ x. Apart x s) same (Moved-row-Apart m t s found old_s)
          | inr (u, found', same') ↦
              let ids : r.id ≡ s.id = cc (same, same', found, found') in
              ((λ _ _ _. ids), (λ _ _ _. ids))
        ]
      ]

  -- A move keeps the indexes.
  pub Moved-IsExclusive :
      Moved id from to reason db db' → IsExclusive db.settlements → IsExclusive db'.settlements
  unfolding IsExclusive
  Moved-IsExclusive m h = subst (λ d. IsExclusive d.settlements) (sym m.written) (Moved-Apart h m)

module _ (id : Text) (from to : SettlementState) (reason : Option Text) (db : Db) where
  -- On rows that satisfy the indexes, a legal move violates none.
  pub legal-allowed :
      IsExclusive db.settlements
      → (row : SettlementRow) → can_move from to ≡ true
      → find (in_state id from) db.settlements ≡ some row
      → settlement_violation (settlement_moved db.clock to reason row) db.settlements ≡ none
  unfolding IsExclusive settlement_violation
  legal-allowed h row legal found =
      let l = find-Listed row (in_state id from) db.settlements found in
      let (same, was) =
        in_state-fields id from row (find_holds (in_state id from) db.settlements found) in
      let f = settlement_moved db.clock to reason row in
      let (live, cart) = legal_covered from to legal in
      let apart : ((s : SettlementRow) → Listed s db.settlements → Apart row s) = λ s. h row s l in
      ground (
        arith,
        mandate_free row f db.settlements apart refl refl (λ e. cc (live e, was)),
        cart_free row f db.settlements apart refl refl (λ e. cc (cart e, was)),
      )

  -- On rows that satisfy the two indexes, a compare-and-swap has three outcomes: a move that the
  -- table does not list throws InvalidTransition, a row that is not in the expected state throws
  -- StaleTransition, both with nothing written, and otherwise the one row moves. No index is ever
  -- violated, and the rows that result satisfy both indexes again.
  pub transition_settlement-outcome :
      IsExclusive db.settlements
      → ((can_move from to ≡ false)
          × (transition_settlement id from to reason db ≡ (err invalid_transition, db)))
        ⊎ ((can_move from to ≡ true)
            × (find (in_state id from) db.settlements ≡ none)
            × (transition_settlement id from to reason db ≡ (err stale_transition, db)))
        ⊎ ((db' : Db) × (transition_settlement id from to reason db ≡ (ok tt, db'))
            × Moved id from to reason db db'
            × IsExclusive db'.settlements)
  transition_settlement-outcome h = elim (Bool-cases (can_move from to)) [
    | inr illegal ↦ inl (illegal, transition_settlement-illegal id from to reason db illegal)
    | inl legal ↦ elim (Option-cases (find (in_state id from) db.settlements)) [
      | inl missing ↦
          inr (inl (legal, missing, transition_settlement-stale id from to reason db legal missing))
      | inr (row, found) ↦
          let fine = legal-allowed h row legal found in
          let moved : Moved id from to reason db _ = record {
            row = row;
            legal = legal;
            found = found;
            allowed = fine;
            written = refl;
          } in
          inr (
            inr (
              _,
              transition_settlement-written id from to reason db row legal found fine,
              moved,
              Moved-IsExclusive id from to reason db _ moved h,
            ))
    ]
  ]
