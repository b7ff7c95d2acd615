-- ===== src/Facilitator/Wallet/Moves.antt =====
-- A wallet stays solvent when a settlement moves, other than into `settling`.
use hundi.Common.{
  ◌↔◌, ℕ, ◌+◌, ◌≤◌, ◌≡◌, ◌≢◌, refl, sym, ap, ◌∙◌, inl, inr, Bool, true, Option, some, List, Text,
  find, is_some, arith,
}
use mathlib.Core.Path.{subst}
use hundi.Core.Value.{nat_of}
use hundi.Facilitator.Db.{SettlementState, SettlementRow, MandateRow, Db}
use hundi.Facilitator.Table.{update, total, total-update, find_holds}
use hundi.Facilitator.Listed.{Listed-update, find-Listed}
use hundi.Facilitator.StateMachine.{
  can_move, settlement_transitions, SettlementState-discrete, in_state, settlement_moved,
  transition_settlement,
}
use hundi.Facilitator.StateMachine.Moves.{Moved}
use hundi.Facilitator.StateMachine.Exclusive.{
  IsExclusive, Moved-IsExclusive, transition_settlement-outcome,
}
use hundi.Facilitator.MandateRepo.{has_mandate_id}
use hundi.Facilitator.Wallet.{is_committed, committed_amount, committed, IsSolvent, IsSolventDb}
use hundi.Facilitator.Distinct.{update-HasDistinct}

-- Only settling and captured money is committed, and only `settling` leads to `captured`.
committed_before :
    (from to : SettlementState)
    → can_move from to ≡ true
    → to ≢ SettlementState.settling
    → is_committed to ≡ true
    → is_committed from ≡ true
unfolding can_move settlement_transitions SettlementState-discrete
committed_before from SettlementState.settling legal ne e = absurd (ne refl)
committed_before from to legal ne e = ground arith

committed_amount-moved :
    (mandate_id id : Text) (from to : SettlementState) (reason : Option Text) (clock : ℕ)
    (row : SettlementRow)
    → in_state id from row ≡ true
    → (is_committed to ≡ true → is_committed from ≡ true)
    → committed_amount mandate_id (settlement_moved clock to reason row)
      ≤ committed_amount mandate_id row
unfolding SettlementState-discrete
committed_amount-moved mandate_id id from to reason clock row e h = ground arith

-- What an UPDATE of one settlement leaves, if it keeps the owner and the cart: what is left to show
-- is that no more is committed than may be.
pub updated-IsSolvent :
    (mandates : List MandateRow) (p : SettlementRow → Bool) (f : SettlementRow → SettlementRow)
    (rows : List SettlementRow)
    → ((r : SettlementRow) → (f r).id ≡ r.id)
    → ((r : SettlementRow) → (f r).mandate_id ≡ r.mandate_id)
    → ((r : SettlementRow)
        → (f r).amount_paise ≡ nat_of (f r).cart.total_paise
          ↔ r.amount_paise ≡ nat_of r.cart.total_paise)
    → IsSolvent mandates rows
    → IsExclusive (update p f rows)
    → ((mandate_id : Text) (m : MandateRow)
        → find (has_mandate_id mandate_id) mandates ≡ some m
        → committed mandate_id (update p f rows) ≤ nat_of m.intent.ceiling_paise)
    → IsSolvent mandates (update p f rows)
updated-IsSolvent mandates p f rows ids owners carts h exclusive within = record {
  exclusive = exclusive;
  distinct = update-HasDistinct (λ (s : SettlementRow). s.id) p f ids rows h.distinct;
  amounts = λ s l. elim (Listed-update s p f rows l) [
    | inl old ↦ h.amounts s old
    | inr (t, found, same) ↦
        subst (λ x. x.amount_paise ≡ nat_of x.cart.total_paise) same
          ((carts t).1 (h.amounts t (find-Listed t p rows found)))
  ];
  owned = λ s l. elim (Listed-update s p f rows l) [
    | inl old ↦ h.owned s old
    | inr (t, found, same) ↦
        subst (λ x. is_some (find (has_mandate_id x) mandates) ≡ true)
          (sym (owners t) ∙ ap (λ (x : SettlementRow). x.mandate_id) same)
          (h.owned t (find-Listed t p rows found))
  ];
  named = h.named;
  within = within;
}

module _ (id : Text) (from to : SettlementState) (reason : Option Text) (db db' : Db)
    (m : Moved id from to reason db db') where
  -- What a move adds to and takes from what a mandate has committed.
  pub Moved-committed :
      (mandate_id : Text)
      → committed mandate_id db'.settlements + committed_amount mandate_id m.row
        ≡ committed mandate_id db.settlements
          + committed_amount mandate_id (settlement_moved db.clock to reason m.row)
  unfolding committed
  Moved-committed mandate_id =
      ap
        (λ d. total (committed_amount mandate_id) d.settlements + committed_amount mandate_id m.row)
        m.written
      ∙ total-update (committed_amount mandate_id) (in_state id from)
          (settlement_moved db.clock to reason) db.settlements {r = m.row} m.found

  -- A move after which the mandate has not committed too much.
  pub Moved-IsSolvent :
      IsSolventDb db
      → ((mandate_id : Text) (mandate : MandateRow)
          → find (has_mandate_id mandate_id) db.mandates ≡ some mandate
          → committed mandate_id db'.settlements ≤ nat_of mandate.intent.ceiling_paise)
      → IsSolventDb db'
  unfolding IsSolventDb
  Moved-IsSolvent h within =
      let f = settlement_moved db.clock to reason in
      let p = in_state id from in
      let rows : db'.settlements ≡ update p f db.settlements = ap (λ d. d.settlements) m.written in
      subst (λ d. IsSolvent d.mandates d.settlements) (sym m.written)
        (updated-IsSolvent db.mandates p f db.settlements (λ r. refl) (λ r. refl)
          (λ r. ((λ e. e), (λ e. e))) h
          (subst IsExclusive rows (Moved-IsExclusive id from to reason db db' m h.exclusive))
          (λ mandate_id mandate found.
            subst (λ rs. committed mandate_id rs ≤ nat_of mandate.intent.ceiling_paise) rows
              (within mandate_id mandate found)))

-- A settlement that moves other than into `settling` leaves a solvent wallet solvent.
pub transition_settlement-IsSolvent :
    (id : Text) (from to : SettlementState) (reason : Option Text)
    → to ≢ SettlementState.settling
    → (db : Db) → IsSolventDb db
    → IsSolventDb (transition_settlement id from to reason db).1
unfolding IsSolventDb
transition_settlement-IsSolvent id from to reason ne db h =
    elim (transition_settlement-outcome id from to reason db h.exclusive) [
      | inl (illegal, e) ↦ subst (λ r. IsSolventDb r.1) (sym e) h
      | inr (inl (legal, missing, e)) ↦ subst (λ r. IsSolventDb r.1) (sym e) h
      | inr (inr (db', e, m, exclusive)) ↦
          subst (λ r. IsSolventDb r.1) (sym e)
            (Moved-IsSolvent id from to reason db db' m h (λ mandate_id mandate found. omega (
              arith,
              Moved-committed id from to reason db db' m mandate_id,
              committed_amount-moved mandate_id id from to reason db.clock m.row
                  (find_holds (in_state id from) db.settlements m.found)
                  (committed_before from to m.legal ne),
              h.within mandate_id mandate found,
            )))
    ]
