-- ===== src/Facilitator/Wallet/Rows.antt =====
-- Rows with distinct ids, and sums over them.
use hundi.Common.{
  ℕ, ◌≡◌, refl, sym, ◌∙◌, inl, inr, true, some, List, [], ◌∷◌, Text, find, ◌===◌, arith,
}
use hundi.Facilitator.Db.{SettlementState, SettlementRow}
use hundi.Facilitator.Table.{total}
use hundi.Facilitator.Listed.{Listed, any-Listed}
use hundi.Facilitator.StateMachine.{in_state, SettlementState-discrete}
use hundi.Facilitator.Wallet.{IsDistinct}

pub same_text : (s t : Text) → (s === t) ≡ true → s ≡ t
same_text s t e = ground arith

pub ===_refl : (s : Text) → (s === s) ≡ true
===_refl s = ground arith

-- Two functions that agree on the rows have one sum.
pub total-Listed {ℓ} :
    {A : Type ℓ} (v w : A → ℕ) (rows : List A)
    → ((r : A) → Listed r rows → v r ≡ w r)
    → total v rows ≡ total w rows
unfolding total Listed
total-Listed v w [] h = refl
total-Listed v w (r ∷ rs) h =
    omega (arith, h r (inl refl), total-Listed v w rs (λ s l. h s (inr l)))

-- One id, one row.
pub distinct-eq :
    (r s : SettlementRow) (rows : List SettlementRow)
    → IsDistinct rows
    → Listed r rows
    → Listed s rows
    → r.id ≡ s.id
    → r ≡ s
unfolding Listed
distinct-eq r s [] d lr ls e = elim lr [ ]
distinct-eq r s (t ∷ rows) d (inl p) (inl q) e = sym p ∙ q
distinct-eq r s (t ∷ rows) d (inl p) (inr q) e =
    absurd (ground (arith, any-Listed s (λ x. x.id === t.id) rows))
distinct-eq r s (t ∷ rows) d (inr p) (inl q) e =
    absurd (ground (arith, any-Listed r (λ x. x.id === t.id) rows))
distinct-eq r s (t ∷ rows) d (inr p) (inr q) e = distinct-eq r s rows d.1 p q e

-- With the state known, a search by id and state finds the row that a search by id finds.
pub find-in_state :
    (id : Text) (at : SettlementState) (rows : List SettlementRow) {r : SettlementRow}
    → find (λ s. s.id === id) rows ≡ some r
    → r.state ≡ at
    → find (in_state id at) rows ≡ some r
unfolding SettlementState-discrete
find-in_state id at [] e h = cc e
find-in_state id at (s ∷ rows) {r} e h = ground (arith, find-in_state id at rows {r = r})
