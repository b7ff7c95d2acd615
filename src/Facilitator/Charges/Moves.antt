-- ===== src/Facilitator/Charges/Moves.antt =====
-- The writes of `settlement_attempts`, and what its indexes keep.
use hundi.Common.{
  ◌&&◌, Bool, ◌≤◌, ◌≡◌, refl, arith, inl, inr, Bool-cases, false, none, some, List, [], ◌∷◌, ◌++◌,
  Text, any, find, count, ◌===◌,
}
use mathlib.Core.Path.{subst}
use hundi.Facilitator.Db.{AttemptState, AttemptRow}
use hundi.Facilitator.Table.{update}
use hundi.Facilitator.Distinct.{append-HasDistinct, update-HasDistinct}
use hundi.Facilitator.StateMachine.{is_active, is_captured, attempt_violation}
use hundi.Facilitator.Charges.{is_of, blocks, HasDistinctIds, IsChargedOnce}
use hundi.Facilitator.Charges.Rows.{
  unblocked-count, count-append_one, count-update, any-blocks-append, any-blocks-update,
}
use hundi.Facilitator.Wallet.Rows.{same_text}

-- An index counts a row that is not of its key, or is not blocked.
abbrev IsFree : (AttemptState → Bool) → AttemptRow → List AttemptRow → Type 0
IsFree kind row rows = kind row.state && any (blocks kind row) rows ≡ false

abbrev IsOnce : (AttemptState → Bool) → List AttemptRow → Type 0
IsOnce kind rows = (settlement_id : Text) → count (is_of kind settlement_id) rows ≤ 1

allowed-IsFree :
    (row : AttemptRow) (rows : List AttemptRow)
    → attempt_violation row rows ≡ none
    → IsFree is_active row rows × IsFree is_captured row rows
unfolding attempt_violation
allowed-IsFree row rows e = (ground arith, ground arith)

module _ (kind : AttemptState → Bool) where
  append-IsOnce :
      (rows : List AttemptRow) (row : AttemptRow)
      → HasDistinctIds (rows ++ row ∷ [])
      → IsFree kind row rows
      → IsOnce kind rows
      → IsOnce kind (rows ++ row ∷ [])
  append-IsOnce rows row d free h id = elim (Bool-cases (is_of kind id row)) [
    | inr other ↦ ground (arith, count-append_one (is_of kind id) rows row, h id)
    | inl counted ↦
        let same : row.settlement_id ≡ id = same_text row.settlement_id id (ground arith) in
        let open_ : any (blocks kind row) rows ≡ false = ground arith in
        subst (λ x. count (is_of kind x) (rows ++ row ∷ []) ≤ 1) same
          (unblocked-count kind row (rows ++ row ∷ []) d (any-blocks-append kind rows row open_))
  ]

  update-IsOnce :
      (p : AttemptRow → Bool) (f : AttemptRow → AttemptRow) (rows : List AttemptRow)
      (row : AttemptRow)
      → find p rows ≡ some row
      → HasDistinctIds (update p f rows)
      → IsFree kind (f row) rows
      → IsOnce kind rows
      → IsOnce kind (update p f rows)
  update-IsOnce p f rows row found d free h id = elim (Bool-cases (is_of kind id (f row))) [
    | inr other ↦ omega (arith, count-update (is_of kind id) p f rows found other, h id)
    | inl counted ↦
        let same : (f row).settlement_id ≡ id = same_text (f row).settlement_id id (ground arith) in
        let open_ : any (blocks kind (f row)) rows ≡ false = ground arith in
        subst (λ x. count (is_of kind x) (update p f rows) ≤ 1) same
          (unblocked-count kind (f row) (update p f rows) d
            (any-blocks-update kind p f rows found open_))
  ]

-- An INSERT that violates no constraint.
pub append-IsChargedOnce :
    (rows : List AttemptRow) (row : AttemptRow)
    → any (λ a. a.id === row.id) rows ≡ false
    → attempt_violation row rows ≡ none
    → IsChargedOnce rows
    → IsChargedOnce (rows ++ row ∷ [])
append-IsChargedOnce rows row fresh fine h =
    let d = append-HasDistinct (λ (a : AttemptRow). a.id) rows row h.distinct fresh in
    let free = allowed-IsFree row rows fine in
    record {
      distinct = d;
      active = append-IsOnce is_active rows row d free.0 h.active;
      captured = append-IsOnce is_captured rows row d free.1 h.captured;
    }

-- An UPDATE that keeps the ids and violates no constraint.
pub update-IsChargedOnce :
    (p : AttemptRow → Bool) (f : AttemptRow → AttemptRow) (rows : List AttemptRow)
    (row : AttemptRow)
    → ((r : AttemptRow) → (f r).id ≡ r.id)
    → find p rows ≡ some row
    → attempt_violation (f row) rows ≡ none
    → IsChargedOnce rows
    → IsChargedOnce (update p f rows)
update-IsChargedOnce p f rows row ids found fine h =
    let d = update-HasDistinct (λ (a : AttemptRow). a.id) p f ids rows h.distinct in
    let free = allowed-IsFree (f row) rows fine in
    record {
      distinct = d;
      active = update-IsOnce is_active p f rows row found d free.0 h.active;
      captured = update-IsOnce is_captured p f rows row found d free.1 h.captured;
    }

module _ (p : AttemptRow → Bool) (f : AttemptRow → AttemptRow)
    (ids : (r : AttemptRow) → (f r).id ≡ r.id)
    (owners : (r : AttemptRow) → (f r).settlement_id ≡ r.settlement_id)
    (states : (r : AttemptRow) → (f r).state ≡ r.state) where
  count-kept :
      (kind : AttemptState → Bool) (id : Text) (rows : List AttemptRow)
      → count (is_of kind id) (update p f rows) ≡ count (is_of kind id) rows
  unfolding update
  count-kept kind id [] = refl
  count-kept kind id (a ∷ rows) = ground (arith, count-kept kind id rows, owners a, states a)

  -- An UPDATE of the other columns.
  pub kept-IsChargedOnce :
      (rows : List AttemptRow) → IsChargedOnce rows → IsChargedOnce (update p f rows)
  kept-IsChargedOnce rows h = record {
    distinct = update-HasDistinct (λ (a : AttemptRow). a.id) p f ids rows h.distinct;
    active = λ id. omega (arith, count-kept is_active id rows, h.active id);
    captured = λ id. omega (arith, count-kept is_captured id rows, h.captured id);
  }
