-- ===== src/Facilitator/Charges/Rows.antt =====
-- Counting the attempts of a settlement.
use hundi.Common.{
  ◌≤◌, ◌≡◌, refl, sym, Bool-cases, inl, inr, Bool, false, some, List, [], ◌∷◌, ◌++◌, any, find,
  count, ◌+◌, ◌===◌, if◌then◌else◌, arith,
}
use hundi.Facilitator.Db.{AttemptState, AttemptRow}
use hundi.Facilitator.Table.{update}
use hundi.Facilitator.Distinct.{any-append_one}
use hundi.Facilitator.Wallet.Rows.{same_text}
use hundi.Facilitator.Charges.{is_of, blocks, HasDistinctIds}

module _ (kind : AttemptState → Bool) (row : AttemptRow) where
  unblocked-none :
      (rows : List AttemptRow)
      → any (λ a. a.id === row.id) rows ≡ false
      → any (blocks kind row) rows ≡ false
      → count (is_of kind row.settlement_id) rows ≡ 0
  unblocked-none [] fresh free = refl
  unblocked-none (a ∷ rows) fresh free = ground (arith, unblocked-none rows)

  -- A row that violates no index is the only one of its key, at most.
  pub unblocked-count :
      (rows : List AttemptRow)
      → HasDistinctIds rows
      → any (blocks kind row) rows ≡ false
      → count (is_of kind row.settlement_id) rows ≤ 1
  unblocked-count [] d free = omega arith
  unblocked-count (a ∷ rows) d free = elim (Bool-cases (a.id === row.id)) [
    | inr other ↦ ground (arith, unblocked-count rows d.1)
    | inl same ↦
        let ids : a.id ≡ row.id = same_text a.id row.id same in
        let fresh : any (λ b. b.id === row.id) rows ≡ false = rw (sym ids) d.0 in
        let none_left = unblocked-none rows fresh (ground arith) in ground arith
  ]

module _ (q : AttemptRow → Bool) where
  pub count-append_one :
      (rows : List AttemptRow) (r : AttemptRow)
      → count q (rows ++ r ∷ []) ≡ count q rows + (if q r then 1 else 0)
  count-append_one [] r = omega arith
  count-append_one (a ∷ rows) r = omega (arith, count-append_one rows r)

  -- A change that makes no row count makes none more.
  pub count-update :
      (p : AttemptRow → Bool) (f : AttemptRow → AttemptRow) (rows : List AttemptRow)
      {r : AttemptRow}
      → find p rows ≡ some r
      → q (f r) ≡ false
      → count q (update p f rows) ≤ count q rows
  unfolding update
  count-update p f [] e h = cc e
  count-update p f (a ∷ rows) {r} e h = ground (arith, count-update p f rows {r = r})

module _ (kind : AttemptState → Bool) where
  -- A row does not block itself.
  pub any-blocks-append :
      (rows : List AttemptRow) (r : AttemptRow)
      → any (blocks kind r) rows ≡ false
      → any (blocks kind r) (rows ++ r ∷ []) ≡ false
  any-blocks-append rows r free = any-append_one (blocks kind r) rows r free (ground arith)

  pub any-blocks-update :
      (p : AttemptRow → Bool) (f : AttemptRow → AttemptRow) (rows : List AttemptRow)
      {r : AttemptRow}
      → find p rows ≡ some r
      → any (blocks kind (f r)) rows ≡ false
      → any (blocks kind (f r)) (update p f rows) ≡ false
  unfolding update
  any-blocks-update p f [] e h = absurd (cc e)
  any-blocks-update p f (a ∷ rows) {r} e h = ground (arith, any-blocks-update p f rows {r = r})
