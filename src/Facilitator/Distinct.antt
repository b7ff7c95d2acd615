-- ===== src/Facilitator/Distinct.antt =====
-- Tables with a primary key: the INSERTs and UPDATEs that keep the keys distinct.
use hundi.Common.{
  ◌≡◌, refl, ◌∙◌, Bool, true, false, List, [], ◌∷◌, ◌++◌, Text, any, ◌===◌, if◌then◌else◌, arith,
}
use hundi.Facilitator.Table.{update}

module _ {A : Type 0} (key : A → Text) where
  abbrev pub HasDistinct : List A → Type 0
  HasDistinct [] = Unit
  HasDistinct (row ∷ rows) = (any (λ s. key s === key row) rows ≡ false) × HasDistinct rows

pub any-append_one {ℓ} :
    {A : Type ℓ} (p : A → Bool) (rows : List A) (r : A)
    → any p rows ≡ false
    → p r ≡ false
    → any p (rows ++ r ∷ []) ≡ false
any-append_one p [] r e f = ground arith
any-append_one p (s ∷ rows) r e f = ground (arith, any-append_one p rows r)

module _ {A : Type 0} (key : A → Text) where
  -- An INSERT with a fresh key.
  pub append-HasDistinct :
      (rows : List A) (r : A)
      → HasDistinct key rows
      → any (λ s. key s === key r) rows ≡ false
      → HasDistinct key (rows ++ r ∷ [])
  append-HasDistinct [] r d fresh = (refl, tt)
  append-HasDistinct (t ∷ rows) r d fresh = (
    any-append_one (λ s. key s === key t) rows r d.0 (ground arith),
    append-HasDistinct rows r d.1 (ground arith),
  )

  module _ (p : A → Bool) (f : A → A) (same : (r : A) → key (f r) ≡ key r) where
    any_key-update :
        (id : Text) (rows : List A)
        → any (λ s. key s === id) (update p f rows) ≡ any (λ s. key s === id) rows
    unfolding update
    any_key-update id [] = refl
    any_key-update id (r ∷ rows) = ground (arith, any_key-update id rows, same r)

    -- An UPDATE that keeps the keys.
    pub update-HasDistinct :
        (rows : List A) → HasDistinct key rows → HasDistinct key (update p f rows)
    unfolding update
    update-HasDistinct [] d = tt
    update-HasDistinct (r ∷ rows) d = step (p r) refl (update-HasDistinct rows d.1)
      where
        step :
            (b : Bool)
            → p r ≡ b
            → HasDistinct key (update p f rows)
            → HasDistinct key (if b then f r ∷ rows else r ∷ update p f rows)
        step true e ih = (rw (same r) d.0, d.1)
        step false e ih = (any_key-update (key r) rows ∙ d.0, ih)
