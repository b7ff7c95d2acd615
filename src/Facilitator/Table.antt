-- ===== src/Facilitator/Table.antt =====
-- Reading and writing one table. An UPDATE that names a primary key changes the first row that
-- matches, and there is no second one.
use hundi.Common.{
  ℕ, ◌+◌, ◌≡◌, refl, Bool, true, none, some, List, [], ◌∷◌, ◌++◌, if◌then◌else◌, find, arith, All,
}

module _ {ℓ} {A : Type ℓ} where
  unfoldable pub update : (A → Bool) → (A → A) → List A → List A
  update p f [] = []
  update p f (r ∷ rs) = if p r then f r ∷ rs else r ∷ update p f rs

  -- `SELECT COALESCE(SUM(w), 0)`
  unfoldable pub total : (A → ℕ) → List A → ℕ
  total w [] = 0
  total w (r ∷ rs) = w r + total w rs

  pub total-update :
      (w : A → ℕ) (p : A → Bool) (f : A → A) (rs : List A) {r : A}
      → find p rs ≡ some r
      → total w (update p f rs) + w r ≡ total w rs + w (f r)
  unfolding total update
  total-update w p f [] e = cc
  total-update w p f (s ∷ rs) {r} e = ground (arith, total-update w p f rs {r = r})

  pub update-none : (p : A → Bool) (f : A → A) (rs : List A) → find p rs ≡ none → update p f rs ≡ rs
  unfolding update
  update-none p f [] e = refl
  update-none p f (s ∷ rs) e = ground (arith, update-none p f rs)

  pub find_holds : (p : A → Bool) (rs : List A) {r : A} → find p rs ≡ some r → p r ≡ true
  find_holds p [] e = cc
  find_holds p (s ∷ rs) {r} e = ground (arith, find_holds p rs {r = r})

  pub total-append_one :
      (w : A → ℕ) (rs : List A) (r : A) → total w (rs ++ r ∷ []) ≡ total w rs + w r
  unfolding total
  total-append_one w [] r = omega arith
  total-append_one w (s ∷ rs) r = omega (arith, total-append_one w rs r)

  pub total_le : (v w : A → ℕ) (rs : List A) → All (λ r. v r ≡ w r) rs → total v rs ≡ total w rs
  unfolding total
  total_le v w [] h = refl
  total_le v w (r ∷ rs) h = omega (arith, total_le v w rs h.1, h.0)

  pub find-update :
      (p : A → Bool) (f : A → A) (rs : List A) {r : A}
      → find p rs ≡ some r
      → p (f r) ≡ true
      → find p (update p f rs) ≡ some (f r)
  unfolding update
  find-update p f [] e h = cc e
  find-update p f (s ∷ rs) {r} e h = ground (arith, find-update p f rs {r = r})
