-- ===== src/Facilitator/Listed.antt =====
-- The rows that stand in a table, before and after an INSERT or an UPDATE.
use hundi.Common.{
  ◌≡◌, refl, ◌⊎◌, inl, inr, Bool, true, false, some, List, [], ◌∷◌, ◌++◌, find, filter, any, arith,
  Empty, Bool-cases, if◌then◌else◌,
}
use hundi.Facilitator.Table.{update}

module _ {ℓ} {A : Type ℓ} where
  unfoldable pub Listed : A → List A → Type ℓ
  Listed r [] = Empty
  Listed r (s ∷ rs) = (s ≡ r) ⊎ Listed r rs

  Listed-if :
      (r : A) (b : Bool) (rs ss : List A)
      → Listed r (if b then rs else ss)
      → ((b ≡ true) × Listed r rs) ⊎ ((b ≡ false) × Listed r ss)
  Listed-if r true rs ss l = inl (refl, l)
  Listed-if r false rs ss l = inr (refl, l)

  -- A row after an UPDATE stood there before, or is the changed row.
  pub Listed-update :
      (r : A) (p : A → Bool) (f : A → A) (rs : List A)
      → Listed r (update p f rs)
      → Listed r rs ⊎ ((s : A) × (find p rs ≡ some s) × (f s ≡ r))
  unfolding update Listed
  Listed-update r p f [] l = inl l
  Listed-update r p f (s ∷ rs) l = elim (Listed-if r (p s) (f s ∷ rs) (s ∷ update p f rs) l) [
    | inl (hit, inl same) ↦ inr (s, ground arith, same)
    | inl (hit, inr later) ↦ inl (inr later)
    | inr (miss, inl same) ↦ inl (inl same)
    | inr (miss, inr later) ↦ elim (Listed-update r p f rs later) [
      | inl l' ↦ inl (inr l')
      | inr (t, found, same) ↦ inr (t, ground arith, same)
    ]
  ]

  -- A row that the UPDATE does not select stays.
  pub update-Listed :
      (r : A) (p : A → Bool) (f : A → A) (rs : List A)
      → p r ≡ false
      → Listed r rs
      → Listed r (update p f rs)
  unfolding update Listed
  update-Listed r p f [] out l = l
  update-Listed r p f (s ∷ rs) out l = ground (arith, update-Listed r p f rs)

  pub find-Listed : (r : A) (p : A → Bool) (rs : List A) → find p rs ≡ some r → Listed r rs
  unfolding Listed
  find-Listed r p [] e = absurd (cc e)
  find-Listed r p (s ∷ rs) e = ground (arith, find-Listed r p rs)

  pub any-Listed :
      (r : A) (p : A → Bool) (rs : List A) → any p rs ≡ false → Listed r rs → p r ≡ false
  unfolding Listed
  any-Listed r p [] e l = elim l [ ]
  any-Listed r p (s ∷ rs) e l = ground (arith, any-Listed r p rs)

  pub Listed-append :
      (r : A) (rs : List A) (s : A) → Listed r (rs ++ s ∷ []) → Listed r rs ⊎ (s ≡ r)
  unfolding Listed
  Listed-append r [] s l = ground arith
  Listed-append r (t ∷ rs) s l = ground (arith, Listed-append r rs s)

  pub append-Listed : (r : A) (rs : List A) (s : A) → Listed r rs → Listed r (rs ++ s ∷ [])
  unfolding Listed
  append-Listed r [] s l = elim l [ ]
  append-Listed r (t ∷ rs) s l = ground (arith, append-Listed r rs s)

  pub any-found :
      (p : A → Bool) (rs : List A) → any p rs ≡ true → (r : A) × Listed r rs × (p r ≡ true)
  unfolding Listed
  any-found p [] e = absurd (cc e)
  any-found p (s ∷ rs) e = elim (Bool-cases (p s)) [
    | inl hit ↦ (s, inl refl, hit)
    | inr miss ↦ let (r, l, h) = any-found p rs (cc (e, miss)) in (r, inr l, h)
  ]

  pub filter-Listed :
      (p : A → Bool) (xs : List A) (x : A) → Listed x (filter p xs) → Listed x xs × (p x ≡ true)
  unfolding Listed
  filter-Listed p [] x l = elim l [ ]
  filter-Listed p (y ∷ xs) x l = elim (Listed-if x (p y) (y ∷ filter p xs) (filter p xs) l) [
    | inl (hit, inl same) ↦ (inl same, cc (hit, same))
    | inl (hit, inr later) ↦ let (l', h) = filter-Listed p xs x later in (inr l', h)
    | inr (miss, later) ↦ let (l', h) = filter-Listed p xs x later in (inr l', h)
  ]

  pub Listed-filter :
      (p : A → Bool) (xs : List A) (x : A) → Listed x xs → p x ≡ true → Listed x (filter p xs)
  unfolding Listed
  Listed-filter p [] x l h = l
  Listed-filter p (y ∷ xs) x l h = ground (arith, Listed-filter p xs x)
