-- ===== src/Facilitator/Routes/Mandates/Token.antt =====
-- A ceremony token binds one registration: packages/facilitator/src/routes/mandates.ts.
use hundi.Common.{
  ◌≡◌, ◌∙◌, sym, ap, refl, false, any, ◌∷◌, [], List, ℕ, Text, text, ok, err, arith, ◌===◌,
  route_error,
}
use mathlib.Core.Path.{subst}
use hundi.Core.Crypto.{Crypto}
use hundi.Core.Mandate.{IntentMandate}
use hundi.Core.Signature.{Credential}
use hundi.Facilitator.Db.{TokenRow, Db}
use hundi.Facilitator.Action.{
  ◌>>=◌, >>=-returned, after_err, tx-err, tx-returned, ensure-returned, modify,
}
use hundi.Facilitator.Table.{update}
use hundi.Facilitator.Keeps.{Keeps, still-Keeps, ensure-Keeps, Keeps->>=, append_ledger-Keeps}
use hundi.Facilitator.Routes.Mandates.{
  is_unused, use_token, consume_token, insert_mandate, bind_credential, register_mandate,
  post_mandates,
}

-- The primary key of `ceremony_tokens`.
abbrev pub IsDistinct : List TokenRow → Type 0
IsDistinct [] = Unit
IsDistinct (row ∷ rows) = (any (λ r. r.token === row.token) rows ≡ false) × IsDistinct rows

no_other :
    (token : Text) (rows : List TokenRow)
    → any (λ r. r.token === token) rows ≡ false
    → any (is_unused token) rows ≡ false
no_other token [] e = refl
no_other token (r ∷ rows) e = ground (arith, no_other token rows)

spent :
    (token : Text) (clock : ℕ) (rows : List TokenRow)
    → IsDistinct rows
    → any (is_unused token) (update (is_unused token) (use_token clock) rows) ≡ false
unfolding update
spent token clock [] d = refl
spent token clock (r ∷ rows) (d, ds) =
    ground (arith, spent token clock rows ds, no_other token rows)

abbrev tokens_of : Db → List TokenRow
tokens_of db = db.ceremony_tokens

consume_token-spent :
    (token : Text) (db db' : Db)
    → IsDistinct db.ceremony_tokens
    → consume_token token db ≡ (ok tt, db')
    → any (is_unused token) db'.ceremony_tokens ≡ false
unfolding consume_token
consume_token-spent token db db' d e =
    let (valid, db1, q1, r1) = >>=-returned _ _ db e in
    let (u, db2, q2, r2) = >>=-returned _ _ db1 r1 in
    let (was_valid, same2) = ensure-returned _ valid db1 q2 in
    let same : db2 ≡ db = cc (q1, same2) in
    ap (λ r. any (is_unused token) r.1.ceremony_tokens) (sym r2)
    ∙ spent token db2.clock db2.ceremony_tokens
        (subst (λ x. IsDistinct x.ceremony_tokens) (sym same) d)

-- A spent token is refused before anything is written.
consume_token-invalid :
    (token : Text) (db : Db)
    → any (is_unused token) db.ceremony_tokens ≡ false
    → consume_token token db ≡ (err (route_error 401 (text "TOKEN_INVALID")), db)
unfolding consume_token ◌>>=◌
consume_token-invalid token db e = rw e refl

writes-Keeps :
    (g : Db → Db)
    → ((db : Db) → (g db).ceremony_tokens ≡ db.ceremony_tokens)
    → Keeps tokens_of (modify g)
unfolding Keeps
writes-Keeps g h db = h db

insert_mandate-Keeps :
    (intent : IntentMandate) (hash : Text) (credential : Credential)
    → Keeps tokens_of (insert_mandate intent hash credential)
unfolding insert_mandate
insert_mandate-Keeps intent hash credential =
    Keeps->>= tokens_of _ _ (still-Keeps tokens_of (λ db. ok _)) (λ exists.
      Keeps->>= tokens_of _ _ (ensure-Keeps tokens_of _ _) (λ _.
        Keeps->>= tokens_of _ _ (writes-Keeps _ (λ db. refl)) (λ _.
          Keeps->>= tokens_of _ _ (still-Keeps tokens_of (λ db. ok _)) (λ has.
            Keeps->>= tokens_of _ _ (ensure-Keeps tokens_of _ _)
              (λ _. writes-Keeps _ (λ db. refl))))))

module _ (crypto : Crypto) where
  bind_credential-Keeps :
      (intent : IntentMandate) (credential : Credential)
      → Keeps tokens_of (bind_credential crypto intent credential)
  unfolding bind_credential
  bind_credential-Keeps intent credential =
      Keeps->>= tokens_of _ _ (still-Keeps tokens_of (λ db. _)) (λ bytes.
        Keeps->>= tokens_of _ _ (still-Keeps tokens_of (λ db. _)) (λ valid.
          Keeps->>= tokens_of _ _ (ensure-Keeps tokens_of _ valid) (λ _.
            Keeps->>= tokens_of _ _ (insert_mandate-Keeps intent _ credential) (λ _.
              Keeps->>= tokens_of _ _ (append_ledger-Keeps tokens_of (λ _ _. refl) crypto _)
                (λ _. still-Keeps tokens_of (λ db. ok _))))))

  register_mandate-spent :
      (intent : IntentMandate) (credential : Credential) (token hash : Text) (db db' : Db)
      → IsDistinct db.ceremony_tokens
      → register_mandate crypto intent credential token db ≡ (ok hash, db')
      → any (is_unused token) db'.ceremony_tokens ≡ false
  unfolding register_mandate Keeps
  register_mandate-spent intent credential token hash db db' d e =
      let (u, db1, q1, r1) = >>=-returned _ _ db e in
      let kept : db'.ceremony_tokens ≡ db1.ceremony_tokens =
        ap (λ r. r.1.ceremony_tokens) (sym r1) ∙ bind_credential-Keeps intent credential db1 in
      ap (any (is_unused token)) kept ∙ consume_token-spent token db db1 d q1

  post_mandates-invalid :
      (intent : IntentMandate) (credential : Credential) (token : Text) (db : Db)
      → any (is_unused token) db.ceremony_tokens ≡ false
      → post_mandates crypto intent credential token db
        ≡ (err (route_error 401 (text "TOKEN_INVALID")), db)
  unfolding post_mandates register_mandate
  post_mandates-invalid intent credential token db e =
      tx-err _ db (after_err _ _ (consume_token-invalid token db e))

  -- If the tokens are distinct, a token that registered a mandate registers no other: the next
  -- POST /mandates with it is refused, and writes nothing, whatever the intent and the credential.
  pub post_mandates-single_use :
      (intent intent' : IntentMandate) (credential credential' : Credential) (token hash : Text)
      (db db' : Db)
      → IsDistinct db.ceremony_tokens
      → post_mandates crypto intent credential token db ≡ (ok hash, db')
      → post_mandates crypto intent' credential' token db'
        ≡ (err (route_error 401 (text "TOKEN_INVALID")), db')
  unfolding post_mandates
  post_mandates-single_use intent intent' credential credential' token hash db db' d e =
      post_mandates-invalid intent' credential' token db' (
        register_mandate-spent intent credential token hash db db' d
          (tx-returned (register_mandate crypto intent credential token) db e))
