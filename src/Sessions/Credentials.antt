-- ===== src/Sessions/Credentials.antt =====
-- What a login answers.
use loyalty_points_app.Prelude.{
  ℕ, String, ◌≡◌, refl, ap, ◌∙◌, true, false, Bool-cases, Option-cases, some, inl, inr, arith,
}
use loyalty_points_app.Errs.{sentinel, unauthorized}
use loyalty_points_app.Authorization.{permissions_for_role}
use loyalty_points_app.Prelude.Int.{pos, ◌+ℤ◌}
use loyalty_points_app.Authentication.Context.{LoginClaim, Context}
use loyalty_points_app.Sql.Schema.{Db, UserRow}
use loyalty_points_app.Sql.{Env, World, Result, ok, err, reword, branch, raise, wrap, pure, ◌>>=◌}
use loyalty_points_app.Sql.Atomic.{tick}
use loyalty_points_app.Users.{User, find_user_by_email, get_by_email, root_user_id}
use loyalty_points_app.Sessions.Libraries.{TokenLibrary, PasswordLibrary}
use loyalty_points_app.Sessions.Tokens.{issue_access_token}
use loyalty_points_app.Sessions.Login.{
  EmailPasswordAuthenticatorRequest, EmailPasswordAuthenticatorResponse, validate_credentials,
  lookup_error, response_of, login_claim, grant_token, authenticate,
}

-- The stored user of an email, as the login reads it.
abbrev pub IsStored : String → User → Db → Type 0
IsStored email user db =
    (row : UserRow) × (find_user_by_email false email root_user_id db.users ≡ some row)
    × (user.id ≡ row.id)
    × (user.email ≡ row.email)
    × (user.password_hash ≡ row.password_hash)
    × (user.role ≡ row.role)
    × (user.token_version ≡ row.token_version)

abbrev FindsRow : UserRow → World → Result User × World → Type 0
FindsRow row w (ok user, w') =
    (user.id ≡ row.id)
    × (user.email ≡ row.email)
    × (user.password_hash ≡ row.password_hash)
    × (user.role ≡ row.role)
    × (user.token_version ≡ row.token_version)
    × (w'.db ≡ w.db)
FindsRow row w (err x, w') = w'.db ≡ w.db

abbrev Finds : String → World → Result User × World → Type 0
Finds email w (ok user, w') = IsStored email user w.db × (w'.db ≡ w.db)
Finds email w (err x, w') = w'.db ≡ w.db

Finds-FindsRow :
    (email : String) (row : UserRow) (w : World) (z : Result User × World)
    → find_user_by_email false email root_user_id w.db.users ≡ some row
    → FindsRow row w z
    → Finds email w z
Finds-FindsRow email row w (ok user, w') found (a, b, c, d, f, kept) =
    ((row, found, a, b, c, d, f), kept)
Finds-FindsRow email row w (err x, w') found kept = kept

get_by_email-Finds :
    (ctx : Context) (email : String) (e : Env) (w : World)
    → Finds email w (get_by_email ctx (record { email = email; user_id = root_user_id }) e w)
unfolding get_by_email find_user_by_email
get_by_email-Finds ctx email e w =
    elim (Option-cases (find_user_by_email false email root_user_id w.db.users)) [
      | inl missing ↦ ground arith
      | inr (row, found) ↦
          Finds-FindsRow email row w
            (get_by_email ctx (record { email = email; user_id = root_user_id }) e w) found
            (ground arith)
    ]

module _ {Jws : Type 0} (jose : TokenLibrary Jws) (bcrypt : PasswordLibrary) where
  pub issue_access_token_db :
      (claim : LoginClaim) (e : Env) (w : World) → (issue_access_token jose claim e w).1.db ≡ w.db
  unfolding issue_access_token
  issue_access_token_db claim e w = ground arith

  -- The token was issued for the user's claim, at a reading of the clock; no table changed.
  abbrev pub Grants :
      User → Env → World → Result EmailPasswordAuthenticatorResponse × World → Type 0
  Grants user e w (ok resp, w') =
      (k : ℕ) × (v : World) × ((issue_access_token jose
          (record {
            user_id = user.id;
            email = user.email;
            last_name = "";
            role = user.role;
            permissions = permissions_for_role user.role;
            expiration_time = jose.unix (e.now k +ℤ pos 3600000000000);
            token_version = user.token_version;
          })
          e v).0
        ≡ ok resp.token)
      × (resp.user_id ≡ user.id)
      × (resp.email ≡ user.email)
      × (w'.db ≡ w.db)
  Grants user e w (err x, w') = w'.db ≡ w.db

  Grants-wrap :
      (user : User) (message : String) (k : ℕ) (e : Env) (w : World) (z : Result String × World)
      → issue_access_token jose (login_claim jose bcrypt user (e.now k)) e w ≡ z
      → z.1.db ≡ w.db
      → Grants user e w ((do token ← wrap message (λ _ _. z); pure (response_of user token)) e w)
  Grants-wrap user message k e w (ok token, w') issued kept =
      (k, w, ap (λ y. y.0) issued, refl, refl, kept)
  Grants-wrap user message k e w (err x, w') issued kept = kept

  grant_token-Grants :
      (user : User) (e : Env) (w : World) → Grants user e w (grant_token jose bcrypt user e w)
  grant_token-Grants user e w =
      let claim = login_claim jose bcrypt user (e.now w.calls) in
      Grants-wrap user "could not issue access token" w.calls e (tick w)
        (issue_access_token jose claim e (tick w)) refl (issue_access_token_db claim e (tick w))

  -- The stored user of the email has the password, and gets a token; or an error. No table changes.
  abbrev pub LogsIn :
      EmailPasswordAuthenticatorRequest
      → Env
      → World
      → Result EmailPasswordAuthenticatorResponse × World
      → Type 0
  LogsIn r e w (ok resp, w') =
      (user : User) × IsStored r.email user w.db
      × (bcrypt.compare_hash_and_password user.password_hash r.password ≡ true)
      × Grants user e w (ok resp, w')
  LogsIn r e w (err x, w') = w'.db ≡ w.db

  LogsIn-Grants :
      (r : EmailPasswordAuthenticatorRequest) (user : User) (e : Env) (w v : World)
      (z : Result EmailPasswordAuthenticatorResponse × World)
      → v.db ≡ w.db
      → IsStored r.email user w.db
      → bcrypt.compare_hash_and_password user.password_hash r.password ≡ true
      → Grants user e v z
      → LogsIn r e w z
  LogsIn-Grants r user e w v (ok resp, w') kept stored matches (k, u, issued, a, b, same) =
      (user, stored, matches, (k, u, issued, a, b, same ∙ kept))
  LogsIn-Grants r user e w v (err x, w') kept stored matches same = same ∙ kept

  LogsIn-Finds :
      (r : EmailPasswordAuthenticatorRequest) (e : Env) (w : World) (z : Result User × World)
      → Finds r.email w z
      → LogsIn r e w (
          (do
            user ← reword lookup_error (λ _ _. z)
            branch
                (bcrypt.compare_hash_and_password user.password_hash r.password)
                (grant_token jose bcrypt user)
                (raise (sentinel unauthorized)))
            e w)
  LogsIn-Finds r e w (ok user, v) (stored, kept) =
      elim (Bool-cases (bcrypt.compare_hash_and_password user.password_hash r.password)) [
        | inl matches ↦ rw matches (
            LogsIn-Grants r user e w v (grant_token jose bcrypt user e v) kept stored matches
              (grant_token-Grants user e v))
        | inr differs ↦ rw differs kept
      ]
  LogsIn-Finds r e w (err x, v) kept = kept

  -- A login that succeeds has found the stored user of the email and compared the password with his
  -- hash; its token is issued for a claim with this user's id, email, role and session epoch, the
  -- permissions of that role and no others, and an hour to live from a reading of the clock, and the
  -- answer names him. Whether it succeeds or not, no table changes.
  pub authenticate-LogsIn :
      (ctx : Context) (r : EmailPasswordAuthenticatorRequest) (e : Env) (w : World)
      → LogsIn r e w (authenticate jose bcrypt ctx r e w)
  unfolding authenticate
  authenticate-LogsIn ctx r e w = elim (Option-cases (validate_credentials r)) [
    | inr (x, invalid) ↦ rw (authenticate, invalid) refl
    | inl valid ↦
        rw (authenticate, valid)
          (LogsIn-Finds r e w
            (get_by_email ctx (record { email = r.email; user_id = root_user_id }) e w)
            (get_by_email-Finds ctx r.email e w))
  ]
