-- ===== src/Registration/Outcome.antt =====
-- What `Register` leaves behind and answers.
use loyalty_points_app.Prelude.{
  ℕ, suc, String, ◌≡◌, refl, ap, sym, subst, ◌∙◌, Option-cases, false, ◌⊎◌, inl, inr,
}
use loyalty_points_app.Prelude.Int.{◌+ℤ◌, pos}
use loyalty_points_app.Errs.{Error, wrapped}
use loyalty_points_app.Authentication.Context.{Context}
use loyalty_points_app.Authorization.{permissions_for_role, role_member}
use loyalty_points_app.Sql.{
  Env, World, Result, ok, err, wrap, pure, run_in_tx, new_uuid, time_now, ◌>>=◌,
}
use loyalty_points_app.Sql.Atomic.{tick}
use loyalty_points_app.Users.{User}
use loyalty_points_app.Sessions.{TokenLibrary, PasswordLibrary, issue_access_token}
use loyalty_points_app.Sessions.Credentials.{issue_access_token_db}
use loyalty_points_app.Registration.Types.{RegisterRequest, RegisterResponse, validate_register}
use loyalty_points_app.Registration.Service.{
  new_user, enrol, registration_claim, first_token, register,
}
use loyalty_points_app.Registration.Enrolment.{Enrols, EnrolsOrKeeps, run_in_tx-EnrolsOrKeeps}

module _ {Jws : Type 0} (jose : TokenLibrary Jws) (bcrypt : PasswordLibrary)
    (r : RegisterRequest) where
  -- A member with the request's email, at the first session epoch, whose hash is of the request's
  -- password.
  abbrev pub IsNewMember : User → Type 0
  IsNewMember user =
      (user.email ≡ r.email)
      × (user.role ≡ role_member)
      × (user.token_version ≡ pos 0)
      × ((n : ℕ) × (bcrypt.generate_from_password n r.password ≡ ok user.password_hash))

  abbrev pub IsFirstToken : User → Env → String → Type 0
  IsFirstToken user e token =
      (k : ℕ) × (v : World) × ((issue_access_token jose
          (record {
            user_id = user.id;
            email = user.email;
            last_name = "";
            role = user.role;
            permissions = permissions_for_role user.role;
            expiration_time = jose.unix (e.now k +ℤ pos 3600000000000);
            token_version = user.token_version;
          })
          e v).0
        ≡ ok token)

  -- The user and his account are there, and the answer names them with a token for the user; or
  -- there is an error, and either no table has changed, or they are there and the token could not
  -- be issued.
  abbrev pub Registers : Env → World → Result RegisterResponse × World → Type 0
  Registers e w (ok resp, w') =
      (user : User) × IsNewMember user
      × (resp.user_id ≡ user.id)
      × (resp.email ≡ r.email)
      × IsFirstToken user e resp.token
      × Enrols r user e w.db resp.account_id w'.db
  Registers e w (err x, w') =
      (w'.db ≡ w.db)
      ⊎ ((user : User) × IsNewMember user
          × ((y : Error) × (x ≡ wrapped "could not issue access token" y))
          × ((id : String) × Enrols r user e w.db id w'.db))

  Registers-token :
      (user : User) (id : String) (k : ℕ) (e : Env) (w v : World) (z : Result String × World)
      → IsNewMember user
      → Enrols r user e w.db id v.db
      → issue_access_token jose (registration_claim jose bcrypt user (e.now k)) e v ≡ z
      → z.1.db ≡ v.db
      → Registers e w (
          (do
            token ← wrap "could not issue access token" (λ _ _. z)
            pure (record { token = token; user_id = user.id; account_id = id; email = user.email }))
            e v)
  Registers-token user id k e w v (ok token, w') member enrolled issued kept = (
    user,
    member,
    refl,
    member.0,
    (k, v, ap (λ y. y.0) issued),
    subst (Enrols r user e w.db id) (sym kept) enrolled,
  )
  Registers-token user id k e w v (err x, w') member enrolled issued kept =
      inr (user, member, (x, refl), (id, subst (Enrols r user e w.db id) (sym kept) enrolled))

  first_token-Registers :
      (user : User) (id : String) (e : Env) (w v : World)
      → IsNewMember user
      → Enrols r user e w.db id v.db
      → Registers e w (first_token jose bcrypt user id e v)
  first_token-Registers user id e w v member enrolled =
      let claim = registration_claim jose bcrypt user (e.now v.calls) in
      Registers-token user id v.calls e w (tick v) (issue_access_token jose claim e (tick v)) member
        enrolled refl (issue_access_token_db jose bcrypt claim e (tick v))

  Registers-EnrolsOrKeeps :
      (user : User) (message : String) (e : Env) (w v : World) (z : Result String × World)
      → v.db ≡ w.db
      → IsNewMember user
      → EnrolsOrKeeps r user e v z
      → Registers e w ((wrap message (λ _ _. z) >>= first_token jose bcrypt user) e v)
  Registers-EnrolsOrKeeps user message e w v (ok id, w') kept member enrolled =
      first_token-Registers user id e w w' member
        (subst (λ db. Enrols r user e db id w'.db) kept enrolled)
  Registers-EnrolsOrKeeps user message e w v (err x, w') kept member same = inl (same ∙ kept)

  abbrev after_hash : Context → String → Env → World → Result RegisterResponse × World
  after_hash ctx password_hash = do
    id ← new_uuid
    created_at ← time_now
    let user = new_user r password_hash id created_at
    account_id ← wrap "could not register user" (run_in_tx ctx (enrol r user))
    first_token jose bcrypt user account_id

  Registers-hash :
      (ctx : Context) (e : Env) (w v : World) (n : ℕ) (z : Result String)
      → ctx.in_tx ≡ false
      → v.db ≡ w.db
      → bcrypt.generate_from_password n r.password ≡ z
      → Registers e w ((wrap "could not hash password" (λ _ _. (z, v)) >>= after_hash ctx) e w)
  Registers-hash ctx e w v n (ok hash) outer kept hashed =
      let user = new_user r hash (e.uuid v.calls) (e.now (suc v.calls)) in
      let u = tick (tick v) in
      Registers-EnrolsOrKeeps user "could not register user" e w u
        (run_in_tx ctx (enrol r user) e u) kept (refl, refl, refl, (n, hashed))
        (run_in_tx-EnrolsOrKeeps r user ctx e u outer)
  Registers-hash ctx e w v n (err x) outer kept hashed = inl kept

  -- With no transaction open, a registration that succeeds has added one member, with the request's
  -- email and a hash of its password, and one account of his with a balance of zero, both new and
  -- nothing else, and answers with a token for him. One that fails has left every table as it was,
  -- or has added the two and failed to issue the token.
  pub register-Registers :
      (ctx : Context) (e : Env) (w : World)
      → ctx.in_tx ≡ false
      → Registers e w (register jose bcrypt ctx r e w)
  unfolding register
  register-Registers ctx e w outer = elim (Option-cases (validate_register r)) [
    | inr (x, invalid) ↦ rw (register, invalid) (inl refl)
    | inl valid ↦
        rw (register, valid)
          (Registers-hash ctx e w (tick w) w.calls
            (bcrypt.generate_from_password w.calls r.password) outer refl refl)
  ]
