-- ===== src/Bootstrap/FirstLogin.antt =====
-- The first login after a bootstrap.
use loyalty_points_app.Prelude.{ℕ, suc, String, ◌≡◌, true, false, none, arith, ◌==◌}
use loyalty_points_app.Authentication.Context.{LoginClaim, Context}
use loyalty_points_app.Authorization.{role_admin}
use loyalty_points_app.Sql.Schema.{Db}
use loyalty_points_app.Prelude.Int.{pos}
use loyalty_points_app.Sql.{Env, World, Time, ok}
use loyalty_points_app.Sql.Atomic.{tick}
use loyalty_points_app.Users.{
  User, find_user_by_email, get_by_email, root_user_id, validate_get_by_email,
}
use loyalty_points_app.Sessions.{
  TokenLibrary, PasswordLibrary, EmailPasswordAuthenticatorResponse, authenticate, login_claim,
  issue_access_token, validate_credentials,
}
use loyalty_points_app.Migrations.{Connector, Driver}
use loyalty_points_app.Bootstrap.Run.{Environment, Installation, system_user_email, run}
use loyalty_points_app.Bootstrap.Fresh.{IsFresh, Settled, local_settings, own_settings, run-IsFresh}

Settled-ne-empty :
    (bcrypt : PasswordLibrary) (connector : Connector) (driver : Driver Db) (env : Environment)
    (dsn password : String)
    → Settled bcrypt connector driver env dsn password
    → (password == "") ≡ false
Settled-ne-empty bcrypt connector driver env dsn password (local_settings d p here a b named) =
    named
Settled-ne-empty bcrypt connector driver env dsn password (own_settings d p away a b c named) =
    named

module _ {Jws : Type 0} (jose : TokenLibrary Jws) (bcrypt : PasswordLibrary)
    (marshals : (claim : LoginClaim) → (payload : String) × (jose.marshal claim ≡ ok payload))
    (signs : (payload : String) → (signed : Jws) × (jose.sign payload ≡ ok signed))
    (serializes : (signed : Jws) → (token : String) × (jose.compact_serialize signed ≡ ok token))
    (compares : (n : ℕ) (password hash : String)
      → bcrypt.generate_from_password n password ≡ ok hash
      → bcrypt.compare_hash_and_password hash password ≡ true) where
  issue_access_token_total :
      (claim : LoginClaim) (e : Env) (w : World)
      → (token : String) × (issue_access_token jose claim e w ≡ (ok token, w))
  unfolding issue_access_token
  issue_access_token_total claim e w =
      let (payload, written) = marshals claim in
      let (signed, done) = signs payload in
      let (token, given) = serializes signed in (token, ground arith)

  abbrev answer_of : String → EmailPasswordAuthenticatorResponse
  answer_of token = record { token = token; user_id = root_user_id; email = system_user_email }

  abbrev system_user :
      {password : String} {e : Env} {w : World} → IsFresh bcrypt password e w → Time → User
  system_user fresh t = record {
    id = root_user_id;
    email = system_user_email;
    password_hash = fresh.password_hash;
    role = role_admin;
    created_at = t;
    token_version = pos 0;
  }

  -- The read of the one user by his email.
  get_by_email_lem :
      (ctx : Context) (password : String) (e e' : Env) (w : World)
      (fresh : IsFresh bcrypt password e w) (t : Time)
      → e'.fault w.calls ≡ none
      → e'.parse_time (e.format_time (e.now fresh.moment)) ≡ ok t
      → get_by_email ctx (record { email = system_user_email; user_id = root_user_id }) e' w
        ≡ (ok (system_user fresh t), tick w)
  unfolding get_by_email validate_get_by_email find_user_by_email
  get_by_email_lem ctx password e e' w fresh t quiet parsed =
      let tables = fresh.tables in ground arith

  -- On fresh tables the login with the password succeeds.
  authenticate-IsFresh :
      (ctx : Context) (password : String) (e e' : Env) (w : World)
      (fresh : IsFresh bcrypt password e w) (t : Time)
      → (password == "") ≡ false
      → e'.fault w.calls ≡ none
      → e'.parse_time (e.format_time (e.now fresh.moment)) ≡ ok t
      → (token : String) × ((authenticate jose bcrypt ctx
            (record { email = system_user_email; password = password })
            e'
            w).0
          ≡ ok (answer_of token))
  unfolding authenticate validate_credentials
  authenticate-IsFresh ctx password e e' w fresh t named quiet parsed =
      let read = get_by_email_lem ctx password e e' w fresh t quiet parsed in
      let matches = compares fresh.calls password fresh.password_hash fresh.hashed in
      let (token, issued) =
        issue_access_token_total
          (login_claim jose bcrypt (system_user fresh t) (e'.now (suc w.calls))) e'
          (tick (tick w)) in
      (token, ground (arith, read, matches, issued))

  -- After a bootstrap that succeeded, the first login as the system's user with the run's password
  -- succeeds and names him: where encoding/json, go-jose and bcrypt do not fail on what they are
  -- given and bcrypt accepts a password for its own hash, the stored time parses, and the statement
  -- does not fail.
  pub authenticate-run :
      (connector : Connector) (driver : Driver Db) (env : Environment) (e e' : Env)
      (s : Installation) (ctx : Context)
      → (run bcrypt connector driver env e s).0 ≡ ok tt
      → e'.fault (run bcrypt connector driver env e s).1.world.calls ≡ none
      → ((n : ℕ) → (t : Time) × (e'.parse_time (e.format_time (e.now n)) ≡ ok t))
      → (dsn : String) × (password : String) × Settled bcrypt connector driver env dsn password
        × ((token : String) × ((authenticate jose bcrypt ctx
                (record { email = system_user_email; password = password })
                e'
                (run bcrypt connector driver env e s).1.world).0
              ≡ ok (answer_of token)))
  authenticate-run connector driver env e e' s ctx done quiet parses =
      let (dsn, password, settled, opened, answered, fresh) =
        run-IsFresh bcrypt connector driver env e s done in
      let (t, parsed) = parses fresh.moment in
      (
        dsn,
        password,
        settled,
        authenticate-IsFresh ctx password e e' (run bcrypt connector driver env e s).1.world fresh t
            (Settled-ne-empty bcrypt connector driver env dsn password settled) quiet parsed,
      )
