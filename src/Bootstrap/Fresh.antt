-- ===== src/Bootstrap/Fresh.antt =====
-- What a bootstrap leaves behind.
use loyalty_points_app.Prelude.{
  ℕ, suc, String, ◌≡◌, refl, true, false, none, some, Option, [], ◌∷◌, inl, inr, Bool-cases,
  Option-cases, if◌then◌else◌, arith, ◌==◌,
}
use loyalty_points_app.Prelude.Int.{pos}
use loyalty_points_app.Errs.{Error}
use loyalty_points_app.Authorization.{role_admin}
use loyalty_points_app.Sql.Schema.{Db, UserRow}
use loyalty_points_app.Sql.{Env, World, Result, ok, err, Result-cases}
use loyalty_points_app.Users.{root_user_id, has_email}
use loyalty_points_app.Accounts.{has_user}
use loyalty_points_app.Sessions.{PasswordLibrary}
use loyalty_points_app.Migrations.{Connector, new_client, Database, Driver, migrate}
use loyalty_points_app.Bootstrap.Run.{
  Environment, Installation, settings, system_user_email, wipe_tables, create_system_user, fill,
  migrated, connected, with_settings, env_local, local_or, default_postgres_dsn,
  dev_system_user_password, run,
}

abbrev pub system_row : String → String → UserRow
system_row password_hash created_at = record {
  id = root_user_id;
  email = system_user_email;
  password_hash = password_hash;
  role = role_admin;
  created_at = created_at;
  token_version = pos 0;
}

-- The tables of an installation with one user and nothing else.
abbrev pub only_user : UserRow → Db
only_user row = record { users = row ∷ []; accounts = []; transactions = []; audit_entries = [] }

-- The password of a local run.
local_or-ne-empty :
    (given password : String)
    → local_or given dev_system_user_password ≡ password
    → (password == "") ≡ false
local_or-ne-empty given password h = elim (Bool-cases (given == "")) [
  | inl missing ↦ let chosen = rw missing at h in rw (← chosen) refl
  | inr named ↦ let chosen = rw named at h in rw (← chosen) named
]

module _ (bcrypt : PasswordLibrary) where
  -- The system user with a hash of the password, and nothing else.
  pub record IsFresh (password : String) (e : Env) (w : World) : Type 0 where
    pub calls : ℕ
    pub password_hash : String
    pub moment : ℕ
    pub hashed : bcrypt.generate_from_password calls password ≡ ok password_hash
    pub tables : w.db ≡ only_user (system_row password_hash (e.format_time (e.now moment)))
    pub restarted : w.next_audit_id ≡ 0

  module _ (connector : Connector) (driver : Driver Db) where
    fill-IsFresh :
        (password : String) (e : Env) (w : World)
        → (fill bcrypt connector driver password e w).0 ≡ ok tt
        → IsFresh password e (fill bcrypt connector driver password e w).1
    unfolding wipe_tables create_system_user has_user has_email
    fill-IsFresh password e w done =
        elim (Result-cases (bcrypt.generate_from_password (suc w.calls) password)) [
          | inr (x, failed) ↦ absurd (ground arith)
          | inl (hash, hashed) ↦ record {
            calls = suc w.calls;
            password_hash = hash;
            moment = suc (suc w.calls);
            hashed = hashed;
            tables = ground arith;
            restarted = ground arith;
          }
        ]

    -- The run's database and password; where the environment is not local they are its own, and not
    -- empty.
    pub data Settled (env : Environment) : String → String → Type 0 where
      local_settings :
          (dsn password : String)
          → (local_or env.app_env "local" == "local") ≡ true
          → dsn ≡ (if env.postgres_dsn == "" then default_postgres_dsn else env.postgres_dsn)
          → password ≡ (
              if env.bootstrap_admin_password == ""
              then dev_system_user_password
              else env.bootstrap_admin_password)
          → (password == "") ≡ false
          → Settled env dsn password
      own_settings :
          (dsn password : String)
          → (local_or env.app_env "local" == "local") ≡ false
          → dsn ≡ env.postgres_dsn
          → password ≡ env.bootstrap_admin_password
          → (dsn == "") ≡ false
          → (password == "") ≡ false
          → Settled env dsn password

    settings-Settled :
        (env : Environment) (dsn password : String)
        → settings env ≡ ok (dsn, password)
        → Settled env dsn password
    unfolding settings
    settings-Settled env dsn password h =
        elim (Bool-cases (local_or env.app_env env_local == env_local)) [
          | inl here ↦
              let chosen = rw (settings, here) at h in
              local_settings dsn password here (ground arith) (ground arith)
                (local_or-ne-empty env.bootstrap_admin_password password (ground arith))
          | inr away ↦
              let chosen = rw (settings, away) at h in
              own_settings dsn password away (ground arith) (ground arith) (ground arith)
                (ground arith)
        ]

    migrated-IsFresh :
        (password : String) (e : Env) (w : World) (z : Database Db × Option Error)
        → (migrated bcrypt connector driver password e w z).0 ≡ ok tt
        → IsFresh password e (migrated bcrypt connector driver password e w z).1.world
    migrated-IsFresh password e w (database, some x) h = absurd (ground arith)
    migrated-IsFresh password e w (database, none) h =
        fill-IsFresh password e (record w { db = database.schema }) h

    connected-IsFresh :
        (password : String) (e : Env) (s : Installation) (o : Option Error)
        → (connected bcrypt connector driver password e s o).0 ≡ ok tt
        → IsFresh password e (connected bcrypt connector driver password e s o).1.world
    connected-IsFresh password e s (some x) h = absurd (ground arith)
    connected-IsFresh password e s none h =
        migrated-IsFresh password e s.world
          (migrate driver (record { schema = s.world.db; versions = s.versions })) h

    connected_open :
        (dsn password : String) (e : Env) (s : Installation)
        → (connected bcrypt connector driver password e s (new_client connector dsn)).0 ≡ ok tt
        → connector.open_error dsn ≡ none
    connected_open dsn password e s h = elim (Option-cases (connector.open_error dsn)) [
      | inl opened ↦ opened
      | inr (x, failed) ↦ let stopped = rw failed at h in absurd (ground arith)
    ]

    connected_ping :
        (dsn password : String) (e : Env) (s : Installation)
        → (connected bcrypt connector driver password e s (new_client connector dsn)).0 ≡ ok tt
        → connector.ping_error dsn ≡ none
    connected_ping dsn password e s h =
        let opened = connected_open dsn password e s h in
        elim (Option-cases (connector.ping_error dsn)) [
          | inl answered ↦ answered
          | inr (x, failed) ↦ let stopped = rw (opened, failed) at h in absurd (ground arith)
        ]

    with_settings-IsFresh :
        (env : Environment) (e : Env) (s : Installation) (r : Result (String × String))
        → settings env ≡ r
        → (with_settings bcrypt connector driver e s r).0 ≡ ok tt
        → (dsn : String) × (password : String) × Settled env dsn password
          × (connector.open_error dsn ≡ none)
          × (connector.ping_error dsn ≡ none)
          × IsFresh password e (with_settings bcrypt connector driver e s r).1.world
    with_settings-IsFresh env e s (err x) known h = absurd (ground arith)
    with_settings-IsFresh env e s (ok (dsn, password)) known h = (
      dsn,
      password,
      settings-Settled env dsn password known,
      connected_open dsn password e s h,
      connected_ping dsn password e s h,
      connected-IsFresh password e s (new_client connector dsn) h,
    )

    -- A bootstrap that succeeds leaves one user, the system's administrator with a hash of the run's
    -- password and a session epoch of zero, no account, no ledger and no audit trail, whatever was
    -- there. The database by whose name it connected, with an answer to its ping, and the password are
    -- those that the operator gave; in the local environment, and nowhere else, the built-in ones take
    -- the place of what was not given.
    pub run-IsFresh :
        (env : Environment) (e : Env) (s : Installation)
        → (run bcrypt connector driver env e s).0 ≡ ok tt
        → (dsn : String) × (password : String) × Settled env dsn password
          × (connector.open_error dsn ≡ none)
          × (connector.ping_error dsn ≡ none)
          × IsFresh password e (run bcrypt connector driver env e s).1.world
    unfolding run
    run-IsFresh env e s h = with_settings-IsFresh env e s (settings env) refl h
