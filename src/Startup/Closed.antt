-- ===== src/Startup/Closed.antt =====
-- A start outside the local environment.
use loyalty_points_app.Prelude.{
  String, ◌≡◌, ◌≢◌, true≢false, refl, sym, ap, ◌∙◌, false, none, some, Option, Option-cases,
  Bool-cases, inl, inr, arith, ◌==◌,
}
use loyalty_points_app.Errs.{Error}
use loyalty_points_app.Sql.Schema.{Db}
use loyalty_points_app.Sql.{Result, ok, err, Result-cases, Action}
use loyalty_points_app.Sessions.{TokenLibrary, PasswordLibrary}
use loyalty_points_app.Gateway.{HttpLibrary, Request, Reply, RateLimiter, redis_rate_limiter}
use loyalty_points_app.Migrations.{Database, migrate, new_client}
use loyalty_points_app.Server.{RpcCodec, RpcReply, rpc_server}
use loyalty_points_app.Startup.Config.{
  Viper, Config, SecureConfig, env_local, environment_of, setting, config_of, secure_config_of,
  default_private_key_pem, default_dsn, default_redis_uri, unmarshalled, fail_closed, get_config,
}
use loyalty_points_app.Startup.Dependencies.{
  StartLibrary, Dependencies, parse_rsa_private_key, connect_limiter, with_limiter, with_tables,
  with_client, new_dependencies, served, configured, start,
}

-- A setting that has to be given, and is.
abbrev IsGiven : Viper → String → String → Type 0
IsGiven viper key value = (viper.value "" key ≡ some value) × ((value == "") ≡ false)

ok-ne-err : {A : Type 0} {a : A} {x : Error} → ok a ≢ err x
ok-ne-err h = ground arith

ok_lem : {A : Type 0} {a b : A} → ok a ≡ ok b → a ≡ b
ok_lem h = cc

unmarshalled_lem :
    {A : Type 0} (message : String) (o : Option Error) (r : Result A) (a : A)
    → unmarshalled message o r ≡ ok a
    → r ≡ ok a
unmarshalled_lem message none r a h = h
unmarshalled_lem message (some x) r a h = absurd (ground arith)

-- The settings are these, and none is empty.
abbrev IsComplete : Config → SecureConfig → Config → SecureConfig → Type 0
IsComplete conf conf_secure config secure =
    (conf ≡ config)
    × (conf_secure ≡ secure)
    × ((conf_secure.jwt_private_key_pem == "") ≡ false)
    × ((conf.postgres_dsn == "") ≡ false)
    × ((conf.redis_uri == "") ≡ false)

fail_closed_lem :
    (env : String) (conf : Config) (conf_secure : SecureConfig) (config : Config)
    (secure : SecureConfig)
    → (env == env_local) ≡ false
    → fail_closed env conf conf_secure ≡ ok (config, secure)
    → IsComplete conf conf_secure config secure
fail_closed_lem env conf conf_secure config secure away h =
    elim (Bool-cases (conf_secure.jwt_private_key_pem == "")) [
      | inl empty ↦ absurd (ok-ne-err (sym (rw (away, empty) at h)))
      | inr key ↦ elim (Bool-cases (conf.postgres_dsn == "")) [
        | inl empty ↦ absurd (ok-ne-err (sym (rw (away, key, empty) at h)))
        | inr dsn ↦ elim (Bool-cases (conf.redis_uri == "")) [
          | inl empty ↦ absurd (ok-ne-err (sym (rw (away, key, dsn, empty) at h)))
          | inr redis ↦
              let same = rw (away, key, dsn, redis) at h in
              (ground arith, ground arith, key, dsn, redis)
        ]
      ]
    ]

module _ (viper : Viper) (away : (environment_of viper "" == env_local) ≡ false) where
  setting-IsGiven :
      (key default : String)
      → (setting viper "" key default == "") ≡ false
      → IsGiven viper key (setting viper "" key default)
  setting-IsGiven key default named = elim (Option-cases (viper.value "" key)) [
    | inl missing ↦ absurd (true≢false (rw (missing, away) at named))
    | inr (s, given) ↦ (rw given refl, named)
  ]

  get_config_lem :
      (config : Config) (secure : SecureConfig)
      → get_config viper "" ≡ ok (config, secure)
      → IsComplete (config_of viper "") (secure_config_of viper "") config secure
  unfolding get_config
  get_config_lem config secure h =
      fail_closed_lem (environment_of viper "") (config_of viper "") (secure_config_of viper "")
        config secure away
        (unmarshalled_lem _ (viper.unmarshal_secure_error "") _ _
          (unmarshalled_lem _ (viper.unmarshal_error "") _ _ h))

module _ {Pkcs8 Key Jws Backend Bucket : Type 0}
    (lib : StartLibrary Pkcs8 Key Jws Backend Bucket) where
  connect_limiter_lem :
      (config : Config) (limiter : Option (RateLimiter Backend Bucket))
      → (config.redis_uri == "") ≡ false
      → (config.environment == env_local) ≡ false
      → connect_limiter lib config ≡ ok limiter
      → (lib.ping_redis config.redis_uri ≡ none)
        × (limiter ≡ some (redis_rate_limiter (lib.limiters config.redis_uri)))
  unfolding connect_limiter
  connect_limiter_lem config limiter named away h =
      let pinged = rw (connect_limiter, named) at h in
      elim (Option-cases (lib.ping_redis config.redis_uri)) [
        | inl alive ↦ (alive, ground arith)
        | inr (x, dead) ↦ absurd (ground arith)
      ]

  -- What a server's dependencies are made of.
  abbrev IsMade : Config → SecureConfig → Dependencies Jws Backend Bucket → Type 0
  IsMade config secure deps =
      (connect_limiter lib config ≡ ok deps.rate_limiter)
      × ((key : Key) × (parse_rsa_private_key lib secure.jwt_private_key_pem ≡ ok key)
          × (lib.new_signer key ≡ ok deps.access_tokens))

  with_limiter-IsMade :
      (config : Config) (secure : SecureConfig) (deps : Dependencies Jws Backend Bucket)
      → with_limiter lib secure (connect_limiter lib config) ≡ ok deps
      → IsMade config secure deps
  with_limiter-IsMade config secure deps h = elim (Result-cases (connect_limiter lib config)) [
    | inr (x, failed) ↦ absurd (ground arith)
    | inl (limiter, connected) ↦
        elim (Result-cases (parse_rsa_private_key lib secure.jwt_private_key_pem)) [
          | inr (x, failed) ↦ absurd (ground arith)
          | inl (key, parsed) ↦ elim (Result-cases (lib.new_signer key)) [
            | inr (x, failed) ↦ absurd (ground arith)
            | inl (jose, signs) ↦ (ground arith, (key, parsed, ground arith))
          ]
        ]
  ]

  with_tables-IsMade :
      (config : Config) (secure : SecureConfig) (deps : Dependencies Jws Backend Bucket)
      (z : Database Db × Option Error)
      → (with_tables lib config secure z).0 ≡ ok deps
      → IsMade config secure deps
  with_tables-IsMade config secure deps (db, some x) h = absurd (ground arith)
  with_tables-IsMade config secure deps (db, none) h = with_limiter-IsMade config secure deps h

  -- The same, and that the database answered.
  abbrev IsConnected : Config → SecureConfig → Dependencies Jws Backend Bucket → Type 0
  IsConnected config secure deps =
      (new_client lib.connector config.postgres_dsn ≡ none) × IsMade config secure deps

  with_client-IsConnected :
      (config : Config) (secure : SecureConfig) (deps : Dependencies Jws Backend Bucket)
      (db : Database Db) (o : Option Error)
      → new_client lib.connector config.postgres_dsn ≡ o
      → (with_client lib config secure db o).0 ≡ ok deps
      → IsConnected config secure deps
  with_client-IsConnected config secure deps db (some x) opened h = absurd (ground arith)
  with_client-IsConnected config secure deps db none opened h =
      (opened, with_tables-IsMade config secure deps (migrate lib.driver db) h)

  new_dependencies-IsConnected :
      (config : Config) (secure : SecureConfig) (deps : Dependencies Jws Backend Bucket)
      (db : Database Db)
      → (new_dependencies lib config secure db).0 ≡ ok deps
      → IsConnected config secure deps
  unfolding new_dependencies
  new_dependencies-IsConnected config secure deps db h =
      with_client-IsConnected config secure deps db (new_client lib.connector config.postgres_dsn)
        refl h

  module _ {Body : Type 0} (codec : RpcCodec Body) (bcrypt : PasswordLibrary)
      (http : HttpLibrary Body) where
    -- The server that was started: on the settings that were given, with a limiter over the Redis
    -- that answered, and tokens signed with the key that was given.
    pub record IsClosed (viper : Viper) (server : Request Body → Action (Reply RpcReply))
        : Type 0 where
      pub pem : String
      pub dsn : String
      pub redis_uri : String
      pub key : Key
      pub jose : TokenLibrary Jws
      pub pem_given : IsGiven viper "JWTPrivateKeyPEM" pem
      pub dsn_given : IsGiven viper "PostgresDSN" dsn
      pub redis_given : IsGiven viper "RedisURI" redis_uri
      pub parsed : parse_rsa_private_key lib pem ≡ ok key
      pub signs : lib.new_signer key ≡ ok jose
      pub connects : new_client lib.connector dsn ≡ none
      pub answers : lib.ping_redis redis_uri ≡ none
      pub chain :
          server
          ≡ rpc_server codec jose bcrypt http (some (redis_rate_limiter (lib.limiters redis_uri)))

    served-IsClosed :
        (viper : Viper) (db : Database Db) (server : Request Body → Action (Reply RpcReply))
        (z : Result (Dependencies Jws Backend Bucket) × Database Db)
        → (environment_of viper "" == env_local) ≡ false
        → IsComplete
            (config_of viper "")
            (secure_config_of viper "")
            (config_of viper "")
            (secure_config_of viper "")
        → ((deps : Dependencies Jws Backend Bucket)
            → z.0 ≡ ok deps
            → IsConnected (config_of viper "") (secure_config_of viper "") deps)
        → (served lib codec bcrypt http z).0 ≡ ok server
        → IsClosed viper server
    served-IsClosed viper db server (err x, db') away complete made h = absurd (ground arith)
    served-IsClosed viper db server (ok deps, db') away (a, b, pem, dsn, redis) made h =
        let (opened, (connected, (key, parsed, signs))) = made deps refl in
        let (answers, limited) =
          connect_limiter_lem (config_of viper "") deps.rate_limiter redis away connected in
        record {
          pem = (secure_config_of viper "").jwt_private_key_pem;
          dsn = (config_of viper "").postgres_dsn;
          redis_uri = (config_of viper "").redis_uri;
          key = key;
          jose = deps.access_tokens;
          pem_given = setting-IsGiven viper away "JWTPrivateKeyPEM" default_private_key_pem pem;
          dsn_given = setting-IsGiven viper away "PostgresDSN" default_dsn dsn;
          redis_given = setting-IsGiven viper away "RedisURI" default_redis_uri redis;
          parsed = parsed;
          signs = signs;
          connects = opened;
          answers = answers;
          chain = ok_lem (sym h) ∙ ap (rpc_server codec deps.access_tokens bcrypt http) limited;
        }

    configured-IsClosed :
        (viper : Viper) (db : Database Db) (server : Request Body → Action (Reply RpcReply))
        (settings : Result (Config × SecureConfig))
        → (environment_of viper "" == env_local) ≡ false
        → get_config viper "" ≡ settings
        → (configured lib codec bcrypt http db settings).0 ≡ ok server
        → IsClosed viper server
    configured-IsClosed viper db server (err x) away known h = absurd (ground arith)
    configured-IsClosed viper db server (ok (config, secure)) away known h =
        let (same, same_secure, pem, dsn, redis) = get_config_lem viper away config secure known in
        served-IsClosed viper db server
          (new_dependencies lib (config_of viper "") (secure_config_of viper "") db) away
          (refl, refl, pem, dsn, redis)
          (λ deps made.
            new_dependencies-IsConnected (config_of viper "") (secure_config_of viper "") deps db
              made)
          (rw (same, same_secure) h)

    -- The server fails closed: where the environment is not the local one, a start that succeeds has a
    -- private key, a database and a Redis from the settings that were given, none of them empty and
    -- none a default of the source; the database and the Redis answered, so the chain has its limiters, and the tokens
    -- are signed with the given key.
    pub start-IsClosed :
        (viper : Viper) (db : Database Db) (server : Request Body → Action (Reply RpcReply))
        → (environment_of viper "" == env_local) ≡ false
        → (start lib codec bcrypt http viper db).0 ≡ ok server
        → IsClosed viper server
    unfolding start
    start-IsClosed viper db server away h =
        configured-IsClosed viper db server (get_config viper "") away refl h
