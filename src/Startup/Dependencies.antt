-- ===== src/Startup/Dependencies.antt =====
-- cmd/app/dependencies.go and main.go, up to the server that listens.
use loyalty_points_app.Prelude.{String, Option, none, some, ◌==◌, if◌then◌else◌}
use loyalty_points_app.Errs.{Error, plain, wrapped}
use loyalty_points_app.Sql.Schema.{Db}
use loyalty_points_app.Sql.{Result, ok, err, Action}
use loyalty_points_app.Sessions.{TokenLibrary, PasswordLibrary}
use loyalty_points_app.Gateway.{
  HttpLibrary, Request, Reply, LimiterLibrary, RateLimiter, redis_rate_limiter,
}
use loyalty_points_app.Migrations.{Connector, new_client, Database, Driver, migrate}
use loyalty_points_app.Server.{RpcCodec, RpcReply, rpc_server}
use loyalty_points_app.Startup.Config.{Config, SecureConfig, Viper, env_local, get_config}

-- encoding/pem, crypto/x509, crypto/rsa, go-jose and the Redis client. `Pkcs8` is a key of any kind.
pub record StartLibrary (Pkcs8 Key Jws Backend Bucket : Type 0) : Type 0 where
  pub connector : Connector
  pub driver : Driver Db
  pub ping_redis : String → Option Error
  pub limiters : String → LimiterLibrary Backend Bucket
  pub decode_pem : String → Option String
  pub parse_pkcs8 : String → Result Pkcs8
  pub rsa_key : Pkcs8 → Option Key
  -- a signer with the key, beside the verification with its public half
  pub new_signer : Key → Result (TokenLibrary Jws)

pub record Dependencies (Jws Backend Bucket : Type 0) : Type 0 where
  pub rate_limiter : Option (RateLimiter Backend Bucket)
  pub access_tokens : TokenLibrary Jws

module _ {Pkcs8 Key Jws Backend Bucket : Type 0}
    (lib : StartLibrary Pkcs8 Key Jws Backend Bucket) where
  abbrev pub as_rsa : Option Key → Result Key
  as_rsa none = err (plain "private key is not an RSA key")
  as_rsa (some key) = ok key

  abbrev pub parsed_key : Result Pkcs8 → Result Key
  parsed_key (err x) = err (wrapped "could not parse PKCS#8 private key" x)
  parsed_key (ok key) = as_rsa (lib.rsa_key key)

  abbrev pub decoded_block : Option String → Result Key
  decoded_block none = err (plain "could not decode PEM block")
  decoded_block (some block) = parsed_key (lib.parse_pkcs8 block)

  unfoldable pub parse_rsa_private_key : String → Result Key
  parse_rsa_private_key pem = decoded_block (lib.decode_pem pem)

  -- A Redis that does not answer: fatal, but in the local environment.
  abbrev pub pinged : Config → Option Error → Result (Option (RateLimiter Backend Bucket))
  pinged config none = ok (some (redis_rate_limiter (lib.limiters config.redis_uri)))
  pinged config (some x) =
      if config.environment == env_local
      then ok none
      else err (wrapped "could not connect to redis" x)

  unfoldable pub connect_limiter : Config → Result (Option (RateLimiter Backend Bucket))
  connect_limiter config =
      if config.redis_uri == "" then ok none else pinged config (lib.ping_redis config.redis_uri)

  abbrev pub with_signer :
      Option (RateLimiter Backend Bucket)
      → Result (TokenLibrary Jws)
      → Result (Dependencies Jws Backend Bucket)
  with_signer limiter (err x) = err (wrapped "could not create token signer" x)
  with_signer limiter (ok jose) = ok (record { rate_limiter = limiter; access_tokens = jose })

  abbrev pub with_key :
      Option (RateLimiter Backend Bucket) → Result Key → Result (Dependencies Jws Backend Bucket)
  with_key limiter (err x) = err (wrapped "could not parse JWT private key" x)
  with_key limiter (ok key) = with_signer limiter (lib.new_signer key)

  abbrev pub with_limiter :
      SecureConfig
      → Result (Option (RateLimiter Backend Bucket))
      → Result (Dependencies Jws Backend Bucket)
  with_limiter secure (err x) = err x
  with_limiter secure (ok limiter) =
      with_key limiter (parse_rsa_private_key secure.jwt_private_key_pem)

  abbrev pub with_tables :
      Config
      → SecureConfig
      → Database Db × Option Error
      → Result (Dependencies Jws Backend Bucket) × Database Db
  with_tables config secure (db, some x) = (err (wrapped "could not migrate database" x), db)
  with_tables config secure (db, none) = (with_limiter secure (connect_limiter config), db)

  abbrev pub with_client :
      Config
      → SecureConfig
      → Database Db
      → Option Error
      → Result (Dependencies Jws Backend Bucket) × Database Db
  with_client config secure db (some x) = (err (wrapped "could not create postgres client" x), db)
  with_client config secure db none = with_tables config secure (migrate lib.driver db)

  unfoldable pub new_dependencies :
      Config → SecureConfig → Database Db → Result (Dependencies Jws Backend Bucket) × Database Db
  new_dependencies config secure db =
      with_client config secure db (new_client lib.connector config.postgres_dsn)

  -- `main`: the configuration, the dependencies and the server. An error is `log.Fatal`.
  module _ {Body : Type 0} (codec : RpcCodec Body) (bcrypt : PasswordLibrary)
      (http : HttpLibrary Body) where
    abbrev pub setup_rpc_server :
        Dependencies Jws Backend Bucket → Request Body → Action (Reply RpcReply)
    setup_rpc_server deps = rpc_server codec deps.access_tokens bcrypt http deps.rate_limiter

    abbrev pub served :
        Result (Dependencies Jws Backend Bucket) × Database Db
        → Result (Request Body → Action (Reply RpcReply)) × Database Db
    served (err x, db) = (err (wrapped "failed to create dependencies" x), db)
    served (ok deps, db) = (ok (setup_rpc_server deps), db)

    abbrev pub configured :
        Database Db
        → Result (Config × SecureConfig)
        → Result (Request Body → Action (Reply RpcReply)) × Database Db
    configured db (err x) = (err x, db)
    configured db (ok (config, secure)) = served (new_dependencies config secure db)

    unfoldable pub start :
        Viper → Database Db → Result (Request Body → Action (Reply RpcReply)) × Database Db
    start viper db = configured db (get_config viper "")
