-- ===== src/Tests/Deployed.antt =====
-- A deployment: its bootstrap and its start.
use loyalty_points_app.Prelude.{String, ◌≡◌, refl, none, some, [], ◌∷◌, ◌==◌, eq_iff, arith}
use loyalty_points_app.Prelude.Int.{pos}
use loyalty_points_app.Errs.{plain}
use loyalty_points_app.Sql.Schema.{Db}
use loyalty_points_app.Sql.{ok, err}
use loyalty_points_app.Accounts.{has_user}
use loyalty_points_app.Users.{has_email, root_user_id}
use loyalty_points_app.Sessions.{TokenLibrary, PasswordLibrary, authenticate}
use loyalty_points_app.Gateway.{time_to_retry, redis_rate_limiter}
use loyalty_points_app.Server.{rpc_server}
use loyalty_points_app.Migrations.{Connector, Database, Driver, migrate}
use loyalty_points_app.Bootstrap.{
  Environment, Installation, run, settings, wipe_tables, create_system_user, system_user_email,
}
use loyalty_points_app.Bootstrap.Fresh.{IsFresh, Settled, run-IsFresh}
use loyalty_points_app.Bootstrap.FirstLogin.{authenticate-run}
use loyalty_points_app.Startup.{
  Viper, StartLibrary, start, get_config, new_dependencies, connect_limiter, parse_rsa_private_key,
}
use loyalty_points_app.Startup.Closed.{IsClosed, start-IsClosed}
use loyalty_points_app.Tests.Shop.{env, shop}
use loyalty_points_app.Tests.SignIn.{guest}
use loyalty_points_app.Tests.Gate.{http}
use loyalty_points_app.Tests.Served.{codec}

-- No migration is left to run.
abbrev migrated_tables : Driver Db
migrated_tables = record {
  create_error = none;
  read_dir = ok [];
  less = λ s t. s == t;
  count_error = λ v. none;
  read_file = λ v. ok "";
  trim_space = λ s. s;
  begin_error = λ v. none;
  exec_statement = λ statement tables. ok tables;
  record_error = λ v. none;
  commit_error = λ v. none;
}

-- A hash is the password itself.
abbrev plain_passwords : PasswordLibrary
plain_passwords = record {
  generate_from_password = λ n password. ok password;
  compare_hash_and_password = λ hash password. hash == password;
}

-- A token of which nothing is read back.
abbrev blank_tokens : TokenLibrary String
blank_tokens = record {
  marshal = λ c. ok "claim";
  unmarshal = λ s. err (plain "blank");
  sign = λ s. ok s;
  compact_serialize = λ s. ok s;
  parse_signed = λ s. ok s;
  verify = λ s. ok s;
  unix = λ t. t;
}

abbrev production : Environment
production = record {
  app_env = "production";
  postgres_dsn = "postgres://db";
  bootstrap_admin_password = "hunter2";
}

abbrev used_shop : Installation
used_shop = record { world = shop; versions = "0001_init.sql" ∷ [] }

abbrev reachable : Connector
reachable = record { open_error = λ s. none; ping_error = λ s. none }

run-IsFresh_example :
    (dsn : String) × (password : String) × Settled plain_passwords reachable migrated_tables
      production dsn password
    × (reachable.open_error dsn ≡ none)
    × (reachable.ping_error dsn ≡ none)
    × IsFresh plain_passwords password env
        (run plain_passwords reachable migrated_tables production env used_shop).1.world
unfolding run settings wipe_tables create_system_user migrate has_user has_email
run-IsFresh_example =
    run-IsFresh plain_passwords reachable migrated_tables production env used_shop refl

authenticate-run_example :
    (dsn : String) × (password : String) × Settled plain_passwords reachable migrated_tables
      production dsn password
    × ((token : String) × ((authenticate blank_tokens plain_passwords guest
            (record { email = system_user_email; password = password })
            env
            (run plain_passwords reachable migrated_tables production env used_shop).1.world).0
          ≡ ok (record { token = token; user_id = root_user_id; email = system_user_email })))
unfolding run settings wipe_tables create_system_user migrate has_user has_email
authenticate-run_example =
    authenticate-run blank_tokens plain_passwords (λ claim. ("claim", refl)) (λ s. (s, refl))
      (λ s. (s, refl)) (λ n password hash h. ground (arith, eq_iff hash password)) reachable
      migrated_tables production env env used_shop guest refl refl (λ n. (pos 1000, refl))

abbrev deployment : StartLibrary String String String String String
deployment = record {
  connector = reachable;
  driver = migrated_tables;
  ping_redis = λ uri. none;
  limiters = λ uri. record {
    new_token_bucket_redis = λ key ttl. key;
    new_token_bucket = λ capacity rate backend. backend;
    bucket_limit = λ n bucket. time_to_retry 0;
  };
  decode_pem = λ s. some s;
  parse_pkcs8 = λ s. ok s;
  rsa_key = λ s. some s;
  new_signer = λ key. ok blank_tokens;
}

-- Every variable is set, to a text of its own.
abbrev variables : Viper
variables = record {
  value = λ file key. some key;
  unmarshal_error = λ file. none;
  unmarshal_secure_error = λ file. none;
}

abbrev tables : Database Db
tables = record { schema = shop.db; versions = [] }

start-IsClosed_example : IsClosed deployment codec plain_passwords http variables (
    rpc_server codec blank_tokens plain_passwords http
      (some (redis_rate_limiter (deployment.limiters "RedisURI"))))
unfolding start get_config new_dependencies migrate connect_limiter parse_rsa_private_key
start-IsClosed_example =
    start-IsClosed deployment codec plain_passwords http variables tables _ refl refl
