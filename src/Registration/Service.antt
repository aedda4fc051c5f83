-- ===== src/Registration/Service.antt =====
-- internal/pkg/users/userRegistrationServiceImpl.go.
use loyalty_points_app.Prelude.{String, ◌==◌, if◌then◌else◌}
use loyalty_points_app.Prelude.Int.{pos, ◌+ℤ◌}
use loyalty_points_app.Authentication.Context.{LoginClaim, Context}
use loyalty_points_app.Authorization.{role_member, permissions_for_role}
use loyalty_points_app.Sql.{Time, Action, check, wrap, pure, time_now, new_uuid, run_in_tx, ◌>>=◌}
use loyalty_points_app.Accounts as Accounts
use loyalty_points_app.Users as Users
use loyalty_points_app.Users.{User}
use loyalty_points_app.Sessions.{TokenLibrary, PasswordLibrary, hash_password, issue_access_token}
use loyalty_points_app.Registration.Types.{RegisterRequest, RegisterResponse, validate_register}

-- An hour, in nanoseconds.
abbrev pub registration_token_ttl : Time
registration_token_ttl = pos 3600000000000

abbrev pub primary_wallet : String
primary_wallet = "Primary Wallet"

abbrev pub wallet_name : RegisterRequest → String
wallet_name r = if r.account_name == "" then primary_wallet else r.account_name

abbrev pub new_user : RegisterRequest → String → String → Time → User
new_user r password_hash id created_at = record {
  id = id;
  email = r.email;
  password_hash = password_hash;
  role = role_member;
  created_at = created_at;
  token_version = pos 0;
}

-- The function of the unit of work; the new account's id is what it leaves behind.
unfoldable pub enrol : RegisterRequest → User → Context → Action String
enrol r user ctx = do
  _ ← Users.create ctx (record { user = user })
  created_at ← time_now
  account ← Accounts.create ctx (record {
    account = record {
      id = "";
      owner_id = user.id;
      name = wallet_name r;
      balance = pos 0;
      created_at = created_at;
    };
  })
  pure account.id

module _ {Jws : Type 0} (jose : TokenLibrary Jws) (bcrypt : PasswordLibrary) where
  abbrev pub registration_claim : User → Time → LoginClaim
  registration_claim user now = record {
    user_id = user.id;
    email = user.email;
    last_name = "";
    role = user.role;
    permissions = permissions_for_role user.role;
    expiration_time = jose.unix (now +ℤ registration_token_ttl);
    token_version = user.token_version;
  }

  -- After the commit.
  abbrev pub first_token : User → String → Action RegisterResponse
  first_token user account_id = do
    now ← time_now
    token ←
        wrap "could not issue access token" (issue_access_token jose (registration_claim user now))
    pure (record { token = token; user_id = user.id; account_id = account_id; email = user.email })

  unfoldable pub register : Context → RegisterRequest → Action RegisterResponse
  register ctx request = check "invalid request for Register" (validate_register request) do
    password_hash ← wrap "could not hash password" (hash_password bcrypt request.password)
    id ← new_uuid
    created_at ← time_now
    let user = new_user request password_hash id created_at
    account_id ← wrap "could not register user" (run_in_tx ctx (enrol request user))
    first_token user account_id
