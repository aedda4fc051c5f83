-- ===== src/Tests/SignIn.antt =====
-- Signing in, out and up.
use loyalty_points_app.Prelude.{◌≡◌, ◌≢◌, refl, sym, false, none, some, arith}
use loyalty_points_app.Prelude.Int.{pos, in_int64, ◌+ℤ◌}
use loyalty_points_app.Authentication.Context.{LoginClaim, Context}
use loyalty_points_app.Authorization.{role_member, member_permissions}
use loyalty_points_app.Sql.{ok}
use loyalty_points_app.Sql.Schema.{UserRow}
use loyalty_points_app.Sql.Atomic.{tick}
use loyalty_points_app.Users.{
  bump_rows, find_user, get_token_version, increment_token_version, validate_get_token_version,
  validate_increment_token_version, version_overflows,
}
use loyalty_points_app.Sessions.{
  EmailPasswordAuthenticatorRequest, EmailPasswordAuthenticatorResponse, validate_access_token,
  authenticate, logout, issue_access_token, open_token, validate_logout,
}
use loyalty_points_app.Sessions.Validity.{Vouches, validate_access_token-Vouches}
use loyalty_points_app.Sessions.RoundTrip.{validate_access_token-issue_access_token}
use loyalty_points_app.Sessions.Revoked.{logout_revokes}
use loyalty_points_app.Sessions.Credentials.{LogsIn, authenticate-LogsIn}
use loyalty_points_app.Registration.{RegisterRequest, register}
use loyalty_points_app.Registration.Outcome.{Registers, register-Registers}
use loyalty_points_app.Tests.Shop.{env, shop, user_row, ann_context}
use loyalty_points_app.Tests.Keys.{tokens_for, tokens_for_reads, passwords}

abbrev pub guest : Context
guest = record { claim = none; in_tx = false }

-- The claim that Ann's login gives at the sample's time.
abbrev pub ann_session : LoginClaim
ann_session = record {
  user_id = "ann";
  email = "ann";
  last_name = "";
  role = role_member;
  permissions = member_permissions;
  expiration_time = pos 3600000001000;
  token_version = pos 0;
}

abbrev pub ann_password : EmailPasswordAuthenticatorRequest
ann_password = record { email = "ann"; password = "secret" }

abbrev pub ann_answer : EmailPasswordAuthenticatorResponse
ann_answer = record { token = "token"; user_id = "ann"; email = "ann" }

validate_access_token-Vouches_example :
    Vouches
      (tokens_for ann_session)
      "token"
      env
      shop
      (validate_access_token (tokens_for ann_session) guest "token" env shop)
validate_access_token-Vouches_example =
    validate_access_token-Vouches (tokens_for ann_session) guest "token" env shop

validate_access_token-issue_access_token_example :
    validate_access_token (tokens_for ann_session) guest "token" env shop
    ≡ (ok ann_session, tick (tick shop))
unfolding issue_access_token find_user
validate_access_token-issue_access_token_example =
    validate_access_token-issue_access_token (tokens_for ann_session) (tokens_for_reads ann_session)
      (λ signed token h. sym h) (λ payload signed h. sym h) guest ann_session "token" env env shop
      shop (user_row "ann") refl refl refl refl refl refl

authenticate-LogsIn_example :
    LogsIn
      (tokens_for ann_session)
      passwords
      ann_password
      env
      shop
      (authenticate (tokens_for ann_session) passwords guest ann_password env shop)
authenticate-LogsIn_example =
    authenticate-LogsIn (tokens_for ann_session) passwords guest ann_password env shop

logout_revokes_example :
    (validate_access_token
      (tokens_for ann_session)
      guest
      "token"
      env
      (logout ann_context (record { user_id = "ann" }) env shop).1).0
    ≢ ok ann_session
unfolding validate_access_token open_token get_token_version validate_get_token_version find_user
    logout validate_logout increment_token_version validate_increment_token_version
    version_overflows in_int64 ◌+ℤ◌ bump_rows
logout_revokes_example =
    logout_revokes (tokens_for ann_session) guest ann_context guest "token" ann_session ann_session
      env env env shop shop (logout ann_context (record { user_id = "ann" }) env shop).1 (pos 1)
      refl refl refl (λ row found. ground arith)

pub some_lem : (r row : UserRow) → some r ≡ some row → r ≡ row
some_lem r row h = ground arith

abbrev eve : RegisterRequest
eve = record { email = "eve@shop"; password = "password"; name = "Eve"; account_name = "" }

abbrev eve_session : LoginClaim
eve_session = record ann_session { user_id = "t2"; email = "eve@shop" }

register-Registers_example :
    Registers
      (tokens_for eve_session)
      passwords
      eve
      env
      shop
      (register (tokens_for eve_session) passwords guest eve env shop)
register-Registers_example =
    register-Registers (tokens_for eve_session) passwords eve guest env shop refl
