-- ===== src/Tests/Served.antt =====
-- Requests on their whole way through the server.
use loyalty_points_app.Prelude.{
  ◌≡◌, refl, sym, subst, String, true, false, none, some, Option, [], inl, inr, is_some, ◌||◌,
  arith,
}
use loyalty_points_app.Prelude.Int.{pos, neg, ◌+ℤ◌}
use loyalty_points_app.Authentication.Context.{LoginClaim, context_with_login_claim}
use loyalty_points_app.Authorization.{
  default_policy, is_public, authorize, permissions_for_role, role_member, role_admin, is_granted,
}
use loyalty_points_app.Jsonrpc.{RpcError, rpc_error}
use loyalty_points_app.Sql.Atomic.{tick}
use loyalty_points_app.Users.{find_user, find_user_by_email, get_by_email, validate_get_by_email}
use loyalty_points_app.Wallets.Adaptor.{earn_points_handler}
use loyalty_points_app.Sessions.{authenticate, validate_credentials, issue_access_token}
use loyalty_points_app.Gateway.{Request, RateLimiter, extract_token}
use loyalty_points_app.Server.{
  RpcCodec, transaction, handler, register_services, find_method, services, rpc_server,
}
use loyalty_points_app.Server.Methods.{find_method-services}
use loyalty_points_app.Server.Anonymous.{Anonymous, rpc_server-Anonymous}
use loyalty_points_app.Server.Reached.{rpc_server_serves}
use loyalty_points_app.Tests.Shop.{env, shop, user_row}
use loyalty_points_app.Tests.Keys.{tokens_for, tokens_for_reads, passwords}
use loyalty_points_app.Tests.SignIn.{guest, ann_session, ann_password, ann_answer, some_lem}
use loyalty_points_app.Tests.Gate.{http, request_for, empty_buckets}

abbrev unread : RpcError
unread = rpc_error (neg (pos 32600)) "invalid request" "" none

-- A body is the text of its method, and all params are the sample's.
abbrev pub codec : RpcCodec String
codec = record {
  method = λ s. inr s;
  no_method = λ s. unread;
  nothing = λ s. inr tt;
  credentials = λ s. inr ("ann", "secret");
  registration = λ s. inl unread;
  transaction = λ s. inl unread;
  points =
      λ s. inr (record { ref = "r9"; account_id = "a1"; points = pos 5; occurred_at = pos 900 });
  transactions = λ s. inr [];
  account_id = λ s. inr "a1";
  account_name = λ s. inl unread;
  account_delta = λ s. inl unread;
  name = λ s. inr "Savings";
  transaction_ref = λ s. inr "r1";
}

find_method-services_example :
    is_some (
      find_method "Wallet.Refund"
        (register_services (services codec (tokens_for ann_session) passwords)))
    ≡ (is_public default_policy "Wallet.Refund"
        || (authorize default_policy (permissions_for_role role_member) "Wallet.Refund"
            || authorize default_policy (permissions_for_role role_admin) "Wallet.Refund"))
find_method-services_example =
    find_method-services codec (tokens_for ann_session) passwords "Wallet.Refund"

-- A balance adjustment without a token.
abbrev without_token : Request String
without_token = record (request_for "AccountService.UpdateAccountBalance") { authorization = "" }

rpc_server-Anonymous_example : Anonymous codec (tokens_for ann_session) passwords env shop (
    rpc_server codec
      (tokens_for ann_session)
      passwords
      http
      (some empty_buckets)
      without_token
      env
      shop)
unfolding extract_token
rpc_server-Anonymous_example =
    rpc_server-Anonymous codec (tokens_for ann_session) passwords http
      (λ body method envelope parsed named. ground arith) (some empty_buckets) without_token env
      shop refl refl

abbrev unlimited : Option (RateLimiter String String)
unlimited = none

rpc_server_serves_example :
    (claim : LoginClaim) × (claim.user_id ≡ "ann")
    × (claim.permissions ≡ permissions_for_role claim.role)
    × (rpc_server codec
          (tokens_for ann_session)
          passwords
          http
          unlimited
          (request_for "Wallet.EarnPoints")
          env
          shop
        ≡ handler transaction codec.points earn_points_handler
            (record (request_for "Wallet.EarnPoints") {
              context = context_with_login_claim guest claim;
            })
            env
            (tick (tick shop)))
unfolding authenticate validate_credentials get_by_email validate_get_by_email find_user_by_email
    is_granted issue_access_token ◌+ℤ◌ permissions_for_role find_user authorize default_policy
    is_public services
rpc_server_serves_example =
    rpc_server_serves codec (tokens_for ann_session) passwords http (tokens_for_reads ann_session)
      (λ signed token h. sym h) (λ payload signed h. sym h) unlimited guest ann_password ann_answer
      (request_for "Wallet.EarnPoints") "Wallet.EarnPoints"
      (record { method = "Wallet.EarnPoints"; id = "1" })
      (handler transaction codec.points earn_points_handler) env env shop shop refl refl refl refl
      refl refl (λ k. refl)
      (λ row found.
        subst (λ r. find_user false r.id "" shop.db.users ≡ some r)
          (some_lem (user_row "ann") row found) refl)
      (λ row found.
        subst
          (λ r. authorize default_policy (permissions_for_role r.role) "Wallet.EarnPoints" ≡ true)
          (some_lem (user_row "ann") row found) refl)
      refl refl refl refl refl refl
