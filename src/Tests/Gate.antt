-- ===== src/Tests/Gate.antt =====
-- Requests at the gateway.
use loyalty_points_app.Users.{find_user, get_token_version, validate_get_token_version}
use loyalty_points_app.Prelude.Texts.{cut_prefix}
use loyalty_points_app.Prelude.{ℕ, String, ◌≡◌, refl, true, none, some}
use loyalty_points_app.Authorization.{default_policy, authorize, is_public}
use loyalty_points_app.Sql.{Action, ok, pure}
use loyalty_points_app.Sessions.{open_token, validate_access_token}
use loyalty_points_app.Gateway.{
  HttpLibrary, read, Request, Reply, reply, RateLimiter, limit_exhausted, authorization_middleware,
  serve_api, extract_token,
}
use loyalty_points_app.Gateway.Gate.{Passes, authorization_middleware-Passes}
use loyalty_points_app.Gateway.Brake.{IsRefused, serve_api-IsRefused}
use loyalty_points_app.Tests.Shop.{env, shop}
use loyalty_points_app.Tests.Keys.{tokens_for}
use loyalty_points_app.Tests.SignIn.{guest, ann_session}

-- A body is the text of its method.
abbrev pub http : HttpLibrary String
http = record {
  read_all = λ n s. read s;
  spent = λ n s. s;
  buffered = λ s. s;
  unmarshal_envelope = λ s. (record { method = s; id = "1" }, true);
  split_host = λ s. none;
}

abbrev pub request_for : String → Request String
request_for method = record {
  body = method;
  authorization = "Bearer token";
  remote_addr = "10.0.0.1";
  context = guest;
}

abbrev answer : Request String → Action (Reply ℕ)
answer r = pure (reply 7)

abbrev pub empty_buckets : RateLimiter String String
empty_buckets = record {
  token_state_backend = λ n key ttl. ok key;
  token_bucket = λ request backend. backend;
  limit = λ n bucket. limit_exhausted;
}

authorization_middleware-Passes_example :
    Passes http
      (tokens_for ann_session)
      default_policy
      answer
      (request_for "Session.Logout")
      env
      shop
      (authorization_middleware http
        (tokens_for ann_session)
        default_policy
        answer
        (request_for "Session.Logout")
        env
        shop)
authorization_middleware-Passes_example =
    authorization_middleware-Passes http (tokens_for ann_session) default_policy answer
      (request_for "Session.Logout") env shop

serve_api-IsRefused_example : IsRefused (
    serve_api http
      (tokens_for ann_session)
      answer
      (some empty_buckets)
      (request_for "EmailPasswordAuthenticator.Login")
      env
      shop)
serve_api-IsRefused_example =
    serve_api-IsRefused http (tokens_for ann_session) empty_buckets answer (λ n bucket. refl)
      (λ n b s h. refl) (λ n b h. h) (λ n b h. h) (request_for "EmailPasswordAuthenticator.Login")
      env shop

-- Ann's token reaches the handler of her logout.
logout_reaches :
    (authorization_middleware http
      (tokens_for ann_session)
      default_policy
      answer
      (request_for "Session.Logout")
      env
      shop).0
    ≡ ok (reply 7)
unfolding authorization_middleware is_public default_policy extract_token cut_prefix
    validate_access_token open_token get_token_version validate_get_token_version find_user
    authorize
logout_reaches = refl
