-- ===== src/Gateway/Chain.antt =====
-- The chain of `setupRPCServer` in cmd/app/setupRPCServer.go. The codec and the handlers behind it
-- are `dispatch`. The logger's middleware, in front of all, changes no reply (Logging).
use loyalty_points_app.Prelude.{ℕ, String, Option, none, some, List, [], ◌∷◌, ◌*◌}
use loyalty_points_app.Authorization.{default_policy}
use loyalty_points_app.Sql.{Action}
use loyalty_points_app.Sessions.{TokenLibrary}
use loyalty_points_app.Gateway.Http.{HttpLibrary, Request, Reply}
use loyalty_points_app.Gateway.Authorizing.{authorization_middleware}
use loyalty_points_app.Gateway.Limiting.{
  RateLimiter, TokenBucketRequest, ip_rate_limiter_middleware, user_rate_limiter_middleware,
}

-- 100 ms and 20 ms, in nanoseconds.
abbrev pub auth_rate : TokenBucketRequest
auth_rate = record { refill_rate = 100000000; capacity = 200 }

abbrev pub user_rate : TokenBucketRequest
user_rate = record { refill_rate = 20000000; capacity = 100 }

unfoldable pub public_auth_methods : List String
public_auth_methods = "EmailPasswordAuthenticator.Login" ∷ "UserRegistrationService.Register" ∷ []

-- 4 MiB
abbrev pub max_peek_body_bytes : ℕ
max_peek_body_bytes = 4 * 1024 * 1024

module _ {Body Jws Backend Bucket A : Type 0} (http : HttpLibrary Body) (jose : TokenLibrary Jws)
    (dispatch : Request Body → Action (Reply A)) where
  -- The limiter of the IP address first, then the gate, then the limiter of the user.
  abbrev pub limited_chain : RateLimiter Backend Bucket → Request Body → Action (Reply A)
  limited_chain limiter =
      ip_rate_limiter_middleware limiter auth_rate
        (authorization_middleware http jose default_policy
          (user_rate_limiter_middleware limiter user_rate dispatch))
        http max_peek_body_bytes public_auth_methods

  -- Without Redis there is no limiter.
  unfoldable pub serve_api : Option (RateLimiter Backend Bucket) → Request Body → Action (Reply A)
  serve_api none = authorization_middleware http jose default_policy dispatch
  serve_api (some limiter) = limited_chain limiter
