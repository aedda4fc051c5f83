-- ===== src/Gateway/Tokenless.antt =====
-- What the chain does with a request that has no token.
use loyalty_points_app.Prelude.{
  String, ◌≡◌, refl, Bool, Bool-cases, true, false, none, some, Option, inl, inr, ◌*◌, not, ◌||◌,
  any, arith, ◌==◌,
}
use loyalty_points_app.Authentication.Context.{LoginClaim, login_claim_from_context}
use loyalty_points_app.Authorization.{is_public, default_policy}
use loyalty_points_app.Sql.{Env, World, Result, ok, err, Action}
use loyalty_points_app.Sql.Atomic.{tick}
use loyalty_points_app.Sessions.{TokenLibrary}
use loyalty_points_app.Gateway.Http.{
  HttpLibrary, ReadBody, read, too_large, unreadable, Request, RequestEnvelope, ErrorReply, Reply,
  refused, extract_token,
}
use loyalty_points_app.Gateway.Authorizing.{
  max_request_body_bytes, authorization_middleware, route, route_body,
}
use loyalty_points_app.Gateway.Limiting.{
  RateLimiter, TokenBucketRequest, Limited, time_to_retry, limit_exhausted, limit_failed, limited,
  limited_by, take_token, limit_claim, limit_method, limit_body, ip_rate_limiter_middleware,
  user_rate_limiter_middleware,
}
use loyalty_points_app.Gateway.Chain.{
  user_rate, auth_rate, public_auth_methods, max_peek_body_bytes, serve_api,
}

module _ {A : Type 0} (P : Result (Reply A) × World → Type 0) (e : Env) (w : World)
    (turned : (x : ErrorReply) (v : World) → v.db ≡ w.db → P (ok (refused x), v)) where
  -- A request without a claim is not limited.
  limit_claim_lem :
      {Body Backend Bucket : Type 0} (limiter : RateLimiter Backend Bucket)
      (bucket : TokenBucketRequest) (next : Request Body → Action (Reply A)) (r : Request Body)
      {v : World}
      → P (next r e v)
      → (c : Option LoginClaim) → c ≡ none
      → P (limit_claim limiter bucket next r c e v)
  limit_claim_lem limiter bucket next r p none h = p
  limit_claim_lem limiter bucket next r p (some claim) h = absurd (ground arith)

  -- A limiter that answers, or lets the request by.
  module _ {Body Backend Bucket : Type 0} (limiter : RateLimiter Backend Bucket)
      (bucket : TokenBucketRequest) (next : Request Body → Action (Reply A)) (r : Request Body)
      (passed : (v : World) → v.db ≡ w.db → P (next r e v)) where
    limited_lem : (l : Limited) (v : World) → v.db ≡ w.db → P (limited limiter bucket next r l e v)
    limited_lem (time_to_retry n) v kept = passed v kept
    limited_lem limit_exhausted v kept = turned _ v kept
    limited_lem (limit_failed x) v kept = turned _ v kept

    limited_by_lem :
        (backend : Result Backend) (v : World)
        → v.db ≡ w.db
        → P (limited_by limiter bucket next r backend e v)
    limited_by_lem (err x) v kept = turned _ v kept
    limited_by_lem (ok backend) v kept =
        limited_lem (limiter.limit v.calls (limiter.token_bucket bucket backend)) (tick v) kept

    take_token_lem :
        (key : String) (v : World) → v.db ≡ w.db → P (take_token limiter bucket next key r e v)
    take_token_lem key v kept =
        limited_by_lem
          (limiter.token_state_backend v.calls key (bucket.refill_rate * bucket.capacity)) (tick v)
          kept

  module _ {Body Jws : Type 0} (http : HttpLibrary Body) (jose : TokenLibrary Jws)
      (next : Request Body → Action (Reply A)) (r : Request Body)
      (tokenless : (extract_token r == "") ≡ true)
      (passed : (v : World) (body : String) (envelope : RequestEnvelope)
        → v.db ≡ w.db
        → http.unmarshal_envelope body ≡ (envelope, true)
        → is_public default_policy envelope.method ≡ true
        → P (next (record r { body = http.buffered body }) e v)) where
    route_lem :
        (body : String) (z : RequestEnvelope × Bool) (v : World)
        → http.unmarshal_envelope body ≡ z
        → v.db ≡ w.db
        → P (route http jose default_policy next (record r { body = http.buffered body }) z e v)
    unfolding extract_token
    route_lem body (envelope, false) v parsed kept = turned _ v kept
    route_lem body (envelope, true) v parsed kept = elim (Bool-cases (envelope.method == "")) [
      | inl empty ↦ rw empty (turned _ v kept)
      | inr named ↦ elim (Bool-cases (is_public default_policy envelope.method)) [
        | inl public ↦ rw (named, public) (passed v body envelope kept parsed public)
        | inr closed ↦ rw (named, closed, tokenless) (turned _ v kept)
      ]
    ]

    route_body_lem :
        (b : ReadBody) (v : World)
        → v.db ≡ w.db
        → P (route_body http jose default_policy next r b e v)
    route_body_lem (read body) v kept = route_lem body (http.unmarshal_envelope body) v refl kept
    route_body_lem too_large v kept = turned _ v kept
    route_body_lem unreadable v kept = turned _ v kept

    authorization_middleware_tokenless :
        (v : World) → v.db ≡ w.db → P (authorization_middleware http jose default_policy next r e v)
    unfolding authorization_middleware
    authorization_middleware_tokenless v kept =
        route_body_lem (http.read_all max_request_body_bytes r.body) v kept

  -- Through the whole chain: an answer on the way, which changes no table, or the handlers on a body
  -- that reads as the envelope of a public method.
  module _ {Body Jws Backend Bucket : Type 0} (http : HttpLibrary Body) (jose : TokenLibrary Jws)
      (dispatch : Request Body → Action (Reply A)) (r : Request Body)
      (tokenless : (extract_token r == "") ≡ true)
      (anonymous : login_claim_from_context r.context ≡ none)
      (passed : (v : World) (body : String) (envelope : RequestEnvelope)
        → v.db ≡ w.db
        → http.unmarshal_envelope body ≡ (envelope, true)
        → is_public default_policy envelope.method ≡ true
        → P (dispatch (record r { body = http.buffered body }) e v)) where
    module _ (limiter : RateLimiter Backend Bucket) where
      abbrev gate : Request Body → Action (Reply A)
      gate =
          authorization_middleware http jose default_policy
            (user_rate_limiter_middleware limiter user_rate dispatch)

      gate_tokenless : (b : Body) (v : World) → v.db ≡ w.db → P (gate (record r { body = b }) e v)
      unfolding user_rate_limiter_middleware extract_token
      gate_tokenless b v kept =
          authorization_middleware_tokenless http jose
            (user_rate_limiter_middleware limiter user_rate dispatch) (record r { body = b })
            tokenless
            (λ u body envelope same parsed public.
              limit_claim_lem limiter user_rate dispatch (record r { body = http.buffered body })
                (passed u body envelope same parsed public) (login_claim_from_context r.context)
                anonymous)
            v kept

      limit_method_tokenless :
          (b : Body) (z : RequestEnvelope × Bool)
          → P (
              limit_method limiter auth_rate gate http max_peek_body_bytes public_auth_methods
                (record r { body = b })
                z
                e
                w)
      limit_method_tokenless b (envelope, parsed) =
          elim (Bool-cases (
            not parsed
            || envelope.method == ""
            || not (any (λ m. m == envelope.method) public_auth_methods))) [
              | inl passes ↦ rw passes (gate_tokenless b w refl)
              | inr counted ↦ rw counted (
                  take_token_lem limiter auth_rate gate (record r { body = b }) (gate_tokenless b) _
                    w refl)
            ]

      limit_body_tokenless :
          (b : ReadBody)
          → P (
              limit_body limiter auth_rate gate http max_peek_body_bytes public_auth_methods r b e
                w)
      limit_body_tokenless (read body) =
          limit_method_tokenless (http.buffered body) (http.unmarshal_envelope body)
      limit_body_tokenless too_large = gate_tokenless (http.spent max_peek_body_bytes r.body) w refl
      limit_body_tokenless unreadable =
          gate_tokenless (http.spent max_peek_body_bytes r.body) w refl

    pub serve_api_tokenless :
        (limiter : Option (RateLimiter Backend Bucket))
        → P (serve_api http jose dispatch limiter r e w)
    unfolding serve_api ip_rate_limiter_middleware
    serve_api_tokenless none =
        authorization_middleware_tokenless http jose dispatch r tokenless passed w refl
    serve_api_tokenless (some limiter) =
        limit_body_tokenless limiter (http.read_all max_peek_body_bytes r.body)
