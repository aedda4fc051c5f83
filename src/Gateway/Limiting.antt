-- ===== src/Gateway/Limiting.antt =====
-- pkg/rateLimiting: the two middlewares over the interface of a limiter, and the one of
-- internal/pkg/rateLimiting/redisTokenBucketRateLimiterImpl.go.
use loyalty_points_app.Prelude.{
  ℕ, suc, String, Bool, not, ◌||◌, Option, none, some, List, any, ◌*◌, concat, ◌==◌,
}
use loyalty_points_app.Errs.{Error, wrapped}
use loyalty_points_app.Authentication.Context.{LoginClaim, login_claim_from_context}
use loyalty_points_app.Sql.{Result, ok, err, Action, branch}
use loyalty_points_app.Jsonrpc.{code_internal}
use loyalty_points_app.Gateway.Http.{
  HttpLibrary, ReadBody, read, too_large, unreadable, Request, RequestEnvelope, Reply,
  code_too_many_requests, write_error_status, refuse,
}

-- The rate is the time, in nanoseconds, in which one token comes back. The products of the server's
-- rates and capacities are far below 2 ^ 63.
pub record TokenBucketRequest : Type 0 where
  pub refill_rate : ℕ
  pub capacity : ℕ

-- What `Limit` reports: a token was taken, none is left (`limiters.ErrLimitExhausted`), or an error.
pub data Limited : Type 0 where
  time_to_retry : ℕ → Limited
  limit_exhausted : Limited
  limit_failed : Error → Limited

-- `RedisTokenBucketRateLimiter`. The buckets are kept outside, so an answer depends on the number of
-- the call.
pub record RateLimiter (Backend Bucket : Type 0) : Type 0 where
  pub token_state_backend : ℕ → String → ℕ → Result Backend
  pub token_bucket : TokenBucketRequest → Backend → Bucket
  pub limit : ℕ → Bucket → Limited

-- The `limiters` package over Redis.
pub record LimiterLibrary (Backend Bucket : Type 0) : Type 0 where
  pub new_token_bucket_redis : String → ℕ → Backend
  pub new_token_bucket : ℕ → ℕ → Backend → Bucket
  pub bucket_limit : ℕ → Bucket → Limited

abbrev pub name_failure : Limited → Limited
name_failure (time_to_retry n) = time_to_retry n
name_failure limit_exhausted = limit_exhausted
name_failure (limit_failed x) = limit_failed (wrapped "rate limiting failed" x)

abbrev pub redis_rate_limiter :
    {Backend Bucket : Type 0} → LimiterLibrary Backend Bucket → RateLimiter Backend Bucket
redis_rate_limiter limiters = record {
  token_state_backend = λ n key ttl. ok (limiters.new_token_bucket_redis key ttl);
  token_bucket =
      λ request backend. limiters.new_token_bucket request.capacity request.refill_rate backend;
  limit = λ n bucket. name_failure (limiters.bucket_limit n bucket);
}

module _ {Body Backend Bucket A : Type 0} (limiter : RateLimiter Backend Bucket)
    (bucket : TokenBucketRequest) (next : Request Body → Action (Reply A)) where
  abbrev pub internal_reply : Action (Reply A)
  internal_reply =
      refuse (write_error_status 500 "" code_internal "internal server error" "internal")

  abbrev pub limited : Request Body → Limited → Action (Reply A)
  limited r (time_to_retry n) = next r
  limited r limit_exhausted =
      refuse (write_error_status 429 "" code_too_many_requests "too many requests" "rate_limited")
  limited r (limit_failed x) = internal_reply

  abbrev pub limited_by : Request Body → Result Backend → Action (Reply A)
  limited_by r (err x) e w = internal_reply e w
  limited_by r (ok backend) e w =
      limited r (limiter.limit w.calls (limiter.token_bucket bucket backend)) e
        (record w { calls = suc w.calls })

  -- A token of the bucket of the key, or an error reply.
  abbrev pub take_token : String → Request Body → Action (Reply A)
  take_token key r e w =
      limited_by r (limiter.token_state_backend w.calls key (bucket.refill_rate * bucket.capacity))
        e (record w { calls = suc w.calls })

  abbrev pub limit_claim : Request Body → Option LoginClaim → Action (Reply A)
  limit_claim r none = next r
  limit_claim r (some claim) = take_token (concat "user_token_bucket:" claim.user_id) r

  unfoldable pub user_rate_limiter_middleware : Request Body → Action (Reply A)
  user_rate_limiter_middleware r = limit_claim r (login_claim_from_context r.context)

  module _ (http : HttpLibrary Body) (max_peek_body_bytes : ℕ) (methods : List String) where
    abbrev pub or_whole : String → Option String → String
    or_whole addr none = addr
    or_whole addr (some host) = host

    -- The method is known where the body was read and parsed.
    abbrev pub limit_method : Request Body → RequestEnvelope × Bool → Action (Reply A)
    limit_method r (envelope, parsed) =
        branch
          (not parsed || envelope.method == "" || not (any (λ m. m == envelope.method) methods))
          (next r)
          (take_token
            (concat "ip_token_bucket:" (or_whole r.remote_addr (http.split_host r.remote_addr))) r)

    abbrev pub limit_body : Request Body → ReadBody → Action (Reply A)
    limit_body r (read body) =
        limit_method (record r { body = http.buffered body }) (http.unmarshal_envelope body)
    limit_body r too_large = next (record r { body = http.spent max_peek_body_bytes r.body })
    limit_body r unreadable = next (record r { body = http.spent max_peek_body_bytes r.body })

    unfoldable pub ip_rate_limiter_middleware : Request Body → Action (Reply A)
    ip_rate_limiter_middleware r = limit_body r (http.read_all max_peek_body_bytes r.body)
