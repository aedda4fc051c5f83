-- ===== src/Gateway/Brake.antt =====
-- No request goes round the limiters.
use loyalty_points_app.Prelude.{
  ℕ, String, ◌≡◌, ◌≢◌, refl, sym, ◌∙◌, Bool, Bool-cases, true, false, subst, suc, concat, ◌*◌,
  true≢false, not, ◌||◌, any, some, inl, inr, arith, ◌==◌, eq_iff,
}
use loyalty_points_app.Authorization.{is_public, default_policy}
use loyalty_points_app.Sql.{Env, World, Result, ok, err, Action}
use loyalty_points_app.Sql.Atomic.{tick}
use loyalty_points_app.Sessions.{TokenLibrary}
use loyalty_points_app.Gateway.Http.{
  HttpLibrary, ReadBody, read, too_large, unreadable, Request, RequestEnvelope, Reply, reply,
  refused,
}
use loyalty_points_app.Gateway.Authorizing.{max_request_body_bytes, authorization_middleware}
use loyalty_points_app.Gateway.Limiting.{
  RateLimiter, TokenBucketRequest, ip_rate_limiter_middleware, limit_exhausted, take_token,
  limited_by, limit_method, limit_body, user_rate_limiter_middleware,
}
use loyalty_points_app.Gateway.Chain.{
  user_rate, auth_rate, public_auth_methods, max_peek_body_bytes, serve_api,
}
use loyalty_points_app.Gateway.Gate.{
  Passes, turned_away, public_call, entitled_call, authorization_middleware-Passes,
}

-- The answer is an error reply.
abbrev pub IsRefused : {A : Type 0} → Result (Reply A) × World → Type 0
IsRefused (ok (refused x), w') = Unit
IsRefused (ok (reply a), w') = ⊥
IsRefused (err x, w') = ⊥

-- The methods that the IP limiter counts are the public ones.
pub public_auth_methods-is_public :
    (method : String) → any (λ m. m == method) public_auth_methods ≡ is_public default_policy method
unfolding public_auth_methods is_public default_policy
public_auth_methods-is_public method = refl

is_public_named :
    (method : String) → is_public default_policy method ≡ true → (method == "") ≡ false
unfolding is_public default_policy
is_public_named method h = elim (Bool-cases (method == "")) [
  | inl empty ↦ absurd (
      true≢false
        (sym (subst (λ m. is_public default_policy m ≡ true) ((eq_iff method "").0 empty) h)))
  | inr named ↦ named
]

module _ {Body Jws Backend Bucket A : Type 0} (http : HttpLibrary Body) (jose : TokenLibrary Jws)
    (limiter : RateLimiter Backend Bucket) (dispatch : Request Body → Action (Reply A))
    (exhausted : (n : ℕ) (bucket : Bucket) → limiter.limit n bucket ≡ limit_exhausted) where
  take_token-IsRefused :
      (bucket : TokenBucketRequest) (next : Request Body → Action (Reply A)) (key : String)
      (r : Request Body) (e : Env) (w : World)
      → IsRefused (take_token limiter bucket next key r e w)
  take_token-IsRefused bucket next key r e w =
      backend_refused
        (limiter.token_state_backend w.calls key (bucket.refill_rate * bucket.capacity))
    where
      backend_refused :
          (backend : Result Backend)
          → IsRefused (limited_by limiter bucket next r backend e (tick w))
      backend_refused (err x) = tt
      backend_refused (ok backend) =
          rw (exhausted (suc w.calls) (limiter.token_bucket bucket backend)) tt

  -- What the gate hands on: a claim's bucket is empty, so only a public method gets further.
  Passes-IsRefused :
      (r : Request Body) (e : Env) (w : World) (z : Result (Reply A) × World)
      → Passes http jose default_policy
          (user_rate_limiter_middleware limiter user_rate dispatch)
          r
          e
          w
          z
      → ((body : String) (envelope : RequestEnvelope)
          → http.read_all max_request_body_bytes r.body ≡ read body
          → http.unmarshal_envelope body ≡ (envelope, true)
          → is_public default_policy envelope.method ≡ false)
      → IsRefused z
  unfolding user_rate_limiter_middleware
  Passes-IsRefused r e w z (turned_away x w' kept) closed = tt
  Passes-IsRefused r e w z (public_call body envelope readable parsed public) closed =
      absurd (true≢false (sym public ∙ closed body envelope readable parsed))
  Passes-IsRefused r e w z (entitled_call body envelope claim w' a b c d kept) closed =
      take_token-IsRefused user_rate dispatch (concat "user_token_bucket:" claim.user_id) _ e w'

  module _
      (restores : (n : ℕ) (b : Body) (s : String)
        → http.read_all n b ≡ read s
        → http.read_all n (http.buffered s) ≡ read s)
      (stays_large : (n : ℕ) (b : Body)
        → http.read_all n b ≡ too_large
        → http.read_all n (http.spent n b) ≡ too_large)
      (stays_unreadable : (n : ℕ) (b : Body)
        → http.read_all n b ≡ unreadable
        → http.read_all n (http.spent n b) ≡ unreadable) where
    abbrev gate : Request Body → Action (Reply A)
    gate =
        authorization_middleware http jose default_policy
          (user_rate_limiter_middleware limiter user_rate dispatch)

    -- What the IP limiter lets by is not public.
    closed_again :
        (b : Body) (body body' : String) (envelope envelope' : RequestEnvelope) (parsed : Bool)
        → http.read_all max_peek_body_bytes b ≡ read body
        → http.unmarshal_envelope body ≡ (envelope, parsed)
        → (not parsed
            || envelope.method == ""
            || not (any (λ m. m == envelope.method) public_auth_methods))
          ≡ true
        → http.read_all max_request_body_bytes (http.buffered body) ≡ read body'
        → http.unmarshal_envelope body' ≡ (envelope', true)
        → is_public default_policy envelope'.method ≡ false
    closed_again b body body' envelope envelope' parsed readable opened passes readable' opened' =
        let same = restores max_peek_body_bytes b body readable in
        elim (Bool-cases (is_public default_policy envelope.method)) [
          | inl public ↦
              let named = is_public_named envelope.method public in
              let counted = public_auth_methods-is_public envelope.method in ground arith
          | inr closed ↦ ground arith
        ]

    limit_method-IsRefused :
        (r : Request Body) (e : Env) (w : World) (body : String) (z : RequestEnvelope × Bool)
        → http.read_all max_peek_body_bytes r.body ≡ read body
        → http.unmarshal_envelope body ≡ z
        → IsRefused (
            limit_method limiter auth_rate gate http max_peek_body_bytes public_auth_methods
              (record r { body = http.buffered body })
              z
              e
              w)
    limit_method-IsRefused r e w body (envelope, parsed) readable opened =
        elim (Bool-cases (
          not parsed
          || envelope.method == ""
          || not (any (λ m. m == envelope.method) public_auth_methods))) [
            | inl passes ↦ rw passes (
                Passes-IsRefused (record r { body = http.buffered body }) e w _
                  (authorization_middleware-Passes http jose default_policy
                    (user_rate_limiter_middleware limiter user_rate dispatch)
                    (record r { body = http.buffered body }) e w)
                  (λ body' envelope' readable' opened'.
                    closed_again r.body body body' envelope envelope' parsed readable opened passes
                      readable' opened'))
            | inr counted ↦ rw counted (take_token-IsRefused auth_rate gate _ _ e w)
          ]

    spent-IsRefused :
        (r : Request Body) (e : Env) (w : World)
        → ((body : String)
            → http.read_all max_request_body_bytes (http.spent max_peek_body_bytes r.body)
              ≢ read body)
        → IsRefused (gate (record r { body = http.spent max_peek_body_bytes r.body }) e w)
    spent-IsRefused r e w unread =
        Passes-IsRefused (record r { body = http.spent max_peek_body_bytes r.body }) e w _
          (authorization_middleware-Passes http jose default_policy
            (user_rate_limiter_middleware limiter user_rate dispatch)
            (record r { body = http.spent max_peek_body_bytes r.body }) e w)
          (λ body envelope readable opened. absurd (unread body readable))

    limit_body-IsRefused :
        (r : Request Body) (e : Env) (w : World) (b : ReadBody)
        → http.read_all max_peek_body_bytes r.body ≡ b
        → IsRefused
            (limit_body limiter auth_rate gate http max_peek_body_bytes public_auth_methods r b e w)
    limit_body-IsRefused r e w (read body) readable =
        limit_method-IsRefused r e w body (http.unmarshal_envelope body) readable refl
    limit_body-IsRefused r e w too_large large =
        let still = stays_large max_peek_body_bytes r.body large in
        spent-IsRefused r e w (λ body readable. ground arith)
    limit_body-IsRefused r e w unreadable broken =
        let still = stays_unreadable max_peek_body_bytes r.body broken in
        spent-IsRefused r e w (λ body readable. ground arith)

    -- With a limiter none of whose buckets has a token left, every request is answered by an error
    -- reply, whatever its body, its method and its token: no way through the server's chain reaches a
    -- handler without a token of a bucket. A body that was read and restored reads the same again,
    -- and one that failed to read fails again.
    pub serve_api-IsRefused :
        (r : Request Body) (e : Env) (w : World)
        → IsRefused (serve_api http jose dispatch (some limiter) r e w)
    unfolding serve_api ip_rate_limiter_middleware
    serve_api-IsRefused r e w =
        limit_body-IsRefused r e w (http.read_all max_peek_body_bytes r.body) refl
