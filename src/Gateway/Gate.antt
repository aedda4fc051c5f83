-- ===== src/Gateway/Gate.antt =====
-- Who gets past the authorization middleware.
use loyalty_points_app.Prelude.{String, ◌≡◌, refl, Bool, Bool-cases, true, false, inl, inr, ◌==◌}
use loyalty_points_app.Prelude.Int.{ltb_ℤ}
use loyalty_points_app.Authentication.Context.{LoginClaim, context_with_login_claim}
use loyalty_points_app.Authorization.{Policy, is_public, authorize}
use loyalty_points_app.Sql.{Env, World, Result, ok, err, Action, try, ◌>>=◌}
use loyalty_points_app.Sessions.{TokenLibrary, validate_access_token}
use loyalty_points_app.Sessions.Validity.{
  Carries, HasVersion, Vouches, validate_access_token-Vouches,
}
use loyalty_points_app.Gateway.Http.{
  HttpLibrary, ReadBody, read, too_large, unreadable, Request, RequestEnvelope, ErrorReply, Reply,
  refused, extract_token,
}
use loyalty_points_app.Gateway.Authorizing.{
  max_request_body_bytes, admit_claim, require_token, route, route_body, authorization_middleware,
}

module _ {Body Jws A : Type 0} (http : HttpLibrary Body) (jose : TokenLibrary Jws) (policy : Policy)
    (next : Request Body → Action (Reply A)) where
  -- The claim of the request's token: signed with the server's key, in time, of the stored epoch,
  -- and with a permission for the method.
  abbrev pub IsEntitled : Request Body → String → LoginClaim → Env → World → Type 0
  IsEntitled r method claim e w =
      Carries jose (extract_token r) claim
      × (ltb_ℤ claim.expiration_time (jose.unix (e.now w.calls)) ≡ false)
      × HasVersion claim.user_id claim.token_version w.db
      × (authorize policy claim.permissions method ≡ true)

  -- The middleware's ways out, for a request whose body reads as an envelope: an error reply, which
  -- changes no table; the next handler for a public method; the next handler with a claim.
  pub data Passes (r : Request Body) (e : Env) (w : World) : Result (Reply A) × World → Type 0 where
    turned_away : (x : ErrorReply) (w' : World) → w'.db ≡ w.db → Passes r e w (ok (refused x), w')
    public_call :
        (body : String) (envelope : RequestEnvelope)
        → http.read_all max_request_body_bytes r.body ≡ read body
        → http.unmarshal_envelope body ≡ (envelope, true)
        → is_public policy envelope.method ≡ true
        → Passes r e w (next (record r { body = http.buffered body }) e w)
    entitled_call :
        (body : String) (envelope : RequestEnvelope) (claim : LoginClaim) (w' : World)
        → http.read_all max_request_body_bytes r.body ≡ read body
        → http.unmarshal_envelope body ≡ (envelope, true)
        → is_public policy envelope.method ≡ false
        → IsEntitled r envelope.method claim e w
        → w'.db ≡ w.db
        → Passes r e w (
            next
              (record r {
                body = http.buffered body;
                context = context_with_login_claim r.context claim;
              })
              e
              w')

  module _ (r : Request Body) (e : Env) (w : World) (body : String) (envelope : RequestEnvelope)
      (readable : http.read_all max_request_body_bytes r.body ≡ read body)
      (parsed : http.unmarshal_envelope body ≡ (envelope, true)) where
    abbrev restored : Request Body
    restored = record r { body = http.buffered body }

    Passes-Vouches :
        (z : Result LoginClaim × World)
        → is_public policy envelope.method ≡ false
        → Vouches jose (extract_token r) e w z
        → Passes r e w
            ((try (λ _ _. z) >>= admit_claim http jose policy next restored envelope) e w)
    Passes-Vouches (ok claim, w') closed (carried, in_time, stored, kept) =
        elim (Bool-cases (authorize policy claim.permissions envelope.method)) [
          | inl granted ↦ rw granted (
              entitled_call body envelope claim w' readable parsed closed
                (carried, in_time, stored, granted) kept)
          | inr denied ↦ rw denied (turned_away _ w' kept)
        ]
    Passes-Vouches (err x, w') closed kept = turned_away _ w' kept

    require_token-Passes :
        is_public policy envelope.method ≡ false
        → Passes r e w (require_token http jose policy next restored envelope e w)
    unfolding extract_token
    require_token-Passes closed = elim (Bool-cases (extract_token r == "")) [
      | inl missing ↦ rw missing (turned_away _ w refl)
      | inr given ↦ rw given (
          Passes-Vouches (validate_access_token jose r.context (extract_token r) e w) closed
            (validate_access_token-Vouches jose r.context (extract_token r) e w))
    ]

    route-Passes : Passes r e w (route http jose policy next restored (envelope, true) e w)
    route-Passes = elim (Bool-cases (envelope.method == "")) [
      | inl empty ↦ rw empty (turned_away _ w refl)
      | inr named ↦ elim (Bool-cases (is_public policy envelope.method)) [
        | inl public ↦ rw (named, public) (public_call body envelope readable parsed public)
        | inr closed ↦ rw (named, closed) (require_token-Passes closed)
      ]
    ]

  envelope-Passes :
      (r : Request Body) (e : Env) (w : World) (body : String) (read_as : RequestEnvelope × Bool)
      → http.read_all max_request_body_bytes r.body ≡ read body
      → http.unmarshal_envelope body ≡ read_as
      → Passes r e w
          (route http jose policy next (record r { body = http.buffered body }) read_as e w)
  envelope-Passes r e w body (envelope, true) readable parsed =
      route-Passes r e w body envelope readable parsed
  envelope-Passes r e w body (envelope, false) readable parsed = turned_away _ w refl

  body-Passes :
      (r : Request Body) (e : Env) (w : World) (b : ReadBody)
      → http.read_all max_request_body_bytes r.body ≡ b
      → Passes r e w (route_body http jose policy next r b e w)
  body-Passes r e w (read body) readable =
      envelope-Passes r e w body (http.unmarshal_envelope body) readable refl
  body-Passes r e w too_large readable = turned_away _ w refl
  body-Passes r e w unreadable readable = turned_away _ w refl

  -- For any next handler: the middleware answers with an error reply of its own and changes no table,
  -- or hands the request on, for a public method as it came, and for any other method only with a
  -- claim that the request's token carries under the server's signature, that is in time, has the
  -- stored session epoch and holds a permission for the method.
  pub authorization_middleware-Passes :
      (r : Request Body) (e : Env) (w : World)
      → Passes r e w (authorization_middleware http jose policy next r e w)
  unfolding authorization_middleware
  authorization_middleware-Passes r e w =
      body-Passes r e w (http.read_all max_request_body_bytes r.body) refl
