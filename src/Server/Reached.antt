-- ===== src/Server/Reached.antt =====
-- From a login to the handler of the next request.
use loyalty_points_app.Prelude.{
  ℕ, suc, String, ◌≡◌, refl, ◌∙◌, true, false, none, some, Option, inr, ◌==◌, concat,
}
use loyalty_points_app.Prelude.Int.{ltb_ℤ, ◌+ℤ◌}
use loyalty_points_app.Prelude.Texts.{concat-ne-empty, cut_prefix-concat}
use loyalty_points_app.Authentication.Context.{LoginClaim, Context, context_with_login_claim}
use loyalty_points_app.Authorization.{permissions_for_role, default_policy, is_public, authorize}
use loyalty_points_app.Sql.Schema.{UserRow}
use loyalty_points_app.Sql.{Env, World, ok, Action}
use loyalty_points_app.Sql.Atomic.{tick}
use loyalty_points_app.Users.{find_user, find_user_by_email, root_user_id}
use loyalty_points_app.Sessions.{
  TokenLibrary, PasswordLibrary, EmailPasswordAuthenticatorRequest,
  EmailPasswordAuthenticatorResponse, access_token_ttl, authenticate, validate_access_token,
}
use loyalty_points_app.Sessions.SignedIn.{authenticate-Accepted}
use loyalty_points_app.Gateway.{
  HttpLibrary, read, Request, RequestEnvelope, Reply, max_request_body_bytes,
  authorization_middleware, extract_token, RateLimiter, serve_api,
}
use loyalty_points_app.Server.Calls.{
  RpcCodec, Handler, json_rpc_server, register_services, find_method,
}
use loyalty_points_app.Server.Services.{services, rpc_server}

extract_token_bearer :
    {Body : Type 0} (r : Request Body) (token : String)
    → r.authorization ≡ concat "Bearer " token
    → extract_token r ≡ token
unfolding extract_token
extract_token_bearer r token bears =
    rw (bears, concat-ne-empty "B" "earer " token, cut_prefix-concat "Bearer " token) refl

module _ {Body Jws A : Type 0} (http : HttpLibrary Body) (jose : TokenLibrary Jws)
    (next : Request Body → Action (Reply A)) where
  -- A request whose token is accepted, with a claim that may call the method, goes on with the claim.
  pub authorization_middleware_admits :
      (r : Request Body) (body : String) (envelope : RequestEnvelope) (claim : LoginClaim) (e : Env)
      (w w' : World)
      → http.read_all max_request_body_bytes r.body ≡ read body
      → http.unmarshal_envelope body ≡ (envelope, true)
      → (envelope.method == "") ≡ false
      → is_public default_policy envelope.method ≡ false
      → (extract_token r == "") ≡ false
      → validate_access_token jose r.context (extract_token r) e w ≡ (ok claim, w')
      → authorize default_policy claim.permissions envelope.method ≡ true
      → authorization_middleware http jose default_policy next r e w
        ≡ next
            (record r {
              body = http.buffered body;
              context = context_with_login_claim r.context claim;
            })
            e
            w'
  unfolding authorization_middleware extract_token
  authorization_middleware_admits r body envelope claim e w w' readable parsed named closed given
        accepted granted =
      rw (readable, parsed, named, closed, given, accepted, granted) refl

module _ {Body Jws : Type 0} (codec : RpcCodec Body) (jose : TokenLibrary Jws)
    (bcrypt : PasswordLibrary) (http : HttpLibrary Body) where
  -- The method that the codec reads is run by its handler.
  json_rpc_server_runs :
      (r : Request Body) (method : String) (h : Handler Body) (e : Env) (w : World)
      → codec.method r.body ≡ inr method
      → find_method method (register_services (services codec jose bcrypt)) ≡ some h
      → json_rpc_server codec (services codec jose bcrypt) r e w ≡ h r e w
  unfolding json_rpc_server
  json_rpc_server_runs r method h e w named found = rw (named, found) refl

module _ {Body Jws : Type 0} (codec : RpcCodec Body) (jose : TokenLibrary Jws)
    (bcrypt : PasswordLibrary) (http : HttpLibrary Body)
    (reads : (claim : LoginClaim) (payload : String)
      → jose.marshal claim ≡ ok payload
      → jose.unmarshal payload ≡ ok claim)
    (parses : (signed : Jws) (token : String)
      → jose.compact_serialize signed ≡ ok token
      → jose.parse_signed token ≡ ok signed)
    (verifies : (payload : String) (signed : Jws)
      → jose.sign payload ≡ ok signed
      → jose.verify signed ≡ ok payload) where
  -- After a login that succeeded, a request to the server without a limiter that bears its token and
  -- calls a method which the stored user's role permits is answered by the method's handler, with a
  -- claim of this user and the permissions of its role in the context: where the libraries read back
  -- what they wrote, token and user id are not empty, the user's row is as the login found it, the
  -- statement does not fail, no reading of the login's clock is more than an hour old, and the body
  -- reads, to the gate and to the codec, as a call of the method, which is not public.
  pub rpc_server_serves :
      {Backend Bucket : Type 0} (limiter : Option (RateLimiter Backend Bucket)) (ctx : Context)
      (login : EmailPasswordAuthenticatorRequest) (resp : EmailPasswordAuthenticatorResponse)
      (r : Request Body) (body : String) (envelope : RequestEnvelope) (h : Handler Body)
      (e e' : Env) (w v : World)
      → limiter ≡ none
      → (authenticate jose bcrypt ctx login e w).0 ≡ ok resp
      → (resp.user_id == "") ≡ false
      → (resp.token == "") ≡ false
      → r.authorization ≡ concat "Bearer " resp.token
      → e'.fault (suc v.calls) ≡ none
      → ((k : ℕ)
          → ltb_ℤ (jose.unix (e.now k +ℤ access_token_ttl)) (jose.unix (e'.now v.calls)) ≡ false)
      → ((row : UserRow)
          → find_user_by_email false login.email root_user_id w.db.users ≡ some row
          → find_user false row.id "" v.db.users ≡ some row)
      → ((row : UserRow)
          → find_user_by_email false login.email root_user_id w.db.users ≡ some row
          → authorize default_policy (permissions_for_role row.role) envelope.method ≡ true)
      → http.read_all max_request_body_bytes r.body ≡ read body
      → http.unmarshal_envelope body ≡ (envelope, true)
      → (envelope.method == "") ≡ false
      → is_public default_policy envelope.method ≡ false
      → codec.method (http.buffered body) ≡ inr envelope.method
      → find_method envelope.method (register_services (services codec jose bcrypt)) ≡ some h
      → (claim : LoginClaim) × (claim.user_id ≡ resp.user_id)
        × (claim.permissions ≡ permissions_for_role claim.role)
        × (rpc_server codec jose bcrypt http limiter r e' v
            ≡ h
                (record r {
                  body = http.buffered body;
                  context = context_with_login_claim r.context claim;
                })
                e'
                (tick (tick v)))
  unfolding rpc_server serve_api
  rpc_server_serves limiter ctx login resp r body envelope h e e' w v unlimited success named given
        bears quiet in_time same permitted readable parsed called closed read_as found =
      let (claim, user, perms, (row, stored, role), accepted) =
        authenticate-Accepted jose bcrypt reads parses verifies ctx r.context login resp e e' w v
          success named quiet in_time same in
      let token : extract_token r ≡ resp.token = extract_token_bearer r resp.token bears in
      (
        claim,
        user,
        perms,
        rw unlimited (
            authorization_middleware_admits http jose
              (json_rpc_server codec (services codec jose bcrypt)) r body envelope claim e' v
              (tick (tick v)) readable parsed called closed (rw token given) (rw token accepted)
              (rw perms (rw role (permitted row stored)))
            ∙ json_rpc_server_runs codec jose bcrypt http
                (record r {
                  body = http.buffered body;
                  context = context_with_login_claim r.context claim;
                })
                envelope.method h e' (tick (tick v)) read_as found),
      )
