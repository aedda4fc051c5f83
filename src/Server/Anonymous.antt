-- ===== src/Server/Anonymous.antt =====
-- What a request without a token can do.
use loyalty_points_app.Prelude.{
  String, ◌≡◌, refl, sym, ap, ◌∙◌, true, none, Option, ◌⊎◌, inl, inr, Bool-cases, arith, ◌==◌,
  eq_iff,
}
use loyalty_points_app.Authentication.Context.{Context, login_claim_from_context}
use loyalty_points_app.Authorization.{is_public, default_policy, login_method, register_method}
use loyalty_points_app.Sql.{Env, World, Result, ok, err}
use loyalty_points_app.Sessions.{
  TokenLibrary, PasswordLibrary, EmailPasswordAuthenticatorRequest,
  EmailPasswordAuthenticatorResponse, authenticate, login_handler,
}
use loyalty_points_app.Sessions.Credentials.{LogsIn, authenticate-LogsIn}
use loyalty_points_app.Registration.{register_handler}
use loyalty_points_app.Jsonrpc.{RpcError}
use loyalty_points_app.Gateway.{
  HttpLibrary, Request, RequestEnvelope, Reply, RateLimiter, extract_token,
}
use loyalty_points_app.Gateway.Tokenless.{serve_api_tokenless}
use loyalty_points_app.Server.Calls.{
  RpcCodec, RpcReply, session, registered, answer_with, handler, json_rpc_server, register_services,
  call_method,
}
use loyalty_points_app.Server.Services.{services, rpc_server}

-- A public method is the login or the registration.
is_public_lem :
    (method : String)
    → is_public default_policy method ≡ true
    → (method ≡ login_method) ⊎ (method ≡ register_method)
unfolding is_public default_policy
is_public_lem method h = elim (Bool-cases (login_method == method)) [
  | inl same ↦ inl (sym ((eq_iff login_method method).0 same))
  | inr other ↦ inr (sym ((eq_iff register_method method).0 (ground arith)))
]

module _ {Body Jws : Type 0} (codec : RpcCodec Body) (jose : TokenLibrary Jws)
    (bcrypt : PasswordLibrary) where
  LogsIn-kept :
      (r : EmailPasswordAuthenticatorRequest) (e : Env) (w : World)
      (z : Result EmailPasswordAuthenticatorResponse × World)
      → LogsIn jose bcrypt r e w z
      → z.1.db ≡ w.db
  LogsIn-kept r e w (ok resp, w') (user, stored, matches, (k, v, issued, a, b, kept)) = kept
  LogsIn-kept r e w (err x, w') kept = kept

  login_handler_db :
      (ctx : Context) (email password : String) (e : Env) (w : World)
      → (login_handler jose bcrypt ctx email password e w).1.db ≡ w.db
  unfolding login_handler
  login_handler_db ctx email password e w =
      let request : EmailPasswordAuthenticatorRequest = record {
        email = email;
        password = password;
      } in
      let kept =
        LogsIn-kept request e w (authenticate jose bcrypt ctx request e w)
          (authenticate-LogsIn jose bcrypt ctx request e w) in
      ground arith

  answer_with_db :
      (r : Request Body) (p : RpcError ⊎ (String × String)) (e : Env) (w : World)
      → (answer_with session (λ q. login_handler jose bcrypt r.context q.0 q.1) p e w).1.db ≡ w.db
  answer_with_db r (inl x) e w = refl
  answer_with_db r (inr (email, password)) e w = login_handler_db r.context email password e w

  -- No table has changed, or the whole effect is that of the registration's handler.
  pub data Anonymous (e : Env) (w : World) : Result (Reply RpcReply) × World → Type 0 where
    kept : (z : Result (Reply RpcReply) × World) → z.1.db ≡ w.db → Anonymous e w z
    registration :
        (r : Request Body) (v : World)
        → v.db ≡ w.db
        → Anonymous e w (handler registered codec.registration (register_handler jose bcrypt) r e v)

  module _ (http : HttpLibrary Body)
      (agrees : (body method : String) (envelope : RequestEnvelope)
        → http.unmarshal_envelope body ≡ (envelope, true)
        → codec.method (http.buffered body) ≡ inr method
        → method ≡ envelope.method) where
    call_method-Anonymous :
        (method : String) (r : Request Body) (e : Env) (w v : World)
        → v.db ≡ w.db
        → is_public default_policy method ≡ true
        → Anonymous e w
            (call_method codec (register_services (services codec jose bcrypt)) (inr method) r e v)
    unfolding services
    call_method-Anonymous method r e w v same public = elim (is_public_lem method public) [
      | inl login ↦ rw login (kept _ (answer_with_db r (codec.credentials r.body) e v ∙ same))
      | inr register ↦ rw register (registration r v same)
    ]

    json_rpc_server-Anonymous :
        (r : Request Body) (body : String) (envelope : RequestEnvelope) (e : Env) (w v : World)
        (called : RpcError ⊎ String)
        → codec.method (http.buffered body) ≡ called
        → v.db ≡ w.db
        → http.unmarshal_envelope body ≡ (envelope, true)
        → is_public default_policy envelope.method ≡ true
        → Anonymous e w (
            call_method codec
              (register_services (services codec jose bcrypt))
              called
              (record r { body = http.buffered body })
              e
              v)
    json_rpc_server-Anonymous r body envelope e w v (inl x) named same parsed public = kept _ same
    json_rpc_server-Anonymous r body envelope e w v (inr method) named same parsed public =
        call_method-Anonymous method (record r { body = http.buffered body }) e w v same
          (ap (is_public default_policy) (agrees body method envelope parsed named) ∙ public)

    -- Of a request without a token and without a claim in its context, whatever its body, its method
    -- and the limiter: no table changes, or all that happens is what the handler of the registration
    -- does on tables that are as they were. The codec calls the method that the envelope names.
    pub rpc_server-Anonymous :
        {Backend Bucket : Type 0} (limiter : Option (RateLimiter Backend Bucket)) (r : Request Body)
        (e : Env) (w : World)
        → (extract_token r == "") ≡ true
        → login_claim_from_context r.context ≡ none
        → Anonymous e w (rpc_server codec jose bcrypt http limiter r e w)
    unfolding rpc_server json_rpc_server
    rpc_server-Anonymous limiter r e w tokenless anonymous =
        serve_api_tokenless (Anonymous e w) e w (λ x v same. kept _ same) http jose
          (json_rpc_server codec (services codec jose bcrypt)) r tokenless anonymous
          (λ v body envelope same parsed public.
            json_rpc_server-Anonymous r body envelope e w v (codec.method (http.buffered body)) refl
              same parsed public)
          limiter
