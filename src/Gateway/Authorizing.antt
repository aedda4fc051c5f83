-- ===== src/Gateway/Authorizing.antt =====
-- pkg/authorization/authorizationMiddleware.go.
use loyalty_points_app.Prelude.{ℕ, Bool, not, ◌||◌, ◌*◌, concat, ◌==◌}
use loyalty_points_app.Authentication.Context.{LoginClaim, context_with_login_claim}
use loyalty_points_app.Authorization.{Policy, is_public, authorize}
use loyalty_points_app.Sql.{Result, ok, err, ask, Action, try, branch, ◌>>=◌}
use loyalty_points_app.Jsonrpc.{code_invalid_params, code_unauthorized, code_forbidden}
use loyalty_points_app.Sessions.{TokenLibrary, validate_access_token}
use loyalty_points_app.Gateway.Http.{
  HttpLibrary, ReadBody, read, too_large, unreadable, Request, RequestEnvelope, Reply,
  code_parse_error, write_error, refuse, extract_token,
}

-- 4 MiB
abbrev pub max_request_body_bytes : ℕ
max_request_body_bytes = 4 * 1024 * 1024

module _ {Body Jws A : Type 0} (http : HttpLibrary Body) (jose : TokenLibrary Jws) (policy : Policy)
    (next : Request Body → Action (Reply A)) where
  abbrev pub unauthorized_reply : RequestEnvelope → Action (Reply A)
  unauthorized_reply envelope =
      refuse (write_error envelope.id code_unauthorized "unauthorized" "unauthorized")

  -- A valid token: the policy decides.
  abbrev pub admit : Request Body → RequestEnvelope → LoginClaim → Action (Reply A)
  admit r envelope claim =
      branch (authorize policy claim.permissions envelope.method)
        (next (record r { context = context_with_login_claim r.context claim }))
        (do
          e ← ask
          refuse (
              write_error envelope.id code_forbidden
                (concat "not permitted to call " (e.quote envelope.method)) "forbidden"))

  abbrev pub admit_claim : Request Body → RequestEnvelope → Result LoginClaim → Action (Reply A)
  admit_claim r envelope (ok claim) = admit r envelope claim
  admit_claim r envelope (err x) = unauthorized_reply envelope

  abbrev pub require_token : Request Body → RequestEnvelope → Action (Reply A)
  require_token r envelope = branch (extract_token r == "") (unauthorized_reply envelope) do
    claim ← try (validate_access_token jose r.context (extract_token r))
    admit_claim r envelope claim

  -- A request whose envelope is read; its body is there to be read again.
  abbrev pub route : Request Body → RequestEnvelope × Bool → Action (Reply A)
  route r (envelope, parsed) =
      branch (not parsed || envelope.method == "")
        (refuse
          (write_error envelope.id code_parse_error "could not parse JSON-RPC request" "parse"))
        (branch (is_public policy envelope.method) (next r) (require_token r envelope))

  abbrev pub route_body : Request Body → ReadBody → Action (Reply A)
  route_body r (read body) =
      route (record r { body = http.buffered body }) (http.unmarshal_envelope body)
  route_body r too_large =
      refuse (write_error "" code_invalid_params "request body too large" "body_too_large")
  route_body r unreadable =
      refuse (write_error "" code_parse_error "could not read request body" "parse")

  unfoldable pub authorization_middleware : Request Body → Action (Reply A)
  authorization_middleware r = route_body r (http.read_all max_request_body_bytes r.body)
