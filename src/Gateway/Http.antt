-- ===== src/Gateway/Http.antt =====
-- A request on its way to a handler, and pkg/jsonrpc/error.go: the envelope and `WriteError`. The
-- token of the header is `ExtractToken` of pkg/authentication/authContext.go.
use loyalty_points_app.Prelude.{ℕ, String, Bool, Option, none, some, ◌==◌, if◌then◌else◌}
use loyalty_points_app.Prelude.Int.{ℤ, pos, neg}
use loyalty_points_app.Prelude.Texts.{cut_prefix}
use loyalty_points_app.Authentication.Context.{Context}
use loyalty_points_app.Sql.{Action, pure}

-- `io.ReadAll` of a capped body: the body, `http.MaxBytesError`, or another error.
pub data ReadBody : Type 0 where
  read : String → ReadBody
  too_large unreadable : ReadBody

pub record RequestEnvelope : Type 0 where
  pub method : String
  -- the raw JSON of the id; empty where there is none
  pub id : String

-- net/http, io and encoding/json. `Body` is a request's body, which reading uses up.
pub record HttpLibrary (Body : Type 0) : Type 0 where
  -- reading through `http.MaxBytesReader`, and the reader as it is left behind
  pub read_all : ℕ → Body → ReadBody
  pub spent : ℕ → Body → Body
  -- `io.NopCloser(bytes.NewReader(body))`
  pub buffered : String → Body
  -- `json.Unmarshal` into an envelope: what it filled in, and whether it returned no error
  pub unmarshal_envelope : String → RequestEnvelope × Bool
  -- the host of `net.SplitHostPort`
  pub split_host : String → Option String

pub record Request (Body : Type 0) : Type 0 where
  pub body : Body
  -- the Authorization header; empty where there is none
  pub authorization : String
  pub remote_addr : String
  pub context : Context

-- An error response of JSON-RPC, with its HTTP status.
pub record ErrorReply : Type 0 where
  pub status : ℕ
  pub id : String
  pub code : ℤ
  pub message : String
  pub reason : Option String

pub data Reply (A : Type 0) : Type 0 where
  reply : A → Reply A
  refused : ErrorReply → Reply A

abbrev pub code_parse_error : ℤ
code_parse_error = neg (pos 32700)

abbrev pub code_too_many_requests : ℤ
code_too_many_requests = neg (pos 32006)

abbrev pub write_error_status : ℕ → String → ℤ → String → String → ErrorReply
write_error_status status id code message reason = record {
  status = status;
  id = if id == "" then "null" else id;
  code = code;
  message = message;
  reason = if reason == "" then none else some reason;
}

abbrev pub write_error : String → ℤ → String → String → ErrorReply
write_error id code message reason = write_error_status 200 id code message reason

abbrev pub refuse : {A : Type 0} → ErrorReply → Action (Reply A)
refuse x = pure (refused x)

abbrev pub token_or_empty : Option String → String
token_or_empty none = ""
token_or_empty (some token) = token

unfoldable pub extract_token : {Body : Type 0} → Request Body → String
extract_token r =
    if r.authorization == "" then "" else token_or_empty (cut_prefix r.authorization "Bearer ")
