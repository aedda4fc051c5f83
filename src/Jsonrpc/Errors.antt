-- ===== src/Jsonrpc/Errors.antt =====
-- pkg/jsonrpc/error.go and mapper.go.
use loyalty_points_app.Prelude.{String, Option, none, some, List, if◌then◌else◌}
use loyalty_points_app.Prelude.Int.{ℤ, pos, neg}
use loyalty_points_app.Errs.{
  Error, validation_error, is, as_validation, text, not_found, already_exists, insufficient_balance,
  unauthorized, forbidden, invalid_argument, internal,
}

abbrev pub code_invalid_params : ℤ
code_invalid_params = neg (pos 32602)

abbrev pub code_internal : ℤ
code_internal = neg (pos 32603)

abbrev pub code_unauthorized : ℤ
code_unauthorized = neg (pos 32001)

abbrev pub code_forbidden : ℤ
code_forbidden = neg (pos 32002)

abbrev pub code_not_found : ℤ
code_not_found = neg (pos 32003)

abbrev pub code_already_exists : ℤ
code_already_exists = neg (pos 32004)

abbrev pub code_insufficient_balance : ℤ
code_insufficient_balance = neg (pos 32005)

-- The codec's error: `data` holds the reason, and the fields of a failed validation.
pub record RpcError : Type 0 where
  pub code : ℤ
  pub message : String
  pub reason : String
  pub fields : Option (List String)

abbrev pub rpc_error : ℤ → String → String → Option (List String) → RpcError
rpc_error code message reason fields = record {
  code = code;
  message = message;
  reason = reason;
  fields = fields;
}

-- The `switch` of `MapError` after its first case.
unfoldable pub map_sentinel : Error → RpcError
map_sentinel x =
    if is x invalid_argument
    then rpc_error code_invalid_params (text x) "invalid_argument" none
    else if is x unauthorized
    then rpc_error code_unauthorized (text x) "unauthorized" none
    else if is x forbidden
    then rpc_error code_forbidden (text x) "forbidden" none
    else if is x not_found
    then rpc_error code_not_found (text x) "not_found" none
    else if is x already_exists
    then rpc_error code_already_exists (text x) "already_exists" none
    else if is x insufficient_balance
    then rpc_error code_insufficient_balance (text x) "insufficient_balance" none
    else if is x internal
    then rpc_error code_internal (text x) "internal" none
    else rpc_error code_internal "internal server error" "internal" none

-- `MapError`, on an error that is not nil.
unfoldable pub map_error : Error → RpcError
map_error x = elim (as_validation x) [
  | some reasons ↦
      rpc_error code_invalid_params (text (validation_error reasons)) "invalid_argument"
        (some reasons)
  | none ↦ map_sentinel x
]
