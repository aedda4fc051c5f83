-- ===== src/Jsonrpc/Mapping.antt =====
-- What a client can tell from an error.
use loyalty_points_app.Prelude.{◌≡◌, refl, true, false, none, inl, inr, Option-cases}
use loyalty_points_app.Errs.{
  Error, is, as_validation, invalid_argument, unauthorized, forbidden, not_found, already_exists,
  insufficient_balance, internal,
}
use loyalty_points_app.Errs.Laws.{as_validation-is}
use loyalty_points_app.Jsonrpc.Errors.{
  rpc_error, map_error, map_sentinel, code_invalid_params, code_internal,
}

-- Every error that is an invalid argument, however it is wrapped, gets the code of invalid
-- parameters.
pub map_error-invalid_argument :
    (x : Error) → is x invalid_argument ≡ true → (map_error x).code ≡ code_invalid_params
unfolding map_error map_sentinel
map_error-invalid_argument x h = elim (Option-cases (as_validation x)) [
  | inl no_validation ↦ rw (map_error, no_validation, map_sentinel, h) refl
  | inr (reasons, found) ↦ rw (map_error, found) refl
]

-- An error of none of the kinds that `MapError` tests gets one answer, which holds nothing of its
-- text.
pub map_error_hides :
    (x : Error)
    → is x invalid_argument ≡ false
    → is x unauthorized ≡ false
    → is x forbidden ≡ false
    → is x not_found ≡ false
    → is x already_exists ≡ false
    → is x insufficient_balance ≡ false
    → is x internal ≡ false
    → map_error x ≡ rpc_error code_internal "internal server error" "internal" none
unfolding map_error map_sentinel
map_error_hides x a b c d f g h =
    rw (map_error, as_validation-is x a, map_sentinel, a, b, c, d, f, g, h) refl
