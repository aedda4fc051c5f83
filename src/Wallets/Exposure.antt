-- ===== src/Wallets/Exposure.antt =====
-- What reaches a caller of the wallet's handlers.
use loyalty_points_app.Prelude.{◌≡◌, refl, ◌⊎◌, inl, inr, false, none, Bool-cases, List, ◌==◌, some}
use loyalty_points_app.Errs.{
  Error, is, invalid_argument, forbidden, not_found, insufficient_balance, with_message, text,
}
use loyalty_points_app.Authentication.Context.{Context, LoginClaim}
use loyalty_points_app.Authorization.{role_admin}
use loyalty_points_app.Sql.{Env, World, err}
use loyalty_points_app.Jsonrpc.{
  RpcError, rpc_error, map_error, map_sentinel, code_forbidden, code_insufficient_balance,
  code_not_found, code_internal,
}
use loyalty_points_app.Wallets.Adaptor.{
  map_process_error, TransactionParams, process_transaction_batch_handler,
}

-- The four answers that do not come from the caller's own parameters.
abbrev pub IsMasked : RpcError → Type 0
IsMasked r =
    (r ≡ rpc_error code_forbidden "you do not own this account" "forbidden" none)
    ⊎ (r ≡ rpc_error code_insufficient_balance "insufficient balance" "insufficient_balance" none)
    ⊎ (r ≡ rpc_error code_not_found "account not found" "not_found" none)
    ⊎ (r ≡ rpc_error code_internal "could not process transaction" "internal" none)

-- An error of processing that is no invalid argument reaches the client as one of four answers,
-- whatever its text is.
pub map_process_error-IsMasked :
    (x : Error) → is x invalid_argument ≡ false → IsMasked (map_error (map_process_error x))
unfolding map_process_error map_error map_sentinel text
map_process_error-IsMasked x h = elim (Bool-cases (is x forbidden)) [
  | inl a ↦ rw a (inl refl)
  | inr a ↦ elim (Bool-cases (is x insufficient_balance)) [
    | inl b ↦ rw a (rw b (inr (inl refl)))
    | inr b ↦ elim (Bool-cases (is x not_found)) [
      | inl c ↦ rw a (rw b (rw c (inr (inr (inl refl)))))
      | inr c ↦ rw a (rw b (rw c (rw h (inr (inr (inr refl))))))
    ]
  ]
]

-- The batch handler refuses a caller whose claim is in the context and is not an admin's, whatever
-- the claim's permissions are, and touches nothing.
pub process_transaction_batch_handler_admin_only :
    (ctx : Context) (claim : LoginClaim) (params : List TransactionParams) (e : Env) (w : World)
    → ctx.claim ≡ some claim
    → (claim.role == role_admin) ≡ false
    → process_transaction_batch_handler ctx params e w
      ≡ (err (with_message forbidden "batch ingestion is admin-only"), w)
unfolding process_transaction_batch_handler
process_transaction_batch_handler_admin_only ctx claim params e w known other =
    rw known (rw other refl)
