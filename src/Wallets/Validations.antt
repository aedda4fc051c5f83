-- ===== src/Wallets/Validations.antt =====
-- pkg/wallets/walletServiceValidations.go and transactionRepositoryValidations.go.
use loyalty_points_app.Prelude.{
  ℕ, not, ◌||◌, Option, [], ◌∷◌, length, ltb, nat_eq, ◌==◌, if◌then◌else◌,
}
use loyalty_points_app.Prelude.Int.{pos, ltb_ℤ, leb_ℤ, eqb_ℤ}
use loyalty_points_app.Errs.{Error, new_validation_error, reason_if}
use loyalty_points_app.Wallets.Types.{
  kind_earn, kind_spend, CreateTransactionRequest, ListTransactionsRequest,
  GetTransactionByIdRequest, ProcessTransactionRequest, ProcessTransactionBatchRequest,
}

abbrev pub max_batch_size : ℕ
max_batch_size = 1000

unfoldable pub validate_batch : ProcessTransactionBatchRequest → Option Error
validate_batch r = new_validation_error (
    if nat_eq (length r.transactions) 0
    then "batch must contain at least one transaction" ∷ []
    else if ltb max_batch_size (length r.transactions)
    then "batch exceeds maximum of 1000 transactions" ∷ []
    else [])

unfoldable pub validate_process : ProcessTransactionRequest → Option Error
validate_process r = new_validation_error (
    reason_if (r.ref == "") "Ref is required" (
      reason_if (r.account_id == "") "AccountID is required" (
        reason_if (r.user_id == "") "UserID is required" (
          if r.kind == kind_earn || r.kind == kind_spend
          then reason_if (leb_ℤ r.points (pos 0)) "Points must be greater than 0 for earn and spend"
              []
          else "Kind must be 'earn' or 'spend'" ∷ []))))

unfoldable pub validate_create : CreateTransactionRequest → Option Error
validate_create r =
    let k = r.transaction.kind in
    new_validation_error (
      reason_if (r.transaction.ref == "") "Ref is required" (
        reason_if (r.transaction.account_id == "") "AccountID is required" (
          reason_if (r.transaction.created_by == "") "CreatedBy is required" (
            reason_if (not (k == kind_earn || k == kind_spend)) "Kind must be 'earn' or 'spend'"
              (reason_if (eqb_ℤ r.transaction.points (pos 0)) "Points must be non-zero" [])))))

unfoldable pub validate_get_by_id : GetTransactionByIdRequest → Option Error
validate_get_by_id r = new_validation_error (
    reason_if (r.ref == "") "Ref is required" (reason_if (r.user_id == "") "UserID is required" []))

unfoldable pub validate_list : ListTransactionsRequest → Option Error
validate_list r = new_validation_error (
    reason_if (r.user_id == "") "UserID is required"
      (reason_if (ltb_ℤ r.page_size (pos 0)) "PageSize must be >= 0" []))
