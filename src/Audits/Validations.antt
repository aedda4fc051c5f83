-- ===== src/Audits/Validations.antt =====
-- pkg/audits/auditEntryRepositoryValidations.go and auditServiceValidations.go.
use loyalty_points_app.Prelude.{not, ◌||◌, Option, [], ◌==◌}
use loyalty_points_app.Prelude.Int.{pos, leb_ℤ}
use loyalty_points_app.Errs.{Error, new_validation_error, reason_if}
use loyalty_points_app.Audits.Types.{
  outcome_accepted, outcome_rejected, outcome_duplicate, CreateAuditEntryRequest,
  ListAuditEntriesRequest, ListAuditEntriesByTransactionRefRequest,
  ListAuditEntriesByAccountIdRequest, GetAuditEntryByIdRequest, ListAuditByRefRequest,
}

unfoldable pub validate_create : CreateAuditEntryRequest → Option Error
validate_create r =
    let o = r.audit_entry.outcome in
    new_validation_error (
      reason_if (r.audit_entry.reason == "") "Reason is required" (
        reason_if (r.audit_entry.user_id == "") "UserID is required" (
          reason_if
            (not (o == outcome_accepted || (o == outcome_rejected || o == outcome_duplicate)))
            "Outcome must be 'accepted', 'rejected' or 'duplicate'" [])))

unfoldable pub validate_get_by_id : GetAuditEntryByIdRequest → Option Error
validate_get_by_id r = new_validation_error (
    reason_if (leb_ℤ r.id (pos 0)) "ID must be greater than 0"
      (reason_if (r.user_id == "") "UserID is required" []))

unfoldable pub validate_list : ListAuditEntriesRequest → Option Error
validate_list r = new_validation_error (reason_if (r.user_id == "") "UserID is required" [])

unfoldable pub validate_list_by_transaction_ref :
    ListAuditEntriesByTransactionRefRequest → Option Error
validate_list_by_transaction_ref r = new_validation_error (
    reason_if (r.transaction_ref == "") "TransactionRef is required"
      (reason_if (r.user_id == "") "UserID is required" []))

unfoldable pub validate_list_by_account_id : ListAuditEntriesByAccountIdRequest → Option Error
validate_list_by_account_id r = new_validation_error (
    reason_if (r.account_id == "") "AccountID is required"
      (reason_if (r.user_id == "") "UserID is required" []))

unfoldable pub validate_list_audit_by_ref : ListAuditByRefRequest → Option Error
validate_list_audit_by_ref r = new_validation_error (
    reason_if (r.transaction_ref == "") "TransactionRef is required"
      (reason_if (r.user_id == "") "UserID is required" []))
