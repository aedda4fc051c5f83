-- ===== src/Audits/Service.antt =====
-- internal/pkg/audit/auditServiceImpl.go and pkg/audits/auditServiceJSONRPCAdaptor.go.
use loyalty_points_app.Prelude.{String, Option, List, map, if◌then◌else◌}
use loyalty_points_app.Prelude.Int.{ℤ}
use loyalty_points_app.Errs.{Error, is, with_message, invalid_argument, internal}
use loyalty_points_app.Authentication.Context.{Context}
use loyalty_points_app.Sql.{Time, Action, check, wrap, pure, reword, ◌>>=◌}
use loyalty_points_app.Jsonrpc.{with_claim}
use loyalty_points_app.Audits.Types.{AuditEntry, ListAuditByRefRequest}
use loyalty_points_app.Audits.Validations.{validate_list_audit_by_ref}
use loyalty_points_app.Audits.Repository as Repository

unfoldable pub fetch_transaction_audit_trail :
    Context → ListAuditByRefRequest → Action (List AuditEntry)
fetch_transaction_audit_trail ctx request =
    check "invalid request for FetchTransactionAuditTrail" (validate_list_audit_by_ref request) (
      wrap "could not list audit entries by transaction ref" (
        Repository.list_by_transaction_ref ctx
          (record { transaction_ref = request.transaction_ref; user_id = request.user_id })))

pub record AuditEntryResult : Type 0 where
  pub id : ℤ
  pub user_id : String
  pub transaction_ref : Option String
  pub account_id : Option String
  pub owner_id : Option String
  pub kind : Option String
  pub points : Option ℤ
  pub outcome : String
  pub reason : String
  pub created_at : Time

abbrev pub audit_entry_result : AuditEntry → AuditEntryResult
audit_entry_result entry = record {
  id = entry.id;
  user_id = entry.user_id;
  transaction_ref = entry.transaction_ref;
  account_id = entry.account_id;
  owner_id = entry.owner_id;
  kind = entry.kind;
  points = entry.points;
  outcome = entry.outcome;
  reason = entry.reason;
  created_at = entry.created_at;
}

pub record ListByTransactionRefResult : Type 0 where
  pub transaction_ref : String
  pub entries : List AuditEntryResult

abbrev pub audit_trail_error : Error → Error
audit_trail_error x =
    if is x invalid_argument then x else with_message internal "could not retrieve audit trail"

unfoldable pub fetch_transaction_audit_trail_handler :
    Context → String → Action ListByTransactionRefResult
fetch_transaction_audit_trail_handler ctx transaction_ref = with_claim ctx λ claim. do
  entries ← reword audit_trail_error (
      fetch_transaction_audit_trail ctx
        (record { user_id = claim.user_id; transaction_ref = transaction_ref }))
  pure (record { transaction_ref = transaction_ref; entries = map audit_entry_result entries })
