-- ===== src/Audits/Types.antt =====
-- pkg/audits/auditEntry.go and auditEntryRepository.go.
use loyalty_points_app.Prelude.{String, Option}
use loyalty_points_app.Prelude.Int.{ℤ}
use loyalty_points_app.Sql.{Time}

-- `Outcome` is a Go string; its three constants are the values that validation admits.
abbrev pub outcome_accepted : String
outcome_accepted = "accepted"

abbrev pub outcome_rejected : String
outcome_rejected = "rejected"

abbrev pub outcome_duplicate : String
outcome_duplicate = "duplicate"

pub record AuditEntry : Type 0 where
  pub id : ℤ
  pub user_id : String
  pub transaction_ref : Option String
  pub account_id : Option String
  pub owner_id : Option String
  pub kind : Option String
  pub points : Option ℤ
  pub outcome : String
  pub reason : String
  pub created_at : Time

pub record CreateAuditEntryRequest : Type 0 where
  pub audit_entry : AuditEntry

pub record ListAuditEntriesRequest : Type 0 where
  pub user_id : String

pub record ListAuditEntriesByTransactionRefRequest : Type 0 where
  pub transaction_ref : String
  pub user_id : String

pub record ListAuditEntriesByAccountIdRequest : Type 0 where
  pub account_id : String
  pub user_id : String

pub record GetAuditEntryByIdRequest : Type 0 where
  pub id : ℤ
  pub user_id : String

-- `ListAuditByRefRequest` of auditService.go
pub record ListAuditByRefRequest : Type 0 where
  pub user_id : String
  pub transaction_ref : String
