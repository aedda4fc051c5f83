-- ===== src/Audits/Privacy.antt =====
-- What a member can see of the audit trail: the rows about its own accounts.
use loyalty_points_app.Prelude.{String, Bool, true, List, select}
use loyalty_points_app.Authentication.Context.{Context}
use loyalty_points_app.Sql.Schema.{Db, AuditRow}
use loyalty_points_app.Audits.Types.{ListAuditEntriesByTransactionRefRequest}
use loyalty_points_app.Audits.Repository.{in_scope, is_text}

-- The rows about one owner's accounts.
abbrev pub owned_entries : String → Db → List AuditRow
owned_entries user_id db = select (in_scope true user_id) db.audit_entries

abbrev of_ref : ListAuditEntriesByTransactionRefRequest → AuditRow → Bool
of_ref r row = is_text row.transaction_ref r.transaction_ref
