-- ===== src/Audits/Repository.antt =====
-- internal/pkg/audit/auditEntryRepositoryImpl.go: the audit table. Rows are appended with rising
-- identities, so the table's order is `ORDER BY id`.
use loyalty_points_app.Prelude.{
  String, Bool, false, not, ◌&&◌, ◌||◌, Option, none, some, List, [], ◌∷◌, ◌++◌, find, select,
  concat, ◌==◌,
}
use loyalty_points_app.Prelude.Int.{ℤ, eqb_ℤ}
use loyalty_points_app.Errs.{sentinel, wrapped, not_found}
use loyalty_points_app.Authentication.Context.{Context}
use loyalty_points_app.Authorization.{is_granted, perm_audit_read_all}
use loyalty_points_app.Sql.Schema.{AuditRow}
use loyalty_points_app.Sql.{
  Env, ask, Action, pure, raise, check, next_audit_id, format_time, parse_time, Outcome, done,
  failed, Statement, exec, query, sql_error, ◌>>=◌,
}
use loyalty_points_app.Audits.Types.{
  AuditEntry, CreateAuditEntryRequest, ListAuditEntriesRequest,
  ListAuditEntriesByTransactionRefRequest, ListAuditEntriesByAccountIdRequest,
  GetAuditEntryByIdRequest,
}
use loyalty_points_app.Audits.Validations.{
  validate_create, validate_list, validate_list_by_transaction_ref, validate_list_by_account_id,
  validate_get_by_id,
}

-- `INSERT INTO audit_entries …`; the outcome's CHECK holds by validation.
abbrev pub insert_audit_entry : AuditRow → Statement Unit
insert_audit_entry row db = done (tt, record db { audit_entries = db.audit_entries ++ row ∷ [] })

abbrev pub audit_row : ℤ → String → AuditEntry → AuditRow
audit_row id created_at entry = record {
  id = id;
  transaction_ref = entry.transaction_ref;
  account_id = entry.account_id;
  owner_id = entry.owner_id;
  kind = entry.kind;
  points = entry.points;
  outcome = entry.outcome;
  reason = entry.reason;
  user_id = entry.user_id;
  created_at = created_at;
}

abbrev created_or_error : AuditEntry → Outcome Unit → Action AuditEntry
created_or_error entry (done _) = pure entry
created_or_error entry (failed x) = do
  e ← sql_error x
  raise (wrapped "could not insert audit entry" e)

unfoldable pub create : Context → CreateAuditEntryRequest → Action AuditEntry
create ctx request = check "invalid request for Create" (validate_create request) do
  created_at ← format_time request.audit_entry.created_at
  id ← next_audit_id
  o ← exec (insert_audit_entry (audit_row id created_at request.audit_entry))
  created_or_error (record request.audit_entry { id = id }) o

-- `scanAuditEntry`, on a row.
unfoldable pub scan_audit_entry : AuditRow → Action AuditEntry
scan_audit_entry r = do
  created_at ← parse_time r.created_at
  pure (record {
    id = r.id;
    user_id = r.user_id;
    transaction_ref = r.transaction_ref;
    account_id = r.account_id;
    owner_id = r.owner_id;
    kind = r.kind;
    points = r.points;
    outcome = r.outcome;
    reason = r.reason;
    created_at = created_at;
  })

-- `for rows.Next()`
unfoldable pub scan_all : List AuditRow → Action (List AuditEntry)
unfolding scan_audit_entry
scan_all [] = pure []
scan_all (r ∷ rs) = do entry ← scan_audit_entry r; entries ← scan_all rs; pure (entry ∷ entries)

abbrev rows_or_error : Outcome (List AuditRow) → Action (List AuditEntry)
rows_or_error (done rs) = scan_all rs
rows_or_error (failed x) = do e ← sql_error x; raise (wrapped "could not query audit entries" e)

-- `queryEntries`
unfoldable pub query_entries : (AuditRow → Bool) → Action (List AuditEntry)
unfolding scan_all
query_entries p = do o ← exec (query (λ db. select p db.audit_entries)); rows_or_error o

-- `owner_id = $2`: a NULL owner is no one's.
abbrev pub owned_by : Option String → String → Bool
owned_by none user_id = false
owned_by (some o) user_id = o == user_id

abbrev pub is_text : Option String → String → Bool
is_text none s = false
is_text (some t) s = t == s

abbrev pub in_scope : Bool → String → AuditRow → Bool
in_scope scoped user_id r = not scoped || owned_by r.owner_id user_id

unfoldable pub list : Context → ListAuditEntriesRequest → Action (List AuditEntry)
unfolding query_entries
list ctx request =
    check "invalid request for List" (validate_list request)
      do query_entries (in_scope (not (is_granted ctx perm_audit_read_all)) request.user_id)

unfoldable pub list_by_transaction_ref :
    Context → ListAuditEntriesByTransactionRefRequest → Action (List AuditEntry)
unfolding query_entries
list_by_transaction_ref ctx request =
    check "invalid request for ListByTransactionRef" (validate_list_by_transaction_ref request) do
      let scoped = not (is_granted ctx perm_audit_read_all)
      query_entries (λ r.
          is_text r.transaction_ref request.transaction_ref && in_scope scoped request.user_id r)

unfoldable pub list_by_account_id :
    Context → ListAuditEntriesByAccountIdRequest → Action (List AuditEntry)
unfolding query_entries
list_by_account_id ctx request =
    check "invalid request for ListByAccountID" (validate_list_by_account_id request) do
      let scoped = not (is_granted ctx perm_audit_read_all)
      query_entries
          (λ r. is_text r.account_id request.account_id && in_scope scoped request.user_id r)

abbrev row_or_error : Env → ℤ → Outcome (Option AuditRow) → Action AuditEntry
row_or_error e id (done (some r)) = scan_audit_entry r
row_or_error e id (done none) =
    raise (wrapped (concat "audit entry " (e.decimal id)) (sentinel not_found))
row_or_error e id (failed x) = do e ← sql_error x; raise (wrapped "could not scan audit entry" e)

unfoldable pub get_by_id : Context → GetAuditEntryByIdRequest → Action AuditEntry
unfolding scan_audit_entry
get_by_id ctx request = check "invalid request for GetByID" (validate_get_by_id request) do
  let scoped = not (is_granted ctx perm_audit_read_all)
  o ← exec (
      query (λ db.
        find (λ r. eqb_ℤ r.id request.id && in_scope scoped request.user_id r) db.audit_entries))
  e ← ask
  row_or_error e request.id o
