-- ===== src/Audits/Effects.antt =====
-- What the audit repository does to the tables.
use loyalty_points_app.Prelude.{◌≡◌, List, [], ◌∷◌, ◌++◌, arith}
use loyalty_points_app.Prelude.Int.{pos}
use loyalty_points_app.Authentication.Context.{Context}
use loyalty_points_app.Sql.Schema.{AuditRow}
use loyalty_points_app.Sql.{Env, World, Result, ok, err}
use loyalty_points_app.Audits.Types.{AuditEntry, CreateAuditEntryRequest}
use loyalty_points_app.Audits.Repository.{create, audit_row}

-- The trail with one more row, whose identity is the last that was drawn.
abbrev pub audited : Env → World → CreateAuditEntryRequest → List AuditRow → List AuditRow
audited e w r rows =
    rows
    ++ audit_row (pos w.next_audit_id) (e.format_time r.audit_entry.created_at) r.audit_entry ∷ []

abbrev pub Records : Env → CreateAuditEntryRequest → World → Result AuditEntry × World → Type 0
Records e r w (ok _, w') = w'.db ≡ record w.db { audit_entries = audited e w' r w.db.audit_entries }
Records e r w (err _, w') = w'.db ≡ w.db

-- An entry is appended, or the tables stay as they were.
pub create-Records :
    (ctx : Context) (r : CreateAuditEntryRequest) (e : Env) (w : World)
    → Records e r w (create ctx r e w)
unfolding create
create-Records ctx r e w = ground arith
