-- ===== src/Wallets/Outcomes.antt =====
-- The specification of one processing attempt: what each way to end does to the tables.
use loyalty_points_app.Prelude.{
  String, ◌≡◌, ◌<◌, ◌⊎◌, Bool, true, false, not, some, Option, [], ◌∷◌, ◌++◌,
}
use loyalty_points_app.Prelude.Int.{ℤ}
use loyalty_points_app.Errs.{Error}
use loyalty_points_app.Authentication.Context.{Context}
use loyalty_points_app.Authorization.{is_granted, perm_account_write_all}
use loyalty_points_app.Sql.Schema.{Db}
use loyalty_points_app.Sql.{Time, Env, World}
use loyalty_points_app.Accounts.{has_account, add_to_rows, affected_rows, overflows}
use loyalty_points_app.Audits.{
  CreateAuditEntryRequest, outcome_accepted, outcome_rejected, outcome_duplicate,
}
use loyalty_points_app.Audits.Effects.{audited}
use loyalty_points_app.Wallets.Types.{ProcessTransactionRequest, ProcessTransactionResponse}
use loyalty_points_app.Wallets.Repository.{has_ref, has_id}
use loyalty_points_app.Wallets.Service.{build_audit_entry, reason_for}
use loyalty_points_app.Wallets.Effects.{ledger_row}

-- An update of the balance is scoped to the owner unless the caller may write every account.
abbrev pub write_scoped : Context → Bool
write_scoped ctx = not (is_granted ctx perm_account_write_all)

-- One attempt by one caller: the request, the signed delta, the two times and the owner.
module _ (e : Env) (scoped : Bool) (request : ProcessTransactionRequest) (delta : ℤ)
    (now occurred_at : Time) where
  abbrev pub entry_for : Option String → String → String → CreateAuditEntryRequest
  entry_for owner outcome reason = build_audit_entry request delta owner outcome reason now

  -- A new transaction: one ledger row, one balance moved, one accepted audit row, nothing else.
  abbrev pub Posted : String → ProcessTransactionResponse → Db → World → Type 0
  Posted owner resp db w =
      (has_ref request.ref db.transactions ≡ false)
      × (has_id resp.transaction.id db.transactions ≡ false)
      × (has_account request.account_id db.accounts ≡ true)
      × (0 < affected_rows scoped delta request.account_id owner db.accounts)
      × (overflows delta request.account_id db.accounts ≡ false)
      × (w.db ≡ record db {
        accounts = add_to_rows scoped delta request.account_id owner db.accounts;
        transactions = db.transactions ++ ledger_row e resp.transaction ∷ [];
        audit_entries = audited e w (entry_for (some owner) outcome_accepted "ok") db.audit_entries;
      })
      × (resp.transaction ≡ record {
        id = resp.transaction.id;
        ref = request.ref;
        account_id = request.account_id;
        owner_id = owner;
        kind = request.kind;
        points = delta;
        occurred_at = occurred_at;
        recorded_at = now;
        created_by = request.user_id;
      })

  -- A duplicate: the ref was in the ledger, and an audit row is all that is written.
  abbrev pub Replayed : String → Db → World → Type 0
  Replayed owner db w =
      (has_ref request.ref db.transactions ≡ true)
      × (w.db ≡ record db {
        audit_entries =
            audited e w (entry_for (some owner) outcome_duplicate "duplicate") db.audit_entries;
      })

  abbrev pub Done : String → Db → ProcessTransactionResponse → World → Type 0
  Done owner db resp w =
      ((resp.duplicate ≡ false) × Posted owner resp db w)
      ⊎ ((resp.duplicate ≡ true) × Replayed owner db w)

  -- A rejection for a reason: an audit row with the reason, or nothing if that row could not be
  -- written.
  abbrev pub Refused : Option String → Error → Db → World → Type 0
  Refused owner x db w =
      (w.db ≡ record db {
        audit_entries =
            audited e w (entry_for owner outcome_rejected (reason_for x)) db.audit_entries;
      })
      ⊎ (w.db ≡ db)
