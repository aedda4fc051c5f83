-- ===== src/Wallets/Service.antt =====
-- internal/pkg/wallets/walletServiceImpl.go: the wallet service.
use loyalty_points_app.Prelude.{String, true, false, Option, none, some, ◌==◌, if◌then◌else◌}
use loyalty_points_app.Prelude.Int.{ℤ, pos, neg}
use loyalty_points_app.Errs.{
  Error, not_found, duplicate_ref, insufficient_balance, forbidden, is, text,
}
use loyalty_points_app.Authentication.Context.{Context}
use loyalty_points_app.Sql.{
  Time, is_zero, Result, ok, err, Action, branch, pure, raise, try, check, time_now, run_in_tx,
  ◌>>=◌, ◌>>◌,
}
use loyalty_points_app.Accounts as AccountRepository
use loyalty_points_app.Accounts.{Account}
use loyalty_points_app.Audits as AuditEntryRepository
use loyalty_points_app.Audits.{
  AuditEntry, CreateAuditEntryRequest, outcome_accepted, outcome_rejected, outcome_duplicate,
}
use loyalty_points_app.Wallets.Types.{
  kind_earn, kind_spend, Transaction, ProcessTransactionRequest, EarnPointsRequest,
  SpendPointsRequest, ProcessTransactionResponse,
}
use loyalty_points_app.Wallets.Validations.{validate_process}
use loyalty_points_app.Wallets.Repository as TransactionRepository

unfoldable pub signed_delta : String → ℤ → ℤ
signed_delta kind points = if kind == kind_spend then neg points else points

unfoldable pub reason_for : Error → String
reason_for x =
    if is x insufficient_balance
    then "insufficient balance"
    else if is x not_found
    then "unknown account"
    else if is x forbidden
    then "not account owner"
    else text x

abbrev pub build_audit_entry :
    ProcessTransactionRequest → ℤ → Option String → String → String → Time → CreateAuditEntryRequest
build_audit_entry request delta owner_id outcome reason now = record {
  audit_entry = record {
    id = pos 0;
    transaction_ref = some request.ref;
    account_id = some request.account_id;
    owner_id = owner_id;
    kind = some request.kind;
    points = some delta;
    outcome = outcome;
    reason = reason;
    user_id = request.user_id;
    created_at = now;
  };
}

-- `rejectTransaction`: an error of the audit insert takes the place of the original one.
unfoldable pub reject_transaction :
    Context
    → ProcessTransactionRequest
    → ℤ
    → Time
    → Option String
    → Error
    → Action ProcessTransactionResponse
reject_transaction ctx request delta now owner_id x = do
  AuditEntryRepository.create ctx
      (build_audit_entry request delta owner_id outcome_rejected (reason_for x) now)
  raise x

-- The ref was seen before: the original row, the account's balance, and an audit row.
unfoldable pub replay_duplicate :
    Context → ProcessTransactionRequest → ℤ → Time → String → Action ProcessTransactionResponse
replay_duplicate ctx request delta now owner_id = do
  original ←
      TransactionRepository.get_by_id ctx (record { ref = request.ref; user_id = request.user_id })
  account ←
      AccountRepository.get_by_id ctx
        (record { account_id = request.account_id; user_id = request.user_id })
  AuditEntryRepository.create ctx
      (build_audit_entry request delta (some owner_id) outcome_duplicate "duplicate" now)
  pure (record { transaction = original; balance = account.balance; duplicate = true })

-- The row is new: the balance moves, with an audit row.
unfoldable pub apply_created :
    Context
    → ProcessTransactionRequest
    → ℤ
    → Time
    → String
    → Transaction
    → Action ProcessTransactionResponse
apply_created ctx request delta now owner_id created = do
  balance ←
      AccountRepository.update_account_balance ctx
        (record { account_id = request.account_id; delta = delta; user_id = owner_id })
  AuditEntryRepository.create ctx
      (build_audit_entry request delta (some owner_id) outcome_accepted "ok" now)
  pure (record { transaction = created; balance = balance; duplicate = false })

abbrev pub after_create :
    Context
    → ProcessTransactionRequest
    → ℤ
    → Time
    → String
    → Result Transaction
    → Action ProcessTransactionResponse
after_create ctx request delta now owner_id (ok created) =
    apply_created ctx request delta now owner_id created
after_create ctx request delta now owner_id (err x) =
    branch (is x duplicate_ref) (replay_duplicate ctx request delta now owner_id) (raise x)

-- The function that `RunInTx` runs.
unfoldable pub unit_of_work :
    Context
    → ProcessTransactionRequest
    → ℤ
    → Time
    → Time
    → String
    → Action ProcessTransactionResponse
unit_of_work ctx request delta now occurred_at owner_id = do
  created ← try (
      TransactionRepository.create ctx (record {
        transaction = record {
          id = "";
          ref = request.ref;
          account_id = request.account_id;
          owner_id = owner_id;
          kind = request.kind;
          points = delta;
          occurred_at = occurred_at;
          recorded_at = now;
          created_by = request.user_id;
        };
      }))
  after_create ctx request delta now owner_id created

abbrev pub or_reject :
    Context
    → ProcessTransactionRequest
    → ℤ
    → Time
    → Option String
    → Result ProcessTransactionResponse
    → Action ProcessTransactionResponse
or_reject ctx request delta now owner_id (ok resp) = pure resp
or_reject ctx request delta now owner_id (err x) =
    reject_transaction ctx request delta now owner_id x

unfoldable pub with_account :
    Context
    → ProcessTransactionRequest
    → ℤ
    → Time
    → Time
    → Result Account
    → Action ProcessTransactionResponse
with_account ctx request delta now occurred_at (err x) =
    reject_transaction ctx request delta now none x
with_account ctx request delta now occurred_at (ok account) = do
  r ← try (run_in_tx ctx (λ tx. unit_of_work tx request delta now occurred_at account.owner_id))
  or_reject ctx request delta now (some account.owner_id) r

unfoldable pub process_transaction :
    Context → ProcessTransactionRequest → Action ProcessTransactionResponse
process_transaction ctx request =
    check "invalid request for ProcessTransaction" (validate_process request) do
      let delta = signed_delta request.kind request.points
      now ← time_now
      let occurred_at = if is_zero request.occurred_at then now else request.occurred_at
      account ← try (
          AccountRepository.get_by_id ctx
            (record { account_id = request.account_id; user_id = request.user_id }))
      with_account ctx request delta now occurred_at account

unfoldable pub earn_points : Context → EarnPointsRequest → Action ProcessTransactionResponse
earn_points ctx request = process_transaction ctx (record {
  user_id = request.user_id;
  ref = request.ref;
  account_id = request.account_id;
  kind = kind_earn;
  points = request.points;
  occurred_at = request.occurred_at;
})

unfoldable pub spend_points : Context → SpendPointsRequest → Action ProcessTransactionResponse
spend_points ctx request = process_transaction ctx (record {
  user_id = request.user_id;
  ref = request.ref;
  account_id = request.account_id;
  kind = kind_spend;
  points = request.points;
  occurred_at = request.occurred_at;
})
