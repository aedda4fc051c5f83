-- ===== src/Tests/Attempts.antt =====
-- Single attempts.
use loyalty_points_app.Prelude.{◌≡◌, refl, none, true, false}
use loyalty_points_app.Prelude.Int.{pos, ◌+ℤ◌, neg, in_int64}
use loyalty_points_app.Authorization.{is_granted}
use loyalty_points_app.Sql.{ok, run_in_tx, World}
use loyalty_points_app.Sql.Atomic.{Transacts, tx_context, tick, run_in_tx-Transacts}
use loyalty_points_app.Accounts as Accounts
use loyalty_points_app.Accounts.{
  find_account, has_account, has_user, overflows, affected_rows, add_to_rows,
}
use loyalty_points_app.Accounts.Credit.{Credits, update_account_balance-Credits}
use loyalty_points_app.Audits as Audits
use loyalty_points_app.Wallets.{
  ProcessTransactionRequest, ProcessTransactionResponse, process_transaction, validate_process,
  with_account, has_ref, has_id, build_audit_entry, signed_delta, unit_of_work,
}
use loyalty_points_app.Wallets as Wallets
use loyalty_points_app.Wallets.Attempt.{Settles, process_transaction-Settles}
use loyalty_points_app.Wallets.Liveness.{Accepted, process_transaction-Accepted}
use loyalty_points_app.Wallets.Overdraft.{Overdrawn, process_transaction-Overdrawn}
use loyalty_points_app.Wallets.Retry.{SameMoney, process_transaction_once}
use loyalty_points_app.Wallets.Batch.{stop}
use loyalty_points_app.Tests.Shop.{
  shop_db-IsValid, env, shop, ann_context, admin_context, ann_account, spend_30, earn_9_again,
  request_of,
}

abbrev audit_note : Audits.CreateAuditEntryRequest
audit_note = build_audit_entry spend_30 (pos 30) none "rejected" "unknown account" (pos 1000)

abbrev adjustment : Accounts.UpdateAccountBalanceRequest
adjustment = record { account_id = "a1"; delta = pos 4; user_id = "ann" }

process_transaction-Settles_example :
    Settles env ann_context spend_30 shop (process_transaction ann_context spend_30 env shop)
process_transaction-Settles_example = process_transaction-Settles env ann_context spend_30 shop refl

process_transaction-Accepted_example :
    Accepted (pos 70) (process_transaction ann_context spend_30 env shop)
unfolding validate_process find_account is_granted has_user has_ref has_id signed_delta neg ◌+ℤ◌
    has_account in_int64
process_transaction-Accepted_example =
    process_transaction-Accepted env ann_context spend_30 shop ann_account (pos 1000) (λ n. refl)
      refl refl (refl, (refl, tt)) refl refl refl refl refl (λ n. refl) refl refl

-- More than the account has.
abbrev spend_101 : ProcessTransactionRequest
spend_101 = request_of "r2" "a1" "spend" (pos 101) (pos 900)

process_transaction-Overdrawn_example :
    Overdrawn (process_transaction ann_context spend_101 env shop)
unfolding validate_process find_account is_granted has_user has_ref has_id signed_delta neg ◌+ℤ◌
    has_account in_int64
process_transaction-Overdrawn_example =
    process_transaction-Overdrawn env ann_context spend_101 shop ann_account (pos 1000) (λ n. refl)
      refl refl (refl, (refl, tt)) refl refl refl refl refl (λ n. refl) refl refl

-- What Ann is told.
abbrev spent : ProcessTransactionResponse
spent = record {
  transaction = record {
    id = "t2";
    ref = "r2";
    account_id = "a1";
    owner_id = "ann";
    kind = "spend";
    points = neg (pos 30);
    occurred_at = pos 900;
    recorded_at = pos 1000;
    created_by = "ann";
  };
  balance = pos 70;
  duplicate = false;
}

abbrev after_spend : World
after_spend = (process_transaction ann_context spend_30 env shop).1

spend_30-returns : process_transaction ann_context spend_30 env shop ≡ (ok spent, after_spend)
unfolding process_transaction validate_process with_account Accounts.get_by_id
    Accounts.validate_get_by_id find_account is_granted run_in_tx unit_of_work Wallets.create
    Wallets.validate_create signed_delta neg has_ref has_id has_account has_user
    Wallets.apply_created add_to_rows affected_rows overflows Accounts.scan_account
    Accounts.update_account_balance Accounts.validate_update_account_balance Audits.create
    Audits.validate_create in_int64 ◌+ℤ◌
spend_30-returns = refl

process_transaction_once_example :
    SameMoney after_spend.db (process_transaction admin_context earn_9_again env after_spend).1.db
process_transaction_once_example =
    process_transaction_once env env ann_context admin_context spend_30 earn_9_again shop
      after_spend after_spend spent refl refl refl spend_30-returns stop

run_in_tx-Transacts_example :
    Transacts shop
      (Audits.create (tx_context admin_context) audit_note env (tick shop))
      (run_in_tx admin_context (λ ctx. Audits.create ctx audit_note) env shop)
run_in_tx-Transacts_example =
    run_in_tx-Transacts admin_context (λ ctx. Audits.create ctx audit_note) env shop refl

update_account_balance-Credits_example :
    Credits true adjustment env shop
      (Accounts.update_account_balance ann_context adjustment env shop)
unfolding is_granted
update_account_balance-Credits_example =
    update_account_balance-Credits ann_context adjustment env shop shop_db-IsValid.distinct_ids
