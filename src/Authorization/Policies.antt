-- ===== src/Authorization/Policies.antt =====
-- pkg/authorization/policy.go: the gate in front of each method.
use loyalty_points_app.Prelude.{
  String, Bool, false, Option, none, some, List, [], ◌∷◌, any, ◌==◌, if◌then◌else◌,
}
use loyalty_points_app.Authorization.Permissions.{
  perm_account_read_own, perm_account_read_all, perm_account_write_own, perm_account_write_all,
  perm_audit_read_own, perm_audit_read_all, perm_wallet_transact_own, perm_wallet_transact_all,
  perm_wallet_batch_all, perm_auth_logout, holds,
}

-- `by_method` and `public_methods` are the maps' entries, with distinct keys.
pub record Policy : Type 0 where
  pub by_method : List (String × List String)
  pub public_methods : List String

abbrev pub lookup : String → List (String × List String) → Option (List String)
lookup k [] = none
lookup k ((j, v) ∷ m) = if j == k then some v else lookup k m

abbrev pub login_method : String
login_method = "EmailPasswordAuthenticator.Login"

abbrev pub register_method : String
register_method = "UserRegistrationService.Register"

abbrev pub process_transaction_method : String
process_transaction_method = "Wallet.ProcessTransaction"

abbrev pub process_transaction_batch_method : String
process_transaction_batch_method = "Wallet.ProcessTransactionBatch"

abbrev pub update_account_balance_method : String
update_account_balance_method = "AccountService.UpdateAccountBalance"

unfoldable pub default_policy : Policy
default_policy = record {
  by_method =
      (process_transaction_method, perm_wallet_transact_all ∷ [])
      ∷ ("Wallet.EarnPoints", perm_wallet_transact_own ∷ perm_wallet_transact_all ∷ [])
      ∷ ("Wallet.SpendPoints", perm_wallet_transact_own ∷ perm_wallet_transact_all ∷ [])
      ∷ (process_transaction_batch_method, perm_wallet_batch_all ∷ [])
      ∷ ("AccountService.FetchMyAccounts", perm_account_read_own ∷ perm_account_read_all ∷ [])
      ∷ ("AccountService.GetAccountByID", perm_account_read_own ∷ perm_account_read_all ∷ [])
      ∷ ("AccountService.GetAccountBalance", perm_account_read_own ∷ perm_account_read_all ∷ [])
      ∷ ("AccountService.UpdateAccountName", perm_account_write_own ∷ perm_account_write_all ∷ [])
      ∷ (update_account_balance_method, perm_account_write_all ∷ [])
      ∷ ("AccountOpener.OpenAccount", perm_account_write_own ∷ perm_account_write_all ∷ [])
      ∷ ("Session.Logout", perm_auth_logout ∷ [])
      ∷ ("AuditService.FetchTransactionAuditTrail", perm_audit_read_own ∷ perm_audit_read_all ∷ [])
      ∷ [];
  public_methods = login_method ∷ register_method ∷ [];
}

unfoldable pub is_public : Policy → String → Bool
is_public p method = any (λ m. m == method) p.public_methods

abbrev pub grants : List String → Option (List String) → Bool
grants caller_perms none = false
grants caller_perms (some required) = any (λ perm. holds caller_perms perm) required

unfoldable pub authorize : Policy → List String → String → Bool
authorize p caller_perms method = grants caller_perms (lookup method p.by_method)
