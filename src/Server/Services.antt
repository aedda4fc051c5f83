-- ===== src/Server/Services.antt =====
-- The services of `setupRPCServer` in cmd/app/setupRPCServer.go, each under the name of its adaptor,
-- and the server with its chain in front.
use loyalty_points_app.Prelude.{Option, List, [], ◌∷◌}
use loyalty_points_app.Sql.{Action}
use loyalty_points_app.Accounts.Adaptor as Accounts
use loyalty_points_app.Wallets.Adaptor as Wallets
use loyalty_points_app.Audits as Audits
use loyalty_points_app.Sessions.{TokenLibrary, PasswordLibrary, login_handler, logout_handler}
use loyalty_points_app.Registration.{register_handler}
use loyalty_points_app.Gateway.{HttpLibrary, Request, Reply, RateLimiter, serve_api}
use loyalty_points_app.Server.Calls.{
  RpcCodec, RpcReply, Service, session, registered, logged_out, transaction, batch, accounts,
  account, balance, trail, handler, json_rpc_server,
}

module _ {Body Jws : Type 0} (codec : RpcCodec Body) (jose : TokenLibrary Jws)
    (bcrypt : PasswordLibrary) where
  abbrev pub email_password_authenticator : Service Body
  email_password_authenticator = record {
    name = "EmailPasswordAuthenticator";
    methods =
        (
          "Login",
          handler session codec.credentials (λ ctx p. login_handler jose bcrypt ctx p.0 p.1),
        )
        ∷ [];
  }

  abbrev pub session_service : Service Body
  session_service = record {
    name = "Session";
    methods =
        ("Logout", handler (λ _. logged_out) codec.nothing (λ ctx _. logout_handler ctx)) ∷ [];
  }

  abbrev pub user_registration_service : Service Body
  user_registration_service = record {
    name = "UserRegistrationService";
    methods =
        ("Register", handler registered codec.registration (register_handler jose bcrypt)) ∷ [];
  }

  abbrev pub wallet_service : Service Body
  wallet_service = record {
    name = "Wallet";
    methods =
        (
          "ProcessTransaction",
          handler transaction codec.transaction Wallets.process_transaction_handler,
        )
        ∷ ("EarnPoints", handler transaction codec.points Wallets.earn_points_handler)
        ∷ ("SpendPoints", handler transaction codec.points Wallets.spend_points_handler)
        ∷ (
          "ProcessTransactionBatch",
          handler batch codec.transactions Wallets.process_transaction_batch_handler,
        )
        ∷ [];
  }

  abbrev pub account_service : Service Body
  account_service = record {
    name = "AccountService";
    methods =
        (
          "FetchMyAccounts",
          handler accounts codec.nothing (λ ctx _. Accounts.fetch_my_accounts_handler ctx),
        )
        ∷ ("GetAccountByID", handler account codec.account_id Accounts.get_account_by_id_handler)
        ∷ (
          "GetAccountBalance",
          handler balance codec.account_id Accounts.get_account_balance_handler,
        )
        ∷ (
          "UpdateAccountName",
          handler account codec.account_name
              (λ ctx p. Accounts.update_account_name_handler ctx p.0 p.1),
        )
        ∷ (
          "UpdateAccountBalance",
          handler balance codec.account_delta
              (λ ctx p. Accounts.update_account_balance_handler ctx p.0 p.1),
        )
        ∷ [];
  }

  abbrev pub account_opener : Service Body
  account_opener = record {
    name = "AccountOpener";
    methods = ("OpenAccount", handler account codec.name Accounts.open_account_handler) ∷ [];
  }

  abbrev pub audit_service : Service Body
  audit_service = record {
    name = "AuditService";
    methods =
        (
          "FetchTransactionAuditTrail",
          handler trail codec.transaction_ref Audits.fetch_transaction_audit_trail_handler,
        )
        ∷ [];
  }

  unfoldable pub services : List (Service Body)
  services =
      email_password_authenticator ∷ session_service ∷ user_registration_service ∷ wallet_service
      ∷ account_service ∷ account_opener ∷ audit_service ∷ []

  -- A request to "/api", from its first middleware to its handler.
  unfoldable pub rpc_server :
      {Backend Bucket : Type 0}
      → HttpLibrary Body
      → Option (RateLimiter Backend Bucket)
      → Request Body
      → Action (Reply RpcReply)
  rpc_server http limiter = serve_api http jose (json_rpc_server codec services) limiter
