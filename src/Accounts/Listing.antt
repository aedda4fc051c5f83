-- ===== src/Accounts/Listing.antt =====
-- `List` of internal/pkg/accounts/accountRepositoryImpl.go.
use loyalty_points_app.Prelude.{String, Bool, not, List, [], ◌∷◌, select, ◌==◌, if◌then◌else◌}
use loyalty_points_app.Errs.{wrapped}
use loyalty_points_app.Authentication.Context.{Context}
use loyalty_points_app.Authorization.{is_granted, perm_account_read_all}
use loyalty_points_app.Sql.Schema.{Db, AccountRow}
use loyalty_points_app.Sql.{
  ask, Action, pure, raise, check, Outcome, done, failed, exec, query, sql_error, ◌>>=◌,
}
use loyalty_points_app.Accounts.Types.{Account, ListAccountsRequest}
use loyalty_points_app.Accounts.Validations.{validate_list}
use loyalty_points_app.Accounts.Repository.{in_scope, scan_account}

-- `ORDER BY created_at, id`, in the order of the server's text columns.
abbrev pub precedes : (String → String → Bool) → AccountRow → AccountRow → Bool
precedes collates r s =
    if r.created_at == s.created_at then collates r.id s.id else collates r.created_at s.created_at

abbrev pub insert_row : (String → String → Bool) → AccountRow → List AccountRow → List AccountRow
insert_row collates r [] = r ∷ []
insert_row collates r (s ∷ rows) =
    let rest = insert_row collates r rows in
    if precedes collates s r then s ∷ rest else r ∷ s ∷ rows

abbrev pub order_rows : (String → String → Bool) → List AccountRow → List AccountRow
order_rows collates [] = []
order_rows collates (r ∷ rows) = insert_row collates r (order_rows collates rows)

-- `SELECT … FROM accounts`, with `WHERE owner_id = $1` where the query is scoped.
unfoldable pub select_accounts : (String → String → Bool) → Bool → String → Db → List AccountRow
select_accounts collates scoped user_id db =
    order_rows collates (select (in_scope scoped user_id) db.accounts)

-- `for rows.Next()`
unfoldable pub scan_accounts : List AccountRow → Action (List Account)
unfolding scan_account
scan_accounts [] = pure []
scan_accounts (r ∷ rs) = do
  account ← scan_account r
  accounts ← scan_accounts rs
  pure (account ∷ accounts)

abbrev pub accounts_or_error : Outcome (List AccountRow) → Action (List Account)
accounts_or_error (done rows) = scan_accounts rows
accounts_or_error (failed x) = do e ← sql_error x; raise (wrapped "could not query accounts" e)

unfoldable pub list : Context → ListAccountsRequest → Action (List Account)
list ctx request = check "invalid request for List" (validate_list request) do
  let scoped = not (is_granted ctx perm_account_read_all)
  e ← ask
  o ← exec (query (select_accounts e.collates scoped request.user_id))
  accounts_or_error o
