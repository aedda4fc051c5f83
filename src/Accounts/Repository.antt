-- ===== src/Accounts/Repository.antt =====
-- internal/pkg/accounts/accountRepositoryImpl.go: the account table. A query's text is the
-- statement that it denotes; `scoped` says whether the owner is part of its WHERE clause.
use loyalty_points_app.Prelude.{
  ℕ, String, nat_eq, Bool, false, not, ◌&&◌, ◌||◌, Option, none, some, List, [], ◌∷◌, ◌++◌, any,
  find, update_where, count_where, concat, ◌==◌, if◌then◌else◌,
}
use loyalty_points_app.Prelude.Int.{ℤ, pos, ◌+ℤ◌, ltb_ℤ, leb_ℤ, in_int64}
use loyalty_points_app.Errs.{
  Error, sentinel, wrapped, not_found, already_exists, insufficient_balance,
}
use loyalty_points_app.Authentication.Context.{Context}
use loyalty_points_app.Authorization.{is_granted, perm_account_read_all, perm_account_write_all}
use loyalty_points_app.Sql.Schema.{UserRow, AccountRow}
use loyalty_points_app.Sql.{
  Action, branch, pure, raise, check, new_uuid, format_time, parse_time, Outcome, done, failed,
  Statement, exec, query, sql_error, unique_violation, foreign_key_violation, check_violation,
  out_of_range, is_unique_constraint_violation, ◌>>=◌,
}
use loyalty_points_app.Accounts.Types.{
  Account, CreateAccountRequest, GetAccountByIdRequest, GetAccountBalanceRequest,
  UpdateAccountBalanceRequest, UpdateAccountNameRequest,
}
use loyalty_points_app.Accounts.Validations.{
  validate_create, validate_get_by_id, validate_get_account_balance,
  validate_update_account_balance, validate_update_account_name,
}

-- `WHERE id = $1`, and `AND owner_id = $2` where the query is scoped.
abbrev pub in_scope : Bool → String → AccountRow → Bool
in_scope scoped user_id r = not scoped || r.owner_id == user_id

abbrev pub matches : Bool → String → String → AccountRow → Bool
matches scoped id user_id r = r.id == id && in_scope scoped user_id r

-- The row that `SELECT … FROM accounts WHERE id = $1` reads, with the owner where it is scoped.
unfoldable pub find_account : Bool → String → String → List AccountRow → Option AccountRow
find_account scoped id user_id rows = find (matches scoped id user_id) rows

unfoldable pub has_account : String → List AccountRow → Bool
has_account id rows = any (λ r. r.id == id) rows

unfoldable pub has_user : String → List UserRow → Bool
has_user id rows = any (λ u. u.id == id) rows

-- `account %s: %w`
abbrev pub account_error : {A : Type 0} → String → Error → Action A
account_error id x = raise (wrapped (concat "account " id) x)

-- `scanAccount`, on a row.
unfoldable pub scan_account : AccountRow → Action Account
scan_account r = do
  created_at ← parse_time r.created_at
  pure (record {
    id = r.id;
    owner_id = r.owner_id;
    name = r.name;
    balance = r.balance;
    created_at = created_at;
  })

-- `INSERT INTO accounts …`: the CHECK, the primary key, the reference to the owner.
abbrev pub insert_account : AccountRow → Statement Unit
insert_account row db =
    if ltb_ℤ row.balance (pos 0)
    then failed check_violation
    else if has_account row.id db.accounts
    then failed unique_violation
    else if has_user row.owner_id db.users
    then done (tt, record db { accounts = db.accounts ++ row ∷ [] })
    else failed foreign_key_violation

abbrev created_or_error : Account → Outcome Unit → Action Account
created_or_error account (done _) = pure account
created_or_error account (failed x) =
    branch (is_unique_constraint_violation x) (account_error account.id (sentinel already_exists))
      (do e ← sql_error x; raise (wrapped "could not insert account" e))

abbrev pub assign_id : Account → Action Account
assign_id account =
    branch (account.id == "") (do id ← new_uuid; pure (record account { id = id })) (pure account)

unfoldable pub create : Context → CreateAccountRequest → Action Account
create ctx request = check "invalid request for Create" (validate_create request) do
  account ← assign_id request.account
  created_at ← format_time account.created_at
  o ← exec (
      insert_account (record {
        id = account.id;
        owner_id = account.owner_id;
        name = account.name;
        balance = account.balance;
        created_at = created_at;
      }))
  created_or_error account o

-- A row or `sql.ErrNoRows`; any other error of the scan goes up as `scan_account` words it.
abbrev pub row_or_error : String → Outcome (Option AccountRow) → Action Account
row_or_error id (done (some r)) = scan_account r
row_or_error id (done none) = account_error id (sentinel not_found)
row_or_error id (failed x) = do e ← sql_error x; raise (wrapped "could not scan account" e)

unfoldable pub get_by_id : Context → GetAccountByIdRequest → Action Account
unfolding scan_account
get_by_id ctx request = check "invalid request for GetByID" (validate_get_by_id request) do
  let scoped = not (is_granted ctx perm_account_read_all)
  o ← exec (query (λ db. find_account scoped request.account_id request.user_id db.accounts))
  row_or_error request.account_id o

abbrev pub balance_or_error : String → Outcome (Option AccountRow) → Action ℤ
balance_or_error id (done (some r)) = pure r.balance
balance_or_error id (done none) = account_error id (sentinel not_found)
balance_or_error id (failed x) = do
  e ← sql_error x
  raise (wrapped "could not read account balance" e)

unfoldable pub get_account_balance : Context → GetAccountBalanceRequest → Action ℤ
get_account_balance ctx request =
    check "invalid request for GetAccountBalance" (validate_get_account_balance request) do
      let scoped = not (is_granted ctx perm_account_read_all)
      o ← exec (query (λ db. find_account scoped request.account_id request.user_id db.accounts))
      balance_or_error request.account_id o

abbrev pub add_balance : ℤ → AccountRow → AccountRow
add_balance delta r = record r { balance = r.balance +ℤ delta }

-- `WHERE id = $2 AND balance + $1 >= 0`, and the owner where the update is scoped.
abbrev pub can_apply : Bool → ℤ → String → String → AccountRow → Bool
can_apply scoped delta id user_id r =
    r.id == id && (leb_ℤ (pos 0) (r.balance +ℤ delta) && in_scope scoped user_id r)

-- The WHERE clause adds before it compares.
unfoldable pub overflows : ℤ → String → List AccountRow → Bool
overflows delta id rows = any (λ r. r.id == id && not (in_int64 (r.balance +ℤ delta))) rows

unfoldable pub affected_rows : Bool → ℤ → String → String → List AccountRow → ℕ
affected_rows scoped delta id user_id rows = count_where (can_apply scoped delta id user_id) rows

unfoldable pub add_to_rows : Bool → ℤ → String → String → List AccountRow → List AccountRow
add_to_rows scoped delta id user_id rows =
    update_where (can_apply scoped delta id user_id) (add_balance delta) rows

-- `UPDATE accounts SET balance = balance + $1 …`: a sum that is no BIGINT is an error.
abbrev pub update_balance : Bool → ℤ → String → String → Statement ℕ
update_balance scoped delta id user_id db =
    if overflows delta id db.accounts
    then failed out_of_range
    else done (
      affected_rows scoped delta id user_id db.accounts,
      record db { accounts = add_to_rows scoped delta id user_id db.accounts },
    )

-- After an update of no row: was the account missing, or the balance short?
abbrev pub explain_no_row : String → Outcome (Option AccountRow) → Action ℤ
explain_no_row id (done none) = account_error id (sentinel not_found)
explain_no_row id (failed x) = do
  e ← sql_error x
  raise (wrapped "could not read account balance" e)
explain_no_row id (done (some _)) = account_error id (sentinel insufficient_balance)

-- `sql.ErrNoRows` of the last read is one more read error.
abbrev pub updated_balance : Outcome (Option AccountRow) → Action ℤ
updated_balance (done (some r)) = pure r.balance
updated_balance (done none) =
    raise
      (wrapped "could not read updated account balance" (Error.plain "sql: no rows in result set"))
updated_balance (failed x) = do
  e ← sql_error x
  raise (wrapped "could not read updated account balance" e)

abbrev pub after_update : Bool → UpdateAccountBalanceRequest → Outcome ℕ → Action ℤ
after_update scoped request (failed x) = do
  e ← sql_error x
  raise (wrapped "could not update account balance" e)
after_update scoped request (done affected) =
    branch (nat_eq affected 0)
      (do
        o ← exec (query (λ db. find_account scoped request.account_id request.user_id db.accounts))
        explain_no_row request.account_id o)
      (do
        o ← exec (query (λ db. find_account false request.account_id "" db.accounts))
        updated_balance o)

unfoldable pub update_account_balance : Context → UpdateAccountBalanceRequest → Action ℤ
update_account_balance ctx request =
    check "invalid request for UpdateAccountBalance" (validate_update_account_balance request) do
      let scoped = not (is_granted ctx perm_account_write_all)
      o ← exec (update_balance scoped request.delta request.account_id request.user_id)
      after_update scoped request o

abbrev pub set_name : String → AccountRow → AccountRow
set_name name r = record r { name = name }

unfoldable pub rename_rows : Bool → String → String → String → List AccountRow → List AccountRow
rename_rows scoped name id user_id rows =
    update_where (matches scoped id user_id) (set_name name) rows

-- `UPDATE accounts SET name = $1 … RETURNING …`: the first updated row.
abbrev pub update_name : Bool → String → String → String → Statement (Option AccountRow)
update_name scoped name id user_id db =
    let rows = rename_rows scoped name id user_id db.accounts in
    done (find_account scoped id user_id rows, record db { accounts = rows })

unfoldable pub update_account_name : Context → UpdateAccountNameRequest → Action Account
unfolding scan_account
update_account_name ctx request =
    check "invalid request for UpdateAccountName" (validate_update_account_name request) do
      let scoped = not (is_granted ctx perm_account_write_all)
      o ← exec (update_name scoped request.name request.account_id request.user_id)
      row_or_error request.account_id o
