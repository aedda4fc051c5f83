-- ===== src/Wallets/Repository.antt =====
-- internal/pkg/wallets/transactionRepositoryImpl.go: the ledger.
use loyalty_points_app.Prelude.{
  String, Bool, true, false, not, ◌&&◌, ◌||◌, Option, none, some, List, [], ◌∷◌, ◌++◌, any, find,
  concat, ◌==◌, if◌then◌else◌,
}
use loyalty_points_app.Prelude.Int.{ℤ, pos, ltb_ℤ, leb_ℤ}
use loyalty_points_app.Errs.{sentinel, wrapped, not_found, duplicate_ref}
use loyalty_points_app.Authentication.Context.{Context}
use loyalty_points_app.Authorization.{is_granted, perm_transaction_read_all}
use loyalty_points_app.Sql.Schema.{TransactionRow}
use loyalty_points_app.Accounts.{has_account, has_user}
use loyalty_points_app.Sql.{
  Action, branch, pure, raise, check, new_uuid, format_time, parse_time, Outcome, done, failed,
  Statement, exec, query, sql_error, unique_violation, foreign_key_violation, check_violation,
  is_foreign_key_constraint_violation, ◌>>=◌,
}
use loyalty_points_app.Wallets.Types.{
  kind_earn, kind_spend, Transaction, CreateTransactionRequest, GetTransactionByIdRequest,
}
use loyalty_points_app.Wallets.Validations.{validate_create, validate_get_by_id}

unfoldable pub find_transaction :
    Bool → String → String → List TransactionRow → Option TransactionRow
find_transaction scoped ref user_id rows =
    find (λ r. r.ref == ref && (not scoped || r.owner_id == user_id)) rows

unfoldable pub has_ref : String → List TransactionRow → Bool
has_ref ref rows = any (λ r. r.ref == ref) rows

unfoldable pub has_id : String → List TransactionRow → Bool
has_id id rows = any (λ r. r.id == id) rows

-- `INSERT INTO transactions … ON CONFLICT (ref) DO NOTHING`; whether a row was written. The CHECK
-- on the kind comes first, then the conflict, the primary key and the references.
abbrev pub insert_transaction : TransactionRow → Statement Bool
insert_transaction row db =
    if not (row.kind == kind_earn || row.kind == kind_spend)
    then failed check_violation
    else if has_ref row.ref db.transactions
    then done (false, db)
    else if has_id row.id db.transactions
    then failed unique_violation
    else if has_account row.account_id db.accounts && has_user row.owner_id db.users
    then done (true, record db { transactions = db.transactions ++ row ∷ [] })
    else failed foreign_key_violation

abbrev pub transaction_row : String → String → Transaction → TransactionRow
transaction_row occurred_at recorded_at t = record {
  id = t.id;
  ref = t.ref;
  account_id = t.account_id;
  owner_id = t.owner_id;
  kind = t.kind;
  points = t.points;
  occurred_at = occurred_at;
  recorded_at = recorded_at;
  created_by = t.created_by;
}

abbrev pub assign_id : Transaction → Action Transaction
assign_id t = branch (t.id == "") (do id ← new_uuid; pure (record t { id = id })) (pure t)

-- A row count of zero is the sign of a duplicate.
abbrev pub created_or_error : Transaction → Outcome Bool → Action Transaction
created_or_error t (done true) = pure t
created_or_error t (done false) =
    raise (wrapped (concat "transaction " t.ref) (sentinel duplicate_ref))
created_or_error t (failed x) =
    branch (is_foreign_key_constraint_violation x)
      (raise (wrapped (concat "account " t.account_id) (sentinel not_found)))
      (do e ← sql_error x; raise (wrapped "could not insert transaction" e))

unfoldable pub create : Context → CreateTransactionRequest → Action Transaction
create ctx request = check "invalid request for Create" (validate_create request) do
  t ← assign_id request.transaction
  occurred_at ← format_time t.occurred_at
  recorded_at ← format_time t.recorded_at
  o ← exec (insert_transaction (transaction_row occurred_at recorded_at t))
  created_or_error t o

-- `scanTransaction`, on a row.
unfoldable pub scan_transaction : TransactionRow → Action Transaction
scan_transaction r = do
  occurred_at ← parse_time r.occurred_at
  recorded_at ← parse_time r.recorded_at
  pure (record {
    id = r.id;
    ref = r.ref;
    account_id = r.account_id;
    owner_id = r.owner_id;
    kind = r.kind;
    points = r.points;
    occurred_at = occurred_at;
    recorded_at = recorded_at;
    created_by = r.created_by;
  })

abbrev pub row_or_error : String → Outcome (Option TransactionRow) → Action Transaction
row_or_error ref (done (some r)) = scan_transaction r
row_or_error ref (done none) = raise (wrapped (concat "transaction " ref) (sentinel not_found))
row_or_error ref (failed x) = do e ← sql_error x; raise (wrapped "could not scan transaction" e)

unfoldable pub get_by_id : Context → GetTransactionByIdRequest → Action Transaction
unfolding scan_transaction
get_by_id ctx request = check "invalid request for GetByID" (validate_get_by_id request) do
  let scoped = not (is_granted ctx perm_transaction_read_all)
  o ← exec (query (λ db. find_transaction scoped request.ref request.user_id db.transactions))
  row_or_error request.ref o

abbrev pub default_page_size : ℤ
default_page_size = pos 50

abbrev pub max_page_size : ℤ
max_page_size = pos 200

unfoldable pub clamp_page_size : ℤ → ℤ
clamp_page_size n =
    if leb_ℤ n (pos 0)
    then default_page_size
    else if ltb_ℤ max_page_size n
    then max_page_size
    else n
