-- ===== src/Accounts/Privacy.antt =====
-- What a member can see of the accounts: the rows that it owns, and nothing of the others.
use loyalty_points_app.Prelude.{
  ◌≡◌, refl, suc, sym, ap, ◌∙◌, String, true, false, List, [], ◌∷◌, select, arith,
}
use loyalty_points_app.Authentication.Context.{Context}
use loyalty_points_app.Authorization.{is_granted, perm_account_read_all}
use loyalty_points_app.Sql.Schema.{Db, AccountRow}
use loyalty_points_app.Sql.{Env, World}
use loyalty_points_app.Accounts.Types.{
  GetAccountByIdRequest, GetAccountBalanceRequest, ListAccountsRequest,
}
use loyalty_points_app.Accounts.Repository.{
  in_scope, find_account, get_by_id, get_account_balance, scan_account,
}
use loyalty_points_app.Accounts.Listing.{order_rows, scan_accounts, select_accounts, list}

-- The rows of one owner.
abbrev pub owned_rows : String → Db → List AccountRow
owned_rows user_id db = select (in_scope true user_id) db.accounts

abbrev with_db : World → Db → World
with_db w db = record w { db = db }

find_account-owned_rows :
    (id u : String) (rows : List AccountRow)
    → find_account true id u rows ≡ find_account true id u (select (in_scope true u) rows)
unfolding find_account
find_account-owned_rows id u [] = refl
find_account-owned_rows id u (r ∷ rows) = ground (arith, find_account-owned_rows id u rows)

find_account-same :
    (id u : String) (db db' : Db)
    → owned_rows u db ≡ owned_rows u db'
    → find_account true id u db.accounts ≡ find_account true id u db'.accounts
find_account-same id u db db' same =
    find_account-owned_rows id u db.accounts
    ∙ ap (find_account true id u) same
    ∙ sym (find_account-owned_rows id u db'.accounts)

-- For a caller that may not read every account, the result of a read by id is the same on any two
-- states of the tables that agree on the caller's own accounts.
pub get_by_id_private :
    (ctx : Context) (r : GetAccountByIdRequest) (e : Env) (w : World) (db' : Db)
    → is_granted ctx perm_account_read_all ≡ false
    → owned_rows r.user_id w.db ≡ owned_rows r.user_id db'
    → (get_by_id ctx r e w).0 ≡ (get_by_id ctx r e (with_db w db')).0
unfolding get_by_id
get_by_id_private ctx r e w db' member same =
    rw member (ground (arith, find_account-same r.account_id r.user_id w.db db' same))

-- For a caller that may not read every account, the result of reading a balance is the same on any
-- two states of the tables that agree on the caller's own accounts.
pub get_account_balance_private :
    (ctx : Context) (r : GetAccountBalanceRequest) (e : Env) (w : World) (db' : Db)
    → is_granted ctx perm_account_read_all ≡ false
    → owned_rows r.user_id w.db ≡ owned_rows r.user_id db'
    → (get_account_balance ctx r e w).0 ≡ (get_account_balance ctx r e (with_db w db')).0
unfolding get_account_balance
get_account_balance_private ctx r e w db' member same =
    rw member (ground (arith, find_account-same r.account_id r.user_id w.db db' same))

scan_accounts-result :
    (rows : List AccountRow) (e : Env) (w w' : World)
    → (scan_accounts rows e w).0 ≡ (scan_accounts rows e w').0
unfolding scan_accounts scan_account
scan_accounts-result [] e w w' = refl
scan_accounts-result (r ∷ rows) e w w' = ground (arith, scan_accounts-result rows e w w')

select_accounts-same :
    (e : Env) (u : String) (db db' : Db)
    → owned_rows u db ≡ owned_rows u db'
    → select_accounts e.collates true u db ≡ select_accounts e.collates true u db'
unfolding select_accounts
select_accounts-same e u db db' same = ap (order_rows e.collates) same

-- For a caller that may not read every account, the listing is the same on any two states of the
-- tables that agree on the caller's own accounts.
pub list_private :
    (ctx : Context) (r : ListAccountsRequest) (e : Env) (w : World) (db' : Db)
    → is_granted ctx perm_account_read_all ≡ false
    → owned_rows r.user_id w.db ≡ owned_rows r.user_id db'
    → (list ctx r e w).0 ≡ (list ctx r e (with_db w db')).0
unfolding list
list_private ctx r e w db' member same = rw member (
    ground (
      arith,
      select_accounts-same e r.user_id w.db db' same,
      scan_accounts-result (select_accounts e.collates true r.user_id db') e
          (record w { calls = suc w.calls }) (record w { calls = suc w.calls; db = db' }),
    ))
