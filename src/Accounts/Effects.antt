-- ===== src/Accounts/Effects.antt =====
-- What the account repository does to the tables.
use loyalty_points_app.Prelude.{
  ◌≡◌, refl, Bool, false, not, ◌⊎◌, Option, none, some, arith, String, List, [], ◌∷◌, ◌<◌,
}
use loyalty_points_app.Prelude.Int.{ℤ}
use loyalty_points_app.Authentication.Context.{Context}
use loyalty_points_app.Authorization.{is_granted, perm_account_read_all, perm_account_write_all}
use loyalty_points_app.Sql.Schema.{Db, AccountRow}
use loyalty_points_app.Sql.{Env, World, Result, ok, err}
use loyalty_points_app.Accounts.Types.{Account, GetAccountByIdRequest, UpdateAccountBalanceRequest}
use loyalty_points_app.Accounts.Repository.{
  get_by_id, find_account, update_account_balance, overflows, add_to_rows, affected_rows,
}

-- The owner of the row that a read finds.
abbrev pub owner_of : Option AccountRow → Option String
owner_of none = none
owner_of (some row) = some row.owner_id

abbrev pub Reads : Bool → GetAccountByIdRequest → World → Result Account × World → Type 0
Reads scoped r w (ok a, w') =
    (w'.db ≡ w.db)
    × (owner_of (find_account scoped r.account_id r.user_id w.db.accounts) ≡ some a.owner_id)
Reads scoped r w (err x, w') = w'.db ≡ w.db

-- A read changes no table, and the account that it returns has the owner of the row that is in the
-- caller's scope.
pub get_by_id-Reads :
    (ctx : Context) (r : GetAccountByIdRequest) (e : Env) (w : World)
    → Reads (not (is_granted ctx perm_account_read_all)) r w (get_by_id ctx r e w)
unfolding get_by_id
get_by_id-Reads ctx r e w = ground arith

pub db-get_by_id :
    (ctx : Context) (r : GetAccountByIdRequest) (e : Env) (w : World)
    → (get_by_id ctx r e w).1.db ≡ w.db
unfolding get_by_id
db-get_by_id ctx r e w = ground arith

pub add_to_rows_none :
    (scoped : Bool) (delta : ℤ) (id u : String) (rows : List AccountRow)
    → affected_rows scoped delta id u rows ≡ 0
    → add_to_rows scoped delta id u rows ≡ rows
unfolding affected_rows add_to_rows
add_to_rows_none scoped delta id u [] h = refl
add_to_rows_none scoped delta id u (x ∷ rows) h =
    ground (arith, add_to_rows_none scoped delta id u rows)

-- The update went through: some row was in reach, and the rows are the old ones with the delta.
abbrev pub Applied : Bool → UpdateAccountBalanceRequest → Db → Db → Type 0
Applied scoped r db db' =
    (db' ≡ record db { accounts = add_to_rows scoped r.delta r.account_id r.user_id db.accounts })
    × (0 < affected_rows scoped r.delta r.account_id r.user_id db.accounts)
    × (overflows r.delta r.account_id db.accounts ≡ false)

-- What an update does to the tables, by its result.
abbrev pub Updates : Bool → UpdateAccountBalanceRequest → World → Result ℤ × World → Type 0
Updates scoped r w (ok b, w') = Applied scoped r w.db w'.db
Updates scoped r w (err x, w') = (w'.db ≡ w.db) ⊎ Applied scoped r w.db w'.db

-- An update that returns a balance has added the delta to the rows in its scope, of which there
-- was one, with no sum out of range. One that returns an error has left the tables alone, or it
-- has done the same and an error came after: the read of the new balance can fail.
pub update_account_balance-Updates :
    (ctx : Context) (r : UpdateAccountBalanceRequest) (e : Env) (w : World)
    → Updates (not (is_granted ctx perm_account_write_all)) r w (update_account_balance ctx r e w)
unfolding update_account_balance
update_account_balance-Updates ctx r e w =
    let scoped = not (is_granted ctx perm_account_write_all) in
    ground (arith, add_to_rows_none scoped r.delta r.account_id r.user_id w.db.accounts)
