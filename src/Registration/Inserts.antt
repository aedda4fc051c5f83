-- ===== src/Registration/Inserts.antt =====
-- What the two INSERTs of a registration write.
use loyalty_points_app.Prelude.{◌≡◌, false, [], ◌∷◌, ◌++◌, arith}
use loyalty_points_app.Prelude.Int.{pos}
use loyalty_points_app.Authentication.Context.{Context}
use loyalty_points_app.Sql.Schema.{UserRow, AccountRow}
use loyalty_points_app.Sql.{Env, World, Result, ok, err}
use loyalty_points_app.Accounts as Accounts
use loyalty_points_app.Accounts.{Account, has_account, has_user}
use loyalty_points_app.Users as Users
use loyalty_points_app.Users.{User, has_email}

-- A user's row; the session epoch is the column's default.
abbrev pub row_of_user : Env → User → UserRow
row_of_user e u = record {
  id = u.id;
  email = u.email;
  password_hash = u.password_hash;
  role = u.role;
  created_at = e.format_time u.created_at;
  token_version = pos 0;
}

abbrev pub row_of_account : Env → Account → AccountRow
row_of_account e a = record {
  id = a.id;
  owner_id = a.owner_id;
  name = a.name;
  balance = a.balance;
  created_at = e.format_time a.created_at;
}

abbrev pub AddsUser : User → Env → World → Result User × World → Type 0
AddsUser user e w (ok u, w') =
    (has_email user.email w.db.users ≡ false)
    × (has_user user.id w.db.users ≡ false)
    × (w'.db ≡ record w.db { users = w.db.users ++ row_of_user e user ∷ [] })
AddsUser user e w (err x, w') = w'.db ≡ w.db

pub create-AddsUser :
    (ctx : Context) (user : User) (e : Env) (w : World)
    → AddsUser user e w (Users.create ctx (record { user = user }) e w)
unfolding Users.create
create-AddsUser ctx user e w = ground arith

-- The account as it was asked for, with an id of its own where it came with none.
abbrev pub AddsAccount : Account → Env → World → Result Account × World → Type 0
AddsAccount account e w (ok a, w') =
    (a.owner_id ≡ account.owner_id)
    × (a.name ≡ account.name)
    × (a.balance ≡ account.balance)
    × (has_account a.id w.db.accounts ≡ false)
    × (w'.db ≡ record w.db { accounts = w.db.accounts ++ row_of_account e a ∷ [] })
AddsAccount account e w (err x, w') = w'.db ≡ w.db

pub create-AddsAccount :
    (ctx : Context) (account : Account) (e : Env) (w : World)
    → AddsAccount account e w (Accounts.create ctx (record { account = account }) e w)
unfolding Accounts.create
create-AddsAccount ctx account e w = ground arith
