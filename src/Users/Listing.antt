-- ===== src/Users/Listing.antt =====
-- `List` of internal/pkg/users/userRepositoryImpl.go.
use loyalty_points_app.Prelude.{
  String, Bool, not, Option, none, List, [], ◌∷◌, select, ◌==◌, if◌then◌else◌,
}
use loyalty_points_app.Errs.{Error, wrapped}
use loyalty_points_app.Authentication.Context.{Context}
use loyalty_points_app.Authorization.{is_granted, perm_user_read_all}
use loyalty_points_app.Sql.Schema.{Db, UserRow}
use loyalty_points_app.Sql.{
  ask, Action, pure, raise, check, Outcome, done, failed, exec, query, sql_error, ◌>>=◌,
}
use loyalty_points_app.Users.Types.{User}
use loyalty_points_app.Users.Repository.{in_scope, scan_user}

pub record ListUsersRequest : Type 0 where
  pub user_id : String

abbrev pub validate_list_users : ListUsersRequest → Option Error
validate_list_users r = none

-- `ORDER BY created_at, id`, in the order of the server's text columns.
abbrev pub precedes : (String → String → Bool) → UserRow → UserRow → Bool
precedes collates r s =
    if r.created_at == s.created_at then collates r.id s.id else collates r.created_at s.created_at

abbrev pub insert_row : (String → String → Bool) → UserRow → List UserRow → List UserRow
insert_row collates r [] = r ∷ []
insert_row collates r (s ∷ rows) =
    let rest = insert_row collates r rows in
    if precedes collates s r then s ∷ rest else r ∷ s ∷ rows

abbrev pub order_rows : (String → String → Bool) → List UserRow → List UserRow
order_rows collates [] = []
order_rows collates (r ∷ rows) = insert_row collates r (order_rows collates rows)

-- `SELECT … FROM users`, with `WHERE id = $1` where the query is scoped.
unfoldable pub select_users : (String → String → Bool) → Bool → String → Db → List UserRow
select_users collates scoped user_id db =
    order_rows collates (select (in_scope scoped user_id) db.users)

-- `for rows.Next()`
unfoldable pub scan_users : List UserRow → Action (List User)
unfolding scan_user
scan_users [] = pure []
scan_users (r ∷ rs) = do user ← scan_user r; users ← scan_users rs; pure (user ∷ users)

abbrev pub users_or_error : Outcome (List UserRow) → Action (List User)
users_or_error (done rows) = scan_users rows
users_or_error (failed x) = do e ← sql_error x; raise (wrapped "could not query users" e)

unfoldable pub list : Context → ListUsersRequest → Action (List User)
list ctx request = check "invalid request for List" (validate_list_users request) do
  let scoped = not (is_granted ctx perm_user_read_all)
  e ← ask
  o ← exec (query (select_users e.collates scoped request.user_id))
  users_or_error o
