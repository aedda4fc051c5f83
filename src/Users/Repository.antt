-- ===== src/Users/Repository.antt =====
-- internal/pkg/users/userRepositoryImpl.go, all but its `List`, which is in Listing.
use loyalty_points_app.Prelude.{
  String, Bool, false, not, ◌&&◌, ◌||◌, Option, none, some, List, [], ◌∷◌, ◌++◌, any, find,
  update_where, concat, ◌==◌, if◌then◌else◌,
}
use loyalty_points_app.Prelude.Int.{ℤ, pos, ◌+ℤ◌, in_int64}
use loyalty_points_app.Errs.{Error, sentinel, wrapped, not_found, already_exists}
use loyalty_points_app.Authentication.Context.{Context}
use loyalty_points_app.Authorization.{role_member, role_admin, is_granted, perm_user_read_all}
use loyalty_points_app.Sql.Schema.{UserRow}
use loyalty_points_app.Sql.{
  Action, branch, pure, raise, check, format_time, parse_time, Outcome, done, failed, Statement,
  exec, query, sql_error, unique_violation, check_violation, out_of_range,
  is_unique_constraint_violation, ◌>>=◌,
}
use loyalty_points_app.Accounts.{has_user}
use loyalty_points_app.Users.Types.{
  User, CreateUserRequest, GetUserByIdRequest, GetUserByEmailRequest, GetTokenVersionRequest,
  IncrementTokenVersionRequest,
}
use loyalty_points_app.Users.Validations.{
  validate_create, validate_get_by_id, validate_get_by_email, validate_get_token_version,
  validate_increment_token_version,
}

-- `user %s: %w`
abbrev pub user_error : {A : Type 0} → String → Error → Action A
user_error key x = raise (wrapped (concat "user " key) x)

unfoldable pub has_email : String → List UserRow → Bool
has_email email rows = any (λ u. u.email == email) rows

-- `INSERT INTO users …`: the CHECK on the role, the primary key and the unique email.
abbrev pub insert_user : UserRow → Statement Unit
insert_user row db =
    if not (row.role == role_member || row.role == role_admin)
    then failed check_violation
    else if has_user row.id db.users || has_email row.email db.users
    then failed unique_violation
    else done (tt, record db { users = db.users ++ row ∷ [] })

abbrev pub created_or_error : User → Outcome Unit → Action User
created_or_error user (done _) = pure user
created_or_error user (failed x) =
    branch (is_unique_constraint_violation x) (user_error user.id (sentinel already_exists))
      (do e ← sql_error x; raise (wrapped "could not insert user" e))

-- `token_version` takes the column's default.
unfoldable pub create : Context → CreateUserRequest → Action User
create ctx request = check "invalid request for Create" (validate_create request) do
  created_at ← format_time request.user.created_at
  o ← exec (
      insert_user (record {
        id = request.user.id;
        email = request.user.email;
        password_hash = request.user.password_hash;
        role = request.user.role;
        created_at = created_at;
        token_version = pos 0;
      }))
  created_or_error request.user o

-- `scanUser`, on a row.
unfoldable pub scan_user : UserRow → Action User
scan_user r = do
  created_at ← parse_time r.created_at
  pure (record {
    id = r.id;
    email = r.email;
    password_hash = r.password_hash;
    role = r.role;
    created_at = created_at;
    token_version = r.token_version;
  })

abbrev pub row_or_error : String → Outcome (Option UserRow) → Action User
row_or_error key (done (some r)) = scan_user r
row_or_error key (done none) = user_error key (sentinel not_found)
row_or_error key (failed x) = do e ← sql_error x; raise (wrapped "could not scan user" e)

abbrev pub in_scope : Bool → String → UserRow → Bool
in_scope scoped user_id r = not scoped || r.id == user_id

unfoldable pub find_user : Bool → String → String → List UserRow → Option UserRow
find_user scoped id user_id rows = find (λ r. r.id == id && in_scope scoped user_id r) rows

unfoldable pub find_user_by_email : Bool → String → String → List UserRow → Option UserRow
find_user_by_email scoped email user_id rows =
    find (λ r. r.email == email && in_scope scoped user_id r) rows

unfoldable pub get_by_id : Context → GetUserByIdRequest → Action User
unfolding scan_user
get_by_id ctx request = check "invalid request for GetByID" (validate_get_by_id request) do
  let scoped = not (is_granted ctx perm_user_read_all)
  o ← exec (query (λ db. find_user scoped request.id request.user_id db.users))
  row_or_error request.id o

abbrev pub root_user_id : String
root_user_id = "03AA99227R0000000000000000"

-- The login has no claim yet: it asks as the root user, which is not scoped.
unfoldable pub get_by_email : Context → GetUserByEmailRequest → Action User
unfolding scan_user
get_by_email ctx request = check "invalid request for GetByEmail" (validate_get_by_email request) do
  let scoped = not (is_granted ctx perm_user_read_all) && not (request.user_id == root_user_id)
  o ← exec (query (λ db. find_user_by_email scoped request.email request.user_id db.users))
  row_or_error request.email o

abbrev pub version_or_error : String → String → Outcome (Option UserRow) → Action ℤ
version_or_error message id (done (some r)) = pure r.token_version
version_or_error message id (done none) = user_error id (sentinel not_found)
version_or_error message id (failed x) = do e ← sql_error x; raise (wrapped message e)

unfoldable pub get_token_version : Context → GetTokenVersionRequest → Action ℤ
get_token_version ctx request =
    check "invalid request for GetTokenVersion" (validate_get_token_version request) do
      o ← exec (query (λ db. find_user false request.user_id "" db.users))
      version_or_error "could not read token version" request.user_id o

abbrev pub bump : UserRow → UserRow
bump r = record r { token_version = r.token_version +ℤ pos 1 }

unfoldable pub bump_rows : String → List UserRow → List UserRow
bump_rows id rows = update_where (λ r. r.id == id) bump rows

unfoldable pub version_overflows : String → List UserRow → Bool
version_overflows id rows = any (λ r. r.id == id && not (in_int64 (r.token_version +ℤ pos 1))) rows

-- `UPDATE users SET token_version = token_version + 1 … RETURNING token_version`
abbrev pub increment_version : String → Statement (Option UserRow)
increment_version id db =
    if version_overflows id db.users
    then failed out_of_range
    else let rows = bump_rows id db.users in
      done (find_user false id "" rows, record db { users = rows })

unfoldable pub increment_token_version : Context → IncrementTokenVersionRequest → Action ℤ
increment_token_version ctx request =
    check "invalid request for IncrementTokenVersion" (validate_increment_token_version request) do
      o ← exec (increment_version request.user_id)
      version_or_error "could not increment token version" request.user_id o
