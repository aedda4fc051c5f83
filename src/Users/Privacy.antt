-- ===== src/Users/Privacy.antt =====
-- What a member can see of the users: its own row, and nothing of the others.
use loyalty_points_app.Prelude.{
  ◌≡◌, refl, suc, sym, ap, ◌∙◌, String, true, false, List, [], ◌∷◌, select, arith,
}
use loyalty_points_app.Authentication.Context.{Context}
use loyalty_points_app.Authorization.{is_granted, perm_user_read_all}
use loyalty_points_app.Sql.Schema.{Db, UserRow}
use loyalty_points_app.Sql.{Env, World}
use loyalty_points_app.Users.Types.{GetUserByIdRequest}
use loyalty_points_app.Users.Repository.{in_scope, find_user, get_by_id, scan_user}
use loyalty_points_app.Users.Listing.{ListUsersRequest, order_rows, scan_users, select_users, list}

-- The rows with the caller's id.
abbrev pub own_rows : String → Db → List UserRow
own_rows user_id db = select (in_scope true user_id) db.users

abbrev with_db : World → Db → World
with_db w db = record w { db = db }

find_user-own_rows :
    (id u : String) (rows : List UserRow)
    → find_user true id u rows ≡ find_user true id u (select (in_scope true u) rows)
unfolding find_user
find_user-own_rows id u [] = refl
find_user-own_rows id u (r ∷ rows) = ground (arith, find_user-own_rows id u rows)

find_user-same :
    (id u : String) (db db' : Db)
    → own_rows u db ≡ own_rows u db'
    → find_user true id u db.users ≡ find_user true id u db'.users
find_user-same id u db db' same =
    find_user-own_rows id u db.users
    ∙ ap (find_user true id u) same
    ∙ sym (find_user-own_rows id u db'.users)

get_by_id-same :
    (ctx : Context) (r : GetUserByIdRequest) (e : Env) (w : World) (db' : Db)
    → is_granted ctx perm_user_read_all ≡ false
    → own_rows r.user_id w.db ≡ own_rows r.user_id db'
    → (get_by_id ctx r e w).0 ≡ (get_by_id ctx r e (with_db w db')).0
unfolding get_by_id
get_by_id-same ctx r e w db' member same =
    rw member (ground (arith, find_user-same r.id r.user_id w.db db' same))

scan_users-result :
    (rows : List UserRow) (e : Env) (w w' : World)
    → (scan_users rows e w).0 ≡ (scan_users rows e w').0
unfolding scan_users scan_user
scan_users-result [] e w w' = refl
scan_users-result (r ∷ rows) e w w' = ground (arith, scan_users-result rows e w w')

select_users-same :
    (e : Env) (u : String) (db db' : Db)
    → own_rows u db ≡ own_rows u db'
    → select_users e.collates true u db ≡ select_users e.collates true u db'
unfolding select_users
select_users-same e u db db' same = ap (order_rows e.collates) same

list-same :
    (ctx : Context) (r : ListUsersRequest) (e : Env) (w : World) (db' : Db)
    → is_granted ctx perm_user_read_all ≡ false
    → own_rows r.user_id w.db ≡ own_rows r.user_id db'
    → (list ctx r e w).0 ≡ (list ctx r e (with_db w db')).0
unfolding list
list-same ctx r e w db' member same = rw member (
    ground (
      arith,
      select_users-same e r.user_id w.db db' same,
      scan_users-result (select_users e.collates true r.user_id db') e
          (record w { calls = suc w.calls }) (record w { calls = suc w.calls; db = db' }),
    ))

-- For a caller that may not read every user, the listing of the users and a read by id for the same
-- caller have the same results on any two states of the tables that agree on the rows with the
-- caller's own id.
pub user_reads_private :
    (ctx : Context) (l : ListUsersRequest) (r : GetUserByIdRequest) (e : Env) (w : World) (db' : Db)
    → is_granted ctx perm_user_read_all ≡ false
    → r.user_id ≡ l.user_id
    → own_rows l.user_id w.db ≡ own_rows l.user_id db'
    → ((list ctx l e w).0 ≡ (list ctx l e (with_db w db')).0)
      × ((get_by_id ctx r e w).0 ≡ (get_by_id ctx r e (with_db w db')).0)
user_reads_private ctx l r e w db' member caller same =
    (list-same ctx l e w db' member same, get_by_id-same ctx r e w db' member (rw caller same))
