-- ===== src/Tests/Access.antt =====
-- Who sees what, and who may call what.
use loyalty_points_app.Prelude.{◌≡◌, refl, [], ◌∷◌}
use loyalty_points_app.Authorization.{is_granted}
use loyalty_points_app.Sql.Schema.{Db}
use loyalty_points_app.Accounts as Accounts
use loyalty_points_app.Accounts.Privacy.{list_private}
use loyalty_points_app.Audits as Audits
use loyalty_points_app.Prelude.Int.{pos}
use loyalty_points_app.Users.{get_by_id}
use loyalty_points_app.Users.Listing.{list}
use loyalty_points_app.Users.Privacy.{user_reads_private}
use loyalty_points_app.Tests.Shop.{
  env, shop, shop_db, user_row, ann_context, ann_account, account_row,
}

-- The shop without Bob's account, and with a rich stranger.
abbrev other_db : Db
other_db = record shop_db { accounts = account_row "a9" "eve" (pos 999) ∷ ann_account ∷ [] }

list_private_example :
    (Accounts.list ann_context (record { user_id = "ann" }) env shop).0
    ≡ (Accounts.list ann_context (record { user_id = "ann" }) env (record shop { db = other_db })).0
unfolding is_granted
list_private_example =
    list_private ann_context (record { user_id = "ann" }) env shop other_db refl refl

-- The shop without Bob, and with Eve.
abbrev other_users : Db
other_users = record shop_db { users = user_row "eve" ∷ user_row "ann" ∷ [] }

user_reads_private_example :
    ((list ann_context (record { user_id = "ann" }) env shop).0
      ≡ (list ann_context (record { user_id = "ann" }) env (record shop { db = other_users })).0)
    × ((get_by_id ann_context (record { id = "bob"; user_id = "ann" }) env shop).0
        ≡ (get_by_id ann_context
            (record { id = "bob"; user_id = "ann" })
            env
            (record shop { db = other_users })).0)
unfolding is_granted
user_reads_private_example =
    user_reads_private ann_context (record { user_id = "ann" })
      (record { id = "bob"; user_id = "ann" }) env shop other_users refl refl refl
