-- ===== src/Tests/Races.antt =====
-- Two attempts at once, with one ref.
use loyalty_points_app.Prelude.{ℕ, ◌+◌, ◌≤◌, refl, List, [], ◌∷◌, All, count_where}
use loyalty_points_app.Wallets.Invariant.{IsValid, IsExplained}
use loyalty_points_app.Wallets.Concurrent.{Attempt, arrived, interleave}
use loyalty_points_app.Wallets.Concurrent.Invariants.{interleave-IsExplained}
use loyalty_points_app.Wallets.Concurrent.Once.{is_accepted, posted, interleave_once}
use loyalty_points_app.Wallets.Concurrent.Durable.{IsKept, interleave_durable}
use loyalty_points_app.Tests.Shop.{
  env, shop, ann_context, shop_db-IsValid, unposted, shop_db-IsExplained, spend_30, earn_9_again,
}

abbrev attempts : List Attempt
attempts = arrived ann_context spend_30 ∷ arrived ann_context earn_9_again ∷ []

-- Both have read the account before either writes; the second comes first.
abbrev schedule : List ℕ
schedule = 0 ∷ 1 ∷ 1 ∷ 0 ∷ 0 ∷ 1 ∷ []

interleave-IsExplained_example :
    IsValid (interleave env schedule attempts shop).1.db
    × IsExplained unposted (interleave env schedule attempts shop).1.db
interleave-IsExplained_example =
    interleave-IsExplained env unposted schedule attempts shop (refl, (refl, tt)) shop_db-IsValid
      shop_db-IsExplained

interleave_once_example :
    (count_where (is_accepted "r2") (interleave env schedule attempts shop).0 + posted "r2" shop
      ≤ 1)
    × (count_where (is_accepted "r2") (interleave env schedule attempts shop).0
        ≤ posted "r2" (interleave env schedule attempts shop).1)
interleave_once_example = interleave_once env "r2" schedule attempts shop (refl, (refl, tt)) refl

interleave_durable_example :
    All (IsKept (interleave env schedule attempts shop).1) (interleave env schedule attempts shop).0
interleave_durable_example =
    interleave_durable env schedule attempts shop (refl, (refl, tt)) (tt, (tt, tt))
