-- ===== src/Tests/Batches.antt =====
-- Batches.
use loyalty_points_app.Prelude.{◌≡◌, refl, List, [], ◌∷◌, select}
use loyalty_points_app.Prelude.Int.{pos}
use loyalty_points_app.Sql.{Time}
use loyalty_points_app.Wallets.{
  ProcessTransactionRequest, ProcessTransactionBatchRequest, process_transaction_batch,
  sort_by_time, validate_batch,
}
use loyalty_points_app.Wallets.Invariant.{IsValid, IsExplained}
use loyalty_points_app.Wallets.Batch.{
  Run, process_transaction_batch-Run, process_transaction_batch-IsValid,
  process_transaction_batch-IsExplained, Answers, start, process_transaction_batch-Answers,
  IsChronological, at_time, sort_by_time_lem,
}
use loyalty_points_app.Wallets.Trail.{Appends, process_transaction_batch-Appends}
use loyalty_points_app.Tests.Shop.{
  env, shop, admin_context, shop_db-IsValid, unposted, shop_db-IsExplained, spend_30, earn_9_again,
  request_of,
}

-- An earn after two others that are to be applied before it.
abbrev elements : List ProcessTransactionRequest
elements = request_of "r5" "a2" "earn" (pos 5) (pos 990) ∷ earn_9_again ∷ spend_30 ∷ []

abbrev batch : ProcessTransactionBatchRequest
batch = record { transactions = elements }

process_transaction_batch-Run_example :
    Run shop.db (process_transaction_batch admin_context batch env shop).1.db
process_transaction_batch-Run_example =
    process_transaction_batch-Run env admin_context batch shop refl

process_transaction_batch-IsValid_example :
    IsValid (process_transaction_batch admin_context batch env shop).1.db
process_transaction_batch-IsValid_example =
    process_transaction_batch-IsValid env admin_context batch shop refl shop_db-IsValid

process_transaction_batch-IsExplained_example :
    IsExplained unposted (process_transaction_batch admin_context batch env shop).1.db
process_transaction_batch-IsExplained_example =
    process_transaction_batch-IsExplained env admin_context batch shop unposted refl shop_db-IsValid
      shop_db-IsExplained

process_transaction_batch-Answers_example :
    Answers (sort_by_time elements) start (process_transaction_batch admin_context batch env shop)
unfolding validate_batch
process_transaction_batch-Answers_example =
    process_transaction_batch-Answers env admin_context batch shop refl

sort_by_time_lem_example :
    IsChronological (sort_by_time elements)
    × ((t : Time) → select (at_time t) (sort_by_time elements) ≡ select (at_time t) elements)
sort_by_time_lem_example = sort_by_time_lem elements

process_transaction_batch-Appends_example :
    Appends 3 shop.db (process_transaction_batch admin_context batch env shop).1.db
process_transaction_batch-Appends_example =
    process_transaction_batch-Appends env admin_context batch shop refl
