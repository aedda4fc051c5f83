-- ===== src/Tests/Pages.antt =====
-- A listing in pages.
use loyalty_points_app.Authorization.{is_granted}
use loyalty_points_app.Prelude.Texts.{has_char}
use Prim.Native.String.append as Append
use Prim.Native.String.compare as Compare
use loyalty_points_app.Prelude.{
  String, ◌≡◌, refl, false, none, [], ◌∷◌, map, ◌==◌, true≢false, arith,
}
use loyalty_points_app.Prelude.Int.{pos}
use loyalty_points_app.Sql.Schema.{TransactionRow}
use loyalty_points_app.Sql.{Env, World, ok}
use loyalty_points_app.Wallets.{ListTransactionsRequest, validate_list}
use loyalty_points_app.Wallets.Listing.{
  list, Base64Library, encode_transaction_cursor, decode_transaction_cursor, is_after, order_rows,
  select_transactions,
}
use loyalty_points_app.Wallets.Pages.{IsPage, list-IsPage}
use loyalty_points_app.Wallets.Listing.Cursor.{decode_transaction_cursor-encode_transaction_cursor}
use loyalty_points_app.Wallets.Listing.Page.{IsStamped, shown, found_rows}
use loyalty_points_app.Wallets.Listing.Walk.{walk, Returns}
use loyalty_points_app.Wallets.Listing.Whole.{walk-Returns}
use loyalty_points_app.Tests.Shop.{env, shop, shop_db, ann_context, first_posting}
use loyalty_points_app.Tests.Letters.{
  sorts_before, sorts_before_irrefl, sorts_before_trans, sorts_before_total,
}

abbrev clear_text : Base64Library
clear_text = record { encode_to_string = λ s. s; decode_string = λ s. ok s }

abbrev sorted_env : Env
sorted_env = record env { collates = sorts_before }

abbrev posting : String → TransactionRow
posting ref = record first_posting { id = ref; ref = ref; recorded_at = "2026-01-02T00:00:00Z" }

abbrev three_postings : World
three_postings = record shop {
  db = record shop_db { transactions = posting "r3" ∷ posting "r1" ∷ posting "r2" ∷ [] };
}

-- One row to a page.
abbrev one_by_one : ListTransactionsRequest
one_by_one = record { user_id = "ann"; page_size = pos 1; cursor = "" }

abbrev stamp : (ref : String) → (ref == "") ≡ false → IsStamped sorted_env (posting ref)
unfolding has_char
stamp ref named = record {
  occurred = pos 1000;
  occurred_parses = refl;
  recorded = pos 1000;
  recorded_parses = refl;
  recorded_prints = refl;
  is_timed = refl;
  is_plain = refl;
  is_named = named;
}

clear_text_named :
    (recorded_at ref : String)
    → (recorded_at == "") ≡ false
    → (encode_transaction_cursor clear_text recorded_at ref == "") ≡ false
unfolding encode_transaction_cursor
clear_text_named String.[] ref h = absurd (true≢false h)
clear_text_named (String.◌∷◌ c s) ref h = rw (Append.cons c s _, Compare.cons-nil c _) refl

decode_transaction_cursor-encode_transaction_cursor_example :
    decode_transaction_cursor clear_text
      (encode_transaction_cursor clear_text "2026-01-02T00:00:00Z" "r1")
      env
      shop
    ≡ (ok ("2026-01-02T00:00:00Z", "r1"), shop)
unfolding has_char
decode_transaction_cursor-encode_transaction_cursor_example =
    decode_transaction_cursor-encode_transaction_cursor clear_text (λ s. refl)
      "2026-01-02T00:00:00Z" "r1" (pos 1000) env shop refl refl refl refl

walk-Returns_example :
    Returns clear_text ann_context one_by_one
      (map (shown sorted_env) (found_rows ann_context one_by_one none sorted_env three_postings))
      three_postings
      (walk clear_text ann_context one_by_one 4 "" sorted_env three_postings)
unfolding validate_list select_transactions order_rows is_after is_granted
walk-Returns_example =
    walk-Returns clear_text (λ s. refl) clear_text_named sorted_env sorts_before_irrefl
      sorts_before_trans sorts_before_total ann_context one_by_one 4 three_postings refl (λ n. refl)
      ((refl, (refl, tt)), ((refl, tt), (tt, tt)))
      (stamp "r1" refl, (stamp "r2" refl, (stamp "r3" refl, tt))) (omega arith)

list-IsPage_example :
    IsPage (pos 1) (list clear_text ann_context one_by_one sorted_env three_postings).0
list-IsPage_example = list-IsPage clear_text ann_context one_by_one sorted_env three_postings
