-- ===== src/Wallets/Listing.antt =====
-- `List` of internal/pkg/wallets/transactionRepositoryImpl.go, with its cursor.
pub mod Order
pub mod Suffix
pub mod Cursor
pub mod Page
pub mod Cuts
pub mod Walk
pub mod Whole
use Prim.Native.Char.{nul, code}
use loyalty_points_app.Prelude.{
  ℕ, suc, String, Bool, true, not, ◌&&◌, ◌||◌, Option, none, some, List, [], ◌∷◌, length, take,
  select, concat, ltb, ◌==◌, if◌then◌else◌,
}
use loyalty_points_app.Prelude.Int.{ℤ, pos_part}
use loyalty_points_app.Prelude.Texts.{split_first}
use loyalty_points_app.Errs.{wrapped, sentinel, invalid_argument}
use loyalty_points_app.Authentication.Context.{Context}
use loyalty_points_app.Authorization.{is_granted, perm_transaction_read_all}
use loyalty_points_app.Sql.Schema.{Db, TransactionRow}
use loyalty_points_app.Sql.{
  Time, Result, ok, err, ask, Action, branch, pure, raise, check, try, lift, format_time,
  parse_time, Outcome, done, failed, exec, query, sql_error, ◌>>=◌,
}
use loyalty_points_app.Wallets.Types.{Transaction, ListTransactionsRequest}
use loyalty_points_app.Wallets.Validations.{validate_list}
use loyalty_points_app.Wallets.Repository.{scan_transaction, clamp_page_size}

-- `base64.URLEncoding`
pub record Base64Library : Type 0 where
  pub encode_to_string : String → String
  pub decode_string : String → Result String

pub record ListTransactionsResponse : Type 0 where
  pub transactions : List Transaction
  -- empty on the last page
  pub next_cursor : String

-- `"\x00"`
abbrev pub transaction_cursor_separator : String
transaction_cursor_separator = String.◌∷◌ nul ""

-- Where a page ends: the stored time and the ref of its last row.
abbrev pub Position : Type 0
Position = String × String

-- `ORDER BY recorded_at DESC, ref`, in the order of the server's text columns.
abbrev pub precedes : (String → String → Bool) → TransactionRow → TransactionRow → Bool
precedes collates r s =
    if r.recorded_at == s.recorded_at
    then collates r.ref s.ref
    else collates s.recorded_at r.recorded_at

abbrev pub insert_row :
    (String → String → Bool) → TransactionRow → List TransactionRow → List TransactionRow
insert_row collates r [] = r ∷ []
insert_row collates r (s ∷ rows) =
    let rest = insert_row collates r rows in
    if precedes collates s r then s ∷ rest else r ∷ s ∷ rows

unfoldable pub order_rows : (String → String → Bool) → List TransactionRow → List TransactionRow
order_rows collates [] = []
order_rows collates (r ∷ rows) = insert_row collates r (order_rows collates rows)

-- `recorded_at < $n OR (recorded_at = $n AND ref > $m)`, where there is a cursor.
unfoldable pub is_after : (String → String → Bool) → Option Position → TransactionRow → Bool
is_after collates none r = true
is_after collates (some (recorded_at, ref)) r =
    collates r.recorded_at recorded_at || (r.recorded_at == recorded_at && collates ref r.ref)

-- `owner_id = $1`, where the query is scoped
abbrev pub owned_by : Bool → String → TransactionRow → Bool
owned_by scoped user_id r = not scoped || r.owner_id == user_id

-- The rows that the WHERE clause selects, in the order of the query.
unfoldable pub select_transactions :
    (String → String → Bool) → Bool → String → Option Position → Db → List TransactionRow
select_transactions collates scoped user_id cursor db =
    order_rows collates
      (select (λ r. owned_by scoped user_id r && is_after collates cursor r) db.transactions)

-- `for rows.Next()`
unfoldable pub scan_transactions : List TransactionRow → Action (List Transaction)
unfolding scan_transaction
scan_transactions [] = pure []
scan_transactions (r ∷ rs) = do
  transaction ← scan_transaction r
  transactions ← scan_transactions rs
  pure (transaction ∷ transactions)

abbrev pub rows_or_error : Outcome (List TransactionRow) → Action (List Transaction)
rows_or_error (done rows) = scan_transactions rows
rows_or_error (failed x) = do e ← sql_error x; raise (wrapped "could not query transactions" e)

abbrev pub last_of : List Transaction → Option Transaction
last_of [] = none
last_of (t ∷ []) = some t
last_of (t ∷ u ∷ ts) = last_of (u ∷ ts)

module _ (base64 : Base64Library) where
  unfoldable pub encode_transaction_cursor : String → String → String
  encode_transaction_cursor recorded_at ref =
      base64.encode_to_string (concat recorded_at (concat transaction_cursor_separator ref))

  abbrev pub malformed : {A : Type 0} → String → Action A
  malformed message = raise (wrapped message (sentinel invalid_argument))

  abbrev pub check_time : Position → Result Time → Action Position
  check_time position (ok t) = pure position
  check_time position (err x) = malformed "malformed cursor timestamp"

  abbrev pub check_parts : Option Position → Action Position
  check_parts none = malformed "malformed cursor"
  check_parts (some (recorded_at, ref)) =
      branch (recorded_at == "" || ref == "") (malformed "malformed cursor")
        do parsed ← try (parse_time recorded_at); check_time (recorded_at, ref) parsed

  abbrev pub check_decoded : Result String → Action Position
  check_decoded (ok raw) = check_parts (split_first (code nul) raw)
  check_decoded (err x) = malformed "decode cursor"

  unfoldable pub decode_transaction_cursor : String → Action Position
  decode_transaction_cursor cursor = check_decoded (base64.decode_string cursor)

  -- No cursor: from the first row.
  abbrev pub position_of : String → Action (Option Position)
  position_of cursor =
      branch (cursor == "") (pure none)
        do position ← decode_transaction_cursor cursor; pure (some position)

  abbrev pub cursor_after : Option Transaction → Action String
  cursor_after none = pure ""
  cursor_after (some last) = do
    recorded_at ← format_time last.recorded_at
    pure (encode_transaction_cursor recorded_at last.ref)

  -- The extra row says that there is a further page.
  abbrev pub page_of : ℕ → List Transaction → Action ListTransactionsResponse
  page_of limit transactions =
      branch (ltb limit (length transactions))
        (do
          next_cursor ← cursor_after (last_of (take limit transactions))
          pure (record { transactions = take limit transactions; next_cursor = next_cursor }))
        (pure (record { transactions = transactions; next_cursor = "" }))

  -- The query from a position on, and its page.
  unfoldable pub page_after :
      Context → ListTransactionsRequest → Option Position → Action ListTransactionsResponse
  page_after ctx request cursor = do
    let scoped = not (is_granted ctx perm_transaction_read_all)
    let limit = pos_part (clamp_page_size request.page_size)
    e ← ask
    o ← exec (
        query (λ db.
          take (suc limit) (select_transactions e.collates scoped request.user_id cursor db)))
    transactions ← rows_or_error o
    page_of limit transactions

  unfoldable pub list : Context → ListTransactionsRequest → Action ListTransactionsResponse
  list ctx request =
      check "invalid request for List" (validate_list request)
        do cursor ← position_of request.cursor; page_after ctx request cursor
