-- ===== src/Wallets/Listing/Page.antt =====
-- One page of `List`, where the statement does not fail.
use Prim.Native.Char.{nul, code}
use loyalty_points_app.Prelude.{
  ℕ, suc, ◌≡◌, refl, ◌∙◌, false, not, Option, none, some, List, [], ◌∷◌, ◌++◌, All, take, map,
  arith, ◌==◌,
}
use loyalty_points_app.Prelude.Int.{pos, pos_part}
use loyalty_points_app.Prelude.Texts.{has_char}
use loyalty_points_app.Authentication.Context.{Context}
use loyalty_points_app.Authorization.{is_granted, perm_transaction_read_all}
use loyalty_points_app.Sql.Schema.{TransactionRow}
use loyalty_points_app.Sql.{Time, Result, ok, err, Env, World, >>=_ok, pure, ◌>>=◌}
use loyalty_points_app.Sql.Atomic.{tick}
use loyalty_points_app.Wallets.Types.{Transaction, ListTransactionsRequest}
use loyalty_points_app.Wallets.Validations.{validate_list}
use loyalty_points_app.Wallets.Repository.{scan_transaction, clamp_page_size}
use loyalty_points_app.Wallets.Listing.{
  Base64Library, Position, select_transactions, scan_transactions, last_of, position_of, page_of,
  page_after, list,
}

-- The stored times of a row parse, and the time of the record is printed as it is stored; its parts
-- can stand in a cursor.
pub record IsStamped (e : Env) (r : TransactionRow) : Type 0 where
  pub occurred : Time
  pub occurred_parses : e.parse_time r.occurred_at ≡ ok occurred
  pub recorded : Time
  pub recorded_parses : e.parse_time r.recorded_at ≡ ok recorded
  pub recorded_prints : e.format_time recorded ≡ r.recorded_at
  pub is_timed : (r.recorded_at == "") ≡ false
  pub is_plain : has_char (code nul) r.recorded_at ≡ false
  pub is_named : (r.ref == "") ≡ false

abbrev pub time_or_zero : Result Time → Time
time_or_zero (ok t) = t
time_or_zero (err x) = pos 0

-- A row as the program reads it.
abbrev pub shown : Env → TransactionRow → Transaction
shown e r = record {
  id = r.id;
  ref = r.ref;
  account_id = r.account_id;
  owner_id = r.owner_id;
  kind = r.kind;
  points = r.points;
  occurred_at = time_or_zero (e.parse_time r.occurred_at);
  recorded_at = time_or_zero (e.parse_time r.recorded_at);
  created_by = r.created_by;
}

scan_transaction_lem :
    (e : Env) (r : TransactionRow) (w : World)
    → IsStamped e r
    → scan_transaction r e w ≡ (ok (shown e r), w)
unfolding scan_transaction
scan_transaction_lem e r w h =
    let occurred = h.occurred_parses in let recorded = h.recorded_parses in ground arith

scan_transactions_lem :
    (e : Env) (rows : List TransactionRow) (w : World)
    → All (IsStamped e) rows
    → scan_transactions rows e w ≡ (ok (map (shown e) rows), w)
unfolding scan_transactions
scan_transactions_lem e [] w h = refl
scan_transactions_lem e (r ∷ rows) w h =
    >>=_ok (scan_transaction r) (λ t. do ts ← scan_transactions rows; pure (t ∷ ts)) e w w
      (shown e r) (scan_transaction_lem e r w h.0)
    ∙ >>=_ok (scan_transactions rows) (λ ts. pure (shown e r ∷ ts)) e w w (map (shown e) rows)
        (scan_transactions_lem e rows w h.1)

pub last_of_lem : (a : List Transaction) (t : Transaction) → last_of (a ++ t ∷ []) ≡ some t
last_of_lem [] t = refl
last_of_lem (u ∷ []) t = refl
last_of_lem (u ∷ v ∷ a) t = last_of_lem (v ∷ a) t

-- The rows that the query finds.
abbrev pub found_rows :
    Context → ListTransactionsRequest → Option Position → Env → World → List TransactionRow
found_rows ctx r p e w =
    select_transactions e.collates (not (is_granted ctx perm_transaction_read_all)) r.user_id p w.db

abbrev pub limit_of : ListTransactionsRequest → ℕ
limit_of r = pos_part (clamp_page_size r.page_size)

module _ (base64 : Base64Library) where
  page_after_lem :
      (ctx : Context) (r : ListTransactionsRequest) (p : Option Position) (e : Env) (w : World)
      → e.fault w.calls ≡ none
      → page_after base64 ctx r p e w
        ≡ (scan_transactions (take (suc (limit_of r)) (found_rows ctx r p e w))
              >>= page_of base64 (limit_of r))
            e
            (tick w)
  unfolding page_after
  page_after_lem ctx r p e w quiet = rw (page_after, quiet) refl

  pub list_lem :
      (ctx : Context) (r : ListTransactionsRequest) (p : Option Position) (e : Env) (w : World)
      → validate_list r ≡ none
      → e.fault w.calls ≡ none
      → position_of base64 r.cursor e w ≡ (ok p, w)
      → All (IsStamped e) (take (suc (limit_of r)) (found_rows ctx r p e w))
      → list base64 ctx r e w
        ≡ page_of base64
            (limit_of r)
            (map (shown e) (take (suc (limit_of r)) (found_rows ctx r p e w)))
            e
            (tick w)
  unfolding list
  list_lem ctx r p e w valid quiet found stamped =
      rw (list, valid)
        (>>=_ok (position_of base64 r.cursor) (page_after base64 ctx r) e w w p found
          ∙ page_after_lem ctx r p e w quiet
          ∙ >>=_ok (scan_transactions (take (suc (limit_of r)) (found_rows ctx r p e w)))
              (page_of base64 (limit_of r)) e (tick w) (tick w) _
              (scan_transactions_lem e _ (tick w) stamped))
