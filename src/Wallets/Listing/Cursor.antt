-- ===== src/Wallets/Listing/Cursor.antt =====
-- The cursor, written and read back.
use Prim.Native.Char.{nul, code}
use loyalty_points_app.Prelude.{String, ◌≡◌, false, arith, concat, ◌==◌}
use loyalty_points_app.Prelude.Texts.{has_char, split_first-concat}
use loyalty_points_app.Sql.{Time, Env, World, ok}
use loyalty_points_app.Wallets.Listing.{
  Base64Library, transaction_cursor_separator, encode_transaction_cursor, decode_transaction_cursor,
}

module _ (base64 : Base64Library)
    (decodes : (s : String) → base64.decode_string (base64.encode_to_string s) ≡ ok s) where
  -- A cursor reads back as the time and the ref that it was written from, where base64 decodes what
  -- it encoded, neither part is empty, the time parses and holds no NUL.
  pub decode_transaction_cursor-encode_transaction_cursor :
      (recorded_at ref : String) (t : Time) (e : Env) (w : World)
      → (recorded_at == "") ≡ false
      → (ref == "") ≡ false
      → has_char (code nul) recorded_at ≡ false
      → e.parse_time recorded_at ≡ ok t
      → decode_transaction_cursor base64 (encode_transaction_cursor base64 recorded_at ref) e w
        ≡ (ok (recorded_at, ref), w)
  unfolding encode_transaction_cursor decode_transaction_cursor
  decode_transaction_cursor-encode_transaction_cursor recorded_at ref t e w timed named plain
        parses =
      let raw = concat recorded_at (concat transaction_cursor_separator ref) in
      let parts = split_first-concat nul recorded_at ref plain in
      rw (decodes raw, parts) (ground arith)
