-- ===== src/Wallets/Listing/Whole.antt =====
-- The whole listing, page by page.
use loyalty_points_app.Prelude.{
  ℕ, zero, suc, ◌-◌, ◌<◌, String, ◌≡◌, refl, sym, ap, ◌∙◌, subst, false, true, none, some, Option,
  List, [], ◌∷◌, ◌++◌, All, length, length-append, map, ltb, Bool-cases, inl, inr, arith, ◌==◌,
}
use loyalty_points_app.Authentication.Context.{Context}
use loyalty_points_app.Sql.Schema.{TransactionRow}
use loyalty_points_app.Sql.{Env, World, ok}
use loyalty_points_app.Sql.Atomic.{tick}
use loyalty_points_app.Wallets.Types.{ListTransactionsRequest}
use loyalty_points_app.Wallets.Validations.{validate_list}
use loyalty_points_app.Wallets.Accepts.{IsQuiet}
use loyalty_points_app.Wallets.Listing.{
  Base64Library, Position, encode_transaction_cursor, position_of,
}
use loyalty_points_app.Wallets.Listing.Order.{HasDistinctRefs}
use loyalty_points_app.Wallets.Listing.Suffix.{select_transactions-suffix}
use loyalty_points_app.Wallets.Listing.Page.{IsStamped, shown, found_rows, limit_of}
use loyalty_points_app.Wallets.Listing.Cuts.{append_assoc, cut_lem}
use loyalty_points_app.Wallets.Listing.Walk.{
  walk, Returns, All-right, limit_of_pos, position_of_row, step_last, step_more,
}

module _ (base64 : Base64Library)
    (decodes : (s : String) → base64.decode_string (base64.encode_to_string s) ≡ ok s)
    (encodes : (recorded_at ref : String)
      → (recorded_at == "") ≡ false
      → (encode_transaction_cursor base64 recorded_at ref == "") ≡ false)
    (e : Env) (irreflexive : (s : String) → e.collates s s ≡ false)
    (transitive : (s t u : String)
      → e.collates s t ≡ true
      → e.collates t u ≡ true
      → e.collates s u ≡ true)
    (total : (s t : String) → (s == t) ≡ false → e.collates s t ≡ false → e.collates t s ≡ true)
    (ctx : Context) (r : ListTransactionsRequest) where
  walk_from :
      (n : ℕ) (cursor : String) (p : Option Position) (before rows : List TransactionRow)
      (w : World)
      → validate_list r ≡ none
      → IsQuiet e
      → HasDistinctRefs w.db.transactions
      → position_of base64 cursor e w ≡ (ok p, w)
      → found_rows ctx r p e w ≡ rows
      → found_rows ctx r none e w ≡ before ++ rows
      → All (IsStamped e) rows
      → length rows < n
      → Returns base64 ctx r (map (shown e) rows) w (walk base64 ctx r n cursor e w)
  walk_from zero cursor p before rows w valid quiet distinct position found whole stamped enough =
      absurd (omega (arith, enough))
  walk_from (suc n) cursor p before rows w valid quiet distinct position found whole stamped
        enough =
      elim (Bool-cases (ltb (limit_of r) (length rows))) [
        | inr short ↦
            step_last base64 decodes encodes e irreflexive transitive total ctx r n cursor p rows w
              valid quiet position found stamped short
        | inl long ↦
            let limit = limit_of_pos r in
            let (a, s, t, b, cut, size) = cut_lem (limit_of r - 1) rows (ground arith) in
            let stamped' = subst (All (IsStamped e)) cut stamped in
            let stamp = All-right (IsStamped e) a (s ∷ t ∷ b) stamped' in
            let whole' =
              whole ∙ ap (λ x. before ++ x) cut ∙ sym (append_assoc before a (s ∷ t ∷ b)) in
            subst
              (λ x. Returns base64 ctx r (map (shown e) x) w (walk base64 ctx r (suc n) cursor e w))
              (sym cut)
              (step_more base64 decodes encodes e irreflexive transitive total ctx r n cursor p a s
                t b w valid quiet position (found ∙ cut) stamped' (limit ∙ ap suc (sym size))
                (walk_from n (encode_transaction_cursor base64 s.recorded_at s.ref)
                  (some (s.recorded_at, s.ref)) ((before ++ a) ++ s ∷ []) (t ∷ b) (tick w) valid
                  quiet distinct
                  (position_of_row base64 decodes encodes e irreflexive transitive total ctx r s
                    (tick w) stamp.0)
                  (select_transactions-suffix e.collates irreflexive transitive total _ r.user_id
                    w.db (before ++ a) s (t ∷ b) distinct whole')
                  (whole' ∙ sym (append_assoc (before ++ a) (s ∷ []) (t ∷ b))) stamp.1
                  (fewer a s t b rows n cut enough)))
      ]
    where
      fewer :
          (a : List TransactionRow) (s t : TransactionRow) (b rows : List TransactionRow) (n : ℕ)
          → rows ≡ a ++ s ∷ t ∷ b
          → length rows < suc n
          → length (t ∷ b) < n
      fewer a s t b rows n cut enough =
          let size = ap length cut in let sum = length-append a (s ∷ t ∷ b) in ground arith

  -- Following the cursors terminates and loses nothing: where no statement fails, the texts' order is
  -- strict and total, base64 decodes what it encodes and no cursor is empty, refs are distinct and
  -- the rows that the caller may list are stamped, a valid request that is followed from page to page
  -- returns, within one page more than there are such rows, exactly the rows of the one query without
  -- a cursor, each once, in the order of that query, whatever the page size.
  pub walk-Returns :
      (fuel : ℕ) (w : World)
      → validate_list r ≡ none
      → IsQuiet e
      → HasDistinctRefs w.db.transactions
      → All (IsStamped e) (found_rows ctx r none e w)
      → length (found_rows ctx r none e w) < fuel
      → Returns base64 ctx r
          (map (shown e) (found_rows ctx r none e w))
          w
          (walk base64 ctx r fuel "" e w)
  walk-Returns fuel w valid quiet distinct stamped enough =
      walk_from fuel "" none [] (found_rows ctx r none e w) w valid quiet distinct refl refl refl
        stamped enough
