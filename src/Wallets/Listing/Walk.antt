-- ===== src/Wallets/Listing/Walk.antt =====
-- A client that follows the cursors of `List` to the end.
use loyalty_points_app.Prelude.{
  ℕ, zero, suc, ◌-◌, String, ◌≡◌, refl, sym, ap, ◌∙◌, subst, false, true, none, some, Option, List,
  [], ◌∷◌, ◌++◌, All, length, take, map, ltb, arith, ◌==◌,
}
use loyalty_points_app.Errs.{plain}
use loyalty_points_app.Authentication.Context.{Context}
use loyalty_points_app.Sql.Schema.{TransactionRow}
use loyalty_points_app.Sql.{Env, World, Result, ok, err, Action, pure, raise, branch, >>=_ok, ◌>>=◌}
use loyalty_points_app.Sql.Atomic.{tick}
use loyalty_points_app.Wallets.Types.{Transaction, ListTransactionsRequest}
use loyalty_points_app.Wallets.Validations.{validate_list}
use loyalty_points_app.Wallets.Repository.{clamp_page_size}
use loyalty_points_app.Wallets.Accepts.{IsQuiet}
use loyalty_points_app.Wallets.Listing.{
  Base64Library, ListTransactionsResponse, Position, decode_transaction_cursor,
  encode_transaction_cursor, position_of, list,
}
use loyalty_points_app.Wallets.Listing.Cursor.{decode_transaction_cursor-encode_transaction_cursor}
use loyalty_points_app.Wallets.Listing.Page.{IsStamped, shown, found_rows, limit_of, list_lem}
use loyalty_points_app.Wallets.Listing.Cuts.{append_assoc, map-append, page_of_last, page_of_more}

All-take : {A : Type 0} (P : A → Type 0) (n : ℕ) (xs : List A) → All P xs → All P (take n xs)
All-take P zero xs h = tt
All-take P (suc n) [] h = tt
All-take P (suc n) (x ∷ xs) h = (h.0, All-take P n xs h.1)

pub All-right : {A : Type 0} (P : A → Type 0) (a b : List A) → All P (a ++ b) → All P b
All-right P [] b h = h
All-right P (x ∷ a) b h = All-right P a b h.1

pub limit_of_pos : (r : ListTransactionsRequest) → limit_of r ≡ suc (limit_of r - 1)
unfolding clamp_page_size
limit_of_pos r = ground arith

module _ (base64 : Base64Library) (ctx : Context) (r : ListTransactionsRequest) where
  abbrev pub at_cursor : String → ListTransactionsRequest
  at_cursor cursor = record r { cursor = cursor }

  -- A page, and what is read from its cursor.
  unfoldable pub follow :
      (String → Action (List Transaction)) → ListTransactionsResponse → Action (List Transaction)
  follow rest_from resp =
      branch (resp.next_cursor == "") (pure resp.transactions)
        do rest ← rest_from resp.next_cursor; pure (resp.transactions ++ rest)

  -- Page after page until there is no cursor, at most as many as the fuel.
  unfoldable pub walk : ℕ → String → Action (List Transaction)
  unfolding follow
  walk zero cursor = raise (plain "too many pages")
  walk (suc n) cursor = list base64 ctx (at_cursor cursor) >>= follow (walk n)

  -- The transactions are returned, and no table changes.
  abbrev pub Returns : List Transaction → World → Result (List Transaction) × World → Type 0
  Returns ts w (ok us, w') = (us ≡ ts) × (w'.db ≡ w.db)
  Returns ts w (err x, w') = ⊥

  Returns-append :
      (xs ts : List Transaction) (e : Env) (w v : World) (z : Result (List Transaction) × World)
      → v.db ≡ w.db
      → Returns ts v z
      → Returns (xs ++ ts) w (((λ _ _. z) >>= λ rest. pure (xs ++ rest)) e v)
  Returns-append xs ts e w v (ok us, w') kept (same, db) = (ap (λ us. xs ++ us) same, db ∙ kept)
  Returns-append xs ts e w v (err x, w') kept h = elim h [ ]

module _ (base64 : Base64Library)
    (decodes : (s : String) → base64.decode_string (base64.encode_to_string s) ≡ ok s)
    (encodes : (recorded_at ref : String)
      → (recorded_at == "") ≡ false
      → (encode_transaction_cursor base64 recorded_at ref == "") ≡ false)
    (e : Env) (irreflexive : (s : String) → e.collates s s ≡ false)
    (transitive : (s t u : String)
      → e.collates s t ≡ true
      → e.collates t u ≡ true
      → e.collates s u ≡ true)
    (total : (s t : String) → (s == t) ≡ false → e.collates s t ≡ false → e.collates t s ≡ true)
    (ctx : Context) (r : ListTransactionsRequest) where
  pub position_of_row :
      (s : TransactionRow) (v : World)
      → IsStamped e s
      → position_of base64 (encode_transaction_cursor base64 s.recorded_at s.ref) e v
        ≡ (ok (some (s.recorded_at, s.ref)), v)
  position_of_row s v h =
      let read_back =
        decode_transaction_cursor-encode_transaction_cursor base64 decodes s.recorded_at s.ref
          h.recorded e v h.is_timed h.is_named h.is_plain h.recorded_parses in
      let named = encodes s.recorded_at s.ref h.is_timed in
      rw named (
        >>=_ok
          (decode_transaction_cursor base64 (encode_transaction_cursor base64 s.recorded_at s.ref))
          (λ p. pure (some p)) e v v (s.recorded_at, s.ref) read_back)

  -- The last page.
  pub step_last :
      (n : ℕ) (cursor : String) (p : Option Position) (rows : List TransactionRow) (w : World)
      → validate_list r ≡ none
      → IsQuiet e
      → position_of base64 cursor e w ≡ (ok p, w)
      → found_rows ctx r p e w ≡ rows
      → All (IsStamped e) rows
      → ltb (limit_of r) (length rows) ≡ false
      → Returns base64 ctx r (map (shown e) rows) w (walk base64 ctx r (suc n) cursor e w)
  unfolding walk follow validate_list
  step_last n cursor p rows w valid quiet position found stamped short =
      let page : ListTransactionsResponse = record {
        transactions = map (shown e) rows;
        next_cursor = "";
      } in
      let answer : list base64 ctx (at_cursor base64 ctx r cursor) e w ≡ (ok page, tick w) =
        list_lem base64 ctx (at_cursor base64 ctx r cursor) p e w valid (quiet w.calls) position (
          All-take (IsStamped e) (suc (limit_of r)) _
            (subst (All (IsStamped e)) (sym found) stamped))
        ∙ rw found (page_of_last base64 (limit_of r) e rows (tick w) short) in
      subst (Returns base64 ctx r (map (shown e) rows) w)
        (sym (
          >>=_ok (list base64 ctx (at_cursor base64 ctx r cursor))
            (follow base64 ctx r (walk base64 ctx r n)) e w (tick w) page answer))
        (refl, refl)

  -- The step from a page that is not the last to the walk from its cursor.
  pub step_more :
      (n : ℕ) (cursor : String) (p : Option Position) (a : List TransactionRow)
      (s t : TransactionRow) (b : List TransactionRow) (w : World)
      → validate_list r ≡ none
      → IsQuiet e
      → position_of base64 cursor e w ≡ (ok p, w)
      → found_rows ctx r p e w ≡ a ++ s ∷ t ∷ b
      → All (IsStamped e) (a ++ s ∷ t ∷ b)
      → limit_of r ≡ suc (length a)
      → Returns base64 ctx r
          (map (shown e) (t ∷ b))
          (tick w)
          (walk base64 ctx r n (encode_transaction_cursor base64 s.recorded_at s.ref) e (tick w))
      → Returns base64 ctx r
          (map (shown e) (a ++ s ∷ t ∷ b))
          w
          (walk base64 ctx r (suc n) cursor e w)
  unfolding walk follow validate_list
  step_more n cursor p a s t b w valid quiet position found stamped limit further =
      let stamp = (All-right (IsStamped e) a (s ∷ t ∷ b) stamped).0 in
      let page : ListTransactionsResponse = record {
        transactions = map (shown e) (a ++ s ∷ []);
        next_cursor = encode_transaction_cursor base64 s.recorded_at s.ref;
      } in
      let answer : list base64 ctx (at_cursor base64 ctx r cursor) e w ≡ (ok page, tick w) =
        list_lem base64 ctx (at_cursor base64 ctx r cursor) p e w valid (quiet w.calls) position (
          All-take (IsStamped e) (suc (limit_of r)) _
            (subst (All (IsStamped e)) (sym found) stamped))
        ∙ rw (found, limit) (page_of_more base64 e a s t b (tick w) stamp) in
      let rejoined =
        sym (map-append (shown e) (a ++ s ∷ []) (t ∷ b))
        ∙ ap (map (shown e)) (append_assoc a (s ∷ []) (t ∷ b)) in
      let named = encodes s.recorded_at s.ref stamp.is_timed in
      let rest = walk base64 ctx r n page.next_cursor e (tick w) in
      let z = ((λ _ _. rest) >>= λ more. pure (page.transactions ++ more)) e (tick w) in
      subst (Returns base64 ctx r (map (shown e) (a ++ s ∷ t ∷ b)) w)
        (sym (
          >>=_ok (list base64 ctx (at_cursor base64 ctx r cursor))
            (follow base64 ctx r (walk base64 ctx r n)) e w (tick w) page answer))
        (rw (follow, named)
          (subst (λ ts. Returns base64 ctx r ts w z) rejoined
            (Returns-append base64 ctx r page.transactions (map (shown e) (t ∷ b)) e w (tick w) rest
              refl further)))
