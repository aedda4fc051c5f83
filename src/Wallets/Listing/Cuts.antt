-- ===== src/Wallets/Listing/Cuts.antt =====
-- A page as a cut of the rows that were found.
use loyalty_points_app.Prelude.{
  ℕ, zero, suc, ◌<◌, ◌≡◌, refl, ap, false, true, List, [], ◌∷◌, ◌++◌, length, length-append, take,
  map, ltb, arith,
}
use loyalty_points_app.Sql.Schema.{TransactionRow}
use loyalty_points_app.Sql.{Env, World, ok}
use loyalty_points_app.Wallets.Types.{Transaction}
use loyalty_points_app.Wallets.Listing.{Base64Library, encode_transaction_cursor, page_of}
use loyalty_points_app.Wallets.Listing.Page.{IsStamped, shown, last_of_lem}

module _ {A : Type 0} where
  take_whole : (n : ℕ) (xs : List A) → ltb n (length xs) ≡ false → take (suc n) xs ≡ xs
  take_whole n [] h = refl
  take_whole zero (x ∷ xs) h = ground arith
  take_whole (suc n) (x ∷ xs) h = ap (λ r. x ∷ r) (take_whole n xs (ground arith))

  take_one : (a : List A) (s : A) (b : List A) → take (suc (length a)) (a ++ s ∷ b) ≡ a ++ s ∷ []
  take_one [] s b = refl
  take_one (x ∷ a) s b = ap (λ r. x ∷ r) (take_one a s b)

  take_two :
      (a : List A) (s t : A) (b : List A)
      → take (suc (suc (length a))) (a ++ s ∷ t ∷ b) ≡ a ++ s ∷ t ∷ []
  take_two [] s t b = refl
  take_two (x ∷ a) s t b = ap (λ r. x ∷ r) (take_two a s t b)

  pub append_assoc : (a b c : List A) → (a ++ b) ++ c ≡ a ++ (b ++ c)
  append_assoc [] b c = refl
  append_assoc (x ∷ a) b c = ap (λ r. x ∷ r) (append_assoc a b c)

  -- A list of more than `k + 1` elements, cut after the first `k + 1`.
  pub cut_lem :
      (k : ℕ) (xs : List A)
      → suc k < length xs
      → (a : List A) × (s : A) × (t : A) × (b : List A) × (xs ≡ a ++ s ∷ t ∷ b) × (length a ≡ k)
  cut_lem k [] h = absurd (omega (arith, h))
  cut_lem k (x ∷ []) h = absurd (omega (arith, h))
  cut_lem zero (x ∷ y ∷ xs) h = ([], x, y, xs, refl, refl)
  cut_lem (suc k) (x ∷ y ∷ xs) h =
      let (a, s, t, b, cut, size) = cut_lem k (y ∷ xs) (omega (arith, h)) in
      (x ∷ a, s, t, b, ap (λ r. x ∷ r) cut, ap suc size)

module _ {A B : Type 0} (f : A → B) where
  pub map-append : (a b : List A) → map f (a ++ b) ≡ map f a ++ map f b
  map-append [] b = refl
  map-append (x ∷ a) b = ap (λ r. f x ∷ r) (map-append a b)

  length-map : (a : List A) → length (map f a) ≡ length a
  length-map [] = refl
  length-map (x ∷ a) = ap suc (length-map a)

module _ (base64 : Base64Library) where
  -- No further row: the page is all that was found, and there is no cursor.
  pub page_of_last :
      (limit : ℕ) (e : Env) (rows : List TransactionRow) (w : World)
      → ltb limit (length rows) ≡ false
      → page_of base64 limit (map (shown e) (take (suc limit) rows)) e w
        ≡ (ok (record { transactions = map (shown e) rows; next_cursor = "" }), w)
  page_of_last limit e rows w short =
      rw (take_whole limit rows short, length-map (shown e) rows, short) refl

  -- A further row: the page ends at the row that the cursor names.
  pub page_of_more :
      (e : Env) (a : List TransactionRow) (s t : TransactionRow) (b : List TransactionRow)
      (w : World)
      → IsStamped e s
      → page_of base64
          (suc (length a))
          (map (shown e) (take (suc (suc (length a))) (a ++ s ∷ t ∷ b)))
          e
          w
        ≡ (
          ok (record {
            transactions = map (shown e) (a ++ s ∷ []);
            next_cursor = encode_transaction_cursor base64 s.recorded_at s.ref;
          }),
          w,
        )
  page_of_more e a s t b w stamped =
      let m = map (shown e) a in
      let x = shown e s in
      let y = shown e t in
      let parsed = stamped.recorded_parses in
      let printed = stamped.recorded_prints in
      rw
        (
          take_two a s t b,
          map-append (shown e) a (s ∷ t ∷ []),
          map-append (shown e) a (s ∷ []),
          ← length-map (shown e) a,
          take_one m x (y ∷ []),
          last_of_lem m x,
          longer m x y,
        )
        (ground arith)
    where
      longer :
          (m : List Transaction) (x y : Transaction)
          → ltb (suc (length m)) (length (m ++ x ∷ y ∷ [])) ≡ true
      longer m x y = ground (arith, length-append m (x ∷ y ∷ []))
