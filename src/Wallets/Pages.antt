-- ===== src/Wallets/Pages.antt =====
-- How much of the ledger one call of `List` gives away.
use loyalty_points_app.Prelude.{
  ℕ, zero, suc, leb, not, ◌∙◌, ◌≤◌, ◌<◌, ◌≡◌, refl, false, Option, Option-cases, Bool-cases, inl,
  inr, List, [], ◌∷◌, length, take, ltb, arith, ◌==◌,
}
use loyalty_points_app.Prelude.Int.{ℤ, pos_part}
use loyalty_points_app.Errs.{Error}
use loyalty_points_app.Authentication.Context.{Context}
use loyalty_points_app.Authorization.{is_granted, perm_transaction_read_all}
use loyalty_points_app.Sql.{Result, ok, err, Env, World, Action, pure, exec, query, ◌>>=◌}
use loyalty_points_app.Wallets.Types.{Transaction, ListTransactionsRequest}
use loyalty_points_app.Wallets.Validations.{validate_list}
use loyalty_points_app.Wallets.Repository.{clamp_page_size}
use loyalty_points_app.Wallets.Listing.{
  Base64Library, ListTransactionsResponse, Position, select_transactions, rows_or_error,
  cursor_after, last_of, position_of, page_of, page_after, list,
}

-- A result has the property that every error has and everything that the last action gives.
>>=-Holds :
    {A B : Type 0} (P : Result B → Type 0) (m : Action A) (k : A → Action B) (e : Env) (w : World)
    → ((x : Error) → P (err x))
    → ((a : A) (v : World) → P (k a e v).0)
    → P ((m >>= k) e w).0
>>=-Holds {A} P m k e w fails goes_on = after (m e w)
  where
    after : (z : Result A × World) → P (((λ _ _. z) >>= k) e w).0
    after (ok a, v) = goes_on a v
    after (err x, v) = fails x

length-take-le : (n : ℕ) (ts : List Transaction) → length (take n ts) ≤ n
length-take-le zero ts = omega arith
length-take-le (suc n) [] = omega arith
length-take-le (suc n) (t ∷ ts) = omega (arith, length-take-le n ts)

length-take-eq : (n : ℕ) (ts : List Transaction) → n < length ts → length (take n ts) ≡ n
length-take-eq zero ts h = refl
length-take-eq (suc n) [] h = absurd (omega arith)
length-take-eq (suc n) (t ∷ ts) h = omega (arith, length-take-eq n ts)

-- At most so many rows, and exactly so many where a further page is announced.
abbrev Sized : ℕ → Result ListTransactionsResponse → Type 0
Sized limit (err x) = Unit
Sized limit (ok resp) =
    (length resp.transactions ≤ limit)
    × ((resp.next_cursor == "") ≡ false → length resp.transactions ≡ limit)

-- The page of a request for so many rows: fifty, where it asks for none, and two hundred at most.
abbrev pub IsPage : ℤ → Result ListTransactionsResponse → Type 0
IsPage asked (err x) = Unit
IsPage asked (ok resp) =
    (length resp.transactions ≤ 200)
    × (pos_part asked ≡ 0 → length resp.transactions ≤ 50)
    × (1 ≤ pos_part asked → length resp.transactions ≤ pos_part asked)
    × ((resp.next_cursor == "") ≡ false
        → (pos_part asked ≡ 0 → length resp.transactions ≡ 50)
          × (1 ≤ pos_part asked → pos_part asked ≤ 200 → length resp.transactions ≡ pos_part asked)
          × (200 ≤ pos_part asked → length resp.transactions ≡ 200))

clamp_page_size_none : (n : ℤ) → pos_part n ≡ 0 → pos_part (clamp_page_size n) ≡ 50
unfolding clamp_page_size
clamp_page_size_none n h = ground arith

clamp_page_size_some :
    (n : ℤ) → 1 ≤ pos_part n → pos_part n ≤ 200 → pos_part (clamp_page_size n) ≡ pos_part n
unfolding clamp_page_size
clamp_page_size_some n h k = ground arith

clamp_page_size_many : (n : ℤ) → 200 ≤ pos_part n → pos_part (clamp_page_size n) ≡ 200
unfolding clamp_page_size
clamp_page_size_many n h = ground arith

clamp_page_size_bound : (n : ℤ) → pos_part (clamp_page_size n) ≤ 200
unfolding clamp_page_size
clamp_page_size_bound n = ground arith

IsPage-Sized :
    (n : ℤ) (r : Result ListTransactionsResponse)
    → Sized (pos_part (clamp_page_size n)) r
    → IsPage n r
IsPage-Sized n (err x) h = tt
IsPage-Sized n (ok resp) (most, full) = (
  omega (arith, clamp_page_size_bound n),
  λ h. omega (arith, clamp_page_size_none n h),
  λ h. below h,
  λ more. (
    λ h. full more ∙ clamp_page_size_none n h,
    λ h k. full more ∙ clamp_page_size_some n h k,
    λ h. full more ∙ clamp_page_size_many n h,
  ),
)
  where
    below : 1 ≤ pos_part n → length resp.transactions ≤ pos_part n
    below h = elim (Bool-cases (leb (pos_part n) 200)) [
      | inl few ↦ omega (arith, clamp_page_size_some n h (ground arith))
      | inr many ↦
          let large : 200 < pos_part n = ground arith in omega (arith, clamp_page_size_bound n)
    ]

module _ (base64 : Base64Library) where
  page_of-Sized :
      (limit : ℕ) (ts : List Transaction) (e : Env) (w : World)
      → Sized limit (page_of base64 limit ts e w).0
  page_of-Sized limit ts e w = elim (Bool-cases (ltb limit (length ts))) [
    | inl more ↦ rw more (
        >>=-Holds (Sized limit) (cursor_after base64 (last_of (take limit ts)))
          (λ next. pure (record { transactions = take limit ts; next_cursor = next })) e w (λ x. tt)
          (λ next v. (length-take-le limit ts, λ _. length-take-eq limit ts (ground arith))))
    | inr all ↦ rw all (ground arith, λ h. absurd (ground arith))
  ]

  page_after-Sized :
      (ctx : Context) (r : ListTransactionsRequest) (p : Option Position) (e : Env) (w : World)
      → Sized (pos_part (clamp_page_size r.page_size)) (page_after base64 ctx r p e w).0
  unfolding page_after
  page_after-Sized ctx r p e w =
      let limit = pos_part (clamp_page_size r.page_size) in
      >>=-Holds (Sized limit)
        (exec (
          query (λ db. take (suc limit) (
            select_transactions e.collates (not (is_granted ctx perm_transaction_read_all))
              r.user_id p db))))
        (λ o. do ts ← rows_or_error o; page_of base64 limit ts) e w (λ x. tt)
        (λ o v.
          >>=-Holds (Sized limit) (rows_or_error o) (page_of base64 limit) e v (λ x. tt)
            (λ ts u. page_of-Sized limit ts e u))

  -- Whatever the caller, the request, its cursor and the failures: a page that List returns has at most
  -- 200 rows, at most as many as were asked for, and at most 50 where the request names no positive number; one that
  -- announces a further page has exactly the least of the number that was asked for and 200, or 50.
  pub list-IsPage :
      (ctx : Context) (r : ListTransactionsRequest) (e : Env) (w : World)
      → IsPage r.page_size (list base64 ctx r e w).0
  unfolding list
  list-IsPage ctx r e w =
      IsPage-Sized r.page_size (list base64 ctx r e w).0 (elim (Option-cases (validate_list r)) [
        | inr (x, invalid) ↦ rw (list, invalid) tt
        | inl valid ↦
            rw (list, valid)
              (>>=-Holds (Sized (pos_part (clamp_page_size r.page_size)))
                (position_of base64 r.cursor) (page_after base64 ctx r) e w (λ x. tt)
                (λ p v. page_after-Sized ctx r p e v))
      ])
