-- ===== src/Accounts/Credit.antt =====
-- What one `UpdateAccountBalance` does to the account that it names.
use loyalty_points_app.Prelude.{
  suc, String, ◌≡◌, refl, sym, ap, subst, ◌∙◌, Bool, true, false, not, ◌⊎◌, inl, inr, Bool-cases,
  Option, Option-cases, is_some, ◌||◌, none, some, List, [], ◌∷◌, find, update_where, arith, eq_iff,
  ◌==◌, ◌<◌,
}
use loyalty_points_app.Prelude.Int.{ℤ, pos, ◌+ℤ◌, ◌≤ℤ◌, in_int64}
use loyalty_points_app.Authentication.Context.{Context}
use loyalty_points_app.Authorization.{is_granted, perm_account_write_all}
use loyalty_points_app.Sql.Schema.{Db, AccountRow}
use loyalty_points_app.Sql.{Env, World, Result, ok, err}
use loyalty_points_app.Accounts.Types.{UpdateAccountBalanceRequest}
use loyalty_points_app.Accounts.Repository.{
  find_account, has_account, update_account_balance, add_to_rows, affected_rows, can_apply,
}
use loyalty_points_app.Accounts.Rows.{DistinctIds}
use loyalty_points_app.Accounts.Located.{affected_rows-absent, overflows-located}
use loyalty_points_app.Accounts.Effects.{Applied, add_to_rows_none}

abbrev pub row_of : String → List AccountRow → Option AccountRow
row_of id rows = find (λ r. r.id == id) rows

abbrev pub with_balance : String → ℤ → List AccountRow → List AccountRow
with_balance id b rows = update_where (λ r. r.id == id) (λ r. record r { balance = b }) rows

-- The account of the request, the caller's own where the update is scoped, has its balance moved by the
-- delta to one that is neither negative nor out of range; nothing else is touched.
abbrev pub IsCredit : Bool → UpdateAccountBalanceRequest → Db → ℤ → Db → Type 0
IsCredit scoped r db b db' =
    (row : AccountRow) × (row_of r.account_id db.accounts ≡ some row)
    × (scoped ≡ true → row.owner_id ≡ r.user_id)
    × (b ≡ row.balance +ℤ r.delta)
    × (pos 0 ≤ℤ b)
    × (in_int64 b ≡ true)
    × (db' ≡ record db { accounts = with_balance r.account_id b db.accounts })

with_balance-absent :
    (id : String) (b : ℤ) (rows : List AccountRow)
    → has_account id rows ≡ false
    → with_balance id b rows ≡ rows
unfolding has_account
with_balance-absent id b [] h = refl
with_balance-absent id b (r ∷ rows) h = ground (arith, with_balance-absent id b rows)

row_of-with_balance :
    (id : String) (b : ℤ) (row : AccountRow) (rows : List AccountRow)
    → row_of id rows ≡ some row
    → row_of id (with_balance id b rows) ≡ some (record row { balance = b })
row_of-with_balance id b row [] h = ground arith
row_of-with_balance id b row (r ∷ rows) h = ground (arith, row_of-with_balance id b row rows)

module _ (scoped : Bool) (delta : ℤ) (id u : String) where
  -- The row that an update reaches.
  reached :
      (rows : List AccountRow)
      → DistinctIds rows
      → 0 < affected_rows scoped delta id u rows
      → (row : AccountRow) × (row_of id rows ≡ some row) × (can_apply scoped delta id u row ≡ true)
  unfolding affected_rows
  reached [] d h = absurd (omega arith)
  reached (r ∷ rows) d h = elim (Bool-cases (r.id == id)) [
    | inr other ↦
        let (row, found, fits) = reached rows d.1 (ground arith) in (row, rw other found, fits)
    | inl named ↦ elim (Bool-cases (can_apply scoped delta id u r)) [
      | inl fits ↦ (r, rw named refl, fits)
      | inr stays ↦
          let none_else =
            affected_rows-absent id scoped delta u rows (rw (← (eq_iff r.id id).0 named) d.0) in
          absurd (ground arith)
    ]
  ]

  add_to_rows-with_balance :
      (row : AccountRow) (rows : List AccountRow)
      → DistinctIds rows
      → row_of id rows ≡ some row
      → can_apply scoped delta id u row ≡ true
      → add_to_rows scoped delta id u rows ≡ with_balance id (row.balance +ℤ delta) rows
  unfolding add_to_rows
  add_to_rows-with_balance row [] d h fits = refl
  add_to_rows-with_balance row (r ∷ rows) d h fits = ground (
    arith,
    eq_iff r.id id,
    affected_rows-absent id scoped delta u rows,
    add_to_rows_none scoped delta id u rows,
    with_balance-absent id (row.balance +ℤ delta) rows,
    add_to_rows-with_balance row rows,
  )

find_account-row_of :
    (id : String) (rows : List AccountRow) → find_account false id "" rows ≡ row_of id rows
unfolding find_account
find_account-row_of id [] = refl
find_account-row_of id (r ∷ rows) = ground (arith, find_account-row_of id rows)

Applied-IsCredit :
    (scoped : Bool) (r : UpdateAccountBalanceRequest) (db db' : Db)
    → DistinctIds db.accounts
    → Applied scoped r db db'
    → (b : ℤ) × IsCredit scoped r db b db'
Applied-IsCredit scoped r db db' distinct (same, reach, fits) =
    let (row, found, applies) =
      reached scoped r.delta r.account_id r.user_id db.accounts distinct reach in
    let in_range =
      overflows-located false r.account_id "" row r.delta db.accounts distinct
        (find_account-row_of r.account_id db.accounts ∙ found) in
    (
      row.balance +ℤ r.delta,
      (
        row,
        found,
        λ own. (eq_iff row.owner_id r.user_id).0 (ground arith),
        refl,
        ground arith,
        ground arith,
        same
            ∙ ap (λ rows. record db { accounts = rows })
                (add_to_rows-with_balance scoped r.delta r.account_id r.user_id row db.accounts
                  distinct found applies),
      ),
    )

-- The balance that is read after a credit.
IsCredit-read :
    (scoped : Bool) (r : UpdateAccountBalanceRequest) (db db' : Db) (b : ℤ)
    → IsCredit scoped r db b db'
    → (row : AccountRow) × (find_account false r.account_id "" db'.accounts
        ≡ some (record row { balance = b }))
IsCredit-read scoped r db db' b (row, found, own, sum, positive, in_range, same) = (
  row,
  find_account-row_of r.account_id db'.accounts
      ∙ ap (λ (d : Db). row_of r.account_id d.accounts) same
      ∙ row_of-with_balance r.account_id b row db.accounts found,
)

abbrev balance_of : Option AccountRow → Option ℤ
balance_of none = none
balance_of (some row) = some row.balance

-- The balance that is returned is the one that is read; and where an error comes after the update, the
-- read has failed or found nothing.
abbrev Reports : UpdateAccountBalanceRequest → Bool → Env → World → Result ℤ × World → Type 0
Reports r scoped e w (ok b, w') =
    Applied scoped r w.db w'.db
    × (balance_of (find_account false r.account_id "" w'.db.accounts) ≡ some b)
Reports r scoped e w (err x, w') =
    (w'.db ≡ w.db)
    ⊎ (Applied scoped r w.db w'.db
        × ((is_some (e.fault (suc w.calls))
              || not (is_some (find_account false r.account_id "" w'.db.accounts)))
            ≡ true))

update_account_balance-Reports :
    (ctx : Context) (r : UpdateAccountBalanceRequest) (e : Env) (w : World)
    → Reports r (not (is_granted ctx perm_account_write_all)) e w (update_account_balance ctx r e w)
unfolding update_account_balance
update_account_balance-Reports ctx r e w =
    let scoped = not (is_granted ctx perm_account_write_all) in
    ground (arith, add_to_rows_none scoped r.delta r.account_id r.user_id w.db.accounts)

-- What an update does, by its result.
abbrev pub Credits : Bool → UpdateAccountBalanceRequest → Env → World → Result ℤ × World → Type 0
Credits scoped r e w (ok b, w') = IsCredit scoped r w.db b w'.db
Credits scoped r e w (err x, w') =
    (w'.db ≡ w.db)
    ⊎ (((b : ℤ) × IsCredit scoped r w.db b w'.db)
        × ((t : String) × (e.fault (suc w.calls) ≡ some t)))

Reports-Credits :
    (scoped : Bool) (r : UpdateAccountBalanceRequest) (e : Env) (w : World) (z : Result ℤ × World)
    → DistinctIds w.db.accounts
    → Reports r scoped e w z
    → Credits scoped r e w z
Reports-Credits scoped r e w (ok b, w') distinct (applied, answer) =
    let (c, credit) = Applied-IsCredit scoped r w.db w'.db distinct applied in
    let (row, found) = IsCredit-read scoped r w.db w'.db c credit in
    let same : some c ≡ some b = sym (ap balance_of found) ∙ answer in
    let equal : c ≡ b = ground arith in subst (λ k. IsCredit scoped r w.db k w'.db) equal credit
Reports-Credits scoped r e w (err x, w') distinct (inl kept) = inl kept
Reports-Credits scoped r e w (err x, w') distinct (inr (applied, after)) =
    let (c, credit) = Applied-IsCredit scoped r w.db w'.db distinct applied in
    let (row, found) = IsCredit-read scoped r w.db w'.db c credit in
    elim (Option-cases (e.fault (suc w.calls))) [
      | inr failed ↦ inr ((c, credit), failed)
      | inl quiet ↦ let wrong = rw (quiet, found) at after in absurd (ground arith)
    ]

-- In tables with distinct account ids, an update that returns a balance has found the account of the
-- request, which belongs to the caller where he may not write to all accounts; the balance is the old
-- one plus the delta, neither negative nor out of an int64's range, it is stored in that account, and
-- nothing else has changed. One that returns an error has changed nothing, or has done the same and
-- the driver failed at the read of the new balance.
pub update_account_balance-Credits :
    (ctx : Context) (r : UpdateAccountBalanceRequest) (e : Env) (w : World)
    → DistinctIds w.db.accounts
    → Credits (not (is_granted ctx perm_account_write_all)) r e w (update_account_balance ctx r e w)
update_account_balance-Credits ctx r e w distinct =
    Reports-Credits (not (is_granted ctx perm_account_write_all)) r e w
      (update_account_balance ctx r e w) distinct (update_account_balance-Reports ctx r e w)
