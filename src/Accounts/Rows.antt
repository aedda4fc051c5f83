-- ===== src/Accounts/Rows.antt =====
-- The balance update, row by row: what it keeps of the account table.
use loyalty_points_app.Prelude.{
  String, ◌≡◌, refl, Bool, true, false, inl, inr, Bool-cases, List, [], ◌∷◌, All, arith,
}
use loyalty_points_app.Prelude.Int.{ℤ, pos, ◌≤ℤ◌, in_int64}
use loyalty_points_app.Sql.Schema.{AccountRow}
use loyalty_points_app.Accounts.Repository.{
  has_account, overflows, add_to_rows, can_apply, add_balance,
}

-- No two accounts have the same id.
abbrev pub DistinctIds : List AccountRow → Type 0
DistinctIds [] = Unit
DistinctIds (r ∷ rows) = (has_account r.id rows ≡ false) × DistinctIds rows

-- A balance that the overdraft rule and the column's type allow.
abbrev pub IsFunded : AccountRow → Type 0
IsFunded r = (pos 0 ≤ℤ r.balance) × (in_int64 r.balance ≡ true)

module _ (scoped : Bool) (delta : ℤ) (id user_id : String) where
  pub has_account-add_to_rows :
      (k : String) (rows : List AccountRow)
      → has_account k (add_to_rows scoped delta id user_id rows) ≡ has_account k rows
  unfolding has_account add_to_rows
  has_account-add_to_rows k [] = refl
  has_account-add_to_rows k (r ∷ rows) = ground (arith, has_account-add_to_rows k rows)

  pub DistinctIds-add_to_rows :
      (rows : List AccountRow)
      → DistinctIds rows
      → DistinctIds (add_to_rows scoped delta id user_id rows)
  unfolding add_to_rows
  DistinctIds-add_to_rows [] h = tt
  DistinctIds-add_to_rows (r ∷ rows) h =
      ground (arith, DistinctIds-add_to_rows rows h.1, has_account-add_to_rows r.id rows)

  pub IsFunded-add_to_rows :
      (rows : List AccountRow)
      → overflows delta id rows ≡ false
      → All IsFunded rows
      → All IsFunded (add_to_rows scoped delta id user_id rows)
  unfolding add_to_rows overflows
  IsFunded-add_to_rows [] o h = tt
  IsFunded-add_to_rows (r ∷ rows) o h = ground (arith, IsFunded-add_to_rows rows)

  -- What does not depend on the balance is kept.
  pub All-add_to_rows {κ} :
      (P : AccountRow → Type κ)
      → ((r : AccountRow) → P r → P (add_balance delta r))
      → (rows : List AccountRow) → All P rows
      → All P (add_to_rows scoped delta id user_id rows)
  unfolding add_to_rows
  All-add_to_rows P f [] h = tt
  All-add_to_rows P f (r ∷ rows) h = elim (Bool-cases (can_apply scoped delta id user_id r)) [
    | inl yes_row ↦ rw yes_row (f r h.0, All-add_to_rows P f rows h.1)
    | inr no_row ↦ rw no_row (h.0, All-add_to_rows P f rows h.1)
  ]
