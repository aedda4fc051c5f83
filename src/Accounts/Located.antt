-- ===== src/Accounts/Located.antt =====
-- One row in a table whose ids are distinct: what the statements on its id see and do.
use loyalty_points_app.Prelude.{
  String, ◌≡◌, refl, Bool, true, false, not, if◌then◌else◌, inl, inr, Bool-cases, some, List, [],
  ◌∷◌, arith, eq_iff, eq_refl,
}
use loyalty_points_app.Prelude.Int.{ℤ, pos, ◌+ℤ◌, leb_ℤ, in_int64}
use loyalty_points_app.Sql.Schema.{AccountRow}
use loyalty_points_app.Accounts.Repository.{
  find_account, has_account, overflows, affected_rows, add_to_rows, add_balance, matches,
}
use loyalty_points_app.Accounts.Rows.{DistinctIds}

-- No row has the id.
module _ (id : String) where
  overflows-absent :
      (delta : ℤ) (rows : List AccountRow)
      → has_account id rows ≡ false
      → overflows delta id rows ≡ false
  unfolding has_account overflows
  overflows-absent delta [] h = refl
  overflows-absent delta (r ∷ rows) h = ground (arith, overflows-absent delta rows)

  pub affected_rows-absent :
      (scoped : Bool) (delta : ℤ) (u : String) (rows : List AccountRow)
      → has_account id rows ≡ false
      → affected_rows scoped delta id u rows ≡ 0
  unfolding has_account affected_rows
  affected_rows-absent scoped delta u [] h = refl
  affected_rows-absent scoped delta u (r ∷ rows) h =
      ground (arith, affected_rows-absent scoped delta u rows)

-- A read with the caller's scope found the row.
module _ (scoped : Bool) (id u : String) (row : AccountRow) where
  pub find_account-matches :
      (rows : List AccountRow)
      → find_account scoped id u rows ≡ some row
      → matches scoped id u row ≡ true
  unfolding find_account
  find_account-matches [] h = ground arith
  find_account-matches (r ∷ rows) h = elim (Bool-cases (matches scoped id u r)) [
    | inl yes_row ↦ ground arith
    | inr no_row ↦ find_account-matches rows (rw no_row at h)
  ]

  pub has_account-located :
      (rows : List AccountRow)
      → find_account scoped id u rows ≡ some row
      → has_account id rows ≡ true
  unfolding find_account has_account
  has_account-located [] h = ground arith
  has_account-located (r ∷ rows) h = ground (arith, has_account-located rows)

  pub overflows-located :
      (delta : ℤ) (rows : List AccountRow)
      → DistinctIds rows
      → find_account scoped id u rows ≡ some row
      → overflows delta id rows ≡ not (in_int64 (row.balance +ℤ delta))
  unfolding find_account overflows
  overflows-located delta [] d h = ground arith
  overflows-located delta (r ∷ rows) d h = ground (
    arith,
    eq_iff r.id id,
    overflows-absent id delta rows,
    has_account-located rows,
    overflows-located delta rows,
  )

  pub affected_rows-located :
      (write_scoped : Bool) (delta : ℤ) (rows : List AccountRow)
      → DistinctIds rows
      → find_account scoped id u rows ≡ some row
      → affected_rows write_scoped delta id row.owner_id rows
        ≡ (if leb_ℤ (pos 0) (row.balance +ℤ delta) then 1 else 0)
  unfolding find_account affected_rows
  affected_rows-located write_scoped delta [] d h = ground arith
  affected_rows-located write_scoped delta (r ∷ rows) d h = ground (
    arith,
    eq_iff r.id id,
    eq_refl row.owner_id,
    affected_rows-absent id write_scoped delta row.owner_id rows,
    has_account-located rows,
    affected_rows-located write_scoped delta rows,
  )

  pub find_account-updated :
      (write_scoped : Bool) (delta : ℤ) (rows : List AccountRow)
      → DistinctIds rows
      → find_account scoped id u rows ≡ some row
      → leb_ℤ (pos 0) (row.balance +ℤ delta) ≡ true
      → find_account false id "" (add_to_rows write_scoped delta id row.owner_id rows)
        ≡ some (add_balance delta row)
  unfolding find_account add_to_rows
  find_account-updated write_scoped delta [] d h enough = ground arith
  find_account-updated write_scoped delta (r ∷ rows) d h enough = ground (
    arith,
    eq_iff r.id id,
    eq_refl row.owner_id,
    has_account-located rows,
    find_account-updated write_scoped delta rows,
  )

  -- The read that explains an update of no row finds the row again.
  pub find_account-owner :
      (write_scoped : Bool) (rows : List AccountRow)
      → DistinctIds rows
      → find_account scoped id u rows ≡ some row
      → find_account write_scoped id row.owner_id rows ≡ some row
  unfolding find_account
  find_account-owner write_scoped [] d h = ground arith
  find_account-owner write_scoped (r ∷ rows) d h = ground (
    arith,
    eq_iff r.id id,
    eq_refl row.owner_id,
    has_account-located rows,
    find_account-owner write_scoped rows,
  )
