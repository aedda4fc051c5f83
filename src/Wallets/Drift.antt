-- ===== src/Wallets/Drift.antt =====
-- Balances against the ledger: the part of each balance that the ledger does not explain.
use loyalty_points_app.Prelude.{
  String, ◌≡◌, refl, sym, ap, ◌∙◌, ◌<◌, Bool, true, false, inl, inr, Bool-cases, List, [], ◌∷◌,
  ◌++◌, All, arith, eq_iff, ◌==◌, if◌then◌else◌,
}
use loyalty_points_app.Prelude.Int.{ℤ, pos, ◌+ℤ◌, int_laws, +ℤ-zero, +ℤ_assoc}
use loyalty_points_app.Sql.Schema.{AccountRow, TransactionRow}
use loyalty_points_app.Accounts.{has_account, affected_rows, add_to_rows, can_apply}
use loyalty_points_app.Accounts.Effects.{add_to_rows_none}
use loyalty_points_app.Accounts.Rows.{DistinctIds}

-- SUM(points) over an account's transactions.
unfoldable pub ledger_sum : String → List TransactionRow → ℤ
ledger_sum id [] = pos 0
ledger_sum id (t ∷ ts) = (if t.account_id == id then t.points else pos 0) +ℤ ledger_sum id ts

pub ledger_sum-append :
    (id : String) (ts : List TransactionRow) (t : TransactionRow)
    → ledger_sum id (ts ++ t ∷ [])
      ≡ ledger_sum id ts +ℤ (if t.account_id == id then t.points else pos 0)
unfolding ledger_sum
ledger_sum-append id [] t = omega int_laws
ledger_sum-append id (u ∷ ts) t = rw (ledger_sum-append id ts t) (omega int_laws)

-- The balance is the ledger's sum and an amount from elsewhere.
abbrev pub Explained : (String → ℤ) → List TransactionRow → AccountRow → Type 0
Explained off ts r = r.balance ≡ off r.id +ℤ ledger_sum r.id ts

none_affected :
    (scoped : Bool) (delta : ℤ) (id user_id : String) (rows : List AccountRow)
    → has_account id rows ≡ false
    → affected_rows scoped delta id user_id rows ≡ 0
unfolding has_account affected_rows
none_affected scoped delta id user_id [] h = refl
none_affected scoped delta id user_id (r ∷ rows) h =
    ground (arith, none_affected scoped delta id user_id rows)

differs : (s t : String) → (s == t) ≡ false → (t == s) ≡ false
differs s t h = ground (arith, eq_iff s t, eq_iff t s)

module _ (off : String → ℤ) (ts : List TransactionRow) (t : TransactionRow) where
  -- A row of another account, and the row of the transaction's account with the points added.
  Explained-other :
      (r : AccountRow)
      → (r.id == t.account_id) ≡ false
      → Explained off ts r
      → Explained off (ts ++ t ∷ []) r
  Explained-other r ne h = rw (ledger_sum-append r.id ts t) (
      rw (differs r.id t.account_id ne)
        (h ∙ ap (λ x. off r.id +ℤ x) (sym (+ℤ-zero (ledger_sum r.id ts)))))

  Explained-self :
      (r : AccountRow)
      → (r.id == t.account_id) ≡ true
      → Explained off ts r
      → Explained off (ts ++ t ∷ []) (record r { balance = r.balance +ℤ t.points })
  Explained-self r same h = rw (ledger_sum-append r.id ts t) (
      rw ((eq_iff t.account_id r.id).1 (sym ((eq_iff r.id t.account_id).0 same)))
        (ap (λ x. x +ℤ t.points) h ∙ +ℤ_assoc (off r.id) (ledger_sum r.id ts) t.points))

  -- A transaction on no account of these rows.
  Explained-elsewhere :
      (rows : List AccountRow)
      → has_account t.account_id rows ≡ false
      → All (Explained off ts) rows
      → All (Explained off (ts ++ t ∷ [])) rows
  unfolding has_account
  Explained-elsewhere [] h a = tt
  Explained-elsewhere (r ∷ rows) h a =
      (Explained-other r (ground arith) a.0, Explained-elsewhere rows (ground arith) a.1)

  Explained-rest :
      (scoped : Bool) (user_id : String) (rows : List AccountRow)
      → has_account t.account_id rows ≡ false
      → All (Explained off ts) rows
      → All (Explained off (ts ++ t ∷ [])) (add_to_rows scoped t.points t.account_id user_id rows)
  Explained-rest scoped user_id rows h a =
      rw
        (add_to_rows_none scoped t.points t.account_id user_id rows
          (none_affected scoped t.points t.account_id user_id rows h))
        (Explained-elsewhere rows h a)

  absent :
      (r : AccountRow) (rows : List AccountRow)
      → (r.id == t.account_id) ≡ true
      → has_account r.id rows ≡ false
      → has_account t.account_id rows ≡ false
  absent r rows same h = rw ((eq_iff r.id t.account_id).0 same) at h

  -- A transaction on an account of these rows, whose balance moves by its points.
  pub Explained-add_to_rows :
      (scoped : Bool) (user_id : String) (rows : List AccountRow)
      → DistinctIds rows
      → 0 < affected_rows scoped t.points t.account_id user_id rows
      → All (Explained off ts) rows
      → All (Explained off (ts ++ t ∷ [])) (add_to_rows scoped t.points t.account_id user_id rows)
  unfolding affected_rows add_to_rows
  Explained-add_to_rows scoped user_id [] d n a = tt
  Explained-add_to_rows scoped user_id (r ∷ rows) d n a = elim (Bool-cases (r.id == t.account_id)) [
    | inl same ↦ elim (Bool-cases (can_apply scoped t.points t.account_id user_id r)) [
      | inl applied ↦ rw applied (
        Explained-self r same a.0,
        Explained-rest scoped user_id rows (absent r rows same d.0) a.1,
      )
      | inr refused ↦ absurd (
          ground (
            arith,
            none_affected scoped t.points t.account_id user_id rows (absent r rows same d.0),
          ))
    ]
    | inr ne ↦
        rw ne (
          Explained-other r ne a.0,
          Explained-add_to_rows scoped user_id rows d.1 (ground arith) a.1,
        )
  ]
