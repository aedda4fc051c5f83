-- ===== src/Wallets/Invariant.antt =====
-- The well-formedness of the tables, and that a processing attempt keeps it.
use loyalty_points_app.Prelude.{
  Bool, String, ◌≡◌, ◌∙◌, refl, true, false, ◌||◌, List, [], ◌∷◌, ◌++◌, All, All-snoc, All-imp,
  arith, eq_iff, ◌==◌,
}
use loyalty_points_app.Prelude.Int.{ℤ}
use loyalty_points_app.Sql.Schema.{Db, AuditRow, TransactionRow}
use loyalty_points_app.Accounts.{has_account, has_user, add_to_rows, overflows}
use loyalty_points_app.Accounts.Rows.{
  DistinctIds, IsFunded, has_account-add_to_rows, DistinctIds-add_to_rows, IsFunded-add_to_rows,
  All-add_to_rows,
}
use loyalty_points_app.Wallets.Repository.{has_ref, has_id}
use loyalty_points_app.Wallets.Drift.{Explained}

-- The unique columns of the ledger.
abbrev pub DistinctRefs : List TransactionRow → Type 0
DistinctRefs [] = Unit
DistinctRefs (t ∷ ts) = (has_ref t.ref ts ≡ false) × (has_id t.id ts ≡ false) × DistinctRefs ts

pub has_ref-snoc :
    (k : String) (ts : List TransactionRow) (t : TransactionRow)
    → has_ref k (ts ++ t ∷ []) ≡ (has_ref k ts || t.ref == k)
unfolding has_ref
has_ref-snoc k [] t = ground arith
has_ref-snoc k (u ∷ ts) t = ground (arith, has_ref-snoc k ts t)

has_id-snoc :
    (k : String) (ts : List TransactionRow) (t : TransactionRow)
    → has_id k (ts ++ t ∷ []) ≡ (has_id k ts || t.id == k)
unfolding has_id
has_id-snoc k [] t = ground arith
has_id-snoc k (u ∷ ts) t = ground (arith, has_id-snoc k ts t)

differs : (s t : String) → (s == t) ≡ false → (t == s) ≡ false
differs s t h = ground (arith, eq_iff s t, eq_iff t s)

DistinctRefs-snoc :
    (ts : List TransactionRow) (t : TransactionRow)
    → has_ref t.ref ts ≡ false
    → has_id t.id ts ≡ false
    → DistinctRefs ts
    → DistinctRefs (ts ++ t ∷ [])
unfolding has_ref has_id
DistinctRefs-snoc [] t a b h = (refl, refl, tt)
DistinctRefs-snoc (u ∷ ts) t a b h = (
  rw has_ref-snoc (ground (arith, differs u.ref t.ref)),
  rw has_id-snoc (ground (arith, differs u.id t.id)),
  DistinctRefs-snoc ts t (ground arith) (ground arith) h.2,
)

-- Keys are unique, every reference has its target, and every balance is an int64 of at least zero.
pub record IsValid (db : Db) : Type 0 where
  pub distinct_ids : DistinctIds db.accounts
  pub funded : All IsFunded db.accounts
  pub owned : All (λ r. has_user r.owner_id db.users ≡ true) db.accounts
  pub distinct_refs : DistinctRefs db.transactions
  pub posted : All (λ t. has_account t.account_id db.accounts ≡ true) db.transactions

-- Every balance is the sum of its ledger rows and an amount that the ledger does not explain.
abbrev pub IsExplained : (String → ℤ) → Db → Type 0
IsExplained off db = All (Explained off db.transactions) db.accounts

-- The tables after a new ledger row and the update of its account's balance.
module _ (db : Db) (t : TransactionRow) (scoped : Bool) (owner : String) where
  abbrev pub with_posting : List AuditRow → Db
  with_posting audit = record db {
    accounts = add_to_rows scoped t.points t.account_id owner db.accounts;
    transactions = db.transactions ++ t ∷ [];
    audit_entries = audit;
  }

  pub with_posting-IsValid :
      (audit : List AuditRow)
      → has_ref t.ref db.transactions ≡ false
      → has_id t.id db.transactions ≡ false
      → has_account t.account_id db.accounts ≡ true
      → overflows t.points t.account_id db.accounts ≡ false
      → IsValid db
      → IsValid (with_posting audit)
  with_posting-IsValid audit new_ref new_id known fits v =
      let kept = has_account-add_to_rows scoped t.points t.account_id owner in
      record {
        distinct_ids =
            DistinctIds-add_to_rows scoped t.points t.account_id owner db.accounts v.distinct_ids;
        funded = IsFunded-add_to_rows scoped t.points t.account_id owner db.accounts fits v.funded;
        owned =
            All-add_to_rows scoped t.points t.account_id owner
              (λ r. has_user r.owner_id db.users ≡ true) (λ r h. h) db.accounts v.owned;
        distinct_refs = DistinctRefs-snoc db.transactions t new_ref new_id v.distinct_refs;
        posted =
            All-snoc (λ u. has_account u.account_id (with_posting audit).accounts ≡ true)
              db.transactions t
              (All-imp (λ u. has_account u.account_id db.accounts ≡ true)
                (λ u. has_account u.account_id (with_posting audit).accounts ≡ true)
                (λ u h. kept u.account_id db.accounts ∙ h) db.transactions v.posted)
              (kept t.account_id db.accounts ∙ known);
      }
