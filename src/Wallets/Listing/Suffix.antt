-- ===== src/Wallets/Listing/Suffix.antt =====
-- The page after a row: what the query selects after its position is what follows it in the whole
-- listing.
use loyalty_points_app.Prelude.{
  String, ◌≡◌, refl, sym, ap, subst, ◌∙◌, Bool, Bool-cases, true, false, ◌&&◌, none, some, List, [],
  ◌∷◌, ◌++◌, All, select, inl, inr, arith, ◌==◌,
}
use loyalty_points_app.Sql.Schema.{Db, TransactionRow}
use loyalty_points_app.Wallets.Listing.{
  precedes, order_rows, is_after, owned_by, select_transactions,
}
use loyalty_points_app.Wallets.Listing.Order.{
  IsOrdered, HasDistinctRefs, All-select, IsOrdered-order_rows, select-insert_row,
  is_after-precedes, precedes_irrefl, precedes_asym,
}

select_ext :
    (p q : TransactionRow → Bool) (rows : List TransactionRow)
    → ((r : TransactionRow) → p r ≡ q r)
    → select p rows ≡ select q rows
select_ext p q [] h = refl
select_ext p q (r ∷ rows) h = rw (h r, select_ext p q rows h) refl

select_and :
    (p q : TransactionRow → Bool) (rows : List TransactionRow)
    → select (λ r. p r && q r) rows ≡ select q (select p rows)
select_and p q [] = refl
select_and p q (r ∷ rows) = ground (arith, select_and p q rows)

select_whole :
    (p : TransactionRow → Bool) (rows : List TransactionRow)
    → All (λ r. p r ≡ true) rows
    → select p rows ≡ rows
select_whole p [] h = refl
select_whole p (r ∷ rows) h = rw (h.0, select_whole p rows h.1) refl

pub HasDistinctRefs-select :
    (p : TransactionRow → Bool) (rows : List TransactionRow)
    → HasDistinctRefs rows
    → HasDistinctRefs (select p rows)
HasDistinctRefs-select p [] h = tt
HasDistinctRefs-select p (r ∷ rows) h = elim (Bool-cases (p r)) [
  | inl kept ↦
      rw kept
        (All-select (λ s. (r.ref == s.ref) ≡ false) p rows h.0, HasDistinctRefs-select p rows h.1)
  | inr dropped ↦ rw dropped (HasDistinctRefs-select p rows h.1)
]

module _ (collates : String → String → Bool) (irreflexive : (s : String) → collates s s ≡ false)
    (transitive : (s t u : String)
      → collates s t ≡ true
      → collates t u ≡ true
      → collates s u ≡ true)
    (total : (s t : String) → (s == t) ≡ false → collates s t ≡ false → collates t s ≡ true) where
  order_rows-select :
      (p : TransactionRow → Bool) (rows : List TransactionRow)
      → HasDistinctRefs rows
      → order_rows collates (select p rows) ≡ select p (order_rows collates rows)
  unfolding order_rows
  order_rows-select p [] h = refl
  order_rows-select p (r ∷ rows) h =
      let taken =
        select-insert_row collates irreflexive transitive total p r (order_rows collates rows)
          (IsOrdered-order_rows collates irreflexive transitive total rows h.1) in
      let rest = order_rows-select p rows h.1 in ground arith

  select-precedes :
      (a : List TransactionRow) (s : TransactionRow) (b : List TransactionRow)
      → IsOrdered collates (a ++ s ∷ b)
      → select (precedes collates s) (a ++ s ∷ b) ≡ b
  select-precedes [] s b h =
      rw (precedes_irrefl collates irreflexive transitive total s)
        (select_whole (precedes collates s) b h.0)
  select-precedes (r ∷ a) s b h =
      rw (precedes_asym collates irreflexive transitive total r s (All-middle a h.0))
        (select-precedes a s b h.1)
    where
      All-middle :
          (a : List TransactionRow)
          → All (λ x. precedes collates r x ≡ true) (a ++ s ∷ b)
          → precedes collates r s ≡ true
      All-middle [] h = h.0
      All-middle (x ∷ a) h = All-middle a h.1

  -- With strict total order of texts and distinct refs: where a row stands in the whole listing of a
  -- caller, the query after its position selects exactly the rows that follow.
  pub select_transactions-suffix :
      (scoped : Bool) (user_id : String) (db : Db) (a : List TransactionRow) (s : TransactionRow)
      (b : List TransactionRow)
      → HasDistinctRefs db.transactions
      → select_transactions collates scoped user_id none db ≡ a ++ s ∷ b
      → select_transactions collates scoped user_id (some (s.recorded_at, s.ref)) db ≡ b
  unfolding select_transactions is_after
  select_transactions-suffix scoped user_id db a s b distinct whole =
      let owned : TransactionRow → Bool = owned_by scoped user_id in
      let mine = select owned db.transactions in
      let found =
        ap (order_rows collates)
          (sym (select_ext (λ r. owned r && true) owned db.transactions (λ r. and_true (owned r))))
        ∙ whole in
      let ordered = subst (IsOrdered collates) found (
        IsOrdered-order_rows collates irreflexive transitive total mine
          (HasDistinctRefs-select owned db.transactions distinct)) in
      ap (order_rows collates)
        (select_and owned (is_after collates (some (s.recorded_at, s.ref))) db.transactions)
      ∙ order_rows-select (is_after collates (some (s.recorded_at, s.ref))) mine
          (HasDistinctRefs-select owned db.transactions distinct)
      ∙ ap (select (is_after collates (some (s.recorded_at, s.ref)))) found
      ∙ select_ext (is_after collates (some (s.recorded_at, s.ref))) (precedes collates s)
          (a ++ s ∷ b) (is_after-precedes collates irreflexive transitive total s)
      ∙ select-precedes a s b ordered
    where
      and_true : (b : Bool) → (b && true) ≡ b
      and_true true = refl
      and_true false = refl
