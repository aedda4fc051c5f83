-- ===== src/Wallets/Batch/Order.antt =====
-- The order in which `ProcessTransactionBatch` applies its elements.
use loyalty_points_app.Prelude.{
  length, suc, ap, ◌∙◌, ◌≡◌, refl, Bool, false, inl, inr, Bool-cases, List, [], ◌∷◌, All, All-imp,
  select, arith,
}
use loyalty_points_app.Prelude.Int.{eqb_ℤ}
use loyalty_points_app.Sql.{Time, before}
use loyalty_points_app.Wallets.Types.{ProcessTransactionRequest}
use loyalty_points_app.Wallets.Ingestion.{insert_by_time, sort_by_time}

-- No later element has an earlier time.
abbrev pub IsChronological : List ProcessTransactionRequest → Type 0
IsChronological [] = Unit
IsChronological (x ∷ xs) =
    All (λ y. before y.occurred_at x.occurred_at ≡ false) xs × IsChronological xs

abbrev pub at_time : Time → ProcessTransactionRequest → Bool
at_time t x = eqb_ℤ x.occurred_at t

All-insert :
    (P : ProcessTransactionRequest → Type 0) (x : ProcessTransactionRequest)
    (xs : List ProcessTransactionRequest)
    → P x
    → All P xs
    → All P (insert_by_time x xs)
All-insert P x [] p h = (p, tt)
All-insert P x (y ∷ ys) p h = elim (Bool-cases (before y.occurred_at x.occurred_at)) [
  | inl earlier ↦ rw earlier (h.0, All-insert P x ys p h.1)
  | inr later ↦ rw later (p, (h.0, h.1))
]

IsChronological-insert :
    (x : ProcessTransactionRequest) (xs : List ProcessTransactionRequest)
    → IsChronological xs
    → IsChronological (insert_by_time x xs)
IsChronological-insert x [] h = (tt, tt)
IsChronological-insert x (y ∷ ys) h = elim (Bool-cases (before y.occurred_at x.occurred_at)) [
  | inl earlier ↦ rw earlier (
    All-insert (λ z. before z.occurred_at y.occurred_at ≡ false) x ys (ground arith) h.0,
    IsChronological-insert x ys h.1,
  )
  | inr later ↦ rw later (
    (
      later,
      All-imp (λ z. before z.occurred_at y.occurred_at ≡ false)
          (λ z. before z.occurred_at x.occurred_at ≡ false) (λ z k. ground arith) ys h.0,
    ),
    h,
  )
]

IsChronological-sort_by_time :
    (xs : List ProcessTransactionRequest) → IsChronological (sort_by_time xs)
unfolding sort_by_time
IsChronological-sort_by_time [] = tt
IsChronological-sort_by_time (x ∷ xs) =
    IsChronological-insert x (sort_by_time xs) (IsChronological-sort_by_time xs)

select-insert :
    (t : Time) (x : ProcessTransactionRequest) (xs : List ProcessTransactionRequest)
    → select (at_time t) (insert_by_time x xs) ≡ select (at_time t) (x ∷ xs)
select-insert t x [] = refl
select-insert t x (y ∷ ys) = ground (arith, select-insert t x ys)

-- Of the elements with one time, the sorted list holds the same ones in the order of submission.
select-sort_by_time :
    (t : Time) (xs : List ProcessTransactionRequest)
    → select (at_time t) (sort_by_time xs) ≡ select (at_time t) xs
unfolding sort_by_time
select-sort_by_time t [] = refl
select-sort_by_time t (x ∷ xs) =
    ground (arith, select-insert t x (sort_by_time xs), select-sort_by_time t xs)

length-insert_by_time :
    (x : ProcessTransactionRequest) (xs : List ProcessTransactionRequest)
    → length (insert_by_time x xs) ≡ suc (length xs)
length-insert_by_time x [] = refl
length-insert_by_time x (y ∷ ys) = ground (arith, length-insert_by_time x ys)

pub length-sort_by_time :
    (xs : List ProcessTransactionRequest) → length (sort_by_time xs) ≡ length xs
unfolding sort_by_time
length-sort_by_time [] = refl
length-sort_by_time (x ∷ xs) =
    length-insert_by_time x (sort_by_time xs) ∙ ap suc (length-sort_by_time xs)

-- The applied order is chronological and stable: no element stands before one with an earlier
-- time, and at each time the elements are exactly the submitted ones, in the order of submission.
pub sort_by_time_lem :
    (xs : List ProcessTransactionRequest)
    → IsChronological (sort_by_time xs)
      × ((t : Time) → select (at_time t) (sort_by_time xs) ≡ select (at_time t) xs)
sort_by_time_lem xs = (IsChronological-sort_by_time xs, λ t. select-sort_by_time t xs)
