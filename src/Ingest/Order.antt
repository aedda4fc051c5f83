-- ===== src/Ingest/Order.antt =====
-- The CLI's order and the server's.
use loyalty_points_app.Prelude.{
  ◌≡◌, refl, ap, ◌∙◌, false, inl, inr, Bool-cases, List, [], ◌∷◌, All, All-imp, map, arith,
}
use loyalty_points_app.Sql.{before}
use loyalty_points_app.Wallets.{ProcessTransactionRequest, insert_by_time, sort_by_time}
use loyalty_points_app.Ingest.Rows.{Row, row_less, insert_row, sort_rows}

-- No later row has an earlier time.
abbrev pub IsChronological : List Row → Type 0
IsChronological [] = Unit
IsChronological (r ∷ rows) =
    All (λ s. before s.occurred_at r.occurred_at ≡ false) rows × IsChronological rows

All-insert_row :
    (P : Row → Type 0) (r : Row) (rows : List Row) → P r → All P rows → All P (insert_row r rows)
All-insert_row P r [] p h = (p, tt)
All-insert_row P r (s ∷ rows) p h = elim (Bool-cases (row_less s r)) [
  | inl less ↦ rw less (h.0, All-insert_row P r rows p h.1)
  | inr more ↦ rw more (p, h)
]

IsChronological-insert_row :
    (r : Row) (rows : List Row) → IsChronological rows → IsChronological (insert_row r rows)
IsChronological-insert_row r [] h = (tt, tt)
IsChronological-insert_row r (s ∷ rows) h = elim (Bool-cases (row_less s r)) [
  | inl less ↦ rw less (
    All-insert_row (λ x. before x.occurred_at s.occurred_at ≡ false) r rows (ground arith) h.0,
    IsChronological-insert_row r rows h.1,
  )
  | inr more ↦
      let first : before s.occurred_at r.occurred_at ≡ false = ground arith in
      rw more (
        (
          first,
          All-imp (λ x. before x.occurred_at s.occurred_at ≡ false)
              (λ x. before x.occurred_at r.occurred_at ≡ false) (λ x k. ground arith) rows h.0,
        ),
        h,
      )
]

pub IsChronological-sort_rows : (rows : List Row) → IsChronological (sort_rows rows)
unfolding sort_rows
IsChronological-sort_rows [] = tt
IsChronological-sort_rows (r ∷ rows) =
    IsChronological-insert_row r (sort_rows rows) (IsChronological-sort_rows rows)

-- `element_of` makes an element of the batch of a row; the times it sends keep the rows' order.
module _ (element_of : Row → ProcessTransactionRequest)
    (monotone : (r s : Row)
      → before s.occurred_at r.occurred_at ≡ false
      → before (element_of s).occurred_at (element_of r).occurred_at ≡ false) where
  insert_by_time-first :
      (r : Row) (rows : List Row)
      → All (λ s. before s.occurred_at r.occurred_at ≡ false) rows
      → insert_by_time (element_of r) (map element_of rows) ≡ element_of r ∷ map element_of rows
  insert_by_time-first r [] h = refl
  insert_by_time-first r (s ∷ rows) h = rw (monotone r s h.0) refl

  sort_by_time-map :
      (rows : List Row)
      → IsChronological rows
      → sort_by_time (map element_of rows) ≡ map element_of rows
  unfolding sort_by_time
  sort_by_time-map [] h = refl
  sort_by_time-map (r ∷ rows) h =
      ap (insert_by_time (element_of r)) (sort_by_time-map rows h.1)
      ∙ insert_by_time-first r rows h.0

  -- The server applies the rows of a file in the order in which the CLI sent them: where the times as
  -- they are sent keep the order of the rows' times, the server's own sort moves no element of a
  -- batch that the CLI has sorted.
  pub sort_by_time-sort_rows :
      (rows : List Row)
      → sort_by_time (map element_of (sort_rows rows)) ≡ map element_of (sort_rows rows)
  sort_by_time-sort_rows rows = sort_by_time-map (sort_rows rows) (IsChronological-sort_rows rows)
