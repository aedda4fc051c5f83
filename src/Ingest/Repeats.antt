-- ===== src/Ingest/Repeats.antt =====
-- What the preview counts.
use loyalty_points_app.Prelude.{
  ℕ, suc, ◌+◌, ◌<◌, String, ◌≡◌, refl, ap, subst, ◌∙◌, Bool, Bool-cases, inl, inr, List, [], ◌∷◌,
  length, count_where, ltb, arith, eq_iff, ◌==◌, if◌then◌else◌,
}
use loyalty_points_app.Ingest.Rows.{Row}
use loyalty_points_app.Ingest.Preview.{
  Breakdown, empty_breakdown, bump_count, count_row, count_rows, repeated, insert_string,
  sort_strings, dup_refs,
}

-- The count under a key; zero where it is not there.
count_of : String → List (String × ℕ) → ℕ
count_of ref [] = 0
count_of ref ((k, n) ∷ m) = if k == ref then n else count_of ref m

-- No key stands twice, and no count is zero.
abbrev IsCount : List (String × ℕ) → Type 0
IsCount [] = Unit
IsCount ((k, n) ∷ m) = (count_of k m ≡ 0) × (0 < n) × IsCount m

count_of-bump_count :
    (ref s : String) (m : List (String × ℕ))
    → count_of s (bump_count ref m) ≡ (if ref == s then 1 else 0) + count_of s m
unfolding count_of bump_count
count_of-bump_count ref s [] = ground arith
count_of-bump_count ref s ((k, n) ∷ m) =
    ground (arith, count_of-bump_count ref s m, eq_iff k ref, eq_iff k s, eq_iff ref s)

IsCount-bump_count : (ref : String) (m : List (String × ℕ)) → IsCount m → IsCount (bump_count ref m)
unfolding bump_count count_of
IsCount-bump_count ref [] h = (refl, omega arith, tt)
IsCount-bump_count ref ((k, n) ∷ m) (absent, counted, h) = elim (Bool-cases (k == ref)) [
  | inl same ↦ rw same (absent, omega arith, h)
  | inr other ↦ rw other (
    ground (arith, count_of-bump_count ref k m, eq_iff k ref, eq_iff ref k),
    counted,
    IsCount-bump_count ref m h,
  )
]

abbrev is_text : String → String → Bool
is_text ref s = s == ref

abbrev has_text : String → Row → Bool
has_text ref row = row.ref == ref

count_where-repeated :
    (ref : String) (m : List (String × ℕ))
    → IsCount m
    → count_where (is_text ref) (repeated m) ≡ (if ltb 1 (count_of ref m) then 1 else 0)
unfolding count_of
count_where-repeated ref [] h = refl
count_where-repeated ref ((k, n) ∷ m) (absent, counted, h) = elim (Bool-cases (k == ref)) [
  | inl same ↦
      let absent' = subst (λ s. count_of s m ≡ 0) ((eq_iff k ref).0 same) absent in
      ground (arith, count_where-repeated ref m h)
  | inr other ↦ ground (arith, count_where-repeated ref m h)
]

count_where-insert_string :
    (p : String → Bool) (s : String) (ss : List String)
    → count_where p (insert_string s ss) ≡ count_where p (s ∷ ss)
count_where-insert_string p s [] = refl
count_where-insert_string p s (t ∷ ss) = ground (arith, count_where-insert_string p s ss)

count_where-sort_strings :
    (p : String → Bool) (ss : List String) → count_where p (sort_strings ss) ≡ count_where p ss
unfolding sort_strings
count_where-sort_strings p [] = refl
count_where-sort_strings p (s ∷ ss) =
    count_where-insert_string p s (sort_strings ss)
    ∙ ap (λ k. (if p s then 1 else 0) + k) (count_where-sort_strings p ss)

-- One row's share of the counts.
count_row_lem :
    (row : Row) (b : Breakdown)
    → ((count_row row b).ref_counts ≡ bump_count row.ref b.ref_counts)
      × ((count_row row b).earn_count + (count_row row b).spend_count
          ≡ suc (b.earn_count + b.spend_count))
count_row_lem row b = elim (Bool-cases (row.kind == "spend")) [
  | inl spend ↦ rw spend (refl, omega arith)
  | inr earn ↦ rw earn (refl, omega arith)
]

count_of-count_rows :
    (ref : String) (rows : List Row) (b : Breakdown)
    → count_of ref (count_rows rows b).ref_counts
      ≡ count_of ref b.ref_counts + count_where (has_text ref) rows
unfolding count_rows
count_of-count_rows ref [] b = omega arith
count_of-count_rows ref (row ∷ rows) b =
    count_of-count_rows ref rows (count_row row b)
    ∙ rw (count_row_lem row b).0 (omega (arith, count_of-bump_count row.ref ref b.ref_counts))

IsCount-count_rows :
    (rows : List Row) (b : Breakdown)
    → IsCount b.ref_counts
    → IsCount (count_rows rows b).ref_counts
unfolding count_rows
IsCount-count_rows [] b h = h
IsCount-count_rows (row ∷ rows) b h =
    IsCount-count_rows rows (count_row row b)
      (rw (count_row_lem row b).0 (IsCount-bump_count row.ref b.ref_counts h))

count_rows-length :
    (rows : List Row) (b : Breakdown)
    → (count_rows rows b).earn_count + (count_rows rows b).spend_count
      ≡ b.earn_count + b.spend_count + length rows
unfolding count_rows
count_rows-length [] b = omega arith
count_rows-length (row ∷ rows) b =
    omega (arith, count_rows-length rows (count_row row b), (count_row_lem row b).1)

zero_lem : (ref : String) (n : ℕ) → count_of ref [] + n ≡ n
unfolding count_of
zero_lem ref n = omega arith

-- The preview names a ref among the duplicates once if it stands more than once in the file and not
-- at all otherwise, and each row is counted either as an earn or as a spend.
pub preview_counts :
    (rows : List Row) (ref : String)
    → (count_where (λ s. s == ref) (dup_refs rows)
        ≡ (if ltb 1 (count_where (λ row. row.ref == ref) rows) then 1 else 0))
      × ((count_rows rows empty_breakdown).earn_count
            + (count_rows rows empty_breakdown).spend_count
          ≡ length rows)
preview_counts rows ref =
    let counts = (count_rows rows empty_breakdown).ref_counts in
    let kinds : (count_rows rows empty_breakdown).earn_count
          + (count_rows rows empty_breakdown).spend_count
        ≡ length rows =
      omega (arith, count_rows-length rows empty_breakdown) in
    let total : count_of ref counts ≡ count_where (has_text ref) rows =
      count_of-count_rows ref rows empty_breakdown
      ∙ zero_lem ref (count_where (has_text ref) rows) in
    let listed : (if ltb 1 (count_of ref counts) then 1 else 0)
        ≡ (if ltb 1 (count_where (has_text ref) rows) then 1 else 0) =
      rw total refl in
    (
      count_where-sort_strings (is_text ref) (repeated counts)
          ∙ count_where-repeated ref counts (IsCount-count_rows rows empty_breakdown tt)
          ∙ listed,
      kinds,
    )
