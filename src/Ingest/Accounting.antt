-- ===== src/Ingest/Accounting.antt =====
-- Every record of a file ends up in the summary.
use loyalty_points_app.Prelude.{
  ℕ, suc, ◌+◌, String, ◌≡◌, refl, sym, ap, concat, ◌∙◌, ◌⊎◌, inl, inr, Bool, Option-cases, ◌&&◌,
  none, some, List, [], ◌∷◌, ◌++◌, length, map, count_where, nat_eq, leb, ltb, if◌then◌else◌, arith,
}
use loyalty_points_app.Errs.{Error, text}
use loyalty_points_app.Sql.{ok, err}
use loyalty_points_app.Ingest.Rows.{
  TextLibrary, CsvFile, CsvRecord, csv_error, csv_record, Row, RowError, insert_row, sort_rows,
  parse_occurred_at, parse_record, add_record, parse_records, parse_csv,
}
use loyalty_points_app.Ingest.Summary.{
  Rejection, RpcFailure, Response, rejection_of_error, reject_row, reject_all, planned, summarize,
}

abbrev row_at : ℕ → Row → Bool
row_at n r = nat_eq r.line n

abbrev error_at : ℕ → RowError → Bool
error_at n x = nat_eq x.line n

abbrev pub rejection_at : ℕ → Rejection → Bool
rejection_at n x = nat_eq x.line n

-- How often a line is among the rows and the errors.
abbrev at_line : ℕ → List Row × List RowError → ℕ
at_line n (rows, row_errors) = count_where (row_at n) rows + count_where (error_at n) row_errors

count_where-append :
    {A : Type 0} (p : A → Bool) (xs ys : List A)
    → count_where p (xs ++ ys) ≡ count_where p xs + count_where p ys
count_where-append p [] ys = omega arith
count_where-append p (x ∷ xs) ys = omega (arith, count_where-append p xs ys)

count_where-map :
    {A B : Type 0} (f : A → B) (p : B → Bool) (xs : List A)
    → count_where p (map f xs) ≡ count_where (λ x. p (f x)) xs
count_where-map f p [] = refl
count_where-map f p (x ∷ xs) = rw (count_where-map f p xs) refl

count_where-insert_row :
    (p : Row → Bool) (r : Row) (rows : List Row)
    → count_where p (insert_row r rows) ≡ count_where p (r ∷ rows)
count_where-insert_row p r [] = refl
count_where-insert_row p r (s ∷ rows) = ground (arith, count_where-insert_row p r rows)

pub count_where-sort_rows :
    (p : Row → Bool) (rows : List Row) → count_where p (sort_rows rows) ≡ count_where p rows
unfolding sort_rows
count_where-sort_rows p [] = refl
count_where-sort_rows p (r ∷ rows) =
    count_where-insert_row p r (sort_rows rows)
    ∙ ap (λ k. (if p r then 1 else 0) + k) (count_where-sort_rows p rows)

-- What a response that brings no results says of the batch.
abbrev pub IsLost : Response → Type 0
IsLost r =
    ((x : RpcFailure) × (r.failure ≡ some x))
    ⊎ ((r.failure ≡ none) × ((y : Error) × (r.result ≡ err y)))

reject_all_lem :
    (n : ℕ) (file reason : String) (rows : List Row) (row_errors : List RowError)
    → count_where
        (rejection_at n)
        (reject_all rows reason (planned file rows row_errors)).rejections
      ≡ at_line n (rows, row_errors)
reject_all_lem n file reason rows row_errors =
    let errors = map rejection_of_error row_errors in
    let rejected = map (reject_row reason) rows in
    omega (
      arith,
      count_where-append (rejection_at n) errors rejected,
      count_where-map rejection_of_error (rejection_at n) row_errors,
      count_where-map (reject_row reason) (rejection_at n) rows,
    )

module _ (texts : TextLibrary) where
  -- A record keeps its line, as a row or as an error.
  abbrev HasLine : ℕ → RowError ⊎ Row → Type 0
  HasLine line (inl x) = x.line ≡ line
  HasLine line (inr r) = r.line ≡ line

  parse_record-HasLine : (line : ℕ) (c : CsvRecord) → HasLine line (parse_record texts line c)
  parse_record-HasLine line (csv_error x) = refl
  parse_record-HasLine line (csv_record ref account_id kind points occurred_at) =
      elim (Option-cases (texts.parse_int (texts.trim_space points))) [
        | inl missing ↦ rw missing refl
        | inr (n, read) ↦ elim (Option-cases (parse_occurred_at texts occurred_at)) [
          | inl broken ↦ rw (read, broken) refl
          | inr (t, timed) ↦ rw (read, timed) refl
        ]
      ]

  add_record_lem :
      (n line : ℕ) (parsed : RowError ⊎ Row) (z : List Row × List RowError)
      → HasLine line parsed
      → at_line n (add_record texts parsed z) ≡ (if nat_eq line n then 1 else 0) + at_line n z
  add_record_lem n line (inl x) (rows, row_errors) h = rw h (omega arith)
  add_record_lem n line (inr r) (rows, row_errors) h = rw h (omega arith)

  parse_records_lem :
      (n line : ℕ) (records : List CsvRecord)
      → at_line n (parse_records texts line records)
        ≡ (if leb line n && ltb n (line + length records) then 1 else 0)
  unfolding parse_records
  parse_records_lem n line [] = ground arith
  parse_records_lem n line (c ∷ cs) =
      add_record_lem n line (parse_record texts line c) (parse_records texts (suc line) cs)
        (parse_record-HasLine line c)
      ∙ rw (parse_records_lem n (suc line) cs) (ground arith)

  parse_csv_records :
      (file : CsvFile) (z : List Row × List RowError)
      → parse_csv texts file ≡ ok z
      → parse_records texts 1 file.records ≡ z
  unfolding parse_csv
  parse_csv_records file z h = ground arith

  -- A file that was parsed and a response without results, be it an error of the method or a result
  -- that cannot be decoded: the summary rejects each record of the file exactly once by its line,
  -- those that were never sent and those that were, and rejects no other line.
  pub summarize-parse_csv :
      (file : CsvFile) (name : String) (rows : List Row) (row_errors : List RowError) (r : Response)
      (n : ℕ)
      → parse_csv texts file ≡ ok (rows, row_errors)
      → IsLost r
      → count_where
          (rejection_at n)
          (summarize name (sort_rows rows) row_errors (some r)).rejections
        ≡ (if leb 1 n && ltb n (1 + length file.records) then 1 else 0)
  unfolding summarize
  summarize-parse_csv file name rows row_errors r n parsed lost =
      counted lost
      ∙ ap (λ k. k + count_where (error_at n) row_errors) (count_where-sort_rows (row_at n) rows)
      ∙ ap (at_line n) (sym (parse_csv_records file (rows, row_errors) parsed))
      ∙ parse_records_lem n 1 file.records
    where
      counted :
          IsLost r
          → count_where
              (rejection_at n)
              (summarize name (sort_rows rows) row_errors (some r)).rejections
            ≡ at_line n (sort_rows rows, row_errors)
      counted (inl (x, failed)) =
          rw failed (reject_all_lem n name x.message (sort_rows rows) row_errors)
      counted (inr (answered, (y, broken))) =
          rw (answered, broken)
            (reject_all_lem n name (concat "could not decode batch result: " (text y))
              (sort_rows rows) row_errors)
