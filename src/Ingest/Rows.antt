-- ===== src/Ingest/Rows.antt =====
-- cmd/cli/pkg/ingest/csv.go.
use loyalty_points_app.Prelude.{
  ℕ, suc, String, Bool, Option, none, some, List, [], ◌∷◌, ltb, ◌⊎◌, inl, inr, concat, ◌==◌,
  if◌then◌else◌,
}
use loyalty_points_app.Prelude.Int.{ℤ, pos, eqb_ℤ}
use loyalty_points_app.Errs.{Error, wrapped, plain, text}
use loyalty_points_app.Sql.{Time, before, Result, ok, err}

-- What `csv.Reader` gives of a file: the first record, and then, record by record, its fields or an
-- error. It gives each record as many fields as the first one has; the model is of files whose first
-- record has five. (The test of the header also lets a first record with fewer, quoted fields pass:
-- on the next record the source then panics.)
pub data CsvRecord : Type 0 where
  csv_record : (ref account_id kind points occurred_at : String) → CsvRecord
  csv_error : Error → CsvRecord

pub record CsvFile : Type 0 where
  pub header : Result (List String)
  pub records : List CsvRecord

-- strconv, strings, package time and fmt.
pub record TextLibrary : Type 0 where
  -- `strconv.ParseInt(s, 10, 64)`
  pub parse_int : String → Option ℤ
  pub trim_space : String → String
  pub parse_rfc3339 : String → Option Time
  pub format_rfc3339 : Time → String
  pub quote : String → String

abbrev pub expected_header : String
expected_header = "ref,account_id,kind,points,occurred_at"

pub record Row : Type 0 where
  pub line : ℕ
  pub ref : String
  pub account_id : String
  pub kind : String
  pub points : ℤ
  -- zero where the cell was blank
  pub occurred_at : Time

pub record RowError : Type 0 where
  pub line : ℕ
  pub ref : String
  pub reason : String

-- `strings.Join(header, ",")`
abbrev pub join_header : List String → String
join_header [] = ""
join_header (c ∷ []) = c
join_header (c ∷ d ∷ cs) = concat c (concat "," (join_header (d ∷ cs)))

module _ (texts : TextLibrary) where
  -- A blank cell is the zero time.
  abbrev pub parse_occurred_at : String → Option Time
  parse_occurred_at cell =
      if texts.trim_space cell == ""
      then some (pos 0)
      else texts.parse_rfc3339 (texts.trim_space cell)

  -- One turn of the loop: `inl` for the errors, `inr` for the rows.
  abbrev pub with_time : ℕ → String → String → String → ℤ → String → Option Time → RowError ⊎ Row
  with_time line ref account_id kind points cell none = inl (record {
    line = line;
    ref = ref;
    reason = concat "invalid occurred_at: " (concat (texts.quote cell) " (want RFC 3339)");
  })
  with_time line ref account_id kind points cell (some t) = inr (record {
    line = line;
    ref = ref;
    account_id = account_id;
    kind = kind;
    points = points;
    occurred_at = t;
  })

  abbrev pub with_points :
      ℕ → String → String → String → String → String → Option ℤ → RowError ⊎ Row
  with_points line ref account_id kind cell occurred_at none =
      inl (record { line = line; ref = ref; reason = concat "invalid points: " (texts.quote cell) })
  with_points line ref account_id kind cell occurred_at (some points) =
      with_time line ref account_id kind points occurred_at (parse_occurred_at occurred_at)

  abbrev pub parse_record : ℕ → CsvRecord → RowError ⊎ Row
  parse_record line (csv_error x) =
      inl (record { line = line; ref = ""; reason = concat "malformed row: " (text x) })
  parse_record line (csv_record ref account_id kind points occurred_at) =
      with_points line ref account_id kind points occurred_at
        (texts.parse_int (texts.trim_space points))

  abbrev pub add_record : RowError ⊎ Row → List Row × List RowError → List Row × List RowError
  add_record (inl x) (rows, row_errors) = (rows, x ∷ row_errors)
  add_record (inr r) (rows, row_errors) = (r ∷ rows, row_errors)

  -- The loop over the records, from a line on.
  unfoldable pub parse_records : ℕ → List CsvRecord → List Row × List RowError
  unfolding text
  parse_records line [] = ([], [])
  parse_records line (c ∷ cs) = add_record (parse_record line c) (parse_records (suc line) cs)

  abbrev pub check_header : List String → List CsvRecord → Result (List Row × List RowError)
  check_header header records =
      if join_header header == expected_header
      then ok (parse_records 1 records)
      else err (
          plain (
            concat "invalid CSV header: got " (
              concat (texts.quote (join_header header))
                (concat ", want " (texts.quote expected_header)))))

  abbrev pub read_header : Result (List String) → List CsvRecord → Result (List Row × List RowError)
  read_header (err x) records = err (wrapped "could not read CSV header" x)
  read_header (ok header) records = check_header header records

  unfoldable pub parse_csv : CsvFile → Result (List Row × List RowError)
  unfolding parse_records
  parse_csv file = read_header file.header file.records

-- The order of `SortRows`.
abbrev pub row_less : Row → Row → Bool
row_less r s =
    if eqb_ℤ r.occurred_at s.occurred_at
    then ltb r.line s.line
    else before r.occurred_at s.occurred_at

-- `sort.SliceStable`, as insertion before the first row that is not less.
abbrev pub insert_row : Row → List Row → List Row
insert_row r [] = r ∷ []
insert_row r (s ∷ rows) =
    let rest = insert_row r rows in if row_less s r then s ∷ rest else r ∷ s ∷ rows

unfoldable pub sort_rows : List Row → List Row
sort_rows [] = []
sort_rows (r ∷ rows) = insert_row r (sort_rows rows)
