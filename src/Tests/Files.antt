-- ===== src/Tests/Files.antt =====
-- A file of the CLI.
use loyalty_points_app.Prelude.{
  false, ◌+◌, ◌≡◌, refl, none, some, inl, [], ◌∷◌, map, count_where, ◌==◌, if◌then◌else◌,
}
use loyalty_points_app.Prelude.Int.{pos}
use loyalty_points_app.Sql.{ok}
use loyalty_points_app.Wallets.{ProcessTransactionRequest, sort_by_time}
use loyalty_points_app.Ingest.{
  TextLibrary, CsvFile, csv_record, Row, RowError, sort_rows, Response, summarize, parse_csv,
  CliLibrary, Flags, run_ingest, dup_refs, count_rows, empty_breakdown,
}
use loyalty_points_app.Ingest.Order.{sort_by_time-sort_rows}
use loyalty_points_app.Ingest.Accounting.{rejection_at, summarize-parse_csv}
use loyalty_points_app.Ingest.Sending.{Sends, run_ingest-Sends}
use loyalty_points_app.Ingest.Repeats.{preview_counts}
use loyalty_points_app.Tests.Shop.{request_of}

abbrev texts : TextLibrary
texts = record {
  parse_int = λ s. if s == "abc" then none else some (pos 10);
  trim_space = λ s. s;
  parse_rfc3339 = λ s. some (if s == "early" then pos 1 else pos 2);
  format_rfc3339 = λ t. "2026-01-01T00:00:00Z";
  quote = λ s. s;
}

-- A late row, one with bad points, and an early one.
abbrev three_records : CsvFile
three_records = record {
  header = ok ("ref" ∷ "account_id" ∷ "kind" ∷ "points" ∷ "occurred_at" ∷ []);
  records =
      csv_record "c1" "a1" "spend" "10" "late"
      ∷ csv_record "c2" "a1" "earn" "abc" "late"
      ∷ csv_record "c3" "a1" "earn" "10" "early"
      ∷ [];
}

abbrev late_row : Row
late_row = record {
  line = 1;
  ref = "c1";
  account_id = "a1";
  kind = "spend";
  points = pos 10;
  occurred_at = pos 2;
}

abbrev early_row : Row
early_row = record {
  line = 3;
  ref = "c3";
  account_id = "a1";
  kind = "earn";
  points = pos 10;
  occurred_at = pos 1;
}

abbrev bad_points : RowError
bad_points = record { line = 2; ref = "c2"; reason = "invalid points: abc" }

abbrev forbidden_batch : Response
forbidden_batch = record {
  result = ok (record { results = []; accepted = 0; duplicate = 0; rejected = 0 });
  failure = some (record { code = pos 32002; message = "forbidden" });
}

abbrev element_of : Row → ProcessTransactionRequest
element_of row = request_of row.ref row.account_id row.kind row.points row.occurred_at

sort_by_time-sort_rows_example :
    sort_by_time (map element_of (sort_rows (late_row ∷ early_row ∷ [])))
    ≡ map element_of (sort_rows (late_row ∷ early_row ∷ []))
sort_by_time-sort_rows_example =
    sort_by_time-sort_rows element_of (λ r s h. h) (late_row ∷ early_row ∷ [])

summarize-parse_csv_example :
    count_where
      (rejection_at 2)
      (summarize "batch.csv"
        (sort_rows (late_row ∷ early_row ∷ []))
        (bad_points ∷ [])
        (some forbidden_batch)).rejections
    ≡ 1
unfolding parse_csv
summarize-parse_csv_example =
    summarize-parse_csv texts three_records "batch.csv" (late_row ∷ early_row ∷ [])
      (bad_points ∷ []) forbidden_batch 2 refl
      (inl (record { code = pos 32002; message = "forbidden" }, refl))

-- The server forbids the batch.
abbrev cli : CliLibrary
cli = record {
  texts = texts;
  decimal = λ n. "n";
  align = λ s. s;
  open_file = λ path. ok three_records;
  base = λ path. path;
  marshal = λ request. ok request.method;
  marshal_indent = λ request. ok request.method;
  request_error = λ url. none;
  exchange = λ request. ok (record { status_code = 200; body = ok "forbidden" });
  unmarshal = λ body. some forbidden_batch;
}

abbrev real_run : Flags
real_run = record {
  file_path = "batch.csv";
  dry_run = false;
  method = "Wallet.ProcessTransactionBatch";
  server_url = "http://localhost:8080/api";
  token = "token";
}

run_ingest-Sends_example : Sends cli real_run (run_ingest cli real_run)
run_ingest-Sends_example = run_ingest-Sends cli real_run

preview_counts_example :
    (count_where (λ s. s == "c1") (dup_refs (late_row ∷ early_row ∷ late_row ∷ [])) ≡ 1)
    × ((count_rows (late_row ∷ early_row ∷ late_row ∷ []) empty_breakdown).earn_count
          + (count_rows (late_row ∷ early_row ∷ late_row ∷ []) empty_breakdown).spend_count
        ≡ 3)
preview_counts_example = preview_counts (late_row ∷ early_row ∷ late_row ∷ []) "c1"
