-- ===== src/Ingest/Sending.antt =====
-- What a run of the command sends.
use loyalty_points_app.Prelude.{count_where}
use loyalty_points_app.Prelude.{
  String, ◌≡◌, refl, Bool, true, false, Option, none, some, ◌⊎◌, inl, inr, List, [], ◌∷◌,
}
use loyalty_points_app.Errs.{Error}
use loyalty_points_app.Prelude.{map, concat, ◌==◌, if◌then◌else◌}
use loyalty_points_app.Prelude.Int.{pos}
use loyalty_points_app.Sql.{Result, ok, err, is_zero}
use loyalty_points_app.Ingest.Rows.{CsvFile, Row, RowError, parse_csv, sort_rows}
use loyalty_points_app.Ingest.Batch.{RowParams, build_request}
use loyalty_points_app.Ingest.Summary.{Response, summarize}
use loyalty_points_app.Ingest.Printing.{format}
use loyalty_points_app.Ingest.Accounting.{count_where-sort_rows}
use loyalty_points_app.Ingest.Order.{IsChronological, IsChronological-sort_rows}
use loyalty_points_app.Ingest.Command.{
  HttpRequest, CliLibrary, Ran, Flags, http_request, received, built, marshalled, send, summarized,
  previewed, run_rows, run_parsed, run_opened, run_ingest,
}

module _ (lib : CliLibrary) (flags : Flags) where
  -- What a run prints of the response to its request.
  abbrev Reports : List Row → List RowError → Result Response → Ran → Type 0
  Reports rows row_errors (err x) r = (r.failure ≡ some x) × (r.printed ≡ "")
  Reports rows row_errors (ok response) r =
      (r.failure ≡ none)
      × (r.printed
          ≡ format lib.decimal
              (summarize (lib.base flags.file_path) rows row_errors (some response)) false)

  -- A row of the file as it goes out: its time is left out where it has none.
  abbrev pub sent_row : Row → RowParams
  sent_row row = record {
    ref = row.ref;
    account_id = row.account_id;
    kind = row.kind;
    points = row.points;
    occurred_at = if is_zero row.occurred_at then "" else lib.texts.format_rfc3339 row.occurred_at;
  }

  -- Nothing is sent, in a dry run or with an error; or one request, of all the rows of the file, each
  -- as often as it is there, from the earliest to the latest, with the token, and what is printed is the summary of its response.
  pub data Sends (r : Ran) : Type 0 where
    silent : r.sent ≡ [] → (flags.dry_run ≡ true) ⊎ ((x : Error) × (r.failure ≡ some x)) → Sends r
    one_batch :
        (file : CsvFile) (rows : List Row) (row_errors : List RowError) (body : String)
        (queue : List Row) (request : HttpRequest)
        → flags.dry_run ≡ false
        → lib.open_file flags.file_path ≡ ok file
        → parse_csv lib.texts file ≡ ok (rows, row_errors)
        → ((p : Row → Bool) → count_where p queue ≡ count_where p rows)
        → IsChronological queue
        → lib.marshal (record {
          version = "2.0";
          method = flags.method;
          transactions = map sent_row queue;
          id = pos 1;
        })
          ≡ ok body
        → request.url ≡ flags.server_url
        → request.body ≡ body
        → ((flags.token == "") ≡ false → request.authorization ≡ concat "Bearer " flags.token)
        → r.sent ≡ request ∷ []
        → Reports queue row_errors (received lib flags.server_url (lib.exchange request)) r
        → Sends r

  previewed-Sends :
      (rows : List Row) (row_errors : List RowError) (encoded : Result String)
      → flags.dry_run ≡ true
      → Sends (previewed lib (lib.base flags.file_path) rows row_errors encoded)
  previewed-Sends rows row_errors (err x) dry = silent refl (inl dry)
  previewed-Sends rows row_errors (ok encoded) dry = silent refl (inl dry)

  Reports-summarized :
      (rows : List Row) (row_errors : List RowError) (sent : List HttpRequest) (z : Result Response)
      → Reports rows row_errors z
          (summarized lib (lib.base flags.file_path) rows row_errors (sent, z))
  Reports-summarized rows row_errors sent (err x) = (refl, refl)
  Reports-summarized rows row_errors sent (ok response) = (refl, refl)

  summarized_sent :
      (rows : List Row) (row_errors : List RowError) (sent : List HttpRequest) (z : Result Response)
      → (summarized lib (lib.base flags.file_path) rows row_errors (sent, z)).sent ≡ sent
  summarized_sent rows row_errors sent (err x) = refl
  summarized_sent rows row_errors sent (ok response) = refl

  module _ (file : CsvFile) (opened : lib.open_file flags.file_path ≡ ok file) where
    module _ (rows : List Row) (row_errors : List RowError) (real : flags.dry_run ≡ false)
        (parsed : parse_csv lib.texts file ≡ ok (rows, row_errors)) where
      abbrev run_exchange : List HttpRequest × Result Response → Ran
      run_exchange = summarized lib (lib.base flags.file_path) (sort_rows rows) row_errors

      built-Sends :
          (body : String) (o : Option Error)
          → lib.marshal (build_request lib.texts (sort_rows rows) flags.method) ≡ ok body
          → Sends (run_exchange (built lib flags.server_url flags.token body o))
      built-Sends body (some x) encoded = silent refl (inr (_, refl))
      built-Sends body none encoded =
          let request = http_request lib flags.server_url flags.token body in
          let response = received lib flags.server_url (lib.exchange request) in
          one_batch file rows row_errors body (sort_rows rows) request real opened parsed
            (λ p. count_where-sort_rows p rows) (IsChronological-sort_rows rows) encoded refl refl
            (λ named. rw named refl)
            (summarized_sent (sort_rows rows) row_errors (request ∷ []) response)
            (Reports-summarized (sort_rows rows) row_errors (request ∷ []) response)

      marshalled-Sends :
          (encoded : Result String)
          → lib.marshal (build_request lib.texts (sort_rows rows) flags.method) ≡ encoded
          → Sends (run_exchange (marshalled lib flags.server_url flags.token encoded))
      marshalled-Sends (err x) same = silent refl (inr (_, refl))
      marshalled-Sends (ok body) same = built-Sends body (lib.request_error flags.server_url) same

    rows-Sends :
        (rows : List Row) (row_errors : List RowError) (dry_run : Bool)
        → flags.dry_run ≡ dry_run
        → parse_csv lib.texts file ≡ ok (rows, row_errors)
        → Sends (run_rows lib flags (sort_rows rows) row_errors dry_run)
    unfolding send
    rows-Sends rows row_errors true dry parsed =
        previewed-Sends (sort_rows rows) row_errors
          (lib.marshal_indent (build_request lib.texts (sort_rows rows) flags.method)) dry
    rows-Sends rows row_errors false real parsed =
        marshalled-Sends rows row_errors real parsed
          (lib.marshal (build_request lib.texts (sort_rows rows) flags.method)) refl

    parsed-Sends :
        (z : Result (List Row × List RowError))
        → parse_csv lib.texts file ≡ z
        → Sends (run_parsed lib flags z)
    parsed-Sends (err x) parsed = silent refl (inr (x, refl))
    parsed-Sends (ok (rows, row_errors)) parsed =
        rows-Sends rows row_errors flags.dry_run refl parsed

  opened-Sends :
      (z : Result CsvFile) → lib.open_file flags.file_path ≡ z → Sends (run_opened lib flags z)
  opened-Sends (err x) opened = silent refl (inr (_, refl))
  opened-Sends (ok file) opened = parsed-Sends file opened (parse_csv lib.texts file) refl

  -- A dry run of the command sends nothing; any other sends nothing and fails, or sends exactly one
  -- request: to the server of the flags, with the method of the flags, its transactions the ref, the
  -- account, the kind, the points and the time of the rows of the file, each as often as it is there,
  -- from the earliest to the latest, and, where a token was given, that token as its bearer. It prints the summary of the response, or fails with the
  -- error of the exchange.
  pub run_ingest-Sends : Sends (run_ingest lib flags)
  unfolding run_ingest
  run_ingest-Sends = opened-Sends (lib.open_file flags.file_path) refl
