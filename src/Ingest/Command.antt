-- ===== src/Ingest/Command.antt =====
-- `Send` of cmd/cli/pkg/ingest/client.go, and `runIngest` of cmd/cli/cmd/ingest.go.
use loyalty_points_app.Prelude.{
  ℕ, String, Bool, true, false, Option, none, some, List, [], ◌∷◌, concat, ◌==◌, if◌then◌else◌,
}
use loyalty_points_app.Prelude.Int.{ℤ, pos}
use loyalty_points_app.Errs.{Error, plain, wrapped}
use loyalty_points_app.Sql.{Result, ok, err}
use loyalty_points_app.Ingest.Rows.{TextLibrary, CsvFile, Row, RowError, parse_csv, sort_rows}
use loyalty_points_app.Ingest.Batch.{BatchRequest, build_request}
use loyalty_points_app.Ingest.Summary.{Response, summarize}
use loyalty_points_app.Ingest.Printing.{concat_all, format}
use loyalty_points_app.Ingest.Preview.{preview}

-- An HTTP request, as `Send` builds it.
pub record HttpRequest : Type 0 where
  pub url : String
  pub body : String
  -- the Authorization header; empty where it is not set
  pub authorization : String

pub record HttpResponse : Type 0 where
  pub status_code : ℕ
  pub body : Result String

-- os, encoding/csv and encoding/json, fmt, text/tabwriter, path/filepath and net/http. `exchange` is
-- the server behind `client.Do`.
pub record CliLibrary : Type 0 where
  pub texts : TextLibrary
  pub decimal : ℤ → String
  pub align : String → String
  pub open_file : String → Result CsvFile
  pub base : String → String
  pub marshal : BatchRequest → Result String
  pub marshal_indent : BatchRequest → Result String
  pub request_error : String → Option Error
  pub exchange : HttpRequest → Result HttpResponse
  -- `json.Unmarshal` into a response
  pub unmarshal : String → Option Response

-- What a run has sent and printed, and its error.
pub record Ran : Type 0 where
  pub sent : List HttpRequest
  pub printed : String
  pub failure : Option Error

-- The command's flags.
pub record Flags : Type 0 where
  pub file_path : String
  pub dry_run : Bool
  pub method : String
  pub server_url : String
  pub token : String

module _ (lib : CliLibrary) where
  abbrev pub decoded : ℕ → String → Option Response → Result Response
  decoded status body (some response) = ok response
  decoded status body none = err (
      plain
        (concat_all ("unexpected response (HTTP " ∷ lib.decimal (pos status) ∷ "): " ∷ body ∷ [])))

  abbrev pub read_response : ℕ → Result String → Result Response
  read_response status (err x) = err (wrapped "could not read response" x)
  read_response status (ok body) = decoded status body (lib.unmarshal body)

  abbrev pub received : String → Result HttpResponse → Result Response
  received url (err x) = err (wrapped (concat "could not reach " url) x)
  received url (ok response) = read_response response.status_code response.body

  abbrev pub http_request : String → String → String → HttpRequest
  http_request url token body = record {
    url = url;
    body = body;
    authorization = if token == "" then "" else concat "Bearer " token;
  }

  -- What goes out, and what comes back.
  abbrev pub exchanged : HttpRequest → List HttpRequest × Result Response
  exchanged request = (request ∷ [], received request.url (lib.exchange request))

  abbrev pub built : String → String → String → Option Error → List HttpRequest × Result Response
  built url token body (some x) = ([], err (wrapped "could not build request" x))
  built url token body none = exchanged (http_request url token body)

  abbrev pub marshalled : String → String → Result String → List HttpRequest × Result Response
  marshalled url token (err x) = ([], err (wrapped "could not marshal request" x))
  marshalled url token (ok body) = built url token body (lib.request_error url)

  unfoldable pub send : String → String → BatchRequest → List HttpRequest × Result Response
  send url token request = marshalled url token (lib.marshal request)

  abbrev pub stopped : Error → Ran
  stopped x = record { sent = []; printed = ""; failure = some x }

  abbrev pub previewed : String → List Row → List RowError → Result String → Ran
  previewed name rows row_errors (err x) = stopped (wrapped "could not encode request" x)
  previewed name rows row_errors (ok encoded) = record {
    sent = [];
    printed = concat_all (
        encoded
        ∷ "\n"
        ∷ format lib.decimal (summarize name rows row_errors none) true
        ∷ preview lib.texts lib.decimal lib.align rows
        ∷ []);
    failure = none;
  }

  abbrev pub summarized :
      String → List Row → List RowError → List HttpRequest × Result Response → Ran
  summarized name rows row_errors (sent, err x) = record {
    sent = sent;
    printed = "";
    failure = some x;
  }
  summarized name rows row_errors (sent, ok response) = record {
    sent = sent;
    printed = format lib.decimal (summarize name rows row_errors (some response)) false;
    failure = none;
  }

  -- On rows that are sorted: a dry run, or a real one.
  abbrev pub run_rows : Flags → List Row → List RowError → Bool → Ran
  run_rows flags rows row_errors true =
      previewed (lib.base flags.file_path) rows row_errors
        (lib.marshal_indent (build_request lib.texts rows flags.method))
  run_rows flags rows row_errors false =
      summarized (lib.base flags.file_path) rows row_errors
        (send flags.server_url flags.token (build_request lib.texts rows flags.method))

  abbrev pub run_parsed : Flags → Result (List Row × List RowError) → Ran
  run_parsed flags (err x) = stopped x
  run_parsed flags (ok (rows, row_errors)) =
      run_rows flags (sort_rows rows) row_errors flags.dry_run

  abbrev pub run_opened : Flags → Result CsvFile → Ran
  run_opened flags (err x) = stopped (wrapped (concat "could not open " flags.file_path) x)
  run_opened flags (ok file) = run_parsed flags (parse_csv lib.texts file)

  unfoldable pub run_ingest : Flags → Ran
  run_ingest flags = run_opened flags (lib.open_file flags.file_path)
