-- ===== src/Ingest/Summary.antt =====
-- `Summarize` of cmd/cli/pkg/ingest/summary.go, with the response of client.go.
use loyalty_points_app.Prelude.{
  ℕ, String, Option, none, some, List, [], ◌∷◌, ◌++◌, length, map, select, concat, ◌==◌,
  if◌then◌else◌,
}
use loyalty_points_app.Prelude.Int.{ℤ}
use loyalty_points_app.Errs.{text}
use loyalty_points_app.Sql.{Result, ok, err}
use loyalty_points_app.Ingest.Rows.{Row, RowError}

pub record Rejection : Type 0 where
  pub line : ℕ
  pub ref : String
  pub reason : String

pub record Summary : Type 0 where
  pub file : String
  pub sent : ℕ
  pub accepted : ℕ
  pub duplicates : ℕ
  pub rejected : ℕ
  pub local_errors : ℕ
  pub rejections : List Rejection

pub record RpcFailure : Type 0 where
  pub code : ℤ
  pub message : String

pub record ElementOutcome : Type 0 where
  pub ref : String
  pub status : String
  pub reason : String

pub record BatchOutcome : Type 0 where
  pub results : List ElementOutcome
  pub accepted : ℕ
  pub duplicate : ℕ
  pub rejected : ℕ

-- `result` is what `json.Unmarshal` makes of the raw result.
pub record Response : Type 0 where
  pub result : Result BatchOutcome
  pub failure : Option RpcFailure

abbrev pub rejection_of_error : RowError → Rejection
rejection_of_error x = record { line = x.line; ref = x.ref; reason = x.reason }

abbrev pub reject_row : String → Row → Rejection
reject_row reason row = record { line = row.line; ref = row.ref; reason = reason }

-- The map from refs to lines: a later row takes the place of an earlier one, and a ref that is not
-- there has line zero.
abbrev pub line_or : ℕ → String → List Row → ℕ
line_or line ref [] = line
line_or line ref (r ∷ rows) = line_or (if r.ref == ref then r.line else line) ref rows

abbrev pub line_by_ref : List Row → String → ℕ
line_by_ref rows ref = line_or 0 ref rows

abbrev pub rejection_of_outcome : List Row → ElementOutcome → Rejection
rejection_of_outcome rows x = record {
  line = line_by_ref rows x.ref;
  ref = x.ref;
  reason = x.reason;
}

-- The summary of a dry run.
abbrev pub planned : String → List Row → List RowError → Summary
planned file rows local_errors = record {
  file = file;
  sent = length rows;
  accepted = 0;
  duplicates = 0;
  rejected = 0;
  local_errors = length local_errors;
  rejections = map rejection_of_error local_errors;
}

-- The whole batch is rejected for one reason.
abbrev pub reject_all : List Row → String → Summary → Summary
reject_all rows reason s = record s {
  rejected = length rows;
  rejections = s.rejections ++ map (reject_row reason) rows;
}

abbrev pub add_result : List Row → Result BatchOutcome → Summary → Summary
add_result rows (err x) s = reject_all rows (concat "could not decode batch result: " (text x)) s
add_result rows (ok b) s = record s {
  accepted = b.accepted;
  duplicates = b.duplicate;
  rejected = b.rejected;
  rejections =
      s.rejections
      ++ map (rejection_of_outcome rows) (select (λ x. x.status == "rejected") b.results);
}

abbrev pub add_response : List Row → Option RpcFailure → Result BatchOutcome → Summary → Summary
add_response rows (some x) result s = reject_all rows x.message s
add_response rows none result s = add_result rows result s

unfoldable pub summarize : String → List Row → List RowError → Option Response → Summary
unfolding text
summarize file rows local_errors none = planned file rows local_errors
summarize file rows local_errors (some r) =
    add_response rows r.failure r.result (planned file rows local_errors)
