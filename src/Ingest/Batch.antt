-- ===== src/Ingest/Batch.antt =====
-- cmd/cli/pkg/ingest/request.go.
use loyalty_points_app.Prelude.{String, List, map, if◌then◌else◌}
use loyalty_points_app.Prelude.Int.{ℤ, pos}
use loyalty_points_app.Sql.{is_zero}
use loyalty_points_app.Ingest.Rows.{TextLibrary, Row}

pub record RowParams : Type 0 where
  pub ref : String
  pub account_id : String
  pub kind : String
  pub points : ℤ
  -- left out of the JSON where it is empty
  pub occurred_at : String

-- The request's one parameter is the batch.
pub record BatchRequest : Type 0 where
  pub version : String
  pub method : String
  pub transactions : List RowParams
  pub id : ℤ

abbrev pub params_of : TextLibrary → Row → RowParams
params_of texts row = record {
  ref = row.ref;
  account_id = row.account_id;
  kind = row.kind;
  points = row.points;
  occurred_at = if is_zero row.occurred_at then "" else texts.format_rfc3339 row.occurred_at;
}

abbrev pub build_request : TextLibrary → List Row → String → BatchRequest
build_request texts rows method = record {
  version = "2.0";
  method = method;
  transactions = map (params_of texts) rows;
  id = pos 1;
}
