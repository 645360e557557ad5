-- ===== src/Core/CostQuery.antt =====
-- core/cost_query.py: the narrow parameters of a Cost Explorer query.
pub mod Contract
use aws_remote_mcp.Prelude.{
  ℕ, ◌-◌, ltb, leb, String, not, Option, none, some, List, [], ◌∷◌, if◌then◌else◌, contains,
}
use aws_remote_mcp.Prelude.Result.{
  ◌>>=◌, ◌>>◌, Exception, Result, ok, err, raise_if, cost_query_error,
}
use aws_remote_mcp.Prelude.Text.{◌++◌ as ◌⧺◌}
use aws_remote_mcp.Json.{Json, text}
use aws_remote_mcp.Core.Models.{Stdlib, matches_digit}
use aws_remote_mcp.Core.Calendar.{Date, ordinal, matches_iso, from_iso_format, iso_format}

abbrev pub max_cost_query_days : ℕ
max_cost_query_days = 31

abbrev pub cost_explorer_metric : String
cost_explorer_metric = "UnblendedCost"

abbrev pub cost_explorer_max_cost_usd : String
cost_explorer_max_cost_usd = "0.01"

abbrev pub granularities : List String
granularities = "DAILY" ∷ "MONTHLY" ∷ []

abbrev pub group_by_dimensions : List String
group_by_dimensions = "SERVICE" ∷ "REGION" ∷ []

pub record CostExplorerQuery : Type 0 where
  pub start_date : String
  pub end_date : String
  pub granularity : String
  pub group_by : String

abbrev pub date_of : String → Option Date → Result Date
date_of name none =
    err (
      cost_query_error "invalid_cost_date"
        ("Cost query " ⧺ name ⧺ " is not a valid calendar date."))
date_of name (some d) = ok d

unfoldable pub parse_iso_date : Stdlib → Json → String → Result Date
parse_iso_date std (text t) name =
    if matches_iso (matches_digit std) t
    then date_of name (from_iso_format t)
    else err (
        cost_query_error "invalid_cost_date"
          ("Cost query " ⧺ name ⧺ " must use YYYY-MM-DD format."))
parse_iso_date std _ name =
    err
      (cost_query_error "invalid_cost_date" ("Cost query " ⧺ name ⧺ " must use YYYY-MM-DD format."))

-- `isinstance(value, str) and value in options`, as the text
abbrev pub one_of : List String → Exception → Json → Result String
one_of options e (text t) = if contains t options then ok t else err e
one_of options e _ = err e

unfoldable pub validate_cost_explorer_query :
    Stdlib → Json → Json → Json → Json → Result CostExplorerQuery
validate_cost_explorer_query std start_date end_date granularity group_by = do
  parsed_start ← parse_iso_date std start_date "start_date"
  parsed_end ← parse_iso_date std end_date "end_date"
  raise_if (leb (ordinal parsed_end) (ordinal parsed_start))
      (cost_query_error "invalid_cost_period" "Cost query end_date must be after start_date.")
  raise_if (ltb max_cost_query_days (ordinal parsed_end - ordinal parsed_start))
      (cost_query_error "cost_period_too_long" "Cost query period cannot exceed 31 days.")
  granularity' ←
      one_of granularities
        (cost_query_error "invalid_cost_granularity"
          "Cost query granularity must be DAILY or MONTHLY.")
        granularity
  group_by' ←
      one_of group_by_dimensions
        (cost_query_error "invalid_cost_group_by" "Cost query grouping must be SERVICE or REGION.")
        group_by
  ok (record {
    start_date = iso_format parsed_start;
    end_date = iso_format parsed_end;
    granularity = granularity';
    group_by = group_by';
  })
