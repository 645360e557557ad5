-- ===== src/Core/CostQuery/Contract.antt =====
-- What a validated query is, and that validating it again gives it back: the adapter, which
-- validates once more, never refuses what the service passed on.
use aws_remote_mcp.Prelude.{◌+◌, ◌≤◌, ◌<◌, String, true, ◌≡◌, ap, ◌∙◌, inl, inr, arith, contains}
use aws_remote_mcp.Prelude.Result.{Result-cases, ok}
use aws_remote_mcp.Json.{text}
use aws_remote_mcp.Core.Models.{Stdlib}
use aws_remote_mcp.Core.Calendar.{Date, ordinal, iso_format}
use aws_remote_mcp.Core.Calendar.RoundTrip.{iso_format-from_iso_format}
use aws_remote_mcp.Core.CostQuery.{
  CostExplorerQuery, parse_iso_date, validate_cost_explorer_query, granularities,
  group_by_dimensions,
}

-- What the service and the adapter rely on.
pub record IsValidQuery (std : Stdlib) (q : CostExplorerQuery) : Type 0 where
  pub start : Date
  pub end : Date
  pub start_read : parse_iso_date std (text q.start_date) "start_date" ≡ ok start
  pub end_read : parse_iso_date std (text q.end_date) "end_date" ≡ ok end
  pub ordered : ordinal start < ordinal end
  pub bounded : ordinal end ≤ ordinal start + 31
  pub granularity_allowed : contains q.granularity granularities ≡ true
  pub group_by_allowed : contains q.group_by group_by_dimensions ≡ true

parse_iso_date-iso_format :
    (std : Stdlib) (t : String) (name : String) (d : Date)
    → parse_iso_date std (text t) name ≡ ok d
    → iso_format d ≡ t
unfolding parse_iso_date
parse_iso_date-iso_format std t name d h = iso_format-from_iso_format t d (ground arith)

-- An accepted query holds the four texts of the request as they were: the two dates, read and
-- written again, are the same texts.
pub validate_keeps :
    (std : Stdlib) (start_date end_date granularity group_by : String) (q : CostExplorerQuery)
    → validate_cost_explorer_query std
        (text start_date)
        (text end_date)
        (text granularity)
        (text group_by)
      ≡ ok q
    → q ≡ record {
      start_date = start_date;
      end_date = end_date;
      granularity = granularity;
      group_by = group_by;
    }
unfolding validate_cost_explorer_query
validate_keeps std start_date end_date granularity group_by q h =
    grind (arith, parse_iso_date-iso_format)

-- Validating an accepted query once more gives the same query.
pub validate_again :
    (std : Stdlib) (start_date end_date granularity group_by : String) (q : CostExplorerQuery)
    → validate_cost_explorer_query std
        (text start_date)
        (text end_date)
        (text granularity)
        (text group_by)
      ≡ ok q
    → validate_cost_explorer_query std
        (text q.start_date)
        (text q.end_date)
        (text q.granularity)
        (text q.group_by)
      ≡ ok q
validate_again std start_date end_date granularity group_by q h =
    rw (validate_keeps std start_date end_date granularity group_by q h)
      (h ∙ ap ok (validate_keeps std start_date end_date granularity group_by q h))

-- An accepted query meets the contract.
pub validate-IsValidQuery :
    (std : Stdlib) (start_date end_date granularity group_by : String) (q : CostExplorerQuery)
    → validate_cost_explorer_query std
        (text start_date)
        (text end_date)
        (text granularity)
        (text group_by)
      ≡ ok q
    → IsValidQuery std q
unfolding validate_cost_explorer_query
validate-IsValidQuery std start_date end_date granularity group_by q h =
    let same = validate_keeps std start_date end_date granularity group_by q h in
    elim (Result-cases (parse_iso_date std (text start_date) "start_date")) [
      | inr (x, e) ↦ ground arith
      | inl (s, e) ↦ elim (Result-cases (parse_iso_date std (text end_date) "end_date")) [
        | inr (x, e') ↦ ground arith
        | inl (t, e') ↦ record {
          start = s;
          end = t;
          start_read = rw same e;
          end_read = rw same e';
          ordered = ground arith;
          bounded = ground arith;
          granularity_allowed = rw same (ground arith);
          group_by_allowed = rw same (ground arith);
        }
      ]
    ]

-- A query that meets the contract is accepted.
pub IsValidQuery-validate :
    (std : Stdlib) (q : CostExplorerQuery)
    → IsValidQuery std q
    → validate_cost_explorer_query std
        (text q.start_date)
        (text q.end_date)
        (text q.granularity)
        (text q.group_by)
      ≡ ok q
unfolding validate_cost_explorer_query
IsValidQuery-validate std q v = ground (
  arith,
  v.start_read,
  v.end_read,
  parse_iso_date-iso_format std q.start_date "start_date" v.start,
  parse_iso_date-iso_format std q.end_date "end_date" v.end,
)
