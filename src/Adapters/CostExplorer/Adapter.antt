-- ===== src/Adapters/CostExplorer/Adapter.antt =====
-- adapters/aws_cost_explorer.py: `get_cost_and_usage`.
use aws_remote_mcp.Prelude.{
  ℕ, zero, suc, ltb, true, ◌||◌, Option, none, some, List, [], ◌∷◌, length, take,
}
use aws_remote_mcp.Prelude.Result.{Result, ok, err, cost_query_error}
use aws_remote_mcp.Prelude.Effect.{Action, ◌>>◌}
use aws_remote_mcp.Json.{Json, text, obj, Fields, end, field, get}
use aws_remote_mcp.Core.Models.{Stdlib}
use aws_remote_mcp.Core.CostQuery.{
  CostExplorerQuery, validate_cost_explorer_query, cost_explorer_metric,
}
use aws_remote_mcp.Adapters.Protocols.{
  AdapterIssue, AdapterStatus, AwsAdapterResult, CostExplorerAdapter,
}
use aws_remote_mcp.Adapters.Protocols as Protocols
use aws_remote_mcp.Adapters.Inventory.{adapter_issue}
use aws_remote_mcp.Adapters.Values.{as_list, array, truthy}
use aws_remote_mcp.Adapters.CostExplorer.{
  CostClient, AwsCostExplorerAdapter, cost_explorer_region, max_cost_periods, limits, returned,
  failure,
}
use aws_remote_mcp.Adapters.CostExplorer.Rows.{Rows, read_periods}

abbrev pub status_of : ℕ → List Json → AdapterStatus
status_of zero periods = AdapterStatus.ok
status_of (suc n) [] = AdapterStatus.error
status_of (suc n) (_ ∷ _) = AdapterStatus.partial

abbrev pub issues_of : ℕ → List AdapterIssue
issues_of zero = []
issues_of (suc n) =
    adapter_issue "cost_explorer_invalid_rows"
      "Some Cost Explorer results were omitted because they were invalid."
    ∷ []

abbrev pub result_of : CostExplorerQuery → Rows → AwsAdapterResult
result_of query s = record {
  body = field "region" (text cost_explorer_region) (
      field "read_only" (Json.bool true) (
        field "time_period"
          (obj (field "start" (text query.start_date) (field "end" (text query.end_date) end)))
          (field "granularity" (text query.granularity) (
            field "group_by" (text query.group_by) (
              limits (
                returned (length s.sanitized_periods) s.group_count s.clipped
                  (array s.sanitized_periods)))))));
  sdk_requests = 1;
  resources = s.group_count;
  status = status_of s.malformed_count s.sanitized_periods;
  issues = issues_of s.malformed_count;
}

abbrev pub invalid_response : Result AwsAdapterResult
invalid_response =
    failure "invalid_cost_explorer_response" "AWS Cost Explorer returned an invalid response." 1

abbrev pub first_rows : Fields → List Json → Rows
first_rows response raw_periods = record {
  sanitized_periods = [];
  group_count = 0;
  malformed_count = 0;
  clipped = truthy (get "NextPageToken" response) || ltb max_cost_periods (length raw_periods);
}

module _ {W : Type 0} (std : Stdlib) (client : CostClient W)
    (adapter : AwsCostExplorerAdapter) where
  abbrev pub read_rows : CostExplorerQuery → Fields → Option (List Json) → Result AwsAdapterResult
  read_rows query response none = invalid_response
  read_rows query response (some raw_periods) = Protocols.create (
      result_of query (
        read_periods std client.plain_decimal (length raw_periods)
          (take max_cost_periods raw_periods) (first_rows response raw_periods)))

  abbrev pub read_response : CostExplorerQuery → Result Json → Result AwsAdapterResult
  read_response query (err e) =
      failure "cost_explorer_query_unavailable" "AWS Cost Explorer query could not be completed." 1
  read_response query (ok (obj response)) =
      read_rows query response (as_list (get "ResultsByTime" response))
  read_response query (ok _) = invalid_response

  -- The body of the second `try`.
  abbrev pub request_cost : CostExplorerQuery → Action W Json
  request_cost query = do
    client.client_factory "ce" cost_explorer_region
    client.get_cost_and_usage (query.start_date, query.end_date) query.granularity
        (cost_explorer_metric ∷ []) (query.group_by ∷ []) adapter.billing_view_arn

  abbrev pub with_query : Result CostExplorerQuery → Action W AwsAdapterResult
  with_query (ok normalized) w =
      let (response, w') = request_cost normalized w in (read_response normalized response, w')
  with_query (err (cost_query_error code message)) w = (failure code message 0, w)
  with_query (err e) w = (err e, w)

  unfoldable pub get_cost_and_usage : CostExplorerQuery → Action W AwsAdapterResult
  unfolding failure read_periods
  get_cost_and_usage query = with_query (
      validate_cost_explorer_query std (text query.start_date) (text query.end_date)
        (text query.granularity) (text query.group_by))

  abbrev pub cost_explorer_adapter : CostExplorerAdapter W
  cost_explorer_adapter = record {
    billing_view_arn = adapter.billing_view_arn;
    get_cost_and_usage = get_cost_and_usage;
  }
