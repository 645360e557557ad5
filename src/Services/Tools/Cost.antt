-- ===== src/Services/Tools/Cost.antt =====
-- The Cost Explorer handlers of services/tools.py.
use aws_remote_mcp.Prelude.{String, true, Option, none, some, map}
use aws_remote_mcp.Prelude.Result.{Exception, cost_query_error, cost_quota_error, adapter_error}
use aws_remote_mcp.Prelude.Effect.{Action, pure, lift, ◌>>=◌, try}
use aws_remote_mcp.Json.{Json, text, nat, obj, Fields, end, field}
use aws_remote_mcp.Core.Models.{
  Stdlib, CallerContext, ToolIssue, OperationCounters, no_counters, ToolResult,
}
use aws_remote_mcp.Core.Operations.{require_confirmed_billable, cost_explorer_operation}
use aws_remote_mcp.Core.CostQuery.{
  CostExplorerQuery, validate_cost_explorer_query, cost_explorer_metric, cost_explorer_max_cost_usd,
}
use aws_remote_mcp.Core.CostQuota.{
  CostRequestLimiter, monthly_cost_request_limit, monthly_max_api_cost_usd,
}
use aws_remote_mcp.Adapters.Protocols.{CostExplorerAdapter}
use aws_remote_mcp.Services.Tools.{
  ToolService, issue, failed, unless_issue, prepared, consume_confirmation, on_blocked,
  bounded_result, adapter_issue,
}

-- `_cost_query_payload`
abbrev pub cost_query_payload : CostExplorerQuery → String → Fields
cost_query_payload q billing_view_arn = field "start_date" (text q.start_date) (
    field "end_date" (text q.end_date) (
      field "granularity" (text q.granularity) (
        field "group_by" (text q.group_by) (
          field "metric" (text cost_explorer_metric) (
            field "currency" (text "USD") (
              field "max_cost_usd" (text cost_explorer_max_cost_usd) (
                field "max_api_requests" (nat 1) (
                  field "monthly_request_limit" (nat monthly_cost_request_limit) (
                    field "monthly_max_api_cost_usd" (text monthly_max_api_cost_usd)
                      (field "billing_view_arn" (text billing_view_arn) end))))))))))

-- `_cost_query_preview`
abbrev pub cost_query_preview : CostExplorerQuery → Fields
cost_query_preview q =
    field "time_period"
      (obj (field "start" (text q.start_date) (field "end" (text q.end_date) end)))
      (field "granularity" (text q.granularity) (
        field "group_by" (text q.group_by) (
          field "metric" (text cost_explorer_metric) (
            field "currency" (text "USD") (
              field "max_cost_usd" (text cost_explorer_max_cost_usd) (
                field "max_api_requests" (nat 1) (
                  field "monthly_request_limit" (nat monthly_cost_request_limit) (
                    field "monthly_max_api_cost_usd" (text monthly_max_api_cost_usd)
                      (field "read_only" (Json.bool true) end)))))))))

-- `_cost_quota_data`
abbrev pub cost_quota_data : Fields
cost_quota_data = field "read_only" (Json.bool true) (
    field "monthly_request_limit" (nat monthly_cost_request_limit)
      (field "monthly_max_api_cost_usd" (text monthly_max_api_cost_usd) end))

-- `except CostQueryValidationError`
abbrev pub on_invalid_query : Exception → Option ToolResult
on_invalid_query (cost_query_error code message) =
    some (failed end (issue code message) no_counters)
on_invalid_query _ = none

abbrev pub quota_missing : ToolIssue
quota_missing = issue "cost_quota_unavailable" "The Cost Explorer monthly quota is unavailable."

-- `except CostQuotaError`, then `except Exception`
abbrev pub on_quota_error : Exception → Option ToolResult
on_quota_error (cost_quota_error code message) =
    some (failed cost_quota_data (issue code message) no_counters)
on_quota_error _ = some (failed cost_quota_data quota_missing no_counters)

-- `except AdapterError`, then `except Exception`
abbrev pub on_query_error : OperationCounters → Exception → Option ToolResult
on_query_error counters (adapter_error code message retryable) = some (
    failed cost_quota_data (record { code = code; message = message; retryable = retryable })
      counters)
on_query_error counters _ = some (
    failed cost_quota_data
      (issue "cost_explorer_query_unavailable" "AWS Cost Explorer query could not be completed.")
      counters)

abbrev pub cost_explorer_missing : ToolIssue
cost_explorer_missing = issue "cost_explorer_unavailable" "AWS Cost Explorer is not configured."

-- `if self._aws_cost_explorer is None`
abbrev pub with_adapter :
    {W : Type 0}
    → Option (CostExplorerAdapter W)
    → (CostExplorerAdapter W → Action W ToolResult)
    → Action W ToolResult
with_adapter none rest = pure (failed end cost_explorer_missing no_counters)
with_adapter (some adapter) rest = rest adapter

module _ {W : Type 0} (std : Stdlib) (service : ToolService W) where
  -- The common beginning of the two methods: the gate, the query and the configured adapter.
  abbrev pub with_query :
      String
      → String
      → String
      → String
      → (CostExplorerQuery → CostExplorerAdapter W → Action W ToolResult)
      → Action W ToolResult
  with_query start_date end_date granularity group_by rest =
      try (lift (require_confirmed_billable std service.operations cost_explorer_operation))
        (on_blocked no_counters)
        λ _.
          try
            (lift (
              validate_cost_explorer_query std (text start_date) (text end_date) (text granularity)
                (text group_by)))
            on_invalid_query λ query. with_adapter service.aws_cost_explorer (rest query)

  unfoldable pub prepare_aws_cost_query :
      CallerContext → String → String → String → String → Action W ToolResult
  prepare_aws_cost_query caller start_date end_date granularity group_by =
      with_query start_date end_date granularity group_by λ query adapter.
        prepared std service caller cost_explorer_operation
          (cost_query_payload query adapter.billing_view_arn) (cost_query_preview query)

  -- The billable call, with the slot taken.
  unfoldable pub billable_call : CostExplorerQuery → CostExplorerAdapter W → Action W ToolResult
  billable_call query adapter =
      let counters : OperationCounters = record no_counters { sdk_requests = 1 } in
      try (adapter.get_cost_and_usage query) (on_query_error counters) λ response. pure (
        bounded_result service.result_limit response.body
          (record counters { resources = response.resources }) response.status
          (map adapter_issue response.issues))

  abbrev pub with_slot : Option (CostRequestLimiter W) → Action W ToolResult → Action W ToolResult
  with_slot none rest = pure (failed cost_quota_data quota_missing no_counters)
  with_slot (some limiter) rest = try limiter.acquire on_quota_error (λ _. rest)

  unfoldable pub execute_aws_cost_query :
      CallerContext → String → String → String → String → String → Action W ToolResult
  execute_aws_cost_query caller token start_date end_date granularity group_by =
      with_query start_date end_date granularity group_by λ query adapter. do
        refused ←
            consume_confirmation std service token caller cost_explorer_operation
              (cost_query_payload query adapter.billing_view_arn)
        unless_issue refused no_counters
            (with_slot service.cost_request_limiter (billable_call query adapter))
