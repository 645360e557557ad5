-- ===== src/Services/Tools.antt =====
-- services/tools.py: `ToolService`, the handlers between the transport and the adapters.
pub mod Cost
pub mod Messages
pub mod Sound
pub mod Refused
pub mod Confirmed
pub mod Reads
use aws_remote_mcp.Prelude.{
  ℕ, ◌*◌, ltb, leb, String, len, false, Option, none, some, List, [], ◌∷◌, map, if◌then◌else◌,
}
use aws_remote_mcp.Prelude.Result.{
  Exception, Result, ok, err, confirmation_error, adapter_error, operation_blocked, value_error,
}
use aws_remote_mcp.Prelude.Effect.{Action, pure, lift, try}
use aws_remote_mcp.Prelude.Text
use aws_remote_mcp.Json
use aws_remote_mcp.Json.{obj, Fields, end, field, dumps}
use aws_remote_mcp.Core.Models
use aws_remote_mcp.Core.Models.{
  Stdlib, CallerContext, ToolIssue, OperationCounters, no_counters, ConfirmationMetadata,
  ToolStatus, ToolResult,
}
use aws_remote_mcp.Core.Operations.{OperationRegistry, require_automatic}
use aws_remote_mcp.Core.Confirmation.{ConfirmationProvider}
use aws_remote_mcp.Core.CostQuota.{CostRequestLimiter}
use aws_remote_mcp.Adapters.Protocols.{
  AdapterIssue, AdapterStatus, AwsAdapter, CostExplorerAdapter, TelegramAdapter, TrelloAdapter,
}

abbrev pub max_result_bytes : ℕ
max_result_bytes = 64 * 1024

abbrev pub max_message_chars : ℕ
max_message_chars = 4096

abbrev pub max_card_title_chars : ℕ
max_card_title_chars = 256

abbrev pub max_card_description_chars : ℕ
max_card_description_chars = 5000

pub record ToolService (W : Type 0) : Type 0 where
  pub operations : OperationRegistry
  pub confirmations : ConfirmationProvider W
  pub aws : AwsAdapter W
  pub aws_cost_explorer : Option (CostExplorerAdapter W)
  pub cost_request_limiter : Option (CostRequestLimiter W)
  pub telegram : TelegramAdapter W
  pub trello : TrelloAdapter W
  pub telegram_destinations : List String
  pub trello_destinations : List (String × String)
  pub result_limit : ℕ

-- The check of `__init__` on its `max_result_bytes`, which is the field `result_limit` here.
unfoldable pub create : {W : Type 0} → ToolService W → Result (ToolService W)
create service =
    if leb service.result_limit 0
    then err (value_error "Result size limit must be positive.")
    else ok service

-- `ToolIssue(code, message)`
abbrev pub issue : String → String → ToolIssue
issue code message = record { code = code; message = message; retryable = false }

-- `ToolResult(status="error", data=body, errors=(error,), counters=counters)`
abbrev pub failed : Fields → ToolIssue → OperationCounters → ToolResult
failed body error counters = record {
  status = ToolStatus.error;
  body = body;
  warnings = [];
  errors = error ∷ [];
  counters = counters;
  confirmation = none;
}

-- `_adapter_issue`
abbrev pub adapter_issue : AdapterIssue → ToolIssue
adapter_issue i = record { code = i.code; message = i.message; retryable = i.retryable }

-- `except OperationBlockedError`, `except AdapterError` with `_adapter_failure`
abbrev pub on_blocked : OperationCounters → Exception → Option ToolResult
on_blocked counters (operation_blocked _ message) =
    some (failed end (issue "operation_blocked" message) counters)
on_blocked counters _ = none

abbrev pub on_adapter_error : Fields → OperationCounters → Exception → Option ToolResult
on_adapter_error body counters (adapter_error code message retryable) =
    some (failed body (record { code = code; message = message; retryable = retryable }) counters)
on_adapter_error body counters _ = none

abbrev pub on_confirmation_error : Exception → Option ToolResult
on_confirmation_error (confirmation_error code message) =
    some (failed end (issue code message) no_counters)
on_confirmation_error _ = none

-- `_bounded_result`
abbrev within_limit : Fields → OperationCounters → AdapterStatus → List ToolIssue → ToolResult
within_limit body counters AdapterStatus.partial issues = record {
  status = ToolStatus.partial;
  body = body;
  warnings = issues;
  errors = [];
  counters = counters;
  confirmation = none;
}
within_limit body counters AdapterStatus.error issues = record {
  status = ToolStatus.error;
  body = body;
  warnings = [];
  errors = issues;
  counters = counters;
  confirmation = none;
}
within_limit body counters AdapterStatus.ok issues = record {
  status = ToolStatus.ok;
  body = body;
  warnings = [];
  errors = [];
  counters = counters;
  confirmation = none;
}

unfoldable pub bounded_result :
    ℕ → Fields → OperationCounters → AdapterStatus → List ToolIssue → ToolResult
bounded_result limit body counters status issues =
    if ltb limit (len (dumps (obj body)))
    then failed end
        (issue "result_too_large" "Adapter result exceeded the configured response limit.") counters
    else within_limit body counters status issues

-- `if issue is not None: return ToolResult(status="error", errors=(issue,), counters=counters)`
abbrev pub unless_issue :
    {W : Type 0} → Option ToolIssue → OperationCounters → Action W ToolResult → Action W ToolResult
unless_issue (some i) counters rest = pure (failed end i counters)
unless_issue none counters rest = rest

-- `ToolResult(status="confirmation_required", data={"preview": preview}, confirmation=m)`
abbrev pub confirmation_required : Fields → ConfirmationMetadata → ToolResult
confirmation_required preview m = record {
  status = ToolStatus.confirmation_required;
  body = field "preview" (obj preview) end;
  warnings = [];
  errors = [];
  counters = no_counters;
  confirmation = some m;
}

-- `_consume_confirmation`
abbrev issue_of : Exception → Option (Option ToolIssue)
issue_of (confirmation_error code message) = some (some (issue code message))
issue_of _ = none

module _ {W : Type 0} (std : Stdlib) (service : ToolService W) where
  unfoldable pub run_aws_operation : String → Fields → Action W ToolResult
  run_aws_operation operation arguments =
      try (lift (require_automatic std service.operations operation)) (on_blocked no_counters) λ _.
        try (service.aws.execute operation arguments) (on_adapter_error end no_counters) λ response.
          pure (
            bounded_result service.result_limit response.body
              (record no_counters {
                sdk_requests = response.sdk_requests;
                resources = response.resources;
              })
              response.status (map adapter_issue response.issues))

  unfoldable pub consume_confirmation :
      String → CallerContext → String → Fields → Action W (Option ToolIssue)
  consume_confirmation token caller action payload =
      try (service.confirmations.consume token caller action payload) issue_of (λ _. pure none)

  -- `try: confirmation = self._confirmations.prepare(...)` and the result with its preview
  unfoldable pub prepared : CallerContext → String → Fields → Fields → Action W ToolResult
  prepared caller action payload preview =
      try (service.confirmations.prepare caller action payload) on_confirmation_error
        (λ m. pure (confirmation_required preview m))
