-- ===== src/Services/Requests/Results.antt =====
-- What the results that `ToolService` (services/tools.py) returns say, over all its requests.
use aws_remote_mcp.Prelude.{ℕ, Option, ◌≡◌, arith}
use aws_remote_mcp.Prelude.Result.{Result, ok, err}
use aws_remote_mcp.Prelude.Effect.{Action, ◌>>=◌}
use aws_remote_mcp.Json.{Fields}
use aws_remote_mcp.Core.Models.{no_counters, Stdlib, ToolIssue, ToolResult}
use aws_remote_mcp.Services.Tools.{ToolService, unless_issue}
use aws_remote_mcp.Services.Tools.Sound.{
  IsSound, Sound, SoundAction, unless_sound, slot_sound, run_aws_operation-IsSound, prepared_sound,
  write_once_sound, query_sound, billable_sound, confirmed_sound,
}
use aws_remote_mcp.Core.CostQuery.{CostExplorerQuery}
use aws_remote_mcp.Adapters.Protocols.{CostExplorerAdapter}
use aws_remote_mcp.Services.Tools.Cost.{
  prepare_aws_cost_query, execute_aws_cost_query, billable_call, with_slot,
}
use aws_remote_mcp.Services.Tools.Messages.{
  write_once, prepare_telegram_message, execute_telegram_message, prepare_trello_card,
  execute_trello_card,
}
use aws_remote_mcp.Services.Requests.{
  Request, aws_operation, prepare_cost, execute_cost, prepare_telegram, execute_telegram,
  prepare_trello, execute_trello, handle,
}

Sound-result :
    (limit : ℕ) (r : Result ToolResult) (t : ToolResult)
    → Sound limit r
    → r ≡ ok t
    → IsSound limit t
Sound-result limit (ok u) t h e = ground (arith, h)
Sound-result limit (err x) t h e = ground arith

module _ {W : Type 0} (std : Stdlib) (service : ToolService W) where
  paid_query_sound :
      (consumed : Action W (Option ToolIssue)) (query : CostExplorerQuery)
      (a : CostExplorerAdapter W)
      → SoundAction service.result_limit (
          consumed >>= λ refused.
          unless_issue refused no_counters (
            with_slot std service service.cost_request_limiter (billable_call std service query a)))
  paid_query_sound consumed query a =
      confirmed_sound std service consumed
        (with_slot std service service.cost_request_limiter (billable_call std service query a))
        (slot_sound service.result_limit std service service.cost_request_limiter
          (billable_call std service query a) (billable_sound std service query a))

  write_sound :
      (consumed : Action W (Option ToolIssue)) (send : Action W Fields)
      → SoundAction service.result_limit
          (consumed >>= λ refused. unless_issue refused no_counters (write_once std service send))
  write_sound consumed send =
      confirmed_sound std service consumed (write_once std service send)
        (write_once_sound std service send)

  handle_sound : (r : Request) → SoundAction service.result_limit (handle std service r)
  unfolding handle prepare_aws_cost_query execute_aws_cost_query prepare_telegram_message
      execute_telegram_message prepare_trello_card execute_trello_card
  handle_sound (aws_operation o a) = run_aws_operation-IsSound std service o a
  handle_sound (prepare_cost c s e g b) = search (query_sound, prepared_sound)
  handle_sound (prepare_telegram c x m) = search (unless_sound, prepared_sound)
  handle_sound (prepare_trello c b l t x) = search (unless_sound, prepared_sound)
  handle_sound (execute_cost c t s e g b) = search (query_sound, paid_query_sound) depth 6
  handle_sound (execute_telegram c t x m) = search (unless_sound, write_sound)
  handle_sound (execute_trello c k b l t x) = search (unless_sound, write_sound)

  -- Every result that a request returns reports at most one attempted external write and no more
  -- successful ones than attempted, and its body is within the service's size limit when the
  -- status is ok or partial.
  pub returned-IsSound :
      (r : Request) (w : W) (t : ToolResult)
      → (handle std service r w).0 ≡ ok t
      → IsSound service.result_limit t
  returned-IsSound r w t e =
      Sound-result service.result_limit (handle std service r w).0 t (handle_sound r w) e
