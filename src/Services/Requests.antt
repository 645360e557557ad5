-- ===== src/Services/Requests.antt =====
-- The requests that reach `ToolService` (services/tools.py), as one type, and what a sequence of them
-- does to the world. The accounting of confirmed calls stands in the modules below.
pub mod Frame
pub mod Accounting
pub mod Asking
pub mod History
pub mod Results
pub mod Quiet
pub mod Deployed
use aws_remote_mcp.Prelude.{String, Bool, true, false, Option, none, some}
use aws_remote_mcp.Prelude.Effect.{Action}
use aws_remote_mcp.Json.{Fields}
use aws_remote_mcp.Core.Models.{Stdlib, CallerContext, ToolResult}
use aws_remote_mcp.Services.Tools.{ToolService, run_aws_operation}
use aws_remote_mcp.Services.Tools.Cost.{prepare_aws_cost_query, execute_aws_cost_query}
use aws_remote_mcp.Services.Tools.Messages.{
  prepare_telegram_message, execute_telegram_message, prepare_trello_card, execute_trello_card,
}

pub data Request : Type 0 where
  aws_operation : String → Fields → Request
  prepare_cost : CallerContext → String → String → String → String → Request
  execute_cost : CallerContext → String → String → String → String → String → Request
  prepare_telegram : CallerContext → String → String → Request
  execute_telegram : CallerContext → String → String → String → Request
  prepare_trello : CallerContext → String → String → String → String → Request
  execute_trello : CallerContext → String → String → String → String → String → Request

module _ {W : Type 0} (std : Stdlib) (service : ToolService W) where
  unfoldable pub handle : Request → Action W ToolResult
  handle (aws_operation operation arguments) = run_aws_operation std service operation arguments
  handle (prepare_cost caller start end granularity group_by) =
      prepare_aws_cost_query std service caller start end granularity group_by
  handle (execute_cost caller token start end granularity group_by) =
      execute_aws_cost_query std service caller token start end granularity group_by
  handle (prepare_telegram caller destination message) =
      prepare_telegram_message std service caller destination message
  handle (execute_telegram caller token destination message) =
      execute_telegram_message std service caller token destination message
  handle (prepare_trello caller board list_name title description) =
      prepare_trello_card std service caller board list_name title description
  handle (execute_trello caller token board list_name title description) =
      execute_trello_card std service caller token board list_name title description

-- The confirmation token that a request presents.
abbrev pub token_of : Request → Option String
token_of (execute_cost _ token _ _ _ _) = some token
token_of (execute_telegram _ token _ _) = some token
token_of (execute_trello _ token _ _ _ _) = some token
token_of _ = none

-- The request asks for a confirmation.
abbrev pub asks : Request → Bool
asks (prepare_cost _ _ _ _ _) = true
asks (prepare_telegram _ _ _) = true
asks (prepare_trello _ _ _ _ _) = true
asks _ = false
