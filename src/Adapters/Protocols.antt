-- ===== src/Adapters/Protocols.antt =====
-- adapters/protocols.py: the ports that the adapters implement, over the world that they act on.
use aws_remote_mcp.Prelude.{ℕ, String, Bool, List, [], ◌∷◌}
use aws_remote_mcp.Prelude.Result.{Result, value_error}
use aws_remote_mcp.Prelude.Effect.{Action}
use aws_remote_mcp.Json.{Fields}
use aws_remote_mcp.Core.CostQuery.{CostExplorerQuery}

pub record AdapterIssue : Type 0 where
  pub code : String
  pub message : String
  pub retryable : Bool

-- `Literal["ok", "partial", "error"]`
pub data AdapterStatus : Type 0 where
  ok partial error : AdapterStatus

-- The field `data` is called `body`. The counters are naturals, so they cannot be negative.
pub record AwsAdapterResult : Type 0 where
  pub body : Fields
  pub sdk_requests : ℕ
  pub resources : ℕ
  pub status : AdapterStatus
  pub issues : List AdapterIssue

-- `__post_init__`
abbrev checked : AdapterStatus → List AdapterIssue → AwsAdapterResult → Result AwsAdapterResult
checked AdapterStatus.ok (_ ∷ _) r =
    Result.err (value_error "Successful AWS adapter results cannot contain issues.")
checked AdapterStatus.ok [] r = Result.ok r
checked status [] r = Result.err (value_error "Non-success AWS adapter results require an issue.")
checked status (_ ∷ _) r = Result.ok r

unfoldable pub create : AwsAdapterResult → Result AwsAdapterResult
create r = checked r.status r.issues r

pub record AwsAdapter (W : Type 0) : Type 0 where
  pub execute : String → Fields → Action W AwsAdapterResult

pub record CostExplorerAdapter (W : Type 0) : Type 0 where
  pub billing_view_arn : String
  pub get_cost_and_usage : CostExplorerQuery → Action W AwsAdapterResult

pub record TelegramAdapter (W : Type 0) : Type 0 where
  pub send_message : String → String → Action W Fields

pub record TrelloAdapter (W : Type 0) : Type 0 where
  pub create_card : String → String → String → String → Action W Fields
