-- ===== src/Adapters/Fakes.antt =====
-- adapters/fakes.py: the recording adapters that a local service has by default.
use aws_remote_mcp.Prelude.{
  String, Bool, true, Option, none, some, List, [], ◌∷◌, ◌++◌, Dict, lookup, length,
}
use aws_remote_mcp.Prelude.Result.{adapter_error}
use aws_remote_mcp.Prelude.Effect.{Action, pure, raise}
use aws_remote_mcp.Prelude.Text
use aws_remote_mcp.Prelude.Int.{show_nat}
use aws_remote_mcp.Json.{Json, text, Fields, end, field}
use aws_remote_mcp.Core.CostQuery.{CostExplorerQuery}
use aws_remote_mcp.Adapters.Protocols
use aws_remote_mcp.Adapters.Protocols.{AwsAdapterResult}

-- The exception of an `AdapterError`, which the fakes raise on demand.
pub record Failure : Type 0 where
  pub code : String
  pub message : String
  pub retryable : Bool

abbrev pub outcome : {A W : Type 0} → Option Failure → A → Action W A
outcome none a = pure a
outcome (some f) a = raise (adapter_error f.code f.message f.retryable)

abbrev get_or : {A : Type 0} → A → Option A → A
get_or d none = d
get_or d (some a) = a

-- `FakeAwsAdapter`; the latest call stands last.
pub record FakeAws : Type 0 where
  pub responses : Dict AwsAdapterResult
  pub failures : Dict Failure
  pub calls : List (String × Fields)

-- `FakeTelegramAdapter`
pub record FakeTelegram : Type 0 where
  pub failure : Option Failure
  pub calls : List (String × String)

-- `FakeTrelloAdapter`
pub record FakeTrello : Type 0 where
  pub failure : Option Failure
  pub calls : List (String × String × String × String)

-- `FakeAwsCostExplorerAdapter`
pub record FakeCostExplorer : Type 0 where
  pub response : AwsAdapterResult
  pub failure : Option Failure
  pub calls : List CostExplorerQuery

abbrev empty_response : String → AwsAdapterResult
empty_response operation = record {
  body = field "operation" (text operation) end;
  sdk_requests = 0;
  resources = 0;
  status = Protocols.AdapterStatus.ok;
  issues = [];
}

unfoldable pub execute : String → Fields → Action FakeAws AwsAdapterResult
execute operation arguments fake =
    outcome (lookup operation fake.failures)
      (get_or (empty_response operation) (lookup operation fake.responses))
      (record fake { calls = fake.calls ++ ((operation, arguments) ∷ []) })

unfoldable pub send_message : String → String → Action FakeTelegram Fields
send_message destination message fake =
    let recorded = record fake { calls = fake.calls ++ ((destination, message) ∷ []) } in
    outcome recorded.failure
      (field "accepted" (Json.bool true)
        (field "message_id" (text (Text.◌++◌ "fake-" (show_nat (length recorded.calls)))) end))
      recorded

unfoldable pub create_card : String → String → String → String → Action FakeTrello Fields
create_card board list_name title description fake =
    let recorded = record fake {
      calls = fake.calls ++ ((board, list_name, title, description) ∷ []);
    } in
    outcome recorded.failure
      (field "accepted" (Json.bool true)
        (field "card_id" (text (Text.◌++◌ "fake-" (show_nat (length recorded.calls)))) end))
      recorded

unfoldable pub get_cost_and_usage : CostExplorerQuery → Action FakeCostExplorer AwsAdapterResult
get_cost_and_usage query fake =
    outcome fake.failure fake.response (record fake { calls = fake.calls ++ (query ∷ []) })
