-- ===== src/Tests/Requests.antt =====
-- The theorems on the tool service, applied to a service over the test world.
use aws_remote_mcp.Prelude.{
  ℕ, ◌+◌, ◌≤◌, none, some, List, [], ◌∷◌, ◌≡◌, refl, arith, lookup, insert, length, take,
}
use aws_remote_mcp.Prelude.Result.{ok}
use aws_remote_mcp.Prelude.Effect.{raise, Action, pure}
use aws_remote_mcp.Prelude.Int.{show_nat}
use aws_remote_mcp.Json.{end}
use aws_remote_mcp.Dynamo.{attribute}
use aws_remote_mcp.Core.Models.{no_counters, ToolResult}
use aws_remote_mcp.Core.Operations.{empty_registry, cost_explorer_operation}
use aws_remote_mcp.Core.Confirmation.Persistent
use aws_remote_mcp.Core.Confirmation.Persistent.{Settings}
use aws_remote_mcp.Core.Confirmation.Persistent.Live.{persistent_IsSingleUse}
use aws_remote_mcp.Core.CostQuota.Persistent as Quota
use aws_remote_mcp.Adapters.Protocols.{AwsAdapterResult, AdapterStatus}
use aws_remote_mcp.Services.Tools.{ToolService, issue, failed}
use aws_remote_mcp.Services.Tools.Sound.{IsSound}
use aws_remote_mcp.Services.Requests.{Request, prepare_telegram, execute_telegram, handle}
use aws_remote_mcp.Services.Requests.History.{
  after, calls_under, draws_under, confirmed_call_once, calls_per_request,
}
use aws_remote_mcp.Services.Requests.Deployed.{
  IsOutside, deployed, deployed_frame, deployed_call_once,
}
use aws_remote_mcp.Services.Requests.Quiet.{consume_calls}
use aws_remote_mcp.Services.Tools.Cost.{execute_aws_cost_query}
use aws_remote_mcp.Services.Tools.Refused.{execute_refused}
use aws_remote_mcp.Core.CostQuota.{limit_exceeded}
use aws_remote_mcp.Services.Requests.Results.{returned-IsSound}
use aws_remote_mcp.Tests.World.{
  World, start, std, host, month, table, table_laws, clock_quiet, tokens_quiet, month_quiet, alice,
}

abbrev pub settings : Settings
settings = record { table_name = "shared"; ttl = 300_000_000 }

abbrev pub quota : Quota.Settings
quota = record { table_name = "shared"; action = cost_explorer_operation; limit = 3 }

abbrev pub answer : AwsAdapterResult
answer = record {
  body = end;
  sdk_requests = 1;
  resources = 0;
  status = AdapterStatus.ok;
  issues = [];
}

abbrev one_call : {A : Type 0} → A → Action World A
one_call a w = (ok a, record w { made = w.made + 1 })

abbrev pub base : ToolService World
base = record {
  operations = empty_registry;
  confirmations = Persistent.provider std host table settings;
  aws = record { execute = λ o a. pure answer };
  aws_cost_explorer =
      some (record { billing_view_arn = "arn"; get_cost_and_usage = λ q. one_call answer });
  cost_request_limiter = none;
  telegram = record { send_message = λ d m. one_call end };
  trello = record { create_card = λ b l t d. one_call end };
  telegram_destinations = "team" ∷ [];
  trello_destinations = ("board", "list") ∷ [];
  result_limit = 1000;
}

abbrev pub made : World → ℕ
made w = w.made

pub outside :
    IsOutside std host table settings table_laws clock_quiet tokens_quiet month quota month_quiet
      base made
outside = record {
  clock = λ w. refl;
  tokens = λ w. refl;
  months = λ w. refl;
  put = λ k item c w. ground arith;
  update = λ k us c w. ground arith;
  get = λ k w. refl;
  aws = λ o a w. refl;
  aws_table = λ o a. record { keeps = λ w k. refl };
  telegram = λ d m w. refl;
  telegram_table = λ d m. record { keeps = λ w k. refl };
  trello = λ b l t d w. refl;
  trello_table = λ b l t d. record { keeps = λ w k. refl };
  cost = λ a q w e. ground arith;
  cost_table = λ a q e. record { keeps = λ w k. ground arith };
}

abbrev pub service : ToolService World
service =
    deployed std host table settings table_laws clock_quiet tokens_quiet month quota month_quiet
      base

-- A message that is prepared once and executed twice with its token.
abbrev requests : List Request
requests =
    prepare_telegram alice "team" "hello"
    ∷ execute_telegram alice "0" "team" "hello"
    ∷ execute_telegram alice "0" "team" "hello"
    ∷ []

one_draw : draws_under std host service made "0" requests start ≡ 1
unfolding draws_under handle show_nat
one_draw = refl

one_message : calls_under std host service made "0" requests start ≡ 1
unfolding calls_under handle aws_remote_mcp.Services.Tools.Messages.execute_telegram_message
    aws_remote_mcp.Services.Tools.Messages.validate_telegram aws_remote_mcp.Prelude.Text.length
    aws_remote_mcp.Services.Tools.consume_confirmation Persistent.consume Persistent.update_consumed
    aws_remote_mcp.Core.Confirmation.canonical_payload_digest aws_remote_mcp.Json.dumps
    aws_remote_mcp.Json.sort_keys attribute lookup
    aws_remote_mcp.Services.Tools.Messages.prepare_telegram_message
    aws_remote_mcp.Services.Tools.prepared Persistent.prepare insert
    aws_remote_mcp.Core.Models.fingerprint aws_remote_mcp.Prelude.Text.take
    aws_remote_mcp.Core.Models.record_external_write_attempt
    aws_remote_mcp.Dynamo.is_conditional_failure Persistent.read_record Persistent.diagnose
one_message = refl

nothing_stored : table.item start "0" ≡ none
unfolding lookup
nothing_stored = refl

deployed_call_once_example : calls_under std host service made "0" requests start ≤ 1
deployed_call_once_example =
    deployed_call_once std host table settings table_laws clock_quiet tokens_quiet month quota
      month_quiet base made outside "0" requests start nothing_stored (omega (arith, one_draw))

nothing_live :
    (persistent_IsSingleUse std host table settings table_laws clock_quiet tokens_quiet).live "0"
      start
    ≡ 0
unfolding persistent_IsSingleUse lookup aws_remote_mcp.Core.Confirmation.Persistent.Live.live
    aws_remote_mcp.Core.Confirmation.Persistent.Live.is_unconsumed
nothing_live = refl

confirmed_call_once_example : calls_under std host service made "0" requests start ≤ 1
unfolding persistent_IsSingleUse
confirmed_call_once_example =
    confirmed_call_once std host service made
      (persistent_IsSingleUse std host table settings table_laws clock_quiet tokens_quiet)
      (deployed_frame std host table settings table_laws clock_quiet tokens_quiet month quota
        month_quiet base made outside)
      "0" requests start nothing_live (omega (arith, one_draw))

calls_per_request_example :
    (0 ≤ (after std host service made (execute_telegram alice "7" "team" "hello") start).made)
    × ((after std host service made (execute_telegram alice "7" "team" "hello") start).made ≤ 1)
unfolding persistent_IsSingleUse
calls_per_request_example =
    calls_per_request std host service made
      (persistent_IsSingleUse std host table settings table_laws clock_quiet tokens_quiet)
      (deployed_frame std host table settings table_laws clock_quiet tokens_quiet month quota
        month_quiet base made outside)
      (execute_telegram alice "7" "team" "hello") start

abbrev refusal : ToolResult
refusal = failed end (issue "invalid_message" "Telegram message length is invalid.") no_counters

returned : (handle std service (execute_telegram alice "7" "team" "") start).0 ≡ ok refusal
unfolding handle aws_remote_mcp.Services.Tools.Messages.execute_telegram_message
    aws_remote_mcp.Services.Tools.Messages.validate_telegram
returned = refl

returned-IsSound_example : IsSound 1000 refusal
returned-IsSound_example =
    returned-IsSound std service (execute_telegram alice "7" "team" "") start refusal returned

-- A service whose quota is used up.
abbrev exhausted : ToolService World
exhausted = record base { cost_request_limiter = some (record { acquire = raise limit_exceeded }) }

execute_refused_example :
    (execute_aws_cost_query std exhausted alice "7" "2026-11-01" "2026-11-25" "DAILY" "SERVICE"
      start).1.made
    ≡ 0
execute_refused_example =
    execute_refused std exhausted made alice "7" "2026-11-01" "2026-11-25" "DAILY" "SERVICE" start
      (λ w. (refl, refl))
      (consume_calls std host table settings made outside.clock outside.update outside.get)
