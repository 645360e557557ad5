-- ===== src/Tests/Messages.antt =====
-- A message that is prepared and then sent, on a service with the in-memory guard.
use aws_remote_mcp.Prelude.{◌+◌, none, some, [], ◌∷◌, ◌≡◌, refl, arith, length}
use aws_remote_mcp.Prelude.Result.{ok}
use aws_remote_mcp.Prelude.Effect.{Action, pure}
use aws_remote_mcp.Json.{end, dumps, sort_keys, obj}
use aws_remote_mcp.Core.Models.{ConfirmationMetadata}
use aws_remote_mcp.Core.Operations.{empty_registry}
use aws_remote_mcp.Core.Confirmation.{aware, canonical_payload_digest}
use aws_remote_mcp.Core.Confirmation.Memory
use aws_remote_mcp.Core.Confirmation.Memory.{Guard}
use aws_remote_mcp.Services.Tools.{ToolService}
use aws_remote_mcp.Services.Tools.Messages.{
  telegram_action, telegram_payload, prepare_telegram_message, execute_telegram_message,
}
use aws_remote_mcp.Services.Tools.Confirmed.{local, confirmation_of, reply, execute-prepare}
use aws_remote_mcp.Tests.Requests.{answer}
use aws_remote_mcp.Tests.World.{World, start, std, host, alice, message}

abbrev sent : {A : Type 0} → A → Action (Guard World) A
sent a g = (ok a, record g { outside = record g.outside { made = g.outside.made + 1 } })

abbrev base : ToolService (Guard World)
base = record {
  operations = empty_registry;
  confirmations = Memory.provider std host;
  aws = record { execute = λ o a. pure answer };
  aws_cost_explorer = none;
  cost_request_limiter = none;
  telegram = record { send_message = λ d m. sent end };
  trello = record { create_card = λ b l t d. sent end };
  telegram_destinations = "team" ∷ [];
  trello_destinations = ("board", "list") ∷ [];
  result_limit = 1000;
}

abbrev guard : Guard World
guard = record { ttl = 300_000_000; records = []; outside = start }

abbrev metadata : ConfirmationMetadata
metadata = record {
  token = "0";
  action = telegram_action;
  payload_digest = dumps (sort_keys (obj message));
  expires_at = "305000000";
}

answered :
    confirmation_of
      (prepare_telegram_message std (local std host base) alice "team" "hello" guard).0
    ≡ some metadata
unfolding prepare_telegram_message aws_remote_mcp.Services.Tools.Messages.validate_telegram
    aws_remote_mcp.Prelude.Text.length aws_remote_mcp.Services.Tools.prepared Memory.prepare
    canonical_payload_digest dumps sort_keys
answered = refl

later :
    (host.clock
      (prepare_telegram_message std (local std host base) alice "team" "hello" guard).1.outside).0
    ≡ aware 5_000_000
unfolding prepare_telegram_message aws_remote_mcp.Services.Tools.Messages.validate_telegram
    aws_remote_mcp.Prelude.Text.length aws_remote_mcp.Services.Tools.prepared Memory.prepare
    canonical_payload_digest dumps sort_keys
later = refl

execute-prepare_example :
    let g' = (prepare_telegram_message std (local std host base) alice "team" "hello" guard).1 in
    let consumed =
      Memory.consume std host "0" alice telegram_action (telegram_payload "team" "hello") g' in
    let (response, w) = sent end consumed.1 in
    execute_telegram_message std (local std host base) alice "0" "team" "hello" g'
    ≡ (reply 1000 response, w)
execute-prepare_example =
    execute-prepare std host base alice "team" "hello" guard answered refl later (omega arith)
