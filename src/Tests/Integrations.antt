-- ===== src/Tests/Integrations.antt =====
-- The theorems on the writes, applied to a configuration with one chat and one list.
use aws_remote_mcp.Prelude.{ℕ, ◌+◌, ◌≡◌, String, true, some, none, refl}
use aws_remote_mcp.Prelude.Result.{Result, ok}
use aws_remote_mcp.Json
use aws_remote_mcp.Json.{Json, obj, text, nat, Fields, end, field}
use aws_remote_mcp.Adapters.Integrations.{Http, unconfirmed}
use aws_remote_mcp.Adapters.Integrations.Config.{
  Ssm, SsmIntegrationConfigProvider, Cached, load, send_message, create_card,
}
use aws_remote_mcp.Adapters.Integrations.Attempts.{Attempt}
use aws_remote_mcp.Adapters.Integrations.Attempts.Writes.{writes-Attempt, load_again}

abbrev config : Fields
config =
    field "telegram"
      (obj (
        field "bot_token" (text "12345:abcdefghijklmnopqrst")
          (field "destinations" (obj (field "team" (text "-100") end)) end)))
      end

abbrev answer : Fields
answer = field "ok" (Json.bool true) (field "result" (obj (field "message_id" (nat 7) end)) end)

-- The bytes of a body are their decoded value, and a world is the number of requests.
abbrev http : Http ℕ (Result Json)
http = record {
  transport = λ request n. (ok (200, ok (obj answer)), n + 1);
  failure = λ e. unconfirmed;
  size = λ body. 100;
  loads = λ body. ok (obj answer);
  loads_text = λ t. ok (obj config);
}

abbrev parameter_name : String
parameter_name = "/portfolio/aws-remote-mcp/dev/integrations"

abbrev ssm : Ssm ℕ
ssm = record {
  client_factory = λ service region n. (ok tt, n);
  get_parameter = λ parameter n. (
    ok (
        obj (
          field "Parameter"
            (obj (
              field "Name" (text parameter_name)
                (field "Type" (text "SecureString") (field "Value" (text "{}") end))))
            end)),
    n,
  );
}

abbrev provider : SsmIntegrationConfigProvider
provider = record { parameter_name = parameter_name; region = "eu-west-1" }

abbrev fresh : Cached ℕ
fresh = record { cached = none; outside = 0 }

sent : send_message http ssm provider "team" "hello" fresh ≡ (
  ok (
      field "accepted"
        (Json.bool true)
        (field "provider" (text "telegram") (field "message_id" (text "7") end))),
  record { cached = some config; outside = 1 },
)
unfolding send_message Json.get aws_remote_mcp.Adapters.Integrations.Telegram.create
    aws_remote_mcp.Prelude.Split.has_char aws_remote_mcp.Prelude.Text.all
    aws_remote_mcp.Prelude.Split.cut aws_remote_mcp.Prelude.Text.length
    aws_remote_mcp.Prelude.Split.without_prefix
    aws_remote_mcp.Adapters.Integrations.Telegram.send_message aws_remote_mcp.Prelude.lookup
    aws_remote_mcp.Prelude.Text.take aws_remote_mcp.Prelude.Int.show
sent = refl

writes-Attempt_example :
    Attempt http 0
      (send_message http ssm provider "team" "hello" fresh).0
      (send_message http ssm provider "team" "hello" fresh).1.outside
    × Attempt http 0
        (create_card http ssm provider "board" "list" "title" "" fresh).0
        (create_card http ssm provider "board" "list" "title" "" fresh).1.outside
writes-Attempt_example =
    writes-Attempt http ssm provider (λ n. n) (λ request n. refl) (λ service region n. refl)
      (λ parameter n. refl) "team" "hello" "board" "list" "title" "" fresh

loaded : (load http ssm provider fresh).0 ≡ ok config
unfolding load Json.get
loaded = refl

load_again_example :
    load http ssm provider (load http ssm provider fresh).1
    ≡ (ok config, (load http ssm provider fresh).1)
load_again_example = load_again http ssm provider fresh config loaded
