-- ===== src/Tests/Servers.antt =====
-- The theorems on the audit records and on the tools of a server, applied to the test service.
use aws_remote_mcp.Prelude.{
  ◌≤◌, true, false, Option, none, some, [], ◌∷◌, ◌≡◌, refl, ap, subst, ◌↔◌, length, All, contains,
}
use aws_remote_mcp.Prelude.Result.{⊤, ok, is_ok, unexpected}
use aws_remote_mcp.Prelude.Effect.{Action, pure, raise}
use aws_remote_mcp.Json.{Fields, end, field, text}
use aws_remote_mcp.Core.Models.{no_counters, ToolResult}
use aws_remote_mcp.Core.Audit.{
  build_tool_audit_record, safe_issue_codes, is_safe_issue_code, is_safe_context, audited_tools,
  max_issue_codes,
}
use aws_remote_mcp.Core.Audit.Secrecy.{
  audit_hides_body, recorded_codes-IsSafe, build_tool_audit_record-ok_iff,
}
use aws_remote_mcp.Core.Confirmation.Persistent.Live.{persistent_IsSingleUse}
use aws_remote_mcp.Services.Tools.{issue, failed}
use aws_remote_mcp.Services.Requests.Deployed.{deployed_frame}
use aws_remote_mcp.Server.{
  Options, ToolCall, audited_result, serialize_tool_result, invoke, is_registered,
}
use aws_remote_mcp.Server.Calls.{audited_result-serialize, calls_per_tool, preview_server_calls}
use aws_remote_mcp.Tests.Requests.{service, base, made, outside, settings, quota}
use aws_remote_mcp.Tests.World.{
  World, start, std, host, month, table, table_laws, clock_quiet, tokens_quiet, month_quiet, alice,
}

abbrev refusal : ToolResult
refusal = failed end (issue "invalid_message" "Telegram message length is invalid.") no_counters

-- The same refusal with another message and a body.
abbrev secret : ToolResult
secret = failed (field "token" (text "s3cret") end) (issue "invalid_message" "s3cret") no_counters

audit_hides_body_example :
    build_tool_audit_record std "diagnostico" refusal alice "local" "request-1"
    ≡ build_tool_audit_record std "diagnostico" secret alice "local" "request-1"
audit_hides_body_example =
    audit_hides_body std "diagnostico" refusal secret alice "local" "request-1" refl refl refl refl

recorded_codes-IsSafe_example :
    (length (safe_issue_codes ("ok_code" ∷ "Not safe" ∷ [])) ≤ max_issue_codes)
    × All (λ code. is_safe_issue_code code ≡ true) (safe_issue_codes ("ok_code" ∷ "Not safe" ∷ []))
recorded_codes-IsSafe_example = recorded_codes-IsSafe ("ok_code" ∷ "Not safe" ∷ [])

build_tool_audit_record-ok_iff_example :
    (is_ok (build_tool_audit_record std "diagnostico" refusal alice "local" "request 1") ≡ true) ↔ (
      (contains "diagnostico" audited_tools ≡ true)
      × (is_safe_context "local" ≡ true)
      × (is_safe_context "request 1" ≡ true))
build_tool_audit_record-ok_iff_example =
    build_tool_audit_record-ok_iff std "diagnostico" refusal alice "local" "request 1"

abbrev sink_or :
    (Fields → Action World ⊤) → Option (Fields → Action World ⊤) → Fields → Action World ⊤
sink_or f none = f
sink_or f (some g) = g

-- A server with every tool and an audit sink that always raises.
abbrev options : Options World
options = record {
  caller_provider = pure alice;
  environment = "dev";
  include_previews = true;
  include_external_writes = true;
  include_cost_explorer = true;
  audit_sink = some (λ fields. raise (unexpected "sink"));
  audit_request_id = "request-1";
}

abbrev previews : Options World
previews = record options {
  include_external_writes = false;
  include_cost_explorer = false;
  audit_sink = none;
}

audited_result-serialize_example :
    (audited_result std options service "diagnostico" refusal none start).0
    ≡ ok (serialize_tool_result refusal)
audited_result-serialize_example =
    audited_result-serialize std options service "diagnostico" refusal none start

quiet_sink :
    (sink : Fields → Action World ⊤)
    → options.audit_sink ≡ some sink
    → (fields : Fields) (w : World) → made (sink fields w).1 ≡ made w
quiet_sink sink e fields w =
    subst (λ (f : Fields → Action World ⊤). made (f fields w).1 ≡ made w) (ap (sink_or sink) e) refl

no_sink :
    (sink : Fields → Action World ⊤)
    → previews.audit_sink ≡ some sink
    → (fields : Fields) (w : World) → made (sink fields w).1 ≡ made w
no_sink sink e fields w = cc

abbrev message_tool : ToolCall
message_tool = ToolCall.execute_remote_telegram_message "7" "team" "hello"

calls_per_tool_example :
    (0 ≤ made (invoke std options service message_tool start).1)
    × (made (invoke std options service message_tool start).1 ≤ 1)
unfolding persistent_IsSingleUse
calls_per_tool_example =
    calls_per_tool std host options service made
      (persistent_IsSingleUse std host table settings table_laws clock_quiet tokens_quiet)
      (deployed_frame std host table settings table_laws clock_quiet tokens_quiet month quota
        month_quiet base made outside)
      (λ w. refl) quiet_sink message_tool start

abbrev preview_tool : ToolCall
preview_tool = ToolCall.prepare_telegram_message "hello"

registered : is_registered previews preview_tool ≡ true
unfolding is_registered
registered = refl

preview_server_calls_example : made (invoke std previews service preview_tool start).1 ≡ made start
unfolding persistent_IsSingleUse
preview_server_calls_example =
    preview_server_calls std host previews service made
      (persistent_IsSingleUse std host table settings table_laws clock_quiet tokens_quiet)
      (deployed_frame std host table settings table_laws clock_quiet tokens_quiet month quota
        month_quiet base made outside)
      (λ w. refl) no_sink preview_tool start refl refl registered
