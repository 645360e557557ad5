-- ===== src/Server.antt =====
-- http_server.py: the tools that a server registers, the audit of their results and the form of the
-- answers. The MCP server itself, which parses the call and refuses an unknown tool, is third-party.
pub mod Calls
use aws_remote_mcp.Prelude.{String, Bool, true, false, not, ◌&&◌, Option, none, some, List, [], ◌∷◌}
use aws_remote_mcp.Prelude.Result.{⊤, ok}
use aws_remote_mcp.Prelude.Effect.{Action, pure, lift, ◌>>=◌, ◌>>◌, try}
use aws_remote_mcp.Prelude.Int.{ℤ}
use aws_remote_mcp.Json
use aws_remote_mcp.Json.{Json, Items, nil, cons, num, text, arr, obj, Fields, end, field}
use aws_remote_mcp.Core.Models.{
  Stdlib, CallerContext, ToolIssue, ConfirmationMetadata, ToolResult, ToolStatus, no_counters,
}
use aws_remote_mcp.Core.Audit.{status_text, counters_fields, build_tool_audit_record}
use aws_remote_mcp.Services.Tools.{ToolService}
use aws_remote_mcp.Services.Requests.{
  Request, aws_operation, prepare_cost, execute_cost, prepare_telegram, execute_telegram,
  prepare_trello, execute_trello, handle,
}

-- `_serialize_issue`
unfoldable pub serialize_issue : ToolIssue → Fields
serialize_issue i =
    field "code" (text i.code)
      (field "message" (text i.message) (field "retryable" (Json.bool i.retryable) end))

abbrev issues : List ToolIssue → Items
issues [] = nil
issues (i ∷ is) = cons (obj (serialize_issue i)) (issues is)

abbrev confirmation_fields : Option ConfirmationMetadata → Fields
confirmation_fields none = end
confirmation_fields (some m) =
    field "confirmation"
      (obj (
        field "token" (text m.token) (
          field "action" (text m.action) (
            field "payload_digest" (text m.payload_digest)
              (field "expires_at" (text m.expires_at) end)))))
      end

unfoldable pub serialize_tool_result : ToolResult → Fields
serialize_tool_result result = field "status" (text (status_text result.status)) (
    field "data" (obj result.body) (
      field "warnings" (arr (issues result.warnings)) (
        field "errors" (arr (issues result.errors)) (
          field "counters" (obj (counters_fields result.counters))
            (confirmation_fields result.confirmation)))))

-- The arguments of `create_server` that its tools read.
pub record Options (W : Type 0) : Type 0 where
  pub caller_provider : Action W CallerContext
  pub environment : String
  pub include_previews : Bool
  pub include_external_writes : Bool
  pub include_cost_explorer : Bool
  pub audit_sink : Option (Fields → Action W ⊤)
  pub audit_request_id : String

-- A call of a tool that the server may have registered, by the name of the function behind it.
pub data ToolCall : Type 0 where
  diagnostic list_aws_inventory list_project_aws_resources : ToolCall
  search_aws_resources : String → ℤ → ToolCall
  prepare_aws_cost_query : String → String → String → String → ToolCall
  execute_aws_cost_query : String → String → String → String → String → ToolCall
  prepare_remote_telegram_message : String → String → ToolCall
  execute_remote_telegram_message : String → String → String → ToolCall
  prepare_remote_trello_card : String → String → String → String → ToolCall
  execute_remote_trello_card : String → String → String → String → String → ToolCall
  prepare_telegram_message : String → ToolCall
  prepare_trello_card : String → String → ToolCall

-- The conditions under which `create_server` registers the tool.
unfoldable pub is_registered : {W : Type 0} → Options W → ToolCall → Bool
is_registered o diagnostic = true
is_registered o list_aws_inventory = true
is_registered o list_project_aws_resources = true
is_registered o (search_aws_resources _ _) = true
is_registered o (prepare_aws_cost_query _ _ _ _) = o.include_cost_explorer
is_registered o (execute_aws_cost_query _ _ _ _ _) = o.include_cost_explorer
is_registered o (prepare_remote_telegram_message _ _) =
    o.include_previews && o.include_external_writes
is_registered o (execute_remote_telegram_message _ _ _) =
    o.include_previews && o.include_external_writes
is_registered o (prepare_remote_trello_card _ _ _ _) =
    o.include_previews && o.include_external_writes
is_registered o (execute_remote_trello_card _ _ _ _ _) =
    o.include_previews && o.include_external_writes
is_registered o (prepare_telegram_message _) = o.include_previews && not o.include_external_writes
is_registered o (prepare_trello_card _ _) = o.include_previews && not o.include_external_writes

module _ {W : Type 0} (std : Stdlib) (options : Options W) (service : ToolService W) where
  abbrev caller_or : Option CallerContext → Action W CallerContext
  caller_or none = options.caller_provider
  caller_or (some caller) = pure caller

  abbrev pub audit :
      Option (Fields → Action W ⊤) → String → ToolResult → Option CallerContext → Action W ⊤
  audit none tool result caller = pure tt
  audit (some sink) tool result caller = do
    c ← caller_or caller
    fields ←
        lift
          (build_tool_audit_record std tool result c options.environment options.audit_request_id)
    sink fields

  unfoldable pub audited_result : String → ToolResult → Option CallerContext → Action W Fields
  audited_result tool result caller =
      try (audit options.audit_sink tool result caller >> pure (serialize_tool_result result))
        (λ _. some (serialize_tool_result result)) pure

  abbrev pub by_request : String → Request → Action W Fields
  by_request tool request = do result ← handle std service request; audited_result tool result none

  abbrev pub by_caller : String → (CallerContext → Request) → Action W Fields
  by_caller tool request = do
    caller ← options.caller_provider
    result ← handle std service (request caller)
    audited_result tool result (some caller)

  abbrev diagnostic_fields : Fields
  diagnostic_fields = field "status" (text "ok") (
      field "server" (text "aws-remote-mcp") (
        field "version" (text "0.1.0") (
          field "transport" (text "streamable-http") (
            field "environment" (text options.environment)
              (field "external_side_effects" (Json.bool false) end)))))

  -- `ToolResult(status="ok")`
  abbrev pub ready : ToolResult
  ready = record {
    status = ToolStatus.ok;
    body = end;
    warnings = [];
    errors = [];
    counters = no_counters;
    confirmation = none;
  }

  abbrev pub diagnostic_audit : Option (Fields → Action W ⊤) → Action W ⊤
  diagnostic_audit none = pure tt
  diagnostic_audit (some sink) = audited_result "diagnostico" ready none >> pure tt

  -- The functions behind the tools.
  unfoldable pub invoke : ToolCall → Action W Fields
  unfolding audited_result
  invoke diagnostic = diagnostic_audit options.audit_sink >> pure diagnostic_fields
  invoke list_aws_inventory =
      by_request "listar_inventario_aws" (aws_operation "aws.inventory.list" end)
  invoke list_project_aws_resources =
      by_request "listar_recursos_proyecto_aws"
        (aws_operation "aws.cloudformation.project_inventory" end)
  invoke (search_aws_resources query limit) = by_request "buscar_recursos_aws" (
      aws_operation "aws.resource_explorer.search"
        (field "query" (text query) (field "limit" (num limit) end)))
  invoke (prepare_aws_cost_query start stop granularity group_by) =
      by_caller "preparar_consulta_costes_aws"
        λ caller. prepare_cost caller start stop granularity group_by
  invoke (execute_aws_cost_query confirmation start stop granularity group_by) =
      by_caller "consultar_costes_aws"
        λ caller. execute_cost caller confirmation start stop granularity group_by
  invoke (prepare_remote_telegram_message destination message) =
      by_caller "preparar_mensaje_telegram" λ caller. prepare_telegram caller destination message
  invoke (execute_remote_telegram_message confirmation destination message) =
      by_caller "enviar_mensaje_telegram"
        λ caller. execute_telegram caller confirmation destination message
  invoke (prepare_remote_trello_card board list_name title description) =
      by_caller "preparar_tarjeta_trello"
        λ caller. prepare_trello caller board list_name title description
  invoke (execute_remote_trello_card confirmation board list_name title description) =
      by_caller "crear_tarjeta_trello"
        λ caller. execute_trello caller confirmation board list_name title description
  invoke (prepare_telegram_message message) =
      by_caller "preparar_mensaje_telegram"
        λ caller. prepare_telegram caller "local-preview" message
  invoke (prepare_trello_card title description) =
      by_caller "preparar_tarjeta_trello"
        λ caller. prepare_trello caller "local-preview" "local-preview" title description
