-- ===== src/Core/Audit.antt =====
-- core/audit.py: the audit record of a tool's outcome.
pub mod Secrecy
use aws_remote_mcp.Prelude.{
  ℕ, leb, eqb, String, Bool, not, ◌&&◌, ◌||◌, List, [], ◌∷◌, map, if◌then◌else◌, length, take, all,
  contains,
}
use aws_remote_mcp.Prelude.Result.{Result, ok, err, value_error}
use aws_remote_mcp.Prelude.Text
use aws_remote_mcp.Json.{Items, nil, cons, text, arr, obj, nat, Fields, end, field}
use aws_remote_mcp.Core.Models
use aws_remote_mcp.Core.Models.{
  Stdlib, CallerContext, fingerprint, ToolIssue, OperationCounters, ToolStatus, ToolResult,
}

abbrev pub audited_tools : List String
audited_tools =
    "diagnostico" ∷ "listar_inventario_aws" ∷ "listar_recursos_proyecto_aws" ∷ "buscar_recursos_aws"
    ∷ "preparar_consulta_costes_aws" ∷ "consultar_costes_aws" ∷ "preparar_mensaje_telegram"
    ∷ "enviar_mensaje_telegram" ∷ "preparar_tarjeta_trello" ∷ "crear_tarjeta_trello" ∷ []

abbrev pub max_issue_codes : ℕ
max_issue_codes = 8

-- A text of `low` to `high` characters of a class.
abbrev pub matches : (ℕ → Bool) → ℕ → ℕ → String → Bool
matches p low high t = Text.all p t && leb low (Text.length t) && leb (Text.length t) high

-- `SAFE_CONTEXT_PATTERN`
abbrev pub is_safe_context : String → Bool
is_safe_context = matches (λ c. Text.is_alnum c || Text.is_one_of "._:/-" c) 1 128

-- `SAFE_ISSUE_CODE_PATTERN`
abbrev pub is_safe_issue_code : String → Bool
is_safe_issue_code = matches (λ c. Text.is_lower c || Text.is_digit c || eqb c b'_') 1 64

abbrev pub safe_issue_code : String → String
safe_issue_code code = if is_safe_issue_code code then code else "invalid_issue_code"

-- `_safe_issue_codes`
unfoldable pub safe_issue_codes : List String → List String
safe_issue_codes codes = map safe_issue_code (take max_issue_codes codes)

-- The value of a status, as `Literal` gives it.
abbrev pub status_text : ToolStatus → String
status_text ToolStatus.ok = "ok"
status_text ToolStatus.partial = "partial"
status_text ToolStatus.error = "error"
status_text ToolStatus.confirmation_required = "confirmation_required"

abbrev pub texts : List String → Items
texts [] = nil
texts (t ∷ ts) = cons (text t) (texts ts)

abbrev pub counters_fields : OperationCounters → Fields
counters_fields c = field "sdk_requests" (nat c.sdk_requests) (
    field "resources" (nat c.resources) (
      field "external_writes_attempted" (nat c.external_writes_attempted)
        (field "external_writes_succeeded" (nat c.external_writes_succeeded) end)))

abbrev pub codes : List ToolIssue → List String
codes = map (λ i. i.code)

abbrev audit_fields : Stdlib → String → ToolResult → CallerContext → String → String → Fields
audit_fields std tool result caller environment request_id = field "schema_version" (nat 1) (
    field "event_type" (text "mcp_tool_result") (
      field "environment" (text environment) (
        field "request_id" (text request_id) (
          field "caller_fingerprint" (text (fingerprint std caller)) (
            field "tool" (text tool) (
              field "status" (text (status_text result.status)) (
                field "warning_codes" (arr (texts (safe_issue_codes (codes result.warnings)))) (
                  field "error_codes" (arr (texts (safe_issue_codes (codes result.errors))))
                    (field "counters" (obj (counters_fields result.counters)) end)))))))))

unfoldable pub build_tool_audit_record :
    Stdlib → String → ToolResult → CallerContext → String → String → Result Fields
build_tool_audit_record std tool result caller environment request_id =
    if not (contains tool audited_tools)
    then err (value_error "Audit tool name is not allowlisted.")
    else if not (is_safe_context environment)
    then err (value_error "Audit environment is invalid.")
    else if not (is_safe_context request_id)
    then err (value_error "Audit request identifier is invalid.")
    else ok (audit_fields std tool result caller environment request_id)
