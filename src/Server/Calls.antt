-- ===== src/Server/Calls.antt =====
-- What the tools of a server (http_server.py) answer and which calls they make.
use aws_remote_mcp.Prelude.{
  ℕ, ◌+◌, ◌≤◌, String, Bool, true, false, not, Option, none, some, is_none, ◌≡◌, refl, subst, inl,
  inr, arith,
}
use aws_remote_mcp.Prelude.Result.{Result-cases, ⊤, Result, ok, err}
use aws_remote_mcp.Prelude.Effect.{Action, continue}
use aws_remote_mcp.Json.{Fields, end, field, text, num}
use aws_remote_mcp.Core.Models.{Stdlib, CallerContext, ToolResult}
use aws_remote_mcp.Core.Confirmation.{Host}
use aws_remote_mcp.Core.Confirmation.SingleUse.{IsSingleUse, indicator}
use aws_remote_mcp.Services.Tools.{ToolService}
use aws_remote_mcp.Services.Requests.{
  Request, aws_operation, prepare_cost, execute_cost, prepare_telegram, execute_telegram,
  prepare_trello, execute_trello, handle, token_of,
}
use aws_remote_mcp.Services.Requests.Frame.{IsFramed}
use aws_remote_mcp.Services.Requests.History.{calls_per_request}
use aws_remote_mcp.Server.{
  Options, ToolCall, diagnostic, list_aws_inventory, list_project_aws_resources,
  search_aws_resources, is_registered, audit, ready, diagnostic_audit, audited_result,
  serialize_tool_result, by_request, by_caller, invoke,
}

module _ {W : Type 0} (std : Stdlib) (options : Options W) (service : ToolService W) where
  -- Whether the audit is configured or not, and whether it accepts the record, refuses it or raises:
  -- the answer is the serialised result.
  pub audited_result-serialize :
      (tool : String) (result : ToolResult) (caller : Option CallerContext) (w : W)
      → (audited_result std options service tool result caller w).0
        ≡ ok (serialize_tool_result result)
  unfolding audited_result
  audited_result-serialize tool result caller w = ground arith

-- The tools that make a confirmed call when they are given a good confirmation.
abbrev pub is_execute : ToolCall → Bool
is_execute (ToolCall.execute_aws_cost_query _ _ _ _ _) = true
is_execute (ToolCall.execute_remote_telegram_message _ _ _) = true
is_execute (ToolCall.execute_remote_trello_card _ _ _ _ _) = true
is_execute _ = false

module _ {W : Type 0} (std : Stdlib) (host : Host W) (options : Options W) (service : ToolService W)
    (calls : W → ℕ) (law : IsSingleUse std host service.confirmations)
    (frame : IsFramed service law.live calls)
    (quiet_caller : (w : W) → calls (options.caller_provider w).1 ≡ calls w)
    (quiet_sink : (sink : Fields → Action W ⊤)
      → options.audit_sink ≡ some sink
      → (fields : Fields) (w : W) → calls (sink fields w).1 ≡ calls w) where
  calls-audit :
      (o : Option (Fields → Action W ⊤)) (tool : String) (result : ToolResult)
      (caller : Option CallerContext) (w : W)
      → options.audit_sink ≡ o
      → calls (audit std options service o tool result caller w).1 ≡ calls w
  calls-audit none tool result caller w e = refl
  calls-audit (some sink) tool result none w e = grind (arith, quiet_caller w, quiet_sink sink e)
  calls-audit (some sink) tool result (some caller) w e = grind (arith, quiet_sink sink e)

  audited_calls :
      (tool : String) (result : ToolResult) (caller : Option CallerContext) (w : W)
      → calls (audited_result std options service tool result caller w).1 ≡ calls w
  unfolding audited_result
  audited_calls tool result caller w =
      ground (arith, calls-audit options.audit_sink tool result caller w refl)

  -- The step makes at most one confirmed call, and none unless the test passes.
  record AtMost (b : Bool) (w w' : W) : Type 0 where
    grows : calls w ≤ calls w'
    bounded : calls w' ≤ calls w + indicator b

  abbrev presented : Request → Bool
  presented request = not (is_none (token_of request))

  -- What follows a handler's outcome makes no further call.
  continue-AtMost :
      (b : Bool) (w : W) (r : Result ToolResult) (tool : String) (caller : Option CallerContext)
      (w' : W)
      → AtMost b w w'
      → AtMost b w
          (continue r (λ result. audited_result std options service tool result caller) w').1
  continue-AtMost b w (ok result) tool caller w' h =
      let same = audited_calls tool result caller w' in
      record { grows = omega (arith, same, h.grows); bounded = omega (arith, same, h.bounded) }
  continue-AtMost b w (err e) tool caller w' h = h

  handle-AtMost :
      (request : Request) (w : W) → AtMost (presented request) w (handle std service request w).1
  handle-AtMost request w =
      let h = calls_per_request std host service calls law frame request w in
      record { grows = h.0; bounded = h.1 }

  by_request-AtMost :
      (tool : String) (request : Request) (w : W)
      → AtMost (presented request) w (by_request std options service tool request w).1
  by_request-AtMost tool request w =
      let (r, w') = handle std service request w in
      continue-AtMost (presented request) w r tool none w' (handle-AtMost request w)

  after_caller : (b : Bool) (w v w' : W) → calls v ≡ calls w → AtMost b v w' → AtMost b w w'
  after_caller b w v w' same h = record {
    grows = omega (arith, same, h.grows);
    bounded = omega (arith, same, h.bounded);
  }

  by_caller-AtMost :
      (tool : String) (b : Bool) (request : CallerContext → Request) (w : W)
      → ((caller : CallerContext) → presented (request caller) ≡ b)
      → AtMost b w (by_caller std options service tool request w).1
  by_caller-AtMost tool b request w same = elim (Result-cases (options.caller_provider w).0) [
    | inl (caller, e) ↦ rw e (
        let v = (options.caller_provider w).1 in
        let (r, w') = handle std service (request caller) v in
        let here : AtMost b v w' =
          subst (λ x. AtMost x v w') (same caller) (handle-AtMost (request caller) v) in
        after_caller b w v _ (quiet_caller w) (continue-AtMost b v r tool (some caller) w' here))
    | inr (x, e) ↦
        rw e (record {
          grows = omega (arith, quiet_caller w);
          bounded = omega (arith, quiet_caller w);
        })
  ]

  diagnostic_calls :
      (o : Option (Fields → Action W ⊤)) (w : W)
      → calls (diagnostic_audit std options service o w).1 ≡ calls w
  diagnostic_calls none w = refl
  diagnostic_calls (some sink) w =
      ground (arith, audited_calls "diagnostico" (ready std options service) none w)

  -- For a provider that meets the single-use contract, a service whose other parts make no
  -- confirmed call beyond their own, and a caller provider and an audit sink that make none: every
  -- tool makes at most one Telegram, Trello or Cost Explorer call, and only the three execute tools
  -- make any.
  pub calls_per_tool :
      (c : ToolCall) (w : W)
      → (calls w ≤ calls (invoke std options service c w).1)
        × (calls (invoke std options service c w).1 ≤ calls w + indicator (is_execute c))
  unfolding invoke
  calls_per_tool diagnostic w = ground (arith, diagnostic_calls options.audit_sink w)
  calls_per_tool list_aws_inventory w =
      let h =
        by_request-AtMost "listar_inventario_aws" (aws_operation "aws.inventory.list" end) w in
      (h.grows, h.bounded)
  calls_per_tool list_project_aws_resources w =
      let h =
        by_request-AtMost "listar_recursos_proyecto_aws"
          (aws_operation "aws.cloudformation.project_inventory" end) w in
      (h.grows, h.bounded)
  calls_per_tool (search_aws_resources query limit) w =
      let h =
        by_request-AtMost "buscar_recursos_aws"
          (aws_operation "aws.resource_explorer.search"
            (field "query" (text query) (field "limit" (num limit) end)))
          w in
      (h.grows, h.bounded)
  calls_per_tool (ToolCall.prepare_aws_cost_query s e g b) w =
      let h =
        by_caller-AtMost "preparar_consulta_costes_aws" false (λ c. prepare_cost c s e g b) w
          (λ c. refl) in
      (h.grows, h.bounded)
  calls_per_tool (ToolCall.execute_aws_cost_query k s e g b) w =
      let h =
        by_caller-AtMost "consultar_costes_aws" true (λ c. execute_cost c k s e g b) w
          (λ c. refl) in
      (h.grows, h.bounded)
  calls_per_tool (ToolCall.prepare_remote_telegram_message d m) w =
      let h =
        by_caller-AtMost "preparar_mensaje_telegram" false (λ c. prepare_telegram c d m) w
          (λ c. refl) in
      (h.grows, h.bounded)
  calls_per_tool (ToolCall.execute_remote_telegram_message k d m) w =
      let h =
        by_caller-AtMost "enviar_mensaje_telegram" true (λ c. execute_telegram c k d m) w
          (λ c. refl) in
      (h.grows, h.bounded)
  calls_per_tool (ToolCall.prepare_remote_trello_card b l t d) w =
      let h =
        by_caller-AtMost "preparar_tarjeta_trello" false (λ c. prepare_trello c b l t d) w
          (λ c. refl) in
      (h.grows, h.bounded)
  calls_per_tool (ToolCall.execute_remote_trello_card k b l t d) w =
      let h =
        by_caller-AtMost "crear_tarjeta_trello" true (λ c. execute_trello c k b l t d) w
          (λ c. refl) in
      (h.grows, h.bounded)
  calls_per_tool (ToolCall.prepare_telegram_message m) w =
      let h =
        by_caller-AtMost "preparar_mensaje_telegram" false
          (λ c. prepare_telegram c "local-preview" m) w (λ c. refl) in
      (h.grows, h.bounded)
  calls_per_tool (ToolCall.prepare_trello_card t d) w =
      let h =
        by_caller-AtMost "preparar_tarjeta_trello" false
          (λ c. prepare_trello c "local-preview" "local-preview" t d) w (λ c. refl) in
      (h.grows, h.bounded)

  -- For a provider that meets the single-use contract, a service whose other parts make no
  -- confirmed call beyond their own, and a caller provider and an audit sink that make none: a
  -- server that is created without external writes and without Cost Explorer registers no tool that
  -- makes a Telegram, Trello or Cost Explorer call.
  pub preview_server_calls :
      (c : ToolCall) (w : W)
      → options.include_external_writes ≡ false
      → options.include_cost_explorer ≡ false
      → is_registered options c ≡ true
      → calls (invoke std options service c w).1 ≡ calls w
  unfolding is_registered
  preview_server_calls c w writes cost registered = ground (arith, calls_per_tool c w)
