-- ===== src/Services/Tools/Refused.antt =====
-- services/tools.py: a Cost Explorer query that gets no slot of the quota makes no call.
use aws_remote_mcp.Prelude.{ℕ, String, false, Option, none, some, ◌≡◌, refl, arith}
use aws_remote_mcp.Prelude.Result.{⊤, Exception, Result, ok, err, is_ok}
use aws_remote_mcp.Prelude.Effect.{Action, lift, ◌>>=◌, try}
use aws_remote_mcp.Json.{Fields, text}
use aws_remote_mcp.Core.Models.{Stdlib, CallerContext, ToolIssue, ToolResult, no_counters}
use aws_remote_mcp.Core.Operations.{require_confirmed_billable, cost_explorer_operation}
use aws_remote_mcp.Core.CostQuery.{CostExplorerQuery, validate_cost_explorer_query}
use aws_remote_mcp.Core.CostQuota.{CostRequestLimiter}
use aws_remote_mcp.Adapters.Protocols.{CostExplorerAdapter}
use aws_remote_mcp.Services.Tools.{ToolService, consume_confirmation, unless_issue, on_blocked}
use aws_remote_mcp.Services.Tools.Cost.{
  with_query, with_slot, with_adapter, on_invalid_query, execute_aws_cost_query, billable_call,
}

-- The limiter, if there is one, refuses every slot and makes no call.
abbrev pub Refuses : {W : Type 0} → (W → ℕ) → Option (CostRequestLimiter W) → Type 0
Refuses billed none = ⊤
Refuses billed (some l) =
    (w : _) → (is_ok (l.acquire w).0 ≡ false) × (billed (l.acquire w).1 ≡ billed w)

module _ {W : Type 0} (std : Stdlib) (service : ToolService W) (billed : W → ℕ) where
  slot_refused :
      (o : Option (CostRequestLimiter W)) (rest : Action W ToolResult) (w : W)
      → Refuses billed o
      → billed (with_slot std service o rest w).1 ≡ billed w
  slot_refused none rest w h = refl
  slot_refused (some l) rest w h = ground (arith, h w)

  confirmed_refused :
      (consumed : Action W (Option ToolIssue)) (rest : Action W ToolResult) (w : W)
      → Refuses billed service.cost_request_limiter
      → billed (consumed w).1 ≡ billed w
      → billed
          ((consumed >>= λ refused.
              unless_issue refused no_counters
                (with_slot std service service.cost_request_limiter rest))
            w).1
        ≡ billed w
  confirmed_refused consumed rest w h same =
      ground (arith, same, slot_refused service.cost_request_limiter rest (consumed w).1 h)

  consume_same :
      ((token : String) (caller : CallerContext) (action : String) (payload : Fields) (w : W)
        → billed (service.confirmations.consume token caller action payload w).1 ≡ billed w)
      → (token : String) (caller : CallerContext) (action : String) (payload : Fields) (w : W)
      → billed (consume_confirmation std service token caller action payload w).1 ≡ billed w
  unfolding consume_confirmation
  consume_same same token caller action payload w =
      ground (arith, same token caller action payload w)

  lift_same :
      {A : Type 0} (r : Result A) (h : Exception → Option ToolResult) (f : A → Action W ToolResult)
      (w : W)
      → ((a : A) → billed (f a w).1 ≡ billed w)
      → billed (try (lift r) h f w).1 ≡ billed w
  lift_same (ok a) h f w each = each a
  lift_same (err e) h f w each = ground arith

  adapter_same :
      (o : Option (CostExplorerAdapter W)) (rest : CostExplorerAdapter W → Action W ToolResult)
      (w : W)
      → ((a : CostExplorerAdapter W) → billed (rest a w).1 ≡ billed w)
      → billed (with_adapter o rest w).1 ≡ billed w
  adapter_same none rest w each = refl
  adapter_same (some a) rest w each = each a

  query_same :
      (start_date end_date granularity group_by : String)
      (rest : CostExplorerQuery → CostExplorerAdapter W → Action W ToolResult) (w : W)
      → ((query : CostExplorerQuery) (a : CostExplorerAdapter W)
          → billed (rest query a w).1 ≡ billed w)
      → billed (with_query std service start_date end_date granularity group_by rest w).1 ≡ billed w
  query_same start_date end_date granularity group_by rest w each =
      let gate = require_confirmed_billable std service.operations cost_explorer_operation in
      let query =
        validate_cost_explorer_query std (text start_date) (text end_date) (text granularity)
          (text group_by) in
      lift_same gate (on_blocked no_counters)
        (λ _.
          try (lift query) on_invalid_query (λ q. with_adapter service.aws_cost_explorer (rest q)))
        w
        λ u.
          lift_same query on_invalid_query (λ q. with_adapter service.aws_cost_explorer (rest q)) w
            λ q. adapter_same service.aws_cost_explorer (rest q) w (each q)

  paid_query_refused :
      (token : String) (caller : CallerContext) (payload : Fields) (query : CostExplorerQuery)
      (a : CostExplorerAdapter W) (w : W)
      → Refuses billed service.cost_request_limiter
      → ((token : String) (caller : CallerContext) (action : String) (payload : Fields) (w : W)
          → billed (service.confirmations.consume token caller action payload w).1 ≡ billed w)
      → billed
          ((consume_confirmation std service token caller cost_explorer_operation payload
              >>= λ refused. unless_issue refused no_counters (
                  with_slot std service service.cost_request_limiter
                    (billable_call std service query a)))
            w).1
        ≡ billed w
  paid_query_refused token caller payload query a w h same =
      confirmed_refused
        (consume_confirmation std service token caller cost_explorer_operation payload)
        (billable_call std service query a) w h
        (consume_same same token caller cost_explorer_operation payload w)

  -- If no limiter is configured, or the limiter refuses every slot, and consuming a confirmation makes
  -- no billable call, then executing a Cost Explorer query makes none, whatever its input and its
  -- confirmation.
  pub execute_refused :
      (caller : CallerContext) (token start_date end_date granularity group_by : String) (w : W)
      → Refuses billed service.cost_request_limiter
      → ((token : String) (caller : CallerContext) (action : String) (payload : Fields) (w : W)
          → billed (service.confirmations.consume token caller action payload w).1 ≡ billed w)
      → billed
          (execute_aws_cost_query std service caller token start_date end_date granularity group_by
            w).1
        ≡ billed w
  unfolding execute_aws_cost_query
  execute_refused caller token start_date end_date granularity group_by w h same =
      search (query_same, paid_query_refused) depth 6
