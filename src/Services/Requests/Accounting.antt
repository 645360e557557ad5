-- ===== src/Services/Requests/Accounting.antt =====
-- Every confirmed call is paid for by a consumed confirmation, over any sequence of requests.
use aws_remote_mcp.Prelude.{
  ℕ, ◌+◌, ◌≤◌, String, Bool, true, false, ◌&&◌, Option, none, some, ◌==◌, ◌≡◌, refl, arith,
  if◌then◌else◌,
}
use aws_remote_mcp.Prelude.Result.{Exception, Result, ok, err}
use aws_remote_mcp.Prelude.Effect.{Action, pure, lift, ◌>>=◌, try, resume}
use aws_remote_mcp.Json.{Fields}
use aws_remote_mcp.Core.Models.{
  no_counters, Stdlib, CallerContext, ToolIssue, ToolResult, record_external_write_attempt,
}
use aws_remote_mcp.Core.Confirmation.{Host}
use aws_remote_mcp.Core.Confirmation.SingleUse.{Call, IsSingleUse, indicator}
use aws_remote_mcp.Services.Tools.{ToolService, unless_issue, on_blocked, consume_confirmation}
use aws_remote_mcp.Json.{text}
use aws_remote_mcp.Core.Operations.{require_confirmed_billable, cost_explorer_operation}
use aws_remote_mcp.Core.CostQuery.{validate_cost_explorer_query, CostExplorerQuery}
use aws_remote_mcp.Core.CostQuota.{CostRequestLimiter}
use aws_remote_mcp.Adapters.Protocols.{CostExplorerAdapter}
use aws_remote_mcp.Services.Tools.Cost.{
  with_query, on_invalid_query, with_adapter, with_slot, execute_aws_cost_query, billable_call,
}
use aws_remote_mcp.Services.Tools.Messages.{execute_telegram_message, execute_trello_card}
use aws_remote_mcp.Services.Requests.Frame.{IsFramed, IsOneCall}

abbrev granted : Result (Option ToolIssue) → Bool
granted (ok none) = true
granted _ = false

module _ {W : Type 0} (std : Stdlib) (host : Host W) (service : ToolService W) (calls : W → ℕ)
    (law : IsSingleUse std host service.confirmations)
    (frame : IsFramed service law.live calls) where
  -- A step of the accounts under the digest `d`: if the step presents a token with that digest,
  -- what it adds to the calls it takes from the live records. It makes at most one call.
  pub record Pays (d : String) (presented : Bool) (w w' : W) : Type 0 where
    pub books : (if presented then calls w' else calls w) + law.live d w' ≤ calls w + law.live d w
    pub at_most_one : calls w' ≤ calls w + 1
    pub grows : calls w ≤ calls w'

  abbrev AtMostOneCall : String → Action W ToolResult → Type 0
  AtMostOneCall d m =
      (w : W)
      → (law.live d (m w).1 ≡ law.live d w)
        × (calls (m w).1 ≤ calls w + 1)
        × (calls w ≤ calls (m w).1)

  consume_pays :
      (d token : String) (caller : CallerContext) (action : String) (payload : Fields) (w : W)
      → let (r, w') = consume_confirmation std service token caller action payload w in
        (indicator ((std.sha256 token == d) && granted r) + law.live d w' ≤ law.live d w)
        × (calls w' ≡ calls w)
  unfolding consume_confirmation
  consume_pays d token caller action payload w = ground (
    arith,
    law.step d (Call.consume token caller action payload) w,
    frame.consume token caller action payload w,
  )

  -- A confirmation is consumed before at most one call.
  confirmed-Pays :
      (d token : String) (caller : CallerContext) (action : String) (payload : Fields)
      (rest : Action W ToolResult) (w : W)
      → AtMostOneCall d rest
      → Pays d
          (std.sha256 token == d)
          w
          ((consume_confirmation std service token caller action payload >>= λ refused.
              unless_issue refused no_counters rest)
            w).1
  confirmed-Pays d token caller action payload rest w once =
      let w' = (consume_confirmation std service token caller action payload w).1 in
      ground (arith, consume_pays d token caller action payload w, once w')

  -- What is refused before it begins pays nothing.
  unless-Pays :
      (d token : String) (i : Option ToolIssue) (rest : Action W ToolResult) (w : W)
      → Pays d (std.sha256 token == d) w (rest w).1
      → Pays d (std.sha256 token == d) w (unless_issue i no_counters rest w).1
  unless-Pays d token none rest w h = h
  unless-Pays d token (some i) rest w h = ground arith

  -- Reporting the outcome of an action leaves the world as the action left it.
  resume_world :
      {A : Type 0} (r : Result A) (h : Exception → Option ToolResult) (f : A → ToolResult) (w : W)
      → (resume r h (λ a. pure (f a)) w).1 ≡ w
  resume_world (ok a) h f w = refl
  resume_world (err e) h f w = ground arith

  try_once :
      {A : Type 0} (d : String) (m : Action W A) (h : Exception → Option ToolResult)
      (f : A → ToolResult)
      → IsOneCall law.live calls m
      → AtMostOneCall d (try m h (λ a. pure (f a)))
  try_once d m h f one w =
      rw (resume_world (m w).0 h f (m w).1)
        (one.same_records d w, omega (arith, one.one_call w), omega (arith, one.one_call w))

  pub telegram-Pays :
      (d token : String) (caller : CallerContext) (destination message : String) (w : W)
      → Pays d
          (std.sha256 token == d)
          w
          (execute_telegram_message std service caller token destination message w).1
  unfolding execute_telegram_message record_external_write_attempt
  telegram-Pays d token caller destination message w =
      search (unless-Pays, confirmed-Pays, try_once, frame.telegram destination message) depth 6

  pub trello-Pays :
      (d token : String) (caller : CallerContext) (board list_name title description : String)
      (w : W)
      → Pays d
          (std.sha256 token == d)
          w
          (execute_trello_card std service caller token board list_name title description w).1
  unfolding execute_trello_card record_external_write_attempt
  trello-Pays d token caller board list_name title description w =
      search (unless-Pays, confirmed-Pays, try_once, frame.trello board list_name title description)
        depth 6

  -- A pure computation in front of an action.
  lift-Pays :
      {A : Type 0} (d token : String) (r : Result A) (h : Exception → Option ToolResult)
      (f : A → Action W ToolResult) (w : W)
      → ((a : A) → Pays d (std.sha256 token == d) w (f a w).1)
      → Pays d (std.sha256 token == d) w (try (lift r) h f w).1
  lift-Pays d token (ok a) h f w each = each a
  lift-Pays d token (err e) h f w each = ground arith

  billable_once :
      (d : String) (a : CostExplorerAdapter W) (query : CostExplorerQuery)
      → service.aws_cost_explorer ≡ some a
      → AtMostOneCall d (billable_call std service query a)
  unfolding billable_call
  billable_once d a query configured w = try_once d _ _ _ (frame.cost a query configured) w

  slot_once :
      (d : String) (o : Option (CostRequestLimiter W)) (rest : Action W ToolResult)
      → service.cost_request_limiter ≡ o
      → AtMostOneCall d rest
      → AtMostOneCall d (with_slot std service o rest)
  slot_once d none rest e once w = ground arith
  slot_once d (some l) rest e once w =
      let silent = frame.limiter l e in
      ground (arith, silent.same_records d w, silent.same_calls w, once (l.acquire w).1)

  adapter-Pays :
      (d token : String) (o : Option (CostExplorerAdapter W))
      (rest : CostExplorerAdapter W → Action W ToolResult) (w : W)
      → ((a : CostExplorerAdapter W) → o ≡ some a → Pays d (std.sha256 token == d) w (rest a w).1)
      → Pays d (std.sha256 token == d) w (with_adapter o rest w).1
  adapter-Pays d token none rest w each = ground arith
  adapter-Pays d token (some a) rest w each = each a refl

  paid_query-Pays :
      (d token : String) (caller : CallerContext) (action : String) (payload : Fields)
      (query : CostExplorerQuery) (w : W) (a : CostExplorerAdapter W)
      → service.aws_cost_explorer ≡ some a
      → Pays d
          (std.sha256 token == d)
          w
          ((consume_confirmation std service token caller action payload >>= λ refused.
              unless_issue refused no_counters (
                with_slot std service service.cost_request_limiter
                  (billable_call std service query a)))
            w).1
  paid_query-Pays d token caller action payload query w a configured =
      confirmed-Pays d token caller action payload
        (with_slot std service service.cost_request_limiter (billable_call std service query a)) w
        (slot_once d service.cost_request_limiter (billable_call std service query a) refl
          (billable_once d a query configured))

  -- The gate, the query's validation and the choice of the adapter in front of an action.
  query-Pays :
      (d token start_date end_date granularity group_by : String)
      (rest : CostExplorerQuery → CostExplorerAdapter W → Action W ToolResult) (w : W)
      → ((query : CostExplorerQuery) (a : CostExplorerAdapter W)
          → service.aws_cost_explorer ≡ some a
          → Pays d (std.sha256 token == d) w (rest query a w).1)
      → Pays d
          (std.sha256 token == d)
          w
          (with_query std service start_date end_date granularity group_by rest w).1
  query-Pays d token start_date end_date granularity group_by rest w each =
      let gate = require_confirmed_billable std service.operations cost_explorer_operation in
      let query =
        validate_cost_explorer_query std (text start_date) (text end_date) (text granularity)
          (text group_by) in
      lift-Pays d token gate (on_blocked no_counters)
        (λ _.
          try (lift query) on_invalid_query (λ q. with_adapter service.aws_cost_explorer (rest q)))
        w
        λ u.
          lift-Pays d token query on_invalid_query
            (λ q. with_adapter service.aws_cost_explorer (rest q)) w
            λ q. adapter-Pays d token service.aws_cost_explorer (rest q) w (each q)

  pub cost-Pays :
      (d token : String) (caller : CallerContext)
      (start_date end_date granularity group_by : String) (w : W)
      → Pays d
          (std.sha256 token == d)
          w
          (execute_aws_cost_query std service caller token start_date end_date granularity group_by
            w).1
  unfolding execute_aws_cost_query
  cost-Pays d token caller start_date end_date granularity group_by w =
      search (query-Pays, paid_query-Pays) depth 6
