-- ===== src/Services/Requests/Asking.antt =====
-- services/tools.py: the requests that present no confirmation make no confirmed call, and only the
-- three prepare methods add a record.
use aws_remote_mcp.Prelude.{
  ℕ, ◌+◌, ◌≤◌, String, Bool, true, false, ◌&&◌, Option, none, some, ◌==◌, ◌≡◌, arith,
}
use aws_remote_mcp.Prelude.Result.{Exception, Result, ok, err}
use aws_remote_mcp.Prelude.Effect.{Action, lift, try}
use aws_remote_mcp.Json.{Fields, text}
use aws_remote_mcp.Core.Models.{no_counters, Stdlib, CallerContext, ToolIssue, ToolResult}
use aws_remote_mcp.Core.Operations.{require_confirmed_billable, cost_explorer_operation}
use aws_remote_mcp.Core.CostQuery.{CostExplorerQuery, validate_cost_explorer_query}
use aws_remote_mcp.Core.Confirmation.{Host}
use aws_remote_mcp.Core.Confirmation.SingleUse.{Call, IsSingleUse, indicator}
use aws_remote_mcp.Adapters.Protocols.{CostExplorerAdapter}
use aws_remote_mcp.Services.Tools.{
  ToolService, unless_issue, on_blocked, run_aws_operation, prepared,
}
use aws_remote_mcp.Services.Tools.Cost.{
  with_query, on_invalid_query, with_adapter, prepare_aws_cost_query,
}
use aws_remote_mcp.Services.Tools.Messages.{prepare_telegram_message, prepare_trello_card}
use aws_remote_mcp.Services.Requests.Frame.{IsFramed}

module _ {W : Type 0} (std : Stdlib) (host : Host W) (service : ToolService W) (calls : W → ℕ)
    (law : IsSingleUse std host service.confirmations)
    (frame : IsFramed service law.live calls) where
  -- A step that makes no confirmed call, and adds at most the record of the token drawn next.
  pub record Draws (d : String) (asked : Bool) (w w' : W) : Type 0 where
    pub no_call : calls w' ≡ calls w
    pub one_record :
        law.live d w'
        ≤ law.live d w
          + indicator (asked && (std.sha256 (host.token_urlsafe (host.clock w).1).0 == d))

  prepared-Draws :
      (d : String) (caller : CallerContext) (action : String) (payload preview : Fields) (w : W)
      → Draws d true w (prepared std service caller action payload preview w).1
  unfolding prepared
  prepared-Draws d caller action payload preview w = ground (
    arith,
    law.step d (Call.prepare caller action payload) w,
    frame.prepare caller action payload w,
  )

  unless-Draws :
      (d : String) (i : Option ToolIssue) (rest : Action W ToolResult) (w : W)
      → Draws d true w (rest w).1
      → Draws d true w (unless_issue i no_counters rest w).1
  unless-Draws d none rest w h = h
  unless-Draws d (some i) rest w h = ground arith

  lift-Draws :
      {A : Type 0} (d : String) (asked : Bool) (r : Result A) (h : Exception → Option ToolResult)
      (f : A → Action W ToolResult) (w : W)
      → ((a : A) → Draws d asked w (f a w).1)
      → Draws d asked w (try (lift r) h f w).1
  lift-Draws d asked (ok a) h f w each = each a
  lift-Draws d asked (err e) h f w each = ground arith

  adapter-Draws :
      (d : String) (o : Option (CostExplorerAdapter W))
      (rest : CostExplorerAdapter W → Action W ToolResult) (w : W)
      → ((a : CostExplorerAdapter W) → Draws d true w (rest a w).1)
      → Draws d true w (with_adapter o rest w).1
  adapter-Draws d none rest w each = ground arith
  adapter-Draws d (some a) rest w each = each a

  query-Draws :
      (d start_date end_date granularity group_by : String)
      (rest : CostExplorerQuery → CostExplorerAdapter W → Action W ToolResult) (w : W)
      → ((query : CostExplorerQuery) (a : CostExplorerAdapter W)
          → Draws d true w (rest query a w).1)
      → Draws d true w (with_query std service start_date end_date granularity group_by rest w).1
  query-Draws d start_date end_date granularity group_by rest w each =
      let gate = require_confirmed_billable std service.operations cost_explorer_operation in
      let query =
        validate_cost_explorer_query std (text start_date) (text end_date) (text granularity)
          (text group_by) in
      lift-Draws d true gate (on_blocked no_counters)
        (λ _.
          try (lift query) on_invalid_query (λ q. with_adapter service.aws_cost_explorer (rest q)))
        w
        λ u.
          lift-Draws d true query on_invalid_query
            (λ q. with_adapter service.aws_cost_explorer (rest q)) w
            λ q. adapter-Draws d service.aws_cost_explorer (rest q) w (each q)

  pub prepare_telegram-Draws :
      (d : String) (caller : CallerContext) (destination message : String) (w : W)
      → Draws d true w (prepare_telegram_message std service caller destination message w).1
  unfolding prepare_telegram_message
  prepare_telegram-Draws d caller destination message w = search (unless-Draws, prepared-Draws)

  pub prepare_trello-Draws :
      (d : String) (caller : CallerContext) (board list_name title description : String) (w : W)
      → Draws d true w
          (prepare_trello_card std service caller board list_name title description w).1
  unfolding prepare_trello_card
  prepare_trello-Draws d caller board list_name title description w =
      search (unless-Draws, prepared-Draws)

  pub prepare_cost-Draws :
      (d : String) (caller : CallerContext) (start_date end_date granularity group_by : String)
      (w : W)
      → Draws d true w
          (prepare_aws_cost_query std service caller start_date end_date granularity group_by w).1
  unfolding prepare_aws_cost_query
  prepare_cost-Draws d caller start_date end_date granularity group_by w =
      search (query-Draws, prepared-Draws)

  pub aws-Draws :
      (d operation : String) (arguments : Fields) (w : W)
      → Draws d false w (run_aws_operation std service operation arguments w).1
  unfolding run_aws_operation
  aws-Draws d operation arguments w =
      let silent = frame.aws operation arguments in
      ground (arith, silent.same_records d w, silent.same_calls w)
