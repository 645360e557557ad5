-- ===== src/Services/Requests/Frame.antt =====
-- What the parts of a service leave alone: the confirmation records, and a count of the confirmed
-- calls (Telegram messages, Trello cards, billable queries) that only those three operations raise.
use aws_remote_mcp.Prelude.{ℕ, ◌+◌, String, some, ◌≡◌}
use aws_remote_mcp.Prelude.Effect.{Action}
use aws_remote_mcp.Json.{Fields}
use aws_remote_mcp.Core.Models.{CallerContext}
use aws_remote_mcp.Core.CostQuery.{CostExplorerQuery}
use aws_remote_mcp.Core.CostQuota.{CostRequestLimiter}
use aws_remote_mcp.Adapters.Protocols.{CostExplorerAdapter}
use aws_remote_mcp.Services.Tools.{ToolService}

module _ {W : Type 0} (live : String → W → ℕ) (calls : W → ℕ) where
  -- The action changes no record and makes no confirmed call.
  pub record IsSilent {A : Type 0} (m : Action W A) : Type 0 where
    pub same_records : (d : String) (w : W) → live d (m w).1 ≡ live d w
    pub same_calls : (w : W) → calls (m w).1 ≡ calls w

  -- The action changes no record and is one confirmed call.
  pub record IsOneCall {A : Type 0} (m : Action W A) : Type 0 where
    pub same_records : (d : String) (w : W) → live d (m w).1 ≡ live d w
    pub one_call : (w : W) → calls (m w).1 ≡ calls w + 1

-- The parts of the service do what they are for and nothing else.
pub record IsFramed {W : Type 0} (service : ToolService W) (live : String → W → ℕ) (calls : W → ℕ)
    : Type 0 where
  pub prepare :
      (caller : CallerContext) (action : String) (payload : Fields) (w : W)
      → calls (service.confirmations.prepare caller action payload w).1 ≡ calls w
  pub consume :
      (token : String) (caller : CallerContext) (action : String) (payload : Fields) (w : W)
      → calls (service.confirmations.consume token caller action payload w).1 ≡ calls w
  pub aws :
      (operation : String) (arguments : Fields)
      → IsSilent live calls (service.aws.execute operation arguments)
  pub limiter :
      (l : CostRequestLimiter W)
      → service.cost_request_limiter ≡ some l
      → IsSilent live calls l.acquire
  pub telegram :
      (destination message : String)
      → IsOneCall live calls (service.telegram.send_message destination message)
  pub trello :
      (board list_name title description : String)
      → IsOneCall live calls (service.trello.create_card board list_name title description)
  pub cost :
      (a : CostExplorerAdapter W) (query : CostExplorerQuery)
      → service.aws_cost_explorer ≡ some a
      → IsOneCall live calls (a.get_cost_and_usage query)
