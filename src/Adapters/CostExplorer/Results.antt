-- ===== src/Adapters/CostExplorer/Results.antt =====
-- adapters/aws_cost_explorer.py: every result of `get_cost_and_usage` is accepted and bounded.
use aws_remote_mcp.Prelude.{ℕ, ◌+◌, ◌≤◌, Bool, true, false, ◌≡◌}
use aws_remote_mcp.Prelude.Result.{Exception, Result, ok, err, cost_query_error}
use aws_remote_mcp.Prelude.Result
use aws_remote_mcp.Json.{Json}
use aws_remote_mcp.Adapters.Protocols.{AwsAdapterResult}
use aws_remote_mcp.Adapters.Protocols as Protocols
use aws_remote_mcp.Adapters.CostExplorer.{max_cost_groups}
use aws_remote_mcp.Adapters.CostExplorer.Rows.{Rows}

-- At most a hundred groups.
abbrev pub Bounded : Rows → Type 0
Bounded s = s.group_count ≤ max_cost_groups

abbrev is_query_error : Exception → Bool
is_query_error (cost_query_error code message) = true
is_query_error _ = false

-- An accepted result within the caps, with at least the requests that were made.
pub record IsCostAnswer (before : ℕ) (r : AwsAdapterResult) (after : ℕ) : Type 0 where
  pub accepted : Protocols.create r ≡ ok r
  pub one_request : r.sdk_requests ≤ 1
  pub few_groups : r.resources ≤ max_cost_groups
  pub reported : after ≤ before + r.sdk_requests

abbrev pub Costs : ℕ → Result AwsAdapterResult → ℕ → Type 0
Costs before (ok r) after = IsCostAnswer before r after
Costs before (err e) after = ⊥
