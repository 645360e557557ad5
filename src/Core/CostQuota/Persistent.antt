-- ===== src/Core/CostQuota/Persistent.antt =====
-- `DynamoDbCostRequestLimiter` of core/cost_quota.py: one conditional counter in the shared table.
pub mod Bound
use aws_remote_mcp.Prelude.{ℕ, leb, String, ◌||◌, List, [], ◌∷◌, ◌==◌, if◌then◌else◌}
use aws_remote_mcp.Prelude.Result.{⊤, Result, ok, err, value_error}
use aws_remote_mcp.Prelude.Effect.{Action, ◌>>=◌, ◌>>◌}
use aws_remote_mcp.Prelude.Text.{◌++◌ as ◌⧺◌}
use aws_remote_mcp.Dynamo.{
  Assignment, assign, count_up, n, Condition, attribute_not_exists, either, less, Client,
  is_conditional_failure,
}
use aws_remote_mcp.Core.Models.{Stdlib}
use aws_remote_mcp.Core.CostQuota.{
  QuotaClock, aware_now, period, next_period_timestamp, limit_exceeded, quota_unavailable,
  CostRequestLimiter,
}

pub record Settings : Type 0 where
  pub table_name : String
  pub action : String
  pub limit : ℕ

-- `DynamoDbCostRequestLimiter(table_name=..., action=..., limit=...)`
unfoldable pub create : String → String → ℕ → Result Settings
create table_name action limit =
    if table_name == ""
    then err (value_error "Cost quota table name is required.")
    else if (action == "") || leb limit 0
    then err (value_error "Cost quota configuration is invalid.")
    else ok (record { table_name = table_name; action = action; limit = limit })

abbrev pub quota_condition : ℕ → Condition
quota_condition limit = either (attribute_not_exists "count") (less "count" (n limit))

abbrev pub quota_update : ℕ → List Assignment
quota_update expires = count_up "count" 0 1 ∷ assign "expires_at" (n expires) ∷ []

-- The key of the quota's item in a period.
unfoldable pub quota_key : Stdlib → Settings → ℕ × ℕ → String
quota_key std settings now = std.sha256 (settings.action ⧺ ":" ⧺ period now)

-- `except Exception as error`
abbrev pub refused : {W : Type 0} → Result ⊤ × W → Result ⊤ × W
refused (ok _, w) = (ok tt, w)
refused (err e, w) =
    (err (if is_conditional_failure e then limit_exceeded else quota_unavailable), w)

module _ {W : Type 0} (std : Stdlib) (client : Client W) (settings : Settings) where
  -- `acquire` after the clock is read
  unfoldable pub acquire_at : ℕ × ℕ → Action W ⊤
  acquire_at now w = refused (
      client.update_item (quota_key std settings now) (quota_update (next_period_timestamp now))
        (quota_condition settings.limit) w)

module _ {W : Type 0} (std : Stdlib) (clock : QuotaClock W) (client : Client W)
    (settings : Settings) where
  unfoldable pub acquire : Action W ⊤
  unfolding aware_now
  acquire = do now ← aware_now clock; acquire_at std client settings now

  abbrev pub limiter : CostRequestLimiter W
  limiter = record { acquire = acquire }
