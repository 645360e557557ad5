-- ===== src/Core/CostQuota.antt =====
-- core/cost_quota.py: the monthly quota of billable requests, in process memory and in the table.
pub mod Memory
pub mod Persistent
use aws_remote_mcp.Prelude.{ℕ, ◌+◌, ◌/◌, eqb, String, ◌≡◌, refl, ◌⊎◌, inl, inr, if◌then◌else◌}
use aws_remote_mcp.Prelude.Result.{⊤, Exception, Result, ok, err, cost_quota_error, value_error}
use aws_remote_mcp.Prelude.Effect.{Action}
use Prim.Native.Nat.{◌%◌}
use Prim.Native.String.{[] as end, ◌∷◌ as ◌∶◌}
use aws_remote_mcp.Prelude.Text.{◌++◌ as ◌⧺◌}
use aws_remote_mcp.Prelude.Int.{digit, show_nat}
use aws_remote_mcp.Core.Calendar.{month_timestamp}

abbrev pub monthly_cost_request_limit : ℕ
monthly_cost_request_limit = 3

abbrev pub monthly_max_api_cost_usd : String
monthly_max_api_cost_usd = "0.03"

-- A `datetime` that a clock returns: with no time zone, or in UTC by its year and month, which is
-- all that the quota reads of it.
pub data Reading : Type 0 where
  naive : Reading
  aware : ℕ → ℕ → Reading

pub record QuotaClock (W : Type 0) : Type 0 where
  pub read : W → Reading × W

-- `CostRequestLimiter`
pub record CostRequestLimiter (W : Type 0) : Type 0 where
  pub acquire : Action W ⊤

abbrev check_aware : Reading → Result (ℕ × ℕ)
check_aware naive = err (value_error "Cost quota clock must return a timezone-aware datetime.")
check_aware (aware y m) = ok (y, m)

-- `_aware_now`
unfoldable pub aware_now : {W : Type 0} → QuotaClock W → Action W (ℕ × ℕ)
aware_now clock w = let (r, w') = clock.read w in (check_aware r, w')

-- `_period`: the text `%Y-%m` of a year and a month
unfoldable pub period : ℕ × ℕ → String
unfolding show_nat digit
period (y, m) = show_nat y ⧺ "-" ⧺ (digit (m / 10) ∶ digit (m % 10) ∶ end)

-- `int(_next_period(value).timestamp())`
unfoldable pub next_period_timestamp : ℕ × ℕ → ℕ
unfolding month_timestamp
next_period_timestamp (y, m) =
    if eqb m 12 then month_timestamp (y + 1) 1 else month_timestamp y (m + 1)

abbrev pub limit_exceeded : Exception
limit_exceeded =
    cost_quota_error "cost_monthly_limit_exceeded"
      "The monthly Cost Explorer request limit has been reached."

abbrev pub quota_unavailable : Exception
quota_unavailable =
    cost_quota_error "cost_quota_unavailable" "The Cost Explorer monthly quota is unavailable."

pub Reading-cases : (r : Reading) → (r ≡ naive) ⊎ ((t : ℕ × ℕ) × (r ≡ aware t.0 t.1))
Reading-cases naive = inl refl
Reading-cases (aware y m) = inr ((y, m), refl)
