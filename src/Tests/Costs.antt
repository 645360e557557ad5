-- ===== src/Tests/Costs.antt =====
-- The theorem on the Cost Explorer adapter, applied to a response with one period and a bad row.
use aws_remote_mcp.Prelude.{◌≡◌, refl, ℕ, ◌+◌, some, [], ◌∷◌, none, true}
use aws_remote_mcp.Prelude.Result.{ok}
use aws_remote_mcp.Json.{Json, arr, obj, text, cons, nil, end, field}
use aws_remote_mcp.Core.CostQuery.{CostExplorerQuery}
use aws_remote_mcp.Adapters.CostExplorer.Rows.{safe_key, safe_date}
use aws_remote_mcp.Adapters.CostExplorer.{is_primary_view, CostClient, AwsCostExplorerAdapter}
use aws_remote_mcp.Adapters.CostExplorer.Adapter.{get_cost_and_usage}
use aws_remote_mcp.Tests.World.{std}

abbrev amount : Json
amount =
    obj (
      field "UnblendedCost" (obj (field "Amount" (text "1.5") (field "Unit" (text "USD") end))) end)

abbrev group : Json
group = obj (field "Keys" (arr (cons (text "Lambda") nil)) (field "Metrics" amount end))

abbrev period : Json
period = obj (
    field "TimePeriod"
      (obj (field "Start" (text "2026-11-01") (field "End" (text "2026-11-02") end)))
      (field "Total" (obj end) (field "Groups" (arr (cons group (cons (text "bad") nil))) end)))

-- The world is the number of requests.
abbrev client : CostClient ℕ
client = record {
  client_factory = λ service region n. (ok tt, n);
  get_cost_and_usage = λ dates granularity metrics groups view n.
      (ok (obj (field "ResultsByTime" (arr (cons period nil)) end)), n + 1);
  plain_decimal = λ t. some t;
}

abbrev adapter : AwsCostExplorerAdapter
adapter = record { billing_view_arn = "arn:aws:billing::123456789012:billingview/primary" }

abbrev query : CostExplorerQuery
query = record {
  start_date = "2026-11-01";
  end_date = "2026-11-02";
  granularity = "DAILY";
  group_by = "SERVICE";
}

primary : is_primary_view std "arn:aws-cn:billing::123456789012:billingview/primary" ≡ true
unfolding is_primary_view aws_remote_mcp.Prelude.Split.split_by
    aws_remote_mcp.Prelude.Split.without_prefix aws_remote_mcp.Prelude.Text.all
    aws_remote_mcp.Core.Models.matches_digit aws_remote_mcp.Prelude.Text.length
primary = refl

hides_account : safe_key std (some (text "account 123456789012" ∷ [])) ≡ none
unfolding safe_key aws_remote_mcp.Core.Models.matches_digit
hides_account = refl

keeps_key : safe_key std (some (text "AWS Lambda*" ∷ [])) ≡ some "AWS Lambda_"
unfolding safe_key aws_remote_mcp.Core.Models.matches_digit aws_remote_mcp.Prelude.Text.take
    aws_remote_mcp.Prelude.Split.replace
keeps_key = refl

day : safe_date std (some (obj (field "Start" (text "2024-02-29") end))) "Start" ≡ some "2024-02-29"
unfolding safe_date aws_remote_mcp.Json.get aws_remote_mcp.Core.Calendar.matches_iso
    aws_remote_mcp.Core.Models.matches_digit aws_remote_mcp.Core.Calendar.from_iso_format
    aws_remote_mcp.Core.Calendar.iso_format
day = refl

no_day : safe_date std (some (obj (field "Start" (text "2026-02-29") end))) "Start" ≡ none
unfolding safe_date aws_remote_mcp.Json.get aws_remote_mcp.Core.Calendar.matches_iso
    aws_remote_mcp.Core.Models.matches_digit aws_remote_mcp.Core.Calendar.from_iso_format
no_day = refl
