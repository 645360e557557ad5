-- ===== src/Adapters/CostExplorer.antt =====
-- adapters/aws_cost_explorer.py: `AwsCostExplorerAdapter`, one bounded billable query. The children are
-- the reading of its rows and what is proved of its results.
pub mod Rows
pub mod Adapter
pub mod Results
use aws_remote_mcp.Prelude.{
  ℕ, String, Bool, true, false, not, ◌&&◌, ◌||◌, Option, none, some, List, [], ◌∷◌, ◌==◌,
  if◌then◌else◌, all,
}
use aws_remote_mcp.Prelude.Result.{⊤, Result, ok, err, value_error}
use aws_remote_mcp.Prelude.Result
use aws_remote_mcp.Prelude.Effect.{Action}
use aws_remote_mcp.Prelude.Text
use aws_remote_mcp.Prelude.Split.{without_prefix, is_char}
use aws_remote_mcp.Json
use aws_remote_mcp.Json.{Json, Items, text, arr, nat, Fields, end, field}
use aws_remote_mcp.Core.Models.{Stdlib, matches_digit}
use aws_remote_mcp.Core.CostQuery.{cost_explorer_metric, cost_explorer_max_cost_usd}
use aws_remote_mcp.Core.CostQuota.{monthly_cost_request_limit, monthly_max_api_cost_usd}
use aws_remote_mcp.Adapters.Protocols.{AdapterStatus, AwsAdapterResult}
use aws_remote_mcp.Adapters.Protocols as Protocols
use aws_remote_mcp.Adapters.Inventory.{adapter_issue}
use aws_remote_mcp.Adapters.Integrations.{of_class}
use aws_remote_mcp.Prelude.Split.{split_by}

abbrev pub cost_explorer_region : String
cost_explorer_region = "us-east-1"

abbrev pub max_cost_periods : ℕ
max_cost_periods = 31

abbrev pub max_cost_groups : ℕ
max_cost_groups = 100

abbrev pub max_dimension_value_chars : ℕ
max_dimension_value_chars = 128

abbrev pub max_amount_chars : ℕ
max_amount_chars = 64

-- The client of Cost Explorer, with the time period, granularity, metrics, grouping and billing view of
-- a request, and `format(Decimal(text), "f")`, which is none if the text is no finite number.
pub record CostClient (W : Type 0) : Type 0 where
  pub client_factory : String → String → Action W ⊤
  pub get_cost_and_usage :
      String × String → String → List String → List String → String → Action W Json
  pub plain_decimal : String → Option String

abbrev is_partition_char : ℕ → Bool
is_partition_char c = Text.is_lower c || Text.is_digit c || is_char b'-' c

abbrev is_suffix : Option String → Bool
is_suffix none = false
is_suffix (some t) = Text.all is_partition_char t && not (Text.is_empty t)

abbrev is_partition : String → Bool
is_partition t = (t == "aws") || is_suffix (without_prefix "aws-" t)

abbrev view_parts : Stdlib → List String → Bool
view_parts std (arn ∷ partition ∷ service ∷ region ∷ account ∷ view ∷ []) =
    (arn == "arn")
    && is_partition partition
    && (service == "billing")
    && Text.is_empty region
    && of_class (matches_digit std) 12 12 account
    && (view == "billingview/primary")
view_parts std _ = false

-- `_PRIMARY_BILLING_VIEW_ARN`: no part holds a colon.
unfoldable pub is_primary_view : Stdlib → String → Bool
is_primary_view std t = view_parts std (split_by (is_char b':') t)

pub record AwsCostExplorerAdapter : Type 0 where
  pub billing_view_arn : String

-- `__init__`
unfoldable pub create : Stdlib → String → Result AwsCostExplorerAdapter
unfolding is_primary_view
create std billing_view_arn =
    if not (is_primary_view std billing_view_arn)
    then err (value_error "A primary Cost Explorer billing view ARN is required.")
    else ok (record { billing_view_arn = billing_view_arn })

-- The fields of every result, from `metric` to `monthly_max_api_cost_usd`, with the rest after them.
abbrev pub limits : Fields → Fields
limits rest = field "metric" (text cost_explorer_metric) (
    field "currency" (text "USD") (
      field "max_cost_usd" (text cost_explorer_max_cost_usd) (
        field "monthly_request_limit" (nat monthly_cost_request_limit)
          (field "monthly_max_api_cost_usd" (text monthly_max_api_cost_usd) rest))))

abbrev pub returned : ℕ → ℕ → Bool → Items → Fields
returned periods groups truncated rows = field "returned_periods" (nat periods) (
    field "returned_groups" (nat groups)
      (field "truncated" (Json.bool truncated) (field "results_by_time" (arr rows) end)))

-- `_failure`
unfoldable pub failure : String → String → ℕ → Result AwsAdapterResult
failure code message sdk_requests = Protocols.create (record {
  body =
      field "region" (text cost_explorer_region)
        (field "read_only" (Json.bool true) (limits (returned 0 0 false Json.nil)));
  sdk_requests = sdk_requests;
  resources = 0;
  status = AdapterStatus.error;
  issues = adapter_issue code message ∷ [];
})
