-- ===== src/Tests/Queries.antt =====
-- The theorems on the registry, the calendar, the Cost Explorer query and its quota, at concrete inputs.
use aws_remote_mcp.Prelude.{
  ℕ, ◌+◌, ◌≤◌, String, none, some, [], ◌∷◌, ◌==◌, ◌≡◌, refl, ◌≢◌, ◌↔◌, arith, lookup, insert,
  contains,
}
use aws_remote_mcp.Prelude.Result.{ok, is_ok}
use aws_remote_mcp.Json.{text}
use aws_remote_mcp.Dynamo.{attribute}
use aws_remote_mcp.Core.Calendar.{from_iso_format, iso_format}
use aws_remote_mcp.Core.CostQuery.{CostExplorerQuery, validate_cost_explorer_query}
use aws_remote_mcp.Core.CostQuery.Contract.{
  IsValidQuery, validate_keeps, validate_again, validate-IsValidQuery, IsValidQuery-validate,
}
use aws_remote_mcp.Core.CostQuota.Memory
use aws_remote_mcp.Core.CostQuota.Memory.{Limiter, run, quota_exact}
use aws_remote_mcp.Core.CostQuota.Persistent.{Settings, quota_key}
use aws_remote_mcp.Core.CostQuota.Persistent.Bound.{slots, Schedule, begin, call, monthly_bound}
use aws_remote_mcp.Core.Operations.{
  OperationClassification, OperationSpec, OperationRegistry, register, empty_registry, classify,
  blocked, require_automatic, require_confirmed_billable, build_default_registry,
  cost_explorer_operation,
}
use aws_remote_mcp.Core.Operations.Gate.{
  require_automatic_iff, require_automatic_blocks, automatic_operations, default_registry_gate,
}
use aws_remote_mcp.Tests.World.{World, start, std, month, table, table_laws}

abbrev november : CostExplorerQuery
november = record {
  start_date = "2026-11-01";
  end_date = "2026-11-25";
  granularity = "DAILY";
  group_by = "SERVICE";
}

accepted :
    validate_cost_explorer_query std
      (text "2026-11-01")
      (text "2026-11-25")
      (text "DAILY")
      (text "SERVICE")
    ≡ ok november
unfolding validate_cost_explorer_query aws_remote_mcp.Core.CostQuery.parse_iso_date
    aws_remote_mcp.Core.Calendar.matches_iso aws_remote_mcp.Core.Models.matches_digit
    from_iso_format aws_remote_mcp.Core.Calendar.ordinal iso_format
accepted = refl

validate_keeps_example : november ≡ record {
  start_date = "2026-11-01";
  end_date = "2026-11-25";
  granularity = "DAILY";
  group_by = "SERVICE";
}
validate_keeps_example =
    validate_keeps std "2026-11-01" "2026-11-25" "DAILY" "SERVICE" november accepted

validate_again_example :
    validate_cost_explorer_query std
      (text "2026-11-01")
      (text "2026-11-25")
      (text "DAILY")
      (text "SERVICE")
    ≡ ok november
validate_again_example =
    validate_again std "2026-11-01" "2026-11-25" "DAILY" "SERVICE" november accepted

validate-IsValidQuery_example : IsValidQuery std november
validate-IsValidQuery_example =
    validate-IsValidQuery std "2026-11-01" "2026-11-25" "DAILY" "SERVICE" november accepted

IsValidQuery-validate_example :
    validate_cost_explorer_query std
      (text "2026-11-01")
      (text "2026-11-25")
      (text "DAILY")
      (text "SERVICE")
    ≡ ok november
IsValidQuery-validate_example = IsValidQuery-validate std november validate-IsValidQuery_example

abbrev limiter : Limiter World
limiter = record { limit = 3; period = none; count = 0; outside = start }

created : Memory.create 3 start ≡ ok limiter
unfolding Memory.create
created = refl

-- Five calls in one month take three slots.
quota_exact_example : (run month 5 limiter).0 ≡ 3
quota_exact_example =
    quota_exact month (2026, 11) 5 3 start created (refl, (refl, (refl, (refl, (refl, tt)))))

abbrev settings : Settings
settings = record { table_name = "quota"; action = cost_explorer_operation; limit = 3 }

abbrev key : String
key = quota_key std settings (2026, 11)

abbrev one_call : (r : ℕ) × (w : World) × Schedule std table settings key start r w
one_call = (_, _, call (2026, 11) begin)

empty : slots (table.item start key) ≡ 0
unfolding lookup attribute
empty = refl

monthly_bound_example : one_call.0 + slots (table.item start key) ≤ 3
monthly_bound_example =
    monthly_bound std table settings table_laws {key = key} {start = start} {w = one_call.1}
      {granted = one_call.0} (omega arith) (omega (arith, empty)) one_call.2

abbrev list_spec : OperationSpec
list_spec = record {
  name = "aws.list";
  classification = OperationClassification.free_verified_read;
  evidence = "docs";
}

abbrev one_operation : OperationRegistry
one_operation = record { specs = ("aws.list", list_spec) ∷ [] }

registered : register empty_registry list_spec ≡ ok one_operation
unfolding register lookup insert
registered = refl

require_automatic_iff_example : (require_automatic std one_operation "aws.list" ≡ ok list_spec) ↔ (
    (lookup "aws.list" one_operation.specs ≡ some list_spec)
    × (list_spec.classification ≡ OperationClassification.free_verified_read))
require_automatic_iff_example = require_automatic_iff std one_operation "aws.list" list_spec

unknown : classify one_operation "aws.delete" ≢ OperationClassification.free_verified_read
unfolding classify lookup
unknown e = cc

require_automatic_blocks_example :
    require_automatic std one_operation "aws.delete"
    ≡ blocked std "aws.delete" (classify one_operation "aws.delete")
require_automatic_blocks_example = require_automatic_blocks std one_operation "aws.delete" unknown

default_registry_gate_example :
    (r : OperationRegistry) × (build_default_registry ≡ ok r)
    × (is_ok (require_automatic std r "secrets.read_value")
        ≡ contains "secrets.read_value" automatic_operations)
    × (is_ok (require_confirmed_billable std r "secrets.read_value")
        ≡ ("secrets.read_value" == cost_explorer_operation))
default_registry_gate_example = default_registry_gate std "secrets.read_value"
