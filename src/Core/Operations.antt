-- ===== src/Core/Operations.antt =====
-- core/operations.py: the fail-closed registry of downstream operations.
pub mod Gate
use aws_remote_mcp.Prelude.{
  String, Bool, true, false, Option, none, some, List, [], ◌∷◌, Dict, lookup, insert,
}
use aws_remote_mcp.Prelude.Result.{Result, ok, err, ◌>>=◌, operation_blocked, value_error}
use aws_remote_mcp.Prelude.Text.{◌++◌}
use aws_remote_mcp.Core.Models.{Stdlib}

pub data OperationClassification : Type 0 where
  free_verified_read controlled_billable write sensitive_read unknown : OperationClassification

-- `classification.value`
unfoldable pub value : OperationClassification → String
value free_verified_read = "free_verified_read"
value controlled_billable = "controlled_billable"
value write = "write"
value sensitive_read = "sensitive_read"
value unknown = "unknown"

pub record OperationSpec : Type 0 where
  pub name : String
  pub classification : OperationClassification
  pub evidence : String

pub record OperationRegistry : Type 0 where
  pub specs : Dict OperationSpec

abbrev pub empty_registry : OperationRegistry
empty_registry = record { specs = [] }

-- `register`, on the value that the dictionary holds under the name
abbrev register_new :
    Option OperationSpec → OperationSpec → OperationRegistry → Result OperationRegistry
register_new (some _) spec r = err (value_error ("Operation already registered: " ++ spec.name))
register_new none spec r = ok (record { specs = insert spec.name spec r.specs })

unfoldable pub register : OperationRegistry → OperationSpec → Result OperationRegistry
register r spec = register_new (lookup spec.name r.specs) spec r

-- `__init__` registers the given specifications in order.
unfoldable pub register_all : OperationRegistry → List OperationSpec → Result OperationRegistry
unfolding register
register_all r [] = ok r
register_all r (spec ∷ specs) = register r spec >>= λ r'. register_all r' specs

abbrev classification_or_unknown : Option OperationSpec → OperationClassification
classification_or_unknown none = unknown
classification_or_unknown (some spec) = spec.classification

unfoldable pub classify : OperationRegistry → String → OperationClassification
classify r operation = classification_or_unknown (lookup operation r.specs)

-- `OperationBlockedError(operation, classification)`
abbrev pub blocked {ℓ} : {A : Type ℓ} → Stdlib → String → OperationClassification → Result A
blocked std operation c = err (
    operation_blocked operation
      ("Operation " ++ std.repr operation ++ " is blocked (" ++ value c ++ ")."))

-- `classification is not ...` of the two `require` methods
abbrev pub is_free_verified_read : OperationClassification → Bool
is_free_verified_read free_verified_read = true
is_free_verified_read _ = false

abbrev is_controlled_billable : OperationClassification → Bool
is_controlled_billable controlled_billable = true
is_controlled_billable _ = false

abbrev require_class :
    (OperationClassification → Bool)
    → Stdlib
    → OperationRegistry
    → String
    → Option OperationSpec
    → Result OperationSpec
require_class p std r operation none = blocked std operation (classify r operation)
require_class p std r operation (some spec) = elim (p (classify r operation)) [
  | true ↦ ok spec
  | false ↦ blocked std operation (classify r operation)
]

unfoldable pub require_automatic : Stdlib → OperationRegistry → String → Result OperationSpec
unfolding classify
require_automatic std r operation =
    require_class is_free_verified_read std r operation (lookup operation r.specs)

unfoldable pub require_confirmed_billable :
    Stdlib → OperationRegistry → String → Result OperationSpec
unfolding classify
require_confirmed_billable std r operation =
    require_class is_controlled_billable std r operation (lookup operation r.specs)

abbrev pub cost_explorer_operation : String
cost_explorer_operation = "aws.cost_explorer.get_cost_and_usage"

abbrev pub default_specs : List OperationSpec
default_specs =
    record {
      name = "aws.inventory.list";
      classification = free_verified_read;
      evidence =
          "One non-paginated Lambda ListFunctions read and one API Gateway V2 GetApis read; AWS API and pricing references verified 2026-09-02.";
    }
    ∷ record {
      name = "aws.resource_explorer.search";
      classification = free_verified_read;
      evidence =
          "One bounded Resource Explorer Search request; AWS documents search as no-additional-charge, pricing reference verified 2026-09-16.";
    }
    ∷ record {
      name = "aws.cloudformation.project_inventory";
      classification = free_verified_read;
      evidence =
          "Paginated read-only CloudFormation resource summaries for the fixed project stack allowlist, with defensive page/resource caps and no write actions.";
    }
    ∷ record {
      name = cost_explorer_operation;
      classification = controlled_billable;
      evidence =
          "One Cost Explorer API request is billable at USD 0.01; updated 2026-09-16 from AWS pricing documentation.";
    }
    ∷ record {
      name = "telegram.send_message";
      classification = write;
      evidence = "External side effect requiring scoped confirmation.";
    }
    ∷ record {
      name = "trello.create_card";
      classification = write;
      evidence = "External side effect requiring scoped confirmation.";
    }
    ∷ record {
      name = "secrets.read_value";
      classification = sensitive_read;
      evidence = "Credential-bearing reads are never exposed as general tools.";
    }
    ∷ []

unfoldable pub build_default_registry : Result OperationRegistry
unfolding register_all
build_default_registry = register_all empty_registry default_specs
