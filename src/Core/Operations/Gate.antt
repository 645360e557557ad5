-- ===== src/Core/Operations/Gate.antt =====
-- What the registry lets through: the two `require` methods are exactly their classification, and
-- the default registry fails closed.
use aws_remote_mcp.Prelude.{
  false, map, subst, sym, Bool-cases, inl, inr, eq_true→eq, lookup, insert, contains, ◌==◌, String,
  none, some, List, [], ◌∷◌, ◌≡◌, refl, ◌≢◌, ◌↔◌, lookup, insert, lookup-insert, arith, eq_iff,
  eq_refl,
}
use aws_remote_mcp.Prelude.Result.{ok, is_ok}
use aws_remote_mcp.Core.Models.{Stdlib}
use aws_remote_mcp.Core.Operations.{
  default_specs, cost_explorer_operation, free_verified_read, OperationSpec, OperationRegistry,
  register, classify, require_automatic, require_confirmed_billable, build_default_registry,
  blocked,
}

-- A successful registration finds the new name, and what was registered before is found unchanged.
register-lookup :
    (r r' : OperationRegistry) (spec : OperationSpec) (name : String)
    → register r spec ≡ ok r'
    → (lookup spec.name r'.specs ≡ some spec)
      × (lookup spec.name r.specs ≡ none)
      × (name ≢ spec.name → lookup name r'.specs ≡ lookup name r.specs)
unfolding register
register-lookup r r' spec name h = ground (
  arith,
  lookup-insert spec.name spec.name spec r.specs,
  lookup-insert spec.name name spec r.specs,
  eq_refl spec.name,
  eq_iff name spec.name,
)

-- An operation is let through as automatic with a specification exactly if that specification is
-- registered under its name and classified as a free verified read.
pub require_automatic_iff :
    (std : Stdlib) (r : OperationRegistry) (operation : String) (spec : OperationSpec)
    → (require_automatic std r operation ≡ ok spec)
      ↔ ((lookup operation r.specs ≡ some spec) × (spec.classification ≡ free_verified_read))
unfolding require_automatic classify
require_automatic_iff std r operation spec = ground arith

pub require_automatic_blocks :
    (std : Stdlib) (r : OperationRegistry) (operation : String)
    → classify r operation ≢ free_verified_read
    → require_automatic std r operation ≡ blocked std operation (classify r operation)
unfolding require_automatic classify
require_automatic_blocks std r operation h = ground arith

abbrev pub automatic_operations : List String
automatic_operations =
    "aws.inventory.list" ∷ "aws.resource_explorer.search" ∷ "aws.cloudformation.project_inventory"
    ∷ []

abbrev default_registry : OperationRegistry
default_registry = record { specs = map (λ spec. (spec.name, spec)) default_specs }

build_default_registry-eq : build_default_registry ≡ ok default_registry
unfolding build_default_registry lookup insert
build_default_registry-eq = refl

abbrev AutomaticGate : Stdlib → String → Type 0
AutomaticGate std operation =
    is_ok (require_automatic std default_registry operation)
    ≡ contains operation automatic_operations

abbrev BillableGate : Stdlib → String → Type 0
BillableGate std operation =
    is_ok (require_confirmed_billable std default_registry operation)
    ≡ (operation == cost_explorer_operation)

-- To prove a statement about every name, prove it at one name and where the test for that fails.
by_name :
    (P : String → Type 0) (name operation : String)
    → P name
    → ((operation == name) ≡ false → P operation)
    → P operation
by_name P name operation here other = elim (Bool-cases (operation == name)) [
  | inl e ↦ subst P (sym (eq_true→eq operation name e)) here
  | inr ne ↦ other ne
]

default-AutomaticGate : (std : Stdlib) (operation : String) → AutomaticGate std operation
unfolding require_automatic lookup
default-AutomaticGate std operation =
    by_name (AutomaticGate std) "aws.inventory.list" operation refl λ n1.
      by_name (AutomaticGate std) "aws.resource_explorer.search" operation refl λ n2.
        by_name (AutomaticGate std) "aws.cloudformation.project_inventory" operation refl
          λ n3. rw (n1, n2, n3) (ground arith)

default-BillableGate : (std : Stdlib) (operation : String) → BillableGate std operation
unfolding require_confirmed_billable lookup
default-BillableGate std operation =
    by_name (BillableGate std) cost_explorer_operation operation refl λ n. rw n (ground arith)

-- The registry that the server builds exists, and in it exactly three reads are automatic and
-- exactly the Cost Explorer request is billable on confirmation, whatever name is asked for.
pub default_registry_gate :
    (std : Stdlib) (operation : String)
    → (r : OperationRegistry) × (build_default_registry ≡ ok r)
      × (is_ok (require_automatic std r operation) ≡ contains operation automatic_operations)
      × (is_ok (require_confirmed_billable std r operation)
          ≡ (operation == cost_explorer_operation))
default_registry_gate std operation = (
  default_registry,
  build_default_registry-eq,
  default-AutomaticGate std operation,
  default-BillableGate std operation,
)
