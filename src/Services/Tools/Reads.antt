-- ===== src/Services/Tools/Reads.antt =====
-- services/tools.py with adapters/aws_inventory.py: a read of AWS from the tool down to the requests.
use aws_remote_mcp.Prelude.{
  ℕ, ◌+◌, ◌≤◌, String, Bool, true, false, Option, List, ◌≡◌, refl, arith, inl, inr, ◌⊎◌, lookup,
  Option-cases,
}
use aws_remote_mcp.Prelude.Result.{Result, ok, err, adapter_error, operation_blocked}
use aws_remote_mcp.Prelude.Effect.{Action, resume}
use aws_remote_mcp.Json.{Fields, end}
use aws_remote_mcp.Core.Models.{no_counters, Stdlib, OperationCounters, ToolIssue, ToolResult}
use aws_remote_mcp.Core.Operations.{
  require_automatic, is_free_verified_read, classify, OperationSpec, OperationRegistry,
}
use aws_remote_mcp.Adapters.Protocols.{AdapterStatus, AwsAdapterResult}
use aws_remote_mcp.Adapters.Inventory.{AwsClients, AwsInventoryAdapter, create}
use aws_remote_mcp.Adapters.Inventory.Execute.{aws_adapter}
use aws_remote_mcp.Adapters.Inventory.Answers.{IsAnswer}
use aws_remote_mcp.Adapters.Inventory.Answers.Counts.{IsCounted, Outcome}
use aws_remote_mcp.Adapters.Inventory.Answers.Outcomes.{execute-Outcome}
use aws_remote_mcp.Services.Tools.{ToolService, run_aws_operation, bounded_result, on_adapter_error}

-- A result of the tool that reports at least the requests that were made, at most eighty.
abbrev pub Reported : ℕ → Result ToolResult → ℕ → Type 0
Reported before (ok t) after =
    (t.counters.sdk_requests ≤ 80)
    × (t.counters.resources ≤ 100)
    × (after ≤ before + t.counters.sdk_requests)
Reported before (err e) after = ⊥

bounded_result-counters :
    (limit : ℕ) (body : Fields) (counters : OperationCounters) (status : AdapterStatus)
    (issues : List ToolIssue)
    → (bounded_result limit body counters status issues).counters ≡ counters
unfolding bounded_result
bounded_result-counters limit body counters AdapterStatus.ok issues = ground arith
bounded_result-counters limit body counters AdapterStatus.partial issues = ground arith
bounded_result-counters limit body counters AdapterStatus.error issues = ground arith

bounded_result-Reported :
    (before limit : ℕ) (body : Fields) (counters : OperationCounters) (status : AdapterStatus)
    (issues : List ToolIssue) (after : ℕ)
    → (counters.sdk_requests ≤ 80)
      × (counters.resources ≤ 100)
      × (after ≤ before + counters.sdk_requests)
    → Reported before (ok (bounded_result limit body counters status issues)) after
bounded_result-Reported before limit body counters status issues after h =
    rw (bounded_result-counters limit body counters status issues) h

answered-Reported :
    {W : Type 0} (before : ℕ) (requests : W → ℕ) (o : Result AwsAdapterResult × W)
    (k : AwsAdapterResult → Action W ToolResult)
    → Outcome before o.0 (requests o.1)
    → ((r : AwsAdapterResult) (w : W)
        → IsAnswer r
        → requests w ≤ before + r.sdk_requests
        → Reported before (k r w).0 (requests (k r w).1))
    → Reported before
        (resume o.0 (on_adapter_error end no_counters) k o.1).0
        (requests (resume o.0 (on_adapter_error end no_counters) k o.1).1)
answered-Reported before requests (ok r, w) k h each = each r w h.0 h.1
answered-Reported before requests (err (adapter_error code message retryable), w) k h each =
    (omega arith, omega arith, omega (arith, h.1))
answered-Reported before requests (err e, w) k h each = ground (arith, h.0)

class_cases :
    (b : Bool) (spec : OperationSpec) (operation message : String)
    → ((s : OperationSpec) × (elim b as (λ _. Result OperationSpec) [
      | true ↦ ok spec
      | false ↦ err (operation_blocked operation message)
    ]
          ≡ ok s))
      ⊎ ((m : String) × (elim b as (λ _. Result OperationSpec) [
        | true ↦ ok spec
        | false ↦ err (operation_blocked operation message)
      ]
            ≡ err (operation_blocked operation m)))
class_cases true spec operation message = inl (spec, refl)
class_cases false spec operation message = inr (message, refl)

automatic_cases :
    (std : Stdlib) (r : OperationRegistry) (operation : String)
    → ((spec : OperationSpec) × (require_automatic std r operation ≡ ok spec))
      ⊎ ((message : String) × (require_automatic std r operation
            ≡ err (operation_blocked operation message)))
unfolding require_automatic
automatic_cases std r operation = elim (Option-cases (lookup operation r.specs)) [
  | inl e ↦ rw e (inr (_, refl))
  | inr (spec, e) ↦
      rw e (class_cases (is_free_verified_read (classify r operation)) spec operation _)
]

module _ {W : Type 0} (std : Stdlib) (clients : AwsClients W) (adapter : AwsInventoryAdapter)
    (requests : W → ℕ) (counted : IsCounted clients requests) (service : ToolService W) where
  -- The service with the inventory adapter, which its constructor took, and clients of which each read
  -- is one request and making a client is none: for any operation and arguments, allowed or not, and
  -- whatever AWS answers, `run_aws_operation` raises nothing. Its result reports at most eighty SDK
  -- requests and a hundred resources, and no request was made that it does not report.
  pub run_aws_operation-Reported :
      (region : String) (limit : ℕ) (view : Option String) (operation : String) (arguments : Fields)
      (w : W)
      → create region limit view ≡ ok adapter
      → service.aws ≡ aws_adapter std clients adapter
      → Reported
          (requests w)
          (run_aws_operation std service operation arguments w).0
          (requests (run_aws_operation std service operation arguments w).1)
  unfolding run_aws_operation
  run_aws_operation-Reported region limit view operation arguments w made deployed =
      elim (automatic_cases std service.operations operation) [
        | inl (spec, e) ↦ rw e (
            answered-Reported (requests w) requests (service.aws.execute operation arguments w) _
              (rw deployed (
                execute-Outcome std clients adapter requests counted region limit view operation
                  arguments w made))
              λ r w' answer few.
                bounded_result-Reported (requests w) service.result_limit r.body _ r.status _
                  (requests w') (answer.few_requests, answer.few_resources, few))
        | inr (message, e) ↦ rw e (omega arith, omega arith, omega arith)
      ]
