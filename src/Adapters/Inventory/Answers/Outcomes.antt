-- ===== src/Adapters/Inventory/Answers/Outcomes.antt =====
-- adapters/aws_inventory.py: what `execute` answers and how many requests it makes, whatever the service does.
use aws_remote_mcp.Prelude.{
  ℕ, ◌+◌, ◌≤◌, String, true, Option, none, some, ◌==◌, ◌≡◌, refl, sym, subst, inl, inr, arith,
  Bool-cases,
}
use aws_remote_mcp.Prelude.Result.{Result, ok, err}
use aws_remote_mcp.Prelude.Effect.{Action, continue}
use aws_remote_mcp.Prelude.Int.{pos}
use aws_remote_mcp.Json.{Json, num, Fields, end, field, get}
use aws_remote_mcp.Core.Models.{Stdlib}
use aws_remote_mcp.Adapters.Protocols.{AwsAdapterResult}
use aws_remote_mcp.Adapters.Inventory.{
  AwsClients, AwsInventoryAdapter, create, max_resources_per_service,
}
use aws_remote_mcp.Adapters.Inventory.Explorer.Query.{validate_resource_explorer_query}
use aws_remote_mcp.Adapters.Inventory.Explorer.Search.{
  only_known, query_of, limit_of, max_explorer_results, search_valid, request_search, valid_view,
  search_resource_explorer,
}
use aws_remote_mcp.Adapters.Inventory.Project.{list_project_cloudformation_resources}
use aws_remote_mcp.Adapters.Inventory.Project.Whole.{project_inventory-Returned}
use aws_remote_mcp.Adapters.Inventory.Execute.{execute}
use aws_remote_mcp.Adapters.Inventory.Explorer.Refuses.{
  refuses, query_of-refuses, limit_of-refuses, validate_query-refuses,
}
use aws_remote_mcp.Adapters.Inventory.Answers.{failure-Answers, read_search-Answers}
use aws_remote_mcp.Adapters.Inventory.Answers.Counts.{
  IsCounted, Outcome, Answers-Outcome, continue-count, list_inventory-Outcome,
}

bound-Outcome :
    {W A : Type 0} (requests : W → ℕ) (r : Result A) (k : A → Action W AwsAdapterResult) (w : W)
    → refuses r ≡ true
    → ((a : A) → r ≡ ok a → Outcome (requests w) (k a w).0 (requests (k a w).1))
    → Outcome (requests w) (continue r k w).0 (requests (continue r k w).1)
bound-Outcome requests (ok a) k w h each = each a refl
bound-Outcome requests (err e) k w h each = (h, refl)

limit_of-Few : (v : Option Json) (n : ℕ) → limit_of v ≡ ok n → n ≤ max_explorer_results
limit_of-Few none n e = grind arith
limit_of-Few (some (num (pos m))) n e = grind arith
limit_of-Few (some _) n e = grind arith

create-small :
    (region : String) (limit : ℕ) (view : Option String) (adapter : AwsInventoryAdapter)
    → create region limit view ≡ ok adapter
    → adapter.limit ≤ max_resources_per_service
unfolding create
create-small region limit view adapter made = grind arith

module _ {W : Type 0} (std : Stdlib) (clients : AwsClients W) (adapter : AwsInventoryAdapter)
    (requests : W → ℕ) (counted : IsCounted clients requests) where
  project-Outcome :
      (arguments : Fields) (w : W)
      → Outcome
          (requests w)
          (list_project_cloudformation_resources std clients adapter.region arguments w).0
          (requests
            (list_project_cloudformation_resources std clients adapter.region arguments w).1)
  unfolding list_project_cloudformation_resources
  project-Outcome end w =
      let r =
        project_inventory-Returned std clients requests counted.stacks adapter.region w
          counted.made in
      subst
        (λ x.
          Outcome (requests w) x
            (requests (list_project_cloudformation_resources std clients adapter.region end w).1))
        (sym r.returned)
        (
          record {
            accepted = r.accepted;
            few_requests = omega (arith, r.requests_reported, r.within.few_requests);
            few_resources = omega (arith, r.resources_reported, r.within.inv.capped);
          },
          omega (arith, r.counted),
        )
  project-Outcome (field k v fs) w = (refl, refl)

  request_search-count :
      (query : String) (limit : ℕ) (w : W)
      → requests (request_search std clients adapter query limit w).1 ≤ requests w + 1
  request_search-count query limit w =
      continue-count requests (requests w)
        (clients.client_factory "resource-explorer-2" adapter.region w) _
        (counted.made "resource-explorer-2" adapter.region w)
        λ a w'. counted.searches query limit _ w'

  search_valid-Outcome :
      (query : String) (limit : ℕ) (w : W)
      → limit ≤ max_explorer_results
      → Outcome
          (requests w)
          (search_valid std clients adapter query limit w).0
          (requests (search_valid std clients adapter query limit w).1)
  search_valid-Outcome query limit w few = elim (Bool-cases (valid_view std adapter.view_arn)) [
    | inl e ↦ rw e (
        let r = request_search std clients adapter query limit w in
        Answers-Outcome (requests w) 1 _ _
          (read_search-Answers std adapter.region query limit r.0 few)
          (request_search-count query limit w))
    | inr e ↦ rw e (
        Answers-Outcome (requests w) 0 _ _
          (failure-Answers query limit adapter.region _ _ 0 (omega arith)) (omega arith))
  ]

  search-Outcome :
      (arguments : Fields) (w : W)
      → Outcome
          (requests w)
          (search_resource_explorer std clients adapter arguments w).0
          (requests (search_resource_explorer std clients adapter arguments w).1)
  unfolding search_resource_explorer
  search-Outcome arguments w = elim (Bool-cases (only_known arguments)) [
    | inl e ↦ rw e (
        bound-Outcome requests (query_of (get "query" arguments)) _ w
          (query_of-refuses (get "query" arguments))
          λ query q.
            bound-Outcome requests (limit_of (get "limit" arguments)) _ w
              (limit_of-refuses (get "limit" arguments))
              λ limit l.
                bound-Outcome requests (validate_resource_explorer_query std query) _ w
                  (validate_query-refuses std query)
                  λ normalized v.
                    search_valid-Outcome normalized limit w
                      (limit_of-Few (get "limit" arguments) limit l))
    | inr e ↦ rw e (refl, refl)
  ]

  -- A region and a limit that the adapter's constructor takes; clients of which each read is one
  -- request and making a client is none; any operation, arguments and world, whatever the service
  -- answers: `execute` returns a result that `AwsAdapterResult` accepts, with at most eighty requests
  -- and a hundred resources, and it made no more requests than the result reports; or it raises
  -- `AdapterError` and made none.
  pub execute-Outcome :
      (region : String) (limit : ℕ) (view : Option String) (operation : String) (arguments : Fields)
      (w : W)
      → create region limit view ≡ ok adapter
      → Outcome
          (requests w)
          (execute std clients adapter operation arguments w).0
          (requests (execute std clients adapter operation arguments w).1)
  unfolding execute
  execute-Outcome region limit view operation arguments w made =
      elim (Bool-cases (operation == "aws.resource_explorer.search")) [
        | inl e ↦ rw e (search-Outcome arguments w)
        | inr e ↦ rw e (elim (Bool-cases (operation == "aws.cloudformation.project_inventory")) [
          | inl e ↦ rw e (project-Outcome arguments w)
          | inr e ↦ rw e (elim (Bool-cases (operation == "aws.inventory.list")) [
            | inl e ↦ rw e (
                list_inventory-Outcome clients adapter requests counted arguments w
                  (create-small region limit view adapter made))
            | inr e ↦ rw e (refl, refl)
          ])
        ])
      ]
