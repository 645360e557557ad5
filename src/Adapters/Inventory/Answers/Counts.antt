-- ===== src/Adapters/Inventory/Answers/Counts.antt =====
-- adapters/aws_inventory.py: the requests of the two service lists, against what is reported.
use aws_remote_mcp.Prelude.{
  ℕ, ◌+◌, ◌≤◌, String, Bool, true, Option, some, List, ◌≡◌, refl, inl, inr, arith,
}
use aws_remote_mcp.Prelude.Result.{Result-cases, ⊤, Result, ok, err}
use aws_remote_mcp.Prelude.Effect.{Action, lift, continue, ◌>>=◌}
use aws_remote_mcp.Json.{Json, Fields, end, field}
use aws_remote_mcp.Adapters.Protocols.{AwsAdapterResult}
use aws_remote_mcp.Adapters.Protocols as Protocols
use aws_remote_mcp.Adapters.Values.{as_mapping}
use aws_remote_mcp.Adapters.Inventory.{
  AwsClients, AwsInventoryAdapter, max_resources_per_service, list_inventory, list_lambda_functions,
  list_http_apis, read_page, entry_of, inventory_result,
}
use aws_remote_mcp.Adapters.Inventory.Explorer.Refuses.{is_adapter_error}
use aws_remote_mcp.Adapters.Inventory.Answers.{IsAnswer, Answers, read_page-Few}

-- Calls of the service that a measure of the world counts: a read is one request, a client is none.
pub record IsCounted {W : Type 0} (clients : AwsClients W) (requests : W → ℕ) : Type 0 where
  pub made :
      (service region : String) (w : W)
      → requests (clients.client_factory service region w).1 ≡ requests w
  pub functions : (limit : ℕ) (w : W) → requests (clients.list_functions limit w).1 ≡ requests w + 1
  pub apis : (limit : ℕ) (w : W) → requests (clients.get_apis limit w).1 ≡ requests w + 1
  pub stacks :
      (stack : String) (token : Option String) (w : W)
      → requests (clients.list_stack_resources stack token w).1 ≡ requests w + 1
  pub searches :
      (query : String) (limit : ℕ) (view : String) (w : W)
      → requests (clients.search query limit view w).1 ≡ requests w + 1

-- An answer that reports at least the requests that were made, or an error with no request made.
abbrev pub Outcome : ℕ → Result AwsAdapterResult → ℕ → Type 0
Outcome before (ok r) after = IsAnswer r × (after ≤ before + r.sdk_requests)
Outcome before (err e) after = (is_adapter_error e ≡ true) × (after ≡ before)

pub Answers-Outcome :
    (before n : ℕ) (r : Result AwsAdapterResult) (after : ℕ)
    → Answers n r
    → after ≤ before + n
    → Outcome before r after
Answers-Outcome before n (ok r) after (answer, same) few = (answer, omega (arith, same, few))
Answers-Outcome before n (err e) after h few = absurd h

pub continue-count :
    {W A B : Type 0} (requests : W → ℕ) (before : ℕ) (o : Result A × W) (k : A → Action W B)
    → requests o.1 ≡ before
    → ((a : A) (w : W) → requests (k a w).1 ≡ requests w + 1)
    → requests (continue o.0 k o.1).1 ≤ before + 1
continue-count requests before (ok a, w) k same each = omega (arith, same, each a w)
continue-count requests before (err e, w) k same each = omega (arith, same)

page-count :
    {W A : Type 0} (requests : W → ℕ) (before : ℕ) (o : Result ⊤ × W) (read : Action W Json)
    (f : Json → Result A)
    → requests o.1 ≡ before
    → ((w : W) → requests (read w).1 ≡ requests w + 1)
    → requests (continue o.0 (λ _. read >>= λ response. lift (f response)) o.1).1 ≤ before + 1
page-count requests before (err e, w) read f same each = omega (arith, same)
page-count requests before (ok _, w) read f same each = elim (Result-cases (read w).0) [
  | inl (response, e) ↦ rw e (omega (arith, same, each w))
  | inr (e', e) ↦ rw e (omega (arith, same, each w))
]

page-Few :
    {W : Type 0} (limit : ℕ) (key next : String) (f : Fields → Json) (o : Result ⊤ × W)
    (read : Action W Json)
    → (entry_of
        (continue o.0
          (λ _. read >>= λ response. lift (read_page limit key next f (as_mapping (some response))))
          o.1).0).1
      ≤ limit
page-Few limit key next f (err e, w) read = omega arith
page-Few limit key next f (ok _, w) read = elim (Result-cases (read w).0) [
  | inl (response, e) ↦ rw e (read_page-Few limit key next f (as_mapping (some response)))
  | inr (e', e) ↦ rw e (omega arith)
]

module _ {W : Type 0} (clients : AwsClients W) (adapter : AwsInventoryAdapter) (requests : W → ℕ)
    (counted : IsCounted clients requests) where
  inventory_result-Answers :
      (f g : Result (List Json × Bool))
      → (entry_of f).1 + (entry_of g).1 ≤ 20
      → Answers 2 (inventory_result clients adapter f g)
  unfolding Protocols.create
  inventory_result-Answers (ok f) (ok g) h = ground arith
  inventory_result-Answers (ok f) (err g) h = ground arith
  inventory_result-Answers (err f) (ok g) h = ground arith
  inventory_result-Answers (err f) (err g) h = ground arith

  list_lambda-Few :
      (w : W) → (entry_of (list_lambda_functions clients adapter w).0).1 ≤ adapter.limit
  unfolding list_lambda_functions
  list_lambda-Few w =
      page-Few adapter.limit "Functions" "NextMarker" _
        (clients.client_factory "lambda" adapter.region w) (clients.list_functions adapter.limit)

  list_http-Few : (w : W) → (entry_of (list_http_apis clients adapter w).0).1 ≤ adapter.limit
  unfolding list_http_apis
  list_http-Few w =
      page-Few adapter.limit "Items" "NextToken" _
        (clients.client_factory "apigatewayv2" adapter.region w) (clients.get_apis adapter.limit)

  list_lambda-count :
      (w : W) → requests (list_lambda_functions clients adapter w).1 ≤ requests w + 1
  unfolding list_lambda_functions
  list_lambda-count w =
      page-count requests (requests w) (clients.client_factory "lambda" adapter.region w)
        (clients.list_functions adapter.limit) _ (counted.made "lambda" adapter.region w)
        λ w'. counted.functions adapter.limit w'

  list_http-count : (w : W) → requests (list_http_apis clients adapter w).1 ≤ requests w + 1
  unfolding list_http_apis
  list_http-count w =
      page-count requests (requests w) (clients.client_factory "apigatewayv2" adapter.region w)
        (clients.get_apis adapter.limit) _ (counted.made "apigatewayv2" adapter.region w)
        λ w'. counted.apis adapter.limit w'

  pub list_inventory-Outcome :
      (arguments : Fields) (w : W)
      → adapter.limit ≤ max_resources_per_service
      → Outcome
          (requests w)
          (list_inventory clients adapter arguments w).0
          (requests (list_inventory clients adapter arguments w).1)
  unfolding list_inventory
  list_inventory-Outcome end w small =
      let w' = (list_lambda_functions clients adapter w).1 in
      Answers-Outcome (requests w) 2 _ _
        (inventory_result-Answers (list_lambda_functions clients adapter w).0
          (list_http_apis clients adapter w').0
          (omega (arith, small, list_lambda-Few w, list_http-Few w')))
        (omega (arith, list_lambda-count w, list_http-count w'))
  list_inventory-Outcome (field k v fs) w small = (refl, refl)
