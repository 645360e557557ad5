-- ===== src/Adapters/Inventory.antt =====
-- adapters/aws_inventory.py: `AwsInventoryAdapter`, the bounded reads of AWS. The children are the two
-- larger reads and what is proved of the results.
pub mod Sanitize
pub mod Project
pub mod Explorer
pub mod Execute
pub mod Answers
use aws_remote_mcp.Prelude.{
  ℕ, ◌+◌, leb, String, Bool, true, false, not, ◌&&◌, Option, none, some, List, [], ◌∷◌, ◌++◌, ◌==◌,
  if◌then◌else◌, length, take,
}
use aws_remote_mcp.Prelude.Result.{
  ⊤, Exception, Result, ok, err, adapter_error, value_error, unexpected,
}
use aws_remote_mcp.Prelude.Effect.{Action, lift, ◌>>=◌, ◌>>◌}
use aws_remote_mcp.Prelude.Text
use aws_remote_mcp.Json
use aws_remote_mcp.Json.{Json, text, arr, obj, nat, Fields, end, field, get}
use aws_remote_mcp.Adapters.Protocols.{AdapterIssue, AdapterStatus, AwsAdapterResult}
use aws_remote_mcp.Adapters.Protocols as Protocols
use aws_remote_mcp.Adapters.Values.{as_list, as_mapping, array, truthy}

abbrev pub max_resources_per_service : ℕ
max_resources_per_service = 10

abbrev pub supported_region : String
supported_region = "eu-west-1"

abbrev pub max_name_chars : ℕ
max_name_chars = 128

-- `_safe_string`
unfoldable pub safe_string : Option Json → String
safe_string (some (text t)) = if Text.is_empty t then "unknown" else Text.take max_name_chars t
safe_string _ = "unknown"

-- The AWS clients that the adapter makes: `client_factory(service, region)` and the reads. A client
-- is known by its service, since the adapter makes one for each read.
pub record AwsClients (W : Type 0) : Type 0 where
  pub client_factory : String → String → Action W ⊤
  pub list_functions : ℕ → Action W Json
  pub get_apis : ℕ → Action W Json
  pub list_stack_resources : String → Option String → Action W Json
  pub search : String → ℕ → String → Action W Json

-- The adapter's fields; the client factory is a parameter of its methods.
pub record AwsInventoryAdapter : Type 0 where
  pub region : String
  pub limit : ℕ
  pub view_arn : Option String

-- `__init__`
unfoldable pub create : String → ℕ → Option String → Result AwsInventoryAdapter
create region limit view_arn =
    if not (region == supported_region)
    then err (value_error "AWS inventory is restricted to eu-west-1.")
    else if not (leb 1 limit && leb limit max_resources_per_service)
    then err (value_error "Inventory limit must be between 1 and 10.")
    else ok (record { region = region; limit = limit; view_arn = view_arn })

abbrev pub adapter_issue : String → String → AdapterIssue
adapter_issue code message = record { code = code; message = message; retryable = false }

-- `raise AdapterError(code, message)`
abbrev pub refuse : String → String → Exception
refuse code message = adapter_error code message false

abbrev first_or_unknown : Option (List Json) → Option Json
first_or_unknown (some (v ∷ vs)) = some v
first_or_unknown _ = some (text "unknown")

abbrev pub list_or : Option Json → Option (List Json)
list_or none = some []
list_or v = as_list v

-- The dictionary of one function in `_list_lambda_functions`
abbrev pub lambda_resource : Fields → Json
lambda_resource item = obj (
    field "service" (text "lambda") (
      field "resource_type" (text "AWS::Lambda::Function") (
        field "name" (text (safe_string (get "FunctionName" item))) (
          field "runtime" (text (safe_string (get "Runtime" item))) (
            field "architecture"
              (text (safe_string (first_or_unknown (as_list (get "Architectures" item))))) end)))))

-- The dictionary of one interface in `_list_http_apis`
abbrev pub api_resource : Fields → Json
api_resource item = obj (
    field "service" (text "api_gateway_v2") (
      field "resource_type" (text "AWS::ApiGatewayV2::Api") (
        field "name" (text (safe_string (get "Name" item))) (
          field "protocol" (text (safe_string (get "ProtocolType" item))) (
            field "default_endpoint_disabled"
              (Json.bool (truthy (get "DisableExecuteApiEndpoint" item))) end)))))

abbrev pub cons_some : Option Json → List Json → List Json
cons_some none vs = vs
cons_some (some v) vs = v ∷ vs

abbrev pub resource_of : (Fields → Json) → Json → Option Json
resource_of f (obj item) = some (f item)
resource_of f _ = none

-- The loop over the items, which passes over what is no dictionary.
unfoldable pub resources_of : (Fields → Json) → List Json → List Json
resources_of f [] = []
resources_of f (v ∷ vs) = cons_some (resource_of f v) (resources_of f vs)

-- The list under a key and whether the response has a next page.
abbrev pub read_page :
    ℕ → String → String → (Fields → Json) → Option Fields → Result (List Json × Bool)
read_page limit key next f none = err (unexpected "AttributeError")
read_page limit key next f (some response) = elim (list_or (get key response)) [
  | none ↦ err (unexpected "TypeError")
  | some items ↦ ok (resources_of f (take limit items), truthy (get next response))
]

abbrev pub service_entry : String → Bool → List Json → Json
service_entry status truncated resources = obj (
    field "status" (text status)
      (field "truncated" (Json.bool truncated) (field "resources" (arr (array resources)) end)))

-- One of the two `try` blocks of `execute`: the entry, the number of resources, and whether it failed.
abbrev pub entry_of : Result (List Json × Bool) → Json × ℕ × Bool
entry_of (ok (resources, truncated)) =
    (service_entry "ok" truncated resources, length resources, false)
entry_of (err e) = (service_entry "unavailable" false [], 0, true)

abbrev pub issue_if : Bool → AdapterIssue → List AdapterIssue
issue_if true i = i ∷ []
issue_if false i = []

abbrev pub status_of : Bool → Bool → AdapterStatus
status_of false false = AdapterStatus.ok
status_of true true = AdapterStatus.error
status_of _ _ = AdapterStatus.partial

module _ {W : Type 0} (clients : AwsClients W) (adapter : AwsInventoryAdapter) where
  unfoldable pub list_lambda_functions : Action W (List Json × Bool)
  unfolding resources_of
  list_lambda_functions = do
    clients.client_factory "lambda" adapter.region
    response ← clients.list_functions adapter.limit
    lift (
        read_page adapter.limit "Functions" "NextMarker" lambda_resource
          (as_mapping (some response)))

  unfoldable pub list_http_apis : Action W (List Json × Bool)
  list_http_apis = do
    clients.client_factory "apigatewayv2" adapter.region
    response ← clients.get_apis adapter.limit
    lift (read_page adapter.limit "Items" "NextToken" api_resource (as_mapping (some response)))

  abbrev pub inventory_result :
      Result (List Json × Bool) → Result (List Json × Bool) → Result AwsAdapterResult
  inventory_result functions apis =
      let (lambda_entry, lambda_count, lambda_failed) = entry_of functions in
      let (api_entry, api_count, api_failed) = entry_of apis in
      Protocols.create (record {
        body = field "region" (text adapter.region) (
            field "read_only" (Json.bool true) (
              field "max_resources_per_service" (nat adapter.limit) (
                field "services"
                  (obj (field "lambda" lambda_entry (field "api_gateway_v2" api_entry end))) end)));
        sdk_requests = 2;
        resources = lambda_count + api_count;
        status = status_of lambda_failed api_failed;
        issues =
            issue_if lambda_failed
              (adapter_issue "lambda_inventory_unavailable" "Lambda inventory could not be read.")
            ++ issue_if api_failed (
                adapter_issue "api_gateway_inventory_unavailable"
                  "API Gateway inventory could not be read.");
      })

  -- `execute` for `aws.inventory.list`
  unfoldable pub list_inventory : Fields → Action W AwsAdapterResult
  list_inventory arguments w =
      if not (Json.is_empty arguments)
      then (
        err (refuse "invalid_inventory_arguments" "AWS inventory does not accept arguments."),
        w,
      )
      else (let (functions, w') = list_lambda_functions w in
          let (apis, w'') = list_http_apis w' in (inventory_result functions apis, w''))
