-- ===== src/Adapters/Inventory/Explorer/Search.antt =====
-- adapters/aws_inventory.py: `_search_resource_explorer`.
use aws_remote_mcp.Prelude.{
  ℕ, ltb, leb, String, Bool, true, false, not, ◌&&◌, ◌||◌, Option, none, some, is_none, List, [],
  ◌∷◌, ◌==◌, if◌then◌else◌, length, take,
}
use aws_remote_mcp.Prelude.Result.{Exception, Result, ok, err}
use aws_remote_mcp.Prelude.Effect.{Action, raise, lift, ◌>>=◌, ◌>>◌}
use aws_remote_mcp.Prelude.Int.{pos}
use aws_remote_mcp.Prelude.Text
use aws_remote_mcp.Json.{Json, num, text, arr, obj, nat, Fields, end, field, get}
use aws_remote_mcp.Core.Models.{Stdlib}
use aws_remote_mcp.Adapters.Protocols.{AdapterIssue, AdapterStatus, AwsAdapterResult}
use aws_remote_mcp.Adapters.Protocols as Protocols
use aws_remote_mcp.Adapters.Values.{as_list, array}
use aws_remote_mcp.Adapters.Inventory.{
  AwsClients, AwsInventoryAdapter, adapter_issue, refuse, cons_some,
}
use aws_remote_mcp.Adapters.Inventory.Explorer.Query.{
  validate_resource_explorer_query, invalid_query,
}
use aws_remote_mcp.Adapters.Inventory.Explorer.Item.{sanitize_resource_explorer_item, is_view_arn}

abbrev pub max_explorer_results : ℕ
max_explorer_results = 50

-- `set(arguments).issubset({"query", "limit"})`
abbrev pub only_known : Fields → Bool
only_known end = true
only_known (field k v fs) = ((k == "query") || (k == "limit")) && only_known fs

abbrev pub query_of : Option Json → Result String
query_of none = ok "*"
query_of (some (text t)) = ok t
query_of (some _) = err (invalid_query "Resource Explorer query is invalid.")

abbrev pub invalid_limit : Exception
invalid_limit =
    refuse "invalid_resource_explorer_limit" "Resource Explorer limit must be between 1 and 50."

abbrev pub limit_of : Option Json → Result ℕ
limit_of none = ok 25
limit_of (some (num (pos n))) =
    if leb 1 n && leb n max_explorer_results then ok n else err invalid_limit
limit_of (some _) = err invalid_limit

abbrev pub search_body : String → String → ℕ → List Json → Bool → Fields
search_body region query limit resources truncated = field "region" (text region) (
    field "query" (text query) (
      field "max_results" (nat limit) (
        field "read_only" (Json.bool true) (
          field "returned" (nat (length resources)) (
            field "truncated" (Json.bool truncated)
              (field "resources" (arr (array resources)) end))))))

-- `_resource_explorer_failure`
unfoldable pub resource_explorer_failure :
    String → ℕ → String → String → String → ℕ → Result AwsAdapterResult
resource_explorer_failure query limit region code message sdk_requests = Protocols.create (record {
  body = search_body region query limit [] false;
  sdk_requests = sdk_requests;
  resources = 0;
  status = AdapterStatus.error;
  issues = adapter_issue code message ∷ [];
})

-- The items that are kept, and whether one was not.
unfoldable pub sanitized_items : Stdlib → List Json → List Json × Bool
sanitized_items std [] = ([], false)
sanitized_items std (item ∷ items) =
    let (kept, malformed) = sanitized_items std items in
    let r = sanitize_resource_explorer_item std item in (cons_some r kept, is_none r || malformed)

abbrev pub search_status : Bool → List Json → AdapterStatus
search_status false kept = AdapterStatus.ok
search_status true [] = AdapterStatus.error
search_status true (_ ∷ _) = AdapterStatus.partial

abbrev pub search_issues : Bool → List AdapterIssue
search_issues false = []
search_issues true =
    adapter_issue "resource_explorer_invalid_resources"
      "Some Resource Explorer results were omitted because they were malformed."
    ∷ []

-- `isinstance(token, str) and bool(token)`
abbrev has_next_page : Option Json → Bool
has_next_page (some (text t)) = not (Text.is_empty t)
has_next_page _ = false

abbrev pub search_answer : Stdlib → String → String → ℕ → Fields → List Json → AwsAdapterResult
search_answer std region query limit response items =
    let (kept, malformed) = sanitized_items std (take limit items) in
    record {
      body =
          search_body region query limit kept
            (has_next_page (get "NextToken" response) || ltb limit (length items));
      sdk_requests = 1;
      resources = length kept;
      status = search_status malformed kept;
      issues = search_issues malformed;
    }

abbrev pub read_list :
    Stdlib → String → String → ℕ → Fields → Option (List Json) → Result AwsAdapterResult
read_list std region query limit response none =
    resource_explorer_failure query limit region "invalid_resource_explorer_response"
      "AWS Resource Explorer returned an invalid response." 1
read_list std region query limit response (some items) =
    Protocols.create (search_answer std region query limit response items)

abbrev pub read_search : Stdlib → String → String → ℕ → Result Json → Result AwsAdapterResult
read_search std region query limit (err e) =
    resource_explorer_failure query limit region "resource_explorer_search_unavailable"
      "AWS Resource Explorer search could not be completed." 1
read_search std region query limit (ok (obj response)) =
    read_list std region query limit response (as_list (get "Resources" response))
read_search std region query limit (ok _) =
    resource_explorer_failure query limit region "invalid_resource_explorer_response"
      "AWS Resource Explorer returned an invalid response." 1

abbrev pub valid_view : Stdlib → Option String → Bool
valid_view std none = false
valid_view std (some arn) = is_view_arn std arn

abbrev view_or : Option String → String
view_or none = ""
view_or (some arn) = arn

module _ {W : Type 0} (std : Stdlib) (clients : AwsClients W) (adapter : AwsInventoryAdapter) where
  abbrev pub request_search : String → ℕ → Action W Json
  request_search query limit = do
    clients.client_factory "resource-explorer-2" adapter.region
    clients.search query limit (view_or adapter.view_arn)

  abbrev pub search_valid : String → ℕ → Action W AwsAdapterResult
  search_valid query limit w =
      if not (valid_view std adapter.view_arn)
      then (
        resource_explorer_failure query limit adapter.region "resource_explorer_view_unavailable"
            "A valid Resource Explorer view is not configured." 0,
        w,
      )
      else (let (response, w') = request_search query limit w in
          (read_search std adapter.region query limit response, w'))

  -- `_search_resource_explorer`
  unfoldable pub search_resource_explorer : Fields → Action W AwsAdapterResult
  unfolding resource_explorer_failure sanitized_items
  search_resource_explorer arguments =
      if not (only_known arguments)
      then raise (
          refuse "invalid_resource_explorer_arguments"
            "Resource Explorer requires a query and a result limit.")
      else do
        query ← lift (query_of (get "query" arguments))
        limit ← lift (limit_of (get "limit" arguments))
        normalized ← lift (validate_resource_explorer_query std query)
        search_valid normalized limit
