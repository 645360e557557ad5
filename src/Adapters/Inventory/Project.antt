-- ===== src/Adapters/Inventory/Project.antt =====
-- adapters/aws_inventory.py: the inventory of the project's CloudFormation stacks, which follows
-- pagination under hard caps.
pub mod Ends
pub mod Bounds
pub mod Rounds
pub mod Whole
use aws_remote_mcp.Prelude.{
  ℕ, zero, suc, ◌+◌, leb, String, Bool, true, false, not, ◌&&◌, Option, none, some, List, [], ◌∷◌,
  ◌++◌, map, ◌==◌, if◌then◌else◌, length, any, contains,
}
use aws_remote_mcp.Prelude.Result.{⊤, Result, ok, err, runtime_error}
use aws_remote_mcp.Prelude.Effect.{Action}
use aws_remote_mcp.Prelude.Text
use aws_remote_mcp.Json
use aws_remote_mcp.Json.{Json, text, arr, obj, nat, Fields, end, field, get}
use aws_remote_mcp.Core.Models.{Stdlib}
use aws_remote_mcp.Adapters.Protocols.{AdapterIssue, AdapterStatus, AwsAdapterResult}
use aws_remote_mcp.Adapters.Protocols as Protocols
use aws_remote_mcp.Adapters.Values
use aws_remote_mcp.Adapters.Values.{array}
use aws_remote_mcp.Adapters.Inventory.{AwsClients, adapter_issue, refuse}
use aws_remote_mcp.Adapters.Inventory.Sanitize.{StackResource, sanitize_cloudformation_resource}

abbrev pub max_pages : ℕ
max_pages = 20

abbrev pub max_resources : ℕ
max_resources = 100

abbrev pub project_stacks : List String
project_stacks =
    "aws-remote-mcp-dev" ∷ "aws-remote-mcp-prod" ∷ "aws-remote-mcp-auth-dev"
    ∷ "aws-remote-mcp-auth-prod" ∷ []

-- The variables of the method outside its loop over the pages.
pub record Progress : Type 0 where
  pub resources : List StackResource
  pub issues : List AdapterIssue
  pub issue_codes : List String
  pub seen_resources : List (String × String)
  pub sdk_requests : ℕ
  pub complete : Bool

abbrev pub no_progress : Progress
no_progress = record {
  resources = [];
  issues = [];
  issue_codes = [];
  seen_resources = [];
  sdk_requests = 0;
  complete = true;
}

-- `add_issue`
unfoldable pub add_issue : String → String → Progress → Progress
add_issue code message p = if contains code p.issue_codes then p else record p {
  issue_codes = p.issue_codes ++ (code ∷ []);
  issues = p.issues ++ (adapter_issue code message ∷ []);
}

-- `complete = False`, then `add_issue`
abbrev pub incomplete : String → String → Progress → Progress
incomplete code message p = add_issue code message (record p { complete = false })

abbrev pub has_key : String × String → List (String × String) → Bool
has_key k = any (λ j. (k.0 == j.0) && (k.1 == j.1))

abbrev pub malformed : Progress → Progress
malformed =
    incomplete "project_inventory_invalid_resource"
      "Some CloudFormation resources were omitted because they were malformed."

abbrev pub duplicate : Progress → Progress
duplicate =
    incomplete "project_inventory_duplicate_resource"
      "A duplicate CloudFormation resource was omitted."

abbrev pub keep : StackResource → Progress → Progress
keep r p = record p {
  seen_resources = p.seen_resources ++ ((r.stack, r.logical_id) ∷ []);
  resources = p.resources ++ (r ∷ []);
}

-- The loop over one page's items; at the cap on resources it breaks.
unfoldable pub add_items : Stdlib → String → List Json → Progress → Progress
unfolding add_issue
add_items std stack [] p = p
add_items std stack (item ∷ items) p = elim (sanitize_cloudformation_resource std item stack) [
  | none ↦ add_items std stack items (malformed p)
  | some r ↦ elim (has_key (r.stack, r.logical_id) p.seen_resources) [
    | true ↦ add_items std stack items (duplicate p)
    | false ↦ elim (leb max_resources (length p.resources)) [
      | true ↦ record p { complete = false }
      | false ↦ add_items std stack items (keep r p)
    ]
  ]
]

-- The variables of the loop over the pages of one stack.
pub record Paging : Type 0 where
  pub pages : ℕ
  pub next_token : Option String
  pub seen_tokens : List String
  pub progress : Progress

abbrev pub first_page : Progress → Paging
first_page p = record { pages = 0; next_token = none; seen_tokens = []; progress = p }

-- One round ends the loop, or goes on.
pub data Round : Type 0 where
  done : Progress → Round
  next : Paging → Round

abbrev pub invalid_response : String → Progress → Round
invalid_response message p = done (incomplete "project_inventory_invalid_response" message p)

-- The end of a round, by the response's `NextToken`.
abbrev pub follow : Paging → Option Json → Round
follow l none = done l.progress
follow l (some (text candidate)) =
    if Text.is_empty candidate
    then done (
        incomplete "project_inventory_invalid_token"
          "CloudFormation returned an invalid pagination token." l.progress)
    else if contains candidate l.seen_tokens
    then done (
        incomplete "project_inventory_repeated_token" "CloudFormation repeated a pagination token."
          l.progress)
    else next (record l { next_token = some candidate; seen_tokens = candidate ∷ l.seen_tokens })
follow l (some _) = done (
    incomplete "project_inventory_invalid_token"
      "CloudFormation returned an invalid pagination token." l.progress)

abbrev pub at_cap : Progress → Bool
at_cap p = leb max_resources (length p.resources)

-- The part of a round after the items of the page were added.
abbrev pub after_items : Paging → Option Json → Round
after_items l token =
    if at_cap l.progress
    then done (
        incomplete "project_inventory_resource_limit"
          "Project inventory reached its defensive resource limit." l.progress)
    else follow l token

abbrev pub read_items : Stdlib → String → Paging → Fields → Option Json → Round
read_items std stack l response (some (arr items)) =
    after_items (record l { progress = add_items std stack (Values.elements items) l.progress })
      (get "NextToken" response)
read_items std stack l response none =
    invalid_response "CloudFormation returned an incomplete stack response." l.progress
read_items std stack l response (some _) =
    invalid_response "CloudFormation returned an invalid resource list." l.progress

-- A round after its request.
abbrev pub read_response : Stdlib → String → Paging → Result Json → Round
read_response std stack l (err e) = done (
    incomplete "project_inventory_stack_unavailable"
      "A project CloudFormation stack could not be read." l.progress)
read_response std stack l (ok (obj response)) =
    read_items std stack (record l { pages = l.pages + 1 }) response
      (get "StackResourceSummaries" response)
read_response std stack l (ok _) =
    invalid_response "CloudFormation returned an invalid stack response." l.progress

-- `sdk_requests += 1`
abbrev pub count_request : Paging → Paging
count_request l = record l {
  progress = record l.progress { sdk_requests = l.progress.sdk_requests + 1 };
}

module _ {W : Type 0} (std : Stdlib) (clients : AwsClients W) where
  -- One round of `while not stack_complete`.
  unfoldable pub round : String → Paging → W → Round × W
  unfolding add_issue add_items
  round stack l w =
      if leb max_pages l.pages
      then (
        done (
            incomplete "project_inventory_page_limit"
              "Project inventory reached its defensive page limit." l.progress),
        w,
      )
      else (let (response, w') = clients.list_stack_resources stack l.next_token w in
          (read_response std stack (count_request l) response, w'))

  -- The loop; `none` when the fuel runs out, which `list_pages-Ends` excludes.
  unfoldable pub list_pages : ℕ → String → Paging → W → Option (Progress × W)
  list_pages zero stack l w = none
  list_pages (suc fuel) stack l w =
      let (r, w') = round stack l w in
      elim r [ done p ↦ some (p, w') | next l' ↦ list_pages fuel stack l' w' ]

  -- `for stack in PROJECT_STACKS`
  unfoldable pub list_stacks : List String → Progress → W → Option (Progress × W)
  list_stacks [] p w = some (p, w)
  list_stacks (stack ∷ stacks) p w = elim (list_pages (max_pages + 1) stack (first_page p) w) [
    | none ↦ none
    | some (p', w') ↦ elim (at_cap p') [
      | true ↦ some (record p' { complete = false }, w')
      | false ↦ list_stacks stacks p' w'
    ]
  ]

abbrev stack_fields : StackResource → Json
stack_fields r = obj (
    field "stack" (text r.stack) (
      field "logical_id" (text r.logical_id) (
        field "resource_type" (text r.resource_type)
          (field "physical_id" (text r.physical_id) (field "status" (text r.status) end)))))

abbrev pub is_nil {ℓ} : {A : Type ℓ} → List A → Bool
is_nil [] = true
is_nil (_ ∷ _) = false

-- The status in `_project_inventory_result`
abbrev status_of : Bool → Bool → Bool → AdapterStatus
status_of true true empty = AdapterStatus.ok
status_of _ _ false = AdapterStatus.partial
status_of _ _ true = AdapterStatus.error

abbrev pub inventory_record : String → Progress → AwsAdapterResult
inventory_record region p = record {
  body = field "region" (text region) (
      field "read_only" (Json.bool true) (
        field "stacks" (arr (array (map text project_stacks))) (
          field "resources" (arr (array (map stack_fields p.resources))) (
            field "total" (nat (length p.resources)) (
              field "complete" (Json.bool p.complete) (
                field "sdk_requests" (nat p.sdk_requests)
                  (field "writes" (nat 0) (field "external_writes" (nat 0) end))))))));
  sdk_requests = p.sdk_requests;
  resources = length p.resources;
  status = status_of p.complete (is_nil p.issues) (is_nil p.resources);
  issues = p.issues;
}

-- `_project_inventory_result`
unfoldable pub project_inventory_result : String → Progress → Result AwsAdapterResult
project_inventory_result region p = Protocols.create (inventory_record region p)

module _ {W : Type 0} (std : Stdlib) (clients : AwsClients W) (region : String) where
  abbrev pub result_of : Option (Progress × W) → W → Result AwsAdapterResult × W
  result_of none w = (err (runtime_error "The page loop did not end."), w)
  result_of (some (p, w')) w = (project_inventory_result region p, w')

  abbrev pub with_client : Result ⊤ × W → Result AwsAdapterResult × W
  with_client (ok _, w) = result_of (list_stacks std clients project_stacks no_progress w) w
  with_client (err e, w) = (
    project_inventory_result region (
        incomplete "project_inventory_client_unavailable"
          "The CloudFormation inventory client could not be created." no_progress),
    w,
  )

  -- `_list_project_cloudformation_resources`
  unfoldable pub list_project_cloudformation_resources : Fields → Action W AwsAdapterResult
  unfolding add_issue
  list_project_cloudformation_resources arguments w =
      if not (Json.is_empty arguments)
      then (
        err (
            refuse "invalid_project_inventory_arguments"
              "Project CloudFormation inventory does not accept arguments."),
        w,
      )
      else with_client (clients.client_factory "cloudformation" region w)
