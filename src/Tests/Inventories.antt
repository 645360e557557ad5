-- ===== src/Tests/Inventories.antt =====
-- The theorems on the inventory adapter, applied to an account that always has a next page.
use aws_remote_mcp.Prelude.{ℕ, ◌+◌, arith, none, ◌≡◌, refl, [], ◌∷◌, some, true}
use aws_remote_mcp.Prelude.Result.{ok, err, unexpected}
use aws_remote_mcp.Prelude.Text
use aws_remote_mcp.Prelude.Int.{show_nat}
use aws_remote_mcp.Json.{Json, arr, obj, text, cons, nil, end, field}
use aws_remote_mcp.Adapters.Inventory.{AwsClients, AwsInventoryAdapter, create}
use aws_remote_mcp.Adapters.Inventory.Project.{
  max_pages, no_progress, first_page, list_pages, list_project_cloudformation_resources,
}
use aws_remote_mcp.Adapters.Inventory.Project.Ends.{Ends}
use aws_remote_mcp.Adapters.Inventory.Project.Rounds.{Listed, list_pages-Ends}
use aws_remote_mcp.Adapters.Inventory.Project.Bounds.{Inv}
use aws_remote_mcp.Adapters.Inventory.Project.Whole.{Returned, project_inventory-Returned}
use aws_remote_mcp.Adapters.Inventory.Execute.{execute, aws_adapter}
use aws_remote_mcp.Adapters.Inventory.Answers.Counts.{IsCounted, Outcome}
use aws_remote_mcp.Adapters.Inventory.Answers.Outcomes.{execute-Outcome}
use aws_remote_mcp.Adapters.Inventory.Explorer.Query.{
  validate_resource_explorer_query, check_token, unsupported_syntax, invalid_query,
  resource_type_service,
}
use aws_remote_mcp.Adapters.Inventory.Explorer.Item.{sanitize_resource_explorer_item, is_view_arn}
use aws_remote_mcp.Adapters.Inventory.Sanitize.{sanitize_physical_id, redact_accounts}
use aws_remote_mcp.Services.Tools.{ToolService, run_aws_operation}
use aws_remote_mcp.Services.Tools.Reads.{Reported, run_aws_operation-Reported}
use aws_remote_mcp.Tests.Requests.{service, made}
use aws_remote_mcp.Core.Models.{matches_word}
use aws_remote_mcp.Tests.World.{World, start, std}

abbrev count : World → World
count w = record w { made = w.made + 1 }

-- A page with one resource and a token that has not been seen.
abbrev page : ℕ → Json
page n = obj (
    field "StackResourceSummaries"
      (arr (
        cons
          (obj (
            field "LogicalResourceId" (text (Text.◌++◌ "R" (show_nat n))) (
              field "ResourceType" (text "AWS::S3::Bucket") (
                field "PhysicalResourceId" (text "bucket")
                  (field "ResourceStatus" (text "CREATE_COMPLETE") end)))))
          nil))
      (field "NextToken" (text (show_nat n)) end))

abbrev clients : AwsClients World
clients = record {
  client_factory = λ service region w. (ok tt, w);
  list_functions = λ limit w. (err (unexpected "ClientError"), count w);
  get_apis = λ limit w. (
    ok (obj (field "Items" (arr (cons (obj (field "Name" (text "api") end)) nil)) end)),
    count w,
  );
  list_stack_resources = λ stack token w. (ok (page w.made), count w);
  search = λ query limit view w. (ok (obj (field "Resources" (arr nil) end)), count w);
}

counted : IsCounted clients made
counted = record {
  made = λ service region w. refl;
  functions = λ limit w. refl;
  apis = λ limit w. refl;
  stacks = λ stack token w. refl;
  searches = λ query limit view w. refl;
}

abbrev adapter : AwsInventoryAdapter
adapter = record { region = "eu-west-1"; limit = 10; view_arn = none }

created : create "eu-west-1" 10 none ≡ ok adapter
unfolding create
created = refl

no_progress-Inv : Inv no_progress
no_progress-Inv = record { capped = omega arith; keys = refl; distinct = tt; codes = refl }

list_pages-Ends_example :
    Ends
      (Listed std clients made 0 0)
      (list_pages std clients (max_pages + 1) "CDKToolkit" (first_page no_progress) start)
list_pages-Ends_example =
    list_pages-Ends std clients made 0 0 counted.stacks "CDKToolkit" no_progress start
      no_progress-Inv refl refl refl refl

project_inventory-Returned_example :
    Returned std clients made counted.stacks "eu-west-1" start
      (list_project_cloudformation_resources std clients "eu-west-1" end start)
project_inventory-Returned_example =
    project_inventory-Returned std clients made counted.stacks "eu-west-1" start counted.made

execute-Outcome_example :
    Outcome 0
      (execute std clients adapter "aws.inventory.list" end start).0
      (made (execute std clients adapter "aws.inventory.list" end start).1)
execute-Outcome_example =
    execute-Outcome std clients adapter made counted "eu-west-1" 10 none "aws.inventory.list" end
      start created

abbrev inventory_service : ToolService World
inventory_service = record service { aws = aws_adapter std clients adapter }

run_aws_operation-Reported_example :
    Reported 0
      (run_aws_operation std inventory_service "aws.cloudformation.project_inventory" end start).0
      (made
        (run_aws_operation std inventory_service "aws.cloudformation.project_inventory" end
          start).1)
run_aws_operation-Reported_example =
    run_aws_operation-Reported std clients adapter made counted inventory_service "eu-west-1" 10
      none "aws.cloudformation.project_inventory" end start created refl

normalizes :
    validate_resource_explorer_query std "  service:lambda   region:eu-west-1 my/key "
    ≡ ok "service:lambda region:eu-west-1 my/key"
unfolding validate_resource_explorer_query Text.length aws_remote_mcp.Prelude.Split.join
    aws_remote_mcp.Prelude.Split.words aws_remote_mcp.Core.Models.is_whitespace check_token
    aws_remote_mcp.Adapters.Inventory.Explorer.Query.is_operator
    aws_remote_mcp.Prelude.Split.has_char aws_remote_mcp.Prelude.Split.cut
    aws_remote_mcp.Adapters.Inventory.Explorer.Query.valid_filter
    aws_remote_mcp.Adapters.Inventory.Explorer.Query.is_region Text.all
    aws_remote_mcp.Core.Models.matches_digit
    aws_remote_mcp.Adapters.Inventory.Explorer.Query.is_keyword
normalizes = refl

refuses_negation : validate_resource_explorer_query std "a NoT b" ≡ err unsupported_syntax
unfolding validate_resource_explorer_query Text.length aws_remote_mcp.Prelude.Split.join
    aws_remote_mcp.Prelude.Split.words aws_remote_mcp.Core.Models.is_whitespace check_token
    aws_remote_mcp.Adapters.Inventory.Explorer.Query.is_operator
    aws_remote_mcp.Prelude.Split.has_char
    aws_remote_mcp.Adapters.Inventory.Explorer.Query.is_keyword Text.all
refuses_negation = refl

refuses_repeated_filter :
    validate_resource_explorer_query std "service:lambda service:s3" ≡ err unsupported_syntax
unfolding validate_resource_explorer_query Text.length aws_remote_mcp.Prelude.Split.join
    aws_remote_mcp.Prelude.Split.words aws_remote_mcp.Core.Models.is_whitespace check_token
    aws_remote_mcp.Adapters.Inventory.Explorer.Query.is_operator
    aws_remote_mcp.Prelude.Split.has_char aws_remote_mcp.Prelude.Split.cut
    aws_remote_mcp.Adapters.Inventory.Explorer.Query.valid_filter
refuses_repeated_filter = refl

accepts_type : check_token std "resourcetype:lambda:function" [] ≡ ok ("resourcetype" ∷ [])
unfolding resource_type_service check_token
    aws_remote_mcp.Adapters.Inventory.Explorer.Query.is_operator
    aws_remote_mcp.Prelude.Split.has_char aws_remote_mcp.Prelude.Split.cut
    aws_remote_mcp.Adapters.Inventory.Explorer.Query.valid_filter Text.all Text.length
accepts_type = refl

refuses_region :
    check_token std "region:eu-west-x" []
    ≡ err (invalid_query "Resource Explorer query contains an unsupported filter or value.")
unfolding check_token aws_remote_mcp.Adapters.Inventory.Explorer.Query.is_operator
    aws_remote_mcp.Prelude.Split.has_char aws_remote_mcp.Prelude.Split.cut
    aws_remote_mcp.Adapters.Inventory.Explorer.Query.valid_filter
    aws_remote_mcp.Adapters.Inventory.Explorer.Query.is_region aws_remote_mcp.Prelude.Split.split_by
    Text.all Text.length aws_remote_mcp.Core.Models.matches_digit
refuses_region = refl

physical_id :
    sanitize_physical_id std (some (text "arn:aws:lambda:eu-west-1:123456789012:function:my fn"))
    ≡ "my_fn"
unfolding redact_accounts matches_word sanitize_physical_id Text.take
    aws_remote_mcp.Prelude.Split.replace aws_remote_mcp.Prelude.Split.starts_with
    aws_remote_mcp.Prelude.Split.after_last aws_remote_mcp.Core.Models.matches_digit
physical_id = refl

hides_account :
    sanitize_physical_id std (some (text "bucket-123456789012-x")) ≡ "bucket-_redacted-account_-x"
unfolding redact_accounts matches_word sanitize_physical_id Text.take
    aws_remote_mcp.Prelude.Split.replace aws_remote_mcp.Prelude.Split.starts_with
    aws_remote_mcp.Core.Models.matches_digit
hides_account = refl

keeps_item :
    sanitize_resource_explorer_item std (
      obj (
        field "Arn" (text "arn:aws:s3:::my bucket") (
          field "Service"
            (text "s3")
            (field "ResourceType" (text "s3:bucket") (field "Region" (text "global") end)))))
    ≡ some (
        obj (
          field "service" (text "s3") (
            field "resource_type"
              (text "s3:bucket")
              (field "region" (text "global") (field "resource_id" (text "my_bucket") end)))))
unfolding sanitize_resource_explorer_item
    aws_remote_mcp.Adapters.Inventory.Explorer.Item.arn_resource aws_remote_mcp.Json.get
    aws_remote_mcp.Prelude.Split.has_char aws_remote_mcp.Prelude.Split.split_most
    aws_remote_mcp.Adapters.Inventory.Explorer.Query.is_service Text.all Text.length
    resource_type_service aws_remote_mcp.Prelude.Split.cut Text.take
    aws_remote_mcp.Prelude.Split.replace
keeps_item = refl

view : is_view_arn std "arn:aws:resource-explorer-2:eu-west-1:123456789012:view/main/ab-12" ≡ true
unfolding is_view_arn aws_remote_mcp.Prelude.Split.without_prefix Text.all
    aws_remote_mcp.Prelude.Split.cut aws_remote_mcp.Core.Models.matches_digit Text.length
view = refl
