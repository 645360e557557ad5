-- ===== src/Adapters/Inventory/Execute.antt =====
-- adapters/aws_inventory.py: `AwsInventoryAdapter.execute`, the dispatch over its three operations.
use aws_remote_mcp.Prelude.{String, not, ◌==◌, if◌then◌else◌}
use aws_remote_mcp.Prelude.Effect.{Action, raise}
use aws_remote_mcp.Json.{Fields}
use aws_remote_mcp.Core.Models.{Stdlib}
use aws_remote_mcp.Adapters.Protocols.{AwsAdapterResult, AwsAdapter}
use aws_remote_mcp.Adapters.Inventory.{AwsClients, AwsInventoryAdapter, refuse, list_inventory}
use aws_remote_mcp.Adapters.Inventory.Project.{list_project_cloudformation_resources}
use aws_remote_mcp.Adapters.Inventory.Explorer.Search.{search_resource_explorer}

module _ {W : Type 0} (std : Stdlib) (clients : AwsClients W) (adapter : AwsInventoryAdapter) where
  unfoldable pub execute : String → Fields → Action W AwsAdapterResult
  execute operation arguments =
      if operation == "aws.resource_explorer.search"
      then search_resource_explorer std clients adapter arguments
      else if operation == "aws.cloudformation.project_inventory"
      then list_project_cloudformation_resources std clients adapter.region arguments
      else if not (operation == "aws.inventory.list")
      then raise
          (refuse "aws_operation_not_supported" "The AWS adapter operation is not supported.")
      else list_inventory clients adapter arguments

  abbrev pub aws_adapter : AwsAdapter W
  aws_adapter = record { execute = execute }
