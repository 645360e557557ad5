-- ===== src/Adapters/Inventory/Explorer/Item.antt =====
-- adapters/aws_inventory.py: `_sanitize_resource_explorer_item` and the pattern of a view.
use aws_remote_mcp.Prelude.{
  leb, eqb, String, Bool, false, not, ◌&&◌, ◌||◌, Option, none, some, List, [], ◌∷◌, ◌==◌,
  if◌then◌else◌,
}
use aws_remote_mcp.Prelude.Text
use aws_remote_mcp.Prelude.Split.{split_most, replace, has_char, cut, without_prefix}
use aws_remote_mcp.Json.{Json, text, obj, end, field, get}
use aws_remote_mcp.Core.Models.{Stdlib, matches_digit}
use aws_remote_mcp.Adapters.Values.{as_text}
use aws_remote_mcp.Adapters.Inventory.{max_name_chars}
use aws_remote_mcp.Adapters.Inventory.Sanitize.{is_control, is_id_char}
use aws_remote_mcp.Adapters.Inventory.Explorer.Query.{
  is_colon, is_region, is_service, resource_type_service, of_class,
}

abbrev same_service : String → Option String → Bool
same_service service none = false
same_service service (some t) = t == service

-- The resource behind the fifth colon of an acceptable name.
abbrev resource_part : Stdlib → List String → Option String
resource_part std (arn ∷ aws ∷ service ∷ region ∷ account ∷ resource ∷ []) =
    if (arn == "arn")
      && (aws == "aws")
      && is_service service
      && (Text.is_empty region || is_region std region)
      && (Text.is_empty account || of_class (matches_digit std) 12 12 account)
      && not (Text.is_empty resource)
    then some resource
    else none
resource_part std _ = none

-- The parts of an ARN are checked before the other fields of the item.
unfoldable pub arn_resource : Stdlib → Option String → Option String
arn_resource std none = none
arn_resource std (some arn) =
    if has_char is_control arn then none else resource_part std (split_most is_colon 5 arn)

abbrev item_fields : String → String → String → String → Json
item_fields service resource_type region resource_id = obj (
    field "service" (text service) (
      field "resource_type" (text resource_type)
        (field "region" (text region) (field "resource_id" (text resource_id) end))))

abbrev acceptable : Stdlib → String → String → String → Bool
acceptable std service resource_type region =
    is_service service
    && same_service service (resource_type_service resource_type)
    && leb (Text.length resource_type) max_name_chars
    && leb (Text.length region) 32
    && ((region == "global") || is_region std region)

abbrev sanitized :
    Stdlib → Option String → Option String → Option String → Option String → Option Json
sanitized std (some resource) (some service) (some resource_type) (some region) =
    let resource_id = Text.take max_name_chars (replace (λ c. not (is_id_char c)) "_" resource) in
    if acceptable std service resource_type region && not (Text.is_empty resource_id)
    then some (item_fields service resource_type region resource_id)
    else none
sanitized std _ _ _ _ = none

-- `_sanitize_resource_explorer_item`
unfoldable pub sanitize_resource_explorer_item : Stdlib → Json → Option Json
sanitize_resource_explorer_item std (obj item) =
    sanitized std (arn_resource std (as_text (get "Arn" item))) (as_text (get "Service" item))
      (as_text (get "ResourceType" item)) (as_text (get "Region" item))
sanitize_resource_explorer_item std _ = none

abbrev view_path : Option String → Bool
view_path none = false
view_path (some path) =
    let (name, id) = cut (λ c. eqb c b'/') path in
    of_class (λ c. Text.is_alnum c || Text.is_one_of "_-" c) 1 64 name
    && of_class (λ c. Text.is_alnum c || eqb c b'-') 1 64 id

abbrev view_account : Stdlib → Option String → Bool
view_account std none = false
view_account std (some rest) =
    let (account, path) = cut is_colon rest in
    of_class (matches_digit std) 12 12 account && view_path (without_prefix "view/" path)

-- `_RESOURCE_EXPLORER_VIEW_ARN`
unfoldable pub is_view_arn : Stdlib → String → Bool
is_view_arn std t = view_account std (without_prefix "arn:aws:resource-explorer-2:eu-west-1:" t)
