-- ===== src/Services/Tools/Messages.antt =====
-- The Telegram and Trello handlers of services/tools.py.
use aws_remote_mcp.Prelude.{
  ◌+◌, ltb, String, Bool, not, ◌&&◌, ◌||◌, Option, none, some, List, [], ◌==◌, if◌then◌else◌, any,
  contains,
}
use aws_remote_mcp.Prelude.Effect.{Action, pure, lift, ◌>>=◌, try}
use aws_remote_mcp.Prelude.Text
use aws_remote_mcp.Prelude.Text.{is_empty}
use aws_remote_mcp.Json.{text, Fields, end, field}
use aws_remote_mcp.Core.Models.{
  Stdlib, CallerContext, ToolIssue, no_counters, record_external_write_attempt, ToolResult,
}
use aws_remote_mcp.Adapters.Protocols.{AdapterStatus}
use aws_remote_mcp.Services.Tools.{
  ToolService, issue, unless_issue, prepared, consume_confirmation, on_adapter_error,
  bounded_result, max_message_chars, max_card_title_chars, max_card_description_chars,
}

abbrev pub telegram_action : String
telegram_action = "telegram.send_message"

abbrev pub trello_action : String
trello_action = "trello.create_card"

abbrev pub telegram_payload : String → String → Fields
telegram_payload destination message =
    field "destination" (text destination) (field "message" (text message) end)

-- `_trello_payload`
abbrev pub trello_payload : String → String → String → String → Fields
trello_payload board list_name title description = field "board" (text board) (
    field "list" (text list_name)
      (field "title" (text title) (field "description" (text description) end)))

-- `(board, list_name) in destinations`
abbrev pub contains_pair : String → String → List (String × String) → Bool
contains_pair board list_name = any (λ d. (board == d.0) && (list_name == d.1))

-- `_validate_telegram`
unfoldable pub validate_telegram : List String → String → String → Option ToolIssue
validate_telegram destinations destination message =
    if not (contains destination destinations)
    then some (issue "destination_not_allowed" "Telegram destination is not allowed.")
    else if is_empty message || ltb max_message_chars (Text.length message)
    then some (issue "invalid_message" "Telegram message length is invalid.")
    else none

-- `_validate_trello`
unfoldable pub validate_trello :
    List (String × String) → String → String → String → String → Option ToolIssue
validate_trello destinations board list_name title description =
    if not (contains_pair board list_name destinations)
    then some (issue "destination_not_allowed" "Trello destination is not allowed.")
    else if is_empty title || ltb max_card_title_chars (Text.length title)
    then some (issue "invalid_title" "Trello card title length is invalid.")
    else if ltb max_card_description_chars (Text.length description)
    then some (issue "invalid_description" "Trello card description length is invalid.")
    else none

module _ {W : Type 0} (std : Stdlib) (service : ToolService W) where
  unfoldable pub prepare_telegram_message : CallerContext → String → String → Action W ToolResult
  prepare_telegram_message caller destination message =
      unless_issue (validate_telegram service.telegram_destinations destination message) no_counters
        (prepared std service caller telegram_action (telegram_payload destination message)
          (telegram_payload destination message))

  -- The part of the two execute methods after the confirmation was consumed.
  abbrev pub write_once : Action W Fields → Action W ToolResult
  write_once send = do
    counters ← lift (record_external_write_attempt no_counters)
    try send (on_adapter_error end counters) λ response. pure (
        bounded_result service.result_limit response
          (record counters { external_writes_succeeded = counters.external_writes_succeeded + 1 })
          AdapterStatus.ok [])

  unfoldable pub execute_telegram_message :
      CallerContext → String → String → String → Action W ToolResult
  execute_telegram_message caller token destination message =
      unless_issue (validate_telegram service.telegram_destinations destination message) no_counters
        do
          refused ←
              consume_confirmation std service token caller telegram_action
                (telegram_payload destination message)
          unless_issue refused no_counters
              (write_once (service.telegram.send_message destination message))

  unfoldable pub prepare_trello_card :
      CallerContext → String → String → String → String → Action W ToolResult
  prepare_trello_card caller board list_name title description =
      unless_issue (validate_trello service.trello_destinations board list_name title description)
        no_counters
        (prepared std service caller trello_action
          (trello_payload board list_name title description)
          (trello_payload board list_name title description))

  unfoldable pub execute_trello_card :
      CallerContext → String → String → String → String → String → Action W ToolResult
  execute_trello_card caller token board list_name title description =
      unless_issue (validate_trello service.trello_destinations board list_name title description)
        no_counters
        do
          refused ←
              consume_confirmation std service token caller trello_action
                (trello_payload board list_name title description)
          unless_issue refused no_counters
              (write_once (service.trello.create_card board list_name title description))
