-- ===== src/Adapters/Integrations/Telegram.antt =====
-- adapters/external_integrations.py: `TelegramHttpAdapter`.
use aws_remote_mcp.Prelude.{
  ℕ, String, Bool, true, false, not, ◌&&◌, ◌||◌, Option, none, some, [], ◌∷◌, Dict, lookup,
  if◌then◌else◌,
}
use aws_remote_mcp.Prelude.Result.{Exception, Result, ok, err, adapter_error, value_error}
use aws_remote_mcp.Prelude.Effect.{Action, raise, lift, ◌>>=◌}
use aws_remote_mcp.Prelude.Int.{show}
use aws_remote_mcp.Prelude.Text
use aws_remote_mcp.Prelude.Split.{cut, has_char, without_prefix, is_char}
use aws_remote_mcp.Json
use aws_remote_mcp.Json.{Json, num, text, obj, Fields, end, field, get}
use aws_remote_mcp.Adapters.Integrations.{
  telegram, HttpRequest, Http, execute_once, rejected, invalid_response, form_headers,
  is_token_char, of_class,
}

-- `TELEGRAM_TOKEN_PATTERN`
unfoldable pub is_token : String → Bool
is_token t =
    let (id, secret) = cut (is_char b':') t in
    has_char (is_char b':') t
    && of_class Text.is_digit 5 20 id
    && of_class is_token_char 20 128 secret

abbrev is_name_char : ℕ → Bool
is_name_char c = Text.is_alnum c || is_char b'_' c

abbrev of_number : Option String → Bool
of_number none = false
of_number (some t) = of_class Text.is_digit 1 20 t

abbrev of_name : Option String → Bool
of_name none = false
of_name (some t) = of_class is_name_char 5 32 t

-- `TELEGRAM_CHAT_PATTERN`
unfoldable pub is_chat : String → Bool
is_chat t =
    of_class Text.is_digit 1 20 t
    || of_number (without_prefix "-" t)
    || of_name (without_prefix "@" t)

abbrev chat_of : Json → Option String
chat_of (text t) = if is_chat t then some t else none
chat_of _ = none

abbrev entry : String → Option String → Option (Dict String) → Option (Dict String)
entry alias (some chat) (some rest) = some ((alias, chat) ∷ rest)
entry alias _ _ = none

-- The destinations as they are kept, if each has a name and a chat.
unfoldable pub chats : Fields → Option (Dict String)
unfolding is_chat
chats end = some []
chats (field alias v fs) = entry alias (if Text.is_empty alias then none else chat_of v) (chats fs)

pub record TelegramHttpAdapter : Type 0 where
  pub endpoint : String
  pub destinations : Dict String

abbrev invalid_destinations : Exception
invalid_destinations = value_error "Telegram destinations are invalid."

abbrev with_chats : String → Option (Dict String) → Result TelegramHttpAdapter
with_chats token none = err invalid_destinations
with_chats token (some destinations) = ok (record {
  endpoint = Text.◌++◌ "https://api.telegram.org/bot" (Text.◌++◌ token "/sendMessage");
  destinations = destinations;
})

-- `__init__`
unfoldable pub create : String → Fields → Result TelegramHttpAdapter
unfolding is_token chats
create bot_token destinations =
    if not (is_token bot_token)
    then err (value_error "Telegram bot token format is invalid.")
    else if Json.is_empty destinations
    then err invalid_destinations
    else with_chats bot_token (chats destinations)

abbrev is_true : Option Json → Bool
is_true (some (Json.bool b)) = b
is_true _ = false

abbrev pub message_id : Option Json → Option Json
message_id (some (obj result)) = get "message_id" result
message_id _ = none

abbrev pub accepted : Option Json → Result Fields
accepted (some (num n)) = ok (
    field "accepted" (Json.bool true)
      (field "provider" (text "telegram") (field "message_id" (text (Text.take 64 (show n))) end)))
accepted _ = err (invalid_response telegram)

abbrev pub read_response : Fields → Result Fields
read_response response =
    if not (is_true (get "ok" response))
    then err (rejected telegram)
    else accepted (message_id (get "result" response))

abbrev pub message_request : TelegramHttpAdapter → String → String → HttpRequest
message_request adapter chat message = record {
  url = adapter.endpoint;
  form = ("chat_id", chat) ∷ ("text", message) ∷ [];
  headers = form_headers;
}

module _ {W Bytes : Type 0} (http : Http W Bytes) (adapter : TelegramHttpAdapter) where
  abbrev pub send_to : String → Option String → Action W Fields
  send_to message none = raise (
      adapter_error "telegram_destination_not_configured" "Telegram destination is not configured."
        false)
  send_to message (some chat) =
      execute_once http (message_request adapter chat message) telegram >>= λ response.
      lift (read_response response)

  unfoldable pub send_message : String → String → Action W Fields
  unfolding execute_once
  send_message destination message = send_to message (lookup destination adapter.destinations)
