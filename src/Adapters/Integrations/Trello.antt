-- ===== src/Adapters/Integrations/Trello.antt =====
-- adapters/external_integrations.py: `TrelloHttpAdapter`.
use aws_remote_mcp.Prelude.{
  ℕ, ltb, String, Bool, true, false, not, ◌&&◌, ◌||◌, Option, none, some, List, [], ◌∷◌, ◌==◌,
  if◌then◌else◌, all,
}
use aws_remote_mcp.Prelude.Result.{Result, ok, err, adapter_error, value_error}
use aws_remote_mcp.Prelude.Effect.{Action, raise, lift, ◌>>=◌}
use aws_remote_mcp.Prelude.Text
use aws_remote_mcp.Json.{Json, text, Fields, end, field, get}
use aws_remote_mcp.Adapters.Integrations.{
  trello, HttpRequest, Http, execute_once, invalid_response, form_headers, is_token_char, of_class,
}

-- `TRELLO_CREDENTIAL_PATTERN`
unfoldable pub is_credential : String → Bool
is_credential = of_class is_token_char 8 256

abbrev is_hex : ℕ → Bool
is_hex c = Text.is_digit c || Text.is_one_of "ABCDEFabcdef" c

-- `TRELLO_LIST_ID_PATTERN`
unfoldable pub is_list_id : String → Bool
is_list_id = of_class is_hex 24 24

-- The lists by board and name.
abbrev pub Lists : Type 0
Lists = List ((String × String) × String)

unfoldable pub list_of : String → String → Lists → Option String
list_of board list_name [] = none
list_of board list_name ((k, id) ∷ rest) =
    if (board == k.0) && (list_name == k.1) then some id else list_of board list_name rest

abbrev valid_list : (String × String) × String → Bool
valid_list (k, id) = not (Text.is_empty k.0) && not (Text.is_empty k.1) && is_list_id id

pub record TrelloHttpAdapter : Type 0 where
  pub authorization : String
  pub destinations : Lists

abbrev is_nil : Lists → Bool
is_nil [] = true
is_nil (_ ∷ _) = false

-- `__init__`
unfoldable pub create : String → String → Lists → Result TrelloHttpAdapter
unfolding is_credential is_list_id
create api_key api_token destinations =
    if not (is_credential api_key && is_credential api_token)
    then err (value_error "Trello credential format is invalid.")
    else if is_nil destinations || not (all valid_list destinations)
    then err (value_error "Trello destinations are invalid.")
    else ok (record {
      authorization =
          Text.◌++◌ "OAuth oauth_consumer_key=\""
            (Text.◌++◌ api_key (Text.◌++◌ "\", oauth_token=\"" (Text.◌++◌ api_token "\"")));
      destinations = destinations;
    })

abbrev pub read_response : Option Json → Result Fields
read_response (some (text id)) =
    if Text.is_empty id || ltb 64 (Text.length id)
    then err (invalid_response trello)
    else ok (
        field "accepted" (Json.bool true)
          (field "provider" (text "trello") (field "card_id" (text id) end)))
read_response _ = err (invalid_response trello)

abbrev pub card_request : TrelloHttpAdapter → String → String → String → HttpRequest
card_request adapter list_id title description = record {
  url = "https://api.trello.com/1/cards";
  form = ("idList", list_id) ∷ ("name", title) ∷ ("desc", description) ∷ [];
  headers =
      ("Accept", "application/json") ∷ ("Authorization", adapter.authorization) ∷ form_headers;
}

module _ {W Bytes : Type 0} (http : Http W Bytes) (adapter : TrelloHttpAdapter) where
  abbrev pub create_in : String → String → Option String → Action W Fields
  create_in title description none = raise (
      adapter_error "trello_destination_not_configured" "Trello destination is not configured."
        false)
  create_in title description (some list_id) =
      execute_once http (card_request adapter list_id title description) trello >>= λ response.
      lift (read_response (get "id" response))

  unfoldable pub create_card : String → String → String → String → Action W Fields
  unfolding execute_once list_of
  create_card board list_name title description =
      create_in title description (list_of board list_name adapter.destinations)
