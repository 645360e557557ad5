-- ===== src/Adapters/Integrations/Config.antt =====
-- adapters/external_integrations.py: `SsmIntegrationConfigProvider`, with the two adapters that read
-- their credentials from it.
use aws_remote_mcp.Prelude.{
  ℕ, ltb, String, len, Bool, false, not, ◌||◌, Option, none, some, is_none, List, [], ◌∷◌, ◌++◌,
  ◌==◌, if◌then◌else◌,
}
use aws_remote_mcp.Prelude.Result.{
  ⊤, Exception, Result, ok, err, adapter_error, value_error, unexpected,
}
use aws_remote_mcp.Prelude.Result
use aws_remote_mcp.Prelude.Effect.{Action, lift, ◌>>=◌, ◌>>◌}
use aws_remote_mcp.Prelude.Text
use aws_remote_mcp.Prelude.Split.{starts_with}
use aws_remote_mcp.Json.{Json, text, arr, obj, Fields, get}
use aws_remote_mcp.Adapters.Values
use aws_remote_mcp.Adapters.Protocols.{TelegramAdapter, TrelloAdapter}
use aws_remote_mcp.Adapters.Integrations.{Http}
use aws_remote_mcp.Adapters.Integrations.Telegram
use aws_remote_mcp.Adapters.Integrations.Trello
use aws_remote_mcp.Adapters.Integrations.Trello.{Lists, list_of, is_list_id}

-- The client of the parameter store: `client_factory("ssm", region)` and `get_parameter`.
pub record Ssm (W : Type 0) : Type 0 where
  pub client_factory : String → String → Action W ⊤
  pub get_parameter : String → Action W Json

pub record SsmIntegrationConfigProvider : Type 0 where
  pub parameter_name : String
  pub region : String

-- `__init__`
unfoldable pub create : String → String → String → Result SsmIntegrationConfigProvider
create parameter_name environment region =
    if not ((environment == "dev") || (environment == "prod"))
    then err (value_error "Integration environment is invalid.")
    else if not (
        starts_with (Text.◌++◌ "/portfolio/aws-remote-mcp/" (Text.◌++◌ environment "/"))
          parameter_name)
    then err (value_error "Integration parameter path is outside its environment.")
    else if not (region == "eu-west-1")
    then err (value_error "Integration configuration is restricted to eu-west-1.")
    else ok (record { parameter_name = parameter_name; region = region })

-- The world with the provider's field `_cached`.
pub record Cached (W : Type 0) : Type 0 where
  pub cached : Option Fields
  pub outside : W

abbrev pub on_outside : {W A : Type 0} → Action W A → Action (Cached W) A
on_outside m w = let (r, w') = m w.outside in (r, record w { outside = w' })

abbrev pub unavailable : Exception
unavailable =
    adapter_error "integration_config_unavailable"
      "External integration configuration is unavailable." false

abbrev pub invalid : String → Exception
invalid message = adapter_error "integration_config_invalid" message false

abbrev is_text : String → Option Json → Bool
is_text t (some (text s)) = t == s
is_text t _ = false

abbrev max_config_bytes : ℕ
max_config_bytes = 4096

abbrev config_value : Option Json → Result String
config_value (some (text t)) =
    if ltb max_config_bytes (len t) then err (value_error "Invalid parameter value.") else ok t
config_value _ = err (value_error "Invalid parameter value.")

abbrev pub config_object : Json → Result Fields
config_object (obj config) = ok config
config_object _ = err (value_error "Invalid integration configuration.")

-- The parameter of a response, with its name and type checked, and its value.
abbrev pub parameter_value : String → Option Json → Result String
parameter_value expected (some (obj parameter)) =
    if not (is_text expected (get "Name" parameter))
      || not (is_text "SecureString" (get "Type" parameter))
    then err (value_error "Invalid parameter metadata.")
    else config_value (get "Value" parameter)
parameter_value expected _ = err (value_error "Invalid parameter metadata.")

abbrev pub response_value : String → Json → Result String
response_value expected (obj response) = parameter_value expected (get "Parameter" response)
response_value expected _ = err (unexpected "AttributeError")

abbrev pub invalid_telegram : Exception
invalid_telegram = invalid "Telegram configuration is invalid."

-- `except ValueError`
abbrev pub created : {A : Type 0} → Exception → Result A → Result A
created e (err (value_error _)) = err e
created e r = r

abbrev pub telegram_of : Option Json → Option Json → Result Telegram.TelegramHttpAdapter
telegram_of (some (text token)) (some (obj destinations)) =
    created invalid_telegram (Telegram.create token destinations)
telegram_of _ _ = err invalid_telegram

abbrev pub telegram_adapter : Option Json → Result Telegram.TelegramHttpAdapter
telegram_adapter (some (obj root)) = telegram_of (get "bot_token" root) (get "destinations" root)
telegram_adapter _ = err invalid_telegram

abbrev pub invalid_trello : Exception
invalid_trello = invalid "Trello configuration is invalid."

abbrev pub add_list : Option Json → Option Json → Option Json → Lists → Result Lists
add_list (some (text board)) (some (text list_name)) (some (text id)) destinations =
    if not (is_list_id id) || not (is_none (list_of board list_name destinations))
    then err invalid_trello
    else ok (destinations ++ (((board, list_name), id) ∷ []))
add_list _ _ _ destinations = err invalid_trello

abbrev pub add_item : Json → Lists → Result Lists
add_item (obj item) destinations =
    add_list (get "board" item) (get "list" item) (get "list_id" item) destinations
add_item _ destinations = err invalid_trello

-- The loop over the configured destinations.
unfoldable pub add_items : List Json → Lists → Result Lists
add_items [] destinations = ok destinations
add_items (item ∷ items) destinations = Result.◌>>=◌ (add_item item destinations) (add_items items)

abbrev pub trello_of : Option Json → Option Json → Option Json → Result Trello.TrelloHttpAdapter
trello_of (some (text api_key)) (some (text api_token)) (some (arr raw)) =
    Result.◌>>=◌ (add_items (Values.elements raw) [])
      λ destinations. created invalid_trello (Trello.create api_key api_token destinations)
trello_of _ _ _ = err invalid_trello

abbrev pub trello_adapter : Option Json → Result Trello.TrelloHttpAdapter
trello_adapter (some (obj root)) =
    trello_of (get "api_key" root) (get "api_token" root) (get "destinations" root)
trello_adapter _ = err invalid_trello

module _ {W Bytes : Type 0} (http : Http W Bytes) (ssm : Ssm W)
    (provider : SsmIntegrationConfigProvider) where
  -- The configuration in a response.
  abbrev pub config_of : Json → Result Fields
  config_of response =
      Result.◌>>=◌ (response_value provider.parameter_name response)
        λ value. Result.◌>>=◌ (http.loads_text value) config_object

  -- The body of the `try`.
  abbrev pub read_config : Action W Fields
  read_config = do
    ssm.client_factory "ssm" provider.region
    response ← ssm.get_parameter provider.parameter_name
    lift (config_of response)

  abbrev pub store : Result Fields → Cached W → Result Fields × Cached W
  store (ok config) w = (ok config, record w { cached = some config })
  store (err e) w = (err unavailable, w)

  abbrev pub load_with : Option Fields → Action (Cached W) Fields
  load_with (some config) w = (ok config, w)
  load_with none w = let (r, w') = on_outside read_config w in store r w'

  unfoldable pub load : Action (Cached W) Fields
  load w = load_with w.cached w

  -- `SsmTelegramAdapter.send_message`
  unfoldable pub send_message : String → String → Action (Cached W) Fields
  unfolding load
  send_message destination message = load >>= λ config.
      lift (telegram_adapter (get "telegram" config)) >>= λ adapter.
      on_outside (Telegram.send_message http adapter destination message)

  -- `SsmTrelloAdapter.create_card`
  unfoldable pub create_card : String → String → String → String → Action (Cached W) Fields
  unfolding load add_items
  create_card board list_name title description = load >>= λ config.
      lift (trello_adapter (get "trello" config)) >>= λ adapter.
      on_outside (Trello.create_card http adapter board list_name title description)

  abbrev pub ssm_telegram : TelegramAdapter (Cached W)
  ssm_telegram = record { send_message = send_message }

  abbrev pub ssm_trello : TrelloAdapter (Cached W)
  ssm_trello = record { create_card = create_card }
