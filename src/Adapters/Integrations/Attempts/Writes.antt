-- ===== src/Adapters/Integrations/Attempts/Writes.antt =====
-- adapters/external_integrations.py: the writes with the configuration that they read first.
use aws_remote_mcp.Prelude.{
  ℕ, ◌+◌, String, true, Option, none, some, List, [], ◌∷◌, ◌≡◌, refl, ap, ◌∙◌, inl, inr, arith,
  Option-cases,
}
use aws_remote_mcp.Prelude.Result.{Exception, Result, ok, err, value_error}
use aws_remote_mcp.Prelude.Result
use aws_remote_mcp.Prelude.Effect.{Action, continue}
use aws_remote_mcp.Json.{Json, text, arr, obj, Fields, get}
use aws_remote_mcp.Adapters.Integrations.{Http, HttpRequest}
use aws_remote_mcp.Adapters.Values
use aws_remote_mcp.Adapters.Integrations.Telegram
use aws_remote_mcp.Adapters.Integrations.Trello
use aws_remote_mcp.Adapters.Integrations.Config.{
  Ssm, SsmIntegrationConfigProvider, Cached, on_outside, load, load_with, store, read_config,
  created, telegram_adapter, trello_adapter, telegram_of, trello_of, add_list, add_item, add_items,
  invalid_telegram, invalid_trello, send_message, create_card,
}
use aws_remote_mcp.Adapters.Integrations.Attempts.{
  Attempt, is_final, is_value_error, raises, first-Attempt, telegram-Attempt, trello-Attempt,
}

created-final :
    {A : Type 0} (e : Exception) (r : Result A)
    → is_final e ≡ true
    → raises is_value_error r ≡ true
    → raises is_final (created e r) ≡ true
created-final e (ok a) h k = refl
created-final e (err (value_error message)) h k = h
created-final e (err x) h k = ground (arith, k)

create-value_error :
    (token : String) (destinations : Fields)
    → raises is_value_error (Telegram.create token destinations) ≡ true
unfolding Telegram.create
create-value_error token destinations = elim (Option-cases (Telegram.chats destinations)) [
  | inl e ↦ ground (arith, e)
  | inr (x, e) ↦ ground (arith, e)
]

create_lists-value_error :
    (key token : String) (destinations : Trello.Lists)
    → raises is_value_error (Trello.create key token destinations) ≡ true
unfolding Trello.create
create_lists-value_error key token destinations = ground arith

telegram_of-final :
    (token destinations : Option Json) → raises is_final (telegram_of token destinations) ≡ true
telegram_of-final (some (text token)) (some (obj destinations)) =
    created-final invalid_telegram (Telegram.create token destinations) refl
      (create-value_error token destinations)
telegram_of-final _ _ = refl

telegram_adapter-final : (root : Option Json) → raises is_final (telegram_adapter root) ≡ true
telegram_adapter-final (some (obj root)) =
    telegram_of-final (get "bot_token" root) (get "destinations" root)
telegram_adapter-final _ = refl

bind-final :
    {A B : Type 0} (r : Result A) (k : A → Result B)
    → raises is_final r ≡ true
    → ((a : A) → raises is_final (k a) ≡ true)
    → raises is_final (Result.◌>>=◌ r k) ≡ true
bind-final (ok a) k h each = each a
bind-final (err e) k h each = h

add_list-final :
    (a b c : Option Json) (destinations : Trello.Lists)
    → raises is_final (add_list a b c destinations) ≡ true
add_list-final (some (text a)) (some (text b)) (some (text c)) destinations = ground arith
add_list-final _ _ _ destinations = refl

add_item-final :
    (item : Json) (destinations : Trello.Lists)
    → raises is_final (add_item item destinations) ≡ true
add_item-final (obj item) destinations =
    add_list-final (get "board" item) (get "list" item) (get "list_id" item) destinations
add_item-final _ destinations = refl

add_items-final :
    (items : List Json) (destinations : Trello.Lists)
    → raises is_final (add_items items destinations) ≡ true
unfolding add_items
add_items-final [] destinations = refl
add_items-final (item ∷ items) destinations =
    bind-final (add_item item destinations) (add_items items) (add_item-final item destinations)
      (add_items-final items)

trello_of-final :
    (key token lists : Option Json) → raises is_final (trello_of key token lists) ≡ true
trello_of-final (some (text key)) (some (text token)) (some (arr raw)) =
    bind-final (add_items (Values.elements raw) []) _ (add_items-final (Values.elements raw) [])
      λ destinations.
        created-final invalid_trello (Trello.create key token destinations) refl
          (create_lists-value_error key token destinations)
trello_of-final _ _ _ = refl

trello_adapter-final : (root : Option Json) → raises is_final (trello_adapter root) ≡ true
trello_adapter-final (some (obj root)) =
    trello_of-final (get "api_key" root) (get "api_token" root) (get "destinations" root)
trello_adapter-final _ = refl

quiet-bind :
    {V A B : Type 0} (requests : V → ℕ) (before : ℕ) (o : Result A × V) (k : A → Action V B)
    → requests o.1 ≡ before
    → ((a : A) (w : V) → requests w ≡ before → requests (k a w).1 ≡ before)
    → requests (continue o.0 k o.1).1 ≡ before
quiet-bind requests before (ok a, w) k same each = each a w same
quiet-bind requests before (err e, w) k same each = same

module _ {W Bytes : Type 0} (http : Http W Bytes) (ssm : Ssm W)
    (provider : SsmIntegrationConfigProvider) (requests : W → ℕ)
    (one : (request : HttpRequest) (w : W) → requests (http.transport request w).1 ≡ requests w + 1)
    (made : (service region : String) (w : W)
      → requests (ssm.client_factory service region w).1 ≡ requests w)
    (read : (parameter : String) (w : W)
      → requests (ssm.get_parameter parameter w).1 ≡ requests w) where
  read_config-quiet : (w : W) → requests (read_config http ssm provider w).1 ≡ requests w
  read_config-quiet w =
      quiet-bind requests (requests w) (ssm.client_factory "ssm" provider.region w) _
        (made "ssm" provider.region w)
        λ a w' same.
          quiet-bind requests (requests w) (ssm.get_parameter provider.parameter_name w') _
            (read provider.parameter_name w' ∙ same) λ response w'' same'. same'

  store-quiet :
      (r : Result Fields) (w : Cached W) → (store http ssm provider r w).1.outside ≡ w.outside
  store-quiet (ok config) w = refl
  store-quiet (err e) w = refl

  store-final :
      (r : Result Fields) (w : Cached W) → raises is_final (store http ssm provider r w).0 ≡ true
  store-final (ok config) w = refl
  store-final (err e) w = refl

  load_with-quiet :
      (c : Option Fields) (w : Cached W)
      → requests (load_with http ssm provider c w).1.outside ≡ requests w.outside
  load_with-quiet (some config) w = refl
  load_with-quiet none w =
      ap requests (
        store-quiet (read_config http ssm provider w.outside).0
          (on_outside (read_config http ssm provider) w).1)
      ∙ read_config-quiet w.outside

  load_with-final :
      (c : Option Fields) (w : Cached W)
      → raises is_final (load_with http ssm provider c w).0 ≡ true
  load_with-final (some config) w = refl
  load_with-final none w =
      store-final (read_config http ssm provider w.outside).0
        (on_outside (read_config http ssm provider) w).1

  -- The HTTP requests, seen from the world with the cache.
  abbrev pub made_outside : Cached W → ℕ
  made_outside w = requests w.outside

  telegram_write-Attempt :
      (destination message : String) (w : Cached W)
      → Attempt http
          (requests w.outside)
          (send_message http ssm provider destination message w).0
          (requests (send_message http ssm provider destination message w).1.outside)
  unfolding send_message load
  telegram_write-Attempt destination message w =
      first-Attempt http made_outside (requests w.outside) (load http ssm provider w) _
        (load_with-final w.cached w) (load_with-quiet w.cached w)
        λ config.
          first-Attempt http made_outside (requests (load http ssm provider w).1.outside)
            (telegram_adapter (get "telegram" config), (load http ssm provider w).1) _
            (telegram_adapter-final (get "telegram" config)) refl
            λ adapter.
              telegram-Attempt http requests one adapter destination message
                (load http ssm provider w).1.outside

  trello_write-Attempt :
      (board list_name title description : String) (w : Cached W)
      → Attempt http
          (requests w.outside)
          (create_card http ssm provider board list_name title description w).0
          (requests (create_card http ssm provider board list_name title description w).1.outside)
  unfolding create_card load
  trello_write-Attempt board list_name title description w =
      first-Attempt http made_outside (requests w.outside) (load http ssm provider w) _
        (load_with-final w.cached w) (load_with-quiet w.cached w)
        λ config.
          first-Attempt http made_outside (requests (load http ssm provider w).1.outside)
            (trello_adapter (get "trello" config), (load http ssm provider w).1) _
            (trello_adapter-final (get "trello" config)) refl
            λ adapter.
              trello-Attempt http requests one adapter board list_name title description
                (load http ssm provider w).1.outside

  -- A transport of which each call is one HTTP request, and a parameter store that makes no such
  -- request: for every message and card, whatever the configuration holds and whatever the provider
  -- answers, `send_message` and `create_card` make one HTTP request and return a result, or make at
  -- most one and raise. What they raise is an `AdapterError` that is not retryable, or else an
  -- exception that `json.loads` raised on the body, of at most 16 KiB, of an answer of
  -- the transport, and that is neither a `UnicodeDecodeError` nor a `JSONDecodeError`.
  pub writes-Attempt :
      (destination message board list_name title description : String) (w : Cached W)
      → Attempt http
          (requests w.outside)
          (send_message http ssm provider destination message w).0
          (requests (send_message http ssm provider destination message w).1.outside)
        × Attempt http
            (requests w.outside)
            (create_card http ssm provider board list_name title description w).0
            (requests (create_card http ssm provider board list_name title description w).1.outside)
  writes-Attempt destination message board list_name title description w = (
    telegram_write-Attempt destination message w,
    trello_write-Attempt board list_name title description w,
  )

module _ {W Bytes : Type 0} (http : Http W Bytes) (ssm : Ssm W)
    (provider : SsmIntegrationConfigProvider) where
  store-again :
      (r : Result Fields) (w : Cached W) (config : Fields)
      → (store http ssm provider r w).0 ≡ ok config
      → load http ssm provider (store http ssm provider r w).1
        ≡ (ok config, (store http ssm provider r w).1)
  unfolding load
  store-again (ok c) w config e = ap (λ r. (r, (store http ssm provider (ok c) w).1)) e
  store-again (err x) w config e = grind (arith, e)

  loaded-again :
      (c : Option Fields) (w : Cached W) (config : Fields)
      → w.cached ≡ c
      → (load_with http ssm provider c w).0 ≡ ok config
      → load http ssm provider (load_with http ssm provider c w).1
        ≡ (ok config, (load_with http ssm provider c w).1)
  unfolding load
  loaded-again (some c) w config same e =
      ap (λ x. load_with http ssm provider x w) same ∙ ap (λ r. (r, w)) e
  loaded-again none w config same e =
      store-again (read_config http ssm provider w.outside).0
        (on_outside (read_config http ssm provider) w).1 config e

  -- After a load that returned a configuration, from whatever world, the next load returns the same
  -- one and changes nothing: the parameter store is read no second time.
  pub load_again :
      (w : Cached W) (config : Fields)
      → (load http ssm provider w).0 ≡ ok config
      → load http ssm provider (load http ssm provider w).1
        ≡ (ok config, (load http ssm provider w).1)
  unfolding load
  load_again w config e = loaded-again w.cached w config refl e
