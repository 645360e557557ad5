-- ===== src/Adapters/Integrations.antt =====
-- adapters/external_integrations.py: the one HTTP request of a write and how its outcome is read. The
-- children are the two providers, their configuration, and what is proved of a write.
pub mod Telegram
pub mod Trello
pub mod Config
pub mod Attempts
use aws_remote_mcp.Prelude.{
  ℕ, ◌*◌, ltb, leb, String, Bool, false, not, ◌&&◌, ◌||◌, List, [], ◌∷◌, ◌++◌, if◌then◌else◌,
  length, all,
}
use aws_remote_mcp.Prelude.Result.{
  Exception, Result, ok, err, adapter_error, unicode_decode_error, json_decode_error,
}
use aws_remote_mcp.Prelude.Result
use aws_remote_mcp.Prelude.Effect.{Action}
use aws_remote_mcp.Prelude.Text
use aws_remote_mcp.Json
use aws_remote_mcp.Json.{Json, obj, Fields}

abbrev pub max_provider_response_bytes : ℕ
max_provider_response_bytes = 16 * 1024

-- `provider` and `provider.title()`
pub data Provider : Type 0 where
  telegram : Provider
  trello : Provider

abbrev pub name : Provider → String
name telegram = "telegram"
name trello = "trello"

abbrev pub title : Provider → String
title telegram = "Telegram"
title trello = "Trello"

-- A `POST` request, with the pairs of its form before `urlencode`.
pub record HttpRequest : Type 0 where
  pub url : String
  pub form : List (String × String)
  pub headers : List (String × String)

-- Which `except` clause takes an exception of the transport: `HTTPError`, one of `TimeoutError`,
-- `URLError` and `OSError`, or any other.
pub data Failure : Type 0 where
  http_error : Failure
  unconfirmed : Failure
  other : Failure

-- The transport, the classes of its exceptions, and `json.loads` on bytes and on a text, which may
-- raise any exception.
pub record Http (W Bytes : Type 0) : Type 0 where
  pub transport : HttpRequest → Action W (ℕ × Bytes)
  pub failure : Exception → Failure
  pub size : Bytes → ℕ
  pub loads : Bytes → Result Json
  pub loads_text : String → Result Json

-- `AdapterError(f"{provider}_...", f"{provider.title()} ...")`
abbrev pub provider_error : Provider → String → String → Exception
provider_error p code message =
    adapter_error (Text.◌++◌ (name p) code) (Text.◌++◌ (title p) message) false

abbrev pub invalid_response : Provider → Exception
invalid_response p = provider_error p "_invalid_response" " returned an invalid response."

abbrev pub rejected : Provider → Exception
rejected p = provider_error p "_rejected" " rejected the request."

abbrev pub failure_error : Provider → Failure → Exception
failure_error p http_error = rejected p
failure_error p unconfirmed =
    provider_error p "_outcome_unknown" " did not confirm the write outcome."
failure_error p other = provider_error p "_unavailable" " could not process the request."

-- The decoded value. A decoding error of `json.loads` is caught, any other exception goes on.
abbrev pub decoded_object : Provider → Result Json → Result Fields
decoded_object p (ok (obj fs)) = ok fs
decoded_object p (ok _) = err (invalid_response p)
decoded_object p (err (unicode_decode_error _)) = err (invalid_response p)
decoded_object p (err (json_decode_error _)) = err (invalid_response p)
decoded_object p (err e) = err e

module _ {W Bytes : Type 0} (http : Http W Bytes) where
  -- `_json_object`
  unfoldable pub json_object : Bytes → Provider → Result Fields
  json_object body p =
      if ltb max_provider_response_bytes (http.size body)
      then err (provider_error p "_response_too_large" " returned an oversized response.")
      else decoded_object p (http.loads body)

  abbrev pub read_answer : Provider → Result (ℕ × Bytes) → Result Fields
  read_answer p (err e) = err (failure_error p (http.failure e))
  read_answer p (ok (status, body)) =
      if leb 200 status && ltb status 300 then json_object body p else err (rejected p)

  -- `_execute_once`
  unfoldable pub execute_once : HttpRequest → Provider → Action W Fields
  unfolding json_object
  execute_once request p w =
      let (answer, w') = http.transport request w in (read_answer p answer, w')

abbrev pub form_headers : List (String × String)
form_headers = ("Content-Type", "application/x-www-form-urlencoded") ∷ []

-- `[A-Za-z0-9_-]`
abbrev pub is_token_char : ℕ → Bool
is_token_char c = Text.is_alnum c || Text.is_one_of "_-" c

-- A text of one class, of `low` to `high` characters.
abbrev pub of_class : (ℕ → Bool) → ℕ → ℕ → String → Bool
of_class p low high t = Text.all p t && leb low (Text.length t) && leb (Text.length t) high
