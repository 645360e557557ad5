-- ===== src/Adapters/Integrations/Attempts.antt =====
-- adapters/external_integrations.py: a write makes at most one HTTP request, and none is made again.
pub mod Writes
use aws_remote_mcp.Prelude.{
  ℕ, ◌+◌, ◌≤◌, String, Bool, true, false, not, Option, none, some, ◌≡◌, refl, subst, inl, inr,
  arith, Option-cases, lookup, Bool-cases, ltb, leb, ◌&&◌, ◌⊎◌,
}
use aws_remote_mcp.Prelude.Result.{
  Exception, Result, ok, err, adapter_error, value_error, unicode_decode_error, json_decode_error,
  ⊤,
}
use aws_remote_mcp.Prelude.Result
use aws_remote_mcp.Prelude.Effect.{Action, lift, continue, ◌>>=◌}
use aws_remote_mcp.Prelude.Text
use aws_remote_mcp.Json
use aws_remote_mcp.Json.{Json, num, text, obj, Fields, get}
use aws_remote_mcp.Adapters.Integrations.{
  Http, HttpRequest, max_provider_response_bytes, Provider, telegram, trello, Failure, http_error,
  unconfirmed, other, failure_error, json_object, read_answer, execute_once, decoded_object,
}
use aws_remote_mcp.Adapters.Values
use aws_remote_mcp.Adapters.Integrations.Telegram
use aws_remote_mcp.Adapters.Integrations.Trello
use aws_remote_mcp.Adapters.Integrations.Config.{send_message, create_card}

-- An `AdapterError` that is not retryable.
abbrev pub is_final : Exception → Bool
is_final (adapter_error code message retryable) = not retryable
is_final _ = false

abbrev pub is_value_error : Exception → Bool
is_value_error (value_error message) = true
is_value_error _ = false

abbrev pub raises {ℓ} : {A : Type ℓ} → (Exception → Bool) → Result A → Bool
raises p (ok a) = true
raises p (err e) = p e

-- `UnicodeDecodeError` and `JSONDecodeError`
abbrev pub is_decode_error : Exception → Bool
is_decode_error (unicode_decode_error message) = true
is_decode_error (json_decode_error message) = true
is_decode_error _ = false

-- An exception that `json.loads` raised on the body, of an allowed size, of an answer of the
-- transport, and that is no decoding error.
pub record IsEscape {W Bytes : Type 0} (http : Http W Bytes) (e : Exception) : Type 0 where
  pub request : HttpRequest
  pub world : W
  pub status : ℕ
  pub body : Bytes
  pub answered : (http.transport request world).0 ≡ ok (status, body)
  pub within : http.size body ≤ max_provider_response_bytes
  pub raised : http.loads body ≡ err e
  pub undecoded : is_decode_error e ≡ false

abbrev pub Error : {W Bytes : Type 0} → Http W Bytes → Exception → Type 0
Error http e = (is_final e ≡ true) ⊎ IsEscape http e

-- One request and a result, or at most one request and an error.
abbrev pub Attempt : {W Bytes : Type 0} → Http W Bytes → ℕ → Result Fields → ℕ → Type 0
Attempt http before (ok _) after = after ≡ before + 1
Attempt http before (err e) after = Error http e × (after ≤ before + 1)

abbrev Raised : {W Bytes : Type 0} → Http W Bytes → Result Fields → Type 0
Raised http (ok fs) = ⊤
Raised http (err e) = Error http e

failure-final : (p : Provider) (f : Failure) → is_final (failure_error p f) ≡ true
failure-final p http_error = refl
failure-final p unconfirmed = refl
failure-final p other = refl

accepted-final : (v : Option Json) → raises is_final (Telegram.accepted v) ≡ true
accepted-final none = refl
accepted-final (some (num n)) = refl
accepted-final (some _) = refl

telegram-final : (response : Fields) → raises is_final (Telegram.read_response response) ≡ true
telegram-final response =
    ground (arith, accepted-final (Telegram.message_id (get "result" response)))

trello-final : (v : Option Json) → raises is_final (Trello.read_response v) ≡ true
trello-final none = refl
trello-final (some (text id)) = ground arith
trello-final (some _) = refl

module _ {W Bytes : Type 0} (http : Http W Bytes) where
  final-Raised : (r : Result Fields) → raises is_final r ≡ true → Raised http r
  final-Raised (ok fs) h = tt
  final-Raised (err e) h = inl h

  decoded-Raised :
      (p : Provider) (request : HttpRequest) (w : W) {status : ℕ} (body : Bytes) (r : Result Json)
      → (http.transport request w).0 ≡ ok (status, body)
      → http.size body ≤ max_provider_response_bytes
      → http.loads body ≡ r
      → Raised http (decoded_object p r)
  decoded-Raised p request w body (ok (obj fs)) from h same = tt
  decoded-Raised p request w body (ok _) from h same = inl refl
  decoded-Raised p request w body (err (unicode_decode_error _)) from h same = inl refl
  decoded-Raised p request w body (err (json_decode_error _)) from h same = inl refl
  decoded-Raised p request w body (err e) from h same = inr (record {
    request = request;
    world = w;
    status = _;
    body = body;
    answered = from;
    within = h;
    raised = same;
    undecoded = ground arith;
  })

  json_object-Raised :
      (p : Provider) (request : HttpRequest) (w : W) {status : ℕ} (body : Bytes)
      → (http.transport request w).0 ≡ ok (status, body)
      → Raised http (json_object http body p)
  unfolding json_object
  json_object-Raised p request w body from =
      elim (Bool-cases (ltb max_provider_response_bytes (http.size body))) [
        | inl e ↦ rw e (inl refl)
        | inr e ↦
            rw e (decoded-Raised p request w body (http.loads body) from (ground (arith, e)) refl)
      ]

  read_answer-Raised :
      (p : Provider) (request : HttpRequest) (w : W) (r : Result (ℕ × Bytes))
      → (http.transport request w).0 ≡ r
      → Raised http (read_answer http p r)
  read_answer-Raised p request w (err e) from = inl (failure-final p (http.failure e))
  read_answer-Raised p request w (ok (status, body)) from =
      elim (Bool-cases (leb 200 status && ltb status 300)) [
        | inl e ↦ rw e (json_object-Raised p request w body from)
        | inr e ↦ rw e (inl refl)
      ]

  Attempt-of :
      (before : ℕ) (r : Result Fields) (after : ℕ)
      → Raised http r
      → after ≡ before + 1
      → Attempt http before r after
  Attempt-of before (ok fs) after h same = same
  Attempt-of before (err e) after h same = (h, omega (arith, same))

  read-Attempt :
      {V : Type 0} (requests : V → ℕ) (before : ℕ) (answer : Result Fields)
      (read : Fields → Result Fields) (w : V)
      → Raised http answer
      → ((response : Fields) → raises is_final (read response) ≡ true)
      → requests w ≡ before + 1
      → Attempt http before
          (continue answer (λ response. lift (read response)) w).0
          (requests (continue answer (λ response. lift (read response)) w).1)
  read-Attempt requests before (ok response) read w h each same =
      Attempt-of before (read response) (requests w) (final-Raised (read response) (each response))
        same
  read-Attempt requests before (err e) read w h each same = (h, omega (arith, same))

  -- What comes before the request leaves the number of requests as it is, or raises a final error.
  pub first-Attempt :
      {V A : Type 0} (requests : V → ℕ) (before : ℕ) (o : Result A × V) (k : A → Action V Fields)
      → raises is_final o.0 ≡ true
      → requests o.1 ≡ before
      → ((a : A) → Attempt http (requests o.1) (k a o.1).0 (requests (k a o.1).1))
      → Attempt http before (continue o.0 k o.1).0 (requests (continue o.0 k o.1).1)
  first-Attempt requests before (ok a, w) k h same each =
      subst (λ n. Attempt http n (k a w).0 (requests (k a w).1)) same (each a)
  first-Attempt requests before (err e, w) k h same each = (inl h, omega (arith, same))

module _ {W Bytes : Type 0} (http : Http W Bytes) (requests : W → ℕ)
    (one : (request : HttpRequest) (w : W)
      → requests (http.transport request w).1 ≡ requests w + 1) where
  once-Attempt :
      (request : HttpRequest) (p : Provider) (read : Fields → Result Fields) (w : W)
      → ((response : Fields) → raises is_final (read response) ≡ true)
      → Attempt http
          (requests w)
          ((execute_once http request p >>= λ response. lift (read response)) w).0
          (requests ((execute_once http request p >>= λ response. lift (read response)) w).1)
  unfolding execute_once
  once-Attempt request p read w h =
      read-Attempt http requests (requests w) (read_answer http p (http.transport request w).0) read
        (http.transport request w).1
        (read_answer-Raised http p request w (http.transport request w).0 refl) h (one request w)

  pub telegram-Attempt :
      (adapter : Telegram.TelegramHttpAdapter) (destination message : String) (w : W)
      → Attempt http
          (requests w)
          (Telegram.send_message http adapter destination message w).0
          (requests (Telegram.send_message http adapter destination message w).1)
  unfolding Telegram.send_message
  telegram-Attempt adapter destination message w =
      elim (Option-cases (lookup destination adapter.destinations)) [
        | inl e ↦ rw e (inl refl, omega arith)
        | inr (chat, e) ↦ rw e (
            once-Attempt (Telegram.message_request adapter chat message) telegram
              Telegram.read_response w telegram-final)
      ]

  pub trello-Attempt :
      (adapter : Trello.TrelloHttpAdapter) (board list_name title description : String) (w : W)
      → Attempt http
          (requests w)
          (Trello.create_card http adapter board list_name title description w).0
          (requests (Trello.create_card http adapter board list_name title description w).1)
  unfolding Trello.create_card
  trello-Attempt adapter board list_name title description w =
      elim (Option-cases (Trello.list_of board list_name adapter.destinations)) [
        | inl e ↦ rw e (inl refl, omega arith)
        | inr (list_id, e) ↦ rw e (
            once-Attempt (Trello.card_request adapter list_id title description) trello
              (λ r. Trello.read_response (get "id" r)) w (λ r. trello-final (get "id" r)))
      ]
