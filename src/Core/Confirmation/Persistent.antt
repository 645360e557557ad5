-- ===== src/Core/Confirmation/Persistent.antt =====
-- `DynamoDbConfirmationGuard` of core/confirmation.py: records in the shared table, consumed by one
-- conditional update.
pub mod Live
pub mod Refines
use aws_remote_mcp.Prelude.{
  ℕ, ◌+◌, ◌*◌, ◌/◌, leb, String, Bool, true, false, not, Option, none, some, [], ◌∷◌, ◌==◌, lookup,
  if◌then◌else◌,
}
use aws_remote_mcp.Prelude.Result.{⊤, Result, ok, err, Exception, value_error, confirmation_error}
use aws_remote_mcp.Prelude.Effect.{Action, pure, raise, lift, ◌>>=◌, ◌>>◌}
use aws_remote_mcp.Dynamo.{
  AttributeValue, s, n, bool, Item, Condition, attribute_exists, attribute_not_exists, equal,
  greater, both, assign, Client, is_conditional_failure, key_name,
}
use aws_remote_mcp.Json.{Fields}
use aws_remote_mcp.Core.Models.{Stdlib, CallerContext, fingerprint, ConfirmationMetadata}
use aws_remote_mcp.Core.Confirmation.{
  Host, ConfirmationProvider, canonical_payload_digest, aware_now, invalid, replayed, expired,
  caller_mismatch, action_mismatch, payload_mismatch,
}

-- The constructor's arguments; `ttl` is in microseconds.
pub record Settings : Type 0 where
  pub table_name : String
  pub ttl : ℕ

-- `DynamoDbConfirmationGuard(table_name=..., ttl=...)`
unfoldable pub create : String → ℕ → Result Settings
create table_name ttl =
    if table_name == ""
    then err (value_error "Confirmation table name is required.")
    else if leb ttl 0
    then err (value_error "Confirmation TTL must be positive.")
    else ok (record { table_name = table_name; ttl = ttl })

abbrev pub store_unavailable : String → Exception
store_unavailable = confirmation_error "confirmation_store_unavailable"

abbrev pub store_invalid : Exception
store_invalid = confirmation_error "confirmation_store_invalid" "Confirmation state is invalid."

-- `int(datetime.timestamp())`
abbrev pub epoch : ℕ → ℕ
epoch t = t / 1_000_000

abbrev pub stored_item : String → String → String → String → ℕ → Item
stored_item key caller action digest expires =
    (key_name, s key)
    ∷ ("caller_fingerprint", s caller)
    ∷ ("action", s action)
    ∷ ("payload_digest", s digest)
    ∷ ("expires_at", n expires)
    ∷ ("consumed", bool false)
    ∷ []

-- The condition expression of `consume`.
abbrev pub consume_condition : ℕ → String → String → String → Condition
consume_condition now caller action digest = both (attribute_exists key_name) (
    both (equal "consumed" (bool false)) (
      both (greater "expires_at" (n now)) (
        both (equal "caller_fingerprint" (s caller))
          (both (equal "action" (s action)) (equal "payload_digest" (s digest))))))

-- `_attribute` with the kinds `BOOL` and `S`, and `_number_attribute`
abbrev bool_attribute : Option AttributeValue → Result Bool
bool_attribute (some (bool b)) = ok b
bool_attribute _ = err store_invalid

abbrev string_attribute : Option AttributeValue → Result String
string_attribute (some (s t)) = ok t
string_attribute _ = err store_invalid

abbrev number_attribute : Option AttributeValue → Result ℕ
number_attribute (some (n t)) = ok t
number_attribute _ = err store_invalid

module _ {W : Type 0} (std : Stdlib) (host : Host W) (client : Client W) (settings : Settings) where
  abbrev draw_token : Action W String
  draw_token w = let (t, w') = host.token_urlsafe w in (ok t, w')

  -- `except Exception as error: raise ConfirmationError(...)`
  abbrev or_unavailable : {A : Type 0} → String → Result A × W → Result A × W
  or_unavailable message (ok a, w) = (ok a, w)
  or_unavailable message (err e, w) = (err (store_unavailable message), w)

  unfoldable pub prepare : CallerContext → String → Fields → Action W ConfirmationMetadata
  unfolding aware_now
  prepare caller action payload = do
    now ← aware_now host
    let expires_epoch = epoch (now + settings.ttl)
    payload_digest ← lift (canonical_payload_digest std payload)
    token ← draw_token
    let key = std.sha256 token
    (λ w. or_unavailable "Confirmation could not be stored." (
        client.put_item key
          (stored_item key (fingerprint std caller) action payload_digest expires_epoch)
          (attribute_not_exists key_name) w))
    pure (record {
      token = token;
      action = action;
      payload_digest = payload_digest;
      expires_at = std.isoformat (expires_epoch * 1_000_000);
    })

  -- `_read_record`
  unfoldable pub read_record : String → Action W (Option Item)
  read_record key w = or_unavailable "Confirmation state could not be read." (client.get_item key w)

  -- What `consume` raises after a refused update, from the record that it reads back.
  unfoldable pub diagnose : Option Item → CallerContext → String → ℕ → Action W ⊤
  diagnose none caller action now_epoch = raise invalid
  diagnose (some item) caller action now_epoch = do
    consumed ← lift (bool_attribute (lookup "consumed" item))
    if consumed then raise replayed else do
      expires_at ← lift (number_attribute (lookup "expires_at" item))
      if leb expires_at now_epoch then raise expired else do
        stored_caller ← lift (string_attribute (lookup "caller_fingerprint" item))
        if not (stored_caller == fingerprint std caller) then raise caller_mismatch else do
          stored_action ← lift (string_attribute (lookup "action" item))
          if not (stored_action == action) then raise action_mismatch else raise payload_mismatch

  -- The body of the `try`: the payload's digest is computed inside it.
  unfoldable pub update_consumed : String → CallerContext → String → Fields → ℕ → Action W ⊤
  update_consumed key caller action payload now_epoch = do
    digest ← lift (canonical_payload_digest std payload)
    client.update_item key (assign "consumed" (bool true) ∷ [])
        (consume_condition now_epoch (fingerprint std caller) action digest)

  abbrev pub after_update : Result ⊤ → String → CallerContext → String → ℕ → Action W ⊤
  after_update (ok _) key caller action now_epoch = pure tt
  after_update (err e) key caller action now_epoch =
      if is_conditional_failure e
      then (do item ← read_record key; diagnose item caller action now_epoch)
      else raise (store_unavailable "Confirmation could not be consumed.")

  unfoldable pub consume : String → CallerContext → String → Fields → Action W ⊤
  unfolding aware_now
  consume token caller action payload = do
    now ← aware_now host
    let now_epoch = epoch now
    let key = std.sha256 token
    λ w.
        let (r, w') = update_consumed key caller action payload now_epoch w in
        after_update r key caller action now_epoch w'

  abbrev pub provider : ConfirmationProvider W
  provider = record { prepare = prepare; consume = consume }
