-- ===== src/Core/Confirmation.antt =====
-- core/confirmation.py, what its two guards share: the interface, the clock and token source that
-- they are given, and the digest of a payload.
pub mod SingleUse
pub mod Verdict
pub mod Memory
pub mod Persistent
pub mod Agreement
use aws_remote_mcp.Prelude.{◌≡◌, refl, ◌⊎◌, inl, inr, ℕ, ltb, String, len, if◌then◌else◌}
use aws_remote_mcp.Prelude.Result.{⊤, Result, ok, err, Exception, confirmation_error, value_error}
use aws_remote_mcp.Prelude.Effect.{Action}
use aws_remote_mcp.Json.{Fields, obj, dumps, sort_keys}
use aws_remote_mcp.Core.Models.{Stdlib, CallerContext, ConfirmationMetadata}

-- A `datetime` that a clock returns: one with no time zone, or an instant in microseconds. The
-- guards only add to instants and compare them.
pub data Moment : Type 0 where
  naive : Moment
  aware : ℕ → Moment

-- What the surroundings choose: the clock's readings and `secrets.token_urlsafe(32)`.
pub record Host (W : Type 0) : Type 0 where
  pub clock : W → Moment × W
  pub token_urlsafe : W → String × W

-- `ConfirmationProvider`
pub record ConfirmationProvider (W : Type 0) : Type 0 where
  pub prepare : CallerContext → String → Fields → Action W ConfirmationMetadata
  pub consume : String → CallerContext → String → Fields → Action W ⊤

-- Five minutes, in microseconds.
abbrev pub default_confirmation_ttl : ℕ
default_confirmation_ttl = 300_000_000

abbrev pub max_confirmation_payload_bytes : ℕ
max_confirmation_payload_bytes = 16_384

-- A payload is a JSON object by its type, so the `invalid_payload` branch does not arise.
unfoldable pub canonical_payload_digest : Stdlib → Fields → Result String
canonical_payload_digest std payload =
    let encoded = dumps (sort_keys (obj payload)) in
    if ltb max_confirmation_payload_bytes (len encoded)
    then err (confirmation_error "payload_too_large" "Confirmation payload is too large.")
    else ok (std.sha256 encoded)

abbrev check_aware : Moment → Result ℕ
check_aware naive = err (value_error "Confirmation clock must return a timezone-aware datetime.")
check_aware (aware t) = ok t

pub Moment-cases : (m : Moment) → (m ≡ naive) ⊎ ((t : ℕ) × (m ≡ aware t))
Moment-cases naive = inl refl
Moment-cases (aware t) = inr (t, refl)

-- `_aware_now`, on any world with a host
unfoldable pub aware_now : {W : Type 0} → Host W → Action W ℕ
aware_now host w = let (m, w') = host.clock w in (check_aware m, w')

abbrev pub invalid : Exception
invalid = confirmation_error "confirmation_invalid" "Confirmation is invalid."

abbrev pub replayed : Exception
replayed = confirmation_error "confirmation_replayed" "Confirmation has already been consumed."

abbrev pub expired : Exception
expired = confirmation_error "confirmation_expired" "Confirmation has expired."

abbrev pub caller_mismatch : Exception
caller_mismatch =
    confirmation_error "confirmation_caller_mismatch" "Confirmation belongs to a different caller."

abbrev pub action_mismatch : Exception
action_mismatch =
    confirmation_error "confirmation_action_mismatch" "Confirmation does not authorize this action."

abbrev pub payload_mismatch : Exception
payload_mismatch =
    confirmation_error "confirmation_payload_mismatch"
      "Confirmation does not authorize this payload."
