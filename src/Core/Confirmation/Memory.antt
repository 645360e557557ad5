-- ===== src/Core/Confirmation/Memory.antt =====
-- `ConfirmationGuard` of core/confirmation.py: records in a dictionary of the process.
pub mod Checks
pub mod Live
pub mod Refines
use aws_remote_mcp.Prelude.{
  ℕ, ◌+◌, leb, String, Bool, true, false, not, Option, none, some, [], ◌==◌, Dict, lookup, insert,
  if◌then◌else◌,
}
use aws_remote_mcp.Prelude.Result
use aws_remote_mcp.Prelude.Result.{⊤, Result, ok, err, raise_if, value_error}
use aws_remote_mcp.Prelude.Effect.{Action, pure, raise, lift, ◌>>=◌, ◌>>◌}
use aws_remote_mcp.Json.{Fields}
use aws_remote_mcp.Core.Models.{Stdlib, CallerContext, fingerprint, ConfirmationMetadata}
use aws_remote_mcp.Core.Confirmation.{
  Host, ConfirmationProvider, canonical_payload_digest, aware_now, invalid, replayed, expired,
  caller_mismatch, action_mismatch, payload_mismatch,
}

pub record ConfirmationRecord : Type 0 where
  pub caller_fingerprint : String
  pub action : String
  pub payload_digest : String
  pub expires_at : ℕ
  pub consumed : Bool

-- The guard's fields, and the surroundings that it is called in.
pub record Guard (W : Type 0) : Type 0 where
  pub ttl : ℕ
  pub records : Dict ConfirmationRecord
  pub outside : W

-- `ConfirmationGuard(ttl=ttl)`
unfoldable pub create : {W : Type 0} → ℕ → W → Result (Guard W)
create ttl w =
    if leb ttl 0
    then err (value_error "Confirmation TTL must be positive.")
    else ok (record { ttl = ttl; records = []; outside = w })

module _ {W : Type 0} where
  abbrev pub outside : {A : Type 0} → Action W A → Action (Guard W) A
  outside m g = let (r, w') = m g.outside in (r, record g { outside = w' })

  abbrev set_record : String → ConfirmationRecord → Action (Guard W) ⊤
  set_record k r g = (ok tt, record g { records = insert k r g.records })

module _ {W : Type 0} (std : Stdlib) (host : Host W) where
  abbrev draw_token : Action (Guard W) String
  draw_token = outside (λ w. let (t, w') = host.token_urlsafe w in (ok t, w'))

  unfoldable pub prepare : CallerContext → String → Fields → Action (Guard W) ConfirmationMetadata
  unfolding aware_now
  prepare caller action payload g =
      (do
        now ← outside (aware_now host)
        let expires_at = now + g.ttl
        payload_digest ← lift (canonical_payload_digest std payload)
        token ← draw_token
        set_record (std.sha256 token) (record {
          caller_fingerprint = fingerprint std caller;
          action = action;
          payload_digest = payload_digest;
          expires_at = expires_at;
          consumed = false;
        })
        pure (record {
          token = token;
          action = action;
          payload_digest = payload_digest;
          expires_at = std.isoformat expires_at;
        }))
        g

  -- The checks of `consume` after the clock is read, in the order of the source.
  unfoldable pub check_record : ConfirmationRecord → CallerContext → String → Fields → ℕ → Result ⊤
  check_record r caller action payload now = Result.◌>>◌ (raise_if (leb r.expires_at now) expired) (
      Result.◌>>◌ (raise_if (not (r.caller_fingerprint == fingerprint std caller)) caller_mismatch)
        (Result.◌>>◌ (raise_if (not (r.action == action)) action_mismatch) (
          Result.◌>>=◌ (canonical_payload_digest std payload)
            λ digest. raise_if (not (r.payload_digest == digest)) payload_mismatch)))

  abbrev consume_record :
      Option ConfirmationRecord → String → CallerContext → String → Fields → Action (Guard W) ⊤
  consume_record none token caller action payload = raise invalid
  consume_record (some r) token caller action payload = if r.consumed then raise replayed else do
    now ← outside (aware_now host)
    lift (check_record r caller action payload now)
    set_record (std.sha256 token) (record r { consumed = true })

  unfoldable pub consume : String → CallerContext → String → Fields → Action (Guard W) ⊤
  unfolding aware_now check_record
  consume token caller action payload g =
      consume_record (lookup (std.sha256 token) g.records) token caller action payload g

  abbrev pub provider : ConfirmationProvider (Guard W)
  provider = record { prepare = prepare; consume = consume }
