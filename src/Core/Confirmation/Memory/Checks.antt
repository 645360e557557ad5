-- ===== src/Core/Confirmation/Memory/Checks.antt =====
-- What `ConfirmationGuard.consume` accepts, what it refuses, and the round trip with `prepare`.
use aws_remote_mcp.Prelude.{
  ℕ, ◌<◌, String, true, false, some, ◌≡◌, ◌↔◌, arith, eq_iff, eq_refl, lookup, lookup-insert,
}
use aws_remote_mcp.Prelude.Result.{ok, err, is_ok}
use aws_remote_mcp.Json.{Fields}
use aws_remote_mcp.Core.Models.{Stdlib, CallerContext, fingerprint}
use aws_remote_mcp.Core.Confirmation.{aware, Host, canonical_payload_digest, replayed}
use aws_remote_mcp.Core.Confirmation.Memory.{ConfirmationRecord, Guard, consume}

-- The record authorises the call at the instant `now`.
pub record Authorises (std : Stdlib) (r : ConfirmationRecord) (caller : CallerContext)
    (action : String) (payload : Fields) (now : ℕ) : Type 0 where
  pub unconsumed : r.consumed ≡ false
  pub unexpired : now < r.expires_at
  pub same_caller : r.caller_fingerprint ≡ fingerprint std caller
  pub same_action : r.action ≡ action
  pub same_payload : canonical_payload_digest std payload ≡ ok r.payload_digest

module _ {W : Type 0} (std : Stdlib) (host : Host W) where
  -- With an aware clock, consuming a stored token succeeds exactly when its record is unconsumed,
  -- not expired, and made for this caller, this action and this payload.
  pub consume-ok_iff :
      (token : String) (caller : CallerContext) (action : String) (payload : Fields) (g : Guard W)
      {r : ConfirmationRecord} {now : ℕ}
      → lookup (std.sha256 token) g.records ≡ some r
      → (host.clock g.outside).0 ≡ aware now
      → (is_ok (consume std host token caller action payload g).0 ≡ true)
        ↔ Authorises std r caller action payload now
  unfolding consume
  consume-ok_iff token caller action payload g {r} stored clock =
      (λ h. grind (arith, eq_iff), λ a. grind (arith, eq_iff))

  -- A call that does not succeed leaves every record as it was.
  pub consume_refused :
      (token : String) (caller : CallerContext) (action : String) (payload : Fields) (g : Guard W)
      → is_ok (consume std host token caller action payload g).0 ≡ false
      → (consume std host token caller action payload g).1.records ≡ g.records
  unfolding consume
  consume_refused token caller action payload g h = ground arith

  -- A call that succeeds spends the token: the next call with it, by whatever caller and for whatever
  -- action and payload, is refused as a replay and changes nothing.
  pub consume_spends :
      (token : String) (caller later : CallerContext) (action other : String)
      (payload fields : Fields) (g : Guard W)
      → (consume std host token caller action payload g).0 ≡ ok tt
      → let g' = (consume std host token caller action payload g).1 in
        consume std host token later other fields g' ≡ (err replayed, g')
  unfolding consume
  consume_spends token caller later action other payload fields g h =
      grind (arith, lookup-insert, eq_refl)
