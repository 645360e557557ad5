-- ===== src/Core/Confirmation/Memory/Refines.antt =====
-- `ConfirmationGuard.consume` refines the specification: its answer and the record that it leaves.
use aws_remote_mcp.Prelude.{ℕ, String, ◌≡◌, arith, eq_refl, lookup, lookup-insert}
use aws_remote_mcp.Prelude.Result.{ok}
use aws_remote_mcp.Json.{Fields}
use aws_remote_mcp.Core.Models.{Stdlib, CallerContext, fingerprint}
use aws_remote_mcp.Core.Confirmation.{Host, aware, canonical_payload_digest}
use aws_remote_mcp.Core.Confirmation.Verdict.{verdict, marked}
use aws_remote_mcp.Core.Confirmation.Memory.{Guard, consume}

module _ {W : Type 0} (std : Stdlib) (host : Host W) where
  -- For a payload within the size limit and an aware clock, the answer of consume is the verdict on
  -- the record under the token's digest, and the record is marked consumed exactly on a positive one.
  pub memory-verdict :
      (token : String) (caller : CallerContext) (action : String) (payload : Fields) (g : Guard W)
      {digest : String} {now : ℕ}
      → canonical_payload_digest std payload ≡ ok digest
      → (host.clock g.outside).0 ≡ aware now
      → let (r, g') = consume std host token caller action payload g in
        let stored = lookup (std.sha256 token) g.records in
        (r ≡ verdict stored (fingerprint std caller) action digest now)
        × (lookup (std.sha256 token) g'.records ≡ marked stored r)
  unfolding consume verdict
  memory-verdict token caller action payload g hd clock = grind (arith, lookup-insert, eq_refl)
