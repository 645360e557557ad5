-- ===== src/Core/Confirmation/Agreement.antt =====
-- The two guards of core/confirmation.py are interchangeable for a caller.
use aws_remote_mcp.Prelude.{ℕ, ◌*◌, String, ◌≡◌, sym, ◌∙◌, lookup}
use aws_remote_mcp.Prelude.Result.{ok}
use aws_remote_mcp.Json.{Fields}
use aws_remote_mcp.Dynamo.{Client, ClientLaws}
use aws_remote_mcp.Core.Models.{Stdlib, CallerContext}
use aws_remote_mcp.Core.Confirmation.{Host, aware, canonical_payload_digest}
use aws_remote_mcp.Core.Confirmation.Memory
use aws_remote_mcp.Core.Confirmation.Memory.{Guard}
use aws_remote_mcp.Core.Confirmation.Memory.Refines.{memory-verdict}
use aws_remote_mcp.Core.Confirmation.Persistent
use aws_remote_mcp.Core.Confirmation.Persistent.{Settings}
use aws_remote_mcp.Core.Confirmation.Persistent.Refines.{Encodes, IsReliable, persistent-verdict}

-- With a table client that keeps its laws and answers every request, both clocks at the same whole
-- second, and a table that holds the in-memory guard's record under the token's digest: for a
-- payload within the size limit the two guards give the same answer to consume, the same error code
-- included.
pub guards_agree :
    {V W : Type 0} (std : Stdlib) (host : Host V) (host' : Host W) (client : Client W)
    (settings : Settings)
    → ClientLaws client
    → IsReliable client
    → (token : String) (caller : CallerContext) (action : String) (payload : Fields) (g : Guard V)
      (w : W) (t : ℕ) {digest : String}
    → canonical_payload_digest std payload ≡ ok digest
    → (host.clock g.outside).0 ≡ aware (1_000_000 * t)
    → (host'.clock w).0 ≡ aware (1_000_000 * t)
    → Encodes
        (lookup (std.sha256 token) g.records)
        (client.item (host'.clock w).1 (std.sha256 token))
    → (Memory.consume std host token caller action payload g).0
      ≡ (Persistent.consume std host' client settings token caller action payload w).0
guards_agree std host host' client settings laws reliable token caller action payload g w t hd c c'
      e =
    (memory-verdict std host token caller action payload g hd c).0
    ∙ sym (
        persistent-verdict std host' client settings laws reliable token caller action payload w t
          (lookup (std.sha256 token) g.records) hd c' e)
