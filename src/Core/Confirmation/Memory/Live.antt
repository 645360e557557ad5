-- ===== src/Core/Confirmation/Memory/Live.antt =====
-- `ConfirmationGuard` meets the single-use contract, and a prepared confirmation can be consumed.
use aws_remote_mcp.Prelude.{
  ℕ, ◌+◌, ◌≤◌, ◌<◌, String, not, ◌&&◌, Option, none, some, List, ◌==◌, ◌≡◌, ap, arith, eq_iff,
  eq_refl, lookup, lookup-insert,
}
use aws_remote_mcp.Prelude.Result.{ok, is_ok}
use aws_remote_mcp.Json.{Fields}
use aws_remote_mcp.Core.Models.{Stdlib, CallerContext, ConfirmationMetadata}
use aws_remote_mcp.Core.Confirmation.{aware, Host}
use aws_remote_mcp.Core.Confirmation.Memory.{ConfirmationRecord, Guard, prepare, consume, provider}
use aws_remote_mcp.Core.Confirmation.SingleUse.{
  draws_in, uses_in, single_use, Call, IsSingleUse, indicator, uses, draws, after_call,
}

-- The surroundings of the guard, on the guard's own world.
abbrev pub host_of : {W : Type 0} → Host W → Host (Guard W)
host_of host = record {
  clock = λ g. let (m, w') = host.clock g.outside in (m, record g { outside = w' });
  token_urlsafe = λ g. let (t, w') = host.token_urlsafe g.outside in (t, record g { outside = w' });
}

abbrev is_live : Option ConfirmationRecord → ℕ
is_live none = 0
is_live (some r) = indicator (not r.consumed)

module _ {W : Type 0} (std : Stdlib) (host : Host W) where
  abbrev live : String → Guard W → ℕ
  live d g = is_live (lookup d g.records)

  prepare_step :
      (d : String) (caller : CallerContext) (action : String) (payload : Fields) (g : Guard W)
      → live d (prepare std host caller action payload g).1
        ≤ live d g + indicator (std.sha256 (host.token_urlsafe (host.clock g.outside).1).0 == d)
  unfolding prepare
  prepare_step d caller action payload g = grind (arith, lookup-insert, eq_iff)

  consume_step :
      (d token : String) (caller : CallerContext) (action : String) (payload : Fields) (g : Guard W)
      → indicator
            ((std.sha256 token == d) && is_ok (consume std host token caller action payload g).0)
          + live d (consume std host token caller action payload g).1
        ≤ live d g
  unfolding consume
  consume_step d token caller action payload g = grind (arith, lookup-insert, eq_iff)

  step :
      (d : String) (c : Call) (g : Guard W)
      → uses std (host_of host) (provider std host) d c g
          + live d (after_call std (host_of host) (provider std host) c g)
        ≤ live d g + draws std (host_of host) (provider std host) d c g
  step d (Call.prepare caller action payload) g =
      omega (arith, prepare_step d caller action payload g)
  step d (Call.consume token caller action payload) g =
      omega (arith, consume_step d token caller action payload g)

  pub memory_IsSingleUse : IsSingleUse std (host_of host) (provider std host)
  memory_IsSingleUse = record { live = live; step = step }

  -- With an aware clock, a confirmation that was just prepared is consumed by the same caller, for
  -- the same action and payload, at any later instant before `now + ttl`.
  pub consume-prepare :
      (caller : CallerContext) (action : String) (payload : Fields) (g : Guard W)
      {m : ConfirmationMetadata} {now later : ℕ}
      → (prepare std host caller action payload g).0 ≡ ok m
      → (host.clock g.outside).0 ≡ aware now
      → (host.clock (prepare std host caller action payload g).1.outside).0 ≡ aware later
      → later < now + g.ttl
      → (consume std host m.token caller action payload
          (prepare std host caller action payload g).1).0
        ≡ ok tt
  unfolding prepare consume
  consume-prepare caller action payload g prepared clock clock' early =
      grind (arith, lookup-insert, eq_iff, eq_refl)

  -- Over any sequence of prepare and consume calls on the in-memory guard, a token under whose digest
  -- nothing is stored at the start and whose digest is drawn at most once is consumed at most once.
  pub memory_single_use :
      (d : String) (cs : List Call) (g : Guard W)
      → lookup d g.records ≡ none
      → draws_in std (host_of host) (provider std host) d cs g ≤ 1
      → uses_in std (host_of host) (provider std host) d cs g ≤ 1
  unfolding memory_IsSingleUse lookup
  memory_single_use d cs g unheld once =
      single_use std (host_of host) (provider std host) memory_IsSingleUse d cs g
        (ap is_live unheld) once
