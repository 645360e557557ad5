-- ===== src/Core/Confirmation/SingleUse.antt =====
-- The contract of `ConfirmationProvider` (core/confirmation.py) that both guards meet: a token is
-- consumed at most as often as a record was stored under its digest, over any sequence of calls.
use aws_remote_mcp.Prelude.{
  ℕ, ◌+◌, ◌≤◌, String, Bool, ◌&&◌, List, [], ◌∷◌, ◌==◌, ◌≡◌, arith, if◌then◌else◌,
}
use aws_remote_mcp.Prelude.Result.{is_ok}
use aws_remote_mcp.Json.{Fields}
use aws_remote_mcp.Core.Models.{Stdlib, CallerContext}
use aws_remote_mcp.Core.Confirmation.{ConfirmationProvider, Host}

pub data Call : Type 0 where
  prepare : CallerContext → String → Fields → Call
  consume : String → CallerContext → String → Fields → Call

-- One where a test passes.
abbrev pub indicator : Bool → ℕ
indicator b = if b then 1 else 0

module _ {W : Type 0} (std : Stdlib) (host : Host W) (p : ConfirmationProvider W) where
  -- The world after a call, whether it returned or raised.
  abbrev pub after_call : Call → W → W
  after_call (prepare caller action payload) w = (p.prepare caller action payload w).1
  after_call (consume token caller action payload) w = (p.consume token caller action payload w).1

  -- The call consumed a token with the digest `d`.
  abbrev pub uses : String → Call → W → ℕ
  uses d (prepare caller action payload) w = 0
  uses d (consume token caller action payload) w =
      indicator ((std.sha256 token == d) && is_ok (p.consume token caller action payload w).0)

  -- The call is a `prepare` whose token, drawn after the clock is read, has the digest `d`.
  abbrev pub draws : String → Call → W → ℕ
  draws d (prepare caller action payload) w =
      indicator (std.sha256 (host.token_urlsafe (host.clock w).1).0 == d)
  draws d (consume token caller action payload) w = 0

  unfoldable pub after_calls : List Call → W → W
  after_calls [] w = w
  after_calls (c ∷ cs) w = after_calls cs (after_call c w)

  unfoldable pub uses_in : String → List Call → W → ℕ
  uses_in d [] w = 0
  uses_in d (c ∷ cs) w = uses d c w + uses_in d cs (after_call c w)

  unfoldable pub draws_in : String → List Call → W → ℕ
  draws_in d [] w = 0
  draws_in d (c ∷ cs) w = draws d c w + draws_in d cs (after_call c w)

  -- `live d w` counts the unconsumed records under `d`, and a call that consumes one removes it.
  pub record IsSingleUse : Type 0 where
    pub live : String → W → ℕ
    pub step :
        (d : String) (c : Call) (w : W)
        → uses d c w + live d (after_call c w) ≤ live d w + draws d c w

  module _ (law : IsSingleUse) where
    pub uses-le-draws_live :
        (d : String) (cs : List Call) (w : W)
        → uses_in d cs w + law.live d (after_calls cs w) ≤ law.live d w + draws_in d cs w
    unfolding uses_in draws_in after_calls
    uses-le-draws_live d [] w = omega arith
    uses-le-draws_live d (c ∷ cs) w =
        omega (arith, law.step d c w, uses-le-draws_live d cs (after_call c w))

    -- Whatever is prepared and consumed in whatever order, a token that nobody holds at the start
    -- and that is drawn once is consumed at most once.
    pub single_use :
        (d : String) (cs : List Call) (w : W)
        → law.live d w ≡ 0
        → draws_in d cs w ≤ 1
        → uses_in d cs w ≤ 1
    single_use d cs w unheld once = omega (arith, uses-le-draws_live d cs w)
