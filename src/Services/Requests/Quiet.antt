-- ===== src/Services/Requests/Quiet.antt =====
-- The guard and the quota over the table (core/confirmation.py, core/cost_quota.py) make no calls but
-- the requests to the table.
use aws_remote_mcp.Prelude.{ℕ, String, List, ◌≡◌, refl, inl, inr, arith}
use aws_remote_mcp.Prelude.Result.{⊤, Result, ok, err}
use aws_remote_mcp.Json.{Fields}
use aws_remote_mcp.Dynamo.{Item, Condition, Assignment, Client}
use aws_remote_mcp.Core.Models.{Stdlib, CallerContext}
use aws_remote_mcp.Core.Confirmation.{Host, Moment-cases}
use aws_remote_mcp.Core.Confirmation.Persistent
use aws_remote_mcp.Core.Confirmation.Persistent.{Settings}
use aws_remote_mcp.Core.CostQuota.{QuotaClock, Reading-cases}
use aws_remote_mcp.Core.CostQuota.Persistent as Quota
use aws_remote_mcp.Core.CostQuota.Persistent.{acquire_at}

module _ {W : Type 0} (std : Stdlib) (host : Host W) (client : Client W) (settings : Settings)
    (calls : W → ℕ) (clock : (w : W) → calls (host.clock w).1 ≡ calls w) where
  pub prepare_calls :
      ((w : W) → calls (host.token_urlsafe w).1 ≡ calls w)
      → ((k : String) (item : Item) (c : Condition) (w : W)
          → calls (client.put_item k item c w).1 ≡ calls w)
      → (caller : CallerContext) (action : String) (payload : Fields) (w : W)
      → calls (Persistent.prepare std host client settings caller action payload w).1 ≡ calls w
  unfolding Persistent.prepare
  prepare_calls tokens put caller action payload w = elim (Moment-cases (host.clock w).0) [
    | inl e ↦ ground (arith, clock w)
    | inr (t, e) ↦ rw e (grind (arith, clock w, tokens, put))
  ]

  pub update_calls :
      ((k : String) (us : List Assignment) (c : Condition) (w : W)
        → calls (client.update_item k us c w).1 ≡ calls w)
      → (key : String) (caller : CallerContext) (action : String) (payload : Fields) (t : ℕ) (w : W)
      → calls (Persistent.update_consumed std host client settings key caller action payload t w).1
        ≡ calls w
  unfolding Persistent.update_consumed
  update_calls update key caller action payload t w = grind (arith, update)

  pub after_calls :
      ((k : String) (w : W) → calls (client.get_item k w).1 ≡ calls w)
      → (r : Result ⊤) (key : String) (caller : CallerContext) (action : String) (t : ℕ) (w : W)
      → calls (Persistent.after_update std host client settings r key caller action t w).1 ≡ calls w
  unfolding Persistent.read_record Persistent.diagnose
  after_calls get (ok _) key caller action t w = refl
  after_calls get (err e) key caller action t w = ground (arith, get key w)

  pub consume_calls :
      ((k : String) (us : List Assignment) (c : Condition) (w : W)
        → calls (client.update_item k us c w).1 ≡ calls w)
      → ((k : String) (w : W) → calls (client.get_item k w).1 ≡ calls w)
      → (token : String) (caller : CallerContext) (action : String) (payload : Fields) (w : W)
      → calls (Persistent.consume std host client settings token caller action payload w).1
        ≡ calls w
  unfolding Persistent.consume
  consume_calls update get token caller action payload w = elim (Moment-cases (host.clock w).0) [
    | inl e ↦ ground (arith, clock w)
    | inr (t, e) ↦
        let key = std.sha256 token in
        let (r, w') =
          Persistent.update_consumed std host client settings key caller action payload
            (Persistent.epoch t) (host.clock w).1 in
        rw
          (
            e,
            after_calls get r key caller action (Persistent.epoch t) w',
            update_calls update key caller action payload (Persistent.epoch t) (host.clock w).1,
          )
          (clock w)
  ]

module _ {W : Type 0} (std : Stdlib) (quota_clock : QuotaClock W) (client : Client W)
    (quota : Quota.Settings) where
  -- Whatever the clock and one update leave alone, taking a slot leaves alone.
  pub acquire_keeps :
      (f : W → ℕ)
      → ((w : W) → f (quota_clock.read w).1 ≡ f w)
      → ((now : ℕ × ℕ) (w : W) → f (acquire_at std client quota now w).1 ≡ f w)
      → (w : W) → f (Quota.acquire std quota_clock client quota w).1 ≡ f w
  unfolding Quota.acquire
  acquire_keeps f clock slot w = elim (Reading-cases (quota_clock.read w).0) [
    | inl e ↦ ground (arith, clock w)
    | inr (t, e) ↦ rw (e, slot t (quota_clock.read w).1) (clock w)
  ]

  pub acquire_at_calls :
      (calls : W → ℕ)
      → ((k : String) (us : List Assignment) (c : Condition) (w : W)
          → calls (client.update_item k us c w).1 ≡ calls w)
      → (now : ℕ × ℕ) (w : W) → calls (acquire_at std client quota now w).1 ≡ calls w
  unfolding acquire_at
  acquire_at_calls calls update now w = grind (arith, update)
