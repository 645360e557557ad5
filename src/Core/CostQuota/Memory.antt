-- ===== src/Core/CostQuota/Memory.antt =====
-- `InMemoryCostRequestLimiter` of core/cost_quota.py, and its bound over any run.
use Prim.Native.Nat.{min}
use aws_remote_mcp.Prelude.{
  ℕ, zero, suc, ◌+◌, ◌-◌, ◌≤◌, ◌<◌, ltb, leb, String, Bool, true, false, Option, none, some, ◌==◌,
  ◌≡◌, arith, eq_refl, if◌then◌else◌,
}
use aws_remote_mcp.Prelude.Result.{⊤, Result, ok, err, is_ok, value_error}
use aws_remote_mcp.Prelude.Effect.{Action, ◌>>=◌}
use aws_remote_mcp.Core.CostQuota.{
  aware, QuotaClock, aware_now, period, limit_exceeded, CostRequestLimiter,
}

pub record Limiter (W : Type 0) : Type 0 where
  pub limit : ℕ
  pub period : Option String
  pub count : ℕ
  pub outside : W

unfoldable pub create : {W : Type 0} → ℕ → W → Result (Limiter W)
create limit w =
    if leb limit 0
    then err (value_error "Cost request limit must be positive.")
    else ok (record { limit = limit; period = none; count = 0; outside = w })

abbrev same_period : String → Option String → Bool
same_period p none = false
same_period p (some q) = p == q

-- `if period != self._period: ...`
unfoldable pub roll_over : {W : Type 0} → String → Limiter W → Limiter W
roll_over p l = if same_period p l.period then l else record l { period = some p; count = 0 }

unfoldable pub take_slot : {W : Type 0} → Action (Limiter W) ⊤
take_slot l =
    if leb l.limit l.count
    then (err limit_exceeded, l)
    else (ok tt, record l { count = l.count + 1 })

module _ {W : Type 0} (clock : QuotaClock W) where
  unfoldable pub acquire : Action (Limiter W) ⊤
  unfolding aware_now
  acquire = do
    now ← (λ l. let (r, w') = aware_now clock l.outside in (r, record l { outside = w' }))
    (λ l. take_slot (roll_over (period now) l))

  abbrev pub limiter : CostRequestLimiter (Limiter W)
  limiter = record { acquire = acquire }

  -- The state and the number of slots taken after so many calls.
  unfoldable pub run : ℕ → Limiter W → ℕ × Limiter W
  run zero l = (0, l)
  run (suc n) l =
      let (r, l') = acquire l in
      let (taken, l'') = run n l' in (taken + (if is_ok r then 1 else 0), l'')

  -- The clock stays in one month for the next calls.
  abbrev pub StaysIn : ℕ × ℕ → ℕ → W → Type 0
  StaysIn t zero w = ⊤
  StaysIn t (suc n) w = ((clock.read w).0 ≡ aware t.0 t.1) × StaysIn t n (clock.read w).1

  acquire_in_month :
      (t : ℕ × ℕ) (l : Limiter W)
      → (clock.read l.outside).0 ≡ aware t.0 t.1
      → l.period ≡ some (period t)
      → let (r, l') = acquire l in
        (is_ok r ≡ ltb l.count l.limit)
        × (l'.count ≡ (if ltb l.count l.limit then l.count + 1 else l.count))
        × (l'.limit ≡ l.limit)
        × (l'.period ≡ some (period t))
        × (l'.outside ≡ (clock.read l.outside).1)
  unfolding acquire take_slot roll_over
  acquire_in_month t l h e = ground (arith, eq_refl (period t))

  acquire_new_month :
      (t : ℕ × ℕ) (l : Limiter W)
      → (clock.read l.outside).0 ≡ aware t.0 t.1
      → l.period ≡ none
      → 0 < l.limit
      → let (r, l') = acquire l in
        (is_ok r ≡ true)
        × (l'.count ≡ 1)
        × (l'.limit ≡ l.limit)
        × (l'.period ≡ some (period t))
        × (l'.outside ≡ (clock.read l.outside).1)
  unfolding acquire take_slot roll_over
  acquire_new_month t l h e pos = ground arith

  run_in_month :
      (t : ℕ × ℕ) (n : ℕ) (l : Limiter W)
      → StaysIn t n l.outside
      → l.period ≡ some (period t)
      → l.count ≤ l.limit
      → (run n l).0 ≡ min n (l.limit - l.count)
  unfolding run
  run_in_month t zero l s e b = omega arith
  run_in_month t (suc n) l s e b =
      let step = acquire_in_month t l s.0 e in
      ground
        (arith, step, run_in_month t n (acquire l).1 (rw step.4 s.1) step.3 (ground (arith, step)))

  -- In calls that fall in one month, a new limiter grants the first \`limit\` slots and no other.
  pub quota_exact :
      (t : ℕ × ℕ) (n limit : ℕ) (w : W) {l : Limiter W}
      → create limit w ≡ ok l
      → StaysIn t n w
      → (run n l).0 ≡ min n limit
  unfolding run create
  quota_exact t zero limit w {l} made s = omega arith
  quota_exact t (suc n) limit w {l} made s =
      let fresh : (0 < limit)
          × (l.limit ≡ limit)
          × (l.period ≡ none)
          × (l.count ≡ 0)
          × (l.outside ≡ w) =
        ground arith in
      let stays : StaysIn t (suc n) l.outside = rw fresh.4 s in
      let step = acquire_new_month t l stays.0 fresh.2 (omega arith) in
      ground (
        arith,
        step,
        run_in_month t n (acquire l).1 (rw step.4 stays.1) step.3 (omega (arith, step)),
      )
