-- ===== src/Core/CostQuota/Persistent/Bound.antt =====
-- The bound of `DynamoDbCostRequestLimiter` over every interleaving of calls: in each period no more
-- than `limit` of them succeed, whatever the other instances do and whichever requests fail.
use aws_remote_mcp.Prelude.{
  ℕ, ◌+◌, ◌≤◌, ◌<◌, String, true, ◌&&◌, Option, none, some, ◌==◌, ◌≡◌, refl, sym, subst, inl, inr,
  arith, eq_true→eq, eq_false→ne, Bool-cases, lookup, insert, lookup-insert, if◌then◌else◌,
}
use aws_remote_mcp.Prelude.Result.{⊤, Result, ok, err, is_ok}
use aws_remote_mcp.Dynamo.{
  Item, attribute, holds, assigned_all, item_or_new, number_or, Client, ClientLaws, Written-cases,
  Applied,
}
use aws_remote_mcp.Core.Models.{Stdlib}
use aws_remote_mcp.Core.CostQuota.{next_period_timestamp}
use aws_remote_mcp.Core.CostQuota.Persistent.{
  refused, Settings, quota_key, quota_condition, quota_update, acquire_at,
}

-- The slots that an item records.
abbrev pub slots : Option Item → ℕ
slots o = number_or 0 (attribute "count" o)

abbrev quota_item : String → ℕ → Option Item → Item
quota_item key expires o = assigned_all (item_or_new key o) (quota_update expires)

-- An accepted update of the item records one slot more, and stays within the limit.
slots-quota_item :
    (limit expires : ℕ) (key : String) (o : Option Item)
    → holds (quota_condition limit) o ≡ true
    → 0 < limit
    → (slots (some (quota_item key expires o)) ≡ slots o + 1) × (slots o < limit)
unfolding attribute lookup insert
slots-quota_item limit expires key none h pos = (refl, pos)
slots-quota_item limit expires key (some item) h pos = grind (arith, lookup-insert)

module _ {W : Type 0} (std : Stdlib) (client : Client W) (settings : Settings) where
  -- What any number of instances do to the table, one atomic request after another, with the calls
  -- that were granted a slot under `key`. An instance may read any time from its clock; every other
  -- operation leaves the item under `key` alone.
  pub data Schedule (key : String) (start : W) : ℕ → W → Type 0 where
    begin : Schedule key start 0 start
    call :
        {granted : ℕ} {w : W} (now : ℕ × ℕ)
        → Schedule key start granted w
        → Schedule key start
            ((if (quota_key std settings now == key)
                  && is_ok (acquire_at std client settings now w).0
                then 1
                else 0)
              + granted)
            (acquire_at std client settings now w).1
    elsewhere :
        {granted : ℕ} {w w' : W}
        → Schedule key start granted w
        → client.item w' key ≡ client.item w key
        → Schedule key start granted w'

module _ {W : Type 0} (std : Stdlib) (client : Client W) (settings : Settings)
    (laws : ClientLaws client) where
  used : String → W → ℕ
  used key w = slots (client.item w key)

  unchanged_used :
      (key : String) (w w' : W) → client.item w' key ≡ client.item w key → used key w' ≡ used key w
  unfolding used
  unchanged_used key w w' same = rw same

  Applied-used :
      (key k : String) (expires : ℕ) (w w' : W)
      → 0 < settings.limit
      → Applied client k (quota_condition settings.limit) (quota_item k expires) w w'
      → used key w ≤ settings.limit
      → ((if k == key then 1 else 0) + used key w ≤ used key w') × (used key w' ≤ settings.limit)
  unfolding used
  Applied-used key k expires w w' pos (held, new, others) h = elim (Bool-cases (k == key)) [
    | inl e ↦ rw e (
        subst
          (λ j.
            used j w ≤ settings.limit → (1 + used j w ≤ used j w') × (used j w' ≤ settings.limit))
          (eq_true→eq k key e)
          (λ _.
            rw new
              (omega (arith, slots-quota_item settings.limit expires k (client.item w k) held pos)))
          h)
    | inr ne ↦
        rw ne
          (omega (arith, unchanged_used key w w' (others key (λ q. eq_false→ne k key ne (sym q)))))
  ]

  refused_keeps : (p : Result ⊤ × W) → (is_ok (refused p).0 ≡ is_ok p.0) × ((refused p).1 ≡ p.1)
  refused_keeps (ok _, w) = (refl, refl)
  refused_keeps (err e, w) = (refl, refl)

  -- One call: a slot that is granted is recorded, and the record stays within the limit.
  acquire_step :
      (key : String) (now : ℕ × ℕ) (w : W)
      → 0 < settings.limit
      → used key w ≤ settings.limit
      → let (r, w') = acquire_at std client settings now w in
        ((if (quota_key std settings now == key) && is_ok r then 1 else 0) + used key w
          ≤ used key w')
        × (used key w' ≤ settings.limit)
  unfolding acquire_at
  acquire_step key now w pos h =
      let k = quota_key std settings now in
      let expires = next_period_timestamp now in
      let p = client.update_item k (quota_update expires) (quota_condition settings.limit) w in
      rw ((refused_keeps p).0, (refused_keeps p).1)
        (elim (Written-cases client k (quota_condition settings.limit) (quota_item k expires) w p
          (laws.update k (quota_update expires) (quota_condition settings.limit) w)) [
            | inl applied ↦ ground (arith, Applied-used key k expires w p.1 pos applied h)
            | inr (failed, same) ↦ rw failed (ground (arith, unchanged_used key w p.1 (same key)))
          ])

  schedule_used :
      {key : String} {start w : W} {granted : ℕ}
      → 0 < settings.limit
      → used key start ≤ settings.limit
      → Schedule std client settings key start granted w
      → (granted + used key start ≤ used key w) × (used key w ≤ settings.limit)
  schedule_used pos h begin = omega arith
  schedule_used {key} pos h (call {w = w} now before) =
      let ih = schedule_used pos h before in omega (arith, acquire_step key now w pos ih.1)
  schedule_used {key} pos h (elsewhere {w = v} {w' = v'} before same) =
      omega (arith, schedule_used pos h before, unchanged_used key v v' same)

  -- For a client that keeps its laws, a positive limit, and a count in the table that is within the
  -- limit at the start: however the calls of all instances interleave with each other and with what
  -- leaves the quota's item alone, and whichever requests fail, at most `limit` calls of one period
  -- are granted a slot, less those that the table records at the start.
  pub monthly_bound :
      {key : String} {start w : W} {granted : ℕ}
      → 0 < settings.limit
      → slots (client.item start key) ≤ settings.limit
      → Schedule std client settings key start granted w
      → granted + slots (client.item start key) ≤ settings.limit
  unfolding used
  monthly_bound pos h run = omega (arith, schedule_used pos h run)
