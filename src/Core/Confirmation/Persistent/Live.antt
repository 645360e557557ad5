-- ===== src/Core/Confirmation/Persistent/Live.antt =====
-- `DynamoDbConfirmationGuard` meets the single-use contract, also when the service raises and it is
-- not known whether a write went through.
use aws_remote_mcp.Prelude.{
  ℕ, ◌+◌, ◌/◌, ◌≤◌, String, Bool, true, false, ◌&&◌, Option, none, some, List, [], ◌∷◌, ◌==◌, ◌≡◌,
  refl, sym, subst, inl, inr, arith, eq_true→eq, eq_false→ne, Bool-cases, lookup-insert,
}
use aws_remote_mcp.Prelude.Result.{⊤, Result, ok, err, is_ok}
use aws_remote_mcp.Prelude.Effect.{Action, continue}
use aws_remote_mcp.Json.{Fields}
use aws_remote_mcp.Dynamo.{
  Written-cases, bool, Item, Condition, equal, assign, holds, attribute, assigned_all, item_or_new,
  Client, ClientLaws, Written, Unchanged, Applied, is_conditional_failure, IsQuiet,
}
use aws_remote_mcp.Core.Models.{Stdlib, CallerContext, fingerprint}
use aws_remote_mcp.Core.Confirmation.{Host, Moment-cases, canonical_payload_digest}
use aws_remote_mcp.Core.Confirmation.Persistent.{
  Settings, prepare, consume, diagnose, read_record, update_consumed, provider, after_update,
  consume_condition,
}
use aws_remote_mcp.Core.Confirmation.SingleUse.{
  draws_in, uses_in, single_use, Call, IsSingleUse, indicator, uses, draws, after_call,
}

unfoldable pub is_unconsumed : Option Item → Bool
unfolding attribute
is_unconsumed o = holds (equal "consumed" (bool false)) o

-- A record is unconsumed before it is consumed, and not after.
condition-is_unconsumed :
    (now : ℕ) (caller action digest : String) (o : Option Item)
    → holds (consume_condition now caller action digest) o ≡ true
    → is_unconsumed o ≡ true
unfolding is_unconsumed
condition-is_unconsumed now caller action digest o h = ground arith

assigned-is_unconsumed :
    (key : String) (o : Option Item)
    → is_unconsumed (some (assigned_all (item_or_new key o) (assign "consumed" (bool true) ∷ [])))
      ≡ false
unfolding is_unconsumed
assigned-is_unconsumed key o =
    rw (lookup-insert "consumed" "consumed" (bool true) (item_or_new key o))

module _ {W : Type 0} (std : Stdlib) (host : Host W) (client : Client W) (settings : Settings)
    (laws : ClientLaws client) (quiet_clock : IsQuiet client (λ w. (host.clock w).1))
    (quiet_tokens : IsQuiet client (λ w. (host.token_urlsafe w).1)) where
  unfoldable pub live : String → W → ℕ
  live d w = indicator (is_unconsumed (client.item w d))

  diagnose_raises :
      (o : Option Item) (caller : CallerContext) (action : String) (now : ℕ) (w : W)
      → (is_ok (diagnose std host client settings o caller action now w).0 ≡ false)
        × ((diagnose std host client settings o caller action now w).1 ≡ w)
  unfolding diagnose
  diagnose_raises o caller action now w = ground arith

  read_record_keeps :
      (key d : String) (w : W)
      → client.item (read_record std host client settings key w).1 d ≡ client.item w d
  unfolding read_record
  read_record_keeps key d w = grind (arith, laws.get key w)

  abbrev consumed_item : String → Option Item → Item
  consumed_item key o = assigned_all (item_or_new key o) (assign "consumed" (bool true) ∷ [])

  -- An applied update spends the record of its key and leaves every other alone.
  Applied-spends :
      (d key caller action digest : String) (now : ℕ) (w w' : W)
      → Applied client key (consume_condition now caller action digest) (consumed_item key) w w'
      → indicator (key == d) + live d w' ≤ live d w
  unfolding live
  Applied-spends d key caller action digest now w w' (held, new, others) =
      elim (Bool-cases (key == d)) [
        | inl e ↦
            subst (λ k. indicator (key == k) + live k w' ≤ live k w) (eq_true→eq key d e)
              (rw (new, assigned-is_unconsumed key (client.item w key))
                (ground (
                  arith,
                  condition-is_unconsumed now caller action digest (client.item w key) held,
                )))
        | inr ne ↦ rw (ne, others d (λ q. eq_false→ne key d ne (sym q))) (omega arith)
      ]

  Unchanged-live : (d : String) (w w' : W) → Unchanged client w w' → live d w' ≡ live d w
  unfolding live
  Unchanged-live d w w' same = rw (same d)

  Written-step :
      (d key caller action digest : String) (now : ℕ) (w : W) (p : Result ⊤ × W)
      → Written client key (consume_condition now caller action digest) (consumed_item key) w p
      → indicator ((key == d) && is_ok p.0) + live d p.1 ≤ live d w
  Written-step d key caller action digest now w p h =
      elim (Written-cases client key (consume_condition now caller action digest)
        (consumed_item key) w p h) [
          | inl applied ↦
              ground (arith, Applied-spends d key caller action digest now w p.1 applied)
          | inr (failed, same) ↦ ground (arith, Unchanged-live d w p.1 same)
        ]

  -- Storing an item under a key makes at most that record live.
  put_step :
      (d key : String) (item : Item) (c : Condition) (w : W)
      → live d (client.put_item key item c w).1 ≤ live d w + indicator (key == d)
  unfolding live
  put_step d key item c w =
      elim (Written-cases client key c (λ _. item) w (client.put_item key item c w)
        (laws.put key item c w)) [
          | inl (held, new, others) ↦ elim (Bool-cases (key == d)) [
            | inl e ↦ rw e (ground arith)
            | inr ne ↦ rw (ne, others d (λ q. eq_false→ne key d ne (sym q))) (omega arith)
          ]
          | inr (failed, same) ↦ rw (same d) (omega arith)
        ]

  -- A call that begins with a computation of a digest keeps the bound if every digest does.
  continue_step :
      (d key : String) (w : W) (r : Result String) (k : String → Action W ⊤)
      → ((digest : String)
          → indicator ((key == d) && is_ok (k digest w).0) + live d (k digest w).1 ≤ live d w)
      → indicator ((key == d) && is_ok (continue r k w).0) + live d (continue r k w).1 ≤ live d w
  continue_step d key w (ok digest) k h = h digest
  continue_step d key w (err e) k h = ground arith

  -- The conditional update spends the record if it succeeds, and else never makes one.
  update_step :
      (d key : String) (caller : CallerContext) (action : String) (payload : Fields) (now : ℕ)
      (w : W)
      → let (r, w') = update_consumed std host client settings key caller action payload now w in
        indicator ((key == d) && is_ok r) + live d w' ≤ live d w
  unfolding update_consumed
  update_step d key caller action payload now w =
      continue_step d key w (canonical_payload_digest std payload) _ λ digest.
        Written-step d key (fingerprint std caller) action digest now w _ (laws.update key _ _ w)

  -- What follows the update changes no record, and succeeds exactly if the update did.
  after_update_keeps :
      (r : Result ⊤) (d key : String) (caller : CallerContext) (action : String) (now : ℕ) (w : W)
      → let (r', w') = after_update std host client settings r key caller action now w in
        (is_ok r' ≡ is_ok r) × (client.item w' d ≡ client.item w d)
  after_update_keeps (ok _) d key caller action now w = (refl, refl)
  after_update_keeps (err e) d key caller action now w =
      elim (Bool-cases (is_conditional_failure e)) [
        | inl c ↦ grind (arith, diagnose_raises, read_record_keeps key d w)
        | inr c ↦ ground arith
      ]

  clock_live : (d : String) (w : W) → live d (host.clock w).1 ≡ live d w
  unfolding live
  clock_live d w = rw (quiet_clock.keeps w d)

  token_live : (d : String) (w : W) → live d (host.token_urlsafe w).1 ≡ live d w
  unfolding live
  token_live d w = rw (quiet_tokens.keeps w d)

  after_update_step :
      (d key : String) (caller : CallerContext) (action : String) (payload : Fields) (now : ℕ)
      (w : W)
      → let (r, w') = update_consumed std host client settings key caller action payload now w in
        let (r', w'') = after_update std host client settings r key caller action now w' in
        indicator ((key == d) && is_ok r') + live d w'' ≤ live d w
  unfolding live
  after_update_step d key caller action payload now w =
      let (r, w') = update_consumed std host client settings key caller action payload now w in
      let kept = after_update_keeps r d key caller action now w' in
      rw (kept.0, kept.1) (update_step d key caller action payload now w)

  consume_step :
      (d token : String) (caller : CallerContext) (action : String) (payload : Fields) (w : W)
      → let (r, w') = consume std host client settings token caller action payload w in
        indicator ((std.sha256 token == d) && is_ok r) + live d w' ≤ live d w
  unfolding consume
  consume_step d token caller action payload w = elim (Moment-cases (host.clock w).0) [
    | inl e ↦ ground (arith, clock_live d w)
    | inr (t, e) ↦ rw e (
        ground (
          arith,
          clock_live d w,
          after_update_step d (std.sha256 token) caller action payload (t / 1_000_000)
              (host.clock w).1,
        ))
  ]

  prepare_step :
      (d : String) (caller : CallerContext) (action : String) (payload : Fields) (w : W)
      → live d (prepare std host client settings caller action payload w).1
        ≤ live d w + indicator (std.sha256 (host.token_urlsafe (host.clock w).1).0 == d)
  unfolding prepare
  prepare_step d caller action payload w = elim (Moment-cases (host.clock w).0) [
    | inl e ↦ ground (arith, clock_live d w)
    | inr (t, e) ↦ rw e (grind (arith, clock_live, token_live, put_step))
  ]

  pub step :
      (d : String) (c : Call) (w : W)
      → uses std host (provider std host client settings) d c w
          + live d (after_call std host (provider std host client settings) c w)
        ≤ live d w + draws std host (provider std host client settings) d c w
  step d (Call.prepare caller action payload) w =
      omega (arith, prepare_step d caller action payload w)
  step d (Call.consume token caller action payload) w =
      omega (arith, consume_step d token caller action payload w)

  unfoldable pub persistent_IsSingleUse : IsSingleUse std host (provider std host client settings)
  persistent_IsSingleUse = record { live = live; step = step }

  -- With a table client that keeps its laws and a clock and a token source that leave the table
  -- alone: over any sequence of prepare and consume calls on the guard in the table, whatever fails
  -- in between, a token under whose digest the table holds nothing at the start and whose digest is
  -- drawn at most once is consumed at most once.
  pub persistent_single_use :
      (d : String) (cs : List Call) (w : W)
      → client.item w d ≡ none
      → draws_in std host (provider std host client settings) d cs w ≤ 1
      → uses_in std host (provider std host client settings) d cs w ≤ 1
  unfolding live is_unconsumed attribute persistent_IsSingleUse
  persistent_single_use d cs w unheld once =
      single_use std host (provider std host client settings) persistent_IsSingleUse d cs w
        (rw unheld refl) once
