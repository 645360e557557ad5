-- ===== src/Core/Confirmation/Persistent/Refines.antt =====
-- `DynamoDbConfirmationGuard.consume` refines the specification, with a service that answers every
-- request: its answer, the diagnosis after a refused update included, and the item that it leaves.
use aws_remote_mcp.Prelude.{
  ℕ, ◌*◌, ◌/◌, String, Bool, true, false, Option, none, some, List, [], ◌∷◌, ◌≡◌, refl, sym, ◌∙◌,
  ◌≢◌, arith,
}
use aws_remote_mcp.Prelude.Result.{⊤, Result, ok, err, is_ok}
use aws_remote_mcp.Json.{Fields}
use aws_remote_mcp.Dynamo.{
  Assignment, s, n, bool, Item, Condition, assign, holds, attribute, assigned_all, item_or_new,
  Client, ClientLaws, Written, is_conditional_failure, key_name,
}
use aws_remote_mcp.Core.Models.{Stdlib, CallerContext, fingerprint}
use aws_remote_mcp.Core.Confirmation.{Host, aware, canonical_payload_digest}
use aws_remote_mcp.Core.Confirmation.Verdict.{verdict}
use aws_remote_mcp.Core.Confirmation.Memory.{ConfirmationRecord}
use aws_remote_mcp.Core.Confirmation.Persistent.{
  Settings, consume, diagnose, read_record, update_consumed, after_update, consume_condition,
}

-- The item holds the record, whose instant of expiry is a whole second.
pub record Holds (r : ConfirmationRecord) (item : Item) : Type 0 where
  pub seconds : ℕ
  pub key : attribute key_name (some item) ≢ none
  pub consumed : attribute "consumed" (some item) ≡ some (bool r.consumed)
  pub expires : attribute "expires_at" (some item) ≡ some (n seconds)
  pub whole : r.expires_at ≡ 1_000_000 * seconds
  pub caller : attribute "caller_fingerprint" (some item) ≡ some (s r.caller_fingerprint)
  pub action : attribute "action" (some item) ≡ some (s r.action)
  pub digest : attribute "payload_digest" (some item) ≡ some (s r.payload_digest)

abbrev pub Encodes : Option ConfirmationRecord → Option Item → Type 0
Encodes none none = ⊤
Encodes (some r) (some item) = Holds r item
Encodes _ _ = ⊥

-- The condition of the update is the verdict.
condition-verdict :
    (r : Option ConfirmationRecord) (o : Option Item) (caller action digest : String) (t : ℕ)
    → Encodes r o
    → holds (consume_condition t caller action digest) o
      ≡ is_ok (verdict r caller action digest (1_000_000 * t))
unfolding verdict attribute
condition-verdict none none caller action digest t h = refl
condition-verdict (some r) (some item) caller action digest t h = ground arith
condition-verdict none (some item) caller action digest t h = absurd h
condition-verdict (some r) none caller action digest t h = absurd h

ok_unit : (a : Result ⊤) → is_ok a ≡ true → ok tt ≡ a
ok_unit (ok _) h = refl
ok_unit (err e) h = cc

whole_seconds : (t : ℕ) → 1_000_000 * t / 1_000_000 ≡ t
whole_seconds t = omega arith

module _ {W : Type 0} (std : Stdlib) (host : Host W) (client : Client W) (settings : Settings) where
  diagnose-verdict :
      (r : Option ConfirmationRecord) (o : Option Item) (caller : CallerContext)
      (action digest : String) (t : ℕ) (w : W)
      → Encodes r o
      → is_ok (verdict r (fingerprint std caller) action digest (1_000_000 * t)) ≡ false
      → (diagnose std host client settings o caller action t w).0
        ≡ verdict r (fingerprint std caller) action digest (1_000_000 * t)
  unfolding verdict attribute diagnose
  diagnose-verdict none none caller action digest t w h refused = refl
  diagnose-verdict (some r) (some item) caller action digest t w h refused = ground arith
  diagnose-verdict none (some item) caller action digest t w h refused = absurd h
  diagnose-verdict (some r) none caller action digest t w h refused = absurd h

-- The service answers: a write succeeds or is refused, and a read succeeds.
abbrev pub answers : Result ⊤ → Bool
answers (ok _) = true
answers (err e) = is_conditional_failure e

pub record IsReliable {W : Type 0} (client : Client W) : Type 0 where
  pub update :
      (k : String) (us : List Assignment) (c : Condition) (w : W)
      → answers (client.update_item k us c w).0 ≡ true
  pub get : (k : String) (w : W) → is_ok (client.get_item k w).0 ≡ true

module _ {W : Type 0} (std : Stdlib) (host : Host W) (client : Client W) (settings : Settings)
    (laws : ClientLaws client) (reliable : IsReliable client) where
  read_record-item :
      (key : String) (w : W)
      → ((read_record std host client settings key w).0 ≡ ok (client.item w key))
        × ((read_record std host client settings key w).1 ≡ (client.get_item key w).1)
  unfolding read_record
  read_record-item key w = grind (arith, laws.get key w, reliable.get key w)

  after_update-verdict :
      (key : String) (caller : CallerContext) (action digest : String) (t : ℕ)
      (r : Option ConfirmationRecord) (w : W) (p : Result ⊤ × W)
      → Written client key
          (consume_condition t (fingerprint std caller) action digest)
          (λ o. assigned_all (item_or_new key o) (assign "consumed" (bool true) ∷ []))
          w
          p
      → answers p.0 ≡ true
      → Encodes r (client.item w key)
      → (after_update std host client settings p.0 key caller action t p.1).0
        ≡ verdict r (fingerprint std caller) action digest (1_000_000 * t)
  after_update-verdict key caller action digest t r w (ok _, w') h a e = ok_unit _ (
      sym (condition-verdict r (client.item w key) (fingerprint std caller) action digest t e)
      ∙ h.0)
  after_update-verdict key caller action digest t r w (err x, w') h a e =
      let refused = rw a at h in
      rw (a, (read_record-item key w').0, refused.1 key)
        (diagnose-verdict std host client settings r (client.item w key) caller action digest t _ e
          (sym (condition-verdict r (client.item w key) (fingerprint std caller) action digest t e)
            ∙ refused.0))

  -- With a table client that keeps its laws and answers every request, the clock at a whole second,
  -- and a payload within the size limit: the answer of consume is the verdict on the record that
  -- the item under the token's digest holds, the error code of a refusal included.
  pub persistent-verdict :
      (token : String) (caller : CallerContext) (action : String) (payload : Fields) (w : W) (t : ℕ)
      (r : Option ConfirmationRecord) {digest : String}
      → canonical_payload_digest std payload ≡ ok digest
      → (host.clock w).0 ≡ aware (1_000_000 * t)
      → Encodes r (client.item (host.clock w).1 (std.sha256 token))
      → (consume std host client settings token caller action payload w).0
        ≡ verdict r (fingerprint std caller) action digest (1_000_000 * t)
  unfolding consume update_consumed
  persistent-verdict token caller action payload w t r {digest} hd clock e =
      rw (clock, hd, whole_seconds t)
        (after_update-verdict (std.sha256 token) caller action digest t r (host.clock w).1 _
          (laws.update (std.sha256 token) _ _ (host.clock w).1)
          (reliable.update (std.sha256 token) _ _ (host.clock w).1) e)
