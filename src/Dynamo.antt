-- ===== src/Dynamo.antt =====
-- The DynamoDB table that the confirmation guard and the cost quota share, as far as its
-- documentation fixes it: conditional writes to one item, and consistent reads. The client is no
-- code of this repository: it is a record of operations over a world, with laws as hypotheses.
use aws_remote_mcp.Prelude.{
  Bool-cases, inl, inr, refl, ℕ, ◌+◌, ltb, eqb, String, Bool, true, false, not, ◌&&◌, ◌||◌, Option,
  none, some, is_none, List, [], ◌∷◌, ◌==◌, ◌≡◌, ◌≢◌, ◌⊎◌, Dict, lookup, insert, if◌then◌else◌,
}
use aws_remote_mcp.Prelude.Result.{⊤, is_ok, Exception, Result, ok, err, conditional_check_failed}
use aws_remote_mcp.Prelude.Effect.{Action}

-- An attribute value: `{"S": ...}`, `{"N": ...}` of an integer, `{"BOOL": ...}`, an `N` whose text is
-- no integer, or any other kind.
pub data AttributeValue : Type 0 where
  s : String → AttributeValue
  n : ℕ → AttributeValue
  bool : Bool → AttributeValue
  malformed_n : AttributeValue
  other_kind : AttributeValue

abbrev pub Item : Type 0
Item = Dict AttributeValue

-- The condition expressions that the program sends.
pub data Condition : Type 0 where
  attribute_exists attribute_not_exists : String → Condition
  equal less greater : String → AttributeValue → Condition
  both either : Condition → Condition → Condition

abbrev bool_eq : Bool → Bool → Bool
bool_eq true b = b
bool_eq false b = not b

abbrev pub value_eq : AttributeValue → AttributeValue → Bool
value_eq (s a) (s b) = a == b
value_eq (n a) (n b) = eqb a b
value_eq (bool a) (bool b) = bool_eq a b
value_eq _ _ = false

abbrev value_lt : AttributeValue → AttributeValue → Bool
value_lt (n a) (n b) = ltb a b
value_lt _ _ = false

abbrev pub test_value : (AttributeValue → Bool) → Option AttributeValue → Bool
test_value p none = false
test_value p (some v) = p v

-- An attribute of an item that may be missing.
unfoldable pub attribute : String → Option Item → Option AttributeValue
attribute k none = none
attribute k (some item) = lookup k item

abbrev pub holds : Condition → Option Item → Bool
holds (attribute_exists k) o = not (is_none (attribute k o))
holds (attribute_not_exists k) o = is_none (attribute k o)
holds (equal k v) o = test_value (λ x. value_eq x v) (attribute k o)
holds (less k v) o = test_value (λ x. value_lt x v) (attribute k o)
holds (greater k v) o = test_value (λ x. value_lt v x) (attribute k o)
holds (both c d) o = holds c o && holds d o
holds (either c d) o = holds c o || holds d o

-- The assignments of the `SET` update expressions: `k = :v`, and `k = if_not_exists(k, :a) + :b`.
pub data Assignment : Type 0 where
  assign : String → AttributeValue → Assignment
  count_up : String → ℕ → ℕ → Assignment

abbrev pub number_or : ℕ → Option AttributeValue → ℕ
number_or d (some (n a)) = a
number_or d _ = d

abbrev pub assigned : Item → Assignment → Item
assigned item (assign k v) = insert k v item
assigned item (count_up k a b) = insert k (n (number_or a (lookup k item) + b)) item

abbrev pub assigned_all : Item → List Assignment → Item
assigned_all item [] = item
assigned_all item (a ∷ as') = assigned_all (assigned item a) as'

abbrev pub key_name : String
key_name = "token_digest"

-- An update of a missing item starts from the item that holds only its key.
abbrev pub item_or_new : String → Option Item → Item
item_or_new key none = (key_name, s key) ∷ []
item_or_new key (some item) = item

-- The operations at one table, keyed by the `token_digest`. `item` is what the table holds: no
-- operation of the program reads it, the laws speak of it.
pub record Client (W : Type 0) : Type 0 where
  pub item : W → String → Option Item
  pub put_item : String → Item → Condition → Action W ⊤
  pub update_item : String → List Assignment → Condition → Action W ⊤
  pub get_item : String → Action W (Option Item)

-- `_is_conditional_failure(error)`
unfoldable pub is_conditional_failure : Exception → Bool
is_conditional_failure conditional_check_failed = true
is_conditional_failure _ = false

module _ {W : Type 0} (client : Client W) where
  abbrev pub Unchanged : W → W → Type 0
  Unchanged w w' = (k : String) → client.item w' k ≡ client.item w k

  -- The write went through: its condition held, and it changed the item of its key only.
  abbrev pub Applied : String → Condition → (Option Item → Item) → W → W → Type 0
  Applied key c f w w' =
      (holds c (client.item w key) ≡ true)
      × (client.item w' key ≡ some (f (client.item w key)))
      × ((k : String) → k ≢ key → client.item w' k ≡ client.item w k)

  -- A write that answers is atomic. A refused condition did not hold. After any other error it is
  -- not known whether the write went through.
  abbrev pub Written : String → Condition → (Option Item → Item) → W → Result ⊤ × W → Type 0
  Written key c f w (ok _, w') = Applied key c f w w'
  Written key c f w (err e, w') =
      if is_conditional_failure e
      then (holds c (client.item w key) ≡ false) × Unchanged w w'
      else Unchanged w w'
      ⊎ Applied key c f w w'

  -- A write was applied, or it did not succeed and changed nothing.
  pub Written-cases :
      (key : String) (c : Condition) (f : Option Item → Item) (w : W) (p : Result ⊤ × W)
      → Written key c f w p
      → Applied key c f w p.1 ⊎ ((is_ok p.0 ≡ false) × Unchanged w p.1)
  Written-cases key c f w (ok _, w') h = inl h
  Written-cases key c f w (err e, w') h = elim (Bool-cases (is_conditional_failure e)) [
    | inl refused ↦ inr (refl, (rw refused at h).1)
    | inr lost ↦ elim (rw lost at h) [ inl same ↦ inr (refl, same) | inr applied ↦ inl applied ]
  ]

  abbrev pub Answered : String → W → Result (Option Item) × W → Type 0
  Answered key w (ok o, w') = (o ≡ client.item w key) × Unchanged w w'
  Answered key w (err e, w') = Unchanged w w'

  pub record ClientLaws : Type 0 where
    pub put :
        (k : String) (item : Item) (c : Condition) (w : W)
        → Written k c (λ _. item) w (client.put_item k item c w)
    pub update :
        (k : String) (us : List Assignment) (c : Condition) (w : W)
        → Written k c (λ o. assigned_all (item_or_new k o) us) w (client.update_item k us c w)
    pub get : (k : String) (w : W) → Answered k w (client.get_item k w)

-- The clock and the token source do not touch the table.
pub record IsQuiet {W : Type 0} (client : Client W) (f : W → W) : Type 0 where
  pub keeps : (w : W) (k : String) → client.item (f w) k ≡ client.item w k
