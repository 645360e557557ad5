-- ===== src/Json.antt =====
-- JSON values and their compact encoding: `json.dumps(value, ensure_ascii=False,
-- separators=(",", ":"))`, with and without `sort_keys=True`. Texts are lists of Unicode scalar
-- values, so that every text has a UTF-8 encoding; floats do not occur in the program's own data.
use Prim.Native.Char.{Char, code}
use Prim.Native.Nat.{Ordering}
use Prim.Native.String
use aws_remote_mcp.Prelude.{
  ℕ, ◌/◌, ◌%◌, String, Bool, true, false, eqb, ltb, Option, none, some, ◌==◌, ◌≡◌, refl,
  if◌then◌else◌,
}
use aws_remote_mcp.Prelude.Text.{◌++◌}
use aws_remote_mcp.Prelude.Int.{ℤ, pos, show}

mutual
  -- `JsonValue`
  pub data Json : Type 0 where
    null : Json
    bool : Bool → Json
    num : ℤ → Json
    text : String → Json
    arr : Items → Json
    obj : Fields → Json

  pub data Items : Type 0 where
    nil : Items
    cons : Json → Items → Items

  -- `dict[str, JsonValue]`, in insertion order
  pub data Fields : Type 0 where
    end : Fields
    field : String → Json → Fields → Fields

-- An integer that is not negative.
abbrev pub nat : ℕ → Json
nat n = num (pos n)

-- `value.get(key)` on an object's fields.
unfoldable pub get : String → Fields → Option Json
get k end = none
get k (field j v fs) = if k == j then some v else get k fs

-- `bool(mapping)` of a dict.
abbrev pub is_empty : Fields → Bool
is_empty end = true
is_empty (field k v fs) = false

hex_digit : ℕ → String
hex_digit n = String.slice "0123456789abcdef" n (Prim.Native.Nat.suc n)

escape_char : Char → String
unfolding hex_digit
escape_char c =
    let n = code c in
    if eqb n 34
    then "\\\""
    else if eqb n 92
    then "\\\\"
    else if eqb n 10
    then "\\n"
    else if eqb n 13
    then "\\r"
    else if eqb n 9
    then "\\t"
    else if eqb n 8
    then "\\b"
    else if eqb n 12
    then "\\f"
    else if ltb n 32
    then "\\u00" ++ hex_digit (n / 16) ++ hex_digit (n % 16)
    else String.◌∷◌ c String.[]

escape : String → String
unfolding escape_char
escape String.[] = ""
escape (String.◌∷◌ c s) = escape_char c ++ escape s

quote : String → String
unfolding escape
quote s = "\"" ++ escape s ++ "\""

unfoldable mutual
  unfolding quote show

  pub dumps : Json → String
  dumps null = "null"
  dumps (bool true) = "true"
  dumps (bool false) = "false"
  dumps (num n) = show n
  dumps (text s) = quote s
  dumps (arr xs) = "[" ++ dumps_items "" xs ++ "]"
  dumps (obj fs) = "{" ++ dumps_fields "" fs ++ "}"

  -- The first argument is the separator in front of the next item.
  pub dumps_items : String → Items → String
  dumps_items sep nil = ""
  dumps_items sep (cons x xs) = sep ++ dumps x ++ dumps_items "," xs

  pub dumps_fields : String → Fields → String
  dumps_fields sep end = ""
  dumps_fields sep (field k v fs) = sep ++ quote k ++ ":" ++ dumps v ++ dumps_fields "," fs

-- Insertion of a key in order, for `sort_keys=True`.
insert_sorted : String → Json → Fields → Fields
insert_sorted k v end = field k v end
insert_sorted k v (field j w fs) = elim (String.compare k j) [
  | Ordering.gt ↦ field j w (insert_sorted k v fs)
  | _ ↦ field k v (field j w fs)
]

unfoldable mutual
  unfolding insert_sorted

  pub sort_keys : Json → Json
  sort_keys null = null
  sort_keys (bool b) = bool b
  sort_keys (num n) = num n
  sort_keys (text s) = text s
  sort_keys (arr xs) = arr (sort_items xs)
  sort_keys (obj fs) = obj (sort_fields fs)

  pub sort_items : Items → Items
  sort_items nil = nil
  sort_items (cons x xs) = cons (sort_keys x) (sort_items xs)

  pub sort_fields : Fields → Fields
  sort_fields end = end
  sort_fields (field k v fs) = insert_sorted k (sort_keys v) (sort_fields fs)

dumps_example :
    dumps (sort_keys (obj (field "b" (nat 120) (field "a" (text "x\"y") end))))
    ≡ "{\"a\":\"x\\\"y\",\"b\":120}"
unfolding dumps sort_keys
dumps_example = refl
