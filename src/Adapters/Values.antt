-- ===== src/Adapters/Values.antt =====
-- The values of a response as the adapters test them with `isinstance`. A value of another kind, which
-- no field that is read has in a documented response, counts as `null`.
use aws_remote_mcp.Prelude.{zero, String, Bool, true, false, not, Option, none, some, List, [], ◌∷◌}
use aws_remote_mcp.Prelude.Text
use aws_remote_mcp.Prelude.Int.{ℤ, pos}
use aws_remote_mcp.Json
use aws_remote_mcp.Json.{Json, Items, nil, cons, null, num, text, arr, obj, Fields}

-- `isinstance(value, str)`; a missing field reads as `None`.
abbrev pub as_text : Option Json → Option String
as_text (some (text t)) = some t
as_text _ = none

-- The elements of a list.
abbrev pub elements : Items → List Json
elements nil = []
elements (cons v vs) = v ∷ elements vs

-- The list of given values.
abbrev pub array : List Json → Items
array [] = nil
array (v ∷ vs) = cons v (array vs)

-- `isinstance(value, list)`
abbrev pub as_list : Option Json → Option (List Json)
as_list (some (arr vs)) = some (elements vs)
as_list _ = none

-- `isinstance(value, Mapping)`, `isinstance(value, dict)`
abbrev pub as_mapping : Option Json → Option Fields
as_mapping (some (obj fs)) = some fs
as_mapping _ = none

abbrev pub is_zero : ℤ → Bool
is_zero (pos zero) = true
is_zero _ = false

abbrev is_nil : Items → Bool
is_nil nil = true
is_nil (cons v vs) = false

-- `bool(value)`
abbrev pub truthy : Option Json → Bool
truthy none = false
truthy (some null) = false
truthy (some (Json.bool b)) = b
truthy (some (num n)) = not (is_zero n)
truthy (some (text t)) = not (Text.is_empty t)
truthy (some (arr vs)) = not (is_nil vs)
truthy (some (obj fs)) = not (Json.is_empty fs)
