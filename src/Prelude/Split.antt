-- ===== src/Prelude/Split.antt =====
-- Python's `split`, `join`, `strip` and prefix tests on texts, over tests of code points.
use Prim.Native.Nat.{ℕ, zero, suc}
use Prim.Native.Char.{Char, code}
use Prim.Native.String.{String, [] as end, ◌∷◌ as ◌∶◌}
use mathlib.Core.Bool.{Bool, true, false, ◌&&◌, ◌||◌}
use mathlib.Core.List.{List, [], ◌∷◌}
use mathlib.Core.Option.{Option, none, some}
use text.Mathlib.Text.{◌==◌}
use aws_remote_mcp.Prelude.Tests.{eqb, if◌then◌else◌}
use aws_remote_mcp.Prelude.Text.{◌++◌, is_empty}

-- The character with a code point.
abbrev pub is_char : ℕ → ℕ → Bool
is_char = eqb

abbrev pub cons_head : Char → List String → List String
cons_head c [] = (c ∶ end) ∷ []
cons_head c (t ∷ ts) = (c ∶ t) ∷ ts

-- `s.split(sep)` for a separator of one character, or at each character of a class.
unfoldable pub split_by : (ℕ → Bool) → String → List String
split_by p end = end ∷ []
split_by p (c ∶ s) = let rest = split_by p s in if p (code c) then end ∷ rest else cons_head c rest

-- `s.split(sep, n)`
unfoldable pub split_most : (ℕ → Bool) → ℕ → String → List String
split_most p n end = end ∷ []
split_most p zero (c ∶ s) = (c ∶ s) ∷ []
split_most p (suc n) (c ∶ s) = elim (p (code c)) [
  | true ↦ end ∷ split_most p n s
  | false ↦ cons_head c (split_most p (suc n) s)
]

abbrev drop_empty : List String → List String
drop_empty [] = []
drop_empty (t ∷ ts) = let rest = drop_empty ts in if is_empty t then rest else t ∷ rest

-- `s.split()`, for the class of whitespace
unfoldable pub words : (ℕ → Bool) → String → List String
unfolding split_by
words is_space s = drop_empty (split_by is_space s)

-- `sep.join(ts)`
unfoldable pub join : String → List String → String
join sep [] = end
join sep (t ∷ []) = t
join sep (t ∷ ts) = t ++ (sep ++ join sep ts)

-- `s.rsplit(sep, 1)[-1]`
abbrev last_or : String → List String → String
last_or d [] = d
last_or d (t ∷ ts) = last_or t ts

unfoldable pub after_last : (ℕ → Bool) → String → String
unfolding split_by
after_last p s = last_or end (split_by p s)

-- The character stands in the text.
unfoldable pub has_char : (ℕ → Bool) → String → Bool
has_char p end = false
has_char p (c ∶ s) = p (code c) || has_char p s

-- The text before the first character of a class, and the text after it.
unfoldable pub cut : (ℕ → Bool) → String → String × String
cut p end = (end, end)
cut p (c ∶ s) = let (a, b) = cut p s in if p (code c) then (end, s) else (c ∶ a, b)

-- `s.startswith(prefix)`
unfoldable pub starts_with : String → String → Bool
starts_with end s = true
starts_with (c ∶ p) end = false
starts_with (c ∶ p) (d ∶ s) = eqb (code c) (code d) && starts_with p s

-- `s.endswith(suffix)`
unfoldable pub ends_with : String → String → Bool
ends_with suffix end = suffix == end
ends_with suffix (c ∶ s) = (suffix == (c ∶ s)) || ends_with suffix s

abbrev lstrip : (ℕ → Bool) → String → String
lstrip p end = end
lstrip p (c ∶ s) = let rest = lstrip p s in if p (code c) then rest else c ∶ s

-- `s.rstrip(...)`, for a class of characters
unfoldable pub rstrip : (ℕ → Bool) → String → String
rstrip p end = end
rstrip p (c ∶ s) = let rest = rstrip p s in if p (code c) && is_empty rest then end else c ∶ rest

-- `s.strip()`
unfoldable pub strip : (ℕ → Bool) → String → String
unfolding rstrip
strip p s = lstrip p (rstrip p s)

-- `re.sub` of one character class by one character.
unfoldable pub replace : (ℕ → Bool) → Char → String → String
replace p d end = end
replace p d (c ∶ s) = (if p (code c) then d else c) ∶ replace p d s

-- The text behind a prefix.
unfoldable pub without_prefix : String → String → Option String
without_prefix end s = some s
without_prefix (c ∶ p) end = none
without_prefix (c ∶ p) (d ∶ s) =
    let rest = without_prefix p s in if eqb (code c) (code d) then rest else none
