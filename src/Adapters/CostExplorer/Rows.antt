-- ===== src/Adapters/CostExplorer/Rows.antt =====
-- adapters/aws_cost_explorer.py: the rows of a response, sanitised and bounded.
use aws_remote_mcp.Prelude.{
  ℕ, ◌+◌, ◌-◌, ltb, leb, eqb, String, Bool, true, false, not, ◌&&◌, ◌||◌, Option, none, some,
  is_none, List, [], ◌∷◌, ◌++◌, ◌==◌, if◌then◌else◌, length, take,
}
use aws_remote_mcp.Prelude.Text
use aws_remote_mcp.Json
use aws_remote_mcp.Json.{Json, text, arr, obj, Fields, end, field, get}
use Prim.Native.Char.{code}
use Prim.Native.String.{[] as end_of_text, ◌∷◌ as ◌∶◌}
use aws_remote_mcp.Core.Models.{Stdlib, matches_digit}
use aws_remote_mcp.Core.Calendar.{Date, matches_iso, from_iso_format, iso_format}
use aws_remote_mcp.Core.CostQuery.{cost_explorer_metric}
use aws_remote_mcp.Adapters.Values.{as_list, elements, array}
use aws_remote_mcp.Adapters.CostExplorer.{
  max_cost_groups, max_dimension_value_chars, max_amount_chars,
}
use aws_remote_mcp.Prelude.Split.{replace}

abbrev canonical : String → Option Date → Option String
canonical t none = none
canonical t (some d) = if iso_format d == t then some t else none

abbrev date_in : Stdlib → Option Json → Option String
date_in std (some (text t)) =
    if matches_iso (matches_digit std) t then canonical t (from_iso_format t) else none
date_in std _ = none

-- `_safe_date`
unfoldable pub safe_date : Stdlib → Option Json → String → Option String
safe_date std (some (obj period)) key = date_in std (get key period)
safe_date std _ key = none

abbrev is_usd : Option Json → Bool
is_usd (some (text t)) = t == "USD"
is_usd _ = false

abbrev within : Option String → Option String
within none = none
within (some t) = if leb (Text.length t) max_amount_chars then some t else none

abbrev amount_of : (String → Option String) → Option Json → Option Json → Option String
amount_of plain_decimal (some (text amount)) unit =
    if ltb max_amount_chars (Text.length amount) || not (is_usd unit)
    then none
    else within (plain_decimal amount)
amount_of plain_decimal _ unit = none

-- `_safe_amount`
unfoldable pub safe_amount : (String → Option String) → Option Json → Option String
safe_amount plain_decimal (some (obj metric)) =
    amount_of plain_decimal (get "Amount" metric) (get "Unit" metric)
safe_amount plain_decimal _ = none

-- A run of exactly twelve digits, of which the first argument counts those before.
unfoldable pub has_account : Stdlib → ℕ → String → Bool
has_account std n end_of_text = eqb n 12
has_account std n (c ∶ s) = elim (matches_digit std (code c)) [
  | true ↦ has_account std (n + 1) s
  | false ↦ eqb n 12 || has_account std 0 s
]

-- The characters that `_SAFE_DIMENSION_VALUE` does not match.
abbrev is_safe : ℕ → Bool
is_safe c = Text.is_alnum c || Text.is_one_of " .:/_-" c

-- The key as it is returned, if it may be.
unfoldable pub safe_key : Stdlib → Option (List Json) → Option String
unfolding has_account
safe_key std (some (text t ∷ [])) =
    if has_account std 0 t
    then none
    else (let key = Text.take max_dimension_value_chars (replace (λ c. not (is_safe c)) "_" t) in
        if Text.is_empty key then none else some key)
safe_key std _ = none

abbrev metric_of : Option Json → Option Json
metric_of (some (obj metrics)) = get cost_explorer_metric metrics
metric_of _ = none

abbrev group_row : Option String → Option String → Option Json
group_row (some key) (some amount) =
    some
      (obj (field "key" (text key) (field "amount" (text amount) (field "unit" (text "USD") end))))
group_row _ _ = none

-- `_sanitize_group`
unfoldable pub sanitize_group : Stdlib → (String → Option String) → Json → Option Json
unfolding safe_key safe_amount
sanitize_group std plain_decimal (obj group) =
    group_row (safe_key std (as_list (get "Keys" group)))
      (safe_amount plain_decimal (metric_of (get "Metrics" group)))
sanitize_group std plain_decimal _ = none

-- The variables of the loop over the periods.
pub record Rows : Type 0 where
  pub sanitized_periods : List Json
  pub group_count : ℕ
  pub malformed_count : ℕ
  pub clipped : Bool

abbrev pub one_if : Bool → ℕ
one_if true = 1
one_if false = 0

-- The total of a period, and how many rows are malformed for it.
abbrev total_of : (String → Option String) → Option Json → Option String × ℕ
total_of plain_decimal (some (obj totals)) =
    if Json.is_empty totals
    then (none, 0)
    else (let total = safe_amount plain_decimal (get cost_explorer_metric totals) in
        (total, one_if (is_none total)))
total_of plain_decimal _ = (none, 1)

-- The groups of a period, and how many rows are malformed for them.
abbrev pub raw_groups_of : Option Json → List Json × ℕ
raw_groups_of none = ([], 0)
raw_groups_of (some (arr groups)) = (elements groups, 0)
raw_groups_of (some _) = ([], 1)

abbrev pub with_group : Option Json → List Json × ℕ → List Json × ℕ
with_group none (groups, malformed) = (groups, malformed + 1)
with_group (some g) (groups, malformed) = (g ∷ groups, malformed)

-- The loop over the groups: those kept, and how many are malformed.
unfoldable pub sanitize_groups : Stdlib → (String → Option String) → List Json → List Json × ℕ
unfolding sanitize_group
sanitize_groups std plain_decimal [] = ([], 0)
sanitize_groups std plain_decimal (g ∷ gs) =
    with_group (sanitize_group std plain_decimal g) (sanitize_groups std plain_decimal gs)

abbrev text_or_null : Option String → Json
text_or_null none = Json.null
text_or_null (some t) = text t

-- The rest of a round for a period with two dates.
unfoldable pub add_period :
    Stdlib → (String → Option String) → String → String → Fields → Rows → Rows
unfolding safe_amount sanitize_groups
add_period std plain_decimal start stop period s =
    let (total, bad_total) = total_of plain_decimal (get "Total" period) in
    let (raw_groups, bad_list) = raw_groups_of (get "Groups" period) in
    let remaining = max_cost_groups - s.group_count in
    let (groups, bad_groups) = sanitize_groups std plain_decimal (take remaining raw_groups) in
    record {
      sanitized_periods =
          s.sanitized_periods
          ++ (obj (
                field "start" (text start) (
                  field "end" (text stop) (
                    field "total_usd" (text_or_null total)
                      (field "groups" (arr (array groups)) end))))
              ∷ []);
      group_count = s.group_count + length groups;
      malformed_count = s.malformed_count + bad_total + bad_list + bad_groups;
      clipped = s.clipped || ltb remaining (length raw_groups);
    }

abbrev dates : Fields → Option String → Option String → Option (String × String × Fields)
dates period (some start) (some stop) = some (start, stop, period)
dates period _ _ = none

abbrev pub dated : Stdlib → Json → Option (String × String × Fields)
dated std (obj period) =
    dates period (safe_date std (get "TimePeriod" period) "Start")
      (safe_date std (get "TimePeriod" period) "End")
dated std _ = none

abbrev pub is_full : ℕ → Rows → Bool
is_full raw_count s =
    leb max_cost_groups s.group_count && ltb (length s.sanitized_periods) raw_count

-- The loop over the periods; the first argument after the two functions is `len(raw_periods)`.
unfoldable pub read_periods : Stdlib → (String → Option String) → ℕ → List Json → Rows → Rows
unfolding add_period
read_periods std plain_decimal raw_count [] s = s
read_periods std plain_decimal raw_count (p ∷ ps) s = elim (dated std p) [
  | none ↦
      read_periods std plain_decimal raw_count ps
        (record s { malformed_count = s.malformed_count + 1 })
  | some (start, stop, period) ↦
      elim (is_full raw_count (add_period std plain_decimal start stop period s)) [
        | true ↦ record (add_period std plain_decimal start stop period s) { clipped = true }
        | false ↦
            read_periods std plain_decimal raw_count ps
              (add_period std plain_decimal start stop period s)
      ]
]
