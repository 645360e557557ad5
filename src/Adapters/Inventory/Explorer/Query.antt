-- ===== src/Adapters/Inventory/Explorer/Query.antt =====
-- adapters/aws_inventory.py: `_validate_resource_explorer_query` and the patterns of its filters.
use aws_remote_mcp.Prelude.{
  ℕ, ◌+◌, ltb, leb, eqb, String, Bool, true, false, not, ◌&&◌, ◌||◌, Option, none, some, List, [],
  ◌∷◌, ◌==◌, if◌then◌else◌, contains,
}
use aws_remote_mcp.Prelude.Result.{⊤, Exception, Result, ok, err}
use aws_remote_mcp.Prelude.Result
use aws_remote_mcp.Prelude.Text
use aws_remote_mcp.Prelude.Split.{split_by, words, join, cut, has_char}
use aws_remote_mcp.Core.Models.{Stdlib, matches_digit, is_whitespace}
use aws_remote_mcp.Adapters.Inventory.{refuse}
use aws_remote_mcp.Adapters.Inventory.Sanitize.{matches_after}
use Prim.Native.Char.{code}
use Prim.Native.String.{[] as end_of_text, ◌∷◌ as ◌∶◌}

abbrev pub max_query_chars : ℕ
max_query_chars = 256

abbrev pub explorer_services : List String
explorer_services =
    "apigateway" ∷ "apigatewayv2" ∷ "cloudformation" ∷ "dynamodb" ∷ "ec2" ∷ "ecs" ∷ "eks"
    ∷ "elasticloadbalancing" ∷ "iam" ∷ "kms" ∷ "lambda" ∷ "logs" ∷ "rds" ∷ "route53" ∷ "s3"
    ∷ "secretsmanager" ∷ "sns" ∷ "sqs" ∷ "ssm" ∷ []

abbrev pub is_colon : ℕ → Bool
is_colon c = eqb c b':'

abbrev is_dash : ℕ → Bool
is_dash c = eqb c b'-'

abbrev pub lower_or_digit : ℕ → Bool
lower_or_digit c = Text.is_lower c || Text.is_digit c

-- A text of one class, of `low` to `high` characters.
abbrev pub of_class : (ℕ → Bool) → ℕ → ℕ → String → Bool
of_class p low high t = Text.all p t && leb low (Text.length t) && leb (Text.length t) high

-- One to four groups, and then one digit: what follows the first two letters of a region.
abbrev region_groups : Stdlib → ℕ → List String → Bool
region_groups std k [] = false
region_groups std k (d ∷ []) = of_class (matches_digit std) 1 1 d && leb 1 k && leb k 4
region_groups std k (g ∷ gs) =
    Text.all lower_or_digit g && not (Text.is_empty g) && region_groups std (k + 1) gs

abbrev region_parts : Stdlib → List String → Bool
region_parts std [] = false
region_parts std (first ∷ groups) = of_class Text.is_lower 2 2 first && region_groups std 0 groups

-- `_RESOURCE_EXPLORER_REGION`: a group holds no dash, so the dashes cut a region into its groups.
unfoldable pub is_region : Stdlib → String → Bool
is_region std t = region_parts std (split_by is_dash t)

-- `_RESOURCE_EXPLORER_SERVICE`
unfoldable pub is_service : String → Bool
is_service = of_class (λ c. lower_or_digit c || is_dash c) 1 64

-- `_RESOURCE_EXPLORER_RESOURCE_TYPE`, with its first group
unfoldable pub resource_type_service : String → Option String
resource_type_service t =
    let (service, kind) = cut is_colon t in
    if has_char is_colon t
      && Text.all (λ c. lower_or_digit c || is_dash c) service
      && not (Text.is_empty service)
      && matches_after lower_or_digit (λ c. lower_or_digit c || is_dash c) 0 (Text.length kind) kind
    then some service
    else none

-- `_RESOURCE_EXPLORER_KEYWORD`
unfoldable pub is_keyword : String → Bool
is_keyword t =
    matches_after Text.is_alnum (λ c. Text.is_alnum c || Text.is_one_of "._/-" c) 0 (Text.length t)
      t

-- `token.lower()` as far as the comparison with two words of ASCII letters depends on it: no other
-- character has one of those letters as its lower case.
abbrev same_letter : ℕ → ℕ → Bool
same_letter c d = eqb c d || (Text.is_upper c && eqb (c + 32) d)

abbrev pub lowers_to : String → String → Bool
lowers_to end_of_text end_of_text = true
lowers_to (c ∶ s) (d ∶ t) = same_letter (code c) (code d) && lowers_to s t
lowers_to _ _ = false

unfoldable pub is_operator : String → Bool
is_operator t = lowers_to t "not" || lowers_to t "or"

abbrev known_service : Option String → Bool
known_service none = false
known_service (some t) = contains t explorer_services

-- The test of a filter's value.
unfoldable pub valid_filter : Stdlib → String → String → Bool
valid_filter std name value =
    if name == "service"
    then contains value explorer_services
    else if name == "region"
    then (value == "global") || is_region std value
    else if name == "resourcetype"
    then known_service (resource_type_service value)
    else false

abbrev pub invalid_query : String → Exception
invalid_query message = refuse "invalid_resource_explorer_query" message

abbrev pub unsupported_syntax : Exception
unsupported_syntax = invalid_query "Resource Explorer query contains unsupported syntax."

-- One token: the filters seen after it, or the error.
unfoldable pub check_token : Stdlib → String → List String → Result (List String)
check_token std token seen =
    let (name, value) = cut is_colon token in
    if is_operator token
    then err unsupported_syntax
    else if not (has_char is_colon token)
    then (if is_keyword token then ok seen else err unsupported_syntax)
    else if contains name seen || Text.is_empty value
    then err unsupported_syntax
    else if not (valid_filter std name value)
    then err (invalid_query "Resource Explorer query contains an unsupported filter or value.")
    else ok (name ∷ seen)

unfoldable pub check_tokens : Stdlib → List String → List String → Result ⊤
check_tokens std [] seen = ok tt
check_tokens std (token ∷ tokens) seen =
    Result.◌>>=◌ (check_token std token seen) (check_tokens std tokens)

abbrev is_blank : ℕ → Bool
is_blank c = eqb c 32

abbrev pub checked_query : String → Result ⊤ → Result String
checked_query t (ok _) = ok t
checked_query t (err e) = err e

abbrev pub normalized : Stdlib → String → Result String
normalized std t =
    if t == "*"
    then ok t
    else if Text.is_empty t
    then err (invalid_query "Resource Explorer query is invalid.")
    else checked_query t (check_tokens std (split_by is_blank t) [])

-- `_validate_resource_explorer_query`
unfoldable pub validate_resource_explorer_query : Stdlib → String → Result String
unfolding check_tokens
validate_resource_explorer_query std query =
    if Text.is_empty query || ltb max_query_chars (Text.length query)
    then err (invalid_query "Resource Explorer query must be non-empty and at most 256 characters.")
    else normalized std (join " " (words (is_whitespace std) query))
