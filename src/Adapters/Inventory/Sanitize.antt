-- ===== src/Adapters/Inventory/Sanitize.antt =====
-- adapters/aws_inventory.py: what is kept of an identifier and of a CloudFormation resource.
use aws_remote_mcp.Prelude.{
  ℕ, zero, suc, ltb, leb, eqb, String, Bool, true, false, not, ◌&&◌, ◌||◌, Option, none, some,
  if◌then◌else◌,
}
use aws_remote_mcp.Prelude.Text
use aws_remote_mcp.Prelude.Split.{starts_with, after_last, replace, has_char}
use aws_remote_mcp.Json.{Json, text, obj, get}
use aws_remote_mcp.Core.Models.{Stdlib, matches_digit, matches_word}
use aws_remote_mcp.Adapters.Values.{as_text}
use aws_remote_mcp.Adapters.Inventory.{max_name_chars}
use Prim.Native.Char.{code}
use Prim.Native.String.{[] as end_of_text, ◌∷◌ as ◌∶◌}

abbrev pub redacted : String
redacted = "<redacted-account>"

-- Twelve digits stand in front, and no word character follows them.
abbrev account_digits : Stdlib → ℕ → String → Bool
account_digits std zero end_of_text = true
account_digits std zero (c ∶ s) = not (matches_word std (code c))
account_digits std (suc n) end_of_text = false
account_digits std (suc n) (c ∶ s) = matches_digit std (code c) && account_digits std n s

-- `_ACCOUNT_ID.sub`: the first argument counts the characters of a match that are still to be passed
-- over, the second says whether the character before is a word character.
unfoldable pub redact_accounts : Stdlib → ℕ → Bool → String → String
redact_accounts std n before end_of_text = ""
redact_accounts std (suc n) before (c ∶ s) = redact_accounts std n true s
redact_accounts std zero before (c ∶ s) = elim (not before && account_digits std 12 (c ∶ s)) [
  | true ↦ Text.◌++◌ redacted (redact_accounts std 11 true s)
  | false ↦ c ∶ redact_accounts std zero (matches_word std (code c)) s
]

-- The characters that `_RESOURCE_ID_CHARS` does not match.
abbrev pub is_id_char : ℕ → Bool
is_id_char c = Text.is_alnum c || Text.is_one_of "._:/+=-" c

abbrev or_unknown : String → String
or_unknown t = if Text.is_empty t then "unknown" else t

abbrev last_of_arn : String → String
last_of_arn t = if starts_with "arn:" t then after_last (λ c. eqb c b':') t else t

-- `_sanitize_physical_id`
unfoldable pub sanitize_physical_id : Stdlib → Option Json → String
unfolding redact_accounts
sanitize_physical_id std (some (text t)) =
    if Text.is_empty t
    then "unknown"
    else or_unknown (
        Text.take max_name_chars (
          replace (λ c. not (is_id_char c)) "_"
            (redact_accounts std 0 false (last_of_arn (Text.take max_name_chars t)))))
sanitize_physical_id std _ = "unknown"

-- A character of one class, and then `low` to `high` of another.
abbrev pub matches_after : (ℕ → Bool) → (ℕ → Bool) → ℕ → ℕ → String → Bool
matches_after p q low high end_of_text = false
matches_after p q low high (c ∶ s) =
    p (code c) && Text.all q s && leb low (Text.length s) && leb (Text.length s) high

-- `_CFN_LOGICAL_ID`
unfoldable pub is_logical_id : String → Bool
is_logical_id = matches_after Text.is_alnum (λ c. Text.is_alnum c || Text.is_one_of "_-" c) 0 127

abbrev after_prefix : String → String
after_prefix (a ∶ w ∶ s ∶ x ∶ y ∶ t) = t
after_prefix t = ""

-- `_CFN_RESOURCE_TYPE`
unfoldable pub is_resource_type : String → Bool
is_resource_type t =
    starts_with "AWS::" t
    && matches_after Text.is_alnum (λ c. Text.is_alnum c || Text.is_one_of ":.-" c) 1 127
        (after_prefix t)

-- `_CFN_STATUS`
unfoldable pub is_status : String → Bool
is_status = matches_after Text.is_upper (λ c. Text.is_upper c || Text.is_digit c || eqb c b'_') 1 63

-- `ord(character) < 32 or ord(character) == 127`
abbrev pub is_control : ℕ → Bool
is_control c = ltb c 32 || eqb c 127

-- The dictionary that `_sanitize_cloudformation_resource` returns.
pub record StackResource : Type 0 where
  pub stack : String
  pub logical_id : String
  pub resource_type : String
  pub physical_id : String
  pub status : String

abbrev accepts : (String → Bool) → Option String → Bool
accepts p none = false
accepts p (some t) = p t

abbrev text_or : Option String → String
text_or none = ""
text_or (some t) = t

-- `_sanitize_cloudformation_resource`
unfoldable pub sanitize_cloudformation_resource : Stdlib → Json → String → Option StackResource
sanitize_cloudformation_resource std (obj item) stack =
    let logical_id = as_text (get "LogicalResourceId" item) in
    let resource_type = as_text (get "ResourceType" item) in
    let status = as_text (get "ResourceStatus" item) in
    let physical_id = get "PhysicalResourceId" item in
    if not (
      accepts is_logical_id logical_id
      && accepts is_resource_type resource_type
      && accepts is_status status)
    then none
    else if accepts (has_char is_control) (as_text physical_id)
    then none
    else some (record {
      stack = stack;
      logical_id = text_or logical_id;
      resource_type = text_or resource_type;
      physical_id = sanitize_physical_id std physical_id;
      status = text_or status;
    })
sanitize_cloudformation_resource std _ stack = none
