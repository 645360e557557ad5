-- ===== src/Core/Models.antt =====
-- core/models.py: the normalised application models, and what the program uses of Python's own
-- library where that is not a computation of the program.
use Prim.Native.Char.{nul}
use aws_remote_mcp.Prelude.{
  eqb, ◌||◌, ◌&&◌, ltb, ℕ, ◌+◌, String, Bool, Option, List, leb, if◌then◌else◌,
}
use aws_remote_mcp.Prelude.Result.{Result, write_limit_exceeded}
use aws_remote_mcp.Prelude.Text
use aws_remote_mcp.Prelude.Text.{◌++◌}
use aws_remote_mcp.Json.{Fields}

-- Python's library as a parameter: `sha256(text.encode()).hexdigest()`, `datetime.isoformat` of an
-- instant, `repr` of a text, and the characters beyond ASCII that `\d` and `\w` of `re` match and that
-- `str.split` and `str.strip` take for whitespace.
pub record Stdlib : Type 0 where
  pub sha256 : String → String
  pub isoformat : ℕ → String
  pub repr : String → String
  pub is_decimal : ℕ → Bool
  pub is_word : ℕ → Bool
  pub is_space : ℕ → Bool

pub record CallerContext : Type 0 where
  pub issuer : String
  pub subject : String
  pub scopes : List String

unfoldable pub fingerprint : Stdlib → CallerContext → String
fingerprint std caller = Text.take 24 (std.sha256 (caller.issuer ++ String.◌∷◌ nul caller.subject))

pub record ToolIssue : Type 0 where
  pub code : String
  pub message : String
  pub retryable : Bool

pub record OperationCounters : Type 0 where
  pub sdk_requests : ℕ
  pub resources : ℕ
  pub external_writes_attempted : ℕ
  pub external_writes_succeeded : ℕ

-- `OperationCounters()`
abbrev pub no_counters : OperationCounters
no_counters = record {
  sdk_requests = 0;
  resources = 0;
  external_writes_attempted = 0;
  external_writes_succeeded = 0;
}

unfoldable pub record_external_write_attempt : OperationCounters → Result OperationCounters
record_external_write_attempt c =
    if leb 1 c.external_writes_attempted
    then Result.err write_limit_exceeded
    else Result.ok (record c { external_writes_attempted = c.external_writes_attempted + 1 })

pub record ConfirmationMetadata : Type 0 where
  pub token : String
  pub action : String
  pub payload_digest : String
  pub expires_at : String

pub data ToolStatus : Type 0 where
  ok partial error confirmation_required : ToolStatus

-- The fields of the `data` object are called `body` here.
pub record ToolResult : Type 0 where
  pub status : ToolStatus
  pub body : Fields
  pub warnings : List ToolIssue
  pub errors : List ToolIssue
  pub counters : OperationCounters
  pub confirmation : Option ConfirmationMetadata

-- `\d` in a pattern for texts.
unfoldable pub matches_digit : Stdlib → ℕ → Bool
matches_digit std c = if ltb c 128 then Text.is_digit c else std.is_decimal c

-- `\w` in a pattern for texts.
unfoldable pub matches_word : Stdlib → ℕ → Bool
matches_word std c = if ltb c 128 then Text.is_alnum c || eqb c b'_' else std.is_word c

-- `str.isspace` of a character: the whitespace of `split` and `strip`.
unfoldable pub is_whitespace : Stdlib → ℕ → Bool
is_whitespace std c =
    if ltb c 128
    then eqb c 32 || (leb 9 c && leb c 13) || (leb 28 c && leb c 31)
    else std.is_space c
