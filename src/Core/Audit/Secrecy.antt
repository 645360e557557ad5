-- ===== src/Core/Audit/Secrecy.antt =====
-- What an audit record (core/audit.py) can show of a result.
use aws_remote_mcp.Prelude.{
  ◌≤◌, String, Bool, true, not, List, [], ◌∷◌, map, ◌≡◌, refl, ◌↔◌, inl, inr, arith, Bool-cases,
  if◌then◌else◌, length, take, All, contains, length-take-le, length-map,
}
use aws_remote_mcp.Prelude.Result.{Exception, ok, err, is_ok}
use aws_remote_mcp.Prelude.Text
use aws_remote_mcp.Core.Models.{Stdlib, CallerContext, ToolResult}
use aws_remote_mcp.Core.Audit.{
  safe_issue_code, safe_issue_codes, is_safe_issue_code, is_safe_context, audited_tools,
  max_issue_codes, codes, build_tool_audit_record,
}

-- Two results that agree in their status, in the codes of their issues and in their counters give
-- the same record: the body, the messages of the issues and the confirmation do not show in it.
pub audit_hides_body :
    (std : Stdlib) (tool : String) (r r' : ToolResult) (caller : CallerContext)
    (environment request_id : String)
    → r.status ≡ r'.status
    → codes r.warnings ≡ codes r'.warnings
    → codes r.errors ≡ codes r'.errors
    → r.counters ≡ r'.counters
    → build_tool_audit_record std tool r caller environment request_id
      ≡ build_tool_audit_record std tool r' caller environment request_id
unfolding build_tool_audit_record
audit_hides_body std tool r r' caller environment request_id hs hw he hc = rw (hs, hw, he, hc) refl

safe_code : (code : String) → is_safe_issue_code (safe_issue_code code) ≡ true
unfolding Text.all Text.length
safe_code code = elim (Bool-cases (is_safe_issue_code code)) [ inl e ↦ rw e e | inr e ↦ rw e refl ]

All-safe :
    (issues : List String)
    → All (λ code. is_safe_issue_code code ≡ true) (map safe_issue_code issues)
All-safe [] = tt
All-safe (code ∷ issues) = (safe_code code, All-safe issues)

-- Whatever codes the issues of a result have, at most eight are recorded, and each of those is a
-- text of one to 64 lower-case letters, digits and underscores.
pub recorded_codes-IsSafe :
    (issues : List String)
    → (length (safe_issue_codes issues) ≤ max_issue_codes)
      × All (λ code. is_safe_issue_code code ≡ true) (safe_issue_codes issues)
unfolding safe_issue_codes
recorded_codes-IsSafe issues = (
  rw (length-map safe_issue_code (take max_issue_codes issues))
      (length-take-le max_issue_codes issues),
  All-safe (take max_issue_codes issues),
)

three_guards :
    {A : Type 0} (a b c : Bool) (x : A) (e e' e'' : Exception)
    → (is_ok (if not a then err e else if not b then err e' else if not c then err e'' else ok x)
        ≡ true)
      ↔ ((a ≡ true) × (b ≡ true) × (c ≡ true))
three_guards a b c x e e' e'' = ground arith

-- A record is built exactly for an audited tool with a safe environment and request identifier.
pub build_tool_audit_record-ok_iff :
    (std : Stdlib) (tool : String) (r : ToolResult) (caller : CallerContext)
    (environment request_id : String)
    → (is_ok (build_tool_audit_record std tool r caller environment request_id) ≡ true) ↔ (
        (contains tool audited_tools ≡ true)
        × (is_safe_context environment ≡ true)
        × (is_safe_context request_id ≡ true))
unfolding build_tool_audit_record
build_tool_audit_record-ok_iff std tool r caller environment request_id =
    three_guards (contains tool audited_tools) (is_safe_context environment)
      (is_safe_context request_id) _ _ _ _
