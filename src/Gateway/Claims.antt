-- ===== src/Gateway/Claims.antt =====
-- lambda_handler.py: what `_gateway_caller` has found out about the claims of an event that it accepts.
use aws_remote_mcp.Prelude.{
  String, Bool, true, false, not, ◌&&◌, Option, none, some, ◌≡◌, refl, ap, subst, arith,
  if◌then◌else◌,
}
use aws_remote_mcp.Prelude.Result.{Exception, ok, err}
use aws_remote_mcp.Prelude.Text
use aws_remote_mcp.Prelude.Split.{words}
use aws_remote_mcp.Json.{Json, obj, Fields, get}
use aws_remote_mcp.Prelude.Inversion.{bind_inv, ok_inv}
use aws_remote_mcp.Core.Models.{Stdlib, CallerContext, is_whitespace}
use aws_remote_mcp.Adapters.Values.{as_text}
use aws_remote_mcp.Gateway.{
  AuthorizationConfig, request_context, context_of, is_text, gateway_caller, caller_of, with_claims,
  claims_of, has_all, is_access, text_or_empty,
}

-- The claims of the event's request context meet the contract, and name the caller.
pub record IsAccepted (std : Stdlib) (a : AuthorizationConfig) (event : Fields)
    (caller : CallerContext) : Type 0 where
  pub context : Fields
  pub in_event : get "requestContext" event ≡ some (obj context)
  pub claims : Fields
  pub in_context : claims_of context ≡ some (obj claims)
  pub issuer : (is_text a.issuer_url (get "iss" claims) ≡ true) × (caller.issuer ≡ a.issuer_url)
  pub audience : is_text a.resource_server_url (get "aud" claims) ≡ true
  pub access : is_access (get "token_use" claims) ≡ true
  pub subject :
      (as_text (get "sub" claims) ≡ some caller.subject) × (Text.is_empty caller.subject ≡ false)
  pub scopes : has_all a.required_scopes caller.scopes ≡ true
  pub granted : String
  pub scope : text_or_empty (get "scope" claims) ≡ some granted
  pub held : caller.scopes ≡ words (is_whitespace std) granted

context_of_inv :
    (v : Option Json) (context : Fields) → context_of v ≡ ok context → v ≡ some (obj context)
context_of_inv (some (obj fs)) context e = ap (λ x. some (obj x)) (ok_inv fs context e)
context_of_inv none context e = grind (arith, e)
context_of_inv (some _) context e = grind (arith, e)

with_claims_inv :
    (std : Stdlib) (a : AuthorizationConfig) (v : Option Json) (caller : CallerContext)
    → with_claims std a v ≡ ok caller
    → (claims : Fields) × (v ≡ some (obj claims))
      × (caller_of std a claims (as_text (get "sub" claims)) (text_or_empty (get "scope" claims))
          ≡ ok caller)
with_claims_inv std a (some (obj claims)) caller e = (claims, refl, e)
with_claims_inv std a none caller e = grind (arith, e)
with_claims_inv std a (some _) caller e = grind (arith, e)

if_inv :
    {A : Type 0} (t : Bool) (x : A) (e : Exception) (y : A)
    → (if t then ok x else err e) ≡ ok y
    → (t ≡ true) × (x ≡ y)
if_inv true x e y h = (refl, ok_inv x y h)
if_inv false x e y h = grind (arith, h)

caller_of-IsAccepted :
    (std : Stdlib) (a : AuthorizationConfig) (event context claims : Fields)
    (sub scope : Option String) (caller : CallerContext)
    → get "requestContext" event ≡ some (obj context)
    → claims_of context ≡ some (obj claims)
    → as_text (get "sub" claims) ≡ sub
    → text_or_empty (get "scope" claims) ≡ scope
    → caller_of std a claims sub scope ≡ ok caller
    → IsAccepted std a event caller
caller_of-IsAccepted std a event context claims (some sub) (some scope) caller inside held same_sub
      same_scope e =
    let h =
      if_inv
        (is_text a.issuer_url (get "iss" claims)
          && is_text a.resource_server_url (get "aud" claims)
          && is_access (get "token_use" claims)
          && not (Text.is_empty sub)
          && has_all a.required_scopes (words (is_whitespace std) scope))
        (record { issuer = a.issuer_url; subject = sub; scopes = words (is_whitespace std) scope })
        _ caller e in
    subst (IsAccepted std a event) h.1 (record {
      context = context;
      in_event = inside;
      claims = claims;
      in_context = held;
      issuer = (ground (arith, h.0), refl);
      audience = ground (arith, h.0);
      access = ground (arith, h.0);
      subject = (same_sub, ground (arith, h.0));
      scopes = ground (arith, h.0);
      granted = scope;
      scope = same_scope;
      held = refl;
    })
caller_of-IsAccepted std a event context claims none scope caller inside held same_sub same_scope
      e =
    grind (arith, e)
caller_of-IsAccepted std a event context claims (some sub) none caller inside held same_sub
      same_scope e =
    grind (arith, e)

pub gateway_caller-IsAccepted :
    (std : Stdlib) (a : AuthorizationConfig) (event : Fields) (caller : CallerContext)
    → gateway_caller std a event ≡ ok caller
    → IsAccepted std a event caller
unfolding gateway_caller
gateway_caller-IsAccepted std a event caller e =
    let (context, c, e1) = bind_inv (request_context event) _ caller e in
    let (claims, d, e2) = with_claims_inv std a (claims_of context) caller e1 in
    caller_of-IsAccepted std a event context claims (as_text (get "sub" claims))
      (text_or_empty (get "scope" claims)) caller
      (context_of_inv (get "requestContext" event) context c) d refl refl e2
