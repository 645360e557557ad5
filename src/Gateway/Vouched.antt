-- ===== src/Gateway/Vouched.antt =====
-- lambda_handler.py: the contract that the environment configures, and an event that meets it.
use aws_remote_mcp.Prelude.{
  String, true, false, Option, none, some, ◌≡◌, refl, sym, ap, subst, ◌∙◌, ◌⊎◌, all, contains,
  eq_true→eq, inl, inr, arith, Bool-cases,
}
use aws_remote_mcp.Prelude.Result.{ok}
use aws_remote_mcp.Prelude.Text
use aws_remote_mcp.Prelude.Split.{strip, words}
use aws_remote_mcp.Json.{Json, text, obj, Fields, get}
use aws_remote_mcp.Prelude.Inversion.{bind_inv, ok_inv}
use aws_remote_mcp.Core.Models.{Stdlib, CallerContext, is_whitespace}
use aws_remote_mcp.Adapters.Values.{as_text}
use aws_remote_mcp.Gateway.{
  get_or, AuthorizationConfig, authorization_config, inner, Environment, required_environment,
  is_text, authorization_of, has_all, is_access, text_or_empty,
}
use aws_remote_mcp.Gateway.Claims.{IsAccepted}

-- A setting of the environment without white space around it; empty if it is missing.
abbrev pub configured : Stdlib → Environment → String → String
configured std environ name = strip (is_whitespace std) (get_or "" (environ name))

-- The caller is the one that the gateway's authorizer vouches for, under the contract that the
-- environment configures.
pub record IsVouched (std : Stdlib) (environ : Environment) (event : Fields)
    (caller : CallerContext) : Type 0 where
  pub context : Fields
  pub authorizer : Fields
  pub jwt : Fields
  pub claims : Fields
  pub granted : String
  pub in_event : get "requestContext" event ≡ some (obj context)
  pub in_context : get "authorizer" context ≡ some (obj authorizer)
  pub in_authorizer : get "jwt" authorizer ≡ some (obj jwt)
  pub in_jwt : get "claims" jwt ≡ some (obj claims)
  pub issuer_set : Text.is_empty (configured std environ "OAUTH_ISSUER") ≡ false
  pub resource_set : Text.is_empty (configured std environ "MCP_RESOURCE_URL") ≡ false
  pub issuer : get "iss" claims ≡ some (text (configured std environ "OAUTH_ISSUER"))
  pub audience : get "aud" claims ≡ some (text (configured std environ "MCP_RESOURCE_URL"))
  pub access :
      (get "token_use" claims ≡ none)
      ⊎ (get "token_use" claims ≡ some Json.null)
      ⊎ (get "token_use" claims ≡ some (text "access"))
  pub subject : get "sub" claims ≡ some (text caller.subject)
  pub named : Text.is_empty caller.subject ≡ false
  pub scope :
      (get "scope" claims ≡ some (text granted)) ⊎ ((get "scope" claims ≡ none) × (granted ≡ ""))
  pub caller_issuer : caller.issuer ≡ configured std environ "OAUTH_ISSUER"
  pub caller_scopes : caller.scopes ≡ words (is_whitespace std) granted
  pub required :
      all
        (λ s. contains s caller.scopes)
        (words (is_whitespace std) (get_or "" (environ "MCP_REQUIRED_SCOPE")))
      ≡ true

required_environment_inv :
    (std : Stdlib) (environ : Environment) (name value : String)
    → required_environment std environ name ≡ ok value
    → (value ≡ configured std environ name) × (Text.is_empty (configured std environ name) ≡ false)
unfolding required_environment
required_environment_inv std environ name value e =
    elim (Bool-cases (Text.is_empty (configured std environ name))) [
      | inl h ↦ grind (arith, e, h)
      | inr h ↦ (grind (arith, e, h), h)
    ]

-- The contract is the one that the environment configures.
pub record IsConfigured (std : Stdlib) (environ : Environment) (a : AuthorizationConfig)
    : Type 0 where
  pub issuer_set : Text.is_empty (configured std environ "OAUTH_ISSUER") ≡ false
  pub resource_set : Text.is_empty (configured std environ "MCP_RESOURCE_URL") ≡ false
  pub issuer_url : a.issuer_url ≡ configured std environ "OAUTH_ISSUER"
  pub resource_server_url : a.resource_server_url ≡ configured std environ "MCP_RESOURCE_URL"
  pub required_scopes :
      a.required_scopes ≡ words (is_whitespace std) (get_or "" (environ "MCP_REQUIRED_SCOPE"))

pub authorization_of-IsConfigured :
    (std : Stdlib) (environ : Environment) (a : AuthorizationConfig)
    → authorization_of std environ ≡ ok a
    → IsConfigured std environ a
unfolding authorization_of authorization_config
authorization_of-IsConfigured std environ a e =
    let (issuer, c1, e1) = bind_inv (required_environment std environ "OAUTH_ISSUER") _ a e in
    let (resource, c2, e2) =
      bind_inv (required_environment std environ "MCP_RESOURCE_URL") _ a e1 in
    let (server, c3, e3) =
      bind_inv (required_environment std environ "OAUTH_AUTHORIZATION_SERVER") _ a e2 in
    let same = ok_inv _ a e3 in
    record {
      issuer_url =
          sym (ap (λ x. x.issuer_url) same)
          ∙ (required_environment_inv std environ "OAUTH_ISSUER" issuer c1).0;
      resource_server_url =
          sym (ap (λ x. x.resource_server_url) same)
          ∙ (required_environment_inv std environ "MCP_RESOURCE_URL" resource c2).0;
      issuer_set = (required_environment_inv std environ "OAUTH_ISSUER" issuer c1).1;
      resource_set = (required_environment_inv std environ "MCP_RESOURCE_URL" resource c2).1;
      required_scopes = sym (ap (λ x. x.required_scopes) same);
    }

is_text_inv : (t : String) (v : Option Json) → is_text t v ≡ true → v ≡ some (text t)
is_text_inv t (some (text s)) h = ap (λ x. some (text x)) (eq_true→eq s t h)
is_text_inv t none h = grind (arith, h)
is_text_inv t (some _) h = grind (arith, h)

is_access_inv :
    (v : Option Json)
    → is_access v ≡ true
    → (v ≡ none) ⊎ (v ≡ some Json.null) ⊎ (v ≡ some (text "access"))
is_access_inv none h = inl refl
is_access_inv (some Json.null) h = inr (inl refl)
is_access_inv (some v) h = inr (inr (is_text_inv "access" (some v) h))

as_text_inv : (v : Option Json) (t : String) → as_text v ≡ some t → v ≡ some (text t)
as_text_inv (some (text s)) t e = grind (arith, e)
as_text_inv none t e = grind (arith, e)
as_text_inv (some _) t e = grind (arith, e)

text_or_empty_inv :
    (v : Option Json) (t : String)
    → text_or_empty v ≡ some t
    → (v ≡ some (text t)) ⊎ ((v ≡ none) × (t ≡ ""))
text_or_empty_inv none t e = inr (refl, grind (arith, e))
text_or_empty_inv (some v) t e = inl (as_text_inv (some v) t e)

inner_inv :
    (key : String) (v : Option Json) (x : Json)
    → inner key v ≡ some x
    → (fs : Fields) × (v ≡ some (obj fs)) × (get key fs ≡ some x)
inner_inv key (some (obj fs)) x e = (fs, refl, e)
inner_inv key none x e = grind (arith, e)
inner_inv key (some _) x e = grind (arith, e)

pub IsAccepted-IsVouched :
    (std : Stdlib) (environ : Environment) (a : AuthorizationConfig) (event : Fields)
    (caller : CallerContext)
    → IsConfigured std environ a
    → IsAccepted std a event caller
    → IsVouched std environ event caller
IsAccepted-IsVouched std environ a event caller c h =
    let (jwt, held, in_jwt) =
      inner_inv "claims" (inner "jwt" (get "authorizer" h.context)) (obj h.claims) h.in_context in
    let (authorizer, in_context, in_authorizer) =
      inner_inv "jwt" (get "authorizer" h.context) (obj jwt) held in
    record {
      context = h.context;
      authorizer = authorizer;
      jwt = jwt;
      claims = h.claims;
      granted = h.granted;
      in_event = h.in_event;
      in_context = in_context;
      in_authorizer = in_authorizer;
      in_jwt = in_jwt;
      issuer_set = c.issuer_set;
      resource_set = c.resource_set;
      issuer =
          is_text_inv a.issuer_url (get "iss" h.claims) h.issuer.0
          ∙ ap (λ t. some (text t)) c.issuer_url;
      audience =
          is_text_inv a.resource_server_url (get "aud" h.claims) h.audience
          ∙ ap (λ t. some (text t)) c.resource_server_url;
      access = is_access_inv (get "token_use" h.claims) h.access;
      subject = as_text_inv (get "sub" h.claims) caller.subject h.subject.0;
      named = h.subject.1;
      scope = text_or_empty_inv (get "scope" h.claims) h.granted h.scope;
      caller_issuer = h.issuer.1 ∙ c.issuer_url;
      caller_scopes = h.held;
      required = subst (λ ss. has_all ss caller.scopes ≡ true) c.required_scopes h.scopes;
    }
