-- ===== src/Gateway/Trust.antt =====
-- lambda_handler.py: what is known of an event that is accepted.
use aws_remote_mcp.Prelude.{
  Bool, true, false, not, ◌&&◌, ◌||◌, Option, some, ◌==◌, ◌≡◌, refl, sym, subst, inl, inr,
  Bool-cases,
}
use aws_remote_mcp.Prelude.Result.{ok, raise_if}
use aws_remote_mcp.Json.{Json, obj, Fields, end, field, get}
use aws_remote_mcp.Prelude.Inversion.{bind_inv, raise_if_inv, not_inv, ok_inv}
use aws_remote_mcp.Core.Models.{Stdlib}
use aws_remote_mcp.Gateway.{
  AuthorizationConfig, Environment, required_environment, request_context, api_gateway_host,
  gateway_caller, caller_for, is_mcp_event, is_authorization, sanitized_headers, with_headers,
  headers_of, validated_gateway_event, Admitted, authorization_of, admit, setting, is_mcp_route,
  check_caller,
}
use aws_remote_mcp.Gateway.Claims.{gateway_caller-IsAccepted}
use aws_remote_mcp.Gateway.Vouched.{IsVouched, authorization_of-IsConfigured, IsAccepted-IsVouched}

-- No key of the dictionary is `authorization`, in whatever case.
unfoldable pub without_bearer : Fields → Bool
without_bearer end = true
without_bearer (field key v fs) = not (is_authorization key) && without_bearer fs

sanitized_headers-without_bearer : (fs : Fields) → without_bearer (sanitized_headers fs) ≡ true
unfolding sanitized_headers without_bearer
sanitized_headers-without_bearer end = refl
sanitized_headers-without_bearer (field key v fs) = elim (Bool-cases (is_authorization key)) [
  | inl e ↦ rw e (sanitized_headers-without_bearer fs)
  | inr e ↦ rw e (rw e (sanitized_headers-without_bearer fs))
]

get-with_headers :
    (headers event : Fields) → get "headers" (with_headers headers event) ≡ some (obj headers)
unfolding get with_headers
get-with_headers headers end = refl
get-with_headers headers (field key v fs) = elim (Bool-cases ("headers" == key)) [
  | inl e ↦ rw e (rw e refl)
  | inr e ↦ rw e (rw e (get-with_headers headers fs))
]

-- The headers of an event are without the bearer's.
abbrev pub bare : Option Json → Bool
bare (some (obj headers)) = without_bearer headers
bare _ = false

validated-bare :
    (std : Stdlib) (a : AuthorizationConfig) (event event' : Fields)
    → validated_gateway_event std a event ≡ ok event'
    → bare (get "headers" event') ≡ true
unfolding validated_gateway_event
validated-bare std a event event' e =
    let (context, c, e1) = bind_inv (request_context event) _ event' e in
    let (x, d, e2) =
      bind_inv (check_caller (is_mcp_route context) (gateway_caller std a event)) _ event' e1 in
    let (headers, f, e3) = bind_inv (headers_of (get "headers" event)) _ event' e2 in
    subst (λ v. bare (get "headers" v) ≡ true)
      (ok_inv (with_headers (sanitized_headers headers) event) event' e3)
      (subst (λ v. bare v ≡ true) (sym (get-with_headers (sanitized_headers headers) event))
        (sanitized_headers-without_bearer headers))

-- What `handler` has accepted.
pub record IsTrusted (std : Stdlib) (environ : Environment) (event : Fields) (r : Admitted)
    : Type 0 where
  pub deployment : ((r.environment == "dev") || (r.environment == "prod")) ≡ true
  pub no_bearer : bare (get "headers" r.event) ≡ true
  pub authorization : authorization_of std environ ≡ ok r.authorization
  pub caller : caller_for std r.authorization (is_mcp_event event) event ≡ ok r.caller

admit-IsTrusted :
    (std : Stdlib) (environ : Environment) (event : Fields) (r : Admitted)
    → admit std environ event ≡ ok r
    → IsTrusted std environ event r
unfolding admit
admit-IsTrusted std environ event r e =
    let (environment, a1, e1) =
      bind_inv (required_environment std environ "APP_ENVIRONMENT") _ r e in
    let (x, a2, e2) =
      bind_inv (raise_if (not ((environment == "dev") || (environment == "prod"))) _) _ r e1 in
    let (host, a3, e3) = bind_inv (api_gateway_host std environ event) _ r e2 in
    let (a, a4, e4) = bind_inv (authorization_of std environ) _ r e3 in
    let (caller, a5, e5) = bind_inv (caller_for std a (is_mcp_event event) event) _ r e4 in
    let (event', a6, e6) = bind_inv (validated_gateway_event std a event) _ r e5 in
    let (external, a7, e7) = bind_inv (setting environ "EXTERNAL_INTEGRATIONS_ENABLED") _ r e6 in
    let (cost, a8, e8) = bind_inv (setting environ "COST_EXPLORER_ENABLED") _ r e7 in
    subst (IsTrusted std environ event) (ok_inv _ r e8) (record {
      deployment =
          not_inv ((environment == "dev") || (environment == "prod")) (raise_if_inv _ _ x a2);
      no_bearer = validated-bare std a event event' a6;
      authorization = a4;
      caller = a5;
    })

-- An event of the route `POST /mcp` that `handler` accepts, in whatever environment: the deployment
-- is dev or prod; the request context has the claims of the gateway's authorizer; their issuer and
-- audience are the texts that `OAUTH_ISSUER` and `MCP_RESOURCE_URL` configure and are not
-- empty, their token use is absent, null or `access`, and their subject is not empty; the caller has that issuer, that subject
-- and the words of the claims' scope, none if it is absent; every word of `MCP_REQUIRED_SCOPE` is
-- among them; and the event that is passed on has no `Authorization` header, in whatever case.
pub admit-IsVouched :
    (std : Stdlib) (environ : Environment) (event : Fields) (r : Admitted)
    → admit std environ event ≡ ok r
    → is_mcp_event event ≡ true
    → IsVouched std environ event r.caller
      × (((r.environment == "dev") || (r.environment == "prod")) ≡ true)
      × (bare (get "headers" r.event) ≡ true)
admit-IsVouched std environ event r e route =
    let h = admit-IsTrusted std environ event r e in
    (
      IsAccepted-IsVouched std environ r.authorization event r.caller
          (authorization_of-IsConfigured std environ r.authorization h.authorization)
          (gateway_caller-IsAccepted std r.authorization event r.caller
            (subst (λ b. caller_for std r.authorization b event ≡ ok r.caller) route h.caller)),
      h.deployment,
      h.no_bearer,
    )
