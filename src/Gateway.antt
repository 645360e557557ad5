-- ===== src/Gateway.antt =====
-- lambda_handler.py and security/authorization.py: which events of the gateway the Lambda function
-- accepts, and with which caller.
pub mod Claims
pub mod Vouched
pub mod Trust
use aws_remote_mcp.Prelude.{
  String, Bool, true, false, not, ◌&&◌, ◌||◌, Option, none, some, List, [], ◌∷◌, ◌++◌, ◌==◌,
  if◌then◌else◌, all, contains,
}
use aws_remote_mcp.Prelude.Result.{⊤, Exception, Result, ok, err, raise_if, runtime_error}
use aws_remote_mcp.Prelude.Result
use aws_remote_mcp.Prelude.Effect.{◌>>=◌, ◌>>◌}
use aws_remote_mcp.Prelude.Text
use aws_remote_mcp.Prelude.Split.{rstrip, is_char, words}
use aws_remote_mcp.Json
use aws_remote_mcp.Json.{Json, text, obj, Fields, end, field, get}
use aws_remote_mcp.Prelude.Split.{ends_with, strip}
use aws_remote_mcp.Core.Models.{Stdlib, CallerContext, is_whitespace}
use aws_remote_mcp.Adapters.Values.{as_text}
use aws_remote_mcp.Adapters.Inventory.Explorer.Query.{lowers_to}

-- `mcp_use_scope`
unfoldable pub mcp_use_scope : String → String
mcp_use_scope resource_server_url = Text.◌++◌ (rstrip (is_char b'/') resource_server_url) "/use"

pub record AuthorizationConfig : Type 0 where
  pub issuer_url : String
  pub resource_server_url : String
  pub authorization_server_url : String
  pub required_scopes : List String

abbrev pub get_or {ℓ} : {A : Type ℓ} → A → Option A → A
get_or d none = d
get_or d (some a) = a

-- `AuthorizationConfig(...)` with its `__post_init__`
unfoldable pub authorization_config :
    String → String → Option String → Option (List String) → AuthorizationConfig
unfolding mcp_use_scope
authorization_config issuer_url resource_server_url server scopes = record {
  issuer_url = issuer_url;
  resource_server_url = resource_server_url;
  authorization_server_url = get_or issuer_url server;
  required_scopes = get_or (mcp_use_scope resource_server_url ∷ []) scopes;
}

-- `os.environ` of the function
abbrev pub Environment : Type 0
Environment = String → Option String

abbrev non_empty : String → String → Result String
non_empty name value =
    if Text.is_empty value
    then err (runtime_error (Text.◌++◌ "Required environment variable is missing: " name))
    else ok value

-- `_required_environment`
unfoldable pub required_environment : Stdlib → Environment → String → Result String
required_environment std environ name =
    non_empty name (strip (is_whitespace std) (get_or "" (environ name)))

abbrev missing_context : Exception
missing_context = runtime_error "API Gateway request context is missing."

abbrev pub context_of : Option Json → Result Fields
context_of (some (obj context)) = ok context
context_of _ = err missing_context

-- `event.get("requestContext")`, which must be a dictionary.
abbrev pub request_context : Fields → Result Fields
request_context event = context_of (get "requestContext" event)

abbrev pub domain_of : Option Json → Result String
domain_of (some (text t)) =
    if Text.is_empty t then err (runtime_error "API Gateway domain name is missing.") else ok t
domain_of _ = err (runtime_error "API Gateway domain name is missing.")

abbrev pub host_suffix : String → String
host_suffix region = Text.◌++◌ ".execute-api." (Text.◌++◌ region ".amazonaws.com")

-- `_api_gateway_host`
unfoldable pub api_gateway_host : Stdlib → Environment → Fields → Result String
api_gateway_host std environ event = Result.◌>>=◌ (request_context event) λ context.
    Result.◌>>=◌ (domain_of (get "domainName" context)) λ domain_name.
      Result.◌>>=◌ (required_environment std environ "AWS_REGION") λ region.
        Result.◌>>◌
          (raise_if (not (ends_with (host_suffix region) domain_name))
            (runtime_error "Unexpected API Gateway domain name."))
          (ok domain_name)

abbrev pub inner : String → Option Json → Option Json
inner key (some (obj fs)) = get key fs
inner key _ = none

abbrev pub is_text : String → Option Json → Bool
is_text t (some (text s)) = s == t
is_text t _ = false

abbrev pub is_access : Option Json → Bool
is_access none = true
is_access (some Json.null) = true
is_access v = is_text "access" v

abbrev pub text_or_empty : Option Json → Option String
text_or_empty none = some ""
text_or_empty v = as_text v

abbrev pub has_all : List String → List String → Bool
has_all required scopes = all (λ s. contains s scopes) required

abbrev contract_violated : Exception
contract_violated = runtime_error "Validated JWT claims violate the MCP contract."

-- The caller of claims whose subject and scopes are texts.
abbrev pub caller_of :
    Stdlib → AuthorizationConfig → Fields → Option String → Option String → Result CallerContext
caller_of std a claims (some subject) (some scopes) =
    if is_text a.issuer_url (get "iss" claims)
      && is_text a.resource_server_url (get "aud" claims)
      && is_access (get "token_use" claims)
      && not (Text.is_empty subject)
      && has_all a.required_scopes (words (is_whitespace std) scopes)
    then ok (record {
      issuer = a.issuer_url;
      subject = subject;
      scopes = words (is_whitespace std) scopes;
    })
    else err contract_violated
caller_of std a claims _ _ = err contract_violated

abbrev pub claims_of : Fields → Option Json
claims_of context = inner "claims" (inner "jwt" (get "authorizer" context))

abbrev pub with_claims : Stdlib → AuthorizationConfig → Option Json → Result CallerContext
with_claims std a (some (obj claims)) =
    caller_of std a claims (as_text (get "sub" claims)) (text_or_empty (get "scope" claims))
with_claims std a _ = err (runtime_error "Validated JWT claims are missing.")

-- `_gateway_caller`
unfoldable pub gateway_caller : Stdlib → AuthorizationConfig → Fields → Result CallerContext
gateway_caller std a event =
    Result.◌>>=◌ (request_context event) λ context. with_claims std a (claims_of context)

abbrev pub is_authorization : String → Bool
is_authorization key = lowers_to key "authorization"

-- The headers but `Authorization`.
unfoldable pub sanitized_headers : Fields → Fields
sanitized_headers end = end
sanitized_headers (field key v fs) =
    let rest = sanitized_headers fs in if is_authorization key then rest else field key v rest

-- `{**event, "headers": headers}` of an event that has the key
unfoldable pub with_headers : Fields → Fields → Fields
with_headers headers end = field "headers" (obj headers) end
with_headers headers (field key v fs) =
    let rest = with_headers headers fs in
    if "headers" == key then field key (obj headers) fs else field key v rest

abbrev pub headers_of : Option Json → Result Fields
headers_of (some (obj headers)) = ok headers
headers_of _ = err (runtime_error "API Gateway headers are missing.")

abbrev pub is_mcp_route : Fields → Bool
is_mcp_route context = is_text "POST /mcp" (get "routeKey" context)

abbrev pub check_caller : Bool → Result CallerContext → Result ⊤
check_caller false r = ok tt
check_caller true r = Result.◌>>◌ r (ok tt)

-- `_validated_gateway_event`
unfoldable pub validated_gateway_event : Stdlib → AuthorizationConfig → Fields → Result Fields
unfolding gateway_caller sanitized_headers with_headers
validated_gateway_event std a event = Result.◌>>=◌ (request_context event) λ context.
    Result.◌>>◌ (check_caller (is_mcp_route context) (gateway_caller std a event)) (
      Result.◌>>=◌ (headers_of (get "headers" event))
        λ headers. ok (with_headers (sanitized_headers headers) event))

-- `os.environ.get(name, "false")`, which must be true or false.
abbrev pub setting : Environment → String → Result Bool
setting environ name =
    let value = get_or "false" (environ name) in
    if value == "true"
    then ok true
    else if value == "false"
    then ok false
    else err (runtime_error (Text.◌++◌ name " must be true or false."))

-- What `handler` has before it puts the parts of the service together.
pub record Admitted : Type 0 where
  pub environment : String
  pub allowed_host : String
  pub authorization : AuthorizationConfig
  pub caller : CallerContext
  pub event : Fields
  pub external_enabled : Bool
  pub cost_enabled : Bool

abbrev pub caller_for : Stdlib → AuthorizationConfig → Bool → Fields → Result CallerContext
caller_for std a true event = gateway_caller std a event
caller_for std a false event =
    ok (record { issuer = a.issuer_url; subject = "metadata-route"; scopes = [] })

-- `route_key == "POST /mcp"`, of an event whose context may be no dictionary
abbrev pub is_mcp_event : Fields → Bool
is_mcp_event event = is_text "POST /mcp" (inner "routeKey" (get "requestContext" event))

unfoldable pub authorization_of : Stdlib → Environment → Result AuthorizationConfig
unfolding authorization_config required_environment
authorization_of std environ =
    Result.◌>>=◌ (required_environment std environ "OAUTH_ISSUER") λ issuer.
      Result.◌>>=◌ (required_environment std environ "MCP_RESOURCE_URL") λ resource.
        Result.◌>>=◌ (required_environment std environ "OAUTH_AUTHORIZATION_SERVER") λ server. ok (
          authorization_config issuer resource (some server)
            (some (words (is_whitespace std) (get_or "" (environ "MCP_REQUIRED_SCOPE")))))

abbrev unknown_environment : Exception
unknown_environment =
    runtime_error "APP_ENVIRONMENT must identify the isolated dev or prod deployment."

-- The part of `handler` that decides what is accepted.
unfoldable pub admit : Stdlib → Environment → Fields → Result Admitted
unfolding api_gateway_host authorization_of validated_gateway_event
admit std environ event =
    Result.◌>>=◌ (required_environment std environ "APP_ENVIRONMENT") λ environment.
      Result.◌>>◌
        (raise_if (not ((environment == "dev") || (environment == "prod"))) unknown_environment)
        (Result.◌>>=◌ (api_gateway_host std environ event) λ host.
          Result.◌>>=◌ (authorization_of std environ) λ a.
            Result.◌>>=◌ (caller_for std a (is_mcp_event event) event) λ caller.
              Result.◌>>=◌ (validated_gateway_event std a event) λ event'.
                Result.◌>>=◌ (setting environ "EXTERNAL_INTEGRATIONS_ENABLED") λ external.
                  Result.◌>>=◌ (setting environ "COST_EXPLORER_ENABLED") λ cost. ok (record {
                    environment = environment;
                    allowed_host = host;
                    authorization = a;
                    caller = caller;
                    event = event';
                    external_enabled = external;
                    cost_enabled = cost;
                  }))
