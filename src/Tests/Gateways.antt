-- ===== src/Tests/Gateways.antt =====
-- The theorem on the events of the gateway, applied to an event with a bearer's header.
use aws_remote_mcp.Prelude.{
  String, true, false, none, some, [], ◌∷◌, ◌==◌, ◌||◌, ◌≡◌, refl, if◌then◌else◌,
}
use aws_remote_mcp.Prelude.Result.{ok}
use aws_remote_mcp.Json.{obj, text, Fields, end, field, get}
use aws_remote_mcp.Gateway.{Environment, AuthorizationConfig, Admitted, admit}
use aws_remote_mcp.Gateway.Vouched.{IsVouched}
use aws_remote_mcp.Gateway.Trust.{bare, admit-IsVouched}
use aws_remote_mcp.Tests.World.{std}

abbrev environ : Environment
environ name =
    if name == "APP_ENVIRONMENT"
    then some "dev"
    else if name == "AWS_REGION"
    then some "eu-west-1"
    else if name == "MCP_REQUIRED_SCOPE"
    then some "use"
    else if name == "OAUTH_ISSUER"
    then some "issuer"
    else if name == "MCP_RESOURCE_URL"
    then some "resource"
    else if name == "OAUTH_AUTHORIZATION_SERVER"
    then some "server"
    else none

abbrev claims : Fields
claims =
    field "iss" (text "issuer")
      (field "aud" (text "resource") (field "sub" (text "alice") (field "scope" (text "use") end)))

abbrev host : String
host = "api.execute-api.eu-west-1.amazonaws.com"

abbrev context : Fields
context = field "domainName" (text host) (
    field "routeKey" (text "POST /mcp")
      (field "authorizer" (obj (field "jwt" (obj (field "claims" (obj claims) end)) end)) end))

abbrev headers_with : Fields → Fields
headers_with rest = field "host" (text host) rest

abbrev event : Fields → Fields
event headers = field "requestContext" (obj context) (field "headers" (obj headers) end)

abbrev bearer : Fields
bearer = headers_with (field "Authorization" (text "Bearer token") end)

abbrev authorization : AuthorizationConfig
authorization = record {
  issuer_url = "issuer";
  resource_server_url = "resource";
  authorization_server_url = "server";
  required_scopes = "use" ∷ [];
}

abbrev admitted : Admitted
admitted = record {
  environment = "dev";
  allowed_host = host;
  authorization = authorization;
  caller = record { issuer = "issuer"; subject = "alice"; scopes = "use" ∷ [] };
  event = event (headers_with end);
  external_enabled = false;
  cost_enabled = false;
}

accepts : admit std environ (event bearer) ≡ ok admitted
unfolding admit aws_remote_mcp.Prelude.Split.strip aws_remote_mcp.Core.Models.is_whitespace get
    aws_remote_mcp.Prelude.Split.ends_with aws_remote_mcp.Prelude.Split.words
accepts = refl

admit-IsVouched_example :
    IsVouched std environ (event bearer) admitted.caller
    × ((("dev" == "dev") || ("dev" == "prod")) ≡ true)
    × (bare (get "headers" (event (headers_with end))) ≡ true)
unfolding get
admit-IsVouched_example = admit-IsVouched std environ (event bearer) admitted accepts refl
