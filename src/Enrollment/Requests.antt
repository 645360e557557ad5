-- ===== src/Enrollment/Requests.antt =====
-- scripts/enroll_cognito_totp.py: the requests to the token endpoint and to Cognito.
use aws_remote_mcp.Prelude.{ℕ, String, Option, none, some, List}
use aws_remote_mcp.Prelude.Result.{Exception, Result, ok, err, json_decode_error, runtime_error}
use aws_remote_mcp.Prelude.Effect.{Action, lift, ◌>>=◌}
use aws_remote_mcp.Prelude.Text
use aws_remote_mcp.Prelude.Split.{is_char}
use aws_remote_mcp.Json.{Json, text, obj, Fields, get}
use aws_remote_mcp.Prelude.Split.{after_last}

-- `EnrollmentError`, a `RuntimeError`
abbrev pub enrollment_error : String → Exception
enrollment_error message = runtime_error message

pub data Body : Type 0 where
  form : List (String × String) → Body
  json : Fields → Body

-- A `POST` request, with the body before it is encoded.
pub record Post : Type 0 where
  pub url : String
  pub content_type : String
  pub target : Option String
  pub body : Body

-- How `urlopen` ends: with a response and what `json.load` makes of it, with an `HTTPError` and what
-- `json.load` makes of its body, or with another `URLError`.
pub data Opened : Type 0 where
  response : Result Json → Opened
  http_error : Result Json → Opened
  url_error : Opened

-- `urllib`, `base64url(secrets.token_bytes(n))`, and `str` of a value that is no text.
pub record Network (W : Type 0) : Type 0 where
  pub urlopen : Post → Action W Opened
  pub random_token : ℕ → Action W String
  pub str : Json → String

module _ {W : Type 0} (network : Network W) where
  abbrev str_of : Option Json → String
  str_of none = "CognitoError"
  str_of (some (text t)) = t
  str_of (some v) = network.str v

  abbrev rejected : String → Exception
  rejected kind = enrollment_error (Text.◌++◌ "Cognito rejected the operation: " kind)

  abbrev pub read_opened : Opened → Result Fields
  read_opened (response (ok (obj fs))) = ok fs
  read_opened (response (ok _)) = err (enrollment_error "Cognito returned an unexpected response")
  read_opened (response (err e)) = err e
  read_opened (http_error (ok (obj detail))) =
      err (rejected (after_last (is_char b'#') (str_of (get "__type" detail))))
  read_opened (http_error (ok _)) = err (rejected "CognitoError")
  read_opened (http_error (err (json_decode_error _))) = err (rejected "CognitoError")
  read_opened (http_error (err e)) = err e
  read_opened url_error = err (enrollment_error "The Cognito endpoint couldn't be reached")

  unfoldable pub read_json : Post → Action W Fields
  read_json post = network.urlopen post >>= λ opened. lift (read_opened opened)

  unfoldable pub post_form : String → List (String × String) → Action W Fields
  unfolding read_json
  post_form url values = read_json (record {
    url = url;
    content_type = "application/x-www-form-urlencoded";
    target = none;
    body = form values;
  })

  unfoldable pub post_cognito : String → String → Fields → Action W Fields
  unfolding read_json
  post_cognito region operation payload = read_json (record {
    url = Text.◌++◌ "https://cognito-idp." (Text.◌++◌ region ".amazonaws.com/");
    content_type = "application/x-amz-json-1.1";
    target = some (Text.◌++◌ "AWSCognitoIdentityProviderService." operation);
    body = json payload;
  })
