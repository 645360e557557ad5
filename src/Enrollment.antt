-- ===== src/Enrollment.antt =====
-- scripts/enroll_cognito_totp.py: the session of the one-time TOTP enrollment.
pub mod Requests
pub mod Completion
pub mod Checks
pub mod Attempts
use aws_remote_mcp.Prelude.{
  ℕ, ◌+◌, ltb, leb, eqb, String, Bool, true, false, not, ◌&&◌, ◌||◌, Option, none, some, is_none,
  List, [], ◌∷◌, ◌++◌, ◌==◌, Dict, lookup, if◌then◌else◌, length, all, contains,
}
use aws_remote_mcp.Prelude.Result.{⊤, Result, ok, err, raise_if, unexpected}
use aws_remote_mcp.Prelude.Result
use aws_remote_mcp.Prelude.Effect.{Action, pure, lift, ◌>>=◌, ◌>>◌}
use aws_remote_mcp.Prelude.Int.{show_nat}
use aws_remote_mcp.Prelude.Text
use aws_remote_mcp.Prelude.Split.{rstrip, is_char}
use aws_remote_mcp.Json
use aws_remote_mcp.Json.{Json, text, obj, Fields, end, field, get}
use aws_remote_mcp.Enrollment.Requests.{enrollment_error, Network, post_form, post_cognito}

abbrev pub loopback_host : String
loopback_host = "127.0.0.1"

abbrev pub max_verify_attempts : ℕ
max_verify_attempts = 5

pub record EnrollmentSession : Type 0 where
  pub authorization_server : String
  pub client_id : String
  pub region : String
  pub port : ℕ
  pub verifier : String
  pub state : String
  pub form_token : String
  pub access_token : Option String
  pub secret_code : Option String
  pub verify_attempts : ℕ
  pub completed : Bool

-- `EnrollmentSession.create`
unfoldable pub create :
    {W : Type 0} → Network W → String → String → String → ℕ → Action W EnrollmentSession
create network server client_id region port = do
  verifier ← network.random_token 32
  state ← network.random_token 24
  form_token ← network.random_token 24
  pure (record {
    authorization_server = rstrip (is_char b'/') server;
    client_id = client_id;
    region = region;
    port = port;
    verifier = verifier;
    state = state;
    form_token = form_token;
    access_token = none;
    secret_code = none;
    verify_attempts = 0;
    completed = false;
  })

unfoldable pub redirect_uri : EnrollmentSession → String
redirect_uri s =
    Text.◌++◌ "http://"
      (Text.◌++◌ loopback_host (Text.◌++◌ ":" (Text.◌++◌ (show_nat s.port) "/oauth/callback")))

-- The session object beside the rest of the world.
pub record Local (W : Type 0) : Type 0 where
  pub session : EnrollmentSession
  pub outside : W

abbrev pub on_outside : {W A : Type 0} → Action W A → Action (Local W) A
on_outside m l = let (r, w) = m l.outside in (r, record l { outside = w })

abbrev pub modify : {W : Type 0} → (EnrollmentSession → EnrollmentSession) → Action (Local W) ⊤
modify f l = (ok tt, record l { session = f l.session })

-- `secrets.compare_digest` of two texts, which refuses what is not ASCII.
abbrev is_ascii : String → Bool
is_ascii t = Text.all (λ c. ltb c 128) t

unfoldable pub compare_digest : String → String → Result Bool
compare_digest a b = if is_ascii a && is_ascii b then ok (a == b) else err (unexpected "TypeError")

abbrev pub text_or_error : String → Option Json → Result String
text_or_error message (some (text t)) =
    if Text.is_empty t then err (enrollment_error message) else ok t
text_or_error message _ = err (enrollment_error message)

abbrev pub check_begin : EnrollmentSession → String → Result ⊤
check_begin s returned_state = Result.◌>>=◌ (compare_digest returned_state s.state) λ same.
    Result.◌>>◌ (raise_if (not same) (enrollment_error "The OAuth state validation failed")) (
      raise_if (not (is_none s.access_token) || not (is_none s.secret_code))
        (enrollment_error "The enrollment callback was already used"))

abbrev pub is_code : String → Bool
is_code t = Text.all Text.is_digit t && eqb (Text.length t) 6

abbrev pub ready_token : Option String → Option String → Result String
ready_token (some token) (some secret) = ok token
ready_token _ _ = err (enrollment_error "The enrollment session isn't ready")

-- The checks of `verify`, with the access token.
unfoldable pub check_verify : EnrollmentSession → String → String → Result String
unfolding compare_digest
check_verify s user_code returned_form_token =
    Result.◌>>=◌ (compare_digest returned_form_token s.form_token) λ same.
      Result.◌>>◌ (raise_if (not same) (enrollment_error "The local form validation failed")) (
        Result.◌>>◌
          (raise_if (not (is_code user_code))
            (enrollment_error "Enter the current six-digit authenticator code"))
          (Result.◌>>=◌ (ready_token s.access_token s.secret_code) λ token.
            Result.◌>>◌
              (raise_if (leb max_verify_attempts s.verify_attempts)
                (enrollment_error "The local verification attempt limit was reached"))
              (ok token)))

abbrev is_success : Option Json → Bool
is_success (some (text t)) = t == "SUCCESS"
is_success _ = false

abbrev pub verified : Fields → Result ⊤
verified result =
    raise_if (not (is_success (get "Status" result)))
      (enrollment_error "Cognito didn't verify the authenticator code")

abbrev pub attempted : EnrollmentSession → EnrollmentSession
attempted s = record s { verify_attempts = s.verify_attempts + 1 }

abbrev pub complete : EnrollmentSession → EnrollmentSession
complete s = record s { completed = true; access_token = none; secret_code = none; form_token = "" }

abbrev mfa_settings : Fields
mfa_settings = field "Enabled" (Json.bool true) (field "PreferredMfa" (Json.bool true) end)

module _ {W : Type 0} (network : Network W) where
  abbrev pub exchange : EnrollmentSession → String → Action W Fields
  exchange s code = post_form network (Text.◌++◌ s.authorization_server "/oauth2/token") (
      ("grant_type", "authorization_code")
      ∷ ("client_id", s.client_id)
      ∷ ("code", code)
      ∷ ("redirect_uri", redirect_uri s)
      ∷ ("code_verifier", s.verifier)
      ∷ [])

  abbrev pub started : String → String → EnrollmentSession → EnrollmentSession
  started token secret s = record s {
    access_token = some token;
    secret_code = some secret;
    verifier = "";
  }

  unfoldable pub begin : String → String → Action (Local W) ⊤
  unfolding compare_digest
  begin code returned_state l =
      (lift (check_begin l.session returned_state)
          >> (on_outside (exchange l.session code) >>= λ answer.
              lift (
                text_or_error "Cognito didn't return an enrollment token"
                  (get "access_token" answer))
              >>= λ token.
                  on_outside (
                    post_cognito network l.session.region "AssociateSoftwareToken"
                      (field "AccessToken" (text token) end))
                  >>= λ setup.
                      lift (
                        text_or_error "Cognito didn't return a TOTP setup key"
                          (get "SecretCode" setup))
                      >>= λ secret. modify (started token secret)))
        l

  -- `verify` after its checks.
  abbrev pub request_verification : String → String → String → Action (Local W) ⊤
  request_verification region token user_code =
      modify attempted
      >> (on_outside (
            post_cognito network region "VerifySoftwareToken"
              (field "AccessToken" (text token) (field "UserCode" (text user_code) end)))
          >>= λ result.
              lift (verified result)
              >> (on_outside (
                    post_cognito network region "SetUserMFAPreference" (
                      field "AccessToken" (text token)
                        (field "SoftwareTokenMfaSettings" (obj mfa_settings) end)))
                  >> modify complete))

  unfoldable pub verify : String → String → Action (Local W) ⊤
  unfolding check_verify
  verify user_code returned_form_token l =
      (lift (check_verify l.session user_code returned_form_token) >>= λ token.
      request_verification l.session.region token user_code)
        l

abbrev origins : ℕ → List String
origins port =
    "null"
    ∷ Text.◌++◌ "http://127.0.0.1:" (show_nat port)
    ∷ Text.◌++◌ "http://localhost:" (show_nat port)
    ∷ []

abbrev has_host : Option String → ℕ → Bool
has_host none port = false
has_host (some host) port =
    contains host
      (Text.◌++◌ "127.0.0.1:" (show_nat port) ∷ Text.◌++◌ "localhost:" (show_nat port) ∷ [])

abbrev has_origin : Option String → ℕ → Bool
has_origin none port = true
has_origin (some origin) port = contains origin (origins port)

unfoldable pub valid_local_request : Option String → Option String → ℕ → Bool
valid_local_request host origin port = has_host host port && has_origin origin port

abbrev only_item : String → Option (List String) → Result String
only_item key (some (item ∷ [])) =
    if Text.is_empty item
    then err (enrollment_error (Text.◌++◌ "Missing or repeated " (Text.◌++◌ key " parameter")))
    else ok item
only_item key _ =
    err (enrollment_error (Text.◌++◌ "Missing or repeated " (Text.◌++◌ key " parameter")))

unfoldable pub single : Dict (List String) → String → Result String
single values key = only_item key (lookup key values)
