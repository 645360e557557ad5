-- ===== src/Enrollment/Completion.antt =====
-- scripts/enroll_cognito_totp.py: a form that `verify` accepts completes the session and clears its secrets.
use aws_remote_mcp.Prelude.{◌+◌, String, true, none, ◌≡◌, refl, ap, inl, inr, arith}
use aws_remote_mcp.Prelude.Result.{Result-cases, ⊤, Result, ok, err}
use aws_remote_mcp.Prelude.Effect.{Action, continue}
use aws_remote_mcp.Json.{text, end, field}
use aws_remote_mcp.Enrollment.Checks.{IsAdmitted, check_verify-IsAdmitted}
use aws_remote_mcp.Enrollment.Requests.{Network, post_cognito}
use aws_remote_mcp.Enrollment.{
  EnrollmentSession, Local, on_outside, modify, check_verify, attempted, complete, verified,
  request_verification, verify,
}

bind-Ends :
    {V A : Type 0} (P Q : V → Type 0) (o : Result A × V) (k : A → Action V ⊤)
    → P o.1
    → ((a : A) (v : V) → P v → (k a v).0 ≡ ok tt → Q (k a v).1)
    → (continue o.0 k o.1).0 ≡ ok tt
    → Q (continue o.0 k o.1).1
bind-Ends P Q (ok a, v) k h each e = each a v h e
bind-Ends P Q (err x, v) k h each e = grind (arith, e)

module _ {W : Type 0} (network : Network W) where
  request_verification-completes :
      (region token code : String) (l : Local W)
      → (request_verification network region token code l).0 ≡ ok tt
      → (request_verification network region token code l).1.session
        ≡ complete (attempted l.session)
  request_verification-completes region token code l =
      bind-Ends (λ v. v.session ≡ attempted l.session)
        (λ v. v.session ≡ complete (attempted l.session))
        (on_outside
          (post_cognito network region "VerifySoftwareToken"
            (field "AccessToken" (text token) (field "UserCode" (text code) end)))
          (modify attempted l).1)
        _ refl
        λ result l1 same1.
          bind-Ends (λ v. v.session ≡ attempted l.session)
            (λ v. v.session ≡ complete (attempted l.session)) (verified result, l1) _ same1
            λ _ l2 same2.
              bind-Ends (λ v. v.session ≡ attempted l.session)
                (λ v. v.session ≡ complete (attempted l.session))
                (on_outside (post_cognito network region "SetUserMFAPreference" _) l2) _ same2
                λ _ l3 same3 e. ap complete same3

  -- What holds if `verify` returns.
  pub record IsCompleted (code form_token : String) (before after : EnrollmentSession)
      : Type 0 where
    pub token : String
    pub admitted : IsAdmitted before code form_token token
    pub completed : after.completed ≡ true
    pub no_access_token : after.access_token ≡ none
    pub no_secret_code : after.secret_code ≡ none
    pub no_form_token : after.form_token ≡ ""
    pub counted : after.verify_attempts ≡ before.verify_attempts + 1

  IsCompleted-of :
      (code form_token token : String) (before after : EnrollmentSession)
      → IsAdmitted before code form_token token
      → after ≡ complete (attempted before)
      → IsCompleted code form_token before after
  IsCompleted-of code form_token token before after admitted e = record {
    token = token;
    admitted = admitted;
    completed = ap (λ s. s.completed) e;
    no_access_token = ap (λ s. s.access_token) e;
    no_secret_code = ap (λ s. s.secret_code) e;
    no_form_token = ap (λ s. s.form_token) e;
    counted = ap (λ s. s.verify_attempts) e;
  }

  -- Whatever the endpoints answer: if `verify` returns, the form was the session's own, its code had
  -- six digits, the session held an access token and had an attempt left; and the session is then
  -- completed, with one attempt more, without an access token and a setup key, and with an empty form
  -- token.
  pub verify-IsCompleted :
      (code form_token : String) (l : Local W)
      → (verify network code form_token l).0 ≡ ok tt
      → IsCompleted code form_token l.session (verify network code form_token l).1.session
  unfolding verify
  verify-IsCompleted code form_token l =
      elim (Result-cases (check_verify l.session code form_token)) [
        | inl (token, e) ↦ rw e (λ done.
            IsCompleted-of code form_token token l.session _
              (check_verify-IsAdmitted l.session code form_token token e)
              (request_verification-completes l.session.region token code l done))
        | inr (x, e) ↦ rw e (λ done. grind (arith, done))
      ]
