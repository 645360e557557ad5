-- ===== src/Enrollment/Attempts.antt =====
-- scripts/enroll_cognito_totp.py: what a session does over any sequence of callbacks and forms.
use aws_remote_mcp.Prelude.{
  ℕ, ◌+◌, ◌≤◌, ◌<◌, String, Bool, false, Option, none, some, List, [], ◌∷◌, ◌==◌, ◌≡◌, ◌∙◌, inl,
  inr, arith, if◌then◌else◌,
}
use aws_remote_mcp.Prelude.Result.{Result-cases, Result, ok, err}
use aws_remote_mcp.Prelude.Effect.{Action, continue}
use aws_remote_mcp.Json.{text, Fields, end, field, get}
use aws_remote_mcp.Enrollment.Checks.{check_verify-IsAdmitted}
use aws_remote_mcp.Enrollment.Requests.{Network, Post, read_json, post_form, post_cognito}
use aws_remote_mcp.Enrollment.{
  Local, on_outside, modify, max_verify_attempts, check_begin, check_verify, attempted, verified,
  exchange, begin, request_verification, verify, text_or_error,
}

-- The callback of the browser, or the form with a code.
pub data Event : Type 0 where
  callback : String → String → Event
  submitted : String → String → Event

abbrev pub verify_target : String
verify_target = "AWSCognitoIdentityProviderService.VerifySoftwareToken"

abbrev pub is_verification : Option String → Bool
is_verification none = false
is_verification (some target) = target == verify_target

module _ {W : Type 0} (network : Network W) where
  -- One event; an exception ends it, and what was changed stays changed.
  abbrev pub step : Event → Local W → Local W
  step (callback code state) l = (begin network code state l).1
  step (submitted code form_token) l = (verify network code form_token l).1

  unfoldable pub run : List Event → Local W → Local W
  run [] l = l
  run (e ∷ es) l = run es (step e l)

bind-Keeps :
    {V A B : Type 0} (P : V → Type 0) (o : Result A × V) (k : A → Action V B)
    → P o.1
    → ((a : A) (v : V) → P v → P (k a v).1)
    → P (continue o.0 k o.1).1
bind-Keeps P (ok a, v) k h each = each a v h
bind-Keeps P (err e, v) k h each = h

module _ {W : Type 0} (network : Network W) (requests : W → ℕ)
    (counts : (post : Post) (w : W)
      → requests (network.urlopen post w).1
        ≡ (if is_verification post.target then requests w + 1 else requests w)) where
  -- The attempts are the verification requests that were made.
  record Counted (before : ℕ) (l : Local W) : Type 0 where
    counted : requests l.outside ≡ before + l.session.verify_attempts
    bound : l.session.verify_attempts ≤ max_verify_attempts

  read_json-count :
      (post : Post) (w : W)
      → requests (read_json network post w).1
        ≡ (if is_verification post.target then requests w + 1 else requests w)
  unfolding read_json
  read_json-count post w = elim (Result-cases (network.urlopen post w).0) [
    | inl (o, e) ↦ rw e (counts post w)
    | inr (x, e) ↦ rw e (counts post w)
  ]

  post_form-quiet :
      (url : String) (values : List (String × String)) (w : W)
      → requests (post_form network url values w).1 ≡ requests w
  unfolding post_form
  post_form-quiet url values w = read_json-count _ w

  associate-quiet :
      (region : String) (payload : Fields) (w : W)
      → requests (post_cognito network region "AssociateSoftwareToken" payload w).1 ≡ requests w
  unfolding post_cognito
  associate-quiet region payload w = read_json-count _ w

  settings-quiet :
      (region : String) (payload : Fields) (w : W)
      → requests (post_cognito network region "SetUserMFAPreference" payload w).1 ≡ requests w
  unfolding post_cognito
  settings-quiet region payload w = read_json-count _ w

  verification-count :
      (region : String) (payload : Fields) (w : W)
      → requests (post_cognito network region "VerifySoftwareToken" payload w).1 ≡ requests w + 1
  unfolding post_cognito
  verification-count region payload w = read_json-count _ w

  quiet-Counted :
      {A : Type 0} (before : ℕ) (m : Action W A) (l : Local W)
      → ((w : W) → requests (m w).1 ≡ requests w)
      → Counted before l
      → Counted before (on_outside m l).1
  quiet-Counted before m l quiet h = record {
    counted = quiet l.outside ∙ h.counted;
    bound = h.bound;
  }

  begin-Counted :
      (before : ℕ) (code state : String) (l : Local W)
      → Counted before l
      → Counted before (begin network code state l).1
  unfolding begin
  begin-Counted before code state l h =
      bind-Keeps (Counted before) (check_begin l.session state, l) _ h
        λ _ l1 h1.
          bind-Keeps (Counted before) (on_outside (exchange network l.session code) l1) _
            (quiet-Counted before (exchange network l.session code) l1 (post_form-quiet _ _) h1)
            λ answer l2 h2.
              bind-Keeps (Counted before)
                (
                  text_or_error "Cognito didn't return an enrollment token"
                      (get "access_token" answer),
                  l2,
                )
                _ h2
                λ token l3 h3.
                  bind-Keeps (Counted before)
                    (on_outside
                      (post_cognito network l.session.region "AssociateSoftwareToken"
                        (field "AccessToken" (text token) end))
                      l3)
                    _
                    (quiet-Counted before
                      (post_cognito network l.session.region "AssociateSoftwareToken"
                        (field "AccessToken" (text token) end))
                      l3 (associate-quiet l.session.region (field "AccessToken" (text token) end))
                      h3)
                    λ setup l4 h4.
                      bind-Keeps (Counted before)
                        (
                          text_or_error "Cognito didn't return a TOTP setup key"
                              (get "SecretCode" setup),
                          l4,
                        )
                        _ h4 λ secret l5 h5. record { counted = h5.counted; bound = h5.bound }

  -- The attempt is counted before its request.
  verification-Counted :
      (before : ℕ) (payload : Fields) (region : String) (l : Local W)
      → Counted before l
      → l.session.verify_attempts < max_verify_attempts
      → Counted before
          (on_outside
            (post_cognito network region "VerifySoftwareToken" payload)
            (modify attempted l).1).1
  verification-Counted before payload region l h below = record {
    counted = omega (arith, verification-count region payload l.outside, h.counted);
    bound = omega (arith, below);
  }

  requested-Counted :
      (before : ℕ) (region token code : String) (l : Local W)
      → Counted before l
      → l.session.verify_attempts < max_verify_attempts
      → Counted before (request_verification network region token code l).1
  requested-Counted before region token code l h below =
      bind-Keeps (Counted before)
        (on_outside
          (post_cognito network region "VerifySoftwareToken"
            (field "AccessToken" (text token) (field "UserCode" (text code) end)))
          (modify attempted l).1)
        _
        (verification-Counted before
          (field "AccessToken" (text token) (field "UserCode" (text code) end)) region l h below)
        λ result l1 h1.
          bind-Keeps (Counted before) (verified result, l1) _ h1
            λ _ l2 h2.
              bind-Keeps (Counted before)
                (on_outside (post_cognito network region "SetUserMFAPreference" _) l2) _
                (quiet-Counted before (post_cognito network region "SetUserMFAPreference" _) l2
                  (settings-quiet region _) h2)
                λ _ l3 h3. record { counted = h3.counted; bound = h3.bound }

  verify-Counted :
      (before : ℕ) (code form_token : String) (l : Local W)
      → Counted before l
      → Counted before (verify network code form_token l).1
  unfolding verify
  verify-Counted before code form_token l h =
      elim (Result-cases (check_verify l.session code form_token)) [
        | inl (token, e) ↦ rw e (
            requested-Counted before l.session.region token code l h
              (check_verify-IsAdmitted l.session code form_token token e).attempt_left)
        | inr (x, e) ↦ rw e h
      ]

  step-Counted :
      (before : ℕ) (event : Event) (l : Local W)
      → Counted before l
      → Counted before (step network event l)
  step-Counted before (callback code state) l h = begin-Counted before code state l h
  step-Counted before (submitted code form_token) l h = verify-Counted before code form_token l h

  run-Counted :
      (before : ℕ) (events : List Event) (l : Local W)
      → Counted before l
      → Counted before (run network events l)
  unfolding run
  run-Counted before [] l h = h
  run-Counted before (event ∷ events) l h =
      run-Counted before events (step network event l) (step-Counted before event l h)

  -- A network whose calls of Cognito's `VerifySoftwareToken` are counted: from a session with no
  -- attempt, over any sequence of callbacks and submitted forms and whatever the endpoints answer,
  -- the attempts that the session counts are the verification requests that were made, at most five.
  pub run-attempts :
      (events : List Event) (l : Local W)
      → l.session.verify_attempts ≡ 0
      → (requests (run network events l).outside
          ≡ requests l.outside + (run network events l).session.verify_attempts)
        × ((run network events l).session.verify_attempts ≤ max_verify_attempts)
  run-attempts events l none_yet =
      let h =
        run-Counted (requests l.outside) events l
          (record { counted = omega (arith, none_yet); bound = omega (arith, none_yet) }) in
      (h.counted, h.bound)
