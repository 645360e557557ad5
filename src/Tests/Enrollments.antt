-- ===== src/Tests/Enrollments.antt =====
-- The theorems on the enrollment session, applied to a network that accepts the first code.
use aws_remote_mcp.Prelude.{
  ℕ, ◌+◌, ◌≤◌, true, false, none, some, List, [], ◌∷◌, if◌then◌else◌, ◌≡◌, refl,
}
use aws_remote_mcp.Prelude.Result.{ok}
use aws_remote_mcp.Json.{Fields, obj, text, end, field}
use aws_remote_mcp.Enrollment.Requests.{Network, response}
use aws_remote_mcp.Enrollment.{EnrollmentSession, Local, begin, verify, max_verify_attempts}
use aws_remote_mcp.Enrollment.Attempts.{
  Event, callback, submitted, is_verification, run, run-attempts,
}
use aws_remote_mcp.Enrollment.Completion.{IsCompleted, verify-IsCompleted}

abbrev answer : Fields
answer =
    field "access_token" (text "access")
      (field "SecretCode" (text "SECRET") (field "Status" (text "SUCCESS") end))

-- The world is the number of verification requests.
abbrev network : Network ℕ
network = record {
  urlopen =
      λ post n. (ok (response (ok (obj answer))), if is_verification post.target then n + 1 else n);
  random_token = λ n w. (ok "random", w);
  str = λ v. "value";
}

abbrev session : EnrollmentSession
session = record {
  authorization_server = "https://login";
  client_id = "client";
  region = "eu-west-1";
  port = 6276;
  verifier = "verifier";
  state = "state";
  form_token = "form";
  access_token = none;
  secret_code = none;
  verify_attempts = 0;
  completed = false;
}

abbrev fresh : Local ℕ
fresh = record { session = session; outside = 0 }

abbrev events : List Event
events = callback "code" "state" ∷ submitted "12345" "form" ∷ submitted "123456" "form" ∷ []

enrolled : (run network events fresh).session.completed ≡ true
unfolding run verify aws_remote_mcp.Prelude.Text.all begin
    aws_remote_mcp.Enrollment.Requests.post_form aws_remote_mcp.Json.get
    aws_remote_mcp.Enrollment.Requests.post_cognito aws_remote_mcp.Prelude.Text.length
enrolled = refl

one_request : (run network events fresh).outside ≡ 1
unfolding run verify aws_remote_mcp.Prelude.Text.all begin
    aws_remote_mcp.Enrollment.Requests.post_form aws_remote_mcp.Json.get
    aws_remote_mcp.Enrollment.Requests.post_cognito aws_remote_mcp.Prelude.Text.length
one_request = refl

run-attempts_example :
    ((run network events fresh).outside ≡ 0 + (run network events fresh).session.verify_attempts)
    × ((run network events fresh).session.verify_attempts ≤ max_verify_attempts)
run-attempts_example = run-attempts network (λ n. n) (λ post n. refl) events fresh refl

-- The session after its callback.
abbrev ready : Local ℕ
ready = record {
  session = record session {
    access_token = some "access";
    secret_code = some "SECRET";
    verifier = "";
  };
  outside = 0;
}

accepted : (verify network "123456" "form" ready).0 ≡ ok tt
unfolding verify aws_remote_mcp.Prelude.Text.all aws_remote_mcp.Prelude.Text.length
    aws_remote_mcp.Enrollment.Requests.post_cognito aws_remote_mcp.Json.get
accepted = refl

verify-IsCompleted_example :
    IsCompleted network "123456" "form" ready.session
      (verify network "123456" "form" ready).1.session
verify-IsCompleted_example = verify-IsCompleted network "123456" "form" ready accepted
