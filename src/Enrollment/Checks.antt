-- ===== src/Enrollment/Checks.antt =====
-- scripts/enroll_cognito_totp.py: what has to hold for a submitted form to pass the checks of `verify`.
use aws_remote_mcp.Prelude.{
  ℕ, ◌<◌, leb, String, Bool, true, false, not, Option, none, some, ◌==◌, ◌≡◌, sym, subst, ◌∙◌,
  arith, eq_true→eq,
}
use aws_remote_mcp.Prelude.Result.{ok, raise_if}
use aws_remote_mcp.Prelude.Inversion.{bind_inv, raise_if_inv, not_inv, ok_inv}
use aws_remote_mcp.Enrollment.{
  EnrollmentSession, max_verify_attempts, check_verify, compare_digest, is_code, ready_token,
}

below_inv : (n : ℕ) → leb max_verify_attempts n ≡ false → n < max_verify_attempts
below_inv n h = ground (arith, h)

compare_digest_inv : (a b : String) (same : Bool) → compare_digest a b ≡ ok same → same ≡ (a == b)
unfolding compare_digest
compare_digest_inv a b same e = grind (arith, e)

ready_token_inv :
    (access secret : Option String) (token : String)
    → ready_token access secret ≡ ok token
    → access ≡ some token
ready_token_inv (some a) (some s) token e = grind (arith, e)
ready_token_inv none s token e = grind (arith, e)
ready_token_inv (some a) none token e = grind (arith, e)

-- The form is the session's own, its code has six digits, the session is ready, and an attempt is left.
pub record IsAdmitted (s : EnrollmentSession) (user_code form_token token : String) : Type 0 where
  pub own_form : form_token ≡ s.form_token
  pub six_digits : is_code user_code ≡ true
  pub ready : s.access_token ≡ some token
  pub attempt_left : s.verify_attempts < max_verify_attempts

pub check_verify-IsAdmitted :
    (s : EnrollmentSession) (user_code form_token token : String)
    → check_verify s user_code form_token ≡ ok token
    → IsAdmitted s user_code form_token token
unfolding check_verify
check_verify-IsAdmitted s user_code form_token token e =
    let (same, a, r1) = bind_inv (compare_digest form_token s.form_token) _ token e in
    let (x, b, r2) = bind_inv (raise_if (not same) _) _ token r1 in
    let (y, c, r3) = bind_inv (raise_if (not (is_code user_code)) _) _ token r2 in
    let (t, d, r4) = bind_inv (ready_token s.access_token s.secret_code) _ token r3 in
    let (z, f, r5) = bind_inv (raise_if (leb max_verify_attempts s.verify_attempts) _) _ token r4 in
    record {
      own_form = eq_true→eq form_token s.form_token (
          sym (compare_digest_inv form_token s.form_token same a)
          ∙ not_inv same (raise_if_inv (not same) _ x b));
      six_digits = not_inv (is_code user_code) (raise_if_inv (not (is_code user_code)) _ y c);
      ready =
          subst (λ v. s.access_token ≡ some v) (ok_inv t token r5)
            (ready_token_inv s.access_token s.secret_code t d);
      attempt_left =
          below_inv s.verify_attempts
            (raise_if_inv (leb max_verify_attempts s.verify_attempts) _ z f);
    }
