-- ===== src/Core/Calendar/RoundTrip.antt =====
-- A date that was read from an ISO text prints as that text.
use aws_remote_mcp.Prelude.{
  ℕ, zero, suc, ◌+◌, ◌-◌, ◌*◌, ◌/◌, ◌<◌, eqb, String, Bool, true, ◌&&◌, none, some, ◌≡◌, refl, sym,
  ap, arith, if◌then◌else◌,
}
use Prim.Native.Nat.{◌%◌}
use Prim.Native.Char.{Char, code}
use Prim.Native.String.{[] as end, ◌∷◌ as ◌∶◌}
use text.Mathlib.TextEquality.{Char-path}
use aws_remote_mcp.Prelude.Int.{digit}
use aws_remote_mcp.Prelude.Text.{is_digit}
use aws_remote_mcp.Core.Calendar.{Date, matches_iso, from_iso_format, iso_format}

code-digit : (n : ℕ) → n < 10 → code (digit n) ≡ 48 + n
unfolding digit
code-digit zero h = refl
code-digit (suc zero) h = refl
code-digit (suc (suc zero)) h = refl
code-digit (suc (suc (suc zero))) h = refl
code-digit (suc (suc (suc (suc zero)))) h = refl
code-digit (suc (suc (suc (suc (suc zero))))) h = refl
code-digit (suc (suc (suc (suc (suc (suc zero)))))) h = refl
code-digit (suc (suc (suc (suc (suc (suc (suc zero))))))) h = refl
code-digit (suc (suc (suc (suc (suc (suc (suc (suc zero)))))))) h = refl
code-digit (suc (suc (suc (suc (suc (suc (suc (suc (suc n))))))))) h = omega arith

digit-code : (c : Char) → is_digit (code c) ≡ true → digit (code c - 48) ≡ c
digit-code c h = Char-path (digit (code c - 48)) c (ground (arith, code-digit (code c - 48)))

digit_at : (c : Char) (k : ℕ) → is_digit (code c) ≡ true → k ≡ code c - 48 → digit k ≡ c
digit_at c k h e = rw e (digit-code c h)

dash_at : (c : Char) → eqb (code c) 45 ≡ true → "-" ≡ c
dash_at c h = Char-path "-" c (ground arith)

-- A character that is a digit stands for a number below ten.
value_bound : (c : Char) → is_digit (code c) ≡ true → code c - 48 < 10
value_bound c h = ground arith

four_digits :
    {n a b c d : ℕ}
    → n ≡ 1000 * a + 100 * b + 10 * c + d
    → a < 10
    → b < 10
    → c < 10
    → d < 10
    → (n / 1000 ≡ a) × (n / 100 % 10 ≡ b) × (n / 10 % 10 ≡ c) × (n % 10 ≡ d)
four_digits e ha hb hc hd = omega arith

two_digits : {n a b : ℕ} → n ≡ 10 * a + b → a < 10 → b < 10 → (n / 10 ≡ a) × (n % 10 ≡ b)
two_digits e ha hb = omega arith

-- What an accepted text says of its ten characters, over any results of their tests.
accepted :
    (b1 b2 b3 b4 b5 b6 b7 b8 b9 b10 v : Bool) {q r : Date}
    → (if (b1 && b2 && b3 && b4 && b5 && b6 && b7 && b8 && b9 && b10) && v then some q else none)
      ≡ some r
    → (b1 ≡ true)
      × (b2 ≡ true)
      × (b3 ≡ true)
      × (b4 ≡ true)
      × (b5 ≡ true)
      × (b6 ≡ true)
      × (b7 ≡ true)
      × (b8 ≡ true)
      × (b9 ≡ true)
      × (b10 ≡ true)
      × (q ≡ r)
accepted b1 b2 b3 b4 b5 b6 b7 b8 b9 b10 v h = ground arith

-- Reading an ISO text and printing the date gives the text back.
pub iso_format-from_iso_format :
    (t : String) (d : Date) → from_iso_format t ≡ some d → iso_format d ≡ t
unfolding from_iso_format iso_format matches_iso
iso_format-from_iso_format (a ∶ b ∶ c ∶ d ∶ x ∶ e ∶ f ∶ y ∶ g ∶ h ∶ end) r p =
    let (da, db, dc, dd, dx, de, df, dy, dg, dh, q) = accepted _ _ _ _ _ _ _ _ _ _ _ p in
    let year =
      four_digits (sym (ap (λ (t : Date). t.year) q)) (value_bound a da) (value_bound b db)
        (value_bound c dc) (value_bound d dd) in
    let month =
      two_digits (sym (ap (λ (t : Date). t.month) q)) (value_bound e de) (value_bound f df) in
    let day = two_digits (sym (ap (λ (t : Date). t.day) q)) (value_bound g dg) (value_bound h dh) in
    cc (
      digit_at a _ da year.0,
      digit_at b _ db year.1,
      digit_at c _ dc year.2,
      digit_at d _ dd year.3,
      dash_at x dx,
      digit_at e _ de month.0,
      digit_at f _ df month.1,
      dash_at y dy,
      digit_at g _ dg day.0,
      digit_at h _ dh day.1,
    )
iso_format-from_iso_format _ r p = cc
