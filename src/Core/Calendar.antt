-- ===== src/Core/Calendar.antt =====
-- What the program uses of Python's `datetime`: calendar dates, their ordinals and ISO texts.
pub mod RoundTrip
use aws_remote_mcp.Prelude.{
  ℕ, zero, suc, ◌+◌, ◌-◌, ◌*◌, ◌/◌, leb, eqb, String, Bool, false, not, ◌&&◌, ◌||◌, Option, none,
  some, if◌then◌else◌,
}
use Prim.Native.Nat.{◌%◌}
use Prim.Native.Char.{Char, code}
use Prim.Native.String.{[] as end, ◌∷◌ as ◌∶◌}
use aws_remote_mcp.Prelude.Int.{digit}
use aws_remote_mcp.Prelude.Text.{is_digit}

pub record Date : Type 0 where
  pub year : ℕ
  pub month : ℕ
  pub day : ℕ

unfoldable pub is_leap : ℕ → Bool
is_leap y = eqb (y % 4) 0 && (not (eqb (y % 100) 0) || eqb (y % 400) 0)

unfoldable pub days_in_month : ℕ → ℕ → ℕ
unfolding is_leap
days_in_month y m =
    if eqb m 2
    then (if is_leap y then 29 else 28)
    else if eqb m 4 || eqb m 6 || eqb m 9 || eqb m 11
    then 30
    else 31

-- The days of the months before `m`.
unfoldable pub days_before_month : ℕ → ℕ → ℕ
unfolding days_in_month
days_before_month y zero = 0
days_before_month y (suc m) = if eqb m 0 then 0 else days_before_month y m + days_in_month y m

unfoldable pub days_before_year : ℕ → ℕ
days_before_year y = let p = y - 1 in p * 365 + p / 4 - p / 100 + p / 400

-- `date.toordinal`
unfoldable pub ordinal : Date → ℕ
unfolding days_before_year days_before_month
ordinal d = days_before_year d.year + days_before_month d.year d.month + d.day

-- `datetime(year, month, 1, tzinfo=UTC).timestamp()`, from 1970 on.
unfoldable pub month_timestamp : ℕ → ℕ → ℕ
unfolding ordinal
month_timestamp y m = (ordinal (record { year = y; month = m; day = 1 }) - 719_163) * 86_400

-- The range that `date` accepts.
unfoldable pub is_valid : Date → Bool
unfolding days_in_month
is_valid d =
    leb 1 d.year
    && leb d.year 9999
    && leb 1 d.month
    && leb d.month 12
    && leb 1 d.day
    && leb d.day (days_in_month d.year d.month)

abbrev value : Char → ℕ
value c = code c - 48

-- `re.fullmatch` of four, two and two digits with dashes between.
unfoldable pub matches_iso : (ℕ → Bool) → String → Bool
matches_iso p (a ∶ b ∶ c ∶ d ∶ x ∶ e ∶ f ∶ y ∶ g ∶ h ∶ end) =
    p (code a)
    && p (code b)
    && p (code c)
    && p (code d)
    && eqb (code x) 45
    && p (code e)
    && p (code f)
    && eqb (code y) 45
    && p (code g)
    && p (code h)
matches_iso p _ = false

-- `date.fromisoformat` of a text of that shape: it takes ASCII digits and a date in range.
unfoldable pub from_iso_format : String → Option Date
unfolding is_valid
from_iso_format (a ∶ b ∶ c ∶ d ∶ x ∶ e ∶ f ∶ y ∶ g ∶ h ∶ end) =
    let parsed : Date = record {
      year = 1000 * value a + 100 * value b + 10 * value c + value d;
      month = 10 * value e + value f;
      day = 10 * value g + value h;
    } in
    if matches_iso is_digit (a ∶ b ∶ c ∶ d ∶ x ∶ e ∶ f ∶ y ∶ g ∶ h ∶ end) && is_valid parsed
    then some parsed
    else none
from_iso_format _ = none

-- `date.isoformat`
unfoldable pub iso_format : Date → String
unfolding digit
iso_format d =
    digit (d.year / 1000)
    ∶ digit (d.year / 100 % 10)
    ∶ digit (d.year / 10 % 10)
    ∶ digit (d.year % 10)
    ∶ "-"
    ∶ digit (d.month / 10)
    ∶ digit (d.month % 10)
    ∶ "-"
    ∶ digit (d.day / 10)
    ∶ digit (d.day % 10)
    ∶ end
