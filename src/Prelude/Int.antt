-- ===== src/Prelude/Int.antt =====
-- Python's integers: `negsuc n` is -(n + 1).
use Prim.Native.Nat.{ℕ, zero, suc, ◌/◌, ◌%◌}
use Prim.Native.Char.{Char}
use Prim.Native.String.{String, [], ◌∷◌}
use mathlib.Core.Bool.{Bool, true, false}
use aws_remote_mcp.Prelude.Tests.{ltb, leb, if◌then◌else◌}
use aws_remote_mcp.Prelude.Text.{◌++◌}

pub data ℤ : Type 0 where
  pos : ℕ → ℤ
  negsuc : ℕ → ℤ

-- `a <= b` for a non-negative `a`.
abbrev pub nat_leb : ℕ → ℤ → Bool
nat_leb a (pos b) = leb a b
nat_leb a (negsuc b) = false

-- `a <= b` for a non-negative `b`.
abbrev pub leb_nat : ℤ → ℕ → Bool
leb_nat (pos a) b = leb a b
leb_nat (negsuc a) b = true

-- The decimal digit of a number below ten.
unfoldable pub digit : ℕ → Char
digit zero = "0"
digit (suc zero) = "1"
digit (suc (suc zero)) = "2"
digit (suc (suc (suc zero))) = "3"
digit (suc (suc (suc (suc zero)))) = "4"
digit (suc (suc (suc (suc (suc zero))))) = "5"
digit (suc (suc (suc (suc (suc (suc zero)))))) = "6"
digit (suc (suc (suc (suc (suc (suc (suc zero))))))) = "7"
digit (suc (suc (suc (suc (suc (suc (suc (suc zero)))))))) = "8"
digit (suc (suc (suc (suc (suc (suc (suc (suc (suc n))))))))) = "9"

-- The digits of `n` in front of a text; `suc n` rounds are enough, since each divides by ten.
digits_before : ℕ → ℕ → String → String
unfolding digit
digits_before zero n s = s
digits_before (suc f) n s =
    let more = digits_before f (n / 10) (digit (n % 10) ∷ s) in
    if ltb n 10 then digit n ∷ s else more

-- `str(n)`
unfoldable pub show_nat : ℕ → String
unfolding digits_before
show_nat n = digits_before (suc n) n []

unfoldable pub show : ℤ → String
unfolding show_nat
show (pos n) = show_nat n
show (negsuc n) = "-" ++ show_nat (suc n)
