-- ===== src/Prelude/Result.antt =====
-- Python's exceptions as values: the classes of the program, each with the fields that its handlers
-- read, and the outcome of a computation that may raise.
use Prim.Native.String.{String}
use mathlib.Core.Path.{◌≡◌, refl}
use mathlib.Core.Logic.{◌⊎◌, inl, inr}
use mathlib.Core.Bool.{Bool, true, false}

-- `unicode_decode_error` and `json_decode_error` are the two subclasses of `ValueError` that handlers
-- name; `value_error` is any other `ValueError`, and `unexpected` any other exception that a client library or a callback raises.
pub data Exception : Type 0 where
  confirmation_error : String → String → Exception
  cost_query_error : String → String → Exception
  cost_quota_error : String → String → Exception
  adapter_error : String → String → Bool → Exception
  operation_blocked : String → String → Exception
  write_limit_exceeded : Exception
  value_error : String → Exception
  unicode_decode_error : String → Exception
  json_decode_error : String → Exception
  runtime_error : String → Exception
  conditional_check_failed : Exception
  unexpected : String → Exception

pub data Result {ℓ} (A : Type ℓ) : Type ℓ where
  ok : A → Result A
  err : Exception → Result A

abbrev pub is_ok {ℓ} : {A : Type ℓ} → Result A → Bool
is_ok (ok a) = true
is_ok (err e) = false

-- One computation after another: an exception ends the rest.
infixl 5 ◌>>=◌ ◌>>◌
abbrev pub ◌>>=◌ {ℓ κ} : {A : Type ℓ} {B : Type κ} → Result A → (A → Result B) → Result B
ok a >>= f = f a
err e >>= f = err e

abbrev pub ◌>>◌ {ℓ κ} : {A : Type ℓ} {B : Type κ} → Result A → Result B → Result B
m >> n = m >>= λ _. n

-- The type of a call that returns `None`.
abbrev pub ⊤ : Type 0
⊤ = Unit

-- `if test: raise e`
abbrev pub raise_if : Bool → Exception → Result ⊤
raise_if true e = err e
raise_if false e = ok tt

pub Result-cases {ℓ} :
    {A : Type ℓ} (r : Result A) → ((a : A) × (r ≡ ok a)) ⊎ ((e : Exception) × (r ≡ err e))
Result-cases (ok a) = inl (a, refl)
Result-cases (err e) = inr (e, refl)
