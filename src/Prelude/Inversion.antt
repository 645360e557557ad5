-- ===== src/Prelude/Inversion.antt =====
-- What follows from a computation that may raise having returned.
use aws_remote_mcp.Prelude.{Bool, true, false, not, ◌≡◌, refl, sym, arith}
use aws_remote_mcp.Prelude.Result.{⊤, Exception, Result, ok, err, raise_if}
use aws_remote_mcp.Prelude.Result

pub bind_inv :
    {A B : Type 0} (r : Result A) (k : A → Result B) (b : B)
    → Result.◌>>=◌ r k ≡ ok b
    → (a : A) × (r ≡ ok a) × (k a ≡ ok b)
bind_inv (ok a) k b e = (a, refl, e)
bind_inv (err x) k b e = grind (arith, e)

pub raise_if_inv : (t : Bool) (x : Exception) (a : ⊤) → raise_if t x ≡ ok a → t ≡ false
raise_if_inv true x a e = grind (arith, e)
raise_if_inv false x a e = refl

pub not_inv : (b : Bool) → not b ≡ false → b ≡ true
not_inv true h = refl
not_inv false h = sym h

pub ok_inv : {A : Type 0} (a b : A) → ◌≡◌ {A = Result A} (ok a) (ok b) → a ≡ b
ok_inv a b e = grind (arith, e)
