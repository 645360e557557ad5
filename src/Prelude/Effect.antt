-- ===== src/Prelude/Effect.antt =====
-- Actions that read and change a world and may raise. What was written before a raise stays
-- written, so the world comes back beside the exception.
use mathlib.Core.Option.{Option, none, some}
use aws_remote_mcp.Prelude.Result.{Exception, Result, ok, err}

abbrev pub Action {ℓ} : Type ℓ → Type ℓ → Type ℓ
Action W A = W → Result A × W

module _ {ℓ} {W A : Type ℓ} where
  abbrev pub pure : A → Action W A
  pure a w = (ok a, w)

  abbrev pub raise : Exception → Action W A
  raise e w = (err e, w)

  -- A computation that may raise and leaves the world alone.
  abbrev pub lift : Result A → Action W A
  lift r w = (r, w)

  -- A handler that does not name the class of the exception is `none`: the exception goes on.
  abbrev pub recover : Option A → Exception → Action W A
  recover none e w = (err e, w)
  recover (some a) e w = (ok a, w)

module _ {ℓ} {W A B : Type ℓ} where
  abbrev pub continue : Result A → (A → Action W B) → Action W B
  continue (ok a) f w = f a w
  continue (err e) f w = (err e, w)

  infixl 5 ◌>>=◌ ◌>>◌
  abbrev pub ◌>>=◌ : Action W A → (A → Action W B) → Action W B
  ◌>>=◌ m f w = let (r, w') = m w in continue r f w'

  abbrev pub ◌>>◌ : Action W A → Action W B → Action W B
  m >> n = m >>= λ _. n

  -- `try: a = m; except ...: return h` followed by the rest `f`.
  abbrev pub resume : Result A → (Exception → Option B) → (A → Action W B) → Action W B
  resume (ok a) h f w = f a w
  resume (err e) h f w = recover (h e) e w

  abbrev pub try : Action W A → (Exception → Option B) → (A → Action W B) → Action W B
  try m h f w = let (r, w') = m w in resume r h f w'
