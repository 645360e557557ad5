-- ===== src/Adapters/Inventory/Project/Ends.antt =====
-- The loop over the pages of a stack (adapters/aws_inventory.py) ends by itself: a rule for what holds
-- when it does.
use aws_remote_mcp.Prelude.{ℕ, zero, suc, ◌+◌, ◌≤◌, ◌<◌, String, Option, none, some, ◌≡◌, arith}
use aws_remote_mcp.Core.Models.{Stdlib}
use aws_remote_mcp.Adapters.Inventory.{AwsClients}
use aws_remote_mcp.Adapters.Inventory.Project.{
  Progress, Paging, Round, done, next, round, list_pages, max_pages,
}

-- The loop ended, in a state with the property.
abbrev pub Ends : {W : Type 0} → (Progress → W → Type 0) → Option (Progress × W) → Type 0
Ends Q none = ⊥
Ends Q (some (p, w)) = Q p w

module _ {W : Type 0} (std : Stdlib) (clients : AwsClients W) where
  -- A round that ends has `Q`; one that goes on keeps `I` and read one page more, below the limit.
  abbrev pub Keeps : (Paging → W → Type 0) → (Progress → W → Type 0) → Paging → Round × W → Type 0
  Keeps I Q l (done p, w) = Q p w
  Keeps I Q l (next l', w) = I l' w × (l'.pages ≡ l.pages + 1) × (l.pages < max_pages)

  after_round :
      (I : Paging → W → Type 0) (Q : Progress → W → Type 0) (l : Paging)
      (rest : Paging → W → Option (Progress × W)) (r : Round × W)
      → Keeps I Q l r
      → ((l' : Paging) (w' : W)
          → I l' w'
          → l'.pages ≡ l.pages + 1
          → l.pages < max_pages
          → Ends Q (rest l' w'))
      → Ends Q (elim r.0 [ done p ↦ some (p, r.1) | next l' ↦ rest l' r.1 ])
  after_round I Q l rest (done p, w') k each = k
  after_round I Q l rest (next l', w') k each = each l' w' k.0 k.1 k.2

  pub list_pages_rule :
      (I : Paging → W → Type 0) (Q : Progress → W → Type 0) (stack : String)
      → ((l : Paging) (w : W) → I l w → Keeps I Q l (round std clients stack l w))
      → (fuel : ℕ) (l : Paging) (w : W) → max_pages < fuel + l.pages
      → l.pages ≤ max_pages
      → I l w
      → Ends Q (list_pages std clients fuel stack l w)
  unfolding list_pages
  list_pages_rule I Q stack keep zero l w enough below h = absurd (omega arith)
  list_pages_rule I Q stack keep (suc fuel) l w enough below h =
      after_round I Q l (list_pages std clients fuel stack) (round std clients stack l w)
        (keep l w h)
        λ l' w' h' one more.
          list_pages_rule I Q stack keep fuel l' w' (omega (arith, one, enough))
            (omega (arith, one, more)) h'
