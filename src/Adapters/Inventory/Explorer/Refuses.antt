-- ===== src/Adapters/Inventory/Explorer/Refuses.antt =====
-- adapters/aws_inventory.py: the checks of a search's arguments raise nothing but `AdapterError`.
use aws_remote_mcp.Prelude.{
  eqb, String, Bool, true, false, Option, none, some, List, [], ◌∷◌, ◌≡◌, refl, arith,
}
use aws_remote_mcp.Prelude.Result.{⊤, Exception, Result, ok, err, adapter_error}
use aws_remote_mcp.Prelude.Result
use aws_remote_mcp.Prelude.Int.{pos}
use aws_remote_mcp.Json.{Json, num, text}
use aws_remote_mcp.Core.Models.{Stdlib}
use aws_remote_mcp.Adapters.Inventory.Explorer.Query.{
  validate_resource_explorer_query, check_token, check_tokens, normalized, checked_query,
}
use aws_remote_mcp.Adapters.Inventory.Explorer.Search.{query_of, limit_of}
use aws_remote_mcp.Prelude.Split.{split_by, words, join}
use aws_remote_mcp.Core.Models.{is_whitespace}

abbrev pub is_adapter_error : Exception → Bool
is_adapter_error (adapter_error _ _ _) = true
is_adapter_error _ = false

-- Whatever the result, an error in it is the one that the service handles.
abbrev pub refuses {ℓ} : {A : Type ℓ} → Result A → Bool
refuses (ok _) = true
refuses (err e) = is_adapter_error e

check_token-refuses :
    (std : Stdlib) (token : String) (seen : List String)
    → refuses (check_token std token seen) ≡ true
unfolding check_token
check_token-refuses std token seen = ground arith

next-refuses :
    (r : Result (List String)) (k : List String → Result ⊤)
    → refuses r ≡ true
    → ((seen : List String) → refuses (k seen) ≡ true)
    → refuses (Result.◌>>=◌ r k) ≡ true
next-refuses (ok seen) k h each = each seen
next-refuses (err e) k h each = h

check_tokens-refuses :
    (std : Stdlib) (tokens seen : List String) → refuses (check_tokens std tokens seen) ≡ true
unfolding check_tokens
check_tokens-refuses std [] seen = refl
check_tokens-refuses std (token ∷ tokens) seen =
    next-refuses (check_token std token seen) (check_tokens std tokens)
      (check_token-refuses std token seen) (check_tokens-refuses std tokens)

checked_query-refuses :
    (t : String) (r : Result ⊤) → refuses r ≡ true → refuses (checked_query t r) ≡ true
checked_query-refuses t (ok _) h = refl
checked_query-refuses t (err e) h = h

pub query_of-refuses : (v : Option Json) → refuses (query_of v) ≡ true
query_of-refuses none = refl
query_of-refuses (some (text t)) = refl
query_of-refuses (some _) = refl

pub limit_of-refuses : (v : Option Json) → refuses (limit_of v) ≡ true
limit_of-refuses none = refl
limit_of-refuses (some (num (pos n))) = ground arith
limit_of-refuses (some _) = refl

normalized-refuses : (std : Stdlib) (t : String) → refuses (normalized std t) ≡ true
normalized-refuses std t = ground (
  arith,
  checked_query-refuses t (check_tokens std (split_by (λ c. eqb c 32) t) []),
  check_tokens-refuses std (split_by (λ c. eqb c 32) t) [],
)

pub validate_query-refuses :
    (std : Stdlib) (query : String) → refuses (validate_resource_explorer_query std query) ≡ true
unfolding validate_resource_explorer_query
validate_query-refuses std query =
    ground (arith, normalized-refuses std (join " " (words (is_whitespace std) query)))
