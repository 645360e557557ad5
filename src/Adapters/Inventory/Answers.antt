-- ===== src/Adapters/Inventory/Answers.antt =====
-- adapters/aws_inventory.py: the results of `execute` are within the caps and accepted. The children count the requests.
pub mod Counts
pub mod Outcomes
use aws_remote_mcp.Prelude.{
  ℕ, ◌+◌, ◌≤◌, String, Option, none, some, List, [], ◌∷◌, ◌≡◌, refl, sym, subst, inl, inr, arith,
  Bool-cases, Option-cases, length, take, length-take-le,
}
use aws_remote_mcp.Prelude.Result.{Result, ok, err}
use aws_remote_mcp.Prelude.Text
use aws_remote_mcp.Prelude.Result
use aws_remote_mcp.Json
use aws_remote_mcp.Json.{Json, obj, Fields, get}
use aws_remote_mcp.Core.Models.{Stdlib}
use aws_remote_mcp.Adapters.Protocols.{AwsAdapterResult}
use aws_remote_mcp.Adapters.Protocols as Protocols
use aws_remote_mcp.Adapters.Values.{as_list}
use aws_remote_mcp.Adapters.Inventory.{
  create, list_or, read_page, entry_of, resources_of, resource_of, cons_some,
}
use aws_remote_mcp.Adapters.Inventory.Explorer.Item.{sanitize_resource_explorer_item}
use aws_remote_mcp.Adapters.Inventory.Explorer.Search.{
  max_explorer_results, search_answer, read_search, sanitized_items, resource_explorer_failure,
}

-- A result that `AwsAdapterResult` accepts, within the caps on requests and resources.
pub record IsAnswer (r : AwsAdapterResult) : Type 0 where
  pub accepted : Protocols.create r ≡ ok r
  pub few_requests : r.sdk_requests ≤ 80
  pub few_resources : r.resources ≤ 100

-- A result of that kind, with its number of requests.
abbrev pub Answers : ℕ → Result AwsAdapterResult → Type 0
Answers n (ok r) = IsAnswer r × (r.sdk_requests ≡ n)
Answers n (err e) = ⊥

length-cons_some : (v : Option Json) (vs : List Json) → length (cons_some v vs) ≤ length vs + 1
length-cons_some none vs = omega arith
length-cons_some (some v) vs = omega arith

length-resources_of : (f : Fields → Json) (vs : List Json) → length (resources_of f vs) ≤ length vs
unfolding resources_of
length-resources_of f [] = omega arith
length-resources_of f (v ∷ vs) =
    omega (arith, length-cons_some (resource_of f v) (resources_of f vs), length-resources_of f vs)

length-sanitized_items :
    (std : Stdlib) (items : List Json) → length (sanitized_items std items).0 ≤ length items
unfolding sanitized_items
length-sanitized_items std [] = omega arith
length-sanitized_items std (item ∷ items) = omega (
  arith,
  length-cons_some (sanitize_resource_explorer_item std item) (sanitized_items std items).0,
  length-sanitized_items std items,
)

pub failure-Answers :
    (query : String) (limit : ℕ) (region code message : String) (n : ℕ)
    → n ≤ 1
    → Answers n (resource_explorer_failure query limit region code message n)
unfolding resource_explorer_failure Protocols.create
failure-Answers query limit region code message n few = (
  record { accepted = refl; few_requests = omega (arith, few); few_resources = omega arith },
  refl,
)

pub kept-Answers :
    (r : AwsAdapterResult)
    → Protocols.create r ≡ ok r
    → r.sdk_requests ≤ 80
    → r.resources ≤ 100
    → Answers r.sdk_requests (Protocols.create r)
kept-Answers r made requests resources =
    subst (Answers r.sdk_requests) (sym made)
      (record { accepted = made; few_requests = requests; few_resources = resources }, refl)

search_answer-accepted :
    (std : Stdlib) (region query : String) (limit : ℕ) (response : Fields) (items : List Json)
    → Protocols.create (search_answer std region query limit response items)
      ≡ ok (search_answer std region query limit response items)
unfolding Protocols.create
search_answer-accepted std region query limit response items =
    elim (Bool-cases (sanitized_items std (take limit items)).1) [
      | inl e ↦ ground (arith, e)
      | inr e ↦ ground (arith, e)
    ]

pub search_answer-Answers :
    (std : Stdlib) (region query : String) (limit : ℕ) (response : Fields) (items : List Json)
    → limit ≤ max_explorer_results
    → Answers 1 (Protocols.create (search_answer std region query limit response items))
search_answer-Answers std region query limit response items few =
    kept-Answers (search_answer std region query limit response items)
      (search_answer-accepted std region query limit response items) (omega arith)
      (omega
        (arith, few, length-sanitized_items std (take limit items), length-take-le limit items))

pub read_search-Answers :
    (std : Stdlib) (region query : String) (limit : ℕ) (r : Result Json)
    → limit ≤ max_explorer_results
    → Answers 1 (read_search std region query limit r)
read_search-Answers std region query limit (err e) few =
    failure-Answers query limit region _ _ 1 (omega arith)
read_search-Answers std region query limit (ok (obj response)) few =
    elim (Option-cases (as_list (get "Resources" response))) [
      | inl e ↦ rw e (failure-Answers query limit region _ _ 1 (omega arith))
      | inr (items, e) ↦ rw e (search_answer-Answers std region query limit response items few)
    ]
read_search-Answers std region query limit (ok _) few =
    failure-Answers query limit region _ _ 1 (omega arith)

pub read_page-Few :
    (limit : ℕ) (key next : String) (f : Fields → Json) (response : Option Fields)
    → (entry_of (read_page limit key next f response)).1 ≤ limit
read_page-Few limit key next f none = omega arith
read_page-Few limit key next f (some response) = elim (Option-cases (list_or (get key response))) [
  | inl e ↦ rw (e, entry_of) (omega arith)
  | inr (items, e) ↦
      rw (e, entry_of)
        (omega (arith, length-resources_of f (take limit items), length-take-le limit items))
]
