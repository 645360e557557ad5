-- ===== src/Adapters/Inventory/Project/Whole.antt =====
-- The whole inventory of the project's stacks (adapters/aws_inventory.py): it always returns, within
-- its caps, and its counters and its flag are true.
use aws_remote_mcp.Prelude.{
  ℕ, suc, ◌+◌, ◌*◌, ◌≤◌, String, false, Option, none, some, List, [], ◌∷◌, ◌≡◌, refl, sym, inl, inr,
  arith, Bool-cases, length,
}
use aws_remote_mcp.Prelude.Result.{⊤, Result, ok, err}
use aws_remote_mcp.Json.{end}
use aws_remote_mcp.Core.Models.{Stdlib}
use aws_remote_mcp.Adapters.Protocols.{AwsAdapterResult}
use aws_remote_mcp.Adapters.Protocols as Protocols
use aws_remote_mcp.Adapters.Inventory.{AwsClients}
use aws_remote_mcp.Adapters.Inventory.Project.{
  Progress, list_pages, max_pages, incomplete, at_cap, first_page, is_nil, no_progress,
  inventory_record, result_of, with_client, project_stacks, list_stacks, project_inventory_result,
  list_project_cloudformation_resources,
}
use aws_remote_mcp.Adapters.Inventory.Project.Ends.{Ends}
use aws_remote_mcp.Adapters.Inventory.Project.Bounds.{
  Inv, IsReported, incomplete-IsReported, cleared-Inv,
}
use aws_remote_mcp.Adapters.Inventory.Project.Rounds.{list_pages-Ends}

Ends-then :
    {W : Type 0} {Q : Progress → W → Type 0} (R : Progress → W → Type 0) (o : Option (Progress × W))
    (k : Progress → W → Option (Progress × W))
    → Ends Q o
    → ((p : Progress) (w : W) → Q p w → Ends R (k p w))
    → Ends R (elim o [ none ↦ none | some (p, w) ↦ k p w ])
Ends-then R none k h each = absurd h
Ends-then R (some (p, w)) k h each = each p w h

Ends-weaken :
    {W : Type 0} {Q : Progress → W → Type 0} (R : Progress → W → Type 0) (o : Option (Progress × W))
    → Ends Q o
    → ((p : Progress) (w : W) → Q p w → R p w)
    → Ends R o
Ends-weaken R none h each = absurd h
Ends-weaken R (some (p, w)) h each = each p w h

-- What `_project_inventory_result` is given.
pub record IsInventory (p : Progress) : Type 0 where
  pub inv : Inv p
  pub flag : p.complete ≡ is_nil p.issues
  pub few_requests : p.sdk_requests ≤ max_pages * length project_stacks

module _ {W : Type 0} (std : Stdlib) (clients : AwsClients W) (requests : W → ℕ)
    (one : (stack : String) (token : Option String) (w : W)
      → requests (clients.list_stack_resources stack token w).1 ≡ requests w + 1) where
  record Finished (s0 c0 n : ℕ) (p : Progress) (w : W) : Type 0 where
    inv : Inv p
    flag : p.complete ≡ is_nil p.issues
    spent : p.sdk_requests ≤ s0 + max_pages * n
    counted : requests w + s0 ≡ c0 + p.sdk_requests

  list_stacks-Ends :
      (stacks : List String) (p : Progress) (w : W)
      → Inv p
      → p.complete ≡ is_nil p.issues
      → at_cap p ≡ false
      → Ends
          (Finished p.sdk_requests (requests w) (length stacks))
          (list_stacks std clients stacks p w)
  unfolding list_stacks
  list_stacks-Ends [] p w v f room = record {
    inv = v;
    flag = f;
    spent = omega arith;
    counted = omega arith;
  }
  list_stacks-Ends (stack ∷ stacks) p w v f room =
      Ends-then (Finished p.sdk_requests (requests w) (suc (length stacks)))
        (list_pages std clients (max_pages + 1) stack (first_page p) w) _
        (list_pages-Ends std clients requests p.sdk_requests (requests w) one stack p w v f room
          refl refl)
        λ p' w' h. elim (Bool-cases (at_cap p')) [
          | inl c ↦ rw c (record {
            inv = cleared-Inv p' h.inv;
            flag = sym (h.flagged.reported c);
            spent = omega (arith, h.spent);
            counted = h.counted;
          })
          | inr more ↦ rw more (
              Ends-weaken (Finished p.sdk_requests (requests w) (suc (length stacks)))
                (list_stacks std clients stacks p' w')
                (list_stacks-Ends stacks p' w' h.inv h.flagged.flag more)
                λ p'' w'' g. record {
                  inv = g.inv;
                  flag = g.flag;
                  spent = omega (arith, g.spent, h.spent);
                  counted = omega (arith, g.counted, h.counted);
                })
        ]

  -- The method returned a result that `AwsAdapterResult` accepts, made from a state within the caps.
  pub record Returned (region : String) (w : W) (o : Result AwsAdapterResult × W) : Type 0 where
    pub progress : Progress
    pub within : IsInventory progress
    pub result : AwsAdapterResult
    pub returned : o.0 ≡ ok result
    pub made : project_inventory_result region progress ≡ ok result
    pub accepted : Protocols.create result ≡ ok result
    pub counted : requests o.1 ≡ requests w + result.sdk_requests
    pub requests_reported : result.sdk_requests ≡ progress.sdk_requests
    pub resources_reported : result.resources ≡ length progress.resources

  accepted :
      (region : String) (p : Progress)
      → p.complete ≡ is_nil p.issues
      → Protocols.create (inventory_record region p) ≡ ok (inventory_record region p)
  unfolding Protocols.create
  accepted region p flag = ground arith

  -- A state whose flag is true makes a result that is accepted.
  result-Returned :
      (region : String) (p : Progress) (w w' : W)
      → IsInventory p
      → requests w' ≡ requests w + p.sdk_requests
      → Returned region w (project_inventory_result region p, w')
  unfolding project_inventory_result
  result-Returned region p w w' within counted = record {
    progress = p;
    within = within;
    result = inventory_record region p;
    returned = accepted region p within.flag;
    made = accepted region p within.flag;
    accepted = accepted region p within.flag;
    counted = counted;
    requests_reported = refl;
    resources_reported = refl;
  }

  no_progress-Inv : Inv no_progress
  no_progress-Inv = record { capped = omega arith; keys = refl; distinct = tt; codes = refl }

  listed-Returned :
      (region : String) (w w' : W)
      → requests w' ≡ requests w
      → Returned region w
          (result_of std clients region (list_stacks std clients project_stacks no_progress w') w')
  listed-Returned region w w' same =
      finished (list_stacks std clients project_stacks no_progress w')
        (list_stacks-Ends project_stacks no_progress w' no_progress-Inv refl refl)
    where
      finished :
          (o : Option (Progress × W))
          → Ends (Finished 0 (requests w') 4) o
          → Returned region w (result_of std clients region o w')
      finished none h = absurd h
      finished (some (p, w'')) h =
          result-Returned region p w w''
            (record { inv = h.inv; flag = h.flag; few_requests = omega (arith, h.spent) })
            (omega (arith, h.counted, same))

  -- With clients of which each stack listing is one request and making a client is none: for empty
  -- arguments, and whatever the service answers at each page, the inventory of the project's stacks
  -- returns a result that `AwsAdapterResult` accepts. It is made from a state with at most a hundred
  -- resources, no two of one stack and logical name, at most eighty requests, and a `complete` that is
  -- true exactly if no issue is reported; and the requests that it reports are those that were made.
  pub project_inventory-Returned :
      (region : String) (w : W)
      → ((service other : String) (w : W)
          → requests (clients.client_factory service other w).1 ≡ requests w)
      → Returned region w (list_project_cloudformation_resources std clients region end w)
  unfolding list_project_cloudformation_resources
  project_inventory-Returned region w quiet =
      made (clients.client_factory "cloudformation" region w) (quiet "cloudformation" region w)
    where
      unavailable : IsReported no_progress (
          incomplete "project_inventory_client_unavailable"
            "The CloudFormation inventory client could not be created." no_progress)
      unavailable =
          incomplete-IsReported "project_inventory_client_unavailable"
            "The CloudFormation inventory client could not be created." no_progress no_progress-Inv

      made :
          (o : Result ⊤ × W)
          → requests o.1 ≡ requests w
          → Returned region w (with_client std clients region o)
      made (ok _, w') same = listed-Returned region w w' same
      made (err e, w') same =
          result-Returned region _ w w'
            (record {
              inv = unavailable.inv;
              flag = unavailable.flagged.flag;
              few_requests = omega (arith, unavailable.same_requests);
            })
            (omega (arith, same, unavailable.same_requests))
