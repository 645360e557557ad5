-- ===== src/Adapters/Inventory/Project/Rounds.antt =====
-- The rounds of the page loop (adapters/aws_inventory.py) keep the bookkeeping and count the requests.
use aws_remote_mcp.Prelude.{
  ℕ, ◌+◌, ◌≤◌, ◌<◌, leb, String, false, Option, none, some, List, ◌∷◌, ◌≡◌, refl, inl, inr, arith,
  Bool-cases, contains,
}
use aws_remote_mcp.Prelude.Result.{Result, ok, err}
use aws_remote_mcp.Json.{Json, text, arr, obj, Fields, get}
use aws_remote_mcp.Core.Models.{Stdlib}
use aws_remote_mcp.Adapters.Inventory.{AwsClients}
use aws_remote_mcp.Adapters.Inventory.Project.{
  Progress, Paging, round, list_pages, max_pages, incomplete, add_items, at_cap, follow,
  after_items, read_items, read_response, count_request, first_page, is_nil,
}
use aws_remote_mcp.Adapters.Inventory.Project.Ends.{Ends, Keeps, list_pages_rule}
use aws_remote_mcp.Adapters.Inventory.Project.Bounds.{
  Inv, IsFlagged, IsAdded, incomplete-IsReported, add_items-IsAdded,
}
use aws_remote_mcp.Adapters.Values
use aws_remote_mcp.Prelude.Text

module _ {W : Type 0} (std : Stdlib) (clients : AwsClients W) (requests : W → ℕ) (s0 c0 : ℕ) where
  -- Between two rounds: as many requests were made as pages were read.
  pub record Going (l : Paging) (w : W) : Type 0 where
    pub inv : Inv l.progress
    pub flag : l.progress.complete ≡ is_nil l.progress.issues
    pub room : at_cap l.progress ≡ false
    pub spent : l.progress.sdk_requests ≡ s0 + l.pages
    pub counted : requests w ≡ c0 + l.pages
    pub bound : l.pages ≤ max_pages

  -- After the loop.
  pub record Listed (p : Progress) (w : W) : Type 0 where
    pub inv : Inv p
    pub flagged : IsFlagged p
    pub spent : p.sdk_requests ≤ s0 + max_pages
    pub counted : requests w + s0 ≡ c0 + p.sdk_requests

  -- After a round's request, with the page not yet counted.
  record Asked (l : Paging) (w : W) : Type 0 where
    inv : Inv l.progress
    flag : l.progress.complete ≡ is_nil l.progress.issues
    room : at_cap l.progress ≡ false
    below : l.pages < max_pages
    spent : l.progress.sdk_requests ≡ s0 + l.pages + 1
    counted : requests w ≡ c0 + l.pages + 1

  reported_Listed :
      (code message : String) (p : Progress) (w : W)
      → Inv p
      → p.sdk_requests ≤ s0 + max_pages
      → requests w + s0 ≡ c0 + p.sdk_requests
      → Listed (incomplete code message p) w
  reported_Listed code message p w v spent counted =
      let r = incomplete-IsReported code message p v in
      record {
        inv = r.inv;
        flagged = r.flagged;
        spent = omega (arith, r.same_requests, spent);
        counted = omega (arith, r.same_requests, counted);
      }

  asked_reported :
      (code message : String) (l : Paging) (w : W)
      → Asked l w
      → Listed (incomplete code message l.progress) w
  asked_reported code message l w a =
      reported_Listed code message l.progress w a.inv (omega (arith, a.spent, a.below))
        (omega (arith, a.spent, a.counted))

  module _ (stack : String) (l : Paging) (w : W) (a : Asked l w) where
    abbrev counted_page : Progress → Paging
    counted_page p = record l { pages = l.pages + 1; progress = p }

    listed : (p : Progress) → IsAdded l.progress p → at_cap p ≡ false → Listed p w
    listed p h room = record {
      inv = h.inv;
      flagged = record { flag = h.mid room; reported = λ c. ground (arith, room, c) };
      spent = omega (arith, h.same_requests, a.spent, a.below);
      counted = omega (arith, h.same_requests, a.spent, a.counted);
    }

    complained :
        (code message : String) (p : Progress)
        → IsAdded l.progress p
        → Listed (incomplete code message p) w
    complained code message p h =
        reported_Listed code message p w h.inv (omega (arith, h.same_requests, a.spent, a.below))
          (omega (arith, h.same_requests, a.spent, a.counted))

    going :
        (p : Progress) (token : Option String) (tokens : List String)
        → IsAdded l.progress p
        → at_cap p ≡ false
        → Going (record (counted_page p) { next_token = token; seen_tokens = tokens }) w
    going p token tokens h room = record {
      inv = h.inv;
      flag = h.mid room;
      room = room;
      spent = omega (arith, h.same_requests, a.spent);
      counted = omega (arith, a.counted);
      bound = omega (arith, a.below);
    }

    follow-Keeps :
        (p : Progress) (token : Option Json)
        → IsAdded l.progress p
        → at_cap p ≡ false
        → Keeps std clients Going Listed l (follow (counted_page p) token, w)
    follow-Keeps p none h room = listed p h room
    follow-Keeps p (some (text t)) h room = elim (Bool-cases (Text.is_empty t)) [
      | inl e ↦ rw e (
          complained "project_inventory_invalid_token"
            "CloudFormation returned an invalid pagination token." p h)
      | inr e ↦ rw e (elim (Bool-cases (contains t l.seen_tokens)) [
        | inl d ↦ rw d (
            complained "project_inventory_repeated_token"
              "CloudFormation repeated a pagination token." p h)
        | inr d ↦ rw d (going p (some t) (t ∷ l.seen_tokens) h room, refl, a.below)
      ])
    ]
    follow-Keeps p (some _) h room =
        complained "project_inventory_invalid_token"
          "CloudFormation returned an invalid pagination token." p h

    after_items-Keeps :
        (p : Progress) (token : Option Json)
        → IsAdded l.progress p
        → Keeps std clients Going Listed l (after_items (counted_page p) token, w)
    after_items-Keeps p token h = elim (Bool-cases (at_cap p)) [
      | inl c ↦ rw c (
          complained "project_inventory_resource_limit"
            "Project inventory reached its defensive resource limit." p h)
      | inr room ↦ rw room (follow-Keeps p token h room)
    ]

    read_items-Keeps :
        (response : Fields) (items : Option Json)
        → Keeps std clients Going Listed l
            (read_items std stack (counted_page l.progress) response items, w)
    read_items-Keeps response none =
        asked_reported "project_inventory_invalid_response"
          "CloudFormation returned an incomplete stack response." l w a
    read_items-Keeps response (some (arr items)) =
        after_items-Keeps (add_items std stack (Values.elements items) l.progress)
          (get "NextToken" response)
          (add_items-IsAdded std stack (Values.elements items) l.progress a.inv a.flag)
    read_items-Keeps response (some _) =
        asked_reported "project_inventory_invalid_response"
          "CloudFormation returned an invalid resource list." l w a

    read_response-Keeps :
        (response : Result Json)
        → Keeps std clients Going Listed l (read_response std stack l response, w)
    read_response-Keeps (err e) =
        asked_reported "project_inventory_stack_unavailable"
          "A project CloudFormation stack could not be read." l w a
    read_response-Keeps (ok (obj response)) =
        read_items-Keeps response (get "StackResourceSummaries" response)
    read_response-Keeps (ok _) =
        asked_reported "project_inventory_invalid_response"
          "CloudFormation returned an invalid stack response." l w a

  module _
      (one : (stack : String) (token : Option String) (w : W)
        → requests (clients.list_stack_resources stack token w).1 ≡ requests w + 1) where
    asked :
        (stack : String) (l : Paging) (w : W)
        → Going l w
        → l.pages < max_pages
        → Asked (count_request l) (clients.list_stack_resources stack l.next_token w).1
    asked stack l w g below = record {
      inv = record {
        capped = g.inv.capped;
        keys = g.inv.keys;
        distinct = g.inv.distinct;
        codes = g.inv.codes;
      };
      flag = g.flag;
      room = g.room;
      below = below;
      spent = omega (arith, g.spent);
      counted = omega (arith, g.counted, one stack l.next_token w);
    }

    round-Keeps :
        (stack : String) (l : Paging) (w : W)
        → Going l w
        → Keeps std clients Going Listed l (round std clients stack l w)
    unfolding round
    round-Keeps stack l w g = elim (Bool-cases (leb max_pages l.pages)) [
      | inl e ↦ rw e (
          reported_Listed "project_inventory_page_limit"
            "Project inventory reached its defensive page limit." l.progress w g.inv
            (omega (arith, g.spent, g.bound)) (omega (arith, g.spent, g.counted)))
      | inr e ↦ rw e (
          let w' = (clients.list_stack_resources stack l.next_token w).1 in
          read_response-Keeps stack (count_request l) w' (asked stack l w g (ground (arith, e)))
            (clients.list_stack_resources stack l.next_token w).0)
    ]

    -- With clients of which each stack listing is one request: from a state whose resources are below
    -- the cap, with distinct keys and a true `complete` exactly if it has no issues, and whatever the
    -- service answers and whichever tokens it gives, the loop over a stack's pages ends before its fuel
    -- of twenty one rounds is used up. It made at most twenty requests, each counted in the state, and
    -- the state it ends in is within the cap, has distinct keys, and reports the end at the cap.
    pub list_pages-Ends :
        (stack : String) (p : Progress) (w : W)
        → Inv p
        → p.complete ≡ is_nil p.issues
        → at_cap p ≡ false
        → p.sdk_requests ≡ s0
        → requests w ≡ c0
        → Ends Listed (list_pages std clients (max_pages + 1) stack (first_page p) w)
    list_pages-Ends stack p w v f room s c =
        list_pages_rule std clients Going Listed stack (round-Keeps stack) (max_pages + 1)
          (first_page p) w (omega arith) (omega arith)
          (record {
            inv = v;
            flag = f;
            room = room;
            spent = omega (arith, s);
            counted = omega (arith, c);
            bound = omega arith;
          })
