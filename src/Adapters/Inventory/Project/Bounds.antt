-- ===== src/Adapters/Inventory/Project/Bounds.antt =====
-- What the inventory of the project's stacks (adapters/aws_inventory.py) returns: its caps, its flag
-- and its counters, whatever the service answers.
use aws_remote_mcp.Prelude.{
  ◌≤◌, String, true, false, ◌||◌, List, [], ◌∷◌, ◌++◌, map, ◌≡◌, refl, sym, ap, ◌∙◌, inl, inr,
  arith, eq_iff, Bool-cases, Option-cases, length, contains, length-append,
}
use aws_remote_mcp.Prelude.Result.{⊤}
use aws_remote_mcp.Json.{Json}
use aws_remote_mcp.Core.Models.{Stdlib}
use aws_remote_mcp.Adapters.Inventory.{adapter_issue}
use aws_remote_mcp.Adapters.Inventory.Sanitize.{StackResource, sanitize_cloudformation_resource}
use aws_remote_mcp.Adapters.Inventory.Project.{
  Progress, max_resources, add_issue, incomplete, has_key, malformed, duplicate, keep, add_items,
  at_cap, is_nil,
}

abbrev pub key : StackResource → String × String
key r = (r.stack, r.logical_id)

abbrev pub Distinct : List (String × String) → Type 0
Distinct [] = ⊤
Distinct (k ∷ ks) = (has_key k ks ≡ false) × Distinct ks

has_key-append :
    (k j : String × String) (ks : List (String × String))
    → has_key k (ks ++ (j ∷ [])) ≡ has_key k ks || has_key k (j ∷ [])
has_key-append k j [] = refl
has_key-append k j (i ∷ ks) = ground (arith, has_key-append k j ks)

has_key_sym : (k j : String × String) → has_key k (j ∷ []) ≡ has_key j (k ∷ [])
has_key_sym k j = grind (arith, eq_iff)

Distinct-append :
    (k : String × String) (ks : List (String × String))
    → Distinct ks
    → has_key k ks ≡ false
    → Distinct (ks ++ (k ∷ []))
Distinct-append k [] h new = (refl, tt)
Distinct-append k (j ∷ ks) h new = (
  ground (arith, has_key-append j k ks, has_key_sym k j, h, new),
  Distinct-append k ks h.1 (ground (arith, new)),
)

map-append :
    (f : StackResource → String × String) (rs : List StackResource) (r : StackResource)
    → map f (rs ++ (r ∷ [])) ≡ map f rs ++ (f r ∷ [])
map-append f [] r = refl
map-append f (x ∷ rs) r = ap (λ t. f x ∷ t) (map-append f rs r)

nil-append : {A : Type 0} (xs : List A) (x : A) → is_nil (xs ++ (x ∷ [])) ≡ false
nil-append [] x = refl
nil-append (y ∷ xs) x = refl

-- The caps and the bookkeeping, which hold at every point of the method.
pub record Inv (p : Progress) : Type 0 where
  pub capped : length p.resources ≤ max_resources
  pub keys : p.seen_resources ≡ map key p.resources
  pub distinct : Distinct p.seen_resources
  pub codes : is_nil p.issue_codes ≡ is_nil p.issues

-- The flag says whether there is an issue, and a list at the cap has one.
pub record IsFlagged (p : Progress) : Type 0 where
  pub flag : p.complete ≡ is_nil p.issues
  pub reported : at_cap p ≡ true → is_nil p.issues ≡ false

-- Inside the loop over a page's items, where the cap is reported only after it.
abbrev pub MidFlagged : Progress → Type 0
MidFlagged p = at_cap p ≡ false → p.complete ≡ is_nil p.issues

add_issue-Inv : (code message : String) (p : Progress) → Inv p → Inv (add_issue code message p)
unfolding add_issue
add_issue-Inv code message p v = elim (Bool-cases (contains code p.issue_codes)) [
  | inl e ↦ rw e v
  | inr e ↦ rw e (record {
    capped = v.capped;
    keys = v.keys;
    distinct = v.distinct;
    codes =
        rw (nil-append p.issue_codes code, nil-append p.issues (adapter_issue code message)) refl;
  })
]

add_issue_nonempty :
    (code message : String) (p : Progress)
    → Inv p
    → is_nil (add_issue code message p).issues ≡ false
unfolding add_issue
add_issue_nonempty code message p v =
    ground (arith, v.codes, nil-append p.issues (adapter_issue code message))

-- An issue that is added with the flag cleared keeps everything in order.
pub record IsReported (p q : Progress) : Type 0 where
  pub inv : Inv q
  pub flagged : IsFlagged q
  pub same_requests : q.sdk_requests ≡ p.sdk_requests
  pub same_resources : q.resources ≡ p.resources

pub cleared-Inv : (p : Progress) → Inv p → Inv (record p { complete = false })
cleared-Inv p v = record {
  capped = v.capped;
  keys = v.keys;
  distinct = v.distinct;
  codes = v.codes;
}

add_issue_same :
    (code message : String) (p : Progress)
    → ((add_issue code message p).complete ≡ p.complete)
      × ((add_issue code message p).sdk_requests ≡ p.sdk_requests)
      × ((add_issue code message p).resources ≡ p.resources)
unfolding add_issue
add_issue_same code message p = ground arith

pub incomplete-IsReported :
    (code message : String) (p : Progress) → Inv p → IsReported p (incomplete code message p)
incomplete-IsReported code message p v =
    let q = record p { complete = false } in
    let full = add_issue_nonempty code message q (cleared-Inv p v) in
    let same = add_issue_same code message q in
    record {
      inv = add_issue-Inv code message q (cleared-Inv p v);
      flagged = record { flag = same.0 ∙ sym full; reported = λ c. full };
      same_requests = same.1;
      same_resources = same.2;
    }

keep-Inv :
    (r : StackResource) (p : Progress)
    → Inv p
    → has_key (key r) p.seen_resources ≡ false
    → at_cap p ≡ false
    → Inv (keep r p)
keep-Inv r p v new room = record {
  capped = ground (arith, length-append p.resources (r ∷ []));
  keys = rw (v.keys, map-append key p.resources r) refl;
  distinct = Distinct-append (key r) p.seen_resources v.distinct new;
  codes = v.codes;
}

pub record IsAdded (p q : Progress) : Type 0 where
  pub inv : Inv q
  pub mid : MidFlagged q
  pub same_requests : q.sdk_requests ≡ p.sdk_requests

IsAdded-from : (p p' q : Progress) → p'.sdk_requests ≡ p.sdk_requests → IsAdded p' q → IsAdded p q
IsAdded-from p p' q e h = record { inv = h.inv; mid = h.mid; same_requests = h.same_requests ∙ e }

pub add_items-IsAdded :
    (std : Stdlib) (stack : String) (items : List Json) (p : Progress)
    → Inv p
    → p.complete ≡ is_nil p.issues
    → IsAdded p (add_items std stack items p)
unfolding add_items
add_items-IsAdded std stack [] p v f = record { inv = v; mid = λ c. f; same_requests = refl }
add_items-IsAdded std stack (item ∷ items) p v f =
    elim (Option-cases (sanitize_cloudformation_resource std item stack)) [
      | inl e ↦
          rw (e, add_items)
            (let bad =
                incomplete-IsReported "project_inventory_invalid_resource"
                  "Some CloudFormation resources were omitted because they were malformed." p v in
              IsAdded-from p (malformed p) _ bad.same_requests
                (add_items-IsAdded std stack items (malformed p) bad.inv bad.flagged.flag))
      | inr (r, e) ↦
          rw (e, add_items)
            (elim (Bool-cases (has_key (key r) p.seen_resources)) [
              | inl d ↦ rw d (
                  let twice =
                    incomplete-IsReported "project_inventory_duplicate_resource"
                      "A duplicate CloudFormation resource was omitted." p v in
                  IsAdded-from p (duplicate p) _ twice.same_requests
                    (add_items-IsAdded std stack items (duplicate p) twice.inv twice.flagged.flag))
              | inr new ↦ rw new (elim (Bool-cases (at_cap p)) [
                | inl c ↦ rw c (record {
                  inv = cleared-Inv p v;
                  mid = λ room. ground (arith, c, room);
                  same_requests = refl;
                })
                | inr room ↦ rw room (
                    IsAdded-from p (keep r p) _ refl
                      (add_items-IsAdded std stack items (keep r p) (keep-Inv r p v new room) f))
              ])
            ])
    ]
