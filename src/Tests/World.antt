-- ===== src/Tests/World.antt =====
-- Surroundings for the tests: a world that is a clock, a stock of tokens, a table and a count of calls,
-- with a table client that answers every request.
use aws_remote_mcp.Prelude.{
  ℕ, ◌+◌, String, Bool, true, false, Option, [], ◌≡◌, refl, inl, inr, arith, eq_iff, eq_refl,
  Bool-cases, Dict, lookup, insert, lookup-insert,
}
use aws_remote_mcp.Prelude.Result.{⊤, ok, err, conditional_check_failed}
use aws_remote_mcp.Prelude.Effect.{Action}
use aws_remote_mcp.Prelude.Int.{show_nat}
use aws_remote_mcp.Json.{Fields, end, field, text}
use aws_remote_mcp.Dynamo.{
  Item, Condition, holds, assigned_all, item_or_new, Client, is_conditional_failure, ClientLaws,
  IsQuiet, Written,
}
use aws_remote_mcp.Core.Models.{Stdlib, CallerContext}
use aws_remote_mcp.Core.Confirmation.{Host, Moment}
use aws_remote_mcp.Core.Confirmation.Persistent.Refines.{IsReliable}
use aws_remote_mcp.Core.CostQuota.{QuotaClock}
use aws_remote_mcp.Core.CostQuota

-- Python's library, with a hash that is the identity.
abbrev pub std : Stdlib
std = record {
  sha256 = λ t. t;
  isoformat = λ t. show_nat t;
  repr = λ t. t;
  is_decimal = λ c. false;
  is_word = λ c. false;
  is_space = λ c. false;
}

pub record World : Type 0 where
  pub time : ℕ
  pub drawn : ℕ
  pub items : Dict Item
  pub made : ℕ

abbrev pub start : World
start = record { time = 5_000_000; drawn = 0; items = []; made = 0 }

-- Tokens are the numerals in order.
abbrev pub host : Host World
host = record {
  clock = λ w. (Moment.aware w.time, w);
  token_urlsafe = λ w. (show_nat w.drawn, record w { drawn = w.drawn + 1 });
}

abbrev pub month : QuotaClock World
month = record { read = λ w. (CostQuota.aware 2026 11, w) }

abbrev write_if : Bool → String → Item → Action World ⊤
write_if true k item w = (ok tt, record w { items = insert k item w.items })
write_if false k item w = (err conditional_check_failed, w)

abbrev pub table : Client World
table = record {
  item = λ w k. lookup k w.items;
  put_item = λ k item c w. write_if (holds c (lookup k w.items)) k item w;
  update_item = λ k us c w.
      write_if (holds c (lookup k w.items)) k (assigned_all (item_or_new k (lookup k w.items)) us)
        w;
  get_item = λ k w. (ok (lookup k w.items), w);
}

write_if-Written :
    (b : Bool) (k : String) (c : Condition) (f : Option Item → Item) (w : World)
    → holds c (lookup k w.items) ≡ b
    → Written table k c f w (write_if b k (f (lookup k w.items)) w)
unfolding is_conditional_failure
write_if-Written true k c f w h =
    (h, grind (arith, lookup-insert, eq_refl), λ j ne. grind (arith, lookup-insert, eq_iff))
write_if-Written false k c f w h = (h, λ j. refl)

pub table_laws : ClientLaws table
table_laws = record {
  put = λ k item c w. write_if-Written (holds c (lookup k w.items)) k c (λ _. item) w refl;
  update = λ k us c w.
      write_if-Written (holds c (lookup k w.items)) k c (λ o. assigned_all (item_or_new k o) us) w
        refl;
  get = λ k w. (refl, λ j. refl);
}

pub table-IsReliable : IsReliable table
unfolding is_conditional_failure
table-IsReliable = record {
  update = λ k us c w. elim (Bool-cases (holds c (lookup k w.items))) [
    | inl e ↦ rw e refl
    | inr e ↦ rw e refl
  ];
  get = λ k w. refl;
}

pub clock_quiet : IsQuiet table (λ w. (host.clock w).1)
clock_quiet = record { keeps = λ w k. refl }

pub tokens_quiet : IsQuiet table (λ w. (host.token_urlsafe w).1)
tokens_quiet = record { keeps = λ w k. refl }

pub month_quiet : IsQuiet table (λ w. (month.read w).1)
month_quiet = record { keeps = λ w k. refl }

abbrev pub alice : CallerContext
alice = record { issuer = "issuer"; subject = "alice"; scopes = [] }

abbrev pub message : Fields
message = field "destination" (text "team") (field "message" (text "hello") end)
