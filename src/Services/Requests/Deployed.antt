-- ===== src/Services/Requests/Deployed.antt =====
-- The service as http_server.py puts it together for the deployed server: the confirmations and the
-- monthly quota are kept in one table.
use aws_remote_mcp.Prelude.{
  ℕ, ◌+◌, ◌≤◌, String, Option, none, some, List, ◌==◌, ◌≡◌, refl, sym, ap, subst, inl, inr, arith,
  eq_true→eq, eq_false→ne, Bool-cases, lookup, insert, lookup-insert,
}
use aws_remote_mcp.Prelude.Result.{⊤, Result}
use aws_remote_mcp.Json.{Fields}
use aws_remote_mcp.Dynamo.{
  Item, Condition, Assignment, attribute, assigned_all, item_or_new, Client, ClientLaws, Written,
  Written-cases, IsQuiet,
}
use aws_remote_mcp.Core.Models.{Stdlib}
use aws_remote_mcp.Core.Confirmation.{Host}
use aws_remote_mcp.Core.Confirmation.Persistent
use aws_remote_mcp.Core.Confirmation.Persistent.{Settings}
use aws_remote_mcp.Core.Confirmation.Persistent.Live.{is_unconsumed, live, persistent_IsSingleUse}
use aws_remote_mcp.Core.CostQuery.{CostExplorerQuery}
use aws_remote_mcp.Core.CostQuota.{QuotaClock, next_period_timestamp}
use aws_remote_mcp.Core.CostQuota.Persistent as Quota
use aws_remote_mcp.Core.CostQuota.Persistent.{quota_key, quota_condition, quota_update, acquire_at}
use aws_remote_mcp.Adapters.Protocols.{CostExplorerAdapter}
use aws_remote_mcp.Services.Tools.{ToolService}
use aws_remote_mcp.Services.Requests.{Request}
use aws_remote_mcp.Services.Requests.Frame.{IsFramed, IsSilent}
use aws_remote_mcp.Services.Requests.Quiet.{
  prepare_calls, consume_calls, acquire_keeps, acquire_at_calls,
}
use aws_remote_mcp.Services.Requests.History.{calls_under, draws_under, confirmed_call_once}

-- Taking a slot leaves a confirmation record as it is, whatever is stored under the key.
quota_keeps_unconsumed :
    (key : String) (expires : ℕ) (o : Option Item)
    → is_unconsumed (some (assigned_all (item_or_new key o) (quota_update expires)))
      ≡ is_unconsumed o
unfolding is_unconsumed attribute lookup insert
quota_keeps_unconsumed key expires none = refl
quota_keeps_unconsumed key expires (some item) = grind (arith, lookup-insert)

abbrev limiter_or {ℓ} : {A : Type ℓ} → A → Option A → A
limiter_or d none = d
limiter_or d (some a) = a

module _ {W : Type 0} (std : Stdlib) (host : Host W) (client : Client W) (settings : Settings)
    (laws : ClientLaws client) (quiet_clock : IsQuiet client (λ w. (host.clock w).1))
    (quiet_tokens : IsQuiet client (λ w. (host.token_urlsafe w).1)) (quota_clock : QuotaClock W)
    (quota : Quota.Settings)
    (quiet_quota_clock : IsQuiet client (λ w. (quota_clock.read w).1)) where
  abbrev alive : String → W → ℕ
  alive = live std host client settings laws quiet_clock quiet_tokens

  Written-alive :
      (d key : String) (expires : ℕ) (c : Condition) (w : W) (p : Result ⊤ × W)
      → Written client key c (λ o. assigned_all (item_or_new key o) (quota_update expires)) w p
      → alive d p.1 ≡ alive d w
  unfolding live
  Written-alive d key expires c w p h =
      elim (Written-cases client key c
        (λ o. assigned_all (item_or_new key o) (quota_update expires)) w p h) [
          | inl (held, new, others) ↦ elim (Bool-cases (key == d)) [
            | inl e ↦
                subst (λ k. alive k p.1 ≡ alive k w) (eq_true→eq key d e)
                  (rw (new, quota_keeps_unconsumed key expires (client.item w key)) refl)
            | inr ne ↦ rw (others d (λ q. eq_false→ne key d ne (sym q))) refl
          ]
          | inr (failed, same) ↦ rw (same d) refl
        ]

  alive-acquire_at :
      (d : String) (now : ℕ × ℕ) (w : W) → alive d (acquire_at std client quota now w).1 ≡ alive d w
  unfolding acquire_at
  alive-acquire_at d now w =
      let p =
        client.update_item (quota_key std quota now) (quota_update (next_period_timestamp now))
          (quota_condition quota.limit) w in
      ground (
        arith,
        Written-alive d (quota_key std quota now) (next_period_timestamp now)
            (quota_condition quota.limit) w p (laws.update _ _ _ w),
      )

  -- The ports that reach outside: each write or billable port is one call, and none of them touches
  -- the table. The clock, the token source and the table's requests are no calls.
  pub record IsOutside (service : ToolService W) (calls : W → ℕ) : Type 0 where
    pub clock : (w : W) → calls (host.clock w).1 ≡ calls w
    pub tokens : (w : W) → calls (host.token_urlsafe w).1 ≡ calls w
    pub months : (w : W) → calls (quota_clock.read w).1 ≡ calls w
    pub put :
        (k : String) (item : Item) (c : Condition) (w : W)
        → calls (client.put_item k item c w).1 ≡ calls w
    pub update :
        (k : String) (us : List Assignment) (c : Condition) (w : W)
        → calls (client.update_item k us c w).1 ≡ calls w
    pub get : (k : String) (w : W) → calls (client.get_item k w).1 ≡ calls w
    pub aws :
        (operation : String) (arguments : Fields) (w : W)
        → calls (service.aws.execute operation arguments w).1 ≡ calls w
    pub aws_table :
        (operation : String) (arguments : Fields)
        → IsQuiet client (λ w. (service.aws.execute operation arguments w).1)
    pub telegram :
        (destination message : String) (w : W)
        → calls (service.telegram.send_message destination message w).1 ≡ calls w + 1
    pub telegram_table :
        (destination message : String)
        → IsQuiet client (λ w. (service.telegram.send_message destination message w).1)
    pub trello :
        (board list_name title description : String) (w : W)
        → calls (service.trello.create_card board list_name title description w).1 ≡ calls w + 1
    pub trello_table :
        (board list_name title description : String)
        → IsQuiet client (λ w. (service.trello.create_card board list_name title description w).1)
    pub cost :
        (a : CostExplorerAdapter W) (query : CostExplorerQuery) (w : W)
        → service.aws_cost_explorer ≡ some a
        → calls (a.get_cost_and_usage query w).1 ≡ calls w + 1
    pub cost_table :
        (a : CostExplorerAdapter W) (query : CostExplorerQuery)
        → service.aws_cost_explorer ≡ some a
        → IsQuiet client (λ w. (a.get_cost_and_usage query w).1)

  quiet_alive : (f : W → W) → IsQuiet client f → (d : String) (w : W) → alive d (f w) ≡ alive d w
  unfolding live
  quiet_alive f quiet d w = rw (quiet.keeps w d)

  -- The service with the two guards over the one table.
  abbrev pub deployed : ToolService W → ToolService W
  deployed service = record service {
    confirmations = Persistent.provider std host client settings;
    cost_request_limiter = some (Quota.limiter std quota_clock client quota);
  }

  module _ (service : ToolService W) (calls : W → ℕ) (outside : IsOutside service calls) where
    limiter_silent : IsSilent alive calls (Quota.acquire std quota_clock client quota)
    limiter_silent = record {
      same_records = λ d w.
          acquire_keeps std quota_clock client quota (alive d) (quiet_alive _ quiet_quota_clock d)
            (alive-acquire_at d) w;
      same_calls = λ w.
          acquire_keeps std quota_clock client quota calls outside.months
            (acquire_at_calls std quota_clock client quota calls outside.update) w;
    }

    pub deployed_frame : IsFramed (deployed service) alive calls
    deployed_frame = record {
      prepare = λ caller action payload w.
          prepare_calls std host client settings calls outside.clock outside.tokens outside.put
            caller action payload w;
      consume = λ token caller action payload w.
          consume_calls std host client settings calls outside.clock outside.update outside.get
            token caller action payload w;
      aws = λ operation arguments. record {
        same_records = λ d w. quiet_alive _ (outside.aws_table operation arguments) d w;
        same_calls = outside.aws operation arguments;
      };
      limiter =
          λ l e. subst (λ o. IsSilent alive calls o.acquire) (ap (limiter_or l) e) limiter_silent;
      telegram = λ destination message. record {
        same_records = λ d w. quiet_alive _ (outside.telegram_table destination message) d w;
        one_call = outside.telegram destination message;
      };
      trello = λ board list_name title description. record {
        same_records =
            λ d w. quiet_alive _ (outside.trello_table board list_name title description) d w;
        one_call = outside.trello board list_name title description;
      };
      cost = λ a query e. record {
        same_records = λ d w. quiet_alive _ (outside.cost_table a query e) d w;
        one_call = λ w. outside.cost a query w e;
      };
    }

    -- In the deployed service, with a table client that keeps its laws, clocks and a token source that
    -- leave the table alone, and ports of which each is one call and leaves the table alone: over any
    -- sequence of requests and whatever fails, a token under whose digest the table holds nothing at
    -- the start and whose digest is drawn at most once lets the requests that present it make at most
    -- one Telegram, Trello or Cost Explorer call in all.
    pub deployed_call_once :
        (d : String) (rs : List Request) (w : W)
        → client.item w d ≡ none
        → draws_under std host (deployed service) calls d rs w ≤ 1
        → calls_under std host (deployed service) calls d rs w ≤ 1
    unfolding persistent_IsSingleUse live is_unconsumed attribute
    deployed_call_once d rs w unheld once =
        confirmed_call_once std host (deployed service) calls
          (persistent_IsSingleUse std host client settings laws quiet_clock quiet_tokens)
          deployed_frame d rs w (rw unheld refl) once
