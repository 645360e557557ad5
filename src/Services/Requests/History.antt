-- ===== src/Services/Requests/History.antt =====
-- What a sequence of requests to `ToolService` (services/tools.py) does: every confirmed call is
-- paid for by a confirmation that was prepared before and that nothing else used.
use aws_remote_mcp.Prelude.{
  ℕ, ◌+◌, ◌-◌, ◌≤◌, String, Bool, false, not, ◌&&◌, Option, none, some, is_none, List, [], ◌∷◌,
  ◌==◌, ◌≡◌, arith, if◌then◌else◌,
}
use aws_remote_mcp.Core.Models.{Stdlib}
use aws_remote_mcp.Core.Confirmation.{Host}
use aws_remote_mcp.Core.Confirmation.SingleUse.{IsSingleUse, indicator}
use aws_remote_mcp.Services.Tools.{ToolService}
use aws_remote_mcp.Services.Requests.{
  Request, aws_operation, prepare_cost, execute_cost, prepare_telegram, execute_telegram,
  prepare_trello, execute_trello, handle, token_of, asks,
}
use aws_remote_mcp.Services.Requests.Frame.{IsFramed}
use aws_remote_mcp.Services.Requests.Accounting.{telegram-Pays, trello-Pays, cost-Pays}
use aws_remote_mcp.Services.Requests.Asking.{
  prepare_telegram-Draws, prepare_trello-Draws, prepare_cost-Draws, aws-Draws,
}

abbrev has_digest : Stdlib → String → Option String → Bool
has_digest std d none = false
has_digest std d (some token) = std.sha256 token == d

-- The request presents a token with the digest `d`.
abbrev pub presents : Stdlib → String → Request → Bool
presents std d request = has_digest std d (token_of request)

module _ {W : Type 0} (std : Stdlib) (host : Host W) (service : ToolService W) (calls : W → ℕ) where
  abbrev pub after : Request → W → W
  after request w = (handle std service request w).1

  unfoldable pub after_all : List Request → W → W
  after_all [] w = w
  after_all (r ∷ rs) w = after_all rs (after r w)

  -- The confirmed calls that requests with a token of digest `d` made.
  unfoldable pub calls_under : String → List Request → W → ℕ
  calls_under d [] w = 0
  calls_under d (r ∷ rs) w =
      (if presents std d r then calls (after r w) - calls w else 0) + calls_under d rs (after r w)

  -- The prepare requests at which the token drawn has the digest `d`.
  unfoldable pub draws_under : String → List Request → W → ℕ
  draws_under d [] w = 0
  draws_under d (r ∷ rs) w =
      indicator (asks r && (std.sha256 (host.token_urlsafe (host.clock w).1).0 == d))
      + draws_under d rs (after r w)

  module _ (law : IsSingleUse std host service.confirmations)
      (frame : IsFramed service law.live calls) where
    handle_books :
        (d : String) (r : Request) (w : W)
        → (if presents std d r then calls (after r w) - calls w else 0) + law.live d (after r w)
          ≤ law.live d w
            + indicator (asks r && (std.sha256 (host.token_urlsafe (host.clock w).1).0 == d))
    unfolding handle
    handle_books d (aws_operation o a) w =
        let h = aws-Draws std host service calls law frame d o a w in omega (arith, h.one_record)
    handle_books d (prepare_cost c s e g b) w =
        let h = prepare_cost-Draws std host service calls law frame d c s e g b w in
        omega (arith, h.one_record)
    handle_books d (prepare_telegram c x m) w =
        let h = prepare_telegram-Draws std host service calls law frame d c x m w in
        omega (arith, h.one_record)
    handle_books d (prepare_trello c b l t x) w =
        let h = prepare_trello-Draws std host service calls law frame d c b l t x w in
        omega (arith, h.one_record)
    handle_books d (execute_cost c t s e g b) w =
        let h = cost-Pays std host service calls law frame d t c s e g b w in
        ground (arith, h.books, h.grows)
    handle_books d (execute_telegram c t x m) w =
        let h = telegram-Pays std host service calls law frame d t c x m w in
        ground (arith, h.books, h.grows)
    handle_books d (execute_trello c k b l t x) w =
        let h = trello-Pays std host service calls law frame d k c b l t x w in
        ground (arith, h.books, h.grows)

    calls_under-le :
        (d : String) (rs : List Request) (w : W)
        → calls_under d rs w + law.live d (after_all rs w) ≤ law.live d w + draws_under d rs w
    unfolding calls_under draws_under after_all
    calls_under-le d [] w = omega arith
    calls_under-le d (r ∷ rs) w = omega (arith, handle_books d r w, calls_under-le d rs (after r w))

    -- For a confirmation provider that meets the single-use contract and a service whose other
    -- parts touch no record and make no confirmed call beyond their own: over any sequence of
    -- requests, a token whose digest no live record has at the start and that is drawn at most once
    -- lets the requests that present it make at most one Telegram, Trello or Cost Explorer call in
    -- all.
    pub confirmed_call_once :
        (d : String) (rs : List Request) (w : W)
        → law.live d w ≡ 0
        → draws_under d rs w ≤ 1
        → calls_under d rs w ≤ 1
    confirmed_call_once d rs w unheld once = omega (arith, calls_under-le d rs w)

    -- For a confirmation provider that meets the single-use contract and a service whose other
    -- parts make no confirmed call beyond their own: a request that presents no confirmation token
    -- makes no Telegram, Trello or Cost Explorer call, and one that presents a token makes at most
    -- one.
    pub calls_per_request :
        (r : Request) (w : W)
        → (calls w ≤ calls (after r w))
          × (calls (after r w) ≤ calls w + indicator (not (is_none (token_of r))))
    unfolding handle
    calls_per_request (aws_operation o a) w =
        let h = aws-Draws std host service calls law frame "" o a w in
        (omega (arith, h.no_call), omega (arith, h.no_call))
    calls_per_request (prepare_cost c s e g b) w =
        let h = prepare_cost-Draws std host service calls law frame "" c s e g b w in
        (omega (arith, h.no_call), omega (arith, h.no_call))
    calls_per_request (prepare_telegram c x m) w =
        let h = prepare_telegram-Draws std host service calls law frame "" c x m w in
        (omega (arith, h.no_call), omega (arith, h.no_call))
    calls_per_request (prepare_trello c b l t x) w =
        let h = prepare_trello-Draws std host service calls law frame "" c b l t x w in
        (omega (arith, h.no_call), omega (arith, h.no_call))
    calls_per_request (execute_cost c t s e g b) w =
        let h = cost-Pays std host service calls law frame "" t c s e g b w in
        (omega (arith, h.grows), omega (arith, h.at_most_one))
    calls_per_request (execute_telegram c t x m) w =
        let h = telegram-Pays std host service calls law frame "" t c x m w in
        (omega (arith, h.grows), omega (arith, h.at_most_one))
    calls_per_request (execute_trello c k b l t x) w =
        let h = trello-Pays std host service calls law frame "" k c b l t x w in
        (omega (arith, h.grows), omega (arith, h.at_most_one))
