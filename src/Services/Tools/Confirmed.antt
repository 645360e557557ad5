-- ===== src/Services/Tools/Confirmed.antt =====
-- services/tools.py with the in-memory guard: a message that was prepared can be sent, once.
use aws_remote_mcp.Prelude.{
  ℕ, ◌+◌, ◌<◌, ltb, String, len, Bool, false, Option, none, some, [], ◌∷◌, if◌then◌else◌, ◌≡◌, refl,
  ap, ◌∙◌, inl, inr, arith, Option-cases,
}
use aws_remote_mcp.Prelude.Result.{Result, ok, err, adapter_error}
use aws_remote_mcp.Prelude.Effect.{Action, pure, resume}
use aws_remote_mcp.Json.{Fields, end, obj, dumps}
use aws_remote_mcp.Core.Models.{
  Stdlib, CallerContext, ConfirmationMetadata, ToolStatus, ToolResult, OperationCounters,
  record_external_write_attempt,
}
use aws_remote_mcp.Adapters.Protocols.{AdapterStatus}
use aws_remote_mcp.Core.Confirmation.{Host, aware}
use aws_remote_mcp.Core.Confirmation.Memory
use aws_remote_mcp.Core.Confirmation.Memory.{Guard}
use aws_remote_mcp.Core.Confirmation.Memory.Live.{consume-prepare}
use aws_remote_mcp.Services.Tools.{
  ToolService, consume_confirmation, prepared, confirmation_required, on_confirmation_error,
  on_adapter_error, bounded_result,
}
use aws_remote_mcp.Services.Tools.Messages.{
  validate_telegram, telegram_payload, telegram_action, write_once, prepare_telegram_message,
  execute_telegram_message,
}

abbrev pub confirmation_of : Result ToolResult → Option ConfirmationMetadata
confirmation_of (ok t) = t.confirmation
confirmation_of (err e) = none

-- The counters after a write attempt, with the number of those that succeeded.
abbrev pub after_attempt : ℕ → OperationCounters
after_attempt succeeded = record {
  sdk_requests = 0;
  resources = 0;
  external_writes_attempted = 1;
  external_writes_succeeded = succeeded;
}

abbrev failure : String → String → Bool → ℕ → ToolResult
failure code message retryable succeeded = record {
  status = ToolStatus.error;
  body = end;
  warnings = [];
  errors = record { code = code; message = message; retryable = retryable } ∷ [];
  counters = after_attempt succeeded;
  confirmation = none;
}

-- What the port's answer becomes: its response, unless it is longer than the limit when it is printed,
-- with one write that succeeded; the port's `AdapterError`, with none; any other exception goes on.
abbrev pub reply : ℕ → Result Fields → Result ToolResult
reply limit (ok response) = ok (
    if ltb limit (len (dumps (obj response)))
    then failure "result_too_large" "Adapter result exceeded the configured response limit." false 1
    else record {
      status = ToolStatus.ok;
      body = response;
      warnings = [];
      errors = [];
      counters = after_attempt 1;
      confirmation = none;
    })
reply limit (err (adapter_error code message retryable)) = ok (failure code message retryable 0)
reply limit (err e) = err e

resume-reply :
    {W : Type 0} (limit : ℕ) (answer : Result Fields) (w : W)
    → resume answer
        (on_adapter_error end (after_attempt 0))
        (λ response. pure (bounded_result limit response (after_attempt 1) AdapterStatus.ok []))
        w
      ≡ (reply limit answer, w)
unfolding bounded_result
resume-reply limit (ok response) w = refl
resume-reply limit (err (adapter_error code message retryable)) w = refl
resume-reply limit (err e) w = ground arith

module _ {W : Type 0} (std : Stdlib) (host : Host W) (base : ToolService (Guard W)) where
  -- The service with the in-memory guard.
  abbrev pub local : ToolService (Guard W)
  local = record base { confirmations = Memory.provider std host }

  reported :
      (r : Result ConfirmationMetadata) (preview : Fields) (g : Guard W) {m : ConfirmationMetadata}
      → let (t, g') =
          resume r on_confirmation_error (λ a. pure (confirmation_required preview a)) g in
        confirmation_of t ≡ some m → (r ≡ ok m) × (g' ≡ g)
  reported r preview g e = ground arith

  prepared_ok :
      (caller : CallerContext) (action : String) (payload preview : Fields) (g : Guard W)
      {m : ConfirmationMetadata}
      → confirmation_of (prepared std local caller action payload preview g).0 ≡ some m
      → let (r, g') = Memory.prepare std host caller action payload g in
        (r ≡ ok m) × ((prepared std local caller action payload preview g).1 ≡ g')
  unfolding prepared
  prepared_ok caller action payload preview g e =
      let (r, g') = Memory.prepare std host caller action payload g in reported r preview g' e

  write_reply :
      (send : Action (Guard W) Fields) (g : Guard W)
      → let (answer, g') = send g in
        write_once std local send g ≡ (reply base.result_limit answer, g')
  unfolding record_external_write_attempt bounded_result
  write_reply send g = let (answer, g') = send g in resume-reply base.result_limit answer g'

  execute_consumed :
      (token : String) (caller : CallerContext) (destination message : String) (g : Guard W)
      → validate_telegram base.telegram_destinations destination message ≡ none
      → (Memory.consume std host token caller telegram_action
          (telegram_payload destination message)
          g).0
        ≡ ok tt
      → execute_telegram_message std local caller token destination message g
        ≡ write_once std local
            (base.telegram.send_message destination message)
            (Memory.consume std host token caller telegram_action
              (telegram_payload destination message)
              g).1
  unfolding execute_telegram_message consume_confirmation
  execute_consumed token caller destination message g valid consumed = rw (valid, consumed) refl

  prepare_validates :
      (caller : CallerContext) (destination message : String) (g : Guard W)
      {m : ConfirmationMetadata}
      → confirmation_of (prepare_telegram_message std local caller destination message g).0 ≡ some m
      → (validate_telegram base.telegram_destinations destination message ≡ none)
        × (prepare_telegram_message std local caller destination message g
            ≡ prepared std local caller telegram_action
                (telegram_payload destination message)
                (telegram_payload destination message)
                g)
  unfolding prepare_telegram_message
  prepare_validates caller destination message g answered =
      elim (Option-cases (validate_telegram base.telegram_destinations destination message)) [
        | inl e ↦ (e, rw e refl)
        | inr (i, e) ↦ ground (arith, e, answered)
      ]

  -- With the in-memory guard and an aware clock: if preparing a message answers with a
  -- confirmation, then executing the same message with its token, for the same caller and before
  -- `now + ttl`, calls the Telegram port with that message in the world that consuming the
  -- confirmation leaves, and leaves the world that the port leaves. It answers with the port's
  -- response, or with `result_too_large` if that is longer than the limit, and counts one write that
  -- was attempted and succeeded; an `AdapterError` of the port is reported as it is, with one write
  -- attempted and none succeeded; any other exception of the port goes on.
  pub execute-prepare :
      (caller : CallerContext) (destination message : String) (g : Guard W)
      {m : ConfirmationMetadata} {now later : ℕ}
      → confirmation_of (prepare_telegram_message std local caller destination message g).0 ≡ some m
      → (host.clock g.outside).0 ≡ aware now
      → (host.clock (prepare_telegram_message std local caller destination message g).1.outside).0
        ≡ aware later
      → later < now + g.ttl
      → let g' = (prepare_telegram_message std local caller destination message g).1 in
        let consumed =
          Memory.consume std host m.token caller telegram_action
            (telegram_payload destination message)
            g' in
        let (answer, w) = base.telegram.send_message destination message consumed.1 in
        execute_telegram_message std local caller m.token destination message g'
        ≡ (reply base.result_limit answer, w)
  execute-prepare caller destination message g {m} {now} {later} answered clock clock' early =
      let payload = telegram_payload destination message in
      let valid = prepare_validates caller destination message g answered in
      let made = prepared_ok caller telegram_action payload payload g (rw valid.1 at answered) in
      let world : (prepare_telegram_message std local caller destination message g).1
          ≡ (Memory.prepare std host caller telegram_action payload g).1 =
        ap (λ p. p.1) valid.1 ∙ made.1 in
      (execute_consumed m.token caller destination message
          (prepare_telegram_message std local caller destination message g).1 valid.0
          (rw world (
            consume-prepare std host caller telegram_action payload g made.0 clock
              (rw world at clock') early))
        ∙ write_reply (base.telegram.send_message destination message)
            (Memory.consume std host m.token caller telegram_action payload
              (prepare_telegram_message std local caller destination message g).1).1)
