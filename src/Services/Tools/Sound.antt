-- ===== src/Services/Tools/Sound.antt =====
-- What every result of the handlers of services/tools.py satisfies, whatever the adapters answer.
use aws_remote_mcp.Prelude.{
  ℕ, ◌≤◌, String, len, Bool, true, false, Option, none, some, List, [], ◌≡◌, arith,
}
use aws_remote_mcp.Prelude.Result.{⊤, Exception, Result, ok, err}
use aws_remote_mcp.Prelude.Effect.{Action, lift, continue, ◌>>=◌, try, resume, recover}
use aws_remote_mcp.Json.{Fields, text, dumps, obj, end}
use aws_remote_mcp.Core.Models.{
  no_counters, Stdlib, CallerContext, ToolIssue, ToolResult, ToolStatus, OperationCounters,
  record_external_write_attempt, ConfirmationMetadata,
}
use aws_remote_mcp.Core.Operations.{
  require_automatic, require_confirmed_billable, cost_explorer_operation,
}
use aws_remote_mcp.Core.CostQuery.{CostExplorerQuery, validate_cost_explorer_query}
use aws_remote_mcp.Core.CostQuota.{CostRequestLimiter}
use aws_remote_mcp.Adapters.Protocols.{CostExplorerAdapter, AdapterStatus}
use aws_remote_mcp.Services.Tools.{
  ToolService, failed, unless_issue, on_blocked, on_adapter_error, on_confirmation_error,
  run_aws_operation, prepared, bounded_result, confirmation_required,
}
use aws_remote_mcp.Services.Tools.Cost.{
  with_query, with_slot, on_invalid_query, on_quota_error, on_query_error, with_adapter,
  billable_call,
}
use aws_remote_mcp.Services.Tools.Messages.{write_once}

-- The status says that the body is an adapter's answer.
abbrev pub is_answer : ToolStatus → Bool
is_answer ToolStatus.ok = true
is_answer ToolStatus.partial = true
is_answer _ = false

-- At most one external write is attempted, no more succeed than were attempted, and an adapter's
-- answer is within the size limit.
pub record IsSound (limit : ℕ) (t : ToolResult) : Type 0 where
  pub attempted : t.counters.external_writes_attempted ≤ 1
  pub succeeded : t.counters.external_writes_succeeded ≤ t.counters.external_writes_attempted
  pub fits : is_answer t.status ≡ true → len (dumps (obj t.body)) ≤ limit

abbrev pub Sound : ℕ → Result ToolResult → Type 0
Sound limit (ok t) = IsSound limit t
Sound limit (err e) = ⊤

abbrev SoundOption : ℕ → Option ToolResult → Type 0
SoundOption limit (some t) = IsSound limit t
SoundOption limit none = ⊤

abbrev pub SoundAction : {W : Type 0} → ℕ → Action W ToolResult → Type 0
SoundAction limit m = (w : _) → Sound limit (m w).0

-- Counters under which a result is sound.
abbrev Few : OperationCounters → Type 0
Few c =
    (c.external_writes_attempted ≤ 1) × (c.external_writes_succeeded ≤ c.external_writes_attempted)

module _ (limit : ℕ) where
  failed-IsSound :
      (body : Fields) (i : ToolIssue) (c : OperationCounters)
      → Few c
      → IsSound limit (failed body i c)
  failed-IsSound body i c few = ground arith

  bounded-IsSound :
      (body : Fields) (c : OperationCounters) (s : AdapterStatus) (issues : List ToolIssue)
      → Few c
      → IsSound limit (bounded_result limit body c s issues)
  unfolding bounded_result
  bounded-IsSound body c s issues few = ground arith

  required-IsSound :
      (preview : Fields) (m : ConfirmationMetadata)
      → IsSound limit (confirmation_required preview m)
  required-IsSound preview m = ground arith

  blocked_sound :
      (c : OperationCounters) (e : Exception) → Few c → SoundOption limit (on_blocked c e)
  blocked_sound c e few = ground arith

  adapter_error_sound :
      (body : Fields) (c : OperationCounters) (e : Exception)
      → Few c
      → SoundOption limit (on_adapter_error body c e)
  adapter_error_sound body c e few = ground arith

  confirmation_error_sound : (e : Exception) → SoundOption limit (on_confirmation_error e)
  confirmation_error_sound e = ground arith

  invalid_query_sound : (e : Exception) → SoundOption limit (on_invalid_query e)
  invalid_query_sound e = ground arith

  quota_error_sound : (e : Exception) → SoundOption limit (on_quota_error e)
  quota_error_sound e = ground arith

  query_error_sound :
      (c : OperationCounters) (e : Exception) → Few c → SoundOption limit (on_query_error c e)
  query_error_sound c e few = ground arith

  module _ {W : Type 0} where
    recover-Sound :
        (o : Option ToolResult) (e : Exception) (w : W)
        → SoundOption limit o
        → Sound limit (recover o e w).0
    recover-Sound none e w h = tt
    recover-Sound (some t) e w h = h

  module _ {W A : Type 0} where
    resume-Sound :
        (r : Result A) (h : Exception → Option ToolResult) (f : A → Action W ToolResult) (w : W)
        → ((e : Exception) → SoundOption limit (h e))
        → ((a : A) → SoundAction limit (f a))
        → Sound limit (resume r h f w).0
    resume-Sound (ok a) h f w onerr each = each a w
    resume-Sound (err e) h f w onerr each = recover-Sound (h e) e w (onerr e)

    try_sound :
        (m : Action W A) (h : Exception → Option ToolResult) (f : A → Action W ToolResult)
        → ((e : Exception) → SoundOption limit (h e))
        → ((a : A) → SoundAction limit (f a))
        → SoundAction limit (try m h f)
    try_sound m h f onerr each w = resume-Sound (m w).0 h f (m w).1 onerr each

    continue-Sound :
        (r : Result A) (f : A → Action W ToolResult) (w : W)
        → ((a : A) → SoundAction limit (f a))
        → Sound limit (continue r f w).0
    continue-Sound (ok a) f w each = each a w
    continue-Sound (err e) f w each = tt

    bind_sound :
        (m : Action W A) (f : A → Action W ToolResult)
        → ((a : A) → SoundAction limit (f a))
        → SoundAction limit (m >>= f)
    bind_sound m f each w = continue-Sound (m w).0 f (m w).1 each

  module _ {W : Type 0} where
    pub unless_sound :
        (i : Option ToolIssue) (rest : Action W ToolResult)
        → SoundAction limit rest
        → SoundAction limit (unless_issue i no_counters rest)
    unless_sound none rest h w = h w
    unless_sound (some i) rest h w = failed-IsSound end i no_counters (omega arith, omega arith)

    adapter_sound :
        (o : Option (CostExplorerAdapter W)) (rest : CostExplorerAdapter W → Action W ToolResult)
        → ((a : CostExplorerAdapter W) → SoundAction limit (rest a))
        → SoundAction limit (with_adapter o rest)
    adapter_sound none rest each w = ground arith
    adapter_sound (some a) rest each w = each a w

    pub slot_sound :
        (std : Stdlib) (service : ToolService W) (o : Option (CostRequestLimiter W))
        (rest : Action W ToolResult)
        → SoundAction limit rest
        → SoundAction limit (with_slot std service o rest)
    slot_sound std service none rest h w = ground arith
    slot_sound std service (some l) rest h w =
        try_sound l.acquire on_quota_error (λ _. rest) quota_error_sound (λ _. h) w

module _ {W : Type 0} (std : Stdlib) (service : ToolService W) where
  pub run_aws_operation-IsSound :
      (operation : String) (arguments : Fields)
      → SoundAction service.result_limit (run_aws_operation std service operation arguments)
  unfolding run_aws_operation
  run_aws_operation-IsSound operation arguments =
      try_sound service.result_limit (lift (require_automatic std service.operations operation))
        (on_blocked no_counters) _ (λ e. blocked_sound _ no_counters e (omega arith, omega arith))
        (λ _.
          try_sound service.result_limit (service.aws.execute operation arguments)
            (on_adapter_error end no_counters) _
            (λ e. adapter_error_sound _ end no_counters e (omega arith, omega arith))
            (λ response w.
              bounded-IsSound service.result_limit response.body _ response.status _
                (omega arith, omega arith)))

  pub prepared_sound :
      (caller : CallerContext) (action : String) (payload preview : Fields)
      → SoundAction service.result_limit (prepared std service caller action payload preview)
  unfolding prepared
  prepared_sound caller action payload preview =
      try_sound service.result_limit (service.confirmations.prepare caller action payload)
        on_confirmation_error _ (confirmation_error_sound service.result_limit)
        (λ m w. required-IsSound service.result_limit preview m)

  pub write_once_sound :
      (send : Action W Fields) → SoundAction service.result_limit (write_once std service send)
  unfolding record_external_write_attempt
  write_once_sound send w =
      try_sound service.result_limit send
        (on_adapter_error end (record no_counters { external_writes_attempted = 1 })) _
        (λ e. adapter_error_sound _ end _ e (omega arith, omega arith))
        (λ response w.
          bounded-IsSound service.result_limit response _ AdapterStatus.ok []
            (omega arith, omega arith))
        w

  pub query_sound :
      (start_date end_date granularity group_by : String)
      (rest : CostExplorerQuery → CostExplorerAdapter W → Action W ToolResult)
      → ((query : CostExplorerQuery) (a : CostExplorerAdapter W)
          → SoundAction service.result_limit (rest query a))
      → SoundAction service.result_limit
          (with_query std service start_date end_date granularity group_by rest)
  query_sound start_date end_date granularity group_by rest each =
      try_sound service.result_limit
        (lift (require_confirmed_billable std service.operations cost_explorer_operation))
        (on_blocked no_counters) _ (λ e. blocked_sound _ no_counters e (omega arith, omega arith))
        (λ _.
          try_sound service.result_limit
            (lift (
              validate_cost_explorer_query std (text start_date) (text end_date) (text granularity)
                (text group_by)))
            on_invalid_query _ (invalid_query_sound service.result_limit)
            (λ query.
              adapter_sound service.result_limit service.aws_cost_explorer (rest query)
                (each query)))

  pub billable_sound :
      (query : CostExplorerQuery) (a : CostExplorerAdapter W)
      → SoundAction service.result_limit (billable_call std service query a)
  unfolding billable_call
  billable_sound query a =
      try_sound service.result_limit (a.get_cost_and_usage query)
        (on_query_error (record no_counters { sdk_requests = 1 })) _
        (λ e. query_error_sound _ _ e (omega arith, omega arith))
        (λ response w.
          bounded-IsSound service.result_limit response.body _ response.status _
            (omega arith, omega arith))

  -- The confirmation in front of a write or a billable call.
  pub confirmed_sound :
      (consumed : Action W (Option ToolIssue)) (rest : Action W ToolResult)
      → SoundAction service.result_limit rest
      → SoundAction service.result_limit
          (consumed >>= λ refused. unless_issue refused no_counters rest)
  confirmed_sound consumed rest h =
      bind_sound service.result_limit consumed _
        (λ refused. unless_sound service.result_limit refused rest h)
