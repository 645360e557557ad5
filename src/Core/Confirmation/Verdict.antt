-- ===== src/Core/Confirmation/Verdict.antt =====
-- The answer of a confirmation provider to `consume`, as core/confirmation.py documents it by the
-- codes of its errors: a specification over the stored record, which both guards refine.
use aws_remote_mcp.Prelude.{ℕ, leb, String, true, not, Option, none, some, ◌==◌, if◌then◌else◌}
use aws_remote_mcp.Prelude.Result.{⊤, Result, ok, err}
use aws_remote_mcp.Core.Confirmation.{
  invalid, replayed, expired, caller_mismatch, action_mismatch, payload_mismatch,
}
use aws_remote_mcp.Core.Confirmation.Memory.{ConfirmationRecord}

-- The first of the checks that fails, for a call with this fingerprint, action and digest.
unfoldable pub verdict : Option ConfirmationRecord → String → String → String → ℕ → Result ⊤
verdict none caller action digest now = err invalid
verdict (some r) caller action digest now =
    if r.consumed
    then err replayed
    else if leb r.expires_at now
    then err expired
    else if not (r.caller_fingerprint == caller)
    then err caller_mismatch
    else if not (r.action == action)
    then err action_mismatch
    else if not (r.payload_digest == digest)
    then err payload_mismatch
    else ok tt

abbrev mark : ConfirmationRecord → Result ⊤ → ConfirmationRecord
mark r (ok _) = record r { consumed = true }
mark r (err e) = r

-- The record after the call: consumed exactly if the answer was positive.
abbrev pub marked : Option ConfirmationRecord → Result ⊤ → Option ConfirmationRecord
marked none a = none
marked (some r) a = some (mark r a)
