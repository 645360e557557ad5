-- ===== src/Tests/Confirmations.antt =====
-- The theorems on the two confirmation guards, applied to one prepared message.
use aws_remote_mcp.Prelude.{
  ◌≤◌, String, true, false, some, List, [], ◌∷◌, ◌≡◌, refl, ◌↔◌, arith, lookup, insert, take,
}
use aws_remote_mcp.Prelude.Result.{ok, err, is_ok}
use aws_remote_mcp.Prelude.Int.{show_nat}
use aws_remote_mcp.Json.{dumps, sort_keys, obj}
use aws_remote_mcp.Dynamo.{attribute}
use aws_remote_mcp.Core.Models.{fingerprint, ConfirmationMetadata}
use aws_remote_mcp.Core.Confirmation.{aware, canonical_payload_digest, replayed}
use aws_remote_mcp.Core.Confirmation.SingleUse.{Call, uses_in, draws_in}
use aws_remote_mcp.Core.Confirmation.Memory
use aws_remote_mcp.Core.Confirmation.Memory.{Guard, ConfirmationRecord}
use aws_remote_mcp.Core.Confirmation.Memory.Checks.{
  Authorises, consume-ok_iff, consume_refused, consume_spends,
}
use aws_remote_mcp.Core.Confirmation.Memory.Live.{host_of, memory_single_use, consume-prepare}
use aws_remote_mcp.Core.Confirmation.Memory.Refines.{memory-verdict}
use aws_remote_mcp.Core.Confirmation.Persistent
use aws_remote_mcp.Core.Confirmation.Persistent.{Settings}
use aws_remote_mcp.Core.Confirmation.Persistent.Live.{persistent_single_use}
use aws_remote_mcp.Core.Confirmation.Persistent.Refines.{Encodes, persistent-verdict}
use aws_remote_mcp.Core.Confirmation.Agreement.{guards_agree}
use aws_remote_mcp.Core.Confirmation.Verdict.{verdict, marked}
use aws_remote_mcp.Tests.World.{
  World, start, std, host, table, table_laws, table-IsReliable, clock_quiet, tokens_quiet, alice,
  message,
}

abbrev action : String
action = "telegram.send_message"

abbrev digest : String
digest = dumps (sort_keys (obj message))

digest_eq : canonical_payload_digest std message ≡ ok digest
unfolding canonical_payload_digest dumps sort_keys
digest_eq = refl

-- An in-memory guard with the five-minute default, and the same after one `prepare`.
abbrev guard : Guard World
guard = record { ttl = 300_000_000; records = []; outside = start }

abbrev pub stored : ConfirmationRecord
stored = record {
  caller_fingerprint = fingerprint std alice;
  action = action;
  payload_digest = digest;
  expires_at = 305_000_000;
  consumed = false;
}

abbrev prepared_guard : Guard World
prepared_guard = record { ttl = 300_000_000; records = ("0", stored) ∷ []; outside = start }

found : lookup "0" prepared_guard.records ≡ some stored
unfolding lookup
found = refl

accepted : (Memory.consume std host "0" alice action message prepared_guard).0 ≡ ok tt
unfolding Memory.consume canonical_payload_digest lookup fingerprint
    aws_remote_mcp.Prelude.Text.take dumps sort_keys
accepted = refl

-- `prepare`, then the same token twice.
abbrev calls : List Call
calls =
    Call.prepare alice action message
    ∷ Call.consume "0" alice action message
    ∷ Call.consume "0" alice action message
    ∷ []

memory_draws : draws_in std (host_of host) (Memory.provider std host) "0" calls guard ≡ 1
unfolding draws_in Memory.prepare Memory.consume canonical_payload_digest lookup insert show_nat
    fingerprint
memory_draws = refl

memory_uses : uses_in std (host_of host) (Memory.provider std host) "0" calls guard ≡ 1
unfolding uses_in Memory.prepare Memory.consume canonical_payload_digest lookup insert show_nat
    fingerprint dumps sort_keys aws_remote_mcp.Prelude.Text.take
memory_uses = refl

memory_single_use_example :
    uses_in std (host_of host) (Memory.provider std host) "0" calls guard ≤ 1
unfolding lookup
memory_single_use_example =
    memory_single_use std host "0" calls guard refl (omega (arith, memory_draws))

abbrev settings : Settings
settings = record { table_name = "confirmations"; ttl = 300_000_000 }

persistent_draws :
    draws_in std host (Persistent.provider std host table settings) "0" calls start ≡ 1
unfolding draws_in Persistent.prepare Persistent.consume canonical_payload_digest lookup insert
    show_nat fingerprint
persistent_draws = refl

persistent_uses : uses_in std host (Persistent.provider std host table settings) "0" calls start ≡ 1
unfolding uses_in Persistent.prepare Persistent.consume Persistent.read_record Persistent.diagnose
    Persistent.update_consumed canonical_payload_digest lookup insert show_nat fingerprint attribute
    dumps sort_keys aws_remote_mcp.Prelude.Text.take aws_remote_mcp.Dynamo.is_conditional_failure
persistent_uses = refl

persistent_single_use_example :
    uses_in std host (Persistent.provider std host table settings) "0" calls start ≤ 1
unfolding lookup
persistent_single_use_example =
    persistent_single_use std host table settings table_laws clock_quiet tokens_quiet "0" calls
      start refl (omega (arith, persistent_draws))

-- The world whose table holds the record.
abbrev stored_world : World
stored_world = record start {
  items = ("0", Persistent.stored_item "0" (fingerprint std alice) action digest 305) ∷ [];
}

encodes : Encodes (lookup "0" prepared_guard.records) (table.item (host.clock stored_world).1 "0")
unfolding lookup attribute
encodes = record {
  seconds = 305;
  key = λ e. cc;
  consumed = refl;
  expires = refl;
  whole = refl;
  caller = refl;
  action = refl;
  digest = refl;
}

guards_agree_example :
    (Memory.consume std host "0" alice action message prepared_guard).0
    ≡ (Persistent.consume std host table settings "0" alice action message stored_world).0
guards_agree_example =
    guards_agree std host host table settings table_laws table-IsReliable "0" alice action message
      prepared_guard stored_world 5 digest_eq refl refl encodes

persistent-verdict_example :
    (Persistent.consume std host table settings "0" alice action message stored_world).0
    ≡ verdict (lookup "0" prepared_guard.records) (fingerprint std alice) action digest 5_000_000
persistent-verdict_example =
    persistent-verdict std host table settings table_laws table-IsReliable "0" alice action message
      stored_world 5 (lookup "0" prepared_guard.records) digest_eq refl encodes

memory-verdict_example :
    ((Memory.consume std host "0" alice action message prepared_guard).0
      ≡ verdict (lookup "0" prepared_guard.records) (fingerprint std alice) action digest 5_000_000)
    × (lookup "0" (Memory.consume std host "0" alice action message prepared_guard).1.records
        ≡ marked
            (lookup "0" prepared_guard.records)
            (Memory.consume std host "0" alice action message prepared_guard).0)
memory-verdict_example =
    memory-verdict std host "0" alice action message prepared_guard digest_eq refl

consume-ok_iff_example :
    (is_ok (Memory.consume std host "0" alice action message prepared_guard).0 ≡ true)
    ↔ Authorises std stored alice action message 5_000_000
consume-ok_iff_example = consume-ok_iff std host "0" alice action message prepared_guard found refl

refused :
    is_ok (Memory.consume std host "0" alice "trello.create_card" message prepared_guard).0 ≡ false
unfolding Memory.consume canonical_payload_digest lookup fingerprint
    aws_remote_mcp.Prelude.Text.take
refused = refl

consume_refused_example :
    (Memory.consume std host "0" alice "trello.create_card" message prepared_guard).1.records
    ≡ prepared_guard.records
consume_refused_example =
    consume_refused std host "0" alice "trello.create_card" message prepared_guard refused

consume_spends_example :
    Memory.consume std host "0" alice "trello.create_card" message
      (Memory.consume std host "0" alice action message prepared_guard).1
    ≡ (err replayed, (Memory.consume std host "0" alice action message prepared_guard).1)
consume_spends_example =
    consume_spends std host "0" alice alice action "trello.create_card" message message
      prepared_guard accepted

abbrev metadata : ConfirmationMetadata
metadata = record {
  token = "0";
  action = action;
  payload_digest = digest;
  expires_at = "305000000";
}

made : (Memory.prepare std host alice action message guard).0 ≡ ok metadata
unfolding Memory.prepare canonical_payload_digest lookup insert show_nat dumps sort_keys
made = refl

later_clock :
    (host.clock (Memory.prepare std host alice action message guard).1.outside).0 ≡ aware 5_000_000
unfolding Memory.prepare canonical_payload_digest lookup insert show_nat dumps sort_keys
later_clock = refl

consume-prepare_example :
    (Memory.consume std host "0" alice action message
      (Memory.prepare std host alice action message guard).1).0
    ≡ ok tt
consume-prepare_example =
    consume-prepare std host alice action message guard made refl later_clock (omega arith)
