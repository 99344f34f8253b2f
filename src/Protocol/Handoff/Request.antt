-- ===== src/Protocol/Handoff/Request.antt =====
-- protocol/handoff.py: the request, the results and the cleanup policy.
use civ4_turn_relay.Prelude.{
  ℕ, ◌*◌, ltb, leb, length, is_some, Bool, false, not, ◌&&◌, ◌||◌, Option, Text, Bytes,
}
use civ4_turn_relay.Domain.Libraries.{Libraries}
use civ4_turn_relay.Domain.Paths.{validate_original_filename}
use civ4_turn_relay.Domain.Ids.{
  validate_game_id, validate_player_id, validate_client_id, validate_operation_id,
  validate_utc_timestamp,
}
use civ4_turn_relay.Domain.Manifest.{Manifest}
use civ4_turn_relay.Protocol.Lock.Document.{Owner}

abbrev pub default_max_save_bytes : ℕ
default_max_save_bytes = 256 * 1024 * 1024

pub data HandoffOutcome : Type 0 where
  committed idempotent_ack journal_only_ack not_current_owner reject_incoming stale_replay lock_held
        lock_unreadable lock_ownership_lost lock_cleanup_ambiguous hard_integrity_failure
        capability_failure transport_failure invalid_manifest missing_manifest :
      HandoffOutcome

pub data CleanupAction : Type 0 where
  retain terminal_release success_release : CleanupAction

pub record HandoffRequest : Type 0 where
  pub game_id : Text
  pub local_player_id : Text
  pub client_id : Text
  pub operation_id : Text
  pub outgoing_bytes : Bytes
  pub original_filename : Text
  pub now_utc : Text
  pub max_save_bytes : ℕ

-- `HandoffRequest.__post_init__` returns.
unfoldable pub request_valid : Libraries → HandoffRequest → Bool
request_valid lib q =
    validate_game_id q.game_id
    && validate_player_id q.local_player_id
    && validate_client_id q.client_id
    && validate_operation_id q.operation_id
    && validate_original_filename lib.is_windows_name q.original_filename
    && validate_utc_timestamp lib q.now_utc
    && ltb 0 q.max_save_bytes
    && leb q.max_save_bytes default_max_save_bytes
    && ltb 0 (length q.outgoing_bytes)
    && leb (length q.outgoing_bytes) q.max_save_bytes

unfoldable pub owner_of : HandoffRequest → Owner
owner_of q = record {
  operation_id = q.operation_id;
  client_id = q.client_id;
  player_id = q.local_player_id;
}

pub record HandoffResult : Type 0 where
  pub outcome : HandoffOutcome
  pub manifest_changed : Bool
  pub sha256 : Text
  pub manifest : Option Manifest

-- The tests of `HandoffResult.__post_init__` on the outcome and the manifest.
unfoldable pub result_valid : HandoffResult → Bool
result_valid r = elim r.outcome [
  | committed ↦ r.manifest_changed && is_some r.manifest
  | lock_cleanup_ambiguous ↦ not r.manifest_changed || is_some r.manifest
  | idempotent_ack ↦ not r.manifest_changed && is_some r.manifest
  | _ ↦ not r.manifest_changed
]

-- `_fail`
unfoldable pub fail : HandoffOutcome → Text → Option Manifest → HandoffResult
fail outcome digest m = record {
  outcome = outcome;
  manifest_changed = false;
  sha256 = digest;
  manifest = m;
}

-- `_cleanup_for_result`
unfoldable pub cleanup_for_result : HandoffOutcome → CleanupAction
cleanup_for_result transport_failure = retain
cleanup_for_result not_current_owner = terminal_release
cleanup_for_result reject_incoming = terminal_release
cleanup_for_result stale_replay = terminal_release
cleanup_for_result journal_only_ack = terminal_release
cleanup_for_result invalid_manifest = terminal_release
cleanup_for_result missing_manifest = terminal_release
cleanup_for_result hard_integrity_failure = terminal_release
cleanup_for_result capability_failure = terminal_release
cleanup_for_result committed = success_release
cleanup_for_result idempotent_ack = success_release
cleanup_for_result lock_ownership_lost = terminal_release
cleanup_for_result _ = retain
