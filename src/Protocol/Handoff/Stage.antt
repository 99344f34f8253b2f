-- ===== src/Protocol/Handoff/Stage.antt =====
-- protocol/handoff.py: the upload of the outgoing save and its publication. A stage that went well
-- gives no result; else the result is that of the handoff.
use civ4_turn_relay.Prelude.{ℕ, true, false, Option, none, some, Text, Bytes}
use civ4_turn_relay.Domain.Libraries.{Libraries}
use civ4_turn_relay.Storage.Port.{
  Storage, StorageError, Reply, ok, err, not_found, already_exists, wrong_kind, capability,
}
use civ4_turn_relay.Storage.Verification.{
  ObjectComparisonResult, exact_match, mismatch, compare_stored_object,
}
use civ4_turn_relay.Protocol.Action.{Action, pure, call}
use civ4_turn_relay.Protocol.Handoff.Request.{
  HandoffOutcome, hard_integrity_failure, capability_failure, transport_failure, HandoffResult,
  fail,
}

abbrev pub Stage : Type 0 → Type 0
Stage S = Action S (Option HandoffResult)

-- The outcome of the handlers that tell a wrong kind from a failed transport, and of those that tell
-- a missing capability too.
unfoldable pub read_failure : StorageError → HandoffOutcome
read_failure wrong_kind = hard_integrity_failure
read_failure _ = transport_failure

unfoldable pub write_failure : StorageError → HandoffOutcome
write_failure wrong_kind = hard_integrity_failure
write_failure capability = capability_failure
write_failure _ = transport_failure

module _ {S : Type 0} (storage : Storage S) (lib : Libraries) (digest : Text) (size_bytes : ℕ) where
  unfoldable pub failed : HandoffOutcome → Stage S
  failed outcome = pure (some (fail outcome digest none))

  unfoldable pub after_check : Reply ObjectComparisonResult → Stage S
  after_check (ok exact_match) = pure none
  after_check (ok mismatch) = failed hard_integrity_failure
  after_check (err e) = failed (read_failure e)

  unfoldable pub check_object : Text → Stage S
  check_object path = call (compare_stored_object storage lib path size_bytes digest) after_check

  module _ (temp_path : Text) (content : Bytes) where
    unfoldable pub after_first_write : Reply (Unit {0}) → Stage S
    after_first_write (ok _) = check_object temp_path
    after_first_write (err e) = failed (write_failure e)

    -- The handlers of the first `try`, which holds the overwriting write too.
    unfoldable pub stage_failed : StorageError → Stage S
    stage_failed not_found = call (storage.write_file temp_path content false) after_first_write
    stage_failed e = failed (write_failure e)

    unfoldable pub after_overwrite : Reply (Unit {0}) → Stage S
    after_overwrite (ok _) = check_object temp_path
    after_overwrite (err e) = stage_failed e

    unfoldable pub after_existing : Reply ObjectComparisonResult → Stage S
    after_existing (ok exact_match) = pure none
    after_existing (ok mismatch) = call (storage.write_file temp_path content true) after_overwrite
    after_existing (err e) = stage_failed e

    unfoldable pub stage_and_verify_upload : Stage S
    stage_and_verify_upload =
        call (compare_stored_object storage lib temp_path size_bytes digest) after_existing

  module _ (temp_path final_path : Text) where
    unfoldable pub after_publish : Reply (Unit {0}) → Stage S
    after_publish (ok _) = check_object final_path
    after_publish (err already_exists) = check_object final_path
    after_publish (err e) = failed (write_failure e)

    unfoldable pub publish_or_reuse_final : Stage S
    publish_or_reuse_final = call (storage.publish_no_replace temp_path final_path) after_publish
