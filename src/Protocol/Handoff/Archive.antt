-- ===== src/Protocol/Handoff/Archive.antt =====
-- protocol/handoff.py: `_archive_or_reuse_history`, which keeps the previous manifest's exact bytes.
use civ4_turn_relay.Prelude.{length, false, none, some, Text, Bytes}
use civ4_turn_relay.Domain.Libraries.{Libraries}
use civ4_turn_relay.Domain.Manifest.{Manifest}
use civ4_turn_relay.Storage.Port.{Storage, Reply, ok, err, Op, not_found, already_exists}
use civ4_turn_relay.Storage.Verification.{
  ObjectComparisonResult, exact_match, mismatch, compare_stored_object,
}
use civ4_turn_relay.Protocol.Action.{pure, call}
use civ4_turn_relay.Protocol.Handoff.Request.{HandoffOutcome, hard_integrity_failure, fail}
use civ4_turn_relay.Protocol.Handoff.Stage.{Stage, read_failure, write_failure}

module _ {S : Type 0} (storage : Storage S) (lib : Libraries) (outgoing_digest : Text)
    (m : Manifest) (exact_bytes : Bytes) (temp_history history_path : Text) where
  unfoldable pub archive_failed : HandoffOutcome → Stage S
  archive_failed outcome = pure (some (fail outcome outgoing_digest (some m)))

  -- The object at a path, held against the exact bytes.
  unfoldable pub compare_history : Text → Op S ObjectComparisonResult
  compare_history path =
      compare_stored_object storage lib path (length exact_bytes) (lib.sha256_hexdigest exact_bytes)

  -- The last check of a published object.
  unfoldable pub after_final : Reply ObjectComparisonResult → Stage S
  after_final (ok exact_match) = pure none
  after_final (ok mismatch) = archive_failed hard_integrity_failure
  after_final (err e) = archive_failed (read_failure e)

  unfoldable pub after_publish_history : Reply (Unit {0}) → Stage S
  after_publish_history (ok _) = call (compare_history history_path) after_final
  after_publish_history (err already_exists) = call (compare_history history_path) after_final
  after_publish_history (err e) = archive_failed (write_failure e)

  unfoldable pub after_staged : Reply ObjectComparisonResult → Stage S
  after_staged (ok exact_match) =
      call (storage.publish_no_replace temp_history history_path) after_publish_history
  after_staged (ok mismatch) = archive_failed hard_integrity_failure
  after_staged (err e) = archive_failed (read_failure e)

  unfoldable pub verify_staged : Stage S
  verify_staged = call (compare_history temp_history) after_staged

  unfoldable pub after_raced_check : Reply ObjectComparisonResult → Stage S
  after_raced_check (ok exact_match) = verify_staged
  after_raced_check (ok mismatch) = archive_failed hard_integrity_failure
  after_raced_check (err e) = archive_failed (read_failure e)

  unfoldable pub after_history_write : Reply (Unit {0}) → Stage S
  after_history_write (ok _) = verify_staged
  after_history_write (err already_exists) = call (compare_history temp_history) after_raced_check
  after_history_write (err e) = archive_failed (write_failure e)

  -- A temporary object with other bytes is never overwritten.
  unfoldable pub after_existing_temp : Reply ObjectComparisonResult → Stage S
  after_existing_temp (ok exact_match) = verify_staged
  after_existing_temp (ok mismatch) = archive_failed hard_integrity_failure
  after_existing_temp (err not_found) =
      call (storage.write_file temp_history exact_bytes false) after_history_write
  after_existing_temp (err e) = archive_failed (write_failure e)

  unfoldable pub archive_or_reuse_history : Stage S
  archive_or_reuse_history = call (compare_history temp_history) after_existing_temp
