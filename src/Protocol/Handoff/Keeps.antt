-- ===== src/Protocol/Handoff/Keeps.antt =====
-- protocol/handoff.py: the upload, the publication and the archive touch their own objects alone.
use civ4_turn_relay.Prelude.{ℕ, ◌≡◌, Text, Bytes, Bool, true, false}
use civ4_turn_relay.Domain.Libraries.{Libraries}
use civ4_turn_relay.Domain.Manifest.{Manifest}
use civ4_turn_relay.Storage.Port.{Storage, StorageError, Reply, ok, err, not_found, already_exists}
use civ4_turn_relay.Storage.Verification.{
  ObjectComparisonResult, exact_match, mismatch, compare_stored_object,
}
use civ4_turn_relay.Protocol.Action.Keeps.{Keeps, of_storage, Keeps-pure, Keeps-call}
use civ4_turn_relay.Protocol.Handoff.Stage.{
  after_check, check_object, after_first_write, stage_failed, after_overwrite, after_existing,
  stage_and_verify_upload, after_publish, publish_or_reuse_final, failed,
}
use civ4_turn_relay.Protocol.Handoff.Archive.{
  archive_failed, compare_history, after_final, after_publish_history, after_staged, verify_staged,
  after_raced_check, after_history_write, after_existing_temp, archive_or_reuse_history,
}

-- A comparison reads.
pub compare-same :
    {S : Type 0} {X : Type 0} (storage : Storage S) (lib : Libraries) (see : S → X)
    → ((p : Text) (s : S) → see (storage.read_file p s).1 ≡ see s)
    → (p : Text) (n : ℕ) (h : Text) (s : S)
    → see (compare_stored_object storage lib p n h s).1 ≡ see s
unfolding compare_stored_object
compare-same storage lib see on_read p n h s = on_read p s

-- `see` shows one of the files or directories, which reads and the writes to `temp` leave alone.
module _ {S X : Type 0} (storage : Storage S) (lib : Libraries) (see : S → X)
    (on_read : (p : Text) (s : S) → see (storage.read_file p s).1 ≡ see s) (temp final : Text)
    (on_write : (b : Bytes) (o : Bool) (s : S) → see (storage.write_file temp b o s).1 ≡ see s)
    (on_publish : (s : S) → see (storage.publish_no_replace temp final s).1 ≡ see s) where
  module _ (digest : Text) (size : ℕ) where
    after_check-Keeps :
        (r : Reply ObjectComparisonResult)
        → Keeps (of_storage see) (after_check storage lib digest size r)
    unfolding after_check failed
    after_check-Keeps (ok exact_match) = Keeps-pure _
    after_check-Keeps (ok mismatch) = Keeps-pure _
    after_check-Keeps (err e) = Keeps-pure _

    check_object-Keeps :
        (p : Text) → Keeps (of_storage see) (check_object storage lib digest size p)
    unfolding check_object
    check_object-Keeps p =
        Keeps-call see _ _ (compare-same storage lib see on_read p _ _) after_check-Keeps

    after_first_write-Keeps :
        (b : Bytes) (r : Reply (Unit {0}))
        → Keeps (of_storage see) (after_first_write storage lib digest size temp b r)
    unfolding after_first_write failed
    after_first_write-Keeps b (ok _) = check_object-Keeps temp
    after_first_write-Keeps b (err e) = Keeps-pure _

    stage_failed-Keeps :
        (b : Bytes) (e : StorageError)
        → Keeps (of_storage see) (stage_failed storage lib digest size temp b e)
    unfolding stage_failed failed
    stage_failed-Keeps b not_found =
        Keeps-call see _ _ (on_write b false) (after_first_write-Keeps b)
    stage_failed-Keeps b _ = Keeps-pure _

    after_overwrite-Keeps :
        (b : Bytes) (r : Reply (Unit {0}))
        → Keeps (of_storage see) (after_overwrite storage lib digest size temp b r)
    unfolding after_overwrite
    after_overwrite-Keeps b (ok _) = check_object-Keeps temp
    after_overwrite-Keeps b (err e) = stage_failed-Keeps b e

    after_existing-Keeps :
        (b : Bytes) (r : Reply ObjectComparisonResult)
        → Keeps (of_storage see) (after_existing storage lib digest size temp b r)
    unfolding after_existing
    after_existing-Keeps b (ok exact_match) = Keeps-pure _
    after_existing-Keeps b (ok mismatch) =
        Keeps-call see _ _ (on_write b true) (after_overwrite-Keeps b)
    after_existing-Keeps b (err e) = stage_failed-Keeps b e

    pub stage-Keeps :
        (b : Bytes)
        → Keeps (of_storage see) (stage_and_verify_upload storage lib digest size temp b)
    unfolding stage_and_verify_upload
    stage-Keeps b =
        Keeps-call see _ _ (compare-same storage lib see on_read temp _ _) (after_existing-Keeps b)

    after_publish-Keeps :
        (r : Reply (Unit {0}))
        → Keeps (of_storage see) (after_publish storage lib digest size temp final r)
    unfolding after_publish failed
    after_publish-Keeps (ok _) = check_object-Keeps final
    after_publish-Keeps (err already_exists) = check_object-Keeps final
    after_publish-Keeps (err _) = Keeps-pure _

    pub publish-Keeps :
        Keeps (of_storage see) (publish_or_reuse_final storage lib digest size temp final)
    unfolding publish_or_reuse_final
    publish-Keeps = Keeps-call see _ _ on_publish after_publish-Keeps

  module _ (digest : Text) (m : Manifest) (exact : Bytes) where
    compare_history-same :
        (p : Text) (s : S)
        → see (compare_history storage lib digest m exact temp final p s).1 ≡ see s
    unfolding compare_history
    compare_history-same p = compare-same storage lib see on_read p _ _

    after_final-Keeps :
        (r : Reply ObjectComparisonResult)
        → Keeps (of_storage see) (after_final storage lib digest m exact temp final r)
    unfolding after_final archive_failed
    after_final-Keeps (ok exact_match) = Keeps-pure _
    after_final-Keeps (ok mismatch) = Keeps-pure _
    after_final-Keeps (err e) = Keeps-pure _

    after_publish_history-Keeps :
        (r : Reply (Unit {0}))
        → Keeps (of_storage see) (after_publish_history storage lib digest m exact temp final r)
    unfolding after_publish_history archive_failed
    after_publish_history-Keeps (ok _) =
        Keeps-call see _ _ (compare_history-same final) after_final-Keeps
    after_publish_history-Keeps (err already_exists) =
        Keeps-call see _ _ (compare_history-same final) after_final-Keeps
    after_publish_history-Keeps (err _) = Keeps-pure _

    after_staged-Keeps :
        (r : Reply ObjectComparisonResult)
        → Keeps (of_storage see) (after_staged storage lib digest m exact temp final r)
    unfolding after_staged archive_failed
    after_staged-Keeps (ok exact_match) = Keeps-call see _ _ on_publish after_publish_history-Keeps
    after_staged-Keeps (ok mismatch) = Keeps-pure _
    after_staged-Keeps (err e) = Keeps-pure _

    verify_staged-Keeps :
        Keeps (of_storage see) (verify_staged storage lib digest m exact temp final)
    unfolding verify_staged
    verify_staged-Keeps = Keeps-call see _ _ (compare_history-same temp) after_staged-Keeps

    after_raced_check-Keeps :
        (r : Reply ObjectComparisonResult)
        → Keeps (of_storage see) (after_raced_check storage lib digest m exact temp final r)
    unfolding after_raced_check archive_failed
    after_raced_check-Keeps (ok exact_match) = verify_staged-Keeps
    after_raced_check-Keeps (ok mismatch) = Keeps-pure _
    after_raced_check-Keeps (err e) = Keeps-pure _

    after_history_write-Keeps :
        (r : Reply (Unit {0}))
        → Keeps (of_storage see) (after_history_write storage lib digest m exact temp final r)
    unfolding after_history_write archive_failed
    after_history_write-Keeps (ok _) = verify_staged-Keeps
    after_history_write-Keeps (err already_exists) =
        Keeps-call see _ _ (compare_history-same temp) after_raced_check-Keeps
    after_history_write-Keeps (err _) = Keeps-pure _

    after_existing_temp-Keeps :
        (r : Reply ObjectComparisonResult)
        → Keeps (of_storage see) (after_existing_temp storage lib digest m exact temp final r)
    unfolding after_existing_temp archive_failed
    after_existing_temp-Keeps (ok exact_match) = verify_staged-Keeps
    after_existing_temp-Keeps (ok mismatch) = Keeps-pure _
    after_existing_temp-Keeps (err not_found) =
        Keeps-call see _ _ (on_write exact false) after_history_write-Keeps
    after_existing_temp-Keeps (err _) = Keeps-pure _

    pub archive-Keeps :
        Keeps (of_storage see) (archive_or_reuse_history storage lib digest m exact temp final)
    unfolding archive_or_reuse_history
    archive-Keeps = Keeps-call see _ _ (compare_history-same temp) after_existing_temp-Keeps
