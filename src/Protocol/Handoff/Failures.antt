-- ===== src/Protocol/Handoff/Failures.antt =====
-- protocol/handoff.py: a failed upload, publication or archive never reports a commit.
use civ4_turn_relay.Prelude.{
  ℕ, ◌≡◌, ◌≢◌, refl, subst, arith, false, Option, none, some, Text, Bytes,
}
use civ4_turn_relay.Domain.Libraries.{Libraries}
use civ4_turn_relay.Domain.Manifest.{Manifest}
use civ4_turn_relay.Storage.Port.{Storage, StorageError, Reply, ok, err, not_found, already_exists}
use civ4_turn_relay.Storage.Verification.{ObjectComparisonResult, exact_match, mismatch}
use civ4_turn_relay.Protocol.Action.{World, pure, call}
use civ4_turn_relay.Protocol.Handoff.Request.{HandoffResult, HandoffOutcome, committed, fail}
use civ4_turn_relay.Protocol.Handoff.Stage.{
  Stage, after_check, check_object, after_first_write, stage_failed, after_overwrite,
  after_existing, stage_and_verify_upload, after_publish, publish_or_reuse_final, failed,
  read_failure, write_failure,
}
use civ4_turn_relay.Protocol.Handoff.Archive.{
  archive_failed, after_final, after_publish_history, after_staged, verify_staged,
  after_raced_check, after_history_write, after_existing_temp, archive_or_reuse_history,
}

pub read_failure-ne : (e : StorageError) → read_failure e ≢ committed
unfolding read_failure
read_failure-ne e h = ground arith

pub write_failure-ne : (e : StorageError) → write_failure e ≢ committed
unfolding write_failure
write_failure-ne e h = ground arith

-- No result, or one that reports no commit and no change.
abbrev pub IsHarmless : Option HandoffResult → Type 0
IsHarmless none = Unit
IsHarmless (some r) = (r.outcome ≢ committed) × (r.manifest_changed ≡ false)

abbrev IsHarmlessReply : Option (Option HandoffResult) → Type 0
IsHarmlessReply none = Unit
IsHarmlessReply (some r) = IsHarmless r

-- From every world, what a stage returns is harmless.
abbrev FailsSafe : {S : Type 0} → Stage S → Type 0
FailsSafe {S = S} m = (w : World S) → IsHarmlessReply (m w).0

pub harmless :
    {S : Type 0} (m : Stage S)
    → FailsSafe m
    → (w : World S) (r : Option HandoffResult) → (m w).0 ≡ some r
    → IsHarmless r
harmless m h w r e = subst IsHarmlessReply e (h w)

module _ {S : Type 0} (storage : Storage S) (lib : Libraries) (temp final : Text) where
  module _ (digest : Text) (size : ℕ) where
    failed-FailsSafe :
        (o : HandoffOutcome) → o ≢ committed → FailsSafe (failed storage lib digest size o)
    unfolding failed pure fail
    failed-FailsSafe o n w = (n, refl)

    after_check-FailsSafe :
        (r : Reply ObjectComparisonResult) → FailsSafe (after_check storage lib digest size r)
    unfolding after_check pure
    after_check-FailsSafe (ok exact_match) w = tt
    after_check-FailsSafe (ok mismatch) w = failed-FailsSafe _ (λ e. cc) w
    after_check-FailsSafe (err e) w = failed-FailsSafe _ (read_failure-ne e) w

    check_object-FailsSafe : (p : Text) → FailsSafe (check_object storage lib digest size p)
    unfolding check_object call
    check_object-FailsSafe p w = after_check-FailsSafe _ _

    after_first_write-FailsSafe :
        (b : Bytes) (r : Reply (Unit {0}))
        → FailsSafe (after_first_write storage lib digest size temp b r)
    unfolding after_first_write
    after_first_write-FailsSafe b (ok u) w = check_object-FailsSafe temp w
    after_first_write-FailsSafe b (err e) w = failed-FailsSafe _ (write_failure-ne e) w

    stage_failed-FailsSafe :
        (b : Bytes) (e : StorageError) → FailsSafe (stage_failed storage lib digest size temp b e)
    unfolding stage_failed call
    stage_failed-FailsSafe b not_found w = after_first_write-FailsSafe b _ _
    stage_failed-FailsSafe b e w = failed-FailsSafe _ (write_failure-ne e) w

    after_overwrite-FailsSafe :
        (b : Bytes) (r : Reply (Unit {0}))
        → FailsSafe (after_overwrite storage lib digest size temp b r)
    unfolding after_overwrite
    after_overwrite-FailsSafe b (ok u) w = check_object-FailsSafe temp w
    after_overwrite-FailsSafe b (err e) w = stage_failed-FailsSafe b e w

    after_existing-FailsSafe :
        (b : Bytes) (r : Reply ObjectComparisonResult)
        → FailsSafe (after_existing storage lib digest size temp b r)
    unfolding after_existing pure call
    after_existing-FailsSafe b (ok exact_match) w = tt
    after_existing-FailsSafe b (ok mismatch) w = after_overwrite-FailsSafe b _ _
    after_existing-FailsSafe b (err e) w = stage_failed-FailsSafe b e w

    pub stage-FailsSafe :
        (b : Bytes) → FailsSafe (stage_and_verify_upload storage lib digest size temp b)
    unfolding stage_and_verify_upload call
    stage-FailsSafe b w = after_existing-FailsSafe b _ _

    after_publish-FailsSafe :
        (r : Reply (Unit {0})) → FailsSafe (after_publish storage lib digest size temp final r)
    unfolding after_publish
    after_publish-FailsSafe (ok u) w = check_object-FailsSafe final w
    after_publish-FailsSafe (err already_exists) w = check_object-FailsSafe final w
    after_publish-FailsSafe (err e) w = failed-FailsSafe _ (write_failure-ne e) w

    pub publish-FailsSafe : FailsSafe (publish_or_reuse_final storage lib digest size temp final)
    unfolding publish_or_reuse_final call
    publish-FailsSafe w = after_publish-FailsSafe _ _

  module _ (digest : Text) (m : Manifest) (exact : Bytes) where
    archive_failed-FailsSafe :
        (o : HandoffOutcome)
        → o ≢ committed
        → FailsSafe (archive_failed storage lib digest m exact temp final o)
    unfolding archive_failed pure fail
    archive_failed-FailsSafe o n w = (n, refl)

    after_final-FailsSafe :
        (r : Reply ObjectComparisonResult)
        → FailsSafe (after_final storage lib digest m exact temp final r)
    unfolding after_final pure
    after_final-FailsSafe (ok exact_match) w = tt
    after_final-FailsSafe (ok mismatch) w = archive_failed-FailsSafe _ (λ e. cc) w
    after_final-FailsSafe (err e) w = archive_failed-FailsSafe _ (read_failure-ne e) w

    after_publish_history-FailsSafe :
        (r : Reply (Unit {0}))
        → FailsSafe (after_publish_history storage lib digest m exact temp final r)
    unfolding after_publish_history call
    after_publish_history-FailsSafe (ok u) w = after_final-FailsSafe _ _
    after_publish_history-FailsSafe (err already_exists) w = after_final-FailsSafe _ _
    after_publish_history-FailsSafe (err e) w = archive_failed-FailsSafe _ (write_failure-ne e) w

    after_staged-FailsSafe :
        (r : Reply ObjectComparisonResult)
        → FailsSafe (after_staged storage lib digest m exact temp final r)
    unfolding after_staged call
    after_staged-FailsSafe (ok exact_match) w = after_publish_history-FailsSafe _ _
    after_staged-FailsSafe (ok mismatch) w = archive_failed-FailsSafe _ (λ e. cc) w
    after_staged-FailsSafe (err e) w = archive_failed-FailsSafe _ (read_failure-ne e) w

    verify_staged-FailsSafe : FailsSafe (verify_staged storage lib digest m exact temp final)
    unfolding verify_staged call
    verify_staged-FailsSafe w = after_staged-FailsSafe _ _

    after_raced_check-FailsSafe :
        (r : Reply ObjectComparisonResult)
        → FailsSafe (after_raced_check storage lib digest m exact temp final r)
    unfolding after_raced_check
    after_raced_check-FailsSafe (ok exact_match) w = verify_staged-FailsSafe w
    after_raced_check-FailsSafe (ok mismatch) w = archive_failed-FailsSafe _ (λ e. cc) w
    after_raced_check-FailsSafe (err e) w = archive_failed-FailsSafe _ (read_failure-ne e) w

    after_history_write-FailsSafe :
        (r : Reply (Unit {0}))
        → FailsSafe (after_history_write storage lib digest m exact temp final r)
    unfolding after_history_write call
    after_history_write-FailsSafe (ok u) w = verify_staged-FailsSafe w
    after_history_write-FailsSafe (err already_exists) w = after_raced_check-FailsSafe _ _
    after_history_write-FailsSafe (err e) w = archive_failed-FailsSafe _ (write_failure-ne e) w

    after_existing_temp-FailsSafe :
        (r : Reply ObjectComparisonResult)
        → FailsSafe (after_existing_temp storage lib digest m exact temp final r)
    unfolding after_existing_temp call
    after_existing_temp-FailsSafe (ok exact_match) w = verify_staged-FailsSafe w
    after_existing_temp-FailsSafe (ok mismatch) w = archive_failed-FailsSafe _ (λ e. cc) w
    after_existing_temp-FailsSafe (err not_found) w = after_history_write-FailsSafe _ _
    after_existing_temp-FailsSafe (err e) w = archive_failed-FailsSafe _ (write_failure-ne e) w

    pub archive-FailsSafe :
        FailsSafe (archive_or_reuse_history storage lib digest m exact temp final)
    unfolding archive_or_reuse_history call
    archive-FailsSafe w = after_existing_temp-FailsSafe _ _
