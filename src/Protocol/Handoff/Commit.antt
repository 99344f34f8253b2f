-- ===== src/Protocol/Handoff/Commit.antt =====
-- protocol/handoff.py: `commit_handoff`.
use civ4_turn_relay.Prelude.{if◌then◌else◌, Bool, ◌&&◌, none, Text}
use civ4_turn_relay.Domain.Libraries.{Libraries}
use civ4_turn_relay.Storage.Port.{Storage, StorageCapabilities}
use civ4_turn_relay.Protocol.Action.{Action, pure, lift, read_storage, ◌>>=◌}
use civ4_turn_relay.Protocol.Paths.{extension_from_original_filename}
use civ4_turn_relay.Protocol.Lock.Acquire.{
  LockAcquireOutcome, LockAcquireResult, LockRequest, acquire_or_resume_upload_lock,
}
use civ4_turn_relay.Protocol.Lock.Acquire
use civ4_turn_relay.Protocol.Handoff.Request.{
  HandoffRequest, HandoffResult, HandoffOutcome, lock_held, lock_unreadable, capability_failure,
  transport_failure, fail, owner_of,
}
use civ4_turn_relay.Protocol.Handoff.Plan.{digest}
use civ4_turn_relay.Protocol.Handoff.Owned.{run_owned_handoff}
use civ4_turn_relay.Protocol.Handoff.Cleanup.{apply_cleanup}

unfoldable pub has_all : StorageCapabilities → Bool
has_all caps =
    caps.exclusive_mkdir && caps.atomic_replace && caps.atomic_publish_no_replace
    && caps.complete_readback

module _ {S : Type 0} (storage : Storage S) (lib : Libraries) (q : HandoffRequest) where
  unfoldable pub lock_request : LockRequest
  lock_request = record {
    game_id = q.game_id;
    owner = owner_of q;
    now_utc = q.now_utc;
    sha256 = digest lib q;
  }

  unfoldable pub refuse : HandoffOutcome → Action S HandoffResult
  refuse outcome = pure (fail outcome (digest lib q) none)

  unfoldable pub run_and_clean : Text → Action S HandoffResult
  run_and_clean extension =
      run_owned_handoff storage lib q extension >>= λ r. apply_cleanup storage lib q r.0 r.1

  unfoldable pub after_outcome : Text → Bool → LockAcquireOutcome → Action S HandoffResult
  after_outcome extension owned Acquire.foreign_held = refuse lock_held
  after_outcome extension owned Acquire.unreadable = refuse lock_unreadable
  after_outcome extension owned Acquire.capability_failure = refuse capability_failure
  after_outcome extension owned Acquire.transport_failure = refuse transport_failure
  after_outcome extension owned _ =
      if owned then run_and_clean extension else refuse transport_failure

  unfoldable pub after_lock : Text → LockAcquireResult → Action S HandoffResult
  after_lock extension lock = after_outcome extension lock.owned lock.outcome

  unfoldable pub commit_handoff : Action S HandoffResult
  commit_handoff = do
    extension ← lift (extension_from_original_filename q.original_filename)
    able ← read_storage (λ s. has_all (storage.capabilities s))
    if able
        then acquire_or_resume_upload_lock storage lib lock_request >>= after_lock extension
        else refuse capability_failure
