-- ===== src/Protocol/Handoff/Cleanup.antt =====
-- protocol/handoff.py: `_apply_cleanup`.
use civ4_turn_relay.Prelude.{true, false}
use civ4_turn_relay.Domain.Libraries.{Libraries}
use civ4_turn_relay.Storage.Port.{Storage}
use civ4_turn_relay.Protocol.Action.{Action, pure, write_journal, ◌>>=◌, ◌>>◌}
use civ4_turn_relay.Protocol.Journal.{clear_in_progress}
use civ4_turn_relay.Protocol.Lock.Release.{
  LockReleaseOutcome, released, absent_lock, not_owned, unreadable_lock, transport_failed,
  release_owned_upload_lock,
}
use civ4_turn_relay.Protocol.Handoff.Request.{
  HandoffRequest, HandoffResult, CleanupAction, retain, committed, lock_cleanup_ambiguous, owner_of,
}

-- The result whose cleanup is not certain; the manifest counts as changed after a commit only.
unfoldable pub ambiguous_result : HandoffResult → HandoffResult
ambiguous_result r = record r {
  outcome = lock_cleanup_ambiguous;
  manifest_changed = elim r.outcome [ committed ↦ true | _ ↦ false ];
}

module _ {S : Type 0} (storage : Storage S) (lib : Libraries) (q : HandoffRequest) where
  unfoldable pub clear_journal : HandoffResult → Action S HandoffResult
  clear_journal r = write_journal (clear_in_progress q.game_id) >> pure r

  unfoldable pub after_release : HandoffResult → LockReleaseOutcome → Action S HandoffResult
  after_release r transport_failed = pure (ambiguous_result r)
  after_release r released = clear_journal r
  after_release r absent_lock = clear_journal r
  after_release r not_owned = clear_journal r
  after_release r unreadable_lock = pure (record r { outcome = lock_cleanup_ambiguous })

  unfoldable pub apply_cleanup : HandoffResult → CleanupAction → Action S HandoffResult
  apply_cleanup r retain = pure r
  apply_cleanup r _ =
      release_owned_upload_lock storage lib q.game_id (owner_of q) >>= after_release r
