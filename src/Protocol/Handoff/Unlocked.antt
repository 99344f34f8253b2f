-- ===== src/Protocol/Handoff/Unlocked.antt =====
-- protocol/handoff.py: `commit_handoff` without the lock.
use civ4_turn_relay.Prelude.{
  ◌≡◌, ◌≢◌, inl, inr, refl, if◌then◌else◌, Option-cases, Bool, true, false, Option, none, some,
  Text, arith,
}
use civ4_turn_relay.Domain.Libraries.{Libraries}
use civ4_turn_relay.Storage.Port.{Storage}
use civ4_turn_relay.Storage.Laws.{StorageLaws}
use civ4_turn_relay.Protocol.Action.{World, Action, pure, lift, read_storage, continue, ◌>>=◌}
use civ4_turn_relay.Protocol.Paths.{manifest, upload_lock_json, extension_from_original_filename}
use civ4_turn_relay.Protocol.Paths.Distinct.{Begins-ne, upload_lock_json-Begins, manifest-Begins}
use civ4_turn_relay.Protocol.Lock.Acquire
use civ4_turn_relay.Protocol.Lock.Acquire.{
  LockAcquireOutcome, LockAcquireResult, acquire_or_resume_upload_lock,
}
use civ4_turn_relay.Protocol.Lock.Effect.{acquire-file}
use civ4_turn_relay.Protocol.Handoff.Request.{HandoffRequest, capability_failure}
use civ4_turn_relay.Protocol.Handoff.Commit.{
  has_all, lock_request, refuse, after_outcome, after_lock, commit_handoff,
}

-- A raise, or a result without the lock.
abbrev pub IsUnlocked : Option LockAcquireResult → Type 0
IsUnlocked none = Unit
IsUnlocked (some r) = (r.outcome ≢ Acquire.acquired) × (r.outcome ≢ Acquire.resumed)

module _ {S : Type 0} (storage : Storage S) (laws : StorageLaws storage) (lib : Libraries)
    (q : HandoffRequest) where
  outcome_lem :
      (e : Text) (owned : Bool) (o : LockAcquireOutcome) (w : World S)
      → o ≢ Acquire.acquired
      → o ≢ Acquire.resumed
      → (after_outcome storage lib q e owned o w).1 ≡ w
  unfolding after_outcome refuse pure
  outcome_lem e owned Acquire.foreign_held w a r = refl
  outcome_lem e owned Acquire.unreadable w a r = refl
  outcome_lem e owned Acquire.capability_failure w a r = refl
  outcome_lem e owned Acquire.transport_failure w a r = refl
  outcome_lem e owned Acquire.acquired w a r = absurd (a refl)
  outcome_lem e owned Acquire.resumed w a r = absurd (r refl)

  lock_lem :
      (e : Text) (o : Option LockAcquireResult) (w : World S)
      → IsUnlocked o
      → (continue o (after_lock storage lib q e) w).1 ≡ w
  unfolding after_lock
  lock_lem e none w n = refl
  lock_lem e (some r) w n = outcome_lem e r.owned r.outcome w n.0 n.1

  lock_json-apart : upload_lock_json q.game_id ≢ manifest q.game_id
  lock_json-apart =
      Begins-ne q.game_id b'l' b'm' (upload_lock_json q.game_id) (manifest q.game_id)
        (λ e. ground arith) (upload_lock_json-Begins q.game_id) (manifest-Begins q.game_id)

  abbrev acquire : Action S LockAcquireResult
  acquire = acquire_or_resume_upload_lock storage lib (lock_request storage lib q)

  choice-unlocked :
      (e : Text) (b : Bool) (w : World S)
      → IsUnlocked (acquire w).0
      → laws.file
          ((if b
              then acquire >>= after_lock storage lib q e
              else refuse storage lib q capability_failure)
            w).1.storage
          (manifest q.game_id)
        ≡ laws.file w.storage (manifest q.game_id)
  unfolding ◌>>=◌ refuse pure lock_request
  choice-unlocked e false w n = refl
  choice-unlocked e true w n = rw (lock_lem e (acquire w).0 (acquire w).1 n) (
      acquire-file storage laws lib (manifest q.game_id) (lock_request storage lib q) w
        lock_json-apart)

  -- Where the lock is not taken, the manifest's file is as it was.
  pub commit-unlocked :
      (w : World S)
      → IsUnlocked (acquire w).0
      → laws.file (commit_handoff storage lib q w).1.storage (manifest q.game_id)
        ≡ laws.file w.storage (manifest q.game_id)
  unfolding commit_handoff ◌>>=◌ lift read_storage
  commit-unlocked w n = elim (Option-cases (extension_from_original_filename q.original_filename)) [
    | inl e ↦ rw e refl
    | inr (e, h) ↦ rw h (choice-unlocked e (has_all (storage.capabilities w.storage)) w n)
  ]
