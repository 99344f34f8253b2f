-- ===== src/Protocol/Lock/Effect.antt =====
-- protocol/lock.py: which files the lock's operations reach.
use civ4_turn_relay.Prelude.{◌≡◌, ◌≢◌, false, Text}
use civ4_turn_relay.Domain.Libraries.{Libraries}
use civ4_turn_relay.Storage.Port.{Storage}
use civ4_turn_relay.Storage.Laws.{StorageLaws}
use civ4_turn_relay.Protocol.Action.{World}
use civ4_turn_relay.Protocol.Paths.{upload_lock_dir, upload_lock_json}
use civ4_turn_relay.Protocol.Lock.Document.{Owner}
use civ4_turn_relay.Protocol.Lock.Keeps.{acquire-Keeps, release-Keeps}
use civ4_turn_relay.Protocol.Lock.Acquire.{LockRequest, acquire_or_resume_upload_lock}
use civ4_turn_relay.Protocol.Lock.Release.{release_owned_upload_lock}

module _ {S : Type 0} (storage : Storage S) (laws : StorageLaws storage) (lib : Libraries)
    (p : Text) where
  -- Acquiring or resuming the lock leaves every file as it was, save lock.json of the game, whether
  -- the calls of the adapter succeed, fail or are interrupted.
  pub acquire-file :
      (q : LockRequest) (w : World S)
      → upload_lock_json q.game_id ≢ p
      → laws.file (acquire_or_resume_upload_lock storage lib q w).1.storage p
        ≡ laws.file w.storage p
  acquire-file q w apart =
      (acquire-Keeps storage lib (λ s. laws.file s p) (λ r s. laws.file-read r p s)
          (λ r s. laws.file-list r p s) q (λ s. laws.file-mkdir (upload_lock_dir q.game_id) p s)
          (λ b s. laws.file-write_ne (upload_lock_json q.game_id) p b false s apart)).same
        w

  -- Releasing the lock leaves every file as it was, save lock.json of the game, whether the calls of
  -- the adapter succeed, fail or are interrupted.
  pub release-file :
      (game_id : Text) (o : Owner) (w : World S)
      → upload_lock_json game_id ≢ p
      → laws.file (release_owned_upload_lock storage lib game_id o w).1.storage p
        ≡ laws.file w.storage p
  release-file game_id o w apart =
      (release-Keeps storage lib (λ s. laws.file s p) (λ r s. laws.file-read r p s)
          (λ r s. laws.file-list r p s) game_id
          (λ s. laws.file-remove_file_ne (upload_lock_json game_id) p s apart)
          (λ s. laws.file-remove_dir (upload_lock_dir game_id) p s) o).same
        w
