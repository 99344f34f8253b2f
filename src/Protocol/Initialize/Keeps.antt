-- ===== src/Protocol/Initialize/Keeps.antt =====
-- protocol/initialize.py: what the parts of a creation leave as it was.
use civ4_turn_relay.Prelude.{◌≡◌, Text, Bytes}
use civ4_turn_relay.Domain.Libraries.{Libraries}
use civ4_turn_relay.Domain.Config.{MatchConfig}
use civ4_turn_relay.Domain.Manifest.{Manifest}
use civ4_turn_relay.Storage.Port.{
  Storage, StorageError, Reply, ok, err, already_exists, wrong_kind, capability, transport,
}
use civ4_turn_relay.Protocol.Action.Keeps.{Keeps, of_storage, Keeps-pure, Keeps-bind}
use civ4_turn_relay.Protocol.Lock.Observes.{read_manifest-Keeps}
use civ4_turn_relay.Protocol.Initialize.{
  classify_existing_game_root, classify_uncertain_commit, commit_failed, after_replace, after_root,
}

module _ {S X : Type 0} (storage : Storage S) (lib : Libraries) (config : MatchConfig)
    (operation_id : Text) (see : S → X)
    (on_read : (p : Text) (s : S) → see (storage.read_file p s).1 ≡ see s)
    (on_list : (p : Text) (s : S) → see (storage.list_dir p s).1 ≡ see s) where
  classify_existing-Keeps :
      Keeps (of_storage see) (classify_existing_game_root storage lib config operation_id)
  unfolding classify_existing_game_root
  classify_existing-Keeps =
      Keeps-bind _ _ (read_manifest-Keeps storage lib see on_read on_list config.game_id)
        (λ read. Keeps-pure _)

  classify_uncertain-Keeps :
      (payload : Bytes)
      → Keeps (of_storage see) (classify_uncertain_commit storage lib config operation_id payload)
  unfolding classify_uncertain_commit
  classify_uncertain-Keeps payload =
      Keeps-bind _ _ (read_manifest-Keeps storage lib see on_read on_list config.game_id)
        (λ read. Keeps-pure _)

  pub commit_failed-Keeps :
      (payload : Bytes) (e : StorageError)
      → Keeps (of_storage see) (commit_failed storage lib config operation_id payload e)
  unfolding commit_failed
  commit_failed-Keeps payload capability = Keeps-pure _
  commit_failed-Keeps payload transport = classify_uncertain-Keeps payload
  commit_failed-Keeps payload _ = Keeps-pure _

  pub after_replace-Keeps :
      (intended : Manifest) (r : Reply (Unit {0}))
      → Keeps (of_storage see) (after_replace storage lib config operation_id intended r)
  unfolding after_replace
  after_replace-Keeps intended (ok u) = Keeps-pure _
  after_replace-Keeps intended (err e) = commit_failed-Keeps _ e

  -- Where the root was not created.
  pub after_root-Keeps :
      (e : StorageError)
      → Keeps (of_storage see) (after_root storage lib config operation_id (err e))
  unfolding after_root
  after_root-Keeps already_exists = classify_existing-Keeps
  after_root-Keeps wrong_kind = Keeps-pure _
  after_root-Keeps capability = Keeps-pure _
  after_root-Keeps _ = Keeps-pure _
